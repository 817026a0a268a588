-- ===== src/Reconcile/Registry/Rows.antt =====
-- internal/reconcile/registry.go: what the statements do to the row of a key, and to those of others.
use pg_noty.Base.{
  ◌≡◌, refl, sym, ap, ◌∙◌, subst, ◌⊎◌, inl, inr, Bool, true, false, ◌&&◌, Option, none, some, List,
  [], ◌∷◌, if◌then◌else◌, any, arith, Text, text_eq, text_eq_iff, Bool-cases, ok, then_ok,
}
use pg_noty.Schema.Identifier.{Quoter}
use pg_noty.Reconcile.Registry.{
  RegistryTrigger, TriggerRow, Statement, same_trigger, is_row_of, is_other_operation,
  upsert_trigger, delete_other_operations, upsert_triggers,
}

abbrev pub trigger_at : Text → Text → List TriggerRow → Option RegistryTrigger
trigger_at l o [] = none
trigger_at l o (r ∷ rows) = if is_row_of l o r then some (r.1) else trigger_at l o rows

-- The last trigger of an operation, which is the one that counts.
abbrev pub last_at : Text → List RegistryTrigger → Option RegistryTrigger
last_at o [] = none
last_at o (t ∷ ts) = elim (last_at o ts) [
  | some u ↦ some u
  | none ↦ if text_eq t.operation o then some t else none
]

abbrev pub or_before : Option RegistryTrigger → Option RegistryTrigger → Option RegistryTrigger
or_before none b = b
or_before (some t) b = some t

and_inv : (a b : Bool) → (a && b) ≡ true → (a ≡ true) × (b ≡ true)
and_inv true b h = (refl, h)
and_inv false b h = absurd (cc)

text_eq_refl : (s : Text) → text_eq s s ≡ true
text_eq_refl s = (text_eq_iff s s).1 refl

-- A row of a key is of the keys that equal it.
row_key :
    (n m l o : Text) (r : TriggerRow)
    → is_row_of n m r ≡ true
    → is_row_of l o r ≡ (text_eq n l && text_eq m o)
row_key n m l o (k, t) h =
    let (a, b) = and_inv (text_eq k n) (text_eq t.operation m) h in
    let e = (text_eq_iff k n).0 a in
    let f = (text_eq_iff t.operation m).0 b in
    ap (λ x. text_eq x l && text_eq t.operation o) e ∙ ap (λ x. text_eq n l && text_eq x o) f

same_trigger-eq :
    (a b : RegistryTrigger)
    → text_eq a.operation b.operation ≡ true
    → same_trigger a b ≡ true
    → a ≡ b
same_trigger-eq a b h k =
    let (k1, k') = and_inv (text_eq a.trigger_name b.trigger_name) _ k in
    let (k2, k3) = and_inv (text_eq a.function_name b.function_name) _ k' in
    let e0 = (text_eq_iff a.operation b.operation).0 h in
    let e1 = (text_eq_iff a.trigger_name b.trigger_name).0 k1 in
    let e2 = (text_eq_iff a.function_name b.function_name).0 k2 in
    let e3 = (text_eq_iff a.ddl_hash b.ddl_hash).0 k3 in
    λ i. record { operation = e0 i; trigger_name = e1 i; function_name = e2 i; ddl_hash = e3 i }

upsert_trigger_own :
    (n : Text) (t : RegistryTrigger) (rows : List TriggerRow)
    → trigger_at n t.operation (upsert_trigger n t rows).0 ≡ some t
unfolding upsert_trigger
upsert_trigger_own n t [] = rw (text_eq_refl n, text_eq_refl t.operation) refl
upsert_trigger_own n t (r ∷ rows) = elim (Bool-cases (is_row_of n t.operation r)) [
  | inr e ↦ rw (e, upsert_trigger, e) (upsert_trigger_own n t rows)
  | inl e ↦ elim (Bool-cases (same_trigger (r.1) t)) [
    | inl f ↦
        let (_, g) = and_inv (text_eq (r.0) n) (text_eq r.1.operation t.operation) e in
        rw (e, f, e) (ap (λ u. some u) (same_trigger-eq (r.1) t g f))
    | inr f ↦ rw (e, f, text_eq_refl n, text_eq_refl t.operation) refl
  ]
]

upsert_trigger_other :
    (n : Text) (t : RegistryTrigger) (rows : List TriggerRow) (l o : Text)
    → (text_eq n l && text_eq t.operation o) ≡ false
    → trigger_at l o (upsert_trigger n t rows).0 ≡ trigger_at l o rows
unfolding upsert_trigger
upsert_trigger_other n t [] l o h = rw h refl
upsert_trigger_other n t (r ∷ rows) l o h = elim (Bool-cases (is_row_of n t.operation r)) [
  | inr e ↦
      rw e
        (ap (λ x. if is_row_of l o r then some (r.1) else x) (upsert_trigger_other n t rows l o h))
  | inl e ↦
      let off = row_key n t.operation l o r e ∙ h in
      elim (Bool-cases (same_trigger (r.1) t)) [
        | inl f ↦ rw (e, f) refl
        | inr f ↦ rw (e, f, h, off) refl
      ]
]

last_at-cases :
    (o : Text) (ts : List RegistryTrigger)
    → ((any (λ t. text_eq t.operation o) ts ≡ true)
        × (u : RegistryTrigger) × (last_at o ts ≡ some u))
      ⊎ ((any (λ t. text_eq t.operation o) ts ≡ false) × (last_at o ts ≡ none))
last_at-cases o [] = inr (refl, refl)
last_at-cases o (t ∷ ts) = elim (last_at-cases o ts) [
  | inl (found, u, e) ↦ inl (ground arith, u, rw e refl)
  | inr (lost, e) ↦ elim (Bool-cases (text_eq t.operation o)) [
    | inl f ↦ inl (rw f refl, t, rw (e, f) refl)
    | inr f ↦ inr (rw (f, lost) refl, rw (e, f) refl)
  ]
]

delete_other_operations_own :
    (n o : Text) (ts : List RegistryTrigger) (rows : List TriggerRow)
    → trigger_at n o (delete_other_operations n ts rows)
      ≡ (if is_other_operation ts o then none else trigger_at n o rows)
unfolding delete_other_operations
delete_other_operations_own n o ts [] = elim (Bool-cases (is_other_operation ts o)) [
  | inl e ↦ rw e refl
  | inr e ↦ rw e refl
]
delete_other_operations_own n o ts ((k, t) ∷ rows) = elim (Bool-cases (text_eq k n)) [
  | inr e ↦ rw (e, delete_other_operations_own n o ts rows) (rw e refl)
  | inl e ↦ elim (Bool-cases (text_eq t.operation o)) [
    | inl f ↦
        let same = (text_eq_iff t.operation o).0 f in
        let as_o = ap (is_other_operation ts) same in
        elim (Bool-cases (is_other_operation ts o)) [
          | inl g ↦ rw (e, as_o, g, delete_other_operations_own n o ts rows, g) refl
          | inr g ↦ rw (e, as_o, g, e, f) refl
        ]
    | inr f ↦ elim (Bool-cases (is_other_operation ts t.operation)) [
      | inl g ↦ rw (e, g, f, delete_other_operations_own n o ts rows) refl
      | inr g ↦ rw (e, g, e, f, delete_other_operations_own n o ts rows) refl
    ]
  ]
]

pub delete_other_operations_other :
    (n l o : Text) (ts : List RegistryTrigger) (rows : List TriggerRow)
    → text_eq n l ≡ false
    → trigger_at l o (delete_other_operations n ts rows) ≡ trigger_at l o rows
unfolding delete_other_operations
delete_other_operations_other n l o ts [] h = refl
delete_other_operations_other n l o ts ((k, t) ∷ rows) h = elim (Bool-cases (text_eq k n)) [
  | inr e ↦ rw (e, delete_other_operations_other n l o ts rows h) refl
  | inl e ↦
      let off = subst (λ x. text_eq x l ≡ false) (sym ((text_eq_iff k n).0 e)) h in
      elim (Bool-cases (is_other_operation ts t.operation)) [
        | inl g ↦ rw (e, g, off, delete_other_operations_other n l o ts rows h) refl
        | inr g ↦ rw (e, g, off, delete_other_operations_other n l o ts rows h) refl
      ]
]

module _ (q : Quoter) (refuses : Statement → Bool) where
  pub upsert_triggers_lem :
      (n : Text) (ts : List RegistryTrigger) (rows : List TriggerRow) (changed : Bool)
      {after : List TriggerRow × Bool}
      → upsert_triggers q refuses n ts (rows, changed) ≡ ok after
      → (o : Text) → trigger_at n o (after.0) ≡ or_before (last_at o ts) (trigger_at n o rows)
  unfolding upsert_triggers
  upsert_triggers_lem n [] rows changed {after} h o =
      let same : rows ≡ after.0 = cc in ap (trigger_at n o) (sym same)
  upsert_triggers_lem n (t ∷ ts) rows changed h o =
      let (_, k) = then_ok _ _ _ h in
      let rest = upsert_triggers_lem n ts (upsert_trigger n t rows).0 _ k o in
      elim (last_at-cases o ts) [
        | inl (_, u, e) ↦ rw e (rw e at rest)
        | inr (_, e) ↦ elim (Bool-cases (text_eq t.operation o)) [
          | inl f ↦
              let same = (text_eq_iff t.operation o).0 f in
              rw (e, f)
                ((rw e at rest)
                  ∙ subst (λ x. trigger_at n x (upsert_trigger n t rows).0 ≡ some t) same
                      (upsert_trigger_own n t rows))
          | inr f ↦
              rw (e, f)
                ((rw e at rest) ∙ upsert_trigger_other n t rows n o (rw (text_eq_refl n, f) refl))
        ]
      ]

  pub upsert_triggers_other :
      (n : Text) (ts : List RegistryTrigger) (rows : List TriggerRow) (changed : Bool)
      {after : List TriggerRow × Bool}
      → upsert_triggers q refuses n ts (rows, changed) ≡ ok after
      → (l o : Text) → text_eq n l ≡ false
      → trigger_at l o (after.0) ≡ trigger_at l o rows
  unfolding upsert_triggers
  upsert_triggers_other n [] rows changed {after} h l o off =
      let same : rows ≡ after.0 = cc in ap (trigger_at l o) (sym same)
  upsert_triggers_other n (t ∷ ts) rows changed h l o off =
      let (_, k) = then_ok _ _ _ h in
      upsert_triggers_other n ts (upsert_trigger n t rows).0 _ k l o off
      ∙ upsert_trigger_other n t rows l o (rw off refl)

-- After the upserts and the deletion a listener has the last trigger of each operation, and nothing else.
pub own_triggers :
    (n o : Text) (ts : List RegistryTrigger) (rows upserted : List TriggerRow)
    → trigger_at n o upserted ≡ or_before (last_at o ts) (trigger_at n o rows)
    → trigger_at n o (delete_other_operations n ts upserted) ≡ last_at o ts
own_triggers n o ts rows upserted h =
    delete_other_operations_own n o ts upserted ∙ elim (last_at-cases o ts) [
      | inl (found, u, e) ↦ rw (found, e) (h ∙ rw e refl)
      | inr (lost, e) ↦ rw (lost, e) refl
    ]
