-- ===== src/Reconcile/Registry/Written.antt =====
-- internal/reconcile/registry.go: `writeRegistry` records what it is given.
use pg_noty.Base.{
  ◌≡◌, refl, sym, ap, ◌∙◌, subst, inl, inr, Bool, true, false, not, ◌&&◌, ◌||◌, some, some_inv,
  List, [], ◌∷◌, map, if◌then◌else◌, ◌==◌, ==_iff, length, ℤ, Text, codes, text_eq, text_eq_iff,
  Bool-cases, Option-cases, ok, bind_ok, then_ok, ok_inv,
}
use pg_noty.Schema.Identifier.{Quoter}
use pg_noty.Source.Qualified.{split_qualified}
use pg_noty.Reconcile.Registry.{
  Jsonb, RegistryListener, RegistryTrigger, RegistryReading, Registry, Statement, TriggerRow,
  insert_listener, delete_triggers, touch_listener, read_rows, same_listener, touched,
  upsert_listener, delete_other_operations, listener_named, qualified_registry_table,
  canonical_target, executed, read_registry, upsert_triggers, touch_if_changed, write_registry,
}
use pg_noty.Reconcile.Registry.Rows.{
  trigger_at, last_at, own_triggers, upsert_triggers_lem, upsert_triggers_other,
  delete_other_operations_other,
}

-- The row of a listener, applied at some time.
abbrev pub applied : RegistryListener → ℤ → RegistryListener
applied l at = record l { applied_at = at }

and_inv : (a b : Bool) → (a && b) ≡ true → (a ≡ true) × (b ≡ true)
and_inv true b h = (refl, h)
and_inv false b h = absurd (cc)

same_bool : (a b : Bool) → (if a then b else not b) ≡ true → a ≡ b
same_bool true true h = refl
same_bool true false h = absurd (cc)
same_bool false true h = absurd (cc)
same_bool false false h = refl

-- The row that is written for a listener.
abbrev pub row_of : Jsonb → Text → RegistryListener → RegistryListener
row_of json target listener = record listener {
  spec = json.render listener.spec;
  target_table = target;
}

module _ (json : Jsonb) where
  -- A row that holds what is given: its spec may be another spelling of the same value.
  pub record Records (l s : RegistryListener) : Type 0 where
    pub spec : json.is_same s.spec l.spec ≡ true
    pub others : s ≡ record l { spec = s.spec; applied_at = s.applied_at }

  Records-applied : (l : RegistryListener) (at : ℤ) → Records l (applied l at)
  Records-applied l at = record { spec = json.is_same_self l.spec; others = refl }

  same_listener-Records :
      (a b : RegistryListener)
      → text_eq a.name b.name ≡ true
      → same_listener json a b ≡ true
      → Records b a
  same_listener-Records a b h k =
      let (k1, r1) = and_inv (json.is_same a.spec b.spec) _ k in
      let (k2, r2) = and_inv (text_eq a.spec_hash b.spec_hash) _ r1 in
      let (k3, r3) = and_inv (text_eq a.target_table b.target_table) _ r2 in
      let (k4, k5) = and_inv (a.target_oid == b.target_oid) _ r3 in
      let e0 = (text_eq_iff a.name b.name).0 h in
      let e2 = (text_eq_iff a.spec_hash b.spec_hash).0 k2 in
      let e3 = (text_eq_iff a.target_table b.target_table).0 k3 in
      let e4 = (==_iff a.target_oid b.target_oid).0 k4 in
      let e5 = same_bool a.enabled b.enabled k5 in
      record {
        spec = k1;
        others = λ i. record {
          name = e0 i;
          spec = a.spec;
          spec_hash = e2 i;
          target_table = e3 i;
          target_oid = e4 i;
          enabled = e5 i;
          applied_at = a.applied_at;
        };
      }

  upsert_listener_own :
      (now : ℤ) (l : RegistryListener) (ls : List RegistryListener)
      → (s : RegistryListener) × Records l s
        × (listener_named l.name (upsert_listener json now l ls).0 ≡ some s)
  unfolding upsert_listener listener_named
  upsert_listener_own now l [] =
      (applied l now, Records-applied l now, rw ((text_eq_iff l.name l.name).1 refl) refl)
  upsert_listener_own now l (s ∷ ss) = elim (Bool-cases (text_eq s.name l.name)) [
    | inr e ↦
        let (at, records, rest) = upsert_listener_own now l ss in
        (at, records, rw (e, upsert_listener, e) rest)
    | inl e ↦ elim (Bool-cases (same_listener json s l)) [
      | inl f ↦ (s, same_listener-Records s l e f, rw (e, f, e) refl)
      | inr f ↦
          (applied l now, Records-applied l now, rw (e, f, (text_eq_iff l.name l.name).1 refl) refl)
    ]
  ]

  upsert_listener_other :
      (now : ℤ) (l : RegistryListener) (ls : List RegistryListener) (other : Text)
      → text_eq l.name other ≡ false
      → listener_named other (upsert_listener json now l ls).0 ≡ listener_named other ls
  unfolding upsert_listener listener_named
  upsert_listener_other now l [] other off = rw off refl
  upsert_listener_other now l (s ∷ ss) other off = elim (Bool-cases (text_eq s.name l.name)) [
    | inr e ↦ rw (e, upsert_listener_other now l ss other off) refl
    | inl e ↦
        let off' =
          subst (λ x. text_eq x other ≡ false) (sym ((text_eq_iff s.name l.name).0 e)) off in
        elim (Bool-cases (same_listener json s l)) [
          | inl f ↦ rw (e, f) refl
          | inr f ↦ rw (e, f, off, off') refl
        ]
  ]

touched_own :
    (now : ℤ) (name : Text) (ls : List RegistryListener) (l : RegistryListener)
    → listener_named name ls ≡ some l
    → listener_named name (map (touched now name) ls) ≡ some (applied l now)
unfolding listener_named
touched_own now name [] l h = absurd (cc)
touched_own now name (s ∷ ss) l h = elim (Bool-cases (text_eq s.name name)) [
  | inl e ↦ rw (touched, e, e) (ap (λ r. some (applied r now)) (some_inv (rw e at h)))
  | inr e ↦ rw (touched, e, e) (touched_own now name ss l (rw e at h))
]

touched_other :
    (now : ℤ) (name other : Text) (ls : List RegistryListener)
    → text_eq name other ≡ false
    → listener_named other (map (touched now name) ls) ≡ listener_named other ls
unfolding listener_named
touched_other now name other [] off = refl
touched_other now name other (s ∷ ss) off = elim (Bool-cases (text_eq s.name name)) [
  | inl e ↦
      let off' = subst (λ x. text_eq x other ≡ false) (sym ((text_eq_iff s.name name).0 e)) off in
      rw (touched, e, off', touched_other now name other ss off) refl
  | inr e ↦ rw (touched, e, touched_other now name other ss off) refl
]

module _ (q : Quoter) (refuses : Statement → Bool) where
  touch_lem :
      (now : ℤ) (json : Jsonb) (l stored : RegistryListener) (changed listener_changed : Bool)
      (before : List RegistryListener) (other : Text) {ls : List RegistryListener}
      → touch_if_changed q refuses now l.name changed listener_changed before ≡ ok ls
      → Records json l stored
      → listener_named l.name before ≡ some stored
      → text_eq l.name other ≡ false
      → ((s : RegistryListener) × Records json l s × (listener_named l.name ls ≡ some s))
        × (listener_named other ls ≡ listener_named other before)
  touch_lem now json l stored changed listener_changed before other {ls} h records e off =
      elim (Bool-cases (changed && not listener_changed)) [
        | inl f ↦
            let (_, k) =
              then_ok (executed q refuses touch_listener) (ok (map (touched now l.name) before)) ls
                (rw (touch_if_changed, f) at h) in
            let same = ok_inv (ok (map (touched now l.name) before)) refl k in
            subst
              (λ x.
                ((s : RegistryListener) × Records json l s × (listener_named l.name x ≡ some s))
                × (listener_named other x ≡ listener_named other before))
              same
              (
                (
                  applied stored now,
                  record { spec = records.spec; others = ap (λ s. applied s now) records.others },
                  touched_own now l.name before stored e,
                ),
                touched_other now l.name other before off,
              )
        | inr f ↦
            let k : ok before ≡ ok ls = rw (touch_if_changed, f) at h in
            let same = ok_inv (ok before) refl k in
            subst
              (λ x.
                ((s : RegistryListener) × Records json l s × (listener_named l.name x ≡ some s))
                × (listener_named other x ≡ listener_named other before))
              same ((stored, records, e), refl)
      ]

  read_registry_listener :
      (service_schema name : Text) (db : Registry) {reading : RegistryReading}
      → read_registry q refuses service_schema name db ≡ ok reading
      → listener_named name db.listeners ≡ some reading.listener
  unfolding read_registry
  read_registry_listener service_schema name db h =
      let (_, _, h1) =
        bind_ok (qualified_registry_table q service_schema (codes "listeners")) _ _ h in
      let (_, _, h2) =
        bind_ok (qualified_registry_table q service_schema (codes "listener_triggers")) _ _ h1 in
      let (_, h3) = then_ok (executed q refuses read_rows) _ _ h2 in
      elim (Option-cases (listener_named name db.listeners)) [
        | inl e ↦ absurd (cc (rw e at h3))
        | inr (l, e) ↦ elim (Option-cases (split_qualified l.target_table)) [
          | inl f ↦ absurd (cc (rw (e, f) at h3))
          | inr (_, f) ↦
              let k = ok_inv (ok _) refl (rw (e, f) at h3) in e ∙ ap (λ r. some r.listener) k
        ]
      ]

  abbrev stored_rows :
      Jsonb → ℤ → Text → RegistryListener → List RegistryListener → List RegistryListener × Bool
  stored_rows json now target listener ls =
      upsert_listener json now (row_of json target listener) ls

  abbrev has_changed : Text → List RegistryTrigger → List TriggerRow × Bool → Bool
  has_changed name triggers (rows, changed) =
      changed || not (length (delete_other_operations name triggers rows) == length rows)

  -- The steps of a write that succeeds.
  write_registry_inv :
      (json : Jsonb) (now : ℤ) (service_schema : Text) (listener : RegistryListener)
      (triggers : List RegistryTrigger) (db : Registry) {after : Registry}
      {returned : RegistryListener}
      → write_registry q refuses json now service_schema listener triggers db ≡ ok (after, returned)
      → (target : Text) × (upserted : List TriggerRow × Bool) × (ls : List RegistryListener)
        × (canonical_target q listener.target_table ≡ ok target)
        × (upsert_triggers q refuses listener.name triggers
              (db.triggers, (stored_rows json now target listener db.listeners).1)
            ≡ ok upserted)
        × (touch_if_changed q refuses now listener.name
              (has_changed listener.name triggers upserted)
              ((stored_rows json now target listener db.listeners).1)
              ((stored_rows json now target listener db.listeners).0)
            ≡ ok ls)
        × (listener_named listener.name ls ≡ some returned)
        × (record {
          listeners = ls;
          triggers = delete_other_operations listener.name triggers (upserted.0);
        }
            ≡ after)
  unfolding write_registry
  write_registry_inv json now service_schema listener triggers db h =
      let (_, _, h1) =
        bind_ok (qualified_registry_table q service_schema (codes "listeners")) _ _ h in
      let (_, _, h2) =
        bind_ok (qualified_registry_table q service_schema (codes "listener_triggers")) _ _ h1 in
      let (target, canonical, h3) = bind_ok (canonical_target q listener.target_table) _ _ h2 in
      let (upserted, h4, h5) = bind_ok _ _ _ h3 in
      let (_, u) = then_ok (executed q refuses insert_listener) _ _ h4 in
      let (ls, h6, h7) = bind_ok _ _ _ h5 in
      let (_, t) = then_ok (executed q refuses delete_triggers) _ _ h6 in
      let (reading, h8, h9) =
        bind_ok (read_registry q refuses service_schema listener.name _) _ _ h7 in
      let out = ok_inv (ok _) refl h9 in
      let read = read_registry_listener service_schema listener.name _ h8 in
      (target, upserted, ls, canonical, u, t, read ∙ ap (λ r. some r.1) out, ap (λ r. r.0) out)

  -- A registry write that succeeds records what it is given: the listener's row is the one given, with
  -- its target in canonical spelling and its spec the JSON value that the server makes of the given text,
  -- in this or another spelling of the same value, and is what the write returns; the listener has, under
  -- each operation, the last trigger given for it, and none under an operation for which none is given.
  -- The row of any other listener and its triggers are as they were.
  pub write_registry_lem :
      (json : Jsonb) (now : ℤ) (service_schema : Text) (listener : RegistryListener)
      (triggers : List RegistryTrigger) (db : Registry) (operation other : Text) {after : Registry}
      {returned : RegistryListener}
      → text_eq listener.name other ≡ false
      → write_registry q refuses json now service_schema listener triggers db ≡ ok (after, returned)
      → ((target : Text) × (canonical_target q listener.target_table ≡ ok target)
          × Records json (row_of json target listener) returned)
        × (listener_named listener.name after.listeners ≡ some returned)
        × (trigger_at listener.name operation after.triggers ≡ last_at operation triggers)
        × (listener_named other after.listeners ≡ listener_named other db.listeners)
        × (trigger_at other operation after.triggers ≡ trigger_at other operation db.triggers)
  write_registry_lem json now service_schema listener triggers db operation other off h =
      let (target, upserted, ls, canonical, u, t, read, is_after) =
        write_registry_inv json now service_schema listener triggers db h in
      let given = row_of json target listener in
      let (stored, records, own) = upsert_listener_own json now given db.listeners in
      let ((final, records', own'), frame) =
        touch_lem now json given stored _ _ _ other t records own off in
      let kept = upsert_listener_other json now given db.listeners other off in
      let own_op =
        own_triggers listener.name operation triggers db.triggers (upserted.0)
          (upsert_triggers_lem q refuses listener.name triggers db.triggers _ u operation) in
      let other_op =
        delete_other_operations_other listener.name other operation triggers (upserted.0) off
        ∙ upsert_triggers_other q refuses listener.name triggers db.triggers _ u other operation
            off in
      (
        (target, canonical, subst (Records json given) (some_inv (sym own' ∙ read)) records'),
        ap (λ a. listener_named listener.name a.listeners) (sym is_after) ∙ read,
        ap (λ a. trigger_at listener.name operation a.triggers) (sym is_after) ∙ own_op,
        ap (λ a. listener_named other a.listeners) (sym is_after) ∙ frame ∙ kept,
        ap (λ a. trigger_at other operation a.triggers) (sym is_after) ∙ other_op,
      )
