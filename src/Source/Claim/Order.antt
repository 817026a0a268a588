-- ===== src/Source/Claim/Order.antt =====
-- internal/source/claim.go: the earliest rows are claimed first.
use pg_noty.Base.{
  ℕ, ◌≡◌, refl, ◌∙◌, sym, ap, ◌⊎◌, inl, inr, Bool, true, false, some, List, [], ◌∷◌, ◌==◌, arith,
  keep, All, All-map₂, All-take, any_found, Bool-cases, some_inv, ok, ==_iff, ℤ, pos_part, sort_by,
  sort_by-IsSorted, take-IsSorted, All-sort_by, All-of-sort_by,
}
use pg_noty.Source.Store.{Row, Store, Event}
use pg_noty.Source.Store.Tables.{find, Distinct, find-event_id, find-All, find_self, All-keep}
use pg_noty.Source.Transition.{TriggerSource, Database}
use pg_noty.Source.Claim.{eligible, claim_le, chosen_rows, is_chosen, leased, lease_rows, claim}
use pg_noty.Source.Claim.Effect.{claim_inv, find-lease_rows}

claim_le_trans : (a b c : Row) → claim_le a b ≡ true → claim_le b c ≡ true → claim_le a c ≡ true
claim_le_trans a b c h k = ground arith

claim_le_total : (a b : Row) → claim_le a b ≡ false → claim_le b a ≡ true
claim_le_total a b h = ground arith

same_id : Row → Row → Bool
same_id a b = b.event_id == a.event_id

-- What `take-IsSorted` says of every eligible row.
abbrev ChosenOrLater : Database → ℕ → List Row → Row → Type 0
ChosenOrLater db n queue r =
    (is_chosen db n queue r ≡ true) ⊎ All (λ s. claim_le s r ≡ true) (chosen_rows db n queue)

All-of-keep :
    (P : Row → Type 0) (p : Row → Bool) (rs : List Row)
    → All P (keep p rs)
    → All (λ r. (p r ≡ true) → P r) rs
All-of-keep P p [] h = tt
All-of-keep P p (r ∷ rs) h = elim (Bool-cases (p r)) [
  | inl e ↦ (λ _. (rw e at h).0, All-of-keep P p rs ((rw e at h).1))
  | inr e ↦ (λ k. absurd (cc), All-of-keep P p rs (rw e at h))
]

eligible-ChosenOrLater :
    (db : Database) (n : ℕ) (queue : List Row)
    → All (λ r. (eligible db r ≡ true) → ChosenOrLater db n queue r) queue
eligible-ChosenOrLater db n queue = All-of-keep (ChosenOrLater db n queue) (eligible db) queue (
    All-of-sort_by claim_le (ChosenOrLater db n queue) (keep (eligible db) queue) (
      take-IsSorted claim_le (λ a b. b.event_id == a.event_id)
        (λ a. (==_iff a.event_id a.event_id).1 refl) n (sort_by claim_le (keep (eligible db) queue))
        (sort_by-IsSorted claim_le claim_le_trans claim_le_total (keep (eligible db) queue))))

chosen_self :
    (db : Database) (n : ℕ) (queue : List Row)
    → Distinct queue
    → All (λ r. find r.event_id queue ≡ some r) (chosen_rows db n queue)
chosen_self db n queue d = All-take found n _ (
    All-sort_by claim_le found (keep (eligible db) queue)
      (All-keep found (eligible db) queue (find_self queue d)))
  where
    found : Row → Type 0
    found r = find r.event_id queue ≡ some r

not_leased : (src : TriggerSource) (db : Database) (s : Row) → s ≡ leased src db s → ⊥
not_leased src db s e = let e' = ap Row.attempts e in omega arith

chosen_if_leased :
    (src : TriggerSource) (db : Database) (n : ℕ) (queue : List Row) (j : ℕ) (s : Row)
    → find j queue ≡ some s
    → find j (lease_rows src db n queue) ≡ some (leased src db s)
    → is_chosen db n queue s ≡ true
chosen_if_leased src db n queue j s f g = elim (Bool-cases (is_chosen db n queue s)) [
  | inl e ↦ e
  | inr e ↦
      absurd
        (not_leased src db s (some_inv (sym (find-lease_rows src db n queue j ∙ rw f (rw e)) ∙ g)))
]

passed_if_kept :
    (src : TriggerSource) (db : Database) (n : ℕ) (queue : List Row) (i : ℕ) (r : Row)
    → find i queue ≡ some r
    → find i (lease_rows src db n queue) ≡ some r
    → is_chosen db n queue r ≡ false
passed_if_kept src db n queue i r f g = elim (Bool-cases (is_chosen db n queue r)) [
  | inr e ↦ e
  | inl e ↦
      absurd
        (not_leased src db r (some_inv (sym g ∙ (find-lease_rows src db n queue i ∙ rw f (rw e)))))
]

lease_rows_earliest :
    (src : TriggerSource) (db : Database) (n : ℕ) (queue : List Row) (i j : ℕ) (r s : Row)
    → Distinct queue
    → find i queue ≡ some r
    → eligible db r ≡ true
    → is_chosen db n queue r ≡ false
    → find j queue ≡ some s
    → is_chosen db n queue s ≡ true
    → claim_le s r ≡ true
lease_rows_earliest src db n queue i j r s d fr er passed fs chosen =
    elim (find-All (λ r. (eligible db r ≡ true) → ChosenOrLater db n queue r) i queue fr
      (eligible-ChosenOrLater db n queue) er) [
        | inl c ↦ absurd (cc)
        | inr below ↦
            let (x, own, both) =
              any_found (λ x. (claim_le x r ≡ true) × (find x.event_id queue ≡ some x))
                (λ x. x.event_id == s.event_id) (chosen_rows db n queue) chosen
                (All-map₂ (λ x. claim_le x r ≡ true) (λ x. find x.event_id queue ≡ some x) _
                  (chosen_rows db n queue) (λ x a b. (a, b)) below (chosen_self db n queue d)) in
            let key : x.event_id ≡ j =
              (==_iff x.event_id s.event_id).0 own ∙ find-event_id j queue fs in
            let same : x ≡ s = some_inv (sym both.1 ∙ (ap (λ k. find k queue) key ∙ fs)) in
            ap (λ y. claim_le y r) (sym same) ∙ both.0
      ]

-- A claim that succeeds, where the event ids of the queue are distinct: a row that it left alone,
-- though it was eligible, comes after every row that it leased. The batch is the earliest by retry
-- time, ties broken by event id.
pub claim_earliest :
    (src : TriggerSource) (db : Database) (n : ℤ) (st : Store) (i j : ℕ) (r s : Row)
    {evs : List Event} {st' : Store}
    → Distinct st.queue
    → claim src db n st ≡ ok (evs, st')
    → find i st.queue ≡ some r
    → eligible db r ≡ true
    → find i st'.queue ≡ some r
    → find j st.queue ≡ some s
    → find j st'.queue ≡ some (leased src db s)
    → claim_le s r ≡ true
claim_earliest src db n st i j r s {evs} {st'} d h fr er kept fs now =
    elim (claim_inv src db n st h) [
      | inl (same, _) ↦
          absurd
            (not_leased src db s (some_inv (sym fs ∙ (ap (λ t. find j t.queue) (sym same) ∙ now))))
      | inr (q, _, _, _) ↦
          lease_rows_earliest src db (pos_part n) st.queue i j r s d fr er
            (passed_if_kept src db (pos_part n) st.queue i r fr (rw q at kept)) fs
            (chosen_if_leased src db (pos_part n) st.queue j s fs (rw q at now))
    ]
