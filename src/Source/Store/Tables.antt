-- ===== src/Source/Store/Tables.antt =====
-- The statements on event_queue: UPDATE and DELETE with a predicate, and the lookup by the primary
-- key. What a statement selects keeps the table's order.
use pg_noty.Base.{
  ℕ, zero, suc, ◌≡◌, refl, subst, sym, ◌∙◌, ◌≢◌, inl, inr, Bool, true, false, ◌&&◌, Option, none,
  some, List, [], ◌∷◌, arith, ◌==◌, ==_iff, if◌then◌else◌, All, any, keep, take, All-map₂,
  Bool-cases, some_inv,
}
use pg_noty.Source.Store.{Row}

abbrev pub update_rows : (Row → Bool) → (Row → Row) → List Row → List Row
update_rows p g [] = []
update_rows p g (r ∷ rs) = (if p r then g r else r) ∷ update_rows p g rs

abbrev pub count_rows : (Row → Bool) → List Row → ℕ
count_rows p [] = 0
count_rows p (r ∷ rs) = if p r then suc (count_rows p rs) else count_rows p rs

abbrev pub find : ℕ → List Row → Option Row
find i [] = none
find i (r ∷ rs) = if r.event_id == i then some r else find i rs

-- The primary key.
abbrev pub Distinct : List Row → Type 0
Distinct [] = Unit
Distinct (r ∷ rs) = All (λ s. r.event_id ≢ s.event_id) rs × Distinct rs

abbrev KeepsId : (Row → Row) → Type 0
KeepsId g = (r : Row) → (g r).event_id ≡ r.event_id

abbrev pub map_row : (Row → Row) → Option Row → Option Row
map_row g none = none
map_row g (some r) = some (g r)

pub find-update_rows :
    (i : ℕ) (p : Row → Bool) (g : Row → Row) (rs : List Row)
    → KeepsId g
    → find i (update_rows p g rs) ≡ map_row (λ r. if p r then g r else r) (find i rs)
find-update_rows i p g [] k = refl
find-update_rows i p g (r ∷ rs) k = ground (arith, k r, find-update_rows i p g rs k)

All-ne-update_rows :
    (i : ℕ) (p : Row → Bool) (g : Row → Row) (rs : List Row)
    → KeepsId g
    → All (λ s. i ≢ s.event_id) rs
    → All (λ s. i ≢ s.event_id) (update_rows p g rs)
All-ne-update_rows i p g [] k h = tt
All-ne-update_rows i p g (r ∷ rs) k h = (
  elim (Bool-cases (p r)) [ inl e ↦ rw (e, k r) h.0 | inr e ↦ rw e h.0 ],
  All-ne-update_rows i p g rs k h.1,
)

pub Distinct-update_rows :
    (p : Row → Bool) (g : Row → Row) (rs : List Row)
    → KeepsId g
    → Distinct rs
    → Distinct (update_rows p g rs)
Distinct-update_rows p g [] k h = tt
Distinct-update_rows p g (r ∷ rs) k h = (
  elim (Bool-cases (p r)) [
    | inl e ↦ rw (e, k r) (All-ne-update_rows r.event_id p g rs k h.0)
    | inr e ↦ rw e (All-ne-update_rows r.event_id p g rs k h.0)
  ],
  Distinct-update_rows p g rs k h.1,
)

pub All-update_rows {ℓ} :
    (P : Row → Type ℓ) (p : Row → Bool) (g : Row → Row) (rs : List Row)
    → ((r : Row) → P r → p r ≡ true → P (g r))
    → All P rs
    → All P (update_rows p g rs)
All-update_rows P p g [] k h = tt
All-update_rows P p g (r ∷ rs) k h = (
  elim (Bool-cases (p r)) [ inl e ↦ rw e (k r h.0 e) | inr e ↦ rw e h.0 ],
  All-update_rows P p g rs k h.1,
)

pub All-keep {ℓ κ} :
    {A : Type ℓ} (P : A → Type κ) (p : A → Bool) (rs : List A) → All P rs → All P (keep p rs)
All-keep P p [] h = tt
All-keep P p (r ∷ rs) h = elim (Bool-cases (p r)) [
  | inl e ↦ rw e (h.0, All-keep P p rs h.1)
  | inr e ↦ rw e (All-keep P p rs h.1)
]

pub Distinct-keep : (p : Row → Bool) (rs : List Row) → Distinct rs → Distinct (keep p rs)
Distinct-keep p [] h = tt
Distinct-keep p (r ∷ rs) h = elim (Bool-cases (p r)) [
  | inl e ↦ rw e (All-keep _ p rs h.0, Distinct-keep p rs h.1)
  | inr e ↦ rw e (Distinct-keep p rs h.1)
]

find-none : (i : ℕ) (rs : List Row) → All (λ s. i ≢ s.event_id) rs → find i rs ≡ none
find-none i [] h = refl
find-none i (r ∷ rs) h = ground (arith, h.0, find-none i rs h.1)

find_miss :
    (i : ℕ) (r : Row) (rs : List Row) → (r.event_id == i) ≡ false → find i (r ∷ rs) ≡ find i rs
find_miss i r rs e = rw e

find_hit : (i : ℕ) (r : Row) (rs : List Row) → (r.event_id == i) ≡ true → find i (r ∷ rs) ≡ some r
find_hit i r rs e = rw e

abbrev pub row_if : (Row → Bool) → Option Row → Option Row
row_if p none = none
row_if p (some r) = if p r then some r else none

find-keep_dropped :
    (i : ℕ) (p : Row → Bool) (rs : List Row)
    → All (λ s. i ≢ s.event_id) rs
    → find i (keep p rs) ≡ none
find-keep_dropped i p rs h = find-none i (keep p rs) (All-keep (λ s. i ≢ s.event_id) p rs h)

-- A DELETE of the rows that fail a test: what a lookup finds stays, unless it fails.
pub find-keep :
    (i : ℕ) (p : Row → Bool) (rs : List Row)
    → Distinct rs
    → find i (keep p rs) ≡ row_if p (find i rs)
find-keep i p [] d = refl
find-keep i p (r ∷ rs) d = elim (Bool-cases (r.event_id == i)) [
  | inl e ↦ rw (find_hit i r rs e) (elim (Bool-cases (p r)) [
    | inl k ↦ rw k (rw e)
    | inr k ↦ rw k (find-keep_dropped i p rs (rw (← (==_iff r.event_id i).0 e) d.0))
  ])
  | inr e ↦ rw (find_miss i r rs e) (elim (Bool-cases (p r)) [
    | inl k ↦ rw k (find_miss i r (keep p rs) e ∙ find-keep i p rs d.1)
    | inr k ↦ rw k (find-keep i p rs d.1)
  ])
]

-- A row that is found has the key, and what holds of every row.
pub find-event_id : (i : ℕ) (rs : List Row) {r : Row} → find i rs ≡ some r → r.event_id ≡ i
find-event_id i [] h = cc
find-event_id i (s ∷ rs) {r} h = ground (arith, find-event_id i rs {r = r})

pub find-All {ℓ} :
    (P : Row → Type ℓ) (i : ℕ) (rs : List Row) {r : Row} → find i rs ≡ some r → All P rs → P r
find-All P i [] h a = absurd (cc)
find-All P i (s ∷ rs) {r} h a = elim (Bool-cases (s.event_id == i)) [
  | inl e ↦ subst P (some_inv (rw (find_hit i s rs e) at h)) a.0
  | inr e ↦ find-All P i rs (rw (find_miss i s rs e) at h) a.1
]

pub any_absent :
    (i : ℕ) (rs : List Row) → All (λ s. i ≢ s.event_id) rs → any (λ r. r.event_id == i) rs ≡ false
any_absent i [] h = refl
any_absent i (r ∷ rs) h = ground (arith, h.0, any_absent i rs h.1)

any-keep_miss :
    (i : ℕ) (p : Row → Bool) (r : Row) (rs : List Row)
    → (r.event_id == i) ≡ false
    → any (λ s. s.event_id == i) (keep p (r ∷ rs)) ≡ any (λ s. s.event_id == i) (keep p rs)
any-keep_miss i p r rs e = elim (Bool-cases (p r)) [ inl k ↦ rw k (rw e) | inr k ↦ rw k ]

-- A key that is among those of the rows that pass a test leads to such a row.
pub find_of_keep :
    (i : ℕ) (p : Row → Bool) (rs : List Row)
    → Distinct rs
    → any (λ r. r.event_id == i) (keep p rs) ≡ true
    → (r : Row) × (find i rs ≡ some r) × (p r ≡ true)
find_of_keep i p [] d h = absurd (cc)
find_of_keep i p (r ∷ rs) d h = elim (Bool-cases (r.event_id == i)) [
  | inr e ↦
      let (s, f, k) = find_of_keep i p rs d.1 (sym (any-keep_miss i p r rs e) ∙ h) in
      (s, find_miss i r rs e ∙ f, k)
  | inl e ↦ elim (Bool-cases (p r)) [
    | inl k ↦ (r, find_hit i r rs e, k)
    | inr k ↦
        let gone =
          any_absent i (keep p rs)
            (All-keep (λ s. i ≢ s.event_id) p rs (rw (← (==_iff r.event_id i).0 e) d.0)) in
        absurd (cc (gone, rw k at h))
  ]
]

abbrev pub row_test : (Row → Bool) → Option Row → Bool
row_test q none = false
row_test q (some r) = q r

any_absent_and :
    (i : ℕ) (q : Row → Bool) (rs : List Row)
    → All (λ s. i ≢ s.event_id) rs
    → any (λ r. r.event_id == i && q r) rs ≡ false
any_absent_and i q [] h = refl
any_absent_and i q (r ∷ rs) h = ground (arith, h.0, any_absent_and i q rs h.1)

-- A predicate that fixes the key holds of some row exactly when it holds of the row found.
pub any_at_key :
    (i : ℕ) (q : Row → Bool) (rs : List Row)
    → Distinct rs
    → any (λ r. r.event_id == i && q r) rs ≡ row_test q (find i rs)
any_at_key i q [] d = refl
any_at_key i q (r ∷ rs) d = elim (Bool-cases (r.event_id == i)) [
  | inr e ↦ rw (find_miss i r rs e, e) (any_at_key i q rs d.1)
  | inl e ↦
      rw (find_hit i r rs e, e)
        (let gone = any_absent_and i q rs (rw (← (==_iff r.event_id i).0 e) d.0) in ground arith)
]

-- Each row is found under its own key.
pub find_self : (rs : List Row) → Distinct rs → All (λ r. find r.event_id rs ≡ some r) rs
find_self [] d = tt
find_self (r ∷ rs) d = (
  rw ((==_iff r.event_id r.event_id).1 refl),
  All-map₂ (λ s. r.event_id ≢ s.event_id) (λ s. find s.event_id rs ≡ some s)
      (λ s. find s.event_id (r ∷ rs) ≡ some s) rs (λ s ne f. ground (arith, ne)) d.0
      (find_self rs d.1),
)

pub any-take : (p : Row → Bool) (n : ℕ) (rs : List Row) → any p (take n rs) ≡ true → any p rs ≡ true
any-take p zero rs h = absurd (cc)
any-take p (suc n) [] h = h
any-take p (suc n) (r ∷ rs) h = ground (arith, any-take p n rs)
