-- ===== src/Source/Store/Keys.antt =====
-- The primary key under ORDER BY, LIMIT and `IN (SELECT event_id …)`.
use pg_noty.Base.{
  ℕ, zero, suc, ◌+◌, ◌≡◌, refl, ◌≢◌, ◌∙◌, sym, ap, inl, inr, Bool, false, ◌&&◌, ◌||◌, some, List,
  [], ◌∷◌, ◌==◌, arith, any, take, length, All, All-take, All-insert_by, All-sort_by, Bool-cases,
  ==_iff, insert_by, sort_by,
}
use pg_noty.Source.Store.{Row}
use pg_noty.Source.Store.Tables.{find, Distinct, count_rows, any_absent}

Distinct-insert_by :
    (le : Row → Row → Bool) (x : Row) (xs : List Row)
    → All (λ s. x.event_id ≢ s.event_id) xs
    → Distinct xs
    → Distinct (insert_by le x xs)
Distinct-insert_by le x [] h d = (tt, tt)
Distinct-insert_by le x (y ∷ ys) h d = elim (Bool-cases (le x y)) [
  | inl e ↦ rw (e, insert_by) (h, d)
  | inr e ↦
      rw (e, insert_by)
        (
          All-insert_by le (λ s. y.event_id ≢ s.event_id) x ys (λ k. h.0 (sym k)) d.0,
          Distinct-insert_by le x ys h.1 d.1,
        )
]

pub Distinct-sort_by :
    (le : Row → Row → Bool) (xs : List Row) → Distinct xs → Distinct (sort_by le xs)
Distinct-sort_by le [] d = tt
Distinct-sort_by le (x ∷ xs) d =
    Distinct-insert_by le x (sort_by le xs) (All-sort_by le (λ s. x.event_id ≢ s.event_id) xs d.0)
      (Distinct-sort_by le xs d.1)

pub Distinct-take : (n : ℕ) (xs : List Row) → Distinct xs → Distinct (take n xs)
Distinct-take zero xs d = tt
Distinct-take (suc n) [] d = tt
Distinct-take (suc n) (x ∷ xs) d =
    (All-take (λ s. x.event_id ≢ s.event_id) n xs d.0, Distinct-take n xs d.1)

count_absent :
    (i : ℕ) (rs : List Row)
    → All (λ s. i ≢ s.event_id) rs
    → count_rows (λ r. i == r.event_id) rs ≡ 0
count_absent i [] h = refl
count_absent i (r ∷ rs) h = ground (arith, h.0, count_absent i rs h.1)

count_one :
    (i : ℕ) (rs : List Row) {x : Row}
    → Distinct rs
    → find i rs ≡ some x
    → count_rows (λ r. i == r.event_id) rs ≡ 1
count_one i [] d f = absurd (cc)
count_one i (r ∷ rs) {x} d f = elim (Bool-cases (r.event_id == i)) [
  | inl e ↦
      let same = (==_iff r.event_id i).0 e in
      rw ((==_iff i r.event_id).1 (sym same)) (ap suc (count_absent i rs (rw same at d.0)))
  | inr e ↦ ground (arith, count_one i rs {x = x} d.1)
]

count_or :
    (p q : Row → Bool) (rs : List Row)
    → ((r : Row) → (p r && q r) ≡ false)
    → count_rows (λ r. p r || q r) rs ≡ count_rows p rs + count_rows q rs
count_or p q [] h = omega arith
count_or p q (r ∷ rs) h = ground (arith, h r, count_or p q rs h)

count_never : (rs : List Row) → count_rows (λ r. false) rs ≡ 0
count_never [] = refl
count_never (r ∷ rs) = count_never rs

not_both :
    (x : Row) (xs : List Row) (r : Row)
    → All (λ s. x.event_id ≢ s.event_id) xs
    → (x.event_id == r.event_id && any (λ b. b.event_id == r.event_id) xs) ≡ false
not_both x xs r h = elim (Bool-cases (x.event_id == r.event_id)) [
  | inr e ↦ rw e
  | inl e ↦ rw (e, ← (==_iff x.event_id r.event_id).0 e) (any_absent x.event_id xs h)
]

-- As many rows have a key among those of some rows of the table as these are.
pub count_keys :
    (xs rs : List Row)
    → Distinct xs
    → Distinct rs
    → All (λ x. find x.event_id rs ≡ some x) xs
    → count_rows (λ r. any (λ b. b.event_id == r.event_id) xs) rs ≡ length xs
count_keys [] rs d k h = count_never rs
count_keys (x ∷ xs) rs d k h =
    count_or (λ r. x.event_id == r.event_id) (λ r. any (λ b. b.event_id == r.event_id) xs) rs
      (λ r. not_both x xs r d.0)
    ∙ (let one = count_one x.event_id rs k h.0 in
        let more = count_keys xs rs d.1 k h.1 in omega arith)
