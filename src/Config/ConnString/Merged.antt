-- ===== src/Config/ConnString/Merged.antt =====
-- internal/config/connstring.go: merging sorted spans, and reversing them.
use pg_noty.Base.{
  ℕ, ◌≤◌, ◌<◌, ◌≡◌, refl, ◌∙◌, inl, inr, Bool, true, false, ◌&&◌, ◌||◌, List, [], ◌∷◌, arith, ltb,
  leb, max, any, All, All-map, IsSorted, Bool-cases,
}
use pg_noty.Config.ConnString.{Span, span_le, merge_from, merged_spans, reversed}

abbrev pub covers : ℕ → List Span → Bool
covers i = any (λ s. leb s.from i && ltb i s.to)

abbrev pub IsWithin : ℕ → Span → Type 0
IsWithin n s = (s.from ≤ s.to) × (s.to ≤ n)

-- Each span ends before the ones that came earlier begin.
abbrev pub Descending : List Span → Type 0
Descending [] = Unit
Descending (s ∷ spans) = All (λ t. t.to < s.from) spans × Descending spans

abbrev Apart : List Span → Type 0
Apart [] = Unit
Apart (s ∷ spans) = All (λ t. s.to < t.from) spans × Apart spans

pub span_le_trans : (a b c : Span) → span_le a b ≡ true → span_le b c ≡ true → span_le a c ≡ true
span_le_trans a b c h k = ground arith

pub span_le_total : (a b : Span) → span_le a b ≡ false → span_le b a ≡ true
span_le_total a b h = ground arith

merge_from-covers :
    (i : ℕ) (last : Span) (spans : List Span)
    → IsSorted span_le (last ∷ spans)
    → covers i (last ∷ spans) ≡ true
    → covers i (merge_from last spans) ≡ true
unfolding merge_from
merge_from-covers i last [] s h = h
merge_from-covers i last (next ∷ spans) s h = elim (Bool-cases (leb next.from last.to)) [
  | inl e ↦
      rw (merge_from, e)
        (merge_from-covers i (record last { to = max last.to next.to }) spans (s.0.1, s.1.1)
          (ground arith))
  | inr e ↦ elim (Bool-cases (leb last.from i && ltb i last.to)) [
    | inl f ↦ rw (merge_from, e, f) refl
    | inr f ↦ rw (merge_from, e, f) (merge_from-covers i next spans s.1 (rw f at h))
  ]
]

merge_from-IsWithin :
    (n : ℕ) (last : Span) (spans : List Span)
    → All (IsWithin n) (last ∷ spans)
    → All (IsWithin n) (merge_from last spans)
unfolding merge_from
merge_from-IsWithin n last [] h = h
merge_from-IsWithin n last (next ∷ spans) h = elim (Bool-cases (leb next.from last.to)) [
  | inl e ↦
      rw (merge_from, e)
        (merge_from-IsWithin n (record last { to = max last.to next.to }) spans
          ((omega (arith, h.0, h.1.0), omega (arith, h.0, h.1.0)), h.1.1))
  | inr e ↦ rw (merge_from, e) (h.0, merge_from-IsWithin n next spans h.1)
]

merge_from-Apart :
    (last : Span) (spans : List Span)
    → IsSorted span_le (last ∷ spans)
    → Apart (merge_from last spans) × All (λ t. last.from ≤ t.from) (merge_from last spans)
unfolding merge_from
merge_from-Apart last [] s = ((tt, tt), (omega arith, tt))
merge_from-Apart last (next ∷ spans) s = elim (Bool-cases (leb next.from last.to)) [
  | inl e ↦
      rw (merge_from, e)
        (merge_from-Apart (record last { to = max last.to next.to }) spans (s.0.1, s.1.1))
  | inr e ↦
      let (apart, above) = merge_from-Apart next spans s.1 in
      let gap : last.to < next.from = ground arith in
      let first : last.from ≤ next.from = ground arith in
      rw (merge_from, e)
        (
          (
            All-map (λ t. next.from ≤ t.from) (λ t. last.to < t.from) _ (λ t h. omega arith) above,
            apart,
          ),
          (
            omega arith,
            All-map (λ t. next.from ≤ t.from) (λ t. last.from ≤ t.from) _ (λ t h. omega arith)
                above,
          ),
        )
]

pub reversed-covers :
    (i : ℕ) (xs acc : List Span) → covers i (reversed xs acc) ≡ (covers i xs || covers i acc)
reversed-covers i [] acc = refl
reversed-covers i (s ∷ xs) acc = reversed-covers i xs (s ∷ acc) ∙ ground arith

pub reversed-IsWithin :
    (n : ℕ) (xs acc : List Span)
    → All (IsWithin n) xs
    → All (IsWithin n) acc
    → All (IsWithin n) (reversed xs acc)
reversed-IsWithin n [] acc h k = k
reversed-IsWithin n (s ∷ xs) acc h k = reversed-IsWithin n xs (s ∷ acc) h.1 (h.0, k)

All-pairs :
    (xs acc : List Span) (s : Span)
    → All (λ t. s.to < t.from) xs
    → All (λ t. All (λ u. u.to < t.from) acc) xs
    → All (λ t. All (λ u. u.to < t.from) (s ∷ acc)) xs
All-pairs [] acc s h k = tt
All-pairs (t ∷ xs) acc s h k = ((h.0, k.0), All-pairs xs acc s h.1 k.1)

pub reversed-Descending :
    (xs acc : List Span)
    → Apart xs
    → Descending acc
    → All (λ t. All (λ u. u.to < t.from) acc) xs
    → Descending (reversed xs acc)
reversed-Descending [] acc a d c = d
reversed-Descending (s ∷ xs) acc a d c =
    reversed-Descending xs (s ∷ acc) a.1 (c.0, d) (All-pairs xs acc s a.0 c.1)

pub merged-Apart : (spans : List Span) → IsSorted span_le spans → Apart (merged_spans spans)
unfolding merged_spans
merged-Apart [] s = tt
merged-Apart (first ∷ spans) s = (merge_from-Apart first spans s).0

pub merged-IsWithin :
    (n : ℕ) (spans : List Span) → All (IsWithin n) spans → All (IsWithin n) (merged_spans spans)
unfolding merged_spans
merged-IsWithin n [] h = tt
merged-IsWithin n (first ∷ spans) h = merge_from-IsWithin n first spans h

pub merged-covers :
    (i : ℕ) (spans : List Span)
    → IsSorted span_le spans
    → covers i spans ≡ true
    → covers i (merged_spans spans) ≡ true
unfolding merged_spans
merged-covers i [] s h = h
merged-covers i (first ∷ spans) s h = merge_from-covers i first spans s h

pub none_before : (xs : List Span) → All (λ t. All (λ (u : Span). u.to < t.from) []) xs
none_before [] = tt
none_before (s ∷ xs) = (tt, none_before xs)
