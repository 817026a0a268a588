-- ===== src/Config/ConnString/Spans.antt =====
-- internal/config/connstring.go: the spans that are redacted are apart, from right to left, and within the
-- text; and they have the bytes of every password in them.
use pg_noty.Base.{
  ℕ, ◌-◌, ◌≤◌, ◌<◌, ◌≡◌, refl, ap, ◌∙◌, inl, inr, true, false, ◌&&◌, ◌||◌, some, List, [], ◌++◌,
  arith, ltb, leb, any-append, any-sort_by, All, All-append, All-sort_by, IsSorted, sort_by,
  sort_by-IsSorted, length, Text, Bool-cases, Option-cases, codes, take,
}
use pg_noty.Config.WhenLexer.{after_first}
use pg_noty.Config.ConnString.{
  from_last, Span, offset, password_keyword, libpq_value_after, value_after_keyword,
  keyword_password_spans, uri_password_span, span_le, merged_spans, option_list, password_spans,
}
use pg_noty.Config.ConnString.Keyword.{value_after_keyword_lem}
use pg_noty.Config.ConnString.Merged.{
  covers, IsWithin, Descending, span_le_trans, span_le_total, reversed-covers, reversed-IsWithin,
  reversed-Descending, merged-Apart, merged-IsWithin, merged-covers, none_before,
}

abbrev found : Text → List Span
found text = keyword_password_spans text ++ option_list (uri_password_span text)

keyword_password_spans-IsWithin :
    (text : Text) → All (IsWithin (length text)) (keyword_password_spans text)
unfolding keyword_password_spans
keyword_password_spans-IsWithin text =
    elim (Option-cases (value_after_keyword text password_keyword)) [
      | inl e ↦ rw (keyword_password_spans, e) tt
      | inr (v, e) ↦ rw (keyword_password_spans, e) ((omega arith, omega arith), tt)
    ]

uri_password_span-IsWithin :
    (text : Text) → All (IsWithin (length text)) (option_list (uri_password_span text))
unfolding uri_password_span
uri_password_span-IsWithin text = elim (Option-cases (after_first (codes "://") text)) [
  | inl e ↦ rw (uri_password_span, e) tt
  | inr (authority, e) ↦ elim (Option-cases (from_last b'@' text)) [
    | inl f ↦ rw (uri_password_span, e, f) tt
    | inr (host, f) ↦ elim (Bool-cases (ltb (offset text host) (offset text authority))) [
      | inl g ↦ rw (uri_password_span, e, f, g) tt
      | inr g ↦
          elim (Option-cases
            (after_first (codes ":") (take (offset text host - offset text authority) authority))) [
              | inl k ↦ rw (uri_password_span, e, f, g, k) tt
              | inr (password, k) ↦
                  rw (uri_password_span, e, f, g, k) ((omega arith, omega arith), tt)
            ]
    ]
  ]
]

found-IsWithin : (text : Text) → All (IsWithin (length text)) (found text)
found-IsWithin text =
    All-append (IsWithin (length text)) (keyword_password_spans text)
      (option_list (uri_password_span text)) (keyword_password_spans-IsWithin text)
      (uri_password_span-IsWithin text)

ascending : (text : Text) → IsSorted span_le (sort_by span_le (found text))
ascending text = sort_by-IsSorted span_le span_le_trans span_le_total (found text)

-- The spans come from right to left, no two of them overlap or touch, each has its ends in order, and
-- all are within the text: so that replacing one moves no other.
pub password_spans-Descending :
    (text : Text)
    → Descending (password_spans text) × All (IsWithin (length text)) (password_spans text)
unfolding password_spans
password_spans-Descending text =
    let merged = merged_spans (sort_by span_le (found text)) in
    (
      reversed-Descending merged [] (merged-Apart (sort_by span_le (found text)) (ascending text))
          tt (none_before merged),
      reversed-IsWithin (length text) merged []
          (merged-IsWithin (length text) (sort_by span_le (found text))
            (All-sort_by span_le (IsWithin (length text)) (found text) (found-IsWithin text)))
          tt,
    )

-- What a span found has in it, the spans of the result have.
pub found-covers :
    (text : Text) (i : ℕ)
    → (covers i (keyword_password_spans text) || covers i (option_list (uri_password_span text)))
      ≡ true
    → covers i (password_spans text) ≡ true
unfolding password_spans
found-covers text i h =
    reversed-covers i (merged_spans (sort_by span_le (found text))) []
    ∙ ap (λ b. b || false)
        (merged-covers i (sort_by span_le (found text)) (ascending text) (
          any-sort_by span_le (λ s. leb s.from i && ltb i s.to) (found text)
          ∙ any-append (λ s. leb s.from i && ltb i s.to) (keyword_password_spans text)
              (option_list (uri_password_span text))
          ∙ h))

-- Wherever the keyword "password" stands in a text with a value, every byte from the beginning of the
-- value on is in a located password span.
pub password_spans-keyword :
    (before rest value : Text) (i : ℕ)
    → libpq_value_after rest ≡ some value
    → offset (before ++ (password_keyword ++ rest)) value ≤ i
    → i < length (before ++ (password_keyword ++ rest))
    → covers i (password_spans (before ++ (password_keyword ++ rest))) ≡ true
unfolding keyword_password_spans
password_spans-keyword before rest value i h low high =
    let text = before ++ (password_keyword ++ rest) in
    let (v, e, le) = value_after_keyword_lem before rest h in
    let first : leb (offset text v) i ≡ true = ground arith in
    let last : ltb i (length text) ≡ true = ground arith in
    found-covers text i (rw (keyword_password_spans, e, first, last) refl)
