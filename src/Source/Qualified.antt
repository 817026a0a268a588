-- ===== src/Source/Qualified.antt =====
-- internal/source/splitqualified.go: the inverse of `schema.Qualified`. An index into the text is
-- the text from that index on.
pub mod RoundTrip
use pg_noty.Base.{
  ℕ, ◌==◌, Bool, true, false, Option, none, some, List, [], ◌∷◌, ◌++◌, if◌then◌else◌, Text,
}

abbrev pub push_byte : ℕ → Option (Text × Text) → Option (Text × Text)
push_byte c none = none
push_byte c (some (part, rest)) = some (c ∷ part, rest)

-- The loop of `splitQualifiedPart`, behind the opening quote: the part, and what follows its closing
-- quote.
unfoldable pub split_part_loop : Text → Option (Text × Text)
split_part_loop [] = none
split_part_loop (c ∷ []) = if c == b'"' then some ([], []) else none
split_part_loop (c ∷ d ∷ rest) = elim (c == b'"') [
  | false ↦ push_byte c (split_part_loop (d ∷ rest))
  | true ↦ elim (d == b'"') [
    | true ↦ push_byte b'"' (split_part_loop rest)
    | false ↦ some ([], d ∷ rest)
  ]
]

unfoldable pub split_qualified_part : Text → Option (Text × Text)
split_qualified_part [] = none
split_qualified_part (c ∷ rest) = if c == b'"' then split_part_loop rest else none

abbrev pub both_named : Text → Option (Text × Text) → Option (Text × Text)
both_named [] r = none
both_named (c ∷ s) none = none
both_named (c ∷ s) (some ([], rest)) = none
both_named (c ∷ s) (some (d ∷ t, [])) = some (c ∷ s, d ∷ t)
both_named (c ∷ s) (some (d ∷ t, e ∷ rest)) = none

abbrev pub after_schema : Option (Text × Text) → Option (Text × Text)
after_schema none = none
after_schema (some (schema, [])) = none
after_schema (some (schema, c ∷ rest)) =
    if c == b'.' then both_named schema (split_qualified_part rest) else none

unfoldable pub split_qualified : Text → Option (Text × Text)
unfolding split_qualified_part split_part_loop
split_qualified stored = after_schema (split_qualified_part stored)
