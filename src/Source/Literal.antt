-- ===== src/Source/Literal.antt =====
-- internal/source/literal.go and dollarquote.go: how the generated SQL quotes texts and function bodies.
pub mod Opaque
pub mod Tag
pub mod Body
use pg_noty.Base.{
  ℕ, zero, suc, ◌+◌, Bool, true, false, Option, none, some, List, [], ◌∷◌, ◌++◌, if◌then◌else◌,
  ◌==◌, any, length, Text, codes, digits,
}
use pg_noty.Config.WhenLexer.{after_first, delimiter}

-- `strings.ReplaceAll` of a byte by two of it.
abbrev pub twice : ℕ → Text → Text
twice b [] = []
twice b (c ∷ s) = if c == b then b ∷ b ∷ twice b s else c ∷ twice b s

abbrev pub backslash : ℕ
backslash = 92

abbrev pub apostrophe : ℕ
apostrophe = 39

unfoldable pub quote_literal : Text → Text
quote_literal value =
    if any (λ c. c == backslash) value
    then codes "E'" ++ (twice apostrophe (twice backslash value) ++ apostrophe ∷ [])
    else apostrophe ∷ (twice apostrophe value ++ apostrophe ∷ [])

-- `strings.Contains`.
unfoldable pub contains : Text → Text → Bool
unfolding after_first
contains s needle = elim (after_first needle s) [ none ↦ false | some _ ↦ true ]

-- "fn" and then "fn_1" on; a number has no more digits than it counts.
abbrev pub tag_at : ℕ → Text
tag_at zero = codes "fn"
tag_at (suc n) = codes "fn_" ++ digits (suc n) (suc n) []

-- The loop over the suffixes, on fuel; `none` is out of fuel.
unfoldable pub tag_loop : ℕ → ℕ → Text → Option Text
unfolding contains
tag_loop zero suffix body = none
tag_loop (suc fuel) suffix body =
    let further = tag_loop fuel (suffix + 1) body in
    if contains body (delimiter (tag_at suffix)) then further else some (tag_at suffix)

-- The loop has no bound of its own; a tag is found after as many rounds as the body has bytes and one
-- more.
unfoldable pub dollar_quote_tag : Text → Option Text
unfolding tag_loop
dollar_quote_tag body = tag_loop (length body + 1) 0 body
