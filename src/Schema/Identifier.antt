-- ===== src/Schema/Identifier.antt =====
-- internal/schema/identifier.go: the quoting authority. The quoter itself is the driver's (pgx), a
-- parameter here with its documented behaviour.
use pg_noty.Base.{
  ℕ, ◌≡◌, refl, ◌++◌, List, [], ◌∷◌, Bool, false, ltb, ◌==◌, any, length, if◌then◌else◌, Text,
  is_empty, Result, ok, err,
}

-- The reasons why a name cannot be an identifier; `IdentifierOK` is a result without one.
pub data IdentifierFault : Type 0 where
  identifier_empty identifier_holds_nul identifier_too_long : IdentifierFault

abbrev pub max_identifier_bytes : ℕ
max_identifier_bytes = 63

-- `strings.ContainsRune(name, 0)`: in UTF-8 only the byte 0 encodes the rune 0.
abbrev pub holds_nul : Text → Bool
holds_nul = any (λ c. c == 0)

unfoldable pub why_unusable : Text → Result IdentifierFault (Unit {0})
why_unusable name =
    if is_empty name
    then err identifier_empty
    else if holds_nul name
    then err identifier_holds_nul
    else if ltb max_identifier_bytes (length name)
    then err identifier_too_long
    else ok tt

-- `pgx.Identifier.Sanitize`, which wraps each part in double quotes, doubles every quote inside it
-- and joins the parts by dots. It deletes NUL bytes, so the law is for parts without them.
abbrev pub doubled : Text → Text
doubled [] = []
doubled (c ∷ s) = if c == b'"' then b'"' ∷ b'"' ∷ doubled s else c ∷ doubled s

abbrev pub wrapped : Text → Text
wrapped s = b'"' ∷ (doubled s ++ (b'"' ∷ []))

pub record Quoter : Type 0 where
  pub sanitize : List Text → Text
  pub sanitize_one : (s : Text) → holds_nul s ≡ false → sanitize (s ∷ []) ≡ wrapped s
  pub sanitize_two :
      (s t : Text)
      → holds_nul s ≡ false
      → holds_nul t ≡ false
      → sanitize (s ∷ t ∷ []) ≡ wrapped s ++ (b'.' ∷ wrapped t)

module _ (q : Quoter) where
  open q use {sanitize}

  unfoldable pub quoted : Text → Result IdentifierFault Text
  quoted name = elim (why_unusable name) [ err e ↦ err e | ok _ ↦ ok (sanitize (name ∷ [])) ]

  unfoldable pub qualified : Text → Text → Result IdentifierFault Text
  qualified schema name = elim (why_unusable schema) [
    | err e ↦ err e
    | ok _ ↦ elim (why_unusable name) [ err e ↦ err e | ok _ ↦ ok (sanitize (schema ∷ name ∷ [])) ]
  ]

-- A quoter that does what is documented.
abbrev pub model_quoter : Quoter
model_quoter = record {
  sanitize = join;
  sanitize_one = λ s h. refl;
  sanitize_two = λ s t h k. refl;
}
  where
    join : List Text → Text
    join [] = []
    join (s ∷ []) = wrapped s
    join (s ∷ t ∷ r) = wrapped s ++ (b'.' ∷ join (t ∷ r))
