-- ===== src/Source/Generate/Images.antt =====
-- internal/source/payload.go: the SQL expressions for the two images of a row.
use pg_noty.Base.{List, [], ◌∷◌, ◌++◌, if◌then◌else◌, Text, codes, text_eq, ok, err, ◌>>=◌, ◌>>◌}
use pg_noty.Schema.Identifier.{Quoter, quoted}
use pg_noty.Source.Literal.{quote_literal}
use pg_noty.Source.Generate.{
  Payload, Target, Listener, Refusable, missing_primary_key, unknown_payload_mode, or_unusable,
  identifier_refusal, operation_abbreviation_for, payload_mode_known,
}

pub record PayloadExpressions : Type 0 where
  pub fresh : Text
  pub old : Text

-- `strings.Join` with a comma and a space.
abbrev pub joined : List Text → Text
joined [] = []
joined (p ∷ []) = p
joined (p ∷ q ∷ ps) = p ++ codes ", " ++ joined (q ∷ ps)

abbrev pub null_expression : Text
null_expression = codes "NULL::jsonb"

unfoldable pub payload_key : Text → Refusable Text
unfolding identifier_refusal
payload_key column = identifier_refusal (codes "payload column") column >> ok (quote_literal column)

-- The loop that takes the excluded columns away.
unfoldable pub without_columns : List Text → Text → Refusable Text
unfolding payload_key
without_columns [] expression = ok expression
without_columns (column ∷ columns) expression =
    payload_key column >>= λ key. without_columns columns (expression ++ codes " - " ++ key)

unfoldable pub full_payload_expression : List Text → Text → Refusable Text
unfolding without_columns
full_payload_expression exclude row =
    without_columns exclude (codes "to_jsonb(" ++ row ++ codes ")")

module _ (q : Quoter) where
  unfoldable pub object_parts : List Text → Text → Refusable (List Text)
  unfolding or_unusable
  object_parts [] row = ok []
  object_parts (column ∷ columns) row =
      or_unusable (codes "payload column") column (quoted q column) >>= λ name.
      object_parts columns row >>= λ parts.
      ok (quote_literal column ∷ (row ++ codes "." ++ name) ∷ parts)

  unfoldable pub object_payload_expression : List Text → Text → Refusable Text
  unfolding object_parts
  object_payload_expression columns row = object_parts columns row >>= λ parts.
      ok (codes "jsonb_build_object(" ++ joined parts ++ codes ")")

  unfoldable pub keys_payload_expression : Target → Text → Text → Refusable Text
  unfolding object_payload_expression
  keys_payload_expression target listener row = elim target.primary_key_columns [
    | [] ↦ err (missing_primary_key listener)
    | key ∷ keys ↦ object_payload_expression (key ∷ keys) row
  ]

  unfoldable pub row_payload_expression : Payload → Target → Text → Text → Refusable Text
  unfolding full_payload_expression object_payload_expression keys_payload_expression
  row_payload_expression payload target listener row =
      if text_eq payload.mode (codes "full")
      then full_payload_expression payload.exclude row
      else if text_eq payload.mode (codes "columns")
      then object_payload_expression payload.columns row
      else if text_eq payload.mode (codes "keys_only")
      then keys_payload_expression target listener row
      else err (unknown_payload_mode payload.mode)

  unfoldable pub old_payload_expression : Text → Payload → Target → Text → Refusable Text
  unfolding row_payload_expression
  old_payload_expression operation payload target listener =
      let image = row_payload_expression payload target listener (codes "OLD") in
      if text_eq operation (codes "insert")
      then ok null_expression
      else if text_eq operation (codes "delete")
      then image
      else if text_eq operation (codes "update")
      then (if payload.include_old then image else ok null_expression)
      else ok null_expression

  unfoldable pub payload_expressions_for : Text → Listener → Target → Refusable PayloadExpressions
  unfolding operation_abbreviation_for payload_mode_known row_payload_expression
      old_payload_expression
  payload_expressions_for operation listener target = do
    abbreviation ← operation_abbreviation_for operation
    payload_mode_known listener.payload.mode
    image ← row_payload_expression listener.payload target listener.name (codes "NEW")
    old ← old_payload_expression operation listener.payload target listener.name
    ok (record {
      fresh = if text_eq operation (codes "delete") then null_expression else image;
      old = old;
    })
