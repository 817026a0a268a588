-- ===== src/Tests/Configured.antt =====
-- internal/config/ident.go, connstring.go, redact.go and envexpansion.go at concrete texts.
use pg_noty.Base.{
  ok, ℕ, ◌≡◌, refl, Bool, true, false, some, [], ◌∷◌, ◌++◌, ◌↔◌, arith, ◌||◌, Text, codes, text_eq,
  if◌then◌else◌,
}
use pg_noty.Source.StorableText.{decode_rune}
use pg_noty.Config.Ident.{
  ident_ok, ident_bad_charset, table_ok, table_name_part_invalid, table_not_qualified,
  table_separator, qualified_table_fault, is_lower, is_upper, uses_reserved_schema_prefix,
  canonical_http_field_name,
}
use pg_noty.Config.ConnString.{
  libpq_value_after, password_keyword, is_bare_env_reference, connection_string_form,
  conn_string_uri, conn_string_keyword_value, conn_string_invalid, password_spans,
  redacted_connection_string, redacted_connection_string_spans,
}
use pg_noty.Source.Qualified.{split_qualified}
use pg_noty.Schema.Identifier.{qualified, model_quoter}
use pg_noty.Config.Ident.Names.{qualified_table_fault_lem}
use pg_noty.Config.ConnString.Merged.{covers}
use pg_noty.Config.ConnString.Spans.{password_spans-keyword}
use pg_noty.Config.ConnString.Userinfo.{uri, password_spans-uri}
use pg_noty.Config.ConnString.Redacted.{
  assembled, hidden, redacted_connection_string_spans-assembled,
}
use pg_noty.Config.Interpolation.Opaque.{expand_lem}
use pg_noty.Config.Interpolation.Bare.{reads_as, is_bare_env_reference_iff}
use pg_noty.Config.Interpolation.{
  read_reference, literal, expand, malformed, unresolved, bad_name_refusal, unterminated_refusal,
}
use pg_noty.Config.Interpolation.Escapes.{escaped, expand-escaped}

-- Letters of ASCII; the others are package unicode's.
abbrev ascii_letter : ℕ → Bool
ascii_letter c = is_lower c || is_upper c

table_fine : qualified_table_fault ascii_letter (codes "public.user_1") ≡ (table_ok, ident_ok)
unfolding qualified_table_fault decode_rune
table_fine = refl

table_part :
    qualified_table_fault ascii_letter (codes "public.1a")
    ≡ (table_name_part_invalid, ident_bad_charset)
unfolding qualified_table_fault decode_rune
table_part = refl

three_parts : qualified_table_fault ascii_letter (codes "a.b.c") ≡ (table_not_qualified, ident_ok)
unfolding qualified_table_fault decode_rune
three_parts = refl

reserved : uses_reserved_schema_prefix (codes "PG_x") ≡ true
unfolding uses_reserved_schema_prefix
reserved = refl

canonical : canonical_http_field_name (codes "x-API-key") ≡ some (codes "X-Api-Key")
unfolding canonical_http_field_name
canonical = refl

canonical_lower : canonical_http_field_name (codes "x-api-key") ≡ some (codes "X-Api-Key")
unfolding canonical_http_field_name
canonical_lower = refl

form_uri : connection_string_form ascii_letter (codes "postgresql://h/db") ≡ conn_string_uri
unfolding connection_string_form
form_uri = refl

form_keyword : connection_string_form ascii_letter (codes " host = x") ≡ conn_string_keyword_value
unfolding connection_string_form decode_rune
form_keyword = refl

form_invalid : connection_string_form ascii_letter (codes "host x") ≡ conn_string_invalid
unfolding connection_string_form decode_rune
form_invalid = refl

redacted_uri :
    redacted_connection_string (codes "postgres://u:p@w@h/db")
    ≡ codes "postgres://u:[redacted]@h/db"
unfolding redacted_connection_string
redacted_uri = refl

redacted_both :
    redacted_connection_string (codes "postgres://u:p@h/?password=s&x=1")
    ≡ codes "postgres://u:[redacted]@h/?password=[redacted]"
unfolding redacted_connection_string
redacted_both = refl

-- The two extents overlap here, and one placeholder stands for both.
redacted_once :
    redacted_connection_string (codes "postgres://u:password=x@h/db")
    ≡ codes "postgres://u:[redacted]"
unfolding redacted_connection_string
redacted_once = refl

redacted_reference :
    redacted_connection_string (codes "postgres://u:${PW}@h/db") ≡ codes "postgres://u:${PW}@h/db"
unfolding redacted_connection_string
redacted_reference = refl

-- The variable A is set to a text that looks like a reference.
abbrev lookup : Text → Text × Bool
lookup name = if text_eq name (codes "A") then (codes "${B}", true) else ([], false)

opaque : (expand lookup (codes "x${A}y$${")).text ≡ codes "x${B}y${"
unfolding expand
opaque = refl

-- A default is scanned as the rest of the document is.
nested : (expand lookup (codes "${C:-a${B}")).faults ≡ malformed unterminated_refusal ∷ []
unfolding expand
nested = refl

both_reported :
    (expand lookup (codes "${C} ${1} ${A}")).faults
    ≡ unresolved (codes "C") ∷ malformed bad_name_refusal ∷ []
unfolding expand
both_reported = refl

qualified_table_fault_lem_example :
    (schema : Text) × (table : Text) × (stored : Text) × (codes "public.user_1"
      ≡ schema ++ table_separator ∷ table)
    × (qualified model_quoter schema table ≡ ok stored)
    × (split_qualified stored ≡ some (schema, table))
qualified_table_fault_lem_example =
    qualified_table_fault_lem ascii_letter model_quoter (codes "public.user_1") refl table_fine

password_spans-uri_example :
    covers 14 (password_spans (uri (codes "postgres") (codes "u") (codes "p@w") (codes "h/db")))
    ≡ true
password_spans-uri_example =
    password_spans-uri (codes "postgres") (codes "u") (codes "p@w") (codes "h/db") 14 (ground arith)
      (ground arith) (ground arith) (omega arith) (omega arith)

value_found : libpq_value_after (codes " = s3") ≡ some (codes "s3")
unfolding libpq_value_after
value_found = refl

password_spans-keyword_example :
    covers 18 (password_spans (codes "host=h " ++ (password_keyword ++ codes " = s3"))) ≡ true
password_spans-keyword_example =
    password_spans-keyword (codes "host=h ") (codes " = s3") (codes "s3") 18 value_found
      (omega arith) (omega arith)

redacted_connection_string_spans-assembled_example :
    redacted_connection_string_spans (codes "postgres://u:p@w@h/db") ≡ (
      assembled (codes "postgres://u:p@w@h/db") 21 (password_spans (codes "postgres://u:p@w@h/db")),
      hidden (codes "postgres://u:p@w@h/db") (password_spans (codes "postgres://u:p@w@h/db")),
    )
redacted_connection_string_spans-assembled_example =
    redacted_connection_string_spans-assembled (codes "postgres://u:p@w@h/db")

expand_lem_example :
    expand lookup (codes "x" ++ (codes "${" ++ (codes "A" ++ (codes "}" ++ escaped (codes "y${")))))
    ≡ record { text = codes "x${B}y${"; faults = []; from_environment = true }
expand_lem_example =
    expand_lem lookup (codes "A") (codes "${B}") refl (codes "x") (codes "y${") (ground arith) refl

expand-escaped_example : expand lookup (escaped (codes "a${A}$")) ≡ literal (codes "a${A}$")
expand-escaped_example = expand-escaped lookup (codes "a${A}$")

is_bare_env_reference_iff_example :
    (is_bare_env_reference (codes "${PW}") ≡ true)
    ↔ ((name : Text) × (read_reference (codes "${PW}") ≡ reads_as 5 name))
is_bare_env_reference_iff_example = is_bare_env_reference_iff (codes "PW}")
