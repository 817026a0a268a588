-- ===== src/Config/Ident.antt =====
-- internal/config/ident.go: the predicates on names, tables, header names and URLs. Which runes are letters
-- is package unicode's to say, a parameter; so is net/url's parser. A regular expression is a test of
-- the bytes, all of which are ASCII.
pub mod Names
pub mod Headers
use pg_noty.Base.{
  ℕ, zero, suc, ◌+◌, ◌-◌, Bool, true, false, not, ◌&&◌, ◌||◌, Option, none, some, List, [], ◌∷◌,
  if◌then◌else◌, ltb, leb, ◌==◌, any, length, take, drop, Text, codes, text_eq, is_empty,
}
use pg_noty.Source.StorableText.{decode_rune}
use pg_noty.Config.WhenLexer.{equal_fold}

abbrev pub max_identifier_bytes : ℕ
max_identifier_bytes = 63

abbrev pub is_lower : ℕ → Bool
is_lower c = leb b'a' c && leb c b'z'

abbrev pub is_upper : ℕ → Bool
is_upper c = leb b'A' c && leb c b'Z'

-- `isDigit`, of runes and of bytes.
abbrev pub is_digit : ℕ → Bool
is_digit c = leb b'0' c && leb c b'9'

abbrev pub is_name_byte : ℕ → Bool
is_name_byte c = is_lower c || (is_digit c || c == b'_')

abbrev pub all_bytes : (ℕ → Bool) → Text → Bool
all_bytes p s = not (any (λ c. not (p c)) s)

-- `nameCharsetPattern` and `namePattern`.
abbrev pub name_charset_pattern : Text → Bool
name_charset_pattern [] = false
name_charset_pattern (c ∷ s) = is_lower c && all_bytes is_name_byte s

abbrev pub name_pattern : Text → Bool
name_pattern s = name_charset_pattern s && leb (length s) 41

pub data NameDefect : Type 0 where
  name_ok name_empty name_bad_charset name_too_long : NameDefect

unfoldable pub name_rule_defect : Text → NameDefect
name_rule_defect value =
    if name_pattern value
    then name_ok
    else if is_empty value
    then name_empty
    else if not (name_charset_pattern value)
    then name_bad_charset
    else name_too_long

pub data IdentDefect : Type 0 where
  ident_ok ident_empty ident_bad_charset ident_too_long : IdentDefect

pub data TableFault : Type 0 where
  table_ok table_not_qualified table_schema_part_invalid table_name_part_invalid : TableFault

-- `strings.Cut` at the separator.
abbrev pub table_separator : ℕ
table_separator = b'.'

abbrev pub before_first : ℕ → Option (Text × Text) → Option (Text × Text)
before_first c none = none
before_first c (some (before, after)) = some (c ∷ before, after)

unfoldable pub cut : Text → Option (Text × Text)
cut [] = none
cut (c ∷ s) = if c == table_separator then some ([], s) else before_first c (cut s)

unfoldable pub split_qualified_table : Text → Option (Text × Text)
unfolding cut
split_qualified_table value = elim (cut value) [
  | none ↦ none
  | some (schema, table) ↦
      if any (λ c. c == table_separator) table then none else some (schema, table)
]

-- `is_letter` is unicode.IsLetter.
module _ (is_letter : ℕ → Bool) where
  abbrev pub is_identifier_start : ℕ → Bool
  is_identifier_start char = char == b'_' || is_letter char

  abbrev pub is_identifier_char : ℕ → Bool
  is_identifier_char char = is_identifier_start char || (is_digit char || char == b'$')

  -- The loop over the runes; the number is how many bytes of the current rune are left.
  unfoldable pub all_chars : ℕ → Text → Bool
  all_chars k [] = true
  all_chars (suc k) (c ∷ s) = all_chars k s
  all_chars zero (c ∷ s) =
      let (char, width) = decode_rune (c ∷ s) in
      let rest = all_chars (width - 1) s in is_identifier_char char && rest

  unfoldable pub is_identifier_text : Text → Bool
  unfolding all_chars
  is_identifier_text value =
      let (first, width) = decode_rune value in
      is_identifier_start first && all_chars 0 (drop width value)

  unfoldable pub identifier_defect : Text → IdentDefect
  unfolding is_identifier_text
  identifier_defect value =
      if is_empty value
      then ident_empty
      else if not (is_identifier_text value)
      then ident_bad_charset
      else if ltb max_identifier_bytes (length value)
      then ident_too_long
      else ident_ok

  unfoldable pub qualified_table_fault : Text → TableFault × IdentDefect
  unfolding split_qualified_table identifier_defect
  qualified_table_fault value = elim (split_qualified_table value) [
    | none ↦ (table_not_qualified, ident_ok)
    | some (schema, table) ↦ elim (identifier_defect schema) [
      | ident_ok ↦ elim (identifier_defect table) [
        | ident_ok ↦ (table_ok, ident_ok)
        | defect ↦ (table_name_part_invalid, defect)
      ]
      | defect ↦ (table_schema_part_invalid, defect)
    ]
  ]

-- `hasPrefixFold`, for the two prefixes: nothing outside ASCII folds to one of their letters.
unfoldable pub has_prefix_fold : Text → Text → Bool
has_prefix_fold value prefix =
    leb (length prefix) (length value) && equal_fold (take (length prefix) value) prefix

unfoldable pub uses_reserved_schema_prefix : Text → Bool
unfolding has_prefix_fold
uses_reserved_schema_prefix name = has_prefix_fold name (codes "pg_")

unfoldable pub uses_reserved_header_prefix : Text → Bool
unfolding has_prefix_fold
uses_reserved_header_prefix name = has_prefix_fold name (codes "X-Pg-Noty-")

-- `httpFieldNamePattern`.
abbrev pub is_field_byte : ℕ → Bool
is_field_byte c =
    any (λ d. c == d) (codes "-!#$%&'*+.^_`|~") || (is_digit c || (is_upper c || is_lower c))

unfoldable pub valid_http_field_name : Text → Bool
valid_http_field_name name = not (is_empty name) && all_bytes is_field_byte name

-- textproto.CanonicalMIMEHeaderKey of a valid name: upper case first and behind each hyphen.
abbrev pub to_upper : ℕ → ℕ
to_upper c = if is_lower c then c - 32 else c

abbrev pub to_lower : ℕ → ℕ
to_lower c = if is_upper c then c + 32 else c

unfoldable pub canonical_loop : Bool → Text → Text
canonical_loop upper [] = []
canonical_loop upper (c ∷ s) =
    (if upper then to_upper c else to_lower c) ∷ canonical_loop (c == b'-') s

unfoldable pub canonical_http_field_name : Text → Option Text
unfolding valid_http_field_name canonical_loop
canonical_http_field_name name =
    if valid_http_field_name name then some (canonical_loop true name) else none

pub data UrlDefect : Type 0 where
  url_ok url_empty url_bad_scheme url_no_host : UrlDefect
  url_unparseable : Text → UrlDefect

-- What is read of a *url.URL.
pub record Url : Type 0 where
  pub scheme : Text
  pub host : Text

-- `parse` is url.Parse; a failure gives the parser's reason.
module _ (parse : Text → Url × Option Text) where
  unfoldable pub destination_url_defect : Text → UrlDefect
  destination_url_defect value = if is_empty value then url_empty else elim ((parse value).1) [
    | some reason ↦ url_unparseable reason
    | none ↦
        let parsed = (parse value).0 in
        if not (text_eq parsed.scheme (codes "http")) && not (text_eq parsed.scheme (codes "https"))
        then url_bad_scheme
        else if is_empty parsed.host
        then url_no_host
        else url_ok
  ]
