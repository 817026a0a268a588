-- ===== src/Config/ConnString.antt =====
-- internal/config/libpqgrammar.go, connstring.go, and the parts of ident.go and redact.go that read a
-- connection string: its form, where its passwords are, and their redaction. An index into the text is
-- the rest of the text from there on; a span has offsets, as the source's.
pub mod Merged
pub mod Keyword
pub mod Userinfo
pub mod Spans
pub mod Redacted
use pg_noty.Base.{
  ℕ, zero, suc, ◌+◌, ◌-◌, max, Bool, true, false, not, ◌&&◌, ◌||◌, Option, none, some, List, [],
  ◌∷◌, ◌++◌, if◌then◌else◌, ltb, leb, ◌==◌, length, take, drop, Text, codes, is_empty, cut_prefix,
  sort_by,
}
use pg_noty.Source.StorableText.{decode_rune}
use pg_noty.Config.WhenLexer.{is_space, has_prefix, after_first}
use pg_noty.Config.Ident.{is_digit, is_lower, is_upper, is_identifier_start}

-- The text behind the separators that it opens with, which are those of `is_space`.
unfoldable pub after_separators : Text → Text
after_separators [] = []
after_separators (c ∷ s) = let rest = after_separators s in if is_space c then rest else c ∷ s

-- The text from the value on, if an "=" follows the keyword.
abbrev pub after_equals : Text → Option Text
after_equals [] = none
after_equals (c ∷ s) = if c == b'=' then some (after_separators s) else none

unfoldable pub libpq_value_after : Text → Option Text
unfolding after_separators
libpq_value_after s = after_equals (after_separators s)

pub data ConnStringForm : Type 0 where
  conn_string_invalid conn_string_uri conn_string_keyword_value : ConnStringForm

abbrev pub has_connection_uri_designator : Text → Bool
has_connection_uri_designator value =
    has_prefix (codes "postgresql://") value || has_prefix (codes "postgres://") value

module _ (is_letter : ℕ → Bool) where
  abbrev pub is_connection_keyword_char : ℕ → Bool
  is_connection_keyword_char char = is_identifier_start is_letter char || is_digit char

  -- The loop over the runes; the number is how many bytes of the current rune are left.
  unfoldable pub after_keyword_chars : ℕ → Text → Text
  after_keyword_chars k [] = []
  after_keyword_chars (suc k) (c ∷ s) = after_keyword_chars k s
  after_keyword_chars zero (c ∷ s) =
      let (char, width) = decode_rune (c ∷ s) in
      let rest = after_keyword_chars (width - 1) s in
      if is_connection_keyword_char char then rest else c ∷ s

  -- The text behind the keyword; `none` is a width of zero.
  unfoldable pub after_connection_keyword : Text → Option Text
  unfolding after_keyword_chars
  after_connection_keyword text =
      if not (is_empty text) && is_identifier_start is_letter (decode_rune text).0
      then some (after_keyword_chars 0 text)
      else none

  unfoldable pub begins_with_connection_keyword : Text → Bool
  unfolding after_connection_keyword libpq_value_after after_separators
  begins_with_connection_keyword value = elim (after_connection_keyword (after_separators value)) [
    | none ↦ false
    | some rest ↦ elim (libpq_value_after rest) [ none ↦ false | some _ ↦ true ]
  ]

  unfoldable pub connection_string_form : Text → ConnStringForm
  unfolding begins_with_connection_keyword
  connection_string_form value =
      if has_connection_uri_designator value
      then conn_string_uri
      else if begins_with_connection_keyword value
      then conn_string_keyword_value
      else conn_string_invalid

pub record Span : Type 0 where
  pub from : ℕ
  pub to : ℕ

-- The offset at which the rest of a text begins.
abbrev pub offset : Text → Text → ℕ
offset text rest = length text - length rest

abbrev pub password_keyword : Text
password_keyword = codes "password"

-- The loop of `valueAfterKeyword`, on fuel. Each round takes the keyword at least.
unfoldable pub value_loop : ℕ → Text → Text → Option Text
unfolding after_first libpq_value_after
value_loop zero keyword s = none
value_loop (suc fuel) keyword s = elim (after_first keyword s) [
  | none ↦ none
  | some rest ↦
      let further = value_loop fuel keyword rest in
      elim (libpq_value_after rest) [ some value ↦ some value | none ↦ further ]
]

unfoldable pub value_after_keyword : Text → Text → Option Text
unfolding value_loop
value_after_keyword text keyword = value_loop (suc (length text)) keyword text

unfoldable pub keyword_password_spans : Text → List Span
unfolding value_after_keyword
keyword_password_spans text = elim (value_after_keyword text password_keyword) [
  | none ↦ []
  | some value ↦ record { from = offset text value; to = length text } ∷ []
]

-- `strings.LastIndexByte`: the text from the last one on.
unfoldable pub from_last : ℕ → Text → Option Text
from_last b [] = none
from_last b (c ∷ s) = elim (from_last b s) [
  | some rest ↦ some rest
  | none ↦ if c == b then some (c ∷ s) else none
]

unfoldable pub uri_password_span : Text → Option Span
unfolding after_first from_last
uri_password_span text = elim (after_first (codes "://") text) [
  | none ↦ none
  | some authority ↦ elim (from_last b'@' text) [
    | none ↦ none
    | some host ↦
        if ltb (offset text host) (offset text authority)
        then none
        else elim (after_first (codes ":")
            (take (offset text host - offset text authority) authority)) [
              | none ↦ none
              | some password ↦
                  some (record { from = offset text host - length password; to = offset text host })
            ]
  ]
]

abbrev pub span_le : Span → Span → Bool
span_le a b = leb a.from b.from

-- The loop of `mergedSpans`, with the last span of the list so far.
unfoldable pub merge_from : Span → List Span → List Span
merge_from last [] = last ∷ []
merge_from last (next ∷ spans) =
    let joined = merge_from (record last { to = max last.to next.to }) spans in
    let apart = merge_from next spans in if leb next.from last.to then joined else last ∷ apart

unfoldable pub merged_spans : List Span → List Span
unfolding merge_from
merged_spans [] = []
merged_spans (first ∷ spans) = merge_from first spans

abbrev pub reversed : List Span → List Span → List Span
reversed [] spans = spans
reversed (s ∷ rest) spans = reversed rest (s ∷ spans)

abbrev pub option_list : Option Span → List Span
option_list none = []
option_list (some s) = s ∷ []

unfoldable pub password_spans : Text → List Span
unfolding keyword_password_spans uri_password_span merged_spans
password_spans text =
    reversed
      (merged_spans
        (sort_by span_le (keyword_password_spans text ++ option_list (uri_password_span text))))
      []

abbrev pub redaction_placeholder : Text
redaction_placeholder = codes "[redacted]"

abbrev pub slice : ℕ → ℕ → Text → Text
slice from to text = take (to - from) (drop from text)

-- `bareEnvReference`: "${", a variable's name and "}".
abbrev pub is_variable_start : ℕ → Bool
is_variable_start c = is_upper c || (is_lower c || c == b'_')

abbrev pub ends_name : Text → Bool
ends_name [] = false
ends_name (c ∷ []) = c == b'}'
ends_name (c ∷ d ∷ s) = (is_variable_start c || is_digit c) && ends_name (d ∷ s)

abbrev pub names_variable : Option Text → Bool
names_variable none = false
names_variable (some []) = false
names_variable (some (c ∷ s)) = is_variable_start c && ends_name s

unfoldable pub is_bare_env_reference : Text → Bool
is_bare_env_reference text = names_variable (cut_prefix (codes "${") text)

-- The loop over the spans, with the text so far and the spans it has replaced.
unfoldable pub redact_spans : Text → List Span → Text → List Span → Text × List Span
unfolding is_bare_env_reference
redact_spans text [] redacted replaced = (redacted, replaced)
redact_spans text (s ∷ spans) redacted replaced =
    let kept = is_bare_env_reference (slice s.from s.to text) in
    redact_spans text spans
      (if kept
        then redacted
        else take s.from redacted ++ (redaction_placeholder ++ drop s.to redacted))
      (if kept then replaced else replaced ++ s ∷ [])

unfoldable pub redacted_connection_string_spans : Text → Text × List Span
unfolding redact_spans password_spans
redacted_connection_string_spans text = redact_spans text (password_spans text) text []

unfoldable pub redacted_connection_string : Text → Text
unfolding redacted_connection_string_spans
redacted_connection_string text = (redacted_connection_string_spans text).0
