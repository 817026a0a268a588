-- ===== src/Config/WhenLexer.antt =====
-- internal/config/whenlex.go: the scanner that finds the row variable a trigger's WHEN condition may not
-- name. The source keeps an index into the clause; here a function takes the rest of the clause from
-- that index on and returns the rest from the index that the source returns.
pub mod Progress
pub mod Words
use pg_noty.Base.{
  ℕ, zero, suc, ◌+◌, ◌-◌, Bool, true, false, not, ◌&&◌, ◌||◌, Option, none, some, List, [], ◌∷◌,
  ◌++◌, if◌then◌else◌, ltb, leb, ◌==◌, any, length, take, drop, Text, codes, text_eq, is_empty,
  cut_prefix,
}

abbrev pub has_prefix : Text → Text → Bool
has_prefix p s = elim (cut_prefix p s) [ none ↦ false | some _ ↦ true ]

abbrev pub line_comment_open : Text
line_comment_open = codes "--"

abbrev pub block_comment_open : Text
block_comment_open = codes "/*"

abbrev pub string_quote : ℕ
string_quote = 39

abbrev pub identifier_quote : ℕ
identifier_quote = 34

abbrev pub field_selector : ℕ
field_selector = 46

-- " \t\n\r\f\v"
abbrev pub is_space : ℕ → Bool
is_space c = c == 32 || c == 9 || c == 10 || c == 13 || c == 12 || c == 11

abbrev pub is_newline : ℕ → Bool
is_newline c = c == 10 || c == 13

abbrev pub is_word_start_byte : ℕ → Bool
is_word_start_byte c = (leb 97 c && leb c 122) || (leb 65 c && leb c 90) || c == 95 || leb 128 c

abbrev pub is_tag_byte : ℕ → Bool
is_tag_byte c = is_word_start_byte c || (leb 48 c && leb c 57)

abbrev pub is_word_byte : ℕ → Bool
is_word_byte c = is_tag_byte c || c == 36

-- `strings.EqualFold` with a word of ASCII letters that nothing outside ASCII folds to, as OLD, NEW
-- and E are.
abbrev pub fold : ℕ → ℕ
fold c = if leb 65 c && leb c 90 then c + 32 else c

abbrev pub equal_fold : Text → Text → Bool
equal_fold [] [] = true
equal_fold (a ∷ s) (b ∷ t) = fold a == fold b && equal_fold s t
equal_fold _ _ = false

-- The bytes between a place in the clause and a later one, by what follows each.
abbrev pub between : Text → Text → Text
between s rest = take (length s - length rest) s

unfoldable pub end_of_byte_run : (ℕ → Bool) → Text → Text
end_of_byte_run admits [] = []
end_of_byte_run admits (c ∷ s) = if admits c then end_of_byte_run admits s else c ∷ s

-- `strings.TrimLeft` of the space bytes.
abbrev pub trim_left : Text → Text
trim_left [] = []
trim_left (c ∷ s) = if is_space c then trim_left s else c ∷ s

unfoldable pub end_of_line_comment : Text → Text
end_of_line_comment [] = []
end_of_line_comment (c ∷ s) = if is_newline c then s else end_of_line_comment s

-- The loop over the gap after a closing quote. Each round consumes a comment, so as much fuel as the
-- gap has bytes is enough.
unfoldable pub skip_gap : ℕ → Text → Text
unfolding end_of_line_comment
skip_gap zero gap = gap
skip_gap (suc fuel) gap =
    let further = skip_gap fuel (trim_left (end_of_line_comment gap)) in
    if has_prefix line_comment_open gap then further else gap

abbrev pub starts_with : ℕ → Text → Bool
starts_with q [] = false
starts_with q (c ∷ s) = c == q

-- From the byte after a closing quote: the rest from the quote that reopens the constant.
unfoldable pub continuation_quote : Text → ℕ → Option Text
unfolding skip_gap
continuation_quote after quote =
    let gap = skip_gap (length after) (trim_left after) in
    if not (quote == string_quote)
    then none
    else if not (any is_newline (between after gap)) || not (starts_with quote gap)
    then none
    else some gap

-- What comes after a literal, from the byte after its opening quote. A reopened constant is scanned on
-- from the byte after the reopening quote.
unfoldable pub quoted_loop : ℕ → ℕ → Bool → Text → Text
quoted_loop zero quote escapes s = []
quoted_loop (suc fuel) quote escapes [] = []
quoted_loop (suc fuel) quote escapes (c ∷ s) =
    let skipped = quoted_loop fuel quote escapes (drop 1 s) in
    let content = quoted_loop fuel quote escapes s in
    let closing : Text = elim (continuation_quote s quote) [
      | none ↦ s
      | some gap ↦ quoted_loop fuel quote escapes (drop 1 gap)
    ] in
    if escapes && c == 92
    then skipped
    else if not (c == quote)
    then content
    else if starts_with quote s
    then skipped
    else closing

-- From the opening quote on.
unfoldable pub end_of_quoted : Text → ℕ → Bool → Text
unfolding quoted_loop continuation_quote
end_of_quoted s quote escapes = quoted_loop (length s) quote escapes (drop 1 s)

-- The loop from a place at the given depth; the first opening makes the depth 1, so it is above 0 at
-- every closing.
unfoldable pub block_comment_loop : ℕ → Text → Text
block_comment_loop depth [] = []
block_comment_loop depth (c ∷ []) = []
block_comment_loop depth (c ∷ d ∷ s) = elim (c == 47 && d == 42) [
  | true ↦ block_comment_loop (suc depth) s
  | false ↦ elim (c == 42 && d == 47) [
    | true ↦ elim (depth - 1 == 0) [ true ↦ s | false ↦ block_comment_loop (depth - 1) s ]
    | false ↦ block_comment_loop depth (d ∷ s)
  ]
]

abbrev pub end_of_block_comment : Text → Text
end_of_block_comment s = block_comment_loop 0 s

unfoldable pub is_dollar_quote_tag : Text → Bool
unfolding end_of_byte_run
is_dollar_quote_tag [] = false
is_dollar_quote_tag (c ∷ s) = is_word_start_byte c && is_empty (end_of_byte_run is_tag_byte s)

-- The bytes before the first dollar, if there is one.
abbrev pub before_dollar : Text → Option Text
before_dollar [] = none
before_dollar (c ∷ s) =
    if c == 36 then some [] else elim (before_dollar s) [ none ↦ none | some tag ↦ some (c ∷ tag) ]

abbrev pub delimiter : Text → Text
delimiter tag = 36 ∷ (tag ++ 36 ∷ [])

-- From the opening dollar on: the delimiter, with both its dollars.
unfoldable pub dollar_quote_delimiter : Text → Option Text
unfolding is_dollar_quote_tag
dollar_quote_delimiter s = elim (before_dollar (drop 1 s)) [
  | none ↦ none
  | some tag ↦
      if not (is_empty tag) && not (is_dollar_quote_tag tag) then none else some (delimiter tag)
]

-- `strings.Index`: what follows the first occurrence.
unfoldable pub after_first : Text → Text → Option Text
after_first needle [] = cut_prefix needle []
after_first needle (c ∷ s) =
    let further = after_first needle s in
    elim (cut_prefix needle (c ∷ s)) [ some rest ↦ some rest | none ↦ further ]

unfoldable pub end_of_dollar_quoted : Text → Text
end_of_dollar_quoted s = elim (dollar_quote_delimiter s) [
  | none ↦ drop 1 s
  | some opening ↦ elim (after_first opening (drop (length opening) s)) [
    | none ↦ []
    | some rest ↦ rest
  ]
]

unfoldable pub end_of_word_or_escape_string : Text → Text × Bool
unfolding end_of_byte_run
end_of_word_or_escape_string s =
    let rest = end_of_byte_run is_word_byte (drop 1 s) in
    if starts_with string_quote rest && equal_fold (between s rest) (codes "E")
    then (end_of_quoted rest string_quote true, false)
    else (rest, true)

-- The rest after the token at the head, and whether the token is a bare word.
unfoldable pub next_token : Text → Text × Bool
next_token [] = ([], false)
next_token (c ∷ s) =
    if is_word_start_byte c
    then end_of_word_or_escape_string (c ∷ s)
    else if has_prefix line_comment_open (c ∷ s)
    then (end_of_line_comment (c ∷ s), false)
    else if has_prefix block_comment_open (c ∷ s)
    then (end_of_block_comment (c ∷ s), false)
    else if c == string_quote || c == identifier_quote
    then (end_of_quoted (c ∷ s) c false, false)
    else if c == 36
    then (end_of_dollar_quoted (c ∷ s), false)
    else (s, false)

abbrev pub is_token_separator : ℕ → Text → Bool
is_token_separator c s =
    is_space c || has_prefix line_comment_open (c ∷ s) || has_prefix block_comment_open (c ∷ s)

-- The loop of `firstBareWord`: what stands from the first bare occurrence on.
unfoldable pub bare_word_loop : ℕ → Text → Bool → Text → Option Text
bare_word_loop zero word after_selector s = none
bare_word_loop (suc fuel) word after_selector [] = none
bare_word_loop (suc fuel) word after_selector (c ∷ s) =
    let rest = (next_token (c ∷ s)).0 in
    let is_word = (next_token (c ∷ s)).1 in
    let selector = if is_token_separator c s then after_selector else c == field_selector in
    let further = bare_word_loop fuel word selector rest in
    if is_word && not after_selector && equal_fold (between (c ∷ s) rest) word
    then some (c ∷ s)
    else further

unfoldable pub first_bare_word : Text → Text → Option ℕ
unfolding bare_word_loop next_token end_of_word_or_escape_string end_of_line_comment
    block_comment_loop end_of_quoted end_of_dollar_quoted dollar_quote_delimiter after_first
first_bare_word clause word = elim (bare_word_loop (length clause) word false clause) [
  | none ↦ none
  | some found ↦ some (length clause - length found)
]

-- The row variable that the condition of an operation may not name, and the statement it is refused
-- for.
unfoldable pub when_refusal : Text → Option (Text × Text)
when_refusal operation =
    if text_eq operation (codes "insert")
    then some (codes "OLD", codes "INSERT")
    else if text_eq operation (codes "delete")
    then some (codes "NEW", codes "DELETE")
    else none

pub record BareReference : Type 0 where
  pub word : Text
  pub statement : Text
  pub start : ℕ

unfoldable pub forbidden_when_reference : Text → Text → Option BareReference
unfolding when_refusal first_bare_word
forbidden_when_reference operation clause = elim (when_refusal operation) [
  | none ↦ none
  | some (variable, statement) ↦ elim (first_bare_word clause variable) [
    | none ↦ none
    | some start ↦ some (record { word = variable; statement = statement; start = start })
  ]
]
