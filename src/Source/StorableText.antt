-- ===== src/Source/StorableText.antt =====
-- internal/source/storabletext.go, with the parts of package unicode/utf8 that it calls.
pub mod Width
use pg_noty.Base.{
  ℕ, zero, suc, ◌+◌, ◌-◌, ◌*◌, ◌/◌, ◌%◌, ◌&&◌, ◌||◌, Bool, true, false, not, [], ◌∷◌, ◌++◌, ltb,
  leb, ◌==◌, drop, length, any, max, if◌then◌else◌, Text,
}

-- utf8.DecodeRuneInString: the rune at the front and its width in bytes. What is not the encoding
-- of a rune is the replacement rune at width 1, and the empty text is that at width 0.
abbrev pub rune_error : ℕ
rune_error = 0xFFFD

abbrev pub between : ℕ → ℕ → ℕ → Bool
between low high c = leb low c && leb c high

abbrev pub is_continuation : ℕ → Bool
is_continuation = between 0x80 0xBF

-- The second byte's range depends on the first: it excludes overlong forms, surrogates, and what is
-- above U+10FFFF.
abbrev pub second_of_three : ℕ → ℕ → Bool
second_of_three a b =
    if a == 0xE0
    then between 0xA0 0xBF b
    else if a == 0xED
    then between 0x80 0x9F b
    else is_continuation b

abbrev pub second_of_four : ℕ → ℕ → Bool
second_of_four a b =
    if a == 0xF0
    then between 0x90 0xBF b
    else if a == 0xF4
    then between 0x80 0x8F b
    else is_continuation b

abbrev pub rune_two : ℕ → ℕ → ℕ
rune_two a b = (a - 0xC0) * 64 + (b - 0x80)

abbrev pub rune_three : ℕ → ℕ → ℕ → ℕ
rune_three a b c = (a - 0xE0) * 4096 + (b - 0x80) * 64 + (c - 0x80)

abbrev pub rune_four : ℕ → ℕ → ℕ → ℕ → ℕ
rune_four a b c d = (a - 0xF0) * 262144 + (b - 0x80) * 4096 + (c - 0x80) * 64 + (d - 0x80)

decode_two : ℕ → Text → ℕ × ℕ
decode_two a [] = (rune_error, 1)
decode_two a (b ∷ _) = if is_continuation b then (rune_two a b, 2) else (rune_error, 1)

decode_three : ℕ → Text → ℕ × ℕ
decode_three a [] = (rune_error, 1)
decode_three a (b ∷ []) = (rune_error, 1)
decode_three a (b ∷ c ∷ _) =
    if second_of_three a b && is_continuation c then (rune_three a b c, 3) else (rune_error, 1)

decode_four : ℕ → Text → ℕ × ℕ
decode_four a [] = (rune_error, 1)
decode_four a (b ∷ []) = (rune_error, 1)
decode_four a (b ∷ c ∷ []) = (rune_error, 1)
decode_four a (b ∷ c ∷ d ∷ _) =
    if second_of_four a b && (is_continuation c && is_continuation d)
    then (rune_four a b c d, 4)
    else (rune_error, 1)

unfoldable pub decode_rune : Text → ℕ × ℕ
unfolding decode_two decode_three decode_four
decode_rune [] = (rune_error, 0)
decode_rune (a ∷ s) =
    if ltb a 0x80
    then (a, 1)
    else if between 0xC2 0xDF a
    then decode_two a s
    else if between 0xE0 0xEF a
    then decode_three a s
    else if between 0xF0 0xF4 a
    then decode_four a s
    else (rune_error, 1)

-- strings.Builder.WriteRune, of a rune that utf8.DecodeRune can give.
unfoldable pub encode_rune : ℕ → Text
encode_rune r =
    if ltb r 0x80
    then r ∷ []
    else if ltb r 0x800
    then (0xC0 + r / 64) ∷ (0x80 + r % 64) ∷ []
    else if ltb r 0x10000
    then (0xE0 + r / 4096) ∷ (0x80 + r / 64 % 64) ∷ (0x80 + r % 64) ∷ []
    else (0xF0 + r / 262144) ∷ (0x80 + r / 4096 % 64) ∷ (0x80 + r / 64 % 64) ∷ (0x80 + r % 64) ∷ []

-- A byte sequence that is no rune.
abbrev pub is_invalid : ℕ × ℕ → Bool
is_invalid (r, width) = r == rune_error && leb width 1

-- utf8.ValidString. The fuel is the number of bytes, and each round takes one at least.
valid_loop : ℕ → Text → Bool
valid_loop zero s = true
valid_loop (suc fuel) [] = true
valid_loop (suc fuel) (c ∷ s) =
    let (r, width) = decode_rune (c ∷ s) in
    let rest = valid_loop fuel (drop (max width 1) (c ∷ s)) in
    if is_invalid (r, width) then false else rest

unfoldable pub valid_string : Text → Bool
unfolding valid_loop decode_rune
valid_string s = valid_loop (length s) s

-- The loop of `storableText`.
storable_loop : ℕ → Text → Text
storable_loop zero s = []
storable_loop (suc fuel) [] = []
storable_loop (suc fuel) (c ∷ s) =
    let (decoded, width) = decode_rune (c ∷ s) in
    encode_rune (if decoded == 0 || is_invalid (decoded, width) then rune_error else decoded)
    ++ storable_loop fuel (drop (max width 1) (c ∷ s))

unfoldable pub storable_text : Text → Text
unfolding storable_loop valid_string decode_rune encode_rune
storable_text s =
    if valid_string s && not (any (λ c. c == 0) s) then s else storable_loop (length s) s
