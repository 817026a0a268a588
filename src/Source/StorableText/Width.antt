-- ===== src/Source/StorableText/Width.antt =====
-- internal/source/storabletext.go: what utf8.DecodeRuneInString takes of a text.
use pg_noty.Base.{
  ℕ, suc, ◌≡◌, refl, Bool, false, ◌&&◌, [], ◌∷◌, inl, inr, Bool-cases, ltb, arith, ◌==◌, any, take,
  Text,
}
use pg_noty.Source.StorableText.{
  decode_rune, decode_two, decode_three, decode_four, rune_error, between, is_continuation,
  second_of_three, second_of_four,
}

abbrev pub has_zero : Text → Bool
has_zero = any (λ c. c == 0)

-- A rune and its width take a byte or more, none of which is zero.
abbrev pub TakesNoZero : Text → ℕ × ℕ → Type 0
TakesNoZero s (r, width) = (w : ℕ) × (width ≡ suc w) × (has_zero (take (suc w) s) ≡ false)

one : (c : ℕ) (s : Text) (r : ℕ) → (c == 0) ≡ false → TakesNoZero (c ∷ s) (r, 1)
one c s r h = (0, refl, rw h refl)

two : (c : ℕ) (s : Text) → (c == 0) ≡ false → TakesNoZero (c ∷ s) (decode_two c s)
unfolding decode_two
two c [] h = one c [] rune_error h
two c (b ∷ s) h = elim (Bool-cases (is_continuation b)) [
  | inl e ↦ rw e (1, refl, ground arith)
  | inr e ↦ rw e (one c (b ∷ s) rune_error h)
]

three : (a : ℕ) (s : Text) → (a == 0) ≡ false → TakesNoZero (a ∷ s) (decode_three a s)
unfolding decode_three
three a [] h = one a [] rune_error h
three a (b ∷ []) h = one a (b ∷ []) rune_error h
three a (b ∷ c ∷ s) h = elim (Bool-cases (second_of_three a b && is_continuation c)) [
  | inl e ↦ rw e (2, refl, ground arith)
  | inr e ↦ rw e (one a (b ∷ c ∷ s) rune_error h)
]

four : (a : ℕ) (s : Text) → (a == 0) ≡ false → TakesNoZero (a ∷ s) (decode_four a s)
unfolding decode_four
four a [] h = one a [] rune_error h
four a (b ∷ []) h = one a (b ∷ []) rune_error h
four a (b ∷ c ∷ []) h = one a (b ∷ c ∷ []) rune_error h
four a (b ∷ c ∷ d ∷ s) h =
    elim (Bool-cases (second_of_four a b && (is_continuation c && is_continuation d))) [
      | inl e ↦ rw e (3, refl, ground arith)
      | inr e ↦ rw e (one a (b ∷ c ∷ d ∷ s) rune_error h)
    ]

pub decode_rune-TakesNoZero :
    (c : ℕ) (s : Text) → (c == 0) ≡ false → TakesNoZero (c ∷ s) (decode_rune (c ∷ s))
unfolding decode_rune
decode_rune-TakesNoZero c s h = elim (Bool-cases (ltb c 0x80)) [
  | inl e ↦ rw e (one c s c h)
  | inr e ↦ elim (Bool-cases (between 0xC2 0xDF c)) [
    | inl f ↦ rw (e, f) (two c s h)
    | inr f ↦ elim (Bool-cases (between 0xE0 0xEF c)) [
      | inl g ↦ rw (e, f, g) (three c s h)
      | inr g ↦ elim (Bool-cases (between 0xF0 0xF4 c)) [
        | inl k ↦ rw (e, f, g, k) (four c s h)
        | inr k ↦ rw (e, f, g, k) (one c s rune_error h)
      ]
    ]
  ]
]

-- The byte zero is the rune zero.
pub decode_rune_zero : (s : Text) → (decode_rune (0 ∷ s)).0 ≡ 0
unfolding decode_rune
decode_rune_zero s = refl
