-- ===== src/Delivery/Signing/Hex.antt =====
-- internal/delivery/signing.go: a lowercase digest is the only spelling of its bytes that is accepted.
use pg_noty.Base.{
  ℕ, ◌+◌, ◌*◌, ◌/◌, ◌%◌, ◌<◌, ◌≡◌, refl, ◌∙◌, ap, sym, inl, inr, true, false, not, some, [], ◌∷◌,
  ◌==◌, arith, All, any, length, Text, Option-cases, some_inv,
}
use pg_noty.Delivery.Signing.{hex_digit, encode_hex, hex_value, decode_hex, is_lower_digit, comma}

hex_value-hex_digit : (n : ℕ) → n < 16 → hex_value (hex_digit n) ≡ some n
hex_value-hex_digit n h = ground arith

halves : (c : ℕ) → c < 256 → (c / 16 < 16) × (c % 16 < 16) × (16 * (c / 16) + c % 16 ≡ c)
halves c h = (omega (arith, h), omega arith, omega arith)

pub decode_hex-encode_hex : (t : Text) → All (λ c. c < 256) t → decode_hex (encode_hex t) ≡ some t
decode_hex-encode_hex [] h = refl
decode_hex-encode_hex (c ∷ t) h =
    let (a, b, e) = halves c h.0 in
    rw (hex_value-hex_digit (c / 16) a, hex_value-hex_digit (c % 16) b, decode_hex-encode_hex t h.1)
      (ap (λ x. some (x ∷ t)) e)

hex_digit-lower : (n : ℕ) → n < 16 → is_lower_digit (hex_digit n) ≡ true
hex_digit-lower n h = ground arith

pub encode_hex-lower :
    (t : Text) → All (λ c. c < 256) t → any (λ c. not (is_lower_digit c)) (encode_hex t) ≡ false
encode_hex-lower [] h = refl
encode_hex-lower (c ∷ t) h =
    let (a, b, e) = halves c h.0 in
    rw (hex_digit-lower (c / 16) a, hex_digit-lower (c % 16) b) (encode_hex-lower t h.1)

pub encode_hex-length : (t : Text) → length (encode_hex t) ≡ 2 * length t
encode_hex-length [] = refl
encode_hex-length (c ∷ t) = omega (arith, encode_hex-length t)

-- A lowercase digit is what its value is written as.
hex_digit_value :
    (c : ℕ) {v : ℕ} → is_lower_digit c ≡ true → hex_value c ≡ some v → (hex_digit v ≡ c) × (v < 16)
hex_digit_value c l h = ground (arith)

pair_halves : (a b : ℕ) → a < 16 → b < 16 → ((16 * a + b) / 16 ≡ a) × ((16 * a + b) % 16 ≡ b)
pair_halves a b h k = (omega (arith, h, k), omega (arith, h, k))

pub encode_hex-decode_hex :
    (s : Text) {t : Text}
    → any (λ c. not (is_lower_digit c)) s ≡ false
    → decode_hex s ≡ some t
    → encode_hex t ≡ s
encode_hex-decode_hex [] l h = ap encode_hex (sym (some_inv h))
encode_hex-decode_hex (a ∷ []) l h = absurd (cc)
encode_hex-decode_hex (a ∷ b ∷ s) {t} l h = elim (Option-cases (hex_value a)) [
  | inl e ↦ absurd (cc (rw e at h))
  | inr (x, e) ↦ elim (Option-cases (hex_value b)) [
    | inl f ↦ absurd (cc (rw (e, f) at h))
    | inr (y, f) ↦ elim (Option-cases (decode_hex s)) [
      | inl g ↦ absurd (cc (rw (e, f, g) at h))
      | inr (r, g) ↦
          let same : (16 * x + y) ∷ r ≡ t = some_inv (rw (e, f, g) at h) in
          let (first, small) = hex_digit_value a (ground arith) e in
          let (second, tiny) = hex_digit_value b (ground arith) f in
          let (high, low) = pair_halves x y small tiny in
          let rest = encode_hex-decode_hex s (ground arith) g in
          sym (ap encode_hex same) ∙ rw (high, low, first, second, rest) refl
    ]
  ]
]

-- No comma is in what a digest is written as.
pub lower_no_comma :
    (s : Text) → any (λ c. not (is_lower_digit c)) s ≡ false → any (λ c. c == comma) s ≡ false
lower_no_comma [] h = refl
lower_no_comma (c ∷ s) h = ground (arith, lower_no_comma s)
