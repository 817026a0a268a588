-- ===== src/Delivery/Signing.antt =====
-- internal/delivery/signing.go: the signature header of a request and its verification. The HMAC is a
-- parameter.
pub mod Hex
pub mod Rotation
use pg_noty.Base.{
  ℕ, zero, suc, ◌+◌, ◌-◌, ◌*◌, ◌/◌, ◌%◌, ◌<◌, ◌≡◌, Bool, true, false, not, ◌&&◌, ◌||◌, Option, none,
  some, List, [], ◌∷◌, ◌++◌, map, if◌then◌else◌, ltb, ◌==◌, All, any, length, ℤ, Text, codes,
  text_eq, is_empty, cut_prefix, split, decimal,
}

-- HMAC-SHA256: 32 bytes for any key and message.
pub record Hmac : Type 0 where
  pub digest : Text → Text → Text
  pub digest-length : (key message : Text) → length (digest key message) ≡ 32
  pub digest-bytes : (key message : Text) → All (λ c. c < 256) (digest key message)

-- encoding/hex.
abbrev pub hex_digit : ℕ → ℕ
hex_digit n = if ltb n 10 then 48 + n else 87 + n

abbrev pub encode_hex : Text → Text
encode_hex [] = []
encode_hex (c ∷ cs) = hex_digit (c / 16) ∷ hex_digit (c % 16) ∷ encode_hex cs

abbrev within : ℕ → ℕ → ℕ → Bool
within low high c = not (ltb c low) && not (ltb high c)

abbrev pub hex_value : ℕ → Option ℕ
hex_value c =
    if within 48 57 c
    then some (c - 48)
    else if within 97 102 c
    then some (c - 87)
    else if within 65 70 c
    then some (c - 55)
    else none

abbrev pub cons_byte : Option ℕ → Option ℕ → Option Text → Option Text
cons_byte (some a) (some b) (some t) = some ((16 * a + b) ∷ t)
cons_byte _ _ _ = none

abbrev pub decode_hex : Text → Option Text
decode_hex [] = some []
decode_hex (a ∷ []) = none
decode_hex (a ∷ b ∷ cs) = cons_byte (hex_value a) (hex_value b) (decode_hex cs)

abbrev pub is_lower_digit : ℕ → Bool
is_lower_digit c = within 48 57 c || within 97 102 c

unfoldable pub is_lower_hex : Text → Bool
is_lower_hex value = not (is_empty value) && not (any (λ c. not (is_lower_digit c)) value)

abbrev pub comma : ℕ
comma = 44

abbrev pub version_prefix : Text
version_prefix = codes "v1="

-- strings.Join.
abbrev pub join : List Text → Text
join [] = []
join (f ∷ []) = f
join (f ∷ g ∷ fs) = f ++ comma ∷ join (g ∷ fs)

abbrev pub equals_decoded : Text → Option Text → Bool
equals_decoded digest none = false
equals_decoded digest (some want) = text_eq digest want

abbrev pub well_formed : Text → Bool
well_formed candidate = (length candidate == 64) && is_lower_hex candidate

module _ (h : Hmac) where
  unfoldable pub signature_digest : Text → ℤ → Text → Text
  signature_digest secret timestamp body = h.digest secret (decimal timestamp ++ 46 ∷ body)

  unfoldable pub sign : Text → ℤ → Text → Text
  unfolding signature_digest
  sign secret timestamp body = encode_hex (signature_digest secret timestamp body)

  unfoldable pub sign_all : List Text → ℤ → Text → Text
  unfolding sign
  sign_all secrets timestamp body =
      join (map (λ s. version_prefix ++ sign s timestamp body) secrets)

  unfoldable pub verify : Text → ℤ → Text → Text → Bool
  unfolding signature_digest is_lower_hex
  verify secret timestamp body candidate =
      well_formed candidate
      && equals_decoded (signature_digest secret timestamp body) (decode_hex candidate)

  -- The loop over the terms of a header.
  unfoldable pub verify_terms : Text → ℤ → Text → Bool → List Text → Bool
  verify_terms secret timestamp body matched [] = matched
  verify_terms secret timestamp body matched (term ∷ terms) =
      elim (cut_prefix version_prefix term) [
        | none ↦ false
        | some candidate ↦
            let rest =
              verify_terms secret timestamp body (matched || verify secret timestamp body candidate)
                terms in
            if well_formed candidate then rest else false
      ]

  unfoldable pub verify_header : Text → ℤ → Text → Text → Bool
  unfolding verify_terms
  verify_header secret timestamp body header =
      verify_terms secret timestamp body false (split comma header)

  -- `Signer.Verify`.
  unfoldable pub signer_verify : List Text → ℤ → Text → Text → Bool
  unfolding verify_header
  signer_verify secrets timestamp body header =
      any (λ s. verify_header s timestamp body header) secrets
