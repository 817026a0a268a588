-- ===== src/Tests/Signing.antt =====
-- internal/delivery/signing.go with a digest that repeats one byte.
use pg_noty.Base.{
  ℕ, zero, suc, ◌+◌, ◌%◌, ◌<◌, ◌≡◌, refl, ap, true, [], ◌∷◌, ◌++◌, pos, arith, All, length, Text,
  codes,
}
use pg_noty.Delivery.Signing.{
  Hmac, sign, sign_all, signer_verify, verify_header, verify_terms, verify, is_lower_hex,
  signature_digest,
}
use pg_noty.Delivery.Signing.Rotation.{rotation_verifies}

abbrev repeat : ℕ → ℕ → Text
repeat zero c = []
repeat (suc n) c = c ∷ repeat n c

repeat-length : (n c : ℕ) → length (repeat n c) ≡ n
repeat-length zero c = refl
repeat-length (suc n) c = ap suc (repeat-length n c)

repeat_bytes : (n c : ℕ) → c < 256 → All (λ b. b < 256) (repeat n c)
repeat_bytes zero c h = tt
repeat_bytes (suc n) c h = (h, repeat_bytes n c h)

abbrev sum : Text → ℕ
sum [] = 0
sum (c ∷ s) = c + sum s

abbrev check_sum : Hmac
check_sum = record {
  digest = λ k m. repeat 32 (sum (k ++ m) % 256);
  digest-length = λ k m. repeat-length 32 (sum (k ++ m) % 256);
  digest-bytes = λ k m. repeat_bytes 32 (sum (k ++ m) % 256) (omega arith);
}

rotation_verifies_example :
    signer_verify check_sum
      (codes "a" ∷ codes "b" ∷ [])
      (pos 1700000000)
      (codes "{}")
      (sign_all check_sum (codes "b" ∷ codes "c" ∷ []) (pos 1700000000) (codes "{}"))
    ≡ true
rotation_verifies_example =
    rotation_verifies check_sum (pos 1700000000) (codes "{}") [] (codes "c" ∷ []) (codes "a" ∷ [])
      [] (codes "b")

abbrev header : Text
header = sign_all check_sum (codes "b" ∷ []) (pos 17) (codes "{}")

header_accepted : verify_header check_sum (codes "b") (pos 17) (codes "{}") header ≡ true
unfolding verify_header sign_all verify_terms verify is_lower_hex sign signature_digest
header_accepted = refl
