-- ===== src/Delivery/Signing/Rotation.antt =====
-- internal/delivery/signing.go: secrets can be rotated without a request refused, and no header is accepted
-- that lacks the signature.
use pg_noty.Base.{
  ◌*◌, ◌≡◌, refl, ◌∙◌, sym, ap, inl, inr, Bool, true, false, not, ◌&&◌, ◌||◌, List, [], ◌∷◌, ◌++◌,
  map, ◌==◌, arith, All, any, any_weaken, length, ℤ, Text, text_eq, text_eq_iff, is_empty,
  cut_prefix, cut_prefix_sound, split, Bool-cases, Option-cases,
}
use pg_noty.Delivery.Signing.{
  Hmac, encode_hex, decode_hex, is_lower_digit, is_lower_hex, comma, version_prefix, join,
  well_formed, signature_digest, sign, sign_all, verify, verify_terms, verify_header, signer_verify,
}
use pg_noty.Delivery.Signing.Hex.{
  decode_hex-encode_hex, encode_hex-decode_hex, encode_hex-lower, encode_hex-length, lower_no_comma,
}

abbrev has_comma : Text → Bool
has_comma = any (λ c. c == comma)

split-field : (f s : Text) → has_comma f ≡ false → split comma (f ++ comma ∷ s) ≡ f ∷ split comma s
split-field [] s h = refl
split-field (c ∷ f) s h = ground (arith, split-field f s)

split-last : (f : Text) → has_comma f ≡ false → split comma f ≡ f ∷ []
split-last [] h = refl
split-last (c ∷ f) h = ground (arith, split-last f)

-- Terms without commas that are joined come apart again.
split-join :
    (f : Text) (fs : List Text)
    → All (λ t. has_comma t ≡ false) (f ∷ fs)
    → split comma (join (f ∷ fs)) ≡ f ∷ fs
split-join f [] h = split-last f h.0
split-join f (g ∷ fs) h =
    split-field f (join (g ∷ fs)) h.0 ∙ ap (λ ts. f ∷ ts) (split-join g fs h.1)

not_empty : (t : Text) → length t ≡ 64 → is_empty t ≡ false
not_empty [] e = absurd (omega (arith, e))
not_empty (c ∷ t) e = refl

any-middle :
    (p : Text → Bool) (xs ys : List Text) (y : Text) → p y ≡ true → any p (xs ++ y ∷ ys) ≡ true
any-middle p [] ys y e = rw e refl
any-middle p (x ∷ xs) ys y e = any_weaken p x (xs ++ y ∷ ys) (any-middle p xs ys y e)

module _ (h : Hmac) (timestamp : ℤ) (body : Text) where
  abbrev term_of : Text → Text
  term_of s = version_prefix ++ sign h s timestamp body

  sign-lower : (s : Text) → any (λ c. not (is_lower_digit c)) (sign h s timestamp body) ≡ false
  unfolding sign signature_digest
  sign-lower s = encode_hex-lower (signature_digest h s timestamp body) (h.digest-bytes s _)

  sign-length : (s : Text) → length (sign h s timestamp body) ≡ 64
  unfolding sign signature_digest
  sign-length s =
      encode_hex-length (signature_digest h s timestamp body)
      ∙ ap (λ n. 2 * n) (h.digest-length s _)

  sign-well_formed : (s : Text) → well_formed (sign h s timestamp body) ≡ true
  unfolding is_lower_hex
  sign-well_formed s =
      rw (sign-length s, not_empty (sign h s timestamp body) (sign-length s), sign-lower s) refl

  term_no_comma : (s : Text) → has_comma (term_of s) ≡ false
  term_no_comma s = lower_no_comma (sign h s timestamp body) (sign-lower s)

  verify-sign : (s : Text) → verify h s timestamp body (sign h s timestamp body) ≡ true
  unfolding verify sign signature_digest
  verify-sign s =
      rw
        (
          sign-well_formed s,
          decode_hex-encode_hex (signature_digest h s timestamp body) (h.digest-bytes s _),
        )
        ((text_eq_iff (signature_digest h s timestamp body) (signature_digest h s timestamp body)).1
          refl)

  verify_terms-signed :
      (s : Text) (matched : Bool) (secrets : List Text)
      → verify_terms h s timestamp body matched (map term_of secrets)
        ≡ (matched || any (λ k. verify h s timestamp body (sign h k timestamp body)) secrets)
  unfolding verify_terms
  verify_terms-signed s matched [] = ground arith
  verify_terms-signed s matched (k ∷ ks) =
      rw
        (
          sign-well_formed k,
          verify_terms-signed s (matched || verify h s timestamp body (sign h k timestamp body)) ks,
        )
        (or_assoc matched (verify h s timestamp body (sign h k timestamp body)) _)
    where
      or_assoc : (a b c : Bool) → ((a || b) || c) ≡ (a || (b || c))
      or_assoc a b c = ground arith

  split-sign_all :
      (k : Text) (ks : List Text)
      → split comma (sign_all h (k ∷ ks) timestamp body) ≡ map term_of (k ∷ ks)
  unfolding sign_all
  split-sign_all k ks = split-join (term_of k) (map term_of ks) (term_no_comma k, commas ks)
    where
      commas : (ks : List Text) → All (λ t. has_comma t ≡ false) (map term_of ks)
      commas [] = tt
      commas (k ∷ ks) = (term_no_comma k, commas ks)

  -- What a signer with a list of secrets signs is accepted by whoever knows one of them, wherever it
  -- stands in the list.
  signed_verifies :
      (older newer : List Text) (secret : Text)
      → verify_header h secret timestamp body (sign_all h (older ++ secret ∷ newer) timestamp body)
        ≡ true
  unfolding verify_header
  signed_verifies older newer secret =
      let found =
        any-middle (λ k. verify h secret timestamp body (sign h k timestamp body)) older newer
          secret (verify-sign secret) in
      ap (verify_terms h secret timestamp body false) (apart older)
      ∙ (verify_terms-signed secret false (older ++ secret ∷ newer) ∙ found)
    where
      apart :
          (older : List Text)
          → split comma (sign_all h (older ++ secret ∷ newer) timestamp body)
            ≡ map term_of (older ++ secret ∷ newer)
      apart [] = split-sign_all secret newer
      apart (k ∷ ks) = split-sign_all k (ks ++ secret ∷ newer)

  -- Whoever has one secret in common with the signer accepts what the signer signs, wherever the secret
  -- stands in either list: secrets can be rotated one at a time.
  pub rotation_verifies :
      (older newer known known' : List Text) (secret : Text)
      → signer_verify h
          (known ++ secret ∷ known')
          timestamp
          body
          (sign_all h (older ++ secret ∷ newer) timestamp body)
        ≡ true
  unfolding signer_verify
  rotation_verifies older newer known known' secret =
      any-middle
        (λ s.
          verify_header h s timestamp body (sign_all h (older ++ secret ∷ newer) timestamp body))
        known known' secret (signed_verifies older newer secret)

  verify_sound :
      (s candidate : Text)
      → verify h s timestamp body candidate ≡ true
      → candidate ≡ sign h s timestamp body
  unfolding verify sign is_lower_hex
  verify_sound s candidate v = elim (Option-cases (decode_hex candidate)) [
    | inl e ↦ absurd (no_false (well_formed candidate) (rw e at v))
    | inr (t, e) ↦
        let same : signature_digest h s timestamp body ≡ t =
          (text_eq_iff (signature_digest h s timestamp body) t).0
            (both (well_formed candidate) _ (rw e at v)).1 in
        sym (encode_hex-decode_hex candidate (ground arith) e) ∙ ap encode_hex (sym same)
  ]
    where
      no_false : (b : Bool) → (b && false) ≡ true → ⊥
      no_false b k = ground arith

      both : (a b : Bool) → (a && b) ≡ true → (a ≡ true) × (b ≡ true)
      both a b k = ground arith

  verify_terms_sound :
      (s : Text) (matched : Bool) (terms : List Text)
      → verify_terms h s timestamp body matched terms ≡ true
      → (matched || any (text_eq (term_of s)) terms) ≡ true
  unfolding verify_terms
  verify_terms_sound s matched [] v = rw v refl
  verify_terms_sound s matched (term ∷ terms) v =
      elim (Option-cases (cut_prefix version_prefix term)) [
        | inl e ↦ absurd (cc (rw (verify_terms, e) at v))
        | inr (candidate, e) ↦ elim (Bool-cases (well_formed candidate)) [
          | inr f ↦ absurd (cc (rw (verify_terms, e, f) at v))
          | inl f ↦
              let rest =
                verify_terms_sound s (matched || verify h s timestamp body candidate) terms
                  (rw (verify_terms, e, f) at v) in
              elim (Bool-cases (verify h s timestamp body candidate)) [
                | inr g ↦
                    later matched (text_eq (term_of s) term) (any (text_eq (term_of s)) terms)
                      (or_false matched _ (rw g at rest))
                | inl g ↦
                    let written : term ≡ term_of s =
                      cut_prefix_sound version_prefix term e
                      ∙ ap (λ t. version_prefix ++ t) (verify_sound s candidate g) in
                    let own : text_eq (term_of s) term ≡ true =
                      (text_eq_iff (term_of s) term).1 (sym written) in
                    found matched (text_eq (term_of s) term) (any (text_eq (term_of s)) terms) own
              ]
        ]
      ]
    where
      or_false : (a b : Bool) → ((a || false) || b) ≡ true → (a || b) ≡ true
      or_false a b k = ground arith

      later : (a b c : Bool) → (a || c) ≡ true → (a || (b || c)) ≡ true
      later a b c k = ground arith

      found : (a b c : Bool) → b ≡ true → (a || (b || c)) ≡ true
      found a b c k = ground arith

  -- A header that is accepted for a secret has the signature of that secret among its terms.
  pub verify_header_sound :
      (secret header : Text)
      → verify_header h secret timestamp body header ≡ true
      → any (text_eq (version_prefix ++ sign h secret timestamp body)) (split comma header) ≡ true
  unfolding verify_header
  verify_header_sound secret header v = verify_terms_sound secret false (split comma header) v
