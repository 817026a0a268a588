-- ===== src/Schema/ObjectName/Fits.antt =====
-- internal/schema/objectname.go: a generated name is always usable as an identifier, and a name that is
-- too long is cut at a rune boundary.
use pg_noty.Base.{
  ℕ, zero, suc, ◌+◌, ◌-◌, ◌/◌, ◌%◌, ◌≤◌, ◌<◌, ◌≡◌, refl, sym, ap, ◌∙◌, subst, if◌then◌else◌, ◌⊎◌,
  inl, inr, true, false, ◌||◌, leb, [], ◌∷◌, ◌++◌, arith, length, length-append, length-take, take,
  Text, Bool-cases, ltb, is_empty, ok,
}
use pg_noty.Schema.Identifier.{max_identifier_bytes, why_unusable, holds_nul}
use pg_noty.Schema.ObjectName.{
  starts_rune, fnv_32a, hex, hex_digit, cut_name, rune_boundary_at_or_before, object_name,
}

hex-length : (width n : ℕ) (rest : Text) → length (hex width n rest) ≡ width + length rest
unfolding hex
hex-length zero n rest = omega arith
hex-length (suc width) n rest = omega (arith, hex-length width (n / 16) (hex_digit (n % 16) ∷ rest))

hex-holds_nul :
    (width n : ℕ) (rest : Text) → holds_nul rest ≡ false → holds_nul (hex width n rest) ≡ false
unfolding hex
hex-holds_nul zero n rest h = h
hex-holds_nul (suc width) n rest h =
    hex-holds_nul width (n / 16) (hex_digit (n % 16) ∷ rest) (ground (arith, h))

rune_boundary-le : (text : Text) (limit : ℕ) → rune_boundary_at_or_before text limit ≤ limit
unfolding rune_boundary_at_or_before
rune_boundary-le text zero = omega arith
rune_boundary-le text (suc limit) = ground (arith, rune_boundary-le text limit)

pub holds_nul-append : (s t : Text) → holds_nul (s ++ t) ≡ (holds_nul s || holds_nul t)
holds_nul-append [] t = refl
holds_nul-append (c ∷ s) t = ground (arith, holds_nul-append s t)

holds_nul-take : (n : ℕ) (s : Text) → holds_nul s ≡ false → holds_nul (take n s) ≡ false
holds_nul-take zero s h = refl
holds_nul-take (suc n) [] h = refl
holds_nul-take (suc n) (c ∷ s) h = ground (arith, h, holds_nul-take n s)

append_nonempty : (s t : Text) → is_empty (s ++ 95 ∷ t) ≡ false
append_nonempty [] t = refl
append_nonempty (c ∷ s) t = refl

-- The last index up to a limit at which a rune starts, or the first index of all.
pub record IsBoundary (text : Text) (limit cut : ℕ) : Type 0 where
  pub within : cut ≤ limit
  pub starts : (cut ≡ 0) ⊎ (starts_rune text cut ≡ true)
  pub latest : (j : ℕ) → (j ≤ cut) ⊎ ((limit < j) ⊎ (starts_rune text j ≡ false))

latest_here : (limit j : ℕ) → (j ≤ limit) ⊎ (limit < j)
latest_here limit j = elim (Bool-cases (leb j limit)) [
  | inl e ↦ inl (ground (arith, e))
  | inr e ↦ inr (ground (arith, e))
]

rune_boundary_at_or_before-IsBoundary :
    (text : Text) (limit : ℕ) → IsBoundary text limit (rune_boundary_at_or_before text limit)
unfolding rune_boundary_at_or_before
rune_boundary_at_or_before-IsBoundary text zero = record {
  within = omega arith;
  starts = inl refl;
  latest = λ j. elim (latest_here 0 j) [ inl e ↦ inl e | inr e ↦ inr (inl e) ];
}
rune_boundary_at_or_before-IsBoundary text (suc limit) =
    elim (Bool-cases (starts_rune text (suc limit))) [
      | inl e ↦
          subst (IsBoundary text (suc limit))
            (sym (ap (λ b. if b then suc limit else rune_boundary_at_or_before text limit) e))
            (record {
              within = omega arith;
              starts = inr e;
              latest =
                  λ j. elim (latest_here (suc limit) j) [ inl k ↦ inl k | inr k ↦ inr (inl k) ];
            })
      | inr e ↦
          let back = rune_boundary_at_or_before-IsBoundary text limit in
          subst (IsBoundary text (suc limit))
            (sym (ap (λ b. if b then suc limit else rune_boundary_at_or_before text limit) e))
            (record {
              within = omega (arith, back.within);
              starts = back.starts;
              latest = λ j. elim (back.latest j) [
                | inl k ↦ inl k
                | inr (inr k) ↦ inr (inr k)
                | inr (inl k) ↦ elim (latest_here (suc limit) j) [
                  | inr m ↦ inr (inl m)
                  | inl m ↦
                      let here : suc limit ≡ j = omega (arith, k, m) in
                      inr (inr (subst (λ i. starts_rune text i ≡ false) here e))
                ]
              ];
            })
    ]

-- What a cut name is.
record Cut (full name : Text) : Type 0 where
  size : length name ≤ max_identifier_bytes
  full_size : is_empty name ≡ false
  clean : holds_nul full ≡ false → holds_nul name ≡ false

cut_name-Cut :
    (full tag : Text) → length tag ≡ 8 → holds_nul tag ≡ false → Cut full (cut_name full tag)
unfolding cut_name
cut_name-Cut full tag h k =
    let cut = rune_boundary_at_or_before full (max_identifier_bytes - length tag - 1) in
    let low = rune_boundary-le full (max_identifier_bytes - length tag - 1) in
    record {
      size = omega (arith, h, low, length-append (take cut full) (95 ∷ tag), length-take cut full);
      full_size = append_nonempty (take cut full) tag;
      clean = λ e.
          ground (arith, k, holds_nul-append (take cut full) (95 ∷ tag), holds_nul-take cut full e);
    }

object_name-Cut : (base suffix : Text) → Cut (base ++ 95 ∷ suffix) (object_name base suffix)
unfolding object_name
object_name-Cut base suffix =
    let full = base ++ 95 ∷ suffix in
    let sum = fnv_32a 2166136261 full in
    elim (Bool-cases (leb (length full) max_identifier_bytes)) [
      | inl e ↦ rw e (record {
        size = ground (arith, e);
        full_size = append_nonempty base suffix;
        clean = λ h. h;
      })
      | inr e ↦
          rw e
            (cut_name-Cut full (hex 8 sum []) (hex-length 8 sum []) (hex-holds_nul 8 sum [] refl))
    ]

usable-Cut : (full name : Text) → Cut full name → holds_nul full ≡ false → why_unusable name ≡ ok tt
unfolding why_unusable
usable-Cut full name c h =
    let fits : ltb max_identifier_bytes (length name) ≡ false = ground (arith, c.size) in
    rw (c.full_size, c.clean h, fits) refl

-- The hash that a cut name ends with.
abbrev pub hash_of : Text → Text
hash_of full = hex 8 (fnv_32a 2166136261 full) []

-- The beginning of a name, up to a rune boundary that leaves room for the hash, and the hash.
abbrev pub IsCutName : Text → Text → Type 0
IsCutName full name =
    (cut : ℕ) × IsBoundary full 54 cut × (name ≡ take cut full ++ 95 ∷ hash_of full)

whole_or_cut :
    (base suffix : Text)
    → (object_name base suffix ≡ base ++ 95 ∷ suffix)
      ⊎ ((max_identifier_bytes < length (base ++ 95 ∷ suffix))
          × IsCutName (base ++ 95 ∷ suffix) (object_name base suffix))
unfolding object_name cut_name
whole_or_cut base suffix =
    let full = base ++ 95 ∷ suffix in
    elim (Bool-cases (leb (length full) max_identifier_bytes)) [
      | inl e ↦ inl (rw e refl)
      | inr e ↦
          let cut = rune_boundary_at_or_before full 54 in
          inr (
            ground (arith, e),
            (
              cut,
              rune_boundary_at_or_before-IsBoundary full 54,
              ap (λ b. if b then full else cut_name full (hash_of full)) e
                  ∙ ap
                      (λ n.
                        take (rune_boundary_at_or_before full (max_identifier_bytes - n - 1)) full
                        ++ 95 ∷ hash_of full)
                      (hex-length 8 (fnv_32a 2166136261 full) []),
            ),
          )
    ]

-- Where neither part holds a NUL, the generated name is usable as an identifier however long they are.
-- It is the whole name unless that is longer than an identifier can be; then it is the beginning of the
-- name, up to the last rune boundary that leaves room, and the hash of the whole name.
pub object_name_lem :
    (base suffix : Text)
    → holds_nul base ≡ false
    → holds_nul suffix ≡ false
    → (why_unusable (object_name base suffix) ≡ ok tt)
      × ((object_name base suffix ≡ base ++ 95 ∷ suffix)
          ⊎ ((max_identifier_bytes < length (base ++ 95 ∷ suffix))
              × IsCutName (base ++ 95 ∷ suffix) (object_name base suffix)))
object_name_lem base suffix h k =
    let both : holds_nul (base ++ 95 ∷ suffix) ≡ false =
      ground (arith, holds_nul-append base (95 ∷ suffix), h, k) in
    (
      usable-Cut (base ++ 95 ∷ suffix) (object_name base suffix) (object_name-Cut base suffix) both,
      whole_or_cut base suffix,
    )
