-- ===== src/Config/Interpolation/Fuel.antt =====
-- internal/config/envexpansion.go: the scan of a text ends, the defaults in it included.
use pg_noty.Base.{
  ℕ, zero, suc, ◌+◌, ◌≤◌, ◌<◌, ◌≡◌, refl, sym, ap, subst, ◌∙◌, inl, inr, Bool, false, Option, none,
  some, some_inv, [], ◌∷◌, ◌++◌, arith, ltb, length, length-append, drop, Text, cut_prefix,
  cut_prefix_sound, Option-cases,
}
use pg_noty.Config.Interpolation.{
  reference_open, reference_close, escape_sentinel, default_marker, cut_around, ReferenceRefusal,
  not_refused, empty_name_refusal, bad_name_refusal, unterminated_refusal, Reference, name_refusal,
  name_and_default, reference_of, read_reference, Expansion, literal, followed_by, without_refused,
  Substitution, no_substitution, of_document, of_environment, substitution, expanded, scan, expand,
}

pub cut_around_sound :
    (needle s before after : Text)
    → cut_around needle s ≡ some (before, after)
    → s ≡ before ++ (needle ++ after)
unfolding cut_around
cut_around_sound needle [] before after h = absurd (cc)
cut_around_sound needle (c ∷ s) before after h = elim (Option-cases (cut_prefix needle (c ∷ s))) [
  | inr (r, e) ↦
      let p : some ([], r) ≡ some (before, after) = rw (cut_around, e) at h in
      let q = some_inv p in
      cut_prefix_sound needle (c ∷ s) e ∙ ap (λ (t : Text × Text). t.0 ++ (needle ++ t.1)) q
  | inl e ↦ elim (Option-cases (cut_around needle s)) [
    | inl f ↦ absurd (cc (rw (cut_around, e, f) at h))
    | inr ((b, a), f) ↦
        let p : some (c ∷ b, a) ≡ some (before, after) = rw (cut_around, e, f) at h in
        ap (λ t. c ∷ t) (cut_around_sound needle s b a f)
        ∙ ap (λ (t : Text × Text). t.0 ++ (needle ++ t.1)) (some_inv p)
  ]
]

-- A needle that is found takes its bytes of the text.
pub cut_around-length :
    (needle s before after : Text)
    → cut_around needle s ≡ some (before, after)
    → length s ≡ length before + (length needle + length after)
cut_around-length needle s before after h =
    ap (length) (cut_around_sound needle s before after h)
    ∙ omega (arith, length-append before (needle ++ after), length-append needle after)

reference_of-width :
    (w : ℕ) (parts : Text × Option Text) (r : ReferenceRefusal) → (reference_of w parts r).width ≡ w
reference_of-width w parts not_refused = refl
reference_of-width w parts empty_name_refusal = refl
reference_of-width w parts bad_name_refusal = refl
reference_of-width w parts unterminated_refusal = refl

reference_of-fallback :
    (w : ℕ) (parts : Text × Option Text) (r : ReferenceRefusal) {f : Text}
    → (reference_of w parts r).fallback ≡ some f
    → parts.1 ≡ some f
reference_of-fallback w parts not_refused h = h
reference_of-fallback w parts empty_name_refusal h = absurd (cc)
reference_of-fallback w parts bad_name_refusal h = absurd (cc)
reference_of-fallback w parts unterminated_refusal h = absurd (cc)

name_and_default-shorter :
    (closed : Text) {f : Text} → (name_and_default closed).1 ≡ some f → length f ≤ length closed
name_and_default-shorter closed {f} h = elim (Option-cases (cut_around default_marker closed)) [
  | inl e ↦ absurd (cc (rw (name_and_default, e) at h))
  | inr ((name, fallback), e) ↦
      let p : some fallback ≡ some f = rw (name_and_default, e) at h in
      let q : length fallback ≡ length f = ap (length) (some_inv p) in
      omega (arith, cut_around-length default_marker closed name fallback e)
]

-- What is read of an occurrence takes a byte of the text at least, and a default in it is shorter.
occurrence-bounds :
    (s : Text)
    → (0 < (read_reference (reference_open ++ s)).width)
      × ((f : Text)
          → (read_reference (reference_open ++ s)).fallback ≡ some f
          → length f < length s)
unfolding read_reference
occurrence-bounds s =
    let long : ltb (length (reference_open ++ s)) (length reference_open) ≡ false = ground arith in
    elim (Option-cases (cut_around reference_close s)) [
      | inl e ↦ rw (read_reference, long, e) (omega arith, λ f h. absurd (cc))
      | inr ((closed, after), e) ↦
          let parts = name_and_default closed in
          let width = length reference_open + (length closed + length reference_close) in
          rw (read_reference, long, e)
            (
              omega (arith, reference_of-width width parts (name_refusal parts.0)),
              λ f h. omega (
                arith,
                name_and_default-shorter closed
                    (reference_of-fallback width parts (name_refusal parts.0) h),
                cut_around-length reference_close s closed after e,
              ),
            )
    ]

drop-le : (n : ℕ) (s : Text) → length (drop n s) ≤ length s
drop-le zero s = omega arith
drop-le (suc n) [] = omega arith
drop-le (suc n) (c ∷ s) = omega (arith, drop-le n s)

pub drop-lt : (n c : ℕ) (s : Text) → 0 < n → length (drop n (c ∷ s)) ≤ length s
drop-lt zero c s h = absurd (omega arith)
drop-lt (suc n) c s h = drop-le n s

module _ (env : Text → Text × Bool) where
  substitution-fallback :
      (r : Reference) (f : Text) → substitution env r ≡ of_document f → r.fallback ≡ some f
  unfolding substitution
  substitution-fallback r f h = ground arith

  -- What an occurrence stands for depends on the expansion of its default only.
  expanded-fallback :
      (expand other : Text → Expansion) (r : Substitution)
      → ((f : Text) → r ≡ of_document f → expand f ≡ other f)
      → expanded env expand r ≡ expanded env other r
  expanded-fallback expand other (no_substitution fault) h = refl
  expanded-fallback expand other (of_environment value) h = refl
  expanded-fallback expand other (of_document fallback) h = h fallback refl

  -- However much fuel there is beyond the length of the text, the scan gives the same.
  pub scan-fuel : (n m : ℕ) (s : Text) → length s < n → length s < m → scan env n s ≡ scan env m s
  unfolding scan
  scan-fuel zero m s h k = absurd (omega arith)
  scan-fuel (suc n) zero s h k = absurd (omega arith)
  scan-fuel (suc n) (suc m) [] h k = refl
  scan-fuel (suc n) (suc m) (c ∷ s) h k = elim (Option-cases (cut_prefix escape_sentinel (c ∷ s))) [
    | inr (after, e) ↦
        let q : length (c ∷ s) ≡ length (escape_sentinel ++ after) =
          ap (length) (cut_prefix_sound escape_sentinel (c ∷ s) e) in
        rw (scan, e)
          (ap (followed_by (literal reference_open))
            (scan-fuel n m after (omega arith) (omega arith)))
    | inl e ↦ elim (Option-cases (cut_prefix reference_open (c ∷ s))) [
      | inl f ↦
          rw (scan, e, f)
            (ap (followed_by (literal (c ∷ []))) (scan-fuel n m s (omega arith) (omega arith)))
      | inr (after, f) ↦
          let q : c ∷ s ≡ reference_open ++ after = cut_prefix_sound reference_open (c ∷ s) f in
          let found = read_reference (reference_open ++ after) in
          let (positive, shorter) = occurrence-bounds after in
          let e' : cut_prefix escape_sentinel (reference_open ++ after) ≡ none = refl in
          let left = drop-lt found.width b'$' (b'{' ∷ after) positive in
          let size : length (c ∷ s) ≡ length (reference_open ++ after) = ap (length) q in
          subst (λ t. scan env (suc n) t ≡ scan env (suc m) t) (sym q)
            (ap (λ e. followed_by e (scan env n (drop found.width (reference_open ++ after))))
                (expanded-fallback (λ t. without_refused (scan env n t))
                  (λ t. without_refused (scan env m t)) (substitution env found)
                  (λ t p.
                    let less = shorter t (substitution-fallback found t p) in
                    ap without_refused (scan-fuel n m t (omega arith) (omega arith))))
              ∙ ap
                  (followed_by
                    (expanded env (λ t. without_refused (scan env m t)) (substitution env found)))
                  (scan-fuel n m (drop found.width (reference_open ++ after)) (omega arith)
                    (omega arith)))
    ]
  ]
