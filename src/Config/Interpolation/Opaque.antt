-- ===== src/Config/Interpolation/Opaque.antt =====
-- internal/config/envexpansion.go: what the environment supplies is not scanned again.
use pg_noty.Base.{
  ℕ, zero, suc, ◌+◌, ◌<◌, ◌≡◌, ◌≢◌, refl, sym, ap, ◌∙◌, Bool, true, none, [], ◌∷◌, ◌++◌,
  append_assoc, arith, All, length, length-append, drop, Text, cut_prefix,
}
use pg_noty.Config.Interpolation.{
  reference_open, reference_close, escape_sentinel, variable_name, Reference, of_environment,
  substitution, Expansion, literal, followed_by, without_refused, expanded, scan, expand,
}
use pg_noty.Config.Interpolation.Fuel.{scan-fuel}
use pg_noty.Config.Interpolation.Escapes.{escaped, scan-escaped}
use pg_noty.Config.Interpolation.Bare.{reads_as, read_reference-name}

drop-append : (w s : Text) → drop (length w) (w ++ s) ≡ s
drop-append [] s = refl
drop-append (c ∷ w) s = drop-append w s

abbrev occurrence : Text → Text → Text
occurrence name after = reference_open ++ (name ++ (reference_close ++ after))

occurrence-drop : (name after : Text) → drop (2 + (length name + 1)) (occurrence name after) ≡ after
occurrence-drop name after =
    let w = reference_open ++ (name ++ reference_close) in
    let same : occurrence name after ≡ w ++ after =
      ap (λ t. reference_open ++ t) (sym (append_assoc name reference_close after)) in
    let size : 2 + (length name + 1) ≡ length w =
      omega (arith, length-append name reference_close) in
    ap (drop (2 + (length name + 1))) same
    ∙ (ap (λ n. drop n (w ++ after)) size ∙ drop-append w after)

module _ (env : Text → Text × Bool) where
  -- Bytes that open nothing are taken as they are.
  scan-plain :
      (n m : ℕ) (w s : Text)
      → All (λ c. c ≢ b'$') w
      → length (w ++ s) < n
      → length s < m
      → scan env n (w ++ s) ≡ followed_by (literal w) (scan env m s)
  unfolding scan
  scan-plain n m [] s h k l = scan-fuel env n m s k l
  scan-plain zero m (c ∷ w) s h k l = absurd (omega arith)
  scan-plain (suc n) m (c ∷ w) s h k l =
      let escapes : cut_prefix escape_sentinel (c ∷ (w ++ s)) ≡ none = ground arith in
      let opens : cut_prefix reference_open (c ∷ (w ++ s)) ≡ none = ground arith in
      rw (scan, escapes, opens)
        (ap (followed_by (literal (c ∷ []))) (scan-plain n m w s h.1 (omega arith) l))

  module _ (name value : Text) (set : env name ≡ (value, true)) where
    abbrev supplied : Expansion
    supplied = record { text = value; faults = []; from_environment = true }

    substitution-set : (width : ℕ) → substitution env (reads_as width name) ≡ of_environment value
    unfolding substitution
    substitution-set width = rw (substitution, set) refl

    scan-occurrence :
        (n : ℕ) (after : Text)
        → variable_name name ≡ true
        → length (escaped after) < n
        → scan env (suc n) (occurrence name (escaped after)) ≡ followed_by supplied (literal after)
    unfolding scan
    scan-occurrence n after valid h =
        let t = occurrence name (escaped after) in
        let rest = λ (found : Reference). scan env n (drop found.width t) in
        let inner = λ (d : Text). without_refused (scan env n d) in
        ap
          (λ (found : Reference).
            followed_by (expanded env inner (substitution env found)) (rest found))
          (read_reference-name name (escaped after) valid)
        ∙ (ap
              (λ v.
                followed_by (expanded env inner v) (rest (reads_as (2 + (length name + 1)) name)))
              (substitution-set (2 + (length name + 1)))
            ∙ (ap (λ d. followed_by supplied (scan env n d)) (occurrence-drop name (escaped after))
                ∙ ap (followed_by supplied) (scan-escaped env n after h)))

    -- What a variable is set to is written as it is, whatever it contains: between a text without a "$" and
    -- an escaped one, a reference to the variable gives its value and nothing else.
    pub expand_lem :
        (before after : Text)
        → All (λ c. c ≢ b'$') before
        → variable_name name ≡ true
        → expand env (before ++ occurrence name (escaped after))
          ≡ record { text = before ++ (value ++ after); faults = []; from_environment = true }
    unfolding expand
    expand_lem before after plain valid =
        let t = occurrence name (escaped after) in
        ap without_refused (
          scan-plain (suc (length (before ++ t))) (suc (suc (length t))) before t plain
            (omega arith) (omega arith)
          ∙ ap (followed_by (literal before)) (
              scan-occurrence (suc (length t)) after valid
                (omega (arith, length-append name (reference_close ++ escaped after)))))
