-- ===== src/Config/Interpolation/Escapes.antt =====
-- internal/config/envexpansion.go: every text can be written in a document, whatever bytes it has, by
-- escaping what would open a reference.
use pg_noty.Base.{
  ℕ, zero, suc, ◌<◌, ◌≡◌, refl, sym, ap, subst, inl, inr, Bool, none, some, [], ◌∷◌, ◌++◌, arith,
  length, Text, codes, cut_prefix, cut_prefix_sound, Option-cases,
}
use pg_noty.Config.Interpolation.{
  reference_open, escape_sentinel, literal, followed_by, without_refused, scan, expand,
}

-- The text as an author writes it, with a "$" before each "${".
unfoldable pub escaped : Text → Text
escaped [] = []
escaped (c ∷ s) =
    let rest = escaped s in
    elim (cut_prefix reference_open (c ∷ s)) [ some _ ↦ b'$' ∷ c ∷ rest | none ↦ c ∷ rest ]

escaped-brace :
    (s : Text) → cut_prefix (codes "{") s ≡ none → cut_prefix (codes "{") (escaped s) ≡ none
unfolding escaped
escaped-brace [] h = refl
escaped-brace (c ∷ s) h = elim (Option-cases (cut_prefix reference_open (c ∷ s))) [
  | inr (r, e) ↦ rw (escaped, e) refl
  | inl e ↦ rw (escaped, e) (ground arith)
]

-- A byte that opens no reference in the text opens none in what is written.
escaped-opens_none :
    (c : ℕ) (s : Text)
    → cut_prefix reference_open (c ∷ s) ≡ none
    → cut_prefix reference_open (c ∷ escaped s) ≡ none
escaped-opens_none c s h = ground (arith, escaped-brace s)

escaped-closed : (s : Text) → cut_prefix reference_open (escaped s) ≡ none
unfolding escaped
escaped-closed [] = refl
escaped-closed (c ∷ s) = elim (Option-cases (cut_prefix reference_open (c ∷ s))) [
  | inr (r, e) ↦
      let q : c ≡ b'$' = cc (cut_prefix_sound reference_open (c ∷ s) e) in rw (escaped, e, q) refl
  | inl e ↦ rw (escaped, e) (escaped-opens_none c s e)
]

pub scan-escaped :
    (env : Text → Text × Bool) (n : ℕ) (s : Text)
    → length (escaped s) < n
    → scan env n (escaped s) ≡ literal s
unfolding scan escaped
scan-escaped env zero s h = absurd (omega arith)
scan-escaped env (suc n) [] h = refl
scan-escaped env (suc n) (c ∷ s) h = elim (Option-cases (cut_prefix reference_open (c ∷ s))) [
  | inr (r, e) ↦
      let q = cut_prefix_sound reference_open (c ∷ s) e in
      let size : length (escape_sentinel ++ escaped r) < suc n =
        subst (λ t. length (escaped t) < suc n) q h in
      subst (λ t. scan env (suc n) (escaped t) ≡ literal t) (sym q)
        (ap (followed_by (literal reference_open)) (scan-escaped env n r (omega arith)))
  | inl e ↦
      let opens = escaped-opens_none c s e in
      let escapes : cut_prefix escape_sentinel (c ∷ escaped s) ≡ none =
        ground (arith, escaped-closed s) in
      let size : length (c ∷ escaped s) < suc n = rw (escaped, e) at h in
      let steps : scan env (suc n) (c ∷ escaped s) ≡ literal (c ∷ s) =
        rw (scan, escapes, opens)
          (ap (followed_by (literal (c ∷ []))) (scan-escaped env n s (omega arith))) in
      rw (escaped, e) steps
]

-- An escaped text stands for itself, whatever the environment, and nothing is refused in it.
pub expand-escaped : (env : Text → Text × Bool) (s : Text) → expand env (escaped s) ≡ literal s
unfolding expand
expand-escaped env s =
    ap without_refused (scan-escaped env (suc (length (escaped s))) s (omega arith))
