-- ===== src/Base/Order.antt =====
-- The bytewise order of strings, and an order by a string first.
use mathlib.Core.Path.{◌≡◌, refl, sym, ◌∙◌, subst}
use mathlib.Core.Logic.{inl, inr}
use mathlib.Core.Bool.{Bool, true, false, not, ◌&&◌, ◌||◌}
use mathlib.Core.List.{[], ◌∷◌}
use native.Mathlib.Omega.{arith}
use pg_noty.Base.Tests.{Bool-cases}
use pg_noty.Base.Bytes.{Text, text_eq, text_eq_iff, text_lt}

pub text_lt_trans : (s t u : Text) → text_lt s t ≡ true → text_lt t u ≡ true → text_lt s u ≡ true
text_lt_trans s t [] h k = absurd (cc)
text_lt_trans s [] (c ∷ u) h k = absurd (cc)
text_lt_trans [] (b ∷ t) (c ∷ u) h k = refl
text_lt_trans (a ∷ s) (b ∷ t) (c ∷ u) h k = ground (arith, text_lt_trans s t u)

pub text_lt_total : (s t : Text) → text_lt s t ≡ false → text_eq s t ≡ false → text_lt t s ≡ true
text_lt_total [] [] h k = absurd (cc)
text_lt_total [] (b ∷ t) h k = absurd (cc)
text_lt_total (a ∷ s) [] h k = refl
text_lt_total (a ∷ s) (b ∷ t) h k = ground (arith, text_lt_total s t)

pub text_lt_irrefl : (s : Text) → text_lt s s ≡ false
text_lt_irrefl [] = refl
text_lt_irrefl (a ∷ s) = ground (arith, text_lt_irrefl s)

abbrev pub text_le : Text → Text → Bool
text_le s t = not (text_lt t s)

pub text_le_total : (s t : Text) → text_le s t ≡ false → text_le t s ≡ true
text_le_total s t h = elim (Bool-cases (text_lt s t)) [
  | inl e ↦ absurd (cc (text_lt_trans s t s e (ground arith), text_lt_irrefl s))
  | inr e ↦ rw e refl
]

pub text_le_trans : (s t u : Text) → text_le s t ≡ true → text_le t u ≡ true → text_le s u ≡ true
text_le_trans s t u h k = elim (Bool-cases (text_lt u s)) [
  | inr e ↦ rw e refl
  | inl e ↦ elim (Bool-cases (text_eq t s)) [
    | inl f ↦ absurd (cc (subst (λ x. text_lt u x ≡ true) (sym ((text_eq_iff t s).0 f)) e, k))
    | inr f ↦ absurd (cc (text_lt_trans u s t e (text_lt_total t s (ground arith) f), k))
  ]
]

-- By a key first, and then by `rest`.
module _ {ℓ} {A : Type ℓ} (key : A → Text) (rest : A → A → Bool) where
  abbrev pub lex_le : A → A → Bool
  lex_le a b = text_lt (key a) (key b) || (text_eq (key a) (key b) && rest a b)

  pub lex_le_total :
      ((a b : A) → rest a b ≡ false → rest b a ≡ true)
      → (a b : A) → lex_le a b ≡ false
      → lex_le b a ≡ true
  lex_le_total total a b h = elim (Bool-cases (text_eq (key a) (key b))) [
    | inl e ↦
        let same = sym ((text_eq_iff (key a) (key b)).0 e) in
        let back = (text_eq_iff (key b) (key a)).1 same in ground (arith, back, total a b)
    | inr e ↦ ground (arith, text_lt_total (key a) (key b), e)
  ]

  pub lex_le_trans :
      ((a b c : A) → rest a b ≡ true → rest b c ≡ true → rest a c ≡ true)
      → (a b c : A) → lex_le a b ≡ true
      → lex_le b c ≡ true
      → lex_le a c ≡ true
  lex_le_trans trans a b c h k = elim (Bool-cases (text_lt (key a) (key b))) [
    | inl e ↦ elim (Bool-cases (text_lt (key b) (key c))) [
      | inl f ↦ rw (text_lt_trans (key a) (key b) (key c) e f) refl
      | inr f ↦
          let same = (text_eq_iff (key b) (key c)).0 (ground arith) in
          rw (subst (λ x. text_lt (key a) x ≡ true) same e) refl
    ]
    | inr e ↦
        let same = (text_eq_iff (key a) (key b)).0 (ground arith) in
        elim (Bool-cases (text_lt (key b) (key c))) [
          | inl f ↦ rw (subst (λ x. text_lt x (key c) ≡ true) (sym same) f) refl
          | inr f ↦
              let same' = same ∙ (text_eq_iff (key b) (key c)).0 (ground arith) in
              ground (arith, (text_eq_iff (key a) (key c)).1 same', trans a b c)
        ]
  ]
