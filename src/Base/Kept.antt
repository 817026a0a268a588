-- ===== src/Base/Kept.antt =====
-- What a list keeps and what it does not.
use Prim.Native.Nat.{◌+◌}
use mathlib.Core.Path.{◌≡◌}
use mathlib.Core.Logic.{inl, inr}
use mathlib.Core.Bool.{Bool, true, not}
use mathlib.Core.List.{List, [], ◌∷◌, ◌++◌, Perm, perm_middle}
use mathlib.Core.List.Perm
use native.Mathlib.Omega.{arith}
use pg_noty.Base.Tests.{Bool-cases}
use pg_noty.Base.Lists.{keep, All, length}

module _ {ℓ} {A : Type ℓ} (p : A → Bool) where
  pub keep-All : (xs : List A) → All (λ x. p x ≡ true) (keep p xs)
  keep-All [] = tt
  keep-All (x ∷ xs) = elim (Bool-cases (p x)) [
    | inl e ↦ rw (keep, e) (e, keep-All xs)
    | inr e ↦ rw (keep, e) (keep-All xs)
  ]

  pub keep-length :
      (xs : List A) → length (keep p xs) + length (keep (λ x. not (p x)) xs) ≡ length xs
  keep-length [] = omega arith
  keep-length (x ∷ xs) = elim (Bool-cases (p x)) [
    | inl e ↦ rw (keep, e) (omega (arith, keep-length xs))
    | inr e ↦ rw (keep, e) (omega (arith, keep-length xs))
  ]

  -- What is kept and what is not are the list.
  pub keep-perm : (xs : List A) → Perm (keep (λ x. not (p x)) xs ++ keep p xs) xs
  keep-perm [] = Perm.refl []
  keep-perm (x ∷ xs) = elim (Bool-cases (p x)) [
    | inl e ↦
        rw (keep, e)
          (Perm.trans (perm_middle (keep (λ x. not (p x)) xs) (keep p xs))
            (Perm.cons x (keep-perm xs)))
    | inr e ↦ rw (keep, e) (Perm.cons x (keep-perm xs))
  ]
