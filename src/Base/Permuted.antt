-- ===== src/Base/Permuted.antt =====
-- What a test of a list says of its permutations.
use mathlib.Core.Path.{◌≡◌, refl, sym, ap, ◌∙◌}
use mathlib.Core.Bool.{Bool, Bool-set, true, false, ◌||◌}
use mathlib.Core.List.{List, [], ◌∷◌, Perm, foldr}
use mathlib.Core.List.Perm
use pg_noty.Base.Lists.{any}

or_swap : (a b c : Bool) → (a || (b || c)) ≡ (b || (a || c))
or_swap true true c = refl
or_swap true false c = refl
or_swap false b c = refl

module _ {ℓ} {A : Type ℓ} (p : A → Bool) where
  abbrev or_test : A → Bool → Bool
  or_test a found = p a || found

  any-foldr : (xs : List A) → any p xs ≡ foldr or_test false xs
  any-foldr [] = refl
  any-foldr (x ∷ xs) = ap (or_test x) (any-foldr xs)

  pub any-perm : {xs ys : List A} → Perm xs ys → any p xs ≡ any p ys
  any-perm {xs} {ys} h =
      any-foldr xs
      ∙ Perm.foldr-eq Bool-set or_test (λ a b c. or_swap (p a) (p b) c) h false
      ∙ sym (any-foldr ys)
