-- ===== src/Base/Sort.antt =====
-- slices.SortFunc and SQL's ORDER BY, as insertion by a Boolean order.
use Prim.Native.Nat.{ℕ, zero, suc}
use mathlib.Core.Path.{◌≡◌, refl}
use mathlib.Core.Bool.{Bool, true, false, ◌||◌}
use mathlib.Core.List.{List, [], ◌∷◌, Perm}
use mathlib.Core.List.Perm
use native.Mathlib.Omega.{arith}
use pg_noty.Base.Tests.{if◌then◌else◌, Bool-cases}
use pg_noty.Base.Lists.{All, any, take, length, All-always, All-map₂, any_weaken}
use mathlib.Core.Logic.{◌⊎◌, inl, inr}

module _ {ℓ} {A : Type ℓ} (le : A → A → Bool) where
  abbrev pub insert_by : A → List A → List A
  insert_by x [] = x ∷ []
  insert_by x (y ∷ ys) = if le x y then x ∷ y ∷ ys else y ∷ insert_by x ys

  abbrev pub sort_by : List A → List A
  sort_by [] = []
  sort_by (x ∷ xs) = insert_by x (sort_by xs)

  -- Each entry is at or below all that follow it.
  abbrev pub IsSorted : List A → Type 0
  IsSorted [] = Unit
  IsSorted (x ∷ xs) = All (λ y. le x y ≡ true) xs × IsSorted xs

  insert_by-perm : (x : A) (xs : List A) → Perm (insert_by x xs) (x ∷ xs)
  insert_by-perm x [] = Perm.refl _
  insert_by-perm x (y ∷ ys) = elim (Bool-cases (le x y)) [
    | inl e ↦ rw (e, insert_by) (Perm.refl _)
    | inr e ↦ rw (e, insert_by) (Perm.trans (Perm.cons y (insert_by-perm x ys)) (Perm.swap x y ys))
  ]

  -- Nothing is lost and nothing made up.
  pub sort_by-perm : (xs : List A) → Perm (sort_by xs) xs
  sort_by-perm [] = Perm.refl []
  sort_by-perm (x ∷ xs) = Perm.trans (insert_by-perm x (sort_by xs)) (Perm.cons x (sort_by-perm xs))

  pub All-insert_by {κ} :
      (P : A → Type κ) (x : A) (xs : List A) → P x → All P xs → All P (insert_by x xs)
  All-insert_by P x [] h k = (h, tt)
  All-insert_by P x (y ∷ ys) h k = elim (Bool-cases (le x y)) [
    | inl e ↦ rw (e, insert_by) (h, k)
    | inr e ↦ rw (e, insert_by) (k.0, All-insert_by P x ys h k.1)
  ]

  pub All-sort_by {κ} : (P : A → Type κ) (xs : List A) → All P xs → All P (sort_by xs)
  All-sort_by P [] h = tt
  All-sort_by P (x ∷ xs) h = All-insert_by P x (sort_by xs) h.0 (All-sort_by P xs h.1)

  All-of-insert_by {κ} :
      (P : A → Type κ) (x : A) (xs : List A) → All P (insert_by x xs) → P x × All P xs
  All-of-insert_by P x [] h = (h.0, tt)
  All-of-insert_by P x (y ∷ ys) h = elim (Bool-cases (le x y)) [
    | inl e ↦ rw (e, insert_by) at h
    | inr e ↦
        let (hy, more) = rw (e, insert_by) at h in
        let (hx, rest) = All-of-insert_by P x ys more in (hx, (hy, rest))
  ]

  pub All-of-sort_by {κ} : (P : A → Type κ) (xs : List A) → All P (sort_by xs) → All P xs
  All-of-sort_by P [] h = tt
  All-of-sort_by P (x ∷ xs) h =
      let (hx, rest) = All-of-insert_by P x (sort_by xs) h in (hx, All-of-sort_by P xs rest)

  -- Of a sorted list, every entry is among the first `n` or is at or above all of them.
  pub take-IsSorted :
      (same : A → A → Bool)
      → ((a : A) → same a a ≡ true)
      → (n : ℕ) (xs : List A) → IsSorted xs
      → All (λ x. (any (same x) (take n xs) ≡ true) ⊎ All (λ y. le y x ≡ true) (take n xs)) xs
  take-IsSorted same own zero xs h =
      All-always (λ x. (any (same x) [] ≡ true) ⊎ All (λ y. le y x ≡ true) []) (λ x. inr tt) xs
  take-IsSorted same own (suc n) [] h = tt
  take-IsSorted same own (suc n) (x ∷ xs) h = (
    inl (rw (own x)),
    All-map₂ (λ y. le x y ≡ true)
        (λ y. (any (same y) (take n xs) ≡ true) ⊎ All (λ z. le z y ≡ true) (take n xs))
        (λ y. (any (same y) (x ∷ take n xs) ≡ true) ⊎ All (λ z. le z y ≡ true) (x ∷ take n xs)) xs
        (λ y above c. elim c [
          | inl found ↦ inl (any_weaken (same y) x (take n xs) found)
          | inr below ↦ inr (above, below)
        ])
        h.0 (take-IsSorted same own n xs h.1),
  )

  any-insert_by : (p : A → Bool) (x : A) (xs : List A) → any p (insert_by x xs) ≡ (p x || any p xs)
  any-insert_by p x [] = refl
  any-insert_by p x (y ∷ ys) = ground (arith, any-insert_by p x ys)

  pub any-sort_by : (p : A → Bool) (xs : List A) → any p (sort_by xs) ≡ any p xs
  any-sort_by p [] = refl
  any-sort_by p (x ∷ xs) = ground (arith, any-insert_by p x (sort_by xs), any-sort_by p xs)

  length-insert_by : (x : A) (xs : List A) → length (insert_by x xs) ≡ suc (length xs)
  length-insert_by x [] = refl
  length-insert_by x (y ∷ ys) = ground (arith, length-insert_by x ys)

  pub length-sort_by : (xs : List A) → length (sort_by xs) ≡ length xs
  length-sort_by [] = refl
  length-sort_by (x ∷ xs) = omega (arith, length-insert_by x (sort_by xs), length-sort_by xs)

  module _ (le_trans : (x y z : A) → le x y ≡ true → le y z ≡ true → le x z ≡ true)
      (le_total : (x y : A) → le x y ≡ false → le y x ≡ true) where
    All-le_trans :
        (x y : A) (ys : List A)
        → le x y ≡ true
        → All (λ z. le y z ≡ true) ys
        → All (λ z. le x z ≡ true) ys
    All-le_trans x y [] e h = tt
    All-le_trans x y (z ∷ zs) e h = (le_trans x y z e h.0, All-le_trans x y zs e h.1)

    insert_by-IsSorted : (x : A) (xs : List A) → IsSorted xs → IsSorted (insert_by x xs)
    insert_by-IsSorted x [] h = (tt, tt)
    insert_by-IsSorted x (y ∷ ys) h = elim (Bool-cases (le x y)) [
      | inl e ↦ rw (e, insert_by) ((e, All-le_trans x y ys e h.0), h)
      | inr e ↦
          rw (e, insert_by)
            (
              All-insert_by (λ z. le y z ≡ true) x ys (le_total x y e) h.0,
              insert_by-IsSorted x ys h.1,
            )
    ]

    pub sort_by-IsSorted : (xs : List A) → IsSorted (sort_by xs)
    sort_by-IsSorted [] = tt
    sort_by-IsSorted (x ∷ xs) = insert_by-IsSorted x (sort_by xs) (sort_by-IsSorted xs)
