-- ===== src/Base/Count.antt =====
-- Counting the numbers below a bound that pass a test.
use Prim.Native.Nat.{ℕ, zero, suc, ◌+◌, ◌≤◌, ◌<◌}
use mathlib.Core.Path.{◌≡◌, refl}
use mathlib.Core.Logic.{inl, inr}
use mathlib.Core.Bool.{Bool, true, false, ◌||◌}
use native.Mathlib.Omega.{arith}
use pg_noty.Base.Tests.{if◌then◌else◌, Bool-cases}

-- How many numbers below a bound pass a test.
abbrev pub count_below : (ℕ → Bool) → ℕ → ℕ
count_below p zero = 0
count_below p (suc n) = count_below p n + (if p n then 1 else 0)

pub count_none : (p : ℕ → Bool) (n : ℕ) → ((j : ℕ) → j < n → p j ≡ false) → count_below p n ≡ 0
count_none p zero h = refl
count_none p (suc n) h =
    rw (h n (omega arith)) (omega (arith, count_none p n (λ j k. h j (omega arith))))

pub count_all : (p : ℕ → Bool) (n : ℕ) → ((j : ℕ) → j < n → p j ≡ true) → count_below p n ≡ n
count_all p zero h = refl
count_all p (suc n) h =
    rw (h n (omega arith)) (omega (arith, count_all p n (λ j k. h j (omega arith))))

pub count_one :
    (p : ℕ → Bool) (n : ℕ)
    → ((j k : ℕ) → j < n → k < n → p j ≡ true → p k ≡ true → j ≡ k)
    → count_below p n ≤ 1
count_one p zero h = omega arith
count_one p (suc n) h = elim (Bool-cases (p n)) [
  | inr e ↦ rw e (omega (arith, count_one p n (λ j k a b. h j k (omega arith) (omega arith))))
  | inl e ↦
      let fewer : count_below p n ≡ 0 = count_none p n (λ j k. only j k e) in
      rw e (omega (arith, fewer))
]
  where
    only : (j : ℕ) → j < n → p n ≡ true → p j ≡ false
    only j k e = elim (Bool-cases (p j)) [
      | inr d ↦ d
      | inl d ↦ absurd (omega (arith, h j n (omega arith) (omega arith) d e))
    ]

pub count_split :
    (p q r : ℕ → Bool) (n : ℕ)
    → ((j : ℕ) → p j ≡ true → (q j || r j) ≡ true)
    → count_below p n ≤ count_below q n + count_below r n
count_split p q r zero h = omega arith
count_split p q r (suc n) h = ground (arith, count_split p q r n h, h n)
