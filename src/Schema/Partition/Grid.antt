-- ===== src/Schema/Partition/Grid.antt =====
-- internal/schema/partition.go: the grid is exact, and its ranges cover the horizon without a gap.
use pg_noty.Base.{
  ℕ, zero, suc, ◌+◌, ◌*◌, ◌/◌, ◌%◌, ◌≤◌, ◌<◌, ◌≡◌, refl, sym, ap, subst, ◌⊎◌, inl, inr, Bool, true,
  ◌&&◌, List, if◌then◌else◌, arith, int_laws, ◌==◌, ltb_ℤ, leb_ℤ, ℤ, pos, negsuc, pos_part,
  neg_part, ◌+ℤ◌, ◌-ℤ◌, ◌*ℤ◌, ◌≤ℤ◌, ◌<ℤ◌, Int64, any, any_weaken, Bool-cases, eq_of_parts, +ℤ_parts,
  -ℤ_parts,
}
use pg_noty.Schema.Partition.{
  wrap64, Range, floor_div, grid_index, boundary, range_at, ranges_from, required_ranges,
}

pub wrap64-Int64 : (z : ℤ) → Int64 z → wrap64 z ≡ z
unfolding wrap64
wrap64-Int64 (pos n) h = ground arith
wrap64-Int64 (negsuc n) h = ground arith

div_lem : (n d : ℕ) → 0 < d → (d * (n / d) ≤ n) × (n < d * (n / d) + d)
div_lem n d h = grind arith

pub mod_lem : (n d : ℕ) → 0 < d → (n ≡ d * (n / d) + n % d) × (n % d < d)
mod_lem n d h = grind arith

-- A product by a natural number, by its parts.
pub *ℤ_parts :
    (z : ℤ) (d : ℕ)
    → pos_part (z *ℤ pos d) + neg_part z * d ≡ neg_part (z *ℤ pos d) + pos_part z * d
unfolding ◌*ℤ◌
*ℤ_parts (pos n) d = grind arith
*ℤ_parts (negsuc n) d = grind arith

-- The index after, times the interval.
pub *ℤ_suc : (z : ℤ) (d : ℕ) → (z +ℤ pos 1) *ℤ pos d ≡ (z *ℤ pos d) +ℤ pos d
*ℤ_suc z d =
    let next = ap (λ x. x * d) (+ℤ_parts z (pos 1)) in
    eq_of_parts _ _
      (grind (arith, next, *ℤ_parts (z +ℤ pos 1) d, *ℤ_parts z d, +ℤ_parts (z *ℤ pos d) (pos d)))

-- The two bounds of a floor, by parts.
floor_bounds :
    (n z : ℤ) (d : ℕ)
    → pos_part z * d + neg_part n ≤ pos_part n + neg_part z * d
    → pos_part n + neg_part z * d < pos_part z * d + neg_part n + d
    → (z *ℤ pos d ≤ℤ n) × (n <ℤ (z +ℤ pos 1) *ℤ pos d)
floor_bounds n z d h k = (
  omega (arith, *ℤ_parts z d),
  rw (*ℤ_suc z d) (omega (arith, *ℤ_parts z d, +ℤ_parts (z *ℤ pos d) (pos d))),
)

-- The negative of a floor below zero.
abbrev ceiling : ℕ → ℕ → ℕ
ceiling n d = if n % d == 0 then n / d else suc (n / d)

ceiling_lem : (n d : ℕ) → 0 < d → (n ≤ ceiling n d * d) × (ceiling n d * d < n + d)
ceiling_lem n d h = grind (arith, mod_lem n d h)

floor_negative :
    (n d : ℕ)
    → 0 < d
    → (pos_part (floor_div (negsuc n) d) ≡ 0)
      × (neg_part (floor_div (negsuc n) d) ≡ ceiling (suc n) d)
unfolding floor_div ◌-ℤ◌
floor_negative n d h = ground arith

floor_positive : (n d : ℕ) → floor_div (pos n) d ≡ pos (n / d)
unfolding floor_div
floor_positive n d = ground arith

-- For a divisor above zero, the quotient is rounded towards negative infinity: its multiple of the
-- divisor is not above the numerator, and the next one is.
pub floor_div_lem :
    (n : ℤ) (d : ℕ)
    → 0 < d
    → (floor_div n d *ℤ pos d ≤ℤ n) × (n <ℤ (floor_div n d +ℤ pos 1) *ℤ pos d)
floor_div_lem (pos n) d h =
    let floor = floor_positive n d in
    let div = div_lem n d h in
    floor_bounds (pos n) (floor_div (pos n) d) d (rw floor (grind (arith, div.0)))
      (rw floor (grind (arith, div.1)))
floor_div_lem (negsuc n) d h =
    let floor = floor_negative n d h in
    let ceil = ceiling_lem (suc n) d h in
    floor_bounds (negsuc n) (floor_div (negsuc n) d) d
      (rw (floor.0, floor.1) (omega (arith, ceil.0)))
      (rw (floor.0, floor.1) (omega (arith, ceil.1)))

abbrev pub covers : List Range → ℤ → Bool
covers rs t = any (λ r. leb_ℤ r.from t && ltb_ℤ t r.to) rs

-- The instants that int64 nanoseconds have, between two of them.
Int64-between : {a z b : ℤ} → Int64 a → Int64 b → a ≤ℤ z → z ≤ℤ b → Int64 z
Int64-between h k l u = record {
  above = omega (arith, h, k, l, u);
  below = omega (arith, h, k, l, u);
}

pub mul_mono : (x y d : ℕ) → x ≤ y → x * d ≤ y * d
mul_mono x y d h = grind arith

*ℤ_mono : (a b : ℤ) (d : ℕ) → a ≤ℤ b → a *ℤ pos d ≤ℤ b *ℤ pos d
*ℤ_mono a b d h =
    let scaled = mul_mono (pos_part a + neg_part b) (pos_part b + neg_part a) d h in
    grind (arith, scaled, *ℤ_parts a d, *ℤ_parts b d)

pub index_before : (x y : ℤ) (d : ℕ) → x *ℤ pos d <ℤ y *ℤ pos d → x <ℤ y
index_before x y d k = elim (Bool-cases (ltb_ℤ x y)) [
  | inl e ↦ ground (arith, e)
  | inr e ↦ absurd (omega (arith, *ℤ_mono y x d (ground (arith, e)), k))
]

next_index : (i : ℤ) (n : ℕ) → (i +ℤ pos 1) +ℤ pos n ≡ i +ℤ pos (suc n)
next_index i n = eq_of_parts _ _ (omega (int_laws))

ranges_from-covers :
    (n : ℕ) (index : ℤ) (d : ℕ) (t : ℤ)
    → Int64 (index *ℤ pos d)
    → Int64 ((index +ℤ pos n) *ℤ pos d)
    → index *ℤ pos d ≤ℤ t
    → t <ℤ (index +ℤ pos n) *ℤ pos d
    → covers (ranges_from n index d) t ≡ true
unfolding ranges_from range_at boundary
ranges_from-covers zero index d t a b l u =
    let same : index +ℤ pos 0 ≡ index = eq_of_parts _ _ (omega (int_laws)) in
    let below : t <ℤ index *ℤ pos d = subst (λ x. t <ℤ x *ℤ pos d) same u in
    absurd (omega (arith, l, below))
ranges_from-covers (suc n) index d t a b l u =
    let next = next_index index n in
    let middle : Int64 ((index +ℤ pos 1) *ℤ pos d) =
      Int64-between a b (*ℤ_mono index (index +ℤ pos 1) d (omega (int_laws)))
        (*ℤ_mono (index +ℤ pos 1) (index +ℤ pos (suc n)) d (omega (int_laws))) in
    elim (Bool-cases (ltb_ℤ t ((index +ℤ pos 1) *ℤ pos d))) [
      | inl e ↦ rw (wrap64-Int64 _ a, wrap64-Int64 _ middle, e) (ground (arith, l))
      | inr e ↦
          let rest =
            ranges_from-covers n (index +ℤ pos 1) d t middle
              (subst (λ x. Int64 (x *ℤ pos d)) (sym next) b) (ground (arith, e))
              (subst (λ x. t <ℤ x *ℤ pos d) (sym next) u) in
          any_weaken (λ r. leb_ℤ r.from t && ltb_ℤ t r.to) (range_at index d)
            (ranges_from n (index +ℤ pos 1) d) rest
    ]

one_sided : (z : ℤ) → (pos_part z ≡ 0) ⊎ (neg_part z ≡ 0)
one_sided (pos n) = inr refl
one_sided (negsuc n) = inl refl

pub counted :
    (first last : ℤ)
    → first <ℤ last +ℤ pos 1
    → first +ℤ pos (pos_part ((last -ℤ first) +ℤ pos 1)) ≡ last +ℤ pos 1
counted first last k =
    let gap = (last -ℤ first) +ℤ pos 1 in
    let sum = +ℤ_parts (last -ℤ first) (pos 1) in
    let difference = -ℤ_parts last first in
    let end = +ℤ_parts last (pos 1) in
    let reach = +ℤ_parts first (pos (pos_part gap)) in
    eq_of_parts _ _ (omega (arith, sum, difference, end, reach, k, one_sided gap))

-- With the interval above zero and every instant in reach of int64 nanoseconds (now, the horizon, and
-- the grid lines around them), the required ranges leave no instant from now to the horizon without
-- its partition, the horizon itself included.
pub required_ranges_cover :
    (now : ℤ) (interval precreate : ℕ) (t : ℤ)
    → 0 < interval
    → Int64 now
    → Int64 (now +ℤ pos precreate)
    → Int64 (floor_div now interval *ℤ pos interval)
    → Int64 ((floor_div (now +ℤ pos precreate) interval +ℤ pos 1) *ℤ pos interval)
    → now ≤ℤ t
    → t ≤ℤ now +ℤ pos precreate
    → covers (required_ranges now interval precreate) t ≡ true
unfolding required_ranges grid_index
required_ranges_cover now interval precreate t h fits horizon_fits a b l u =
    let first = floor_div now interval in
    let last = floor_div (now +ℤ pos precreate) interval in
    let low = (floor_div_lem now interval h).0 in
    let high = (floor_div_lem (now +ℤ pos precreate) interval h).1 in
    let ordered : first <ℤ last +ℤ pos 1 =
      index_before first (last +ℤ pos 1) interval (omega (arith, low, high, l, u)) in
    let count : first +ℤ pos (pos_part ((last -ℤ first) +ℤ pos 1)) ≡ last +ℤ pos 1 =
      counted first last ordered in
    rw (wrap64-Int64 now fits, wrap64-Int64 (now +ℤ pos precreate) horizon_fits)
      (ranges_from-covers (pos_part ((last -ℤ first) +ℤ pos 1)) first interval t a
        (subst (λ x. Int64 (x *ℤ pos interval)) (sym count) b) (omega (arith, low, l))
        (subst (λ x. t <ℤ x *ℤ pos interval) (sym count) (omega (arith, high, u))))
