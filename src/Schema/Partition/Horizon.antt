-- ===== src/Schema/Partition/Horizon.antt =====
-- internal/schema/horizon.go: the count of partitions that the configuration alone demands, and what the
-- precondition on it promises at every instant.
use pg_noty.Base.{
  ℕ, zero, suc, ◌+◌, ◌*◌, ◌/◌, ◌%◌, ◌≤◌, ◌<◌, ◌≡◌, refl, ◌∙◌, ap, subst, inl, inr, if◌then◌else◌,
  arith, +ℤ_parts, ltb, ◌==◌, ℤ, pos, pos_part, neg_part, ◌+ℤ◌, ◌-ℤ◌, ◌*ℤ◌, ◌≤ℤ◌, ◌<ℤ◌, Int64,
  max_int64, length, Bool-cases,
}
use pg_noty.Schema.Partition.{
  relation_identifiers_one_database_holds, floor_div, grid_index, ranges_from, required_ranges,
  horizon_partition_count, servable, unservable_horizon_in,
}
use pg_noty.Schema.Partition.Grid.{
  wrap64-Int64, floor_div_lem, *ℤ_parts, *ℤ_suc, counted, mul_mono, mod_lem, index_before,
}

ranges_from-length : (n : ℕ) (index : ℤ) (d : ℕ) → length (ranges_from n index d) ≡ n
unfolding ranges_from
ranges_from-length zero index d = refl
ranges_from-length (suc n) index d = ap suc (ranges_from-length n (index +ℤ pos 1) d)

-- `n` steps on the grid, by parts.
steps :
    (z : ℤ) (n d : ℕ)
    → pos_part ((z +ℤ pos n) *ℤ pos d) + neg_part (z *ℤ pos d)
      ≡ neg_part ((z +ℤ pos n) *ℤ pos d) + pos_part (z *ℤ pos d) + n * d
steps z n d =
    let on = ap (λ x. x * d) (+ℤ_parts z (pos n)) in
    grind (arith, on, *ℤ_parts (z +ℤ pos n) d, *ℤ_parts z d)

-- The ranges between two instants, by the time between them.
span : (n d pre : ℕ) → 0 < d → n * d < pre + 2 * d → n ≤ pre / d + (if pre % d == 0 then 1 else 2)
span n d pre h k = elim (Bool-cases (ltb (pre / d + (if pre % d == 0 then 1 else 2)) n)) [
  | inr e ↦ ground (arith, e)
  | inl e ↦
      let more =
        mul_mono (suc (pre / d + (if pre % d == 0 then 1 else 2))) n d (ground (arith, e)) in
      let (whole, rest) = mod_lem pre d h in absurd (too_many (pre / d) (pre % d) whole rest more)
]
  where
    too_many :
        (w r : ℕ) → pre ≡ d * w + r → r < d → suc (w + (if r == 0 then 1 else 2)) * d ≤ n * d → ⊥
    too_many w r a b c = grind (arith, a, b, c, k)

required_count :
    (now : ℤ) (d pre : ℕ)
    → 0 < d
    → (first last : ℤ) → first *ℤ pos d ≤ℤ now
    → now <ℤ (first +ℤ pos 1) *ℤ pos d
    → last *ℤ pos d ≤ℤ now +ℤ pos pre
    → now +ℤ pos pre <ℤ (last +ℤ pos 1) *ℤ pos d
    → pos_part ((last -ℤ first) +ℤ pos 1) * d < pre + 2 * d
required_count now d pre h first last a b c e =
    let n = pos_part ((last -ℤ first) +ℤ pos 1) in
    let ahead = +ℤ_parts now (pos pre) in
    let ordered = index_before first (last +ℤ pos 1) d (omega (arith, a, e, ahead)) in
    let moved : (first +ℤ pos n) *ℤ pos d ≡ (last *ℤ pos d) +ℤ pos d =
      ap (λ x. x *ℤ pos d) (counted first last ordered) ∙ *ℤ_suc last d in
    let low : now <ℤ (first *ℤ pos d) +ℤ pos d = subst (λ x. now <ℤ x) (*ℤ_suc first d) b in
    let spanned =
      subst
        (λ x.
          pos_part x + neg_part (first *ℤ pos d) ≡ neg_part x + pos_part (first *ℤ pos d) + n * d)
        moved (steps first n d) in
    omega (
      arith,
      spanned,
      ahead,
      low,
      c,
      +ℤ_parts (last *ℤ pos d) (pos d),
      +ℤ_parts (first *ℤ pos d) (pos d),
    )

-- For an interval above zero, instants in reach of int64 nanoseconds and a quotient away from the
-- greatest integer, the ranges that are required at any instant are no more than the count that the
-- configuration alone demands.
pub horizon_count_bounds :
    (now : ℤ) (interval precreate : ℕ)
    → 0 < interval
    → Int64 now
    → Int64 (now +ℤ pos precreate)
    → precreate / interval + 2 ≤ max_int64
    → length (required_ranges now interval precreate) ≤ horizon_partition_count interval precreate
unfolding required_ranges grid_index horizon_partition_count
horizon_count_bounds now interval precreate h fits horizon_fits small =
    let first = floor_div now interval in
    let last = floor_div (now +ℤ pos precreate) interval in
    let low = floor_div_lem now interval h in
    let high = floor_div_lem (now +ℤ pos precreate) interval h in
    let n = pos_part ((last -ℤ first) +ℤ pos 1) in
    let few =
      span n interval precreate h
        (required_count now interval precreate h first last low.0 low.1 high.0 high.1) in
    rw
      (
        wrap64-Int64 now fits,
        wrap64-Int64 (now +ℤ pos precreate) horizon_fits,
        ranges_from-length n first interval,
      )
      (ground (arith, few, small))

count_unsaturated :
    (d pre : ℕ) → horizon_partition_count d pre < 4294967296 → pre / d + 2 ≤ max_int64
unfolding horizon_partition_count
count_unsaturated d pre h = ground (arith, h)

servable_parts :
    (d pre : ℕ)
    → unservable_horizon_in (pos d) pre ≡ servable
    → (0 < d) × (d % 1000 ≡ 0) × (horizon_partition_count d pre < 4294967296)
unfolding unservable_horizon_in
servable_parts d pre e = ground (arith, e)

-- A horizon that the precondition passes has an interval above zero of whole microseconds, and at
-- any instant in reach of int64 nanoseconds, with the horizon after it, it requires fewer
-- partitions than a database has relation identifiers.
pub servable_horizon_lem :
    (now : ℤ) (interval precreate : ℕ)
    → unservable_horizon_in (pos interval) precreate ≡ servable
    → Int64 now
    → Int64 (now +ℤ pos precreate)
    → (0 < interval)
      × (interval % 1000 ≡ 0)
      × (length (required_ranges now interval precreate) < relation_identifiers_one_database_holds)
servable_horizon_lem now interval precreate e fits horizon_fits =
    let (above, whole, few) = servable_parts interval precreate e in
    let small = count_unsaturated interval precreate few in
    let bound = horizon_count_bounds now interval precreate above fits horizon_fits small in
    (above, whole, omega (arith, few, bound))
