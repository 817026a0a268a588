-- ===== src/Schema/Partition.antt =====
-- internal/schema/partition.go and horizon.go: the grid of partitions of the event log. An instant is
-- its nanoseconds from the epoch; the names of the partitions are not modelled.
pub mod Grid
pub mod Coverage
pub mod Horizon
use pg_noty.Base.{
  ℕ, zero, suc, ◌+◌, ◌-◌, ◌*◌, ◌/◌, ◌%◌, ◌^◌, Bool, true, false, not, ◌&&◌, ◌||◌, Option, none,
  some, List, [], ◌∷◌, if◌then◌else◌, ltb, leb, ◌==◌, ltb_ℤ, leb_ℤ, ℤ, pos, negsuc, pos_part,
  neg_part, sub_ℕ, ◌+ℤ◌, ◌-ℤ◌, ◌*ℤ◌, max_int64, sort_by, keep,
}

-- An integer as an int64, which wraps around.
abbrev pub wrap_residue : ℤ → ℕ
wrap_residue (pos n) = n % 18446744073709551616
wrap_residue (negsuc n) = 18446744073709551615 - n % 18446744073709551616

abbrev pub signed64 : ℕ → ℤ
signed64 r = if leb r max_int64 then pos r else negsuc (18446744073709551615 - r)

unfoldable pub wrap64 : ℤ → ℤ
wrap64 z = signed64 (wrap_residue z)

pub record Range : Type 0 where
  pub from : ℤ
  pub to : ℤ

-- Go's quotient and remainder by a positive divisor: the quotient truncates towards zero, and the
-- remainder has the sign of the numerator.
abbrev pub quotient : ℤ → ℕ → ℤ
quotient (pos n) d = pos (n / d)
quotient (negsuc n) d = sub_ℕ 0 (suc n / d)

abbrev pub remainder_is_zero : ℤ → ℕ → Bool
remainder_is_zero (pos n) d = n % d == 0
remainder_is_zero (negsuc n) d = suc n % d == 0

unfoldable pub floor_div : ℤ → ℕ → ℤ
floor_div n d =
    if not (remainder_is_zero n d) && ltb_ℤ n (pos 0) then quotient n d -ℤ pos 1 else quotient n d

-- `UnixNano` is an int64.
unfoldable pub grid_index : ℤ → ℕ → ℤ
unfolding floor_div wrap64
grid_index instant interval = floor_div (wrap64 instant) interval

unfoldable pub boundary : ℤ → ℕ → ℤ
unfolding wrap64
boundary index interval = wrap64 (index *ℤ pos interval)

unfoldable pub range_at : ℤ → ℕ → Range
unfolding boundary
range_at index interval = record {
  from = boundary index interval;
  to = boundary (index +ℤ pos 1) interval;
}

-- `n` ranges from an index on.
unfoldable pub ranges_from : ℕ → ℤ → ℕ → List Range
unfolding range_at
ranges_from zero index interval = []
ranges_from (suc n) index interval =
    range_at index interval ∷ ranges_from n (index +ℤ pos 1) interval

-- The code makes a slice of that many ranges; a count below one, which an interval above zero and a
-- horizon that is not before now do not give, has no range here and panics there.
unfoldable pub required_ranges : ℤ → ℕ → ℕ → List Range
unfolding grid_index ranges_from
required_ranges now interval precreate =
    let first = grid_index now interval in
    let last = grid_index (now +ℤ pos precreate) interval in
    ranges_from (pos_part ((last -ℤ first) +ℤ pos 1)) first interval

-- The loop of `CoverageShortfall` over the ranges in order.
unfoldable pub reach_of : List Range → ℤ → ℤ
reach_of [] reach = reach
reach_of (r ∷ rs) reach =
    let further = reach_of rs (if ltb_ℤ reach r.to then r.to else reach) in
    if ltb_ℤ reach r.from then reach else further

abbrev pub starts_le : Range → Range → Bool
starts_le a b = leb_ℤ a.from b.from

unfoldable pub coverage_shortfall : List Range → ℤ → ℤ → ℤ
unfolding reach_of
coverage_shortfall observed now precreate =
    let reach = reach_of (sort_by starts_le observed) now in
    let horizon = now +ℤ precreate in if leb_ℤ horizon reach then pos 0 else horizon -ℤ reach

-- `horizonPartitionCount`, for an interval above zero.
unfoldable pub horizon_partition_count : ℕ → ℕ → ℕ
horizon_partition_count interval precreate =
    let whole = precreate / interval in
    let beyond = if precreate % interval == 0 then 1 else 2 in
    if ltb (max_int64 - beyond) whole then max_int64 else whole + beyond

abbrev pub relation_identifiers_one_database_holds : ℕ
relation_identifiers_one_database_holds = 4294967296

-- What the precondition on the horizon says. A zero interval panics in the division.
pub data HorizonVerdict : Type 0 where
  servable : HorizonVerdict
  negative_interval : HorizonVerdict
  unstorable_interval : HorizonVerdict
  unservable_horizon : ℕ → HorizonVerdict
  division_by_zero : HorizonVerdict

abbrev pub horizon_verdict : ℕ → HorizonVerdict
horizon_verdict count =
    if ltb count relation_identifiers_one_database_holds then servable else unservable_horizon count

unfoldable pub unservable_horizon_in : ℤ → ℕ → HorizonVerdict
unservable_horizon_in (negsuc n) precreate = negative_interval
unservable_horizon_in (pos interval) precreate =
    if not (interval % 1000 == 0)
    then unstorable_interval
    else if interval == 0
    then division_by_zero
    else horizon_verdict (horizon_partition_count interval precreate)
