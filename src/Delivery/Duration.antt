-- ===== src/Delivery/Duration.antt =====
-- internal/delivery/backoff.go: arithmetic on time.Duration, an int64 count of nanoseconds.
use pg_noty.Base.{
  ◌/◌, ◌^◌, ◌||◌, ◌&&◌, ℤ, pos, pos_part, ◌*ℤ◌, ltb_ℤ, leb_ℤ, max_int64, if◌then◌else◌,
}

unfoldable pub positive_duration : ℤ → ℤ
positive_duration value = if ltb_ℤ value (pos 0) then pos 0 else value

unfoldable pub clamp_duration : ℤ → ℤ → ℤ
clamp_duration value maximum =
    if ltb_ℤ (pos 0) maximum then (if ltb_ℤ maximum value then maximum else value) else value

-- The quotient is of two positive numbers, where the native `/` is Go's.
unfoldable pub multiply_duration : ℤ → ℤ → ℤ
unfolding ◌*ℤ◌
multiply_duration value factor =
    if leb_ℤ value (pos 0) || leb_ℤ factor (pos 0)
    then pos 0
    else if ltb_ℤ (pos (max_int64 / pos_part value)) factor
    then pos max_int64
    else value *ℤ factor

unfoldable pub power_of_two : ℤ → ℤ
power_of_two exponent =
    if leb_ℤ exponent (pos 0)
    then pos 1
    else if leb_ℤ (pos 63) exponent
    then pos max_int64
    else if leb_ℤ (pos 62) exponent && leb_ℤ exponent (pos 62)
    then pos (2 ^ 62)
    else pos (2 ^ pos_part exponent)
