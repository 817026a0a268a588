-- ===== src/Delivery/RetryAfter.antt =====
-- internal/delivery/retryafter.go: the Retry-After header of a response.
use pg_noty.Base.{
  ℕ, ◌+◌, ◌-◌, ◌*◌, ◌/◌, ◌≡◌, refl, Bool, false, not, ◌||◌, Option, none, some, [], ◌∷◌,
  if◌then◌else◌, arith, min, ltb, leb_ℤ, ℤ, pos, Text, is_empty, any, max_int64,
}
use pg_noty.Source.Transition.{sub_time}
use pg_noty.Delivery.Hold.{second}

abbrev pub is_digit : ℕ → Bool
is_digit c = not (ltb c 48 || ltb 57 c)

-- The number that decimal digits write, most significant first.
abbrev pub decimal_value : ℕ → Text → ℕ
decimal_value n [] = n
decimal_value n (c ∷ cs) = decimal_value (n * 10 + (c - 48)) cs

-- 2^64 - 1, the largest number that `ParseUint` takes.
abbrev pub max_uint64 : ℕ
max_uint64 = 18446744073709551615

-- Seconds as a duration, saturating.
abbrev pub seconds_duration : ℕ → ℕ
seconds_duration seconds =
    if ltb max_uint64 seconds
    then max_int64
    else if ltb (max_int64 / second) seconds
    then max_int64
    else seconds * second

-- The value is not empty: its caller has seen to that.
unfoldable pub parse_delta_seconds : Text → Option ℕ
parse_delta_seconds value =
    if any (λ c. not (is_digit c)) value
    then none
    else some (seconds_duration (decimal_value 0 value))

-- `ParseRetryAfter` on a value whose outer spaces are trimmed, with what net/http makes of a date.
unfoldable pub parse_retry_after : (Text → Option ℤ) → Text → ℤ → Option ℤ
unfolding parse_delta_seconds
parse_retry_after parse_date value now =
    if is_empty value then none else elim (parse_delta_seconds value) [
      | some delay ↦ some (pos delay)
      | none ↦ elim (parse_date value) [
        | none ↦ none
        | some when ↦
            (let delay = sub_time when now in if leb_ℤ delay (pos 0) then none else some delay)
      ]
    ]

seconds_duration-min : (n : ℕ) → seconds_duration n ≡ min (n * second) max_int64
seconds_duration-min n = ground arith

-- A header of decimal digits, of any length, is that many seconds, or the longest duration if they are
-- more than it.
pub parse_retry_after_digits :
    (parse_date : Text → Option ℤ) (c : ℕ) (value : Text) (now : ℤ)
    → any (λ d. not (is_digit d)) (c ∷ value) ≡ false
    → parse_retry_after parse_date (c ∷ value) now
      ≡ some (pos (min (decimal_value 0 (c ∷ value) * second) max_int64))
unfolding parse_retry_after parse_delta_seconds
parse_retry_after_digits parse_date c value now h =
    rw (h, seconds_duration-min (decimal_value 0 (c ∷ value))) refl
