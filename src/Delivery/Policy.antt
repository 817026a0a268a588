-- ===== src/Delivery/Policy.antt =====
-- internal/delivery/policy.go: the retry policy of a listener.
pub mod Bounds
pub mod Growth
use pg_noty.Base.{
  ℕ, ◌&&◌, ◌||◌, Bool, true, false, not, Option, none, some, ℤ, pos, ◌+ℤ◌, ◌-ℤ◌, ltb_ℤ, leb_ℤ,
  max_int64, if◌then◌else◌,
}
use pg_noty.Delivery.Classify.{Outcome, retryable}
use pg_noty.Delivery.Duration.{positive_duration, clamp_duration, multiply_duration, power_of_two}

-- The names that the field `Backoff` can hold: the two that the switch names, and every other.
pub data Backoff : Type 0 where
  linear exponential other : Backoff

pub record Policy : Type 0 where
  pub max_attempts : ℤ
  pub backoff : Backoff
  pub initial_interval : ℤ
  pub max_interval : ℤ
  pub jitter : Bool

-- The switch of `Ladder`, over the base interval and the attempt.
abbrev pub step_delay : Backoff → ℤ → ℤ → ℤ
step_delay linear base attempt = multiply_duration base attempt
step_delay exponential base attempt = multiply_duration base (power_of_two (attempt -ℤ pos 1))
step_delay other base attempt = base

unfoldable pub ladder : Policy → ℤ → ℤ
ladder p attempt =
    let first = if ltb_ℤ attempt (pos 1) then pos 1 else attempt in
    clamp_duration (step_delay p.backoff (positive_duration p.initial_interval) first)
      p.max_interval

-- The draw of a jitter function on `bound`, held to the range [0, limit].
unfoldable pub held_draw : (ℤ → ℤ) → ℤ → ℤ
held_draw draw limit =
    let bound = if ltb_ℤ limit (pos max_int64) then limit +ℤ pos 1 else limit in
    let value = draw bound in
    let value' = if ltb_ℤ value (pos 0) then pos 0 else value in
    if ltb_ℤ limit value' then limit else value'

-- A nil `JitterFunc` is `none`.
unfoldable pub delay_with : Policy → ℤ → Option (ℤ → ℤ) → ℤ
delay_with p attempt none = ladder p attempt
delay_with p attempt (some draw) =
    let limit = ladder p attempt in
    if not p.jitter || leb_ℤ limit (pos 0) then limit else held_draw draw limit

unfoldable pub effective_delay : ℤ → ℤ → ℤ → ℤ
effective_delay ladder retry_after max_interval =
    let delay = positive_duration ladder in
    clamp_duration (if ltb_ℤ delay retry_after then retry_after else delay) max_interval

unfoldable pub delay_after : Policy → ℤ → ℤ → Option (ℤ → ℤ) → ℤ
delay_after p attempt retry_after draw =
    effective_delay (delay_with p attempt draw) retry_after p.max_interval

unfoldable pub terminal : Policy → ℤ → Bool
terminal p attempt = leb_ℤ p.max_attempts (pos 0) || leb_ℤ p.max_attempts attempt

abbrev is_retryable : Outcome → Bool
is_retryable retryable = true
is_retryable _ = false

unfoldable pub should_retry : Policy → ℤ → Outcome → Bool
unfolding terminal
should_retry p attempt outcome = is_retryable outcome && not (terminal p attempt)
