-- ===== src/Delivery/Policy/Bounds.antt =====
-- internal/delivery/policy.go: the range of each delay.
use pg_noty.Base.{
  ℕ, ◌*◌, ◌≤◌, ◌/◌, ◌≡◌, Option, none, some, arith, ℤ, pos, negsuc, ◌⊎◌, ◌≤ℤ◌, ◌<ℤ◌, max_int64,
}
use pg_noty.Delivery.Duration.{positive_duration, clamp_duration, multiply_duration}
use pg_noty.Delivery.Policy.{
  Policy, Backoff, linear, exponential, other, step_delay, ladder, held_draw, delay_with,
  effective_delay, delay_after,
}

-- A duration from 0 to the largest int64.
pub record IsDelay (d : ℤ) : Type 0 where
  pub nonneg : pos 0 ≤ℤ d
  pub fits : d ≤ℤ pos max_int64

pub positive_duration-IsDelay : (v : ℤ) → v ≤ℤ pos max_int64 → IsDelay (positive_duration v)
unfolding positive_duration
positive_duration-IsDelay v h = ground arith

pub div-mul-le : (m v f : ℕ) → f ≤ m / v → v * f ≤ m
div-mul-le m v f h = grind arith

pub multiply_duration-IsDelay : (v f : ℤ) → IsDelay (multiply_duration v f)
unfolding multiply_duration
multiply_duration-IsDelay (pos v) (pos f) = ground (arith, div-mul-le max_int64 v f)
multiply_duration-IsDelay (pos v) (negsuc f) = ground arith
multiply_duration-IsDelay (negsuc v) f = ground arith

pub clamp_duration-IsDelay : (v m : ℤ) → IsDelay v → IsDelay (clamp_duration v m)
unfolding clamp_duration
clamp_duration-IsDelay v m h = ground arith

pub clamp_duration-le : (v m : ℤ) → pos 0 <ℤ m → clamp_duration v m ≤ℤ m
unfolding clamp_duration
clamp_duration-le v m h = ground arith

step_delay-IsDelay :
    (b : Backoff) (base attempt : ℤ) → IsDelay base → IsDelay (step_delay b base attempt)
step_delay-IsDelay linear base attempt h = multiply_duration-IsDelay base attempt
step_delay-IsDelay exponential base attempt h = multiply_duration-IsDelay base _
step_delay-IsDelay other base attempt h = h

pub ladder-IsDelay :
    (p : Policy) (attempt : ℤ) → p.initial_interval ≤ℤ pos max_int64 → IsDelay (ladder p attempt)
unfolding ladder
ladder-IsDelay p attempt h =
    clamp_duration-IsDelay _ p.max_interval
      (step_delay-IsDelay p.backoff _ _ (positive_duration-IsDelay p.initial_interval h))

pub ladder-le-max_interval :
    (p : Policy) (attempt : ℤ) → pos 0 <ℤ p.max_interval → ladder p attempt ≤ℤ p.max_interval
unfolding ladder
ladder-le-max_interval p attempt h = clamp_duration-le _ p.max_interval h

held_draw_range :
    (draw : ℤ → ℤ) (limit : ℤ)
    → pos 0 ≤ℤ limit
    → (pos 0 ≤ℤ held_draw draw limit) × (held_draw draw limit ≤ℤ limit)
unfolding held_draw
held_draw_range draw limit h = ground arith

-- For every jitter function, whatever it draws, the delay stays between 0 and the ladder's rung.
pub delay_with_range :
    (p : Policy) (attempt : ℤ) (draw : Option (ℤ → ℤ))
    → p.initial_interval ≤ℤ pos max_int64
    → (pos 0 ≤ℤ delay_with p attempt draw) × (delay_with p attempt draw ≤ℤ ladder p attempt)
unfolding delay_with
delay_with_range p attempt none h = let r = ladder-IsDelay p attempt h in omega arith
delay_with_range p attempt (some draw) h =
    let r = ladder-IsDelay p attempt h in ground (arith, held_draw_range draw (ladder p attempt))

-- Where the initial interval and the Retry-After are at most the largest int64, the delay before a
-- retry is a duration from 0 to the largest int64; it is at most the cap where there is one, and it
-- is at least the server's Retry-After or else equal to the cap.
pub delay_after_range :
    (p : Policy) (attempt retry_after : ℤ) (draw : Option (ℤ → ℤ))
    → p.initial_interval ≤ℤ pos max_int64
    → retry_after ≤ℤ pos max_int64
    → IsDelay (delay_after p attempt retry_after draw)
      × (pos 0 <ℤ p.max_interval → delay_after p attempt retry_after draw ≤ℤ p.max_interval)
      × ((retry_after ≤ℤ delay_after p attempt retry_after draw)
          ⊎ (delay_after p attempt retry_after draw ≡ p.max_interval))
unfolding delay_after effective_delay positive_duration clamp_duration
delay_after_range p attempt retry_after draw h k =
    let r = ladder-IsDelay p attempt h in ground (arith, delay_with_range p attempt draw h)
