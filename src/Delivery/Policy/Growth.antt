-- ===== src/Delivery/Policy/Growth.antt =====
-- internal/delivery/policy.go: the rungs of the ladder against their closed form.
use native.Mathlib.Nat.{pow-le-pow_right, mul-le-mul_left}
use pg_noty.Base.{
  ℕ, zero, suc, ◌*◌, ◌-◌, ◌≤◌, ◌<◌, ◌^◌, ◌/◌, ◌≡◌, refl, ◌∙◌, ap, arith, min, ℤ, pos, negsuc,
  pos_part, ◌*ℤ◌, ◌-ℤ◌, ◌≤ℤ◌, max_int64, ltb_ℤ, if◌then◌else◌,
}
use pg_noty.Delivery.Duration.{positive_duration, clamp_duration, multiply_duration, power_of_two}
use pg_noty.Delivery.Policy.{Policy, Backoff, linear, exponential, other, step_delay, ladder}
use pg_noty.Delivery.Policy.Bounds.{div-mul-le}

lt-mul_of_div_lt : (m v f : ℕ) → 0 < v → m / v < f → m < v * f
lt-mul_of_div_lt m v f h k = grind arith

-- Saturating multiplication.
pub multiply_duration_lem :
    (v f : ℕ) → v ≤ max_int64 → multiply_duration (pos v) (pos f) ≡ pos (min max_int64 (v * f))
unfolding multiply_duration ◌*ℤ◌
multiply_duration_lem v f h =
    ground (arith, div-mul-le max_int64 v f, lt-mul_of_div_lt max_int64 v f)

pow_mono : (a b : ℕ) → a ≤ b → 2 ^ a ≤ 2 ^ b
pow_mono a b h = pow-le-pow_right (omega arith) h

-- The saturation of the power is that of the product, for every base.
min-mul-power : (v k : ℕ) → min max_int64 (v * min max_int64 (2 ^ k)) ≡ min max_int64 (v * 2 ^ k)
min-mul-power zero k = grind arith
min-mul-power (suc v) k = grind arith

power_of_two_lem : (k : ℕ) → power_of_two (pos k) ≡ pos (min max_int64 (2 ^ k))
unfolding power_of_two
power_of_two_lem k = ground (arith, pow_mono k 62, pow_mono 63 k)

attempt-pred : (k : ℕ) → pos (suc k) -ℤ pos 1 ≡ pos k
unfolding ◌-ℤ◌
attempt-pred k = ground arith

-- What a rung is before the cap: `k` failed attempts came before it.
abbrev pub rung : Backoff → ℕ → ℕ → ℕ
rung linear base k = min max_int64 (base * suc k)
rung exponential base k = min max_int64 (base * 2 ^ k)
rung other base k = base

step_delay-rung :
    (b : Backoff) (base k : ℕ)
    → base ≤ max_int64
    → step_delay b (pos base) (pos (suc k)) ≡ pos (rung b base k)
step_delay-rung linear base k h = multiply_duration_lem base (suc k) h
step_delay-rung exponential base k h =
    rw (attempt-pred k, power_of_two_lem k)
      (multiply_duration_lem base _ h ∙ ap pos (min-mul-power base k))
step_delay-rung other base k h = refl

positive_duration_lem : (v : ℤ) → positive_duration v ≡ pos (pos_part v)
unfolding positive_duration
positive_duration_lem v = ground arith

-- The number of failed attempts that an attempt number stands for.
abbrev pub failed_before : ℤ → ℕ
failed_before attempt = pos_part attempt - 1

first_attempt :
    (attempt : ℤ)
    → (if ltb_ℤ attempt (pos 1) then pos 1 else attempt) ≡ pos (suc (failed_before attempt))
first_attempt attempt = ground arith

pos_part-le : (a b : ℤ) → a ≤ℤ b → pos_part a ≤ pos_part b
pos_part-le (pos a) (pos b) h = omega arith
pos_part-le (pos a) (negsuc b) h = omega arith
pos_part-le (negsuc a) b h = omega arith

-- Where the initial interval is at most the largest int64, a rung of the ladder is the closed form,
-- with saturation at the largest int64, under the cap.
pub ladder-rung :
    (p : Policy) (attempt : ℤ)
    → p.initial_interval ≤ℤ pos max_int64
    → ladder p attempt
      ≡ clamp_duration
          (pos (rung p.backoff (pos_part p.initial_interval) (failed_before attempt)))
          p.max_interval
unfolding ladder
ladder-rung p attempt h =
    rw (positive_duration_lem p.initial_interval, first_attempt attempt)
      (ap (λ d. clamp_duration d p.max_interval)
        (step_delay-rung p.backoff (pos_part p.initial_interval) (failed_before attempt)
          (pos_part-le p.initial_interval (pos max_int64) h)))

rung_mono : (b : Backoff) (base j k : ℕ) → j ≤ k → rung b base j ≤ rung b base k
rung_mono linear base j k h = grind arith
rung_mono exponential base j k h =
    let m : base * 2 ^ j ≤ base * 2 ^ k = mul-le-mul_left base (pow_mono j k h) in omega arith
rung_mono other base j k h = omega arith

clamp_duration-mono : (a b m : ℤ) → a ≤ℤ b → clamp_duration a m ≤ℤ clamp_duration b m
unfolding clamp_duration
clamp_duration-mono a b m h = ground arith

-- Where the initial interval is at most the largest int64, a later attempt never has a lower rung.
pub ladder-mono :
    (p : Policy) (i j : ℤ) → p.initial_interval ≤ℤ pos max_int64 → i ≤ℤ j → ladder p i ≤ℤ ladder p j
ladder-mono p i j h k =
    rw (ladder-rung p i h, ladder-rung p j h)
      (clamp_duration-mono _ _ p.max_interval (
        let r =
          rung_mono p.backoff (pos_part p.initial_interval) (failed_before i) (failed_before j)
            (omega (arith, pos_part-le i j k)) in
        omega arith))
