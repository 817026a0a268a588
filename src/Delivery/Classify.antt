-- ===== src/Delivery/Classify.antt =====
-- internal/delivery/classify.go: the outcome of one attempt.
use pg_noty.Base.{ℕ, ◌&&◌, ◌||◌, Bool, true, false, ℤ, pos, leb_ℤ, if◌then◌else◌}

pub data Outcome : Type 0 where
  terminal success retryable : Outcome

abbrev within : ℕ → ℕ → ℤ → Bool
within low high status = leb_ℤ (pos low) status && leb_ℤ status (pos high)

unfoldable pub classify_status : ℤ → Outcome
classify_status status =
    if within 200 299 status
    then success
    else if within 408 408 status || within 429 429 status || within 500 599 status
    then retryable
    else terminal

-- The argument says whether the error is there.
unfoldable pub classify_error : Bool → Outcome
classify_error true = retryable
classify_error false = terminal
