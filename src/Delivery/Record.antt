-- ===== src/Delivery/Record.antt =====
-- internal/delivery/record.go: the one transition that settles an attempt.
pub mod Kinds
pub mod Late
use pg_noty.Base.{
  ℕ, zero, suc, ◌+◌, ◌*◌, ◌/◌, ◌%◌, Bool, true, false, not, ◌&&◌, Option, none, some, List, [], ◌∷◌,
  ◌++◌, if◌then◌else◌, ltb, leb_ℤ, ltb_ℤ, ℤ, pos, negsuc, ◌+ℤ◌, Text, codes, is_empty, take,
  decimal, Result, ok, err,
}
use pg_noty.Source.Store.{Event, Delivery, Store}
use pg_noty.Source.Transition.{
  TriggerSource, Database, Error, event_not_claimed, Settlement, ack, nack, die, settle, after,
}
use pg_noty.Delivery.Classify.{
  Outcome, success, retryable, terminal, classify_status, classify_error,
}
use pg_noty.Delivery.Policy.{Policy, should_retry, delay_after}
use pg_noty.Delivery.RetryAfter.{parse_retry_after}

-- What the program reads of an *http.Response: the status code and the Retry-After header, trimmed.
pub record Response : Type 0 where
  pub status_code : ℤ
  pub retry_after : Text

abbrev is_retryable : Outcome → Bool
is_retryable retryable = true
is_retryable _ = false

-- The status is the response's where there is a response and no error.
abbrev pub attempt_outcome : Option Response → Delivery → Outcome
attempt_outcome none dl = classify_error (not (is_empty dl.err))
attempt_outcome (some r) dl =
    if is_empty dl.err
    then classify_status r.status_code
    else classify_error (not (is_empty dl.err))

unfoldable pub classify_attempt : Event → Policy → Option Response → Delivery → Outcome
classify_attempt ev p response dl =
    let outcome = attempt_outcome response dl in
    if is_retryable outcome && not (should_retry p (pos ev.attempt) outcome)
    then terminal
    else outcome

abbrev pub dead_reason : Delivery → Text
dead_reason dl =
    if not (is_empty dl.err)
    then dl.err
    else if leb_ℤ (pos 300) dl.http_status && leb_ℤ dl.http_status (pos 399)
    then codes "HTTP redirect status " ++ decimal dl.http_status
    else codes "HTTP status " ++ decimal dl.http_status

abbrev pub max_snippet_bytes : ℕ
max_snippet_bytes = 2048

-- `TruncateSnippet`.
abbrev pub truncated : Delivery → Delivery
truncated dl = record dl { snippet = take max_snippet_bytes dl.snippet }

-- The process around one attempt: how net/http reads a date, its clock, and its jitter.
pub record Surroundings : Type 0 where
  pub parse_date : Text → Option ℤ
  pub now : ℤ
  pub jitter : Option (ℤ → ℤ)

abbrev pub or_zero : Option ℤ → ℤ
or_zero none = pos 0
or_zero (some d) = d

abbrev pub server_floor : Surroundings → Option Response → ℤ
server_floor at none = pos 0
server_floor at (some r) = or_zero (parse_retry_after at.parse_date r.retry_after at.now)

-- The switch of `recordResult`.
unfoldable pub settlement_of :
    Surroundings → Policy → Event → Option Response → Delivery → Settlement
unfolding classify_attempt parse_retry_after
settlement_of at p ev response dl = elim (classify_attempt ev p response dl) [
  | success ↦ ack
  | retryable ↦ nack (at.now +ℤ delay_after p (pos ev.attempt) (server_floor at response) at.jitter)
  | terminal ↦ die (dead_reason dl)
]

-- `swallowLateClaim`: a lease that was lost is no error of the worker.
abbrev pub swallow_late_claim : Option Error → Option Error
swallow_late_claim none = none
swallow_late_claim (some event_not_claimed) = none
swallow_late_claim (some e) = some e

-- `recordResult`, with the store of the source that the worker has.
unfoldable pub record_result :
    Surroundings
    → TriggerSource
    → Database
    → Policy
    → Event
    → Option Response
    → Delivery
    → Store
    → Store × Option Error
unfolding settlement_of
record_result at src db p ev response dl st =
    let dl' = truncated dl in
    let (st', e) = after st (settle src db (settlement_of at p ev response dl') ev dl' st) in
    (st', swallow_late_claim e)
