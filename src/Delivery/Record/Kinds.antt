-- ===== src/Delivery/Record/Kinds.antt =====
-- internal/delivery/record.go: which attempts are acknowledged, retried and given up, and when a retry
-- is due.
use pg_noty.Base.{
  ℕ, ap, ◌≤◌, ◌≡◌, ◌⊎◌, inl, inr, Bool, true, false, not, ◌&&◌, ◌||◌, Option, none, some,
  if◌then◌else◌, arith, leb_ℤ, ltb_ℤ, ℤ, pos, ◌+ℤ◌, ◌≤ℤ◌, ◌<ℤ◌, int_laws, is_empty, any, Bool-cases,
  max_int64,
}
use pg_noty.Source.Store.{Event, Delivery}
use pg_noty.Source.Transition.{Settlement, ack, nack, sub_time}
use pg_noty.Delivery.Classify.{classify_status, classify_error}
use pg_noty.Delivery.Policy.{Policy, should_retry, delay_after, terminal as no_attempt_left}
use pg_noty.Delivery.Policy.Bounds.{delay_after_range}
use pg_noty.Delivery.RetryAfter.{
  parse_retry_after, parse_delta_seconds, is_digit, decimal_value, seconds_duration,
}
use pg_noty.Delivery.Record.{
  Response, Surroundings, classify_attempt, server_floor, settlement_of, or_zero,
}

abbrev pub is_ack : Settlement → Bool
is_ack ack = true
is_ack _ = false

abbrev pub is_nack : Settlement → Bool
is_nack (nack t) = true
is_nack _ = false

-- The answers that the program takes for delivered, and those that it takes for passing trouble. No
-- answer is neither.
abbrev pub delivered : Option Response → Bool
delivered none = false
delivered (some r) = leb_ℤ (pos 200) r.status_code && leb_ℤ r.status_code (pos 299)

abbrev is_status : ℤ → ℤ → Bool
is_status a b = leb_ℤ a b && leb_ℤ b a

abbrev pub passing : Option Response → Bool
passing none = false
passing (some r) =
    is_status r.status_code (pos 408)
    || is_status r.status_code (pos 429)
    || (leb_ℤ (pos 500) r.status_code && leb_ℤ r.status_code (pos 599))

-- An attempt is acknowledged exactly if there was no error and the answer has a status from 200 to
-- 299. It is retried exactly if the policy has an attempt left (its maximum is positive and above the
-- attempt's number) and there was an error, or the answer is 408, 429 or 500 to 599. In every other
-- case the event is dead.
pub settlement_kind :
    (at : Surroundings) (p : Policy) (ev : Event) (response : Option Response) (dl : Delivery)
    → (is_ack (settlement_of at p ev response dl) ≡ (is_empty dl.err && delivered response))
      × (is_nack (settlement_of at p ev response dl)
          ≡ (ltb_ℤ (pos ev.attempt) p.max_attempts && (not (is_empty dl.err) || passing response)))
unfolding settlement_of classify_attempt should_retry classify_status classify_error no_attempt_left
settlement_kind at p ev none dl = ground arith
settlement_kind at p ev (some r) dl = ground arith

sub_time_fits : (a b : ℤ) → sub_time a b ≤ℤ pos max_int64
unfolding sub_time
sub_time_fits a b = ground arith

date_floor_fits :
    (now : ℤ) (date : Option ℤ)
    → or_zero (elim date [
      | none ↦ none
      | some when ↦
          (let delay = sub_time when now in if leb_ℤ delay (pos 0) then none else some delay)
    ])
      ≤ℤ pos max_int64
date_floor_fits now none = omega arith
date_floor_fits now (some when) = elim (Bool-cases (leb_ℤ (sub_time when now) (pos 0))) [
  | inl h ↦ rw h (omega arith)
  | inr h ↦ rw h (sub_time_fits when now)
]

seconds_duration_fits : (n : ℕ) → seconds_duration n ≤ max_int64
seconds_duration_fits n = ground arith

server_floor_fits :
    (at : Surroundings) (response : Option Response) → server_floor at response ≤ℤ pos max_int64
unfolding parse_retry_after parse_delta_seconds
server_floor_fits at none = omega arith
server_floor_fits at (some r) = elim (Bool-cases (is_empty r.retry_after)) [
  | inl h ↦ rw h (omega arith)
  | inr h ↦ elim (Bool-cases (any (λ c. not (is_digit c)) r.retry_after)) [
    | inl k ↦ rw (h, k) (date_floor_fits at.now (at.parse_date r.retry_after))
    | inr k ↦ rw (h, k) (omega (arith, seconds_duration_fits (decimal_value 0 r.retry_after)))
  ]
]

due_of :
    (at : Surroundings) (p : Policy) (ev : Event) (response : Option Response) (dl : Delivery)
    {due : ℤ}
    → settlement_of at p ev response dl ≡ nack due
    → due ≡ at.now +ℤ delay_after p (pos ev.attempt) (server_floor at response) at.jitter
unfolding settlement_of
due_of at p ev response dl h = ground arith

later : (now d : ℤ) → pos 0 ≤ℤ d → now ≤ℤ now +ℤ d
later now d h = omega (int_laws)

+ℤ_mono : (now d e : ℤ) → d ≤ℤ e → now +ℤ d ≤ℤ now +ℤ e
+ℤ_mono now d e h = omega (int_laws)

-- Where the policy's initial interval is at most the largest int64 and an attempt is to be retried:
-- the retry is due no earlier than now, and no later than the policy's longest interval from now,
-- where the policy has one; it is due no earlier than the server's Retry-After, or else exactly that
-- interval from now.
pub settlement_due :
    (at : Surroundings) (p : Policy) (ev : Event) (response : Option Response) (dl : Delivery)
    {due : ℤ}
    → p.initial_interval ≤ℤ pos max_int64
    → settlement_of at p ev response dl ≡ nack due
    → (at.now ≤ℤ due)
      × (pos 0 <ℤ p.max_interval → due ≤ℤ at.now +ℤ p.max_interval)
      × ((at.now +ℤ server_floor at response ≤ℤ due) ⊎ (due ≡ at.now +ℤ p.max_interval))
settlement_due at p ev response dl {due} h e =
    let d = delay_after p (pos ev.attempt) (server_floor at response) at.jitter in
    let range =
      delay_after_range p (pos ev.attempt) (server_floor at response) at.jitter h
        (server_floor_fits at response) in
    rw (due_of at p ev response dl e) (
      later at.now d range.0.nonneg,
      λ k. +ℤ_mono at.now d p.max_interval (range.1 k),
      elim range.2 [
        | inl f ↦ inl (+ℤ_mono at.now (server_floor at response) d f)
        | inr f ↦ inr (ap (λ x. at.now +ℤ x) f)
      ],
    )
