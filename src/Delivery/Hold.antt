-- ===== src/Delivery/Hold.antt =====
-- internal/delivery/hold.go: the events a worker holds locally between two batches, and the bound on
-- how long it may.
pub mod Expired
use pg_noty.Base.{
  ℕ, ◌-◌, ◌*◌, ◌/◌, Bool, false, ◌||◌, Option, none, some, List, [], ◌∷◌, if◌then◌else◌, leb, ltb,
  leb_ℤ, ℤ, pos, pos_part, ◌≤◌, ◌<◌, arith,
}
use pg_noty.Source.Store.{Event}
use pg_noty.Source.Transition.{sub_time}
use pg_noty.Delivery.Worker.{Worker, all_queued, push_queue, held_since, unhold}

abbrev pub second : ℕ
second = 1000000000

abbrev pub millisecond : ℕ
millisecond = 1000000

abbrev pub default_lease_timeout : ℕ
default_lease_timeout = 300000000000

-- A duration that is set, or its default: durations of zero and below count as not set.
abbrev pub set_or : ℕ → ℤ → ℕ
set_or default d = if leb_ℤ d (pos 0) then default else pos_part d

-- The margin before the end of the lease, for a lease that is set.
abbrev pub margin_of : ℕ → ℕ
margin_of lease =
    let margin = if ltb (lease / 10) millisecond then millisecond else lease / 10 in
    if leb lease margin then lease / 2 else margin

unfoldable pub lease_hold_limit : Worker → ℕ
lease_hold_limit w =
    let lease = set_or default_lease_timeout w.config.lease_timeout in lease - margin_of lease

unfoldable pub poll_interval : Worker → ℕ
unfolding lease_hold_limit
poll_interval w =
    let interval = set_or second w.config.poll_interval in
    let bound =
      (if leb (lease_hold_limit w / 2) 0 then lease_hold_limit w else lease_hold_limit w / 2) in
    if ltb bound interval then bound else interval

-- `takePending`: every queue, and the queues are empty.
unfoldable pub take_pending : Worker → List Event × Worker
take_pending w = (all_queued w.pending, record w { pending = [] })

-- One event of `retainPending`: it is held from now on, unless it is held already.
unfoldable pub retain_event : ℤ → Event → Worker → Worker
unfolding push_queue held_since
retain_event now ev w = record w {
  held = elim (held_since ev.id w.held) [ none ↦ (ev.id, now) ∷ w.held | some since ↦ w.held ];
  pending = push_queue ev.listener ev w.pending;
}

unfoldable pub retain_events : ℤ → List Event → Worker → Worker
unfolding retain_event
retain_events now [] w = w
retain_events now (ev ∷ evs) w = retain_events now evs (retain_event now ev w)

-- `dropExpiredHeld`: the events kept, and whether one was dropped.
abbrev pub expired_at : ℤ → ℕ → Option ℤ → Bool
expired_at now limit none = false
expired_at now limit (some since) = leb_ℤ (pos limit) (sub_time now since)

unfoldable pub drop_expired_held : ℤ → List Event → Worker → (List Event × Bool) × Worker
unfolding held_since unhold
drop_expired_held now [] w = (([], false), w)
drop_expired_held now (ev ∷ evs) w =
    let gone = expired_at now (lease_hold_limit w) (held_since ev.id w.held) in
    let w' = if gone then record w { held = unhold ev.id w.held } else w in
    let ((kept, expired), w'') = drop_expired_held now evs w' in
    ((if gone then kept else ev ∷ kept, gone || expired), w'')

set_or_positive : (default : ℕ) (d : ℤ) → 0 < default → 0 < set_or default d
set_or_positive default d h = ground arith

margin_of_below : (lease : ℕ) → 0 < lease → margin_of lease < lease
margin_of_below lease h = ground arith

margin_of_positive : (lease : ℕ) → 1 < lease → 0 < margin_of lease
margin_of_positive lease h = ground arith

abbrev bounded : ℕ → ℕ → ℕ
bounded interval limit =
    let bound = if leb (limit / 2) 0 then limit else limit / 2 in
    if ltb bound interval then bound else interval

bounded_lem :
    (interval limit : ℕ)
    → 0 < interval
    → 0 < limit
    → (0 < bounded interval limit)
      × (bounded interval limit ≤ limit)
      × (1 < limit → 2 * bounded interval limit ≤ limit)
bounded_lem interval limit h k = (ground arith, ground arith, λ l. ground arith)

-- The bound on a hold is positive, and before the end of the lease for every lease above one
-- nanosecond; the poll interval is positive and no longer than the bound, and at most half of it
-- where the bound is above one nanosecond.
pub hold_bounds :
    (w : Worker)
    → (0 < lease_hold_limit w)
      × (1 < set_or default_lease_timeout w.config.lease_timeout
          → lease_hold_limit w < set_or default_lease_timeout w.config.lease_timeout)
      × (0 < poll_interval w)
      × (poll_interval w ≤ lease_hold_limit w)
      × (1 < lease_hold_limit w → 2 * poll_interval w ≤ lease_hold_limit w)
unfolding lease_hold_limit poll_interval
hold_bounds w =
    let lease = set_or default_lease_timeout w.config.lease_timeout in
    let positive : 0 < lease =
      set_or_positive default_lease_timeout w.config.lease_timeout (omega arith) in
    let below = margin_of_below lease positive in
    let limit : 0 < lease - margin_of lease = omega (arith, below) in
    let poll =
      bounded_lem (set_or second w.config.poll_interval) (lease - margin_of lease)
        (set_or_positive second w.config.poll_interval (omega arith)) limit in
    (limit, λ h. omega (arith, margin_of_positive lease h, below), poll.0, poll.1, poll.2)
