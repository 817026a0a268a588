-- ===== src/Tests/Worker.antt =====
-- internal/delivery: a worker with two listeners, at concrete events.
use pg_noty.Base.{
  ℕ, zero, suc, ◌≡◌, refl, ◌+◌, ◌-◌, ◌<◌, ◌-ℤ◌, ◌⊎◌, true, false, not, ◌&&◌, ◌||◌, Option, none,
  some, List, [], ◌∷◌, pos, ok, Result, codes, ◌≤ℤ◌, ◌<ℤ◌, arith, is_empty, ltb_ℤ,
}
use pg_noty.Source.Store.{Event, Delivery}
use pg_noty.Delivery.Policy.{Policy, exponential, delay_after}
use pg_noty.Delivery.Policy.Bounds.{IsDelay, delay_after_range}
use pg_noty.Delivery.Worker.{
  Worker, WorkerConfig, new_worker, in_flight_total, all_queued, listener_of, queue_of, push_queue,
  all_queues_empty, held_since, track, count_up, finish_count,
}
use pg_noty.Delivery.Semaphore.{new_semaphore, try_acquire}
use pg_noty.Delivery.Hold.{retain_events, take_pending, drop_expired_held, lease_hold_limit}
use pg_noty.Delivery.Hold.Expired.{HoldExpired}
use pg_noty.Delivery.Dispatch.{
  Round, Task, ended, taking, giving, starting, global_slot, listener_slot, flight, activity,
  delivery, admission, advance, try_take, give, set_sem, try_dispatch, listener_names,
}
use pg_noty.Delivery.Dispatch.Slots.{Thread, System, count_id}
use pg_noty.Delivery.Dispatch.Batch.{Interim, interim, dispatch_batch}
use pg_noty.Delivery.Dispatch.Batch.Conserved.{dispatch_batch_conserves}
use pg_noty.Delivery.RunOnce.{run_once}
use pg_noty.Delivery.RunOnce.Account.{Taken, run_once_lem}
use pg_noty.Delivery.Record.{Response, Surroundings, settlement_of}
use pg_noty.Delivery.Record.{record_result}
use pg_noty.Delivery.Record.Late.{record_result_late}
use pg_noty.Schema.Identifier.{why_unusable}
use pg_noty.Source.Transition.{begin_transition, qualified_service_table, sub_time}
use pg_noty.Tests.Settling.{src, db, st, st-Distinct}
use pg_noty.Delivery.Record.Kinds.{is_ack, is_nack, delivered, passing, settlement_kind}

abbrev policy : Policy
policy = record {
  max_attempts = pos 5;
  backoff = exponential;
  initial_interval = pos 10;
  max_interval = pos 100;
  jitter = false;
}

abbrev config : WorkerConfig
config = record {
  batch_size = pos 10;
  global_concurrency = pos 2;
  poll_interval = pos 0;
  lease_timeout = pos 0;
  drain_timeout = pos 0;
  listeners =
      record { name = "orders"; policy = policy; concurrency = pos 1; max_payload_bytes = pos 100 }
      ∷ record { name = "users"; policy = policy; concurrency = pos 0; max_payload_bytes = pos 0 }
      ∷ [];
}

abbrev event : ℕ → Event
event i = record {
  id = i;
  listener = "orders";
  operation = codes "insert";
  occurred_at = pos 3;
  table = codes "orders";
  txid = 7;
  payload = codes "{}";
  attempt = 1;
}

abbrev stray : Event
stray = record (event 4) { listener = "gone" }

abbrev batch : List Event
batch = event 1 ∷ event 2 ∷ stray ∷ []

abbrev quiet : Round → Interim
quiet r = ([], false)

delay_after_range_example :
    IsDelay (delay_after policy (pos 2) (pos 30) none)
    × (pos 0 <ℤ pos 100 → delay_after policy (pos 2) (pos 30) none ≤ℤ pos 100)
    × ((pos 30 ≤ℤ delay_after policy (pos 2) (pos 30) none)
        ⊎ (delay_after policy (pos 2) (pos 30) none ≡ pos 100))
delay_after_range_example =
    delay_after_range policy (pos 2) (pos 30) none (omega arith) (omega arith)

-- The first goroutine after some of its operations.
abbrev after : ℕ → Event → Task → List Thread → Worker → System
after zero ev c us w = record { worker = w; threads = (ev, c) ∷ us }
after (suc n) ev c us w = let (w', c') = advance ev c w in after n ev c' us w'

-- The first event is being delivered.
abbrev delivering : System
delivering = after 5 (event 1) admission [] (new_worker config)

abbrev welcome : Event
welcome = record (event 5) { listener = "users" }

-- An event of the other listener has its two slots and its count, and is to be tracked.
abbrev entering : System
entering = record delivering { threads = (welcome, admission) ∷ delivering.threads }

abbrev tracking : Task
tracking =
    taking activity (starting delivery)
      (giving flight (giving global_slot (giving listener_slot ended)))

abbrev counted : System
counted = after 3 welcome admission delivering.threads delivering.worker

-- The drain begins, the second event is refused, and its count has been taken back but not its slots.
abbrev undoing : System
undoing = after 2 welcome tracking delivering.threads (record (counted.worker) { stopping = true })

undoing_run :
    (undoing.worker.global.used ≡ 2)
    × (in_flight_total undoing.worker.in_flight ≡ 1)
    × (undoing.worker.tracked ≡ event 1 ∷ [])
unfolding new_worker listener_of new_semaphore advance try_take give try_acquire set_sem track
    count_up finish_count in_flight_total
undoing_run = (refl, refl, refl)

dispatch_batch_conserves_example :
    (all_queued (dispatch_batch quiet (pos 0) batch (new_worker config)).queues ≡ [])
    × (count_id 2 batch + count_id 2 (all_queued (new_worker config).pending)
        ≡ count_id 2 (dispatch_batch quiet (pos 0) batch (new_worker config)).started
          + count_id 2 (dispatch_batch quiet (pos 0) batch (new_worker config)).dead
          + count_id 2 (dispatch_batch quiet (pos 0) batch (new_worker config)).released
          + count_id 2
              (all_queued (dispatch_batch quiet (pos 0) batch (new_worker config)).worker.pending))
dispatch_batch_conserves_example =
    dispatch_batch_conserves quiet (pos 0) batch (new_worker config) 2

-- The first event starts, the second waits for its listener's one slot, and nobody knows the third.
dispatch_batch_run :
    let r = dispatch_batch quiet (pos 0) batch (new_worker config) in
    (r.started ≡ event 1 ∷ [])
    × (r.dead ≡ stray ∷ [])
    × (all_queued r.worker.pending ≡ event 2 ∷ [])
unfolding dispatch_batch new_worker listener_names queue_of push_queue listener_of interim
    try_dispatch new_semaphore all_queues_empty retain_events
dispatch_batch_run = (refl, refl, refl)

abbrev claims : Result ℕ (List Event)
claims = ok batch

-- The hold of the first event has expired, for a lease of ten milliseconds, and that of the second has not.
abbrev keeping : Worker
keeping = record (new_worker (record config { lease_timeout = pos 10000000 })) {
  pending = ("orders", event 1 ∷ event 2 ∷ []) ∷ [];
  held = (1, pos 0) ∷ (2, pos 8000000) ∷ [];
}

run_once_lem_example :
    (((j : ℕ) × HoldExpired (pos 9000000) keeping j
        × (0 < count_id j (all_queued keeping.pending))
        × ((run_once quiet (pos 9000000) none claims keeping).reclaims ≡ 0)
        × ((run_once quiet (pos 9000000) none claims keeping).claims ≡ 0))
      ⊎ ((j : ℕ)
          → (count_id j (all_queued keeping.pending) ≡ 0)
            ⊎ (¬ HoldExpired (pos 9000000) keeping j)))
    × ((i : ℕ)
        → (HoldExpired (pos 9000000) keeping i
            × Taken i
                (count_id i (all_queued keeping.pending) - 1)
                claims
                (run_once quiet (pos 9000000) none claims keeping))
          ⊎ ((¬ HoldExpired (pos 9000000) keeping i)
              × Taken i
                  (count_id i (all_queued keeping.pending))
                  claims
                  (run_once quiet (pos 9000000) none claims keeping)))
unfolding new_worker held_since
run_once_lem_example = run_once_lem quiet (pos 9000000) none claims keeping refl (refl, (refl, tt))

first_dropped : (run_once quiet (pos 9000000) none claims keeping).round.started ≡ event 2 ∷ []
unfolding run_once dispatch_batch new_worker listener_names queue_of push_queue listener_of interim
    try_dispatch new_semaphore all_queues_empty retain_events held_since take_pending
    drop_expired_held lease_hold_limit sub_time ◌-ℤ◌
first_dropped = refl

abbrev busy : Option Response
busy = some (record { status_code = pos 503; retry_after = [] })

abbrev plain : Delivery
plain = record { http_status = pos 503; snippet = []; err = []; duration = pos 0 }

abbrev around : Surroundings
around = record { parse_date = λ t. none; now = pos 1000; jitter = none }

settlement_kind_example :
    (is_ack (settlement_of around policy (event 1) busy plain)
      ≡ (is_empty plain.err && delivered busy))
    × (is_nack (settlement_of around policy (event 1) busy plain)
        ≡ (ltb_ℤ (pos 1) (pos 5) && (not (is_empty plain.err) || passing busy)))
settlement_kind_example = settlement_kind around policy (event 1) busy plain

abbrev holding : Worker
holding = record (new_worker config) {
  tracked = event 1 ∷ [];
  pending = ("orders", event 2 ∷ event 1 ∷ []) ∷ [];
}

record_result_late_example : record_result around src db policy (event 2) busy plain st ≡ (st, none)
unfolding begin_transition qualified_service_table why_unusable
record_result_late_example =
    record_result_late around src db policy (event 2) busy plain st st-Distinct (refl, refl, refl)
      refl
