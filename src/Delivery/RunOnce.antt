-- ===== src/Delivery/RunOnce.antt =====
-- internal/delivery/worker.go: one cycle of the worker, `RunOnce`. The source's reclaim and claim are
-- arguments: what each answers. The reclaimer may be absent.
pub mod Account
use pg_noty.Base.{
  ℕ, zero, suc, ◌+◌, ◌≤◌, ◌≡◌, refl, ◌∙◌, sym, ap, inl, inr, Bool, true, false, Option, none, some,
  List, [], ◌∷◌, ◌++◌, if◌then◌else◌, arith, ℤ, length, Result, ok, err, Bool-cases, Option-cases,
  any, ◌||◌, ◌==◌,
}
use pg_noty.Source.Store.{Event}
use pg_noty.Delivery.Semaphore.{has_capacity}
use pg_noty.Delivery.Worker.{Worker, all_queued, held_since, unhold}
use pg_noty.Delivery.Hold.{
  take_pending, drop_expired_held, retain_events, retain_event, expired_at, lease_hold_limit,
}
use pg_noty.Delivery.Dispatch.{Round, queues_by_listener}
use pg_noty.Delivery.Dispatch.Slots.{count_id}
use pg_noty.Delivery.Dispatch.Batch.{Interim, retain_pending, dispatch_batch}
use pg_noty.Delivery.Dispatch.Batch.Balance.{retain_events-count_id}
use pg_noty.Delivery.Dispatch.Batch.Conserved.{dispatch_batch_conserves}

abbrev pub idle_round : Worker → Round
idle_round w = record { worker = w; queues = []; started = []; dead = []; released = [] }

-- `retainEvents`.
abbrev pub retained : (Round → Interim) → ℤ → List Event → Worker → Round
retained meanwhile now events w =
    retain_pending meanwhile now (record (idle_round w) { queues = queues_by_listener events })

-- What a cycle did, and the error it ends with. `reclaims` and `claims` are the calls it made.
pub record Cycle (E : Type 0) : Type 0 where
  pub round : Round
  pub error : Option E
  pub reclaims : ℕ
  pub claims : ℕ

-- What is claimed is in no queue of this worker yet.
abbrev pub claimed_events : {E : Type 0} → ℕ → Result E (List Event) → List Event
claimed_events zero _ = []
claimed_events (suc n) (ok es) = es
claimed_events (suc n) (err e) = []

module _ {E : Type 0} (meanwhile : Round → Interim) (now : ℤ) where
  -- From the claim on, when a slot is free; the calls of the source made so far come with it.
  unfoldable pub claim_and_dispatch : Result E (List Event) → ℕ → List Event → Worker → Cycle E
  claim_and_dispatch (err e) n events w =
      if has_capacity (some w.global)
      then record {
        round = retained meanwhile now events w;
        error = some e;
        reclaims = n;
        claims = 1;
      }
      else record {
        round = dispatch_batch meanwhile now events w;
        error = none;
        reclaims = n;
        claims = 0;
      }
  claim_and_dispatch (ok claimed) n events w =
      if has_capacity (some w.global)
      then record {
        round = dispatch_batch meanwhile now (events ++ claimed) w;
        error = none;
        reclaims = n;
        claims = 1;
      }
      else record {
        round = dispatch_batch meanwhile now events w;
        error = none;
        reclaims = n;
        claims = 0;
      }

  unfoldable pub reclaim_first :
      Option (Result E ℕ) → Result E (List Event) → List Event → Worker → Cycle E
  unfolding claim_and_dispatch
  reclaim_first none claim events w = claim_and_dispatch claim 0 events w
  reclaim_first (some (ok n)) claim events w = claim_and_dispatch claim 1 events w
  reclaim_first (some (err e)) claim events w = record {
    round = retained meanwhile now events w;
    error = some e;
    reclaims = 1;
    claims = 0;
  }

  unfoldable pub run_once : Option (Result E ℕ) → Result E (List Event) → Worker → Cycle E
  unfolding reclaim_first take_pending drop_expired_held
  run_once reclaim claim w =
      let (pending, w') = take_pending w in
      let ((events, expired), w'') = drop_expired_held now pending w' in
      if w.stopping
      then record { round = idle_round w; error = none; reclaims = 0; claims = 0 }
      else if expired
      then record {
        round = dispatch_batch meanwhile now events w'';
        error = none;
        reclaims = 0;
        claims = 0;
      }
      else reclaim_first reclaim claim events w''
