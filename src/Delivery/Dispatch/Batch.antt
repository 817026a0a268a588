-- ===== src/Delivery/Dispatch/Batch.antt =====
-- internal/delivery/dispatch.go: a batch is dispatched in rounds over its listeners, and what cannot
-- start is retained.
pub mod Balance
pub mod Conserved
use pg_noty.Base.{
  ℕ, zero, suc, ◌+◌, Bool, true, false, not, ◌||◌, Option, none, some, List, [], ◌∷◌, ◌++◌,
  if◌then◌else◌, ℤ, String, length,
}
use pg_noty.Source.Store.{Event}
use pg_noty.Delivery.Worker.{
  Queues, Worker, listener_of, queue_of, set_queue, all_queued, all_queues_empty, release_hold,
}
use pg_noty.Delivery.Hold.{retain_events}
use pg_noty.Delivery.Dispatch.{
  DispatchState, blocked, consumed, accepted, Round, try_dispatch, complete, queues_by_listener,
  listener_names,
}

-- What happens elsewhere between two calls of the loop: deliveries that end, and the start of the drain.
abbrev pub Interim : Type 0
Interim = List Event × Bool

unfoldable pub interim : Interim → Worker → Worker
interim ([], stop) w = record w { stopping = stop || w.stopping }
interim (ev ∷ evs, stop) w = interim (evs, stop) (complete ev w)

-- The head of a queue, after its attempt.
unfoldable pub after_attempt :
    String → Event → List Event → DispatchState → Worker → Round → Round × Bool
unfolding set_queue release_hold
after_attempt name ev rest blocked w r = (record r { worker = w }, false)
after_attempt name ev rest consumed w r = (
  record r {
    worker = release_hold ev w;
    queues = set_queue name rest r.queues;
    dead = r.dead ++ (ev ∷ []);
  },
  true,
)
after_attempt name ev rest accepted w r = (
  record r {
    worker = release_hold ev w;
    queues = set_queue name rest r.queues;
    started = r.started ++ (ev ∷ []);
  },
  true,
)

module _ (meanwhile : Round → Interim) where
  -- One listener's turn, and whether it made progress.
  unfoldable pub try_name : String → Round → Round × Bool
  unfolding after_attempt
  try_name name r =
      let w = interim (meanwhile r) r.worker in
      elim (queue_of name r.queues) [
        | [] ↦ (r, false)
        | ev ∷ rest ↦ elim (listener_of name w.listeners) [
          | none ↦ after_attempt name ev rest consumed w r
          | some l ↦
              let (w', result) = try_dispatch ev l w in after_attempt name ev rest result w' r
        ]
      ]

  unfoldable pub one_round : List String → Round → Round × Bool
  unfolding try_name
  one_round [] r = (r, false)
  one_round (name ∷ names) r =
      let (r', here) = try_name name r in
      let (r'', later) = one_round names r' in (r'', here || later)

  -- `retainPending`. The queues are the batch's own and end with it.
  unfoldable pub retain_pending : ℤ → Round → Round
  retain_pending now r =
      let w = interim (meanwhile r) r.worker in
      if w.stopping
      then record r { worker = w; queues = []; released = r.released ++ all_queued r.queues }
      else record r { worker = retain_events now (all_queued r.queues) w; queues = [] }

  -- The loop, on fuel: a round that makes progress takes an event out of a queue.
  unfoldable pub rounds : ℕ → ℤ → List String → Round → Round
  unfolding one_round retain_pending
  rounds zero now order r = r
  rounds (suc fuel) now order r =
      let (r', progress) = one_round order r in
      let rest = rounds fuel now order r' in
      if not progress
      then retain_pending now r'
      else if all_queues_empty r'.queues
      then r'
      else rest

  unfoldable pub dispatch_batch : ℤ → List Event → Worker → Round
  unfolding rounds
  dispatch_batch now events w =
      let queues = queues_by_listener events in
      rounds (suc (length events)) now (listener_names w queues)
        (record { worker = w; queues = queues; started = []; dead = []; released = [] })
