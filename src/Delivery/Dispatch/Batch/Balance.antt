-- ===== src/Delivery/Dispatch/Batch/Balance.antt =====
-- internal/delivery/dispatch.go and hold.go: where the events of a batch are afterwards.
use pg_noty.Base.{
  Bool, true, false, ℕ, suc, ◌+◌, ◌≡◌, refl, ◌∙◌, inl, inr, List, [], ◌∷◌, ◌++◌, if◌then◌else◌,
  arith, ℤ, String, str_eq, length, length-append, Bool-cases,
}
use pg_noty.Source.Store.{Event}
use pg_noty.Delivery.Worker.{
  ListenerState, Queues, Worker, queue_of, push_queue, set_queue, all_queued, release_hold,
}
use pg_noty.Delivery.Hold.{retain_event, retain_events}
use pg_noty.Delivery.Dispatch.{
  DispatchState, blocked, consumed, accepted, Resource, global_slot, listener_slot, flight,
  activity, Task, ended, taking, counting, giving, starting, delivery, admission, try_take, give,
  run_through, too_large, Round, try_dispatch, complete, fill_queues,
}
use pg_noty.Delivery.Worker.{track}
use pg_noty.Delivery.Dispatch.Slots.{count_id}
use pg_noty.Delivery.Dispatch.Batch.{Interim, interim, after_attempt}

pub count_id-append :
    (i : ℕ) (xs ys : List Event) → count_id i (xs ++ ys) ≡ count_id i xs + count_id i ys
count_id-append i [] ys = omega arith
count_id-append i (x ∷ xs) ys = ground (arith, count_id-append i xs ys)

pub push_queue-count_id :
    (i : ℕ) (name : String) (ev : Event) (qs : Queues)
    → count_id i (all_queued (push_queue name ev qs))
      ≡ count_id i (ev ∷ []) + count_id i (all_queued qs)
unfolding push_queue
push_queue-count_id i name ev [] = omega arith
push_queue-count_id i name ev ((n, es) ∷ qs) = elim (Bool-cases (str_eq n name)) [
  | inl e ↦ rw e omega (
    arith,
    count_id-append i (es ++ (ev ∷ [])) (all_queued qs),
    count_id-append i es (ev ∷ []),
    count_id-append i es (all_queued qs),
  )
  | inr e ↦ rw e omega (
    arith,
    push_queue-count_id i name ev qs,
    count_id-append i es (all_queued (push_queue name ev qs)),
    count_id-append i es (all_queued qs),
  )
]

push_queue-length :
    (name : String) (ev : Event) (qs : Queues)
    → length (all_queued (push_queue name ev qs)) ≡ suc (length (all_queued qs))
unfolding push_queue
push_queue-length name ev [] = refl
push_queue-length name ev ((n, es) ∷ qs) = elim (Bool-cases (str_eq n name)) [
  | inl e ↦ rw e omega (
    arith,
    length-append (es ++ (ev ∷ [])) (all_queued qs),
    length-append es (ev ∷ []),
    length-append es (all_queued qs),
  )
  | inr e ↦ rw e omega (
    arith,
    push_queue-length name ev qs,
    length-append es (all_queued (push_queue name ev qs)),
    length-append es (all_queued qs),
  )
]

pub fill_queues-count_id :
    (i : ℕ) (evs : List Event) (qs : Queues)
    → count_id i (all_queued (fill_queues evs qs)) ≡ count_id i evs + count_id i (all_queued qs)
fill_queues-count_id i [] qs = omega arith
fill_queues-count_id i (ev ∷ evs) qs = omega (
  arith,
  fill_queues-count_id i evs (push_queue ev.listener ev qs),
  push_queue-count_id i ev.listener ev qs,
  count_id-append i (ev ∷ []) evs,
)

-- Taking the head of a queue.
set_queue-count_id :
    (i : ℕ) (name : String) (ev : Event) (rest : List Event) (qs : Queues)
    → queue_of name qs ≡ ev ∷ rest
    → count_id i (all_queued qs)
      ≡ count_id i (ev ∷ []) + count_id i (all_queued (set_queue name rest qs))
unfolding queue_of set_queue
set_queue-count_id i name ev rest [] h = absurd (cc)
set_queue-count_id i name ev rest ((n, es) ∷ qs) h = elim (Bool-cases (str_eq n name)) [
  | inl e ↦
      let own : es ≡ ev ∷ rest = rw e at h in
      rw (e, own) omega (arith, count_id-append i (ev ∷ []) (rest ++ all_queued qs))
  | inr e ↦ rw e omega (
    arith,
    set_queue-count_id i name ev rest qs (rw e at h),
    count_id-append i es (all_queued (set_queue name rest qs)),
    count_id-append i es (all_queued qs),
  )
]

set_queue-length :
    (name : String) (ev : Event) (rest : List Event) (qs : Queues)
    → queue_of name qs ≡ ev ∷ rest
    → length (all_queued qs) ≡ suc (length (all_queued (set_queue name rest qs)))
unfolding queue_of set_queue
set_queue-length name ev rest [] h = absurd (cc)
set_queue-length name ev rest ((n, es) ∷ qs) h = elim (Bool-cases (str_eq n name)) [
  | inl e ↦ let own : es ≡ ev ∷ rest = rw e at h in rw (e, own) refl
  | inr e ↦ rw e omega (
    arith,
    set_queue-length name ev rest qs (rw e at h),
    length-append es (all_queued (set_queue name rest qs)),
    length-append es (all_queued qs),
  )
]

-- The queues that a worker keeps for the next batch are no part of an attempt or of a completion.
try_take-pending :
    (r : Resource) (ev : Event) (w : Worker) → (try_take r ev w).0.pending ≡ w.pending
unfolding try_take track
try_take-pending global_slot ev w = refl
try_take-pending listener_slot ev w = refl
try_take-pending flight ev w = refl
try_take-pending activity ev w = ground arith

give-pending : (r : Resource) (ev : Event) (w : Worker) → (give r ev w).pending ≡ w.pending
unfolding give
give-pending global_slot ev w = refl
give-pending listener_slot ev w = refl
give-pending flight ev w = refl
give-pending activity ev w = refl

run_through-pending :
    (ev : Event) (c : Task) (w : Worker) → (run_through ev c w).0.pending ≡ w.pending
unfolding run_through
run_through-pending ev ended w = refl
run_through-pending ev (taking r a b) w = elim (Bool-cases (try_take r ev w).1) [
  | inl e ↦
      rw (run_through, e) (run_through-pending ev a (try_take r ev w).0 ∙ try_take-pending r ev w)
  | inr e ↦
      rw (run_through, e) (run_through-pending ev b (try_take r ev w).0 ∙ try_take-pending r ev w)
]
run_through-pending ev (counting c) w =
    run_through-pending ev c (try_take flight ev w).0 ∙ try_take-pending flight ev w
run_through-pending ev (giving r c) w = run_through-pending ev c (give r ev w) ∙ give-pending r ev w
run_through-pending ev (starting c) w = refl

complete-pending : (ev : Event) (w : Worker) → (complete ev w).pending ≡ w.pending
unfolding complete
complete-pending ev w = run_through-pending ev delivery w

pub interim-pending : (m : Interim) (w : Worker) → (interim m w).pending ≡ w.pending
unfolding interim
interim-pending ([], stop) w = refl
interim-pending (ev ∷ evs, stop) w =
    interim-pending (evs, stop) (complete ev w) ∙ complete-pending ev w

checks-pending :
    (draining large : Bool) (w : Worker) (r : Worker × DispatchState)
    → r.0.pending ≡ w.pending
    → (if draining then (w, blocked) else if large then (w, consumed) else r).0.pending ≡ w.pending
checks-pending true large w r h = refl
checks-pending false true w r h = refl
checks-pending false false w r h = h

pub try_dispatch-pending :
    (ev : Event) (l : ListenerState) (w : Worker) → (try_dispatch ev l w).0.pending ≡ w.pending
unfolding try_dispatch
try_dispatch-pending ev l w =
    checks-pending w.stopping (too_large l.config ev) w (run_through ev admission w)
      (run_through-pending ev admission w)

-- The events of a round, by where they are.
abbrev pub Balanced : ℕ → ℕ → Round → Type 0
Balanced i n r =
    n
    ≡ count_id i r.started
      + count_id i r.dead
      + count_id i r.released
      + count_id i (all_queued r.queues)
      + count_id i (all_queued r.worker.pending)

pub after_attempt-Balanced :
    (i n : ℕ) (name : String) (ev : Event) (rest : List Event) (d : DispatchState) (w : Worker)
    (r : Round)
    → queue_of name r.queues ≡ ev ∷ rest
    → w.pending ≡ r.worker.pending
    → Balanced i n r
    → Balanced i n (after_attempt name ev rest d w r).0
unfolding after_attempt release_hold
after_attempt-Balanced i n name ev rest blocked w r q same h = rw same h
after_attempt-Balanced i n name ev rest consumed w r q same h =
    rw same omega
      (arith, h, count_id-append i r.dead (ev ∷ []), set_queue-count_id i name ev rest r.queues q)
after_attempt-Balanced i n name ev rest accepted w r q same h =
    rw same omega (
      arith,
      h,
      count_id-append i r.started (ev ∷ []),
      set_queue-count_id i name ev rest r.queues q,
    )

-- The size of the queues after an attempt: one less exactly if there was progress.
pub after_attempt-size :
    (name : String) (ev : Event) (rest : List Event) (d : DispatchState) (w : Worker) (r : Round)
    → queue_of name r.queues ≡ ev ∷ rest
    → length (all_queued r.queues)
      ≡ (if (after_attempt name ev rest d w r).1 then 1 else 0)
        + length (all_queued (after_attempt name ev rest d w r).0.queues)
unfolding after_attempt
after_attempt-size name ev rest blocked w r q = omega arith
after_attempt-size name ev rest consumed w r q =
    omega (arith, set_queue-length name ev rest r.queues q)
after_attempt-size name ev rest accepted w r q =
    omega (arith, set_queue-length name ev rest r.queues q)

pub retain_events-count_id :
    (i : ℕ) (now : ℤ) (evs : List Event) (w : Worker)
    → count_id i (all_queued (retain_events now evs w).pending)
      ≡ count_id i evs + count_id i (all_queued w.pending)
unfolding retain_events retain_event
retain_events-count_id i now [] w = omega arith
retain_events-count_id i now (ev ∷ evs) w = omega (
  arith,
  retain_events-count_id i now evs (retain_event now ev w),
  push_queue-count_id i ev.listener ev w.pending,
  count_id-append i (ev ∷ []) evs,
)

pub fill_queues-length :
    (evs : List Event) (qs : Queues)
    → length (all_queued (fill_queues evs qs)) ≡ length evs + length (all_queued qs)
fill_queues-length [] qs = omega arith
fill_queues-length (ev ∷ evs) qs =
    rw (fill_queues-length evs (push_queue ev.listener ev qs), push_queue-length ev.listener ev qs)
      (omega arith)
