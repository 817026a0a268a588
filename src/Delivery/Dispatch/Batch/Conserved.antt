-- ===== src/Delivery/Dispatch/Batch/Conserved.antt =====
-- internal/delivery/dispatch.go: the loop over a batch ends, and loses and doubles no event.
use pg_noty.Base.{
  ℕ, zero, suc, ◌+◌, ◌≤◌, ◌<◌, ◌≡◌, refl, ◌∙◌, ap, inl, inr, Bool, true, false, ◌||◌, List, [], ◌∷◌,
  arith, ℤ, String, length, Bool-cases, Option-cases, List-cases,
}
use pg_noty.Source.Store.{Event}
use pg_noty.Delivery.Worker.{Queues, Worker, listener_of, queue_of, all_queued, all_queues_empty}
use pg_noty.Delivery.Dispatch.{
  DispatchState, consumed, Round, try_dispatch, queues_by_listener, listener_names,
}
use pg_noty.Delivery.Dispatch.Slots.{count_id}
use pg_noty.Delivery.Dispatch.Batch.{
  Interim, interim, after_attempt, try_name, one_round, retain_pending, rounds, dispatch_batch,
}
use pg_noty.Delivery.Dispatch.Batch.Balance.{
  Balanced, count_id-append, fill_queues-count_id, fill_queues-length, interim-pending,
  try_dispatch-pending, after_attempt-Balanced, after_attempt-size, retain_events-count_id,
}

-- One turn, or a round of turns: the account of the events stays, and progress takes one from a queue.
abbrev pub Turn : ℕ → ℕ → Round → Round × Bool → Type 0
Turn i n r t =
    (Balanced i n r → Balanced i n t.0)
    × (length (all_queued t.0.queues) ≤ length (all_queued r.queues))
    × (t.1 ≡ true → length (all_queued t.0.queues) < length (all_queued r.queues))

stay-Turn : (i n : ℕ) (r : Round) → Turn i n r (r, false)
stay-Turn i n r = (λ h. h, omega arith, λ h. absurd (cc))

after_attempt-Turn :
    (i n : ℕ) (name : String) (ev : Event) (rest : List Event) (d : DispatchState) (w : Worker)
    (r : Round)
    → queue_of name r.queues ≡ ev ∷ rest
    → w.pending ≡ r.worker.pending
    → Turn i n r (after_attempt name ev rest d w r)
after_attempt-Turn i n name ev rest d w r q same =
    let size = after_attempt-size name ev rest d w r q in
    (
      after_attempt-Balanced i n name ev rest d w r q same,
      ground (arith, size),
      λ h. ground (arith, size),
    )

then-Turn :
    (i n : ℕ) (r : Round) (t u : Round × Bool)
    → Turn i n r t
    → Turn i n t.0 u
    → Turn i n r (u.0, t.1 || u.1)
then-Turn i n r t u f g = (λ h. g.0 (f.0 h), omega (arith, f.1, g.1), less t.1 f g)
  where
    less :
        (b : Bool)
        → (Turn i n r (t.0, b))
        → Turn i n t.0 u
        → b || u.1 ≡ true
        → length (all_queued u.0.queues) < length (all_queued r.queues)
    less true f g h = omega (arith, f.2 refl, g.1)
    less false f g h = omega (arith, f.1, g.2 h)

all_queues_empty-lem : (qs : Queues) → all_queues_empty qs ≡ true → all_queued qs ≡ []
unfolding all_queues_empty
all_queues_empty-lem [] h = refl
all_queues_empty-lem ((n, []) ∷ qs) h = all_queues_empty-lem qs h
all_queues_empty-lem ((n, e ∷ es) ∷ qs) h = absurd (cc)

-- Where an event of the batch, or one retained before, may be in the end: not in a queue of the batch.
abbrev pub Settled : ℕ → ℕ → Round → Type 0
Settled i n r = Balanced i n r × (all_queued r.queues ≡ [])

abbrev pub Accounts : ℕ → ℕ → Round → Type 0
Accounts i n r =
    n
    ≡ count_id i r.started
      + count_id i r.dead
      + count_id i r.released
      + count_id i (all_queued r.worker.pending)

pub Settled-Accounts : (i n : ℕ) (r : Round) → Settled i n r → Accounts i n r
Settled-Accounts i n r h = omega (arith, h.0, ap (count_id i) h.1)

module _ (meanwhile : Round → Interim) where
  try_name-Turn : (i n : ℕ) (name : String) (r : Round) → Turn i n r (try_name meanwhile name r)
  unfolding try_name
  try_name-Turn i n name r = elim (List-cases (queue_of name r.queues)) [
    | inl e ↦ rw (try_name, e) (stay-Turn i n r)
    | inr (ev, rest, e) ↦
        let w = interim (meanwhile r) r.worker in
        let same = interim-pending (meanwhile r) r.worker in
        elim (Option-cases (listener_of name w.listeners)) [
          | inl f ↦ rw (try_name, e, f) (after_attempt-Turn i n name ev rest consumed w r e same)
          | inr (l, f) ↦
              let (w', d) = try_dispatch ev l w in
              rw (try_name, e, f)
                (after_attempt-Turn i n name ev rest d w' r e (try_dispatch-pending ev l w ∙ same))
        ]
  ]

  one_round-Turn :
      (i n : ℕ) (names : List String) (r : Round) → Turn i n r (one_round meanwhile names r)
  unfolding one_round
  one_round-Turn i n [] r = stay-Turn i n r
  one_round-Turn i n (name ∷ names) r =
      then-Turn i n r (try_name meanwhile name r)
        (one_round meanwhile names (try_name meanwhile name r).0) (try_name-Turn i n name r)
        (one_round-Turn i n names (try_name meanwhile name r).0)

  pub retain_pending-Settled :
      (i n : ℕ) (now : ℤ) (r : Round)
      → Balanced i n r
      → Settled i n (retain_pending meanwhile now r)
  unfolding retain_pending
  retain_pending-Settled i n now r h =
      let w = interim (meanwhile r) r.worker in
      let same = interim-pending (meanwhile r) r.worker in
      elim (Bool-cases w.stopping) [
        | inl e ↦
            simp e
              (rw same omega (arith, h, count_id-append i r.released (all_queued r.queues)), refl)
        | inr e ↦ simp e (
          omega (
            arith,
            h,
            retain_events-count_id i now (all_queued r.queues) w,
            ap (λ q. count_id i (all_queued q)) same,
          ),
          refl,
        )
      ]

  rounds-Settled :
      (i n fuel : ℕ) (now : ℤ) (order : List String) (r : Round)
      → length (all_queued r.queues) < fuel
      → Balanced i n r
      → Settled i n (rounds meanwhile fuel now order r)
  unfolding rounds
  rounds-Settled i n zero now order r h b = absurd (omega (arith, h))
  rounds-Settled i n (suc fuel) now order r h b =
      let t = one_round meanwhile order r in
      let turn = one_round-Turn i n order r in
      elim (Bool-cases t.1) [
        | inr e ↦ rw e (retain_pending-Settled i n now t.0 (turn.0 b))
        | inl e ↦ rw e elim (Bool-cases (all_queues_empty t.0.queues)) [
          | inl f ↦ rw f (turn.0 b, all_queues_empty-lem t.0.queues f)
          | inr f ↦
              rw f (rounds-Settled i n fuel now order t.0 (omega (arith, h, turn.2 e)) (turn.0 b))
        ]
      ]

  -- The loop over a batch ends with its queues empty, whatever deliveries end and whether a drain
  -- begins meanwhile; and of each event id the batch and the events retained before have together
  -- exactly as many as are then started, settled as dead, released to the drain, or retained.
  pub dispatch_batch_conserves :
      (now : ℤ) (events : List Event) (w : Worker) (i : ℕ)
      → (all_queued (dispatch_batch meanwhile now events w).queues ≡ [])
        × (count_id i events + count_id i (all_queued w.pending)
            ≡ count_id i (dispatch_batch meanwhile now events w).started
              + count_id i (dispatch_batch meanwhile now events w).dead
              + count_id i (dispatch_batch meanwhile now events w).released
              + count_id i (all_queued (dispatch_batch meanwhile now events w).worker.pending))
  unfolding dispatch_batch
  dispatch_batch_conserves now events w i =
      let all =
        rounds-Settled i (count_id i events + count_id i (all_queued w.pending))
          (suc (length events)) now (listener_names w (queues_by_listener events))
          (record {
            worker = w;
            queues = queues_by_listener events;
            started = [];
            dead = [];
            released = [];
          })
          (omega (arith, fill_queues-length events []))
          (omega (arith, fill_queues-count_id i events [])) in
      (
        all.1,
        Settled-Accounts i (count_id i events + count_id i (all_queued w.pending))
            (dispatch_batch meanwhile now events w) all,
      )
