-- ===== src/Delivery/RunOnce/Account.antt =====
-- internal/delivery/worker.go: what one cycle calls, and where it leaves the events.
use pg_noty.Base.{
  ℕ, ◌+◌, ◌-◌, ◌<◌, ◌≡◌, refl, sym, ◌∙◌, ap, inl, inr, ◌⊎◌, subst, if◌then◌else◌, Bool, true, false,
  Option, none, some, List, [], ◌∷◌, ◌++◌, arith, ℤ, Result, ok, err, Bool-cases,
}
use pg_noty.Source.Store.{Event}
use pg_noty.Delivery.Semaphore.{has_capacity}
use pg_noty.Delivery.Worker.{Worker, all_queued, held_since}
use pg_noty.Delivery.Hold.{take_pending, drop_expired_held, expired_at, lease_hold_limit}
use pg_noty.Delivery.Dispatch.{Round, queues_by_listener}
use pg_noty.Delivery.Dispatch.Slots.{count_id}
use pg_noty.Delivery.Dispatch.Batch.{Interim, dispatch_batch}
use pg_noty.Delivery.Dispatch.Batch.Balance.{count_id-append, fill_queues-count_id}
use pg_noty.Delivery.Dispatch.Batch.Conserved.{
  Accounts, Settled-Accounts, retain_pending-Settled, dispatch_batch_conserves,
}
use pg_noty.Delivery.Hold.Expired.{
  HeldDistinct, HoldExpired, drop_expired_held-none, drop_expired_held-Kept, expired-HoldExpired,
}
use pg_noty.Delivery.RunOnce.{
  Cycle, idle_round, retained, claimed_events, claim_and_dispatch, reclaim_first, run_once,
}

drop_expired_held-pending :
    (now : ℤ) (evs : List Event) (w : Worker) → (drop_expired_held now evs w).1.pending ≡ w.pending
unfolding drop_expired_held
drop_expired_held-pending now [] w = refl
drop_expired_held-pending now (ev ∷ evs) w =
    elim (Bool-cases (expired_at now (lease_hold_limit w) (held_since ev.id w.held))) [
      | inl e ↦ rw e (drop_expired_held-pending now evs _)
      | inr e ↦ rw e (drop_expired_held-pending now evs w)
    ]

module _ (meanwhile : Round → Interim) (now : ℤ) where
  retained-Accounts :
      (i : ℕ) (events : List Event) (w : Worker)
      → Accounts i
          (count_id i events + count_id i (all_queued w.pending))
          (retained meanwhile now events w)
  retained-Accounts i events w =
      let n = count_id i events + count_id i (all_queued w.pending) in
      Settled-Accounts i n (retained meanwhile now events w) (
        retain_pending-Settled meanwhile i n now
          (record (idle_round w) { queues = queues_by_listener events })
          (omega (arith, fill_queues-count_id i events [])))

  batch-Accounts :
      (i : ℕ) (events : List Event) (w : Worker)
      → Accounts i
          (count_id i events + count_id i (all_queued w.pending))
          (dispatch_batch meanwhile now events w)
  batch-Accounts i events w = (dispatch_batch_conserves meanwhile now events w i).1

same_less : (n : ℕ) → n ≡ n - 1 → n ≡ 0
same_less n h = omega arith

-- The events at hand and those that the cycle claims, by where they are after it.
abbrev pub Taken : {E : Type 0} → ℕ → ℕ → Result E (List Event) → Cycle E → Type 0
Taken i n claim c = Accounts i (n + count_id i (claimed_events c.claims claim)) c.round

module _ (now : ℤ) where
  -- What is kept of the events at hand, and the worker then.
  abbrev kept_of : Worker → List Event
  kept_of w = (drop_expired_held now (all_queued w.pending) (record w { pending = [] })).0.0

  abbrev emptied : Worker → Worker
  emptied w = (drop_expired_held now (all_queued w.pending) (record w { pending = [] })).1

  abbrev has_dropped : Worker → Bool
  has_dropped w = (drop_expired_held now (all_queued w.pending) (record w { pending = [] })).0.1

module _ {E : Type 0} (meanwhile : Round → Interim) (now : ℤ) where
  claim_and_dispatch-Taken :
      (i : ℕ) (claim : Result E (List Event)) (k : ℕ) (events : List Event) (w : Worker)
      → Taken i
          (count_id i events + count_id i (all_queued w.pending))
          claim
          (claim_and_dispatch meanwhile now claim k events w)
  unfolding claim_and_dispatch
  claim_and_dispatch-Taken i (err e) k events w = elim (Bool-cases (has_capacity (some w.global))) [
    | inl h ↦ rw h (omega (arith, retained-Accounts meanwhile now i events w))
    | inr h ↦ rw h (omega (arith, batch-Accounts meanwhile now i events w))
  ]
  claim_and_dispatch-Taken i (ok es) k events w = elim (Bool-cases (has_capacity (some w.global))) [
    | inl h ↦ rw h (
        omega (arith, count_id-append i events es, batch-Accounts meanwhile now i (events ++ es) w))
    | inr h ↦ rw h (omega (arith, batch-Accounts meanwhile now i events w))
  ]

  reclaim_first-Taken :
      (i : ℕ) (reclaim : Option (Result E ℕ)) (claim : Result E (List Event)) (events : List Event)
      (w : Worker)
      → Taken i
          (count_id i events + count_id i (all_queued w.pending))
          claim
          (reclaim_first meanwhile now reclaim claim events w)
  unfolding reclaim_first
  reclaim_first-Taken i none claim events w = claim_and_dispatch-Taken i claim 0 events w
  reclaim_first-Taken i (some (ok n)) claim events w = claim_and_dispatch-Taken i claim 1 events w
  reclaim_first-Taken i (some (err e)) claim events w =
      omega (arith, retained-Accounts meanwhile now i events w)

  abbrev dropping : Worker → Cycle E
  dropping w = record {
    round = dispatch_batch meanwhile now (kept_of now w) (emptied now w);
    error = none;
    reclaims = 0;
    claims = 0;
  }

  module _ (reclaim : Option (Result E ℕ)) (claim : Result E (List Event)) (w : Worker)
      (active : w.stopping ≡ false) where
    abbrev going_on : Cycle E
    going_on = reclaim_first meanwhile now reclaim claim (kept_of now w) (emptied now w)

    run_once-active :
        run_once meanwhile now reclaim claim w
        ≡ (if has_dropped now w then dropping w else going_on)
    unfolding run_once take_pending
    run_once-active =
        ap
          (λ b.
            if b
            then (record { round = idle_round w; error = none; reclaims = 0; claims = 0 })
            else if has_dropped now w
            then dropping w
            else going_on)
          active

    run_once-dropping :
        has_dropped now w ≡ true → run_once meanwhile now reclaim claim w ≡ dropping w
    run_once-dropping e = run_once-active ∙ ap (λ b. if b then dropping w else going_on) e

    run_once-going_on :
        has_dropped now w ≡ false → run_once meanwhile now reclaim claim w ≡ going_on
    run_once-going_on e = run_once-active ∙ ap (λ b. if b then dropping w else going_on) e

    run_once-Taken :
        (i : ℕ)
        → Taken i (count_id i (kept_of now w)) claim (run_once meanwhile now reclaim claim w)
    run_once-Taken i =
        let empty : (emptied now w).pending ≡ [] =
          drop_expired_held-pending now (all_queued w.pending) (record w { pending = [] }) in
        let none_left = ap (λ q. count_id i (all_queued q)) empty in
        elim (Bool-cases (has_dropped now w)) [
          | inl e ↦
              let batch = batch-Accounts meanwhile now i (kept_of now w) (emptied now w) in
              subst (Taken i (count_id i (kept_of now w)) claim) (sym (run_once-dropping e))
                (omega (arith, batch, none_left))
          | inr e ↦
              let rest = reclaim_first-Taken i reclaim claim (kept_of now w) (emptied now w) in
              subst (Taken i (count_id i (kept_of now w)) claim) (sym (run_once-going_on e))
                (omega (arith, rest, none_left))
        ]

  -- A cycle of a worker that is not draining, whose holds are one for each id. Either the hold of an
  -- event at hand has expired, which is that it is as old as the lease allows or older, and the
  -- source is asked neither to reclaim nor to claim; or no event at hand has such a hold. In both
  -- cases, of each event id those retained before, less the one copy whose hold has expired if there
  -- is such a hold, and those claimed are together exactly as many as are then started, settled as
  -- dead, released to a drain, or retained, also when the source answers with an error.
  pub run_once_lem :
      (reclaim : Option (Result E ℕ)) (claim : Result E (List Event)) (w : Worker)
      → w.stopping ≡ false
      → HeldDistinct w.held
      → (((j : ℕ) × HoldExpired now w j
            × (0 < count_id j (all_queued w.pending))
            × ((run_once meanwhile now reclaim claim w).reclaims ≡ 0)
            × ((run_once meanwhile now reclaim claim w).claims ≡ 0))
          ⊎ ((j : ℕ) → (count_id j (all_queued w.pending) ≡ 0) ⊎ (¬ HoldExpired now w j)))
        × ((i : ℕ)
            → (HoldExpired now w i
                × Taken i
                    (count_id i (all_queued w.pending) - 1)
                    claim
                    (run_once meanwhile now reclaim claim w))
              ⊎ ((¬ HoldExpired now w i)
                  × Taken i
                      (count_id i (all_queued w.pending))
                      claim
                      (run_once meanwhile now reclaim claim w)))
  unfolding lease_hold_limit
  run_once_lem reclaim claim w active distinct =
      let events = all_queued w.pending in
      let w' = record w { pending = [] } in
      let taken : (i : ℕ)
          → Taken i (count_id i (drop_expired_held now events w').0.0) claim
              (run_once meanwhile now reclaim claim w) =
        λ i. run_once-Taken reclaim claim w active i in
      (
        elim (Bool-cases (drop_expired_held now events w').0.1) [
          | inl e ↦
              let (j, expired, here) = expired-HoldExpired now events w' distinct e in
              inl (
                j,
                record { since = expired.since; held = expired.held; over = expired.over },
                here,
                ap (λ c. c.reclaims) (run_once-dropping reclaim claim w active e),
                ap (λ c. c.claims) (run_once-dropping reclaim claim w active e),
              )
          | inr e ↦ inr (λ j. elim (drop_expired_held-Kept now j events w' distinct) [
            | inl (gone, count) ↦ inl (
                same_less _
                  (sym (ap (count_id j) (drop_expired_held-none now events w' e)) ∙ count))
            | inr (kept, count) ↦
                inr (λ h. kept (record { since = h.since; held = h.held; over = h.over }))
          ])
        ],
        λ i. elim (drop_expired_held-Kept now i events w' distinct) [
          | inl (gone, count) ↦ inl (
            record { since = gone.since; held = gone.held; over = gone.over },
            omega (arith, taken i, count),
          )
          | inr (kept, count) ↦ inr (
            λ h. kept (record { since = h.since; held = h.held; over = h.over }),
            omega (arith, taken i, count),
          )
        ],
      )
