-- ===== src/Delivery/Drain.antt =====
-- internal/delivery/drain.go: the end of a worker, which gives back the leases of all events it has.
use pg_noty.Base.{
  ℕ, ◌*◌, ◌≡◌, refl, ◌⊎◌, inl, inr, Bool, true, false, not, ◌&&◌, ◌||◌, List, [], ◌∷◌, ◌++◌,
  if◌then◌else◌, ◌==◌, any, leb_ℤ, ℤ, pos,
}
use pg_noty.Source.Store.{Event}
use pg_noty.Delivery.Worker.{Worker, all_queued}
use pg_noty.Delivery.Hold.{second}

-- What the source answers to the Nack of one event: the lease is given back, it was lost before, or an
-- error.
pub data Answer : Type 0 where
  given_back late_claim failed : Answer

abbrev pub answered : Answer → ℕ → List ℕ × Bool → List ℕ × Bool
answered given_back i (released, error) = (i ∷ released, error)
answered late_claim i (released, error) = (released, error)
answered failed i (released, error) = (released, true)

pub Answer-cases : (a : Answer) → (a ≡ given_back) ⊎ ((a ≡ late_claim) ⊎ (a ≡ failed))
Answer-cases given_back = inl refl
Answer-cases late_claim = inr (inl refl)
Answer-cases failed = inr (inr refl)

-- `releaseHeld`: the ids given back, and whether there was an error. An id is asked for once.
unfoldable pub release_held : (Event → Answer) → List ℕ → List Event → List ℕ × Bool
release_held nack seen [] = ([], false)
release_held nack seen (ev ∷ evs) =
    let known = any (λ i. i == ev.id) seen in
    let (released, error) = release_held nack (if known then seen else ev.id ∷ seen) evs in
    if known then (released, error) else answered (nack ev) ev.id (released, error)

pub record DrainResult : Type 0 where
  pub clean : Bool
  pub timed_out : Bool
  pub released : List ℕ
  pub error : Bool

abbrev pub succeeded : DrainResult → Bool
succeeded r = r.clean && not r.timed_out && not r.error

-- `takeHeldForDrain`.
unfoldable pub take_held_for_drain : Worker → List Event × Worker
take_held_for_drain w = (all_queued w.pending, record w { pending = []; held = [] })

-- The bound on the wait.
unfoldable pub drain_bound : ℤ → Worker → ℤ
drain_bound timeout w =
    if leb_ℤ timeout (pos 0)
    then (if leb_ℤ w.config.drain_timeout (pos 0)
        then pos (30 * second)
        else w.config.drain_timeout)
    else timeout

abbrev pub is_any : List Event → Bool
is_any [] = false
is_any (_ ∷ _) = true

-- `waitForActivity`: the activity that it reads first, and what it reads behind each change. Where it reads
-- no more it has found none or the timer has fired, and then it has timed out.
unfoldable pub wait_for_activity : List Event → List (List Event) → Bool
wait_for_activity events [] = is_any events
wait_for_activity events (changed ∷ later) =
    let rest = wait_for_activity changed later in if is_any events then rest else false

-- `Drain`: the activity that the wait reads, and `w` as it is when the wait is over and the events are
-- taken, which is a separate read. `earlier` says whether a release failed before.
unfoldable pub drain :
    (Event → Answer) → Bool → List Event → List (List Event) → Worker → DrainResult × Worker
unfolding take_held_for_drain release_held wait_for_activity
drain nack earlier first later w =
    let timed_out = wait_for_activity first later in
    let (held, w') = take_held_for_drain w in
    let (released, release_error) = release_held nack [] (w.tracked ++ held) in
    let error = timed_out || release_error || earlier in
    (
      record {
        clean = not timed_out && not error;
        timed_out = timed_out;
        released = released;
        error = error;
      },
      record w' { stopping = true },
    )

abbrev pub has_id : ℕ → List ℕ → Bool
has_id i ids = any (λ j. j == i) ids

abbrev pub DistinctIds : List ℕ → Type 0
DistinctIds [] = Unit
DistinctIds (i ∷ is) = (has_id i is ≡ false) × DistinctIds is
