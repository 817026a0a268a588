-- ===== src/Delivery/Dispatch.antt =====
-- internal/delivery/dispatch.go: the admission of one event, and of a batch in rounds.
pub mod Slots
pub mod Batch
use pg_noty.Base.{
  ℕ, zero, suc, ◌+◌, Bool, true, false, not, ◌&&◌, ◌||◌, Option, none, some, List, [], ◌∷◌, ◌++◌,
  map, if◌then◌else◌, ltb, ltb_ℤ, ℤ, pos, String, str_eq, Text, codes, text_lt, length, any, keep,
  sort_by,
}
use pg_noty.Source.Store.{Event}
use pg_noty.Delivery.Semaphore.{Semaphore, try_acquire, release}
use pg_noty.Delivery.Worker.{
  ListenerConfig, ListenerState, Queues, Worker, listener_of, count_up, finish_count, track,
  remove_first, queue_of, push_queue, set_queue, all_queues_empty, release_hold,
}

pub data DispatchState : Type 0 where
  blocked consumed accepted : DispatchState

-- `checkPayloadSize` against the limit of a listener, where one is set.
abbrev pub too_large : ListenerConfig → Event → Bool
too_large c ev =
    ltb_ℤ (pos 0) c.max_payload_bytes && ltb_ℤ c.max_payload_bytes (pos (length ev.payload))

abbrev pub global_of : Option Semaphore → Semaphore → Semaphore
global_of none s = s
global_of (some s) _ = s

-- The listener's semaphore, in the place of its name.
unfoldable pub set_sem : String → Option Semaphore → List ListenerState → List ListenerState
set_sem name sem [] = []
set_sem name sem (l ∷ ls) =
    if str_eq l.config.name name then record l { sem = sem } ∷ ls else l ∷ set_sem name sem ls

-- What a delivery has while it is under way: a slot of the worker, one of its listener, its count in
-- `inFlight`, and its place in the activity of the drain.
pub data Resource : Type 0 where
  global_slot listener_slot flight activity : Resource

-- The code of a goroutine by its lock and channel operations, which are what others can come between:
-- to take a resource, with the code for either answer, to count, to give one back, and `go`.
pub data Task : Type 0 where
  ended : Task
  taking : Resource → Task → Task → Task
  counting : Task → Task
  giving : Resource → Task → Task
  starting : Task → Task

-- The slots of a listener, found by its name.
abbrev pub sem_of : String → List ListenerState → Option Semaphore
sem_of name ls = elim (listener_of name ls) [ none ↦ none | some l ↦ l.sem ]

unfoldable pub try_take : Resource → Event → Worker → Worker × Bool
unfolding try_acquire set_sem listener_of count_up track
try_take global_slot ev w =
    let (g, got) = try_acquire (some w.global) in (record w { global = global_of g w.global }, got)
try_take listener_slot ev w =
    let (s, got) = try_acquire (sem_of ev.listener w.listeners) in
    (record w { listeners = set_sem ev.listener s w.listeners }, got)
try_take flight ev w = (record w { in_flight = count_up ev.id w.in_flight }, true)
try_take activity ev w = elim (track ev w) [ some w' ↦ (w', true) | none ↦ (w, false) ]

unfoldable pub give : Resource → Event → Worker → Worker
unfolding release set_sem listener_of finish_count remove_first
give global_slot ev w = record w { global = global_of (release (some w.global)) w.global }
give listener_slot ev w = record w {
  listeners = set_sem ev.listener (release (sem_of ev.listener w.listeners)) w.listeners;
}
give flight ev w = record w { in_flight = finish_count ev.id w.in_flight }
give activity ev w = record w { tracked = remove_first ev.id w.tracked }

-- The end of the goroutine of a delivery: the deferred calls, last one first, of which `untrack` is the
-- first two.
abbrev pub delivery : Task
delivery = giving activity (giving flight (giving listener_slot (giving global_slot ended)))

-- `tryDispatch`, from the first slot on. If the drain has begun meanwhile, all is undone.
abbrev pub admission : Task
admission =
    taking global_slot
      (taking listener_slot
        (counting (
          taking activity (starting delivery)
            (giving flight (giving global_slot (giving listener_slot ended)))))
        (giving global_slot ended))
      ended

-- One operation.
unfoldable pub advance : Event → Task → Worker → Worker × Task
unfolding try_take give
advance ev ended w = (w, ended)
advance ev (taking r a b) w = let (w', got) = try_take r ev w in (w', if got then a else b)
advance ev (counting c) w = ((try_take flight ev w).0, c)
advance ev (giving r c) w = (give r ev w, c)
advance ev (starting c) w = (w, c)

-- The operations without another one between them, up to the end or to a `go`.
unfoldable pub run_through : Event → Task → Worker → Worker × DispatchState
unfolding try_take give
run_through ev ended w = (w, blocked)
run_through ev (taking r a b) w =
    let (w', got) = try_take r ev w in
    let then_a = run_through ev a w' in
    let then_b = run_through ev b w' in if got then then_a else then_b
run_through ev (counting c) w = run_through ev c (try_take flight ev w).0
run_through ev (giving r c) w = run_through ev c (give r ev w)
run_through ev (starting c) w = (w, accepted)

-- `tryDispatch`. An event that is too large is settled as dead at once: `consumed`.
unfoldable pub try_dispatch : Event → ListenerState → Worker → Worker × DispatchState
unfolding run_through
try_dispatch ev l w =
    if w.stopping
    then (w, blocked)
    else if too_large l.config ev
    then (w, consumed)
    else run_through ev admission w

-- The end of a delivery, where nothing comes between its operations.
unfoldable pub complete : Event → Worker → Worker
unfolding run_through
complete ev w = (run_through ev delivery w).0

-- A batch under way: its queues, and what became of the events that left them. `dead` are those that
-- were handed to `settleDead`, for no listener has their name or they are too large; `released` those that
-- were handed to `releaseHeld`, for the drain has begun.
pub record Round : Type 0 where
  pub worker : Worker
  pub queues : Queues
  pub started : List Event
  pub dead : List Event
  pub released : List Event

abbrev pub fill_queues : List Event → Queues → Queues
fill_queues [] qs = qs
fill_queues (e ∷ es) qs = fill_queues es (push_queue e.listener e qs)

abbrev pub queues_by_listener : List Event → Queues
queues_by_listener events = fill_queues events []

-- `listenerNames`: the configured order, then the other names of the batch, sorted.
abbrev pub name_le : String → String → Bool
name_le a b = not (text_lt (codes b) (codes a))

abbrev pub names_of : Queues → List String
names_of = map (λ q. q.0)

unfoldable pub listener_names : Worker → Queues → List String
listener_names w qs =
    let order = map (λ (l : ListenerState). l.config.name) w.listeners in
    order ++ sort_by name_le (keep (λ n. not (any (λ o. str_eq o n) order)) (names_of qs))
