-- ===== src/Delivery/Worker.antt =====
-- internal/delivery/worker.go, hold.go and drain.go: the state of a worker and the operations on it.
-- A Go map is an association list; where the program ranges over a map, in no fixed order, the model
-- takes the order of the list.
use pg_noty.Base.{
  ℕ, suc, ◌+◌, ◌-◌, Bool, true, false, ◌||◌, Option, none, some, List, [], ◌∷◌, ◌++◌, ◌==◌,
  if◌then◌else◌, leb, leb_ℤ, ltb_ℤ, ℤ, pos, String, str_eq, any,
}
use pg_noty.Source.Store.{Event}
use pg_noty.Delivery.Policy.{Policy}
use pg_noty.Delivery.Semaphore.{Semaphore, new_semaphore}

-- The part of delivery.ListenerConfig that admission reads.
pub record ListenerConfig : Type 0 where
  pub name : String
  pub policy : Policy
  pub concurrency : ℤ
  pub max_payload_bytes : ℤ

pub record ListenerState : Type 0 where
  pub config : ListenerConfig
  pub sem : Option Semaphore

pub record WorkerConfig : Type 0 where
  pub batch_size : ℤ
  pub global_concurrency : ℤ
  pub poll_interval : ℤ
  pub lease_timeout : ℤ
  pub drain_timeout : ℤ
  pub listeners : List ListenerConfig

abbrev pub Queues : Type 0
Queues = List (String × List Event)

-- `listeners` stands in configuration order, which is the program's `order`. `tracked` is the activity
-- of the drain, oldest first; `stopping` is its flag.
pub record Worker : Type 0 where
  pub config : WorkerConfig
  pub global : Semaphore
  pub listeners : List ListenerState
  pub in_flight : List (ℕ × ℕ)
  pub tracked : List Event
  pub stopping : Bool
  pub pending : Queues
  pub held : List (ℕ × ℤ)

unfoldable pub listener_of : String → List ListenerState → Option ListenerState
listener_of name [] = none
listener_of name (l ∷ ls) = if str_eq l.config.name name then some l else listener_of name ls

-- The loop of `NewWorker`: an empty name and a name that is there already are passed over.
abbrev pub is_named : String → List ListenerState → Bool
is_named name = any (λ l. str_eq l.config.name name)

unfoldable pub add_listeners : List ListenerConfig → List ListenerState → List ListenerState
add_listeners [] ls = ls
add_listeners (c ∷ cs) ls = add_listeners cs (
    if str_eq c.name "" || is_named c.name ls
    then ls
    else ls
      ++ (record {
        config = c;
        sem = if ltb_ℤ (pos 0) c.concurrency then some (new_semaphore c.concurrency) else none;
      }
          ∷ []))

abbrev at_least_one : ℤ → ℤ
at_least_one n = if leb_ℤ n (pos 0) then pos 1 else n

unfoldable pub new_worker : WorkerConfig → Worker
unfolding add_listeners
new_worker c =
    let c' : WorkerConfig = record c {
      batch_size = at_least_one c.batch_size;
      global_concurrency = at_least_one c.global_concurrency;
    } in
    record {
      config = c';
      global = new_semaphore c'.global_concurrency;
      listeners = add_listeners c.listeners [];
      in_flight = [];
      tracked = [];
      stopping = false;
      pending = [];
      held = [];
    }

-- The counts of `inFlight`: `w.inFlight[id]++`, and `finish`.
unfoldable pub count_up : ℕ → List (ℕ × ℕ) → List (ℕ × ℕ)
count_up i [] = (i, 1) ∷ []
count_up i ((j, n) ∷ m) = if j == i then (j, suc n) ∷ m else (j, n) ∷ count_up i m

unfoldable pub finish_count : ℕ → List (ℕ × ℕ) → List (ℕ × ℕ)
finish_count i [] = []
finish_count i ((j, n) ∷ m) =
    if j == i then (if leb n 1 then m else (j, n - 1) ∷ m) else (j, n) ∷ finish_count i m

-- `InFlight`.
unfoldable pub in_flight_total : List (ℕ × ℕ) → ℕ
in_flight_total [] = 0
in_flight_total ((j, n) ∷ m) = n + in_flight_total m

-- `track`, which refuses once the drain has begun, and the removal of `untrack`, whose other call is `finish`.
unfoldable pub track : Event → Worker → Option Worker
track ev w = if w.stopping then none else some (record w { tracked = w.tracked ++ (ev ∷ []) })

unfoldable pub remove_first : ℕ → List Event → List Event
remove_first i [] = []
remove_first i (e ∷ es) = if e.id == i then es else e ∷ remove_first i es

-- The queues of a batch.
unfoldable pub queue_of : String → Queues → List Event
queue_of name [] = []
queue_of name ((n, es) ∷ qs) = if str_eq n name then es else queue_of name qs

unfoldable pub push_queue : String → Event → Queues → Queues
push_queue name ev [] = (name, ev ∷ []) ∷ []
push_queue name ev ((n, es) ∷ qs) =
    if str_eq n name then (n, es ++ (ev ∷ [])) ∷ qs else (n, es) ∷ push_queue name ev qs

unfoldable pub set_queue : String → List Event → Queues → Queues
set_queue name es [] = []
set_queue name es ((n, old) ∷ qs) =
    if str_eq n name then (n, es) ∷ qs else (n, old) ∷ set_queue name es qs

abbrev pub all_queued : Queues → List Event
all_queued [] = []
all_queued ((n, es) ∷ qs) = es ++ all_queued qs

unfoldable pub all_queues_empty : Queues → Bool
all_queues_empty [] = true
all_queues_empty ((n, []) ∷ qs) = all_queues_empty qs
all_queues_empty ((n, e ∷ es) ∷ qs) = false

-- The held map.
unfoldable pub held_since : ℕ → List (ℕ × ℤ) → Option ℤ
held_since i [] = none
held_since i ((j, t) ∷ m) = if j == i then some t else held_since i m

unfoldable pub unhold : ℕ → List (ℕ × ℤ) → List (ℕ × ℤ)
unhold i [] = []
unhold i ((j, t) ∷ m) = if j == i then m else (j, t) ∷ unhold i m

unfoldable pub release_hold : Event → Worker → Worker
unfolding unhold
release_hold ev w = record w { held = unhold ev.id w.held }
