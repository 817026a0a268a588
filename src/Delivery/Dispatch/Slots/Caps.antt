-- ===== src/Delivery/Dispatch/Slots/Caps.antt =====
-- internal/delivery/worker.go and dispatch.go: the caps of a worker hold in every state it reaches.
use pg_noty.Base.{Bool, Option, ℕ, ◌≤◌, none, some, List, [], All}
use pg_noty.Delivery.Semaphore.{Semaphore}
use pg_noty.Delivery.Worker.{WorkerConfig, new_worker}
use pg_noty.Source.Store.{Event}
use pg_noty.Delivery.Dispatch.{activity}
use pg_noty.Delivery.Dispatch.Slots.{Thread, System, owing, of_any, of_listener}

-- A worker that has just been built.
abbrev pub idle : WorkerConfig → System
idle c = record { worker = new_worker c; threads = [] }

-- The deliveries that run, of the events that pass a test: the goroutines that are in the drain's activity.
abbrev pub deliveries : List Thread → (Event → Bool) → ℕ
deliveries ts p = owing ts activity p

-- A semaphore that is not nil has room for so many.
abbrev pub HasRoom : ℕ → Option Semaphore → Type 0
HasRoom n none = Unit
HasRoom n (some s) = n ≤ s.capacity

-- No more deliveries run than the global cap allows, and for each listener no more than its own.
abbrev pub Capped : System → Type 0
Capped s =
    (deliveries s.threads of_any ≤ s.worker.global.capacity)
    × All (λ l. HasRoom (deliveries s.threads (of_listener l.config.name)) l.sem) s.worker.listeners
