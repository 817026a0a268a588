-- ===== src/Cli/EventsRetry.antt =====
-- internal/cli/eventsretry.go: the loop that retries a listener's rows batch by batch.
pub mod Drains
use pg_noty.Base.{
  ℕ, zero, suc, Bool, true, false, List, [], ◌∷◌, ◌==◌, ℤ, pos, Result, ok, err, Option, none, some,
  String,
}
use pg_noty.Source.Store.{Store}
use pg_noty.Source.Transition.{Error, TriggerSource, Database}
use pg_noty.Source.Sweep.{QueueSelector, StatusName, validate_for_retry, retry_batch}

abbrev pub retry_batch_limit : ℤ
retry_batch_limit = pos 1000

pub data LoopEnd : Type 0 where
  drained cancelled out_of_fuel : LoopEnd
  failed : Error → LoopEnd

-- What the command leaves: the store, the counts that it printed, and how it ended.
pub record Report : Type 0 where
  pub store : Store
  pub printed : List ℕ
  pub end : LoopEnd

abbrev pub printing : ℕ → Report → Report
printing n r = record r { printed = n ∷ r.printed }

-- The server at each call, and whether the command's context is done after it.
module _ (src : TriggerSource) (s : QueueSelector) (dbs : ℕ → Database) (done : ℕ → Bool) where
  unfoldable pub retry_loop : ℕ → ℕ → Store → Report
  retry_loop zero k st = record { store = st; printed = []; end = out_of_fuel }
  retry_loop (suc fuel) k st = elim (retry_batch src (dbs k) s retry_batch_limit st) [
    | err e ↦ record { store = st; printed = []; end = failed e }
    | ok (n, st') ↦ elim (n == 0) [
      | true ↦ record { store = st'; printed = []; end = drained }
      | false ↦ elim (done k) [
        | true ↦ record { store = st'; printed = n ∷ []; end = cancelled }
        | false ↦ printing n (retry_loop fuel (suc k) st')
      ]
    ]
  ]

-- `retrySelector`: the flags as a selector that the source accepts.
unfoldable pub retry_selector : Option ℕ → String → StatusName → Result Error QueueSelector
retry_selector id listener status =
    let selector : QueueSelector = record { id = id; listener = listener; status = status } in
    elim (validate_for_retry selector) [ err e ↦ err e | ok _ ↦ ok selector ]
