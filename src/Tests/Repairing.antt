-- ===== src/Tests/Repairing.antt =====
-- internal/schema/repair.go at a concrete log: a drain, and one that a settlement runs into.
use pg_noty.Base.{
  ℕ, ◌≡◌, refl, false, none, some, List, ◌∷◌, [], pos, codes, map, ok, err, Result, if◌then◌else◌,
  ◌==◌, ◌>>=◌,
}
use pg_noty.Source.Store.{Row, Status, pending, dead, Logged}
use pg_noty.Schema.Identifier.{why_unusable}
use pg_noty.Schema.ObjectName.{object_name}
use pg_noty.Schema.Maintain.{Partition, partition_default}
use pg_noty.Schema.Maintain.Create.{created}
use pg_noty.Schema.Repair.{
  EventLog, DrainWeather, RepairResult, DrainError, miscounted, repair_default_partition,
}
use pg_noty.Schema.Repair.Moved.{Moves, repair_default_partition_lem}

abbrev range : Partition
range = record { name = codes "p"; extent = record { from = pos 0; to = pos 1000 } }

abbrev event : ℕ → ℕ → Logged
event id when = record {
  id = id;
  listener = "l";
  table_name = codes "t";
  operation = codes "insert";
  payload = codes "{}";
  txid = 1;
  occurred_at = pos when;
}

abbrev queued : ℕ → ℕ → Status → Row
queued id when status = record {
  event_id = id;
  occurred_at = pos when;
  listener = "l";
  status = status;
  attempts = 1;
  next_attempt_at = pos when;
  leased_until = none;
  leased_by = none;
  dead_reason = none;
}

-- The event 1 and its row of the queue are in the range; the event 2 is not.
abbrev stuck : EventLog
stuck = record {
  tables = [];
  default = some partition_default;
  in_default = event 1 10 ∷ event 2 2000 ∷ [];
  in_bounded = [];
  queue = queued 1 10 pending ∷ queued 2 2000 pending ∷ [];
}

abbrev quiet : DrainWeather
quiet = record { others = λ n log. log; fails = λ n. false }

abbrev statuses : Result DrainError (EventLog × RepairResult) → Result DrainError (List Status)
statuses r = r >>= λ out. ok (map (λ row. row.status) out.0.queue)

abbrev drained_log : EventLog
drained_log = record {
  tables = created (codes "i") range ∷ [];
  default = some partition_default;
  in_default = event 2 2000 ∷ [];
  in_bounded = (codes "p", event 1 10) ∷ [];
  queue = queued 2 2000 pending ∷ queued 1 10 pending ∷ [];
}

abbrev counts : RepairResult
counts = record {
  partition = codes "p";
  moved = 1;
  queue_moved = 1;
  default_rows_before = 2;
  default_rows_after = 1;
}

drained_run :
    repair_default_partition quiet (codes "noty") (codes "i") range stuck ≡ ok (drained_log, counts)
unfolding repair_default_partition why_unusable object_name
drained_run = refl

-- Another session changes the queue before the n-th statement.
abbrev interrupted : ℕ → List Row → DrainWeather
interrupted k queue = record {
  others = λ n log. if n == k then record log { queue = queue } else log;
  fails = λ n. false;
}

-- An acknowledgement between the copy of the queue and its removal is seen in the counts.
acknowledged_meanwhile :
    repair_default_partition
      (interrupted 3 (queued 2 2000 pending ∷ []))
      (codes "noty")
      (codes "i")
      range
      stuck
    ≡ err miscounted
unfolding repair_default_partition why_unusable object_name
acknowledged_meanwhile = refl

-- A settlement there that keeps the row is not: the drain succeeds, and the event is pending again.
settled_meanwhile :
    statuses (
      repair_default_partition
        (interrupted 3 (queued 1 10 dead ∷ queued 2 2000 pending ∷ []))
        (codes "noty")
        (codes "i")
        range
        stuck)
    ≡ ok (pending ∷ pending ∷ [])
unfolding repair_default_partition why_unusable object_name
settled_meanwhile = refl

repair_default_partition_lem_example : Moves (codes "i") range stuck (drained_log, counts)
repair_default_partition_lem_example =
    repair_default_partition_lem quiet (codes "noty") (codes "i") range stuck (drained_log, counts)
      (λ n l. refl) drained_run
