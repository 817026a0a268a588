-- ===== src/Tests/Retrying.antt =====
-- internal/source/queueretry.go and internal/cli/eventsretry.go at concrete rows.
use pg_noty.Base.{ℕ, ◌≡◌, refl, ◌≤◌, false, none, some, [], ◌∷◌, pos, ok, codes, arith}
use pg_noty.Schema.Identifier.{why_unusable}
use pg_noty.Source.Store.{Store, Row, dead}
use pg_noty.Source.Store.Tables.{Distinct}
use pg_noty.Source.Transition.{Database, ensure_usable, qualified_service_table}
use pg_noty.Source.Sweep.{QueueSelector, of_status, retry_batch, validate_for_retry}
use pg_noty.Cli.EventsRetry.{retry_loop, drained}
use pg_noty.Cli.EventsRetry.Drains.{Calm, total, remaining, retry_loop_drains}
use pg_noty.Tests.Settling.{src, db, waiting_row}

abbrev dead_row : ℕ → Row
dead_row i = record (waiting_row i 40) {
  status = dead;
  attempts = 5;
  dead_reason = some (codes "HTTP status 404");
}

abbrev dead_rows : Store
dead_rows = record { queue = dead_row 1 ∷ dead_row 2 ∷ []; events = []; deliveries = [] }

dead_rows-Distinct : Distinct dead_rows.queue
dead_rows-Distinct = ((λ h. absurd (cc), tt), (tt, tt))

abbrev all_dead : QueueSelector
all_dead = record { id = none; listener = "orders"; status = of_status dead }

abbrev free_db : Database
free_db = record db { locked = λ i. false }

abbrev one_back : Store
one_back = record dead_rows { queue = waiting_row 1 100 ∷ dead_row 2 ∷ [] }

retried_so : retry_batch src free_db all_dead (pos 1) dead_rows ≡ ok (1, one_back)
unfolding retry_batch why_unusable
retried_so = refl

free_db-Calm : Calm src all_dead (λ k. free_db)
unfolding ensure_usable qualified_service_table validate_for_retry why_unusable
free_db-Calm = record {
  usable = refl;
  named = refl;
  valid = refl;
  begins = λ k. refl;
  runs = λ k. refl;
  commits = λ k. refl;
  free = λ k i. refl;
  onward = λ k. omega arith;
}

retry_loop_drains_example :
    let r = retry_loop src all_dead (λ _. free_db) (λ _. false) 3 0 dead_rows in
    (r.end ≡ drained)
    × (total r.printed ≤ remaining free_db all_dead dead_rows)
    × ((j : ℕ) × (remaining free_db all_dead r.store ≡ 0))
retry_loop_drains_example =
    retry_loop_drains src all_dead (λ _. free_db) 3 dead_rows free_db-Calm dead_rows-Distinct
      (omega arith)
