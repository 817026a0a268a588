-- ===== src/Tests/Maintaining.antt =====
-- internal/schema: the names of partitions, a pass of maintenance and one of retention.
use pg_noty.Base.{
  ℕ, ◌≡◌, refl, true, false, none, some, List, ◌∷◌, [], pos, negsuc, arith, any, All, length, codes,
  ok, ◌+ℤ◌, ◌-ℤ◌, ◌*ℤ◌,
}
use pg_noty.Schema.Identifier.{why_unusable}
use pg_noty.Schema.Partition.{
  required_ranges, floor_div, unservable_horizon_in, horizon_partition_count,
}
use pg_noty.Source.Store.{Row, Status, pending, dead}
use pg_noty.Schema.Maintain.{
  Partition, Table, Database, Weather, Retention, Settled, named, plan_maintenance,
  observe_partitions,
}
use pg_noty.Schema.Maintain.Drop.{drop_one, apply_retention}
use pg_noty.Schema.Maintain.Create.{created, create_one, maintain}
use pg_noty.Schema.Maintain.Reaping.{Careful, Kept, IsExpired, apply_retention_lem}
use pg_noty.Schema.Maintain.Covering.{in_partition, maintain_covers}
use pg_noty.Schema.Stamp.{bound_stamp, range_name}

stamped : bound_stamp (pos 1709210096123456789) ≡ codes "20240229T123456.123456789Z"
unfolding bound_stamp ◌+ℤ◌
stamped = refl

before_the_epoch : bound_stamp (negsuc 0) ≡ codes "19691231T235959.999999999Z"
unfolding bound_stamp ◌+ℤ◌
before_the_epoch = refl

abbrev at : ℕ → ℕ → Partition
at a b = named (record { from = pos a; to = pos b })

abbrev calm : Weather
calm = record { meanwhile = λ db. db; lost = false; commit_lost = false; unreadable_after = false }

abbrev table : Partition → Table
table p = created (codes "i") p

abbrev row : ℕ → ℕ → Status → Row
row id when status = record {
  event_id = id;
  occurred_at = pos when;
  listener = "l";
  status = status;
  attempts = 1;
  next_attempt_at = pos when;
  leased_until = none;
  leased_by = none;
  dead_reason = none;
}

abbrev cfg : Retention
cfg = record { partition_interval = 1000; precreate = 1500; retain = pos 3000 }

-- The first partition has expired, and holds a dead row; the second is current.
abbrev db : Database
db = record {
  tables = table (at 0 1000) ∷ table (at 4000 5000) ∷ [];
  queue = row 1 10 dead ∷ row 2 4100 dead ∷ row 3 4200 pending ∷ [];
}

abbrev expired_gone : Database
expired_gone = record {
  tables = table (at 4000 5000) ∷ [];
  queue = row 2 4100 dead ∷ row 3 4200 pending ∷ [];
}

dropped_run : drop_one (codes "noty") (codes "i") (at 0 1000) calm db ≡ ok expired_gone
unfolding drop_one why_unusable range_name ◌+ℤ◌
dropped_run = refl

calm-Careful : (ps : List Partition) → Careful ps calm
calm-Careful ps = record { live = λ d. refl; others = λ d. refl; hosts = λ d. refl }

apply_retention_lem_example :
    (s : Settled) × (apply_retention (pos 4500) cfg (codes "noty") (codes "i") true (λ _. calm) db
      ≡ some s)
    × All (IsExpired (pos 4500) cfg) (plan_maintenance (pos 4500) cfg (observe_partitions db)).drop
    × Kept
        (plan_maintenance (pos 4500) cfg (observe_partitions db)).drop
        db
        (length (plan_maintenance (pos 4500) cfg (observe_partitions db)).drop)
        s
apply_retention_lem_example =
    apply_retention_lem (pos 4500) cfg (codes "noty") (codes "i") (λ _. calm) db
      (λ _. calm-Careful (plan_maintenance (pos 4500) cfg (observe_partitions db)).drop)

abbrev after : Settled
after = record {
  changed = 2;
  conceded = [];
  refused = [];
  database = record db { tables = table (at 6000 7000) ∷ table (at 5000 6000) ∷ db.tables };
}

maintained_run :
    maintain (pos 4500) cfg (codes "noty") (codes "i") true (λ _. (false, calm)) db ≡ some after
unfolding maintain create_one why_unusable range_name required_ranges unservable_horizon_in
    horizon_partition_count ◌+ℤ◌ ◌-ℤ◌ observe_partitions ◌*ℤ◌
maintained_run = refl

maintain_covers_example : any (in_partition (pos 6000)) (observe_partitions after.database) ≡ true
unfolding floor_div ◌+ℤ◌ ◌*ℤ◌ ◌-ℤ◌
maintain_covers_example =
    maintain_covers (pos 4500) cfg (codes "noty") (codes "i") (λ _. (false, calm)) db after
      (pos 6000) (λ _ d p h. h) maintained_run refl
      (record { above = omega arith; below = omega arith })
      (record { above = omega arith; below = omega arith })
      (record { above = omega arith; below = omega arith })
      (record { above = omega arith; below = omega arith }) (omega arith) (omega arith)
