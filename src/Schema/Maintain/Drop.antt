-- ===== src/Schema/Maintain/Drop.antt =====
-- internal/schema/retention.go and retentiondrop.go: the drop of the partitions that expired.
use pg_noty.Base.{
  ℕ, ◌-◌, Bool, true, false, not, ◌&&◌, ◌==◌, Option, none, some, List, [], ◌∷◌, map, if◌then◌else◌,
  ltb_ℤ, leb_ℤ, ℤ, keep, any, length, Text, Result, ok, err, ◌>>=◌, ◌>>◌, guard,
}
use pg_noty.Source.Store.{Row, is_dead}
use pg_noty.Schema.Partition.{Range}
use pg_noty.Schema.Maintain.{
  Partition, Table, Database, Retention, plan_maintenance, Weather, Settled, PassError,
  server_error, unmarked, unattached, referenced, nameable, is_named, ranges_not_yet_observed,
  observe_partitions, count_changed, concede, refuse,
}
use pg_noty.Schema.Maintain.Mark.{marker_reading_of, partition_marker_suffix, refusal_for_marker}

-- The comment of the table of a name; no table has none.
unfoldable pub comment_on : Text → List Table → Option Text
comment_on name [] = none
comment_on name (t ∷ ts) = if is_named name t then t.comment else comment_on name ts

abbrev pub is_partition_of : Text → List Table → Bool
is_partition_of name = any (λ t. is_named name t && t.attached)

abbrev pub within : Range → Row → Bool
within r row = leb_ℤ r.from row.occurred_at && ltb_ℤ row.occurred_at r.to

unfoldable pub reap_dead_rows : Range → List Row → List Row
reap_dead_rows r queue = keep (λ row. not (is_dead row && within r row)) queue

-- The foreign key from the queue to the event log: the server refuses a detach while a row of the queue
-- is in the extent of the partition of the name.
abbrev pub is_referenced : Text → Database → Bool
is_referenced name db =
    any (λ t. is_named name t && any (within t.partition.extent) db.queue) db.tables

-- The statements of one drop, after the lock. An error rolls all of them back.
unfoldable pub drop_within_one_transaction :
    Text → Partition → Database → Result PassError (Database × ℕ)
unfolding marker_reading_of refusal_for_marker comment_on reap_dead_rows
drop_within_one_transaction instance_id p db = do
  refusal_for_marker
      (marker_reading_of partition_marker_suffix (comment_on p.name db.tables) instance_id)
  guard (is_partition_of p.name db.tables) unattached
  let queue = reap_dead_rows p.extent db.queue
  let reaped = length db.queue - length queue
  guard (not (is_referenced p.name (record db { queue = queue }))) referenced
  ok (record { tables = keep (λ t. not (is_named p.name t)) db.tables; queue = queue }, reaped)

unfoldable pub drop_one : Text → Text → Partition → Weather → Database → Result PassError Database
unfolding drop_within_one_transaction
drop_one schema instance_id p w db = do
  nameable schema
  nameable p.name
  guard (not w.lost) server_error
  dropped ← drop_within_one_transaction instance_id p db
  guard (not w.commit_lost) server_error
  ok dropped.0

abbrev pub reads_as_already_gone : PassError → Bool
reads_as_already_gone e = elim e [ unmarked ↦ true | _ ↦ false ]

abbrev pub no_longer_covered : Partition → Weather → Database → Bool
no_longer_covered p w db =
    not w.unreadable_after
    && (length (ranges_not_yet_observed (p ∷ []) (observe_partitions db)) == 1)

-- The loop of `dropExpired`, with the weather of each step.
unfoldable pub drop_expired : Text → Text → List (Partition × Weather) → Database → Settled
drop_expired schema instance_id [] db = record {
  changed = 0;
  conceded = [];
  refused = [];
  database = db;
}
drop_expired schema instance_id ((p, w) ∷ steps) db =
    let now = w.meanwhile db in
    elim (drop_one schema instance_id p w now) [
      | ok after ↦ count_changed (drop_expired schema instance_id steps after)
      | err e ↦
          let rest = drop_expired schema instance_id steps now in
          if reads_as_already_gone e && no_longer_covered p w now
          then concede p rest
          else refuse p rest
    ]

-- `ApplyRetention`: a pass that cannot read the partitions does nothing.
unfoldable pub apply_retention :
    ℤ → Retention → Text → Text → Bool → (Partition → Weather) → Database → Option Settled
unfolding drop_expired plan_maintenance
apply_retention now cfg schema instance_id readable weather db =
    let plan = plan_maintenance now cfg (observe_partitions db) in
    if readable
    then some (drop_expired schema instance_id (map (λ p. (p, weather p)) plan.drop) db)
    else none
