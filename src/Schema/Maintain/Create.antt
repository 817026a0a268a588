-- ===== src/Schema/Maintain/Create.antt =====
-- internal/schema/maintain.go: the creation of the partitions that are missing.
use pg_noty.Base.{
  Bool, true, false, not, ◌&&◌, ◌||◌, ◌==◌, Option, none, some, List, [], ◌∷◌, ◌++◌, map,
  if◌then◌else◌, ltb_ℤ, ℤ, pos, any, length, Text, Result, ok, err, ◌>>◌, guard,
}
use pg_noty.Schema.Partition.{Range, HorizonVerdict, servable, unservable_horizon_in}
use pg_noty.Schema.Maintain.{
  Partition, Table, Database, Retention, plan_maintenance, Weather, Settled, PassError,
  server_error, default_blocked, nameable, is_named, ranges_not_yet_observed, observe_partitions,
  count_changed, concede, refuse,
}
use pg_noty.Schema.Maintain.Mark.{marker_prefix, partition_marker_suffix}

abbrev pub overlaps : Range → Range → Bool
overlaps a b = ltb_ℤ a.from b.to && ltb_ℤ b.from a.to

-- The server takes neither a name that is taken nor a range that overlaps an attached partition.
abbrev pub is_taken : Partition → List Table → Bool
is_taken p = any (λ t. is_named p.name t || (t.attached && overlaps p.extent t.partition.extent))

-- The table that `createOne` makes, with the marker that it claims it by.
abbrev pub created : Text → Partition → Table
created instance_id p = record {
  partition = p;
  attached = true;
  comment = some (marker_prefix ++ (instance_id ++ partition_marker_suffix));
}

-- `blocked` says that rows in the default partition are in the range.
unfoldable pub create_one :
    Text → Text → Partition → Bool → Weather → Database → Result PassError Database
create_one schema instance_id p blocked w db = do
  nameable schema
  nameable p.name
  guard (not w.lost) server_error
  guard (not (is_taken p db.tables)) server_error
  guard (not blocked) default_blocked
  guard (not w.commit_lost) server_error
  ok (record db { tables = created instance_id p ∷ db.tables })

-- `pass.covers`, on what can be read after the error.
abbrev pub covers_after : Partition → Weather → Database → Bool
covers_after p w db =
    not w.unreadable_after
    && (length (ranges_not_yet_observed (p ∷ []) (observe_partitions db)) == 0)

-- The loop of `converge`: each range with whether rows in the default partition block it, and its
-- weather.
unfoldable pub converge : Text → Text → List (Partition × Bool × Weather) → Database → Settled
converge schema instance_id [] db = record {
  changed = 0;
  conceded = [];
  refused = [];
  database = db;
}
converge schema instance_id ((p, blocked, w) ∷ steps) db =
    let now = w.meanwhile db in
    elim (create_one schema instance_id p blocked w now) [
      | ok after ↦ count_changed (converge schema instance_id steps after)
      | err e ↦
          let rest = converge schema instance_id steps now in
          if covers_after p w now then concede p rest else refuse p rest
    ]

abbrev pub is_servable : HorizonVerdict → Bool
is_servable v = elim v [ servable ↦ true | _ ↦ false ]

-- `Maintain`, for a horizon that its precondition passes: a pass that cannot read the partitions does
-- nothing. The weather of a range says too whether rows in the default partition block it.
unfoldable pub maintain :
    ℤ → Retention → Text → Text → Bool → (Partition → Bool × Weather) → Database → Option Settled
unfolding converge plan_maintenance
maintain now cfg schema instance_id readable weather db =
    let plan = plan_maintenance now cfg (observe_partitions db) in
    if not (is_servable (unservable_horizon_in (pos cfg.partition_interval) cfg.precreate))
    then none
    else if readable
    then some
        (converge schema instance_id (map (λ p. (p, (weather p).0, (weather p).1)) plan.create) db)
    else none
