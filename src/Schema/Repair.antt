-- ===== src/Schema/Repair.antt =====
-- internal/schema/repair.go and repairstatements.go: the drain of a range out of the default partition, in one
-- transaction. A statement sees what others have committed before it, as at READ COMMITTED, so each has
-- its weather. The holding tables are the lists that are passed on.
pub mod Steps
pub mod Moved
use pg_noty.Base.{
  ℕ, Bool, true, false, not, ◌&&◌, ◌||◌, ◌==◌, Option, none, some, List, [], ◌∷◌, ◌++◌,
  if◌then◌else◌, ltb_ℤ, leb_ℤ, ℤ, keep, any, length, Text, codes, text_eq, Result, ok, err, ◌>>=◌,
  ◌>>◌, guard,
}
use pg_noty.Source.Store.{Row, Logged}
use pg_noty.Schema.Identifier.{why_unusable, IdentifierFault}
use pg_noty.Schema.ObjectName.{object_name}
use pg_noty.Schema.Partition.{Range}
use pg_noty.Schema.Maintain.{Partition, Table, eqb_ℤ, partition_default, ranges_not_yet_observed}
use pg_noty.Schema.Maintain.Create.{is_taken, created}
use pg_noty.Schema.Maintain.Drop.{within}

-- What the drain reads and writes: the partitions, the rows of the log in the default partition and, with
-- the name of theirs, in the others, and the queue.
pub record EventLog : Type 0 where
  pub tables : List Table
  pub default : Option Text
  pub in_default : List Logged
  pub in_bounded : List (Text × Logged)
  pub queue : List Row

pub data Unrepairable : Type 0 where
  repairable no_default already_covered : Unrepairable
  other_default : Text → Unrepairable

pub data DrainError : Type 0 where
  no_extent statement_failed miscounted still_referenced not_logged range_taken rows_in_default :
      DrainError
  unusable_name : IdentifierFault → DrainError
  unrepairable : Unrepairable → DrainError

pub record RepairResult : Type 0 where
  pub partition : Text
  pub moved : ℕ
  pub queue_moved : ℕ
  pub default_rows_before : ℕ
  pub default_rows_after : ℕ

-- For each statement what others commit before it, and whether it fails.
pub record DrainWeather : Type 0 where
  pub others : ℕ → EventLog → EventLog
  pub fails : ℕ → Bool

abbrev pub statement : DrainWeather → ℕ → EventLog → Result DrainError EventLog
statement w n log = guard (not (w.fails n)) statement_failed >> ok (w.others n log)

abbrev pub logged_within : Range → Logged → Bool
logged_within r e = leb_ℤ r.from e.occurred_at && ltb_ℤ e.occurred_at r.to

-- The foreign key of the queue.
abbrev pub refers_to : Row → Logged → Bool
refers_to row e = row.event_id == e.id && eqb_ℤ row.occurred_at e.occurred_at

abbrev pub observed : List Table → List Partition
observed [] = []
observed (t ∷ ts) = let rest = observed ts in if t.attached then t.partition ∷ rest else rest

unfoldable pub why_unrepairable : Partition → EventLog → Unrepairable
unfolding ranges_not_yet_observed
why_unrepairable p log = elim log.default [
  | none ↦ no_default
  | some found ↦
      if not (text_eq found partition_default)
      then other_default found
      else if length (ranges_not_yet_observed (p ∷ []) (observed log.tables)) == 0
      then already_covered
      else repairable
]

abbrev pub refuse_unrepairable : Unrepairable → Result DrainError (Unit {0})
refuse_unrepairable repairable = ok tt
refuse_unrepairable why = err (unrepairable why)

abbrev pub usable : Text → Result DrainError (Unit {0})
usable name = elim (why_unusable name) [ ok _ ↦ ok tt | err fault ↦ err (unusable_name fault) ]

abbrev pub all_usable : List Text → Result DrainError (Unit {0})
all_usable [] = ok tt
all_usable (name ∷ names) = usable name >> all_usable names

abbrev pub holding_name : Text → Partition → Text
holding_name relation p = object_name (relation ++ codes "_repair") p.name

-- What can be said of a drain before anything is read.
unfoldable pub drain_for : Text → Partition → Result DrainError (Unit {0})
drain_for schema p = do
  guard (ltb_ℤ p.extent.from p.extent.to) no_extent
  usable schema
  all_usable (
      p.name
      ∷ codes "events"
      ∷ partition_default
      ∷ codes "event_queue"
      ∷ holding_name (codes "events") p
      ∷ holding_name (codes "event_queue") p
      ∷ [])

-- `liftedOut` of the queue: the rows of the range are copied by one statement and removed by another.
unfoldable pub lifted_queue :
    DrainWeather → Range → EventLog → Result DrainError (EventLog × List Row)
lifted_queue w r log = do
  copying ← statement w 2 log
  let held = keep (within r) copying.queue
  removing ← statement w 3 copying
  guard (length (keep (within r) removing.queue) == length held) miscounted
  ok (record removing { queue = keep (λ row. not (within r row)) removing.queue }, held)

unfoldable pub lifted_events :
    DrainWeather → Range → EventLog → Result DrainError (EventLog × List Logged)
lifted_events w r log = do
  copying ← statement w 4 log
  let held = keep (logged_within r) copying.in_default
  removing ← statement w 5 copying
  let removed = keep (logged_within r) removing.in_default
  guard (not (any (λ e. any (λ row. refers_to row e) removing.queue) removed)) still_referenced
  guard (length removed == length held) miscounted
  ok (
    record removing { in_default = keep (λ e. not (logged_within r e)) removing.in_default },
    held,
  )

-- The server takes no partition for a range with rows in the default one.
unfoldable pub create_marked :
    DrainWeather → Text → Partition → EventLog → Result DrainError EventLog
create_marked w instance_id p log = do
  creating ← statement w 6 log
  guard (not (is_taken p creating.tables)) range_taken
  guard (not (any (logged_within p.extent) creating.in_default)) rows_in_default
  statement w 7 (record creating { tables = created instance_id p ∷ creating.tables })

-- The partition that the server routes a row of the log into.
unfoldable pub route : ℤ → List Table → Option Text
route instant [] = none
route instant (t ∷ ts) =
    let further = route instant ts in
    if t.attached && (leb_ℤ t.partition.extent.from instant && ltb_ℤ instant t.partition.extent.to)
    then some t.partition.name
    else further

unfoldable pub insert_event : Logged → EventLog → EventLog
unfolding route
insert_event e log = elim (route e.occurred_at log.tables) [
  | some name ↦ record log { in_bounded = log.in_bounded ++ (name, e) ∷ [] }
  | none ↦ record log { in_default = log.in_default ++ e ∷ [] }
]

unfoldable pub insert_events : List Logged → EventLog → EventLog
unfolding insert_event
insert_events [] log = log
insert_events (e ∷ es) log = insert_events es (insert_event e log)

-- `putBack`, of the log and of the queue.
unfoldable pub put_back_events :
    DrainWeather → List Logged → ℕ → EventLog → Result DrainError EventLog
unfolding insert_events
put_back_events w held lifted log = do
  restoring ← statement w 8 log
  guard (length held == lifted) miscounted
  statement w 9 (insert_events held restoring)

abbrev pub is_logged : EventLog → Row → Bool
is_logged log row =
    any (refers_to row) log.in_default || any (λ e. refers_to row e.1) log.in_bounded

unfoldable pub put_back_queue : DrainWeather → List Row → ℕ → EventLog → Result DrainError EventLog
put_back_queue w held lifted log = do
  restoring ← statement w 10 log
  guard (not (any (λ row. not (is_logged restoring row)) held)) not_logged
  guard (length held == lifted) miscounted
  statement w 11 (record restoring { queue = restoring.queue ++ held })

unfoldable pub through :
    DrainWeather → Text → Partition → EventLog → Result DrainError (EventLog × RepairResult)
unfolding why_unrepairable lifted_queue lifted_events create_marked put_back_events put_back_queue
through w instance_id p log = do
  found ← statement w 0 log
  refuse_unrepairable (why_unrepairable p found)
  counted ← statement w 1 found
  queued ← lifted_queue w p.extent counted
  events ← lifted_events w p.extent queued.0
  given ← create_marked w instance_id p events.0
  logged ← put_back_events w events.1 (length events.1) given
  whole ← put_back_queue w queued.1 (length queued.1) logged
  after ← statement w 12 whole
  ok (
    after,
    record {
      partition = p.name;
      moved = length events.1;
      queue_moved = length queued.1;
      default_rows_before = length counted.in_default;
      default_rows_after = length after.in_default;
    },
  )

-- A drain that fails leaves the log to the others.
unfoldable pub repair_default_partition :
    DrainWeather → Text → Text → Partition → EventLog → Result DrainError (EventLog × RepairResult)
unfolding drain_for through
repair_default_partition w schema instance_id p log = do
  drain_for schema p
  done ← through w instance_id p log
  guard (not (w.fails 13)) statement_failed
  ok done
