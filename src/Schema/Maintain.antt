-- ===== src/Schema/Maintain.antt =====
-- internal/schema/plan.go, maintain.go, retention.go, retentiondrop.go and ownershipmarker.go: the plan of a
-- pass over the partitions, the creation of those that are missing and the drop of those that expired,
-- as functions on the catalog's tables and the queue. What the server and other replicas do in a step
-- is its weather.
pub mod Converging
pub mod Dropped
pub mod Mark
pub mod Drop
pub mod Create
pub mod Reaping
pub mod Covering
use pg_noty.Base.{
  ℕ, zero, suc, ◌+◌, Bool, true, false, not, ◌&&◌, ◌||◌, Option, none, some, List, [], ◌∷◌, ◌++◌,
  map, if◌then◌else◌, ltb, ltb_ℤ, leb_ℤ, ℤ, negsuc, ◌+ℤ◌, ◌-ℤ◌, keep, any, length, Text, codes,
  text_eq, is_empty, cut_prefix, Result, ok, err, ◌>>=◌, ◌>>◌, guard,
}
use pg_noty.Schema.Identifier.{why_unusable, IdentifierFault}
use pg_noty.Schema.Partition.{Range, required_ranges}
use pg_noty.Schema.Stamp.{range_name}
use pg_noty.Source.Store.{Row, is_dead}

-- A Range of the source with its name.
pub record Partition : Type 0 where
  pub name : Text
  pub extent : Range

abbrev pub eqb_ℤ : ℤ → ℤ → Bool
eqb_ℤ a b = leb_ℤ a b && leb_ℤ b a

abbrev pub same_extent_as : Partition → Partition → Bool
same_extent_as a b = eqb_ℤ a.extent.from b.extent.from && eqb_ℤ a.extent.to b.extent.to

unfoldable pub ranges_not_yet_observed : List Partition → List Partition → List Partition
ranges_not_yet_observed required observed =
    keep (λ wanted. not (any (same_extent_as wanted) observed)) required

abbrev pub partition_default : Text
partition_default = codes "events_default"

-- `time.Time{}`, the first of January of the year 1.
abbrev pub zero_time : ℤ
zero_time = negsuc 62135596799999999999

pub data Undroppable : Type 0 where
  droppable is_the_default has_no_upper_bound : Undroppable

unfoldable pub why_undroppable : Partition → Undroppable
why_undroppable p =
    if text_eq p.name partition_default
    then is_the_default
    else if eqb_ℤ p.extent.to zero_time
    then has_no_upper_bound
    else droppable

abbrev pub is_droppable : Partition → Bool
is_droppable p = elim (why_undroppable p) [ droppable ↦ true | _ ↦ false ]

unfoldable pub retained_by_age : List Partition → List Partition
unfolding why_undroppable
retained_by_age observed = keep is_droppable observed

unfoldable pub expired_ranges : List Partition → ℤ → ℤ → List Partition
expired_ranges observed now retain = keep (λ p. not (ltb_ℤ (now -ℤ retain) p.extent.to)) observed

pub record Retention : Type 0 where
  pub partition_interval : ℕ
  pub precreate : ℕ
  pub retain : ℤ

pub record MaintenancePlan : Type 0 where
  pub create : List Partition
  pub drop : List Partition

abbrev pub named : Range → Partition
named r = record { name = range_name r; extent = r }

unfoldable pub plan_maintenance : ℤ → Retention → List Partition → MaintenancePlan
unfolding ranges_not_yet_observed retained_by_age expired_ranges
plan_maintenance now cfg observed = record {
  create =
      ranges_not_yet_observed (map named (required_ranges now cfg.partition_interval cfg.precreate))
        observed;
  drop = expired_ranges (retained_by_age observed) now cfg.retain;
}

-- A table of the service schema that may be a partition of the event log.
pub record Table : Type 0 where
  pub partition : Partition
  pub attached : Bool
  pub comment : Option Text

pub record Database : Type 0 where
  pub tables : List Table
  pub queue : List Row

abbrev pub is_named : Text → Table → Bool
is_named name t = text_eq t.partition.name name

-- The bounded partitions that a pass observes.
unfoldable pub observe_partitions : Database → List Partition
observe_partitions db = map (λ t. t.partition) (keep (λ t. t.attached) db.tables)

pub data PassError : Type 0 where
  unusable : IdentifierFault → PassError
  server_error : PassError
  unmarked unreadable_marker foreign_marker unattached : PassError
  -- The server's refusals: of a detach while live events are in the partition, and of a range whose
  -- rows are in the default partition.
  referenced default_blocked : PassError

abbrev pub nameable : Text → Result PassError (Unit {0})
nameable name = elim (why_unusable name) [ ok _ ↦ ok tt | err fault ↦ err (unusable fault) ]

-- What happens around one step: other replicas before it, and the server's errors in it. `lost` is an
-- error before its statements, as of the connection or the lock, and `commit_lost` one after them.
pub record Weather : Type 0 where
  pub meanwhile : Database → Database
  pub lost : Bool
  pub commit_lost : Bool
  -- Whether the catalog can be read again after an error.
  pub unreadable_after : Bool

pub data PassOutcome : Type 0 where
  failed work_done nothing_needed : PassOutcome

unfoldable pub outcome_of : ℕ → ℕ → PassOutcome
outcome_of done refused =
    if ltb 0 refused then failed else if ltb 0 done then work_done else nothing_needed

-- The counts of a pass and the database after it.
pub record Settled : Type 0 where
  pub changed : ℕ
  pub conceded : List Partition
  pub refused : List Partition
  pub database : Database

abbrev pub settled_outcome : Settled → PassOutcome
settled_outcome s = outcome_of s.changed (length s.refused)

abbrev pub count_changed : Settled → Settled
count_changed s = record s { changed = s.changed + 1 }

abbrev pub concede : Partition → Settled → Settled
concede p s = record s { conceded = p ∷ s.conceded }

abbrev pub refuse : Partition → Settled → Settled
refuse p s = record s { refused = p ∷ s.refused }
