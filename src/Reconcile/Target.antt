-- ===== src/Reconcile/Target.antt =====
-- internal/reconcile/targetresolve.go: which table of the catalog a listener is about, from the name that
-- is configured and the name and the OID that are recorded.
pub mod Kept
use pg_noty.Base.{
  ◌≡◌, ℕ, Bool, true, false, not, ◌&&◌, ◌==◌, Option, none, some, [], if◌then◌else◌, Text, text_eq,
  codes, Result, ok, err, ◌>>=◌,
}
use pg_noty.Schema.Identifier.{Quoter, qualified}
use pg_noty.Reconcile.DdlText.{TargetReading, ApplyError, or_fault}
use pg_noty.Reconcile.Classify.{
  TargetOutcome, new_target, dropped, dropped_and_recreated, TargetState, classify_target,
}
use pg_noty.Reconcile.Registry.{RegistryListener}

pub data TargetRefusal : Type 0 where
  dropped_target : Text → Text → TargetRefusal
  retargeted_listener : Text → Text → Text → TargetRefusal

pub record Resolution : Type 0 where
  pub outcome : TargetOutcome
  pub target : TargetReading
  pub refusal : Option TargetRefusal

abbrev pub Lookup : Type 0
Lookup = Result ApplyError (Option TargetReading)

-- The reads of the catalog. A table that is found by its OID has it.
pub record Catalog : Type 0 where
  pub resolve_target : Text → Lookup
  pub resolve_target_oid : ℕ → Lookup
  pub oid_of_found : (n : ℕ) (r : TargetReading) → resolve_target_oid n ≡ ok (some r) → r.oid ≡ n

abbrev no_target : TargetReading
no_target = record { oid = 0; schema = []; table = [] }

abbrev pub is_found : Option TargetReading → Bool
is_found none = false
is_found (some _) = true

abbrev pub reading_of : Option TargetReading → TargetReading
reading_of none = no_target
reading_of (some r) = r

abbrev pub dropped_resolution : Text → Text → Resolution
dropped_resolution listener table = record {
  outcome = dropped;
  target = no_target;
  refusal = some (dropped_target listener table);
}

abbrev pub is_dropped : TargetOutcome → Bool
is_dropped dropped = true
is_dropped _ = false

abbrev pub is_adopted : TargetOutcome → Bool
is_adopted dropped_and_recreated = true
is_adopted _ = false

abbrev state : Bool → Bool → Bool → Bool → TargetState
state recorded oid named same_name = record {
  recorded = recorded;
  oid = oid;
  named = named;
  same_name = same_name;
}

unfoldable pub resolved_new_target : Text → Text → Option TargetReading → Resolution
unfolding classify_target
resolved_new_target listener name found =
    let outcome = classify_target (state false false (is_found found) false) in
    if is_dropped outcome
    then dropped_resolution listener name
    else record { outcome = outcome; target = reading_of found; refusal = none }

unfoldable pub resolved_recorded_target :
    Text → Text → Option TargetReading → Option TargetReading → TargetOutcome → Resolution
resolved_recorded_target listener name by_oid by_name outcome =
    if is_dropped outcome
    then dropped_resolution listener name
    else if is_adopted outcome
    then record { outcome = outcome; target = reading_of by_name; refusal = none }
    else record { outcome = outcome; target = reading_of by_oid; refusal = none }

module _ (q : Quoter) (catalog : Catalog) where
  unfoldable pub target_has_recorded_name : Option TargetReading → Text → Result ApplyError Bool
  target_has_recorded_name none recorded = ok false
  target_has_recorded_name (some reading) recorded =
      or_fault (codes "catalog target") reading.table (qualified q reading.schema reading.table)
      >>= λ name. ok (text_eq name recorded)

  -- The third lookup, where the configured name is spelled otherwise than the recorded one.
  abbrev pub by_configured_name : Text → Text → Option TargetReading → Lookup
  by_configured_name name recorded by_name =
      if not (text_eq name recorded) then catalog.resolve_target name else ok by_name

  abbrev pub is_moved : Option TargetReading → ℕ → Bool
  is_moved none oid = false
  is_moved (some r) oid = not (r.oid == oid)

  abbrev pub retargeted : Text → Text → Text → Resolution
  retargeted listener recorded name = record {
    outcome = dropped;
    target = no_target;
    refusal = some (retargeted_listener listener recorded name);
  }

  -- The decision, once the three lookups are made.
  unfoldable pub resolved_from :
      Text
      → Text
      → RegistryListener
      → Option TargetReading
      → Option TargetReading
      → Option TargetReading
      → Result ApplyError Resolution
  unfolding classify_target target_has_recorded_name resolved_recorded_target
  resolved_from listener name prior by_oid by_name by_configured =
      if is_found by_oid && is_moved by_configured prior.target_oid
      then ok (retargeted listener prior.target_table name)
      else (target_has_recorded_name by_oid prior.target_table >>= λ same_name. ok (
          resolved_recorded_target listener prior.target_table by_oid by_name
            (classify_target (state true (is_found by_oid) (is_found by_name) same_name))))

  unfoldable pub resolve_recorded : Text → Text → RegistryListener → Result ApplyError Resolution
  unfolding resolved_from
  resolve_recorded listener name prior = catalog.resolve_target_oid prior.target_oid >>= λ by_oid.
      catalog.resolve_target prior.target_table >>= λ by_name.
      by_configured_name name prior.target_table by_name >>= λ by_configured.
      resolved_from listener name prior by_oid by_name by_configured

  -- The listener by its name and its configured table.
  unfoldable pub resolve_listener_target :
      Text → Text → Option RegistryListener → Result ApplyError Resolution
  unfolding resolved_new_target resolve_recorded
  resolve_listener_target listener name none =
      catalog.resolve_target name >>= λ found. ok (resolved_new_target listener name found)
  resolve_listener_target listener name (some prior) = resolve_recorded listener name prior
