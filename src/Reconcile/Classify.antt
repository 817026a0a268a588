-- ===== src/Reconcile/Classify.antt =====
-- internal/reconcile/classify.go and targetresolve.go: what is to be done for one pair of a listener
-- and an operation.
pub mod Matrix
use pg_noty.Base.{
  ℕ, ◌≡◌, refl, Bool, true, false, not, ◌&&◌, ◌||◌, Option, none, some, List, [], ◌∷◌, ◌++◌,
  if◌then◌else◌, Text, codes, text_eq, is_empty,
}
use pg_noty.Reconcile.Ownership.{RegistryRow, CatalogObject, determine_ownership}
use pg_noty.Reconcile.Plan.{
  ActionKind, create, replace, drop, rename, disable, Pair, Action, Refusal, ownership_refusal,
}

pub data TargetOutcome : Type 0 where
  unresolved new_target healthy renamed dropped dropped_and_recreated : TargetOutcome

pub record TargetState : Type 0 where
  pub recorded : Bool
  pub oid : Bool
  pub named : Bool
  pub same_name : Bool

unfoldable pub classify_target : TargetState → TargetOutcome
classify_target s =
    if not s.recorded && s.named
    then new_target
    else if s.oid && s.same_name
    then healthy
    else if s.oid
    then renamed
    else if s.named
    then dropped_and_recreated
    else dropped

pub record TargetResolution : Type 0 where
  pub outcome : TargetOutcome
  pub refusal : Option Refusal

pub record DesiredPair : Type 0 where
  pub pair : Pair
  pub listener_present : Bool
  pub operation_present : Bool
  pub enabled : Bool
  pub specification_changed : Bool
  pub specification_known : Bool
  pub spec_hash : Text

-- The fields of registryListener and registryTrigger that classification reads.
pub record RegistryTrigger : Type 0 where
  pub trigger_name : Text
  pub function_name : Text
  pub ddl_hash : Text

pub record RecordedPair : Type 0 where
  pub pair : Pair
  pub listener_present : Bool
  pub trigger_present : Bool
  pub listener_spec_hash : Text
  pub trigger : RegistryTrigger

pub record Reading : Type 0 where
  pub marker : Option Text
  pub definition : Text

pub record ObservedPair : Type 0 where
  pub pair : Pair
  pub trigger_present : Bool
  pub function_present : Bool
  pub trigger : Reading
  pub function : Reading

pub record PairSources : Type 0 where
  pub desired : DesiredPair
  pub recorded : RecordedPair
  pub observed : ObservedPair
  pub target : TargetResolution
  pub instance_id : Text

pub record PairClassification : Type 0 where
  pub action : Option Action
  pub refusal : Option Refusal
  pub retain_listener : Bool

abbrev pub is_converged : PairClassification
is_converged = record { action = none; refusal = none; retain_listener = false }

abbrev pub refused : Refusal → PairClassification
refused r = record { action = none; refusal = some r; retain_listener = false }

abbrev pub classified_action : Pair → ActionKind → Bool → PairClassification
classified_action p kind retain = record {
  action = some (record { pair = p; kind = kind });
  refusal = none;
  retain_listener = retain;
}

abbrev pub observed_any : PairSources → Bool
observed_any s = s.observed.trigger_present || s.observed.function_present

abbrev pub observed_complete : PairSources → Bool
observed_complete s = s.observed.trigger_present && s.observed.function_present

-- `pairSources.pair`.
abbrev pub pair_of : PairSources → Pair
pair_of s =
    if not (is_empty s.desired.pair.listener)
    then s.desired.pair
    else if not (is_empty s.recorded.pair.listener)
    then s.recorded.pair
    else s.observed.pair

abbrev pub object_identity : Text → Text → PairSources → Text
object_identity kind name s =
    let p = pair_of s in
    let name' = if is_empty name then p.listener ++ (47 ∷ p.operation) else name in
    kind ++ (32 ∷ name')

abbrev pub ownership_row : RecordedPair → RegistryRow
ownership_row r = record {
  present = r.trigger_present;
  listener = r.pair.listener;
  operation = r.pair.operation;
}

abbrev pub trigger_object : PairSources → CatalogObject
trigger_object s = record {
  kind = codes "trigger";
  identity = object_identity (codes "trigger") s.recorded.trigger.trigger_name s;
  marker = s.observed.trigger.marker;
}

abbrev pub function_object : PairSources → CatalogObject
function_object s = record {
  kind = codes "function";
  identity = object_identity (codes "function") s.recorded.trigger.function_name s;
  marker = s.observed.function.marker;
}

abbrev pub foreign : PairSources → CatalogObject → Bool
foreign s object = not (determine_ownership (ownership_row s.recorded) object s.instance_id).owned

abbrev pub refusal_of : CatalogObject → Option Refusal
refusal_of object = some (ownership_refusal object.identity object.marker)

unfoldable pub observed_ownership_refusal : PairSources → Option Refusal
unfolding determine_ownership
observed_ownership_refusal s =
    if s.observed.trigger_present && foreign s (trigger_object s)
    then refusal_of (trigger_object s)
    else if s.observed.function_present && foreign s (function_object s)
    then refusal_of (function_object s)
    else none

abbrev pub nothing_there : PairSources → Bool
nothing_there s = not s.recorded.trigger_present && not (observed_any s)

unfoldable pub classify_removed_listener : PairSources → PairClassification
classify_removed_listener s =
    if nothing_there s
    then (if s.recorded.listener_present
        then classified_action (pair_of s) drop false
        else is_converged)
    else classified_action (pair_of s) drop false

unfoldable pub classify_removed_operation : PairSources → PairClassification
classify_removed_operation s =
    if nothing_there s then is_converged else classified_action (pair_of s) drop true

unfoldable pub classify_disabled : PairSources → PairClassification
classify_disabled s =
    if nothing_there s then is_converged else classified_action (pair_of s) disable true

abbrev pub is_recreated : TargetOutcome → Bool
is_recreated dropped_and_recreated = true
is_recreated _ = false

abbrev pub is_renamed : TargetOutcome → Bool
is_renamed renamed = true
is_renamed _ = false

-- `fingerprint` is the hash of a trigger's and a function's definition.
module _ (fingerprint : Text → Text → Text) where
  abbrev pub drifted : PairSources → Bool
  drifted s = not (
      text_eq (fingerprint s.observed.trigger.definition s.observed.function.definition)
        s.recorded.trigger.ddl_hash)

  unfoldable pub classify_managed_pair : PairSources → PairClassification
  classify_managed_pair s =
      if is_recreated s.target.outcome
      then classified_action (pair_of s) replace true
      else if not s.recorded.trigger_present || not (observed_complete s)
      then classified_action (pair_of s) create true
      else if is_renamed s.target.outcome
      then classified_action (pair_of s) rename true
      else if s.desired.specification_changed || drifted s
      then classified_action (pair_of s) replace true
      else is_converged

  unfoldable pub classify_pair : PairSources → PairClassification
  unfolding classify_removed_listener classify_removed_operation classify_disabled
      classify_managed_pair
  classify_pair s = elim s.target.refusal [
    | some r ↦ refused r
    | none ↦ elim (observed_ownership_refusal s) [
      | some r ↦ refused r
      | none ↦
          if not s.desired.listener_present
          then classify_removed_listener s
          else if not s.desired.operation_present
          then classify_removed_operation s
          else if not s.desired.enabled
          then classify_disabled s
          else classify_managed_pair s
    ]
  ]
