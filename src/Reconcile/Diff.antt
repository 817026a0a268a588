-- ===== src/Reconcile/Diff.antt =====
-- internal/reconcile/diff.go: the plan for all pairs that the configuration, the registry or the catalog
-- names.
pub mod Laws
use pg_noty.Base.{
  ℕ, Bool, true, false, not, ◌&&◌, ◌||◌, Option, none, some, List, [], ◌∷◌, ◌++◌, map,
  if◌then◌else◌, length, Text, text_eq, sort_by,
}
use pg_noty.Reconcile.Plan.{
  Pair, Action, Refusal, PlanResult, Verdict, clean, changes_pending, error, pair_le,
  ordered_actions,
}
use pg_noty.Reconcile.Classify.{
  TargetResolution, unresolved, DesiredPair, RecordedPair, ObservedPair, Reading, RegistryTrigger,
  PairSources, PairClassification, classify_pair,
}

pub record DesiredListener : Type 0 where
  pub name : Text
  pub spec_hash : Text
  pub enabled : Bool
  pub specification_known : Bool
  pub changed_operations : Text → Bool

pub record DiffInput : Type 0 where
  pub desired : List DesiredPair
  pub recorded : List RecordedPair
  pub observed : List ObservedPair
  pub listeners : List DesiredListener
  pub targets : List (Text × TargetResolution)
  pub instance_id : Text

-- Go's zero values.
abbrev pub no_pair : Pair
no_pair = record { listener = []; operation = [] }

abbrev pub no_reading : Reading
no_reading = record { marker = none; definition = [] }

abbrev pub no_resolution : TargetResolution
no_resolution = record { outcome = unresolved; refusal = none }

abbrev pub no_sources : PairSources
no_sources = record {
  desired = record {
    pair = no_pair;
    listener_present = false;
    operation_present = false;
    enabled = false;
    specification_changed = false;
    specification_known = false;
    spec_hash = [];
  };
  recorded = record {
    pair = no_pair;
    listener_present = false;
    trigger_present = false;
    listener_spec_hash = [];
    trigger = record { trigger_name = []; function_name = []; ddl_hash = [] };
  };
  observed = record {
    pair = no_pair;
    trigger_present = false;
    function_present = false;
    trigger = no_reading;
    function = no_reading;
  };
  target = no_resolution;
  instance_id = [];
}

abbrev pub pair_eq : Pair → Pair → Bool
pair_eq a b = text_eq a.listener b.listener && text_eq a.operation b.operation

-- The map of sources by pair; `update` is a read of an entry, or of the zero value, and its write back.
abbrev pub Sources : Type 0
Sources = List (Pair × PairSources)

unfoldable pub sources_of : Pair → Sources → PairSources
sources_of p [] = no_sources
sources_of p ((q, s) ∷ m) = if pair_eq q p then s else sources_of p m

unfoldable pub update : Pair → (PairSources → PairSources) → Sources → Sources
update p f [] = (p, f no_sources) ∷ []
update p f ((q, s) ∷ m) = if pair_eq q p then (q, f s) ∷ m else (q, s) ∷ update p f m

unfoldable pub add_desired : List DesiredPair → Sources → Sources
unfolding update
add_desired [] m = m
add_desired (d ∷ ds) m = add_desired ds (update d.pair (λ s. record s { desired = d }) m)

unfoldable pub add_recorded : List RecordedPair → Sources → Sources
unfolding update
add_recorded [] m = m
add_recorded (r ∷ rs) m = add_recorded rs (update r.pair (λ s. record s { recorded = r }) m)

unfoldable pub add_observed : List ObservedPair → Sources → Sources
unfolding update
add_observed [] m = m
add_observed (o ∷ os) m = add_observed os (update o.pair (λ s. record s { observed = o }) m)

-- `byName`, in which the last listener of a name is the one that counts.
unfoldable pub listener_named : Text → List DesiredListener → Option DesiredListener
listener_named n [] = none
listener_named n (l ∷ ls) = elim (listener_named n ls) [
  | some k ↦ some k
  | none ↦ if text_eq l.name n then some l else none
]

abbrev pub with_listener : Pair → Option DesiredListener → PairSources → PairSources
with_listener p none s = s
with_listener p (some l) s = record s {
  desired = record (s.desired) {
    listener_present = true;
    enabled = l.enabled;
    spec_hash = l.spec_hash;
    specification_changed = l.changed_operations p.operation;
    specification_known = l.specification_known;
    pair = p;
  };
}

unfoldable pub apply_desired_listeners : List DesiredListener → Sources → Sources
unfolding listener_named
apply_desired_listeners ls [] = []
apply_desired_listeners ls ((p, s) ∷ m) =
    (p, with_listener p (listener_named p.listener ls) s) ∷ apply_desired_listeners ls m

unfoldable pub collect_pair_sources : DiffInput → Sources
unfolding add_desired add_recorded add_observed apply_desired_listeners
collect_pair_sources i =
    apply_desired_listeners i.listeners
      (add_observed i.observed (add_recorded i.recorded (add_desired i.desired [])))

unfoldable pub ordered_pairs : Sources → List Pair
ordered_pairs m = sort_by pair_le (map (λ e. e.0) m)

unfoldable pub short_circuit_specification_comparison : PairSources → PairSources
short_circuit_specification_comparison s = if s.desired.specification_known then s else record s {
  desired = record (s.desired) {
    specification_changed =
        s.recorded.listener_present
        && not (text_eq s.desired.spec_hash s.recorded.listener_spec_hash);
  };
}

unfoldable pub target_of : Text → List (Text × TargetResolution) → TargetResolution
target_of n [] = no_resolution
target_of n ((m, t) ∷ ts) = if text_eq m n then t else target_of n ts

unfoldable pub prepared_pair_source : DiffInput → Sources → Pair → PairSources
unfolding short_circuit_specification_comparison target_of sources_of
prepared_pair_source i m p = short_circuit_specification_comparison (record (sources_of p m) {
  instance_id = i.instance_id;
  target = target_of p.listener i.targets;
})

abbrev pub option_list {ℓ} : {A : Type ℓ} → Option A → List A
option_list none = []
option_list (some a) = a ∷ []

unfoldable pub append_classification : PairClassification → PlanResult → PlanResult
append_classification c p = elim c.refusal [
  | some r ↦ record p { refusals = p.refusals ++ (r ∷ []) }
  | none ↦ record p { actions = p.actions ++ option_list c.action }
]

unfoldable pub finalise_diff : PlanResult → PlanResult
unfolding ordered_actions
finalise_diff p = elim p.refusals [
  | _ ∷ _ ↦ record p { actions = []; verdict = error }
  | [] ↦ record p {
    actions = ordered_actions p.actions;
    verdict = elim (ordered_actions p.actions) [ [] ↦ clean | _ ∷ _ ↦ changes_pending ];
  }
]

abbrev pub append_all : List PairClassification → PlanResult → PlanResult
append_all [] p = p
append_all (c ∷ cs) p = append_all cs (append_classification c p)

-- The verdict of a plan is not set before the end.
abbrev pub no_plan : ℕ → PlanResult
no_plan n = record { actions = []; examined = n; refusals = []; verdict = error }

module _ (fingerprint : Text → Text → Text) where
  abbrev pub classifications : DiffInput → List PairClassification
  classifications i =
      let m = collect_pair_sources i in
      map (λ p. classify_pair fingerprint (prepared_pair_source i m p)) (ordered_pairs m)

  unfoldable pub diff : DiffInput → PlanResult
  unfolding collect_pair_sources ordered_pairs prepared_pair_source finalise_diff
      append_classification
  diff i =
      finalise_diff
        (append_all (classifications i) (no_plan (length (ordered_pairs (collect_pair_sources i)))))
