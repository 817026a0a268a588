-- ===== src/Tests/Plans.antt =====
-- internal/reconcile: a listener with a new operation beside one that was removed.
use pg_noty.Base.{
  ◌≡◌, ◌++◌, true, false, not, ◌&&◌, ◌||◌, none, [], ◌∷◌, codes, Text, if◌then◌else◌,
}
use pg_noty.Reconcile.Plan.{Pair}
use pg_noty.Reconcile.Classify.{PairSources, classify_pair, healthy}
use pg_noty.Reconcile.Classify.Matrix.{
  is_some, destructive_action, wanted, trespass, at_rest_wanted, at_rest_unwanted,
  classify_pair_lem,
}
use pg_noty.Reconcile.Diff.{DiffInput, no_sources, diff, classifications}
use pg_noty.Reconcile.Diff.Laws.{Says, refusals_in, actions_in, diff_lem}

abbrev hash : Text → Text → Text
hash t f = t ++ f

abbrev inserts : Pair
inserts = record { listener = codes "orders"; operation = codes "insert" }

abbrev fresh : PairSources
fresh = record no_sources {
  desired = record {
    pair = inserts;
    listener_present = true;
    operation_present = true;
    enabled = true;
    specification_changed = false;
    specification_known = true;
    spec_hash = codes "h";
  };
  instance_id = codes "main";
}

classify_pair_lem_example :
    (is_some (classify_pair hash fresh).refusal ≡ (is_some fresh.target.refusal || trespass fresh))
    × (is_some (classify_pair hash fresh).action ≡ (
        not (is_some fresh.target.refusal || trespass fresh)
        && not (if wanted fresh then at_rest_wanted hash fresh else at_rest_unwanted fresh)))
    × (destructive_action (classify_pair hash fresh).action
        ≡ (is_some (classify_pair hash fresh).action && not (wanted fresh)))
classify_pair_lem_example = classify_pair_lem hash fresh

abbrev input : DiffInput
input = record {
  desired = fresh.desired ∷ [];
  recorded =
      record (no_sources.recorded) {
        pair = record { listener = codes "users"; operation = codes "delete" };
        trigger_present = true;
      }
      ∷ [];
  observed = [];
  listeners =
      record {
        name = codes "orders";
        spec_hash = codes "h";
        enabled = true;
        specification_known = true;
        changed_operations = λ o. false;
      }
      ∷ [];
  targets = (codes "orders", record { outcome = healthy; refusal = none }) ∷ [];
  instance_id = codes "main";
}

diff_lem_example :
    Says
      (refusals_in (classifications hash input))
      (actions_in (classifications hash input))
      (diff hash input)
diff_lem_example = diff_lem hash input
