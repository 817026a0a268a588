-- ===== src/Tests/Applying.antt =====
-- internal/reconcile/applytx.go: two tables' triggers, on a server that logs what it does.
use pg_noty.Base.{
  ◌≡◌, refl, true, List, [], ◌∷◌, ◌++◌, pos, Text, codes, text_eq, if◌then◌else◌, ok, err,
}
use mathlib.Core.List.Perm
use pg_noty.Schema.Identifier.{model_quoter, quoted, qualified, why_unusable}
use pg_noty.Reconcile.DdlText.{
  table_lock_timeout, ddl_quoted, ddl_qualified, drop_trigger_text, drop_function_text,
}
use pg_noty.Reconcile.Apply.{
  ApplyObject, ApplyGroup, Outcome, Reply, done, lock_timed_out, grouped_apply_objects,
  collect_groups, add_object, local, change, lock_refusal, drop_object, apply_drops, create_all,
  apply_creates, apply_group, apply_groups, apply, apply_in_transaction_with_timeout,
  apply_lock_timeout_statement, lock_timeout_milliseconds, ended,
}
use pg_noty.Reconcile.Apply.Ascending.{Ascending, names}
use pg_noty.Reconcile.Apply.Order.{grouped_apply_objects_order}
use pg_noty.Reconcile.Apply.Statements.{atomic_apply}
use pg_noty.Reconcile.Apply.Transaction.{Implements, apply_in_transaction_lem}

abbrev Log : Type 0
Log = List Text

abbrev server : Text → Log → Reply Log
server statement log =
    if text_eq statement (codes "LOCKED")
    then lock_timed_out (codes "42")
    else done (log ++ (statement ∷ []))

abbrev on_table : Text → List Text → ApplyObject
on_table table creates = record {
  target = record { oid = 7; schema = codes "public"; table = table };
  service_schema = codes "noty";
  trigger_name = codes "t";
  function_name = codes "f";
  drop = true;
  creates = creates;
}

abbrev users : ApplyObject
users = on_table (codes "users") (codes "CREATE" ∷ [])

abbrev orders : ApplyObject
orders = on_table (codes "orders") []

abbrev locked : ApplyObject
locked = on_table (codes "orders") (codes "LOCKED" ∷ [])

abbrev run_of : List ApplyObject → Outcome Log
run_of objects =
    apply_in_transaction_with_timeout model_quoter server (pos 0) true true
      (apply model_quoter server objects) []

-- orders comes before users, though users is given first.
abbrev log_of_both : Log
log_of_both =
    codes "SET LOCAL search_path = ''"
    ∷ codes "SET LOCAL lock_timeout = 3000"
    ∷ codes "DROP TRIGGER \"t\" ON \"public\".\"orders\""
    ∷ codes "DROP FUNCTION \"noty\".\"f\"()"
    ∷ codes "DROP TRIGGER \"t\" ON \"public\".\"users\""
    ∷ codes "DROP FUNCTION \"noty\".\"f\"()"
    ∷ codes "CREATE"
    ∷ []

both_applied :
    run_of (users ∷ orders ∷ [])
    ≡ (record { database = log_of_both; recorded = log_of_both; changes = 5 }, ok tt)
unfolding why_unusable quoted qualified ddl_quoted ddl_qualified drop_trigger_text
    drop_function_text grouped_apply_objects collect_groups add_object local change drop_object
    apply_drops create_all apply_creates apply_group apply_groups apply ended
    lock_timeout_milliseconds apply_lock_timeout_statement apply_in_transaction_with_timeout
both_applied = refl

-- A lock that is not got in time leaves nothing of the run.
lock_lost :
    ((run_of (users ∷ locked ∷ [])).1
      ≡ err (table_lock_timeout (codes "\"public\".\"orders\"") (codes "42")))
    × ((run_of (users ∷ locked ∷ [])).0.database ≡ [])
unfolding why_unusable quoted qualified ddl_quoted ddl_qualified drop_trigger_text
    drop_function_text grouped_apply_objects collect_groups add_object local lock_refusal change
    drop_object apply_drops create_all apply_creates apply_group apply_groups apply ended
    lock_timeout_milliseconds apply_lock_timeout_statement apply_in_transaction_with_timeout
lock_lost = (refl, refl)

apply_in_transaction_lem_example :
    Implements model_quoter server
      (pos 0)
      (atomic_apply server model_quoter (pos 0) true true (users ∷ orders ∷ []) [])
      []
      (run_of (users ∷ orders ∷ []))
apply_in_transaction_lem_example =
    apply_in_transaction_lem model_quoter server (pos 0) true true (users ∷ orders ∷ []) []

abbrev group_of : Text → ApplyObject → ApplyGroup
group_of name object = record { name = name; target = object.target; objects = object ∷ [] }

abbrev groups : List ApplyGroup
groups =
    group_of (codes "\"public\".\"orders\"") orders
    ∷ group_of (codes "\"public\".\"users\"") users
    ∷ []

grouped_both : grouped_apply_objects model_quoter (users ∷ orders ∷ []) ≡ ok groups
unfolding why_unusable qualified ddl_qualified grouped_apply_objects collect_groups add_object
grouped_both = refl

grouped_apply_objects_order_example :
    Ascending groups
    × ((hs : List ApplyGroup) × (grouped_apply_objects model_quoter (orders ∷ users ∷ []) ≡ ok hs)
        × (names hs ≡ names groups))
grouped_apply_objects_order_example =
    grouped_apply_objects_order model_quoter (users ∷ orders ∷ []) (orders ∷ users ∷ [])
      (Perm.swap orders users []) grouped_both
