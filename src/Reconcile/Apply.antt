-- ===== src/Reconcile/Apply.antt =====
-- internal/reconcile/applytx.go: the one transaction of an apply, and the statements on each target's
-- objects in it.
pub mod Ascending
pub mod Order
pub mod Statements
pub mod Refinement
pub mod Run
pub mod Transaction
use pg_noty.Base.{
  ℕ, suc, zero, ◌+◌, ◌/◌, Bool, Option, none, some, List, [], ◌∷◌, ◌++◌, if◌then◌else◌, ltb, ℤ, pos,
  negsuc, max, Text, codes, text_eq, text_le, decimal, sort_by, Result, ok, err, ◌>>=◌,
}
use pg_noty.Schema.Identifier.{Quoter}
use pg_noty.Reconcile.DdlText.{
  TargetReading, ApplyError, table_lock_timeout, server_error, ddl_qualified, table_name,
  drop_trigger_text, drop_function_text,
}

pub record ApplyObject : Type 0 where
  pub target : TargetReading
  pub service_schema : Text
  pub trigger_name : Text
  pub function_name : Text
  pub drop : Bool
  pub creates : List Text

pub record ApplyGroup : Type 0 where
  pub name : Text
  pub target : TargetReading
  pub objects : List ApplyObject

-- The server's answer to a statement: the database after it, a lock that was not got in time (55P03) with
-- what was seen of the blocker, or another error.
pub data Reply (D : Type 0) : Type 0 where
  done : D → Reply D
  lock_timed_out : Text → Reply D
  failed : Reply D

-- `applyTx`, with the database as its transaction sees it and what was given to `record`.
pub record ApplyTx (D : Type 0) : Type 0 where
  pub database : D
  pub recorded : List Text
  pub changes : ℕ

abbrev pub Outcome : Type 0 → Type 0
Outcome D = ApplyTx D × Result ApplyError (Unit {0})

-- `if err = ...; err == nil`.
abbrev pub and_then : {D : Type 0} → Outcome D → (ApplyTx D → Outcome D) → Outcome D
and_then (run, ok _) next = next run
and_then (run, err e) next = (run, err e)

abbrev pub with_text :
    {D : Type 0} → Result ApplyError Text → ApplyTx D → (Text → Outcome D) → Outcome D
with_text (ok text) run next = next text
with_text (err e) run next = (run, err e)

-- `byTarget` as an association list: the object goes to the end of its target's group.
unfoldable pub add_object : Text → ApplyObject → List ApplyGroup → List ApplyGroup
add_object name object [] =
    record { name = name; target = object.target; objects = object ∷ [] } ∷ []
add_object name object (g ∷ gs) =
    if text_eq g.name name
    then record g { objects = g.objects ++ (object ∷ []) } ∷ gs
    else g ∷ add_object name object gs

abbrev pub group_le : ApplyGroup → ApplyGroup → Bool
group_le a b = text_le a.name b.name

-- `bound.Milliseconds()`, in nanoseconds; no bound means the default.
abbrev pub apply_lock_timeout : ℕ
apply_lock_timeout = 3_000_000_000

unfoldable pub lock_timeout_milliseconds : ℤ → ℕ
lock_timeout_milliseconds (pos zero) = apply_lock_timeout / 1_000_000
lock_timeout_milliseconds (pos (suc n)) = max 1 (suc n / 1_000_000)
lock_timeout_milliseconds (negsuc n) = apply_lock_timeout / 1_000_000

unfoldable pub apply_lock_timeout_statement : ℤ → Text
unfolding lock_timeout_milliseconds
apply_lock_timeout_statement bound =
    codes "SET LOCAL lock_timeout = " ++ decimal (pos (lock_timeout_milliseconds bound))

abbrev pub catalog_search_path_pin : Text
catalog_search_path_pin = codes "SET LOCAL search_path = ''"

module _ (q : Quoter) where
  unfoldable pub collect_groups :
      List ApplyObject → List ApplyGroup → Result ApplyError (List ApplyGroup)
  unfolding ddl_qualified add_object
  collect_groups [] gs = ok gs
  collect_groups (object ∷ objects) gs =
      table_name q object.target >>= λ name. collect_groups objects (add_object name object gs)

  unfoldable pub grouped_apply_objects : List ApplyObject → Result ApplyError (List ApplyGroup)
  unfolding collect_groups
  grouped_apply_objects objects = collect_groups objects [] >>= λ gs. ok (sort_by group_le gs)

  -- `execute` is the server, what other sessions do included.
  module _ {D : Type 0} (execute : Text → D → Reply D) where
    abbrev pub recording : Text → ApplyTx D → ApplyTx D
    recording statement run = record run { recorded = run.recorded ++ (statement ∷ []) }

    unfoldable pub local : Text → ApplyTx D → Outcome D
    local statement run = elim (execute statement run.database) [
      | done d ↦ (record (recording statement run) { database = d }, ok tt)
      | lock_timed_out _ ↦ (recording statement run, err server_error)
      | failed ↦ (recording statement run, err server_error)
    ]

    unfoldable pub lock_refusal : TargetReading → Text → ApplyError
    unfolding ddl_qualified
    lock_refusal target blocker = elim (table_name q target) [
      | ok table ↦ table_lock_timeout table blocker
      | err e ↦ e
    ]

    unfoldable pub change : TargetReading → Text → ApplyTx D → Outcome D
    unfolding lock_refusal
    change target statement run = elim (execute statement run.database) [
      | done d ↦
          (record (recording statement run) { database = d; changes = run.changes + 1 }, ok tt)
      | lock_timed_out blocker ↦ (recording statement run, err (lock_refusal target blocker))
      | failed ↦ (recording statement run, err server_error)
    ]

    unfoldable pub drop_object : ApplyObject → ApplyTx D → Outcome D
    unfolding drop_trigger_text drop_function_text change
    drop_object object run =
        with_text (drop_trigger_text q object.target object.trigger_name) run λ trigger.
          and_then (change object.target trigger run) λ after.
            with_text (drop_function_text q object.service_schema object.function_name) after
              (λ function. change object.target function after)

    unfoldable pub apply_drops : List ApplyObject → ApplyTx D → Outcome D
    unfolding drop_object
    apply_drops [] run = (run, ok tt)
    apply_drops (object ∷ objects) run =
        and_then (if object.drop then drop_object object run else (run, ok tt))
          λ after. apply_drops objects after

    unfoldable pub create_all : TargetReading → List Text → ApplyTx D → Outcome D
    unfolding change
    create_all target [] run = (run, ok tt)
    create_all target (statement ∷ statements) run =
        and_then (change target statement run) λ after. create_all target statements after

    unfoldable pub apply_creates : TargetReading → List ApplyObject → ApplyTx D → Outcome D
    unfolding create_all
    apply_creates target [] run = (run, ok tt)
    apply_creates target (object ∷ objects) run =
        and_then (create_all target object.creates run) λ after. apply_creates target objects after

    unfoldable pub apply_group : ApplyGroup → ApplyTx D → Outcome D
    unfolding apply_drops apply_creates
    apply_group g run =
        and_then (apply_drops g.objects run) λ after. apply_creates g.target g.objects after

    unfoldable pub apply_groups : List ApplyGroup → ApplyTx D → Outcome D
    unfolding apply_group
    apply_groups [] run = (run, ok tt)
    apply_groups (g ∷ gs) run = and_then (apply_group g run) λ after. apply_groups gs after

    unfoldable pub apply : List ApplyObject → ApplyTx D → Outcome D
    unfolding grouped_apply_objects apply_groups
    apply objects run = elim (grouped_apply_objects objects) [
      | ok gs ↦ apply_groups gs run
      | err e ↦ (run, err e)
    ]

    -- The end of a transaction; `database` is the one that others see after it.
    abbrev pub rolled_back : D → Outcome D → Outcome D
    rolled_back before (run, result) = (record run { database = before }, result)

    unfoldable pub ended : Bool → D → Outcome D → Outcome D
    ended commits before (run, ok _) =
        if commits then (run, ok tt) else rolled_back before (run, err server_error)
    ended commits before (run, err e) = rolled_back before (run, err e)

    unfoldable pub apply_in_transaction_with_timeout :
        ℤ → Bool → Bool → (ApplyTx D → Outcome D) → D → Outcome D
    unfolding local apply_lock_timeout_statement ended
    apply_in_transaction_with_timeout bound begins commits work before =
        let run : ApplyTx D = record { database = before; recorded = []; changes = 0 } in
        let worked : Outcome D = and_then (local catalog_search_path_pin run) λ pinned.
          and_then (local (apply_lock_timeout_statement bound) pinned) λ limited. work limited in
        if begins then ended commits before worked else (run, err server_error)
