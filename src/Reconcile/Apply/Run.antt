-- ===== src/Reconcile/Apply/Run.antt =====
-- internal/reconcile/applytx.go: a run does exactly the statements of its objects in their order, or
-- fails, and the transaction around it keeps all of them or none.
use pg_noty.Base.{
  refl, inl, inr, Bool, true, false, List, [], ◌∷◌, if◌then◌else◌, Text, ok, Result-cases,
}
use pg_noty.Schema.Identifier.{Quoter}
use pg_noty.Reconcile.DdlText.{TargetReading, server_error, drop_trigger_text, drop_function_text}
use pg_noty.Reconcile.Apply.{
  ApplyObject, ApplyGroup, ApplyTx, Reply, lock_refusal, change, drop_object, apply_drops,
  create_all, apply_creates, apply_group, apply_groups, apply, grouped_apply_objects,
}
use pg_noty.Reconcile.Apply.Statements.{
  all_creates, drop_statements, all_drops, group_statements, groups_statements, apply_statements,
  Reply-cases, play,
}
use pg_noty.Reconcile.Apply.Refinement.{
  Refines, nothing-Refines, and_then-Refines, with_text-Refines, refused,
}

module _ {D : Type 0} (execute : Text → D → Reply D) where
  module _ (q : Quoter) where
    change-Refines :
        (target : TargetReading) (statement : Text) (run : ApplyTx D)
        → Refines execute run (ok (statement ∷ [])) (change q execute target statement run)
    unfolding change play
    change-Refines target statement run = elim (Reply-cases (execute statement run.database)) [
      | inl (d, e) ↦ inl (statement ∷ [], d, refl, rw e refl, rw (change, e) refl)
      | inr (inl e) ↦
          inr (server_error, rw (change, e) refl, refused execute statement run (rw e refl))
      | inr (inr (b, e)) ↦ inr (
        lock_refusal q execute target b,
        rw (change, e) refl,
        refused execute statement run (rw e refl),
      )
    ]

    create_all-Refines :
        (target : TargetReading) (statements : List Text) (run : ApplyTx D)
        → Refines execute run (ok statements) (create_all q execute target statements run)
    unfolding create_all
    create_all-Refines target [] run = nothing-Refines execute run
    create_all-Refines target (statement ∷ statements) run =
        and_then-Refines execute run (ok (statement ∷ [])) (ok statements)
          (change q execute target statement run) (create_all q execute target statements)
          (change-Refines target statement run) (create_all-Refines target statements)

    apply_creates-Refines :
        (target : TargetReading) (objects : List ApplyObject) (run : ApplyTx D)
        → Refines execute run
            (ok (all_creates objects))
            (apply_creates q execute target objects run)
    unfolding apply_creates
    apply_creates-Refines target [] run = nothing-Refines execute run
    apply_creates-Refines target (object ∷ objects) run =
        and_then-Refines execute run (ok object.creates) (ok (all_creates objects))
          (create_all q execute target object.creates run) (apply_creates q execute target objects)
          (create_all-Refines target object.creates run) (apply_creates-Refines target objects)

    drop_object-Refines :
        (object : ApplyObject) (run : ApplyTx D)
        → Refines execute run (drop_statements q object) (drop_object q execute object run)
    unfolding drop_object
    drop_object-Refines object run =
        with_text-Refines execute run (drop_trigger_text q object.target object.trigger_name) _ _
          λ trigger.
            and_then-Refines execute run (ok (trigger ∷ [])) _
              (change q execute object.target trigger run) _
              (change-Refines object.target trigger run)
              λ after.
                with_text-Refines execute after
                  (drop_function_text q object.service_schema object.function_name) _ _
                  (λ function. change-Refines object.target function after)

    drop_if-Refines :
        (object : ApplyObject) (run : ApplyTx D) (b : Bool)
        → Refines execute run
            (if b then drop_statements q object else ok [])
            (if b then drop_object q execute object run else (run, ok tt))
    drop_if-Refines object run true = drop_object-Refines object run
    drop_if-Refines object run false = nothing-Refines execute run

    apply_drops-Refines :
        (objects : List ApplyObject) (run : ApplyTx D)
        → Refines execute run (all_drops q objects) (apply_drops q execute objects run)
    unfolding apply_drops
    apply_drops-Refines [] run = nothing-Refines execute run
    apply_drops-Refines (object ∷ objects) run =
        and_then-Refines execute run (if object.drop then drop_statements q object else ok [])
          (all_drops q objects) _ (apply_drops q execute objects)
          (drop_if-Refines object run object.drop) (apply_drops-Refines objects)

    apply_groups-Refines :
        (gs : List ApplyGroup) (run : ApplyTx D)
        → Refines execute run (groups_statements q gs) (apply_groups q execute gs run)
    unfolding apply_groups apply_group
    apply_groups-Refines [] run = nothing-Refines execute run
    apply_groups-Refines (g ∷ gs) run =
        and_then-Refines execute run (group_statements q g) (groups_statements q gs) _
          (apply_groups q execute gs)
          (and_then-Refines execute run (all_drops q g.objects) (ok (all_creates g.objects))
            (apply_drops q execute g.objects run) (apply_creates q execute g.target g.objects)
            (apply_drops-Refines g.objects run) (apply_creates-Refines g.target g.objects))
          (apply_groups-Refines gs)

    pub apply-Refines :
        (objects : List ApplyObject) (run : ApplyTx D)
        → Refines execute run (apply_statements q objects) (apply q execute objects run)
    unfolding apply apply_statements
    apply-Refines objects run = elim (Result-cases (grouped_apply_objects q objects)) [
      | inl (gs, e) ↦ rw (apply, e) (apply_groups-Refines gs run)
      | inr (f, e) ↦ rw (apply, e) (inr (f, refl, λ st k. absurd (cc)))
    ]
