-- ===== src/Schema/Repair/Moved.antt =====
-- internal/schema/repair.go: a drain moves the rows of its range, and no row of the log or of the queue is lost.
use mathlib.Core.List.{Perm, perm_append_comm}
use mathlib.Core.List.Perm
use pg_noty.Base.{
  ℕ, ◌+◌, ◌≡◌, refl, sym, ap, ◌∙◌, subst, not, List, [], ◌∷◌, ◌++◌, map, append_assoc, keep, length,
  Text, ok, guard, bind_known, keep-All, keep-perm, keep-length, then_ok, bind_ok, ok_inv,
}
use pg_noty.Source.Store.{Row, Logged}
use pg_noty.Schema.Partition.{Range}
use pg_noty.Schema.Maintain.{Partition}
use pg_noty.Schema.Maintain.Create.{created}
use pg_noty.Schema.Maintain.Drop.{within}
use pg_noty.Schema.Repair.{
  EventLog, statement_failed, RepairResult, DrainWeather, logged_within, why_unrepairable,
  refuse_unrepairable, drain_for, lifted_queue, lifted_events, create_marked, put_back_events,
  put_back_queue, through, repair_default_partition,
}
use pg_noty.Schema.Repair.Steps.{
  named_rows, insert_events-named, statement_inv, lifted_queue_lem, lifted_events_lem,
  create_marked_lem, put_back_events_lem, put_back_queue_lem,
}

module _ (w : DrainWeather) (quiet : (n : ℕ) (l : EventLog) → w.others n l ≡ l) where
  -- The log after the drain, and what the drain tells.
  module _ (instance_id : Text) (p : Partition) (log : EventLog) where
    abbrev pub leaving : List Logged
    leaving = keep (logged_within p.extent) log.in_default

    abbrev pub staying : List Logged
    staying = keep (λ e. not (logged_within p.extent e)) log.in_default

    abbrev pub traveling : List Row
    traveling = keep (within p.extent) log.queue

    abbrev pub drained : EventLog
    drained = record {
      tables = created instance_id p ∷ log.tables;
      default = log.default;
      in_default = staying;
      in_bounded = log.in_bounded ++ named_rows p.name leaving;
      queue = keep (λ row. not (within p.extent row)) log.queue ++ traveling;
    }

    abbrev pub told : RepairResult
    told = record {
      partition = p.name;
      moved = length leaving;
      queue_moved = length traveling;
      default_rows_before = length log.in_default;
      default_rows_after = length staying;
    }

    through_lem :
        (out : EventLog × RepairResult)
        → through w instance_id p log ≡ ok out
        → out ≡ (drained, told)
    unfolding through
    through_lem out h =
        let h₁ = statement_inv w quiet 0 log _ out h in
        let (_, h₂) = then_ok (refuse_unrepairable (why_unrepairable p log)) _ out h₁ in
        let h₃ = statement_inv w quiet 1 log _ out h₂ in
        let h₄ =
          bind_known (lifted_queue w p.extent log) _ _ out (lifted_queue_lem w quiet p.extent log)
            h₃ in
        let lifted = record log { queue = keep (λ row. not (within p.extent row)) log.queue } in
        let h₅ =
          bind_known (lifted_events w p.extent lifted) _ _ out
            (lifted_events_lem w quiet p.extent lifted) h₄ in
        let cleared = record lifted { in_default = staying } in
        let h₆ =
          bind_known (create_marked w instance_id p cleared) _ _ out
            (create_marked_lem w quiet instance_id p cleared) h₅ in
        let given = record cleared { tables = created instance_id p ∷ log.tables } in
        let h₇ =
          bind_known (put_back_events w leaving (length leaving) given) _ _ out
            (λ a e.
              put_back_events_lem w quiet leaving (length leaving) given a e
              ∙ insert_events-named instance_id p log.tables leaving given
                  (keep-All (logged_within p.extent) log.in_default) refl)
            h₆ in
        let logged = record given { in_bounded = log.in_bounded ++ named_rows p.name leaving } in
        let h₈ =
          bind_known (put_back_queue w traveling (length traveling) logged) _ _ out
            (put_back_queue_lem w quiet traveling (length traveling) logged) h₇ in
        let h₉ = statement_inv w quiet 12 drained _ out h₈ in ok_inv _ h₉ refl

rows_of-append :
    (name : Text) (rows : List (Text × Logged)) (es : List Logged)
    → map (λ e. e.1) (rows ++ named_rows name es) ≡ map (λ e. e.1) rows ++ es
rows_of-append name [] [] = refl
rows_of-append name [] (e ∷ es) = ap (λ t. e ∷ t) (rows_of-append name [] es)
rows_of-append name (row ∷ rows) es = ap (λ t. row.1 ∷ t) (rows_of-append name rows es)

all_logged-perm :
    (r : Range) (name : Text) (in_default : List Logged) (in_bounded : List (Text × Logged))
    → Perm
        (keep (λ e. not (logged_within r e)) in_default
          ++ map (λ e. e.1) (in_bounded ++ named_rows name (keep (logged_within r) in_default)))
        (in_default ++ map (λ e. e.1) in_bounded)
all_logged-perm r name in_default in_bounded =
    let stay = keep (λ e. not (logged_within r e)) in_default in
    let leave = keep (logged_within r) in_default in
    let rest = map (λ (e : Text × Logged). e.1) in_bounded in
    subst (λ t. Perm (stay ++ t) (in_default ++ rest)) (sym (rows_of-append name in_bounded leave))
      (Perm.trans (Perm.append_left stay (perm_append_comm rest leave)) (
        subst (λ t. Perm t (in_default ++ rest)) (append_assoc stay leave rest)
          (Perm.append_right rest (keep-perm (logged_within r) in_default))))

abbrev pub all_logged : EventLog → List Logged
all_logged log = log.in_default ++ map (λ e. e.1) log.in_bounded

abbrev pub Moves : Text → Partition → EventLog → EventLog × RepairResult → Type 0
Moves instance_id p log (log', res) =
    (log'.tables ≡ created instance_id p ∷ log.tables)
    × (log'.in_default ≡ keep (λ e. not (logged_within p.extent e)) log.in_default)
    × (log'.in_bounded
        ≡ log.in_bounded ++ named_rows p.name (keep (logged_within p.extent) log.in_default))
    × Perm log'.queue log.queue
    × Perm (all_logged log') (all_logged log)
    × (res.moved + res.default_rows_after ≡ res.default_rows_before)

-- Where no other session commits in between, a drain that succeeds gives the range its partition, marked as
-- this instance's; the rows of the range are in it and no longer in the default partition; no row of the
-- log or of the queue is lost, added or changed; and the rows that it says have moved are those by which
-- the default partition has become smaller.
pub repair_default_partition_lem :
    (w : DrainWeather) (schema instance_id : Text) (p : Partition) (log : EventLog)
    (out : EventLog × RepairResult)
    → ((n : ℕ) (l : EventLog) → w.others n l ≡ l)
    → repair_default_partition w schema instance_id p log ≡ ok out
    → Moves instance_id p log out
unfolding repair_default_partition
repair_default_partition_lem w schema instance_id p log out quiet h =
    let (_, h₁) = then_ok (drain_for schema p) _ out h in
    let (done, e, h₂) = bind_ok (through w instance_id p log) _ out h₁ in
    let (_, h₃) = then_ok (guard (not (w.fails 13)) statement_failed) _ out h₂ in
    let same = sym (through_lem w quiet instance_id p log done e) ∙ ok_inv (ok done) refl h₃ in
    subst (λ x. Moves instance_id p log x) same
      (
        refl,
        refl,
        refl,
        keep-perm (within p.extent) log.queue,
        all_logged-perm p.extent p.name log.in_default log.in_bounded,
        keep-length (logged_within p.extent) log.in_default,
      )
