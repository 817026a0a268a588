-- ===== src/Schema/Repair/Steps.antt =====
-- internal/schema/repair.go: what each step of a drain gives, if no other session commits in between.

use pg_noty.Base.{
  ℕ, ◌≡◌, refl, sym, ap, ◌∙◌, subst, true, not, ◌==◌, some, List, [], ◌∷◌, ◌++◌, map, append-nil,
  append_assoc, arith, keep, any, All, length, Text, Result, ok, guard, ◌>>=◌, then_ok, bind_ok,
  ok_inv,
}
use pg_noty.Source.Store.{Row, Logged}
use pg_noty.Schema.Partition.{Range}
use pg_noty.Schema.Maintain.{Partition, Table}
use pg_noty.Schema.Maintain.Create.{is_taken, created}
use pg_noty.Schema.Maintain.Drop.{within}
use pg_noty.Schema.Repair.{
  EventLog, DrainError, statement_failed, miscounted, still_referenced, not_logged, range_taken,
  rows_in_default, DrainWeather, statement, logged_within, refers_to, lifted_queue, lifted_events,
  create_marked, route, insert_event, insert_events, put_back_events, is_logged, put_back_queue,
}

abbrev pub named_rows : Text → List Logged → List (Text × Logged)
named_rows name = map (λ e. (name, e))

pub insert_events-named :
    (instance_id : Text) (p : Partition) (ts : List Table) (es : List Logged) (log : EventLog)
    → All (λ e. logged_within p.extent e ≡ true) es
    → log.tables ≡ created instance_id p ∷ ts
    → insert_events es log ≡ record log { in_bounded = log.in_bounded ++ named_rows p.name es }
unfolding insert_events route
insert_events-named instance_id p ts [] log h k =
    ap (λ b. record log { in_bounded = b }) (sym (append-nil log.in_bounded))
insert_events-named instance_id p ts (e ∷ es) log h k =
    let there : route e.occurred_at log.tables ≡ some p.name =
      ap (route e.occurred_at) k ∙ ground arith in
    let now : insert_event e log ≡ record log { in_bounded = log.in_bounded ++ (p.name, e) ∷ [] } =
      rw (insert_event, there) refl in
    ap (insert_events es) now
    ∙ (insert_events-named instance_id p ts es
          (record log { in_bounded = log.in_bounded ++ (p.name, e) ∷ [] }) h.1 k
        ∙ ap (λ b. record log { in_bounded = b })
            (append_assoc log.in_bounded ((p.name, e) ∷ []) (named_rows p.name es)))

module _ (w : DrainWeather) (quiet : (n : ℕ) (l : EventLog) → w.others n l ≡ l) where
  pub statement_inv :
      {A : Type 0} (n : ℕ) (log : EventLog) (k : EventLog → Result DrainError A) (a : A)
      → (statement w n log >>= k) ≡ ok a
      → k log ≡ ok a
  statement_inv n log k a h =
      let (l, e, f) = bind_ok (statement w n log) k a h in
      let (_, g) = then_ok (guard (not (w.fails n)) statement_failed) (ok (w.others n log)) l e in
      let same : l ≡ log = ok_inv _ refl (sym g) ∙ quiet n log in subst (λ x. k x ≡ ok a) same f

  pub lifted_queue_lem :
      (r : Range) (log : EventLog) (out : EventLog × List Row)
      → lifted_queue w r log ≡ ok out
      → out ≡ (
        record log { queue = keep (λ row. not (within r row)) log.queue },
        keep (within r) log.queue,
      )
  unfolding lifted_queue
  lifted_queue_lem r log out h =
      let h₁ = statement_inv 2 log _ out h in
      let h₂ = statement_inv 3 log _ out h₁ in
      let (_, h₃) =
        then_ok
          (guard (length (keep (within r) log.queue) == length (keep (within r) log.queue))
            miscounted)
          _ out h₂ in
      ok_inv _ h₃ refl

  pub lifted_events_lem :
      (r : Range) (log : EventLog) (out : EventLog × List Logged)
      → lifted_events w r log ≡ ok out
      → out ≡ (
        record log { in_default = keep (λ e. not (logged_within r e)) log.in_default },
        keep (logged_within r) log.in_default,
      )
  unfolding lifted_events
  lifted_events_lem r log out h =
      let h₁ = statement_inv 4 log _ out h in
      let h₂ = statement_inv 5 log _ out h₁ in
      let removed = keep (logged_within r) log.in_default in
      let (_, h₃) =
        then_ok
          (guard (not (any (λ e. any (λ row. refers_to row e) log.queue) removed)) still_referenced)
          _ out h₂ in
      let (_, h₄) = then_ok (guard (length removed == length removed) miscounted) _ out h₃ in
      ok_inv _ h₄ refl

  statement_done : (n : ℕ) (log out : EventLog) → statement w n log ≡ ok out → out ≡ log
  statement_done n log out h =
      let (_, g) = then_ok (guard (not (w.fails n)) statement_failed) (ok (w.others n log)) out h in
      ok_inv _ refl (sym g) ∙ quiet n log

  pub create_marked_lem :
      (instance_id : Text) (p : Partition) (log out : EventLog)
      → create_marked w instance_id p log ≡ ok out
      → out ≡ record log { tables = created instance_id p ∷ log.tables }
  unfolding create_marked
  create_marked_lem instance_id p log out h =
      let h₁ = statement_inv 6 log _ out h in
      let (_, h₂) = then_ok (guard (not (is_taken p log.tables)) range_taken) _ out h₁ in
      let (_, h₃) =
        then_ok (guard (not (any (logged_within p.extent) log.in_default)) rows_in_default) _ out
          h₂ in
      statement_done 7 (record log { tables = created instance_id p ∷ log.tables }) out h₃

  pub put_back_events_lem :
      (held : List Logged) (lifted : ℕ) (log out : EventLog)
      → put_back_events w held lifted log ≡ ok out
      → out ≡ insert_events held log
  unfolding put_back_events
  put_back_events_lem held lifted log out h =
      let h₁ = statement_inv 8 log _ out h in
      let (_, h₂) = then_ok (guard (length held == lifted) miscounted) _ out h₁ in
      statement_done 9 (insert_events held log) out h₂

  pub put_back_queue_lem :
      (held : List Row) (lifted : ℕ) (log out : EventLog)
      → put_back_queue w held lifted log ≡ ok out
      → out ≡ record log { queue = log.queue ++ held }
  unfolding put_back_queue
  put_back_queue_lem held lifted log out h =
      let h₁ = statement_inv 10 log _ out h in
      let (_, h₂) =
        then_ok (guard (not (any (λ row. not (is_logged log row)) held)) not_logged) _ out h₁ in
      let (_, h₃) = then_ok (guard (length held == lifted) miscounted) _ out h₂ in
      statement_done 11 (record log { queue = log.queue ++ held }) out h₃
