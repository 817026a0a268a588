-- ===== src/Source/Sweep.antt =====
-- internal/source/leasereclaim.go, queueretry.go and queueadmin.go: the sweep that returns expired
-- leases to the queue, and the operator's retry.
pub mod Laws
use pg_noty.Base.{
  ℕ, zero, suc, Bool, true, false, not, ◌&&◌, ◌||◌, Option, none, some, List, [], ◌∷◌, map, ◌==◌,
  if◌then◌else◌, leb, leb_ℤ, ltb_ℤ, ℤ, pos, pos_part, any, keep, take, sort_by, String, str_eq,
  Result, ok, err, ◌>>=◌, ◌>>◌, guard,
}
use pg_noty.Source.Store.{
  Row, Store, Status, pending, delivering, dead, is_pending, is_delivering, is_dead,
}
use pg_noty.Source.Store.Tables.{update_rows, count_rows}
use pg_noty.Source.Transition.{
  Error, database_error, retry_limit, unknown_status, no_selector, id_combined,
  listener_without_status, TriggerSource, Database, ensure_usable, qualified_service_table,
  table_event_queue,
}

-- `status='delivering' AND leased_until < now()`; a NULL is not below anything.
abbrev pub is_before : Option ℤ → ℤ → Bool
is_before none now = false
is_before (some t) now = ltb_ℤ t now

abbrev pub expired : Database → Row → Bool
expired db r = is_delivering r && is_before r.leased_until db.now

abbrev pub reclaimed : Row → Row
reclaimed r = record r { status = pending; leased_until = none; leased_by = none }

-- `ReclaimExpired` is one statement: the count is of the rows that it changed.
unfoldable pub reclaim_expired : TriggerSource → Database → Store → Result Error (ℕ × Store)
unfolding ensure_usable qualified_service_table
reclaim_expired src db st = do
  ensure_usable src
  qualified_service_table src.service_schema table_event_queue
  guard (not db.statement_fails) database_error
  ok (
    count_rows (expired db) st.queue,
    record st { queue = update_rows (expired db) reclaimed st.queue },
  )

-- The status of a selector: the texts that `validateStatus` accepts, and every other.
pub data StatusName : Type 0 where
  unset unknown : StatusName
  of_status : Status → StatusName

pub record QueueSelector : Type 0 where
  pub id : Option ℕ
  pub listener : String
  pub status : StatusName

abbrev pub has_id : QueueSelector → Bool
has_id s = elim s.id [ none ↦ false | some _ ↦ true ]

abbrev pub has_listener : QueueSelector → Bool
has_listener s = not (str_eq s.listener "")

abbrev pub has_status : QueueSelector → Bool
has_status s = elim s.status [ unset ↦ false | _ ↦ true ]

unfoldable pub validate_status : StatusName → Result Error (Unit {0})
validate_status unset = ok tt
validate_status (of_status s) = ok tt
validate_status unknown = err unknown_status

unfoldable pub validate_for_retry : QueueSelector → Result Error (Unit {0})
unfolding validate_status
validate_for_retry s = do
  validate_status s.status
  guard (has_id s || (has_status s || has_listener s)) no_selector
  guard (not (has_id s && (has_status s || has_listener s))) id_combined
  guard (has_id s || (has_status s && has_listener s)) listener_without_status

-- `selectorPredicate`: the clauses joined by AND; a part that is not set gives no clause.
abbrev pub same_status : Status → Row → Bool
same_status pending r = is_pending r
same_status delivering r = is_delivering r
same_status dead r = is_dead r

abbrev pub matches_id : Option ℕ → Row → Bool
matches_id none r = true
matches_id (some i) r = r.event_id == i

abbrev pub matches_listener : String → Row → Bool
matches_listener l r = if str_eq l "" then true else str_eq r.listener l

abbrev pub matches_status : StatusName → Row → Bool
matches_status (of_status s) r = same_status s r
matches_status _ r = true

abbrev pub selected : QueueSelector → Row → Bool
selected s r = matches_id s.id r && (matches_listener s.listener r && matches_status s.status r)

abbrev pub is_null : Option (List ℕ) → Bool
is_null none = true
is_null (some _) = false

-- The rows that the statement would leave unchanged.
abbrev pub already_retried : Database → Row → Bool
already_retried db r =
    is_pending r && (r.attempts == 0 && (is_null r.dead_reason && leb_ℤ r.next_attempt_at db.now))

-- The assignments; the lease columns are not among them.
abbrev pub retried : Database → Row → Row
retried db r = record r {
  status = pending;
  attempts = 0;
  next_attempt_at = db.now;
  dead_reason = none;
}

abbrev pub retryable_row : Database → QueueSelector → Row → Bool
retryable_row db s r = selected s r && (not (already_retried db r) && not (db.locked r.event_id))

-- `ORDER BY event_id LIMIT $1`.
abbrev pub id_le : Row → Row → Bool
id_le a b = leb a.event_id b.event_id

abbrev pub batch : Database → QueueSelector → ℕ → List Row → List Row
batch db s limit queue = take limit (sort_by id_le (keep (retryable_row db s) queue))

abbrev pub in_batch : Database → QueueSelector → ℕ → List Row → Row → Bool
in_batch db s limit queue r = any (λ b. b.event_id == r.event_id) (batch db s limit queue)

unfoldable pub retry_batch :
    TriggerSource → Database → QueueSelector → ℤ → Store → Result Error (ℕ × Store)
unfolding ensure_usable validate_for_retry qualified_service_table
retry_batch src db s limit st = do
  ensure_usable src
  guard (not (leb_ℤ limit (pos 0))) retry_limit
  validate_for_retry s
  qualified_service_table src.service_schema table_event_queue
  guard (not db.begin_fails) database_error
  guard (not db.statement_fails) database_error
  guard (not db.commit_fails) database_error
  let chosen = in_batch db s (pos_part limit) st.queue
  ok (count_rows chosen st.queue, record st { queue = update_rows chosen (retried db) st.queue })
