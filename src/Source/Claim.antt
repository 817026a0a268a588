-- ===== src/Source/Claim.antt =====
-- internal/source/claim.go: a batch of due rows is leased to the caller, in one transaction. The
-- server does not fix the order of `RETURNING`; here it is that of the subquery.
pub mod Effect
pub mod Order
use pg_noty.Base.{
  ℕ, suc, ◌+◌, Bool, true, false, not, ◌&&◌, ◌||◌, Option, none, some, List, [], ◌∷◌, map, ◌==◌,
  if◌then◌else◌, leb, ltb_ℤ, leb_ℤ, ℤ, pos, pos_part, ◌+ℤ◌, any, keep, take, sort_by, Result, ok,
  err, ◌>>=◌, ◌>>◌, guard,
}
use pg_noty.Source.Store.{Row, Logged, Store, Event, delivering, is_pending}
use pg_noty.Source.Store.Tables.{update_rows, find}
use pg_noty.Source.Transition.{
  Error, database_error, TriggerSource, Database, ensure_usable, qualified_service_table,
  table_event_queue, table_events,
}

-- `status='pending' AND next_attempt_at <= now()`, and the row is not locked by another transaction,
-- for `FOR UPDATE SKIP LOCKED` passes over it.
abbrev pub eligible : Database → Row → Bool
eligible db r = is_pending r && (leb_ℤ r.next_attempt_at db.now && not (db.locked r.event_id))

-- `ORDER BY next_attempt_at, event_id`.
abbrev pub claim_le : Row → Row → Bool
claim_le a b =
    ltb_ℤ a.next_attempt_at b.next_attempt_at
    || (leb_ℤ a.next_attempt_at b.next_attempt_at && leb a.event_id b.event_id)

abbrev pub ids_of : List Row → List ℕ
ids_of = map (λ r. r.event_id)

-- The subquery with its `LIMIT`.
abbrev pub chosen_rows : Database → ℕ → List Row → List Row
chosen_rows db n queue = take n (sort_by claim_le (keep (eligible db) queue))

abbrev pub is_chosen : Database → ℕ → List Row → Row → Bool
is_chosen db n queue r = any (λ s. s.event_id == r.event_id) (chosen_rows db n queue)

abbrev pub leased : TriggerSource → Database → Row → Row
leased src db r = record r {
  status = delivering;
  leased_by = some src.leased_by;
  leased_until = some (db.now +ℤ src.lease);
  attempts = suc r.attempts;
}

unfoldable pub lease_rows : TriggerSource → Database → ℕ → List Row → List Row
lease_rows src db n queue = update_rows (is_chosen db n queue) (leased src db) queue

-- `readClaimedEvents`: the join of a claimed queue row with its event, for the given ids in order.
same_event : Row → Logged → Bool
same_event r l =
    l.id == r.event_id && (leb_ℤ l.occurred_at r.occurred_at && leb_ℤ r.occurred_at l.occurred_at)

unfoldable pub find_logged : Row → List Logged → Option Logged
unfolding same_event
find_logged r [] = none
find_logged r (l ∷ ls) = if same_event r l then some l else find_logged r ls

abbrev pub claimed_event : Row → Logged → Event
claimed_event r l = record {
  id = l.id;
  listener = l.listener;
  operation = l.operation;
  occurred_at = l.occurred_at;
  table = l.table_name;
  txid = l.txid;
  payload = l.payload;
  attempt = r.attempts;
}

abbrev pub joined : Row → Option Logged → Option Event
joined r none = none
joined r (some l) = some (claimed_event r l)

abbrev pub event_of : List Logged → Option Row → Option Event
event_of events none = none
event_of events (some r) = joined r (find_logged r events)

abbrev pub cons_some : Option Event → List Event → List Event
cons_some none evs = evs
cons_some (some ev) evs = ev ∷ evs

unfoldable pub events_of : Store → List ℕ → List Event
unfolding find_logged
events_of st [] = []
events_of st (i ∷ ids) = cons_some (event_of st.events (find i st.queue)) (events_of st ids)

unfoldable pub read_claimed_events :
    TriggerSource → Database → Store → List ℕ → Result Error (List Event)
unfolding events_of qualified_service_table
read_claimed_events src db st ids = do
  qualified_service_table src.service_schema table_event_queue
  qualified_service_table src.service_schema table_events
  guard (not db.read_fails) database_error
  ok (events_of st ids)

-- The transaction, from `Begin` on: nothing to claim commits at once.
claim_within : TriggerSource → Database → ℕ → Store → List ℕ → Result Error (List Event × Store)
unfolding lease_rows read_claimed_events
claim_within src db n st [] = do guard (not db.commit_fails) database_error; ok ([], st)
claim_within src db n st (i ∷ ids) = do
  let st' = record st { queue = lease_rows src db n st.queue }
  events ← read_claimed_events src db st' (i ∷ ids)
  guard (not db.commit_fails) database_error
  ok (events, st')

unfoldable pub claim : TriggerSource → Database → ℤ → Store → Result Error (List Event × Store)
unfolding ensure_usable qualified_service_table claim_within
claim src db n st =
    ensure_usable src
    >> (if leb_ℤ n (pos 0)
        then ok ([], st)
        else (qualified_service_table src.service_schema table_event_queue
            >> (qualified_service_table src.service_schema table_events
                >> (guard (not db.begin_fails) database_error
                    >> (guard (not db.statement_fails) database_error
                        >> claim_within src db (pos_part n) st
                            (ids_of (chosen_rows db (pos_part n) st.queue)))))))
