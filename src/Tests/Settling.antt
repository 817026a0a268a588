-- ===== src/Tests/Settling.antt =====
-- internal/source: settlements at concrete rows. The constants serve the other tests of the source too.
use pg_noty.Base.{ℕ, ◌≡◌, refl, true, false, none, some, [], ◌∷◌, pos, ok, err, codes, ◌==◌, ◌+ℤ◌}
use pg_noty.Source.Store.{Store, Row, Logged, Event, Delivery, pending, delivering}
use pg_noty.Schema.Identifier.{why_unusable}
use pg_noty.Source.Store.Tables.{Distinct, find}
use pg_noty.Source.Transition.{
  TriggerSource, Database, ack, nack, settle, event_not_claimed, recorded, upsert, begin_transition,
  qualified_service_table, retry_delay,
}
use pg_noty.Source.Transition.Effect.{settle_lem, settle_once}

abbrev pub src : TriggerSource
src = record {
  closed = false;
  has_pool = true;
  service_schema = codes "noty";
  leased_by = "worker-1";
  lease = pos 60;
  now = pos 100;
}

abbrev pub db : Database
db = record {
  now = pos 100;
  locked = λ i. i == 9;
  interval = λ d. d;
  begin_fails = false;
  statement_fails = false;
  read_fails = false;
  record_fails = false;
  commit_fails = false;
}

abbrev pub leased_row : Row
leased_row = record {
  event_id = 1;
  occurred_at = pos 3;
  listener = "orders";
  status = delivering;
  attempts = 1;
  next_attempt_at = pos 4;
  leased_until = some (pos 130);
  leased_by = some "worker-1";
  dead_reason = none;
}

abbrev pub waiting_row : ℕ → ℕ → Row
waiting_row i due = record {
  event_id = i;
  occurred_at = pos 3;
  listener = "orders";
  status = pending;
  attempts = 0;
  next_attempt_at = pos due;
  leased_until = none;
  leased_by = none;
  dead_reason = none;
}

abbrev pub logged : ℕ → Logged
logged i = record {
  id = i;
  listener = "orders";
  table_name = codes "orders";
  operation = codes "insert";
  payload = codes "{}";
  txid = 7;
  occurred_at = pos 3;
}

abbrev pub st : Store
st = record {
  queue = leased_row ∷ waiting_row 2 50 ∷ waiting_row 3 40 ∷ [];
  events = logged 1 ∷ logged 2 ∷ logged 3 ∷ [];
  deliveries = [];
}

abbrev ev : Event
ev = record {
  id = 1;
  listener = "orders";
  operation = codes "insert";
  occurred_at = pos 3;
  table = codes "orders";
  txid = 7;
  payload = codes "{}";
  attempt = 1;
}

abbrev dl : Delivery
dl = record { http_status = pos 503; snippet = []; err = []; duration = pos 0 }

abbrev settled : Store
settled = record {
  queue =
      record leased_row {
        status = pending;
        next_attempt_at = pos 200;
        leased_until = none;
        leased_by = none;
      }
      ∷ waiting_row 2 50
      ∷ waiting_row 3 40
      ∷ [];
  events = logged 1 ∷ logged 2 ∷ logged 3 ∷ [];
  deliveries =
      record {
        event_id = 1;
        attempt = 1;
        http_status = some (pos 503);
        response_snippet = none;
        error = none;
        duration_ms = pos 0;
      }
      ∷ [];
}

pub st-Distinct : Distinct st.queue
st-Distinct = ((λ h. absurd (cc), (λ h. absurd (cc), tt)), ((λ h. absurd (cc), tt), (tt, tt)))

settled_so : settle src db (nack (pos 200)) ev dl st ≡ ok settled
unfolding settle retry_delay recorded ◌+ℤ◌ why_unusable upsert
settled_so = refl

settle_lem_example :
    (r : Row) × (find 1 st.queue ≡ some r)
    × (r.status ≡ delivering)
    × (r.leased_by ≡ some "worker-1")
    × (find 2 settled.queue ≡ find 2 st.queue)
    × (settled.events ≡ st.events)
    × (settled.deliveries ≡ upsert (recorded ev dl) st.deliveries)
settle_lem_example = settle_lem src db (nack (pos 200)) ev dl st 2 st-Distinct settled_so

settle_once_example : settle src db ack ev dl settled ≡ err event_not_claimed
unfolding begin_transition qualified_service_table why_unusable
settle_once_example =
    settle_once src src db db (nack (pos 200)) ack ev ev dl dl st st-Distinct settled_so refl
      (refl, refl, refl)
