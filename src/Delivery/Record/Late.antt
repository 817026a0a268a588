-- ===== src/Delivery/Record/Late.antt =====
-- internal/delivery/record.go: an attempt whose lease was lost.
use pg_noty.Base.{◌≡◌, refl, false, Option, none}
use pg_noty.Source.Store.{Event, Delivery, Store}
use pg_noty.Source.Store.Tables.{find, row_test, Distinct}
use pg_noty.Source.Transition.{TriggerSource, Database, claimed_by}
use pg_noty.Source.Transition.Effect.{Reaches, settle_unclaimed}
use pg_noty.Delivery.Policy.{Policy}
use pg_noty.Delivery.Record.{Response, Surroundings, settlement_of, truncated, record_result}

-- Where the event ids of the queue are distinct and the statement runs: a worker that records an attempt
-- after its lease was lost changes nothing, records no delivery, and reports no error, whatever the
-- attempt's outcome was.
pub record_result_late :
    (at : Surroundings) (src : TriggerSource) (db : Database) (p : Policy) (ev : Event)
    (response : Option Response) (dl : Delivery) (st : Store)
    → Distinct st.queue
    → Reaches src db
    → row_test (claimed_by src) (find ev.id st.queue) ≡ false
    → record_result at src db p ev response dl st ≡ (st, none)
unfolding record_result
record_result_late at src db p ev response dl st d reach lost =
    rw
      (settle_unclaimed src db (settlement_of at p ev response (truncated dl)) ev (truncated dl) st
        d reach lost)
      refl
