-- ===== src/Source/Transition.antt =====
-- internal/source/ack.go, nack.go and dead.go: the transitions that settle a claimed event. Each is
-- one transaction: a step that fails rolls back, so a result `err` leaves the store as it was.
pub mod Effect
use pg_noty.Base.{
  ℕ, ◌*◌, ◌/◌, ◌≡◌, refl, Bool, true, false, not, ◌&&◌, Option, none, some, List, [], ◌∷◌, ◌==◌,
  if◌then◌else◌, ltb, ltb_ℤ, ℤ, pos, negsuc, pos_part, neg_part, sub_ℕ, ◌+ℤ◌, ◌-ℤ◌, max_int64, any,
  keep, Text, codes, is_empty, String, str_eq, Result, ok, err, ◌>>=◌, ◌>>◌, guard,
}
use pg_noty.Schema.Identifier.{why_unusable}
use pg_noty.Source.Store.{
  Row, Attempt, Store, Event, Delivery, Status, pending, delivering, dead, is_delivering,
}
use pg_noty.Source.Store.Tables.{update_rows}
use pg_noty.Source.StorableText.{storable_text}

pub data Error : Type 0 where
  source_closed no_pool event_not_claimed unusable_identifier database_error : Error
  retry_limit unknown_status no_selector id_combined listener_without_status : Error

-- source.TriggerSource, with its Options. `now` is the reading of the process's clock.
pub record TriggerSource : Type 0 where
  pub closed : Bool
  pub has_pool : Bool
  pub service_schema : Text
  pub leased_by : String
  pub lease : ℤ
  pub now : ℤ

-- The server during one call: its clock, the rows that other transactions hold locks on, what
-- `make_interval` makes of a delay, and which step returns an error.
pub record Database : Type 0 where
  pub now : ℤ
  pub locked : ℕ → Bool
  pub interval : ℤ → ℤ
  pub begin_fails : Bool
  pub statement_fails : Bool
  pub read_fails : Bool
  pub record_fails : Bool
  pub commit_fails : Bool

unfoldable pub ensure_usable : TriggerSource → Result Error (Unit {0})
ensure_usable src =
    if src.closed then err source_closed else if src.has_pool then ok tt else err no_pool

-- `qualifiedServiceTable`, without the text that it renders.
unfoldable pub qualified_service_table : Text → Text → Result Error (Unit {0})
qualified_service_table service_schema table = elim (why_unusable service_schema) [
  | err _ ↦ err unusable_identifier
  | ok _ ↦ elim (why_unusable table) [ err _ ↦ err unusable_identifier | ok _ ↦ ok tt ]
]

abbrev pub table_event_queue : Text
table_event_queue = codes "event_queue"

abbrev pub table_events : Text
table_events = codes "events"

abbrev pub table_deliveries : Text
table_deliveries = codes "deliveries"

unfoldable pub begin_transition : TriggerSource → Database → Result Error (Unit {0})
unfolding ensure_usable
begin_transition src db = do ensure_usable src; guard (not db.begin_fails) database_error

abbrev pub leased_is : String → Option String → Bool
leased_is me none = false
leased_is me (some other) = str_eq other me

-- The WHERE of all three transitions: `event_id=$1 AND status='delivering' AND leased_by=$2`.
abbrev pub claimed_by : TriggerSource → Row → Bool
claimed_by src r = is_delivering r && leased_is src.leased_by r.leased_by

abbrev pub claim_of : TriggerSource → Event → Row → Bool
claim_of src ev r = r.event_id == ev.id && claimed_by src r

-- The statement returns the row that it changed, or no row.
unfoldable pub guard_transition : TriggerSource → Database → Event → Store → Result Error (Unit {0})
guard_transition src db ev st = do
  guard (not db.statement_fails) database_error
  guard (any (claim_of src ev) st.queue) event_not_claimed

-- `ON CONFLICT (event_id, attempt) DO UPDATE`.
abbrev same_attempt : Attempt → Attempt → Bool
same_attempt a b = a.event_id == b.event_id && a.attempt == b.attempt

unfoldable pub upsert : Attempt → List Attempt → List Attempt
upsert a [] = a ∷ []
upsert a (b ∷ bs) = if same_attempt a b then a ∷ bs else b ∷ upsert a bs

-- Go's integer division by a million, which truncates towards zero.
unfoldable pub milliseconds : ℤ → ℤ
milliseconds d =
    if ltb_ℤ d (pos 0) then sub_ℕ 0 (neg_part d / 1_000_000) else pos (pos_part d / 1_000_000)

abbrev pub stored_text : Text → Option Text
stored_text s = if is_empty s then none else some (storable_text s)

unfoldable pub recorded : Event → Delivery → Attempt
unfolding milliseconds
recorded ev dl = record {
  event_id = ev.id;
  attempt = ev.attempt;
  http_status = if ltb_ℤ (pos 0) dl.http_status then some dl.http_status else none;
  response_snippet = stored_text dl.snippet;
  error = stored_text dl.err;
  duration_ms = milliseconds dl.duration;
}

unfoldable pub record_delivery :
    TriggerSource → Database → Event → Delivery → Store → Result Error Store
unfolding qualified_service_table
record_delivery src db ev dl st = do
  qualified_service_table src.service_schema table_deliveries
  guard (not db.record_fails) database_error
  ok (record st { deliveries = upsert (recorded ev dl) st.deliveries })

-- time.Time.Sub saturates at the ends of int64.
unfoldable pub sub_time : ℤ → ℤ → ℤ
unfolding ◌-ℤ◌
sub_time a b =
    let d = a -ℤ b in
    if ltb_ℤ (pos max_int64) d
    then pos max_int64
    else if ltb_ℤ d (negsuc max_int64)
    then negsuc max_int64
    else d

unfoldable pub retry_delay : TriggerSource → ℤ → ℤ
unfolding sub_time
retry_delay src retry_at =
    let delay = sub_time retry_at src.now in if ltb_ℤ delay (pos 0) then pos 0 else delay

-- The assignments of the two UPDATEs.
abbrev pub nacked : TriggerSource → Database → ℤ → Row → Row
nacked src db retry_at r = record r {
  status = pending;
  next_attempt_at = db.now +ℤ db.interval (retry_delay src retry_at);
  leased_until = none;
  leased_by = none;
}

abbrev pub died : Text → Row → Row
died reason r = record r {
  status = dead;
  dead_reason = some (storable_text reason);
  leased_until = none;
  leased_by = none;
}

-- The three transitions, each with what it is given beside the event and the delivery.
pub data Settlement : Type 0 where
  ack : Settlement
  nack : ℤ → Settlement
  die : Text → Settlement

abbrev pub settle_queue : TriggerSource → Database → Settlement → Event → List Row → List Row
settle_queue src db ack ev queue = keep (λ r. not (claim_of src ev r)) queue
settle_queue src db (nack retry_at) ev queue =
    update_rows (claim_of src ev) (nacked src db retry_at) queue
settle_queue src db (die reason) ev queue = update_rows (claim_of src ev) (died reason) queue

-- `Ack`, `Nack` and `Dead`, which differ in the statement alone.
unfoldable pub settle :
    TriggerSource → Database → Settlement → Event → Delivery → Store → Result Error Store
unfolding begin_transition qualified_service_table guard_transition record_delivery
settle src db how ev dl st = do
  begin_transition src db
  qualified_service_table src.service_schema table_event_queue
  guard_transition src db ev st
  st' ← record_delivery src db ev dl (record st { queue = settle_queue src db how ev st.queue })
  guard (not db.commit_fails) database_error
  ok st'

-- What the caller sees: the store after the call, and the error.
abbrev pub after {ℓ} : {A : Type ℓ} → A → Result Error A → A × Option Error
after st (ok st') = (st', none)
after st (err e) = (st, some e)
