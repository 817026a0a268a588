-- ===== src/Source/Store.antt =====
-- The tables of the service schema that internal/source works on (internal/schema/migrations), and
-- the vocabulary of internal/source/event.go. Times are the database's, as integers.
pub mod Tables
pub mod Keys
use pg_noty.Base.{ℕ, ℤ, Bool, true, false, Option, List, Text, String}

-- The CHECK of event_queue.status.
pub data Status : Type 0 where
  pending delivering dead : Status

-- A row of event_queue.
pub record Row : Type 0 where
  pub event_id : ℕ
  pub occurred_at : ℤ
  pub listener : String
  pub status : Status
  pub attempts : ℕ
  pub next_attempt_at : ℤ
  pub leased_until : Option ℤ
  pub leased_by : Option String
  pub dead_reason : Option Text

-- A row of events, the append-only log.
pub record Logged : Type 0 where
  pub id : ℕ
  pub listener : String
  pub table_name : Text
  pub operation : Text
  pub payload : Text
  pub txid : ℕ
  pub occurred_at : ℤ

-- A row of deliveries.
pub record Attempt : Type 0 where
  pub event_id : ℕ
  pub attempt : ℕ
  pub http_status : Option ℤ
  pub response_snippet : Option Text
  pub error : Option Text
  pub duration_ms : ℤ

pub record Store : Type 0 where
  pub queue : List Row
  pub events : List Logged
  pub deliveries : List Attempt

-- source.Event, with the attempt number that the claim gave it.
pub record Event : Type 0 where
  pub id : ℕ
  pub listener : String
  pub operation : Text
  pub occurred_at : ℤ
  pub table : Text
  pub txid : ℕ
  pub payload : Text
  pub attempt : ℕ

-- source.Delivery.
pub record Delivery : Type 0 where
  pub http_status : ℤ
  pub snippet : Text
  pub err : Text
  pub duration : ℤ

pub Status-discrete : Discrete Status
Status-discrete = hlevel

abbrev pub is_pending : Row → Bool
is_pending r = elim r.status [ pending ↦ true | _ ↦ false ]

abbrev pub is_delivering : Row → Bool
is_delivering r = elim r.status [ delivering ↦ true | _ ↦ false ]

abbrev pub is_dead : Row → Bool
is_dead r = elim r.status [ dead ↦ true | _ ↦ false ]
