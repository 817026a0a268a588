-- ===== src/Source/Transition/Effect.antt =====
-- internal/source/ack.go, nack.go and dead.go: what a settlement does to the store.
use pg_noty.Base.{
  ℕ, ◌≡◌, refl, ◌∙◌, sym, ap, inl, inr, true, false, not, Option, none, some, List, ◌==◌,
  if◌then◌else◌, arith, any, Bool-cases, some_inv, String, eq_iff, ok, err, ==_iff,
}
use pg_noty.Source.Store.{Row, Store, Event, Delivery, Status, pending, delivering, dead}
use pg_noty.Source.Store.Tables.{
  find, Distinct, find-keep, find-update_rows, any_at_key, row_test, row_if, map_row, find-event_id,
  Distinct-keep, Distinct-update_rows,
}
use pg_noty.Source.Transition.{
  event_not_claimed, TriggerSource, Database, Settlement, ack, nack, die, claim_of, claimed_by,
  nacked, died, settle, settle_queue, upsert, recorded, begin_transition, qualified_service_table,
  guard_transition, table_event_queue,
}

pub settle_inv :
    (src : TriggerSource) (db : Database) (how : Settlement) (ev : Event) (dl : Delivery)
    (st : Store) {st' : Store}
    → settle src db how ev dl st ≡ ok st'
    → (any (claim_of src ev) st.queue ≡ true)
      × (st'.queue ≡ settle_queue src db how ev st.queue)
      × (st'.events ≡ st.events)
      × (st'.deliveries ≡ upsert (recorded ev dl) st.deliveries)
unfolding settle
settle_inv src db how ev dl st h = ground arith

-- What becomes of the row of a settled event.
abbrev pub settled_row : TriggerSource → Database → Settlement → Row → Option Row
settled_row src db ack r = none
settled_row src db (nack retry_at) r = some (nacked src db retry_at r)
settled_row src db (die reason) r = some (died reason r)

claim_of-at :
    (src : TriggerSource) (ev : Event) (rs : List Row)
    → Distinct rs
    → any (claim_of src ev) rs ≡ row_test (claimed_by src) (find ev.id rs)
claim_of-at src ev rs d = any_at_key ev.id (claimed_by src) rs d

claimed_row :
    (src : TriggerSource) (ev : Event) (rs : List Row)
    → Distinct rs
    → any (claim_of src ev) rs ≡ true
    → (r : Row) × (find ev.id rs ≡ some r) × (claimed_by src r ≡ true)
claimed_row src ev rs d h = go (find ev.id rs) refl
  where
    go :
        (o : Option Row)
        → find ev.id rs ≡ o
        → (r : Row) × (find ev.id rs ≡ some r) × (claimed_by src r ≡ true)
    go none e = absurd (cc (h, claim_of-at src ev rs d, ap (row_test (claimed_by src)) e))
    go (some r) e =
        (r, e, sym (ap (row_test (claimed_by src)) e) ∙ (sym (claim_of-at src ev rs d) ∙ h))

claim_of_other :
    (src : TriggerSource) (ev : Event) (r : Row)
    → (r.event_id == ev.id) ≡ false
    → claim_of src ev r ≡ false
claim_of_other src ev r h = rw h

claim_of_own :
    (src : TriggerSource) (ev : Event) (r : Row)
    → r.event_id ≡ ev.id
    → claimed_by src r ≡ true
    → claim_of src ev r ≡ true
claim_of_own src ev r h k = rw ((==_iff r.event_id ev.id).1 h) k

claimed_by_inv :
    (src : TriggerSource) (r : Row)
    → claimed_by src r ≡ true
    → (r.status ≡ delivering) × (r.leased_by ≡ some src.leased_by)
claimed_by_inv src r h = go r.status r.leased_by refl refl
  where
    go :
        (s : Status) (l : Option String)
        → r.status ≡ s
        → r.leased_by ≡ l
        → (r.status ≡ delivering) × (r.leased_by ≡ some src.leased_by)
    go pending l e k = absurd (cc (rw e at h))
    go dead l e k = absurd (cc (rw e at h))
    go delivering none e k = ground arith
    go delivering (some other) e k = ground (arith, eq_iff other src.leased_by)

abbrev claimed_to : TriggerSource → Event → (Row → Option Row) → Option Row → Option Row
claimed_to src ev f none = none
claimed_to src ev f (some r) = if claim_of src ev r then f r else some r

-- A statement's effect on what is found at key `i`: the claimed row changes, any other stays.
claimed_to-at :
    (src : TriggerSource) (ev : Event) (f : Row → Option Row) (i : ℕ) (o : Option Row) {r : Row}
    → ((s : Row) → o ≡ some s → s.event_id ≡ i)
    → (i ≡ ev.id → o ≡ some r)
    → claimed_by src r ≡ true
    → claimed_to src ev f o ≡ (if i == ev.id then f r else o)
claimed_to-at src ev f i none keyed own c = elim (Bool-cases (i == ev.id)) [
  | inl e ↦ absurd (cc (own ((==_iff i ev.id).0 e)))
  | inr e ↦ rw e
]
claimed_to-at src ev f i (some s) {r} keyed own c = elim (Bool-cases (i == ev.id)) [
  | inl e ↦
      let same = some_inv (own ((==_iff i ev.id).0 e)) in
      rw (
        e,
        same,
        claim_of_own src ev r (ap Row.event_id (sym same) ∙ (keyed s refl ∙ (==_iff i ev.id).0 e))
            c,
      )
  | inr e ↦ rw (e, claim_of_other src ev s (rw (keyed s refl) e))
]

find-settle_queue :
    (src : TriggerSource) (db : Database) (how : Settlement) (ev : Event) (rs : List Row) (i : ℕ)
    → Distinct rs
    → find i (settle_queue src db how ev rs)
      ≡ claimed_to src ev (settled_row src db how) (find i rs)
find-settle_queue src db ack ev rs i d =
    find-keep i (λ r. not (claim_of src ev r)) rs d ∙ go (find i rs)
  where
    go :
        (o : Option Row)
        → row_if (λ r. not (claim_of src ev r)) o ≡ claimed_to src ev (settled_row src db ack) o
    go none = refl
    go (some r) = elim (Bool-cases (claim_of src ev r)) [ inl e ↦ rw e | inr e ↦ rw e ]
find-settle_queue src db (nack t) ev rs i d =
    find-update_rows i (claim_of src ev) (nacked src db t) rs (λ r. refl) ∙ go (find i rs)
  where
    go :
        (o : Option Row)
        → map_row (λ r. if claim_of src ev r then nacked src db t r else r) o
          ≡ claimed_to src ev (settled_row src db (nack t)) o
    go none = refl
    go (some r) = elim (Bool-cases (claim_of src ev r)) [ inl e ↦ rw e | inr e ↦ rw e ]
find-settle_queue src db (die reason) ev rs i d =
    find-update_rows i (claim_of src ev) (died reason) rs (λ r. refl) ∙ go (find i rs)
  where
    go :
        (o : Option Row)
        → map_row (λ r. if claim_of src ev r then died reason r else r) o
          ≡ claimed_to src ev (settled_row src db (die reason)) o
    go none = refl
    go (some r) = elim (Bool-cases (claim_of src ev r)) [ inl e ↦ rw e | inr e ↦ rw e ]

-- A settlement that succeeds, where the event ids of the queue are distinct: the event's row was
-- delivering under the caller's lease; an acknowledgement deletes it, a retry puts it back, and a
-- dead letter marks it dead; every other row stays as it was, the event log is not written, and the
-- attempt is recorded, in place of one with the same event and attempt number if there is one.
pub settle_lem :
    (src : TriggerSource) (db : Database) (how : Settlement) (ev : Event) (dl : Delivery)
    (st : Store) (i : ℕ) {st' : Store}
    → Distinct st.queue
    → settle src db how ev dl st ≡ ok st'
    → (r : Row) × (find ev.id st.queue ≡ some r)
      × (r.status ≡ delivering)
      × (r.leased_by ≡ some src.leased_by)
      × (find i st'.queue ≡ (if i == ev.id then settled_row src db how r else find i st.queue))
      × (st'.events ≡ st.events)
      × (st'.deliveries ≡ upsert (recorded ev dl) st.deliveries)
settle_lem src db how ev dl st i d h =
    let (claimed, q, e, a) = settle_inv src db how ev dl st h in
    let (r, f, c) = claimed_row src ev st.queue d claimed in
    let (delivers, mine) = claimed_by_inv src r c in
    (
      r,
      f,
      delivers,
      mine,
      ap (find i) q
          ∙ (find-settle_queue src db how ev st.queue i d
              ∙ claimed_to-at src ev (settled_row src db how) i (find i st.queue)
                  (λ s g. find-event_id i st.queue g) (λ same. ap (λ k. find k st.queue) same ∙ f)
                  c),
      e,
      a,
    )

settle_queue-Distinct :
    (src : TriggerSource) (db : Database) (how : Settlement) (ev : Event) (rs : List Row)
    → Distinct rs
    → Distinct (settle_queue src db how ev rs)
settle_queue-Distinct src db ack ev rs d = Distinct-keep _ rs d
settle_queue-Distinct src db (nack t) ev rs d =
    Distinct-update_rows (claim_of src ev) _ rs (λ r. refl) d
settle_queue-Distinct src db (die reason) ev rs d =
    Distinct-update_rows (claim_of src ev) _ rs (λ r. refl) d

pub settle-Distinct :
    (src : TriggerSource) (db : Database) (how : Settlement) (ev : Event) (dl : Delivery)
    (st : Store) {st' : Store}
    → Distinct st.queue
    → settle src db how ev dl st ≡ ok st'
    → Distinct st'.queue
settle-Distinct src db how ev dl st d h =
    rw ((settle_inv src db how ev dl st h).1) (settle_queue-Distinct src db how ev st.queue d)

-- The statement finds no row of its own after a settlement of the same event, whoever settles.
settled_unclaimed :
    (src src' : TriggerSource) (db : Database) (how : Settlement) (r : Row)
    → row_test (claimed_by src') (settled_row src db how r) ≡ false
settled_unclaimed src src' db ack r = refl
settled_unclaimed src src' db (nack t) r = refl
settled_unclaimed src src' db (die reason) r = refl

-- What a caller needs for its statement to be run at all.
abbrev pub Reaches : TriggerSource → Database → Type 0
Reaches src db =
    (begin_transition src db ≡ ok tt)
    × (qualified_service_table src.service_schema table_event_queue ≡ ok tt)
    × (db.statement_fails ≡ false)

-- Where the event ids of the queue are distinct, a caller whose statement runs and who has no lease
-- on the event is told so, whatever it wants to settle it as: the row may be gone, be in another
-- status, or be leased by another worker.
pub settle_unclaimed :
    (src : TriggerSource) (db : Database) (how : Settlement) (ev : Event) (dl : Delivery)
    (st : Store)
    → Distinct st.queue
    → Reaches src db
    → row_test (claimed_by src) (find ev.id st.queue) ≡ false
    → settle src db how ev dl st ≡ err event_not_claimed
unfolding settle guard_transition
settle_unclaimed src db how ev dl st d (begins, named, runs) h =
    rw (begins, named, runs, claim_of-at src ev st.queue d, h)

-- An event is settled at most once under one lease. Where the event ids of the queue are distinct
-- and a settlement has succeeded, a second one of the same event, by any worker and of any kind, is
-- refused as not claimed if it gets as far as its statement.
pub settle_once :
    (src src' : TriggerSource) (db db' : Database) (how how' : Settlement) (ev ev' : Event)
    (dl dl' : Delivery) (st : Store) {st' : Store}
    → Distinct st.queue
    → settle src db how ev dl st ≡ ok st'
    → ev'.id ≡ ev.id
    → Reaches src' db'
    → settle src' db' how' ev' dl' st' ≡ err event_not_claimed
settle_once src src' db db' how how' ev ev' dl dl' st {st'} d h same reach =
    let (r, f, delivers, mine, q, e, a) = settle_lem src db how ev dl st ev.id d h in
    let found : find ev'.id st'.queue ≡ settled_row src db how r =
      ap (λ i. find i st'.queue) same ∙ (q ∙ rw ((==_iff ev.id ev.id).1 refl)) in
    settle_unclaimed src' db' how' ev' dl' st' (settle-Distinct src db how ev dl st d h) reach
      (ap (row_test (claimed_by src')) found ∙ settled_unclaimed src src' db how r)
