-- ===== src/Source/Claim/Effect.antt =====
-- internal/source/claim.go: what a claim does to the queue, and what it returns.
use pg_noty.Base.{
  ℕ, suc, ◌≤◌, All-map, any_self, ◌≡◌, refl, ◌∙◌, sym, ap, ◌⊎◌, inl, inr, true, false, Option, none,
  some, List, [], ◌∷◌, ◌==◌, if◌then◌else◌, arith, any, keep, length, All, Bool-cases, some_inv,
  eq_iff, ok, ==_iff, ℤ, pos_part, ◌≤ℤ◌, sort_by, any-sort_by, length-take,
}
use pg_noty.Source.Store.{Row, Logged, Store, Event, pending}
use pg_noty.Source.Store.Tables.{
  find, Distinct, find-update_rows, map_row, find-event_id, find_of_keep, any-take,
}
use pg_noty.Source.Transition.{TriggerSource, Database, claimed_by}
use pg_noty.Source.Claim.{
  eligible, claim_le, ids_of, chosen_rows, is_chosen, leased, lease_rows, events_of, joined,
  event_of, cons_some, claimed_event, find_logged, claim,
}

abbrev pub Claimed : TriggerSource → Database → ℕ → Store → List Event → Store → Type 0
Claimed src db n st evs st' =
    (st'.queue ≡ lease_rows src db n st.queue)
    × (st'.events ≡ st.events)
    × (st'.deliveries ≡ st.deliveries)
    × (evs ≡ events_of st' (ids_of (chosen_rows db n st.queue)))

abbrev pub Idle : Store → List Event → Store → Type 0
Idle st evs st' = (st' ≡ st) × (evs ≡ [])

pub claim_inv :
    (src : TriggerSource) (db : Database) (n : ℤ) (st : Store) {evs : List Event} {st' : Store}
    → claim src db n st ≡ ok (evs, st')
    → Idle st evs st' ⊎ Claimed src db (pos_part n) st evs st'
unfolding claim
claim_inv src db n st {evs} {st'} h = go (chosen_rows db (pos_part n) st.queue) refl
  where
    go :
        (rs : List Row)
        → chosen_rows db (pos_part n) st.queue ≡ rs
        → Idle st evs st' ⊎ Claimed src db (pos_part n) st evs st'
    go [] e = ground arith
    go (r ∷ rs) e = ground arith

-- A key that is chosen is that of an eligible row.
chosen_eligible :
    (db : Database) (n : ℕ) (queue : List Row) (i : ℕ)
    → Distinct queue
    → any (λ s. s.event_id == i) (chosen_rows db n queue) ≡ true
    → (r : Row) × (find i queue ≡ some r) × (eligible db r ≡ true)
chosen_eligible db n queue i d h = find_of_keep i (eligible db) queue d (
    sym (any-sort_by claim_le (λ s. s.event_id == i) (keep (eligible db) queue)) ∙ any-take _ n _ h)

eligible_inv :
    (db : Database) (r : Row)
    → eligible db r ≡ true
    → (r.status ≡ pending) × (r.next_attempt_at ≤ℤ db.now) × (db.locked r.event_id ≡ false)
eligible_inv db r h = ground arith

pub find-lease_rows :
    (src : TriggerSource) (db : Database) (n : ℕ) (queue : List Row) (i : ℕ)
    → find i (lease_rows src db n queue)
      ≡ map_row (λ r. if is_chosen db n queue r then leased src db r else r) (find i queue)
unfolding lease_rows
find-lease_rows src db n queue i =
    find-update_rows i (is_chosen db n queue) (leased src db) queue (λ r. refl)

-- What a claim makes of the row at a key: nothing, or a lease of the caller on a row that was pending,
-- due and not locked, with one attempt more.
abbrev pub LeasedOrKept : TriggerSource → Database → Option Row → Option Row → Type 0
LeasedOrKept src db before now =
    (now ≡ before)
    ⊎ ((r : Row) × (before ≡ some r)
        × (r.status ≡ pending)
        × (r.next_attempt_at ≤ℤ db.now)
        × (db.locked r.event_id ≡ false)
        × (now ≡ some (leased src db r)))

lease_rows-LeasedOrKept :
    (src : TriggerSource) (db : Database) (n : ℕ) (queue : List Row) (i : ℕ)
    → Distinct queue
    → LeasedOrKept src db (find i queue) (find i (lease_rows src db n queue))
lease_rows-LeasedOrKept src db n queue i d = go (find i queue) refl
  where
    go :
        (o : Option Row)
        → find i queue ≡ o
        → LeasedOrKept src db (find i queue) (find i (lease_rows src db n queue))
    go none e = inl (find-lease_rows src db n queue i ∙ rw e)
    go (some r) e = elim (Bool-cases (is_chosen db n queue r)) [
      | inr k ↦ inl (find-lease_rows src db n queue i ∙ rw e (rw k))
      | inl k ↦
          let (s, f, el) = chosen_eligible db n queue i d (rw (find-event_id i queue e) at k) in
          let same : s ≡ r = some_inv (sym f ∙ e) in
          let (a, b, c) = eligible_inv db r (ap (eligible db) (sym same) ∙ el) in
          inr (r, e, a, b, c, find-lease_rows src db n queue i ∙ rw e (rw k))
    ]

-- A claim that succeeds, where the event ids of the queue are distinct: the row at any key is kept
-- as it was, or was pending, due and not locked and is now leased by the caller with one attempt
-- more; the event log and the record of deliveries are not written.
pub claim_lem :
    (src : TriggerSource) (db : Database) (n : ℤ) (st : Store) (i : ℕ) {evs : List Event}
    {st' : Store}
    → Distinct st.queue
    → claim src db n st ≡ ok (evs, st')
    → LeasedOrKept src db (find i st.queue) (find i st'.queue)
      × (st'.events ≡ st.events)
      × (st'.deliveries ≡ st.deliveries)
claim_lem src db n st i {evs} {st'} d h = elim (claim_inv src db n st h) [
  | inl (same, _) ↦ (inl (rw same), rw same, rw same)
  | inr (q, e, a, _) ↦ (rw q (lease_rows-LeasedOrKept src db (pos_part n) st.queue i d), e, a)
]

-- The event is the one of a row that is now leased to the caller, and it carries that row's attempt.
abbrev pub IsLeased : TriggerSource → Store → Event → Type 0
IsLeased src st ev =
    (r : Row) × (find ev.id st.queue ≡ some r)
    × (claimed_by src r ≡ true)
    × (ev.attempt ≡ r.attempts)

find_logged-id :
    (r : Row) (ls : List Logged) {l : Logged} → find_logged r ls ≡ some l → l.id ≡ r.event_id
unfolding find_logged
find_logged-id r [] h = absurd (cc)
find_logged-id r (k ∷ ls) {l} h = ground (arith, find_logged-id r ls {l = l})

All-cons_some {ℓ} :
    (P : Event → Type ℓ) (o : Option Event) (evs : List Event)
    → ((ev : Event) → o ≡ some ev → P ev)
    → All P evs
    → All P (cons_some o evs)
All-cons_some P none evs h k = k
All-cons_some P (some ev) evs h k = (h ev refl, k)

leased-claimed_by :
    (src : TriggerSource) (db : Database) (r : Row) → claimed_by src (leased src db r) ≡ true
leased-claimed_by src db r = (eq_iff src.leased_by src.leased_by).1 refl

event_of-IsLeased :
    (src : TriggerSource) (db : Database) (st : Store) (i : ℕ) (r : Row)
    → r.event_id ≡ i
    → find i st.queue ≡ some (leased src db r)
    → (ev : Event) → event_of st.events (find i st.queue) ≡ some ev
    → IsLeased src st ev
event_of-IsLeased src db st i r keyed f ev h =
    go (find_logged (leased src db r) st.events) refl (rw f at h)
  where
    go :
        (o : Option Logged)
        → find_logged (leased src db r) st.events ≡ o
        → joined (leased src db r) (find_logged (leased src db r) st.events) ≡ some ev
        → IsLeased src st ev
    go none e k = absurd (cc (rw e at k))
    go (some l) e k =
        let same : claimed_event (leased src db r) l ≡ ev = some_inv (rw e at k) in
        let own : ev.id ≡ i =
          ap Event.id (sym same) ∙ (find_logged-id (leased src db r) st.events e ∙ keyed) in
        (
          leased src db r,
          ap (λ k'. find k' st.queue) own ∙ f,
          leased-claimed_by src db r,
          ap Event.attempt (sym same),
        )

events_of-IsLeased :
    (src : TriggerSource) (db : Database) (st : Store) (rs : List Row)
    → All
        (λ s.
          (r : Row) × (r.event_id ≡ s.event_id)
          × (find s.event_id st.queue ≡ some (leased src db r)))
        rs
    → All (IsLeased src st) (events_of st (ids_of rs))
unfolding events_of
events_of-IsLeased src db st [] h = tt
events_of-IsLeased src db st (s ∷ rs) ((r, keyed, f), more) =
    All-cons_some (IsLeased src st) (event_of st.events (find s.event_id st.queue)) _
      (event_of-IsLeased src db st s.event_id r keyed f) (events_of-IsLeased src db st rs more)

length-events_of : (st : Store) (ids : List ℕ) → length (events_of st ids) ≤ length ids
unfolding events_of
length-events_of st [] = omega arith
length-events_of st (i ∷ ids) = ground (arith, length-events_of st ids)

length-ids_of : (rs : List Row) → length (ids_of rs) ≡ length rs
length-ids_of [] = refl
length-ids_of (r ∷ rs) = ap suc (length-ids_of rs)

chosen_now_leased :
    (src : TriggerSource) (db : Database) (n : ℕ) (queue : List Row) (i : ℕ)
    → Distinct queue
    → any (λ s. s.event_id == i) (chosen_rows db n queue) ≡ true
    → (r : Row) × (r.event_id ≡ i) × (find i (lease_rows src db n queue) ≡ some (leased src db r))
chosen_now_leased src db n queue i d h =
    let (r, f, el) = chosen_eligible db n queue i d h in
    let keyed = find-event_id i queue f in
    (r, keyed, find-lease_rows src db n queue i ∙ rw f (rw (keyed, h)))

-- What a claim that succeeds returns, where the event ids of the queue are distinct, is at most `n`
-- events, each of a row that the caller now holds the lease of, with the attempt number that the
-- claim gave that row.
pub claim-IsLeased :
    (src : TriggerSource) (db : Database) (n : ℤ) (st : Store) {evs : List Event} {st' : Store}
    → Distinct st.queue
    → claim src db n st ≡ ok (evs, st')
    → All (IsLeased src st') evs × (length evs ≤ pos_part n)
claim-IsLeased src db n st {evs} {st'} d h = elim (claim_inv src db n st h) [
  | inl (_, e) ↦ (rw e tt, rw e (omega arith))
  | inr (q, _, _, e) ↦
      let chosen = chosen_rows db (pos_part n) st.queue in
      let held =
        All-map _ _ chosen
          (λ s own. rw (sym q) at (chosen_now_leased src db (pos_part n) st.queue s.event_id d own))
          (any_self (λ a b. b.event_id == a.event_id) (λ a. (==_iff a.event_id a.event_id).1 refl)
            chosen) in
      (
        rw e (events_of-IsLeased src db st' chosen held),
        rw e (
            omega (
              arith,
              length-events_of st' (ids_of chosen),
              length-ids_of chosen,
              length-take (pos_part n) (sort_by claim_le (keep (eligible db) st.queue)),
            )),
      )
]
