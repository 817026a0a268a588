-- ===== src/Source/Sweep/Laws.antt =====
-- internal/source/leasereclaim.go and queueretry.go: what the sweep and the retry leave behind.
use pg_noty.Base.{
  ℕ, ◌+◌, ◌≤◌, ◌<◌, min, ◌≡◌, refl, ◌∙◌, sym, ap, ◌⊎◌, inl, inr, Bool, true, false, Option, none,
  some, List, [], ◌∷◌, ◌==◌, if◌then◌else◌, arith, keep, length, All, All-map, All-take,
  All-sort_by, Bool-cases, some_inv, ok, ℤ, pos_part, ◌≤ℤ◌, sort_by, any-sort_by, length-take,
  length-sort_by,
}
use pg_noty.Source.Store.{Row, Store}
use pg_noty.Source.Store.Tables.{
  update_rows, count_rows, find, Distinct, find-update_rows, map_row, Distinct-update_rows,
  find_of_keep, find_self, row_test, All-keep, Distinct-keep, any-take,
}
use pg_noty.Source.Store.Keys.{Distinct-sort_by, Distinct-take, count_keys}
use pg_noty.Source.Transition.{TriggerSource, Database}
use pg_noty.Source.Sweep.{
  expired, reclaimed, reclaim_expired, QueueSelector, retryable_row, batch, in_batch, id_le,
  retried, retry_batch,
}

count_none :
    (p q : Row → Bool) (g : Row → Row) (rs : List Row)
    → ((r : Row) → q r ≡ true → p r ≡ true)
    → ((r : Row) → q (g r) ≡ false)
    → count_rows q (update_rows p g rs) ≡ 0
count_none p q g [] w f = refl
count_none p q g (r ∷ rs) w f = ground (arith, w r, f r, count_none p q g rs w f)

reclaim_expired_inv :
    (src : TriggerSource) (db : Database) (st : Store) {k : ℕ} {st' : Store}
    → reclaim_expired src db st ≡ ok (k, st')
    → (k ≡ count_rows (expired db) st.queue)
      × (st'.queue ≡ update_rows (expired db) reclaimed st.queue)
      × (st'.events ≡ st.events)
      × (st'.deliveries ≡ st.deliveries)
unfolding reclaim_expired
reclaim_expired_inv src db st {k} {st'} h = ground arith

expired-earlier :
    (db db' : Database) (r : Row) → db'.now ≤ℤ db.now → expired db' r ≡ true → expired db r ≡ true
expired-earlier db db' r h e = ground arith

-- The row at a key is returned to the queue exactly if its lease has run out, and keeps its attempts.
abbrev pub ReclaimedOrKept : Database → Option Row → Option Row → Type 0
ReclaimedOrKept db before now =
    ((row_test (expired db) before ≡ false) × (now ≡ before))
    ⊎ ((r : Row) × (before ≡ some r) × (expired db r ≡ true) × (now ≡ some (reclaimed r)))

reclaimed-at :
    (db : Database) (o : Option Row)
    → ReclaimedOrKept db o (map_row (λ r. if expired db r then reclaimed r else r) o)
reclaimed-at db none = inl (refl, refl)
reclaimed-at db (some r) = elim (Bool-cases (expired db r)) [
  | inl e ↦ inr (r, refl, e, rw e)
  | inr e ↦ inl (e, rw e)
]

-- A sweep that succeeds: the count that `ReclaimExpired` returns is that of the expired leases. The
-- row at any key is reclaimed exactly if its lease was expired, and after the sweep no lease is
-- expired at that time or an earlier one; the event log is not written.
pub reclaim_expired_lem :
    (src : TriggerSource) (db db' : Database) (st : Store) (i : ℕ) {k : ℕ} {st' : Store}
    → reclaim_expired src db st ≡ ok (k, st')
    → db'.now ≤ℤ db.now
    → (k ≡ count_rows (expired db) st.queue)
      × ReclaimedOrKept db (find i st.queue) (find i st'.queue)
      × (count_rows (expired db') st'.queue ≡ 0)
      × (st'.events ≡ st.events)
reclaim_expired_lem src db db' st i h earlier =
    let (e, q, l, _) = reclaim_expired_inv src db st h in
    (
      e,
      rw (q, find-update_rows i (expired db) reclaimed st.queue (λ r. refl))
          (reclaimed-at db (find i st.queue)),
      rw q (
          count_none (expired db) (expired db') reclaimed st.queue
            (λ r x. expired-earlier db db' r earlier x) (λ r. refl)),
      l,
    )

-- Rows that a test picks stop passing another test when they are changed: the loss is the count of the
-- rows picked.
count-update_rows :
    (c q : Row → Bool) (g : Row → Row) (rs : List Row)
    → All (λ r. (c r ≡ true) → q r ≡ true) rs
    → ((r : Row) → q (g r) ≡ false)
    → count_rows q (update_rows c g rs) + count_rows c rs ≡ count_rows q rs
count-update_rows c q g [] w f = omega arith
count-update_rows c q g (r ∷ rs) w f = ground (arith, w.0, f r, count-update_rows c q g rs w.1 f)

retried_done :
    (db : Database) (s : QueueSelector) (r : Row) → retryable_row db s (retried db r) ≡ false
retried_done db s r = ground arith

-- A row that was retried, or would not be changed by a retry, stays so as the clock goes on.
pub retryable_later :
    (db db' : Database) (s : QueueSelector) (r : Row)
    → db.now ≤ℤ db'.now
    → ((i : ℕ) → db.locked i ≡ false)
    → retryable_row db' s r ≡ true
    → retryable_row db s r ≡ true
retryable_later db db' s r h free e = ground (arith, free r.event_id)

pub count-weaken :
    (p q : Row → Bool) (rs : List Row)
    → ((r : Row) → p r ≡ true → q r ≡ true)
    → count_rows p rs ≤ count_rows q rs
count-weaken p q [] w = omega arith
count-weaken p q (r ∷ rs) w = ground (arith, w r, count-weaken p q rs w)

count-keep : (p : Row → Bool) (rs : List Row) → length (keep p rs) ≡ count_rows p rs
count-keep p [] = refl
count-keep p (r ∷ rs) = ground (arith, count-keep p rs)

-- A row of the batch is one that the statement may change.
in_batch-retryable :
    (db : Database) (s : QueueSelector) (n : ℕ) (queue : List Row)
    → Distinct queue
    → All (λ r. (in_batch db s n queue r ≡ true) → retryable_row db s r ≡ true) queue
in_batch-retryable db s n queue d =
    All-map (λ r. find r.event_id queue ≡ some r) _ queue
      (λ r own e.
        let (x, f, t) = find_of_keep r.event_id (retryable_row db s) queue d (
          sym (any-sort_by id_le (λ b. b.event_id == r.event_id) (keep (retryable_row db s) queue))
          ∙ any-take (λ b. b.event_id == r.event_id) n _ e) in
        ap (retryable_row db s) (some_inv (sym own ∙ f)) ∙ t)
      (find_self queue d)

retry_batch_inv :
    (src : TriggerSource) (db : Database) (s : QueueSelector) (limit : ℤ) (st : Store) {k : ℕ}
    {st' : Store}
    → retry_batch src db s limit st ≡ ok (k, st')
    → (0 < pos_part limit)
      × (k ≡ count_rows (in_batch db s (pos_part limit) st.queue) st.queue)
      × (st'.queue ≡ update_rows (in_batch db s (pos_part limit) st.queue) (retried db) st.queue)
      × (st'.events ≡ st.events)
      × (st'.deliveries ≡ st.deliveries)
unfolding retry_batch
retry_batch_inv src db s limit st {k} {st'} h = ground arith

batch-size :
    (db : Database) (s : QueueSelector) (n : ℕ) (queue : List Row)
    → Distinct queue
    → count_rows (in_batch db s n queue) queue ≡ min n (count_rows (retryable_row db s) queue)
batch-size db s n queue d =
    count_keys (batch db s n queue) queue
      (Distinct-take n _ (Distinct-sort_by id_le _ (Distinct-keep (retryable_row db s) queue d))) d
      (All-take (λ x. find x.event_id queue ≡ some x) n _
        (All-sort_by id_le (λ x. find x.event_id queue ≡ some x) _
          (All-keep (λ x. find x.event_id queue ≡ some x) (retryable_row db s) queue
            (find_self queue d))))
    ∙ omega (
      arith,
      length-take n (sort_by id_le (keep (retryable_row db s) queue)),
      length-sort_by id_le (keep (retryable_row db s) queue),
      count-keep (retryable_row db s) queue,
    )

-- A retry that succeeds, where the event ids of the queue are distinct, changes as many rows as the
-- limit admits of those that it may change, and there are then as many fewer that it may change; the
-- event log is not written.
pub retry_batch_lem :
    (src : TriggerSource) (db : Database) (s : QueueSelector) (limit : ℤ) (st : Store) {k : ℕ}
    {st' : Store}
    → Distinct st.queue
    → retry_batch src db s limit st ≡ ok (k, st')
    → (k ≡ min (pos_part limit) (count_rows (retryable_row db s) st.queue))
      × (count_rows (retryable_row db s) st'.queue + k ≡ count_rows (retryable_row db s) st.queue)
      × (st'.events ≡ st.events)
retry_batch_lem src db s limit st {k} {st'} d h =
    let (_, e, q, l, _) = retry_batch_inv src db s limit st h in
    (
      e ∙ batch-size db s (pos_part limit) st.queue d,
      rw (e, q)
          (count-update_rows (in_batch db s (pos_part limit) st.queue) (retryable_row db s)
            (retried db) st.queue (in_batch-retryable db s (pos_part limit) st.queue d)
            (retried_done db s)),
      l,
    )

pub retry_batch-Distinct :
    (src : TriggerSource) (db : Database) (s : QueueSelector) (limit : ℤ) (st : Store) {k : ℕ}
    {st' : Store}
    → Distinct st.queue
    → retry_batch src db s limit st ≡ ok (k, st')
    → Distinct st'.queue
retry_batch-Distinct src db s limit st d h =
    let (_, _, q, _, _) = retry_batch_inv src db s limit st h in
    rw q (
      Distinct-update_rows (in_batch db s (pos_part limit) st.queue) (retried db) st.queue
        (λ r. refl) d)
