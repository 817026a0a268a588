-- ===== src/Cli/EventsRetry/Drains.antt =====
-- internal/cli/eventsretry.go: the loop ends, and has retried all.
use pg_noty.Base.{
  ℕ, zero, suc, ◌+◌, ◌≤◌, ◌<◌, ◌≡◌, refl, inl, inr, true, false, Bool-cases, List, [], ◌∷◌, ◌==◌,
  ==_iff, arith, pos_part, ◌≤ℤ◌, ok,
}
use pg_noty.Source.Store.{Store}
use pg_noty.Source.Store.Tables.{Distinct, count_rows, update_rows}
use pg_noty.Source.Transition.{
  TriggerSource, Database, ensure_usable, qualified_service_table, table_event_queue,
}
use pg_noty.Source.Sweep.{
  QueueSelector, retryable_row, validate_for_retry, retry_batch, in_batch, retried,
}
use pg_noty.Source.Sweep.Laws.{retry_batch_lem, retry_batch-Distinct, retryable_later, count-weaken}
use pg_noty.Cli.EventsRetry.{retry_batch_limit, drained, printing, retry_loop}

abbrev pub total : List ℕ → ℕ
total [] = 0
total (n ∷ ns) = n + total ns

-- The rows that a retry may still change.
abbrev pub remaining : Database → QueueSelector → Store → ℕ
remaining db s st = count_rows (retryable_row db s) st.queue

-- A server that answers each call, holds no locks, and whose clock does not run back.
pub record Calm (src : TriggerSource) (s : QueueSelector) (dbs : ℕ → Database) : Type 0 where
  pub usable : ensure_usable src ≡ ok tt
  pub named : qualified_service_table src.service_schema table_event_queue ≡ ok tt
  pub valid : validate_for_retry s ≡ ok tt
  pub begins : (k : ℕ) → (dbs k).begin_fails ≡ false
  pub runs : (k : ℕ) → (dbs k).statement_fails ≡ false
  pub commits : (k : ℕ) → (dbs k).commit_fails ≡ false
  pub free : (k i : ℕ) → (dbs k).locked i ≡ false
  pub onward : (k : ℕ) → (dbs k).now ≤ℤ (dbs (suc k)).now

module _ (src : TriggerSource) (s : QueueSelector) (dbs : ℕ → Database)
    (calm : Calm src s dbs) where
  batch_answers :
      (k : ℕ) (st : Store)
      → (n : ℕ) × (st' : Store) × (retry_batch src (dbs k) s retry_batch_limit st ≡ ok (n, st'))
  unfolding retry_batch
  batch_answers k st =
      let chosen = in_batch (dbs k) s (pos_part retry_batch_limit) st.queue in
      (
        count_rows chosen st.queue,
        record st { queue = update_rows chosen (retried (dbs k)) st.queue },
        rw (calm.usable, calm.valid, calm.named, calm.begins k, calm.runs k, calm.commits k),
      )

  remaining-later : (k : ℕ) (st : Store) → remaining (dbs (suc k)) s st ≤ remaining (dbs k) s st
  remaining-later k st =
      count-weaken _ _ st.queue
        (λ r e. retryable_later (dbs k) (dbs (suc k)) s r (calm.onward k) (calm.free k) e)

  loop_stop :
      (fuel k : ℕ) (st : Store) {n : ℕ} {st' : Store}
      → retry_batch src (dbs k) s retry_batch_limit st ≡ ok (n, st')
      → (n == 0) ≡ true
      → retry_loop src s dbs (λ _. false) (suc fuel) k st
        ≡ record { store = st'; printed = []; end = drained }
  unfolding retry_loop
  loop_stop fuel k st e z = rw (e, retry_loop) (rw z)

  loop_on :
      (fuel k : ℕ) (st : Store) {n : ℕ} {st' : Store}
      → retry_batch src (dbs k) s retry_batch_limit st ≡ ok (n, st')
      → (n == 0) ≡ false
      → retry_loop src s dbs (λ _. false) (suc fuel) k st
        ≡ printing n (retry_loop src s dbs (λ _. false) fuel (suc k) st')
  unfolding retry_loop
  loop_on fuel k st e z = rw (e, retry_loop) (rw z)

  -- Each round that is not the last takes at least one row.
  loop_drains :
      (fuel k : ℕ) (st : Store)
      → Distinct st.queue
      → remaining (dbs k) s st < fuel
      → let r = retry_loop src s dbs (λ _. false) fuel k st in
        (r.end ≡ drained)
        × (total r.printed ≤ remaining (dbs k) s st)
        × ((j : ℕ) × (remaining (dbs j) s r.store ≡ 0))
  loop_drains zero k st d h = absurd (omega arith)
  loop_drains (suc fuel) k st d h =
      let (n, st', e) = batch_answers k st in
      let (size, fewer, _) = retry_batch_lem src (dbs k) s retry_batch_limit st d e in
      elim (Bool-cases (n == 0)) [
        | inl z ↦
            let none_left : remaining (dbs k) s st' ≡ 0 =
              (let z' = (==_iff n 0).0 z in omega arith) in
            rw (loop_stop fuel k st e z) (refl, omega arith, (k, none_left))
        | inr nz ↦
            let below : remaining (dbs (suc k)) s st' < fuel =
              (let later = remaining-later k st' in ground arith) in
            let (ends, sum, last) =
              loop_drains fuel (suc k) st'
                (retry_batch-Distinct src (dbs k) s retry_batch_limit st d e) below in
            let later = remaining-later k st' in
            let counts : remaining (dbs k) s st' + n ≡ remaining (dbs k) s st = fewer in
            rw (loop_on fuel k st e nz) (ends, omega arith, last)
      ]

-- On a server that answers each call, holds no locks and whose clock does not run back, where the
-- event ids of the queue are distinct and the command is not cancelled, the loop ends by itself
-- within as many rounds as there are rows to retry and one more. It prints no more retries than
-- there were such rows, and at some reading of the server's clock none is left.
pub retry_loop_drains :
    (src : TriggerSource) (s : QueueSelector) (dbs : ℕ → Database) (fuel : ℕ) (st : Store)
    → Calm src s dbs
    → Distinct st.queue
    → remaining (dbs 0) s st < fuel
    → let r = retry_loop src s dbs (λ _. false) fuel 0 st in
      (r.end ≡ drained)
      × (total r.printed ≤ remaining (dbs 0) s st)
      × ((j : ℕ) × (remaining (dbs j) s r.store ≡ 0))
retry_loop_drains src s dbs fuel st calm d h = loop_drains src s dbs calm fuel 0 st d h
