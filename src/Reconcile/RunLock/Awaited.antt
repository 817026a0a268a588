-- ===== src/Reconcile/RunLock/Awaited.antt =====
-- internal/reconcile/runlock.go: the wait for the run lock ends, and with the lock where the key comes free.
use pg_noty.Base.{
  ℕ, zero, suc, ◌+◌, ◌*◌, ◌≤◌, ◌<◌, ◌≡◌, refl, ap, ◌⊎◌, inl, inr, Bool, true, false, ◌||◌, Option,
  none, some, arith, leb, ltb, min, Result, ok, err, Result-cases, Bool-cases, Option-cases,
}
use pg_noty.Reconcile.RunLock.{
  run_lock_poll_interval, RunLockError, is_deadline, new_run_lock, release, Acquired, acquired,
  waiting, Round, run_lock_wait_result, acquired_run_lock_result, look_and_wait, run_lock_loop,
  or_default, acquire_run_lock,
}

abbrev pub is_waiting : Acquired × Option ℕ → Bool
is_waiting (waiting, _) = true
is_waiting _ = false

wait_result_ends :
    (done : Option RunLockError) (seen owner : Option ℕ) (e : RunLockError)
    → is_waiting (run_lock_wait_result done seen e, owner) ≡ false
unfolding run_lock_wait_result
wait_result_ends done seen owner e = elim (Bool-cases (is_deadline done || is_deadline (some e))) [
  | inl d ↦ rw (run_lock_wait_result, d) refl
  | inr d ↦ rw (run_lock_wait_result, d) refl
]

acquired_result_ends :
    (r : Round) (seen : Option ℕ) (backend : ℕ)
    → is_waiting (acquired_run_lock_result r seen backend) ≡ false
unfolding acquired_run_lock_result
acquired_result_ends r seen backend =
    let lock = new_run_lock backend in
    let after = release r.releasing lock (some backend) in
    elim (Option-cases r.done_after_attempt) [
      | inl d ↦ rw (acquired_run_lock_result, d) refl
      | inr (done, d) ↦ elim (Option-cases after.error) [
        | inl e ↦
            rw (acquired_run_lock_result, d, e) (wait_result_ends (some done) seen after.owner done)
        | inr (f, e) ↦ rw (acquired_run_lock_result, d, e) refl
      ]
    ]

look_and_wait_ends :
    (r : Round) (seen : Option ℕ) (next : Option ℕ → Acquired × Option ℕ)
    → ((observed : Option ℕ) → is_waiting (next observed) ≡ false)
    → is_waiting (look_and_wait r seen next) ≡ false
unfolding look_and_wait
look_and_wait_ends r seen next k = elim (Result-cases r.holder) [
  | inr (e, l) ↦ rw (look_and_wait, l) (wait_result_ends r.done_after_holder seen r.before e)
  | inl (observed, l) ↦ elim (Option-cases r.done_after_holder) [
    | inr (e, d) ↦ rw (look_and_wait, l, d) (wait_result_ends (some e) observed r.before e)
    | inl d ↦ elim (Option-cases r.poll_error) [
      | inr (e, p) ↦ rw (look_and_wait, l, d, p) (wait_result_ends (some e) observed r.before e)
      | inl p ↦ rw (look_and_wait, l, d, p) (k observed)
    ]
  ]
]

module _ (deadline backend : ℕ) (rounds : ℕ → Round) where
  -- Between two rounds the poll interval passes, or what is left until the deadline.
  abbrev pub Polls : Type 0
  Polls =
      (n : ℕ)
      → (rounds n).now < deadline
      → min deadline ((rounds n).now + run_lock_poll_interval) ≤ (rounds (suc n)).now

  run_lock_loop_ends :
      Polls
      → (fuel n : ℕ) (seen : Option ℕ) → deadline ≤ (rounds n).now + fuel * run_lock_poll_interval
      → is_waiting (run_lock_loop deadline backend rounds (suc fuel) n seen) ≡ false
  unfolding run_lock_loop
  run_lock_loop_ends polls zero n seen h =
      let late : leb deadline (rounds n).now ≡ true = ground arith in rw (run_lock_loop, late) refl
  run_lock_loop_ends polls (suc fuel) n seen h =
      let r = rounds n in
      elim (Bool-cases (leb deadline r.now)) [
        | inl late ↦ rw (run_lock_loop, late) refl
        | inr early ↦ elim (Option-cases r.attempt_error) [
          | inr (e, a) ↦
              rw (run_lock_loop, early, a) (wait_result_ends r.done_after_attempt seen _ e)
          | inl a ↦ elim (Option-cases r.before) [
            | inl b ↦ rw (run_lock_loop, early, a, b) (acquired_result_ends r seen backend)
            | inr (owner, b) ↦
                rw (run_lock_loop, early, a, b)
                  (look_and_wait_ends r seen
                    (run_lock_loop deadline backend rounds (suc fuel) (suc n))
                    (λ observed.
                      run_lock_loop_ends polls fuel (suc n) observed
                        (omega (arith, polls n (ground arith)))))
          ]
        ]
      ]

  -- A round in which nothing fails, before the deadline.
  abbrev pub Calm : ℕ → Type 0
  Calm n =
      ((rounds n).now < deadline)
      × ((rounds n).attempt_error ≡ none)
      × ((rounds n).done_after_attempt ≡ none)
      × ((observed : Option ℕ) × ((rounds n).holder ≡ ok observed))
      × ((rounds n).done_after_holder ≡ none)
      × ((rounds n).poll_error ≡ none)

  abbrev pub got : Acquired × Option ℕ
  got = (acquired (new_run_lock backend), some backend)

  not_free_yet :
      (k n : ℕ) (owner : ℕ)
      → n ≤ k
      → (rounds k).before ≡ none
      → (rounds n).before ≡ some owner
      → n < k
  not_free_yet k n owner le free taken = elim (Bool-cases (ltb n k)) [
    | inl e ↦ ground arith
    | inr e ↦
        let same : n ≡ k = ground arith in
        absurd (cc (ap (λ j. (rounds j).before) same, free, taken))
  ]

  run_lock_loop-got :
      (k : ℕ)
      → ((j : ℕ) → j ≤ k → Calm j)
      → (rounds k).before ≡ none
      → (fuel n : ℕ) (seen : Option ℕ) → n ≤ k
      → (run_lock_loop deadline backend rounds fuel n seen ≡ got)
        ⊎ (is_waiting (run_lock_loop deadline backend rounds fuel n seen) ≡ true)
  unfolding run_lock_loop acquired_run_lock_result look_and_wait
  run_lock_loop-got k calm free zero n seen le = inr refl
  run_lock_loop-got k calm free (suc fuel) n seen le =
      let (early, a, d, (observed, l), h, p) = calm n le in
      let on_time : leb deadline (rounds n).now ≡ false = ground arith in
      elim (Option-cases (rounds n).before) [
        | inl b ↦ inl (rw (run_lock_loop, on_time, a, b, acquired_run_lock_result, d) refl)
        | inr (owner, b) ↦
            let before : n < k = not_free_yet k n owner le free b in
            rw (run_lock_loop, on_time, a, b, look_and_wait, l, h, p)
              (run_lock_loop-got k calm free fuel (suc n) observed (omega arith))
      ]

module _ (wait start backend : ℕ) (done : Option RunLockError) (rounds : ℕ → Round) where
  abbrev pub deadline_of : ℕ
  deadline_of = start + or_default wait

  -- Where each poll takes its time, an acquisition comes to an end by itself.
  pub acquire_run_lock_ends :
      start ≤ (rounds 0).now
      → Polls deadline_of backend rounds
      → (connection : Result RunLockError ℕ)
      → is_waiting (acquire_run_lock wait start connection done rounds) ≡ false
  unfolding acquire_run_lock
  acquire_run_lock_ends begun polls (err e) = wait_result_ends done none none e
  acquire_run_lock_ends begun polls (ok b) =
      run_lock_loop_ends deadline_of b rounds polls (or_default wait) 0 none (omega arith)

  -- Where each poll takes its time too, a run gets the lock in the first round before the deadline that finds
  -- the key free, if nothing has failed in the rounds up to that one.
  pub acquire_run_lock_lem :
      start ≤ (rounds 0).now
      → Polls deadline_of backend rounds
      → (k : ℕ) → ((j : ℕ) → j ≤ k → Calm deadline_of backend rounds j)
      → (rounds k).before ≡ none
      → acquire_run_lock wait start (ok backend) done rounds ≡ got deadline_of backend rounds
  unfolding acquire_run_lock
  acquire_run_lock_lem begun polls k calm free =
      elim (run_lock_loop-got deadline_of backend rounds k calm free (suc (or_default wait)) 0 none
        (omega arith)) [
          | inl e ↦ e
          | inr e ↦ absurd (cc (e, acquire_run_lock_ends begun polls (ok backend)))
        ]
