-- ===== src/Reconcile/RunLock/Kept.antt =====
-- internal/reconcile/runlock.go: who holds the key when an acquisition or a release is over.
use pg_noty.Base.{
  ℕ, zero, suc, ◌<◌, ◌≡◌, refl, ◌⊎◌, inl, inr, false, ◌||◌, Option, none, some, arith, leb, true,
  ok, Result-cases, Bool-cases, Option-cases,
}
use pg_noty.Reconcile.RunLock.{
  not_pinned, RunLockError, is_deadline, RunLock, new_run_lock, held_by, Releasing, end_the_session,
  unlock, release, Acquired, acquired, expired, failed, waiting, Round, run_lock_wait_result,
  acquired_run_lock_result, after_unanswered, look_and_wait, run_lock_loop,
}

end_the_session-free :
    (r : Releasing) (backend : ℕ) (owner : Option ℕ)
    → (end_the_session r backend owner).0 ≡ none
    → held_by backend (end_the_session r backend owner).1 ≡ false
unfolding end_the_session
end_the_session-free r backend owner h = ground arith

unlock-free :
    (r : Releasing) (backend : ℕ) (owner : Option ℕ)
    → (unlock r backend owner).0 ≡ none
    → held_by backend (unlock r backend owner).1 ≡ false
unfolding unlock
unlock-free r backend owner h = ground arith

release-free :
    (r : Releasing) (held : RunLock) (owner : Option ℕ)
    → (release r held owner).error ≡ none
    → held_by held.backend (release r held owner).owner ≡ false
unfolding release
release-free r held owner h = elim (Bool-cases held.pinned) [
  | inr p ↦ absurd (cc (rw (release, p) at h))
  | inl p ↦ elim (Bool-cases r.closed) [
    | inl c ↦
        rw (release, p, c) (end_the_session-free r held.backend owner (rw (release, p, c) at h))
    | inr c ↦ rw (release, p, c) (unlock-free r held.backend owner (rw (release, p, c) at h))
  ]
]

release-unpinned :
    (r : Releasing) (held : RunLock) (owner : Option ℕ) → (release r held owner).lock.pinned ≡ false
unfolding release
release-unpinned r held owner = elim (Bool-cases held.pinned) [
  | inl p ↦ rw (release, p) refl
  | inr p ↦ rw (release, p) refl
]

refused_unpinned :
    (again : Releasing) (lock : RunLock) (later : Option ℕ)
    → lock.pinned ≡ false
    → ((release again lock later).error ≡ some not_pinned)
      × ((release again lock later).owner ≡ later)
unfolding release
refused_unpinned again lock later h = rw (release, h) (refl, refl)

-- After a release without an error the server no longer counts the session as the holder, whichever way
-- the release took; and the lock that a release leaves is not released again, whoever has the key then.
pub release_lem :
    (r : Releasing) (held : RunLock) (owner : Option ℕ)
    → (release r held owner).error ≡ none
    → (held_by held.backend (release r held owner).owner ≡ false)
      × ((again : Releasing) (later : Option ℕ)
          → ((release again (release r held owner).lock later).error ≡ some not_pinned)
            × ((release again (release r held owner).lock later).owner ≡ later))
release_lem r held owner h = (
  release-free r held owner h,
  λ again later.
      refused_unpinned again (release r held owner).lock later (release-unpinned r held owner),
)

module _ (deadline backend : ℕ) (rounds : ℕ → Round) where
  -- A round before the deadline in which the attempt is answered, another session has the key, and
  -- nothing ends the wait.
  pub record Passes (k : ℕ) : Type 0 where
    pub early : (rounds k).now < deadline
    pub attempted : (rounds k).attempt_error ≡ none
    pub owned : (owner : ℕ) × ((rounds k).before ≡ some owner)
    pub observed : (holder : Option ℕ) × ((rounds k).holder ≡ ok holder)
    pub going_on : (rounds k).done_after_holder ≡ none
    pub polled : (rounds k).poll_error ≡ none

  -- The loop comes to the round k.
  pub data Reached : ℕ → Type 0 where
    first : Reached zero
    later : (k : ℕ) → Reached k → Passes k → Reached (suc k)

  -- The round that takes the key: it finds it free before the deadline.
  pub record Takes (k : ℕ) : Type 0 where
    pub reached : Reached k
    pub early : (rounds k).now < deadline
    pub attempted : (rounds k).attempt_error ≡ none
    pub free : (rounds k).before ≡ none

  -- The loop ends in a round that takes the key too late and fails to release it.
  pub record Unreleased : Type 0 where
    pub round : ℕ
    pub takes : Takes round
    pub done : (e : RunLockError) × ((rounds round).done_after_attempt ≡ some e)
    pub fails :
        (e : RunLockError) × ((release
            (rounds round).releasing
            (new_run_lock backend)
            (some backend)).error
          ≡ some e)

  -- The loop ends in a round whose attempt fails before the deadline, and finds the key free and takes it
  -- all the same: the server did, and the answer was lost.
  pub record Unanswered : Type 0 where
    pub round : ℕ
    pub reached : Reached round
    pub early : (rounds round).now < deadline
    pub fails : (e : RunLockError) × ((rounds round).attempt_error ≡ some e)
    pub free : (rounds round).before ≡ none
    pub taken : (rounds round).taken_unanswered ≡ true

  abbrev pub Settles : Acquired × Option ℕ → Type 0
  Settles (acquired held, owner) =
      (held ≡ new_run_lock backend)
      × (owner ≡ some backend)
      × ((k : ℕ) × Takes k × ((rounds k).done_after_attempt ≡ none))
  Settles (expired _, owner) = (held_by backend owner ≡ false) ⊎ Unanswered
  Settles (failed _, owner) = (held_by backend owner ≡ false) ⊎ (Unreleased ⊎ Unanswered)
  Settles (waiting, owner) = Unit

  wait_result-Settles :
      (done : Option RunLockError) (seen : Option ℕ) (e : RunLockError) (owner : Option ℕ)
      → (held_by backend owner ≡ false) ⊎ Unanswered
      → Settles (run_lock_wait_result done seen e, owner)
  unfolding run_lock_wait_result
  wait_result-Settles done seen e owner h =
      elim (Bool-cases (is_deadline done || is_deadline (some e))) [
        | inl d ↦ rw (run_lock_wait_result, d) h
        | inr d ↦
            rw (run_lock_wait_result, d)
              (elim h [ inl free ↦ inl free | inr lost ↦ inr (inr lost) ])
      ]

  acquired_run_lock_result-Settles :
      (n : ℕ) (seen : Option ℕ)
      → Takes n
      → Settles (acquired_run_lock_result (rounds n) seen backend)
  unfolding acquired_run_lock_result
  acquired_run_lock_result-Settles n seen takes =
      let r = rounds n in
      let lock = new_run_lock backend in
      elim (Option-cases r.done_after_attempt) [
        | inl d ↦ rw (acquired_run_lock_result, d) (refl, refl, (n, takes, d))
        | inr (done, d) ↦ elim (Option-cases (release r.releasing lock (some backend)).error) [
          | inl e ↦
              rw (acquired_run_lock_result, d, e)
                (wait_result-Settles (some done) seen done
                  (release r.releasing lock (some backend)).owner
                  (inl (release-free r.releasing lock (some backend) e)))
          | inr (f, e) ↦
              let lost : Unreleased = record {
                round = n;
                takes = takes;
                done = (done, d);
                fails = (f, e);
              } in
              rw (acquired_run_lock_result, d, e) (inr (inl lost))
        ]
      ]

  look_and_wait-Settles :
      (n : ℕ) (seen : Option ℕ) (next : Option ℕ → Acquired × Option ℕ)
      → held_by backend (rounds n).before ≡ false
      → ((observed : Option ℕ)
          → (rounds n).holder ≡ ok observed
          → (rounds n).done_after_holder ≡ none
          → (rounds n).poll_error ≡ none
          → Settles (next observed))
      → Settles (look_and_wait (rounds n) seen next)
  unfolding look_and_wait
  look_and_wait-Settles n seen next h k =
      let r = rounds n in
      let result = λ (seen : Option ℕ) (e : RunLockError) (done : Option RunLockError).
        wait_result-Settles done seen e r.before (inl h) in
      elim (Result-cases r.holder) [
        | inr (e, l) ↦ rw (look_and_wait, l) (result seen e r.done_after_holder)
        | inl (observed, l) ↦ elim (Option-cases r.done_after_holder) [
          | inr (e, d) ↦ rw (look_and_wait, l, d) (result observed e (some e))
          | inl d ↦ elim (Option-cases r.poll_error) [
            | inr (e, p) ↦ rw (look_and_wait, l, d, p) (result observed e (some e))
            | inl p ↦ rw (look_and_wait, l, d, p) (k observed l d p)
          ]
        ]
      ]

  module _ (others : (n : ℕ) → held_by backend (rounds n).before ≡ false) where
    after_unanswered-Settles :
        (n : ℕ) (e : RunLockError)
        → Reached n
        → (rounds n).now < deadline
        → (rounds n).attempt_error ≡ some e
        → (held_by backend (after_unanswered backend (rounds n)) ≡ false) ⊎ Unanswered
    after_unanswered-Settles n e reached early a =
        let own = others n in
        elim (Option-cases (rounds n).before) [
          | inl b ↦ elim (Bool-cases (rounds n).taken_unanswered) [
            | inl t ↦ inr (record {
              round = n;
              reached = reached;
              early = early;
              fails = (e, a);
              free = b;
              taken = t;
            })
            | inr t ↦ inl (rw (after_unanswered, b, t) refl)
          ]
          | inr (o, b) ↦ inl (rw (after_unanswered, b) (rw b at own))
        ]

    from_round :
        (fuel n : ℕ) (seen : Option ℕ)
        → Reached n
        → Settles (run_lock_loop deadline backend rounds fuel n seen)
    unfolding run_lock_loop
    from_round zero n seen reached = tt
    from_round (suc fuel) n seen reached =
        let r = rounds n in
        elim (Bool-cases (leb deadline r.now)) [
          | inl late ↦ rw (run_lock_loop, late) (inl (others n))
          | inr on_time ↦
              let early : r.now < deadline = ground arith in
              elim (Option-cases r.attempt_error) [
                | inr (e, a) ↦
                    rw (run_lock_loop, on_time, a)
                      (wait_result-Settles r.done_after_attempt seen e (after_unanswered backend r)
                        (after_unanswered-Settles n e reached early a))
                | inl a ↦ elim (Option-cases r.before) [
                  | inl b ↦
                      let takes : Takes n = record {
                        reached = reached;
                        early = early;
                        attempted = a;
                        free = b;
                      } in
                      rw (run_lock_loop, on_time, a, b)
                        (acquired_run_lock_result-Settles n seen takes)
                  | inr (owner, b) ↦
                      rw (run_lock_loop, on_time, a, b)
                        (look_and_wait-Settles n seen
                          (run_lock_loop deadline backend rounds fuel (suc n)) (others n)
                          (λ observed l d p. from_round fuel (suc n) observed (
                            later n reached (record {
                              early = early;
                              attempted = a;
                              owned = (owner, b);
                              observed = (observed, l);
                              going_on = d;
                              polled = p;
                            }))))
                ]
              ]
        ]

    -- Where no other session is this one's backend: a lock is acquired in the round the loop comes to that
    -- finds the key free before the deadline, with a context that is not done, and its session then holds the
    -- key. A refusal leaves the key to the others, and so does an error, with two exceptions: a failed
    -- attempt of the last round whose answer was lost took the key, or the lock came too late and the
    -- release of the last round failed.
    pub run_lock_loop-Settles :
        (fuel : ℕ) (seen : Option ℕ) → Settles (run_lock_loop deadline backend rounds fuel 0 seen)
    run_lock_loop-Settles fuel seen = from_round fuel 0 seen first
