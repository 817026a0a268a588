-- ===== src/Tests/Locking.antt =====
-- internal/reconcile/runlock.go: a run that waits for another one, and then has the lock.
use pg_noty.Base.{
  Option, ℕ, ◌+◌, ◌*◌, ◌≤◌, ◌≡◌, refl, true, false, none, some, if◌then◌else◌, ltb, arith, ok,
}
use pg_noty.Reconcile.RunLock.{
  not_pinned, Round, Releasing, acquired, expired, new_run_lock, held_by, run_lock_loop,
  acquire_run_lock, release, run_lock_poll_interval,
}
use pg_noty.Reconcile.RunLock.Kept.{Settles, release_lem, run_lock_loop-Settles}
use pg_noty.Reconcile.RunLock.Awaited.{Polls, Calm, acquire_run_lock_lem}

abbrev releasing : Releasing
releasing = record {
  closed = true;
  unlock_error = none;
  acquire_error = none;
  terminate_error = none;
  outlives = false;
  taken_since = some 9;
  confirm_error = none;
}

-- Backend 5 has the key in the first two rounds.
abbrev busy : ℕ → Round
busy n = record {
  now = 100 + n * run_lock_poll_interval;
  before = if ltb n 2 then some 5 else none;
  attempt_error = none;
  taken_unanswered = false;
  done_after_attempt = none;
  releasing = releasing;
  holder = ok (some 5);
  done_after_holder = none;
  poll_error = none;
}

busy_others : (n : ℕ) → held_by 7 (busy n).before ≡ false
busy_others n = ground arith

busy-Polls : Polls 50000100 7 busy
busy-Polls n h = omega arith

busy-Calm : (j : ℕ) → j ≤ 2 → Calm 50000100 7 busy j
busy-Calm j h = (omega arith, refl, refl, (some 5, refl), refl, refl)

third_round : acquire_run_lock 50000000 100 (ok 7) none busy ≡ (acquired (new_run_lock 7), some 7)
unfolding acquire_run_lock
third_round = refl

too_late : acquire_run_lock 15000000 100 (ok 7) none busy ≡ (expired (some 5), none)
unfolding acquire_run_lock
too_late = refl

release_lem_example :
    (held_by 7 (release releasing (new_run_lock 7) (some 7)).owner ≡ false)
    × ((again : Releasing) (later : Option ℕ)
        → ((release again (release releasing (new_run_lock 7) (some 7)).lock later).error
            ≡ some not_pinned)
          × ((release again (release releasing (new_run_lock 7) (some 7)).lock later).owner
              ≡ later))
unfolding release
release_lem_example = release_lem releasing (new_run_lock 7) (some 7) refl

run_lock_loop-Settles_example : Settles 50000100 7 busy (run_lock_loop 50000100 7 busy 9 0 none)
run_lock_loop-Settles_example = run_lock_loop-Settles 50000100 7 busy busy_others 9 none

acquire_run_lock_lem_example :
    acquire_run_lock 50000000 100 (ok 7) none busy ≡ (acquired (new_run_lock 7), some 7)
acquire_run_lock_lem_example =
    acquire_run_lock_lem 50000000 100 7 none busy (omega arith) busy-Polls 2 busy-Calm refl
