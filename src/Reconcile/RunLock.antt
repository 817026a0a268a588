-- ===== src/Reconcile/RunLock.antt =====
-- internal/reconcile/runlock.go: the run lock of reconciliation, one session lock of the server. What the
-- other sessions, the server's errors and the context do is an argument, round by round: a session is
-- its backend, and the key has the backend that holds it. The clock counts nanoseconds.
pub mod Kept
pub mod Awaited
use pg_noty.Base.{
  ℕ, zero, suc, ◌+◌, ◌*◌, Bool, true, false, not, ◌&&◌, ◌||◌, Option, none, some, if◌then◌else◌,
  leb, ◌==◌, Result, ok, err,
}

abbrev pub default_run_lock_wait : ℕ
default_run_lock_wait = 60000000000

abbrev pub run_lock_poll_interval : ℕ
run_lock_poll_interval = 10000000

-- The errors of a context, those of a call, and the three that the code makes.
pub data RunLockError : Type 0 where
  deadline_exceeded canceled call_failed not_pinned did_not_hold outlived : RunLockError

abbrev pub is_deadline : Option RunLockError → Bool
is_deadline (some deadline_exceeded) = true
is_deadline _ = false

pub record RunLock : Type 0 where
  pub backend : ℕ
  -- Whether `on` is the pinned connection and not nil.
  pub pinned : Bool

abbrev pub new_run_lock : ℕ → RunLock
new_run_lock backend = record { backend = backend; pinned = true }

abbrev pub held_by : ℕ → Option ℕ → Bool
held_by backend none = false
held_by backend (some owner) = owner == backend

-- What a release meets.
pub record Releasing : Type 0 where
  pub closed : Bool
  pub unlock_error : Option RunLockError
  pub acquire_error : Option RunLockError
  pub terminate_error : Option RunLockError
  -- Whether the backend is still there when the server has waited for its end.
  pub outlives : Bool
  -- The session that takes the key, if it comes free, before it is read again.
  pub taken_since : Option ℕ
  pub confirm_error : Option RunLockError

abbrev pub or_since : Option ℕ → Option ℕ → Option ℕ
or_since none since = since
or_since (some owner) since = some owner

-- The error, and the session that holds the key then.
unfoldable pub end_the_session : Releasing → ℕ → Option ℕ → Option RunLockError × Option ℕ
end_the_session r backend owner = elim r.acquire_error [
  | some e ↦ (some e, owner)
  | none ↦ elim r.terminate_error [
    | some e ↦ (some e, owner)
    | none ↦
        let ended = if held_by backend owner && not r.outlives then none else owner in
        let holder = or_since ended r.taken_since in
        elim r.confirm_error [
          | some e ↦ (some e, holder)
          | none ↦ if held_by backend holder then (some outlived, holder) else (none, holder)
        ]
  ]
]

unfoldable pub unlock : Releasing → ℕ → Option ℕ → Option RunLockError × Option ℕ
unlock r backend owner = elim r.unlock_error [
  | some e ↦ (some e, owner)
  | none ↦ if held_by backend owner then (none, none) else (some did_not_hold, owner)
]

-- What a release leaves: the error, the session that holds the key, and the lock.
pub record Released : Type 0 where
  pub error : Option RunLockError
  pub owner : Option ℕ
  pub lock : RunLock

abbrev given_back : RunLock → Option RunLockError × Option ℕ → Released
given_back held (error, owner) = record {
  error = error;
  owner = owner;
  lock = record held { pinned = false };
}

-- The connection is given back before anything can fail.
unfoldable pub release : Releasing → RunLock → Option ℕ → Released
unfolding end_the_session unlock
release r held owner =
    if not held.pinned
    then record { error = some not_pinned; owner = owner; lock = held }
    else given_back held
        (if r.closed then end_the_session r held.backend owner else unlock r held.backend owner)

-- What `acquireRunLock` returns. A refusal has the backend that was seen with the key; `waiting` is
-- a loop out of fuel.
pub data Acquired : Type 0 where
  acquired : RunLock → Acquired
  expired : Option ℕ → Acquired
  failed : RunLockError → Acquired
  waiting : Acquired

-- What one round of the loop meets, in the order in which it does.
pub record Round : Type 0 where
  pub now : ℕ
  pub before : Option ℕ
  pub attempt_error : Option RunLockError
  -- Whether an attempt without an answer took the key all the same.
  pub taken_unanswered : Bool
  pub done_after_attempt : Option RunLockError
  pub releasing : Releasing
  pub holder : Result RunLockError (Option ℕ)
  pub done_after_holder : Option RunLockError
  pub poll_error : Option RunLockError

unfoldable pub run_lock_wait_result : Option RunLockError → Option ℕ → RunLockError → Acquired
run_lock_wait_result done holder error =
    if is_deadline done || is_deadline (some error) then expired holder else failed error

unfoldable pub acquired_run_lock_result : Round → Option ℕ → ℕ → Acquired × Option ℕ
unfolding run_lock_wait_result release
acquired_run_lock_result r holder backend = elim r.done_after_attempt [
  | none ↦ (acquired (new_run_lock backend), some backend)
  | some done ↦
      let after = release r.releasing (new_run_lock backend) (some backend) in
      elim after.error [
        | some e ↦ (failed e, after.owner)
        | none ↦ (run_lock_wait_result (some done) holder done, after.owner)
      ]
]

abbrev pub after_unanswered : ℕ → Round → Option ℕ
after_unanswered backend r = or_since r.before (if r.taken_unanswered then some backend else none)

-- A round in which another session has the key: who it is, and the wait for the next round.
unfoldable pub look_and_wait :
    Round → Option ℕ → (Option ℕ → Acquired × Option ℕ) → Acquired × Option ℕ
unfolding run_lock_wait_result
look_and_wait r seen next = elim r.holder [
  | err e ↦ (run_lock_wait_result r.done_after_holder seen e, r.before)
  | ok observed ↦ elim r.done_after_holder [
    | some e ↦ (run_lock_wait_result (some e) observed e, r.before)
    | none ↦ elim r.poll_error [
      | some e ↦ (run_lock_wait_result (some e) observed e, r.before)
      | none ↦ next observed
    ]
  ]
]

-- The rounds of the loop from the n-th on, on fuel, with the holder that was seen last; and the session
-- that holds the key at the end.
module _ (deadline backend : ℕ) (rounds : ℕ → Round) where
  unfoldable pub run_lock_loop : ℕ → ℕ → Option ℕ → Acquired × Option ℕ
  unfolding run_lock_wait_result acquired_run_lock_result look_and_wait
  run_lock_loop zero n seen = (waiting, none)
  run_lock_loop (suc fuel) n seen =
      let r = rounds n in
      let next = λ (seen : Option ℕ). run_lock_loop fuel (suc n) seen in
      if leb deadline r.now then (expired seen, r.before) else elim r.attempt_error [
        | some e ↦ (run_lock_wait_result r.done_after_attempt seen e, after_unanswered backend r)
        | none ↦ elim r.before [
          | none ↦ acquired_run_lock_result r seen backend
          | some _ ↦ look_and_wait r seen next
        ]
      ]

abbrev pub or_default : ℕ → ℕ
or_default wait = if wait == 0 then default_run_lock_wait else wait

-- The connection gives its backend. One round more than the wait has nanoseconds is enough.
unfoldable pub acquire_run_lock :
    (wait start : ℕ)
    → Result RunLockError ℕ
    → Option RunLockError
    → (ℕ → Round)
    → Acquired × Option ℕ
unfolding run_lock_loop run_lock_wait_result
acquire_run_lock wait start connection done rounds = elim connection [
  | err e ↦ (run_lock_wait_result done none e, none)
  | ok backend ↦
      run_lock_loop (start + or_default wait) backend rounds (suc (or_default wait)) 0 none
]
