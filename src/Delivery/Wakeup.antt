-- ===== src/Delivery/Wakeup.antt =====
-- internal/delivery/wakeup.go: the machine that turns notifications into delayed polls, and asks for a
-- new connection when the one it listens on is lost.
use pg_noty.Base.{
  ℕ, suc, ◌+◌, ◌≡◌, refl, ◌⊎◌, inl, inr, Bool, true, false, Option, none, some, List, [], ◌∷◌,
  if◌then◌else◌, arith, ltb_ℤ, leb_ℤ, ℤ, pos, ◌+ℤ◌, ◌≤ℤ◌, max_int64, Bool-cases,
}
use pg_noty.Delivery.Hold.{second}

pub record WakeMachine : Type 0 where
  pub interval : ℤ
  pub jitter : Option (ℤ → ℤ)
  pub hinted : Bool
  pub listening : Bool
  pub reconnecting : Bool

pub record WakeAction : Type 0 where
  pub hint : Bool
  pub poll : Bool
  pub delay : ℤ

abbrev pub nothing : WakeAction
nothing = record { hint = false; poll = false; delay = pos 0 }

abbrev pub a_poll : WakeAction
a_poll = record { hint = false; poll = true; delay = pos 0 }

unfoldable pub new_wake_machine : ℤ → Option (ℤ → ℤ) → WakeMachine
new_wake_machine interval jitter = record {
  interval = if leb_ℤ interval (pos 0) then pos second else interval;
  jitter = jitter;
  hinted = false;
  listening = true;
  reconnecting = false;
}

-- `draw` is the machine's jitter, or the default one, rand.Int63n, where it has none.
unfoldable pub wake_delay : ℤ → (ℤ → ℤ) → ℤ
wake_delay interval draw =
    if leb_ℤ interval (pos 0)
    then pos 0
    else (let bound = if ltb_ℤ interval (pos max_int64) then interval +ℤ pos 1 else interval in
        let delay = draw bound in
        if ltb_ℤ delay (pos 0) then pos 0 else if ltb_ℤ interval delay then interval else delay)

abbrev pub drawn : (ℤ → ℤ) → Option (ℤ → ℤ) → ℤ → ℤ
drawn random none = random
drawn random (some draw) = draw

module _ (random : ℤ → ℤ) where
  unfoldable pub notify : Bool → WakeMachine → WakeMachine × WakeAction
  unfolding wake_delay
  notify false m = (record m { listening = false }, nothing)
  notify true m = if m.hinted then (record m { listening = true }, nothing) else (
    record m { listening = true; hinted = true },
    record { hint = true; poll = false; delay = wake_delay m.interval (drawn random m.jitter) },
  )

  unfoldable pub fired : WakeMachine → WakeMachine × WakeAction
  fired m = (record m { hinted = false }, a_poll)

  unfoldable pub lost : WakeMachine → WakeMachine × Bool
  lost m =
      if m.reconnecting
      then (record m { listening = false }, false)
      else (record m { listening = false; reconnecting = true }, true)

  unfoldable pub reconnected : Bool → WakeMachine → WakeMachine
  reconnected open_channel m = record m { reconnecting = false; listening = open_channel }

  -- What the loop calls the machine for.
  pub data Signal : Type 0 where
    notified : Bool → Signal
    timer_fired : Signal
    connection_lost : Signal
    connection_back : Bool → Signal

  -- What is counted of a run: the hints given, the timers that fired, the reconnections asked for, and
  -- those that ended.
  pub record Tally : Type 0 where
    pub hints : ℕ
    pub polls : ℕ
    pub asked : ℕ
    pub ended : ℕ

  abbrev pub one_if : Bool → ℕ
  one_if true = 1
  one_if false = 0

  -- A timer fires only if a hint set it, and a reconnection ends only if one was asked for.
  abbrev pub allowed : Signal → WakeMachine → Bool
  allowed (notified b) m = true
  allowed timer_fired m = m.hinted
  allowed connection_lost m = true
  allowed (connection_back b) m = m.reconnecting

  abbrev pub step : Signal → WakeMachine → Tally → WakeMachine × Tally
  step (notified b) m t =
      let (m', act) = notify b m in (m', record t { hints = one_if act.hint + t.hints })
  step timer_fired m t =
      let (m', act) = fired m in (m', record t { polls = one_if act.poll + t.polls })
  step connection_lost m t =
      let (m', ask) = lost m in (m', record t { asked = one_if ask + t.asked })
  step (connection_back b) m t = (reconnected b m, record t { ended = suc t.ended })

  -- A run that does only what is allowed; a signal that is not is passed over.
  abbrev pub run : List Signal → WakeMachine → Tally → WakeMachine × Tally
  run [] m t = (m, t)
  run (s ∷ ss) m t =
      let (m', t') = step s m t in
      let there = run ss m' t' in let here = run ss m t in if allowed s m then there else here

  abbrev pub Owes : WakeMachine × Tally → Type 0
  Owes (m, t) = (t.hints ≡ t.polls + one_if m.hinted) × (t.asked ≡ t.ended + one_if m.reconnecting)

  step-Owes :
      (s : Signal) (m : WakeMachine) (t : Tally)
      → allowed s m ≡ true
      → Owes (m, t)
      → Owes (step s m t)
  unfolding notify fired lost reconnected
  step-Owes (notified true) m t a h = ground arith
  step-Owes (notified false) m t a h = omega (arith, h)
  step-Owes timer_fired m t a h = ground arith
  step-Owes connection_lost m t a h = ground arith
  step-Owes (connection_back b) m t a h = ground arith

  run-Owes : (ss : List Signal) (m : WakeMachine) (t : Tally) → Owes (m, t) → Owes (run ss m t)
  run-Owes [] m t h = h
  run-Owes (s ∷ ss) m t h = elim (Bool-cases (allowed s m)) [
    | inl a ↦ rw a (run-Owes ss (step s m t).0 (step s m t).1 (step-Owes s m t a h))
    | inr a ↦ rw a (run-Owes ss m t h)
  ]

  -- However many notifications arrive, and in whatever order timers fire and connections are lost and
  -- come back: a machine that starts anew has given as many hints as timers have fired, and one more
  -- exactly while a hint waits; and it has asked for as many reconnections as have ended, and one more
  -- exactly while one is under way.
  pub hints_coalesce :
      (interval : ℤ) (jitter : Option (ℤ → ℤ)) (ss : List Signal)
      → Owes (
          run ss
            (new_wake_machine interval jitter)
            (record { hints = 0; polls = 0; asked = 0; ended = 0 }))
  unfolding new_wake_machine
  hints_coalesce interval jitter ss =
      run-Owes ss (new_wake_machine interval jitter)
        (record { hints = 0; polls = 0; asked = 0; ended = 0 }) (refl, refl)

-- The delay of a hint is not negative, and it is at most the interval of the poll or else 0,
-- whatever is drawn.
pub wake_delay_range :
    (interval : ℤ) (draw : ℤ → ℤ)
    → (pos 0 ≤ℤ wake_delay interval draw)
      × ((wake_delay interval draw ≤ℤ interval) ⊎ (wake_delay interval draw ≡ pos 0))
unfolding wake_delay
wake_delay_range interval draw = ground arith
