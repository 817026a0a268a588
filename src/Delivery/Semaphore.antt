-- ===== src/Delivery/Semaphore.antt =====
-- internal/delivery/semaphore.go: the slots of a buffered channel, of which some are filled.
use pg_noty.Base.{
  ℕ, suc, ◌-◌, ◌≤◌, ◌≡◌, ◌⊎◌, Bool, true, false, Option, none, some, arith, ltb, leb_ℤ, ℤ, pos,
  pos_part, if◌then◌else◌,
}

pub record Semaphore : Type 0 where
  pub used : ℕ
  pub capacity : ℕ

unfoldable pub new_semaphore : ℤ → Semaphore
new_semaphore capacity = record {
  used = 0;
  capacity = if leb_ℤ capacity (pos 0) then 1 else pos_part capacity;
}

-- `none` is the nil semaphore, which admits everything.
unfoldable pub try_acquire : Option Semaphore → Option Semaphore × Bool
try_acquire none = (none, true)
try_acquire (some s) =
    if ltb s.used s.capacity then (some (record s { used = suc s.used }), true) else (some s, false)

unfoldable pub release : Option Semaphore → Option Semaphore
release none = none
release (some s) = some (record s { used = s.used - 1 })

unfoldable pub has_capacity : Option Semaphore → Bool
has_capacity none = true
has_capacity (some s) = ltb s.used s.capacity

-- What a semaphore holds when `n` holders have acquired it and not released it.
abbrev pub Holds : ℕ → Option Semaphore → Type 0
Holds n none = Unit
Holds n (some s) = (s.used ≡ n) × (s.used ≤ s.capacity)

pub new_semaphore-Holds : (capacity : ℤ) → Holds 0 (some (new_semaphore capacity))
unfolding new_semaphore
new_semaphore-Holds capacity = ground arith

pub try_acquire-Holds :
    (n : ℕ) (s : Option Semaphore)
    → Holds n s
    → (((try_acquire s).1 ≡ true) × Holds (suc n) (try_acquire s).0)
      ⊎ (((try_acquire s).1 ≡ false) × ((try_acquire s).0 ≡ s) × Holds n (try_acquire s).0)
unfolding try_acquire
try_acquire-Holds n none h = ground arith
try_acquire-Holds n (some s) h = ground arith

pub release-Holds : (n : ℕ) (s : Option Semaphore) → Holds (suc n) s → Holds n (release s)
unfolding release
release-Holds n none h = tt
release-Holds n (some s) h = ground arith
