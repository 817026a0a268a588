-- ===== src/Delivery/Dispatch/Slots/Accounts.antt =====
-- internal/delivery/dispatch.go, semaphore.go and drain.go: what every step keeps of a worker's account.
use pg_noty.Base.{
  ℕ, suc, Bool, ◌-◌, ◌<◌, ◌≡◌, refl, ◌∙◌, inl, inr, false, some, List, [], ◌∷◌, ◌++◌, ◌==◌, ==_iff,
  if◌then◌else◌, arith, leb, Bool-cases, subst,
}
use pg_noty.Source.Store.{Event}
use pg_noty.Delivery.Semaphore.{Holds}
use pg_noty.Delivery.Worker.{count_up, finish_count, in_flight_total, remove_first}
use pg_noty.Delivery.Worker.{Worker}
use pg_noty.Delivery.Dispatch.{Resource, global_slot, listener_slot, flight, activity}
use pg_noty.Delivery.Dispatch.Slots.{count_id, NamesDistinct, Listening, of_any, of_listener, of_id}

-- The count of one event in `inFlight`.
abbrev pub count_of : ℕ → List (ℕ × ℕ) → ℕ
count_of i [] = 0
count_of i ((j, n) ∷ m) = if j == i then n else count_of i m

pub count_up-total :
    (i : ℕ) (m : List (ℕ × ℕ)) → in_flight_total (count_up i m) ≡ suc (in_flight_total m)
unfolding in_flight_total count_up
count_up-total i [] = refl
count_up-total i ((j, n) ∷ m) = ground (arith, count_up-total i m)

pub count_up-count_of :
    (i k : ℕ) (m : List (ℕ × ℕ))
    → count_of k (count_up i m) ≡ (if i == k then suc (count_of k m) else count_of k m)
unfolding count_up
count_up-count_of i k [] = ground arith
count_up-count_of i k ((j, n) ∷ m) = ground (arith, count_up-count_of i k m)

pub finish_count-total :
    (i : ℕ) (m : List (ℕ × ℕ))
    → 0 < count_of i m
    → suc (in_flight_total (finish_count i m)) ≡ in_flight_total m
unfolding in_flight_total finish_count
finish_count-total i [] h = omega (arith, h)
finish_count-total i ((j, n) ∷ m) h = elim (Bool-cases (j == i)) [
  | inl e ↦ ground arith
  | inr e ↦ rw e ((let rest = finish_count-total i m (rw e at h) in omega (arith, rest)))
]

abbrev pub KeysDistinct : List (ℕ × ℕ) → Type 0
KeysDistinct [] = Unit
KeysDistinct ((j, n) ∷ m) = (count_of j m ≡ 0) × KeysDistinct m

pub count_up-KeysDistinct :
    (i : ℕ) (m : List (ℕ × ℕ)) → KeysDistinct m → KeysDistinct (count_up i m)
unfolding count_up
count_up-KeysDistinct i [] d = (refl, tt)
count_up-KeysDistinct i ((j, n) ∷ m) d = elim (Bool-cases (j == i)) [
  | inl e ↦ rw e (d.0, d.1)
  | inr e ↦
      let away : (i == j) ≡ false = ground arith in
      rw e ((count_up-count_of i j m ∙ rw away d.0), count_up-KeysDistinct i m d.1)
]

pub finish_count-count_of :
    (i k : ℕ) (m : List (ℕ × ℕ))
    → KeysDistinct m
    → count_of k (finish_count i m) ≡ (if i == k then count_of k m - 1 else count_of k m)
unfolding finish_count
finish_count-count_of i k [] d = ground arith
finish_count-count_of i k ((j, n) ∷ m) d = elim (Bool-cases (j == i)) [
  | inl e ↦
      let same : j ≡ i = (==_iff j i).0 e in
      let gone : count_of i m ≡ 0 = rw same at d.0 in
      elim (Bool-cases (i == k)) [
        | inl c ↦
            let also : count_of k m ≡ 0 = subst (λ x. count_of x m ≡ 0) ((==_iff i k).0 c) gone in
            ground (arith, also, c, same)
        | inr c ↦ ground (arith, e, c)
      ]
  | inr e ↦ ground (arith, e, finish_count-count_of i k m d.1)
]

pub finish_count-KeysDistinct :
    (i : ℕ) (m : List (ℕ × ℕ)) → KeysDistinct m → KeysDistinct (finish_count i m)
unfolding finish_count
finish_count-KeysDistinct i [] d = tt
finish_count-KeysDistinct i ((j, n) ∷ m) d = elim (Bool-cases (j == i)) [
  | inl e ↦ rw e (elim (Bool-cases (leb n 1)) [ inl c ↦ rw c d.1 | inr c ↦ rw c (d.0, d.1) ])
  | inr e ↦
      let away : (i == j) ≡ false = ground arith in
      rw e ((finish_count-count_of i j m d.1 ∙ rw away d.0), finish_count-KeysDistinct i m d.1)
]

pub count_id-append :
    (i : ℕ) (xs : List Event) (ev : Event)
    → count_id i (xs ++ (ev ∷ [])) ≡ (if ev.id == i then suc (count_id i xs) else count_id i xs)
count_id-append i [] ev = refl
count_id-append i (x ∷ xs) ev = ground (arith, count_id-append i xs ev)

pub remove_first-count_id :
    (i k : ℕ) (xs : List Event)
    → count_id k (remove_first i xs) ≡ (if i == k then count_id k xs - 1 else count_id k xs)
unfolding remove_first
remove_first-count_id i k [] = ground arith
remove_first-count_id i k (x ∷ xs) = elim (Bool-cases (x.id == i)) [
  | inl e ↦
      let same : x.id ≡ i = (==_iff x.id i).0 e in
      rw (e, same) (elim (Bool-cases (i == k)) [ inl c ↦ rw c (omega arith) | inr c ↦ rw c refl ])
  | inr e ↦
      rw (e, remove_first-count_id i k xs)
        (elim (Bool-cases (i == k)) [
          | inl c ↦ let away : (x.id == k) ≡ false = ground (arith, e, c) in rw (c, away) refl
          | inr c ↦ rw c refl
        ])
]

-- The account of a worker with what the goroutines have: `n` says of a resource how often those whose
-- events pass a test have it.
pub record Accounted (n : Resource → (Event → Bool) → ℕ) (w : Worker) : Type 0 where
  pub global : Holds (n global_slot of_any) (some w.global)
  pub names : NamesDistinct w.listeners
  pub slots : Listening (λ name. n listener_slot (of_listener name)) w.listeners
  pub flights : (i : ℕ) → count_of i w.in_flight ≡ n flight (of_id i)
  pub total : in_flight_total w.in_flight ≡ n flight of_any
  pub keys : KeysDistinct w.in_flight
  pub tracked : (i : ℕ) → count_id i w.tracked ≡ n activity (of_id i)
