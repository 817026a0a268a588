-- ===== src/Delivery/Dispatch/Slots/Steps.antt =====
-- internal/delivery/dispatch.go and drain.go: to take a resource and to give it back keep the account of
-- a worker.
use pg_noty.Base.{
  ℕ, suc, ◌-◌, ◌<◌, ◌≡◌, refl, sym, ◌∙◌, ap, inl, inr, ◌⊎◌, Bool, true, false, ◌&&◌, Option, none,
  some, [], ◌∷◌, ◌++◌, ◌==◌, ==_iff, if◌then◌else◌, arith, String, str_eq, eq_iff, ltb, ltb→lt,
  Bool-cases, subst,
}
use pg_noty.Source.Store.{Event}
use pg_noty.Delivery.Semaphore.{
  Semaphore, try_acquire, release, Holds, try_acquire-Holds, release-Holds,
}
use pg_noty.Delivery.Worker.{Worker, count_up, track}
use pg_noty.Delivery.Dispatch.{
  Resource, global_slot, listener_slot, flight, activity, set_sem, sem_of, try_take, give,
}
use pg_noty.Delivery.Dispatch.Slots.{
  same, of_any, of_listener, of_id, set_sem-Listening, set_sem-NamesDistinct, sem_of-Holds,
  str_eq-flip,
}
use pg_noty.Delivery.Dispatch.Slots.Accounts.{
  Accounted, count_of, count_up-total, count_up-count_of, finish_count-total, count_up-KeysDistinct,
  finish_count-count_of, finish_count-KeysDistinct, count_id-append, remove_first-count_id,
}

-- A resource more for one event.
abbrev pub more : Resource → Event → (Resource → (Event → Bool) → ℕ) → Resource → (Event → Bool) → ℕ
more r ev n q p = if same q r && p ev then suc (n q p) else n q p

-- The slots of a listener that have changed as its count has.
slots-Accounted :
    (n : Resource → (Event → Bool) → ℕ) (ev : Event) (k : Resource → (Event → Bool) → ℕ)
    (w : Worker) (s : Option Semaphore)
    → Accounted n w
    → ((q : Resource) (p : Event → Bool) → same q listener_slot ≡ false → k q p ≡ n q p)
    → ((m : String)
        → str_eq m ev.listener ≡ false
        → k listener_slot (of_listener m) ≡ n listener_slot (of_listener m))
    → Holds (k listener_slot (of_listener ev.listener)) s
    → Accounted k (record w { listeners = set_sem ev.listener s w.listeners })
slots-Accounted n ev k w s a rest others own = record {
  global = subst (λ c. Holds c (some w.global)) (sym (rest global_slot of_any refl)) a.global;
  names = set_sem-NamesDistinct ev.listener s w.listeners a.names;
  slots =
      set_sem-Listening (λ m. n listener_slot (of_listener m))
        (λ m. k listener_slot (of_listener m)) ev.listener s w.listeners a.names others own a.slots;
  flights = λ i. a.flights i ∙ sym (rest flight (of_id i) refl);
  total = a.total ∙ sym (rest flight of_any refl);
  keys = a.keys;
  tracked = λ i. a.tracked i ∙ sym (rest activity (of_id i) refl);
}

module _ (n : Resource → (Event → Bool) → ℕ) (ev : Event) where
  -- The slots of the other listeners are not touched.
  others_same :
      (m : String)
      → str_eq m ev.listener ≡ false
      → more listener_slot ev n listener_slot (of_listener m) ≡ n listener_slot (of_listener m)
  others_same m h = rw (str_eq-flip m ev.listener h) refl

  own_more :
      more listener_slot ev n listener_slot (of_listener ev.listener)
      ≡ suc (n listener_slot (of_listener ev.listener))
  own_more = rw ((eq_iff ev.listener ev.listener).1 refl) refl

  global-Accounted :
      (w : Worker) (s : Semaphore)
      → Accounted n w
      → Holds (suc (n global_slot of_any)) (some s)
      → Accounted (more global_slot ev n) (record w { global = s })
  global-Accounted w s a h = record {
    global = h;
    names = a.names;
    slots = a.slots;
    flights = a.flights;
    total = a.total;
    keys = a.keys;
    tracked = a.tracked;
  }

  flight-Accounted :
      (w : Worker)
      → Accounted n w
      → Accounted (more flight ev n) (record w { in_flight = count_up ev.id w.in_flight })
  flight-Accounted w a = record {
    global = a.global;
    names = a.names;
    slots = a.slots;
    flights = λ i. rw (count_up-count_of ev.id i w.in_flight, a.flights i) refl;
    total = count_up-total ev.id w.in_flight ∙ ap suc a.total;
    keys = count_up-KeysDistinct ev.id w.in_flight a.keys;
    tracked = a.tracked;
  }

  activity-Accounted :
      (w : Worker)
      → Accounted n w
      → Accounted (more activity ev n) (record w { tracked = w.tracked ++ (ev ∷ []) })
  activity-Accounted w a = record {
    global = a.global;
    names = a.names;
    slots = a.slots;
    flights = a.flights;
    total = a.total;
    keys = a.keys;
    tracked = λ i. rw (count_id-append i w.tracked ev, a.tracked i) refl;
  }

  -- `track`, which the drain's flag refuses.
  abbrev offered : Bool → Worker → Worker × Bool
  offered stopping w =
      elim (if stopping then none else some (record w { tracked = w.tracked ++ (ev ∷ []) })) [
        | some w' ↦ (w', true)
        | none ↦ (w, false)
      ]

  offered-Accounted :
      (stopping : Bool) (w : Worker)
      → Accounted n w
      → (((offered stopping w).1 ≡ true) × Accounted (more activity ev n) (offered stopping w).0)
        ⊎ (((offered stopping w).1 ≡ false) × Accounted n (offered stopping w).0)
  offered-Accounted true w a = inr (refl, a)
  offered-Accounted false w a = inl (refl, activity-Accounted w a)

  -- A resource that is got is one more, and one that is refused changes nothing.
  pub try_take-Accounted :
      (r : Resource) (w : Worker)
      → Accounted n w
      → (((try_take r ev w).1 ≡ true) × Accounted (more r ev n) (try_take r ev w).0)
        ⊎ (((try_take r ev w).1 ≡ false) × Accounted n (try_take r ev w).0)
  unfolding try_take try_acquire track
  try_take-Accounted global_slot w a = elim (Bool-cases (ltb w.global.used w.global.capacity)) [
    | inl f ↦
        let s = record (w.global) { used = suc w.global.used } in
        rw (try_take, f)
          (inl (
            refl,
            global-Accounted w s a (ap suc a.global.0, ltb→lt w.global.used w.global.capacity f),
          ))
    | inr f ↦ rw (try_take, f) (inr (refl, a))
  ]
  try_take-Accounted listener_slot w a =
      let mine =
        sem_of-Holds (λ m. n listener_slot (of_listener m)) ev.listener w.listeners a.slots in
      let s = (try_acquire (sem_of ev.listener w.listeners)).0 in
      elim (try_acquire-Holds (n listener_slot (of_listener ev.listener))
        (sem_of ev.listener w.listeners) mine) [
          | inl (got, h) ↦ inl (
            got,
            slots-Accounted n ev (more listener_slot ev n) w s a (λ q p f. rw f refl) others_same
                (subst (λ c. Holds c s) (sym own_more) h),
          )
          | inr (got, _, h) ↦
              inr (got, slots-Accounted n ev n w s a (λ q p f. refl) (λ m f. refl) h)
        ]
  try_take-Accounted flight w a = inl (refl, flight-Accounted w a)
  try_take-Accounted activity w a = offered-Accounted w.stopping w a

  less :
      (b : Bool) (c : ℕ)
      → (if b then (if b then suc c else c) - 1 else (if b then suc c else c)) ≡ c
  less true c = omega arith
  less false c = refl

  -- A resource that is given back is one less.
  pub give-Accounted :
      (r : Resource) (w : Worker) → Accounted (more r ev n) w → Accounted n (give r ev w)
  unfolding give release
  give-Accounted global_slot w a = record {
    global = release-Holds (n global_slot of_any) (some w.global) a.global;
    names = a.names;
    slots = a.slots;
    flights = a.flights;
    total = a.total;
    keys = a.keys;
    tracked = a.tracked;
  }
  give-Accounted listener_slot w a =
      let before = more listener_slot ev n in
      let mine =
        sem_of-Holds (λ m. before listener_slot (of_listener m)) ev.listener w.listeners a.slots in
      let slots = sem_of ev.listener w.listeners in
      slots-Accounted before ev n w (release slots) a (λ q p f. rw f refl)
        (λ m f. sym (others_same m f))
        (release-Holds (n listener_slot (of_listener ev.listener)) slots
          (subst (λ c. Holds c slots) own_more mine))
  give-Accounted flight w a = record {
    global = a.global;
    names = a.names;
    slots = a.slots;
    flights = λ i.
        rw (finish_count-count_of ev.id i w.in_flight a.keys, a.flights i)
          (less (ev.id == i) (n flight (of_id i)));
    total =
        (let here : 0 < count_of ev.id w.in_flight =
            rw (a.flights ev.id, (==_iff ev.id ev.id).1 refl) (omega arith) in
          let fewer = finish_count-total ev.id w.in_flight here in omega (arith, fewer, a.total));
    keys = finish_count-KeysDistinct ev.id w.in_flight a.keys;
    tracked = a.tracked;
  }
  give-Accounted activity w a = record {
    global = a.global;
    names = a.names;
    slots = a.slots;
    flights = a.flights;
    total = a.total;
    keys = a.keys;
    tracked = λ i.
        rw (remove_first-count_id ev.id i w.tracked, a.tracked i)
          (less (ev.id == i) (n activity (of_id i)));
  }
