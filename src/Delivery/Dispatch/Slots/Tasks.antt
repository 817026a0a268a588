-- ===== src/Delivery/Dispatch/Slots/Tasks.antt =====
-- internal/delivery/dispatch.go: the operations of an admission and of a delivery give back what they
-- take, so that each operation keeps the account of the worker.
use pg_noty.Base.{
  ℕ, suc, ◌+◌, ◌<◌, ◌≤◌, ◌≡◌, refl, sym, ◌∙◌, ap, inl, inr, Bool, true, false, ◌&&◌, List, [], ◌∷◌,
  ◌++◌, if◌then◌else◌, arith, All, subst,
}
use pg_noty.Source.Store.{Event}
use pg_noty.Delivery.Worker.{Worker}
use pg_noty.Delivery.Dispatch.{
  Resource, global_slot, listener_slot, flight, activity, Task, ended, taking, counting, giving,
  starting, delivery, admission, try_take, advance,
}
use pg_noty.Delivery.Dispatch.Slots.{
  Thread, System, Step, enter, move, stop, Reach, start, next, same, owed, owing,
}
use pg_noty.Delivery.Dispatch.Slots.Accounts.{Accounted}
use pg_noty.Delivery.Dispatch.Slots.Steps.{more, try_take-Accounted, give-Accounted}

-- What is in the activity of the drain has both slots.
abbrev Covered : Task → Type 0
Covered c = (owed activity c ≤ owed global_slot c) × (owed activity c ≤ owed listener_slot c)

-- Under either answer the code gives a resource back as often as it has it then.
abbrev pub IsBalanced : Task → Type 0
IsBalanced ended = Unit
IsBalanced (taking r a b) =
    ((q : Resource) → owed q a ≡ (if same q r then suc (owed q b) else owed q b))
    × Covered (taking r a b)
    × IsBalanced a
    × IsBalanced b
IsBalanced (counting c) = (0 < owed flight c) × Covered (counting c) × IsBalanced c
IsBalanced (giving r c) = Covered (giving r c) × IsBalanced c
IsBalanced (starting c) = Covered (starting c) × IsBalanced c

pub IsBalanced-Covered : (c : Task) → IsBalanced c → Covered c
IsBalanced-Covered ended h = (omega arith, omega arith)
IsBalanced-Covered (taking r a b) h = h.1
IsBalanced-Covered (counting c) h = h.1
IsBalanced-Covered (giving r c) h = h.0
IsBalanced-Covered (starting c) h = h.0

-- What is true of each resource.
each :
    (P : Resource → Type 0)
    → P global_slot
    → P listener_slot
    → P flight
    → P activity
    → (q : Resource) → P q
each P g l f a global_slot = g
each P g l f a listener_slot = l
each P g l f a flight = f
each P g l f a activity = a

delivery-IsBalanced : IsBalanced delivery
delivery-IsBalanced = (
  (omega arith, omega arith),
  ((omega arith, omega arith), ((omega arith, omega arith), ((omega arith, omega arith), tt))),
)

rollback-IsBalanced : IsBalanced (giving flight (giving global_slot (giving listener_slot ended)))
rollback-IsBalanced =
    ((omega arith, omega arith), ((omega arith, omega arith), ((omega arith, omega arith), tt)))

pub admission-IsBalanced : IsBalanced admission
admission-IsBalanced = (
  each _ refl refl refl refl,
  (omega arith, omega arith),
  (
    each _ refl refl refl refl,
    (omega arith, omega arith),
    (
      omega arith,
      (omega arith, omega arith),
      (
        each _ refl refl refl refl,
        (omega arith, omega arith),
        ((omega arith, omega arith), delivery-IsBalanced),
        rollback-IsBalanced,
      ),
    ),
    ((omega arith, omega arith), tt),
  ),
  tt,
)

-- What the other goroutines have, and one more.
abbrev held : Event → Task → (Resource → (Event → Bool) → ℕ) → Resource → (Event → Bool) → ℕ
held ev c n q p = (if p ev then owed q c else 0) + n q p

shifted :
    (s p : Bool) (x y m : ℕ)
    → x ≡ (if s then suc y else y)
    → (if s && p then suc ((if p then y else 0) + m) else (if p then y else 0) + m)
      ≡ (if p then x else 0) + m
shifted s p x y m h = ground (arith, h)

module _ (n : Resource → (Event → Bool) → ℕ) (ev : Event) where
  more_held :
      (r : Resource) (a b : Task)
      → ((q : Resource) → owed q a ≡ (if same q r then suc (owed q b) else owed q b))
      → more r ev (held ev b n) ≡ held ev a n
  more_held r a b h = λ i q p. shifted (same q r) (p ev) (owed q a) (owed q b) (n q p) (h q) i

  counted_owed :
      (c : Task)
      → 0 < owed flight c
      → (q : Resource)
      → owed q c ≡ (if same q flight then suc (owed q (counting c)) else owed q (counting c))
  counted_owed c h = each _ refl refl (omega arith) refl

  -- One operation.
  advance-Accounted :
      (c : Task) (w : Worker)
      → IsBalanced c
      → Accounted (held ev c n) w
      → Accounted (held ev (advance ev c w).1 n) (advance ev c w).0 × IsBalanced (advance ev c w).1
  unfolding advance try_take
  advance-Accounted ended w b acc = (acc, tt)
  advance-Accounted (taking r x y) w b acc = elim (try_take-Accounted (held ev y n) ev r w acc) [
    | inl (got, more_acc) ↦
        rw (advance, got)
          (subst (λ k. Accounted k (try_take r ev w).0) (more_held r x y b.0) more_acc, b.2)
    | inr (got, same_acc) ↦ rw (advance, got) (same_acc, b.3)
  ]
  advance-Accounted (counting c) w b acc =
      elim (try_take-Accounted (held ev (counting c) n) ev flight w acc) [
        | inl (got, more_acc) ↦ (
          subst (λ k. Accounted k (try_take flight ev w).0)
              (more_held flight c (counting c) (counted_owed c b.0)) more_acc,
          b.2,
        )
        | inr (got, same_acc) ↦ absurd (cc got)
      ]
  advance-Accounted (giving r c) w b acc = (
    give-Accounted (held ev c n) ev r w
        (subst (λ k. Accounted k w) (sym (more_held r (giving r c) c (λ q. refl))) acc),
    b.1,
  )
  advance-Accounted (starting c) w b acc = (acc, b.1)

-- The account of one goroutine stands in that of all.
owing_middle :
    (ts us : List Thread) (ev : Event) (c : Task)
    → owing (ts ++ ((ev, c) ∷ us)) ≡ held ev c (owing (ts ++ us))
owing_middle ts us ev c = λ i q p. at q p ts i
  where
    at :
        (q : Resource) (p : Event → Bool) (ts : List Thread)
        → owing (ts ++ ((ev, c) ∷ us)) q p ≡ held ev c (owing (ts ++ us)) q p
    at q p [] = refl
    at q p ((e, d) ∷ ts) = omega (arith, at q p ts)

All-middle :
    (P : Thread → Type 0) (ts us : List Thread) (t : Thread)
    → All P (ts ++ (t ∷ us))
    → P t × ((t' : Thread) → P t' → All P (ts ++ (t' ∷ us)))
All-middle P [] us t h = (h.0, λ t' k. (k, h.1))
All-middle P (x ∷ ts) us t h =
    let (own, rest) = All-middle P ts us t h.1 in (own, λ t' k. (h.0, rest t' k))

-- A state of the system whose account is right.
abbrev pub Sound : System → Type 0
Sound s = Accounted (owing s.threads) s.worker × All (λ t. IsBalanced t.1) s.threads

entered-Accounted : (n : Resource → (Event → Bool) → ℕ) (ev : Event) → held ev admission n ≡ n
entered-Accounted n ev = λ i q p. nothing (p ev) (n q p) q i
  where
    nothing : (b : Bool) (m : ℕ) (q : Resource) → (if b then owed q admission else 0) + m ≡ m
    nothing true m q =
        each (λ q. owed q admission + m ≡ m) (omega arith) (omega arith) (omega arith) (omega arith)
          q
    nothing false m q = omega arith

stopped-Accounted :
    (n : Resource → (Event → Bool) → ℕ) (w : Worker)
    → Accounted n w
    → Accounted n (record w { stopping = true })
stopped-Accounted n w a = record {
  global = a.global;
  names = a.names;
  slots = a.slots;
  flights = a.flights;
  total = a.total;
  keys = a.keys;
  tracked = a.tracked;
}

pub Step-Sound : {s t : System} → Step s t → Sound s → Sound t
Step-Sound (enter s ev l found active fits) (acc, balanced) = (
  subst (λ k. Accounted k s.worker) (sym (entered-Accounted (owing s.threads) ev)) acc,
  (admission-IsBalanced, balanced),
)
Step-Sound (move s ts us ev c here) (acc, balanced) =
    let (own, others) =
      All-middle (λ t. IsBalanced t.1) ts us (ev, c)
        (subst (All (λ t. IsBalanced t.1)) here balanced) in
    let (acc', own') =
      advance-Accounted (owing (ts ++ us)) ev c s.worker own
        (subst (λ k. Accounted k s.worker) (ap owing here ∙ owing_middle ts us ev c) acc) in
    (
      subst (λ k. Accounted k (advance ev c s.worker).0)
          (sym (owing_middle ts us ev (advance ev c s.worker).1)) acc',
      others (ev, (advance ev c s.worker).1) own',
    )
Step-Sound (stop s) (acc, balanced) = (stopped-Accounted (owing s.threads) s.worker acc, balanced)

pub Reach-Sound : {s t : System} → Reach s t → Sound s → Sound t
Reach-Sound start a = a
Reach-Sound (next r k) a = Step-Sound k (Reach-Sound r a)
