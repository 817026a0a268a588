-- ===== src/Delivery/Dispatch/Slots.antt =====
-- internal/delivery/dispatch.go, semaphore.go and drain.go: the slots, counts and activity of a worker
-- agree with the goroutines that are under way, under every interleaving of their lock and channel
-- operations with each other and with the start of the drain.
pub mod Accounts
pub mod Steps
pub mod Tasks
pub mod Runs
pub mod Caps
use pg_noty.Base.{
  ℕ, zero, suc, ◌+◌, ◌-◌, ◌≤◌, ◌<◌, ◌≡◌, refl, ◌∙◌, sym, ap, inl, inr, Bool, true, false, Option,
  none, some, List, [], ◌∷◌, ◌++◌, ◌==◌, ==_iff, if◌then◌else◌, arith, String, str_eq, eq_iff, All,
  length, Bool-cases, Option-cases, some_inv, subst,
}
use pg_noty.Source.Store.{Event}
use pg_noty.Delivery.Semaphore.{Semaphore, Holds}
use pg_noty.Delivery.Worker.{ListenerState, Worker, listener_of}
use pg_noty.Delivery.Dispatch.{
  set_sem, sem_of, too_large, Resource, global_slot, listener_slot, flight, activity, Task, ended,
  taking, counting, giving, starting, admission, advance,
}

abbrev pub count_id : ℕ → List Event → ℕ
count_id i [] = 0
count_id i (e ∷ es) = if e.id == i then suc (count_id i es) else count_id i es

-- A goroutine that has an event, and the operations that it has before it.
abbrev pub Thread : Type 0
Thread = Event × Task

-- A worker and the goroutines that admit or deliver.
pub record System : Type 0 where
  pub worker : Worker
  pub threads : List Thread

pub data Step : System → System → Type 0 where
  -- An admission passes the first checks of `tryDispatch`.
  enter :
      (s : System) (ev : Event) (l : ListenerState)
      → listener_of ev.listener s.worker.listeners ≡ some l
      → s.worker.stopping ≡ false
      → too_large l.config ev ≡ false
      → Step s (record s { threads = (ev, admission) ∷ s.threads })
  -- One of the goroutines makes one operation.
  move :
      (s : System) (ts us : List Thread) (ev : Event) (c : Task)
      → s.threads ≡ ts ++ ((ev, c) ∷ us)
      → Step s (record {
        worker = (advance ev c s.worker).0;
        threads = ts ++ ((ev, (advance ev c s.worker).1) ∷ us);
      })
  stop : (s : System) → Step s (record s { worker = record (s.worker) { stopping = true } })

pub data Reach (s : System) : System → Type 0 where
  start : Reach s s
  next : {t u : System} → Reach s t → Step t u → Reach s u

abbrev pub same : Resource → Resource → Bool
same global_slot global_slot = true
same listener_slot listener_slot = true
same flight flight = true
same activity activity = true
same _ _ = false

-- How often a goroutine still gives a resource back, and so how often it has it now.
abbrev pub owed : Resource → Task → ℕ
owed q ended = 0
owed q (taking r a b) = owed q b
owed q (counting c) = if same q flight then owed q c - 1 else owed q c
owed q (giving r c) = if same q r then suc (owed q c) else owed q c
owed q (starting c) = owed q c

-- The resources that the goroutines of some events have.
abbrev pub owing : List Thread → Resource → (Event → Bool) → ℕ
owing [] q p = 0
owing ((ev, c) ∷ ts) q p = (if p ev then owed q c else 0) + owing ts q p

abbrev pub of_any : Event → Bool
of_any ev = true

abbrev pub of_listener : String → Event → Bool
of_listener name ev = str_eq ev.listener name

abbrev pub of_id : ℕ → Event → Bool
of_id i ev = ev.id == i

pub str_eq-flip : (a b : String) → str_eq a b ≡ false → str_eq b a ≡ false
str_eq-flip a b h = elim (Bool-cases (str_eq b a)) [
  | inl e ↦ absurd (cc (h, (eq_iff a b).1 (sym ((eq_iff b a).0 e))))
  | inr e ↦ e
]

-- The names of the listeners, which are keys of the program's map.
abbrev pub NamesDistinct : List ListenerState → Type 0
NamesDistinct [] = Unit
NamesDistinct (l ∷ ls) = All (λ m. str_eq m.config.name l.config.name ≡ false) ls × NamesDistinct ls

abbrev pub Listening : (String → ℕ) → List ListenerState → Type 0
Listening f = All (λ l. Holds (f l.config.name) l.sem)

pub set_sem-other :
    (f f' : String → ℕ) (name : String) (ls : List ListenerState)
    → ((m : String) → str_eq m name ≡ false → f' m ≡ f m)
    → All (λ m. str_eq m.config.name name ≡ false) ls
    → Listening f ls
    → Listening f' ls
set_sem-other f f' name [] same others h = tt
set_sem-other f f' name (l ∷ ls) same others h =
    (rw (same l.config.name others.0) h.0, set_sem-other f f' name ls same others.1 h.1)

-- A listener's slots change, and no other listener's.
pub set_sem-Listening :
    (f f' : String → ℕ) (name : String) (s : Option Semaphore) (ls : List ListenerState)
    → NamesDistinct ls
    → ((m : String) → str_eq m name ≡ false → f' m ≡ f m)
    → Holds (f' name) s
    → Listening f ls
    → Listening f' (set_sem name s ls)
unfolding set_sem
set_sem-Listening f f' name s [] d same k h = tt
set_sem-Listening f f' name s (l ∷ ls) d same k h = elim (Bool-cases (str_eq l.config.name name)) [
  | inl e ↦
      let own = (eq_iff l.config.name name).0 e in
      rw e (rw own k, set_sem-other f f' name ls same (rw own at d.0) h.1)
  | inr e ↦ rw e (rw (same l.config.name e) h.0, set_sem-Listening f f' name s ls d.1 same k h.1)
]

pub set_sem-names :
    (name m : String) (s : Option Semaphore) (ls : List ListenerState)
    → All (λ l. str_eq l.config.name m ≡ false) ls
    → All (λ l. str_eq l.config.name m ≡ false) (set_sem name s ls)
unfolding set_sem
set_sem-names name m s [] h = tt
set_sem-names name m s (l ∷ ls) h = elim (Bool-cases (str_eq l.config.name name)) [
  | inl e ↦ rw e (h.0, h.1)
  | inr e ↦ rw e (h.0, set_sem-names name m s ls h.1)
]

pub set_sem-NamesDistinct :
    (name : String) (s : Option Semaphore) (ls : List ListenerState)
    → NamesDistinct ls
    → NamesDistinct (set_sem name s ls)
unfolding set_sem
set_sem-NamesDistinct name s [] d = tt
set_sem-NamesDistinct name s (l ∷ ls) d = elim (Bool-cases (str_eq l.config.name name)) [
  | inl e ↦ rw e (d.0, d.1)
  | inr e ↦ rw e (set_sem-names name l.config.name s ls d.0, set_sem-NamesDistinct name s ls d.1)
]

-- The slots of a name that no listener has are not there.
pub sem_of-Holds :
    (f : String → ℕ) (name : String) (ls : List ListenerState)
    → Listening f ls
    → Holds (f name) (sem_of name ls)
unfolding listener_of
sem_of-Holds f name [] h = tt
sem_of-Holds f name (k ∷ ls) h =
    let found : Bool → Option Semaphore =
      λ b. elim (if b then some k else listener_of name ls) [ none ↦ none | some l ↦ l.sem ] in
    elim (Bool-cases (str_eq k.config.name name)) [
      | inl c ↦
          let own = (eq_iff k.config.name name).0 c in
          subst (λ b. Holds (f name) (found b)) (sym c) (rw own at h.0)
      | inr c ↦ subst (λ b. Holds (f name) (found b)) (sym c) (sem_of-Holds f name ls h.1)
    ]
