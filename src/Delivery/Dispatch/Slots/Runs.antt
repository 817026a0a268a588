-- ===== src/Delivery/Dispatch/Slots/Runs.antt =====
-- internal/delivery/dispatch.go: an attempt, or the end of a delivery, that nothing comes between is one of
-- the orders in which operations can come.
use pg_noty.Base.{◌≡◌, refl, inl, inr, List, [], ◌∷◌, if◌then◌else◌, Bool-cases, subst}
use pg_noty.Source.Store.{Event}
use pg_noty.Delivery.Worker.{Worker}
use pg_noty.Delivery.Dispatch.{
  DispatchState, accepted, Task, ended, taking, counting, giving, starting, try_take, advance,
  run_through,
}
use pg_noty.Delivery.Dispatch.Slots.{Thread, System, Reach, next, move}

-- One goroutine among others.
abbrev pub with_thread : Worker → Event → Task → List Thread → System
with_thread w ev c us = record { worker = w; threads = (ev, c) ∷ us }

-- Where a run ends: with nothing left to do, or with a goroutine to start.
abbrev pub IsEnd : DispatchState → Task → Type 0
IsEnd accepted c = (delivering : Task) × (c ≡ starting delivering)
IsEnd _ c = c ≡ ended

module _ (t : System) (ev : Event) (us : List Thread) where
  advanced :
      (c : Task) (w : Worker)
      → Reach t (with_thread w ev c us)
      → Reach t (with_thread (advance ev c w).0 ev (advance ev c w).1 us)
  advanced c w r = next r (move (with_thread w ev c us) [] us ev c refl)

  -- A run reaches what its operations reach one by one, and ends where nothing is left but to start.
  pub run_through-Reach :
      (c : Task) (w : Worker)
      → Reach t (with_thread w ev c us)
      → (c' : Task) × IsEnd (run_through ev c w).1 c'
        × Reach t (with_thread (run_through ev c w).0 ev c' us)
  unfolding run_through advance
  run_through-Reach ended w r = (ended, refl, r)
  run_through-Reach (taking q a b) w r = elim (Bool-cases (try_take q ev w).1) [
    | inl e ↦
        let step : Reach t (with_thread (try_take q ev w).0 ev a us) =
          subst (λ g. Reach t (with_thread (try_take q ev w).0 ev (if g then a else b) us)) e
            (advanced (taking q a b) w r) in
        rw (run_through, e) (run_through-Reach a (try_take q ev w).0 step)
    | inr e ↦
        let step : Reach t (with_thread (try_take q ev w).0 ev b us) =
          subst (λ g. Reach t (with_thread (try_take q ev w).0 ev (if g then a else b) us)) e
            (advanced (taking q a b) w r) in
        rw (run_through, e) (run_through-Reach b (try_take q ev w).0 step)
  ]
  run_through-Reach (counting c) w r = run_through-Reach c _ (advanced (counting c) w r)
  run_through-Reach (giving q c) w r = run_through-Reach c _ (advanced (giving q c) w r)
  run_through-Reach (starting c) w r = (starting c, (c, refl), r)
