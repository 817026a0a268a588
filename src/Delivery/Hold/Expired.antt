-- ===== src/Delivery/Hold/Expired.antt =====
-- internal/delivery/hold.go: which events `dropExpiredHeld` drops, by the holds the worker has.
use pg_noty.Base.{
  ℕ, ◌-◌, ◌<◌, ◌≡◌, refl, ap, ◌∙◌, inl, inr, ◌⊎◌, true, false, subst, sym, none, some, List, [],
  ◌∷◌, ◌==◌, arith, ℤ, pos, ◌≤ℤ◌, Bool-cases, Option-cases,
}
use pg_noty.Source.Store.{Event}
use pg_noty.Source.Transition.{sub_time}
use pg_noty.Delivery.Worker.{Worker, held_since, unhold}
use pg_noty.Delivery.Hold.{drop_expired_held, expired_at, lease_hold_limit}
use pg_noty.Delivery.Dispatch.Slots.{count_id}

-- A key stands in the map once.
abbrev pub HeldDistinct : List (ℕ × ℤ) → Type 0
HeldDistinct [] = Unit
HeldDistinct ((i, t) ∷ m) = (held_since i m ≡ none) × HeldDistinct m

-- The event has been held locally for as long as the lease allows, or longer.
pub record HoldExpired (now : ℤ) (w : Worker) (i : ℕ) : Type 0 where
  pub since : ℤ
  pub held : held_since i w.held ≡ some since
  pub over : pos (lease_hold_limit w) ≤ℤ sub_time now since

expired_at-HoldExpired :
    (now : ℤ) (w : Worker) (i : ℕ)
    → expired_at now (lease_hold_limit w) (held_since i w.held) ≡ true
    → HoldExpired now w i
expired_at-HoldExpired now w i h = elim (Option-cases (held_since i w.held)) [
  | inl e ↦ absurd (cc (rw e at h))
  | inr (since, e) ↦ record {
    since = since;
    held = e;
    over = (let late = rw e at h in ground arith);
  }
]

not_expired_at :
    (now : ℤ) (w : Worker) (i : ℕ)
    → expired_at now (lease_hold_limit w) (held_since i w.held) ≡ false
    → ¬ HoldExpired now w i
not_expired_at now w i h expired =
    let early = rw (expired.held) at h in let late = expired.over in ground arith

held_since-unhold :
    (i j : ℕ) (m : List (ℕ × ℤ)) → (j == i) ≡ false → held_since i (unhold j m) ≡ held_since i m
unfolding held_since unhold
held_since-unhold i j [] h = refl
held_since-unhold i j ((k, t) ∷ m) h = elim (Bool-cases (k == j)) [
  | inl e ↦ let other : (k == i) ≡ false = ground arith in rw (e, other) refl
  | inr e ↦ rw (e, held_since-unhold i j m h) refl
]

unhold-none : (i : ℕ) (m : List (ℕ × ℤ)) → HeldDistinct m → held_since i (unhold i m) ≡ none
unfolding held_since unhold
unhold-none i [] d = refl
unhold-none i ((k, t) ∷ m) d = elim (Bool-cases (k == i)) [
  | inl e ↦ let same : k ≡ i = ground arith in rw e (subst (λ l. held_since l m ≡ none) same d.0)
  | inr e ↦ rw (e, e, unhold-none i m d.1) refl
]

unhold-HeldDistinct : (i : ℕ) (m : List (ℕ × ℤ)) → HeldDistinct m → HeldDistinct (unhold i m)
unfolding unhold
unhold-HeldDistinct i [] d = tt
unhold-HeldDistinct i ((k, t) ∷ m) d = elim (Bool-cases (k == i)) [
  | inl e ↦ rw e d.1
  | inr e ↦
      let other : (i == k) ≡ false = ground arith in
      rw e (held_since-unhold k i m other ∙ d.0, unhold-HeldDistinct i m d.1)
]

-- If no event is dropped, all are kept.
pub drop_expired_held-none :
    (now : ℤ) (evs : List Event) (w : Worker)
    → (drop_expired_held now evs w).0.1 ≡ false
    → (drop_expired_held now evs w).0.0 ≡ evs
unfolding drop_expired_held
drop_expired_held-none now [] w h = refl
drop_expired_held-none now (ev ∷ evs) w h =
    elim (Bool-cases (expired_at now (lease_hold_limit w) (held_since ev.id w.held))) [
      | inl e ↦ absurd (cc (rw e at h))
      | inr e ↦ rw e (ap (λ es. ev ∷ es) (drop_expired_held-none now evs w (rw e at h)))
    ]

-- The holds that are left when one has been dropped.
module _ (now : ℤ) (i j : ℕ) (w : Worker) where
  HoldExpired-unhold :
      HeldDistinct w.held
      → HoldExpired now (record w { held = unhold j w.held }) i
      → HoldExpired now w i × ((j == i) ≡ false)
  unfolding lease_hold_limit
  HoldExpired-unhold d h = elim (Bool-cases (j == i)) [
    | inl e ↦
        let same : j ≡ i = ground arith in
        let held : held_since i (unhold j w.held) ≡ some h.since = h.held in
        absurd (cc (unhold-none i w.held d, rw same at held))
    | inr e ↦ (
      record {
        since = h.since;
        held = (let held = h.held in rw (held_since-unhold i j w.held e) at held);
        over = h.over;
      },
      e,
    )
  ]

  unhold-HoldExpired :
      (j == i) ≡ false
      → HoldExpired now w i
      → HoldExpired now (record w { held = unhold j w.held }) i
  unfolding lease_hold_limit
  unhold-HoldExpired e h = record {
    since = h.since;
    held = held_since-unhold i j w.held e ∙ h.held;
    over = h.over;
  }

-- Of each id, what is kept: one copy fewer exactly if its hold has expired.
pub drop_expired_held-Kept :
    (now : ℤ) (i : ℕ) (evs : List Event) (w : Worker)
    → HeldDistinct w.held
    → (HoldExpired now w i × (count_id i (drop_expired_held now evs w).0.0 ≡ count_id i evs - 1))
      ⊎ ((¬ HoldExpired now w i) × (count_id i (drop_expired_held now evs w).0.0 ≡ count_id i evs))
unfolding drop_expired_held
drop_expired_held-Kept now i [] w d =
    elim (Bool-cases (expired_at now (lease_hold_limit w) (held_since i w.held))) [
      | inl e ↦ inl (expired_at-HoldExpired now w i e, refl)
      | inr e ↦ inr (not_expired_at now w i e, refl)
    ]
drop_expired_held-Kept now i (ev ∷ evs) w d =
    elim (Bool-cases (expired_at now (lease_hold_limit w) (held_since ev.id w.held))) [
      | inl e ↦
          let w' = record w { held = unhold ev.id w.held } in
          elim (drop_expired_held-Kept now i evs w' (unhold-HeldDistinct ev.id w.held d)) [
            | inl (gone, count) ↦
                let (before, other) = HoldExpired-unhold now i ev.id w d gone in
                inl (before, rw e (ground (arith, other, count)))
            | inr (kept, count) ↦ elim (Bool-cases (ev.id == i)) [
              | inl same ↦
                  let here : ev.id ≡ i = ground arith in
                  inl (
                    subst (HoldExpired now w) here (expired_at-HoldExpired now w ev.id e),
                    rw e (ground (arith, same, count)),
                  )
              | inr other ↦ inr (
                λ h. kept (unhold-HoldExpired now i ev.id w other h),
                rw e (ground (arith, other, count)),
              )
            ]
          ]
      | inr e ↦ elim (drop_expired_held-Kept now i evs w d) [
        | inl (gone, count) ↦ elim (Bool-cases (ev.id == i)) [
          | inl same ↦
              let here : ev.id ≡ i = ground arith in
              absurd (not_expired_at now w ev.id e (subst (HoldExpired now w) (sym here) gone))
          | inr other ↦ inl (gone, rw e (ground (arith, other, count)))
        ]
        | inr (kept, count) ↦ inr (kept, rw e (ground (arith, count)))
      ]
    ]

-- An event is dropped only if the hold of an event in the list has expired.
pub expired-HoldExpired :
    (now : ℤ) (evs : List Event) (w : Worker)
    → HeldDistinct w.held
    → (drop_expired_held now evs w).0.1 ≡ true
    → (i : ℕ) × HoldExpired now w i × (0 < count_id i evs)
unfolding drop_expired_held
expired-HoldExpired now [] w d h = absurd (cc)
expired-HoldExpired now (ev ∷ evs) w d h =
    elim (Bool-cases (expired_at now (lease_hold_limit w) (held_since ev.id w.held))) [
      | inl e ↦ (ev.id, expired_at-HoldExpired now w ev.id e, ground arith)
      | inr e ↦
          let (i, gone, here) = expired-HoldExpired now evs w d (rw e at h) in
          (i, gone, ground (arith, here))
    ]
