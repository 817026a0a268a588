-- ===== src/Schema/Maintain/Covering.antt =====
-- internal/schema/maintain.go: a pass that refuses nothing leaves no instant up to the horizon without its
-- partition.
use pg_noty.Base.{
  ◌≡◌, refl, sym, ap, ◌∙◌, subst, inl, inr, Bool, true, not, ◌&&◌, ◌||◌, none, some, List, [], ◌∷◌,
  map, if◌then◌else◌, arith, ltb_ℤ, leb_ℤ, ℤ, pos, ◌+ℤ◌, ◌*ℤ◌, ◌≤ℤ◌, Int64, any, any_found, All,
  All-map, Text, Bool-cases, some_inv,
}
use pg_noty.Schema.Partition.{
  Range, floor_div, required_ranges, HorizonVerdict, servable, negative_interval,
  unstorable_interval, unservable_horizon, division_by_zero, unservable_horizon_in,
}
use pg_noty.Schema.Partition.Horizon.{servable_horizon_lem}
use pg_noty.Schema.Partition.Grid.{required_ranges_cover}
use pg_noty.Schema.Maintain.{
  Partition, Database, Weather, Settled, Retention, same_extent_as, named, observe_partitions,
  ranges_not_yet_observed, plan_maintenance,
}
use pg_noty.Schema.Maintain.Create.{is_servable, converge, maintain}
use pg_noty.Schema.Maintain.Converging.{
  is_observed, same_extent_refl, Keeps, same_extent_inv, converge_covers,
}

-- Each range is observed, or it is among those that are not.
none_left_out :
    (db : Database) (ps : List Partition)
    → All
        (λ q.
          (is_observed db q
            || any (same_extent_as q) (ranges_not_yet_observed ps (observe_partitions db)))
          ≡ true)
        ps
unfolding ranges_not_yet_observed
none_left_out db [] = tt
none_left_out db (p ∷ ps) = elim (Bool-cases (is_observed db p)) [
  | inl e ↦
      let less : ranges_not_yet_observed (p ∷ ps) (observe_partitions db)
          ≡ ranges_not_yet_observed ps (observe_partitions db) =
        rw (e, ranges_not_yet_observed) refl in
      subst (λ m. All (λ q. (is_observed db q || any (same_extent_as q) m) ≡ true) (p ∷ ps))
        (sym less) (ground (arith, e), none_left_out db ps)
  | inr e ↦
      let more : ranges_not_yet_observed (p ∷ ps) (observe_partitions db)
          ≡ p ∷ ranges_not_yet_observed ps (observe_partitions db) =
        rw (e, ranges_not_yet_observed) refl in
      subst (λ m. All (λ q. (is_observed db q || any (same_extent_as q) m) ≡ true) (p ∷ ps))
        (sym more)
        (
          ground (arith, same_extent_refl p),
          All-map _ _ ps (λ q h. longer (is_observed db q) (same_extent_as q p) _ h)
              (none_left_out db ps),
        )
]
  where
    longer : (a b c : Bool) → (a || c) ≡ true → (a || (b || c)) ≡ true
    longer a b c h = ground (arith, h)

abbrev pub in_partition : ℤ → Partition → Bool
in_partition t p = leb_ℤ p.extent.from t && ltb_ℤ t p.extent.to

in_same :
    (t : ℤ) (q : Partition) (ps : List Partition)
    → in_partition t q ≡ true
    → any (same_extent_as q) ps ≡ true
    → any (in_partition t) ps ≡ true
in_same t q [] h k = k
in_same t q (p ∷ ps) h k = elim (Bool-cases (same_extent_as q p)) [
  | inl e ↦
      let (a, b) = same_extent_inv q p e in
      let here : in_partition t p ≡ true = rw (sym a, sym b) h in rw here refl
  | inr e ↦ ground (arith, in_same t q ps h (rw e at k))
]

abbrev steps_for : (Partition → Bool × Weather) → List Partition → List (Partition × Bool × Weather)
steps_for weather = map (λ p. (p, (weather p).0, (weather p).1))

steps_keep :
    (ps : List Partition) (weather : Partition → Bool × Weather)
    → ((p : Partition) → Keeps (weather p).1)
    → All (λ (s : Partition × Bool × Weather). Keeps s.2) (steps_for weather ps)
steps_keep [] weather h = tt
steps_keep (p ∷ ps) weather h = (h p, steps_keep ps weather h)

steps_any :
    (q : Partition) (ps : List Partition) (weather : Partition → Bool × Weather)
    → any (λ (s : Partition × Bool × Weather). same_extent_as q s.0) (steps_for weather ps)
      ≡ any (same_extent_as q) ps
steps_any q [] weather = refl
steps_any q (p ∷ ps) weather = ap (λ b. same_extent_as q p || b) (steps_any q ps weather)

-- A pass that runs is over a horizon that its precondition passes.
maintain_ran :
    (now : ℤ) (cfg : Retention) (schema instance_id : Text) (weather : Partition → Bool × Weather)
    (db : Database) (s : Settled)
    → maintain now cfg schema instance_id true weather db ≡ some s
    → (unservable_horizon_in (pos cfg.partition_interval) cfg.precreate ≡ servable)
      × (converge schema instance_id
            (steps_for weather (plan_maintenance now cfg (observe_partitions db)).create)
            db
          ≡ s)
unfolding maintain
maintain_ran now cfg schema instance_id weather db s h =
    ran (unservable_horizon_in (pos cfg.partition_interval) cfg.precreate) _ h
  where
    ran :
        (v : HorizonVerdict) (r : Settled)
        → (if not (is_servable v) then none else some r) ≡ some s
        → (v ≡ servable) × (r ≡ s)
    ran servable r h = (refl, some_inv h)
    ran negative_interval r h = absurd (cc)
    ran unstorable_interval r h = absurd (cc)
    ran (unservable_horizon n) r h = absurd (cc)
    ran division_by_zero r h = absurd (cc)

-- A required range is observed after a pass that refuses nothing.
required_observed :
    (now : ℤ) (cfg : Retention) (schema instance_id : Text) (weather : Partition → Bool × Weather)
    (db : Database) (ps : List Partition)
    → ((p : Partition) → Keeps (weather p).1)
    → (converge schema instance_id
        (steps_for weather (ranges_not_yet_observed ps (observe_partitions db)))
        db).refused
      ≡ []
    → All
        (λ q.
          is_observed
            (converge schema instance_id
              (steps_for weather (ranges_not_yet_observed ps (observe_partitions db)))
              db).database
            q
          ≡ true)
        ps
required_observed now cfg schema instance_id weather db ps keeps refused =
    let missing = ranges_not_yet_observed ps (observe_partitions db) in
    All-map _ _ ps
      (λ q h.
        converge_covers schema instance_id (steps_for weather missing) db
          (steps_keep missing weather keeps) refused q
          (subst (λ b. (is_observed db q || b) ≡ true) (sym (steps_any q missing weather)) h))
      (none_left_out db ps)

named-All :
    (P : Partition → Type 0) (rs : List Range) → All P (map named rs) → All (λ r. P (named r)) rs
named-All P [] h = tt
named-All P (r ∷ rs) h = (h.0, named-All P rs h.1)

-- A pass of maintenance that can read the partitions and refuses none, where other replicas take no
-- partition away, the horizon is one that the precondition passes, and every instant is in reach of
-- int64 nanoseconds (now, the horizon, and the grid lines around them): after it every instant from
-- now to the horizon, inclusive, is in an attached partition.
pub maintain_covers :
    (now : ℤ) (cfg : Retention) (schema instance_id : Text) (weather : Partition → Bool × Weather)
    (db : Database) (s : Settled) (t : ℤ)
    → ((p : Partition) → Keeps (weather p).1)
    → maintain now cfg schema instance_id true weather db ≡ some s
    → s.refused ≡ []
    → Int64 now
    → Int64 (now +ℤ pos cfg.precreate)
    → Int64 (floor_div now cfg.partition_interval *ℤ pos cfg.partition_interval)
    → Int64 (
        (floor_div (now +ℤ pos cfg.precreate) cfg.partition_interval +ℤ pos 1)
        *ℤ pos cfg.partition_interval)
    → now ≤ℤ t
    → t ≤ℤ now +ℤ pos cfg.precreate
    → any (in_partition t) (observe_partitions s.database) ≡ true
unfolding plan_maintenance
maintain_covers now cfg schema instance_id weather db s t keeps ran refused a b c d l u =
    let (passed, same) = maintain_ran now cfg schema instance_id weather db s ran in
    let required = required_ranges now cfg.partition_interval cfg.precreate in
    let (positive, _, _) =
      servable_horizon_lem now cfg.partition_interval cfg.precreate passed a b in
    let covered =
      required_ranges_cover now cfg.partition_interval cfg.precreate t positive a b c d l u in
    let all_observed =
      required_observed now cfg schema instance_id weather db (map named required) keeps
        (ap (λ x. x.refused) same ∙ refused) in
    let (r, here, there) =
      any_found
        (λ r.
          is_observed
            (converge schema instance_id
              (steps_for weather
                (ranges_not_yet_observed (map named required) (observe_partitions db)))
              db).database
            (named r)
          ≡ true)
        (λ r. leb_ℤ r.from t && ltb_ℤ t r.to) required covered
        (named-All _ required all_observed) in
    in_same t (named r) (observe_partitions s.database) here
      (subst (λ x. is_observed x.database (named r) ≡ true) same there)
