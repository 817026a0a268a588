-- ===== src/Schema/Maintain/Reaping.antt =====
-- internal/schema/retention.go and retentiondrop.go: a pass of retention loses no live row of
-- the queue, and no partition but those that expired and have no such row.
use pg_noty.Base.{
  keep-All, ℕ, suc, ◌+◌, ◌≡◌, refl, sym, ap, ◌∙◌, subst, inl, inr, Bool, true, false, not, ◌&&◌,
  some, List, [], ◌∷◌, map, if◌then◌else◌, arith, ltb_ℤ, ℤ, ◌-ℤ◌, ◌≤ℤ◌, keep, any, any_self, All,
  All-map₂, length, Text, text_eq, text_eq_iff, Result-cases, Bool-cases,
}
use pg_noty.Source.Store.{Row}
use pg_noty.Schema.Maintain.{
  Partition, Table, Database, Weather, Settled, Retention, is_named, is_droppable,
  observe_partitions, count_changed, concede, refuse, plan_maintenance, retained_by_age,
  expired_ranges,
}
use pg_noty.Schema.Maintain.Drop.{within, drop_one, drop_expired, apply_retention}
use pg_noty.Schema.Maintain.Dropped.{is_live, Dropped, drop_one_lem, keep_kept, reap-live}

-- The tables that none of some partitions names.
abbrev pub is_other : List Partition → Table → Bool
is_other ps t = not (any (λ p. is_named p.name t) ps)

-- A partition with an event in its extent that one of some rows of the queue is about.
abbrev pub is_host : List Row → Table → Bool
is_host rows t = any (within t.partition.extent) rows

-- What other replicas leave alone in a step.
pub record Careful (ps : List Partition) (w : Weather) : Type 0 where
  pub live : (db : Database) → keep is_live (w.meanwhile db).queue ≡ keep is_live db.queue
  pub others :
      (db : Database) → keep (is_other ps) (w.meanwhile db).tables ≡ keep (is_other ps) db.tables
  pub hosts :
      (db : Database)
      → keep (is_host (keep is_live db.queue)) (w.meanwhile db).tables
        ≡ keep (is_host (keep is_live db.queue)) db.tables

-- What a pass leaves: the live rows, the tables whose extents they are in, the other tables, and an
-- account of its ranges.
pub record Kept (ps : List Partition) (db : Database) (count : ℕ) (s : Settled) : Type 0 where
  pub live : keep is_live s.database.queue ≡ keep is_live db.queue
  pub others : keep (is_other ps) s.database.tables ≡ keep (is_other ps) db.tables
  pub hosts :
      keep (is_host (keep is_live db.queue)) s.database.tables
      ≡ keep (is_host (keep is_live db.queue)) db.tables
  pub counted : s.changed + length s.conceded + length s.refused ≡ count

abbrev ranges_of : List (Partition × Weather) → List Partition
ranges_of = map (λ s. s.0)

-- A table of an other name is not the one that a drop takes.
other_stays :
    (all : List Partition) (p : Partition) (tables : List Table)
    → any (λ p'. text_eq p.name p'.name) all ≡ true
    → keep (is_other all) (keep (λ t. not (is_named p.name t)) tables) ≡ keep (is_other all) tables
other_stays all p tables m = keep_kept (is_other all) _ tables unnamed
  where
    unnamed : (t : Table) → is_other all t ≡ true → not (is_named p.name t) ≡ true
    unnamed t h = elim (Bool-cases (is_named p.name t)) [
      | inr e ↦ rw e refl
      | inl e ↦
          let same = (text_eq_iff t.partition.name p.name).0 e in
          let named = subst (λ n. any (λ p'. text_eq n p'.name) all ≡ true) (sym same) m in
          absurd (cc (rw named at h))
    ]

any-keep :
    {A : Type 0} (f p : A → Bool) (xs : List A) → any f xs ≡ false → any f (keep p xs) ≡ false
any-keep f p [] h = refl
any-keep f p (x ∷ xs) h = ground (arith, any-keep f p xs, h)

unreferenced_stays :
    (name : Text) (rows : List Row) (tables : List Table)
    → any (λ t. is_named name t && is_host rows t) tables ≡ false
    → keep (is_host (keep is_live rows)) (keep (λ t. not (is_named name t)) tables)
      ≡ keep (is_host (keep is_live rows)) tables
unreferenced_stays name rows [] h = refl
unreferenced_stays name rows (t ∷ ts) h = elim (Bool-cases (is_named name t)) [
  | inl n ↦ elim (Bool-cases (is_host rows t)) [
    | inl hosted ↦ absurd (cc (rw (n, hosted) at h))
    | inr free ↦
        let unhosted : is_host (keep is_live rows) t ≡ false =
          any-keep (within t.partition.extent) is_live rows free in
        rw (n, unhosted) (unreferenced_stays name rows ts (rw (n, free) at h))
  ]
  | inr n ↦
      let rest = unreferenced_stays name rows ts (rw n at h) in
      elim (Bool-cases (is_host (keep is_live rows) t)) [
        | inl hosted ↦ rw (n, hosted, rest) refl
        | inr free ↦ rw (n, free) rest
      ]
]

-- A drop takes no partition with a live row in its extent.
Dropped-hosts :
    (instance_id : Text) (p : Partition) (w : Weather) (db after : Database)
    → ((db : Database) → keep is_live (w.meanwhile db).queue ≡ keep is_live db.queue)
    → Dropped instance_id p (w.meanwhile db) after
    → keep (is_host (keep is_live db.queue)) after.tables
      ≡ keep (is_host (keep is_live db.queue)) (w.meanwhile db).tables
Dropped-hosts instance_id p w db after live d =
    let now = w.meanwhile db in
    let same : keep is_live after.queue ≡ keep is_live db.queue =
      ap (keep is_live) d.reaped ∙ (reap-live p.extent now.queue ∙ live db) in
    subst (λ rows. keep (is_host rows) after.tables ≡ keep (is_host rows) now.tables) same
      (ap (keep (is_host (keep is_live after.queue))) d.tables
        ∙ unreferenced_stays p.name after.queue now.tables d.unreferenced)

hosts_step :
    (db then_db : Database) (s : Settled)
    → keep is_live then_db.queue ≡ keep is_live db.queue
    → keep (is_host (keep is_live db.queue)) then_db.tables
      ≡ keep (is_host (keep is_live db.queue)) db.tables
    → keep (is_host (keep is_live then_db.queue)) s.database.tables
      ≡ keep (is_host (keep is_live then_db.queue)) then_db.tables
    → keep (is_host (keep is_live db.queue)) s.database.tables
      ≡ keep (is_host (keep is_live db.queue)) db.tables
hosts_step db then_db s live stay rest =
    subst (λ rows. keep (is_host rows) s.database.tables ≡ keep (is_host rows) then_db.tables) live
      rest
    ∙ stay

Dropped-step :
    (all : List Partition) (instance_id : Text) (p : Partition) (w : Weather) (db after : Database)
    (n : ℕ) (s : Settled)
    → any (λ p'. text_eq p.name p'.name) all ≡ true
    → Careful all w
    → Dropped instance_id p (w.meanwhile db) after
    → Kept all after n s
    → Kept all db (suc n) (count_changed s)
Dropped-step all instance_id p w db after n s m c d k = record {
  live =
      k.live
      ∙ (ap (keep is_live) d.reaped ∙ (reap-live p.extent (w.meanwhile db).queue ∙ c.live db));
  others =
      k.others
      ∙ (ap (keep (is_other all)) d.tables
          ∙ (other_stays all p (w.meanwhile db).tables m ∙ c.others db));
  hosts =
      hosts_step db after s
        (ap (keep is_live) d.reaped ∙ (reap-live p.extent (w.meanwhile db).queue ∙ c.live db))
        (Dropped-hosts instance_id p w db after c.live d ∙ c.hosts db) k.hosts;
  counted = omega (arith, k.counted);
}

Kept-step :
    (all : List Partition) (p : Partition) (w : Weather) (db : Database) (n : ℕ) (b : Bool)
    (s : Settled)
    → Careful all w
    → Kept all (w.meanwhile db) n s
    → Kept all db (suc n) (if b then concede p s else refuse p s)
Kept-step all p w db n true s c k = record {
  live = k.live ∙ c.live db;
  others = k.others ∙ c.others db;
  hosts = hosts_step db (w.meanwhile db) s (c.live db) (c.hosts db) k.hosts;
  counted = omega (arith, k.counted);
}
Kept-step all p w db n false s c k = record {
  live = k.live ∙ c.live db;
  others = k.others ∙ c.others db;
  hosts = hosts_step db (w.meanwhile db) s (c.live db) (c.hosts db) k.hosts;
  counted = omega (arith, k.counted);
}

drop_expired-Kept :
    (all : List Partition) (schema instance_id : Text) (steps : List (Partition × Weather))
    (db : Database)
    → All (λ s. any (λ p. text_eq s.0.name p.name) all ≡ true) steps
    → All (λ s. Careful all s.1) steps
    → Kept all db (length steps) (drop_expired schema instance_id steps db)
unfolding drop_expired
drop_expired-Kept all schema instance_id [] db m h = record {
  live = refl;
  others = refl;
  hosts = refl;
  counted = refl;
}
drop_expired-Kept all schema instance_id ((p, w) ∷ steps) db m h =
    elim (Result-cases (drop_one schema instance_id p w (w.meanwhile db))) [
      | inl (after, e) ↦
          rw (e, drop_expired)
            (Dropped-step all instance_id p w db after _ _ m.0 h.0
              (drop_one_lem schema instance_id p w (w.meanwhile db) after e)
              (drop_expired-Kept all schema instance_id steps after m.1 h.1))
      | inr (e, k) ↦
          rw (k, drop_expired)
            (Kept-step all p w db _ _ _ h.0
              (drop_expired-Kept all schema instance_id steps (w.meanwhile db) m.1 h.1))
    ]

All-keep : {A : Type 0} (P : A → Type 0) (p : A → Bool) (xs : List A) → All P xs → All P (keep p xs)
All-keep P p [] h = tt
All-keep P p (x ∷ xs) h = elim (Bool-cases (p x)) [
  | inl e ↦ rw e (h.0, All-keep P p xs h.1)
  | inr e ↦ rw e (All-keep P p xs h.1)
]

-- What a pass may drop: a partition with an age, and one that is past it.
pub record IsExpired (now : ℤ) (cfg : Retention) (p : Partition) : Type 0 where
  pub aged : is_droppable p ≡ true
  pub past : p.extent.to ≤ℤ now -ℤ cfg.retain

plan-IsExpired :
    (now : ℤ) (cfg : Retention) (observed : List Partition)
    → All (IsExpired now cfg) (plan_maintenance now cfg observed).drop
unfolding plan_maintenance retained_by_age expired_ranges
plan-IsExpired now cfg observed =
    let aged = keep-All is_droppable observed in
    let old = λ (p : Partition). not (ltb_ℤ (now -ℤ cfg.retain) p.extent.to) in
    All-map₂ (λ p. is_droppable p ≡ true) (λ p. old p ≡ true) (IsExpired now cfg) _ expired
      (All-keep (λ p. is_droppable p ≡ true) old _ aged) (keep-All old _)
  where
    expired :
        (p : Partition)
        → is_droppable p ≡ true
        → not (ltb_ℤ (now -ℤ cfg.retain) p.extent.to) ≡ true
        → IsExpired now cfg p
    expired p h k = record { aged = h; past = ground (arith, k) }

abbrev steps_of : (Partition → Weather) → List Partition → List (Partition × Weather)
steps_of weather = map (λ p. (p, weather p))

step_names :
    (all : List Partition) (ps : List Partition) (weather : Partition → Weather)
    → All (λ p. any (λ p'. text_eq p.name p'.name) all ≡ true) ps
    → All
        (λ (s : Partition × Weather). any (λ p. text_eq s.0.name p.name) all ≡ true)
        (steps_of weather ps)
step_names all [] weather h = tt
step_names all (p ∷ ps) weather h = (h.0, step_names all ps weather h.1)

step_care :
    (all ps : List Partition) (weather : Partition → Weather)
    → ((p : Partition) → Careful all (weather p))
    → All (λ (s : Partition × Weather). Careful all s.1) (steps_of weather ps)
step_care all [] weather h = tt
step_care all (p ∷ ps) weather h = (h p, step_care all ps weather h)

-- A pass of retention, where other replicas leave the live rows of the queue alone, and the tables whose
-- extents these are in or that have other names: it drops only partitions that have an age and are past
-- it. Every live row of the queue is there after it, as is every table with such a row in its extent and
-- every table that is not named as one of these, whatever errors the server gives; and each of the partitions is counted once, as dropped, as already gone or as refused.
pub apply_retention_lem :
    (now : ℤ) (cfg : Retention) (schema instance_id : Text) (weather : Partition → Weather)
    (db : Database)
    → ((p : Partition)
        → Careful (plan_maintenance now cfg (observe_partitions db)).drop (weather p))
    → (s : Settled) × (apply_retention now cfg schema instance_id true weather db ≡ some s)
      × All (IsExpired now cfg) (plan_maintenance now cfg (observe_partitions db)).drop
      × Kept
          (plan_maintenance now cfg (observe_partitions db)).drop
          db
          (length (plan_maintenance now cfg (observe_partitions db)).drop)
          s
unfolding apply_retention
apply_retention_lem now cfg schema instance_id weather db h =
    let drops = (plan_maintenance now cfg (observe_partitions db)).drop in
    let steps = steps_of weather drops in
    (
      drop_expired schema instance_id steps db,
      refl,
      plan-IsExpired now cfg (observe_partitions db),
      subst (λ n. Kept drops db n (drop_expired schema instance_id steps db))
          (length-map drops weather)
          (drop_expired-Kept drops schema instance_id steps db
            (step_names drops drops weather (
              any_self (λ a b. text_eq a.name b.name) (λ a. (text_eq_iff a.name a.name).1 refl)
                drops))
            (step_care drops drops weather h)),
    )
  where
    length-map :
        (ps : List Partition) (weather : Partition → Weather)
        → length (steps_of weather ps) ≡ length ps
    length-map [] weather = refl
    length-map (p ∷ ps) weather = ap suc (length-map ps weather)
