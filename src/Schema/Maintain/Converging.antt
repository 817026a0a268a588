-- ===== src/Schema/Maintain/Converging.antt =====
-- internal/schema/maintain.go: the loop of a pass covers every range that it does not refuse.
use pg_noty.Base.{
  ◌≡◌, refl, sym, subst, inl, inr, Bool, true, false, not, ◌||◌, List, [], ◌∷◌, arith, any, All,
  Text, ok, guard, then_ok, ok_inv, Result-cases, Bool-cases, eq_of_parts,
}
use pg_noty.Schema.Maintain.{
  Partition, Database, Weather, Settled, server_error, default_blocked, nameable, same_extent_as,
  observe_partitions, ranges_not_yet_observed, refuse,
}
use pg_noty.Schema.Maintain.Create.{is_taken, created, create_one, covers_after, converge}

-- Whether a partition of the same extent is attached.
abbrev pub is_observed : Database → Partition → Bool
is_observed db p = any (same_extent_as p) (observe_partitions db)

pub same_extent_refl : (p : Partition) → same_extent_as p p ≡ true
same_extent_refl p = ground arith

create_one_lem :
    (schema instance_id : Text) (p : Partition) (blocked : Bool) (w : Weather) (db db' : Database)
    → create_one schema instance_id p blocked w db ≡ ok db'
    → db' ≡ record db { tables = created instance_id p ∷ db.tables }
unfolding create_one
create_one_lem schema instance_id p blocked w db db' h =
    let (_, h₁) = then_ok (nameable schema) _ db' h in
    let (_, h₂) = then_ok (nameable p.name) _ db' h₁ in
    let (_, h₃) = then_ok (guard (not w.lost) server_error) _ db' h₂ in
    let (_, h₄) = then_ok (guard (not (is_taken p db.tables)) server_error) _ db' h₃ in
    let (_, h₅) = then_ok (guard (not blocked) default_blocked) _ db' h₄ in
    let (_, h') = then_ok (guard (not w.commit_lost) server_error) _ db' h₅ in
    sym (ok_inv _ refl h')

-- A created table is observed, and so is what was observed before.
created_observed :
    (instance_id : Text) (p q : Partition) (db : Database)
    → (is_observed db q || same_extent_as q p) ≡ true
    → is_observed (record db { tables = created instance_id p ∷ db.tables }) q ≡ true
unfolding observe_partitions
created_observed instance_id p q db h = ground (arith, h)

covered_after :
    (p : Partition) (w : Weather) (db : Database)
    → covers_after p w db ≡ true
    → is_observed db p ≡ true
unfolding ranges_not_yet_observed
covered_after p w db h = ground (arith, h)

-- Other replicas take no partition of the log away while a pass creates.
abbrev pub Keeps : Weather → Type 0
Keeps w =
    (db : Database) (p : Partition)
    → is_observed db p ≡ true
    → is_observed (w.meanwhile db) p ≡ true

-- The cases of one step, as Boolean facts.
kept_or : (a b c : Bool) → (a ≡ true → b ≡ true) → (a || c) ≡ true → (b || c) ≡ true
kept_or true b c f h = ground (arith, f refl)
kept_or false b c f h = ground (arith, h)

grown_or :
    (a b c d : Bool) → ((a || b) ≡ true → d ≡ true) → (a || (b || c)) ≡ true → (d || c) ≡ true
grown_or true b c d f h = ground (arith, f refl)
grown_or false true c d f h = ground (arith, f refl)
grown_or false false c d f h = ground (arith, h)

pub same_extent_inv :
    (q p : Partition)
    → same_extent_as q p ≡ true
    → (q.extent.from ≡ p.extent.from) × (q.extent.to ≡ p.extent.to)
same_extent_inv q p h = (
  eq_of_parts q.extent.from p.extent.from (ground (arith, h)),
  eq_of_parts q.extent.to p.extent.to (ground (arith, h)),
)

same_observed :
    (q p : Partition) (ps : List Partition)
    → same_extent_as q p ≡ true
    → any (same_extent_as p) ps ≡ true
    → any (same_extent_as q) ps ≡ true
same_observed q p ps h k = let (a, b) = same_extent_inv q p h in rw (a, b) k

refused_none : (p : Partition) (s : Settled) → (refuse p s).refused ≡ [] → ⊥
refused_none p s h = cc

pub converge_covers :
    (schema instance_id : Text) (steps : List (Partition × Bool × Weather)) (db : Database)
    → All (λ (s : Partition × Bool × Weather). Keeps s.2) steps
    → (converge schema instance_id steps db).refused ≡ []
    → (q : Partition)
    → (is_observed db q || any (λ (s : Partition × Bool × Weather). same_extent_as q s.0) steps)
      ≡ true
    → is_observed (converge schema instance_id steps db).database q ≡ true
unfolding converge
converge_covers schema instance_id [] db k r q h = ground (arith, h)
converge_covers schema instance_id ((p, blocked, w) ∷ steps) db k r q h =
    elim (Result-cases (create_one schema instance_id p blocked w (w.meanwhile db))) [
      | inl (after, e) ↦
          let shape = create_one_lem schema instance_id p blocked w (w.meanwhile db) after e in
          let rest = (converge schema instance_id steps after).refused in
          rw (e, converge)
            (converge_covers schema instance_id steps after k.1 (rw (e, converge) at r) q (
              subst
                (λ x.
                  (is_observed x q
                    || any (λ (s : Partition × Bool × Weather). same_extent_as q s.0) steps)
                  ≡ true)
                (sym shape)
                (grown_or _ _ _ _ (created_observed instance_id p q (w.meanwhile db))
                  (kept_or _ _ _ (k.0 db q) h))))
      | inr (x, e) ↦ elim (Bool-cases (covers_after p w (w.meanwhile db))) [
        | inr d ↦ absurd (
            refused_none p (converge schema instance_id steps (w.meanwhile db))
              (rw (e, converge, d) at r))
        | inl d ↦
            rw (e, converge, d)
              (converge_covers schema instance_id steps (w.meanwhile db) k.1
                (rw (e, converge, d) at r) q
                (grown_or _ _ _ _ (in_catalog d) (kept_or _ _ _ (k.0 db q) h)))
      ]
    ]
  where
    in_catalog :
        covers_after p w (w.meanwhile db) ≡ true
        → (is_observed (w.meanwhile db) q || same_extent_as q p) ≡ true
        → is_observed (w.meanwhile db) q ≡ true
    in_catalog d e = elim (Bool-cases (same_extent_as q p)) [
      | inl same ↦
          same_observed q p (observe_partitions (w.meanwhile db)) same
            (covered_after p w (w.meanwhile db) d)
      | inr other ↦ ground (arith, e, other)
    ]
