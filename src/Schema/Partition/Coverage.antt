-- ===== src/Schema/Partition/Coverage.antt =====
-- internal/schema/partition.go: what the shortfall says of the partitions that are there, and what expiry
-- takes away.
use pg_noty.Base.{
  ◌≡◌, ◌∙◌, sym, inl, inr, Bool, true, ◌&&◌, List, [], ◌∷◌, arith, -ℤ_parts, +ℤ_parts, ltb_ℤ, leb_ℤ,
  ℤ, pos, ◌+ℤ◌, ◌-ℤ◌, ◌≤ℤ◌, ◌<ℤ◌, any_weaken, any-sort_by, sort_by, Bool-cases,
}
use pg_noty.Schema.Partition.{Range, reach_of, starts_le, coverage_shortfall}
use pg_noty.Schema.Partition.Grid.{covers}

abbrev holds : ℤ → Range → Bool
holds t r = leb_ℤ r.from t && ltb_ℤ t r.to

-- Between where it starts and where it ends, the reach is covered.
reach_of-covers :
    (rs : List Range) (reach t : ℤ) → reach ≤ℤ t → t <ℤ reach_of rs reach → covers rs t ≡ true
unfolding reach_of
reach_of-covers [] reach t l u = absurd (omega (arith, l, u))
reach_of-covers (r ∷ rs) reach t l u = elim (Bool-cases (ltb_ℤ reach r.from)) [
  | inl e ↦ absurd (omega (arith, l, rw e at u))
  | inr e ↦ elim (Bool-cases (ltb_ℤ t r.to)) [
    | inl f ↦ ground (arith, e, f, l)
    | inr f ↦ any_weaken (holds t) r rs (elim (Bool-cases (ltb_ℤ reach r.to)) [
      | inl g ↦ reach_of-covers rs r.to t (ground (arith, f)) (rw (e, g) at u)
      | inr g ↦ reach_of-covers rs reach t l (rw (e, g) at u)
    ])
  ]
]

reach_of-onward : (rs : List Range) (reach : ℤ) → reach ≤ℤ reach_of rs reach
unfolding reach_of
reach_of-onward [] reach = omega arith
reach_of-onward (r ∷ rs) reach = elim (Bool-cases (ltb_ℤ reach r.from)) [
  | inl e ↦ rw e (omega arith)
  | inr e ↦ rw e (elim (Bool-cases (ltb_ℤ reach r.to)) [
    | inl g ↦ rw g (let on = reach_of-onward rs r.to in ground (arith, on, g))
    | inr g ↦ rw g (reach_of-onward rs reach)
  ])
]

-- Every instant from now on that is at least the shortfall before the horizon has its partition, in
-- whatever order the partitions were observed. The shortfall is not negative, and it is at most the
-- time to the horizon where that is not negative.
pub coverage_shortfall_lem :
    (observed : List Range) (now precreate t : ℤ)
    → (now ≤ℤ t
        → t +ℤ coverage_shortfall observed now precreate <ℤ now +ℤ precreate
        → covers observed t ≡ true)
      × (pos 0 ≤ℤ coverage_shortfall observed now precreate)
      × (pos 0 ≤ℤ precreate → coverage_shortfall observed now precreate ≤ℤ precreate)
unfolding coverage_shortfall
coverage_shortfall_lem observed now precreate t =
    let reach = reach_of (sort_by starts_le observed) now in
    let on = reach_of-onward (sort_by starts_le observed) now in
    let sum = +ℤ_parts now precreate in
    let gap = -ℤ_parts (now +ℤ precreate) reach in
    let whole : t <ℤ reach → now ≤ℤ t → covers observed t ≡ true = λ u l.
      sym (any-sort_by starts_le (holds t) observed)
      ∙ reach_of-covers (sort_by starts_le observed) now t l u in
    elim (Bool-cases (leb_ℤ (now +ℤ precreate) reach)) [
      | inl e ↦
          rw e ((λ l u. whole (ground (arith, +ℤ_parts t (pos 0), u, e)) l), omega arith, λ h. h)
      | inr e ↦ rw e (
        (λ l u. whole (ground (arith, +ℤ_parts t ((now +ℤ precreate) -ℤ reach), gap, u, e)) l),
        ground (arith, gap, e),
        λ h. ground (arith, gap, sum, on, e),
      )
    ]
