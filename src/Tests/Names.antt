-- ===== src/Tests/Names.antt =====
-- internal/source/splitqualified.go, internal/reconcile/ownership.go and the grid of partitions at
-- concrete values.
use pg_noty.Base.{
  ℕ, List, ◌≡◌, ◌↔◌, refl, ◌++◌, true, some, [], ◌∷◌, pos, negsuc, codes, ◌+ℤ◌, ◌-ℤ◌, ◌*ℤ◌, arith,
}
use pg_noty.Schema.Identifier.{wrapped}
use pg_noty.Source.Qualified.{split_qualified}
use pg_noty.Reconcile.Marker.{marker}
use pg_noty.Reconcile.Ownership.{RegistryRow, CatalogObject, determine_ownership, owned_iff_marked}
use pg_noty.Schema.Partition.{
  Range, floor_div, required_ranges, horizon_partition_count, coverage_shortfall, negative_interval,
  unstorable_interval, unservable_horizon, unservable_horizon_in,
}
use pg_noty.Schema.Partition.Grid.{covers, required_ranges_cover}

split_so :
    split_qualified (wrapped (codes "noty") ++ (46 ∷ wrapped (codes "t")))
    ≡ some (codes "noty", codes "t")
unfolding split_qualified
split_so = refl

abbrev registered : RegistryRow
registered = record { present = true; listener = codes "orders"; operation = codes "insert" }

abbrev marked : CatalogObject
marked = record {
  kind = codes "trigger";
  identity = codes "trigger orders";
  marker = some (marker (codes "main") (codes "orders") (codes "insert"));
}

owned_iff_marked_example : ((determine_ownership registered marked (codes "main")).owned ≡ true) ↔ (
    (true ≡ true)
    × (marked.marker ≡ some (marker (codes "main") (codes "orders") (codes "insert"))))
owned_iff_marked_example = owned_iff_marked registered marked (codes "main") refl refl refl

required_ranges_cover_example : covers (required_ranges (negsuc 4) 10 15) (pos 10) ≡ true
unfolding floor_div ◌+ℤ◌ ◌*ℤ◌ ◌-ℤ◌
required_ranges_cover_example =
    required_ranges_cover (negsuc 4) 10 15 (pos 10) (omega arith)
      (record { above = omega arith; below = omega arith })
      (record { above = omega arith; below = omega arith })
      (record { above = omega arith; below = omega arith })
      (record { above = omega arith; below = omega arith }) (omega arith) (omega arith)

-- The sign is refused before the granularity, and the granularity before the count.
unservable_horizon_in_refuses_in_order :
    (unservable_horizon_in (negsuc 1499) 172800000000000 ≡ negative_interval)
    × (unservable_horizon_in (pos 1) 172800000000000 ≡ unstorable_interval)
    × (unservable_horizon_in (pos 1000) 172800000000000000 ≡ unservable_horizon 172800000000001)
unfolding unservable_horizon_in horizon_partition_count
unservable_horizon_in_refuses_in_order = (refl, refl, refl)

abbrev day : ℕ → ℕ → Range
day a b = record { from = pos a; to = pos b }

-- The second range starts where the first ends; the third is beyond a hole.
abbrev observed : List Range
observed = day 20 30 ∷ day 40 50 ∷ day 10 20 ∷ []

coverage_shortfall_run : coverage_shortfall observed (pos 12) (pos 25) ≡ pos 7
unfolding coverage_shortfall ◌+ℤ◌ ◌-ℤ◌
coverage_shortfall_run = refl
