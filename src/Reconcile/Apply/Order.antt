-- ===== src/Reconcile/Apply/Order.antt =====
-- internal/reconcile/applytx.go: the order in which an apply comes to its targets, which is the order of
-- its locks.
use pg_noty.Base.{
  ◌≡◌, refl, sym, ap, ◌∙◌, subst, inl, inr, Bool, true, false, ◌||◌, List, [], ◌∷◌, arith, Text,
  text_eq, sort_by, any-sort_by, any, any-perm, Result, ok, err, bind_ok, Result-cases,
}
use mathlib.Core.List.{Perm}
use pg_noty.Schema.Identifier.{Quoter}
use pg_noty.Reconcile.DdlText.{ApplyError, table_name}
use pg_noty.Reconcile.Apply.{
  ApplyObject, ApplyGroup, add_object, group_le, collect_groups, grouped_apply_objects,
}
use pg_noty.Reconcile.Apply.Ascending.{
  names, is_grouped, Ascending, Distinct, add_object-is_grouped, add_object-Distinct,
  sort_by-Ascending, Ascending-names,
}

abbrev no_name : Result ApplyError Text → Bool
no_name (ok _) = false
no_name (err _) = true

abbrev spells : Text → Result ApplyError Text → Bool
spells t (ok name) = text_eq t name
spells t (err _) = false

module _ (q : Quoter) where
  abbrev is_unnameable : ApplyObject → Bool
  is_unnameable object = no_name (table_name q object.target)

  abbrev is_named_by : Text → ApplyObject → Bool
  is_named_by t object = spells t (table_name q object.target)

  -- What the grouping keeps: no target has two groups, and the targets are those of the objects.
  collect_groups_lem :
      (objects : List ApplyObject) (gs : List ApplyGroup) {collected : List ApplyGroup}
      → Distinct gs
      → collect_groups q objects gs ≡ ok collected
      → Distinct collected
        × (any is_unnameable objects ≡ false)
        × ((t : Text) → is_grouped t collected ≡ (any (is_named_by t) objects || is_grouped t gs))
  unfolding collect_groups
  collect_groups_lem [] gs {collected} d e =
      let same : gs ≡ collected = cc in
      (subst Distinct same d, refl, λ t. ap (is_grouped t) (sym same))
  collect_groups_lem (object ∷ objects) gs d e =
      let (name, named, rest) = bind_ok (table_name q object.target) _ _ e in
      let (apart, nameable, has) =
        collect_groups_lem objects (add_object name object gs)
          (add_object-Distinct name object gs d) rest in
      (
        apart,
        rw (is_unnameable, named) nameable,
        λ t. rw (is_named_by, named, has t, add_object-is_grouped name object t gs) (ground arith),
      )

  collect_groups_total :
      (objects : List ApplyObject) (gs : List ApplyGroup)
      → any is_unnameable objects ≡ false
      → (collected : List ApplyGroup) × (collect_groups q objects gs ≡ ok collected)
  unfolding collect_groups
  collect_groups_total [] gs n = (gs, refl)
  collect_groups_total (object ∷ objects) gs n = elim (Result-cases (table_name q object.target)) [
    | inl (name, e) ↦
        rw e (collect_groups_total objects (add_object name object gs) (rw (is_unnameable, e) at n))
    | inr (fault, e) ↦ absurd (cc (rw (is_unnameable, e) at n))
  ]

  -- Grouping ends with groups whose targets strictly ascend by name, each with one group; and in
  -- whatever order the objects come, it succeeds and has the same targets in the same order. So no two
  -- applies to the same targets take their locks in different orders.
  pub grouped_apply_objects_order :
      (objects others : List ApplyObject) {gs : List ApplyGroup}
      → Perm objects others
      → grouped_apply_objects q objects ≡ ok gs
      → Ascending gs
        × ((hs : List ApplyGroup) × (grouped_apply_objects q others ≡ ok hs)
            × (names hs ≡ names gs))
  unfolding grouped_apply_objects
  grouped_apply_objects_order objects others {gs} p e =
      let (collected, f, sorted) = bind_ok (collect_groups q objects []) _ _ e in
      let (apart, nameable, has) = collect_groups_lem objects [] tt f in
      let (collected', f') =
        collect_groups_total others [] (sym (any-perm is_unnameable p) ∙ nameable) in
      let (apart', _, has') = collect_groups_lem others [] tt f' in
      let is : sort_by group_le collected ≡ gs = cc in
      let up = sort_by-Ascending collected apart in
      let up' = sort_by-Ascending collected' apart' in
      let same : (t : Text)
          → is_grouped t (sort_by group_le collected') ≡ is_grouped t (sort_by group_le collected) =
        λ t.
          any-sort_by group_le (λ g. text_eq t g.name) collected'
          ∙ has' t
          ∙ ap (λ b. b || false) (sym (any-perm (is_named_by t) p))
          ∙ sym (has t)
          ∙ sym (any-sort_by group_le (λ g. text_eq t g.name) collected) in
      (
        subst Ascending is up,
        (sort_by group_le collected', rw f' refl, Ascending-names _ _ up' up same ∙ ap names is),
      )
