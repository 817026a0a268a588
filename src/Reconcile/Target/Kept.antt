-- ===== src/Reconcile/Target/Kept.antt =====
-- internal/reconcile/targetresolve.go: a listener keeps the table it was applied to.
use pg_noty.Base.{
  ◌≡◌, refl, sym, ap, ◌∙◌, ◌⊎◌, inl, inr, false, ==_iff, Option, none, some, arith, Text, text_eq,
  text_eq_iff, Bool-cases, ok, bind_ok, ok_inv,
}
use pg_noty.Schema.Identifier.{Quoter}
use pg_noty.Reconcile.DdlText.{TargetReading}
use pg_noty.Reconcile.Classify.{healthy, renamed, dropped_and_recreated, classify_target}
use pg_noty.Reconcile.Registry.{RegistryListener}
use pg_noty.Reconcile.Target.{
  Catalog, Resolution, is_moved, by_configured_name, target_has_recorded_name,
  resolved_recorded_target, resolved_from, resolve_recorded, resolve_listener_target,
}

module _ (q : Quoter) (catalog : Catalog) where
  -- The recorded table is there, and is the target; the configured name, if it names a table, names it.
  abbrev pub Stays : Text → RegistryListener → Resolution → Type 0
  Stays name prior r =
      (catalog.resolve_target_oid prior.target_oid ≡ ok (some r.target))
      × (r.target.oid ≡ prior.target_oid)
      × ((r.outcome ≡ healthy) ⊎ (r.outcome ≡ renamed))
      × ((catalog.resolve_target name ≡ ok none)
          ⊎ ((c : TargetReading) × (catalog.resolve_target name ≡ ok (some c))
              × (c.oid ≡ prior.target_oid)))

  -- The recorded table is gone, and the target is the one that now has its name.
  abbrev pub Recreated : RegistryListener → Resolution → Type 0
  Recreated prior r =
      (catalog.resolve_target_oid prior.target_oid ≡ ok none)
      × (catalog.resolve_target prior.target_table ≡ ok (some r.target))
      × (r.outcome ≡ dropped_and_recreated)

  configured_lookup :
      (name recorded : Text) {by_name by_configured : Option TargetReading}
      → catalog.resolve_target recorded ≡ ok by_name
      → by_configured_name q catalog name recorded by_name ≡ ok by_configured
      → catalog.resolve_target name ≡ ok by_configured
  configured_lookup name recorded h k = elim (Bool-cases (text_eq name recorded)) [
    | inr e ↦ rw (by_configured_name, e) at k
    | inl e ↦
        let same = (text_eq_iff name recorded).0 e in
        ap (λ n. catalog.resolve_target n) same ∙ h ∙ (rw (by_configured_name, e) at k)
  ]

  not_moved :
      (name : Text) (prior : RegistryListener) (by_configured : Option TargetReading)
      → catalog.resolve_target name ≡ ok by_configured
      → is_moved q catalog by_configured prior.target_oid ≡ false
      → (catalog.resolve_target name ≡ ok none)
        ⊎ ((c : TargetReading) × (catalog.resolve_target name ≡ ok (some c))
            × (c.oid ≡ prior.target_oid))
  not_moved name prior none h m = inl h
  not_moved name prior (some c) h m = inr (c, h, (==_iff c.oid prior.target_oid).0 (ground arith))

  resolved_from_lem :
      (listener name : Text) (prior : RegistryListener)
      (by_oid by_name by_configured : Option TargetReading) {r : Resolution}
      → resolved_from q catalog listener name prior by_oid by_name by_configured ≡ ok r
      → r.refusal ≡ none
      → ((by_oid ≡ some r.target)
          × ((r.outcome ≡ healthy) ⊎ (r.outcome ≡ renamed))
          × (is_moved q catalog by_configured prior.target_oid ≡ false))
        ⊎ ((by_oid ≡ none) × (by_name ≡ some r.target) × (r.outcome ≡ dropped_and_recreated))
  unfolding resolved_from resolved_recorded_target classify_target target_has_recorded_name
  resolved_from_lem listener name prior none none by_configured h n =
      let e = ok_inv (ok _) refl h in absurd (cc)
  resolved_from_lem listener name prior none (some t) by_configured h n =
      let e = ok_inv (ok _) refl h in
      inr (refl, ap (λ x. some x.target) e, ap (λ x. x.outcome) (sym e))
  resolved_from_lem listener name prior (some o) by_name by_configured h n =
      elim (Bool-cases (is_moved q catalog by_configured prior.target_oid)) [
        | inl m ↦ let e = ok_inv (ok _) refl (rw (resolved_from, m) at h) in absurd (cc)
        | inr m ↦
            let (same_name, _, h') =
              bind_ok (target_has_recorded_name q catalog (some o) prior.target_table) _ _
                (rw (resolved_from, m) at h) in
            elim (Bool-cases same_name) [
              | inl s ↦
                  let e = ok_inv (ok _) refl (rw s at h') in
                  inl (ap (λ x. some x.target) e, inl (ap (λ x. x.outcome) (sym e)), m)
              | inr s ↦
                  let e = ok_inv (ok _) refl (rw s at h') in
                  inl (ap (λ x. some x.target) e, inr (ap (λ x. x.outcome) (sym e)), m)
            ]
      ]

  -- A listener that is recorded and not refused stays with the recorded table as long as that is there,
  -- whatever its name is now, and then its configured name does not name another table; only if the
  -- recorded table is gone is the table that has taken its name adopted.
  pub resolve_listener_target_lem :
      (listener name : Text) (prior : RegistryListener) {r : Resolution}
      → resolve_listener_target q catalog listener name (some prior) ≡ ok r
      → r.refusal ≡ none
      → Stays name prior r ⊎ Recreated prior r
  unfolding resolve_listener_target resolve_recorded
  resolve_listener_target_lem listener name prior h n =
      let (by_oid, e1, h1) = bind_ok (catalog.resolve_target_oid prior.target_oid) _ _ h in
      let (by_name, e2, h2) = bind_ok (catalog.resolve_target prior.target_table) _ _ h1 in
      let (by_configured, e3, h3) =
        bind_ok (by_configured_name q catalog name prior.target_table by_name) _ _ h2 in
      let looked = configured_lookup name prior.target_table e2 e3 in
      elim (resolved_from_lem listener name prior by_oid by_name by_configured h3 n) [
        | inl (found, how, m) ↦
            let there = e1 ∙ ap (λ o. ok o) found in
            inl (
              there,
              catalog.oid_of_found prior.target_oid _ there,
              how,
              not_moved name prior by_configured looked m,
            )
        | inr (gone, named, how) ↦ inr (e1 ∙ ap (λ o. ok o) gone, e2 ∙ ap (λ o. ok o) named, how)
      ]
