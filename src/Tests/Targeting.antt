-- ===== src/Tests/Targeting.antt =====
-- internal/reconcile/targetresolve.go: a table that was renamed, one that was made anew, and a move.
use pg_noty.Base.{
  ◌≡◌, refl, sym, ap, ◌∙◌, ◌⊎◌, inl, inr, ℕ, true, ◌==◌, ==_iff, none, some, [], if◌then◌else◌, pos,
  Text, codes, text_eq, Bool-cases, some_inv, ok, ok_inv,
}
use pg_noty.Schema.Identifier.{model_quoter, qualified, why_unusable}
use pg_noty.Reconcile.DdlText.{TargetReading}
use pg_noty.Reconcile.Classify.{renamed, dropped_and_recreated, classify_target}
use pg_noty.Reconcile.Registry.{RegistryListener}
use pg_noty.Reconcile.Target.{
  Catalog, Resolution, Lookup, retargeted, target_has_recorded_name, resolved_recorded_target,
  resolved_from, resolve_recorded, resolve_listener_target,
}
use pg_noty.Reconcile.Target.Kept.{Stays, Recreated, resolve_listener_target_lem}

abbrev archive : TargetReading
archive = record { oid = 7; schema = codes "public"; table = codes "archive" }

abbrev orders : TargetReading
orders = record { oid = 9; schema = codes "public"; table = codes "orders" }

abbrev by_name : Text → Lookup
by_name name =
    if text_eq name (codes "\"public\".\"archive\"")
    then ok (some archive)
    else if text_eq name (codes "\"public\".\"orders\"")
    then ok (some orders)
    else ok none

abbrev by_oid : ℕ → Lookup
by_oid n = if n == 7 then ok (some archive) else ok none

by_oid-oid : (n : ℕ) (r : TargetReading) → by_oid n ≡ ok (some r) → r.oid ≡ n
by_oid-oid n r h = elim (Bool-cases (n == 7)) [
  | inl e ↦
      let same : some archive ≡ some r = ok_inv (ok (some archive)) refl (rw e at h) in
      ap (λ x. x.oid) (sym (some_inv same)) ∙ sym ((==_iff n 7).0 e)
  | inr e ↦ absurd (cc (rw e at h))
]

abbrev catalog : Catalog
catalog = record {
  resolve_target = by_name;
  resolve_target_oid = by_oid;
  oid_of_found = by_oid-oid;
}

abbrev recorded_at : ℕ → RegistryListener
recorded_at oid = record {
  name = codes "audit";
  spec = [];
  spec_hash = [];
  target_table = codes "\"public\".\"orders\"";
  target_oid = oid;
  enabled = true;
  applied_at = pos 1;
}

-- The table of the OID has another name now, and is configured under that.
abbrev follows_rename : Resolution
follows_rename = record { outcome = renamed; target = archive; refusal = none }

renamed_run :
    resolve_listener_target model_quoter catalog
      (codes "audit")
      (codes "\"public\".\"archive\"")
      (some (recorded_at 7))
    ≡ ok follows_rename
unfolding why_unusable qualified classify_target target_has_recorded_name resolved_recorded_target
    resolved_from resolve_recorded resolve_listener_target
renamed_run = refl

recreated_run :
    resolve_listener_target model_quoter catalog
      (codes "audit")
      (codes "\"public\".\"orders\"")
      (some (recorded_at 8))
    ≡ ok (record { outcome = dropped_and_recreated; target = orders; refusal = none })
unfolding why_unusable qualified classify_target target_has_recorded_name resolved_recorded_target
    resolved_from resolve_recorded resolve_listener_target
recreated_run = refl

-- The recorded table is there, and another one is configured.
moved_run :
    resolve_listener_target model_quoter catalog
      (codes "audit")
      (codes "\"public\".\"orders\"")
      (some (recorded_at 7))
    ≡ ok (
        retargeted model_quoter catalog
          (codes "audit")
          (codes "\"public\".\"orders\"")
          (codes "\"public\".\"orders\""))
unfolding why_unusable qualified classify_target target_has_recorded_name resolved_recorded_target
    resolved_from resolve_recorded resolve_listener_target
moved_run = refl

resolve_listener_target_lem_example :
    Stays model_quoter catalog (codes "\"public\".\"archive\"") (recorded_at 7) follows_rename
    ⊎ Recreated model_quoter catalog (recorded_at 7) follows_rename
resolve_listener_target_lem_example =
    resolve_listener_target_lem model_quoter catalog (codes "audit")
      (codes "\"public\".\"archive\"") (recorded_at 7) renamed_run refl
