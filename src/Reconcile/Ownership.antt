-- ===== src/Reconcile/Ownership.antt =====
-- internal/reconcile/ownership.go: whether an object of the database is this instance's to change.
use pg_noty.Base.{
  ◌≡◌, refl, ap, ◌↔◌, inl, inr, Bool, true, false, not, ◌||◌, Option, none, some, [], if◌then◌else◌,
  arith, Text, text_eq, text_eq_iff, Bool-cases,
}
use pg_noty.Reconcile.Marker.{
  CatalogMarker, parse_catalog_marker, marker, is_field, parse-marker, parse_catalog_marker_sound,
}

pub data Disagreement : Type 0 where
  marker_absent foreign_instance another_pair no_registry_row : Disagreement

pub record RegistryRow : Type 0 where
  pub present : Bool
  pub listener : Text
  pub operation : Text

-- The part of CatalogObject that the proof reads, with what the refusal names.
pub record CatalogObject : Type 0 where
  pub kind : Text
  pub identity : Text
  pub marker : Option Text

pub record Ownership : Type 0 where
  pub owned : Bool
  pub disagreement : Option Disagreement
  pub found : Text

abbrev pub marker_value : Option Text → Text
marker_value none = []
marker_value (some m) = m

abbrev disagrees : Disagreement → Option Text → Ownership
disagrees d m = record { owned = false; disagreement = some d; found = marker_value m }

abbrev pub judge_marker : RegistryRow → Option Text → Text → Option CatalogMarker → Ownership
judge_marker row found instance_id none = disagrees marker_absent found
judge_marker row found instance_id (some m) =
    if not (text_eq m.instance_id instance_id)
    then disagrees foreign_instance found
    else if not (text_eq m.listener row.listener) || not (text_eq m.operation row.operation)
    then disagrees another_pair found
    else record { owned = true; disagreement = none; found = marker_value found }

unfoldable pub determine_ownership : RegistryRow → CatalogObject → Text → Ownership
determine_ownership row object instance_id =
    if not row.present
    then disagrees no_registry_row object.marker
    else judge_marker row object.marker instance_id (parse_catalog_marker object.marker)

judge_marker_owned :
    (row : RegistryRow) (found : Option Text) (instance_id : Text) (o : Option CatalogMarker)
    → (judge_marker row found instance_id o).owned ≡ true
    → o
      ≡ some
          (record { instance_id = instance_id; listener = row.listener; operation = row.operation })
judge_marker_owned row found instance_id none h = absurd (cc)
judge_marker_owned row found instance_id (some m) h =
    let i = (text_eq_iff m.instance_id instance_id).0 (ground arith) in
    let l = (text_eq_iff m.listener row.listener).0 (ground arith) in
    let o = (text_eq_iff m.operation row.operation).0 (ground arith) in cc (i, l, o)

-- An object is owned exactly if the registry has a row for its pair and the object's comment is the
-- marker of this instance and of that pair. The instance, listener and operation are not empty and
-- have no colon.
pub owned_iff_marked :
    (row : RegistryRow) (object : CatalogObject) (instance_id : Text)
    → is_field instance_id ≡ true
    → is_field row.listener ≡ true
    → is_field row.operation ≡ true
    → ((determine_ownership row object instance_id).owned ≡ true) ↔ (
        (row.present ≡ true)
        × (object.marker ≡ some (marker instance_id row.listener row.operation)))
unfolding determine_ownership parse_catalog_marker
owned_iff_marked row object instance_id hi hl ho = (left, right)
  where
    written :
        (found : Option Text)
        → parse_catalog_marker found
          ≡ some (record {
            instance_id = instance_id;
            listener = row.listener;
            operation = row.operation;
          })
        → found ≡ some (marker instance_id row.listener row.operation)
    written none r = absurd (cc)
    written (some m) r = ap (λ t. some t) (parse_catalog_marker_sound m r).0

    left :
        (determine_ownership row object instance_id).owned ≡ true
        → (row.present ≡ true)
          × (object.marker ≡ some (marker instance_id row.listener row.operation))
    left h = elim (Bool-cases row.present) [
      | inr e ↦ absurd (cc (simp e at h))
      | inl e ↦
          let read =
            judge_marker_owned row object.marker instance_id (parse_catalog_marker object.marker)
              (simp e at h) in
          (e, written object.marker read)
    ]

    right :
        (row.present ≡ true)
          × (object.marker ≡ some (marker instance_id row.listener row.operation))
        → (determine_ownership row object instance_id).owned ≡ true
    right (p, m) =
        rw
          (
            p,
            m,
            parse-marker instance_id row.listener row.operation hi hl ho,
            (text_eq_iff instance_id instance_id).1 refl,
            (text_eq_iff row.listener row.listener).1 refl,
            (text_eq_iff row.operation row.operation).1 refl,
          )
          refl
