-- ===== src/Reconcile/Marker.antt =====
-- internal/source/marker.go and internal/reconcile/markerparse.go: the comment that marks an object as
-- this instance's, and its reading.
use pg_noty.Base.{
  ℕ, ◌≡◌, refl, ◌∙◌, sym, ap, inl, inr, Bool, true, false, not, ◌||◌, Option, none, some, List, [],
  ◌∷◌, ◌++◌, if◌then◌else◌, arith, ◌==◌, ==_iff, Text, codes, is_empty, cut_prefix,
  cut_prefix-append, cut_prefix_sound, split, push_head, any, Bool-cases, Option-cases, some_inv,
  subst,
}

abbrev pub colon : ℕ
colon = 58

-- schema.MarkerPrefix.
abbrev pub marker_prefix : Text
marker_prefix = codes "pg_noty:v1:"

-- `marker`.
unfoldable pub marker : Text → Text → Text → Text
marker instance_id listener operation =
    marker_prefix ++ (instance_id ++ colon ∷ (listener ++ colon ∷ operation))

pub record CatalogMarker : Type 0 where
  pub instance_id : Text
  pub listener : Text
  pub operation : Text

abbrev pub has_colon : Text → Bool
has_colon = any (λ c. c == colon)

abbrev pub has_empty_marker_field : List Text → Bool
has_empty_marker_field = any (λ f. is_empty f || has_colon f)

abbrev three_fields : List Text → Option CatalogMarker
three_fields (a ∷ b ∷ c ∷ []) =
    if has_empty_marker_field (a ∷ b ∷ c ∷ [])
    then none
    else some (record { instance_id = a; listener = b; operation = c })
three_fields _ = none

abbrev after_prefix : Option Text → Option CatalogMarker
after_prefix none = none
after_prefix (some rest) = three_fields (split colon rest)

unfoldable pub parse_catalog_marker : Option Text → Option CatalogMarker
parse_catalog_marker none = none
parse_catalog_marker (some found) = after_prefix (cut_prefix marker_prefix found)

-- A field that a marker can hold.
abbrev pub is_field : Text → Bool
is_field f = not (is_empty f || has_colon f)

split-field : (f s : Text) → has_colon f ≡ false → split colon (f ++ colon ∷ s) ≡ f ∷ split colon s
split-field [] s h = refl
split-field (c ∷ f) s h = ground (arith, split-field f s)

split-last : (f : Text) → has_colon f ≡ false → split colon f ≡ f ∷ []
split-last [] h = refl
split-last (c ∷ f) h = ground (arith, split-last f)

-- What fields write when joined by colons.
abbrev joined : List Text → Text
joined [] = []
joined (f ∷ []) = f
joined (f ∷ g ∷ fs) = f ++ colon ∷ joined (g ∷ fs)

joined-push_head :
    (c : ℕ) (f : Text) (fs : List Text) → joined (push_head c (f ∷ fs)) ≡ c ∷ joined (f ∷ fs)
joined-push_head c f [] = refl
joined-push_head c f (g ∷ fs) = refl

split-shape : (s : Text) → (f : Text) × (fs : List Text) × (split colon s ≡ f ∷ fs)
split-shape [] = ([], [], refl)
split-shape (c ∷ s) =
    let (f, fs, e) = split-shape s in
    elim (Bool-cases (c == colon)) [
      | inl h ↦ ([], split colon s, rw h refl)
      | inr h ↦ (c ∷ f, fs, rw (h, e) refl)
    ]

joined-split : (s : Text) → joined (split colon s) ≡ s
joined-split [] = refl
joined-split (c ∷ s) =
    let (f, fs, e) = split-shape s in
    let rest = joined-split s in
    elim (Bool-cases (c == colon)) [
      | inl h ↦
          let is_colon = (==_iff c colon).0 h in
          rw (h, e, is_colon) (ap (λ t. colon ∷ t) (rw e at rest))
      | inr h ↦ rw (h, e) (joined-push_head c f fs ∙ ap (λ t. c ∷ t) (rw e at rest))
    ]

three_fields_inv :
    (fs : List Text) {m : CatalogMarker}
    → three_fields fs ≡ some m
    → (fs ≡ m.instance_id ∷ m.listener ∷ m.operation ∷ [])
      × (is_field m.instance_id ≡ true)
      × (is_field m.listener ≡ true)
      × (is_field m.operation ≡ true)
three_fields_inv [] h = absurd (cc)
three_fields_inv (a ∷ []) h = absurd (cc)
three_fields_inv (a ∷ b ∷ []) h = absurd (cc)
three_fields_inv (a ∷ b ∷ c ∷ d ∷ fs) h = absurd (cc)
three_fields_inv (a ∷ b ∷ c ∷ []) {m} h =
    elim (Bool-cases (has_empty_marker_field (a ∷ b ∷ c ∷ []))) [
      | inl e ↦ absurd (cc (rw e at h))
      | inr e ↦
          let same : record { instance_id = a; listener = b; operation = c } ≡ m =
            some_inv (rw e at h) in
          subst
            (λ m.
              (a ∷ b ∷ c ∷ [] ≡ m.instance_id ∷ m.listener ∷ m.operation ∷ [])
              × (is_field m.instance_id ≡ true)
              × (is_field m.listener ≡ true)
              × (is_field m.operation ≡ true))
            same (refl, ground arith, ground arith, ground arith)
    ]

field_no_colon : (f : Text) → is_field f ≡ true → has_colon f ≡ false
field_no_colon f h = ground arith

-- A marker of three fields that are not empty and have no colon is read back as them.
pub parse-marker :
    (i l o : Text)
    → is_field i ≡ true
    → is_field l ≡ true
    → is_field o ≡ true
    → parse_catalog_marker (some (marker i l o))
      ≡ some (record { instance_id = i; listener = l; operation = o })
unfolding parse_catalog_marker marker
parse-marker i l o hi hl ho =
    let fields : split colon (i ++ colon ∷ (l ++ colon ∷ o)) ≡ i ∷ l ∷ o ∷ [] =
      split-field i _ (field_no_colon i hi)
      ∙ ap (λ t. i ∷ t)
          (split-field l o (field_no_colon l hl)
            ∙ ap (λ t. l ∷ t) (split-last o (field_no_colon o ho))) in
    let sound : has_empty_marker_field (i ∷ l ∷ o ∷ []) ≡ false = ground arith in
    ap after_prefix (cut_prefix-append marker_prefix (i ++ colon ∷ (l ++ colon ∷ o)))
    ∙ (ap three_fields fields ∙ rw sound refl)

-- What is read as a marker is the marker of the fields read, which are not empty and have no colon.
pub parse_catalog_marker_sound :
    (found : Text) {m : CatalogMarker}
    → parse_catalog_marker (some found) ≡ some m
    → (found ≡ marker m.instance_id m.listener m.operation)
      × (is_field m.instance_id ≡ true)
      × (is_field m.listener ≡ true)
      × (is_field m.operation ≡ true)
unfolding parse_catalog_marker marker
parse_catalog_marker_sound found {m} h = elim (Option-cases (cut_prefix marker_prefix found)) [
  | inl e ↦ absurd (cc (rw e at h))
  | inr (rest, e) ↦
      let (fields, i, l, o) = three_fields_inv (split colon rest) (ap after_prefix (sym e) ∙ h) in
      (
        cut_prefix_sound marker_prefix found e
            ∙ ap (λ t. marker_prefix ++ t) (sym (joined-split rest) ∙ ap joined fields),
        i,
        l,
        o,
      )
]
