-- ===== src/Schema/Maintain/Mark.antt =====
-- internal/schema/ownershipmarker.go and retentionrefusal.go: the comment that marks a partition as this
-- instance's, and what a drop makes of its reading.
use pg_noty.Base.{
  Option, none, some, [], ◌∷◌, if◌then◌else◌, Text, codes, text_eq, is_empty, cut_prefix, Result,
  ok, err,
}
use pg_noty.Schema.Maintain.{PassError, unmarked, unreadable_marker, foreign_marker}

abbrev pub marker_prefix : Text
marker_prefix = codes "pg_noty:v1:"

abbrev pub partition_marker_suffix : Text
partition_marker_suffix = codes ":partition"

-- strings.CutSuffix.
unfoldable pub cut_suffix : Text → Text → Option Text
cut_suffix suffix [] = if is_empty suffix then some [] else none
cut_suffix suffix (c ∷ s) =
    let rest = cut_suffix suffix s in
    if text_eq suffix (c ∷ s)
    then some []
    else elim rest [ none ↦ none | some front ↦ some (c ∷ front) ]

unfoldable pub instance_in : Text → Text → Option Text
unfolding cut_suffix
instance_in suffix written = elim (cut_prefix marker_prefix written) [
  | none ↦ none
  | some opened ↦ elim (cut_suffix suffix opened) [
    | none ↦ none
    | some found ↦ if is_empty found then none else some found
  ]
]

pub data MarkerReading : Type 0 where
  ours absent unreadable : MarkerReading
  foreign : Text → MarkerReading

unfoldable pub marker_reading_of : Text → Option Text → Text → MarkerReading
unfolding instance_in
marker_reading_of suffix none instance_id = absent
marker_reading_of suffix (some written) instance_id = elim (instance_in suffix written) [
  | none ↦ unreadable
  | some found ↦ if text_eq found instance_id then ours else foreign found
]

unfoldable pub refusal_for_marker : MarkerReading → Result PassError (Unit {0})
refusal_for_marker ours = ok tt
refusal_for_marker absent = err unmarked
refusal_for_marker unreadable = err unreadable_marker
refusal_for_marker (foreign other) = err foreign_marker
