-- ===== src/Config/Interpolation.antt =====
-- internal/config/envreference.go and envexpansion.go: the references to environment variables in the text
-- of a scalar, and what the text becomes. A fault is a constructor for its message, with what the
-- message names.
pub mod Fuel
pub mod Escapes
pub mod Opaque
pub mod Bare
use pg_noty.Base.{
  ℕ, zero, suc, ◌+◌, ◌-◌, Bool, true, false, not, ◌&&◌, ◌||◌, Option, none, some, List, [], ◌∷◌,
  ◌++◌, if◌then◌else◌, ltb, length, drop, Text, codes, is_empty, cut_prefix,
}
use pg_noty.Config.Ident.{is_digit, all_bytes}
use pg_noty.Config.ConnString.{is_variable_start}

abbrev pub reference_open : Text
reference_open = codes "${"

abbrev pub reference_close : Text
reference_close = codes "}"

abbrev pub escape_sentinel : Text
escape_sentinel = codes "$${"

abbrev pub default_marker : Text
default_marker = codes ":-"

abbrev pub is_variable_char : ℕ → Bool
is_variable_char c = is_variable_start c || is_digit c

abbrev pub variable_name : Text → Bool
variable_name [] = false
variable_name (c ∷ s) = is_variable_start c && all_bytes is_variable_char s

-- `strings.Cut`, also for `strings.Index` and the two slices around what it finds.
abbrev pub before_cut : ℕ → Option (Text × Text) → Option (Text × Text)
before_cut c none = none
before_cut c (some (before, after)) = some (c ∷ before, after)

unfoldable pub cut_around : Text → Text → Option (Text × Text)
cut_around needle [] = none
cut_around needle (c ∷ s) =
    let further = before_cut c (cut_around needle s) in
    elim (cut_prefix needle (c ∷ s)) [ some after ↦ some ([], after) | none ↦ further ]

pub data ReferenceRefusal : Type 0 where
  not_refused empty_name_refusal bad_name_refusal unterminated_refusal : ReferenceRefusal

pub data Fault : Type 0 where
  malformed : ReferenceRefusal → Fault
  unresolved : Text → Fault

pub record Reference : Type 0 where
  pub width : ℕ
  pub name : Text
  -- The text behind the marker; `none` is a reference without a default.
  pub fallback : Option Text
  pub refusal : ReferenceRefusal

unfoldable pub name_refusal : Text → ReferenceRefusal
name_refusal name =
    if is_empty name
    then empty_name_refusal
    else if not (variable_name name)
    then bad_name_refusal
    else not_refused

abbrev pub refused : ℕ → ReferenceRefusal → Reference
refused width refusal = record { width = width; name = []; fallback = none; refusal = refusal }

-- The name and the default between the delimiters.
abbrev pub name_and_default : Text → Text × Option Text
name_and_default inside = elim (cut_around default_marker inside) [
  | none ↦ (inside, none)
  | some (name, fallback) ↦ (name, some fallback)
]

abbrev pub reference_of : ℕ → Text × Option Text → ReferenceRefusal → Reference
reference_of width (name, fallback) not_refused = record {
  width = width;
  name = name;
  fallback = fallback;
  refusal = not_refused;
}
reference_of width parts refusal = refused width refusal

unfoldable pub read_reference : Text → Reference
unfolding cut_around name_refusal
read_reference text =
    if ltb (length text) (length reference_open)
    then refused (length text) unterminated_refusal
    else elim (cut_around reference_close (drop (length reference_open) text)) [
      | none ↦ refused (length text) unterminated_refusal
      | some (closed, after) ↦
          let parts = name_and_default closed in
          reference_of (length reference_open + (length closed + length reference_close)) parts
            (name_refusal parts.0)
    ]

pub record Expansion : Type 0 where
  pub text : Text
  pub faults : List Fault
  pub from_environment : Bool

abbrev pub literal : Text → Expansion
literal text = record { text = text; faults = []; from_environment = false }

-- What the loop has when one part is followed by the others.
abbrev pub followed_by : Expansion → Expansion → Expansion
followed_by a b = record {
  text = a.text ++ b.text;
  faults = a.faults ++ b.faults;
  from_environment = a.from_environment || b.from_environment;
}

-- The end of `expand`: a text with a fault is not written.
abbrev pub without_refused : Expansion → Expansion
without_refused e = elim e.faults [ [] ↦ e | _ ∷ _ ↦ record e { text = [] } ]

-- `resolution` and the source of its bytes, or the fault.
pub data Substitution : Type 0 where
  no_substitution : Fault → Substitution
  of_document of_environment : Text → Substitution

-- The lookup gives the value, and whether the variable is set.
module _ (env : Text → Text × Bool) where
  unfoldable pub substitution : Reference → Substitution
  substitution r = elim r.refusal [
    | not_refused ↦
        let (value, set) = env r.name in
        let looked_up =
          if not set then no_substitution (unresolved r.name) else of_environment value in
        elim r.fallback [
          | some fallback ↦ if is_empty value then of_document fallback else looked_up
          | none ↦ looked_up
        ]
    | refusal ↦ no_substitution (malformed refusal)
  ]

  abbrev pub expanded : (Text → Expansion) → Substitution → Expansion
  expanded expand (no_substitution fault) = record {
    text = [];
    faults = fault ∷ [];
    from_environment = false;
  }
  expanded expand (of_environment value) = record {
    text = value;
    faults = [];
    from_environment = true;
  }
  expanded expand (of_document fallback) = expand fallback

  -- The loop of `expand` over the rest of the text, on fuel: a round takes a byte at least, and a default
  -- is shorter than the occurrence that carries it.
  unfoldable pub scan : ℕ → Text → Expansion
  unfolding read_reference substitution
  scan zero rest = literal []
  scan (suc fuel) [] = literal []
  scan (suc fuel) (c ∷ s) = elim (cut_prefix escape_sentinel (c ∷ s)) [
    | some after ↦ followed_by (literal reference_open) (scan fuel after)
    | none ↦ elim (cut_prefix reference_open (c ∷ s)) [
      | none ↦ followed_by (literal (c ∷ [])) (scan fuel s)
      | some _ ↦
          let found = read_reference (c ∷ s) in
          followed_by (expanded (λ t. without_refused (scan fuel t)) (substitution found))
            (scan fuel (drop found.width (c ∷ s)))
    ]
  ]

  unfoldable pub expand : Text → Expansion
  unfolding scan
  expand text = without_refused (scan (suc (length text)) text)
