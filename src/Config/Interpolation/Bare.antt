-- ===== src/Config/Interpolation/Bare.antt =====
-- internal/config/redact.go and envreference.go: what redaction takes for a reference without a default is
-- what the grammar reads as one.
use pg_noty.Base.{
  ℕ, ◌+◌, ◌≡◌, ◌≢◌, ◌↔◌, refl, sym, ap, subst, ◌∙◌, inl, inr, Bool, true, false, Option, none, some,
  [], ◌∷◌, ◌++◌, arith, ltb, All, All-map, length, length-append, Text, codes, cut_prefix,
  cut_prefix-append, Bool-cases, Option-cases,
}
use pg_noty.Config.Ident.{all_bytes}
use pg_noty.Config.ConnString.{ends_name, names_variable, is_bare_env_reference}
use pg_noty.Config.Interpolation.{
  reference_open, reference_close, default_marker, is_variable_char, variable_name, cut_around,
  ReferenceRefusal, not_refused, empty_name_refusal, bad_name_refusal, unterminated_refusal,
  Reference, name_refusal, name_and_default, reference_of, read_reference,
}
use pg_noty.Config.Interpolation.Fuel.{cut_around_sound, cut_around-length}

cut_around-append :
    (c : ℕ) (needle w s : Text)
    → All (λ d. d ≢ c) w
    → cut_around (c ∷ needle) (w ++ ((c ∷ needle) ++ s)) ≡ some (w, s)
unfolding cut_around
cut_around-append c needle [] s h = rw (cut_around, cut_prefix-append (c ∷ needle) s) refl
cut_around-append c needle (d ∷ w) s h =
    let e : cut_prefix (c ∷ needle) (d ∷ (w ++ ((c ∷ needle) ++ s))) ≡ none = ground arith in
    rw (cut_around, e, cut_around-append c needle w s h.1) refl

cut_around-none : (c : ℕ) (needle w : Text) → All (λ d. d ≢ c) w → cut_around (c ∷ needle) w ≡ none
unfolding cut_around
cut_around-none c needle [] h = refl
cut_around-none c needle (d ∷ w) h =
    let e : cut_prefix (c ∷ needle) (d ∷ w) ≡ none = ground arith in
    rw (cut_around, e, cut_around-none c needle w h.1) refl

all_bytes-All : (p : ℕ → Bool) (s : Text) → all_bytes p s ≡ true → All (λ c. p c ≡ true) s
all_bytes-All p [] h = tt
all_bytes-All p (c ∷ s) h = (ground arith, all_bytes-All p s (ground arith))

name_chars : (name : Text) → variable_name name ≡ true → All (λ c. is_variable_char c ≡ true) name
name_chars [] h = tt
name_chars (c ∷ s) h = (ground arith, all_bytes-All is_variable_char s (ground arith))

name-refusal : (name : Text) → variable_name name ≡ true → name_refusal name ≡ not_refused
unfolding name_refusal
name-refusal [] h = absurd (cc)
name-refusal (c ∷ s) h = rw (name_refusal, h) refl

abbrev pub reads_as : ℕ → Text → Reference
reads_as width name = record { width = width; name = name; fallback = none; refusal = not_refused }

-- A name between the delimiters is read as a reference to the variable, whatever follows it.
pub read_reference-name :
    (name after : Text)
    → variable_name name ≡ true
    → read_reference (reference_open ++ (name ++ (reference_close ++ after)))
      ≡ reads_as (2 + (length name + 1)) name
unfolding read_reference
read_reference-name name after h =
    let text = reference_open ++ (name ++ (reference_close ++ after)) in
    let chars = name_chars name h in
    let long : ltb (length text) (length reference_open) ≡ false = ground arith in
    let e : cut_around reference_close (name ++ (reference_close ++ after)) ≡ some (name, after) =
      cut_around-append b'}' [] name after (
        All-map (λ c. is_variable_char c ≡ true) (λ c. c ≢ b'}') name (λ c v. ground arith)
          chars) in
    let f : cut_around default_marker name ≡ none =
      cut_around-none b':' (codes "-") name (
        All-map (λ c. is_variable_char c ≡ true) (λ c. c ≢ b':') name (λ c v. ground arith)
          chars) in
    rw (read_reference, long, e, name_and_default, f, name-refusal name h) refl

ends_name_cases :
    (s : Text)
    → ends_name s ≡ true
    → (b : Text) × (s ≡ b ++ reference_close) × (all_bytes is_variable_char b ≡ true)
ends_name_cases [] h = absurd (cc)
ends_name_cases (c ∷ []) h = ([], ground arith, refl)
ends_name_cases (c ∷ d ∷ s) h =
    let (b, e, f) = ends_name_cases (d ∷ s) (ground arith) in
    (c ∷ b, ap (λ t. c ∷ t) e, ground arith)

ends_name-close :
    (b : Text) → all_bytes is_variable_char b ≡ true → ends_name (b ++ reference_close) ≡ true
ends_name-close [] h = refl
ends_name-close (c ∷ []) h = ground arith
ends_name-close (c ∷ d ∷ b) h = ground (arith, ends_name-close (d ∷ b))

names_variable-close :
    (name : Text)
    → variable_name name ≡ true
    → names_variable (some (name ++ reference_close)) ≡ true
names_variable-close [] h = absurd (cc)
names_variable-close (c ∷ b) h = ground (arith, ends_name-close b)

name_refusal-variable : (name : Text) → name_refusal name ≡ not_refused → variable_name name ≡ true
unfolding name_refusal
name_refusal-variable [] h = absurd (cc)
name_refusal-variable (c ∷ s) h = elim (Bool-cases (variable_name (c ∷ s))) [
  | inl e ↦ e
  | inr e ↦ absurd (cc (rw (name_refusal, e) at h))
]

reference_of_inv :
    (w n : ℕ) (parts : Text × Option Text) (r : ReferenceRefusal) (name : Text)
    → reference_of w parts r ≡ reads_as n name
    → (r ≡ not_refused) × (w ≡ n) × (parts.0 ≡ name) × (parts.1 ≡ none)
reference_of_inv w n parts not_refused name h =
    (refl, ap (λ r. r.width) h, ap (λ r. r.name) h, ap (λ r. r.fallback) h)
reference_of_inv w n parts empty_name_refusal name h = absurd (cc)
reference_of_inv w n parts bad_name_refusal name h = absurd (cc)
reference_of_inv w n parts unterminated_refusal name h = absurd (cc)

name_and_default_inv :
    (closed : Text) → (name_and_default closed).1 ≡ none → (name_and_default closed).0 ≡ closed
name_and_default_inv closed h = elim (Option-cases (cut_around default_marker closed)) [
  | inl e ↦ rw (name_and_default, e) refl
  | inr ((name, fallback), e) ↦ absurd (cc (rw (name_and_default, e) at h))
]

length_none : (s : Text) → length s ≡ 0 → s ≡ []
length_none [] h = refl
length_none (c ∷ s) h = absurd (omega arith)

bare_read :
    (s : Text)
    → names_variable (some s) ≡ true
    → (name : Text) × (read_reference (reference_open ++ s)
        ≡ reads_as (length (reference_open ++ s)) name)
bare_read [] h = absurd (cc)
bare_read (c ∷ s) h =
    let (b, e, f) = ends_name_cases s (ground arith) in
    let valid : variable_name (c ∷ b) ≡ true = ground arith in
    (
      c ∷ b,
      subst
          (λ t.
            read_reference (reference_open ++ (c ∷ t))
            ≡ reads_as (length (reference_open ++ (c ∷ t))) (c ∷ b))
          (sym e)
          (read_reference-name (c ∷ b) [] valid
            ∙ ap (λ w. reads_as w (c ∷ b)) (omega (arith, length-append b reference_close))),
    )

read_bare :
    (s name : Text)
    → read_reference (reference_open ++ s) ≡ reads_as (length (reference_open ++ s)) name
    → names_variable (some s) ≡ true
unfolding read_reference
read_bare s name h =
    let long : ltb (length (reference_open ++ s)) (length reference_open) ≡ false = ground arith in
    elim (Option-cases (cut_around reference_close s)) [
      | inl e ↦ absurd (cc (ap (λ r. r.refusal) (rw (read_reference, long, e) at h)))
      | inr ((closed, after), e) ↦
          let parts = name_and_default closed in
          let (fine, width, named, alone) =
            reference_of_inv (length reference_open + (length closed + length reference_close))
              (length (reference_open ++ s)) parts (name_refusal parts.0) name
              (rw (read_reference, long, e) at h) in
          let same = name_and_default_inv closed alone in
          let end : after ≡ [] =
            length_none after (omega (arith, cut_around-length reference_close s closed after e)) in
          let valid =
            name_refusal-variable closed (subst (λ t. name_refusal t ≡ not_refused) same fine) in
          let text : s ≡ closed ++ reference_close =
            cut_around_sound reference_close s closed after e
            ∙ ap (λ t. closed ++ (reference_close ++ t)) end in
          subst (λ t. names_variable (some t) ≡ true) (sym text) (names_variable-close closed valid)
    ]

-- A text that opens a reference is taken for a bare one exactly if the grammar reads all of it as a
-- reference with a name and without a default.
pub is_bare_env_reference_iff :
    (inside : Text)
    → (is_bare_env_reference (reference_open ++ inside) ≡ true) ↔ (
        (name : Text) × (read_reference (reference_open ++ inside)
          ≡ reads_as (length (reference_open ++ inside)) name))
unfolding is_bare_env_reference
is_bare_env_reference_iff inside = (bare_read inside, λ (name, h). read_bare inside name h)
