-- ===== src/Config/Ident/Names.antt =====
-- internal/config/ident.go: what the configuration accepts as a name or a table, the parts behind it take.
use pg_noty.Base.{
  ℕ, zero, suc, ◌-◌, ◌≡◌, refl, ap, ◌∙◌, subst, inl, inr, Bool, true, false, some, some_inv, [],
  ◌∷◌, ◌++◌, arith, ltb, ◌==◌, ==_iff, any, length, take, drop, Text, is_empty, Bool-cases,
  Option-cases, ok,
}
use pg_noty.Source.StorableText.{decode_rune}
use pg_noty.Source.StorableText.Width.{has_zero, decode_rune-TakesNoZero, decode_rune_zero}
use pg_noty.Schema.Identifier.{Quoter, why_unusable, qualified}
use pg_noty.Source.Qualified.{split_qualified}
use pg_noty.Source.Qualified.RoundTrip.{split_qualified-qualified}
use pg_noty.Reconcile.Marker.{has_colon, is_field, marker, parse_catalog_marker, parse-marker}
use pg_noty.Config.Ident.{
  is_name_byte, all_bytes, name_ok, name_rule_defect, IdentDefect, ident_ok, TableFault, table_ok,
  table_schema_part_invalid, table_name_part_invalid, table_separator, cut, split_qualified_table,
  is_identifier_start, is_identifier_char, all_chars, is_identifier_text, identifier_defect,
  qualified_table_fault,
}

no_zero_rest : (c : ℕ) (s : Text) → (c == 0) ≡ false → has_zero s ≡ false → has_zero (c ∷ s) ≡ false
no_zero_rest c s h k = rw (h, k) refl

has_zero-take-drop :
    (n : ℕ) (s : Text)
    → has_zero (take n s) ≡ false
    → has_zero (drop n s) ≡ false
    → has_zero s ≡ false
has_zero-take-drop zero s h k = k
has_zero-take-drop (suc n) [] h k = refl
has_zero-take-drop (suc n) (c ∷ s) h k = ground (arith, has_zero-take-drop n s)

module _ (is_letter : ℕ → Bool) (nul_no_letter : is_letter 0 ≡ false) where
  not_zero :
      (c : ℕ) (s : Text)
      → is_identifier_char is_letter ((decode_rune (c ∷ s)).0) ≡ true
      → (c == 0) ≡ false
  not_zero c s h = elim (Bool-cases (c == 0)) [
    | inr e ↦ e
    | inl e ↦
        let is_zero : (decode_rune (c ∷ s)).0 ≡ 0 =
          ap (λ x. (decode_rune (x ∷ s)).0) ((==_iff c 0).0 e) ∙ decode_rune_zero s in
        absurd (cc (subst (λ r. is_identifier_char is_letter r ≡ true) is_zero h, nul_no_letter))
  ]

  all_chars-no_zero :
      (k : ℕ) (s : Text)
      → has_zero (take k s) ≡ false
      → all_chars is_letter k s ≡ true
      → has_zero s ≡ false
  unfolding all_chars
  all_chars-no_zero k [] h a = refl
  all_chars-no_zero (suc k) (c ∷ s) h a = ground (arith, all_chars-no_zero k s)
  all_chars-no_zero zero (c ∷ s) h a =
      let fine : is_identifier_char is_letter ((decode_rune (c ∷ s)).0) ≡ true = ground arith in
      let rest : all_chars is_letter ((decode_rune (c ∷ s)).1 - 1) s ≡ true = ground arith in
      let nonzero = not_zero c s fine in
      let (w, e, clean) = decode_rune-TakesNoZero c s nonzero in
      let one_less : (decode_rune (c ∷ s)).1 - 1 ≡ w = omega arith in
      let clean' : has_zero (take w s) ≡ false = ground arith in
      no_zero_rest c s nonzero
        (all_chars-no_zero w s clean' (subst (λ n. all_chars is_letter n s ≡ true) one_less rest))

  is_identifier_text-no_zero :
      (c : ℕ) (s : Text) → is_identifier_text is_letter (c ∷ s) ≡ true → has_zero (c ∷ s) ≡ false
  unfolding is_identifier_text
  is_identifier_text-no_zero c s h =
      let start : is_identifier_start is_letter ((decode_rune (c ∷ s)).0) ≡ true = ground arith in
      let (w, e, clean) = decode_rune-TakesNoZero c s (not_zero c s (rw start refl)) in
      let rest : all_chars is_letter 0 (drop (suc w) (c ∷ s)) ≡ true =
        subst (λ n. all_chars is_letter 0 (drop n (c ∷ s)) ≡ true) e (ground arith) in
      has_zero-take-drop (suc w) (c ∷ s) clean
        (all_chars-no_zero 0 (drop (suc w) (c ∷ s)) refl rest)

  identifier_defect_inv :
      (value : Text)
      → identifier_defect is_letter value ≡ ident_ok
      → (is_empty value ≡ false)
        × (is_identifier_text is_letter value ≡ true)
        × (ltb 63 (length value) ≡ false)
  unfolding identifier_defect
  identifier_defect_inv value h = ground arith

  -- What `identifierDefect` accepts, `WhyUnusable` accepts.
  identifier_defect-usable :
      (value : Text) → identifier_defect is_letter value ≡ ident_ok → why_unusable value ≡ ok tt
  unfolding why_unusable
  identifier_defect-usable [] h = let (named, _, _) = identifier_defect_inv [] h in absurd (cc)
  identifier_defect-usable (c ∷ s) h =
      let (_, chars, short) = identifier_defect_inv (c ∷ s) h in
      rw (is_identifier_text-no_zero c s chars, short) refl

  both_ok :
      (a b : IdentDefect)
      → (elim a as (λ x. TableFault × IdentDefect) [
        | ident_ok ↦ elim b as (λ x. TableFault × IdentDefect) [
          | ident_ok ↦ (table_ok, ident_ok)
          | defect ↦ (table_name_part_invalid, defect)
        ]
        | defect ↦ (table_schema_part_invalid, defect)
      ])
        ≡ (table_ok, ident_ok)
      → (a ≡ ident_ok) × (b ≡ ident_ok)
  both_ok a b h = ground arith

  qualified_table_fault_inv :
      (value : Text)
      → qualified_table_fault is_letter value ≡ (table_ok, ident_ok)
      → (schema : Text) × (table : Text) × (split_qualified_table value ≡ some (schema, table))
        × (identifier_defect is_letter schema ≡ ident_ok)
        × (identifier_defect is_letter table ≡ ident_ok)
  unfolding qualified_table_fault
  qualified_table_fault_inv value h = elim (Option-cases (split_qualified_table value)) [
    | inl e ↦ absurd (cc (rw (qualified_table_fault, e) at h))
    | inr ((schema, table), e) ↦
        let (s_ok, t_ok) =
          both_ok (identifier_defect is_letter schema) (identifier_defect is_letter table)
            (rw (qualified_table_fault, e) at h) in
        (schema, table, e, s_ok, t_ok)
  ]

cut_sound :
    (s : Text) {before after : Text}
    → cut s ≡ some (before, after)
    → s ≡ before ++ table_separator ∷ after
unfolding cut
cut_sound [] h = absurd (cc)
cut_sound (c ∷ s) h = elim (Bool-cases (c == table_separator)) [
  | inl e ↦
      subst (λ p. c ∷ s ≡ p.0 ++ table_separator ∷ p.1) (some_inv (rw (cut, e) at h))
        (ap (λ x. x ∷ s) ((==_iff c table_separator).0 e))
  | inr e ↦ elim (Option-cases (cut s)) [
    | inl f ↦ absurd (cc (rw (cut, e, f) at h))
    | inr ((b, a), f) ↦
        subst (λ p. c ∷ s ≡ p.0 ++ table_separator ∷ p.1) (some_inv (rw (cut, e, f) at h))
          (ap (λ x. c ∷ x) (cut_sound s f))
  ]
]

split_qualified_table_sound :
    (value : Text) {schema table : Text}
    → split_qualified_table value ≡ some (schema, table)
    → value ≡ schema ++ table_separator ∷ table
unfolding split_qualified_table
split_qualified_table_sound value h = elim (Option-cases (cut value)) [
  | inl e ↦ absurd (cc (rw (split_qualified_table, e) at h))
  | inr ((s, t), e) ↦ elim (Bool-cases (any (λ c. c == table_separator) t)) [
    | inl f ↦ absurd (cc (rw (split_qualified_table, e, f) at h))
    | inr f ↦
        subst (λ p. value ≡ p.0 ++ table_separator ∷ p.1)
          (some_inv (rw (split_qualified_table, e, f) at h)) (cut_sound value e)
  ]
]

qualified_ok :
    (q : Quoter) (schema table : Text)
    → why_unusable schema ≡ ok tt
    → why_unusable table ≡ ok tt
    → (stored : Text) × (qualified q schema table ≡ ok stored)
unfolding qualified
qualified_ok q schema table h k = (q.sanitize (schema ∷ table ∷ []), rw (qualified, h, k) refl)

-- A table that the configuration accepts, where unicode has no letter at zero: it is two parts with one
-- separator between them, `Qualified` quotes them without a refusal, and `SplitQualified` gives the same
-- parts back from what it stores.
pub qualified_table_fault_lem :
    (is_letter : ℕ → Bool) (q : Quoter) (value : Text)
    → is_letter 0 ≡ false
    → qualified_table_fault is_letter value ≡ (table_ok, ident_ok)
    → (schema : Text) × (table : Text) × (stored : Text) × (value
        ≡ schema ++ table_separator ∷ table)
      × (qualified q schema table ≡ ok stored)
      × (split_qualified stored ≡ some (schema, table))
qualified_table_fault_lem is_letter q value nul h =
    let (schema, table, e, s_ok, t_ok) = qualified_table_fault_inv is_letter nul value h in
    let (stored, f) =
      qualified_ok q schema table (identifier_defect-usable is_letter nul schema s_ok)
        (identifier_defect-usable is_letter nul table t_ok) in
    (
      schema,
      table,
      stored,
      split_qualified_table_sound value e,
      f,
      split_qualified-qualified q schema table f,
    )

no_colon : (s : Text) → all_bytes is_name_byte s ≡ true → has_colon s ≡ false
no_colon [] h = refl
no_colon (c ∷ s) h = ground (arith, no_colon s)

name-is_field : (value : Text) → name_rule_defect value ≡ name_ok → is_field value ≡ true
unfolding name_rule_defect
name-is_field [] h = absurd (cc)
name-is_field (c ∷ s) h = ground (arith, no_colon s)

-- An instance and a listener whose names the configuration accepts are read back from the marker that
-- is written of them, with any operation that is not empty and has no colon.
pub name_rule_defect_lem :
    (instance listener operation : Text)
    → name_rule_defect instance ≡ name_ok
    → name_rule_defect listener ≡ name_ok
    → is_field operation ≡ true
    → parse_catalog_marker (some (marker instance listener operation))
      ≡ some (record { instance_id = instance; listener = listener; operation = operation })
name_rule_defect_lem instance listener operation h k o =
    parse-marker instance listener operation (name-is_field instance h) (name-is_field listener k) o
