-- ===== src/Source/Qualified/RoundTrip.antt =====
-- internal/source/splitqualified.go against internal/schema/identifier.go.
use pg_noty.Base.{
  ℕ, ◌==◌, ==_iff, ◌≡◌, refl, ◌≢◌, true, false, Option, none, some, [], ◌∷◌, ◌++◌, arith, Text, ok,
  Bool-cases, inl, inr, ap, ◌∙◌, sym, append_assoc, append-nil,
}
use pg_noty.Schema.Identifier.{Quoter, doubled, wrapped, holds_nul, why_unusable, qualified}
use pg_noty.Source.Qualified.{
  push_byte, split_part_loop, split_qualified_part, both_named, after_schema, split_qualified,
}

-- What may follow a closing quote: a quote there would be read as a doubled one.
abbrev NoQuoteFirst : Text → Type 0
NoQuoteFirst [] = Unit
NoQuoteFirst (c ∷ rest) = c ≢ b'"'

loop_plain :
    (c : ℕ) (t : Text)
    → (c == b'"') ≡ false
    → split_part_loop (c ∷ t) ≡ push_byte c (split_part_loop t)
unfolding split_part_loop
loop_plain c [] h = rw h
loop_plain c (d ∷ t) h = rw (h, split_part_loop)

loop_double :
    (c d : ℕ) (t : Text)
    → (c == b'"') ≡ true
    → (d == b'"') ≡ true
    → split_part_loop (c ∷ d ∷ t) ≡ push_byte b'"' (split_part_loop t)
unfolding split_part_loop
loop_double c d t h k = rw (h, split_part_loop) (rw k)

loop_close :
    (c d : ℕ) (t : Text)
    → (c == b'"') ≡ true
    → (d == b'"') ≡ false
    → split_part_loop (c ∷ d ∷ t) ≡ some ([], d ∷ t)
unfolding split_part_loop
loop_close c d t h k = rw (h, split_part_loop) (rw k)

split_part_loop-doubled :
    (s rest : Text)
    → NoQuoteFirst rest
    → split_part_loop (doubled s ++ (b'"' ∷ rest)) ≡ some (s, rest)
unfolding split_part_loop
split_part_loop-doubled [] [] h = refl
split_part_loop-doubled [] (c ∷ rest) h = ground arith
split_part_loop-doubled (c ∷ s) rest h = elim (Bool-cases (c == b'"')) [
  | inl e ↦ rw (e, split_part_loop-doubled s rest h) (let e' = (==_iff c b'"').0 e in rw e')
  | inr e ↦ rw e (
      loop_plain c (doubled s ++ (b'"' ∷ rest)) e
      ∙ ap (push_byte c) (split_part_loop-doubled s rest h))
]

push_byte_inv :
    (c : ℕ) (r : Option (Text × Text)) {s rest : Text}
    → push_byte c r ≡ some (s, rest)
    → (s' : Text) × (r ≡ some (s', rest)) × (s ≡ c ∷ s')
push_byte_inv c none h = cc
push_byte_inv c (some (part, rest')) {s} {rest} h = (part, ground arith, ground arith)

doubled_plain : (c : ℕ) (s : Text) → (c == b'"') ≡ false → doubled (c ∷ s) ≡ c ∷ doubled s
doubled_plain c s h = rw h

doubled_quote : (s : Text) → doubled (b'"' ∷ s) ≡ b'"' ∷ b'"' ∷ doubled s
doubled_quote s = refl

split_part_loop_sound :
    (stored : Text) {s rest : Text}
    → split_part_loop stored ≡ some (s, rest)
    → stored ≡ doubled s ++ (b'"' ∷ rest)
split_part_loop_sound [] h = unfold split_part_loop in ground arith
split_part_loop_sound (c ∷ []) {s} {rest} h = unfold split_part_loop in ground arith
split_part_loop_sound (c ∷ d ∷ stored) {s} {rest} h = elim (Bool-cases (c == b'"')) [
  | inr e ↦
      let (s', e1, e2) =
        push_byte_inv c (split_part_loop (d ∷ stored)) (rw (loop_plain c (d ∷ stored) e) at h) in
      rw (e2, doubled_plain c s' e) (ap (λ t. c ∷ t) (split_part_loop_sound (d ∷ stored) e1))
  | inl e ↦ elim (Bool-cases (d == b'"')) [
    | inl e' ↦
        let (s', e1, e2) =
          push_byte_inv b'"' (split_part_loop stored) (rw (loop_double c d stored e e') at h) in
        let ih = split_part_loop_sound stored e1 in
        rw (e2, (==_iff c b'"').0 e, (==_iff d b'"').0 e') (ap (λ t. b'"' ∷ b'"' ∷ t) ih)
    | inr e' ↦
        let k = rw (loop_close c d stored e e') at h in let e2 = (==_iff c b'"').0 e in ground arith
  ]
]

why_unusable_inv : (s : Text) → why_unusable s ≡ ok tt → (s ≢ []) × (holds_nul s ≡ false)
unfolding why_unusable
why_unusable_inv [] h = cc
why_unusable_inv (c ∷ s) h = (λ e. cc, ground arith)

qualified_inv :
    (q : Quoter) (s t : Text) {stored : Text}
    → qualified q s t ≡ ok stored
    → (why_unusable s ≡ ok tt) × (why_unusable t ≡ ok tt) × (stored ≡ q.sanitize (s ∷ t ∷ []))
unfolding qualified
qualified_inv q s t h = ground arith

-- `wrapped` behind its opening quote, read back with what follows.
part-wrapped :
    (s rest : Text) → NoQuoteFirst rest → split_qualified_part (wrapped s ++ rest) ≡ some (s, rest)
unfolding split_qualified_part
part-wrapped s rest h =
    rw (append_assoc (doubled s) (b'"' ∷ []) rest) (split_part_loop-doubled s rest h)

wrapped-split :
    (s t : Text) → s ≢ [] → t ≢ [] → split_qualified (wrapped s ++ (b'.' ∷ wrapped t)) ≡ some (s, t)
unfolding split_qualified
wrapped-split [] t h k = absurd (h refl)
wrapped-split s [] h k = absurd (k refl)
wrapped-split (a ∷ s) (b ∷ t) h k =
    ap after_schema (part-wrapped (a ∷ s) (b'.' ∷ wrapped (b ∷ t)) (λ e. absurd (omega arith)))
    ∙ ap (both_named (a ∷ s)) (split_part_loop-doubled (b ∷ t) [] tt)

-- What `Qualified` renders, `SplitQualified` takes apart into the same two names.
pub split_qualified-qualified :
    (q : Quoter) (s t : Text) {stored : Text}
    → qualified q s t ≡ ok stored
    → split_qualified stored ≡ some (s, t)
split_qualified-qualified q s t {stored} h =
    let (us, ut, e) = qualified_inv q s t h in
    let (s_named, s_clean) = why_unusable_inv s us in
    let (t_named, t_clean) = why_unusable_inv t ut in
    rw (e, q.sanitize_two s t s_clean t_clean) (wrapped-split s t s_named t_named)

part_sound :
    (stored : Text) {s rest : Text}
    → split_qualified_part stored ≡ some (s, rest)
    → stored ≡ wrapped s ++ rest
unfolding split_qualified_part
part_sound [] h = ground arith
part_sound (c ∷ stored) {s} {rest} h = elim (Bool-cases (c == b'"')) [
  | inl e ↦ rw ((==_iff c b'"').0 e) (
      ap (λ t. b'"' ∷ t)
        (split_part_loop_sound stored (rw e at h)
          ∙ sym (append_assoc (doubled s) (b'"' ∷ []) rest)))
  | inr e ↦ absurd (cc (rw e at h))
]

both_named_inv :
    (s : Text) (r : Option (Text × Text)) {s' t : Text}
    → both_named s r ≡ some (s', t)
    → (s' ≡ s) × (s ≢ []) × (t ≢ []) × (r ≡ some (t, []))
both_named_inv [] none h = absurd (cc)
both_named_inv [] (some p) h = absurd (cc)
both_named_inv (c ∷ s) none h = absurd (cc)
both_named_inv (c ∷ s) (some ([], rest)) h = absurd (cc)
both_named_inv (c ∷ s) (some (d ∷ u, [])) {s'} {t} h =
    (ground arith, λ e. absurd (cc), λ e. ground arith, ground arith)
both_named_inv (c ∷ s) (some (d ∷ t, e ∷ rest)) h = absurd (cc)

after_schema_inv :
    (r : Option (Text × Text)) {s t : Text}
    → after_schema r ≡ some (s, t)
    → (rest : Text) × (r ≡ some (s, b'.' ∷ rest))
      × (split_qualified_part rest ≡ some (t, []))
      × (s ≢ [])
      × (t ≢ [])
after_schema_inv none h = absurd (cc)
after_schema_inv (some (schema, [])) h = absurd (cc)
after_schema_inv (some (schema, c ∷ rest)) {s} {t} h = elim (Bool-cases (c == b'.')) [
  | inl e ↦
      let (e1, n1, n2, e2) = both_named_inv schema (split_qualified_part rest) (rw e at h) in
      (rest, rw ((==_iff c b'.').0 e, e1), e2, rw e1 n1, n2)
  | inr e ↦ absurd (cc (rw e at h))
]

-- A text that splits is what the quoting rule makes of the two names, and neither is empty: the
-- split accepts no other spelling.
pub split_qualified_sound :
    (stored : Text) {s t : Text}
    → split_qualified stored ≡ some (s, t)
    → (stored ≡ wrapped s ++ (b'.' ∷ wrapped t)) × (s ≢ []) × (t ≢ [])
split_qualified_sound stored {s} {t} h =
    let (rest, e1, e2, n1, n2) =
      after_schema_inv (split_qualified_part stored) {s = s} {t = t}
        (unfold split_qualified in h) in
    (
      part_sound stored e1
          ∙ ap (λ r. wrapped s ++ (b'.' ∷ r)) (part_sound rest e2 ∙ append-nil (wrapped t)),
      n1,
      n2,
    )
