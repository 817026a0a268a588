-- ===== src/Config/Ident/Headers.antt =====
-- internal/config/ident.go: the canonical spelling of a header's name.
use pg_noty.Base.{
  ℕ, ◌≡◌, refl, sym, ap, ◌∙◌, ◌↔◌, inl, inr, Bool, true, false, some, some_inv, [], ◌∷◌,
  if◌then◌else◌, arith, ◌==◌, ==_iff, Text, Bool-cases,
}
use pg_noty.Config.WhenLexer.{fold, equal_fold}
use pg_noty.Config.Ident.{
  to_upper, to_lower, valid_http_field_name, canonical_loop, canonical_http_field_name,
}

abbrev cased : Bool → ℕ → ℕ
cased upper c = if upper then to_upper c else to_lower c

cased_iff : (upper : Bool) (c d : ℕ) → (cased upper c ≡ cased upper d) ↔ (fold c ≡ fold d)
cased_iff true c d = ground arith
cased_iff false c d = ground arith

hyphen_fold : (c d : ℕ) → fold c ≡ fold d → (c == b'-') ≡ (d == b'-')
hyphen_fold c d h = ground arith

canonical_loop_inj :
    (upper : Bool) (s t : Text)
    → canonical_loop upper s ≡ canonical_loop upper t
    → equal_fold s t ≡ true
unfolding canonical_loop
canonical_loop_inj upper [] [] h = refl
canonical_loop_inj upper [] (d ∷ t) h = absurd (cc)
canonical_loop_inj upper (c ∷ s) [] h = absurd (cc)
canonical_loop_inj upper (c ∷ s) (d ∷ t) h =
    let heads : cased upper c ≡ cased upper d = cc in
    let tails : canonical_loop (c == b'-') s ≡ canonical_loop (d == b'-') t = cc in
    let same = (cased_iff upper c d).0 heads in
    let rest =
      canonical_loop_inj (c == b'-') s t
        (tails ∙ ap (λ b. canonical_loop b t) (sym (hyphen_fold c d same))) in
    rw ((==_iff (fold c) (fold d)).1 same, rest) refl

equal_fold-canonical_loop :
    (upper : Bool) (s t : Text)
    → equal_fold s t ≡ true
    → canonical_loop upper s ≡ canonical_loop upper t
unfolding canonical_loop
equal_fold-canonical_loop upper [] [] h = refl
equal_fold-canonical_loop upper [] (d ∷ t) h = absurd (cc)
equal_fold-canonical_loop upper (c ∷ s) [] h = absurd (cc)
equal_fold-canonical_loop upper (c ∷ s) (d ∷ t) h =
    let same : fold c ≡ fold d = (==_iff (fold c) (fold d)).0 (ground arith) in
    let rest : equal_fold s t ≡ true = ground arith in
    let tails =
      equal_fold-canonical_loop (c == b'-') s t rest
      ∙ ap (λ b. canonical_loop b t) (hyphen_fold c d same) in
    rw ((cased_iff upper c d).1 same, tails) refl

-- Two header names are given one canonical spelling exactly if they are equal up to the case of ASCII
-- letters.
pub canonical_http_field_name_iff :
    (name other : Text) {u v : Text}
    → canonical_http_field_name name ≡ some u
    → canonical_http_field_name other ≡ some v
    → (u ≡ v) ↔ (equal_fold name other ≡ true)
unfolding canonical_http_field_name
canonical_http_field_name_iff name other {u} {v} h k =
    let e = spelled name h in
    let f = spelled other k in
    (
      λ p. canonical_loop_inj true name other (e ∙ p ∙ sym f),
      λ p. sym e ∙ equal_fold-canonical_loop true name other p ∙ f,
    )
  where
    spelled :
        (n : Text) {w : Text} → canonical_http_field_name n ≡ some w → canonical_loop true n ≡ w
    spelled n h = elim (Bool-cases (valid_http_field_name n)) [
      | inl e ↦ some_inv (rw (canonical_http_field_name, e) at h)
      | inr e ↦ absurd (cc (rw (canonical_http_field_name, e) at h))
    ]
