-- ===== src/Config/ConnString/Redacted.antt =====
-- internal/config/redact.go: replacing the spans of a connection string from the last one to the first one
-- gives the pieces between them, in order, with a placeholder for each.
use pg_noty.Base.{
  ℕ, zero, suc, ◌-◌, ◌≤◌, ◌<◌, ◌≡◌, refl, sym, ap, ◌∙◌, inl, inr, List, [], ◌∷◌, ◌++◌, append-nil,
  append_assoc, if◌then◌else◌, arith, All, All-map₂, length-take, length, take, drop, Text,
  Bool-cases, keep, not,
}
use pg_noty.Config.ConnString.{
  Span, password_spans, redaction_placeholder, slice, is_bare_env_reference, redact_spans,
  redacted_connection_string_spans,
}
use pg_noty.Config.ConnString.Merged.{IsWithin, Descending}
use pg_noty.Config.ConnString.Spans.{password_spans-Descending}

take-none : (n : ℕ) → take {A = ℕ} n [] ≡ []
take-none zero = refl
take-none (suc n) = refl

take-whole : (s : Text) → s ≡ take (length s) s
take-whole [] = refl
take-whole (c ∷ s) = ap (λ r. c ∷ r) (take-whole s)

take-longer : (a : ℕ) (s t : Text) → a ≤ length s → take a (s ++ t) ≡ take a s
take-longer zero s t h = refl
take-longer (suc a) [] t h = absurd (omega arith)
take-longer (suc a) (c ∷ s) t h = ap (λ r. c ∷ r) (take-longer a s t (omega arith))

drop-shorter : (a : ℕ) (s t : Text) → a ≤ length s → drop a (s ++ t) ≡ drop a s ++ t
drop-shorter zero s t h = refl
drop-shorter (suc a) [] t h = absurd (omega arith)
drop-shorter (suc a) (c ∷ s) t h = drop-shorter a s t (omega arith)

take-within : (a k : ℕ) (s : Text) → a ≤ k → take a (take k s) ≡ take a s
take-within zero k s h = refl
take-within (suc a) zero s h = absurd (omega arith)
take-within (suc a) (suc k) [] h = refl
take-within (suc a) (suc k) (c ∷ s) h = ap (λ r. c ∷ r) (take-within a k s (omega arith))

drop-within : (a k : ℕ) (s : Text) → a ≤ k → drop a (take k s) ≡ slice a k s
drop-within zero k s h = ap (λ n. take n s) (omega arith)
drop-within (suc a) zero s h = absurd (omega arith)
drop-within (suc a) (suc k) [] h = sym (take-none (suc k - suc a))
drop-within (suc a) (suc k) (c ∷ s) h =
    drop-within a k s (omega arith) ∙ ap (λ n. take n (drop a s)) (omega arith)

take-parts : (a k : ℕ) (s : Text) → a ≤ k → take k s ≡ take a s ++ slice a k s
take-parts zero k s h = ap (λ n. take n s) (omega arith)
take-parts (suc a) zero s h = absurd (omega arith)
take-parts (suc a) (suc k) [] h = sym (take-none (suc k - suc a))
take-parts (suc a) (suc k) (c ∷ s) h =
    ap (λ r. c ∷ r)
      (take-parts a k s (omega arith) ∙ ap (λ n. take a s ++ take n (drop a s)) (omega arith))

-- What stands for a span: the placeholder, or the span itself if it is a reference to a variable.
abbrev pub shown : Text → Span → Text
shown text s =
    if is_bare_env_reference (slice s.from s.to text)
    then slice s.from s.to text
    else redaction_placeholder

-- The pieces of the text up to an offset, with what stands for the spans between them.
abbrev pub assembled : Text → ℕ → List Span → Text
assembled text end [] = take end text
assembled text end (s ∷ spans) =
    assembled text s.from spans ++ (shown text s ++ slice s.to end text)

-- One replacement, in a text that is the original one up to an offset behind the span.
replaced_span :
    (text tail : Text) (end : ℕ) (s : Span)
    → IsWithin end s
    → end ≤ length text
    → (if is_bare_env_reference (slice s.from s.to text)
        then take end text ++ tail
        else take s.from (take end text ++ tail)
          ++ (redaction_placeholder ++ drop s.to (take end text ++ tail)))
      ≡ take s.from text ++ ((shown text s ++ slice s.to end text) ++ tail)
replaced_span text tail end s w h =
    let long : length (take end text) ≡ end = omega (arith, length-take end text) in
    let parts : take end text
        ≡ (take s.from text ++ slice s.from s.to text) ++ slice s.to end text =
      take-parts s.to end text (omega arith)
      ∙ ap (λ t. t ++ slice s.to end text) (take-parts s.from s.to text (omega arith)) in
    let front : take s.from (take end text ++ tail) ≡ take s.from text =
      take-longer s.from (take end text) tail (omega arith)
      ∙ take-within s.from end text (omega arith) in
    let back : drop s.to (take end text ++ tail) ≡ slice s.to end text ++ tail =
      drop-shorter s.to (take end text) tail (omega arith)
      ∙ ap (λ t. t ++ tail) (drop-within s.to end text (omega arith)) in
    elim (Bool-cases (is_bare_env_reference (slice s.from s.to text))) [
      | inl e ↦
          rw (e, append_assoc (slice s.from s.to text) (slice s.to end text) tail)
            (ap (λ t. t ++ tail) parts
              ∙ (append_assoc (take s.from text ++ slice s.from s.to text) (slice s.to end text)
                    tail
                  ∙ append_assoc (take s.from text) (slice s.from s.to text)
                      (slice s.to end text ++ tail)))
      | inr e ↦ rw e (
          ap (λ t. t ++ (redaction_placeholder ++ drop s.to (take end text ++ tail))) front
          ∙ ap (λ t. take s.from text ++ (redaction_placeholder ++ t)) back)
    ]

-- The spans that are no reference to a variable.
abbrev pub hidden : Text → List Span → List Span
hidden text = keep (λ s. not (is_bare_env_reference (slice s.from s.to text)))

hidden-cons :
    (text : Text) (s : Span) (spans replaced : List Span)
    → (if is_bare_env_reference (slice s.from s.to text) then replaced else replaced ++ s ∷ [])
        ++ hidden text spans
      ≡ replaced ++ hidden text (s ∷ spans)
hidden-cons text s spans replaced =
    elim (Bool-cases (is_bare_env_reference (slice s.from s.to text))) [
      | inl e ↦ rw e refl
      | inr e ↦ rw e (append_assoc replaced (s ∷ []) (hidden text spans))
    ]

redact_spans-assembled :
    (text tail : Text) (end : ℕ) (spans replaced : List Span)
    → Descending spans
    → All (IsWithin end) spans
    → end ≤ length text
    → redact_spans text spans (take end text ++ tail) replaced
      ≡ (assembled text end spans ++ tail, replaced ++ hidden text spans)
unfolding redact_spans
redact_spans-assembled text tail end [] replaced d w h =
    ap (λ r. (take end text ++ tail, r)) (sym (append-nil replaced))
redact_spans-assembled text tail end (s ∷ spans) replaced d w h =
    let now =
      if is_bare_env_reference (slice s.from s.to text) then replaced else replaced ++ s ∷ [] in
    ap (λ t. redact_spans text spans t now) (replaced_span text tail end s w.0 h)
    ∙ (redact_spans-assembled text ((shown text s ++ slice s.to end text) ++ tail) s.from spans now
          d.1
          (All-map₂ (λ t. t.to < s.from) (IsWithin end) (IsWithin s.from) spans
            (λ t below within. (within.0, omega arith)) d.0 w.1)
          (omega arith)
        ∙ (ap (λ t. (t, now ++ hidden text spans))
              (sym (
                append_assoc (assembled text s.from spans) (shown text s ++ slice s.to end text)
                  tail))
            ∙ ap (λ r. (assembled text end (s ∷ spans) ++ tail, r))
                (hidden-cons text s spans replaced)))

-- Replacing the spans of a text from the last one to the first one gives the pieces of the text between
-- them, in order, with a placeholder where a span was, or the span itself if it is a reference to a variable;
-- and with it the spans that were replaced, which are the others.
pub redacted_connection_string_spans-assembled :
    (text : Text)
    → redacted_connection_string_spans text
      ≡ (assembled text (length text) (password_spans text), hidden text (password_spans text))
unfolding redacted_connection_string_spans
redacted_connection_string_spans-assembled text =
    let (d, w) = password_spans-Descending text in
    ap (λ t. redact_spans text (password_spans text) t [])
      (take-whole text ∙ sym (append-nil (take (length text) text)))
    ∙ (redact_spans-assembled text [] (length text) (password_spans text) [] d w (omega arith)
        ∙ ap (λ t. (t, hidden text (password_spans text)))
            (append-nil (assembled text (length text) (password_spans text))))
