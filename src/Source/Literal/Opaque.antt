-- ===== src/Source/Literal/Opaque.antt =====
-- internal/source/literal.go against internal/config/whenlex.go: a quoted literal is one token.
use pg_noty.Base.{
  ℕ, zero, suc, ◌-◌, ◌<◌, ◌≡◌, refl, inl, inr, true, false, none, [], ◌∷◌, ◌++◌, append_assoc,
  arith, ◌==◌, length, length-append, any, Text, Bool-cases,
}
use pg_noty.Config.WhenLexer.{
  string_quote, starts_with, end_of_byte_run, quoted_loop, end_of_quoted,
  end_of_word_or_escape_string, next_token, continuation_quote,
}
use pg_noty.Source.Literal.{twice, backslash, apostrophe, quote_literal}

-- What may follow a literal that ends: no other quote, and no continuation of the constant.
pub record Closes (rest : Text) : Type 0 where
  pub no_quote : starts_with string_quote rest ≡ false
  pub no_continuation : continuation_quote rest string_quote ≡ none

plain_body :
    (fuel : ℕ) (v rest : Text)
    → length (twice apostrophe v) < fuel
    → Closes rest
    → quoted_loop fuel string_quote false (twice apostrophe v ++ apostrophe ∷ rest) ≡ rest
unfolding quoted_loop
plain_body zero v rest h k = absurd (omega arith)
plain_body (suc fuel) [] rest h k = rw (k.no_quote, k.no_continuation) refl
plain_body (suc fuel) (c ∷ v) rest h k = elim (Bool-cases (c == apostrophe)) [
  | inl e ↦ rw e (plain_body fuel v rest (ground (arith, e, h)) k)
  | inr e ↦ rw (e, e) (plain_body fuel v rest (ground (arith, e, h)) k)
]

escaped_body :
    (fuel : ℕ) (v rest : Text)
    → length (twice apostrophe (twice backslash v)) < fuel
    → Closes rest
    → quoted_loop fuel string_quote true (twice apostrophe (twice backslash v) ++ apostrophe ∷ rest)
      ≡ rest
unfolding quoted_loop
escaped_body zero v rest h k = absurd (omega arith)
escaped_body (suc fuel) [] rest h k = rw (k.no_quote, k.no_continuation) refl
escaped_body (suc fuel) (c ∷ v) rest h k = elim (Bool-cases (c == backslash)) [
  | inl e ↦ rw e (escaped_body fuel v rest (ground (arith, e, h)) k)
  | inr e ↦ elim (Bool-cases (c == apostrophe)) [
    | inl d ↦ rw (e, d) (escaped_body fuel v rest (ground (arith, e, d, h)) k)
    | inr d ↦ rw (e, d, e, d) (escaped_body fuel v rest (ground (arith, e, d, h)) k)
  ]
]

escape_prefix :
    (literal rest : Text)
    → end_of_quoted (string_quote ∷ literal) string_quote true ≡ rest
    → next_token (69 ∷ string_quote ∷ literal) ≡ (rest, false)
unfolding next_token end_of_word_or_escape_string end_of_byte_run
escape_prefix literal rest h =
    let one : suc (suc (length literal)) - suc (length literal) ≡ 1 = omega arith in
    rw (one, h) refl

plain_prefix :
    (literal rest : Text)
    → end_of_quoted (string_quote ∷ literal) string_quote false ≡ rest
    → next_token (string_quote ∷ literal) ≡ (rest, false)
unfolding next_token
plain_prefix literal rest h = rw h refl

-- A quoted literal is one token that is no word, whatever text it quotes, where neither a quote nor a
-- continuation of the constant follows: nothing inside it is read as code.
pub quote_literal-token :
    (value rest : Text) → Closes rest → next_token (quote_literal value ++ rest) ≡ (rest, false)
unfolding quote_literal end_of_quoted
quote_literal-token value rest k = elim (Bool-cases (any (λ c. c == backslash) value)) [
  | inl e ↦
      let body = twice apostrophe (twice backslash value) in
      rw (e, append_assoc body (apostrophe ∷ []) rest)
        (escape_prefix (body ++ apostrophe ∷ rest) rest (
          escaped_body (suc (length (body ++ apostrophe ∷ rest))) value rest
            (omega (arith, length-append body (apostrophe ∷ rest))) k))
  | inr e ↦
      let body = twice apostrophe value in
      rw (e, append_assoc body (apostrophe ∷ []) rest)
        (plain_prefix (body ++ apostrophe ∷ rest) rest (
          plain_body (suc (length (body ++ apostrophe ∷ rest))) value rest
            (omega (arith, length-append body (apostrophe ∷ rest))) k))
]
