-- ===== src/Source/Literal/Body.antt =====
-- internal/source/dollarquote.go against internal/config/whenlex.go: a dollar-quoted body is one token.
use pg_noty.Base.{
  ℕ, zero, suc, ◌≡◌, ◌≢◌, refl, ap, ◌∙◌, inl, inr, Bool, true, false, none, some, [], ◌∷◌, ◌++◌,
  append_assoc, arith, ◌==◌, length, drop, All, All-append, All-map, is_empty, Text, Bool-cases,
  Option-cases, cut_prefix, cut_prefix-append,
}
use pg_noty.Config.WhenLexer.{
  is_tag_byte, delimiter, is_dollar_quote_tag, dollar_quote_delimiter, after_first,
  end_of_dollar_quoted, next_token, end_of_byte_run,
}
use pg_noty.Source.Literal.{contains, tag_at}
use pg_noty.Source.Literal.Tag.{tag_bytes, before_dollar-append}

-- A delimiter has no line feed, so it is not across the end of the body.
cut_prefix-across :
    (needle s rest : Text)
    → All (λ c. c ≢ 10) needle
    → cut_prefix needle s ≡ none
    → cut_prefix needle (s ++ 10 ∷ rest) ≡ none
cut_prefix-across [] s rest h k = absurd (cc)
cut_prefix-across (a ∷ needle) [] rest h k = ground (arith, h.0)
cut_prefix-across (a ∷ needle) (c ∷ s) rest h k = elim (Bool-cases (a == c)) [
  | inl e ↦ rw e (cut_prefix-across needle s rest h.1 (rw e at k))
  | inr e ↦ rw e refl
]

after_first-head :
    (needle s rest : Text) → cut_prefix needle s ≡ some rest → after_first needle s ≡ some rest
unfolding after_first
after_first-head needle [] rest h = h
after_first-head needle (c ∷ s) rest h = rw (h, after_first) refl

after_first-append :
    (needle s rest : Text)
    → All (λ c. c ≢ 10) needle
    → after_first needle s ≡ none
    → after_first needle (s ++ 10 ∷ (needle ++ rest)) ≡ some rest
unfolding after_first
after_first-append needle [] rest h k =
    let no : cut_prefix needle (10 ∷ (needle ++ rest)) ≡ none =
      cut_prefix-across needle [] (needle ++ rest) h k in
    rw (no, after_first)
      (after_first-head needle (needle ++ rest) rest (cut_prefix-append needle rest))
after_first-append needle (c ∷ s) rest h k = elim (Option-cases (cut_prefix needle (c ∷ s))) [
  | inr (r, e) ↦ absurd (cc (rw (e, after_first) at k))
  | inl e ↦
      rw (cut_prefix-across needle (c ∷ s) (needle ++ rest) h e, after_first)
        (after_first-append needle s rest h (rw (e, after_first) at k))
]

byte_run-All :
    (admits : ℕ → Bool) (s : Text) → All (λ c. admits c ≡ true) s → end_of_byte_run admits s ≡ []
unfolding end_of_byte_run
byte_run-All admits [] h = refl
byte_run-All admits (c ∷ s) h = rw (h.0) (byte_run-All admits s h.1)

tag_at-IsTag : (m : ℕ) → (is_empty (tag_at m) ≡ false) × (is_dollar_quote_tag (tag_at m) ≡ true)
unfolding is_dollar_quote_tag
tag_at-IsTag zero = (refl, refl)
tag_at-IsTag (suc m) =
    (refl, rw (byte_run-All is_tag_byte (drop 1 (tag_at (suc m))) ((tag_bytes (suc m)).1)) refl)

delimiter_read :
    (m : ℕ) (s : Text)
    → dollar_quote_delimiter (delimiter (tag_at m) ++ s) ≡ some (delimiter (tag_at m))
unfolding dollar_quote_delimiter
delimiter_read m s =
    let read = before_dollar-append (tag_at m) s (tag_bytes m) in
    let (full, is_tag) = tag_at-IsTag m in
    rw (append_assoc (tag_at m) (36 ∷ []) s, read, dollar_quote_delimiter, full, is_tag) refl

drop-append : (s rest : Text) → drop (length s) (s ++ rest) ≡ rest
drop-append [] rest = refl
drop-append (c ∷ s) rest = drop-append s rest

delimiter_bytes :
    (tag : Text) → All (λ c. is_tag_byte c ≡ true) tag → All (λ c. c ≢ 10) (delimiter tag)
delimiter_bytes tag h = (
  ground arith,
  All-append (λ c. c ≢ 10) tag (36 ∷ []) (All-map _ _ tag no_feed h) (ground arith, tt),
)
  where
    no_feed : (c : ℕ) → is_tag_byte c ≡ true → c ≢ 10
    no_feed c h = ground (arith, h)

-- How the generated statement writes a function's body.
abbrev pub dollar_quoted : Text → Text → Text
dollar_quoted tag body = delimiter tag ++ (10 ∷ (body ++ 10 ∷ delimiter tag))

dollar_token : (t : Text) → next_token (36 ∷ t) ≡ (end_of_dollar_quoted (36 ∷ t), false)
unfolding next_token
dollar_token t = refl

end_of_dollar_quoted-body :
    (m : ℕ) (s rest : Text)
    → after_first (delimiter (tag_at m)) s ≡ some rest
    → end_of_dollar_quoted (delimiter (tag_at m) ++ s) ≡ rest
unfolding end_of_dollar_quoted
end_of_dollar_quoted-body m s rest h =
    rw (delimiter_read m s, end_of_dollar_quoted, drop-append (delimiter (tag_at m)) s, h) refl

-- A function body quoted by a tag whose delimiter it does not hold is one token that is no word, whatever
-- follows: the body cannot end its own quoting.
pub dollar_quoted-token :
    (m : ℕ) (body rest : Text)
    → contains body (delimiter (tag_at m)) ≡ false
    → next_token (dollar_quoted (tag_at m) body ++ rest) ≡ (rest, false)
unfolding contains after_first
dollar_quoted-token m body rest h =
    let d = delimiter (tag_at m) in
    let none_in_body : after_first d (10 ∷ body) ≡ none = free m body h in
    let whole : dollar_quoted (tag_at m) body ++ rest ≡ d ++ ((10 ∷ body) ++ 10 ∷ (d ++ rest)) =
      append_assoc d (10 ∷ (body ++ 10 ∷ d)) rest
      ∙ ap (λ x. d ++ 10 ∷ x) (append_assoc body (10 ∷ d) rest) in
    rw whole (
      dollar_token _
      ∙ ap (λ x. (x, false))
          (end_of_dollar_quoted-body m _ rest (
            after_first-append d (10 ∷ body) rest (delimiter_bytes (tag_at m) (tag_bytes m))
              none_in_body)))
  where
    free :
        (m : ℕ) (body : Text)
        → contains body (delimiter (tag_at m)) ≡ false
        → after_first (delimiter (tag_at m)) (10 ∷ body) ≡ none
    free m body h = elim (Option-cases (after_first (delimiter (tag_at m)) body)) [
      | inl e ↦ ground (arith, e)
      | inr (r, e) ↦ absurd (ground (arith, e, h))
    ]
