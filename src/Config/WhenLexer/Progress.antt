-- ===== src/Config/WhenLexer/Progress.antt =====
-- internal/config/whenlex.go: every token consumes at least one byte, so the scan ends.
use pg_noty.Base.{
  ℕ, zero, suc, ◌-◌, ◌<◌, ◌≡◌, refl, sym, ap, ◌∙◌, inl, inr, Bool, true, false, ◌&&◌, ◌||◌, some,
  [], ◌∷◌, ◌++◌, append-nil, append_assoc, if◌then◌else◌, arith, subst, ◌==◌, length, length-append,
  drop, Text, Bool-cases, Option-cases, cut_prefix, cut_prefix_sound,
}
use pg_noty.Config.WhenLexer.{
  has_prefix, line_comment_open, block_comment_open, string_quote, identifier_quote, is_space,
  is_newline, is_word_start_byte, is_word_byte, between, equal_fold, end_of_byte_run, trim_left,
  end_of_line_comment, skip_gap, continuation_quote, quoted_loop, end_of_quoted, block_comment_loop,
  before_dollar, delimiter, dollar_quote_delimiter, after_first, starts_with, end_of_dollar_quoted,
  end_of_word_or_escape_string, next_token,
}

-- What a text ends with, and what it ends with past its first byte.
abbrev pub Rest : Text → Text → Type 0
Rest rest s = (front : Text) × (s ≡ front ++ rest)

abbrev pub Later : Text → Text → Type 0
Later rest s = (first : ℕ) × (front : Text) × (s ≡ first ∷ (front ++ rest))

pub Rest-self : (s : Text) → Rest s s
Rest-self s = ([], refl)

pub Rest-empty : (s : Text) → Rest [] s
Rest-empty s = (s, sym (append-nil s))

pub Rest-cons : (c : ℕ) (rest s : Text) → Rest rest s → Rest rest (c ∷ s)
Rest-cons c rest s (front, e) = (c ∷ front, ap (λ x. c ∷ x) e)

pub Rest-trans : (r s t : Text) → Rest r s → Rest s t → Rest r t
Rest-trans r s t (a, e) (b, f) = (b ++ a, f ∙ (ap (λ x. b ++ x) e ∙ sym (append_assoc b a r)))

pub Later-cons : (c : ℕ) (rest s : Text) → Rest rest s → Later rest (c ∷ s)
Later-cons c rest s (front, e) = (c, front, ap (λ x. c ∷ x) e)

pub Later-length : (rest s : Text) → Later rest s → length rest < length s
Later-length rest s (c, front, e) = omega (arith, ap length e, length-append front rest)

pub drop-Rest : (n : ℕ) (s : Text) → Rest (drop n s) s
drop-Rest zero s = Rest-self s
drop-Rest (suc n) [] = Rest-self []
drop-Rest (suc n) (c ∷ s) = Rest-cons c (drop n s) s (drop-Rest n s)

pub end_of_byte_run-Rest : (admits : ℕ → Bool) (s : Text) → Rest (end_of_byte_run admits s) s
unfolding end_of_byte_run
end_of_byte_run-Rest admits [] = Rest-self []
end_of_byte_run-Rest admits (c ∷ s) = elim (Bool-cases (admits c)) [
  | inl e ↦ rw e (Rest-cons c (end_of_byte_run admits s) s (end_of_byte_run-Rest admits s))
  | inr e ↦ rw e (Rest-self (c ∷ s))
]

trim_left-Rest : (s : Text) → Rest (trim_left s) s
trim_left-Rest [] = Rest-self []
trim_left-Rest (c ∷ s) = elim (Bool-cases (is_space c)) [
  | inl e ↦ rw e (Rest-cons c (trim_left s) s (trim_left-Rest s))
  | inr e ↦ rw e (Rest-self (c ∷ s))
]

end_of_line_comment-Rest : (s : Text) → Rest (end_of_line_comment s) s
unfolding end_of_line_comment
end_of_line_comment-Rest [] = Rest-self []
end_of_line_comment-Rest (c ∷ s) = elim (Bool-cases (is_newline c)) [
  | inl e ↦ rw e (Rest-cons c s s (Rest-self s))
  | inr e ↦ rw e (Rest-cons c (end_of_line_comment s) s (end_of_line_comment-Rest s))
]

skip_gap-Rest : (fuel : ℕ) (s : Text) → Rest (skip_gap fuel s) s
unfolding skip_gap
skip_gap-Rest zero s = Rest-self s
skip_gap-Rest (suc fuel) s = elim (Bool-cases (has_prefix line_comment_open s)) [
  | inl e ↦ rw e (
      Rest-trans _ _ _ (skip_gap-Rest fuel (trim_left (end_of_line_comment s)))
        (Rest-trans _ _ _ (trim_left-Rest (end_of_line_comment s)) (end_of_line_comment-Rest s)))
  | inr e ↦ rw e (Rest-self s)
]

continuation_quote-Rest :
    (after : Text) (quote : ℕ) (gap : Text)
    → continuation_quote after quote ≡ some gap
    → Rest gap after
unfolding continuation_quote
continuation_quote-Rest after quote gap h =
    let reached : skip_gap (length after) (trim_left after) ≡ gap = ground (arith, h) in
    rw (sym reached)
      (Rest-trans _ _ _ (skip_gap-Rest (length after) (trim_left after)) (trim_left-Rest after))

pub quoted_loop-Rest :
    (fuel quote : ℕ) (escapes : Bool) (s : Text) → Rest (quoted_loop fuel quote escapes s) s
unfolding quoted_loop
quoted_loop-Rest zero quote escapes s = Rest-empty s
quoted_loop-Rest (suc fuel) quote escapes [] = Rest-self []
quoted_loop-Rest (suc fuel) quote escapes (c ∷ s) =
    let skipped =
      Rest-trans _ _ _ (quoted_loop-Rest fuel quote escapes (drop 1 s)) (drop-Rest 1 s) in
    let content = quoted_loop-Rest fuel quote escapes s in
    elim (Bool-cases (escapes && c == 92)) [
      | inl e ↦ rw e (Rest-cons c _ s skipped)
      | inr e ↦ elim (Bool-cases (c == quote)) [
        | inr k ↦ rw (e, k) (Rest-cons c _ s content)
        | inl k ↦ elim (Bool-cases (starts_with quote s)) [
          | inl d ↦ rw (e, k, d) (Rest-cons c _ s skipped)
          | inr d ↦
              rw (e, k, d)
                (Rest-cons c _ s (elim (Option-cases (continuation_quote s quote)) [
                  | inl n ↦ rw n (Rest-self s)
                  | inr (gap, m) ↦ rw m (
                      Rest-trans _ _ _ (quoted_loop-Rest fuel quote escapes (drop 1 gap)) (
                        Rest-trans _ _ _ (drop-Rest 1 gap) (continuation_quote-Rest s quote gap m)))
                ]))
        ]
      ]
    ]

-- Its three ways on, by the two bytes at the head.
block_comment_step :
    (P : Text → Type 0) (depth c d : ℕ) (s : Text)
    → P (block_comment_loop (suc depth) s)
    → P s
    → P (block_comment_loop (depth - 1) s)
    → P (block_comment_loop depth (d ∷ s))
    → P (block_comment_loop depth (c ∷ d ∷ s))
unfolding block_comment_loop
block_comment_step P depth c d s opened closed outer past = elim (Bool-cases (c == 47 && d == 42)) [
  | inl e ↦ rw (e, block_comment_loop) opened
  | inr e ↦ elim (Bool-cases (c == 42 && d == 47)) [
    | inl k ↦ elim (Bool-cases (depth - 1 == 0)) [
      | inl z ↦ rw (e, k, z, block_comment_loop) closed
      | inr z ↦ rw (e, k, z, block_comment_loop) outer
    ]
    | inr k ↦ rw (e, k, block_comment_loop) past
  ]
]

block_comment_loop-Rest : (depth : ℕ) (s : Text) → Rest (block_comment_loop depth s) s
unfolding block_comment_loop
block_comment_loop-Rest depth [] = Rest-self []
block_comment_loop-Rest depth (c ∷ []) = Rest-empty (c ∷ [])
block_comment_loop-Rest depth (c ∷ d ∷ s) =
    let two = λ (r : Text) (h : Rest r s). Rest-cons c r (d ∷ s) (Rest-cons d r s h) in
    block_comment_step (λ r. Rest r (c ∷ d ∷ s)) depth c d s
      (two _ (block_comment_loop-Rest (suc depth) s)) (two s (Rest-self s))
      (two _ (block_comment_loop-Rest (depth - 1) s))
      (Rest-cons c _ _ (block_comment_loop-Rest depth (d ∷ s)))

block_comment_loop-Later :
    (depth c : ℕ) (s : Text) → Later (block_comment_loop depth (c ∷ s)) (c ∷ s)
unfolding block_comment_loop
block_comment_loop-Later depth c [] = Later-cons c [] [] (Rest-self [])
block_comment_loop-Later depth c (d ∷ s) =
    let two = λ (r : Text) (h : Rest r s). Later-cons c r (d ∷ s) (Rest-cons d r s h) in
    block_comment_step (λ r. Later r (c ∷ d ∷ s)) depth c d s
      (two _ (block_comment_loop-Rest (suc depth) s)) (two s (Rest-self s))
      (two _ (block_comment_loop-Rest (depth - 1) s))
      (Later-cons c _ _ (block_comment_loop-Rest depth (d ∷ s)))

after_first-Rest : (needle s rest : Text) → after_first needle s ≡ some rest → Rest rest s
unfolding after_first
after_first-Rest needle [] rest h = (needle, cut_prefix_sound needle [] h)
after_first-Rest needle (c ∷ s) rest h = elim (Option-cases (cut_prefix needle (c ∷ s))) [
  | inr (r, e) ↦ (needle, cut_prefix_sound needle (c ∷ s) (e ∙ (sym (ground (arith, e, h)))))
  | inl e ↦ Rest-cons c rest s (after_first-Rest needle s rest (ground (arith, e, h)))
]

delimiter_nonempty :
    (s opening : Text)
    → dollar_quote_delimiter s ≡ some opening
    → (tag : Text) × (opening ≡ delimiter tag)
unfolding dollar_quote_delimiter
delimiter_nonempty s opening h = elim (Option-cases (before_dollar (drop 1 s))) [
  | inl e ↦ absurd (ground (arith, e, h))
  | inr (tag, e) ↦ (tag, ground (arith, e, h))
]

end_of_dollar_quoted-Later : (c : ℕ) (s : Text) → Later (end_of_dollar_quoted (c ∷ s)) (c ∷ s)
unfolding end_of_dollar_quoted
end_of_dollar_quoted-Later c s = elim (Option-cases (dollar_quote_delimiter (c ∷ s))) [
  | inl e ↦ rw (e, end_of_dollar_quoted) (Later-cons c s s (Rest-self s))
  | inr (opening, e) ↦
      let (tag, shape) = delimiter_nonempty (c ∷ s) opening e in
      elim (Option-cases (after_first opening (drop (length opening) (c ∷ s)))) [
        | inl k ↦ rw (e, k, end_of_dollar_quoted) (Later-cons c [] s (Rest-empty s))
        | inr (rest, k) ↦
            rw (e, k, end_of_dollar_quoted)
              (Later-cons c rest s (
                Rest-trans _ _ _ (after_first-Rest opening _ rest k)
                  (subst (λ x. Rest (drop (length x) (c ∷ s)) s) (sym shape) (drop-Rest _ s))))
      ]
]

end_of_quoted-Rest :
    (s : Text) (quote : ℕ) (escapes : Bool) → Rest (end_of_quoted s quote escapes) (drop 1 s)
unfolding end_of_quoted
end_of_quoted-Rest s quote escapes = quoted_loop-Rest (length s) quote escapes (drop 1 s)

end_of_word-Later : (c : ℕ) (s : Text) → Later (end_of_word_or_escape_string (c ∷ s)).0 (c ∷ s)
unfolding end_of_word_or_escape_string
end_of_word-Later c s =
    let rest = end_of_byte_run is_word_byte s in
    let run = end_of_byte_run-Rest is_word_byte s in
    elim (Bool-cases
      (starts_with string_quote rest && equal_fold (between (c ∷ s) rest) (69 ∷ []))) [
        | inr e ↦ rw e (Later-cons c rest s run)
        | inl e ↦ rw e (
            Later-cons c _ s (
              Rest-trans _ _ _
                (Rest-trans _ _ _ (end_of_quoted-Rest rest string_quote true) (drop-Rest 1 rest))
                run))
      ]

end_of_line_comment-Later : (c : ℕ) (s : Text) → Later (end_of_line_comment (c ∷ s)) (c ∷ s)
unfolding end_of_line_comment
end_of_line_comment-Later c s = elim (Bool-cases (is_newline c)) [
  | inl e ↦ rw e (Later-cons c s s (Rest-self s))
  | inr e ↦ rw e (Later-cons c _ s (end_of_line_comment-Rest s))
]

Later-if :
    (t u : Text × Bool) (s : Text) (b : Bool)
    → Later t.0 s
    → Later u.0 s
    → Later (if b then t else u).0 s
Later-if t u s true h k = h
Later-if t u s false h k = k

-- Every token takes at least one byte of the clause.
pub next_token-Later : (c : ℕ) (s : Text) → Later (next_token (c ∷ s)).0 (c ∷ s)
unfolding next_token
next_token-Later c s = Later-if _ _ _ (is_word_start_byte c) (end_of_word-Later c s) (
    Later-if _ _ _ (has_prefix line_comment_open (c ∷ s)) (end_of_line_comment-Later c s) (
      Later-if _ _ _ (has_prefix block_comment_open (c ∷ s)) (block_comment_loop-Later 0 c s) (
        Later-if _ _ _ (c == string_quote || c == identifier_quote)
          (Later-cons c _ s (end_of_quoted-Rest (c ∷ s) c false))
          (Later-if _ _ _ (c == 36) (end_of_dollar_quoted-Later c s)
            (Later-cons c s s (Rest-self s))))))
