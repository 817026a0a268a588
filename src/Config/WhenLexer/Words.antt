-- ===== src/Config/WhenLexer/Words.antt =====
-- internal/config/whenlex.go: what the scan for a bare word finds.
use pg_noty.Base.{
  take-append, ℕ, zero, suc, ◌-◌, ◌≤◌, ◌≡◌, refl, sym, ap, ◌∙◌, subst, inl, inr, Bool, true, false,
  not, ◌&&◌, ◌||◌, some, [], ◌∷◌, ◌++◌, if◌then◌else◌, arith, ◌==◌, length, length-append, drop,
  All, Text, Bool-cases, Option-cases, some_inv,
}
use pg_noty.Config.WhenLexer.{
  has_prefix, line_comment_open, block_comment_open, string_quote, identifier_quote, field_selector,
  is_word_start_byte, is_word_byte, is_token_separator, between, equal_fold, starts_with,
  end_of_byte_run, end_of_word_or_escape_string, next_token, bare_word_loop, first_bare_word,
}
use pg_noty.Config.WhenLexer.Progress.{
  Rest, Later, Rest-self, Rest-trans, Later-length, next_token-Later,
}

-- The end of a run: the text ends, or its next byte is of another kind.
abbrev pub stops : (ℕ → Bool) → Text → Bool
stops admits [] = true
stops admits (c ∷ s) = not (admits c)

byte_run :
    (admits : ℕ → Bool) (s : Text)
    → (front : Text) × (s ≡ front ++ end_of_byte_run admits s)
      × All (λ c. admits c ≡ true) front
      × (stops admits (end_of_byte_run admits s) ≡ true)
unfolding end_of_byte_run
byte_run admits [] = ([], refl, tt, refl)
byte_run admits (c ∷ s) = elim (Bool-cases (admits c)) [
  | inl e ↦
      let (front, same, all, stop) = byte_run admits s in
      rw e (c ∷ front, ap (λ x. c ∷ x) same, (e, all), stop)
  | inr e ↦ rw e ([], refl, tt, rw e refl)
]

drop-append : (front rest : Text) → drop (length front) (front ++ rest) ≡ rest
drop-append [] rest = refl
drop-append (c ∷ front) rest = drop-append front rest

pub between-append : (front rest : Text) → between (front ++ rest) rest ≡ front
between-append front rest =
    let n : length (front ++ rest) - length rest ≡ length front =
      omega (arith, length-append front rest) in
    rw n (take-append front rest)

no_word_if :
    (b : Bool) (t u : Text × Bool) → t.1 ≡ false → u.1 ≡ false → (if b then t else u).1 ≡ false
no_word_if true t u h k = h
no_word_if false t u h k = k

other_token : (c : ℕ) (s : Text) → is_word_start_byte c ≡ false → (next_token (c ∷ s)).1 ≡ false
unfolding next_token
other_token c s e = rw e (
    no_word_if (has_prefix line_comment_open (c ∷ s)) _ _ refl (
      no_word_if (has_prefix block_comment_open (c ∷ s)) _ _ refl (
        no_word_if (c == string_quote || c == identifier_quote) _ _ refl
          (no_word_if (c == 36) _ _ refl refl))))

word_or_escape :
    (c : ℕ) (s : Text)
    → (end_of_word_or_escape_string (c ∷ s)).1 ≡ true
    → (end_of_word_or_escape_string (c ∷ s)).0 ≡ end_of_byte_run is_word_byte s
unfolding end_of_word_or_escape_string
word_or_escape c s h =
    let rest = end_of_byte_run is_word_byte s in
    elim (Bool-cases
      (starts_with string_quote rest && equal_fold (between (c ∷ s) rest) (69 ∷ []))) [
        | inl e ↦ absurd (cc (rw e at h))
        | inr e ↦ rw e refl
      ]

word_token :
    (c : ℕ) (s : Text)
    → is_word_start_byte c ≡ true
    → next_token (c ∷ s) ≡ end_of_word_or_escape_string (c ∷ s)
unfolding next_token
word_token c s e = rw e refl

-- A bare word is a whole run of word bytes.
next_token-word :
    (c : ℕ) (s : Text)
    → (next_token (c ∷ s)).1 ≡ true
    → (is_word_start_byte c ≡ true) × ((next_token (c ∷ s)).0 ≡ end_of_byte_run is_word_byte s)
next_token-word c s h = elim (Bool-cases (is_word_start_byte c)) [
  | inr e ↦ absurd (cc (other_token c s e))
  | inl e ↦ let token = word_token c s e in (e, rw token (word_or_escape c s (rw token at h)))
]

-- What the scan finds: a whole run of word bytes that spells the word, in any case.
pub record BareWord (word found : Text) : Type 0 where
  pub spelled : Text
  pub after : Text
  pub split : found ≡ spelled ++ after
  pub same : equal_fold spelled word ≡ true
  pub word_bytes : All (λ c. is_word_byte c ≡ true) spelled
  pub ends : stops is_word_byte after ≡ true

found_word :
    (word : Text) (c : ℕ) (s : Text)
    → (next_token (c ∷ s)).1 ≡ true
    → equal_fold (between (c ∷ s) (next_token (c ∷ s)).0) word ≡ true
    → BareWord word (c ∷ s)
found_word word c s h k =
    let (start, rest) = next_token-word c s h in
    let (front, e, all, stop) = byte_run is_word_byte s in
    let whole : c ∷ s ≡ (c ∷ front) ++ end_of_byte_run is_word_byte s = ap (λ x. c ∷ x) e in
    record {
      spelled = c ∷ front;
      after = end_of_byte_run is_word_byte s;
      split = whole;
      same =
          subst (λ x. equal_fold x word ≡ true)
            (ap (λ x. between x (end_of_byte_run is_word_byte s)) whole
              ∙ between-append (c ∷ front) (end_of_byte_run is_word_byte s))
            (subst (λ x. equal_fold (between (c ∷ s) x) word ≡ true) rest k);
      word_bytes = (ground (arith, start), all);
      ends = stop;
    }

both : (a b d : Bool) → (a && b && d) ≡ true → (a ≡ true) × (d ≡ true)
both a b d h = ground (arith, h)

Later-Rest : {rest s : Text} → Later rest s → Rest rest s
Later-Rest (c, front, e) = (c ∷ front, e)

bare_word_loop_sound :
    (f : ℕ) (word : Text) (after : Bool) (s found : Text)
    → bare_word_loop f word after s ≡ some found
    → Rest found s × BareWord word found
unfolding bare_word_loop
bare_word_loop_sound zero word after s found h = absurd (cc)
bare_word_loop_sound (suc f) word after [] found h = absurd (cc)
bare_word_loop_sound (suc f) word after (c ∷ s) found h =
    let rest = (next_token (c ∷ s)).0 in
    let hit = (next_token (c ∷ s)).1 && not after && equal_fold (between (c ∷ s) rest) word in
    elim (Bool-cases hit) [
      | inl e ↦
          let here : c ∷ s ≡ found = some_inv (rw e at h) in
          let (word_here, same) = both _ _ _ e in
          (rw (sym here) (Rest-self (c ∷ s)), rw (sym here) (found_word word c s word_here same))
      | inr e ↦
          let (within, bare) = bare_word_loop_sound f word _ rest found (rw e at h) in
          (Rest-trans found rest (c ∷ s) within (Later-Rest (next_token-Later c s)), bare)
    ]

-- Fuel that covers the rest of the clause is enough.
pub bare_word_loop-fuel :
    (f g : ℕ) (word : Text) (after : Bool) (s : Text)
    → length s ≤ f
    → length s ≤ g
    → bare_word_loop f word after s ≡ bare_word_loop g word after s
unfolding bare_word_loop
bare_word_loop-fuel zero zero word after s h k = refl
bare_word_loop-fuel zero (suc g) word after [] h k = refl
bare_word_loop-fuel zero (suc g) word after (c ∷ s) h k = absurd (omega arith)
bare_word_loop-fuel (suc f) zero word after [] h k = refl
bare_word_loop-fuel (suc f) zero word after (c ∷ s) h k = absurd (omega arith)
bare_word_loop-fuel (suc f) (suc g) word after [] h k = refl
bare_word_loop-fuel (suc f) (suc g) word after (c ∷ s) h k =
    let less = Later-length _ _ (next_token-Later c s) in
    rw
      (bare_word_loop-fuel f g word (if is_token_separator c s then after else c == field_selector)
        (next_token (c ∷ s)).0 (omega (arith, less)) (omega (arith, less)))
      refl

-- Where the scan reports a start, the word stands there: from it on there is a whole run of word bytes
-- that spells the word in any case, and what follows the run is no word byte.
pub first_bare_word_sound :
    (clause word : Text) (start : ℕ)
    → first_bare_word clause word ≡ some start
    → (start ≤ length clause) × BareWord word (drop start clause)
unfolding first_bare_word
first_bare_word_sound clause word start h =
    elim (Option-cases (bare_word_loop (length clause) word false clause)) [
      | inl e ↦ absurd (cc (rw (e, first_bare_word) at h))
      | inr (found, e) ↦
          let ((front, split), bare) =
            bare_word_loop_sound (length clause) word false clause found e in
          let at : start ≡ length front = omega (
            arith,
            some_inv (rw (e, first_bare_word) at h),
            ap length split,
            length-append front found,
          ) in
          let from : drop start clause ≡ found =
            ap (λ n. drop n clause) at
            ∙ (ap (λ x. drop (length front) x) split ∙ drop-append front found) in
          (omega (arith, at, ap length split, length-append front found), rw from bare)
    ]
