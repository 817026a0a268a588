-- ===== src/Source/Literal/Tag.antt =====
-- internal/source/dollarquote.go: a tag is always found, and the function body it quotes is one token.
use pg_noty.Base.{
  ℕ, zero, suc, ◌+◌, ◌*◌, ◌/◌, ◌%◌, ◌≤◌, ◌<◌, ◌≡◌, refl, sym, ap, ◌∙◌, subst, inl, inr, Bool, true,
  false, ◌||◌, none, some, [], ◌∷◌, ◌++◌, append_assoc, arith, ltb, ◌==◌, length, drop, All, digits,
  count_below, count_none, count_all, count_one, count_split, Text, Bool-cases, Option-cases,
  some_inv, cut_prefix, cut_prefix_sound,
}
use pg_noty.Config.WhenLexer.{is_tag_byte, before_dollar, delimiter, after_first}
use pg_noty.Delivery.RetryAfter.{decimal_value}
use pg_noty.Source.Literal.{contains, tag_at, tag_loop, dollar_quote_tag}

abbrev pub tens : ℕ → ℕ
tens zero = 1
tens (suc n) = 10 * tens n

digits_value :
    (fuel n : ℕ) (rest : Text)
    → n < tens fuel
    → decimal_value 0 (digits fuel n rest) ≡ decimal_value n rest
digits_value zero n rest h = ap (λ x. decimal_value x rest) (omega arith)
digits_value (suc fuel) n rest h = elim (Bool-cases (ltb n 10)) [
  | inl e ↦ rw e (ap (λ x. decimal_value x rest) (ground (arith, e)))
  | inr e ↦ rw e (
      digits_value fuel (n / 10) ((48 + n % 10) ∷ rest) (grind (arith, h))
      ∙ ap (λ x. decimal_value x rest) (omega arith))
]

-- A byte of a tag, and so no dollar and no line feed.
digits_bytes :
    (fuel n : ℕ) (rest : Text)
    → All (λ c. is_tag_byte c ≡ true) rest
    → All (λ c. is_tag_byte c ≡ true) (digits fuel n rest)
digits_bytes zero n rest h = h
digits_bytes (suc fuel) n rest h = elim (Bool-cases (ltb n 10)) [
  | inl e ↦ rw e (digit, h)
  | inr e ↦ rw e (digits_bytes fuel (n / 10) ((48 + n % 10) ∷ rest) (digit, h))
]
  where
    digit : is_tag_byte (48 + n % 10) ≡ true
    digit = ground arith

pub tag_bytes : (n : ℕ) → All (λ c. is_tag_byte c ≡ true) (tag_at n)
tag_bytes zero = (refl, (refl, tt))
tag_bytes (suc n) = (refl, (refl, (refl, digits_bytes (suc n) (suc n) [] tt)))

lt-tens : (n : ℕ) → n < tens n
lt-tens zero = omega arith
lt-tens (suc n) = omega (arith, lt-tens n)

tag_injective : (m n : ℕ) → tag_at m ≡ tag_at n → m ≡ n
tag_injective zero zero e = refl
tag_injective zero (suc n) e = absurd (omega (arith, ap length e))
tag_injective (suc m) zero e = absurd (omega (arith, ap length e))
tag_injective (suc m) (suc n) e =
    sym (digits_value (suc m) (suc m) [] (lt-tens (suc m)))
    ∙ (ap (λ t. decimal_value 0 (drop 3 t)) e ∙ digits_value (suc n) (suc n) [] (lt-tens (suc n)))

pub before_dollar-append :
    (tag rest : Text)
    → All (λ c. is_tag_byte c ≡ true) tag
    → before_dollar (tag ++ 36 ∷ rest) ≡ some tag
before_dollar-append [] rest h = refl
before_dollar-append (c ∷ tag) rest h =
    let other : c == 36 ≡ false = ground (arith, h.0) in
    rw (other, before_dollar-append tag rest h.1) refl

abbrev starts : Text → ℕ → Bool
starts s k = elim (cut_prefix (delimiter (tag_at k)) s) [ none ↦ false | some _ ↦ true ]

-- The tag that a delimiter at the head has.
starts_tag : (s : Text) (k : ℕ) → starts s k ≡ true → before_dollar (drop 1 s) ≡ some (tag_at k)
starts_tag s k h = elim (Option-cases (cut_prefix (delimiter (tag_at k)) s)) [
  | inl e ↦ absurd (cc (rw e at h))
  | inr (r, e) ↦
      let split : s ≡ 36 ∷ ((tag_at k ++ 36 ∷ []) ++ r) =
        cut_prefix_sound (delimiter (tag_at k)) s e in
      rw (split, append_assoc (tag_at k) (36 ∷ []) r)
        (before_dollar-append (tag_at k) r (tag_bytes k))
]

abbrev holds_tag : Text → ℕ → Bool
holds_tag s k = contains s (delimiter (tag_at k))

-- At each place of the body at most one delimiter starts.
holds_few : (s : Text) (n : ℕ) → count_below (holds_tag s) n ≤ length s
unfolding contains after_first
holds_few [] n = omega (arith, count_none (holds_tag []) n (λ j k. refl))
holds_few (c ∷ s) n =
    let split = count_split (holds_tag (c ∷ s)) (starts (c ∷ s)) (holds_tag s) n (either c s) in
    omega (arith, split, holds_few s n, count_one (starts (c ∷ s)) n one)
  where
    one : (j k : ℕ) → j < n → k < n → starts (c ∷ s) j ≡ true → starts (c ∷ s) k ≡ true → j ≡ k
    one j k a b d e =
        tag_injective j k (some_inv (sym (starts_tag (c ∷ s) j d) ∙ starts_tag (c ∷ s) k e))

    either :
        (c : ℕ) (s : Text) (j : ℕ)
        → holds_tag (c ∷ s) j ≡ true
        → (starts (c ∷ s) j || holds_tag s j) ≡ true
    either c s j e = elim (Option-cases (cut_prefix (delimiter (tag_at j)) (c ∷ s))) [
      | inl d ↦ ground (arith, d, e)
      | inr (r, d) ↦ ground (arith, d)
    ]

-- Among as many tags as the body has bytes and one more, some tag is free.
tag_loop_lem :
    (fuel k : ℕ) (body : Text)
    → ((j : ℕ) → j < k → holds_tag body j ≡ true)
    → length body < k + fuel
    → (m : ℕ) × (tag_loop fuel k body ≡ some (tag_at m))
      × (m < k + fuel)
      × (holds_tag body m ≡ false)
      × ((j : ℕ) → j < m → holds_tag body j ≡ true)
unfolding tag_loop
tag_loop_lem zero k body held long =
    absurd (omega (arith, holds_few body k, count_all (holds_tag body) k held))
tag_loop_lem (suc fuel) k body held long = elim (Bool-cases (holds_tag body k)) [
  | inr e ↦ (k, rw e refl, omega arith, e, held)
  | inl e ↦
      let (m, found, below, free, all) = tag_loop_lem fuel (k + 1) body (next e) (omega arith) in
      (m, rw e found, omega (arith, below), free, all)
]
  where
    next : holds_tag body k ≡ true → (j : ℕ) → j < k + 1 → holds_tag body j ≡ true
    next e j h = elim (Bool-cases (ltb j k)) [
      | inl d ↦ held j (ground (arith, d))
      | inr d ↦ subst (λ x. holds_tag body x ≡ true) (ground (arith, d, h)) e
    ]

-- The search for a tag ends for every body: it finds the first tag whose delimiter the body does not
-- hold, and that is one of the first tags, as many as the body has bytes and one more.
pub dollar_quote_tag_lem :
    (body : Text)
    → (m : ℕ) × (dollar_quote_tag body ≡ some (tag_at m))
      × (m ≤ length body)
      × (contains body (delimiter (tag_at m)) ≡ false)
      × ((j : ℕ) → j < m → contains body (delimiter (tag_at j)) ≡ true)
unfolding dollar_quote_tag
dollar_quote_tag_lem body =
    let (m, found, below, free, all) =
      tag_loop_lem (length body + 1) 0 body (λ j k. elim k [ ]) (omega arith) in
    (m, found, omega (arith, below), free, all)
