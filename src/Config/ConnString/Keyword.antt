-- ===== src/Config/ConnString/Keyword.antt =====
-- internal/config/connstring.go: the scan for a keyword finds the value of the first pair with it, so that
-- no pair's value begins before the one found.
use pg_noty.Base.{
  ℕ, zero, suc, ◌≤◌, ◌<◌, ◌≡◌, ◌≢◌, refl, sym, ap, ◌∙◌, subst, ◌⊎◌, inl, inr, none, some, some_inv,
  [], ◌∷◌, ◌++◌, arith, ◌==◌, length, length-append, All, Text, codes, cut_prefix,
  cut_prefix-append, cut_prefix_sound, Bool-cases, Option-cases,
}
use pg_noty.Config.WhenLexer.{is_space, after_first}
use pg_noty.Config.ConnString.{
  after_separators, after_equals, libpq_value_after, password_keyword, value_loop,
  value_after_keyword,
}

-- The rest of "password" behind its first byte, which does not recur in it.
abbrev assword : Text
assword = codes "assword"

-- A keyword behind a text that opens with bytes which are not its first one stands behind those bytes.
peel :
    (w b r rest : Text)
    → All (λ c. c ≢ b'p') w
    → b ++ (password_keyword ++ rest) ≡ w ++ r
    → (b' : Text) × (b ≡ w ++ b') × (r ≡ b' ++ (password_keyword ++ rest))
peel [] b r rest a h = (b, refl, sym h)
peel (c ∷ w) [] r rest a h = absurd (a.0 (cc))
peel (c ∷ w) (d ∷ b) r rest a h =
    let (b', e, f) = peel w b r rest a.1 (cc) in let same : c ≡ d = cc in (b', rw (same, e) refl, f)

pub after_first_here : (n s : Text) {r : Text} → cut_prefix n s ≡ some r → after_first n s ≡ some r
unfolding after_first
after_first_here n [] h = h
after_first_here n (c ∷ s) h = rw (after_first, h) refl

pub after_first_later :
    (n : Text) (c : ℕ) (s : Text)
    → cut_prefix n (c ∷ s) ≡ none
    → after_first n (c ∷ s) ≡ after_first n s
unfolding after_first
after_first_later n c s h = rw (after_first, h) refl

All-assword : All (λ c. c ≢ b'p') assword
All-assword = ground arith

-- The first keyword of a text with a keyword in it: that one, or one with that one in what follows.
first_keyword :
    (before rest : Text)
    → (r : Text) × (after_first password_keyword (before ++ (password_keyword ++ rest)) ≡ some r)
      × ((r ≡ rest)
          ⊎ ((b : Text) × (r ≡ b ++ (password_keyword ++ rest)) × (length b < length before)))
first_keyword [] rest = (
  rest,
  after_first_here password_keyword (password_keyword ++ rest)
      (cut_prefix-append password_keyword rest),
  inl refl,
)
first_keyword (c ∷ b) rest =
    let s = b ++ (password_keyword ++ rest) in
    elim (Option-cases (cut_prefix password_keyword (c ∷ s))) [
      | inl e ↦
          let (r, f, where_is) = first_keyword b rest in
          (
            r,
            after_first_later password_keyword c s e ∙ f,
            elim where_is [ inl p ↦ inl p | inr (b', p, lt) ↦ inr (b', p, omega arith) ],
          )
      | inr (r, e) ↦
          let whole = cut_prefix_sound password_keyword (c ∷ s) e in
          let (b', f, g) = peel assword b r rest All-assword (cc) in
          (
            r,
            after_first_here password_keyword (c ∷ s) e,
            inr (b', g, omega (arith, ap length f, length-append assword b')),
          )
    ]

after_separators-le : (s : Text) → length (after_separators s) ≤ length s
unfolding after_separators
after_separators-le [] = omega arith
after_separators-le (c ∷ s) = ground (arith, after_separators-le s)

pub libpq_value_after-le :
    (s : Text) {value : Text} → libpq_value_after s ≡ some value → length value ≤ length s
unfolding libpq_value_after
libpq_value_after-le s {value} h = shorter (after_separators s) (after_separators-le s) h
  where
    shorter :
        (t : Text) → length t ≤ length s → after_equals t ≡ some value → length value ≤ length s
    shorter [] k e = absurd (cc)
    shorter (c ∷ t) k e = ground (arith, after_separators-le t)

-- A "p", which is no separator, and what follows it stay when separators are taken.
after_separators-keeps :
    (b t : Text) → (b' : Text) × (after_separators (b ++ b'p' ∷ t) ≡ b' ++ b'p' ∷ t)
unfolding after_separators
after_separators-keeps [] t = ([], refl)
after_separators-keeps (c ∷ b) t = elim (Bool-cases (is_space c)) [
  | inl e ↦ let (b', f) = after_separators-keeps b t in (b', rw (after_separators, e) f)
  | inr e ↦ (c ∷ b, rw (after_separators, e) refl)
]

after_equals-keeps :
    (b t : Text) {v : Text} → after_equals (b ++ b'p' ∷ t) ≡ some v → length (b'p' ∷ t) ≤ length v
after_equals-keeps [] t h = absurd (cc)
after_equals-keeps (c ∷ b) t {v} h = elim (Bool-cases (c == b'=')) [
  | inr e ↦ absurd (cc (rw e at h))
  | inl e ↦
      let (b', f) = after_separators-keeps b t in
      let is : after_separators (b ++ b'p' ∷ t) ≡ v = some_inv (rw e at h) in
      omega (arith, ap length (sym f ∙ is), length-append b' (b'p' ∷ t))
]

libpq_value_after-keeps :
    (b t : Text) {v : Text}
    → libpq_value_after (b ++ b'p' ∷ t) ≡ some v
    → length (b'p' ∷ t) ≤ length v
unfolding libpq_value_after
libpq_value_after-keeps b t {v} h =
    let (b', f) = after_separators-keeps b t in
    after_equals-keeps b' t (subst (λ s. after_equals s ≡ some v) f h)

value_loop_lem :
    (fuel : ℕ) (before rest : Text) {value : Text}
    → length before < fuel
    → libpq_value_after rest ≡ some value
    → (v : Text) × (value_loop fuel password_keyword (before ++ (password_keyword ++ rest))
        ≡ some v)
      × (length value ≤ length v)
unfolding value_loop
value_loop_lem zero before rest f h = absurd (omega arith)
value_loop_lem (suc fuel) before rest {value} f h =
    let (r, found, where_is) = first_keyword before rest in
    elim (Option-cases (libpq_value_after r)) [
      | inr (v, e) ↦ (
        v,
        rw (value_loop, found, e) refl,
        elim where_is [
          | inl p ↦
              let same : some v ≡ some value = sym e ∙ ap libpq_value_after p ∙ h in
              omega (arith, ap length (some_inv same))
          | inr (b, p, lt) ↦
              let kept =
                libpq_value_after-keeps b (assword ++ rest) (sym (ap libpq_value_after p) ∙ e) in
              omega (arith, kept, length-append assword rest, libpq_value_after-le rest h)
        ],
      )
      | inl e ↦ elim where_is [
        | inl p ↦ absurd (cc)
        | inr (b, p, lt) ↦
            let (v, g, le) = value_loop_lem fuel b rest (omega arith) h in
            (v, rw (value_loop, found, e) (ap (value_loop fuel password_keyword) p ∙ g), le)
      ]
    ]

-- Wherever in a text the keyword stands with a value, the value that is found begins there or before.
pub value_after_keyword_lem :
    (before rest : Text) {value : Text}
    → libpq_value_after rest ≡ some value
    → (v : Text) × (value_after_keyword (before ++ (password_keyword ++ rest)) password_keyword
        ≡ some v)
      × (length value ≤ length v)
unfolding value_after_keyword
value_after_keyword_lem before rest h =
    value_loop_lem (suc (length (before ++ (password_keyword ++ rest)))) before rest
      (omega (arith, length-append before (password_keyword ++ rest))) h
