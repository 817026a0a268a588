-- ===== src/Config/ConnString/Userinfo.antt =====
-- internal/config/connstring.go: the password of a connection URI is redacted, up to the last "@", also where
-- it has bytes that a URI would escape.
use pg_noty.Base.{
  ℕ, ◌+◌, ◌-◌, ◌≤◌, ◌<◌, ◌≡◌, ◌≢◌, refl, sym, ap, ◌∙◌, true, false, none, some, [], ◌∷◌, ◌++◌,
  append_assoc, take-append, arith, ltb, leb, All, length, length-append, take, Text, codes,
  cut_prefix-append,
}
use pg_noty.Config.WhenLexer.{after_first}
use pg_noty.Config.ConnString.{offset, from_last, uri_password_span, option_list, password_spans}
use pg_noty.Config.ConnString.Keyword.{after_first_here, after_first_later}
use pg_noty.Config.ConnString.Merged.{covers}
use pg_noty.Config.ConnString.Spans.{found-covers}

after_first_behind :
    (c : ℕ) (needle w s : Text)
    → All (λ d. d ≢ c) w
    → after_first (c ∷ needle) (w ++ ((c ∷ needle) ++ s)) ≡ some s
after_first_behind c needle [] s h =
    after_first_here (c ∷ needle) ((c ∷ needle) ++ s) (cut_prefix-append (c ∷ needle) s)
after_first_behind c needle (d ∷ w) s h =
    after_first_later (c ∷ needle) d (w ++ ((c ∷ needle) ++ s)) (ground arith)
    ∙ after_first_behind c needle w s h.1

from_last-none : (b : ℕ) (host : Text) → All (λ d. d ≢ b) host → from_last b host ≡ none
unfolding from_last
from_last-none b [] h = refl
from_last-none b (d ∷ host) h = rw (from_last, from_last-none b host h.1) (ground arith)

from_last_behind :
    (b : ℕ) (s host : Text)
    → All (λ d. d ≢ b) host
    → from_last b (s ++ (b ∷ host)) ≡ some (b ∷ host)
unfolding from_last
from_last_behind b [] host h = rw (from_last, from_last-none b host h) (ground arith)
from_last_behind b (c ∷ s) host h = rw (from_last, from_last_behind b s host h) refl

-- The parts of the text, from its end on.
abbrev at_host : Text → Text
at_host host = b'@' ∷ host

abbrev userinfo : Text → Text → Text
userinfo user password = user ++ (codes ":" ++ password)

abbrev pub uri : Text → Text → Text → Text → Text
uri scheme user password host = scheme ++ (codes "://" ++ (userinfo user password ++ at_host host))

-- Its length, part by part.
uri-length :
    (scheme user password host : Text)
    → length (uri scheme user password host)
      ≡ length scheme + (3 + ((length user + (1 + length password)) + (1 + length host)))
uri-length scheme user password host = omega (
  arith,
  length-append scheme (codes "://" ++ (userinfo user password ++ at_host host)),
  length-append (userinfo user password) (at_host host),
  length-append user (codes ":" ++ password),
)

uri-from_last :
    (scheme user password host : Text)
    → All (λ c. c ≢ b'@') host
    → from_last b'@' (uri scheme user password host) ≡ some (at_host host)
uri-from_last scheme user password host h =
    ap (from_last b'@') (
      ap (λ t. scheme ++ t)
        (sym (append_assoc (codes "://") (userinfo user password) (at_host host)))
      ∙ sym (append_assoc scheme (codes "://" ++ userinfo user password) (at_host host)))
    ∙ from_last_behind b'@' (scheme ++ (codes "://" ++ userinfo user password)) host h

-- In a connection URI, every byte of the password is in a located password span: the scheme and the
-- user have no ":", the host no "@", and the password any byte.
pub password_spans-uri :
    (scheme user password host : Text) (i : ℕ)
    → All (λ c. c ≢ b':') scheme
    → All (λ c. c ≢ b':') user
    → All (λ c. c ≢ b'@') host
    → length scheme + (3 + (length user + 1)) ≤ i
    → i < length scheme + (3 + (length user + (1 + length password)))
    → covers i (password_spans (uri scheme user password host)) ≡ true
unfolding uri_password_span
password_spans-uri scheme user password host i s u h low high =
    let text = uri scheme user password host in
    let authority = userinfo user password ++ at_host host in
    let e : after_first (codes "://") text ≡ some authority =
      after_first_behind b':' (codes "//") scheme authority s in
    let f = uri-from_last scheme user password host h in
    let long = uri-length scheme user password host in
    let info = length-append user (codes ":" ++ password) in
    let rest = length-append (userinfo user password) (at_host host) in
    let g : ltb (offset text (at_host host)) (offset text authority) ≡ false = ground arith in
    let width : offset text (at_host host) - offset text authority
        ≡ length (userinfo user password) =
      omega arith in
    let k : after_first (codes ":")
          (take (offset text (at_host host) - offset text authority) authority)
        ≡ some password =
      ap (λ n. after_first (codes ":") (take n authority)) width
      ∙ (ap (after_first (codes ":")) (take-append (userinfo user password) (at_host host))
          ∙ after_first_behind b':' [] user password u) in
    let first : leb (offset text (at_host host) - length password) i ≡ true = ground arith in
    let last : ltb i (offset text (at_host host)) ≡ true = ground arith in
    let found : covers i (option_list (uri_password_span text)) ≡ true =
      rw (uri_password_span, e, f, g, k, first, last) refl in
    found-covers text i (ground arith)
