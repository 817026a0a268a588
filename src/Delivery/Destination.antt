-- ===== src/Delivery/Destination.antt =====
-- internal/delivery/ssrf.go: the guard that refuses to connect to unsafe addresses. An address is the list
-- of its bytes, 4 or 16; net.ParseIP and net.SplitHostPort are parameters.
pub mod Intervals
use pg_noty.Base.{
  ℕ, ◌-◌, ◌%◌, ◌^◌, min, Bool, true, false, not, ◌&&◌, ◌||◌, Option, none, some, List, [], ◌∷◌,
  ◌++◌, if◌then◌else◌, ◌==◌, any, length, drop, take, Text, is_empty, Result, ok, err,
}

abbrev pub Ip : Type 0
Ip = List ℕ

-- `net.IP.To4`.
unfoldable pub to_4 : Ip → Option Ip
to_4 ip =
    if length ip == 4
    then some ip
    else if (length ip == 16)
        && (not (any (λ b. not (b == 0)) (take 10 ip)) && is_mapped (drop 10 ip))
    then some (drop 12 ip)
    else none
  where
    is_mapped : Ip → Bool
    is_mapped (x ∷ y ∷ rest) = (x == 255) && (y == 255)
    is_mapped _ = false

-- `net.IPNet` as ParseCIDR makes it: the number, and how many bits of the mask are set.
pub record Network : Type 0 where
  pub number : Ip
  pub bits : ℕ

-- A byte and the byte of a mask with that many bits left.
abbrev pub masked : ℕ → ℕ → ℕ
masked bits byte = byte - byte % 2 ^ (8 - min bits 8)

-- The loop of `Contains`, for numbers of one length.
abbrev pub same_prefix : ℕ → Ip → Ip → Bool
same_prefix bits (a ∷ xs) (b ∷ ys) =
    (masked bits a == masked bits b) && same_prefix (bits - 8) xs ys
same_prefix bits [] ys = true
same_prefix bits (a ∷ xs) [] = true

abbrev pub shortened : Ip → Ip
shortened ip = elim (to_4 ip) [ some x ↦ x | none ↦ ip ]

-- `networkNumberAndMask`: of a mapped network the last four bytes of the mask.
abbrev pub number_bits : Network → ℕ
number_bits n = if length n.number == length (shortened n.number) then n.bits else n.bits - 96

-- `net.IPNet.Contains`.
unfoldable pub network_contains : Network → Ip → Bool
unfolding to_4
network_contains n ip =
    (length (shortened ip) == length (shortened n.number))
    && same_prefix (number_bits n) (shortened n.number) (shortened ip)

abbrev v4 : ℕ → ℕ → ℕ → ℕ → ℕ → Network
v4 a b c d bits = record { number = a ∷ b ∷ c ∷ d ∷ []; bits = bits }

abbrev zeros_12 : Ip
zeros_12 = 0 ∷ 0 ∷ 0 ∷ 0 ∷ 0 ∷ 0 ∷ 0 ∷ 0 ∷ 0 ∷ 0 ∷ 0 ∷ 0 ∷ []

abbrev v6 : ℕ → ℕ → ℕ → ℕ → Ip → ℕ → Network
v6 a b c d rest bits = record { number = a ∷ b ∷ c ∷ d ∷ rest; bits = bits }

-- `blockedRanges`, parsed.
abbrev pub blocked_v4 : List Network
blocked_v4 =
    v4 0 0 0 0 8
    ∷ v4 10 0 0 0 8
    ∷ v4 100 64 0 0 10
    ∷ v4 127 0 0 0 8
    ∷ v4 169 254 0 0 16
    ∷ v4 172 16 0 0 12
    ∷ v4 192 0 0 0 24
    ∷ v4 192 168 0 0 16
    ∷ v4 198 18 0 0 15
    ∷ v4 224 0 0 0 4
    ∷ v4 240 0 0 0 4
    ∷ []

abbrev pub blocked_v6 : List Network
blocked_v6 =
    v6 0 0 0 0 zeros_12 128
    ∷ v6 0 0 0 0 (take 11 zeros_12 ++ (1 ∷ [])) 128
    ∷ v6 0 100 255 155 zeros_12 96
    ∷ v6 32 2 0 0 zeros_12 16
    ∷ v6 252 0 0 0 zeros_12 7
    ∷ v6 254 128 0 0 zeros_12 10
    ∷ v6 255 0 0 0 zeros_12 8
    ∷ []

abbrev pub blocked_ranges : List Network
blocked_ranges = blocked_v4 ++ blocked_v6

unfoldable pub blocked_address : Ip → List Network → Bool
unfolding to_4 network_contains
blocked_address ip exempt =
    not (any (λ n. network_contains n (shortened ip)) exempt)
    && any (λ n. network_contains n (shortened ip)) blocked_ranges

pub data GuardRefusal : Type 0 where
  no_host_and_port : Text → GuardRefusal
  no_ip : Text → GuardRefusal
  blocked : Ip → GuardRefusal

abbrev is_bracket : ℕ → Bool
is_bracket c = (c == b'[') || (c == b']')

-- `strings.Trim` of brackets.
abbrev trim_left : Text → Text
trim_left [] = []
trim_left (c ∷ s) = let rest = trim_left s in if is_bracket c then rest else c ∷ s

abbrev trim_right : Text → Text
trim_right [] = []
trim_right (c ∷ s) =
    let rest = trim_right s in if is_bracket c && is_empty rest then [] else c ∷ rest

-- The text before the last '%', which opens a zone.
abbrev before_zone : Text → Option Text
before_zone [] = none
before_zone (c ∷ s) = elim (before_zone s) [
  | some t ↦ some (c ∷ t)
  | none ↦ if c == b'%' then some [] else none
]

unfoldable pub host_of : Text → Text
host_of host =
    let trimmed = trim_right (trim_left host) in
    elim (before_zone trimmed) [ some t ↦ t | none ↦ trimmed ]

module _ (split_host_port : Text → Option Text) (parse_ip : Text → Option Ip) where
  unfoldable pub refuse_unsafe_address : Text → List Network → Result GuardRefusal (Unit {0})
  unfolding host_of blocked_address
  refuse_unsafe_address address exempt = elim (split_host_port address) [
    | none ↦ err (no_host_and_port address)
    | some host ↦ elim (parse_ip (host_of host)) [
      | none ↦ err (no_ip address)
      | some ip ↦ if blocked_address ip exempt then err (blocked ip) else ok tt
    ]
  ]
