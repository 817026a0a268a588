-- ===== src/Delivery/Destination/Intervals.antt =====
-- internal/delivery/ssrf.go: the IPv4 addresses that the guard blocks, as intervals of numbers.
use pg_noty.Base.{ℕ, ◌+◌, ◌*◌, ◌<◌, ◌≡◌, refl, ap, Bool, not, ◌&&◌, List, [], ◌∷◌, arith, leb, any}
use pg_noty.Delivery.Destination.{
  Ip, Network, to_4, network_contains, blocked_ranges, blocked_address,
}

-- The number of a.b.c.d.
abbrev pub number_of : ℕ → ℕ → ℕ → ℕ → ℕ
number_of a b c d = a * 16777216 + b * 65536 + c * 256 + d

abbrev pub within : ℕ → ℕ → ℕ → Bool
within low high n = leb low n && leb n high

-- The first and the last number of each range.
abbrev pub intervals : List (ℕ × ℕ)
intervals =
    (0, 16777215)
    ∷ (167772160, 184549375)
    ∷ (1681915904, 1686110207)
    ∷ (2130706432, 2147483647)
    ∷ (2851995648, 2852061183)
    ∷ (2886729728, 2887778303)
    ∷ (3221225472, 3221225727)
    ∷ (3232235520, 3232301055)
    ∷ (3323068416, 3323199487)
    ∷ (3758096384, 4026531839)
    ∷ (4026531840, 4294967295)
    ∷ []

-- An IPv4 address in the sixteen bytes of ::ffff:a.b.c.d.
abbrev pub mapped : Ip → Ip
mapped ip = 0 ∷ 0 ∷ 0 ∷ 0 ∷ 0 ∷ 0 ∷ 0 ∷ 0 ∷ 0 ∷ 0 ∷ 255 ∷ 255 ∷ ip

module _ (a b c d : ℕ) (ha : a < 256) (hb : b < 256) (hc : c < 256) (hd : d < 256) where
  abbrev ip : Ip
  ip = a ∷ b ∷ c ∷ d ∷ []

  abbrev is_within : ℕ × ℕ → Bool
  is_within (low, high) = within low high (number_of a b c d)

  range_0 :
      network_contains (record { number = 0 ∷ 0 ∷ 0 ∷ 0 ∷ []; bits = 8 }) ip
      ≡ is_within (0, 16777215)
  unfolding network_contains to_4
  range_0 = ground arith

  range_1 :
      network_contains (record { number = 10 ∷ 0 ∷ 0 ∷ 0 ∷ []; bits = 8 }) ip
      ≡ is_within (167772160, 184549375)
  unfolding network_contains to_4
  range_1 = ground arith

  range_2 :
      network_contains (record { number = 100 ∷ 64 ∷ 0 ∷ 0 ∷ []; bits = 10 }) ip
      ≡ is_within (1681915904, 1686110207)
  unfolding network_contains to_4
  range_2 = ground arith

  range_3 :
      network_contains (record { number = 127 ∷ 0 ∷ 0 ∷ 0 ∷ []; bits = 8 }) ip
      ≡ is_within (2130706432, 2147483647)
  unfolding network_contains to_4
  range_3 = ground arith

  range_4 :
      network_contains (record { number = 169 ∷ 254 ∷ 0 ∷ 0 ∷ []; bits = 16 }) ip
      ≡ is_within (2851995648, 2852061183)
  unfolding network_contains to_4
  range_4 = ground arith

  range_5 :
      network_contains (record { number = 172 ∷ 16 ∷ 0 ∷ 0 ∷ []; bits = 12 }) ip
      ≡ is_within (2886729728, 2887778303)
  unfolding network_contains to_4
  range_5 = ground arith

  range_6 :
      network_contains (record { number = 192 ∷ 0 ∷ 0 ∷ 0 ∷ []; bits = 24 }) ip
      ≡ is_within (3221225472, 3221225727)
  unfolding network_contains to_4
  range_6 = ground arith

  range_7 :
      network_contains (record { number = 192 ∷ 168 ∷ 0 ∷ 0 ∷ []; bits = 16 }) ip
      ≡ is_within (3232235520, 3232301055)
  unfolding network_contains to_4
  range_7 = ground arith

  range_8 :
      network_contains (record { number = 198 ∷ 18 ∷ 0 ∷ 0 ∷ []; bits = 15 }) ip
      ≡ is_within (3323068416, 3323199487)
  unfolding network_contains to_4
  range_8 = ground arith

  range_9 :
      network_contains (record { number = 224 ∷ 0 ∷ 0 ∷ 0 ∷ []; bits = 4 }) ip
      ≡ is_within (3758096384, 4026531839)
  unfolding network_contains to_4
  range_9 = ground arith

  range_10 :
      network_contains (record { number = 240 ∷ 0 ∷ 0 ∷ 0 ∷ []; bits = 4 }) ip
      ≡ is_within (4026531840, 4294967295)
  unfolding network_contains to_4
  range_10 = ground arith

  v4_ranges : any (λ n. network_contains n ip) blocked_ranges ≡ any is_within intervals
  unfolding network_contains to_4
  v4_ranges =
      rw
        (
          range_0, range_1, range_2, range_3, range_4, range_5, range_6, range_7, range_8, range_9,
          range_10,
        )
        refl

  -- The guard blocks an IPv4 address exactly if it is in no exempt network and its number is in one of the
  -- eleven intervals; and it decides the address that is mapped into IPv6 in the same way.
  pub blocked_address-intervals :
      (exempt : List Network)
      → (blocked_address (a ∷ b ∷ c ∷ d ∷ []) exempt ≡ (
          not (any (λ n. network_contains n (a ∷ b ∷ c ∷ d ∷ [])) exempt)
          && any (λ r. within (r.0) (r.1) (number_of a b c d)) intervals))
        × (blocked_address (mapped (a ∷ b ∷ c ∷ d ∷ [])) exempt
            ≡ blocked_address (a ∷ b ∷ c ∷ d ∷ []) exempt)
  unfolding blocked_address to_4
  blocked_address-intervals exempt =
      (ap (λ x. not (any (λ n. network_contains n ip) exempt) && x) v4_ranges, refl)
