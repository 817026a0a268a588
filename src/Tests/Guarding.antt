-- ===== src/Tests/Guarding.antt =====
-- internal/delivery/ssrf.go: addresses inside and outside of the ranges, and an exemption.
use pg_noty.Base.{
  ◌≡◌, refl, true, false, not, ◌&&◌, Option, none, some, [], ◌∷◌, any, arith, Text, codes, text_eq,
  if◌then◌else◌, err,
}
use pg_noty.Delivery.Destination.{
  Ip, Network, blocked, no_ip, to_4, network_contains, blocked_address, host_of,
  refuse_unsafe_address,
}
use pg_noty.Delivery.Destination.Intervals.{
  intervals, mapped, number_of, within, blocked_address-intervals,
}

abbrev office : Network
office = record { number = 172 ∷ 20 ∷ 0 ∷ 0 ∷ []; bits = 16 }

abbrev resolved : Ip
resolved = 172 ∷ 20 ∷ 1 ∷ 2 ∷ []

abbrev split_host_port : Text → Option Text
split_host_port address = some address

abbrev parse_ip : Text → Option Ip
parse_ip host = if text_eq host (codes "fe80::1") then some link_local else none
  where
    link_local : Ip
    link_local = 254 ∷ 128 ∷ 0 ∷ 0 ∷ 0 ∷ 0 ∷ 0 ∷ 0 ∷ 0 ∷ 0 ∷ 0 ∷ 0 ∷ 0 ∷ 0 ∷ 0 ∷ 1 ∷ []

guarded :
    (blocked_address resolved [] ≡ true)
    × (blocked_address resolved (office ∷ []) ≡ false)
    × (blocked_address (8 ∷ 8 ∷ 8 ∷ 8 ∷ []) [] ≡ false)
    × (blocked_address (mapped (127 ∷ 0 ∷ 0 ∷ 1 ∷ [])) [] ≡ true)
unfolding to_4 network_contains blocked_address
guarded = (refl, refl, refl, refl)

-- The zone of a link-local address does not hide it.
zoned :
    (refuse_unsafe_address split_host_port parse_ip (codes "[fe80::1%eth0]") []
      ≡ err (blocked (254 ∷ 128 ∷ 0 ∷ 0 ∷ 0 ∷ 0 ∷ 0 ∷ 0 ∷ 0 ∷ 0 ∷ 0 ∷ 0 ∷ 0 ∷ 0 ∷ 0 ∷ 1 ∷ [])))
    × (refuse_unsafe_address split_host_port parse_ip (codes "name") []
        ≡ err (no_ip (codes "name")))
unfolding to_4 network_contains blocked_address host_of refuse_unsafe_address
zoned = (refl, refl)

blocked_address-intervals_example :
    (blocked_address resolved (office ∷ []) ≡ (
      not (any (λ n. network_contains n resolved) (office ∷ []))
      && any (λ r. within (r.0) (r.1) (number_of 172 20 1 2)) intervals))
    × (blocked_address (mapped resolved) (office ∷ []) ≡ blocked_address resolved (office ∷ []))
blocked_address-intervals_example =
    blocked_address-intervals 172 20 1 2 (ground arith) (ground arith) (ground arith) (ground arith)
      (office ∷ [])
