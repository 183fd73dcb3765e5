-- ===== src/Policy/P2p/Runs.antt =====
-- Two nodes that find each other, and a stranger's packet.
use ratnet.Prelude.{
  ℕ, ◌≡◌, refl, Option, some, none, [], ◌∷◌, ◌++◌, arith, Bytes, if◌then◌else◌, leb,
}
use ratnet.Go.{Failure, returned, failed, panicked}
use ratnet.Hex.{hex_encode, hex_decode}
use ratnet.Policy.P2p.{Party, advert, knows, mdns_listen, label, local, rn, ng}
use ratnet.Policy.P2p.Negotiation.{Heardable, again, with_peer, negotiation, packet_ends_listening}

-- "a://b" and "a://c"
abbrev low : Party
low = record { rank = 3; address = 97 ∷ 58 ∷ 47 ∷ 47 ∷ 98 ∷ []; peers = []; polled = [] }

abbrev high : Party
high = record { rank = 5; address = 97 ∷ 58 ∷ 47 ∷ 47 ∷ 99 ∷ []; peers = []; polled = [] }

abbrev scheme : Bytes → Option ℕ
scheme bs = some 1

abbrev low-Heardable : Heardable scheme low
low-Heardable = record {
  are_bytes = omega arith;
  some_address = omega arith;
  some_rank = omega arith;
  rank_fits = omega arith;
  len = 1;
  has_scheme = refl;
  long_enough = omega arith;
}

abbrev high-Heardable : Heardable scheme high
high-Heardable = record {
  are_bytes = omega arith;
  some_address = omega arith;
  some_rank = omega arith;
  rank_fits = omega arith;
  len = 1;
  has_scheme = refl;
  long_enough = omega arith;
}

negotiation_example :
    (mdns_listen scheme (again scheme 2 (advert high.address high.rank)) low
      ≡ (returned tt, if leb low.rank high.rank then with_peer scheme low high 1 else low))
    × (mdns_listen scheme (again scheme 1 (advert low.address low.rank)) high
        ≡ (returned tt, if leb high.rank low.rank then with_peer scheme high low 1 else high))
unfolding knows
negotiation_example =
    negotiation scheme 1 0 low high low-Heardable high-Heardable refl refl refl refl

-- "zz"
abbrev junk : Bytes
junk = 122 ∷ 122 ∷ []

not_hex : hex_decode (label (junk ++ local)) ≡ none
unfolding hex_decode label
not_hex = refl

packet_ends_listening_example :
    (mdns_listen scheme (((ng ++ (hex_encode (1 ∷ []) ++ local)) ∷ []) ∷ []) low ≡ (panicked, low))
    × (mdns_listen scheme (((rn ++ (junk ++ local)) ∷ []) ∷ []) low
        ≡ (failed Failure.invalid_hex, low))
packet_ends_listening_example =
    packet_ends_listening scheme (1 ∷ []) junk [] [] low (omega arith) (omega arith) not_hex
