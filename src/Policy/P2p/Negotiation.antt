-- ===== src/Policy/P2p/Negotiation.antt =====
-- Which of two nodes polls the other, and what a packet from a stranger can do.
use ratnet.Prelude.{
  ℕ, zero, suc, ◌+◌, ◌^◌, ◌<◌, ◌≤◌, ◌≡◌, refl, ap, ◌∙◌, true, false, ◌&&◌, not, Option, none, some,
  List, [], ◌∷◌, ◌++◌, length, leb, if◌then◌else◌, Bool-cases, inl, inr, Bytes, bytes_beq,
  bytes_beq_iff, All, arith, drop,
}
use ratnet.Go.{Failure, returned, failed, panicked}
use ratnet.Hex.{hex_encode, hex_decode}
use ratnet.Hex.ReadsBack.{IsByte, hex_decode-hex_encode}
use ratnet.Policy.P2p.{
  label, le_value, Heard, hear_target, with_rank, hear_rank, rn, ng, hear_question, hear_more, hear,
  local, advert, Party, knows, wins, start_poll, negotiate, hear_packet, listen_on, mdns_listen,
}
use ratnet.Policy.P2p.Advert.{hear-advert, label-hex_encode, long_name}

-- What a party tells of itself.
abbrev pub told_by : Party → Heard
told_by p = record { target = p.address; rank = p.rank }

-- A party that can be heard: its address is a byte string that is not empty, whose scheme is found
-- and followed by at least three bytes, and its rank is a positive number of 64 bits.
pub record Heardable (scheme : Bytes → Option ℕ) (p : Party) : Type 0 where
  pub are_bytes : All IsByte p.address
  pub some_address : 0 < length p.address
  pub some_rank : 0 < p.rank
  pub rank_fits : p.rank < 2 ^ 64
  pub len : ℕ
  pub has_scheme : scheme p.address ≡ some len
  pub long_enough : len + 3 ≤ length p.address

module _ (scheme : Bytes → Option ℕ) where
  hear_packet-advert :
      (p q : Party)
      → Heardable scheme q
      → hear_packet scheme (advert q.address q.rank) p ≡ negotiate scheme (returned (told_by q)) p
  unfolding hear_packet
  hear_packet-advert p q h =
      ap (λ o. negotiate scheme o p) (hear-advert q.address q.rank h.are_bytes h.rank_fits)

  wins_lem :
      (p q : Party)
      → Heardable scheme q
      → bytes_beq p.address q.address ≡ false
      → wins p (told_by q) ≡ (not (knows q.address p.peers) && leb p.rank q.rank)
  unfolding wins
  wins_lem p q h ne = ground (arith, h.some_address, h.some_rank, ne)

  -- A party that has taken up another.
  abbrev pub with_peer : Party → Party → ℕ → Party
  with_peer p q len = record p {
    peers = q.address ∷ p.peers;
    polled = drop (len + 3) q.address ∷ p.polled;
  }

  start_poll_lem :
      (p q : Party) (h : Heardable scheme q)
      → start_poll q.address (scheme q.address) p ≡ (returned tt, with_peer p q h.len)
  unfolding start_poll
  start_poll_lem p q h =
      let enough : leb (h.len + 3) (length q.address) ≡ true = ground (arith, h.long_enough) in
      ap (λ o. start_poll q.address o p) h.has_scheme ∙ rw enough

  -- What a party does on the advert of another.
  hear_packet_lem :
      (p q : Party) (h : Heardable scheme q)
      → bytes_beq p.address q.address ≡ false
      → hear_packet scheme (advert q.address q.rank) p ≡ (
          if not (knows q.address p.peers) && leb p.rank q.rank
          then (returned tt, with_peer p q h.len)
          else (returned tt, p))
  unfolding negotiate
  hear_packet_lem p q h ne =
      hear_packet-advert p q h
      ∙ ap (λ b. if b then start_poll q.address (scheme q.address) p else (returned tt, p))
          (wins_lem p q h ne)
      ∙ ap (λ r. if not (knows q.address p.peers) && leb p.rank q.rank then r else (returned tt, p))
          (start_poll_lem p q h)

  abbrev pub again : ℕ → List Bytes → List (List Bytes)
  again zero names = []
  again (suc n) names = names ∷ again n names

  -- An advert that changes nothing, however often it comes.
  again_lem :
      (n : ℕ) (names : List Bytes) (p : Party)
      → hear_packet scheme names p ≡ (returned tt, p)
      → mdns_listen scheme (again n names) p ≡ (returned tt, p)
  unfolding mdns_listen listen_on
  again_lem zero names p e = refl
  again_lem (suc n) names p e =
      ap (listen_on scheme (mdns_listen scheme (again n names))) e ∙ again_lem n names p e

  -- What a party is after adverts of another that it did not know, at least one of them.
  adverts_lem :
      (n : ℕ) (p q : Party) (h : Heardable scheme q)
      → bytes_beq p.address q.address ≡ false
      → knows q.address p.peers ≡ false
      → mdns_listen scheme (again (suc n) (advert q.address q.rank)) p
        ≡ (returned tt, if leb p.rank q.rank then with_peer p q h.len else p)
  unfolding mdns_listen listen_on knows
  adverts_lem n p q h ne new = elim (Bool-cases (leb p.rank q.rank)) [
    | inl low ↦
        let first : hear_packet scheme (advert q.address q.rank) p
            ≡ (returned tt, with_peer p q h.len) =
          hear_packet_lem p q h ne ∙ rw (new, low) in
        let known : bytes_beq q.address q.address ≡ true =
          (bytes_beq_iff q.address q.address).1 refl in
        let second : hear_packet scheme (advert q.address q.rank) (with_peer p q h.len)
            ≡ (returned tt, with_peer p q h.len) =
          hear_packet_lem (with_peer p q h.len) q h ne ∙ rw known in
        ap (listen_on scheme (mdns_listen scheme (again n (advert q.address q.rank)))) first
        ∙ again_lem n (advert q.address q.rank) (with_peer p q h.len) second
        ∙ rw low
    | inr high ↦
        let first : hear_packet scheme (advert q.address q.rank) p ≡ (returned tt, p) =
          hear_packet_lem p q h ne ∙ rw (new, high) in
        ap (listen_on scheme (mdns_listen scheme (again n (advert q.address q.rank)))) first
        ∙ again_lem n (advert q.address q.rank) p first
        ∙ rw high
  ]

  -- Two nodes with different addresses that can be heard, neither of which knows the other, and each
  -- of which hears the adverts of the other once or more often: the one with the lower rank polls the
  -- other, and each of them does where the ranks are equal; no node polls another twice.
  pub negotiation :
      (m n : ℕ) (p q : Party) (hp : Heardable scheme p) (hq : Heardable scheme q)
      → bytes_beq p.address q.address ≡ false
      → bytes_beq q.address p.address ≡ false
      → knows q.address p.peers ≡ false
      → knows p.address q.peers ≡ false
      → (mdns_listen scheme (again (suc m) (advert q.address q.rank)) p
          ≡ (returned tt, if leb p.rank q.rank then with_peer p q hq.len else p))
        × (mdns_listen scheme (again (suc n) (advert p.address p.rank)) q
            ≡ (returned tt, if leb q.rank p.rank then with_peer q p hp.len else q))
  negotiation m n p q hp hq pq qp new_q new_p =
      (adverts_lem m p q hq pq new_q, adverts_lem n q p hp qp new_p)

  le_value-short : (k : ℕ) (bs : Bytes) → length bs < k → le_value k bs ≡ none
  unfolding le_value
  le_value-short zero bs h = elim h [ ]
  le_value-short (suc k) [] h = refl
  le_value-short (suc k) (b ∷ bs) h = rw (le_value-short k bs (omega arith))

  -- One packet is enough to end a node: where the rank in its first question has fewer than 8 bytes,
  -- the loop panics. Where what stands there for an address is not hexadecimal, the loop ends, and the
  -- packets behind it are not read.
  pub packet_ends_listening :
      (bs junk : Bytes) (names : List Bytes) (packets : List (List Bytes)) (p : Party)
      → All IsByte bs
      → length bs < 8
      → hex_decode (label (junk ++ local)) ≡ none
      → (mdns_listen scheme (((ng ++ (hex_encode bs ++ local)) ∷ names) ∷ packets) p
          ≡ (panicked, p))
        × (mdns_listen scheme (((rn ++ (junk ++ local)) ∷ names) ∷ packets) p
            ≡ (failed Failure.invalid_hex, p))
  unfolding mdns_listen listen_on hear_packet negotiate hear hear_more hear_question hear_rank
      hear_target with_rank
  packet_ends_listening bs junk names packets p a short bad = (
    rw (
      long_name 110 103 46 (hex_encode bs),
      label-hex_encode bs,
      hex_decode-hex_encode bs a,
      le_value-short 8 bs short,
    ),
    rw (long_name 114 110 46 junk, bad),
  )
