-- ===== src/Policy/P2p.antt =====
-- Finding peers: mdnsListen, mdnsAdvertise and the negotiation of policy/p2p/p2p.go. A multicast packet
-- is the names of its questions, which the dns library packs and unpacks and which end in a dot; the
-- text of a question is ";" and its name, and what follows that does not matter.
pub mod Advert
pub mod Negotiation
mod Runs
use ratnet.Prelude.{
  ℕ, zero, suc, ◌+◌, ◌-◌, ◌*◌, ◌/◌, ◌%◌, Bool, true, false, ◌&&◌, ◌||◌, not, Option, none, some,
  List, [], ◌∷◌, ◌++◌, length, take, drop, ltb, leb, ◌==◌, if◌then◌else◌, Bytes, bytes_beq,
}
use ratnet.Hex.{hex_encode, hex_decode}
use ratnet.Go.{Failure, Outcome, returned, failed, panicked, Action}

-- The second part of the text of a question, between dots.
unfoldable pub label : Bytes → Bytes
label [] = []
label (c ∷ cs) = let rest = label cs in if c == 46 then [] else c ∷ rest

-- binary.LittleEndian.PutUint64 and Uint64; the latter panics on fewer than 8 bytes.
unfoldable pub put_le : ℕ → ℕ → Bytes
put_le zero x = []
put_le (suc k) x = x % 256 ∷ put_le k (x / 256)

unfoldable pub le_value : ℕ → Bytes → Option ℕ
le_value zero bs = some 0
le_value (suc k) [] = none
le_value (suc k) (b ∷ bs) = elim (le_value k bs) as (λ _. Option ℕ) [
  | none ↦ none
  | some v ↦ some (b + 256 * v)
]

-- What was read of a packet so far.
pub record Heard : Type 0 where
  pub target : Bytes
  pub rank : ℕ

unfoldable pub nothing : Heard
nothing = record { target = []; rank = 0 }

unfoldable pub hear_target : Option Bytes → Heard → Outcome Heard
hear_target none h = failed Failure.invalid_hex
hear_target (some dehexed) h = returned (record h { target = dehexed })

unfoldable pub with_rank : Option ℕ → Heard → Outcome Heard
with_rank none h = panicked
with_rank (some v) h = returned (record h { rank = v })

unfoldable pub hear_rank : Option Bytes → Heard → Outcome Heard
unfolding with_rank le_value
hear_rank none h = failed Failure.invalid_hex
hear_rank (some dehexed) h = with_rank (le_value 8 dehexed) h

-- "rn." and "ng."
abbrev pub rn : Bytes
rn = 114 ∷ 110 ∷ 46 ∷ []

abbrev pub ng : Bytes
ng = 110 ∷ 103 ∷ 46 ∷ []

unfoldable pub hear_question : Bytes → Heard → Outcome Heard
unfolding hear_target hear_rank hex_decode label
hear_question name h =
    if ltb 3 (length name)
    then (if bytes_beq (take 3 name) rn
        then hear_target (hex_decode (label (drop 3 name))) h
        else if bytes_beq (take 3 name) ng
        then hear_rank (hex_decode (label (drop 3 name))) h
        else returned h)
    else returned h

unfoldable pub hear_more : (Heard → Outcome Heard) → Outcome Heard → Outcome Heard
hear_more next (returned h) = next h
hear_more next (failed e) = failed e
hear_more next panicked = panicked

unfoldable pub hear : List Bytes → Heard → Outcome Heard
unfolding hear_question hear_more
hear [] h = returned h
hear (name ∷ names) h = hear_more (hear names) (hear_question name h)

-- ".local."
abbrev pub local : Bytes
local = 46 ∷ 108 ∷ 111 ∷ 99 ∷ 97 ∷ 108 ∷ 46 ∷ []

-- The questions of mdnsAdvertise.
unfoldable pub advert : Bytes → ℕ → List Bytes
unfolding hex_encode put_le
advert address rank =
    (rn ++ (hex_encode address ++ local)) ∷ (ng ++ (hex_encode (put_le 8 rank) ++ local)) ∷ []

-- A policy: its rank and address, the targets that it knows, and the hosts that it polls.
pub record Party : Type 0 where
  pub rank : ℕ
  pub address : Bytes
  pub peers : List Bytes
  pub polled : List Bytes

unfoldable pub knows : Bytes → List Bytes → Bool
knows t [] = false
knows t (p ∷ ps) = bytes_beq p t || knows t ps

-- Whether a target is new and not this node itself, and this node is to poll it.
unfoldable pub wins : Party → Heard → Bool
unfolding knows
wins p h =
    (not (knows h.target p.peers)
      && (not (length h.target == 0) && (ltb 0 h.rank && not (bytes_beq p.address h.target))))
    && leb p.rank h.rank

-- `scheme` is the length of the scheme that `url.Parse` finds, `none` for an error. The new
-- goroutine polls `target[len(u.Scheme)+3:]`.
unfoldable pub start_poll : Bytes → Option ℕ → Party → Outcome (Unit {0}) × Party
start_poll target none p = (failed Failure.invalid_url, p)
start_poll target (some scheme) p =
    let known : Party = record p { peers = target ∷ p.peers } in
    if leb (scheme + 3) (length target)
    then (returned tt, record known { polled = drop (scheme + 3) target ∷ p.polled })
    else (panicked, known)

module _ (scheme : Bytes → Option ℕ) where
  unfoldable pub negotiate : Outcome Heard → Action Party Unit
  unfolding wins start_poll
  negotiate (returned h) p =
      if wins p h then start_poll h.target (scheme h.target) p else (returned tt, p)
  negotiate (failed e) p = (failed e, p)
  negotiate panicked p = (panicked, p)

  unfoldable pub hear_packet : List Bytes → Action Party Unit
  unfolding negotiate hear nothing
  hear_packet names = negotiate (hear names nothing)

  unfoldable pub listen_on :
      Action Party Unit → Outcome (Unit {0}) × Party → Outcome (Unit {0}) × Party
  listen_on next (returned u, p) = next p
  listen_on next (failed e, p) = (failed e, p)
  listen_on next (panicked, p) = (panicked, p)

  -- The loop of mdnsListen, over the packets that come before the socket is closed. An error ends it.
  unfoldable pub mdns_listen : List (List Bytes) → Action Party Unit
  unfolding hear_packet listen_on
  mdns_listen [] p = (returned tt, p)
  mdns_listen (names ∷ packets) p = listen_on (mdns_listen packets) (hear_packet names p)
