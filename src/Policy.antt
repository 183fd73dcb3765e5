-- ===== src/Policy.antt =====
-- `PollServer` of policy/common.go: one exchange with a peer. Its mutex makes it one step. The node
-- and the transport are what it calls; the counts of bytes do not reach 2 ^ 63.
pub mod Success
pub mod P2p
pub mod Poll
mod Runs
use ratnet.Prelude.{
  ℕ, ◌+◌, Bool, true, false, Option, some, none, List, [], ◌∷◌, length, ltb, ◌==◌, Bytes, bytes_eq,
  Map, lookup, insert, if◌then◌else◌,
}
use ratnet.Go.{
  Failure, Outcome, returned, failed, panicked, Action, pure, fail, continue, ◌>>=◌, ◌>>◌,
}
use ratnet.Wire.Value.{Bundle}

-- api.PeerInfo
pub record PeerInfo (Pub : Type 0) : Type 0 where
  pub last_poll_local : ℕ
  pub last_poll_remote : ℕ
  pub total_bytes_tx : ℕ
  pub total_bytes_rx : ℕ
  pub routing_pub : Option Pub

unfoldable pub new_peer_info : {Pub : Type 0} → PeerInfo Pub
new_peer_info = record {
  last_poll_local = 0;
  last_poll_remote = 0;
  total_bytes_tx = 0;
  total_bytes_rx = 0;
  routing_pub = none;
}

-- What a remote call can answer, as `PollServer` tells the types apart.
pub data Answer (Pub : Type 0) : Type 0 where
  no_answer : Answer Pub
  key : Pub → Answer Pub
  bundle : Bundle → Answer Pub
  other : Answer Pub

-- The node's `Pickup`, within the byte limit of the transport, and `Dropoff`, and the remote calls.
pub record Link (S Pub : Type 0) : Type 0 where
  pub pickup : Pub → ℕ → Action S Bundle
  pub dropoff : Bundle → Action S Unit
  pub remote_id : Bytes → Action S (Answer Pub)
  pub remote_pickup : Bytes → Pub → ℕ → Action S (Answer Pub)
  pub remote_dropoff : Bytes → Bundle → Action S Unit

module _ {S Pub : Type 0} (link : Link S Pub) where
  -- The peer table, and what is behind the link.
  abbrev pub State : Type 0
  State = Map Bytes (PeerInfo Pub) × S

  unfoldable pub on_link : {A : Type 0} → Action S A → Action State A
  on_link act (table, s) = let (o, s') = act s in (o, (table, s'))

  unfoldable pub peer_of : Option (PeerInfo Pub) → PeerInfo Pub
  unfolding new_peer_info
  peer_of none = new_peer_info
  peer_of (some p) = p

  unfoldable pub read_peer_table : Bytes → Action State (PeerInfo Pub)
  unfolding peer_of lookup
  read_peer_table host (table, s) = (returned (peer_of (lookup host table)), (table, s))

  -- The table holds pointers: what is written to a peer is in the table.
  unfoldable pub write_peer_table : Bytes → PeerInfo Pub → Action State Unit
  unfolding insert
  write_peer_table host p (table, s) = (returned tt, (insert host p table, s))

  -- `none` where the answer is no key.
  unfoldable pub learn_key : Bytes → PeerInfo Pub → Answer Pub → Action State (Option Pub)
  unfolding write_peer_table
  learn_key host p (Answer.key k) =
      write_peer_table host (record p { routing_pub = some k }) >> pure (some k)
  learn_key host p Answer.no_answer = pure none
  learn_key host p (Answer.bundle b) = pure none
  learn_key host p Answer.other = pure none

  unfoldable pub routing_key : Bytes → PeerInfo Pub → Option Pub → Action State (Option Pub)
  unfolding on_link learn_key
  routing_key host p (some k) = pure (some k)
  routing_key host p none = on_link (link.remote_id host) >>= learn_key host p

  -- What was picked up: `none` where the answer is of another type, and no bundle where it is nil.
  unfoldable pub received :
      Bytes → PeerInfo Pub → Answer Pub → Action State (Option (Option Bundle))
  unfolding write_peer_table
  received host p Answer.no_answer = pure (some none)
  received host p (Answer.bundle b) =
      write_peer_table host (record p { total_bytes_rx = p.total_bytes_rx + length b.payload })
      >> pure (some (some b))
  received host p (Answer.key k) = pure none
  received host p Answer.other = pure none

  unfoldable pub sent : Bundle → PeerInfo Pub → PeerInfo Pub
  sent b p = record p {
    last_poll_local = if ltb 0 p.total_bytes_tx then b.time else p.last_poll_local;
    total_bytes_tx = p.total_bytes_tx + length b.payload;
  }

  unfoldable pub taken : Bundle → PeerInfo Pub → PeerInfo Pub
  taken b p = record p {
    last_poll_remote = if ltb 0 p.total_bytes_rx then b.time else p.last_poll_remote;
  }

  unfoldable pub update : Bytes → (PeerInfo Pub → PeerInfo Pub) → Action State Unit
  unfolding read_peer_table write_peer_table
  update host f = read_peer_table host >>= λ p. write_peer_table host (f p)

  unfoldable pub dropoff_remote : Bytes → Bundle → Action State Unit
  unfolding on_link update sent
  dropoff_remote host b =
      if ltb 0 (length b.payload)
      then (on_link (link.remote_dropoff host b) >> update host (sent b))
      else pure tt

  unfoldable pub dropoff_local : Bytes → Option Bundle → Action State Unit
  unfolding on_link update taken
  dropoff_local host none = pure tt
  dropoff_local host (some b) =
      if ltb 0 (length b.payload)
      then (on_link (link.dropoff b) >> update host (taken b))
      else pure tt

  unfoldable pub finish : Bytes → Bundle → Option (Option Bundle) → Action State Bool
  unfolding dropoff_remote dropoff_local
  finish host to_remote none = pure false
  finish host to_remote (some to_local) =
      dropoff_remote host to_remote >> (dropoff_local host to_local >> pure true)

  unfoldable pub exchange : Bytes → Pub → Option Pub → Action State Bool
  unfolding read_peer_table on_link received finish
  exchange host pubsrv none = pure false
  exchange host pubsrv (some k) = read_peer_table host >>= λ p.
      on_link (link.pickup k p.last_poll_local) >>= λ to_remote.
      on_link (link.remote_pickup host pubsrv p.last_poll_remote) >>= λ raw.
      received host p raw >>= finish host to_remote

  unfoldable pub enter : Bytes → Action State Unit
  unfolding read_peer_table write_peer_table
  enter host = read_peer_table host >>= write_peer_table host

  unfoldable pub poll_server : Bytes → Pub → Action State Bool
  unfolding enter routing_key exchange
  poll_server host pubsrv =
      enter host
      >> (read_peer_table host >>= λ p. routing_key host p p.routing_pub >>= exchange host pubsrv)
