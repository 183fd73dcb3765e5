-- ===== src/Node.antt =====
-- The node in memory, nodes/ram: its state, and what it uses of the key library. A key that is nil is
-- not modelled, nor is a node before `Start`. The node's mutexes make each operation one step.
pub mod Admin
pub mod Profiles
pub mod Sending
pub mod Receiving
pub mod Laws
pub mod Contacts
pub mod Exchange
pub mod Cutting
pub mod Keeps
pub mod Served
mod Runs
use ratnet.Prelude.{ℕ, Bool, Option, List, Bytes, Map}
use ratnet.Api.{OutboxMsg, ChannelPriv, ProfilePriv}
use ratnet.Wire.Value.{Contact, Peer}
use ratnet.Streams.{Streams}

-- What `DecryptMessage` returns: whether the tag matched, and the clear text, `none` for an error.
pub record Opened : Type 0 where
  pub tag_ok : Bool
  pub clear : Option Bytes

-- What the node uses of the bencrypt library. Decoding goes by the kind of the key it is called on,
-- and answers `none` for an error; encryption takes a number that stands for its randomness.
pub record Crypto (Pub Priv : Type 0) : Type 0 where
  pub get_pub : Priv → Pub
  pub clone : Priv → Priv
  pub pub_to_b64 : Pub → Bytes
  pub pub_from_b64 : Pub → Bytes → Option Pub
  pub priv_to_b64 : Priv → Bytes
  pub priv_from_b64 : Priv → Bytes → Option Priv
  pub validate_pub_key : Priv → Bytes → Bool
  pub encrypt : ℕ → Priv → Bytes → Option Pub → Option Bytes
  pub decrypt : Priv → Bytes → Opened

-- The clock and the random stream identifiers, by how often they were asked.
pub record World : Type 0 where
  pub now : ℕ → ℕ
  pub random_id : ℕ → Option Bytes

-- `limits` are the byte limits of the policies' transports, and `ticks` counts what was asked of the
-- world. The `streams`, `chunks` and `out` of the node are its `store`.
pub record Node (Pub Priv : Type 0) : Type 0 where
  pub content_key : Priv
  pub routing_key : Priv
  pub channels : Map Bytes (ChannelPriv Priv)
  pub contacts : Map Bytes Contact
  pub peers : Map Bytes Peer
  pub profiles : Map Bytes (ProfilePriv Priv)
  pub outbox : List OutboxMsg
  pub store : Streams Pub
  pub limits : List ℕ
  pub ticks : ℕ
