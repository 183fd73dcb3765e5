-- ===== src/Api.antt =====
-- The records that nodes, routers and policies exchange: api/msg.go, api/router.go and
-- api/transport.go, and the private records of api/node.go. `Pub` and `Priv` are the key types of
-- the bencrypt library.
use ratnet.Prelude.{
  ℕ, ◌+◌, Bool, true, false, Option, List, [], ◌∷◌, Bytes, if◌then◌else◌, length, ◌/◌, ◌%◌,
}

pub record Msg (Pub : Type 0) : Type 0 where
  pub name : Bytes
  pub content : Bytes
  pub is_chan : Bool
  pub pub_key : Option Pub
  pub chunked : Bool
  pub stream_header : Bool

pub record Patch : Type 0 where
  pub from : Bytes
  pub to : List Bytes

pub record StreamHeader : Type 0 where
  pub stream_id : ℕ
  pub num_chunks : ℕ
  pub channel_name : Bytes

pub record Chunk : Type 0 where
  pub stream_id : ℕ
  pub chunk_num : ℕ
  pub payload : Bytes

pub record OutboxMsg : Type 0 where
  pub channel : Bytes
  pub msg : Bytes
  pub time_stamp : ℕ

pub record ChannelPriv (Priv : Type 0) : Type 0 where
  pub name : Bytes
  pub pubkey : Bytes
  pub privkey : Priv

pub record ProfilePriv (Priv : Type 0) : Type 0 where
  pub name : Bytes
  pub enabled : Bool
  pub privkey : Priv

-- StreamHeaderFlag, ChunkedFlag and ChannelFlag, joined by `|=`.
unfoldable pub flags_of : Bool → Bool → Bool → ℕ
flags_of is_chan chunked stream_header =
    (if is_chan then 4 else 0) + (if chunked then 2 else 0) + (if stream_header then 1 else 0)

-- `uint16(len(name))` in two bytes, high byte first, and the name; nothing for a private message.
unfoldable pub name_prefix : Bool → Bytes → Bytes
name_prefix true name = (length name % 65536 / 256) ∷ (length name % 256) ∷ name
name_prefix false name = []

-- What stands in front of the encrypted content of a message in transit.
unfoldable pub rx_sum : {Pub : Type 0} → Msg Pub → Bytes
unfolding flags_of name_prefix
rx_sum m = flags_of m.is_chan m.chunked m.stream_header ∷ name_prefix m.is_chan m.name
