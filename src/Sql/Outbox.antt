-- ===== src/Sql/Outbox.antt =====
-- A node over a database, as far as its outbox goes: `Forward` of nodes/db/internal.go, `SendMsg` of
-- nodes/db/admin.go for a message that fits, and `Pickup` of nodes/db/public.go.
pub mod Refines
use ratnet.Prelude.{
  ℕ, suc, Bool, true, false, Option, some, none, List, [], ◌∷◌, ◌++◌, Bytes, if◌then◌else◌,
}
use ratnet.Go.{Failure, Outcome, returned, failed, panicked, Action, fail}
use ratnet.Api.{Msg, rx_sum}
use ratnet.Wire.Value.{Bundle, KeyCodec}
use ratnet.Node.{Crypto, World, Node}
use ratnet.Node.Receiving.{pack}
use ratnet.Sql.{Database}
use ratnet.Sql.Mail.{db_outbox_enqueue, db_get_messages}

-- The keys, the clock and the limits are those of a node in memory, whose tables stay as they are.
pub record SqlNode (Pub Priv S : Type 0) : Type 0 where
  pub node : Node Pub Priv
  pub tables : S

module _ {Pub Priv S : Type 0} (crypto : Crypto Pub Priv) (world : World) (db : Database S) where
  unfoldable pub enqueue_row : Bytes → Bytes → Action (SqlNode Pub Priv S) Unit
  unfolding db_outbox_enqueue
  enqueue_row channel bs n =
      let (o, tables') = db_outbox_enqueue db channel bs (world.now n.node.ticks) false n.tables in
      (o, record { node = record n.node { ticks = suc n.node.ticks }; tables = tables' })

  -- The row has the name also where it is not that of a channel.
  unfoldable pub sql_forward : Msg Pub → Action (SqlNode Pub Priv S) Unit
  unfolding enqueue_row rx_sum
  sql_forward m = enqueue_row m.name (rx_sum m ++ m.content)

  unfoldable pub sql_send_encrypted : Msg Pub → Option Bytes → Action (SqlNode Pub Priv S) Unit
  unfolding enqueue_row rx_sum
  sql_send_encrypted m none = fail Failure.from_crypto
  sql_send_encrypted m (some content) =
      enqueue_row (if m.is_chan then m.name else []) (rx_sum m ++ content)

  unfoldable pub sql_send_whole_msg : Msg Pub → Action (SqlNode Pub Priv S) Unit
  unfolding sql_send_encrypted
  sql_send_whole_msg m n =
      sql_send_encrypted m (crypto.encrypt n.node.ticks n.node.content_key m.content m.pub_key) n

  unfoldable pub pack_rows :
      {Ecc Rsa : Type 0}
      → KeyCodec Ecc Rsa
      → Pub
      → Node Pub Priv
      → Outcome (List Bytes × ℕ) × S
      → Outcome Bundle × SqlNode Pub Priv S
  unfolding pack
  pack_rows codec rpub node (msgs, tables') =
      let (o, node') = pack crypto world codec rpub msgs node in
      (o, record { node = node'; tables = tables' })

  unfoldable pub sql_pickup :
      {Ecc Rsa : Type 0}
      → KeyCodec Ecc Rsa
      → Pub
      → ℕ
      → ℕ
      → List Bytes
      → Action (SqlNode Pub Priv S) Bundle
  unfolding pack_rows db_get_messages
  sql_pickup codec rpub last_time max_bytes names n =
      pack_rows codec rpub n.node (db_get_messages db last_time max_bytes names n.tables)
