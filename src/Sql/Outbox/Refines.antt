-- ===== src/Sql/Outbox/Refines.antt =====
-- The outbox in tables does what the queue of the node in memory does.
use ratnet.Prelude.{
  ℕ, suc, ◌<◌, ◌≡◌, refl, ap, ◌∙◌, Option, some, none, List, [], ◌∷◌, ◌++◌, Bytes, if◌then◌else◌,
  All,
}
use ratnet.Go.{Outcome, returned, failed, panicked}
use ratnet.Api.{Msg, OutboxMsg, rx_sum}
use ratnet.Wire.Value.{KeyCodec}
use ratnet.Wire.Calls.{bytes_bytes_to_bytes}
use ratnet.Outbox.{append, msgs_since}
use ratnet.Outbox.Since.{IsRising, eligible}
use ratnet.Outbox.Limit.{Small}
use ratnet.Node.{Crypto, World, Node}
use ratnet.Node.Sending.{enqueue, enqueue_encrypted, send_whole_msg, forward}
use ratnet.Node.Receiving.{pack, bundle_of, pickup}
use ratnet.Sql.{Database}
use ratnet.Sql.Laws.{IsTable}
use ratnet.Sql.Keys.{returned_pair}
use ratnet.Sql.Mail.{db_outbox_enqueue}
use ratnet.Sql.Messages.{Answers, Stamped, db_get_messages-msgs_since}
use ratnet.Sql.Outbox.{
  SqlNode, enqueue_row, sql_forward, sql_send_encrypted, sql_send_whole_msg, pack_rows, sql_pickup,
}

module _ {Pub Priv S : Type 0} (crypto : Crypto Pub Priv) (world : World) (db : Database S)
    (rows : S → List OutboxMsg) where
  -- The node in memory with the same messages.
  abbrev pub in_memory : SqlNode Pub Priv S → Node Pub Priv
  in_memory n = record n.node { outbox = rows n.tables }

  -- What an operation does, seen in memory.
  abbrev pub seen : {A : Type 0} → Outcome A × SqlNode Pub Priv S → Outcome A × Node Pub Priv
  seen (o, n) = (o, in_memory n)

  module _ (table : IsTable db.outbox rows) where
    enqueue_row-enqueue :
        (m : Msg Pub) (channel content : Bytes) (n : SqlNode Pub Priv S)
        → channel ≡ (if m.is_chan then m.name else [])
        → seen (enqueue_row crypto world db channel (rx_sum m ++ content) n)
          ≡ enqueue crypto world m content (in_memory n)
    unfolding enqueue_row enqueue append db_outbox_enqueue
    enqueue_row-enqueue m channel content n same =
        let mail : OutboxMsg = record {
          channel = channel;
          msg = rx_sum m ++ content;
          time_stamp = world.now n.node.ticks;
        } in
        let (ok, after) = table.inserts mail n.tables in
        let later : Node Pub Priv = record n.node { ticks = suc n.node.ticks } in
        ap (λ p. seen (p.0, record { node = later; tables = p.1 }))
          (returned_pair (db.outbox.insert_row mail n.tables) ok)
        ∙ ap (λ rs. (returned tt, record later { outbox = rs }))
            (after
              ∙ ap
                  (λ c.
                    rows n.tables
                    ++ record {
                      channel = c;
                      msg = rx_sum m ++ content;
                      time_stamp = world.now n.node.ticks;
                    }
                      ∷ [])
                  same)

    sql_forward-forward :
        (m : Msg Pub) (n : SqlNode Pub Priv S)
        → m.name ≡ (if m.is_chan then m.name else [])
        → seen (sql_forward crypto world db m n) ≡ forward crypto world m (in_memory n)
    unfolding sql_forward forward
    sql_forward-forward m n same = enqueue_row-enqueue m m.name m.content n same

    sql_send-send :
        (m : Msg Pub) (n : SqlNode Pub Priv S)
        → seen (sql_send_whole_msg crypto world db m n)
          ≡ send_whole_msg crypto world m (in_memory n)
    unfolding sql_send_whole_msg send_whole_msg
    sql_send-send m n = sent (crypto.encrypt n.node.ticks n.node.content_key m.content m.pub_key)
      where
        sent :
            (o : Option Bytes)
            → seen (sql_send_encrypted crypto world db m o n)
              ≡ enqueue_encrypted crypto world m o (in_memory n)
        sent none = unfold sql_send_encrypted enqueue_encrypted in refl
        sent (some content) =
            unfold sql_send_encrypted enqueue_encrypted in
            enqueue_row-enqueue m (if m.is_chan then m.name else []) content n refl

  module _ {Ecc Rsa : Type 0} (codec : KeyCodec Ecc Rsa) where
    bundled :
        (t : ℕ) (node : Node Pub Priv) (tables : S) (o : Option Bytes)
        → seen (
          (bundle_of crypto world codec t o node).0,
          record { node = (bundle_of crypto world codec t o node).1; tables = tables },
        )
          ≡ bundle_of crypto world codec t o (record node { outbox = rows tables })
    unfolding bundle_of
    bundled t node tables none = refl
    bundled t node tables (some cipher) = refl

    pack-in_memory :
        (rpub : Pub) (o : Outcome (List Bytes × ℕ)) (n : SqlNode Pub Priv S)
        → seen (pack_rows crypto world db codec rpub n.node (o, n.tables))
          ≡ pack crypto world codec rpub o (in_memory n)
    unfolding pack_rows pack
    pack-in_memory rpub (returned ([], t)) n = refl
    pack-in_memory rpub (returned (m ∷ ms, t)) n =
        bundled t (record n.node { ticks = suc n.node.ticks }) n.tables
          (crypto.encrypt n.node.ticks n.node.routing_key (bytes_bytes_to_bytes codec (m ∷ ms))
            (some rpub))
    pack-in_memory rpub (failed e) n = refl
    pack-in_memory rpub panicked n = refl

    sql_pickup-pickup :
        (rpub : Pub) (last max_bytes : ℕ) (names : List Bytes) (n : SqlNode Pub Priv S)
        → Answers db n.tables (rows n.tables)
        → IsRising (rows n.tables)
        → All Stamped (rows n.tables)
        → 0 < max_bytes
        → All (Small max_bytes) (eligible last names (rows n.tables))
        → seen (sql_pickup crypto world db codec rpub last max_bytes names n)
          ≡ pickup crypto world codec rpub last max_bytes names (in_memory n)
    unfolding sql_pickup pickup
    sql_pickup-pickup rpub last max_bytes names n answers rises stamps limit small =
        ap (λ r. seen (pack_rows crypto world db codec rpub n.node r))
          (db_get_messages-msgs_since db n.tables (rows n.tables) last max_bytes names answers rises
            stamps limit small)
        ∙ pack-in_memory rpub (msgs_since (rows n.tables) last max_bytes names) n

    -- Where the rows of the outbox are as SQL documents, the query gives what it asks for, the time stamps
    -- rise from 1, there is a limit, and each message that a peer asks for is within it: what `Forward`,
    -- `SendMsg` of a message that fits, and `Pickup` return, and the messages that they leave, are those
    -- of the node in memory with the same messages. A message that is forwarded has no name unless it
    -- is for a channel.
    pub outbox-in_memory :
        (m : Msg Pub) (rpub : Pub) (last max_bytes : ℕ) (names : List Bytes)
        (n : SqlNode Pub Priv S)
        → IsTable db.outbox rows
        → m.name ≡ (if m.is_chan then m.name else [])
        → Answers db n.tables (rows n.tables)
        → IsRising (rows n.tables)
        → All Stamped (rows n.tables)
        → 0 < max_bytes
        → All (Small max_bytes) (eligible last names (rows n.tables))
        → (seen (sql_forward crypto world db m n) ≡ forward crypto world m (in_memory n))
          × (seen (sql_send_whole_msg crypto world db m n)
              ≡ send_whole_msg crypto world m (in_memory n))
          × (seen (sql_pickup crypto world db codec rpub last max_bytes names n)
              ≡ pickup crypto world codec rpub last max_bytes names (in_memory n))
    outbox-in_memory m rpub last max_bytes names n table same answers rises stamps limit small = (
      sql_forward-forward table m n same,
      sql_send-send table m n,
      sql_pickup-pickup rpub last max_bytes names n answers rises stamps limit small,
    )
