-- ===== src/Node/Sending.antt =====
-- Sending: Send, SendChannel, SendChannelBulk and SendMsg of nodes/ram/admin.go, and Forward of
-- nodes/ram/internal.go.
use ratnet.Prelude.{
  ℕ, suc, Bool, true, false, ◌&&◌, Option, some, none, List, [], ◌∷◌, ◌++◌, length, ltb, Bytes,
  bytes_eq, lookup, if◌then◌else◌,
}
use ratnet.Go.{
  Failure, Outcome, returned, failed, panicked, pure, fail, panic, continue, ◌>>=◌, ◌>>◌,
}
use ratnet.Api.{Msg, OutboxMsg, rx_sum}
use ratnet.Outbox.{append}
use ratnet.Chunking.{ChunkNode, u32, chunk_size, send_chunked}
use ratnet.Node.{Crypto, World, Node}
use ratnet.Node.Admin.{Step, found}

module _ {Pub Priv : Type 0} (crypto : Crypto Pub Priv) (world : World) where
  -- Into the outbox, with the present time; the channel of a private message is "".
  unfoldable pub enqueue : Msg Pub → Bytes → Step crypto Unit
  unfolding append rx_sum
  enqueue m content node =
      let mail : OutboxMsg = record {
        channel = if m.is_chan then m.name else [];
        msg = rx_sum m ++ content;
        time_stamp = world.now node.ticks;
      } in
      (returned tt, record node { outbox = append node.outbox mail; ticks = suc node.ticks })

  unfoldable pub enqueue_encrypted : Msg Pub → Option Bytes → Step crypto Unit
  unfolding enqueue
  enqueue_encrypted m none = fail Failure.from_crypto
  enqueue_encrypted m (some content) = enqueue m content

  -- `SendMsg` of a message that fits.
  unfoldable pub send_whole_msg : Msg Pub → Step crypto Unit
  unfolding enqueue_encrypted
  send_whole_msg m node =
      enqueue_encrypted m (crypto.encrypt node.ticks node.content_key m.content m.pub_key) node

  -- `SendMsg`, with what it calls for a message that is to be cut.
  unfoldable pub send_within :
      (ℕ → Msg Pub → Step crypto Unit) → Msg Pub → Outcome ℕ → Step crypto Unit
  unfolding send_whole_msg u32
  send_within cutter m (returned size) =
      if ltb 0 (length m.content) && ltb size (u32 (length m.content))
      then (if m.chunked then fail Failure.already_chunked else cutter size m)
      else send_whole_msg m
  send_within cutter m (failed e) = fail e
  send_within cutter m panicked = panic

  unfoldable pub send_with : (ℕ → Msg Pub → Step crypto Unit) → Msg Pub → Step crypto Unit
  unfolding send_within chunk_size
  send_with cutter m node = send_within cutter m (chunk_size node.limits) node

  -- The messages of a stream are marked as chunked, so `SendMsg` cuts none of them again.
  unfoldable pub chunk_sender : ChunkNode (Node Pub Priv) Pub
  unfolding send_with
  chunk_sender = record {
    send_msg = send_with (λ size m. panic);
    add_stream = λ _ _ _. pure tt;
    add_chunk = λ _ _ _. pure tt;
  }

  unfoldable pub send_cut : ℕ → Msg Pub → Step crypto Unit
  unfolding chunk_sender send_chunked
  send_cut size m node =
      send_chunked chunk_sender (world.random_id node.ticks) size m
        (record node { ticks = suc node.ticks })

  unfoldable pub send_msg : Msg Pub → Step crypto Unit
  unfolding send_with send_cut
  send_msg m = send_with send_cut m

  unfoldable pub message_to : Bytes → Bytes → Bool → Pub → Msg Pub
  message_to name content is_chan key = record {
    name = name;
    content = content;
    is_chan = is_chan;
    pub_key = some key;
    chunked = false;
    stream_header = false;
  }

  unfoldable pub decoded : Option Pub → Step crypto Pub
  decoded none = fail Failure.from_crypto
  decoded (some key) = pure key

  unfoldable pub contact_key : Bytes → Step crypto Pub
  unfolding found lookup decoded
  contact_key name node =
      continue (found Failure.contact_not_found (lookup name node.contacts) node)
        (λ c. decoded (crypto.pub_from_b64 (crypto.get_pub node.content_key) c.pubkey))

  unfoldable pub channel_key : Bytes → Step crypto Pub
  unfolding found lookup
  channel_key name node =
      continue (found Failure.no_channel_key (lookup name node.channels) node)
        (λ c. pure (crypto.get_pub c.privkey))

  -- The optional key overrides the one that is stored.
  unfoldable pub key_or : Option Pub → Step crypto Pub → Step crypto Pub
  key_or (some key) stored = pure key
  key_or none stored = stored

  unfoldable pub send : Bytes → Bytes → Option Pub → Step crypto Unit
  unfolding key_or contact_key message_to send_msg
  send contact content key =
      key_or key (contact_key contact) >>= λ k. send_msg (message_to contact content false k)

  unfoldable pub send_channel : Bytes → Bytes → Option Pub → Step crypto Unit
  unfolding key_or channel_key message_to send_msg
  send_channel channel content key =
      key_or key (channel_key channel) >>= λ k. send_msg (message_to channel content true k)

  unfoldable pub send_channel_bulk : Bytes → List Bytes → Option Pub → Step crypto Unit
  unfolding send_channel
  send_channel_bulk channel [] key = pure tt
  send_channel_bulk channel (content ∷ contents) key =
      send_channel channel content key >> send_channel_bulk channel contents key

  -- node.Forward: the content is encrypted already.
  unfoldable pub forward : Msg Pub → Step crypto Unit
  unfolding enqueue
  forward m = enqueue m m.content
