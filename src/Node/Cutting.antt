-- ===== src/Node/Cutting.antt =====
-- `SendMsg` of a message that is too long for the transports.
use ratnet.Prelude.{
  ℕ, suc, ◌<◌, ◌≡◌, refl, ap, ◌∙◌, true, false, ◌&&◌, Option, some, none, List, [], ◌∷◌, length,
  ltb, if◌then◌else◌, Bytes, arith, All,
}
use ratnet.Go.{Failure, returned, Action, pure, fail, panic, continue, continue_ext_at}
use ratnet.Api.{Msg}
use ratnet.Chunking.{ChunkNode, u32, chunk_size, send_chunked}
use ratnet.Chunking.Pieces.{stream_msgs, send_all, u32_small}
use ratnet.Chunking.Sent.{cut, Within, send_chunked_pieces, stream_msgs-Within}
use ratnet.Node.{Crypto, World, Node}
use ratnet.Node.Sending.{
  enqueue_encrypted, send_whole_msg, send_within, send_with, chunk_sender, send_cut, send_msg,
}

module _ {Pub Priv : Type 0} (crypto : Crypto Pub Priv) (world : World) where
  -- A node that encrypts and queues every message as it is.
  abbrev pub whole_sender : ChunkNode (Node Pub Priv) Pub
  whole_sender = record {
    send_msg = send_whole_msg crypto world;
    add_stream = λ _ _ _. pure tt;
    add_chunk = λ _ _ _. pure tt;
  }

  enqueue_encrypted-limits :
      (m : Msg Pub) (o : Option Bytes) (node : Node Pub Priv)
      → (enqueue_encrypted crypto world m o node).1.limits ≡ node.limits
  unfolding enqueue_encrypted
  enqueue_encrypted-limits m none node = refl
  enqueue_encrypted-limits m (some content) node = refl

  send_whole_msg-limits :
      (m : Msg Pub) (node : Node Pub Priv)
      → (send_whole_msg crypto world m node).1.limits ≡ node.limits
  unfolding send_whole_msg
  send_whole_msg-limits m node = enqueue_encrypted-limits m _ node

  -- A message within the chunk size is not cut.
  send_within_lem :
      (cutter : ℕ → Msg Pub → Action (Node Pub Priv) Unit) (m : Msg Pub) (size : ℕ)
      (node : Node Pub Priv)
      → Within size m
      → size < 4294967296
      → send_within crypto world cutter m (returned size) node ≡ send_whole_msg crypto world m node
  unfolding send_within
  send_within_lem cutter m size node h small =
      let e : u32 (length m.content) ≡ length m.content = u32_small _ (omega (arith, h, small)) in
      let fits : (ltb 0 (length m.content) && ltb size (length m.content)) ≡ false =
        ground (arith, h) in
      rw (e, fits)

  -- A longer one is.
  send_within_cut :
      (m : Msg Pub) (size : ℕ) (node : Node Pub Priv)
      → m.chunked ≡ false
      → size < length m.content
      → length m.content < 4294967296
      → send_within crypto world (send_cut crypto world) m (returned size) node
        ≡ send_cut crypto world size m node
  unfolding send_within
  send_within_cut m size node plain long small =
      let e : u32 (length m.content) ≡ length m.content = u32_small _ small in
      let over : (ltb 0 (length m.content) && ltb size (length m.content)) ≡ true =
        ground (arith, long) in
      let cutter = send_cut crypto world size m in
      rw (e, over) (ap (λ b. (if b then fail Failure.already_chunked else cutter) node) plain)

  send_cut_lem :
      (m : Msg Pub) (size : ℕ) (node : Node Pub Priv)
      → send_cut crypto world size m node
        ≡ send_chunked
            (chunk_sender crypto world)
            (world.random_id node.ticks)
            size
            m
            (record node { ticks = suc node.ticks })
  unfolding send_cut
  send_cut_lem m size node = refl

  send_all-whole :
      (ms : List (Msg Pub)) (size : ℕ) (node : Node Pub Priv)
      → All (Within size) ms
      → size < 4294967296
      → chunk_size node.limits ≡ returned size
      → send_all (chunk_sender crypto world) ms node ≡ send_all whole_sender ms node
  unfolding send_all chunk_sender send_with
  send_all-whole [] size node h small e = refl
  send_all-whole (m ∷ ms) size node (h, hs) small e =
      let first =
        ap (λ o. send_within crypto world (λ _ _. panic) m o node) e
        ∙ send_within_lem (λ _ _. panic) m size node h small in
      let sent = send_whole_msg crypto world m node in
      let rest = λ (_ : Unit {0}). send_all (chunk_sender crypto world) ms in
      ap (λ r. continue r rest) first
      ∙ continue_ext_at (λ (n : Node Pub Priv). chunk_size n.limits ≡ returned size) sent rest
          (λ _. send_all whole_sender ms) (ap chunk_size (send_whole_msg-limits m node) ∙ e)
          (λ _ n e'. send_all-whole ms size n hs small e')

  -- A message that is not chunked and longer than the chunk size, which is above 8, leaves `SendMsg`
  -- as its stream: a header and the pieces, each encrypted and queued by itself and none cut again, up
  -- to the first that fails. Its length is below 2 ^ 32, and a stream identifier of 4 bytes is to be had.
  pub send_msg_cut :
      (m : Msg Pub) (node : Node Pub Priv) (size : ℕ) (stream_id : Bytes)
      → chunk_size node.limits ≡ returned size
      → 8 < size
      → m.chunked ≡ false
      → size < length m.content
      → length m.content < 4294967296
      → world.random_id node.ticks ≡ some stream_id
      → length stream_id ≡ 4
      → send_msg crypto world m node
        ≡ send_all whole_sender
            (stream_msgs m stream_id (cut size m.content))
            (record node { ticks = suc node.ticks })
  unfolding send_msg send_with
  send_msg_cut m node size stream_id limit low plain long small random four =
      let next : Node Pub Priv = record node { ticks = suc node.ticks } in
      let bound : size < 4294967296 = omega (arith, long, small) in
      ap (λ o. send_within crypto world (send_cut crypto world) m o node) limit
      ∙ send_within_cut m size node plain long small
      ∙ send_cut_lem m size node
      ∙ ap (λ o. send_chunked (chunk_sender crypto world) o size m next) random
      ∙ send_chunked_pieces (chunk_sender crypto world) m stream_id size next low bound
          (omega (arith, long)) small
      ∙ send_all-whole (stream_msgs m stream_id (cut size m.content)) size next
          (stream_msgs-Within m stream_id size four low) bound limit
