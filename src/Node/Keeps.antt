-- ===== src/Node/Keeps.antt =====
-- What the operations that send leave of the node in memory.
pub mod Receiving
use ratnet.Prelude.{
  ℕ, zero, suc, ◌+◌, ◌/◌, ◌%◌, ◌==◌, Bool, true, false, ◌&&◌, Option, none, some, List, [], ◌∷◌,
  ◌≡◌, refl, length, ltb, Bytes, if◌then◌else◌, lookup, bytes_eq,
}
use ratnet.Go.{
  Failure, Outcome, returned, failed, panicked, Action, pure, fail, panic, continue, ◌>>=◌, ◌>>◌,
}
use ratnet.Go.Keeps.{Keeps, continue-Keeps, bind-Keeps, then-Keeps, if-Keeps, if-holds}
use ratnet.Api.{Msg, OutboxMsg, ChannelPriv}
use ratnet.Outbox.{append, msgs_since}
use ratnet.Streams.{Streams, receiver, out_buffer_size}
use ratnet.Chunking.{
  ChunkNode, u32, chunk_size, send_chunked, slice, send_piece, send_whole, send_rest, send_stream,
  handle_chunked,
}
use ratnet.Wire.Read.{Result, ok, err}
use ratnet.Wire.Value.{Bundle, KeyCodec, Contact}
use ratnet.Wire.Calls.{bytes_bytes_to_bytes, bytes_bytes_from_bytes}
use ratnet.Router.Recent.{RecentBuffer}
use ratnet.Router.Route.{Settings, RouterNode, route}
use ratnet.Router.Route.Keeps.{NodeKeeps, Beside, route-Keeps}
use ratnet.Node.{Crypto, World, Node, Opened}
use ratnet.Node.Admin.{Step, cid, get_channel, found}
use ratnet.Node.Profiles.{get_profiles}
use ratnet.Node.Sending.{
  enqueue, enqueue_encrypted, send_whole_msg, send_within, send_with, chunk_sender, send_cut,
  send_msg, decoded, message_to, contact_key, channel_key, key_or, send, send_channel, forward,
}
use ratnet.Node.Receiving.{
  on_store, put_out, handle_opened, clear_msg, key_for, handle_with, handle, router_node, and_on,
  route_all, route_read, dropoff_opened, dropoff, bundle_of, pack, pickup,
}

-- Properties of a node that survive a change of the stored streams, a look at the clock, and a new
-- message in the outbox with the present time.
pub record MailClosed {Pub Priv : Type 0} (world : World) (I : Node Pub Priv → Type 0)
    : Type 0 where
  pub store_closed :
      (n : Node Pub Priv) (store : Streams Pub) → I n → I (record n { store = store })
  pub tick_closed : (n : Node Pub Priv) → I n → I (record n { ticks = suc n.ticks })
  pub queue_closed :
      (n : Node Pub Priv) (mail : OutboxMsg)
      → mail.time_stamp ≡ world.now n.ticks
      → I n
      → I (record n { outbox = append n.outbox mail; ticks = suc n.ticks })

module _ {S Pub : Type 0} (node : ChunkNode S Pub) (I : S → Type 0)
    (k : (m : Msg Pub) → Keeps I (node.send_msg m)) where
  send_piece-Keeps :
      (m : Msg Pub) (id : Bytes) (i : ℕ) (o : Option Bytes) → Keeps I (send_piece node m id i o)
  unfolding send_piece
  send_piece-Keeps m id i none s h = h
  send_piece-Keeps m id i (some piece) s h = k _ s h

  send_whole-Keeps :
      (m : Msg Pub) (id : Bytes) (size n i : ℕ) → Keeps I (send_whole node m id size n i)
  unfolding send_whole
  send_whole-Keeps m id size zero i s h = h
  send_whole-Keeps m id size (suc n) i s h =
      then-Keeps I (send_piece node m id i _) (send_whole node m id size n (suc i))
        (send_piece-Keeps m id i _) (send_whole-Keeps m id size n (suc i)) s h

  send_rest-Keeps :
      (m : Msg Pub) (id : Bytes) (size whole n : ℕ) → Keeps I (send_rest node m id size whole n)
  unfolding send_rest
  send_rest-Keeps m id size whole zero s h = h
  send_rest-Keeps m id size whole (suc n) s h = send_piece-Keeps m id whole _ s h

  send_stream-Keeps :
      (o : Option Bytes) (m : Msg Pub) (size whole n t : ℕ)
      → Keeps I (send_stream node o m size whole n t)
  unfolding send_stream
  send_stream-Keeps none m size whole n t s h = h
  send_stream-Keeps (some id) m size whole n t s h =
      then-Keeps I (node.send_msg _) _ (k _)
        (then-Keeps I (send_whole node m id size whole 0) (send_rest node m id size whole n)
          (send_whole-Keeps m id size whole 0) (send_rest-Keeps m id size whole n))
        s h

  send_chunked-Keeps : (o : Option Bytes) (c : ℕ) (m : Msg Pub) → Keeps I (send_chunked node o c m)
  unfolding send_chunked
  send_chunked-Keeps o c m s h =
      let size = u32 (c + 4294967288) in
      let whole = u32 (length m.content) / size in
      let remainder = u32 (length m.content) % size in
      let total = if remainder == 0 then whole else suc whole in
      let stream = send_stream node o m size whole remainder total in
      if-Keeps I (size == 0) panic (if u32 (whole + remainder) == 0 then pure tt else stream)
        (λ s h. h)
        (if-Keeps I (u32 (whole + remainder) == 0) (pure tt) stream (λ s h. h)
          (send_stream-Keeps o m size whole remainder total))
        s h

module _ {Pub Priv : Type 0} (crypto : Crypto Pub Priv) (world : World) (I : Node Pub Priv → Type 0)
    (c : MailClosed world I) where
  enqueue-Keeps : (m : Msg Pub) (content : Bytes) → Keeps I (enqueue crypto world m content)
  unfolding enqueue
  enqueue-Keeps m content n i = c.queue_closed n _ refl i

  enqueue_encrypted-Keeps :
      (m : Msg Pub) (o : Option Bytes) → Keeps I (enqueue_encrypted crypto world m o)
  unfolding enqueue_encrypted
  enqueue_encrypted-Keeps m none n i = i
  enqueue_encrypted-Keeps m (some content) n i = enqueue-Keeps m content n i

  send_whole_msg-Keeps : (m : Msg Pub) → Keeps I (send_whole_msg crypto world m)
  unfolding send_whole_msg
  send_whole_msg-Keeps m n i = enqueue_encrypted-Keeps m _ n i

  send_within-Keeps :
      (cutter : ℕ → Msg Pub → Step crypto Unit) (m : Msg Pub) (o : Outcome ℕ)
      → ((size : ℕ) → Keeps I (cutter size m))
      → Keeps I (send_within crypto world cutter m o)
  unfolding send_within
  send_within-Keeps cutter m (returned size) k n i =
      let long = ltb 0 (length m.content) && ltb size (u32 (length m.content)) in
      let cut = if m.chunked then fail Failure.already_chunked else cutter size m in
      if-Keeps I long cut (send_whole_msg crypto world m)
        (if-Keeps I m.chunked (fail Failure.already_chunked) (cutter size m) (λ n i. i) (k size))
        (send_whole_msg-Keeps m) n i
  send_within-Keeps cutter m (failed e) k n i = i
  send_within-Keeps cutter m panicked k n i = i

  chunk_sender-Keeps : (m : Msg Pub) → Keeps I ((chunk_sender crypto world).send_msg m)
  unfolding chunk_sender send_with
  chunk_sender-Keeps m n i = send_within-Keeps _ m (chunk_size n.limits) (λ size n' i'. i') n i

  send_cut-Keeps : (size : ℕ) (m : Msg Pub) → Keeps I (send_cut crypto world size m)
  unfolding send_cut
  send_cut-Keeps size m n i =
      send_chunked-Keeps (chunk_sender crypto world) I chunk_sender-Keeps _ size m _
        (c.tick_closed n i)

  pub send_msg-Keeps : (m : Msg Pub) → Keeps I (send_msg crypto world m)
  unfolding send_msg send_with
  send_msg-Keeps m n i =
      send_within-Keeps (send_cut crypto world) m (chunk_size n.limits)
        (λ size. send_cut-Keeps size m) n i

  pub found-Keeps :
      {A B : Type 0} (e : Failure) (o : Option A) (f : A → Step crypto B) (n : Node Pub Priv)
      → I n
      → ((a : A) → Keeps I (f a))
      → I (continue (found e o n) f).1
  unfolding found
  found-Keeps e none f n i h = i
  found-Keeps e (some a) f n i h = h a n i

  decoded-Keeps : (o : Option Pub) → Keeps I (decoded crypto world o)
  unfolding decoded
  decoded-Keeps none n i = i
  decoded-Keeps (some k) n i = i

  contact_key-Keeps : (name : Bytes) → Keeps I (contact_key crypto world name)
  unfolding contact_key
  contact_key-Keeps name n i = found-Keeps _ (lookup name n.contacts) _ n i (λ c. decoded-Keeps _)

  channel_key-Keeps : (name : Bytes) → Keeps I (channel_key crypto world name)
  unfolding channel_key
  channel_key-Keeps name n i = found-Keeps _ (lookup name n.channels) _ n i (λ c n i. i)

  key_or-Keeps :
      (o : Option Pub) (stored : Step crypto Pub)
      → Keeps I stored
      → Keeps I (key_or crypto world o stored)
  unfolding key_or
  key_or-Keeps none stored k n i = k n i
  key_or-Keeps (some key) stored k n i = i

  pub send-Keeps :
      (name content : Bytes) (o : Option Pub) → Keeps I (send crypto world name content o)
  unfolding send
  send-Keeps name content o =
      bind-Keeps I (key_or crypto world o (contact_key crypto world name)) _
        (key_or-Keeps o _ (contact_key-Keeps name))
        λ key. send_msg-Keeps (message_to crypto world name content false key)

  pub send_channel-Keeps :
      (name content : Bytes) (o : Option Pub) → Keeps I (send_channel crypto world name content o)
  unfolding send_channel
  send_channel-Keeps name content o =
      bind-Keeps I (key_or crypto world o (channel_key crypto world name)) _
        (key_or-Keeps o _ (channel_key-Keeps name))
        λ key. send_msg-Keeps (message_to crypto world name content true key)

  pub forward-Keeps : (m : Msg Pub) → Keeps I (forward crypto world m)
  unfolding forward
  forward-Keeps m = enqueue-Keeps m m.content
