-- ===== src/Node/Laws.antt =====
-- What the operations of a node do to one another.
use ratnet.Prelude.{
  ◌<◌, ◌≡◌, refl, ap, ◌∙◌, Bool, true, false, some, none, [], ◌∷◌, ◌++◌, length, ltb, Bytes,
  bytes_eq, lookup, insert, lookup_inserted, if◌then◌else◌, lt→ltb,
}
use ratnet.Go.{Failure, returned, failed, panicked}
use ratnet.Api.{Msg, name_prefix, rx_sum}
use ratnet.Outbox.{append}
use ratnet.Streams.{out_buffer_size}
use ratnet.Router.Route.{parse}
use ratnet.Router.Route.Header.{read_msg, parse-rx_sum}
use ratnet.Node.{Crypto, World, Node}
use ratnet.Node.Admin.{channel_of, put_channel, add_channel}
use ratnet.Node.Profiles.{load_found, load_profile, add_profile}
use ratnet.Node.Sending.{enqueue_encrypted, send_whole_msg, forward}
use ratnet.Node.Receiving.{handle, key_for, handle_with, handle_opened, put_out, clear_msg}

-- The bytes that a message has in transit.
abbrev pub transit : {Pub : Type 0} → Msg Pub → Bytes → Bytes
transit m content = rx_sum m ++ content

named_twice :
    (b : Bool) (name : Bytes)
    → (if b then (if b then name else []) else []) ≡ (if b then name else [])
named_twice true name = refl
named_twice false name = refl

name_prefix_twice :
    (b : Bool) (name : Bytes) → name_prefix b (if b then name else []) ≡ name_prefix b name
unfolding name_prefix
name_prefix_twice true name = refl
name_prefix_twice false name = refl

module _ {Pub Priv : Type 0} (crypto : Crypto Pub Priv) (world : World) where
  -- A message that is not chunked, in the clear.
  handle_opened_plain :
      (m : Msg Pub) (content : Bytes) (node : Node Pub Priv)
      → m.chunked ≡ false
      → length node.store.out < out_buffer_size
      → handle_opened crypto m true (some content) node ≡ (
        returned true,
        record node {
          store = record node.store { out = node.store.out ++ clear_msg crypto m content ∷ [] };
        },
      )
  unfolding handle_opened put_out
  handle_opened_plain m content node plain room =
      let fits : ltb (length node.store.out) out_buffer_size ≡ true = lt→ltb _ _ room in
      rw (plain, fits)

  -- A message that `SendMsg` puts in the outbox, once a router has read it there, is handled by a
  -- node whose key opens it as the message that was sent: it is put on `Out`, where that has room,
  -- with the content in the clear. The message is not chunked; a channel's name is shorter than
  -- 65533 bytes.
  pub sent_is_handled :
      (m : Msg Pub) (sender receiver : Node Pub Priv) (content : Bytes) (key : Priv)
      → (m.is_chan ≡ true → length m.name < 65533)
      → m.chunked ≡ false
      → crypto.encrypt sender.ticks sender.content_key m.content m.pub_key ≡ some content
      → key_for crypto (read_msg m content) receiver ≡ some key
      → crypto.decrypt key content ≡ record { tag_ok = true; clear = some m.content }
      → length receiver.store.out < out_buffer_size
      → ((send_whole_msg crypto world m sender).1.outbox
          ≡ sender.outbox
            ++ record {
              channel = if m.is_chan then m.name else [];
              msg = transit m content;
              time_stamp = world.now sender.ticks;
            }
              ∷ [])
        × (parse {Pub = Pub} (transit m content)
            ≡ returned (record { msg = read_msg m content; idx = length (rx_sum m) }))
        × ((handle crypto (read_msg m content) receiver).0 ≡ returned true)
        × ((handle crypto (read_msg m content) receiver).1.store.out
            ≡ receiver.store.out ++ clear_msg crypto (read_msg m content) m.content ∷ [])
  unfolding send_whole_msg append handle
  sent_is_handled m sender receiver content key short plain enc k dec room =
      let read = read_msg m content in
      let handled =
        ap (λ o. handle_with crypto read o receiver) k
        ∙ ap (λ o. handle_opened crypto read o.tag_ok o.clear receiver) dec
        ∙ handle_opened_plain read m.content receiver plain room in
      (
        ap (λ o. (enqueue_encrypted crypto world m o sender).1.outbox) enc,
        parse-rx_sum m content short,
        ap (λ r. r.0) handled,
        ap (λ r. r.1.store.out) handled,
      )

  -- A message is forwarded as it came: read by the router and put in the outbox again, it has the
  -- same bytes.
  pub forward_transparent :
      (m : Msg Pub) (node : Node Pub Priv) (content : Bytes)
      → (m.is_chan ≡ true → length m.name < 65533)
      → (parse {Pub = Pub} (transit m content)
          ≡ returned (record { msg = read_msg m content; idx = length (rx_sum m) }))
        × ((forward crypto world (read_msg m content) node).1.outbox
            ≡ node.outbox
              ++ record {
                channel = if m.is_chan then m.name else [];
                msg = transit m content;
                time_stamp = world.now node.ticks;
              }
                ∷ [])
  unfolding forward append
  forward_transparent m node content short = (
    parse-rx_sum m content short,
    rw (named_twice m.is_chan m.name, name_prefix_twice m.is_chan m.name),
  )

module _ {Pub Priv : Type 0} (crypto : Crypto Pub Priv) where
  -- `LoadProfile` looks for the name among the channels. Where neither a channel nor a profile has
  -- the name: a profile of that name, once it is added, is not found, and a channel of that name,
  -- once it is added with a key that decodes, makes it panic.
  pub load_profile_added :
      (name key : Bytes) (fresh pk : Priv) (enabled : Bool) (node : Node Pub Priv)
      → lookup name node.channels ≡ none
      → lookup name node.profiles ≡ none
      → crypto.priv_from_b64 (crypto.clone node.content_key) key ≡ some pk
      → ((load_profile crypto name (add_profile crypto fresh name enabled node).1).0
          ≡ failed Failure.profile_not_found)
        × ((load_profile crypto name (add_channel crypto name key node).1).0 ≡ panicked)
  unfolding load_profile add_profile add_channel
  load_profile_added name key fresh pk enabled node no_channel no_profile decoded =
      let c = channel_of crypto name pk in
      let member : Node Pub Priv = record node { channels = insert name c node.channels } in
      let added = ap (λ o. put_channel crypto name o node) decoded in
      let hidden = (add_profile crypto fresh name enabled node).1 in
      (
        ap (λ o. (load_found crypto o (lookup name hidden.profiles) hidden).0) no_channel,
        ap (λ r. (load_profile crypto name r.1).0) added
            ∙ ap (λ o. (load_found crypto o (lookup name node.profiles) member).0)
                (lookup_inserted name c node.channels)
            ∙ ap (λ o. (load_found crypto (some c) o member).0) no_profile,
      )
