-- ===== src/Node/Receiving.antt =====
-- Receiving: Handle of nodes/ram/internal.go, and Dropoff and Pickup of nodes/ram/public.go.
use ratnet.Prelude.{
  ℕ, suc, Bool, true, false, Option, some, none, List, [], ◌∷◌, ◌++◌, length, ltb, Bytes, bytes_eq,
  lookup, if◌then◌else◌,
}
use ratnet.Go.{Failure, Outcome, returned, failed, panicked, Action, pure, fail, panic, ◌>>=◌, ◌>>◌}
use ratnet.Api.{Msg}
use ratnet.Wire.Read.{Result, ok, err}
use ratnet.Wire.Value.{Bundle, KeyCodec}
use ratnet.Wire.Calls.{bytes_bytes_to_bytes, bytes_bytes_from_bytes}
use ratnet.Outbox.{msgs_since}
use ratnet.Chunking.{handle_chunked}
use ratnet.Streams.{Streams, receiver, out_buffer_size}
use ratnet.Router.Recent.{RecentBuffer}
use ratnet.Router.Route.{Settings, RouterNode, route}
use ratnet.Node.{Crypto, World, Node}
use ratnet.Node.Admin.{Step, cid, get_channel}
use ratnet.Node.Profiles.{get_profiles}
use ratnet.Node.Sending.{forward}

-- "[content]"
abbrev pub content_name : Bytes
content_name = 91 ∷ 99 ∷ 111 ∷ 110 ∷ 116 ∷ 101 ∷ 110 ∷ 116 ∷ 93 ∷ []

module _ {Pub Priv : Type 0} (crypto : Crypto Pub Priv) where
  unfoldable pub on_store : {A : Type 0} → Action (Streams Pub) A → Step crypto A
  on_store act node = let (o, store) = act node.store in (o, record node { store = store })

  -- The send on `Out`, which does not block.
  unfoldable pub put_out : Msg Pub → Step crypto Unit
  put_out m node =
      if ltb (length node.store.out) out_buffer_size
      then (
        returned tt,
        record node { store = record node.store { out = node.store.out ++ m ∷ [] } },
      )
      else (returned tt, node)

  -- The message in the clear.
  unfoldable pub clear_msg : Msg Pub → Bytes → Msg Pub
  clear_msg m content = record {
    name = if m.is_chan then m.name else content_name;
    content = content;
    is_chan = m.is_chan;
    pub_key = none;
    chunked = m.chunked;
    stream_header = m.stream_header;
  }

  -- Where a message has an error, what `Handle` says of its tag is not read.
  unfoldable pub handle_opened : Msg Pub → Bool → Option Bytes → Step crypto Bool
  unfolding clear_msg on_store put_out handle_chunked
  handle_opened m tag none = fail Failure.from_crypto
  handle_opened m false (some content) = pure false
  handle_opened m true (some content) =
      if m.chunked
      then (on_store (handle_chunked receiver (clear_msg m content)) >> pure true)
      else (put_out (clear_msg m content) >> pure true)

  -- The key that opens a message.
  unfoldable pub key_for : Msg Pub → Node Pub Priv → Option Priv
  unfolding lookup
  key_for m node =
      if m.is_chan
      then elim (lookup m.name node.channels) as (λ _. Option Priv) [
        | none ↦ none
        | some c ↦ some c.privkey
      ]
      else some node.content_key

  unfoldable pub handle_with : Msg Pub → Option Priv → Step crypto Bool
  unfolding handle_opened
  handle_with m none = fail Failure.unknown_channel
  handle_with m (some key) =
      let opened = crypto.decrypt key m.content in handle_opened m opened.tag_ok opened.clear

  unfoldable pub handle : Msg Pub → Step crypto Bool
  unfolding handle_with key_for
  handle m node = handle_with m (key_for m node) node

  module _ (world : World) where
    -- The node as its router sees it.
    unfoldable pub router_node : RouterNode (Node Pub Priv) Pub
    unfolding cid get_channel get_profiles handle forward
    router_node = record {
      cid = cid crypto;
      get_channel = λ name. get_channel crypto name >>= λ c. pure c.pubkey;
      get_profiles = get_profiles crypto;
      handle = handle;
      forward = forward crypto world;
    }

    -- An error of the router is dropped.
    unfoldable pub and_on :
        {S : Type 0} → Outcome (Unit {0}) × S → Action S Unit → Outcome (Unit {0}) × S
    and_on (returned u, s) next = next s
    and_on (failed e, s) next = next s
    and_on (panicked, s) next = (panicked, s)

    unfoldable pub route_all : Settings → List Bytes → Action (RecentBuffer × Node Pub Priv) Unit
    unfolding and_on router_node route
    route_all r [] s = (returned tt, s)
    route_all r (m ∷ ms) s =
        let skip = route_all r ms s in
        let next = route_all r ms in
        if ltb (length m) 16 then skip else and_on (route r router_node m s) next

    unfoldable pub route_read :
        Settings → Result (List Bytes) → Action (RecentBuffer × Node Pub Priv) Unit
    unfolding route_all
    route_read r (ok ms) = route_all r ms
    route_read r (err e) = fail (Failure.from_wire e)
    route_read r Result.panic = panic
    route_read r Result.out_of_fuel = panic

    module _ {Ecc Rsa : Type 0} (codec : KeyCodec Ecc Rsa) where
      unfoldable pub dropoff_opened :
          Settings → Bool → Option Bytes → Action (RecentBuffer × Node Pub Priv) Unit
      unfolding route_read bytes_bytes_from_bytes
      dropoff_opened r tag none = fail Failure.from_crypto
      dropoff_opened r false (some bs) = fail Failure.tag_check_failed
      dropoff_opened r true (some bs) = route_read r (bytes_bytes_from_bytes codec bs)

      unfoldable pub dropoff : Settings → Bundle → Action (RecentBuffer × Node Pub Priv) Unit
      unfolding dropoff_opened
      dropoff r bundle (recent, node) =
          let opened = crypto.decrypt node.routing_key bundle.payload in
          if ltb (length bundle.payload) 1
          then (failed Failure.no_data, (recent, node))
          else dropoff_opened r opened.tag_ok opened.clear (recent, node)

      unfoldable pub bundle_of : ℕ → Option Bytes → Step crypto Bundle
      bundle_of time none = fail Failure.from_crypto
      bundle_of time (some cipher) = pure (record { payload = cipher; time = time })

      unfoldable pub pack : Pub → Outcome (List Bytes × ℕ) → Step crypto Bundle
      unfolding bundle_of bytes_bytes_to_bytes
      pack rpub (returned ([], t)) node = (returned (record { payload = []; time = t }), node)
      pack rpub (returned (m ∷ ms, t)) node =
          let cipher =
            crypto.encrypt node.ticks node.routing_key (bytes_bytes_to_bytes codec (m ∷ ms))
              (some rpub) in
          bundle_of t cipher (record node { ticks = suc node.ticks })
      pack rpub (failed e) node = (failed e, node)
      pack rpub panicked node = (panicked, node)

      -- `max_bytes` is 0 where there is no limit.
      unfoldable pub pickup : Pub → ℕ → ℕ → List Bytes → Step crypto Bundle
      unfolding pack msgs_since
      pickup rpub last_time max_bytes names node =
          pack rpub (msgs_since node.outbox last_time max_bytes names) node
