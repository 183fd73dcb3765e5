-- ===== src/Node/Keeps/Receiving.antt =====
-- What the operations that receive leave of the node in memory.
use ratnet.Prelude.{
  ℕ, Bool, true, false, Option, none, some, List, [], ◌∷◌, length, ltb, Bytes, lookup, bytes_eq,
}
use ratnet.Go.{Outcome, returned, failed, panicked, Action, pure, ◌>>◌}
use ratnet.Go.Keeps.{Keeps, bind-Keeps, then-Keeps, if-Keeps, if-holds}
use ratnet.Api.{Msg}
use ratnet.Outbox.{msgs_since}
use ratnet.Streams.{Streams, receiver, out_buffer_size}
use ratnet.Chunking.{handle_chunked}
use ratnet.Wire.Read.{Result, ok}
use ratnet.Wire.Value.{Bundle, KeyCodec}
use ratnet.Wire.Calls.{bytes_bytes_from_bytes}
use ratnet.Router.Recent.{RecentBuffer}
use ratnet.Router.Route.{Settings, route}
use ratnet.Router.Route.Keeps.{NodeKeeps, route-Keeps}
use ratnet.Node.{Crypto, World, Node}
use ratnet.Node.Admin.{cid, get_channel}
use ratnet.Node.Profiles.{get_profiles}
use ratnet.Node.Receiving.{
  on_store, put_out, handle_opened, clear_msg, key_for, handle_with, handle, router_node, and_on,
  route_all, route_read, dropoff_opened, dropoff, bundle_of, pack, pickup,
}
use ratnet.Node.Keeps.{MailClosed, forward-Keeps, found-Keeps}

module _ {Pub Priv : Type 0} (crypto : Crypto Pub Priv) (world : World) (I : Node Pub Priv → Type 0)
    (c : MailClosed world I) where
  pub on_store-Keeps : {A : Type 0} (act : Action (Streams Pub) A) → Keeps I (on_store crypto act)
  unfolding on_store
  on_store-Keeps act n i = c.store_closed n (act n.store).1 i

  put_out-Keeps : (m : Msg Pub) → Keeps I (put_out crypto m)
  unfolding put_out
  put_out-Keeps m n i =
      if-holds {T = Outcome (Unit {0}) × Node Pub Priv} (λ o. I o.1)
        (ltb (length n.store.out) out_buffer_size) (c.store_closed n _ i) i

  handle_opened-Keeps :
      (m : Msg Pub) (tag : Bool) (o : Option Bytes) → Keeps I (handle_opened crypto m tag o)
  unfolding handle_opened
  handle_opened-Keeps m tag none n i = i
  handle_opened-Keeps m false (some content) n i = i
  handle_opened-Keeps m true (some content) n i =
      let clear = clear_msg crypto m content in
      let store = on_store crypto (handle_chunked receiver clear) in
      if-Keeps I m.chunked (store >> pure true) (put_out crypto clear >> pure true)
        (then-Keeps I store (pure true) (on_store-Keeps (handle_chunked receiver clear)) (λ n i. i))
        (then-Keeps I (put_out crypto clear) (pure true) (put_out-Keeps clear) (λ n i. i)) n i

  handle_with-Keeps : (m : Msg Pub) (o : Option Priv) → Keeps I (handle_with crypto m o)
  unfolding handle_with
  handle_with-Keeps m none n i = i
  handle_with-Keeps m (some key) n i = handle_opened-Keeps m _ _ n i

  pub handle-Keeps : (m : Msg Pub) → Keeps I (handle crypto m)
  unfolding handle
  handle-Keeps m n i = handle_with-Keeps m (key_for crypto m n) n i

  get_channel-Keeps : (name : Bytes) → Keeps I (get_channel crypto name)
  unfolding get_channel
  get_channel-Keeps name n i =
      found-Keeps crypto world I c _ (lookup name n.channels) _ n i (λ c n i. i)

  router_node-Keeps : NodeKeeps (router_node crypto world) I
  unfolding router_node cid get_profiles
  router_node-Keeps = record {
    cid_keeps = λ n i. i;
    get_channel_keeps = λ name.
        bind-Keeps I (get_channel crypto name) (λ c. pure c.pubkey) (get_channel-Keeps name)
          (λ c n i. i);
    get_profiles_keeps = λ n i. i;
    handle_keeps = handle-Keeps;
    forward_keeps = forward-Keeps crypto world I c;
  }

  module _ (r : Settings) where
    abbrev pub Whole : RecentBuffer × Node Pub Priv → Type 0
    Whole (recent, n) = I n

    and_on-Keeps :
        (o : Outcome (Unit {0}) × (RecentBuffer × Node Pub Priv))
        (next : Action (RecentBuffer × Node Pub Priv) Unit)
        → Whole o.1
        → Keeps Whole next
        → Whole (and_on crypto world o next).1
    unfolding and_on
    and_on-Keeps (returned u, s) next i k = k s i
    and_on-Keeps (failed e, s) next i k = k s i
    and_on-Keeps (panicked, s) next i k = i

    abbrev EndsWhole : Outcome (Unit {0}) × (RecentBuffer × Node Pub Priv) → Type 0
    EndsWhole (o, (recent, n)) = I n

    route_all-Keeps : (ms : List Bytes) → Keeps Whole (route_all crypto world r ms)
    unfolding route_all
    route_all-Keeps [] s i = i
    route_all-Keeps (m ∷ ms) s i = if-holds EndsWhole (ltb (length m) 16) (route_all-Keeps ms s i) (
        and_on-Keeps (route r (router_node crypto world) m s) (route_all crypto world r ms)
          (route-Keeps r (router_node crypto world) I router_node-Keeps m s i) (route_all-Keeps ms))

    route_read-Keeps : (o : Result (List Bytes)) → Keeps Whole (route_read crypto world r o)
    unfolding route_read
    route_read-Keeps (ok ms) s i = route_all-Keeps ms s i
    route_read-Keeps _ s i = i

    module _ {Ecc Rsa : Type 0} (codec : KeyCodec Ecc Rsa) where
      dropoff_opened-Keeps :
          (tag : Bool) (o : Option Bytes) → Keeps Whole (dropoff_opened crypto world codec r tag o)
      unfolding dropoff_opened
      dropoff_opened-Keeps tag none s i = i
      dropoff_opened-Keeps false (some bs) s i = i
      dropoff_opened-Keeps true (some bs) s i =
          route_read-Keeps (bytes_bytes_from_bytes codec bs) s i

      pub dropoff-Keeps : (b : Bundle) → Keeps Whole (dropoff crypto world codec r b)
      unfolding dropoff
      dropoff-Keeps b (recent, n) i =
          if-holds EndsWhole (ltb (length b.payload) 1) i (dropoff_opened-Keeps _ _ (recent, n) i)

  module _ {Ecc Rsa : Type 0} (codec : KeyCodec Ecc Rsa) where
    bundle_of-Keeps : (t : ℕ) (o : Option Bytes) → Keeps I (bundle_of crypto world codec t o)
    unfolding bundle_of
    bundle_of-Keeps t none n i = i
    bundle_of-Keeps t (some cipher) n i = i

    pack-Keeps :
        (rpub : Pub) (o : Outcome (List Bytes × ℕ)) → Keeps I (pack crypto world codec rpub o)
    unfolding pack
    pack-Keeps rpub (returned ([], t)) n i = i
    pack-Keeps rpub (returned (m ∷ ms, t)) n i = bundle_of-Keeps t _ _ (c.tick_closed n i)
    pack-Keeps rpub (failed e) n i = i
    pack-Keeps rpub panicked n i = i

    pub pickup-Keeps :
        (rpub : Pub) (last max_bytes : ℕ) (names : List Bytes)
        → Keeps I (pickup crypto world codec rpub last max_bytes names)
    unfolding pickup
    pickup-Keeps rpub last max_bytes names n i =
        pack-Keeps rpub (msgs_since n.outbox last max_bytes names) n i
