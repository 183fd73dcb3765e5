-- ===== src/Node/Served/Tables.antt =====
-- What calls from the open network cannot change.
use ratnet.Prelude.{ℕ, Bool, List, Bytes, ◌≡◌, refl, Map}
use ratnet.Api.{ChannelPriv, ProfilePriv}
use ratnet.Wire.Value.{PubKey, KeyCodec, Contact, Peer}
use ratnet.Wire.Calls.{RemoteCall}
use ratnet.Router.Route.{Settings}
use ratnet.Rpc.{public_rpc}
use ratnet.Node.{Crypto, World, Node}
use ratnet.Node.Keeps.{MailClosed}
use ratnet.Node.Served.{State, served}
use ratnet.Node.Served.Keeps.{public_rpc-Keeps}

-- The keys and the tables of a node.
pub record Tables (Priv : Type 0) : Type 0 where
  pub content_key : Priv
  pub routing_key : Priv
  pub channels : Map Bytes (ChannelPriv Priv)
  pub contacts : Map Bytes Contact
  pub peers : Map Bytes Peer
  pub profiles : Map Bytes (ProfilePriv Priv)
  pub limits : List ℕ

abbrev pub tables : {Pub Priv : Type 0} → Node Pub Priv → Tables Priv
tables n = record {
  content_key = n.content_key;
  routing_key = n.routing_key;
  channels = n.channels;
  contacts = n.contacts;
  peers = n.peers;
  profiles = n.profiles;
  limits = n.limits;
}

tables-MailClosed :
    {Pub Priv : Type 0} (world : World) (t : Tables Priv)
    → MailClosed {Pub = Pub} world (λ n. tables n ≡ t)
tables-MailClosed world t = record {
  store_closed = λ n store i. i;
  tick_closed = λ n i. i;
  queue_closed = λ n mail e i. i;
}

module _ {Priv Ecc Rsa : Type 0} (crypto : Crypto (PubKey Ecc Rsa) Priv) (world : World)
    (codec : KeyCodec Ecc Rsa) (is_nil : PubKey Ecc Rsa → Bool) (generate : ℕ → Priv)
    (r : Settings) where
  -- A public call, whatever its number and its arguments, and whatever messages it brings, leaves the
  -- keys, contacts, channels, peers, profiles and policies of the node as they were.
  pub public_rpc_keeps_tables :
      (byte_limit : ℕ) (call : RemoteCall Ecc Rsa) (s : State crypto world codec is_nil generate r)
      → tables (public_rpc (served crypto world codec is_nil generate r) byte_limit call s).1.1
        ≡ tables s.1
  public_rpc_keeps_tables byte_limit call s =
      public_rpc-Keeps crypto world codec is_nil generate r (λ n. tables n ≡ tables s.1)
        (tables-MailClosed world (tables s.1)) byte_limit call s refl
