-- ===== src/Node/Served.antt =====
-- The node in memory as remote calls see it: AdminRPC and PublicRPC of nodes/ram/ramnode.go.
pub mod Keeps
mod Runs
pub mod Tables
pub mod WellFormed
pub mod Reachable
use ratnet.Prelude.{ℕ, suc, Bool, Option, some, List, Bytes}
use ratnet.Go.{Outcome, Action, pure, ◌>>=◌}
use ratnet.Wire.Value.{PubKey, KeyCodec}
use ratnet.Router.Recent.{RecentBuffer}
use ratnet.Router.Route.{Settings}
use ratnet.Node.{Crypto, World, Node}
use ratnet.Node.Admin.{
  cid, id, get_contact, get_contacts, add_contact, delete_contact, get_channel, get_channels,
  add_channel, delete_channel,
}
use ratnet.Node.Profiles.{
  get_profile, get_profiles, add_profile, delete_profile, load_profile, get_peer, get_peers,
  add_peer, delete_peer,
}
use ratnet.Node.Sending.{send, send_channel}
use ratnet.Node.Receiving.{dropoff, pickup}
use ratnet.Rpc.{NodeApi}

module _ {Pub Priv : Type 0} where
  -- An operation that does not use the router.
  unfoldable pub on_node :
      {A : Type 0} → Action (Node Pub Priv) A → Action (RecentBuffer × Node Pub Priv) A
  on_node act (recent, node) = let (o, node') = act node in (o, (recent, node'))

  -- What is found is a pointer that is not nil.
  unfoldable pub present :
      {A : Type 0} → Action (Node Pub Priv) A → Action (RecentBuffer × Node Pub Priv) (Option A)
  unfolding on_node
  present act = on_node (act >>= λ a. pure (some a))

  -- `GenerateKey` asks the random source for a key.
  unfoldable pub add_profile_now :
      Crypto Pub Priv → (ℕ → Priv) → Bytes → Bool → Action (Node Pub Priv) Unit
  unfolding add_profile
  add_profile_now crypto generate name enabled node =
      add_profile crypto (generate node.ticks) name enabled (record node { ticks = suc node.ticks })

-- `is_nil` is the test of a key against the nil key, and `generate` makes the keys of new profiles.
module _ {Priv Ecc Rsa : Type 0} (crypto : Crypto (PubKey Ecc Rsa) Priv) (world : World)
    (codec : KeyCodec Ecc Rsa) (is_nil : PubKey Ecc Rsa → Bool) (generate : ℕ → Priv)
    (r : Settings) where
  abbrev pub State : Type 0
  State = RecentBuffer × Node (PubKey Ecc Rsa) Priv

  unfoldable pub served : NodeApi State Ecc Rsa
  unfolding on_node present add_profile_now cid id get_contact get_contacts add_contact
      delete_contact get_channel get_channels add_channel delete_channel get_profile get_profiles
      delete_profile load_profile get_peer get_peers add_peer delete_peer send send_channel dropoff
      pickup
  served = record {
    nil_key = is_nil;
    id = on_node (id crypto);
    dropoff = dropoff crypto world codec r;
    pickup =
        λ key last max_bytes names. on_node (pickup crypto world codec key last max_bytes names);
    cid = on_node (cid crypto);
    get_contact = λ name. present (get_contact crypto name);
    get_contacts = on_node (get_contacts crypto);
    add_contact = λ name key. on_node (add_contact crypto name key);
    delete_contact = λ name. on_node (delete_contact crypto name);
    get_channel = λ name. present (get_channel crypto name);
    get_channels = on_node (get_channels crypto);
    add_channel = λ name key. on_node (add_channel crypto name key);
    delete_channel = λ name. on_node (delete_channel crypto name);
    get_profile = λ name. present (get_profile crypto name);
    get_profiles = on_node (get_profiles crypto);
    add_profile = λ name enabled. on_node (add_profile_now crypto generate name enabled);
    delete_profile = λ name. on_node (delete_profile crypto name);
    load_profile = λ name. present (load_profile crypto name);
    get_peer = λ name. present (get_peer crypto name);
    get_peers = λ group. on_node (get_peers crypto group);
    add_peer = λ name enabled uri group. on_node (add_peer crypto name enabled uri group);
    delete_peer = λ name. on_node (delete_peer crypto name);
    send = λ name content key. on_node (send crypto world name content key);
    send_channel = λ name content key. on_node (send_channel crypto world name content key);
  }
