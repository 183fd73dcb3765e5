-- ===== src/Node/Admin.antt =====
-- The contacts and channels of a node: nodes/ram/admin.go, and
-- `GetChannelPrivKey` of nodes/ram/internal.go. What a map holds is listed in the order it came; Go's
-- order is open.
use ratnet.Prelude.{
  not, Option, some, none, List, [], ◌∷◌, Bytes, bytes_eq, Map, lookup, insert, delete,
  if◌then◌else◌,
}
use ratnet.Go.{Failure, Outcome, returned, failed, Action, pure, fail, continue}
use ratnet.Api.{ChannelPriv}
use ratnet.Wire.Value.{Contact, Channel}
use ratnet.Node.{Crypto, Node}

-- The first of optional arguments; without one it is "".
unfoldable pub group_name : List Bytes → Bytes
group_name [] = []
group_name (g ∷ gs) = g

unfoldable pub found : {S V : Type 0} → Failure → Option V → Action S V
found e none = fail e
found e (some v) = pure v

-- The change is made where the key was found.
unfoldable pub if_found : {S V : Type 0} → Failure → Option V → S → S → Outcome (Unit {0}) × S
if_found e none before after = (failed e, before)
if_found e (some v) before after = (returned tt, after)

module _ {Pub Priv : Type 0} (crypto : Crypto Pub Priv) where
  abbrev pub Step : Type 0 → Type 0
  Step A = Action (Node Pub Priv) A

  unfoldable pub cid : Step Pub
  cid node = (returned (crypto.get_pub node.content_key), node)

  unfoldable pub id : Step Pub
  id node = (returned (crypto.get_pub node.routing_key), node)

  unfoldable pub get_contact : Bytes → Step Contact
  unfolding found lookup
  get_contact name node =
      continue (found Failure.contact_not_found (lookup name node.contacts) node)
        (λ c. pure (record { name = name; pubkey = c.pubkey }))

  contacts_of : Map Bytes Contact → List Contact
  contacts_of [] = []
  contacts_of ((k, c) ∷ m) = c ∷ contacts_of m

  unfoldable pub get_contacts : Step (List Contact)
  unfolding contacts_of
  get_contacts node = (returned (contacts_of node.contacts), node)

  unfoldable pub add_contact : Bytes → Bytes → Step Unit
  unfolding insert
  add_contact name key node =
      if not (crypto.validate_pub_key node.content_key key)
      then (failed Failure.invalid_public_key, node)
      else (
        returned tt,
        record node { contacts = insert name (record { name = name; pubkey = key }) node.contacts },
      )

  unfoldable pub delete_contact : Bytes → Step Unit
  unfolding if_found lookup delete
  delete_contact name node =
      if_found Failure.contact_not_found (lookup name node.contacts) node
        (record node { contacts = delete name node.contacts })

  unfoldable pub get_channel : Bytes → Step Channel
  unfolding found lookup
  get_channel name node =
      continue (found Failure.channel_not_found (lookup name node.channels) node)
        (λ c. pure (record { name = name; pubkey = c.pubkey }))

  channels_of : Map Bytes (ChannelPriv Priv) → List Channel
  channels_of [] = []
  channels_of ((k, c) ∷ m) = record { name = c.name; pubkey = c.pubkey } ∷ channels_of m

  unfoldable pub get_channels : Step (List Channel)
  unfolding channels_of
  get_channels node = (returned (channels_of node.channels), node)

  unfoldable pub get_channel_priv_key : Bytes → Step Bytes
  unfolding found lookup
  get_channel_priv_key name node =
      continue (found Failure.channel_not_found (lookup name node.channels) node)
        (λ c. pure (crypto.priv_to_b64 c.privkey))

  -- The key's pair, as a channel.
  unfoldable pub channel_of : Bytes → Priv → ChannelPriv Priv
  channel_of name pk = record {
    name = name;
    pubkey = crypto.pub_to_b64 (crypto.get_pub pk);
    privkey = pk;
  }

  unfoldable pub put_channel : Bytes → Option Priv → Step Unit
  unfolding insert channel_of
  put_channel name none node = (failed Failure.invalid_channel_key, node)
  put_channel name (some pk) node =
      (returned tt, record node { channels = insert name (channel_of name pk) node.channels })

  unfoldable pub add_channel : Bytes → Bytes → Step Unit
  unfolding put_channel
  add_channel name privkey node =
      put_channel name (crypto.priv_from_b64 (crypto.clone node.content_key) privkey) node

  unfoldable pub delete_channel : Bytes → Step Unit
  unfolding if_found lookup delete
  delete_channel name node =
      if_found Failure.channel_not_found (lookup name node.channels) node
        (record node { channels = delete name node.channels })
