-- ===== src/Node/Profiles.antt =====
-- The profiles and peers of a node: nodes/ram/admin.go.
use ratnet.Prelude.{
  Bool, Option, some, none, List, [], ◌∷◌, Bytes, bytes_beq, bytes_eq, Map, lookup, insert, delete,
  if◌then◌else◌,
}
use ratnet.Go.{Failure, returned, panicked, pure, fail, continue}
use ratnet.Api.{ChannelPriv, ProfilePriv}
use ratnet.Wire.Value.{Profile, Peer}
use ratnet.Node.{Crypto}
use ratnet.Node.Admin.{Step, found, if_found, group_name}

module _ {Pub Priv : Type 0} (crypto : Crypto Pub Priv) where
  -- What others see of a profile.
  unfoldable pub profile_of : Bytes → ProfilePriv Priv → Profile
  profile_of name p = record {
    name = name;
    enabled = p.enabled;
    pubkey = crypto.pub_to_b64 (crypto.get_pub p.privkey);
  }

  unfoldable pub get_profile : Bytes → Step crypto Profile
  unfolding found lookup profile_of
  get_profile name node =
      continue (found Failure.profile_not_found (lookup name node.profiles) node)
        (λ p. pure (profile_of name p))

  profiles_of : Map Bytes (ProfilePriv Priv) → List Profile
  unfolding profile_of
  profiles_of [] = []
  profiles_of ((k, p) ∷ m) = profile_of k p ∷ profiles_of m

  unfoldable pub get_profiles : Step crypto (List Profile)
  unfolding profiles_of
  get_profiles node = (returned (profiles_of node.profiles), node)

  -- A new profile has the key that `GenerateKey` makes, here `fresh`; one that is there already gets
  -- the clone of the content key.
  unfoldable pub add_profile : Priv → Bytes → Bool → Step crypto Unit
  unfolding lookup insert
  add_profile fresh name enabled node =
      let key = elim (lookup name node.profiles) as (λ _. Priv) [
        | none ↦ fresh
        | some p ↦ crypto.clone node.content_key
      ] in
      (
        returned tt,
        record node {
          profiles =
              insert name (record { name = name; enabled = enabled; privkey = key }) node.profiles;
        },
      )

  unfoldable pub delete_profile : Bytes → Step crypto Unit
  unfolding if_found lookup delete
  delete_profile name node =
      if_found Failure.profile_not_found (lookup name node.profiles) node
        (record node { profiles = delete name node.profiles })

  -- `node.profiles[name].Privkey`, which panics where there is no such profile.
  unfoldable pub load_key : Option (ProfilePriv Priv) → Step crypto Pub
  load_key none node = (panicked, node)
  load_key (some p) node =
      (returned (crypto.get_pub p.privkey), record node { content_key = p.privkey })

  unfoldable pub load_found :
      Option (ChannelPriv Priv) → Option (ProfilePriv Priv) → Step crypto Pub
  unfolding load_key
  load_found none p = fail Failure.profile_not_found
  load_found (some c) p = load_key p

  -- The name is looked for among the channels.
  unfoldable pub load_profile : Bytes → Step crypto Pub
  unfolding lookup load_found
  load_profile name node = load_found (lookup name node.channels) (lookup name node.profiles) node

  unfoldable pub get_peer : Bytes → Step crypto Peer
  unfolding found lookup
  get_peer name node =
      continue (found Failure.peer_not_found (lookup name node.peers) node)
        (λ p. pure (record { name = name; enabled = p.enabled; uri = p.uri; group = p.group }))

  peers_of : Bytes → Map Bytes Peer → List Peer
  peers_of group [] = []
  peers_of group ((k, p) ∷ m) =
      let rest = peers_of group m in
      if bytes_beq p.group group then record p { group = group } ∷ rest else rest

  unfoldable pub get_peers : List Bytes → Step crypto (List Peer)
  unfolding peers_of group_name
  get_peers group node = (returned (peers_of (group_name group) node.peers), node)

  unfoldable pub add_peer : Bytes → Bool → Bytes → List Bytes → Step crypto Unit
  unfolding insert group_name
  add_peer name enabled uri group node =
      let peer : Peer = record {
        name = name;
        enabled = enabled;
        uri = uri;
        group = group_name group;
      } in
      (returned tt, record node { peers = insert name peer node.peers })

  unfoldable pub delete_peer : Bytes → Step crypto Unit
  unfolding if_found lookup delete
  delete_peer name node =
      if_found Failure.peer_not_found (lookup name node.peers) node
        (record node { peers = delete name node.peers })
