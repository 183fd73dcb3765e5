-- ===== src/Rpc/Admin.antt =====
-- `AdminRPC` of nodes/rpc.go.
pub mod Requests
pub mod Dispatch
pub mod Arguments
pub mod Refusals
use ratnet.Prelude.{
  ℕ, Bool, true, false, ◌||◌, Option, none, some, List, [], ◌∷◌, Bytes, bytes_beq, if◌then◌else◌,
}
use ratnet.Go.{Failure, Action, pure, fail, ◌>>=◌, ◌>>◌}
use ratnet.Wire.Value.{Value, Values, end, item, PubKey}
use ratnet.Wire.Calls.{RemoteCall}
use ratnet.Rpc.{
  NodeApi, Answer, with_one, with_two, with_three, with_string, with_bytes, with_key, done,
  public_rpc,
}
use ratnet.Rpc.Numbers.{Method, method_of}

-- `strconv.ParseBool`: "1", "t", "T", "TRUE", "true", "True", and the six for false.
unfoldable pub parse_bool : Bytes → Option Bool
parse_bool s =
    if bytes_beq s (49 ∷ [])
      || bytes_beq s (116 ∷ [])
      || bytes_beq s (84 ∷ [])
      || bytes_beq s (84 ∷ 82 ∷ 85 ∷ 69 ∷ [])
      || bytes_beq s (116 ∷ 114 ∷ 117 ∷ 101 ∷ [])
      || bytes_beq s (84 ∷ 114 ∷ 117 ∷ 101 ∷ [])
    then some true
    else if bytes_beq s (48 ∷ [])
        || bytes_beq s (102 ∷ [])
        || bytes_beq s (70 ∷ [])
        || bytes_beq s (70 ∷ 65 ∷ 76 ∷ 83 ∷ 69 ∷ [])
        || bytes_beq s (102 ∷ 97 ∷ 108 ∷ 115 ∷ 101 ∷ [])
        || bytes_beq s (70 ∷ 97 ∷ 108 ∷ 115 ∷ 101 ∷ [])
    then some false
    else none

-- Invalid argument
abbrev bad : Failure
bad = Failure.invalid_argument

-- A pointer that is nil is an answer of nil.
unfoldable pub or_nil : {Ecc Rsa A : Type 0} → (A → Value Ecc Rsa) → Option A → Value Ecc Rsa
or_nil f none = Value.nil
or_nil f (some a) = f a

module _ {S Ecc Rsa : Type 0} where
  unfoldable pub with_flag : Option Bool → (Bool → Answer S Ecc Rsa) → Answer S Ecc Rsa
  with_flag none k = fail Failure.invalid_bool
  with_flag (some b) k = k b

  -- The name, and what the node knows by it.
  unfoldable pub by_name :
      {A : Type 0}
      → (Bytes → Action S (Option A))
      → (A → Value Ecc Rsa)
      → Values Ecc Rsa
      → Answer S Ecc Rsa
  unfolding with_one with_string or_nil
  by_name get f args =
      with_one args λ a _. with_string bad a λ name. get name >>= λ found. pure (or_nil f found)

  -- A change by a name, or by a name and a key.
  unfoldable pub change_by_name : (Bytes → Action S Unit) → Values Ecc Rsa → Answer S Ecc Rsa
  unfolding with_one with_string done
  change_by_name change args = with_one args λ a _. with_string bad a λ name. done (change name)

  unfoldable pub change_by_key : (Bytes → Bytes → Action S Unit) → Values Ecc Rsa → Answer S Ecc Rsa
  unfolding with_two with_string done
  change_by_key change args =
      with_two args
        λ a b _. with_string bad a λ name. with_string bad b λ key. done (change name key)

  -- GetPeers: at most one argument, the group.
  unfoldable pub peers_by_group :
      (List Bytes → Action S (Value Ecc Rsa)) → Values Ecc Rsa → Answer S Ecc Rsa
  unfolding with_string
  peers_by_group get end = get ([] ∷ [])
  peers_by_group get (item a end) = with_string bad a λ group. get (group ∷ [])
  peers_by_group get (item a (item b args)) = fail Failure.invalid_argument_count

  -- AddPeer: the group is optional, and may be nil.
  unfoldable pub with_group : Values Ecc Rsa → (List Bytes → Answer S Ecc Rsa) → Answer S Ecc Rsa
  unfolding with_string
  with_group end k = k []
  with_group (item Value.nil args) k = k []
  with_group (item a args) k = with_string bad a λ group. k (group ∷ [])

  -- Send and SendChannel: the key is optional.
  unfoldable pub with_optional_key :
      Values Ecc Rsa → (Option (PubKey Ecc Rsa) → Answer S Ecc Rsa) → Answer S Ecc Rsa
  unfolding with_key
  with_optional_key end k = k none
  with_optional_key (item a args) k = with_key bad a λ key. k (some key)

  unfoldable pub send_by :
      (Bytes → Bytes → Option (PubKey Ecc Rsa) → Action S Unit) → Values Ecc Rsa → Answer S Ecc Rsa
  unfolding with_two with_string with_bytes with_optional_key done
  send_by send args = with_two args λ a b more.
      with_string bad a
        λ name. with_bytes b λ msg. with_optional_key more λ key. done (send name msg key)

  module _ (node : NodeApi S Ecc Rsa) where
    unfoldable pub add_profile_args : Values Ecc Rsa → Answer S Ecc Rsa
    unfolding with_two with_string with_flag parse_bool done
    add_profile_args args = with_two args λ a b _. with_string bad a λ name.
        with_string bad b
          λ enabled. with_flag (parse_bool enabled) λ flag. done (node.add_profile name flag)

    unfoldable pub add_peer_args : Values Ecc Rsa → Answer S Ecc Rsa
    unfolding with_three with_string with_flag with_group parse_bool done
    add_peer_args args = with_three args λ a b c more. with_string bad a λ name.
        with_string bad b λ enabled. with_string bad c λ uri.
          with_flag (parse_bool enabled)
            λ flag. with_group more λ group. done (node.add_peer name flag uri group)

    unfoldable pub admin_method : ℕ → Option Method → RemoteCall Ecc Rsa → Answer S Ecc Rsa
    unfolding by_name change_by_name change_by_key peers_by_group send_by add_profile_args
        add_peer_args public_rpc
    admin_method byte_limit (some Method.cid) call = node.cid >>= λ k. pure (Value.pub_key k)
    admin_method byte_limit (some Method.get_contact) call =
        by_name node.get_contact Value.contact call.args
    admin_method byte_limit (some Method.get_contacts) call =
        node.get_contacts >>= λ cs. pure (Value.contacts cs)
    admin_method byte_limit (some Method.add_contact) call =
        change_by_key node.add_contact call.args
    admin_method byte_limit (some Method.delete_contact) call =
        change_by_name node.delete_contact call.args
    admin_method byte_limit (some Method.get_channel) call =
        by_name node.get_channel Value.channel call.args
    admin_method byte_limit (some Method.get_channels) call =
        node.get_channels >>= λ cs. pure (Value.channels cs)
    admin_method byte_limit (some Method.add_channel) call =
        change_by_key node.add_channel call.args
    admin_method byte_limit (some Method.delete_channel) call =
        change_by_name node.delete_channel call.args
    admin_method byte_limit (some Method.get_profile) call =
        by_name node.get_profile Value.profile call.args
    admin_method byte_limit (some Method.get_profiles) call =
        node.get_profiles >>= λ ps. pure (Value.profiles ps)
    admin_method byte_limit (some Method.add_profile) call = add_profile_args call.args
    admin_method byte_limit (some Method.delete_profile) call =
        change_by_name node.delete_profile call.args
    admin_method byte_limit (some Method.load_profile) call =
        by_name node.load_profile Value.pub_key call.args
    admin_method byte_limit (some Method.get_peer) call = by_name node.get_peer Value.peer call.args
    admin_method byte_limit (some Method.get_peers) call =
        peers_by_group (λ group. node.get_peers group >>= λ ps. pure (Value.peers ps)) call.args
    admin_method byte_limit (some Method.add_peer) call = add_peer_args call.args
    admin_method byte_limit (some Method.delete_peer) call =
        change_by_name node.delete_peer call.args
    admin_method byte_limit (some Method.send) call = send_by node.send call.args
    admin_method byte_limit (some Method.send_channel) call = send_by node.send_channel call.args
    admin_method byte_limit _ call = public_rpc node byte_limit call

    unfoldable pub admin_rpc : ℕ → RemoteCall Ecc Rsa → Answer S Ecc Rsa
    unfolding admin_method method_of
    admin_rpc byte_limit call = admin_method byte_limit (method_of call.action) call
