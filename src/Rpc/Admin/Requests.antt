-- ===== src/Rpc/Admin/Requests.antt =====
-- What a client asks of a node, and the call that says so: an independent description of the
-- dispatch of nodes/rpc.go, by the comments of api/node.go on its interface.
use ratnet.Prelude.{ℕ, Bool, true, false, Option, none, some, List, [], ◌∷◌, Bytes}
use ratnet.Go.{pure, ◌>>=◌}
use ratnet.Wire.Value.{Value, Values, end, item, PubKey, Bundle}
use ratnet.Wire.Calls.{RemoteCall}
use ratnet.Rpc.{NodeApi, Answer, answer_id, done}
use ratnet.Rpc.Numbers.{Method, number}
use ratnet.Rpc.Admin.{or_nil}

pub data Request (Ecc Rsa : Type 0) : Type 0 where
  id cid get_contacts get_channels get_profiles : Request Ecc Rsa
  dropoff : Bundle → Request Ecc Rsa
  pickup : PubKey Ecc Rsa → ℕ → List Bytes → Request Ecc Rsa
  get_contact delete_contact get_channel delete_channel : Bytes → Request Ecc Rsa
  get_profile delete_profile load_profile get_peer delete_peer : Bytes → Request Ecc Rsa
  add_contact add_channel : Bytes → Bytes → Request Ecc Rsa
  add_profile : Bytes → Bool → Request Ecc Rsa
  get_peers : Option Bytes → Request Ecc Rsa
  add_peer : Bytes → Bool → Bytes → Option Bytes → Request Ecc Rsa
  send send_channel : Bytes → Bytes → Option (PubKey Ecc Rsa) → Request Ecc Rsa

abbrev pub flag_text : Bool → Bytes
flag_text true = 116 ∷ 114 ∷ 117 ∷ 101 ∷ []
flag_text false = 102 ∷ 97 ∷ 108 ∷ 115 ∷ 101 ∷ []

module _ {Ecc Rsa : Type 0} where
  -- The calls that need no authentication.
  abbrev pub IsPublic : Request Ecc Rsa → Type 0
  IsPublic Request.id = Unit
  IsPublic (Request.dropoff b) = Unit
  IsPublic (Request.pickup k t names) = Unit
  IsPublic _ = ⊥

  abbrev pub strings : List Bytes → Values Ecc Rsa
  strings [] = end
  strings (s ∷ ss) = item (Value.string s) (strings ss)

  abbrev pub optional_string : Option Bytes → Values Ecc Rsa
  optional_string none = end
  optional_string (some s) = item (Value.string s) end

  abbrev pub optional_key : Option (PubKey Ecc Rsa) → Values Ecc Rsa
  optional_key none = end
  optional_key (some k) = item (Value.pub_key k) end

  abbrev pub named : Method → Bytes → RemoteCall Ecc Rsa
  named m name = record { action = number m; args = item (Value.string name) end }

  abbrev pub plain : Method → RemoteCall Ecc Rsa
  plain m = record { action = number m; args = end }

  abbrev pub keyed : Method → Bytes → Bytes → Values Ecc Rsa → RemoteCall Ecc Rsa
  keyed m name key more = record {
    action = number m;
    args = item (Value.string name) (item (Value.string key) more);
  }

  abbrev pub message : Method → Bytes → Bytes → Option (PubKey Ecc Rsa) → RemoteCall Ecc Rsa
  message m name content key = record {
    action = number m;
    args = item (Value.string name) (item (Value.bytes content) (optional_key key));
  }

  -- The number of the method, and its arguments in their order.
  abbrev pub call_of : Request Ecc Rsa → RemoteCall Ecc Rsa
  call_of Request.id = plain Method.id
  call_of (Request.dropoff b) = record {
    action = number Method.dropoff;
    args = item (Value.bundle b) end;
  }
  call_of (Request.pickup k t names) = record {
    action = number Method.pickup;
    args = item (Value.pub_key k) (item (Value.int64 t) (strings names));
  }
  call_of Request.cid = plain Method.cid
  call_of (Request.get_contact name) = named Method.get_contact name
  call_of Request.get_contacts = plain Method.get_contacts
  call_of (Request.add_contact name key) = keyed Method.add_contact name key end
  call_of (Request.delete_contact name) = named Method.delete_contact name
  call_of (Request.get_channel name) = named Method.get_channel name
  call_of Request.get_channels = plain Method.get_channels
  call_of (Request.add_channel name key) = keyed Method.add_channel name key end
  call_of (Request.delete_channel name) = named Method.delete_channel name
  call_of (Request.get_profile name) = named Method.get_profile name
  call_of Request.get_profiles = plain Method.get_profiles
  call_of (Request.add_profile name flag) = keyed Method.add_profile name (flag_text flag) end
  call_of (Request.delete_profile name) = named Method.delete_profile name
  call_of (Request.load_profile name) = named Method.load_profile name
  call_of (Request.get_peer name) = named Method.get_peer name
  call_of (Request.get_peers group) = record {
    action = number Method.get_peers;
    args = optional_string group;
  }
  call_of (Request.add_peer name flag uri group) =
      keyed Method.add_peer name (flag_text flag) (item (Value.string uri) (optional_string group))
  call_of (Request.delete_peer name) = named Method.delete_peer name
  call_of (Request.send name content key) = message Method.send name content key
  call_of (Request.send_channel name content key) = message Method.send_channel name content key

abbrev pub group_or_empty : Option Bytes → List Bytes
group_or_empty none = [] ∷ []
group_or_empty (some g) = g ∷ []

abbrev pub group_list : Option Bytes → List Bytes
group_list none = []
group_list (some g) = g ∷ []

module _ {S Ecc Rsa : Type 0} (node : NodeApi S Ecc Rsa) (byte_limit : ℕ) where
  -- The operation of the node, and what it returns as a value.
  abbrev pub perform : Request Ecc Rsa → Answer S Ecc Rsa
  perform Request.id = node.id >>= answer_id node
  perform (Request.dropoff b) = done (node.dropoff b)
  perform (Request.pickup k t names) =
      node.pickup k t byte_limit names >>= λ b. pure (Value.bundle b)
  perform Request.cid = node.cid >>= λ k. pure (Value.pub_key k)
  perform (Request.get_contact name) =
      node.get_contact name >>= λ found. pure (or_nil Value.contact found)
  perform Request.get_contacts = node.get_contacts >>= λ cs. pure (Value.contacts cs)
  perform (Request.add_contact name key) = done (node.add_contact name key)
  perform (Request.delete_contact name) = done (node.delete_contact name)
  perform (Request.get_channel name) =
      node.get_channel name >>= λ found. pure (or_nil Value.channel found)
  perform Request.get_channels = node.get_channels >>= λ cs. pure (Value.channels cs)
  perform (Request.add_channel name key) = done (node.add_channel name key)
  perform (Request.delete_channel name) = done (node.delete_channel name)
  perform (Request.get_profile name) =
      node.get_profile name >>= λ found. pure (or_nil Value.profile found)
  perform Request.get_profiles = node.get_profiles >>= λ ps. pure (Value.profiles ps)
  perform (Request.add_profile name flag) = done (node.add_profile name flag)
  perform (Request.delete_profile name) = done (node.delete_profile name)
  perform (Request.load_profile name) =
      node.load_profile name >>= λ found. pure (or_nil Value.pub_key found)
  perform (Request.get_peer name) = node.get_peer name >>= λ found. pure (or_nil Value.peer found)
  perform (Request.get_peers group) =
      node.get_peers (group_or_empty group) >>= λ ps. pure (Value.peers ps)
  perform (Request.add_peer name flag uri group) =
      done (node.add_peer name flag uri (group_list group))
  perform (Request.delete_peer name) = done (node.delete_peer name)
  perform (Request.send name content key) = done (node.send name content key)
  perform (Request.send_channel name content key) = done (node.send_channel name content key)
