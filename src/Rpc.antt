-- ===== src/Rpc.antt =====
-- The dispatch of remote calls, nodes/rpc.go: what it calls of a node, its tests on arguments, and
-- `PublicRPC`.
pub mod Numbers
pub mod Admin
pub mod Types
use ratnet.Prelude.{ℕ, Bool, Option, none, some, List, [], ◌∷◌, Bytes, if◌then◌else◌}
use ratnet.Go.{Failure, Action, pure, fail, ◌>>=◌, ◌>>◌}
use ratnet.Wire.Value.{Value, Values, end, item, PubKey, Contact, Channel, Profile, Peer, Bundle}
use ratnet.Wire.Calls.{RemoteCall}
use ratnet.Rpc.Numbers.{Method, method_of}

-- The operations of `api.Node` that can be called from afar. A pointer that may be nil is an Option,
-- and `nil_key` is the test `i == i.Nil()`.
pub record NodeApi (S Ecc Rsa : Type 0) : Type 0 where
  pub nil_key : PubKey Ecc Rsa → Bool
  pub id : Action S (PubKey Ecc Rsa)
  pub dropoff : Bundle → Action S Unit
  pub pickup : PubKey Ecc Rsa → ℕ → ℕ → List Bytes → Action S Bundle
  pub cid : Action S (PubKey Ecc Rsa)
  pub get_contact : Bytes → Action S (Option Contact)
  pub get_contacts : Action S (List Contact)
  pub add_contact : Bytes → Bytes → Action S Unit
  pub delete_contact : Bytes → Action S Unit
  pub get_channel : Bytes → Action S (Option Channel)
  pub get_channels : Action S (List Channel)
  pub add_channel : Bytes → Bytes → Action S Unit
  pub delete_channel : Bytes → Action S Unit
  pub get_profile : Bytes → Action S (Option Profile)
  pub get_profiles : Action S (List Profile)
  pub add_profile : Bytes → Bool → Action S Unit
  pub delete_profile : Bytes → Action S Unit
  pub load_profile : Bytes → Action S (Option (PubKey Ecc Rsa))
  pub get_peer : Bytes → Action S (Option Peer)
  pub get_peers : List Bytes → Action S (List Peer)
  pub add_peer : Bytes → Bool → Bytes → List Bytes → Action S Unit
  pub delete_peer : Bytes → Action S Unit
  pub send : Bytes → Bytes → Option (PubKey Ecc Rsa) → Action S Unit
  pub send_channel : Bytes → Bytes → Option (PubKey Ecc Rsa) → Action S Unit

-- What a call answers.
abbrev pub Answer : Type 0 → Type 0 → Type 0 → Type 0
Answer S Ecc Rsa = Action S (Value Ecc Rsa)

module _ {S A Ecc Rsa : Type 0} where
  -- `len(call.Args) < 1`, and then the first argument and the others.
  unfoldable pub with_one :
      Values Ecc Rsa → (Value Ecc Rsa → Values Ecc Rsa → Action S A) → Action S A
  with_one end k = fail Failure.invalid_argument_count
  with_one (item a args) k = k a args

  -- `len(call.Args) < 2`
  unfoldable pub with_two :
      Values Ecc Rsa → (Value Ecc Rsa → Value Ecc Rsa → Values Ecc Rsa → Action S A) → Action S A
  with_two end k = fail Failure.invalid_argument_count
  with_two (item a end) k = fail Failure.invalid_argument_count
  with_two (item a (item b args)) k = k a b args

  -- `len(call.Args) < 3`
  unfoldable pub with_three :
      Values Ecc Rsa
      → (Value Ecc Rsa → Value Ecc Rsa → Value Ecc Rsa → Values Ecc Rsa → Action S A)
      → Action S A
  with_three end k = fail Failure.invalid_argument_count
  with_three (item a end) k = fail Failure.invalid_argument_count
  with_three (item a (item b end)) k = fail Failure.invalid_argument_count
  with_three (item a (item b (item c args))) k = k a b c args

  -- `.(string)`, `.([]byte)`, `.(int64)`, `.(api.Bundle)` and `.(bc.PubKey)`, with ok.
  unfoldable pub with_string : Failure → Value Ecc Rsa → (Bytes → Action S A) → Action S A
  with_string e (Value.string s) k = k s
  with_string e _ k = fail e

  unfoldable pub with_bytes : Value Ecc Rsa → (Bytes → Action S A) → Action S A
  with_bytes (Value.bytes bs) k = k bs
  with_bytes _ k = fail Failure.invalid_argument

  unfoldable pub with_int64 : Failure → Value Ecc Rsa → (ℕ → Action S A) → Action S A
  with_int64 e (Value.int64 n) k = k n
  with_int64 e _ k = fail e

  unfoldable pub with_bundle : Value Ecc Rsa → (Bundle → Action S A) → Action S A
  with_bundle (Value.bundle b) k = k b
  with_bundle _ k = fail Failure.invalid_argument

  unfoldable pub with_key : Failure → Value Ecc Rsa → (PubKey Ecc Rsa → Action S A) → Action S A
  with_key e (Value.pub_key key) k = k key
  with_key e _ k = fail e

  -- The loop over the arguments that are left, which are all to be strings.
  unfoldable pub with_strings : Failure → Values Ecc Rsa → (List Bytes → Action S A) → Action S A
  unfolding with_string
  with_strings e end k = k []
  with_strings e (item a args) k = with_string e a λ s. with_strings e args λ ss. k (s ∷ ss)

module _ {S Ecc Rsa : Type 0} where
  -- An answer of nil.
  unfoldable pub done : Action S Unit → Answer S Ecc Rsa
  done act = act >> pure Value.nil

  module _ (node : NodeApi S Ecc Rsa) where
    unfoldable pub answer_id : PubKey Ecc Rsa → Answer S Ecc Rsa
    answer_id i = if node.nil_key i then fail Failure.no_routing_key else pure (Value.pub_key i)

    unfoldable pub public_method : ℕ → Option Method → Values Ecc Rsa → Answer S Ecc Rsa
    unfolding answer_id with_one with_two with_key with_int64 with_strings with_bundle done
    public_method byte_limit (some Method.id) args = node.id >>= answer_id
    public_method byte_limit (some Method.pickup) args = with_two args λ a b names.
        with_key Failure.invalid_argument_1 a λ rpk. with_int64 Failure.invalid_argument_2 b λ i.
          with_strings Failure.invalid_argument_3 names
            λ xargs. node.pickup rpk i byte_limit xargs >>= λ bundle. pure (Value.bundle bundle)
    public_method byte_limit (some Method.dropoff) args =
        with_one args λ a _. with_bundle a λ bundle. done (node.dropoff bundle)
    public_method byte_limit _ args = fail Failure.no_such_method

    -- `byte_limit` is the transport's.
    unfoldable pub public_rpc : ℕ → RemoteCall Ecc Rsa → Answer S Ecc Rsa
    unfolding public_method method_of
    public_rpc byte_limit call = public_method byte_limit (method_of call.action) call.args
