-- ===== src/Rpc/Admin/Refusals.antt =====
-- A call is one operation, or it is refused and changes nothing.
use ratnet.Prelude.{◌∙◌, ℕ, ◌≡◌, refl, sym, Option, none, some, List, Bytes, ap}
use ratnet.Go.{Action, pure, ◌>>=◌}
use ratnet.Wire.Value.{Value, Values, end, item, PubKey, Bundle}
use ratnet.Wire.Calls.{RemoteCall}
use ratnet.Rpc.{NodeApi, Answer, done, public_method, public_rpc}
use ratnet.Rpc.Numbers.{Method, method_of}
use ratnet.Rpc.Admin.{
  parse_bool, or_nil, by_name, change_by_name, change_by_key, peers_by_group, send_by,
  add_profile_args, add_peer_args, admin_method, admin_rpc,
}
use ratnet.Rpc.Admin.Requests.{Request, IsPublic, perform}
use ratnet.Rpc.Admin.Arguments.{
  Dispatched, performs, refuses, one, two, three, text, texts, key, int, content, bundle, flag,
  optional, group,
}

module _ {S Ecc Rsa : Type 0} (node : NodeApi S Ecc Rsa) (byte_limit : ℕ)
    (P : Request Ecc Rsa → Type 0) (p_id : P Request.id)
    (p_dropoff : (b : Bundle) → P (Request.dropoff b)) (args : Values Ecc Rsa)
    (p_pickup : (p : PubKey Ecc Rsa) (n : ℕ) (ts : List Bytes) (a : Value Ecc Rsa)
        (more : Values Ecc Rsa)
      → args ≡ item a (item (Value.int64 n) more)
      → P (Request.pickup p n ts)) where
  public_method-Dispatched :
      (m : Option Method) → Dispatched node byte_limit P (public_method node byte_limit m args)
  unfolding public_method
  public_method-Dispatched (some Method.id) = performs Request.id p_id (λ s. refl)
  public_method-Dispatched (some Method.pickup) = two node byte_limit P args _ λ a b names e.
      key node byte_limit P _ a _ tt λ p. int node byte_limit P _ b _ tt λ n eb.
        texts node byte_limit P _ names _ tt λ ts.
          performs (Request.pickup p n ts)
            (p_pickup p n ts a names (e ∙ ap (λ b. item a (item b names)) eb)) (λ s. refl)
  public_method-Dispatched (some Method.dropoff) = one node byte_limit P args _ λ a _.
      bundle node byte_limit P a _ λ b. performs (Request.dropoff b) (p_dropoff b) (λ s. refl)
  public_method-Dispatched _ = refuses _ tt (λ s. refl)

module _ {S Ecc Rsa : Type 0} (node : NodeApi S Ecc Rsa) (byte_limit : ℕ) where
  -- Whatever the number and the arguments of a call, PublicRPC performs one operation, which is ID,
  -- Dropoff or Pickup, or it refuses the call for its number or its arguments, and then nothing has
  -- changed.
  pub public_rpc-Dispatched :
      (call : RemoteCall Ecc Rsa)
      → Dispatched node byte_limit IsPublic (public_rpc node byte_limit call)
  unfolding public_rpc
  public_rpc-Dispatched call =
      public_method-Dispatched node byte_limit IsPublic tt (λ b. tt) call.args
        (λ p n ts a more e. tt) (method_of call.action)

-- Every request but Pickup.
abbrev pub IsUntimed : {Ecc Rsa : Type 0} → Request Ecc Rsa → Type 0
IsUntimed (Request.pickup k t names) = ⊥
IsUntimed _ = Unit

module _ {S Ecc Rsa : Type 0} (node : NodeApi S Ecc Rsa) (byte_limit : ℕ)
    (P : Request Ecc Rsa → Type 0) (easy : (q : Request Ecc Rsa) → IsUntimed q → P q) where
  abbrev Asked : Answer S Ecc Rsa → Type 0
  Asked = Dispatched node byte_limit P

  by_name-Asked :
      {A : Type 0} (get : Bytes → Action S (Option A)) (f : A → Value Ecc Rsa)
      (args : Values Ecc Rsa) (r : Bytes → Request Ecc Rsa)
      → ((name : Bytes) → IsUntimed (r name))
      → ((name : Bytes) (s : S)
          → perform node byte_limit (r name) s ≡ (get name >>= λ o. pure (or_nil f o)) s)
      → Asked (by_name get f args)
  unfolding by_name
  by_name-Asked get f args r u e = one node byte_limit P args _ λ a _.
      text node byte_limit P _ a _ tt
        λ name. performs (r name) (easy _ (u name)) (λ s. sym (e name s))

  change_by_name-Asked :
      (change : Bytes → Action S Unit) (args : Values Ecc Rsa) (r : Bytes → Request Ecc Rsa)
      → ((name : Bytes) → IsUntimed (r name))
      → ((name : Bytes) (s : S)
          → perform node byte_limit (r name) s ≡ done {Ecc = Ecc} {Rsa = Rsa} (change name) s)
      → Asked (change_by_name change args)
  unfolding change_by_name
  change_by_name-Asked change args r u e = one node byte_limit P args _ λ a _.
      text node byte_limit P _ a _ tt
        λ name. performs (r name) (easy _ (u name)) (λ s. sym (e name s))

  change_by_key-Asked :
      (change : Bytes → Bytes → Action S Unit) (args : Values Ecc Rsa)
      (r : Bytes → Bytes → Request Ecc Rsa)
      → ((name key : Bytes) → IsUntimed (r name key))
      → ((name key : Bytes) (s : S)
          → perform node byte_limit (r name key) s
            ≡ done {Ecc = Ecc} {Rsa = Rsa} (change name key) s)
      → Asked (change_by_key change args)
  unfolding change_by_key
  change_by_key-Asked change args r u e = two node byte_limit P args _ λ a b _ _.
      text node byte_limit P _ a _ tt λ name.
        text node byte_limit P _ b _ tt
          λ k. performs (r name k) (easy _ (u name k)) (λ s. sym (e name k s))

  send_by-Asked :
      (send : Bytes → Bytes → Option (PubKey Ecc Rsa) → Action S Unit) (args : Values Ecc Rsa)
      (r : Bytes → Bytes → Option (PubKey Ecc Rsa) → Request Ecc Rsa)
      → ((name bs : Bytes) (o : Option (PubKey Ecc Rsa)) → IsUntimed (r name bs o))
      → ((name bs : Bytes) (o : Option (PubKey Ecc Rsa)) (s : S)
          → perform node byte_limit (r name bs o) s
            ≡ done {Ecc = Ecc} {Rsa = Rsa} (send name bs o) s)
      → Asked (send_by send args)
  unfolding send_by
  send_by-Asked send args r u e = two node byte_limit P args _ λ a b more _.
      text node byte_limit P _ a _ tt λ name. content node byte_limit P b _ λ bs.
        optional node byte_limit P more _
          λ o. performs (r name bs o) (easy _ (u name bs o)) (λ s. sym (e name bs o s))

  add_profile-Asked : (args : Values Ecc Rsa) → Asked (add_profile_args node args)
  unfolding add_profile_args
  add_profile-Asked args = two node byte_limit P args _ λ a b _ _.
      text node byte_limit P _ a _ tt λ name. text node byte_limit P _ b _ tt λ e.
        flag node byte_limit P (parse_bool e) _
          λ f. performs (Request.add_profile name f) (easy _ tt) (λ s. refl)

  add_peer-Asked : (args : Values Ecc Rsa) → Asked (add_peer_args node args)
  unfolding add_peer_args
  add_peer-Asked args = three node byte_limit P args _ λ a b c more.
      text node byte_limit P _ a _ tt λ name. text node byte_limit P _ b _ tt λ e.
        text node byte_limit P _ c _ tt λ uri. flag node byte_limit P (parse_bool e) _ λ f.
          group node byte_limit P more _
            (performs (Request.add_peer name f uri none) (easy _ tt) (λ s. refl))
            λ g. performs (Request.add_peer name f uri (some g)) (easy _ tt) (λ s. refl)

  get_peers-Asked :
      (args : Values Ecc Rsa)
      → Asked (peers_by_group (λ group. node.get_peers group >>= λ ps. pure (Value.peers ps)) args)
  unfolding peers_by_group
  get_peers-Asked end = performs (Request.get_peers none) (easy _ tt) (λ s. refl)
  get_peers-Asked (item a end) =
      text node byte_limit P _ a _ tt
        λ g. performs (Request.get_peers (some g)) (easy _ tt) (λ s. refl)
  get_peers-Asked (item a (item b args)) = refuses _ tt (λ s. refl)

  admin_method-Asked :
      (m : Option Method) (call : RemoteCall Ecc Rsa)
      → ((p : PubKey Ecc Rsa) (n : ℕ) (ts : List Bytes) (a : Value Ecc Rsa) (more : Values Ecc Rsa)
          → call.args ≡ item a (item (Value.int64 n) more)
          → P (Request.pickup p n ts))
      → Asked (admin_method node byte_limit m call)
  unfolding admin_method public_rpc
  admin_method-Asked (some Method.cid) call e = performs Request.cid (easy _ tt) (λ s. refl)
  admin_method-Asked (some Method.get_contact) call e =
      by_name-Asked _ _ call.args Request.get_contact (λ n. tt) (λ n s. refl)
  admin_method-Asked (some Method.get_contacts) call e =
      performs Request.get_contacts (easy _ tt) (λ s. refl)
  admin_method-Asked (some Method.add_contact) call e =
      change_by_key-Asked _ call.args Request.add_contact (λ n k. tt) (λ n k s. refl)
  admin_method-Asked (some Method.delete_contact) call e =
      change_by_name-Asked _ call.args Request.delete_contact (λ n. tt) (λ n s. refl)
  admin_method-Asked (some Method.get_channel) call e =
      by_name-Asked _ _ call.args Request.get_channel (λ n. tt) (λ n s. refl)
  admin_method-Asked (some Method.get_channels) call e =
      performs Request.get_channels (easy _ tt) (λ s. refl)
  admin_method-Asked (some Method.add_channel) call e =
      change_by_key-Asked _ call.args Request.add_channel (λ n k. tt) (λ n k s. refl)
  admin_method-Asked (some Method.delete_channel) call e =
      change_by_name-Asked _ call.args Request.delete_channel (λ n. tt) (λ n s. refl)
  admin_method-Asked (some Method.get_profile) call e =
      by_name-Asked _ _ call.args Request.get_profile (λ n. tt) (λ n s. refl)
  admin_method-Asked (some Method.get_profiles) call e =
      performs Request.get_profiles (easy _ tt) (λ s. refl)
  admin_method-Asked (some Method.add_profile) call e = add_profile-Asked call.args
  admin_method-Asked (some Method.delete_profile) call e =
      change_by_name-Asked _ call.args Request.delete_profile (λ n. tt) (λ n s. refl)
  admin_method-Asked (some Method.load_profile) call e =
      by_name-Asked _ _ call.args Request.load_profile (λ n. tt) (λ n s. refl)
  admin_method-Asked (some Method.get_peer) call e =
      by_name-Asked _ _ call.args Request.get_peer (λ n. tt) (λ n s. refl)
  admin_method-Asked (some Method.get_peers) call e = get_peers-Asked call.args
  admin_method-Asked (some Method.add_peer) call e = add_peer-Asked call.args
  admin_method-Asked (some Method.delete_peer) call e =
      change_by_name-Asked _ call.args Request.delete_peer (λ n. tt) (λ n s. refl)
  admin_method-Asked (some Method.send) call e =
      send_by-Asked _ call.args Request.send (λ n b o. tt) (λ n b o s. refl)
  admin_method-Asked (some Method.send_channel) call e =
      send_by-Asked _ call.args Request.send_channel (λ n b o. tt) (λ n b o s. refl)
  admin_method-Asked _ call e =
      public_method-Dispatched node byte_limit P (easy _ tt) (λ b. easy _ tt) call.args e
        (method_of call.action)

  pub admin_rpc-Asked :
      (call : RemoteCall Ecc Rsa)
      → ((p : PubKey Ecc Rsa) (n : ℕ) (ts : List Bytes) (a : Value Ecc Rsa) (more : Values Ecc Rsa)
          → call.args ≡ item a (item (Value.int64 n) more)
          → P (Request.pickup p n ts))
      → Asked (admin_rpc node byte_limit call)
  unfolding admin_rpc
  admin_rpc-Asked call e = admin_method-Asked (method_of call.action) call e

abbrev pub IsAny : {Ecc Rsa : Type 0} → Request Ecc Rsa → Type 0
IsAny r = Unit

module _ {S Ecc Rsa : Type 0} (node : NodeApi S Ecc Rsa) (byte_limit : ℕ) where
  -- Whatever the number and the arguments of a call, AdminRPC performs one operation of the node and
  -- answers what that returns, or it refuses the call for its number or its arguments, and then
  -- nothing has changed.
  pub admin_rpc-Dispatched :
      (call : RemoteCall Ecc Rsa)
      → Dispatched node byte_limit IsAny (admin_rpc node byte_limit call)
  admin_rpc-Dispatched call =
      admin_rpc-Asked node byte_limit IsAny (λ q u. tt) call (λ p n ts a more e. tt)
