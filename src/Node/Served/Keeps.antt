-- ===== src/Node/Served/Keeps.antt =====
-- What a remote call leaves of the node in memory.
use ratnet.Prelude.{
  ℕ, suc, Bool, not, Option, none, some, Bytes, sym, subst, lookup, insert, delete, bytes_eq,
}
use ratnet.Go.{Failure, Outcome, Action, pure, continue, ◌>>=◌}
use ratnet.Go.Keeps.{Keeps, bind-Keeps, then-Keeps, if-holds}
use ratnet.Api.{ChannelPriv, ProfilePriv}
use ratnet.Wire.Value.{PubKey, KeyCodec, Peer, Value}
use ratnet.Wire.Calls.{RemoteCall}
use ratnet.Router.Route.{Settings}
use ratnet.Node.{Crypto, World, Node}
use ratnet.Node.Admin.{
  found, if_found, group_name, cid, id, get_contact, get_contacts, add_contact, delete_contact,
  get_channel, get_channels, channel_of, put_channel, add_channel, delete_channel,
}
use ratnet.Node.Profiles.{
  get_profile, get_profiles, add_profile, delete_profile, load_key, load_found, load_profile,
  get_peer, get_peers, add_peer, delete_peer, profile_of,
}
use ratnet.Node.Sending.{send, send_channel}
use ratnet.Node.Receiving.{pickup}
use ratnet.Node.Keeps.{MailClosed, send-Keeps, send_channel-Keeps, found-Keeps}
use ratnet.Node.Keeps.Receiving.{dropoff-Keeps, pickup-Keeps}
use ratnet.Rpc.{NodeApi, Answer, answer_id, done, public_rpc}
use ratnet.Rpc.Admin.{admin_rpc}
use ratnet.Rpc.Admin.Requests.{Request, IsPublic, perform, group_or_empty, group_list}
use ratnet.Rpc.Admin.Arguments.{Dispatched, performs, refuses}
use ratnet.Rpc.Admin.Refusals.{public_rpc-Dispatched, admin_rpc-Dispatched, IsAny}
use ratnet.Node.Served.{State, on_node, present, add_profile_now, served}

-- Properties of a node that survive a change of its tables.
pub record TablesClosed {Pub Priv : Type 0} (crypto : Crypto Pub Priv) (I : Node Pub Priv → Type 0)
    : Type 0 where
  pub contact_in :
      (n : Node Pub Priv) (name key : Bytes)
      → I n
      → I (record n { contacts = insert name (record { name = name; pubkey = key }) n.contacts })
  pub contact_out :
      (n : Node Pub Priv) (name : Bytes) → I n → I (record n { contacts = delete name n.contacts })
  pub channel_in :
      (n : Node Pub Priv) (name : Bytes) (pk : Priv)
      → I n
      → I (record n { channels = insert name (channel_of crypto name pk) n.channels })
  pub channel_out :
      (n : Node Pub Priv) (name : Bytes) → I n → I (record n { channels = delete name n.channels })
  pub profile_in :
      (n : Node Pub Priv) (p : ProfilePriv Priv)
      → I n
      → I (record n { profiles = insert p.name p n.profiles; ticks = suc n.ticks })
  pub profile_out :
      (n : Node Pub Priv) (name : Bytes) → I n → I (record n { profiles = delete name n.profiles })
  pub peer_in :
      (n : Node Pub Priv) (p : Peer) → I n → I (record n { peers = insert p.name p n.peers })
  pub peer_out :
      (n : Node Pub Priv) (name : Bytes) → I n → I (record n { peers = delete name n.peers })
  pub key_loaded : (n : Node Pub Priv) (pk : Priv) → I n → I (record n { content_key = pk })

module _ {Priv Ecc Rsa : Type 0} (crypto : Crypto (PubKey Ecc Rsa) Priv) (world : World)
    (codec : KeyCodec Ecc Rsa) (is_nil : PubKey Ecc Rsa → Bool) (generate : ℕ → Priv) (r : Settings)
    (I : Node (PubKey Ecc Rsa) Priv → Type 0) (c : MailClosed world I) where
  abbrev N : Type 0
  N = Node (PubKey Ecc Rsa) Priv

  abbrev pub Kept : State crypto world codec is_nil generate r → Type 0
  Kept (recent, n) = I n

  abbrev api : NodeApi (State crypto world codec is_nil generate r) Ecc Rsa
  api = served crypto world codec is_nil generate r

  on_node-Keeps : {A : Type 0} (act : Action N A) → Keeps I act → Keeps Kept (on_node act)
  unfolding on_node
  on_node-Keeps act k (recent, n) i = k n i

  present-Keeps : {A : Type 0} (act : Action N A) → Keeps I act → Keeps Kept (present act)
  unfolding present
  present-Keeps act k =
      on_node-Keeps (act >>= λ a. pure (some a))
        (bind-Keeps I act (λ a. pure (some a)) k (λ a n i. i))

  found_only :
      {A B : Type 0} (e : Failure) (o : N → Option A) (f : A → B)
      → Keeps I (λ n. continue (found e (o n) n) (λ a. pure (f a)))
  found_only e o f n i = found-Keeps crypto world I c e (o n) _ n i (λ a n i. i)

  if_found-Keeps :
      {V : Type 0} (e : Failure) (o : Option V) (before after : N)
      → I before
      → I after
      → I (if_found e o before after).1
  unfolding if_found
  if_found-Keeps e none before after b a = b
  if_found-Keeps e (some v) before after b a = a

  done-Keeps :
      (act : Action (State crypto world codec is_nil generate r) Unit)
      → Keeps Kept act
      → Keeps Kept (done {Ecc = Ecc} {Rsa = Rsa} act)
  unfolding done
  done-Keeps act k = then-Keeps Kept act (pure Value.nil) k (λ s i. i)

  then_pure-Keeps :
      {A : Type 0} (act : Action (State crypto world codec is_nil generate r) A)
      (f : A → Value Ecc Rsa)
      → Keeps Kept act
      → Keeps Kept (act >>= λ a. pure (f a))
  then_pure-Keeps act f k = bind-Keeps Kept act (λ a. pure (f a)) k (λ a s i. i)

  id-Keeps : Keeps Kept (api.id >>= answer_id api)
  unfolding served answer_id id on_node
  id-Keeps =
      bind-Keeps Kept (on_node (id crypto)) (answer_id api) (λ s i. i)
        λ k s i.
          if-holds {T = Action (State crypto world codec is_nil generate r) (Value Ecc Rsa)}
            (λ act. Kept (act s).1) (is_nil k) i i

  public-Keeps :
      (byte_limit : ℕ) (q : Request Ecc Rsa) → IsPublic q → Keeps Kept (perform api byte_limit q)
  unfolding served
  public-Keeps byte_limit Request.id p = id-Keeps
  public-Keeps byte_limit (Request.dropoff b) p =
      done-Keeps (api.dropoff b) (dropoff-Keeps crypto world I c r codec b)
  public-Keeps byte_limit (Request.pickup k t names) p =
      then_pure-Keeps (api.pickup k t byte_limit names) Value.bundle (
        on_node-Keeps (pickup crypto world codec k t byte_limit names)
          (pickup-Keeps crypto world I c codec k t byte_limit names))
  public-Keeps byte_limit _ p = elim p [ ]

  dispatched-Keeps :
      (byte_limit : ℕ) (P : Request Ecc Rsa → Type 0)
      (act : Answer (State crypto world codec is_nil generate r) Ecc Rsa)
      → ((q : Request Ecc Rsa) → P q → Keeps Kept (perform api byte_limit q))
      → Dispatched api byte_limit P act
      → Keeps Kept act
  dispatched-Keeps byte_limit P act k (performs q p e) s i =
      subst (λ o. Kept o.1) (sym (e s)) (k q p s i)
  dispatched-Keeps byte_limit P act k (refuses f p e) s i = subst (λ o. Kept o.1) (sym (e s)) i

  pub public_rpc-Keeps :
      (byte_limit : ℕ) (call : RemoteCall Ecc Rsa) → Keeps Kept (public_rpc api byte_limit call)
  public_rpc-Keeps byte_limit call =
      dispatched-Keeps byte_limit IsPublic (public_rpc api byte_limit call)
        (public-Keeps byte_limit) (public_rpc-Dispatched api byte_limit call)

  module _ (t : TablesClosed crypto I) where
    add_contact-Keeps : (name key : Bytes) → Keeps I (add_contact crypto name key)
    unfolding add_contact
    add_contact-Keeps name key n i =
        if-holds {T = Outcome (Unit {0}) × N} (λ o. I o.1)
          (not (crypto.validate_pub_key n.content_key key)) i (t.contact_in n name key i)

    put_channel-Keeps : (name : Bytes) (o : Option Priv) → Keeps I (put_channel crypto name o)
    unfolding put_channel
    put_channel-Keeps name none n i = i
    put_channel-Keeps name (some pk) n i = t.channel_in n name pk i

    add_profile-Keeps :
        (name : Bytes) (flag : Bool) → Keeps I (add_profile_now crypto generate name flag)
    unfolding add_profile_now add_profile
    add_profile-Keeps name flag n i = t.profile_in n _ i

    load_found-Keeps :
        (o : Option (ChannelPriv Priv)) (p : Option (ProfilePriv Priv))
        → Keeps I (load_found crypto o p)
    unfolding load_found load_key
    load_found-Keeps none p n i = i
    load_found-Keeps (some ch) none n i = i
    load_found-Keeps (some ch) (some p) n i = t.key_loaded n p.privkey i

    load_profile-Keeps : (name : Bytes) → Keeps I (load_profile crypto name)
    unfolding load_profile
    load_profile-Keeps name n i =
        load_found-Keeps (lookup name n.channels) (lookup name n.profiles) n i

    change-Keeps :
        (act : Action N Unit)
        → Keeps I act
        → Keeps Kept (done {Ecc = Ecc} {Rsa = Rsa} (on_node act))
    change-Keeps act k = done-Keeps (on_node act) (on_node-Keeps act k)

    shown-Keeps :
        {A : Type 0} (act : Action N A) (f : Option A → Value Ecc Rsa)
        → Keeps I act
        → Keeps Kept (present act >>= λ o. pure (f o))
    shown-Keeps act f k = then_pure-Keeps (present act) f (present-Keeps act k)

    listed-Keeps :
        {A : Type 0} (act : Action N A) (f : A → Value Ecc Rsa)
        → Keeps I act
        → Keeps Kept (on_node act >>= λ a. pure (f a))
    listed-Keeps act f k = then_pure-Keeps (on_node act) f (on_node-Keeps act k)

    perform-Keeps : (byte_limit : ℕ) (q : Request Ecc Rsa) → Keeps Kept (perform api byte_limit q)
    unfolding served cid get_contact get_contacts delete_contact get_channel get_channels
        add_channel delete_channel get_profile get_profiles delete_profile get_peer get_peers
        add_peer delete_peer group_name
    perform-Keeps byte_limit Request.id s i = public-Keeps byte_limit Request.id tt s i
    perform-Keeps byte_limit (Request.dropoff b) s i =
        public-Keeps byte_limit (Request.dropoff b) tt s i
    perform-Keeps byte_limit (Request.pickup k last names) s i =
        public-Keeps byte_limit (Request.pickup k last names) tt s i
    perform-Keeps byte_limit Request.cid s i =
        listed-Keeps (cid crypto) Value.pub_key (λ n i. i) s i
    perform-Keeps byte_limit (Request.get_contact name) s i =
        shown-Keeps (get_contact crypto name) _
          (found_only _ (λ n. lookup name n.contacts)
            (λ ct. record { name = name; pubkey = ct.pubkey }))
          s i
    perform-Keeps byte_limit Request.get_contacts s i =
        listed-Keeps (get_contacts crypto) Value.contacts (λ n i. i) s i
    perform-Keeps byte_limit (Request.add_contact name key) s i =
        change-Keeps (add_contact crypto name key) (add_contact-Keeps name key) s i
    perform-Keeps byte_limit (Request.delete_contact name) s i =
        change-Keeps (delete_contact crypto name)
          (λ n i. if_found-Keeps _ (lookup name n.contacts) n _ i (t.contact_out n name i)) s i
    perform-Keeps byte_limit (Request.get_channel name) s i =
        shown-Keeps (get_channel crypto name) _
          (found_only _ (λ n. lookup name n.channels)
            (λ ch. record { name = name; pubkey = ch.pubkey }))
          s i
    perform-Keeps byte_limit Request.get_channels s i =
        listed-Keeps (get_channels crypto) Value.channels (λ n i. i) s i
    perform-Keeps byte_limit (Request.add_channel name key) s i =
        change-Keeps (add_channel crypto name key) (λ n i. put_channel-Keeps name _ n i) s i
    perform-Keeps byte_limit (Request.delete_channel name) s i =
        change-Keeps (delete_channel crypto name)
          (λ n i. if_found-Keeps _ (lookup name n.channels) n _ i (t.channel_out n name i)) s i
    perform-Keeps byte_limit (Request.get_profile name) s i =
        shown-Keeps (get_profile crypto name) _
          (found_only _ (λ n. lookup name n.profiles) (profile_of crypto name)) s i
    perform-Keeps byte_limit Request.get_profiles s i =
        listed-Keeps (get_profiles crypto) Value.profiles (λ n i. i) s i
    perform-Keeps byte_limit (Request.add_profile name flag) s i =
        change-Keeps (add_profile_now crypto generate name flag) (add_profile-Keeps name flag) s i
    perform-Keeps byte_limit (Request.delete_profile name) s i =
        change-Keeps (delete_profile crypto name)
          (λ n i. if_found-Keeps _ (lookup name n.profiles) n _ i (t.profile_out n name i)) s i
    perform-Keeps byte_limit (Request.load_profile name) s i =
        shown-Keeps (load_profile crypto name) _ (load_profile-Keeps name) s i
    perform-Keeps byte_limit (Request.get_peer name) s i =
        shown-Keeps (get_peer crypto name) _
          (found_only _ (λ n. lookup name n.peers)
            (λ p. record { name = name; enabled = p.enabled; uri = p.uri; group = p.group }))
          s i
    perform-Keeps byte_limit (Request.get_peers group) s i =
        listed-Keeps (get_peers crypto (group_or_empty group)) Value.peers (λ n i. i) s i
    perform-Keeps byte_limit (Request.add_peer name flag uri group) s i =
        change-Keeps (add_peer crypto name flag uri (group_list group))
          (λ n i.
            t.peer_in n
              (record {
                name = name;
                enabled = flag;
                uri = uri;
                group = group_name (group_list group);
              })
              i)
          s i
    perform-Keeps byte_limit (Request.delete_peer name) s i =
        change-Keeps (delete_peer crypto name)
          (λ n i. if_found-Keeps _ (lookup name n.peers) n _ i (t.peer_out n name i)) s i
    perform-Keeps byte_limit (Request.send name content key) s i =
        change-Keeps (send crypto world name content key)
          (send-Keeps crypto world I c name content key) s i
    perform-Keeps byte_limit (Request.send_channel name content key) s i =
        change-Keeps (send_channel crypto world name content key)
          (send_channel-Keeps crypto world I c name content key) s i

    pub admin_rpc-Keeps :
        (byte_limit : ℕ) (call : RemoteCall Ecc Rsa) → Keeps Kept (admin_rpc api byte_limit call)
    admin_rpc-Keeps byte_limit call =
        dispatched-Keeps byte_limit IsAny (admin_rpc api byte_limit call)
          (λ q p. perform-Keeps byte_limit q) (admin_rpc-Dispatched api byte_limit call)
