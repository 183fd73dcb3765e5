-- ===== src/Rpc/Types.antt =====
-- What a call answers can be written to the wire.
use ratnet.Prelude.{
  ℕ, ◌^◌, ◌<◌, ◌≡◌, sym, subst, Option, none, some, List, Bytes, Bool, true, false, if◌then◌else◌,
}
use ratnet.Go.{Outcome, returned, failed, panicked, pure, fail, continue, Failure}
use ratnet.Wire.Value.{Value, Values, item, PubKey, Bundle}
use ratnet.Wire.Parse.Leaves.{IsWire, AreWire}
use ratnet.Wire.Calls.{RemoteCall}
use ratnet.Rpc.{NodeApi, Answer, answer_id, done}
use ratnet.Rpc.Admin.{or_nil, admin_rpc}
use ratnet.Rpc.Admin.Requests.{Request, perform}
use ratnet.Rpc.Admin.Arguments.{Dispatched, performs, refuses}
use ratnet.Rpc.Admin.Refusals.{IsUntimed, admin_rpc-Asked}

-- A request whose time has 64 bits.
abbrev InRange : {Ecc Rsa : Type 0} → Request Ecc Rsa → Type 0
InRange (Request.pickup k t names) = t < 2 ^ 64
InRange _ = Unit

-- What holds of a result, if there is one.
abbrev pub Ensures : {A : Type 0} → (A → Type 0) → Outcome A → Type 0
Ensures P (returned a) = P a
Ensures P _ = Unit

or_nil-IsWire :
    {A Ecc Rsa : Type 0} (f : A → Value Ecc Rsa) (h : (a : A) → IsWire (f a)) (o : Option A)
    → IsWire (or_nil f o)
unfolding or_nil
or_nil-IsWire f h none = tt
or_nil-IsWire f h (some a) = h a

timed :
    {S : Type 0} (Ecc Rsa : Type 0) (o : Outcome Bundle × S)
    → Ensures (λ b. b.time < 2 ^ 64) o.0
    → Ensures {A = Value Ecc Rsa} IsWire (continue o (λ b. pure (Value.bundle b))).0
timed Ecc Rsa (returned b, s) h = h
timed Ecc Rsa (failed e, s) h = tt
timed Ecc Rsa (panicked, s) h = tt

module _ {S Ecc Rsa : Type 0} where
  answered :
      {A : Type 0} (o : Outcome A × S) (f : A → Value Ecc Rsa)
      → ((a : A) → IsWire (f a))
      → Ensures IsWire (continue o (λ a. pure (f a))).0
  answered (returned a, s) f h = h a
  answered (failed e, s) f h = tt
  answered (panicked, s) f h = tt

  module _ (node : NodeApi S Ecc Rsa) (byte_limit : ℕ) where
    key_answered :
        (o : Outcome (PubKey Ecc Rsa) × S) → Ensures IsWire (continue o (answer_id node)).0
    unfolding answer_id
    key_answered (returned k, s) = checked (node.nil_key k)
      where
        checked :
            (b : Bool)
            → Ensures {A = Value Ecc Rsa} IsWire
                ((if b then fail Failure.no_routing_key else pure (Value.pub_key k)) s).0
        checked true = tt
        checked false = tt
    key_answered (failed e, s) = tt
    key_answered (panicked, s) = tt

    perform-IsWire :
        (r : Request Ecc Rsa) (s : S)
        → InRange r
        → ((k : PubKey Ecc Rsa) (t : ℕ) (names : List Bytes)
            → t < 2 ^ 64
            → Ensures (λ b. b.time < 2 ^ 64) (node.pickup k t byte_limit names s).0)
        → Ensures IsWire (perform node byte_limit r s).0
    unfolding done
    perform-IsWire Request.id s q h = key_answered (node.id s)
    perform-IsWire (Request.dropoff b) s q h = answered (node.dropoff b s) _ (λ a. tt)
    perform-IsWire (Request.pickup k t names) s q h =
        timed Ecc Rsa (node.pickup k t byte_limit names s) (h k t names q)
    perform-IsWire Request.cid s q h = answered (node.cid s) _ (λ a. tt)
    perform-IsWire (Request.get_contact name) s q h =
        answered (node.get_contact name s) _ (or_nil-IsWire Value.contact (λ a. tt))
    perform-IsWire Request.get_contacts s q h = answered (node.get_contacts s) _ (λ a. tt)
    perform-IsWire (Request.add_contact name key) s q h =
        answered (node.add_contact name key s) _ (λ a. tt)
    perform-IsWire (Request.delete_contact name) s q h =
        answered (node.delete_contact name s) _ (λ a. tt)
    perform-IsWire (Request.get_channel name) s q h =
        answered (node.get_channel name s) _ (or_nil-IsWire Value.channel (λ a. tt))
    perform-IsWire Request.get_channels s q h = answered (node.get_channels s) _ (λ a. tt)
    perform-IsWire (Request.add_channel name key) s q h =
        answered (node.add_channel name key s) _ (λ a. tt)
    perform-IsWire (Request.delete_channel name) s q h =
        answered (node.delete_channel name s) _ (λ a. tt)
    perform-IsWire (Request.get_profile name) s q h =
        answered (node.get_profile name s) _ (or_nil-IsWire Value.profile (λ a. tt))
    perform-IsWire Request.get_profiles s q h = answered (node.get_profiles s) _ (λ a. tt)
    perform-IsWire (Request.add_profile name flag) s q h =
        answered (node.add_profile name flag s) _ (λ a. tt)
    perform-IsWire (Request.delete_profile name) s q h =
        answered (node.delete_profile name s) _ (λ a. tt)
    perform-IsWire (Request.load_profile name) s q h =
        answered (node.load_profile name s) _ (or_nil-IsWire Value.pub_key (λ a. tt))
    perform-IsWire (Request.get_peer name) s q h =
        answered (node.get_peer name s) _ (or_nil-IsWire Value.peer (λ a. tt))
    perform-IsWire (Request.get_peers group) s q h = answered (node.get_peers _ s) _ (λ a. tt)
    perform-IsWire (Request.add_peer name flag uri group) s q h =
        answered (node.add_peer name flag uri _ s) _ (λ a. tt)
    perform-IsWire (Request.delete_peer name) s q h = answered (node.delete_peer name s) _ (λ a. tt)
    perform-IsWire (Request.send name content key) s q h =
        answered (node.send name content key s) _ (λ a. tt)
    perform-IsWire (Request.send_channel name content key) s q h =
        answered (node.send_channel name content key s) _ (λ a. tt)

    abbrev PickupInRange : S → Type 0
    PickupInRange s =
        (k : PubKey Ecc Rsa) (t : ℕ) (names : List Bytes)
        → t < 2 ^ 64
        → Ensures (λ b. b.time < 2 ^ 64) (node.pickup k t byte_limit names s).0

    dispatched-IsWire :
        (act : Answer S Ecc Rsa) (s : S)
        → PickupInRange s
        → Dispatched node byte_limit InRange act
        → Ensures IsWire (act s).0
    dispatched-IsWire act s h (performs r p e) =
        subst (λ o. Ensures IsWire o.0) (sym (e s)) (perform-IsWire r s p h)
    dispatched-IsWire act s h (refuses f p e) =
        subst (λ o. Ensures {A = Value Ecc Rsa} IsWire o.0) (sym (e s)) tt

    second-InRange :
        (args : Values Ecc Rsa) (a : Value Ecc Rsa) (n : ℕ) (more : Values Ecc Rsa)
        → AreWire args
        → args ≡ item a (item (Value.int64 n) more)
        → n < 2 ^ 64
    second-InRange args a n more w e =
        let both : AreWire (item a (item (Value.int64 n) more)) = subst AreWire e w in both.1.0

    untimed-InRange : (q : Request Ecc Rsa) → IsUntimed q → InRange q
    untimed-InRange (Request.pickup k t names) u = elim u [ ]
    untimed-InRange _ u = tt

    -- A call whose arguments are values of the wire, to a node whose Pickup, asked from a time of 64
    -- bits, gives bundles with such a time: whatever the call, what AdminRPC answers is a value that
    -- `serialize` has a case for, with its numbers in 64 bits.
    pub admin_rpc-IsWire :
        (call : RemoteCall Ecc Rsa) (s : S)
        → AreWire call.args
        → PickupInRange s
        → Ensures IsWire (admin_rpc node byte_limit call s).0
    admin_rpc-IsWire call s w h = dispatched-IsWire (admin_rpc node byte_limit call) s h (
        admin_rpc-Asked node byte_limit InRange untimed-InRange call
          (λ p n ts a more e. second-InRange call.args a n more w e))
