-- ===== src/Node/Served/Runs.antt =====
-- Remote calls on a node whose keys are byte strings and whose cipher texts are the clear texts, and
-- the theorems at inputs that meet their conditions.
use ratnet.Prelude.{
  ℕ, ◌^◌, ◌<◌, ◌≡◌, refl, ap, true, false, Option, some, none, List, [], ◌∷◌, arith, Bytes,
}
use ratnet.Go.{Failure, returned, failed}
use ratnet.Wire.Value.{Value, PubKey, ecc, Contact, KeyCodec, KeyCodecLaws}
use ratnet.Wire.Read.{ok}
use ratnet.Wire.Write.{serialize, write_tlv, write_lv, type_code, write_contact}
use ratnet.Wire.Varint.{put_uvarint}
use ratnet.Wire.Parse.Structs.{Fits}
use ratnet.Wire.Parse.Leaves.{IsWire}
use ratnet.Wire.Frame.{write_buffer}
use ratnet.Wire.Calls.{
  RemoteCall, RemoteResponse, args_to_bytes, remote_call_to_bytes, remote_response_to_bytes,
}
use ratnet.Router.Recent.{RecentBuffer, new_recent_buffer}
use ratnet.Router.Route.{new_default_router}
use ratnet.Rpc.{NodeApi, done, public_rpc}
use ratnet.Rpc.Numbers.{number}
use ratnet.Rpc.Admin.{or_nil, admin_rpc}
use ratnet.Rpc.Admin.Requests.{Request, call_of, perform}
use ratnet.Rpc.Admin.Dispatch.{admin_rpc-call_of}
use ratnet.Rpc.Admin.Arguments.{Dispatched}
use ratnet.Rpc.Admin.Refusals.{IsAny, admin_rpc-Dispatched}
use ratnet.Rpc.Types.{Ensures, admin_rpc-IsWire}
use ratnet.Transport.{
  response_of, reported, handle_response, handle_connection, request, outcome_of, read_reply,
}
use ratnet.Transport.Remote.{remote_perform}
use ratnet.Transport.Connection.{serve_all, printed, connection_serves_all}
use ratnet.Node.{Crypto, World, Node}
use ratnet.Node.Served.{served}
use ratnet.Node.Served.Tables.{tables, public_rpc_keeps_tables}
use ratnet.Node.Served.WellFormed.{WellFormed}
use ratnet.Node.Served.Reachable.{Reach}

abbrev number_of : Bytes → Option (PubKey Bytes Bytes)
number_of [] = none
number_of (b ∷ bs) = some (ecc (b ∷ bs))

abbrev clear : Crypto (PubKey Bytes Bytes) Bytes
clear = record {
  get_pub = λ k. ecc k;
  clone = λ k. k;
  pub_to_b64 = λ k. [];
  pub_from_b64 = λ _. number_of;
  priv_to_b64 = λ k. k;
  priv_from_b64 = λ _ bs. some bs;
  validate_pub_key = λ _ bs. true;
  encrypt = λ _ _ content key. some content;
  decrypt = λ _ bs. record { tag_ok = true; clear = some bs };
}

abbrev world : World
world = record { now = λ t. t; random_id = λ _. some (1 ∷ 2 ∷ 3 ∷ 4 ∷ []) }

abbrev keys : KeyCodec Bytes Bytes
keys = record {
  ecc_to_bytes = λ k. k;
  ecc_from_bytes = λ bs. some bs;
  rsa_to_bytes = λ k. k;
  rsa_from_bytes = λ bs. some bs;
}

abbrev keys_laws : KeyCodecLaws keys
keys_laws = record { ecc_reads_back = λ k. refl; rsa_reads_back = λ k. refl }

abbrev text : Failure → Bytes
text e = 33 ∷ []

abbrev fresh : Node (PubKey Bytes Bytes) Bytes
fresh = record {
  content_key = 1 ∷ [];
  routing_key = 2 ∷ [];
  channels = [];
  contacts = [];
  peers = [];
  profiles = [];
  outbox = [];
  store = record { streams = []; chunks = []; out = [] };
  limits = [];
  ticks = 0;
}

abbrev St : Type 0
St = RecentBuffer × Node (PubKey Bytes Bytes) Bytes

abbrev start : St
start = (new_recent_buffer, fresh)

abbrev api : NodeApi St Bytes Bytes
api = served clear world keys (λ k. false) (λ t. t ∷ []) new_default_router

abbrev al : Bytes
al = 97 ∷ 108 ∷ []

abbrev add_al : Request Bytes Bytes
add_al = Request.add_contact al (5 ∷ [])

abbrev get_al : Request Bytes Bytes
get_al = Request.get_contact al

abbrev with_al : St
with_al = (perform api 0 add_al start).1

admin_rpc-call_of_example : admin_rpc api 0 (call_of add_al) start ≡ perform api 0 add_al start
admin_rpc-call_of_example = admin_rpc-call_of api 0 add_al start

-- AddContact by a call from the open network.
abbrev intruder : RemoteCall Bytes Bytes
intruder = call_of add_al

refused : public_rpc api 0 intruder start ≡ (failed Failure.no_such_method, start)
unfolding public_rpc number
refused = refl

admin_rpc-Dispatched_example : Dispatched api 0 IsAny (admin_rpc api 0 intruder)
admin_rpc-Dispatched_example = admin_rpc-Dispatched api 0 intruder

public_rpc_keeps_tables_example :
    tables
      (public_rpc api 0
        (call_of (Request.dropoff (record { payload = 1 ∷ []; time = 3 })))
        start).1.1
    ≡ tables start.1
public_rpc_keeps_tables_example =
    public_rpc_keeps_tables clear world keys (λ k. false) (λ t. t ∷ []) new_default_router 0
      (call_of (Request.dropoff (record { payload = 1 ∷ []; time = 3 }))) start

-- An empty outbox gives a bundle with the time that it was asked from.
empty_pickup :
    (k : PubKey Bytes Bytes) (t : ℕ) (names : List Bytes)
    → t < 2 ^ 64
    → Ensures (λ b. b.time < 2 ^ 64) (api.pickup k t 0 names start).0
unfolding served
empty_pickup k t names h = h

abbrev ask : RemoteCall Bytes Bytes
ask = call_of (Request.pickup (ecc (7 ∷ [])) 3 [])

admin_rpc-IsWire_example : Ensures IsWire (admin_rpc api 0 ask start).0
admin_rpc-IsWire_example = admin_rpc-IsWire api 0 ask start (tt, (omega arith, tt)) empty_pickup

abbrev contact_al : Contact
contact_al = record { name = al; pubkey = 5 ∷ [] }

abbrev answer : RemoteResponse Bytes Bytes
answer = record { error = []; value = Value.contact contact_al }

get_al_locally : (perform api 0 get_al with_al).0 ≡ returned (Value.contact contact_al)
unfolding served done or_nil
get_al_locally = refl

call_fits : Fits (remote_call_to_bytes keys (call_of get_al))
unfolding remote_call_to_bytes args_to_bytes serialize write_tlv write_lv type_code put_uvarint
call_fits = omega arith

answer_fits : Fits (remote_response_to_bytes keys answer)
unfolding remote_response_to_bytes serialize write_tlv write_lv write_contact type_code put_uvarint
answer_fits = omega arith

remote_perform_example :
    (handle_response keys text api 0 true (request keys (call_of get_al)) with_al ≡ (
      returned (write_buffer (remote_response_to_bytes keys answer)),
      (perform api 0 get_al with_al).1,
    ))
    × (read_reply keys (write_buffer (remote_response_to_bytes keys answer))
        ≡ ok (outcome_of keys answer))
    × (reported text (perform api 0 get_al with_al).0 ≡ some (outcome_of keys answer))
unfolding response_of
remote_perform_example =
    remote_perform keys keys_laws text api 0 get_al answer with_al (λ e. omega arith)
      ((tt, tt), call_fits) (ap (response_of text) get_al_locally) tt answer_fits

connection_serves_all_example :
    handle_connection keys text api 0 true
      (printed keys keys_laws text api 0 true (call_of get_al ∷ call_of get_al ∷ []))
      (with_al, [])
    ≡ serve_all keys keys_laws text api 0 true (call_of get_al ∷ call_of get_al ∷ []) (with_al, [])
connection_serves_all_example =
    connection_serves_all keys keys_laws text api 0 true (call_of get_al ∷ call_of get_al ∷ [])
      (with_al, []) (((tt, tt), call_fits), (((tt, tt), call_fits), tt))

abbrev Reached : St → St → Type 0
Reached = Reach clear world keys (λ k. false) (λ t. t ∷ []) new_default_router

abbrev sent : RemoteCall Bytes Bytes
sent = call_of (Request.send al (9 ∷ []) (some (ecc (7 ∷ []))))

abbrev later : St
later = (admin_rpc api 0 sent (admin_rpc api 0 sent start).1).1
