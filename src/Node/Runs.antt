-- ===== src/Node/Runs.antt =====
-- Nodes with a plain stand-in for the key library, and the theorems at inputs that meet their
-- conditions.
mod Polls
use ratnet.Prelude.{
  ℕ, suc, ◌<◌, ◌≡◌, refl, true, false, Option, some, none, [], ◌∷◌, ◌++◌, length, arith, Bytes,
  bytes_eq, lookup, if◌then◌else◌, ◌==◌,
}
use ratnet.Go.{Failure, returned, failed, panicked}
use ratnet.Api.{Msg, rx_sum}
use ratnet.Streams.{out_buffer_size}
use ratnet.Router.Route.{parse}
use ratnet.Router.Route.Header.{read_msg}
use ratnet.Node.{Opened, Crypto, World, Node}
use ratnet.Node.Admin.{get_contact, add_contact, delete_contact, add_channel}
use ratnet.Node.Profiles.{add_profile, load_profile}
use ratnet.Node.Sending.{send_whole_msg, forward, send_channel}
use ratnet.Node.Receiving.{handle, key_for, clear_msg}
use ratnet.Node.Contacts.{contact_rules}
use ratnet.Node.Laws.{transit, sent_is_handled, forward_transparent, load_profile_added}

-- A key is a number, and a cipher text is the receiver's key and the clear text.
abbrev seal : Bytes → Option ℕ → Option Bytes
seal content none = none
seal content (some key) = some (key ∷ content)

abbrev unseal : ℕ → Bytes → Opened
unseal key [] = record { tag_ok = false; clear = none }
unseal key (k ∷ content) =
    if k == key
    then record { tag_ok = true; clear = some content }
    else record { tag_ok = false; clear = some [] }

abbrev number_of : Bytes → Option ℕ
number_of [] = none
number_of (k ∷ _) = some k

abbrev plain : Crypto ℕ ℕ
plain = record {
  get_pub = λ k. k;
  clone = λ k. k;
  pub_to_b64 = λ k. k ∷ [];
  pub_from_b64 = λ _. number_of;
  priv_to_b64 = λ k. k ∷ [];
  priv_from_b64 = λ _. number_of;
  validate_pub_key = λ _ bs. true;
  encrypt = λ _ _. seal;
  decrypt = unseal;
}

abbrev world : World
world = record { now = λ t. t; random_id = λ _. some (1 ∷ 2 ∷ 3 ∷ 4 ∷ []) }

abbrev fresh_node : ℕ → Node ℕ ℕ
fresh_node key = record {
  content_key = key;
  routing_key = suc key;
  channels = [];
  contacts = [];
  peers = [];
  profiles = [];
  outbox = [];
  store = record { streams = []; chunks = []; out = [] };
  limits = [];
  ticks = 0;
}

abbrev club : Bytes
club = 99 ∷ []

abbrev member : Node ℕ ℕ
member = (add_channel plain club (5 ∷ []) (fresh_node 20)).1

abbrev to_club : Msg ℕ
to_club = record {
  name = club;
  content = 104 ∷ 105 ∷ [];
  is_chan = true;
  pub_key = some 5;
  chunked = false;
  stream_header = false;
}

abbrev cipher : Bytes
cipher = 5 ∷ 104 ∷ 105 ∷ []

-- A node of the channel sends to it, through `SendChannel`.
sent :
    (send_channel plain world club (104 ∷ 105 ∷ []) none member).1.outbox
    ≡ record { channel = club; msg = rx_sum to_club ++ cipher; time_stamp = 0 } ∷ []
unfolding send_channel add_channel rx_sum
sent = refl

club_key : key_for plain (read_msg to_club cipher) member ≡ some 5
unfolding key_for add_channel
club_key = refl

room : length member.store.out < out_buffer_size
unfolding add_channel
room = omega arith

sent_is_handled_example :
    ((send_whole_msg plain world to_club (fresh_node 10)).1.outbox
      ≡ [] ++ record { channel = club; msg = transit to_club cipher; time_stamp = 0 } ∷ [])
    × (parse {Pub = ℕ} (transit to_club cipher)
        ≡ returned (record { msg = read_msg to_club cipher; idx = length (rx_sum to_club) }))
    × ((handle plain (read_msg to_club cipher) member).0 ≡ returned true)
    × ((handle plain (read_msg to_club cipher) member).1.store.out
        ≡ member.store.out ++ clear_msg plain (read_msg to_club cipher) to_club.content ∷ [])
sent_is_handled_example =
    sent_is_handled plain world to_club (fresh_node 10) member cipher 5 (λ _. omega arith) refl refl
      club_key refl room
