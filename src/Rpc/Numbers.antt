-- ===== src/Rpc/Numbers.antt =====
-- The API call numbers of api/actions.go.
use ratnet.Prelude.{ℕ, ◌≡◌, refl, Option, none, some, ◌==◌, if◌then◌else◌}

-- The constants of `Action`, which is a byte.
pub data Method : Type 0 where
  null id dropoff pickup cid get_contact get_contacts add_contact delete_contact : Method
  get_channel get_channels add_channel delete_channel get_profile get_profiles : Method
  add_profile delete_profile load_profile get_peer get_peers add_peer delete_peer : Method
  send send_channel : Method

unfoldable pub number : Method → ℕ
number Method.null = 0
number Method.id = 1
number Method.dropoff = 2
number Method.pickup = 3
number Method.cid = 16
number Method.get_contact = 17
number Method.get_contacts = 18
number Method.add_contact = 19
number Method.delete_contact = 20
number Method.get_channel = 21
number Method.get_channels = 22
number Method.add_channel = 23
number Method.delete_channel = 24
number Method.get_profile = 25
number Method.get_profiles = 26
number Method.add_profile = 27
number Method.delete_profile = 28
number Method.load_profile = 29
number Method.get_peer = 30
number Method.get_peers = 31
number Method.add_peer = 32
number Method.delete_peer = 33
number Method.send = 34
number Method.send_channel = 35

-- The constant that a number is, if any.
unfoldable pub method_of : ℕ → Option Method
method_of a =
    if a == 0
    then some Method.null
    else if a == 1
    then some Method.id
    else if a == 2
    then some Method.dropoff
    else if a == 3
    then some Method.pickup
    else if a == 16
    then some Method.cid
    else if a == 17
    then some Method.get_contact
    else if a == 18
    then some Method.get_contacts
    else if a == 19
    then some Method.add_contact
    else if a == 20
    then some Method.delete_contact
    else if a == 21
    then some Method.get_channel
    else if a == 22
    then some Method.get_channels
    else if a == 23
    then some Method.add_channel
    else if a == 24
    then some Method.delete_channel
    else if a == 25
    then some Method.get_profile
    else if a == 26
    then some Method.get_profiles
    else if a == 27
    then some Method.add_profile
    else if a == 28
    then some Method.delete_profile
    else if a == 29
    then some Method.load_profile
    else if a == 30
    then some Method.get_peer
    else if a == 31
    then some Method.get_peers
    else if a == 32
    then some Method.add_peer
    else if a == 33
    then some Method.delete_peer
    else if a == 34
    then some Method.send
    else if a == 35
    then some Method.send_channel
    else none

pub method_of-number : (m : Method) → method_of (number m) ≡ some m
unfolding method_of number
method_of-number Method.null = refl
method_of-number _ = refl
