-- ===== src/Router/Route/Runs.antt =====
-- Routing on concrete messages, and its theorems at inputs that meet their conditions.
use ratnet.Prelude.{
  ℕ, zero, suc, ◌+◌, ◌<◌, ◌≡◌, refl, true, false, none, List, [], ◌∷◌, ◌++◌, arith, Bytes, lookup,
}
use ratnet.Go.{returned, failed, pure, Failure}
use ratnet.Api.{Msg}
use ratnet.Router.Crc.{checksum_ieee}
use ratnet.Router.Recent.{new_recent_buffer, seen_recently, max_int32}
use ratnet.Router.Recent.Queue.{new_recent_buffer-IsQueue}
use ratnet.Router.Route.{
  RouterNode, flag_set, new_default_router, parse, route, forward_patched, patch,
}
use ratnet.Router.Route.Rules.{route_again}

-- A node that knows no channel, takes no message, and keeps what it is given to forward.
abbrev recorder : RouterNode (List (Msg Unit)) Unit
recorder = record {
  cid = pure tt;
  get_channel = λ _ s. (failed Failure.channel_not_found, s);
  get_profiles = pure [];
  handle = λ _. pure false;
  forward = λ m s. (returned tt, s ++ m ∷ []);
}

abbrev fill : ℕ → Bytes
fill zero = []
fill (suc n) = 7 ∷ fill n

abbrev news : Msg Unit
news = record {
  name = 110 ∷ 101 ∷ [];
  content = [];
  is_chan = true;
  pub_key = none;
  chunked = true;
  stream_header = false;
}

abbrev private_message : Bytes
private_message = 0 ∷ fill 40

parsed :
    parse {Pub = Unit} private_message
    ≡ returned (record {
      msg = record {
        name = [];
        content = fill 40;
        is_chan = false;
        pub_key = none;
        chunked = false;
        stream_header = false;
      };
      idx = 1;
    })
unfolding parse
parsed = refl

low : new_recent_buffer.counter + 1 < max_int32
unfolding new_recent_buffer
low = omega arith

new_nonce : (seen_recently (fill 32) new_recent_buffer).0 ≡ false
unfolding seen_recently checksum_ieee new_recent_buffer lookup
new_nonce = refl

route_again_example :
    let first = route new_default_router recorder private_message (new_recent_buffer, []) in
    let second = route new_default_router recorder private_message first.1 in
    (second.0 ≡ returned tt) × (second.1.1 ≡ first.1.1)
route_again_example =
    route_again new_default_router recorder private_message
      (record {
        msg = record {
          name = [];
          content = fill 40;
          is_chan = false;
          pub_key = none;
          chunked = false;
          stream_header = false;
        };
        idx = 1;
      })
      new_recent_buffer [] parsed (omega arith) new_recent_buffer-IsQueue low new_nonce

private_flag : flag_set 0 4 ≡ false
unfolding flag_set
private_flag = refl

-- A message without a channel name is one that a patch can send on to a channel.
patched :
    (forward_patched
      (patch (record { from = []; to = (99 ∷ []) ∷ [] ∷ [] }) new_default_router)
      recorder
      (record news { name = []; is_chan = false })
      []).1
    ≡ record news { name = 99 ∷ [] } ∷ record news { name = []; is_chan = false } ∷ []
unfolding forward_patched patch new_default_router
patched = refl
