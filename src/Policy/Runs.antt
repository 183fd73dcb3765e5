-- ===== src/Policy/Runs.antt =====
-- One exchange with a peer that answers, and the theorems at inputs that meet their conditions.
use ratnet.Prelude.{ℕ, ◌≡◌, refl, some, [], ◌∷◌, Bytes, Map, lookup, bytes_eq}
use ratnet.Go.{Failure, pure, fail}
use ratnet.Wire.Value.{Bundle}
use ratnet.Policy.{PeerInfo, Answer, Link, poll_server, new_peer_info}

abbrev ours : Bundle
ours = record { payload = 1 ∷ 2 ∷ []; time = 50 }

abbrev theirs : Bundle
theirs = record { payload = 3 ∷ []; time = 60 }

abbrev willing : Link Unit ℕ
willing = record {
  pickup = λ _ _. pure ours;
  dropoff = λ _. pure tt;
  remote_id = λ _. pure (Answer.key 7);
  remote_pickup = λ _ _ _. pure (Answer.bundle theirs);
  remote_dropoff = λ _ _. pure tt;
}

abbrev refusing : Link Unit ℕ
refusing = record willing { remote_dropoff = λ _ _. fail Failure.no_data }

abbrev host : Bytes
host = 104 ∷ []

abbrev peer : PeerInfo ℕ
peer = record {
  last_poll_local = 5;
  last_poll_remote = 6;
  total_bytes_tx = 9;
  total_bytes_rx = 0;
  routing_pub = some 7;
}

abbrev table : Map Bytes (PeerInfo ℕ)
table = (host, peer) ∷ []

-- The first exchange with a peer learns its key; the time of what was sent is not kept yet.
first_poll :
    lookup host (poll_server willing host 1 ([], tt)).1.0
    ≡ some (record {
      last_poll_local = 0;
      last_poll_remote = 60;
      total_bytes_tx = 2;
      total_bytes_rx = 1;
      routing_pub = some 7;
    })
unfolding poll_server new_peer_info
first_poll = refl
