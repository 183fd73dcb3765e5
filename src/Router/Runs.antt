-- ===== src/Router/Runs.antt =====
-- Loop detection on concrete nonces, and its theorems at inputs that meet their conditions.
use ratnet.Prelude.{◌+◌, ◌<◌, ◌≡◌, refl, true, false, [], ◌∷◌, arith, Bytes, lookup, insert}
use ratnet.Router.Crc.{checksum_ieee}
use ratnet.Router.Recent.{new_recent_buffer, seen_recently, max_int32}
use ratnet.Router.Recent.Queue.{observe, hashes, IsQueue, new_recent_buffer-IsQueue}
use ratnet.Router.Recent.Queue.Refines.{seen_recently_refines}
use ratnet.Router.Recent.Window.{run, seen_again}

abbrev first : Bytes
first = 1 ∷ 2 ∷ 3 ∷ []

abbrev second : Bytes
second = 9 ∷ 9 ∷ []

first_new : (seen_recently first new_recent_buffer).0 ≡ false
unfolding seen_recently checksum_ieee new_recent_buffer lookup
first_new = refl

first_again : (seen_recently first (run (first ∷ second ∷ []) new_recent_buffer)).0 ≡ true
unfolding seen_recently checksum_ieee new_recent_buffer lookup insert
first_again = refl

counter_low : new_recent_buffer.counter + 2 < max_int32
unfolding new_recent_buffer
counter_low = omega arith

seen_recently_refines_example :
    ((seen_recently first new_recent_buffer).0
      ≡ (observe (checksum_ieee first) (hashes new_recent_buffer.recent)).0)
    × (hashes (seen_recently first new_recent_buffer).1.recent
        ≡ (observe (checksum_ieee first) (hashes new_recent_buffer.recent)).1)
    × IsQueue (seen_recently first new_recent_buffer).1
seen_recently_refines_example =
    seen_recently_refines first new_recent_buffer new_recent_buffer-IsQueue
      (omega (arith, counter_low))

seen_again_example :
    (seen_recently first (run (second ∷ []) (seen_recently first new_recent_buffer).1)).0 ≡ true
seen_again_example =
    seen_again first (second ∷ []) new_recent_buffer new_recent_buffer-IsQueue
      (omega (arith, counter_low)) (omega arith) first_new
