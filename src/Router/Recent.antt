-- ===== src/Router/Recent.antt =====
-- `RecentBuffer` of router/default.go: the loop detection. Its mutex makes each call one step.
pub mod Queue
pub mod Window
pub mod Alarms
use ratnet.Prelude.{
  ℕ, zero, suc, ◌+◌, ◌-◌, ◌^◌, Bool, true, false, Option, none, some, List, [], ◌∷◌, length, leb,
  ltb, ◌==◌, if◌then◌else◌, Bytes, Map, lookup, insert, delete, nat_eq,
}
use ratnet.Router.Crc.{checksum_ieee}

abbrev pub cache_size : ℕ
cache_size = 4096

abbrev pub cache_discount : ℕ
cache_discount = 1024

abbrev pub max_int32 : ℕ
max_int32 = 2147483647

pub record RecentBuffer : Type 0 where
  pub recent : Map ℕ ℕ
  pub reverse : Map ℕ ℕ
  pub counter : ℕ

unfoldable pub new_recent_buffer : RecentBuffer
new_recent_buffer = record { recent = []; reverse = []; counter = 0 }

values : Map ℕ ℕ → List ℕ
values [] = []
values ((h, c) ∷ m) = c ∷ values m

-- `sort.Slice` with `<`.
place : ℕ → List ℕ → List ℕ
place a [] = a ∷ []
place a (b ∷ bs) = if leb a b then a ∷ b ∷ bs else b ∷ place a bs

sort : List ℕ → List ℕ
unfolding place
sort [] = []
sort (a ∷ as') = place a (sort as')

-- A missing key of a Go map reads as 0.
or_zero : Option ℕ → ℕ
or_zero none = 0
or_zero (some v) = v

delete_entry : ℕ → RecentBuffer → RecentBuffer
unfolding or_zero
delete_entry v r =
    let nh = or_zero (lookup v r.reverse) in
    record r { reverse = delete v r.reverse; recent = delete nh r.recent }

-- `for i := 0; i < discount; i++`, over the sorted values.
delete_entries : ℕ → List ℕ → RecentBuffer → RecentBuffer
unfolding delete_entry
delete_entries zero vs r = r
delete_entries (suc n) [] r = r
delete_entries (suc n) (v ∷ vs) r = delete_entries n vs (delete_entry v r)

collect : RecentBuffer → RecentBuffer
unfolding delete_entries sort values
collect r =
    let m = length r.recent in
    if ltb m cache_size
    then r
    else delete_entries (cache_size + cache_discount - m) (sort (values r.recent)) r

next_counter : ℕ → ℕ
next_counter c = if c == max_int32 then 0 else c + 1

record_hash : ℕ → RecentBuffer → RecentBuffer
unfolding next_counter
record_hash h r = record {
  recent = insert h r.counter r.recent;
  reverse = insert r.counter h r.reverse;
  counter = next_counter r.counter;
}

seen_hash : ℕ → RecentBuffer → Option ℕ → Bool × RecentBuffer
unfolding collect record_hash
seen_hash h r none = (false, collect (record_hash h r))
seen_hash h r (some c) = (true, collect r)

unfoldable pub seen_recently : Bytes → RecentBuffer → Bool × RecentBuffer
unfolding seen_hash
seen_recently nonce r = let h = checksum_ieee nonce in seen_hash h r (lookup h r.recent)
