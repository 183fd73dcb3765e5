-- ===== src/Outbox.antt =====
-- The message queue of nodes/ram/outbox.go. Its mutex makes each method one step. Time stamps are
-- nanoseconds since 1970, and not negative.
mod Runs
pub mod Flush
pub mod FlushAll
pub mod Since
pub mod Limit
pub mod Rising
pub mod Polls
use ratnet.Prelude.{
  ℕ, zero, suc, ◌+◌, ◌-◌, ◌*◌, Bool, true, false, ◌&&◌, ◌||◌, List, [], ◌∷◌, ◌++◌, take, drop,
  length, ltb, leb, ◌==◌, if◌then◌else◌, Bytes, bytes_beq, not,
}
use ratnet.Api.{OutboxMsg}
use ratnet.Go.{Outcome, returned, panicked}

-- o.Append
unfoldable pub append : List OutboxMsg → OutboxMsg → List OutboxMsg
append outbox m = outbox ++ m ∷ []

-- What `MsgExists` returns, and whether it holds the mutex when it does: the branch that finds a
-- message returns without the unlock.
unfoldable pub msg_exists : List OutboxMsg → Bytes → Bytes → Bool × Bool
msg_exists [] channel_name message = (false, false)
msg_exists (mail ∷ rest) channel_name message =
    if bytes_beq mail.channel channel_name && bytes_beq mail.msg message
    then (true, true)
    else msg_exists rest channel_name message

-- The slice of `Flush` and the array under it: the loop ranges over the array as the appends in its
-- body shift it, and the slice is the first `len` of it. After a reset the slice is empty, and
-- what is in the array no longer belongs to it.
pub record Slice : Type 0 where
  pub array : List OutboxMsg
  pub len : ℕ

-- `append(o[:index], o[index+1:]...)`: the elements of the slice behind `index` move down by one,
-- and those of the array behind the slice stay.
unfoldable pub remove_at : ℕ → Slice → Slice
remove_at index s = record {
  array =
      take index s.array
      ++ (take (s.len - (index + 1)) (drop (index + 1) s.array) ++ drop (s.len - 1) s.array);
  len = s.len - 1;
}

unfoldable pub flush_at : ℕ → ℕ → List OutboxMsg → Slice → Slice
unfolding remove_at
flush_at c index [] s = s
flush_at c index (mail ∷ _) s =
    if ltb mail.time_stamp c
    then (if ltb index s.len then remove_at index s else record s { len = 0 })
    else s

-- The rounds left, the index, and the slice.
unfoldable pub flush_loop : ℕ → ℕ → ℕ → Slice → Slice
unfolding flush_at
flush_loop c zero index s = s
flush_loop c (suc n) index s = flush_loop c n (suc index) (flush_at c index (drop index s.array) s)

-- `c` is the present time less the maximal age.
unfoldable pub flush : ℕ → List OutboxMsg → List OutboxMsg
unfolding flush_loop
flush c outbox =
    let s = flush_loop c (length outbox) 0 (record { array = outbox; len = length outbox }) in
    take s.len s.array

any_name : List Bytes → Bytes → Bool
any_name [] channel = false
any_name (n ∷ ns) channel = bytes_beq n channel || any_name ns channel

-- `names` is empty when the caller asks for every channel.
unfoldable pub picked : List Bytes → Bytes → Bool
unfolding any_name
picked [] channel = true
picked (n ∷ ns) channel = any_name (n ∷ ns) channel

unfoldable pub total : List Bytes → ℕ
total [] = 0
total (m ∷ ms) = length m + total ms

-- The loop of `MsgsSince`: what is collected, the time stamp of its last message, and the mails
-- that are left. `events.Critical` panics in a release build.
unfoldable pub since_loop :
    ℕ → ℕ → List Bytes → List Bytes → ℕ → List OutboxMsg → Outcome (List Bytes × ℕ)
unfolding picked total
since_loop last max_bytes names msgs t [] = returned (msgs, t)
since_loop last max_bytes names msgs t (mail ∷ rest) =
    let skip = since_loop last max_bytes names msgs t rest in
    let take_it = since_loop last max_bytes names (msgs ++ mail.msg ∷ []) mail.time_stamp rest in
    let size = total msgs in
    if ltb last mail.time_stamp && picked names mail.channel
    then (if ltb 0 max_bytes && ltb max_bytes (length mail.msg + size)
        then (if size == 0 then panicked else returned (msgs, t))
        else take_it)
    else skip

-- `max_bytes` is 0 where there is no limit.
unfoldable pub msgs_since : List OutboxMsg → ℕ → ℕ → List Bytes → Outcome (List Bytes × ℕ)
unfolding since_loop
msgs_since outbox last max_bytes names = since_loop last max_bytes names [] last outbox
