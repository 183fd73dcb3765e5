-- ===== src/Policy/Poll.antt =====
-- The loop of policy/poll/poll.go over the groups of peers. The sleep between the rounds and the test
-- that the policy is still running are left out; the counter of rounds does not overflow.
pub mod Counts
pub mod Retries
pub mod Rounds
mod Runs
use ratnet.Prelude.{
  ℕ, zero, suc, ◌+◌, ◌%◌, Bool, true, false, ◌&&◌, Option, none, some, List, [], ◌∷◌, length, ltb,
  ◌==◌, if◌then◌else◌, Bytes, bytes_eq, Map, lookup, insert,
}
use ratnet.Go.{Failure, Outcome, returned, failed, panicked, Action, pure, ◌>>=◌}
use ratnet.Wire.Value.{Peer}

-- What the loop calls: the node's `GetPeers` and `FlushOutbox`, and `PollServer` of the peer table.
pub record PollNode (S : Type 0) : Type 0 where
  pub get_peers : Bytes → Action S (List Peer)
  pub poll_server : Bytes → Action S Unit
  pub flush_outbox : ℕ → S → S

-- The public settings of a `Poll`.
pub record Config : Type 0 where
  pub groups : List Bytes
  pub retry_forever : Bool
  pub retry_attempts : ℕ

-- New, with the groups that it is given.
unfoldable pub new : List Bytes → Config
new [] = record { groups = [] ∷ []; retry_forever = true; retry_attempts = 3 }
new (g ∷ gs) = record { groups = g ∷ gs; retry_forever = true; retry_attempts = 3 }

-- The variables of the loop.
pub record Loop : Type 0 where
  pub fails : Map Bytes ℕ
  pub cur_group : ℕ
  pub counter : ℕ

unfoldable pub started : Loop
started = record { fails = []; cur_group = 0; counter = 0 }

zero_or : Option ℕ → ℕ
zero_or none = 0
zero_or (some n) = n

-- fails[uri]
unfoldable pub fail_count : Map Bytes ℕ → Bytes → ℕ
unfolding lookup zero_or
fail_count fails uri = zero_or (lookup uri fails)

noted : Option ℕ → Bytes → Map Bytes ℕ → Map Bytes ℕ
noted none uri fails = insert uri 0 fails
noted (some n) uri fails = fails

-- A URI that is new has failed 0 times.
unfoldable pub note : Bytes → Map Bytes ℕ → Map Bytes ℕ
unfolding lookup noted
note uri fails = noted (lookup uri fails) uri fails

unfoldable pub nth : List Bytes → ℕ → Option Bytes
nth [] i = none
nth (g ∷ gs) zero = some g
nth (g ∷ gs) (suc i) = nth gs i

module _ {S : Type 0} (node : PollNode S) (config : Config) where
  unfoldable pub after_poll :
      Bytes → Map Bytes ℕ → Outcome (Unit {0}) × S → Outcome ℕ × (Map Bytes ℕ × S)
  unfolding insert fail_count
  after_poll uri fails (returned u, s) = (returned 1, (insert uri 0 fails, s))
  after_poll uri fails (failed e, s) =
      (returned 1, (insert uri (suc (fail_count fails uri)) fails, s))
  after_poll uri fails (panicked, s) = (panicked, (fails, s))

  -- Whether it was tried, as a number.
  unfoldable pub try_peer : Peer → Action (Map Bytes ℕ × S) ℕ
  unfolding after_poll note fail_count
  try_peer element (fails, s) =
      let fails' = note element.uri fails in
      if element.enabled && ltb (fail_count fails' element.uri) config.retry_attempts
      then after_poll element.uri fails' (node.poll_server element.uri s)
      else (returned 0, (fails', s))

  unfoldable pub try_peers : List Peer → Action (Map Bytes ℕ × S) ℕ
  unfolding try_peer
  try_peers [] = pure 0
  try_peers (element ∷ peers) = try_peer element >>= λ n. try_peers peers >>= λ m. pure (n + m)

  -- On to the next group, or back to the first, where nothing was tried.
  unfoldable pub next_group : ℕ → Loop → Loop
  next_group tries l =
      if tries == 0
      then (if ltb (suc l.cur_group) (length config.groups)
          then record l { fails = []; cur_group = suc l.cur_group }
          else if config.retry_forever
          then record l { fails = []; cur_group = 0 }
          else l)
      else l

  unfoldable pub end_round : Loop → Outcome ℕ × (Map Bytes ℕ × S) → Outcome (Unit {0}) × (Loop × S)
  unfolding next_group
  end_round l (returned tries, (fails, s)) =
      let l' = next_group tries (record l { fails = fails }) in
      (
        returned tt,
        (
          record l' { counter = suc l.counter },
          if l.counter % 500 == 0 then node.flush_outbox 300 s else s,
        ),
      )
  end_round l (failed e, (fails, s)) = (failed e, (record l { fails = fails }, s))
  end_round l (panicked, (fails, s)) = (panicked, (record l { fails = fails }, s))

  -- An error of `GetPeers` ends the round, before the counter goes up.
  unfoldable pub with_peers : Loop → Outcome (List Peer) × S → Outcome (Unit {0}) × (Loop × S)
  unfolding end_round try_peers
  with_peers l (returned peers, s) = end_round l (try_peers peers (l.fails, s))
  with_peers l (failed e, s) = (returned tt, (l, s))
  with_peers l (panicked, s) = (panicked, (l, s))

  -- p.Groups[p.curGroupIndex], which panics out of range.
  unfoldable pub in_group : Option Bytes → Action (Loop × S) Unit
  unfolding with_peers
  in_group none s = (panicked, s)
  in_group (some group) (l, s) = with_peers l (node.get_peers group s)

  unfoldable pub round : Action (Loop × S) Unit
  unfolding in_group nth
  round (l, s) = in_group (nth config.groups l.cur_group) (l, s)
