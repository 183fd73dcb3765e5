-- ===== src/Policy/Poll/Runs.antt =====
-- A group whose one peer does not answer.
use ratnet.Prelude.{ℕ, suc, ◌≤◌, ◌≡◌, refl, some, [], ◌∷◌, true, arith}
use ratnet.Go.{Failure, returned, failed}
use ratnet.Wire.Value.{Peer}
use ratnet.Policy.Poll.{PollNode, Config, Loop, nth}
use ratnet.Policy.Poll.Rounds.{rounds, gives_up_group}

abbrev dead : Peer
dead = record { name = []; enabled = true; uri = 100 ∷ []; group = 49 ∷ [] }

-- The state counts the flushes.
abbrev lonely : PollNode ℕ
lonely = record {
  get_peers = λ group s. (returned (dead ∷ []), s);
  poll_server = λ uri s. (failed Failure.no_data, s);
  flush_outbox = λ age s. suc s;
}

abbrev config : Config
config = record { groups = (49 ∷ []) ∷ (50 ∷ []) ∷ []; retry_forever = true; retry_attempts = 3 }

first_group : nth config.groups 0 ≡ some (49 ∷ [])
unfolding nth
first_group = refl

abbrev start : Loop
start = record { fails = []; cur_group = 0; counter = 0 }

gives_up_group_example :
    (k : ℕ) × (k ≤ 3)
    × ((rounds lonely config (suc k) (start, 0)).0 ≡ returned tt)
    × ((rounds lonely config (suc k) (start, 0)).1.0.cur_group ≡ 1)
gives_up_group_example =
    gives_up_group lonely config start 0 (49 ∷ []) (dead ∷ []) (λ u s. (Failure.no_data, refl)) refl
      first_group (omega arith) (λ s. refl)
