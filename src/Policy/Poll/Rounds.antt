-- ===== src/Policy/Poll/Rounds.antt =====
-- When the loop goes on to the next group.
use ratnet.Prelude.{
  ◌⊎◌, lt→ltb, ==_iff, ◌%◌, ℕ, zero, suc, ◌<◌, ◌≤◌, ◌≡◌, refl, sym, ap, ◌∙◌, subst, false,
  Bool-cases, inl, inr, some, List, [], ◌∷◌, length, ◌==◌, if◌then◌else◌, Bytes, bytes_eq, arith,
}
use ratnet.Go.{Outcome, returned, Action, continue}
use ratnet.Wire.Value.{Peer}
use ratnet.Policy.Poll.{
  PollNode, Config, Loop, zero_or, fail_count, nth, try_peers, next_group, end_round, with_peers,
  in_group, round,
}
use ratnet.Policy.Poll.Retries.{Unanswered, Near, try_peers-Tried}

module _ {S : Type 0} (node : PollNode S) (config : Config) where
  -- So many rounds, up to one that panics.
  abbrev pub rounds : ℕ → Action (Loop × S) Unit
  rounds zero st = (returned tt, st)
  rounds (suc k) st = continue (round node config st) (λ _. rounds k)

  -- A round in a group none of whose peers answers.
  record Ended (l : Loop) (s : S) (peers : List Peer) : Type 0 where
    l' : Loop
    s' : S
    runs : round node config (l, s) ≡ (returned tt, (l', s'))
    moves_or_stays :
        (l'.cur_group ≡ suc l.cur_group)
        ⊎ ((l'.cur_group ≡ l.cur_group)
            × ((k : ℕ) → Near node config (suc k) l.fails peers → Near node config k l'.fails peers)
            × ¬ Near node config 0 l.fails peers)

  with_peers-returned :
      (l : Loop) (peers : List Peer) (o : Outcome (List Peer) × S)
      → o.0 ≡ returned peers
      → with_peers node config l o
        ≡ end_round node config l (try_peers node config peers (l.fails, o.1))
  unfolding with_peers
  with_peers-returned l peers (o, s) h = ap (λ o. with_peers node config l (o, s)) h

  next_group-zero :
      (l : Loop)
      → suc l.cur_group < length config.groups
      → next_group node config 0 l ≡ record l { fails = []; cur_group = suc l.cur_group }
  unfolding next_group
  next_group-zero l h = rw (lt→ltb (suc l.cur_group) (length config.groups) h)

  next_group-some : (n : ℕ) (l : Loop) → (n == 0) ≡ false → next_group node config n l ≡ l
  unfolding next_group
  next_group-some n l h = rw h

  round-Ended :
      (l : Loop) (s : S) (group : Bytes) (peers : List Peer)
      → Unanswered node config
      → nth config.groups l.cur_group ≡ some group
      → suc l.cur_group < length config.groups
      → (node.get_peers group s).0 ≡ returned peers
      → Ended l s peers
  unfolding round in_group end_round
  round-Ended l s group peers un in_range more_groups listed =
      let t = try_peers-Tried node config peers l.fails (node.get_peers group s).1 un in
      let start =
        ap (λ o. in_group node config o (l, s)) in_range
        ∙ with_peers-returned l peers (node.get_peers group s) listed
        ∙ ap (end_round node config l) t.runs in
      let flushed = if l.counter % 500 == 0 then node.flush_outbox 300 t.s' else t.s' in
      elim (Bool-cases (t.tries == 0)) [
        | inl none_tried ↦
            let l₁ : Loop = record l { fails = []; cur_group = suc l.cur_group } in
            record {
              l' = record l₁ { counter = suc l.counter };
              s' = flushed;
              runs =
                  start
                  ∙ ap (λ n. end_round node config l (returned n, (t.fails', t.s')))
                      ((==_iff t.tries 0).0 none_tried)
                  ∙ ap
                      (λ (m : Loop). (returned tt, (record m { counter = suc l.counter }, flushed)))
                      (next_group-zero (record l { fails = t.fails' }) more_groups);
              moves_or_stays = inl refl;
            }
        | inr some_tried ↦
            let l₁ : Loop = record l { fails = t.fails' } in
            record {
              l' = record l₁ { counter = suc l.counter };
              s' = flushed;
              runs =
                  start
                  ∙ ap
                      (λ (m : Loop). (returned tt, (record m { counter = suc l.counter }, flushed)))
                      (next_group-some t.tries l₁ some_tried);
              moves_or_stays =
                  inr (refl, t.nearer, λ near. ground (arith, some_tried, t.idle near));
            }
      ]

  -- The loop is in the next group after some rounds, at most `k` and one more.
  record HasMoved (k : ℕ) (l : Loop) (s : S) : Type 0 where
    after : ℕ
    soon : after ≤ k
    ends : (rounds (suc after) (l, s)).0 ≡ returned tt
    there : (rounds (suc after) (l, s)).1.0.cur_group ≡ suc l.cur_group

  moved_now :
      (k : ℕ) (l : Loop) (s : S) (peers : List Peer) (r : Ended l s peers)
      → r.l'.cur_group ≡ suc l.cur_group
      → HasMoved k l s
  moved_now k l s peers r moved = record {
    after = 0;
    soon = omega arith;
    ends = ap (λ o. (continue o (λ _. rounds 0)).0) r.runs;
    there = ap (λ o. (continue o (λ _. rounds 0)).1.0.cur_group) r.runs ∙ moved;
  }

  moved_later :
      (k : ℕ) (l : Loop) (s : S) (peers : List Peer) (r : Ended l s peers)
      → r.l'.cur_group ≡ l.cur_group
      → HasMoved k r.l' r.s'
      → HasMoved (suc k) l s
  moved_later k l s peers r stays m = record {
    after = suc m.after;
    soon = omega (arith, m.soon);
    ends = ap (λ o. (continue o (λ _. rounds (suc m.after))).0) r.runs ∙ m.ends;
    there =
        ap (λ o. (continue o (λ _. rounds (suc m.after))).1.0.cur_group) r.runs
        ∙ (m.there ∙ ap suc stays);
  }

  moves :
      (k : ℕ) (l : Loop) (s : S) (group : Bytes) (peers : List Peer)
      → Unanswered node config
      → nth config.groups l.cur_group ≡ some group
      → suc l.cur_group < length config.groups
      → ((s : S) → (node.get_peers group s).0 ≡ returned peers)
      → Near node config k l.fails peers
      → HasMoved k l s
  moves zero l s group peers un in_range more_groups listed near =
      let r = round-Ended l s group peers un in_range more_groups (listed s) in
      elim r.moves_or_stays [
        | inl moved ↦ moved_now zero l s peers r moved
        | inr (stays, nearer, busy) ↦ absurd (busy near)
      ]
  moves (suc k) l s group peers un in_range more_groups listed near =
      let r = round-Ended l s group peers un in_range more_groups (listed s) in
      let ih = λ (l' : Loop) (s' : S). moves k l' s' group peers un in
      elim r.moves_or_stays [
        | inl moved ↦ moved_now (suc k) l s peers r moved
        | inr (stays, nearer, busy) ↦ moved_later k l s peers r stays (
            ih r.l' r.s' (ap (nth config.groups) stays ∙ in_range)
              (subst (λ g. suc g < length config.groups) (sym stays) more_groups) listed
              (nearer k near))
      ]

  Near-fresh : (peers : List Peer) → Near node config config.retry_attempts [] peers
  unfolding fail_count zero_or
  Near-fresh [] = tt
  Near-fresh (p ∷ peers) = (λ en. omega arith, Near-fresh peers)

  -- Where no peer answers, and there is a group after this one: a loop that has just come to the group
  -- is in the next group after at most one round more than the number of attempts, and no round ends
  -- otherwise.
  pub gives_up_group :
      (l : Loop) (s : S) (group : Bytes) (peers : List Peer)
      → Unanswered node config
      → l.fails ≡ []
      → nth config.groups l.cur_group ≡ some group
      → suc l.cur_group < length config.groups
      → ((s : S) → (node.get_peers group s).0 ≡ returned peers)
      → (k : ℕ) × (k ≤ config.retry_attempts)
        × ((rounds (suc k) (l, s)).0 ≡ returned tt)
        × ((rounds (suc k) (l, s)).1.0.cur_group ≡ suc l.cur_group)
  gives_up_group l s group peers un fresh in_range more_groups listed =
      let m = moves config.retry_attempts l s group peers un in_range more_groups listed (
        subst (λ f. Near node config config.retry_attempts f peers) (sym fresh)
          (Near-fresh peers)) in
      (m.after, m.soon, m.ends, m.there)
