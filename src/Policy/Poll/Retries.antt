-- ===== src/Policy/Poll/Retries.antt =====
-- What a round of tries does to the counts, when no peer answers.
use ratnet.Prelude.{
  ℕ, suc, ◌+◌, ◌≤◌, ◌≡◌, refl, ap, ◌∙◌, true, ◌&&◌, Bool-cases, inl, inr, List, [], ◌∷◌, ltb, Bytes,
  bytes_eq, Map, insert, All, arith,
}
use ratnet.Go.{Failure, Outcome, returned, failed, Action, pure, continue}
use ratnet.Wire.Value.{Peer}
use ratnet.Policy.Poll.{PollNode, Config, fail_count, note, after_poll, try_peer, try_peers}
use ratnet.Policy.Poll.Counts.{
  Grows, fail_count-note, fail_count-failed_again, counted_more, and_true,
}

module _ {S : Type 0} (node : PollNode S) (config : Config) where
  -- No peer answers.
  abbrev pub Unanswered : Type 0
  Unanswered = (u : Bytes) (s : S) → (e : Failure) × ((node.poll_server u s).0 ≡ failed e)

  -- Every enabled peer is at most `k` failures away from the limit.
  abbrev pub Near : ℕ → Map Bytes ℕ → List Peer → Type 0
  Near k fails peers =
      All (λ p. p.enabled ≡ true → config.retry_attempts ≤ fail_count fails p.uri + k) peers

  Near-Grows :
      (k : ℕ) (before after : Map Bytes ℕ) (peers : List Peer)
      → Grows before after
      → Near k before peers
      → Near k after peers
  Near-Grows k before after [] g n = tt
  Near-Grows k before after (p ∷ peers) g (np, n) =
      (λ on. omega (arith, np on, g p.uri), Near-Grows k before after peers g n)

  -- What the tries of peers that do not answer do to the counts.
  pub record Tried (peers : List Peer) (fails : Map Bytes ℕ) (act : Action (Map Bytes ℕ × S) ℕ)
      (s : S) : Type 0 where
    pub tries : ℕ
    pub fails' : Map Bytes ℕ
    pub s' : S
    pub runs : act (fails, s) ≡ (returned tries, (fails', s'))
    pub grows : Grows fails fails'
    pub nearer : (k : ℕ) → Near (suc k) fails peers → Near k fails' peers
    pub idle : Near 0 fails peers → tries ≡ 0

  after_poll-failed :
      (u : Bytes) (fails : Map Bytes ℕ) (o : Outcome (Unit {0}) × S) (e : Failure)
      → o.0 ≡ failed e
      → after_poll node config u fails o
        ≡ (returned 1, (insert u (suc (fail_count fails u)) fails, o.1))
  unfolding after_poll
  after_poll-failed u fails (o, s) e h = ap (λ o. after_poll node config u fails (o, s)) h

  try_peer-Tried :
      (p : Peer) (fails : Map Bytes ℕ) (s : S)
      → Unanswered
      → Tried (p ∷ []) fails (try_peer node config p) s
  unfolding try_peer
  try_peer-Tried p fails s un =
      let noted = note p.uri fails in
      let same = fail_count-note fails p.uri in
      elim (Bool-cases (p.enabled && ltb (fail_count noted p.uri) config.retry_attempts)) [
        | inl on ↦
            let (e, failing) = un p.uri s in
            let more = counted_more noted p.uri in
            record {
              tries = 1;
              fails' = insert p.uri (suc (fail_count noted p.uri)) noted;
              s' = (node.poll_server p.uri s).1;
              runs = rw on (after_poll-failed p.uri noted (node.poll_server p.uri s) e failing);
              grows = λ v. omega (arith, more v, same v);
              nearer = λ k (h, _).
                  (λ en. omega (arith, h en, same p.uri, fail_count-failed_again noted p.uri), tt);
              idle = λ (h, _).
                  let (en, less) =
                    and_true p.enabled (ltb (fail_count noted p.uri) config.retry_attempts) on in
                  absurd (ground (arith, h en, less, same p.uri));
            }
        | inr off ↦ record {
          tries = 0;
          fails' = noted;
          s' = s;
          runs = rw off;
          grows = λ v. omega (arith, same v);
          nearer = λ k (h, _). (λ en. ground (arith, off, en, same p.uri), tt);
          idle = λ h. refl;
        }
      ]

  pub try_peers-Tried :
      (peers : List Peer) (fails : Map Bytes ℕ) (s : S)
      → Unanswered
      → Tried peers fails (try_peers node config peers) s
  unfolding try_peers
  try_peers-Tried [] fails s un = record {
    tries = 0;
    fails' = fails;
    s' = s;
    runs = refl;
    grows = λ v. omega arith;
    nearer = λ k n. tt;
    idle = λ n. refl;
  }
  try_peers-Tried (p ∷ peers) fails s un =
      let one = try_peer-Tried p fails s un in
      let more = try_peers-Tried peers one.fails' one.s' un in
      let rest = try_peers node config peers in
      record {
        tries = one.tries + more.tries;
        fails' = more.fails';
        s' = more.s';
        runs =
            ap (λ o. continue o (λ n st. continue (rest st) (λ m. pure (n + m)))) one.runs
            ∙ ap (λ o. continue o (λ m. pure (one.tries + m))) more.runs;
        grows = λ v. omega (arith, one.grows v, more.grows v);
        nearer = λ k (h, hs).
            let here =
              Near-Grows k one.fails' more.fails' (p ∷ []) more.grows (one.nearer k (h, tt)) in
            (here.0, more.nearer k (Near-Grows (suc k) fails one.fails' peers one.grows hs));
        idle = λ (h, hs).
            omega (
              arith,
              one.idle (h, tt),
              more.idle (Near-Grows 0 fails one.fails' peers one.grows hs),
            );
      }
