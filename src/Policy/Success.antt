-- ===== src/Policy/Success.antt =====
-- What one exchange leaves in the peer table.
use ratnet.Prelude.{
  ◌+◌, ◌<◌, ◌≡◌, ap, ◌∙◌, true, some, length, ltb, lt→ltb, Bytes, bytes_eq, Map, lookup, insert,
  lookup_inserted,
}
use ratnet.Go.{Failure, returned, failed, continue, ◌>>=◌}
use ratnet.Wire.Value.{Bundle}
use ratnet.Policy.{
  PeerInfo, Answer, Link, on_link, peer_of, read_peer_table, write_peer_table, routing_key,
  received, dropoff_remote, finish, exchange, enter, poll_server,
}

module _ {S Pub : Type 0} (link : Link S Pub) where
  read_lem :
      (host : Bytes) (p : PeerInfo Pub) (table : Map Bytes (PeerInfo Pub)) (s : S)
      → lookup host table ≡ some p
      → read_peer_table link host (table, s) ≡ (returned p, (table, s))
  unfolding read_peer_table
  read_lem host p table s h = ap (λ o. (returned (peer_of link o), (table, s))) h

  -- The peer after its bundle has come.
  abbrev counted : PeerInfo Pub → Bundle → PeerInfo Pub
  counted p b = record p { total_bytes_rx = p.total_bytes_rx + length b.payload }

  exchange_lem :
      (host : Bytes) (pubsrv k : Pub) (p : PeerInfo Pub) (b₁ b₂ : Bundle)
      → (table : Map Bytes (PeerInfo Pub)) (s s₁ s₂ : S) → lookup host table ≡ some p
      → link.pickup k p.last_poll_local s ≡ (returned b₁, s₁)
      → link.remote_pickup host pubsrv p.last_poll_remote s₁ ≡ (returned (Answer.bundle b₂), s₂)
      → exchange link host pubsrv (some k) (table, s)
        ≡ finish link host b₁ (some (some b₂)) (insert host (counted p b₂) table, s₂)
  unfolding exchange on_link received write_peer_table
  exchange_lem host pubsrv k p b₁ b₂ table s s₁ s₂ h e₁ e₂ =
      ap
        (λ r. continue r (λ q. on_link link (link.pickup k q.last_poll_local) >>= λ to_remote.
          on_link link (link.remote_pickup host pubsrv q.last_poll_remote) >>= λ raw.
          received link host q raw >>= finish link host to_remote))
        (read_lem host p table s h)
      ∙ rw (e₁, e₂)

  poll_lem :
      (host : Bytes) (pubsrv k : Pub) (p : PeerInfo Pub)
      → (table : Map Bytes (PeerInfo Pub)) (s : S) → lookup host table ≡ some p
      → p.routing_pub ≡ some k
      → poll_server link host pubsrv (table, s)
        ≡ exchange link host pubsrv (some k) (insert host p table, s)
  unfolding poll_server enter write_peer_table
  poll_lem host pubsrv k p table s h known =
      let further =
        λ (q : PeerInfo Pub). routing_key link host q q.routing_pub >>= exchange link host pubsrv in
      ap
        (λ r.
          continue (continue r (write_peer_table link host))
            (λ _. read_peer_table link host >>= further))
        (read_lem host p table s h)
      ∙ ap (λ r. continue r further)
          (read_lem host p (insert host p table) s (lookup_inserted host p table))
      ∙ ap
          (λ o.
            continue (routing_key link host p o (insert host p table, s))
              (exchange link host pubsrv))
          known

  -- When the remote node does not take the bundle, the poll fails and the time of the last local
  -- poll stays, so that the next poll gives the same messages again.
  pub poll_server_refused :
      (host : Bytes) (pubsrv k : Pub) (p : PeerInfo Pub) (b₁ b₂ : Bundle) (e : Failure)
      → (table : Map Bytes (PeerInfo Pub)) (s s₁ s₂ s₃ : S) → lookup host table ≡ some p
      → p.routing_pub ≡ some k
      → link.pickup k p.last_poll_local s ≡ (returned b₁, s₁)
      → link.remote_pickup host pubsrv p.last_poll_remote s₁ ≡ (returned (Answer.bundle b₂), s₂)
      → 0 < length b₁.payload
      → link.remote_dropoff host b₁ s₂ ≡ (failed e, s₃)
      → let r = poll_server link host pubsrv (table, s) in
        (r.0 ≡ failed e)
        × (lookup host r.1.0
            ≡ some (record p { total_bytes_rx = p.total_bytes_rx + length b₂.payload }))
  unfolding finish dropoff_remote on_link
  poll_server_refused host pubsrv k p b₁ b₂ e table s s₁ s₂ s₃ h known e₁ e₂ l₁ e₃ =
      let table₀ = insert host p table in
      let p₁ = counted p b₂ in
      let full : ltb 0 (length b₁.payload) ≡ true = lt→ltb _ _ l₁ in
      let refused : finish link host b₁ (some (some b₂)) (insert host p₁ table₀, s₂)
          ≡ (failed e, (insert host p₁ table₀, s₃)) =
        rw (full, e₃) in
      let run =
        poll_lem host pubsrv k p table s h known
        ∙ exchange_lem host pubsrv k p b₁ b₂ table₀ s s₁ s₂ (lookup_inserted host p table) e₁ e₂
        ∙ refused in
      (ap (λ r. r.0) run, ap (λ r. lookup host r.1.0) run ∙ lookup_inserted host p₁ table₀)
