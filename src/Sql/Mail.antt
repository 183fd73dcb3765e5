-- ===== src/Sql/Mail.antt =====
-- The outbox, the streams and the chunks in tables.
use ratnet.Prelude.{
  ℕ, suc, ◌+◌, ◌-◌, ◌*◌, Bool, true, ◌&&◌, Option, none, some, List, [], ◌∷◌, ◌++◌, length, ltb,
  ◌==◌, if◌then◌else◌, Bytes, bytes_beq,
}
use ratnet.Go.{Action, pure, ◌>>=◌, ◌>>◌}
use ratnet.Api.{OutboxMsg, StreamHeader, Chunk}
use ratnet.Sql.{Database, dropped, upsert_row}

unfoldable pub after_time : ℕ → Option ℕ
after_time last_time = if last_time == 0 then none else some last_time

-- The loop over the rows: what is collected, and the last time.
unfoldable pub read_rows : ℕ → ℕ → List Bytes → ℕ → List (Bytes × ℕ) → List Bytes × ℕ
read_rows max_bytes bytes_read msgs t [] = (msgs, t)
read_rows max_bytes bytes_read msgs t ((msg, ts) ∷ rows) =
    let rest =
      read_rows max_bytes (bytes_read + length msg) (msgs ++ msg ∷ []) (if ltb t ts then ts else t)
        rows in
    if ltb max_bytes (bytes_read + length msg) then (msgs, t) else rest

module _ {S : Type 0} (db : Database S) where
  unfoldable pub db_outbox_enqueue : Bytes → Bytes → ℕ → Bool → Action S Unit
  db_outbox_enqueue channel msg ts check_exists =
      let q : OutboxMsg → Bool = λ m. bytes_beq m.channel channel && bytes_beq m.msg msg in
      let put : Action S Unit =
        db.outbox.insert_row (record { channel = channel; msg = msg; time_stamp = ts }) in
      let checked : Action S Unit =
        db.outbox.one q >>= λ _. db.outbox.count q >>= λ n. if n == 0 then put else pure tt in
      if check_exists then checked else put

  -- Each message with a time stamp one above the one before.
  unfoldable pub insert_each : Bytes → ℕ → List Bytes → Action S Unit
  insert_each channel ts [] = pure tt
  insert_each channel ts (msg ∷ msgs) =
      db.outbox.insert_row (record { channel = channel; msg = msg; time_stamp = ts })
      >> insert_each channel (suc ts) msgs

  unfoldable pub outbox_bulk_insert : Bytes → ℕ → List Bytes → Action S Unit
  unfolding insert_each
  outbox_bulk_insert channel ts msgs = db.tx (insert_each channel ts msgs)

  -- The count of the rows is 1 at the first row, so that the error for a first message that does not
  -- fit is never returned.
  unfoldable pub db_get_messages : ℕ → ℕ → List Bytes → Action S (List Bytes × ℕ)
  unfolding read_rows after_time
  db_get_messages last_time max_bytes names =
      db.messages (record { after = after_time last_time; channels = names }) >>= λ rows.
      pure (read_rows max_bytes 0 [] last_time rows)

  unfoldable pub db_clear_stream : ℕ → Action S Unit
  unfolding dropped
  db_clear_stream id =
      dropped (db.chunks.delete_rows (λ c. c.stream_id == id))
      >> db.streams.delete_rows (λ h. h.stream_id == id)

  unfoldable pub db_add_stream : ℕ → ℕ → Bytes → Action S Unit
  unfolding upsert_row
  db_add_stream id total_chunks channel =
      upsert_row db.streams (λ h. h.stream_id == id)
        (record { stream_id = id; num_chunks = total_chunks; channel_name = channel })

  unfoldable pub db_add_chunk : ℕ → ℕ → Bytes → Action S Unit
  unfolding upsert_row
  db_add_chunk id chunk_num payload =
      upsert_row db.chunks (λ c. (c.stream_id == id) && (c.chunk_num == chunk_num))
        (record { stream_id = id; chunk_num = chunk_num; payload = payload })

  unfoldable pub db_get_streams : Action S (List StreamHeader)
  db_get_streams = db.streams.all (λ _. true)

  unfoldable pub db_get_chunk_count : ℕ → Action S ℕ
  db_get_chunk_count id = db.chunks.count (λ c. c.stream_id == id)

  unfoldable pub db_get_chunks : ℕ → Action S (List Chunk)
  db_get_chunks id = db.chunks.ordered_by (λ c. c.chunk_num) (λ c. c.stream_id == id)

  -- FlushOutbox at the time `now`.
  unfoldable pub db_flush_outbox : ℕ → ℕ → Action S Unit
  unfolding dropped
  db_flush_outbox now max_age_seconds =
      dropped (db.outbox.delete_rows (λ m. ltb m.time_stamp (now - max_age_seconds * 1000000000)))
