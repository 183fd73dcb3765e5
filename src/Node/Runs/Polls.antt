-- ===== src/Node/Runs/Polls.antt =====
-- A poll and a long message between nodes with a plain stand-in for the key library.
use ratnet.Prelude.{ℕ, zero, suc, ◌≡◌, refl, false, some, [], ◌∷◌, arith, Bytes}
use ratnet.Go.{returned}
use ratnet.Api.{Msg}
use ratnet.Wire.Parse.Structs.{Fits}
use ratnet.Wire.Write.{serialize, write_tlv, write_lv, write_slice, write_each, type_code}
use ratnet.Wire.Varint.{put_uvarint}
use ratnet.Wire.Value.{KeyCodec, KeyCodecLaws}
use ratnet.Wire.Calls.{bytes_bytes_to_bytes}
use ratnet.Outbox.{msgs_since}
use ratnet.Chunking.{chunk_size}
use ratnet.Chunking.Pieces.{stream_msgs, send_all}
use ratnet.Chunking.Sent.{cut}
use ratnet.Router.Recent.{new_recent_buffer}
use ratnet.Router.Route.{new_default_router}
use ratnet.Node.{Node}
use ratnet.Node.Sending.{send_msg}
use ratnet.Node.Receiving.{route_all, dropoff, pickup}
use ratnet.Node.Runs.{plain, world, fresh_node}
use ratnet.Node.Exchange.{pickup-dropoff}
use ratnet.Node.Cutting.{whole_sender, send_msg_cut}

abbrev keys : KeyCodec Bytes Bytes
keys = record {
  ecc_to_bytes = λ k. k;
  ecc_from_bytes = λ bs. some bs;
  rsa_to_bytes = λ k. k;
  rsa_from_bytes = λ bs. some bs;
}

abbrev keys_laws : KeyCodecLaws keys
keys_laws = record { ecc_reads_back = λ k. refl; rsa_reads_back = λ k. refl }

abbrev fill : ℕ → Bytes
fill zero = []
fill (suc n) = 7 ∷ fill n

abbrev waiting : Bytes
waiting = 0 ∷ fill 20

abbrev giver : Node ℕ ℕ
giver = record (fresh_node 1) {
  outbox = record { channel = []; msg = waiting; time_stamp = 9 } ∷ [];
}

given : msgs_since giver.outbox 3 0 [] ≡ returned (waiting ∷ [], 9)
unfolding msgs_since
given = refl

printed : Fits (bytes_bytes_to_bytes keys (waiting ∷ []))
unfolding bytes_bytes_to_bytes serialize write_tlv write_lv type_code put_uvarint write_slice
    write_each
printed = omega arith

abbrev cipher : Bytes
cipher = 2 ∷ bytes_bytes_to_bytes keys (waiting ∷ [])

pickup-dropoff_example :
    ((pickup plain world keys 2 3 0 [] giver).0 ≡ returned (record { payload = cipher; time = 9 }))
    × (dropoff plain world keys new_default_router
          (record { payload = cipher; time = 9 })
          (new_recent_buffer, fresh_node 1)
        ≡ route_all plain world new_default_router (waiting ∷ []) (new_recent_buffer, fresh_node 1))
pickup-dropoff_example =
    pickup-dropoff plain world keys new_default_router 2 3 0 9 [] giver (fresh_node 1)
      new_recent_buffer waiting [] cipher keys_laws given printed refl (omega arith) refl

abbrev long : Msg ℕ
long = record {
  name = [];
  content = fill 900;
  is_chan = false;
  pub_key = some 2;
  chunked = false;
  stream_header = false;
}

abbrev limited : Node ℕ ℕ
limited = record (fresh_node 1) { limits = 1000 ∷ [] }

limit : chunk_size limited.limits ≡ returned 868
unfolding chunk_size
limit = refl

send_msg_cut_example :
    send_msg plain world long limited
    ≡ send_all
        (whole_sender plain world)
        (stream_msgs long (1 ∷ 2 ∷ 3 ∷ 4 ∷ []) (cut 868 long.content))
        (record limited { ticks = 1 })
send_msg_cut_example =
    send_msg_cut plain world long limited 868 (1 ∷ 2 ∷ 3 ∷ 4 ∷ []) limit (omega arith) refl
      (omega arith) (omega arith) refl refl
