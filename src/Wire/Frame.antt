-- ===== src/Wire/Frame.antt =====
-- Length-prefixed buffers on a connection: `ReadBuffer` and `WriteBuffer` of api/remoting.go.
-- The reader is what the peer sends until it closes the connection.
pub mod ReadsBack
use ratnet.Prelude.{ℕ, ◌++◌, ltb, if◌then◌else◌, length, take, drop, Bytes, List, [], ◌∷◌}
use ratnet.Wire.Varint.{Uvarint, done, short, overflow, put_uvarint, read_uvarint}
use ratnet.Wire.Read.{
  Result, Reader, ok, err, panic, bind, max_alloc, eof, varint_overflow, underflow,
}

unfoldable pub write_buffer : Bytes → Bytes
write_buffer b = put_uvarint (length b) ++ b

fill_buffer : ℕ → Reader Bytes
fill_buffer rlen bs =
    if ltb max_alloc rlen
    then panic
    else if ltb (length bs) rlen
    then err underflow
    else ok (take rlen bs, drop rlen bs)

buffer_of : Uvarint → Result (Bytes × Bytes)
buffer_of (done rlen rest) = fill_buffer rlen rest
buffer_of short = err eof
buffer_of overflow = err varint_overflow

unfoldable pub read_buffer : Reader Bytes
unfolding buffer_of fill_buffer
read_buffer bs = buffer_of (read_uvarint bs)

-- What a sender writes, and what a receiver reads, one buffer after the other.
unfoldable pub write_buffers : List Bytes → Bytes
write_buffers [] = []
write_buffers (b ∷ bs) = write_buffer b ++ write_buffers bs
