-- ===== src/Lib.antt =====
-- A model of ratnet, an anonymity network whose nodes pass encrypted messages on by polling one
-- another: its wire format, the router with its loop detection, the chunking of long messages and
-- their reassembly, the message queue, the node in memory, the outboxes in files and in a database, the
-- remote calls and what a listener does with them, and the policies that find peers and poll them.
-- Paths are from the repository's root.
--
-- The parts, and how they meet. A node sends (`SendMsg`) by encrypting a message, cutting it into
-- chunks where it is above the transports' byte limit, and putting it in its outbox. A peer polls:
-- `Pickup` takes the messages after a time stamp out of the outbox and prints them as one bundle, and
-- `Dropoff` reads a bundle and gives each message to the router. The router reads the header in front
-- of the message, drops a message whose nonce it has seen, lets the node handle the message, and
-- forwards it, which puts it in the outbox again. Chunks that a node handles are stored until the
-- debouncer's function puts them together. A peer or an administrator calls the node over a
-- transport: a listener reads a remote call from the connection, `PublicRPC` or `AdminRPC` performs
-- it, and the response goes back. A policy polls: `poll` goes over groups of peers that are
-- configured, `p2p` over those that it hears of by multicast.
--
--   Prelude         lists and tests on native numbers, and maps as association lists.
--   Go              outcomes (a value, an error or a panic) and actions on a state; Go/Keeps has what
--                   an action keeps.
--   Hex             hexadecimal numbers, of encoding/hex, fmt and strconv.
--   Api             the records of api/msg.go, api/router.go, api/transport.go and api/node.go, and
--                   the header in front of a message, which nodes/ram/admin.go and
--                   nodes/ram/internal.go print.
--   Wire            api/remoting.go and api/byte_reader.go: `serialize` and `deserialize` are
--                   Wire/Write and Wire/Parse over the values of Wire/Value; Wire/Varint is
--                   encoding/binary's; Wire/Calls has the remote calls and responses, Wire/Frame the
--                   buffers on a connection.
--   Router          router/default.go: Router/Recent is `RecentBuffer`, Router/Crc hash/crc32, and
--                   Router/Route the `DefaultRouter` and `Route`.
--   Outbox          nodes/ram/outbox.go; Outbox/Polls is a sequence of polls of it.
--   Chunking        api/chunking/chunking.go.
--   Streams         `AddStream` and `AddChunk` of nodes/ram/internal.go and the function that the
--                   debouncer of `Start` in nodes/ram/admin.go runs.
--   Node            nodes/ram: Node/Admin and Node/Profiles are the tables of admin.go, Node/Sending
--                   is `Send`, `SendChannel`, `SendMsg` and `Forward`, Node/Receiving is `Handle`,
--                   `Dropoff` and `Pickup`.
--   Rpc             nodes/rpc.go: `PublicRPC` is Rpc, `AdminRPC` is Rpc/Admin, and Rpc/Numbers has
--                   the numbers of api/actions.go.
--   Node/Served     the node in memory as what nodes/rpc.go calls.
--   Transport       `HandleResponse` and `RPC` of transports/https/https.go, and `handleConnection`
--                   of transports/tls/tls.go.
--   Files           nodes/fs: `Forward`, `SendMsg`, `Pickup` and `FlushOutbox` on the files of the
--                   outbox, in internal.go, admin.go, public.go and fsnode.go.
--   Sql             nodes/db/database.go: Sql has the tables of contacts, channels, profiles and peers,
--                   Sql/Mail the outbox, streams and chunks, Sql/Secrets the keys in tables and those
--                   that `BootstrapDB` reads; Sql/Laws is what the statements do, and
--                   Sql/Outbox is `Forward`, `SendMsg` and `Pickup` of nodes/db.
--   Policy          `PollServer` and the peer table of policy/common.go; Policy/Poll is the loop of
--                   policy/poll/poll.go, Policy/P2p `mdnsListen` and `mdnsAdvertise` of
--                   policy/p2p/p2p.go.
--
-- Functions have the names of the source in lower case (`msgs_since` for `MsgsSince`). State is
-- passed along: a mutex makes each method one step, so a method is a function from the state before
-- to an outcome and the state after. What the code takes from elsewhere is a parameter: the bencrypt
-- library is `KeyCodec` for the wire and `Crypto` for the node, the clock and the random stream
-- identifiers are `World`, and the node that a router or the chunking calls is `RouterNode` or
-- `ChunkNode`, which Node/Receiving and Node/Sending fill; `Link` is what a poll calls of the node
-- and the transport, and `PollNode` what the loop of `poll` calls. `NodeApi` is what nodes/rpc.go
-- calls, which Node/Served fills with the node in memory; `text` is the text of an error. The length
-- of the scheme that net/url finds is `scheme`. upper/db is `Collection` and `Database`, with `IsTable`
-- for what SQL documents of the statements.
--
-- Bounds. Numbers are natural; a uint16, uint32 or uint64 is below its power of two, and where the
-- code's arithmetic can wrap around, the remainder is written out. `deserialize` recurses into
-- arrays on fuel, and the fuel it is given is above the length of its input; every level takes a byte
-- at least. The loops of `SendChunked`, `Flush` and `SeenRecently` recurse on the rounds that are
-- left. An allocation is refused above 2 ^ 48 bytes. `events.Critical` panics, as in a release build;
-- the other events do nothing.
--
-- Not modelled: sockets, TLS sessions and their cache, sleeping, and goroutines, of which the
-- debouncer's function is run at any time (`Start`, `Stop` and `SetPolicy`; policy/server is three
-- calls of its transport); the opening of a database and its CREATE TABLE statements; the other
-- operations of nodes/db over its tables, and nodes/qldb, whose statements are strings for QL; the
-- tables, the streams and the chunking of nodes/fs, which repeat nodes/ram;
-- the JSON import and export, which goes by reflection; and the commands. The names of channels are
-- taken to be single path elements where they are directories of nodes/fs.
-- Where Go ranges over a map, its order is open; the model takes the order of insertion. Slices are
-- taken to have no capacity beyond their length, save where `Flush` depends on it.
pub mod Prelude
pub mod Wire
pub mod Router
pub mod Go
pub mod Api
pub mod Outbox
pub mod Hex
pub mod Files
pub mod Chunking
pub mod Sql
pub mod Streams
pub mod Node
pub mod Policy
pub mod Rpc
pub mod Transport
