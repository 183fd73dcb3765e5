-- ===== src/Files.antt =====
-- The node that keeps its outbox in files, nodes/fs. Its tables, streams and keys are those of the
-- node in memory, whose code nodes/fs repeats; its own are the files: a message is a file that is named
-- by the time, in the base directory, or in a directory of its channel. The name of a channel is one
-- path element, a file is written whole, and its modification time is the time of the write.
pub mod Pick
mod Runs
use ratnet.Prelude.{
  ℕ, zero, suc, ◌+◌, ◌-◌, ◌*◌, ◌^◌, Bool, true, false, ◌&&◌, ◌||◌, Option, none, some, List, [],
  ◌∷◌, ◌++◌, length, ltb, ◌==◌, if◌then◌else◌, Bytes, bytes_eq, Map, lookup, insert,
}
use ratnet.Go.{Failure, Outcome, returned, failed, panicked, Action, pure, fail, ◌>>=◌}
use ratnet.Api.{Msg, rx_sum}
use ratnet.Hex.{hex_digits, hex_number}
use ratnet.Wire.Value.{Bundle, KeyCodec}
use ratnet.Node.{Crypto, World, Node}
use ratnet.Node.Receiving.{pack}

pub record File : Type 0 where
  pub content : Bytes
  pub modified : ℕ

-- What stands in the base directory.
pub data Entry : Type 0 where
  file : File → Entry
  dir : Map Bytes File → Entry

abbrev pub Disk : Type 0
Disk = Map Bytes Entry

-- The names of files, and the errors of a path, are the operating system's.
unfoldable pub hex64 : ℕ → Bytes
unfolding hex_digits
hex64 n = hex_digits 16 n

-- os.Create in the base directory.
unfoldable pub create_at : Bytes → File → Option Entry → Disk → Outcome (Unit {0}) × Disk
unfolding insert
create_at name f (some (dir files)) disk = (failed Failure.from_os, disk)
create_at name f _ disk = (returned tt, insert name (file f) disk)

-- os.Mkdir of the channel's directory, whose error is dropped.
mkdir : Bytes → Option Entry → Disk → Disk
unfolding insert
mkdir channel none disk = insert channel (dir []) disk
mkdir channel (some e) disk = disk

unfoldable pub make_dir : Bytes → Disk → Disk
unfolding mkdir lookup
make_dir channel disk = mkdir channel (lookup channel disk) disk

-- os.Create in a directory.
unfoldable pub create_in : Bytes → Bytes → File → Option Entry → Disk → Outcome (Unit {0}) × Disk
unfolding insert
create_in channel name f (some (dir files)) disk =
    (returned tt, insert channel (dir (insert name f files)) disk)
create_in channel name f _ disk = (failed Failure.from_os, disk)

-- A message in the base directory, or in its channel's. The path of a channel without a name is the
-- base directory.
unfoldable pub store_file : Bool → Bytes → Bytes → File → Disk → Outcome (Unit {0}) × Disk
unfolding create_at create_in make_dir lookup
store_file false channel name f disk = create_at name f (lookup name disk) disk
store_file true [] name f disk = create_at name f (lookup name disk) disk
store_file true (b ∷ bs) name f disk =
    let made = make_dir (b ∷ bs) disk in create_in (b ∷ bs) name f (lookup (b ∷ bs) made) made

-- Names in the order of their bytes.
unfoldable pub bytes_le : Bytes → Bytes → Bool
bytes_le [] bs = true
bytes_le (a ∷ as') [] = false
bytes_le (a ∷ as') (b ∷ bs) = ltb a b || ((a == b) && bytes_le as' bs)

unfoldable pub put_sorted : {V : Type 0} → Bytes → V → Map Bytes V → Map Bytes V
unfolding bytes_le
put_sorted k v [] = (k, v) ∷ []
put_sorted k v ((j, w) ∷ m) =
    let rest = put_sorted k v m in if bytes_le k j then (k, v) ∷ (j, w) ∷ m else (j, w) ∷ rest

unfoldable pub sorted : {V : Type 0} → Map Bytes V → Map Bytes V
unfolding put_sorted
sorted [] = []
sorted ((k, v) ∷ m) = put_sorted k v (sorted m)

unfoldable pub files_of : Bytes → Entry → Map Bytes File
unfolding sorted
files_of name (file f) = (name, f) ∷ []
files_of name (dir files) = sorted files

unfoldable pub files_in : Map Bytes Entry → Map Bytes File
unfolding files_of
files_in [] = []
files_in ((name, e) ∷ entries) = files_of name e ++ files_in entries

-- The files as `filepath.Walk` meets them: each directory in lexical order.
unfoldable pub walk : Disk → Map Bytes File
unfolding files_in sorted
walk disk = files_in (sorted disk)

-- A number that an int64 holds.
unfoldable pub in_int64 : Option ℕ → Option ℕ
in_int64 none = none
in_int64 (some t) = if ltb t (2 ^ 63) then some t else none

-- strconv.ParseInt(fileName, 16, 64) of a name without a sign.
unfoldable pub file_time : Bytes → Option ℕ
unfolding hex_number in_int64
file_time [] = none
file_time (c ∷ cs) = in_int64 (hex_number 0 (c ∷ cs))

unfoldable pub with_time : Option ℕ → (ℕ → Outcome (List Bytes × ℕ)) → Outcome (List Bytes × ℕ)
with_time none next = failed Failure.bad_number
with_time (some t) next = next t

-- The function that `Pickup` walks with: what is collected, the time so far, and the bytes read.
unfoldable pub pick_loop : ℕ → List Bytes → ℕ → ℕ → Map Bytes File → Outcome (List Bytes × ℕ)
unfolding with_time file_time
pick_loop max_bytes msgs t bytes_read [] = returned (msgs, t)
pick_loop max_bytes msgs t bytes_read ((name, f) ∷ rest) =
    let size = length f.content in
    let skip = pick_loop max_bytes msgs t bytes_read rest in
    with_time (file_time name) λ time.
      if ltb 0 max_bytes && ltb max_bytes (size + bytes_read)
      then (if bytes_read == 0 then panicked else returned (msgs, t))
      else if ltb t time
      then pick_loop max_bytes (msgs ++ f.content ∷ []) time (bytes_read + size) rest
      else skip

unfoldable pub pick : Map Bytes File → ℕ → ℕ → Outcome (List Bytes × ℕ)
unfolding pick_loop
pick files last max_bytes = pick_loop max_bytes [] last 0 files

-- Whether a file is older than so many seconds, in nanoseconds.
is_old : ℕ → ℕ → File → Bool
is_old now max_age_seconds f = ltb (max_age_seconds * 1000000000) (now - f.modified)

fresh_files : ℕ → ℕ → Map Bytes File → Map Bytes File
unfolding is_old
fresh_files now age [] = []
fresh_files now age ((name, f) ∷ m) =
    let rest = fresh_files now age m in if is_old now age f then rest else (name, f) ∷ rest

-- FlushOutbox at the time `now`: old files are removed, and the directories stay.
unfoldable pub flush_files : ℕ → ℕ → Disk → Disk
unfolding fresh_files is_old
flush_files now age [] = []
flush_files now age ((name, dir files) ∷ disk) =
    (name, dir (fresh_files now age files)) ∷ flush_files now age disk
flush_files now age ((name, file f) ∷ disk) =
    let rest = flush_files now age disk in if is_old now age f then rest else (name, file f) ∷ rest

pub record FilesNode (Pub Priv : Type 0) : Type 0 where
  pub node : Node Pub Priv
  pub disk : Disk

module _ {Pub Priv : Type 0} (crypto : Crypto Pub Priv) (world : World) where
  -- The content behind the header, in a file.
  unfoldable pub put_file : Msg Pub → Bytes → Action (FilesNode Pub Priv) Unit
  unfolding store_file hex64 rx_sum
  put_file m content n =
      let now = world.now n.node.ticks in
      let f : File = record { content = rx_sum m ++ content; modified = now } in
      let (o, disk) = store_file m.is_chan m.name (hex64 now) f n.disk in
      (o, record { node = record n.node { ticks = suc n.node.ticks }; disk = disk })

  -- node.Forward
  unfoldable pub forward_file : Msg Pub → Action (FilesNode Pub Priv) Unit
  unfolding put_file
  forward_file m = put_file m m.content

  put_encrypted : Msg Pub → Option Bytes → Action (FilesNode Pub Priv) Unit
  unfolding put_file
  put_encrypted m none = fail Failure.from_crypto
  put_encrypted m (some content) = put_file m content

  -- `SendMsg` of a message that fits.
  unfoldable pub send_file : Msg Pub → Action (FilesNode Pub Priv) Unit
  unfolding put_encrypted
  send_file m n =
      put_encrypted m (crypto.encrypt n.node.ticks n.node.content_key m.content m.pub_key) n

  -- node.Pickup, which does not look at the channel names.
  unfoldable pub pickup_files :
      {Ecc Rsa : Type 0}
      → KeyCodec Ecc Rsa
      → Pub
      → ℕ
      → ℕ
      → List Bytes
      → Action (FilesNode Pub Priv) Bundle
  unfolding pick walk pack
  pickup_files codec rpub last max_bytes names n =
      let (o, node) = pack crypto world codec rpub (pick (walk n.disk) last max_bytes) n.node in
      (o, record n { node = node })
