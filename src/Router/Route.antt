-- ===== src/Router/Route.antt =====
-- `Route` of router/default.go. A message is a slice whose capacity is its length.
pub mod Header
pub mod Rules
pub mod Keeps
mod Runs
use ratnet.Prelude.{
  ℕ, zero, suc, ◌+◌, ◌-◌, ◌*◌, ◌/◌, ◌%◌, Bool, true, false, ◌&&◌, ◌||◌, not, Option, some, none,
  List, [], ◌∷◌, ◌++◌, length, take, drop, ltb, leb, ◌==◌, if◌then◌else◌, Bytes, bytes_beq,
}
use ratnet.Go.{
  Failure, Outcome, returned, failed, panicked, Action, pure, fail, panic, continue, ◌>>=◌, ◌>>◌,
}
use ratnet.Api.{Msg, Patch}
use ratnet.Wire.Value.{Profile}
use ratnet.Router.Recent.{RecentBuffer, seen_recently, new_recent_buffer}

abbrev pub nonce_size : ℕ
nonce_size = 32

-- The configuration of a `DefaultRouter`.
pub record Settings : Type 0 where
  pub patches : List Patch
  pub check_content : Bool
  pub check_channels : Bool
  pub check_profiles : Bool
  pub forward_consumed_content : Bool
  pub forward_consumed_channels : Bool
  pub forward_consumed_profiles : Bool
  pub forward_unknown_content : Bool
  pub forward_unknown_channels : Bool
  pub forward_unknown_profiles : Bool

unfoldable pub new_default_router : Settings
new_default_router = record {
  patches = [];
  check_content = true;
  check_channels = true;
  check_profiles = false;
  forward_consumed_content = false;
  forward_consumed_channels = true;
  forward_consumed_profiles = false;
  forward_unknown_content = true;
  forward_unknown_channels = true;
  forward_unknown_profiles = false;
}

-- r.Patch
unfoldable pub patch : Patch → Settings → Settings
patch p r = record r { patches = r.patches ++ p ∷ [] }

-- What the router calls of a node.
pub record RouterNode (S Pub : Type 0) : Type 0 where
  pub cid : Action S Pub
  pub get_channel : Bytes → Action S Bytes
  pub get_profiles : Action S (List Profile)
  pub handle : Msg Pub → Action S Bool
  pub forward : Msg Pub → Action S Unit

-- `flags & flag != 0`, for a flag that is a power of two.
unfoldable pub flag_set : ℕ → ℕ → Bool
flag_set flags flag = flags / flag % 2 == 1

-- A message and where its content begins.
pub record Parsed (Pub : Type 0) : Type 0 where
  pub msg : Msg Pub
  pub idx : ℕ

module _ {Pub : Type 0} where
  unfoldable pub msg_of : ℕ → Bool → Bytes → Bytes → Msg Pub
  unfolding flag_set
  msg_of flags is_chan name content = record {
    name = name;
    content = content;
    is_chan = is_chan;
    pub_key = none;
    chunked = flag_set flags 2;
    stream_header = flag_set flags 1;
  }

  -- message[3 : 3+channelLen], whose end is a uint16.
  unfoldable pub parse_channel : ℕ → Bytes → Outcome (Parsed Pub)
  unfolding msg_of
  parse_channel flags (hi ∷ lo ∷ rest) =
      let channel_len = 256 * hi + lo in
      let end = (3 + channel_len) % 65536 in
      if leb 3 end && leb end (3 + length rest)
      then returned (record {
        msg = msg_of flags true (take (end - 3) rest) (drop channel_len rest);
        idx = 3 + channel_len;
      })
      else panicked
  parse_channel flags _ = panicked

  unfoldable pub parse : Bytes → Outcome (Parsed Pub)
  unfolding parse_channel
  parse [] = panicked
  parse (flags ∷ rest) =
      if flag_set flags 4
      then parse_channel flags rest
      else returned (record { msg = msg_of flags false [] rest; idx = 1 })

first_patch : Bytes → List Patch → Option Patch
first_patch name [] = none
first_patch name (p ∷ ps) = if bytes_beq name p.from then some p else first_patch name ps

module _ {S Pub : Type 0} (r : Settings) (node : RouterNode S Pub) where
  -- A channel's message where the name is not empty.
  unfoldable pub renamed : Msg Pub → Bytes → Msg Pub
  renamed msg [] = record msg { name = []; is_chan = false }
  renamed msg (b ∷ bs) = record msg { name = b ∷ bs; is_chan = true }

  unfoldable pub forward_each : Msg Pub → List Bytes → Action S Unit
  unfolding renamed
  forward_each msg [] = pure tt
  forward_each msg (to ∷ tos) = node.forward (renamed msg to) >> forward_each msg tos

  unfoldable pub forward_by : Msg Pub → Option Patch → Action S Unit
  unfolding forward_each
  forward_by msg none = node.forward msg
  forward_by msg (some p) = forward_each msg p.to

  -- r.forward
  unfoldable pub forward_patched : Msg Pub → Action S Unit
  unfolding forward_by first_patch
  forward_patched msg = forward_by msg (first_patch msg.name r.patches)

  -- The handler runs where `GetChannel` gives no error.
  unfoldable pub if_known : Msg Pub → Outcome Bytes × S → Outcome Bool × S
  if_known msg (returned pubkey, s) = node.handle msg s
  if_known msg (failed e, s) = (returned false, s)
  if_known msg (panicked, s) = (panicked, s)

  unfoldable pub handle_channel : Bool → Msg Pub → Action S Bool
  unfolding if_known
  handle_channel false msg s = (returned false, s)
  handle_channel true msg s = if_known msg (node.get_channel msg.name s)

  unfoldable pub route_channel : Msg Pub → Action S Unit
  unfolding handle_channel forward_patched
  route_channel msg = handle_channel r.check_channels msg >>= λ consumed.
      if (not consumed && r.forward_unknown_channels) || (consumed && r.forward_consumed_channels)
      then forward_patched msg
      else pure tt

  -- Whether a profile took the message, and the message, which keeps the name of the last profile
  -- that was tried.
  unfoldable pub try_profiles : Msg Pub → List Profile → Action S (Bool × Msg Pub)
  try_profiles msg [] = pure (false, msg)
  try_profiles msg (p ∷ ps) =
      let named = record msg { name = p.name } in
      let skip = try_profiles msg ps in
      let next = try_profiles named ps in
      if p.enabled
      then (node.handle named >>= λ consumed. if consumed then pure (true, named) else next)
      else skip

  unfoldable pub handle_content : Bool → Msg Pub → Action S Bool
  handle_content true msg = node.handle msg
  handle_content false msg = pure false

  unfoldable pub handle_profiles : Bool → Msg Pub → Action S (Bool × Msg Pub)
  unfolding try_profiles
  handle_profiles true msg = node.get_profiles >>= try_profiles msg
  handle_profiles false msg = pure (false, msg)

  unfoldable pub route_private : Msg Pub → Action S Unit
  unfolding handle_content handle_profiles forward_patched
  route_private msg = handle_content r.check_content msg >>= λ content.
      handle_profiles r.check_profiles msg >>= λ profile.
      if (not content && not profile.0 && (r.forward_unknown_content || r.forward_unknown_profiles))
        || (content && r.forward_consumed_content)
        || (profile.0 && r.forward_consumed_profiles)
      then forward_patched profile.1
      else pure tt

  unfoldable pub route_msg : Msg Pub → Action S Unit
  unfolding route_channel route_private
  route_msg msg = if msg.is_chan then route_channel msg else route_private msg

  -- What follows the loop detection.
  unfoldable pub after_seen :
      Msg Pub → Bool × RecentBuffer → S → Outcome (Unit {0}) × (RecentBuffer × S)
  unfolding route_msg
  after_seen msg (true, recent) s = (returned tt, (recent, s))
  after_seen msg (false, recent) s =
      let (o, s') = (node.cid >> route_msg msg) s in (o, (recent, s'))

  -- The length check asks for 16 bytes, and the nonce is 32.
  unfoldable pub route_parsed : Bytes → Outcome (Parsed Pub) → Action (RecentBuffer × S) Unit
  unfolding after_seen seen_recently
  route_parsed message (returned p) (recent, s) =
      if leb (length message) (p.idx + 16)
      then (failed Failure.malformed_message, (recent, s))
      else if ltb (length message) (p.idx + nonce_size)
      then (panicked, (recent, s))
      else after_seen p.msg (seen_recently (take nonce_size (drop p.idx message)) recent) s
  route_parsed message (failed e) s = (failed e, s)
  route_parsed message panicked s = (panicked, s)

  unfoldable pub route : Bytes → Action (RecentBuffer × S) Unit
  unfolding route_parsed parse
  route message = route_parsed message (parse message)
