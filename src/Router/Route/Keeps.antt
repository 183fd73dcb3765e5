-- ===== src/Router/Route/Keeps.antt =====
-- `Route` keeps what each operation of the node keeps.
use ratnet.Prelude.{
  ◌+◌, Bool, true, false, Option, none, some, List, [], ◌∷◌, length, take, drop, ltb, leb, Bytes,
}
use ratnet.Go.{Outcome, returned, failed, panicked}
use ratnet.Go.Keeps.{Keeps, bind-Keeps, then-Keeps, if-Keeps, if-holds}
use ratnet.Api.{Msg, Patch}
use ratnet.Wire.Value.{Profile}
use ratnet.Router.Recent.{RecentBuffer, seen_recently}
use ratnet.Router.Route.{
  Settings, RouterNode, Parsed, nonce_size, first_patch, parse, renamed, forward_each, forward_by,
  forward_patched, if_known, handle_channel, route_channel, try_profiles, handle_content,
  handle_profiles, route_private, route_msg, after_seen, route_parsed, route,
}

-- The invariant of a node, each of whose operations keeps it.
pub record NodeKeeps {S Pub : Type 0} (node : RouterNode S Pub) (I : S → Type 0) : Type 0 where
  pub cid_keeps : Keeps I node.cid
  pub get_channel_keeps : (name : Bytes) → Keeps I (node.get_channel name)
  pub get_profiles_keeps : Keeps I node.get_profiles
  pub handle_keeps : (m : Msg Pub) → Keeps I (node.handle m)
  pub forward_keeps : (m : Msg Pub) → Keeps I (node.forward m)

module _ {S Pub : Type 0} (r : Settings) (node : RouterNode S Pub) (I : S → Type 0)
    (k : NodeKeeps node I) where
  forward_each-Keeps : (m : Msg Pub) (tos : List Bytes) → Keeps I (forward_each r node m tos)
  unfolding forward_each
  forward_each-Keeps m [] = λ s i. i
  forward_each-Keeps m (to ∷ tos) =
      then-Keeps I (node.forward (renamed r node m to)) (forward_each r node m tos)
        (k.forward_keeps _) (forward_each-Keeps m tos)

  forward_by-Keeps : (m : Msg Pub) (p : Option Patch) → Keeps I (forward_by r node m p)
  unfolding forward_by
  forward_by-Keeps m none = k.forward_keeps m
  forward_by-Keeps m (some p) = forward_each-Keeps m p.to

  forward_patched-Keeps : (m : Msg Pub) → Keeps I (forward_patched r node m)
  unfolding forward_patched
  forward_patched-Keeps m = forward_by-Keeps m (first_patch m.name r.patches)

  if_known-Keeps : (m : Msg Pub) (o : Outcome Bytes × S) → I o.1 → I (if_known r node m o).1
  unfolding if_known
  if_known-Keeps m (returned key, s) i = k.handle_keeps m s i
  if_known-Keeps m (failed e, s) i = i
  if_known-Keeps m (panicked, s) i = i

  handle_channel-Keeps : (b : Bool) (m : Msg Pub) → Keeps I (handle_channel r node b m)
  unfolding handle_channel
  handle_channel-Keeps false m s i = i
  handle_channel-Keeps true m s i =
      if_known-Keeps m (node.get_channel m.name s) (k.get_channel_keeps m.name s i)

  route_channel-Keeps : (m : Msg Pub) → Keeps I (route_channel r node m)
  unfolding route_channel
  route_channel-Keeps m =
      bind-Keeps I (handle_channel r node r.check_channels m) _ (handle_channel-Keeps _ m)
        λ consumed. if-Keeps I _ _ _ (forward_patched-Keeps m) (λ s i. i)

  try_profiles-Keeps : (ps : List Profile) (m : Msg Pub) → Keeps I (try_profiles r node m ps)
  unfolding try_profiles
  try_profiles-Keeps [] m = λ s i. i
  try_profiles-Keeps (p ∷ ps) m =
      let named : Msg Pub = record m { name = p.name } in
      if-Keeps I p.enabled _ (try_profiles r node m ps)
        (bind-Keeps I (node.handle named) _ (k.handle_keeps named)
          λ consumed. if-Keeps I consumed _ _ (λ s i. i) (try_profiles-Keeps ps named))
        (try_profiles-Keeps ps m)

  handle_content-Keeps : (b : Bool) (m : Msg Pub) → Keeps I (handle_content r node b m)
  unfolding handle_content
  handle_content-Keeps true m = k.handle_keeps m
  handle_content-Keeps false m = λ s i. i

  handle_profiles-Keeps : (b : Bool) (m : Msg Pub) → Keeps I (handle_profiles r node b m)
  unfolding handle_profiles
  handle_profiles-Keeps true m =
      bind-Keeps I node.get_profiles _ k.get_profiles_keeps λ ps. try_profiles-Keeps ps m
  handle_profiles-Keeps false m = λ s i. i

  route_private-Keeps : (m : Msg Pub) → Keeps I (route_private r node m)
  unfolding route_private
  route_private-Keeps m =
      bind-Keeps I (handle_content r node r.check_content m) _ (handle_content-Keeps _ m) λ content.
        bind-Keeps I (handle_profiles r node r.check_profiles m) _ (handle_profiles-Keeps _ m)
          λ profile. if-Keeps I _ _ _ (forward_patched-Keeps profile.1) (λ s i. i)

  route_msg-Keeps : (m : Msg Pub) → Keeps I (route_msg r node m)
  unfolding route_msg
  route_msg-Keeps m = if-Keeps I m.is_chan _ _ (route_channel-Keeps m) (route_private-Keeps m)

  after_seen-Keeps :
      (m : Msg Pub) (b : Bool × RecentBuffer) (s : S) → I s → I (after_seen r node m b s).1.1
  unfolding after_seen
  after_seen-Keeps m (true, recent) s i = i
  after_seen-Keeps m (false, recent) s i =
      then-Keeps I node.cid (route_msg r node m) k.cid_keeps (route_msg-Keeps m) s i

  abbrev pub Beside : RecentBuffer × S → Type 0
  Beside (recent, s) = I s

  abbrev Ends : Outcome (Unit {0}) × (RecentBuffer × S) → Type 0
  Ends (o, (recent, s)) = I s

  route_parsed-Keeps :
      (message : Bytes) (o : Outcome (Parsed Pub)) → Keeps Beside (route_parsed r node message o)
  unfolding route_parsed
  route_parsed-Keeps message (returned p) (recent, s) i =
      let seen = seen_recently (take nonce_size (drop p.idx message)) recent in
      if-holds Ends (leb (length message) (p.idx + 16)) i (
        if-holds Ends (ltb (length message) (p.idx + nonce_size)) i
          (after_seen-Keeps p.msg seen s i))
  route_parsed-Keeps message (failed e) s i = i
  route_parsed-Keeps message panicked s i = i

  pub route-Keeps : (message : Bytes) → Keeps Beside (route r node message)
  unfolding route
  route-Keeps message = route_parsed-Keeps message (parse message)
