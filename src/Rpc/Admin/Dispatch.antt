-- ===== src/Rpc/Admin/Dispatch.antt =====
-- That the dispatch does what a call asks, and nothing else.
use ratnet.Prelude.{ℕ, ◌≡◌, refl, Bool, true, false, none, some, List, [], ◌∷◌, Bytes}
use ratnet.Go.{Failure, Action}
use ratnet.Rpc.{NodeApi, with_strings}
use ratnet.Rpc.Numbers.{number, method_of}
use ratnet.Rpc.Admin.{parse_bool, admin_rpc}
use ratnet.Rpc.Admin.Requests.{Request, strings, flag_text, call_of, perform}

parse_bool-flag_text : (b : Bool) → parse_bool (flag_text b) ≡ some b
unfolding parse_bool
parse_bool-flag_text true = refl
parse_bool-flag_text false = refl

with_strings-strings :
    {S A : Type 0} (Ecc Rsa : Type 0) (e : Failure) (ss : List Bytes) (k : List Bytes → Action S A)
    → (s : S) → with_strings {Ecc = Ecc} {Rsa = Rsa} e (strings ss) k s ≡ k ss s
unfolding with_strings
with_strings-strings Ecc Rsa e [] k s = refl
with_strings-strings Ecc Rsa e (t ∷ ss) k s = with_strings-strings Ecc Rsa e ss (λ ts. k (t ∷ ts)) s

module _ {S Ecc Rsa : Type 0} (node : NodeApi S Ecc Rsa) (byte_limit : ℕ) where
  -- Every operation that can be asked for, with its optional arguments or without: the call that
  -- says so makes AdminRPC perform just that operation, and answer what it returns.
  pub admin_rpc-call_of :
      (r : Request Ecc Rsa) (s : S)
      → admin_rpc node byte_limit (call_of r) s ≡ perform node byte_limit r s
  unfolding admin_rpc method_of number
  admin_rpc-call_of Request.id s = refl
  admin_rpc-call_of (Request.pickup k t names) s = with_strings-strings Ecc Rsa _ names _ s
  admin_rpc-call_of (Request.get_peers none) s = refl
  admin_rpc-call_of (Request.get_peers (some g)) s = refl
  admin_rpc-call_of (Request.add_profile name true) s = refl
  admin_rpc-call_of (Request.add_profile name false) s = refl
  admin_rpc-call_of (Request.add_peer name true uri none) s = refl
  admin_rpc-call_of (Request.add_peer name true uri (some g)) s = refl
  admin_rpc-call_of (Request.add_peer name false uri none) s = refl
  admin_rpc-call_of (Request.add_peer name false uri (some g)) s = refl
  admin_rpc-call_of (Request.send name content none) s = refl
  admin_rpc-call_of (Request.send name content (some k)) s = refl
  admin_rpc-call_of (Request.send_channel name content none) s = refl
  admin_rpc-call_of (Request.send_channel name content (some k)) s = refl
  admin_rpc-call_of _ s = refl
