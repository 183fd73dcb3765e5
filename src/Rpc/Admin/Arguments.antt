-- ===== src/Rpc/Admin/Arguments.antt =====
-- The tests on the arguments of a call: a call is one operation, or it is refused and changes
-- nothing, where this holds of what follows a test.
use ratnet.Prelude.{ℕ, ◌≡◌, refl, Bool, Option, none, some, List, [], ◌∷◌, Bytes}
use ratnet.Go.{Failure, failed}
use ratnet.Wire.Value.{Value, Values, end, item, PubKey, Bundle}
use ratnet.Rpc.{
  NodeApi, Answer, with_one, with_two, with_three, with_string, with_strings, with_bytes,
  with_int64, with_bundle, with_key,
}
use ratnet.Rpc.Admin.{with_flag, with_group, with_optional_key}
use ratnet.Rpc.Admin.Requests.{Request, perform}

-- The errors of a call that cannot be read.
abbrev pub IsRefusal : Failure → Type 0
IsRefusal Failure.invalid_argument_count = Unit
IsRefusal Failure.invalid_argument = Unit
IsRefusal Failure.invalid_argument_1 = Unit
IsRefusal Failure.invalid_argument_2 = Unit
IsRefusal Failure.invalid_argument_3 = Unit
IsRefusal Failure.invalid_bool = Unit
IsRefusal Failure.no_such_method = Unit
IsRefusal _ = ⊥

module _ {S Ecc Rsa : Type 0} (node : NodeApi S Ecc Rsa) (byte_limit : ℕ)
    (P : Request Ecc Rsa → Type 0) where
  -- What is answered is one operation, of those that `P` allows, or a refusal that changes nothing.
  pub data Dispatched (act : Answer S Ecc Rsa) : Type 0 where
    performs :
        (r : Request Ecc Rsa)
        → P r
        → ((s : S) → act s ≡ perform node byte_limit r s)
        → Dispatched act
    refuses : (e : Failure) → IsRefusal e → ((s : S) → act s ≡ (failed e, s)) → Dispatched act

  pub one :
      (args : Values Ecc Rsa) (k : Value Ecc Rsa → Values Ecc Rsa → Answer S Ecc Rsa)
      → ((a : Value Ecc Rsa) (more : Values Ecc Rsa) → Dispatched (k a more))
      → Dispatched (with_one args k)
  unfolding with_one
  one end k h = refuses _ tt (λ s. refl)
  one (item a args) k h = h a args

  pub two :
      (args : Values Ecc Rsa)
      (k : Value Ecc Rsa → Value Ecc Rsa → Values Ecc Rsa → Answer S Ecc Rsa)
      → ((a b : Value Ecc Rsa) (more : Values Ecc Rsa)
          → args ≡ item a (item b more)
          → Dispatched (k a b more))
      → Dispatched (with_two args k)
  unfolding with_two
  two end k h = refuses _ tt (λ s. refl)
  two (item a end) k h = refuses _ tt (λ s. refl)
  two (item a (item b args)) k h = h a b args refl

  pub text :
      (e : Failure) (v : Value Ecc Rsa) (k : Bytes → Answer S Ecc Rsa)
      → IsRefusal e
      → ((t : Bytes) → Dispatched (k t))
      → Dispatched (with_string e v k)
  unfolding with_string
  text e (Value.string t) k r h = h t
  text e _ k r h = refuses e r (λ s. refl)

  pub three :
      (args : Values Ecc Rsa)
      (k : Value Ecc Rsa → Value Ecc Rsa → Value Ecc Rsa → Values Ecc Rsa → Answer S Ecc Rsa)
      → ((a b c : Value Ecc Rsa) (more : Values Ecc Rsa) → Dispatched (k a b c more))
      → Dispatched (with_three args k)
  unfolding with_three
  three end k h = refuses _ tt (λ s. refl)
  three (item a end) k h = refuses _ tt (λ s. refl)
  three (item a (item b end)) k h = refuses _ tt (λ s. refl)
  three (item a (item b (item c args))) k h = h a b c args

  pub texts :
      (e : Failure) (vs : Values Ecc Rsa) (k : List Bytes → Answer S Ecc Rsa)
      → IsRefusal e
      → ((ts : List Bytes) → Dispatched (k ts))
      → Dispatched (with_strings e vs k)
  unfolding with_strings
  texts e end k r h = h []
  texts e (item a vs) k r h = text e a _ r λ t. texts e vs _ r λ ts. h (t ∷ ts)

  pub key :
      (e : Failure) (v : Value Ecc Rsa) (k : PubKey Ecc Rsa → Answer S Ecc Rsa)
      → IsRefusal e
      → ((p : PubKey Ecc Rsa) → Dispatched (k p))
      → Dispatched (with_key e v k)
  unfolding with_key
  key e (Value.pub_key p) k r h = h p
  key e _ k r h = refuses e r (λ s. refl)

  pub int :
      (e : Failure) (v : Value Ecc Rsa) (k : ℕ → Answer S Ecc Rsa)
      → IsRefusal e
      → ((n : ℕ) → v ≡ Value.int64 n → Dispatched (k n))
      → Dispatched (with_int64 e v k)
  unfolding with_int64
  int e (Value.int64 n) k r h = h n refl
  int e _ k r h = refuses e r (λ s. refl)

  pub content :
      (v : Value Ecc Rsa) (k : Bytes → Answer S Ecc Rsa)
      → ((bs : Bytes) → Dispatched (k bs))
      → Dispatched (with_bytes v k)
  unfolding with_bytes
  content (Value.bytes bs) k h = h bs
  content _ k h = refuses _ tt (λ s. refl)

  pub bundle :
      (v : Value Ecc Rsa) (k : Bundle → Answer S Ecc Rsa)
      → ((b : Bundle) → Dispatched (k b))
      → Dispatched (with_bundle v k)
  unfolding with_bundle
  bundle (Value.bundle b) k h = h b
  bundle _ k h = refuses _ tt (λ s. refl)

  pub flag :
      (o : Option Bool) (k : Bool → Answer S Ecc Rsa)
      → ((b : Bool) → Dispatched (k b))
      → Dispatched (with_flag o k)
  unfolding with_flag
  flag none k h = refuses _ tt (λ s. refl)
  flag (some b) k h = h b

  pub optional :
      (vs : Values Ecc Rsa) (k : Option (PubKey Ecc Rsa) → Answer S Ecc Rsa)
      → ((o : Option (PubKey Ecc Rsa)) → Dispatched (k o))
      → Dispatched (with_optional_key vs k)
  unfolding with_optional_key
  optional end k h = h none
  optional (item a vs) k h = key _ a _ tt λ p. h (some p)

  pub group :
      (vs : Values Ecc Rsa) (k : List Bytes → Answer S Ecc Rsa)
      → Dispatched (k [])
      → ((g : Bytes) → Dispatched (k (g ∷ [])))
      → Dispatched (with_group vs k)
  unfolding with_group
  group end k h hs = h
  group (item Value.nil vs) k h hs = h
  group (item a vs) k h hs = text Failure.invalid_argument a _ tt hs
