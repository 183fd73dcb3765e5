-- ===== src/Go.antt =====
-- Go code that changes state, may return an error and may panic: what was written before an error
-- stays written, so the state comes back beside every outcome.
pub mod Keeps
use ratnet.Prelude.{◌≡◌, refl}
use ratnet.Wire.Read.{Error}

-- The errors that the code makes; `from_crypto` is one of the bencrypt library's.
pub data Failure : Type 0 where
  contact_not_found channel_not_found profile_not_found peer_not_found : Failure
  invalid_public_key invalid_channel_key no_channel_key no_random unknown_channel : Failure
  already_chunked malformed_message no_data tag_check_failed from_crypto : Failure
  no_routing_key no_such_method invalid_argument_count invalid_argument invalid_bool : Failure
  invalid_hex invalid_url from_os from_sql bad_number invalid_argument_1 invalid_argument_2
        invalid_argument_3 :
      Failure
  from_wire : Error → Failure

pub data Outcome {ℓ} (A : Type ℓ) : Type ℓ where
  returned : A → Outcome A
  failed : Failure → Outcome A
  panicked : Outcome A

abbrev pub Action {ℓ} : Type ℓ → Type ℓ → Type ℓ
Action S A = S → Outcome A × S

abbrev pub pure {ℓ} : {S A : Type ℓ} → A → Action S A
pure a s = (returned a, s)

abbrev pub fail {ℓ} : {S A : Type ℓ} → Failure → Action S A
fail e s = (failed e, s)

abbrev pub continue {ℓ} : {S A B : Type ℓ} → Outcome A × S → (A → Action S B) → Outcome B × S
continue (returned a, s) f = f a s
continue (failed e, s) f = (failed e, s)
continue (panicked, s) f = (panicked, s)

infixl 1 ◌>>=◌ ◌>>◌
abbrev pub ◌>>=◌ {ℓ} : {S A B : Type ℓ} → Action S A → (A → Action S B) → Action S B
◌>>=◌ m f s = continue (m s) f

abbrev pub ◌>>◌ {ℓ} : {S A B : Type ℓ} → Action S A → Action S B → Action S B
m >> n = m >>= λ _. n

abbrev pub panic {ℓ} : {S A : Type ℓ} → Action S A
panic s = (panicked, s)

pub continue_assoc {ℓ} :
    {S A B C : Type ℓ} (r : Outcome A × S) (f : A → Action S B) (g : B → Action S C)
    → continue (continue r f) g ≡ continue r (λ a s. continue (f a s) g)
continue_assoc (returned a, s) f g = refl
continue_assoc (failed e, s) f g = refl
continue_assoc (panicked, s) f g = refl

pub continue_ext {ℓ} :
    {S A B : Type ℓ} (r : Outcome A × S) (f g : A → Action S B)
    → ((a : A) (s : S) → f a s ≡ g a s)
    → continue r f ≡ continue r g
continue_ext (returned a, s) f g h = h a s
continue_ext (failed e, s) f g h = refl
continue_ext (panicked, s) f g h = refl

pub continue-pure {ℓ} : {S A : Type ℓ} (r : Outcome A × S) → continue r pure ≡ r
continue-pure (returned a, s) = refl
continue-pure (failed e, s) = refl
continue-pure (panicked, s) = refl

-- The same, at the one state that is reached.
pub continue_ext_at {ℓ} :
    {S A B : Type ℓ} (P : S → Type 0) (r : Outcome A × S) (f g : A → Action S B)
    → P r.1
    → ((a : A) (s : S) → P s → f a s ≡ g a s)
    → continue r f ≡ continue r g
continue_ext_at P (returned a, s) f g p h = h a s p
continue_ext_at P (failed e, s) f g p h = refl
continue_ext_at P (panicked, s) f g p h = refl
