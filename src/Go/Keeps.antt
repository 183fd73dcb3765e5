-- ===== src/Go/Keeps.antt =====
-- Actions that keep an invariant of the state, whatever they return.
use ratnet.Prelude.{Bool, true, false, if◌then◌else◌}
use ratnet.Go.{Outcome, returned, failed, panicked, Action, continue, ◌>>=◌, ◌>>◌}

-- The state after an action satisfies what the state before it did.
abbrev pub Keeps : {S A : Type 0} → (S → Type 0) → Action S A → Type 0
Keeps I act = (s : _) → I s → I (act s).1

module _ {S : Type 0} (I : S → Type 0) where
  pub continue-Keeps :
      {A B : Type 0} (r : Outcome A × S) (f : A → Action S B)
      → I r.1
      → ((a : A) → Keeps I (f a))
      → I (continue r f).1
  continue-Keeps (returned a, s) f i h = h a s i
  continue-Keeps (failed e, s) f i h = i
  continue-Keeps (panicked, s) f i h = i

  pub bind-Keeps :
      {A B : Type 0} (act : Action S A) (f : A → Action S B)
      → Keeps I act
      → ((a : A) → Keeps I (f a))
      → Keeps I (act >>= f)
  bind-Keeps act f h hs s i = continue-Keeps (act s) f (h s i) hs

  pub then-Keeps :
      {A B : Type 0} (act : Action S A) (next : Action S B)
      → Keeps I act
      → Keeps I next
      → Keeps I (act >> next)
  then-Keeps act next h hs s i = continue-Keeps (act s) (λ _. next) (h s i) (λ _. hs)

  pub if-Keeps :
      {A : Type 0} (b : Bool) (act other : Action S A)
      → Keeps I act
      → Keeps I other
      → Keeps I (if b then act else other)
  if-Keeps true act other h o = h
  if-Keeps false act other h o = o

-- What holds of both branches.
pub if-holds :
    {T : Type 0} (P : T → Type 0) (b : Bool) {x y : T} → P x → P y → P (if b then x else y)
if-holds P true p q = p
if-holds P false p q = q
