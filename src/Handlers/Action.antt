-- ===== src/Handlers/Action.antt =====
-- Go code that changes a state and may return an error or panic. The state comes back in every
-- case, since what was written stays written.
pub mod Laws
pub mod Gives
pub mod Within
use sync_bridge.Base.{◌≡◌, Option, none, some}
use sync_bridge.Errors.{GoError}

pub data Outcome (A : Type 0) : Type 0 where
  returned : A → Outcome A
  failed : GoError → Outcome A
  panicked : Outcome A

abbrev pub Action : Type 0 → Type 0 → Type 0
Action S A = S → Outcome A × S

module _ {S A : Type 0} where
  unfoldable pub pure : A → Action S A
  pure a s = (returned a, s)

  unfoldable pub fail : GoError → Action S A
  fail err s = (failed err, s)

  -- `*p`, which panics at nil
  unfoldable pub deref : Option A → Action S A
  deref none s = (panicked, s)
  deref (some a) s = (returned a, s)

module _ {S A B : Type 0} where
  unfoldable pub continue : Outcome A → (A → Action S B) → Action S B
  continue (returned a) f s = f a s
  continue (failed err) f s = (failed err, s)
  continue panicked f s = (panicked, s)

  infixl 5 ◌>>=◌ ◌>>◌
  unfoldable pub ◌>>=◌ : Action S A → (A → Action S B) → Action S B
  unfolding continue
  ◌>>=◌ m f s = let (r, s') = m s in continue r f s'

  abbrev pub ◌>>◌ : Action S A → Action S B → Action S B
  m >> n = m >>= λ _. n
