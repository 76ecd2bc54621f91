-- ===== src/Handlers/Action/Gives.antt =====
-- What the results of an action satisfy if it returns, and that it does not panic.
use sync_bridge.Base.{◌≡◌, Bool, true, false, Option, none, some, if◌then◌else◌, is_some}
use sync_bridge.Errors.{GoError}
use sync_bridge.Handlers.Action.{
  Outcome, returned, failed, panicked, Action, pure, fail, deref, continue, ◌>>=◌,
}

-- No panic, and a returned value has the property.
abbrev pub IsSafe : {A : Type 0} → (A → Type 0) → Outcome A → Type 0
IsSafe P (returned a) = P a
IsSafe P (failed x) = Unit
IsSafe P panicked = ⊥

abbrev pub Anything : {A : Type 0} → A → Type 0
Anything a = Unit

IsSafe-weaken :
    {A : Type 0} (P Q : A → Type 0) (r : Outcome A)
    → ((a : A) → P a → Q a)
    → IsSafe P r
    → IsSafe Q r
IsSafe-weaken P Q (returned a) k p = k a p
IsSafe-weaken P Q (failed x) k p = tt
IsSafe-weaken P Q panicked k p = absurd p

module _ {S : Type 0} where
  pub record Gives {A : Type 0} (P : A → Type 0) (m : Action S A) : Type 0 where
    pub at : (s : S) → IsSafe P (m s).0

  pub Gives-pure : {A : Type 0} (P : A → Type 0) (a : A) → P a → Gives P (pure a)
  unfolding pure
  Gives-pure P a p = record { at = λ s. p }

  pub Gives-fail : {A : Type 0} (P : A → Type 0) (x : GoError) → Gives P (fail x)
  unfolding fail
  Gives-fail P x = record { at = λ s. tt }

  pub Gives-deref : {A : Type 0} (o : Option A) → is_some o ≡ true → Gives Anything (deref o)
  unfolding deref
  Gives-deref none h = cc h
  Gives-deref (some a) h = record { at = λ s. tt }

  Gives-continue :
      {A B : Type 0} (P : A → Type 0) (Q : B → Type 0) (r : Outcome A) (f : A → Action S B) (s : S)
      → IsSafe P r
      → ((a : A) → P a → Gives Q (f a))
      → IsSafe Q (continue r f s).0
  unfolding continue
  Gives-continue P Q (returned a) f s p k = (k a p).at s
  Gives-continue P Q (failed x) f s p k = tt
  Gives-continue P Q panicked f s p k = absurd p

  pub Gives-bind :
      {A B : Type 0} (P : A → Type 0) (Q : B → Type 0) (m : Action S A) (f : A → Action S B)
      → Gives P m
      → ((a : A) → P a → Gives Q (f a))
      → Gives Q (m >>= f)
  unfolding ◌>>=◌
  Gives-bind P Q m f km kf = record {
    at = λ s. let (r, s') = m s in Gives-continue P Q r f s' (km.at s) kf;
  }

  pub Gives-weaken :
      {A : Type 0} (P Q : A → Type 0) (m : Action S A)
      → ((a : A) → P a → Q a)
      → Gives P m
      → Gives Q m
  Gives-weaken P Q m k g = record { at = λ s. IsSafe-weaken P Q (m s).0 k (g.at s) }

  pub Gives-if :
      {A : Type 0} (P : A → Type 0) (b : Bool) (m n : Action S A)
      → Gives P m
      → Gives P n
      → Gives P (if b then m else n)
  Gives-if P true m n km kn = km
  Gives-if P false m n km kn = kn
