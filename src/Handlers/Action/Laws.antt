-- ===== src/Handlers/Action/Laws.antt =====
-- What an action ensures if it returns: a triple with a condition before and one after, and a rule
-- for each way to build an action.
use sync_bridge.Base.{◌≡◌, refl, Option, none, some}
use sync_bridge.Errors.{GoError}
use sync_bridge.Handlers.Action.{
  Outcome, returned, failed, panicked, Action, pure, fail, deref, continue, ◌>>=◌,
}

module _ {S : Type 0} where
  abbrev pub IfReturned : {A : Type 0} → (A → S → Type 0) → Outcome A → S → Type 0
  IfReturned Q (returned a) s = Q a s
  IfReturned Q (failed x) s = Unit
  IfReturned Q panicked s = Unit

  pub record Ensures {A : Type 0} (P : S → Type 0) (m : Action S A) (Q : A → S → Type 0)
      : Type 0 where
    pub at : (s : S) → P s → IfReturned Q (m s).0 (m s).1

  pub Ensures-pure :
      {A : Type 0} (P : S → Type 0) (Q : A → S → Type 0) (a : A)
      → ((s : S) → P s → Q a s)
      → Ensures P (pure a) Q
  unfolding pure
  Ensures-pure P Q a k = record { at = k }

  pub Ensures-fail :
      {A : Type 0} (P : S → Type 0) (Q : A → S → Type 0) (x : GoError) → Ensures P (fail x) Q
  unfolding fail
  Ensures-fail P Q x = record { at = λ s p. tt }

  pub Ensures-deref :
      {A : Type 0} (P : S → Type 0) (o : Option A) → Ensures P (deref o) (λ a s. P s × (o ≡ some a))
  unfolding deref
  Ensures-deref P none = record { at = λ s p. tt }
  Ensures-deref P (some a) = record { at = λ s p. (p, refl) }

  Ensures-continue :
      {A B : Type 0} (Q : A → S → Type 0) (R : B → S → Type 0) (r : Outcome A) (f : A → Action S B)
      (s : S)
      → IfReturned Q r s
      → ((a : A) → Ensures (Q a) (f a) R)
      → IfReturned R (continue r f s).0 (continue r f s).1
  unfolding continue
  Ensures-continue Q R (returned a) f s p k = (k a).at s p
  Ensures-continue Q R (failed x) f s p k = tt
  Ensures-continue Q R panicked f s p k = tt

  pub Ensures-bind :
      {A B : Type 0} (P : S → Type 0) (Q : A → S → Type 0) (R : B → S → Type 0) (m : Action S A)
      (f : A → Action S B)
      → Ensures P m Q
      → ((a : A) → Ensures (Q a) (f a) R)
      → Ensures P (m >>= f) R
  unfolding ◌>>=◌
  Ensures-bind P Q R m f km kf = record {
    at = λ s p. let (r, s') = m s in Ensures-continue Q R r f s' (km.at s p) kf;
  }

  IfReturned-weaken :
      {A : Type 0} (Q Q' : A → S → Type 0) (r : Outcome A) (s : S)
      → ((a : A) (s' : S) → Q a s' → Q' a s')
      → IfReturned Q r s
      → IfReturned Q' r s
  IfReturned-weaken Q Q' (returned a) s k p = k a s p
  IfReturned-weaken Q Q' (failed x) s k p = tt
  IfReturned-weaken Q Q' panicked s k p = tt

  -- A stronger condition before, and a weaker one after, which may use what held before.
  pub Ensures-weaken :
      {A : Type 0} (P P' : S → Type 0) (Q Q' : A → S → Type 0) (m : Action S A)
      → ((s : S) → P' s → P s × ((a : A) (s' : S) → Q a s' → Q' a s'))
      → Ensures P m Q
      → Ensures P' m Q'
  Ensures-weaken P P' Q Q' m k e = record {
    at = λ s p. let (q, w) = k s p in IfReturned-weaken Q Q' (m s).0 (m s).1 w (e.at s q);
  }

  -- A fact that holds before can be used in the rest.
  pub Ensures-given :
      {A : Type 0} (P : S → Type 0) (F : Type 0) (m : Action S A) (Q : A → S → Type 0)
      → (F → Ensures P m Q)
      → Ensures (λ s. P s × F) m Q
  Ensures-given P F m Q k = record { at = λ s (p, f). (k f).at s p }
