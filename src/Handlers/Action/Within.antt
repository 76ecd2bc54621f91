-- ===== src/Handlers/Action/Within.antt =====
-- Actions that move the state within a relation, whatever their outcome: a relation that is
-- reflexive and transitive is kept by every way to build an action.
use sync_bridge.Errors.{GoError}
use sync_bridge.Handlers.Action.{
  Outcome, returned, failed, panicked, Action, pure, fail, continue, ◌>>=◌,
}

pub record IsPreorder {S : Type 0} (R : S → S → Type 0) : Type 0 where
  pub refl_at : (s : S) → R s s
  pub then_to : {s t v : S} → R s t → R t v → R s v

module _ {S : Type 0} where
  pub record Within (R : S → S → Type 0) {A : Type 0} (m : Action S A) : Type 0 where
    pub at : (s : S) → R s (m s).1

  module _ (R : S → S → Type 0) (p : IsPreorder R) where
    pub Within-pure : {A : Type 0} (a : A) → Within R (pure a)
    unfolding pure
    Within-pure a = record { at = p.refl_at }

    pub Within-fail : {A : Type 0} (x : GoError) → Within R (fail {A = A} x)
    unfolding fail
    Within-fail x = record { at = p.refl_at }

    Within-continue :
        {A B : Type 0} (r : Outcome A) (f : A → Action S B) (s : S)
        → ((a : A) → Within R (f a))
        → R s (continue r f s).1
    unfolding continue
    Within-continue (returned a) f s k = (k a).at s
    Within-continue (failed x) f s k = p.refl_at s
    Within-continue panicked f s k = p.refl_at s

    pub Within-bind :
        {A B : Type 0} (m : Action S A) (f : A → Action S B)
        → Within R m
        → ((a : A) → Within R (f a))
        → Within R (m >>= f)
    unfolding ◌>>=◌
    Within-bind m f km kf = record {
      at = λ s. let (r, s') = m s in p.then_to (km.at s) (Within-continue r f s' kf);
    }
