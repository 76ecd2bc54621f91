-- ===== src/Handlers/Process/Keeps.antt =====
-- What an action does to the transaction that is pending, and which errors it ends with.
use sync_bridge.Base.{◌≡◌, ◌⊎◌, inl, Bool, true, false, Option, none, some, if◌then◌else◌}
use sync_bridge.Errors.{GoError, app, other, validation, no_rows}
use sync_bridge.Sql.Schema.{Tables}
use sync_bridge.Sql.Engine.{Engine}
use sync_bridge.Handlers.Action.{
  Outcome, returned, failed, panicked, Action, pure, fail, deref, continue, ◌>>=◌,
}

-- The errors of `processItem`: answers with 400, and texts of the database.
abbrev pub IsRaised : GoError → Type 0
IsRaised (app e) = e.status_code ≡ 400
IsRaised (other text) = Unit
IsRaised (validation fs text) = ⊥
IsRaised no_rows = ⊥

module _ (e : Engine) (t : Tables) where
  open e use {State, tables, saved}

  -- The state to go back to is `t`, and nothing has been logged since.
  pub record Pending (s : State) : Type 0 where
    pub saved_eq : saved s ≡ some t
    pub log_eq : (tables s).sync_history ≡ t.sync_history

  -- The transaction is pending, or the driver has gone back to `t`.
  abbrev pub CanRollBack : {A : Type 0} → Outcome A → State → Type 0
  CanRollBack (returned a) s = Pending s
  CanRollBack (failed x) s = IsRaised x × (Pending s ⊎ ((tables s ≡ t) × (saved s ≡ none)))
  CanRollBack panicked s = Pending s

  pub record Keeps {A : Type 0} (m : Action State A) : Type 0 where
    pub at : (s : State) → Pending s → CanRollBack (m s).0 (m s).1

  pub Keeps-pure : {A : Type 0} (a : A) → Keeps (pure a)
  unfolding pure
  Keeps-pure a = record { at = λ s p. p }

  pub Keeps-fail : {A : Type 0} (x : GoError) → IsRaised x → Keeps (fail {A = A} x)
  unfolding fail
  Keeps-fail x raised = record { at = λ s p. (raised, inl p) }

  pub Keeps-deref : {A : Type 0} (o : Option A) → Keeps (deref o)
  unfolding deref
  Keeps-deref none = record { at = λ s p. p }
  Keeps-deref (some a) = record { at = λ s p. p }

  Keeps-continue :
      {A B : Type 0} (r : Outcome A) (f : A → Action State B) (s : State)
      → CanRollBack r s
      → ((a : A) → Keeps (f a))
      → CanRollBack (continue r f s).0 (continue r f s).1
  unfolding continue
  Keeps-continue (returned a) f s p k = (k a).at s p
  Keeps-continue (failed x) f s p k = p
  Keeps-continue panicked f s p k = p

  pub Keeps-bind :
      {A B : Type 0} (m : Action State A) (f : A → Action State B)
      → Keeps m
      → ((a : A) → Keeps (f a))
      → Keeps (m >>= f)
  unfolding ◌>>=◌
  Keeps-bind m f km kf = record {
    at = λ s p. let (r, s') = m s in Keeps-continue r f s' (km.at s p) kf;
  }

  pub Keeps-if :
      {A : Type 0} (b : Bool) (m n : Action State A)
      → Keeps m
      → Keeps n
      → Keeps (if b then m else n)
  Keeps-if true m n km kn = km
  Keeps-if false m n km kn = kn

pub ruleset keeps_rules = (Keeps-pure, Keeps-fail, Keeps-deref, Keeps-bind, Keeps-if)
