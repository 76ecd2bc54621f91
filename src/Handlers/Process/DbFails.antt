-- ===== src/Handlers/Process/DbFails.antt =====
-- The steps of `processItem` that fail for the database only, with the call that failed.
use sync_bridge.Base.{◌≡◌, refl, ◌∙◌, Option, none, some, is_some, true}
use sync_bridge.Base.Int.{ℤ}
use sync_bridge.Text.{Bytes}
use sync_bridge.Errors.{GoError, other}
use sync_bridge.Sql.Statement.{Statement}
use sync_bridge.Sql.Engine.{err, Done}
use sync_bridge.Handlers.Action.{returned, failed, Action, pure, deref, continue, ◌>>=◌}
use sync_bridge.Handlers.Host.{Host}
use sync_bridge.Handlers.Process.{exec_tx, inserted_id}
use sync_bridge.Handlers.Process.Valid.{bind-returned}

pub bind-failed :
    {S A B : Type 0} (m : Action S A) (f : A → Action S B) (x : GoError) (s s' : S)
    → m s ≡ (failed x, s')
    → (m >>= f) s ≡ (failed x, s')
unfolding ◌>>=◌ continue
bind-failed m f x s s' e = rw e refl

module _ (h : Host) where
  open h use {engine}

  -- The run of an action from a state comes to a statement that the database fails with this text,
  -- or to an id that it does not give. What runs before it returns.
  pub data DbFails : (A : Type 0) → Action engine.State A → engine.State → Bytes → Type 1 where
    at_exec :
        (st : Statement) (s s' : engine.State) (text : Bytes)
        → engine.exec st s ≡ (err text, s')
        → DbFails Done (exec_tx h st) s text
    at_id :
        (d : Done) (s : engine.State) (text : Bytes)
        → d.row_id_error ≡ some text
        → DbFails ℤ (inserted_id h d) s text
    in_first :
        {A B : Type 0} (m : Action engine.State A) (f : A → Action engine.State B)
        (s : engine.State) (text : Bytes)
        → DbFails A m s text
        → DbFails B (m >>= f) s text
    in_rest :
        {A B : Type 0} (m : Action engine.State A) (f : A → Action engine.State B)
        (s s' : engine.State) (a : A) (text : Bytes)
        → m s ≡ (returned a, s')
        → DbFails B (f a) s' text
        → DbFails B (m >>= f) s text

  -- The run of an action returns what satisfies `P`, or fails with the text of the database.
  pub data Served {A : Type 0} (P : A → Type 0) (m : Action engine.State A) (s : engine.State)
      : Type 1 where
    serves : (a : A) (s' : engine.State) → m s ≡ (returned a, s') → P a → Served P m s
    refused :
        (text : Bytes) (s' : engine.State)
        → m s ≡ (failed (other text), s')
        → DbFails A m s text
        → Served P m s

  pub record Serves {A : Type 0} (P : A → Type 0) (m : Action engine.State A) : Type 1 where
    pub at : (s : engine.State) → Served P m s

  pub Serves-pure : {A : Type 0} (P : A → Type 0) (a : A) → P a → Serves P (pure a)
  unfolding pure
  Serves-pure P a p = record { at = λ s. serves a s refl p }

  pub Serves-deref : {A : Type 0} (o : Option A) → is_some o ≡ true → Serves (λ _. Unit) (deref o)
  unfolding deref
  Serves-deref none e = absurd (cc e)
  Serves-deref (some a) e = record { at = λ s. serves a s refl tt }

  -- What is known to return, returns.
  pub Serves-known :
      {A : Type 0} (P : A → Type 0) (m : Action engine.State A) (a : A)
      → ((s : engine.State) → m s ≡ (returned a, s))
      → P a
      → Serves P m
  Serves-known P m a e p = record { at = λ s. serves a s (e s) p }

  Served-rest :
      {A B : Type 0} (Q : B → Type 0) (m : Action engine.State A) (f : A → Action engine.State B)
      (a : A) (s s' : engine.State)
      → m s ≡ (returned a, s')
      → Served Q (f a) s'
      → Served Q (m >>= f) s
  Served-rest Q m f a s s' e (serves b t g q) = serves b t (bind-returned m f a s s' e ∙ g) q
  Served-rest Q m f a s s' e (refused text t g why) =
      refused text t (bind-returned m f a s s' e ∙ g) (in_rest m f s s' a text e why)

  Served-bind :
      {A B : Type 0} (P : A → Type 0) (Q : B → Type 0) (m : Action engine.State A)
      (f : A → Action engine.State B) (s : engine.State)
      → Served P m s
      → ((a : A) → P a → Serves Q (f a))
      → Served Q (m >>= f) s
  Served-bind P Q m f s (serves a s' e p) k = Served-rest Q m f a s s' e ((k a p).at s')
  Served-bind P Q m f s (refused text s' e why) k =
      refused text s' (bind-failed m f (other text) s s' e) (in_first m f s text why)

  pub Serves-bind :
      {A B : Type 0} (P : A → Type 0) (Q : B → Type 0) (m : Action engine.State A)
      (f : A → Action engine.State B)
      → Serves P m
      → ((a : A) → P a → Serves Q (f a))
      → Serves Q (m >>= f)
  Serves-bind P Q m f km kf = record { at = λ s. Served-bind P Q m f s (km.at s) kf }
