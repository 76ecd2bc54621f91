-- ===== src/Handlers/Process/Triples.antt =====
-- What the parts of `processItem` that each kind of item shares ensure.
use sync_bridge.Base.{◌≡◌, refl, Option, none, some}
use sync_bridge.Sql.Statement.{Statement}
use sync_bridge.Sql.Engine.{Result, ok, err, Done, IsSqlite, Executed}
use sync_bridge.Handlers.Action.{Outcome, returned, failed, panicked, Action}
use sync_bridge.Handlers.Action.Laws.{
  IfReturned, Ensures, Ensures-pure, Ensures-fail, Ensures-weaken,
}
use sync_bridge.Handlers.Host.{Host}
use sync_bridge.Handlers.Process.{of_result, exec_tx, unmarshalled}

module _ (h : Host) (sql : IsSqlite h.engine) where
  open h use {engine}

  exec_tx-result :
      (st : Statement) (P : engine.State → Type 0) (r : Result Done) (s s' : engine.State)
      → P s
      → engine.exec st s ≡ (r, s')
      → IfReturned (λ d s'. (t : engine.State) × P t × Executed engine st d t s') (of_result r) s'
  exec_tx-result st P (ok d) s s' p e = (s, p, sql.exec_ok st s s' d e)
  exec_tx-result st P (err text) s s' p e = tt

  -- A statement that succeeded was executed in a state with the condition before.
  pub Ensures-exec_tx :
      (st : Statement) (P : engine.State → Type 0)
      → Ensures P (exec_tx h st) (λ d s'. (t : engine.State) × P t × Executed engine st d t s')
  unfolding exec_tx
  Ensures-exec_tx st P = record {
    at = λ s p. exec_tx-result st P (engine.exec st s).0 s (engine.exec st s).1 p refl;
  }

  pub anything-Ensures :
      {A : Type 0} (m : Action engine.State A) → Ensures (λ s. Unit) m (λ _ _. Unit)
  anything-Ensures m = record { at = λ s p. anything (m s).0 (m s).1 }
    where
      anything : {A : Type 0} (r : Outcome A) (s : engine.State) → IfReturned (λ _ _. Unit) r s
      anything (returned a) s = tt
      anything (failed x) s = tt
      anything panicked s = tt

  pub unmarshalled-Ensures :
      {A : Type 0} (o : Option A) → Ensures (λ s. Unit) (unmarshalled h o) (λ a s. o ≡ some a)
  unfolding unmarshalled
  unmarshalled-Ensures none = Ensures-fail _ _ _
  unmarshalled-Ensures (some a) = Ensures-pure _ _ a (λ s p. refl)

  -- A fact that does not speak of the state is kept.
  pub fact-Ensures :
      {A : Type 0} (F : Type 0) (Q : A → engine.State → Type 0) (m : Action engine.State A)
      → Ensures (λ s. Unit) m Q
      → Ensures (λ s. F) m (λ a s. F × Q a s)
  fact-Ensures F Q m e = Ensures-weaken (λ s. Unit) _ Q _ m (λ s f. (tt, λ a s' q. (f, q))) e

  pub fact-kept :
      {A : Type 0} (F : Type 0) (m : Action engine.State A) → Ensures (λ s. F) m (λ _ s. F)
  fact-kept F m =
      Ensures-weaken (λ s. Unit) _ (λ _ _. Unit) _ m (λ s f. (tt, λ a s' q. f)) (anything-Ensures m)
