-- ===== src/Handlers/Process/Saved.antt =====
-- What `save` leaves, from what its two statements leave.
use sync_bridge.Base.{Option, none, some, Option-cases, inl, inr}
use sync_bridge.Base.Int.{ℤ}
use sync_bridge.Sql.Statement.{Statement}
use sync_bridge.Sql.Engine.{IsSqlite, Done, Executed}
use sync_bridge.Handlers.Action.Laws.{Ensures, Ensures-pure, Ensures-bind, Ensures-weaken}
use sync_bridge.Handlers.Host.{Host}
use sync_bridge.Handlers.Process.{inserted_id, save}
use sync_bridge.Handlers.Process.Triples.{Ensures-exec_tx}

module _ (h : Host) (sql : IsSqlite h.engine) where
  open h use {engine}

  inserted_id-Ensures :
      (HasRow : ℤ → engine.State → Type 0) (d : Done)
      → Ensures (HasRow d.row_id) (inserted_id h d) HasRow
  unfolding inserted_id
  inserted_id-Ensures HasRow d = elim (Option-cases d.row_id_error) [
    | inl given ↦ record { at = λ s p. rw given p }
    | inr (text, e) ↦ record { at = λ s p. rw e tt }
  ]

  -- If the statement with an id leaves a row under that id, and the insertion one under the id
  -- that it reports, there is a row under the id that is returned.
  pub save-Ensures :
      (upsert : ℤ → Statement) (insert : Statement) (HasRow : ℤ → engine.State → Type 0)
      → ((id : ℤ) (d : Done) (s s' : engine.State)
          → Executed engine (upsert id) d s s'
          → HasRow id s')
      → ((d : Done) (s s' : engine.State) → Executed engine insert d s s' → HasRow d.row_id s')
      → (o : Option ℤ) → Ensures (λ s. Unit) (save h o upsert insert) HasRow
  unfolding save
  save-Ensures upsert insert HasRow upserted inserted none =
      Ensures-bind _ _ _ _ _ (Ensures-exec_tx h sql insert (λ s. Unit)) λ d.
        Ensures-weaken _ _ _ _ _ (λ s (t, _, x). (inserted d t s x, λ id s' p. p))
          (inserted_id-Ensures HasRow d)
  save-Ensures upsert insert HasRow upserted inserted (some id) =
      Ensures-bind _ _ _ _ _ (Ensures-exec_tx h sql (upsert id) (λ s. Unit))
        λ d. Ensures-pure _ _ id (λ s (t, _, x). upserted id d t s x)
