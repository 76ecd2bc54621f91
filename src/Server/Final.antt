-- ===== src/Server/Final.antt =====
-- What has been logged as successful stays so.
use sync_bridge.Base.{◌≡◌, ◌∙◌, ◌⊎◌, inl, inr, Option, none, some}
use sync_bridge.Base.Int.{ℤ}
use sync_bridge.Text.{Bytes, str, Unicode}
use sync_bridge.Sql.Schema.{HistoryRow}
use sync_bridge.Sql.Engine.{ok, IsSqlite}
use sync_bridge.Handlers.Host.{Host}
use sync_bridge.Handlers.Log.{Log, LogSteps, stay, step}
use sync_bridge.Handlers.Log.Invariant.{LogStep-final}
use sync_bridge.Handlers.Sync.Entry.{log}
use sync_bridge.Server.{Incoming, ServerState, World, serve}
use sync_bridge.Server.Refinement.{IsDeletion, serve-Allowed}

LogSteps-final :
    {u : Unicode} {D : ℤ → Type 0} {l l' : Log} (i : ℤ) (r : HistoryRow)
    → LogSteps u D l l'
    → l i ≡ some r
    → r.status ≡ str "SUCCESSFUL"
    → (l' i ≡ some r) ⊎ D i
LogSteps-final i r (stay e) found good = inl (e i ∙ found)
LogSteps-final i r (step st more) found good = elim (LogStep-final i r st found good) [
  | inl kept ↦ LogSteps-final i r more kept good
  | inr may ↦ inr may
]

module _ (h : Host) {Time : Type 0} (parse : Bytes → Bytes → Option Time) (sql : IsSqlite h.engine)
    (commits : (s : h.engine.State) → (h.engine.commit s).0 ≡ ok tt) (w : World h parse) where
  open h use {engine}

  -- Whatever a request is, if it comes outside a transaction, the database behaves as `IsSqlite`
  -- says and no COMMIT fails, a log entry that is SUCCESSFUL is afterwards exactly what it was,
  -- unless the request is let through and asks to delete the entry of that id: no sync, retry or
  -- other call fails it, resets it, overwrites it or removes it.
  pub serve-final :
      (auth_token : Bytes) (r : Incoming) (s : ServerState h parse) (i : ℤ) (row : HistoryRow)
      → engine.saved s.graph.db ≡ none
      → log h s.graph.db i ≡ some row
      → row.status ≡ str "SUCCESSFUL"
      → let s' = (serve h parse w auth_token r s).1 in
        (log h s'.graph.db i ≡ some row) ⊎ IsDeletion h parse w auth_token r i
  serve-final auth_token r s i row idle found good =
      let (steps, _) = serve-Allowed h parse sql commits w auth_token r s idle in
      LogSteps-final i row steps found good
