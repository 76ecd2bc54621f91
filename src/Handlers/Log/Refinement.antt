-- ===== src/Handlers/Log/Refinement.antt =====
-- Each handler of internal/handlers refines the specification of the log.
use sync_bridge.Base.{
  ℕ, ◌≡◌, refl, ap, inl, inr, Option, none, some, Option-cases, Bool, true, false,
}
use sync_bridge.Base.Int.{ℤ}
use sync_bridge.Text.{Bytes}
use sync_bridge.Text.Number.{parse_int}
use sync_bridge.Json.{Json}
use sync_bridge.Sql.Table.{find}
use sync_bridge.Sql.Schema.{Tables}
use sync_bridge.Sql.Statement.{delete_history, insert_probe, delete_probe}
use sync_bridge.Sql.Query.{select_one, count_by_status, count_history, list_history, get_history}
use sync_bridge.Sql.Engine.{Result, ok, err, IsSqlite}
use sync_bridge.Handlers.Host.{Host}
use sync_bridge.Handlers.Log.{LogSteps, stay}
use sync_bridge.Handlers.Log.Steps.{
  Allowed, LogSteps-trans, Logged-LogSteps, Reset-LogSteps, Removed-LogSteps, exec-idle,
  exec-Allowed, query-Allowed, retry_by-idle,
}
use sync_bridge.Handlers.Response.{Reply}
use sync_bridge.Handlers.Sync.{sync_handler}
use sync_bridge.Handlers.Sync.Entry.{log}
use sync_bridge.Handlers.Sync.Logged.{sync_handler-Logged}
use sync_bridge.Handlers.History.{
  Float64, stats_handler, list_counted, list_history_handler, get_history_by, get_history_handler,
  retry_by, retry_history_handler, delete_by, delete_history_handler,
}
use sync_bridge.Handlers.History.Retry.{Retried, retry_history_handler-Retried}
use sync_bridge.Handlers.History.Delete.{Deleted, delete_history_handler-Deleted}
use sync_bridge.Handlers.Health.{clean_up, health_handler}

module _ (h : Host) (sql : IsSqlite h.engine) where
  open h use {engine}

  delete_by-idle :
      (o : Option ℤ) (s : engine.State)
      → engine.saved s ≡ none
      → engine.saved (delete_by h o s).1 ≡ none
  unfolding delete_by
  delete_by-idle none s idle = idle
  delete_by-idle (some id) s idle = exec-idle h sql (delete_history id) s idle

module _ (h : Host) (sql : IsSqlite h.engine) {D : ℤ → Type 0} where
  open h use {unicode, engine}

  pub Allowed-trans :
      (s s1 s2 : engine.State) → Allowed h D s s1 → Allowed h D s1 s2 → Allowed h D s s2
  Allowed-trans s s1 s2 (first, _) (second, idle) = (LogSteps-trans first second, idle)

  pub Allowed-refl : (s : engine.State) → engine.saved s ≡ none → Allowed h D s s
  Allowed-refl s idle = (stay λ i. refl, idle)

  same-LogSteps :
      (s s' : engine.State)
      → engine.tables s' ≡ engine.tables s
      → LogSteps unicode D (log h s) (log h s')
  same-LogSteps s s' e = stay λ i. ap (λ (t : Tables). find i t.sync_history) e

  -- A sync that starts outside a transaction takes the log through allowed steps, if no COMMIT
  -- fails, and ends outside a transaction.
  pub sync_handler-Allowed :
      ((s : engine.State) → (engine.commit s).0 ≡ ok tt)
      → (body : Option Json) (s : engine.State) → engine.saved s ≡ none
      → Allowed h D s (sync_handler h body s).state
  sync_handler-Allowed commits body s idle =
      let (logged, ends) = sync_handler-Logged h sql commits body s idle in
      (Logged-LogSteps unicode D _ _ _ _ logged, ends)

  Retried-LogSteps :
      (id : ℤ) (s : engine.State) (out : Reply × engine.State)
      → Retried h id s out
      → LogSteps unicode D (log h s) (log h out.1)
  Retried-LogSteps id s out (inl (same, bad)) = same-LogSteps s out.1 same
  Retried-LogSteps id s out (inr x) = Reset-LogSteps h id s out.1 x

  Deleted-LogSteps :
      (id : ℤ) (s : engine.State) (out : Reply × engine.State)
      → D id
      → Deleted h id s out
      → LogSteps unicode D (log h s) (log h out.1)
  Deleted-LogSteps id s out may (inl (same, bad)) = same-LogSteps s out.1 same
  Deleted-LogSteps id s out may (inr x) = Removed-LogSteps h id s out.1 may x

  pub retry_history_handler-Allowed :
      (id_str : Bytes) (s : engine.State)
      → engine.saved s ≡ none
      → Allowed h D s (retry_history_handler h id_str s).1
  unfolding retry_history_handler
  retry_history_handler-Allowed id_str s idle =
      (steps, retry_by-idle h sql (parse_int id_str) s idle)
    where
      steps : LogSteps unicode D (log h s) (log h (retry_history_handler h id_str s).1)
      steps = elim (Option-cases (parse_int id_str)) [
        | inl e ↦ rw (e, retry_by) (stay λ i. refl)
        | inr (id, e) ↦
            Retried-LogSteps id s (retry_history_handler h id_str s)
              (retry_history_handler-Retried h sql id_str id s e idle)
      ]

  pub delete_history_handler-Allowed :
      (id_str : Bytes) (s : engine.State)
      → ((id : ℤ) → parse_int id_str ≡ some id → D id)
      → engine.saved s ≡ none
      → Allowed h D s (delete_history_handler h id_str s).1
  unfolding delete_history_handler
  delete_history_handler-Allowed id_str s may idle =
      (steps, delete_by-idle h sql (parse_int id_str) s idle)
    where
      steps : LogSteps unicode D (log h s) (log h (delete_history_handler h id_str s).1)
      steps = elim (Option-cases (parse_int id_str)) [
        | inl e ↦ rw (e, delete_by) (stay λ i. refl)
        | inr (id, e) ↦
            Deleted-LogSteps id s (delete_history_handler h id_str s) (may id e)
              (delete_history_handler-Deleted h sql id_str id s e idle)
      ]

  pub stats_handler-Allowed :
      (s : engine.State) → engine.saved s ≡ none → Allowed h D s (stats_handler h s).1
  unfolding stats_handler
  stats_handler-Allowed s idle = query-Allowed h sql count_by_status s idle

  list_counted-Allowed :
      (float : Float64) (st : Option Bytes) (page size offset : ℤ) (r : Result ℕ) (s : engine.State)
      → engine.saved s ≡ none
      → Allowed h D s (list_counted h float st page size offset (r, s)).1
  unfolding list_counted
  list_counted-Allowed float st page size offset (ok total) s idle =
      query-Allowed h sql (list_history st size offset) s idle
  list_counted-Allowed float st page size offset (err text) s idle = Allowed-refl s idle

  pub list_history_handler-Allowed :
      (float : Float64) (page size st : Option Bytes) (s : engine.State)
      → engine.saved s ≡ none
      → Allowed h D s (list_history_handler h float page size st s).1
  unfolding list_history_handler
  list_history_handler-Allowed float page size st s idle =
      let first = query-Allowed h sql (count_history _) s idle in
      Allowed-trans s _ _ first (list_counted-Allowed float _ _ _ _ _ _ first.1)

  get_history_by-Allowed :
      (o : Option ℤ) (s : engine.State)
      → engine.saved s ≡ none
      → Allowed h D s (get_history_by h o s).1
  unfolding get_history_by
  get_history_by-Allowed none s idle = Allowed-refl s idle
  get_history_by-Allowed (some id) s idle = query-Allowed h sql (get_history id) s idle

  pub get_history_handler-Allowed :
      (id_str : Bytes) (s : engine.State)
      → engine.saved s ≡ none
      → Allowed h D s (get_history_handler h id_str s).1
  unfolding get_history_handler
  get_history_handler-Allowed id_str s idle = get_history_by-Allowed (parse_int id_str) s idle

  clean_up-Allowed :
      (uuid_text : Bytes) (b : Bool) (s : engine.State)
      → engine.saved s ≡ none
      → Allowed h D s (clean_up h uuid_text b s)
  unfolding clean_up
  clean_up-Allowed uuid_text true s idle = exec-Allowed h sql (delete_probe _) s refl idle
  clean_up-Allowed uuid_text false s idle = Allowed-refl s idle

  pub health_handler-Allowed :
      (uuid_text : Bytes) (s : engine.State)
      → engine.saved s ≡ none
      → Allowed h D s (health_handler h uuid_text s).1
  unfolding health_handler
  health_handler-Allowed uuid_text s idle =
      let read = query-Allowed h sql select_one s idle in
      let written = exec-Allowed h sql (insert_probe _) _ refl read.1 in
      Allowed-trans s _ _ read
        (Allowed-trans _ _ _ written (clean_up-Allowed uuid_text _ _ written.1))
