-- ===== src/Handlers/Sync/Marked.antt =====
-- How a sync marks the entry that it has added to the log.

use sync_bridge.Base.{
  ℕ, ◌≡◌, ◌≢◌, refl, ap, ◌∙◌, ◌⊎◌, inl, inr, none, some, List, arith, take, Bool-cases,
}
use sync_bridge.Base.Int.{ℤ}
use sync_bridge.Text.{Bytes, str, contains}
use sync_bridge.Errors.{
  AppError, GoError, app, other, validation, no_rows, error, error_text, handle_db_error,
}
use sync_bridge.Errors.Unique.{handle_db_error-Classified}
use sync_bridge.Sql.Table.{Table, find, modify, find-modify, find-add, add}
use sync_bridge.Sql.Schema.{HistoryRow, Tables}
use sync_bridge.Sql.Statement.{
  Statement, mark_failed, mark_successful, history_effect, effect, pending_row,
}
use sync_bridge.Sql.Engine.{Result, ok, err, Done, IsSqlite}
use sync_bridge.Handlers.Action.{Outcome, returned, failed, panicked}
use sync_bridge.Handlers.Host.{Host}
use sync_bridge.Handlers.Items.{SyncResult}
use sync_bridge.Handlers.Log.{Log, log_of, put, ◌≗◌, failed_row, successful_row}
use sync_bridge.Handlers.Process.Keeps.{IsRaised, CanRollBack}
use sync_bridge.Handlers.Response.{Reply, status, send_error}
use sync_bridge.Handlers.Sync.{as_app_error, mark_history_failed, give_up, committed, finish}
use sync_bridge.Handlers.Sync.Atomic.{rollback-restores}
use sync_bridge.Handlers.Sync.Entry.{
  Marked, unmarked, as_failed, as_successful, IsMarking, of_error, of_success, log, Missed,
  update_failed, item_panicked,
}

abbrev IsError : ℕ → Type 0
IsError code = (code ≡ 400) ⊎ ((code ≡ 409) ⊎ (code ≡ 500))

IsError-ne-200 : (code : ℕ) → IsError code → code ≢ 200
IsError-ne-200 code e = ground (arith, e)

module _ (h : Host) where
  open h use {unicode, engine}

  handle_db_error-IsError : (x : GoError) → IsError (handle_db_error unicode (some x)).status_code
  handle_db_error-IsError x =
      let (conflict, internal, _) = handle_db_error-Classified unicode x in
      elim (Bool-cases (contains (error_text x) (str "UNIQUE constraint failed"))) [
        | inl u ↦ inr (inl (conflict u))
        | inr n ↦ inr (inr (internal n).0)
      ]

  raised-IsError : (x : GoError) → IsRaised x → IsError (as_app_error h x).status_code
  raised-IsError (app e) bad = inl bad
  raised-IsError (other text) r = handle_db_error-IsError (other text)
  raised-IsError (validation fs text) r = absurd r
  raised-IsError no_rows r = absurd r

-- The entry `id` of a table is changed where it stands.
pub modify-put :
    (id : ℤ) (f : HistoryRow → HistoryRow) (t : Table HistoryRow) (r : HistoryRow) (l : Log)
    → log_of t ≗ put id (some r) l
    → log_of (modify id f t) ≗ put id (some (f r)) l
modify-put id f t r l e i = ground (arith, find-modify i id f t, e i)

pub add-put :
    (id : ℤ) (r : HistoryRow) (t : Table HistoryRow)
    → find id t ≡ none
    → log_of (add id r t) ≗ put id (some r) (log_of t)
add-put id r t new i = find-add i id r t new

module _ (h : Host) (sql : IsSqlite h.engine) where
  open h use {unicode, engine}

  module _ (first : engine.State) (id : ℤ) (payload now : Bytes) where
    -- Outside a transaction, with the new entry pending.
    pub record IsWaiting (s : engine.State) : Type 0 where
      pub idle : engine.saved s ≡ none
      pub entry : log h s ≗ put id (some (pending_row payload now)) (log h first)

    abbrev pub MarkedLog : Reply → engine.State → Type 0
    MarkedLog reply s =
        (row : HistoryRow) × Marked reply (Missed h first reply s id payload)
          (pending_row payload now) row
        × (log h s ≗ put id (some row) (log h first))
        × (engine.saved s ≡ none)

    -- A statement that changes the entry where it stands, or fails.
    exec-MarkedLog :
        (reply : Reply) (st : Statement) (f : Bytes → HistoryRow → HistoryRow) (r : Result Done)
        (s s' : engine.State)
        → ((new : ℤ) (at : Bytes) (t : Table HistoryRow)
            → history_effect new at st t ≡ modify id (f at) t)
        → ((at : Bytes)
            → Marked reply
                (Missed h first reply s' id payload)
                (pending_row payload now)
                (f at (pending_row payload now)))
        → IsMarking id reply st
        → engine.exec st s ≡ (r, s')
        → IsWaiting s
        → MarkedLog reply s'
    unfolding effect
    exec-MarkedLog reply st f (ok d) s s' changes marked m e w =
        let x = sql.exec_ok st s s' d e in
        let at = engine.clock s in
        let t = (engine.tables s).sync_history in
        let after = ap (λ (u : Tables). u.sync_history) x.tables_eq ∙ changes d.row_id at t in
        (
          f at (pending_row payload now),
          marked at,
          λ i.
              ap (find i) after
              ∙ modify-put id (f at) t (pending_row payload now) (log h first) w.entry i,
          x.saved_eq ∙ w.idle,
        )
    exec-MarkedLog reply st f (err text) s s' changes marked m e w =
        elim (sql.exec_err st s s' text e) [
          | inl same ↦ (
            pending_row payload now,
            unmarked (update_failed st s text m e),
            λ i. ap (λ (u : Tables). find i u.sync_history) same.tables_eq ∙ w.entry i,
            same.saved_eq ∙ w.idle,
          )
          | inr back ↦ absurd (cc (back.pending, w.idle))
        ]

    pub mark_history_failed-MarkedLog :
        (e : AppError) (s : engine.State)
        → e.status_code ≢ 200
        → IsWaiting s
        → MarkedLog (send_error e) (mark_history_failed h id (error e) s)
    unfolding mark_history_failed history_effect
    mark_history_failed-MarkedLog e s bad w =
        let reason = take 255 (error e) in
        exec-MarkedLog (send_error e) (mark_failed id reason) (failed_row reason) _ s _
          (λ new at t. refl) (λ at. as_failed e at bad refl) (of_error e bad refl) refl w

    mark_successful-MarkedLog :
        (reply : Reply) (s : engine.State)
        → status reply ≡ 200
        → IsWaiting s
        → MarkedLog reply (engine.exec (mark_successful id) s).1
    unfolding history_effect
    mark_successful-MarkedLog reply s good w =
        exec-MarkedLog reply (mark_successful id) successful_row _ s _ (λ new at t. refl)
          (λ at. as_successful at good) (of_success good) refl w

    pub log-IsWaiting :
        (t : Tables) (s : engine.State)
        → log_of t.sync_history ≗ put id (some (pending_row payload now)) (log h first)
        → (engine.tables s).sync_history ≡ t.sync_history
        → engine.saved s ≡ none
        → IsWaiting s
    log-IsWaiting t s entry same idle = record {
      idle = idle;
      entry = λ i. ap (find i) same ∙ entry i;
    }

    module _ (commits : (s : engine.State) → (engine.commit s).0 ≡ ok tt) where
      committed-MarkedLog :
          (model : Bytes) (results : List SyncResult) (r : Result Unit) (s s' : engine.State)
          → engine.commit s ≡ (r, s')
          → log h s ≗ put id (some (pending_row payload now)) (log h first)
          → let out = committed h model id results (r, s') in MarkedLog out.reply out.state
      unfolding committed
      committed-MarkedLog model results (ok _) s s' e entry =
          let (same, ended) = sql.commit_ok s s' e in
          mark_successful-MarkedLog _ s' refl (record {
            idle = ended;
            entry = λ i. ap (λ (u : Tables). find i u.sync_history) same ∙ entry i;
          })
      committed-MarkedLog model results (err text) s s' e entry = absurd (cc (commits s, e))

      pub finish-MarkedLog :
          (model : Bytes) (t : Tables) (r : Outcome (List SyncResult)) (s : engine.State)
          → log_of t.sync_history ≗ put id (some (pending_row payload now)) (log h first)
          → CanRollBack engine t r s
          → let out = finish h model id (r, s) in MarkedLog out.reply out.state
      unfolding finish give_up
      finish-MarkedLog model t (returned results) s entry p =
          committed-MarkedLog model results _ s _ refl λ i. ap (find i) p.log_eq ∙ entry i
      finish-MarkedLog model t (failed x) s entry (raised, p) =
          let (back, ended) = rollback-restores h sql t s p in
          mark_history_failed-MarkedLog (as_app_error h x) (engine.rollback s)
            (IsError-ne-200 (as_app_error h x).status_code (raised-IsError h x raised))
            (log-IsWaiting t (engine.rollback s) entry (ap (λ (u : Tables). u.sync_history) back)
              ended)
      finish-MarkedLog model t panicked s entry p =
          let (back, ended) = rollback-restores h sql t s (inl p) in
          (
            pending_row payload now,
            unmarked (item_panicked refl),
            λ i. ap (λ (u : Tables). find i u.sync_history) back ∙ entry i,
            ended,
          )
