-- ===== src/Handlers/History/Retry.antt =====
-- A retry resets the log entry of a failed sync, and nothing else.
use sync_bridge.Base.{
  ◌≡◌, refl, sym, ap, subst, ◌∙◌, ◌≢◌, ◌⊎◌, inl, inr, Bool, Option, none, some, arith,
  if◌then◌else◌, Bool-cases,
}
use sync_bridge.Base.Int.{ℤ, eqb_ℤ}
use sync_bridge.Text.{Bytes, str, eqb, contains, to_upper}
use sync_bridge.Text.Laws.{eqb_iff}
use sync_bridge.Text.Number.{parse_int}
use sync_bridge.Errors.{GoError, error_text, other, new_bad_request_error}
use sync_bridge.Errors.Unique.{handle_db_error-Classified}
use sync_bridge.Sql.Table.{find, apply_to, find-modify}
use sync_bridge.Sql.Schema.{HistoryRow, Tables}
use sync_bridge.Sql.Statement.{reset_history, effect}
use sync_bridge.Sql.Query.{Query, Answer, get_history, get_status, status_of}
use sync_bridge.Sql.Engine.{Result, ok, err, Done, IsSqlite, Same}
use sync_bridge.Handlers.Host.{Host}
use sync_bridge.Handlers.Response.{Reply, status, send_error}
use sync_bridge.Handlers.History.{
  send_db_error, read_back, retry_status, retry_by, retry_history_handler,
}

abbrev reset_row : Bytes → HistoryRow → HistoryRow
reset_row now r = record r { status = str "PENDING_RETRY"; failure_reason = none; updated_at = now }

module _ (h : Host) where
  open h use {unicode, engine}

  -- The entry `id` had failed and is pending again; the other entries and the target tables are
  -- what they were.
  pub record Reset (id : ℤ) (s s' : engine.State) : Type 0 where
    pub row : HistoryRow
    pub found : find id (engine.tables s).sync_history ≡ some row
    pub had_failed : to_upper unicode row.status ≡ str "FAILED"
    pub now : Bytes
    pub entries :
        (i : ℤ)
        → find i (engine.tables s').sync_history ≡ (
            if eqb_ℤ id i
            then apply_to (reset_row now) (find i (engine.tables s).sync_history)
            else find i (engine.tables s).sync_history)
    pub targets_eq : (engine.tables s').targets ≡ (engine.tables s).targets

  -- Nothing has changed and the answer is not 200, or the entry was reset.
  abbrev pub Retried : ℤ → engine.State → Reply × engine.State → Type 0
  Retried id s (reply, s') =
      ((engine.tables s' ≡ engine.tables s) × (status reply ≢ 200)) ⊎ Reset id s s'

  send_db_error-ne-200 : (e : GoError) → status (send_db_error h e) ≢ 200
  send_db_error-ne-200 e =
      let (conflict, internal, _) = handle_db_error-Classified unicode e in
      elim (Bool-cases (contains (error_text e) (str "UNIQUE constraint failed"))) [
        | inl u ↦ omega (arith, conflict u)
        | inr n ↦ let (code, _) = internal n in omega (arith, code)
      ]

module _ (h : Host) (sql : IsSqlite h.engine) where
  open h use {unicode, engine}

  read_back-Retried :
      (id : ℤ) (row : HistoryRow) (r : Result Done) (s s' : engine.State)
      → engine.saved s ≡ none
      → find id (engine.tables s).sync_history ≡ some row
      → to_upper unicode row.status ≡ str "FAILED"
      → engine.exec (reset_history id) s ≡ (r, s')
      → Retried h id s (read_back h id (r, s'))
  unfolding read_back effect
  read_back-Retried id row (ok d) s s' idle found failed e =
      let x = sql.exec_ok (reset_history id) s s' d e in
      let same = sql.query_same (get_history id) s' in
      let after = same.tables_eq ∙ x.tables_eq in
      inr (record {
        row = row;
        found = found;
        had_failed = failed;
        now = engine.clock s;
        entries = λ i.
            ap (λ (t : Tables). find i t.sync_history) after
            ∙ find-modify i id (reset_row (engine.clock s)) (engine.tables s).sync_history;
        targets_eq = ap (λ (t : Tables). t.targets) after;
      })
  read_back-Retried id row (err text) s s' idle found failed e =
      elim (sql.exec_err (reset_history id) s s' text e) [
        | inl same ↦ inl (same.tables_eq, send_db_error-ne-200 h (other text))
        | inr back ↦ absurd (cc (back.pending, idle))
      ]

  -- The row that is found has the status that has been read.
  found-status :
      (o : Option HistoryRow) (st : Bytes)
      → some st ≡ status_of o
      → (row : HistoryRow) × (o ≡ some row) × (row.status ≡ st)
  found-status (some row) st e = (row, refl, cc e)
  found-status none st e = absurd (cc e)

  pub query-Same-at :
      (q : Query) (s : engine.State) (r : Result (Answer q)) (s' : engine.State)
      → engine.query q s ≡ (r, s')
      → Same h.engine s s'
  query-Same-at q s r s' e =
      subst (λ (out : Result (Answer q) × engine.State). Same h.engine s out.1) e
        (sql.query_same q s)

  Retried-from :
      (id : ℤ) (s0 s : engine.State)
      → Same h.engine s0 s
      → (out : Reply × engine.State) → Retried h id s out
      → Retried h id s0 out
  Retried-from id s0 s same out (inl (t, n)) = inl (t ∙ same.tables_eq, n)
  Retried-from id s0 s same out (inr x) =
      let back = same.tables_eq in
      inr (record {
        row = x.row;
        found = sym (ap (λ (t : Tables). find id t.sync_history) back) ∙ x.found;
        had_failed = x.had_failed;
        now = x.now;
        entries = λ i.
            subst
              (λ (t : Tables). find i (engine.tables out.1).sync_history ≡ (
                if eqb_ℤ id i
                then apply_to (reset_row x.now) (find i t.sync_history)
                else find i t.sync_history))
              back (x.entries i);
        targets_eq = x.targets_eq ∙ ap (λ (t : Tables). t.targets) back;
      })

  reset-Retried :
      (id : ℤ) (row : HistoryRow) (s0 s : engine.State)
      → Same h.engine s0 s
      → engine.saved s0 ≡ none
      → find id (engine.tables s0).sync_history ≡ some row
      → to_upper unicode row.status ≡ str "FAILED"
      → Retried h id s0 (read_back h id (engine.exec (reset_history id) s))
  reset-Retried id row s0 s same idle found failed =
      let r = engine.exec (reset_history id) s in
      let now_found = ap (λ (t : Tables). find id t.sync_history) same.tables_eq ∙ found in
      let step = read_back-Retried id row r.0 s r.1 (same.saved_eq ∙ idle) now_found failed refl in
      Retried-from id s0 s same (read_back h id r) step

  retry_status-Retried :
      (id : ℤ) (r : Result (Option Bytes)) (s s' : engine.State)
      → engine.saved s ≡ none
      → engine.query (get_status id) s ≡ (r, s')
      → Retried h id s (retry_status h id (r, s'))
  unfolding retry_status
  retry_status-Retried id (err text) s s' idle e =
      let same = query-Same-at (get_status id) s _ s' e in
      inl (same.tables_eq, send_db_error-ne-200 h (other text))
  retry_status-Retried id (ok none) s s' idle e =
      let same = query-Same-at (get_status id) s _ s' e in inl (same.tables_eq, omega arith)
  retry_status-Retried id (ok (some st)) s s' idle e =
      let same = query-Same-at (get_status id) s _ s' e in
      let (row, found, at) = found-status _ st (sql.query_ok (get_status id) s s' (some st) e) in
      let is_failed = eqb (to_upper unicode st) (str "FAILED") in
      let branches = λ (b : Bool).
        if b
        then read_back h id (engine.exec (reset_history id) s')
        else (send_error (new_bad_request_error (str "Only failed syncs can be retried")), s') in
      elim (Bool-cases is_failed) [
        | inl holds ↦
            subst (λ b. Retried h id s (branches b)) (sym holds)
              (reset-Retried id row s s' same idle found
                (ap (to_upper unicode) at ∙ (eqb_iff (to_upper unicode st) (str "FAILED")).0 holds))
        | inr fails ↦
            subst (λ b. Retried h id s (branches b)) (sym fails) (inl (same.tables_eq, omega arith))
      ]

  -- `RetryHistoryHandler` with an `id` that parses, outside a transaction: it answers other than
  -- 200 and changes nothing, or it sets the entry `id`, whose status is FAILED in any case of its
  -- letters, to PENDING_RETRY without a failure reason. No other entry and no target table changes.
  pub retry_history_handler-Retried :
      (id_str : Bytes) (id : ℤ) (s : engine.State)
      → parse_int id_str ≡ some id
      → engine.saved s ≡ none
      → Retried h id s (retry_history_handler h id_str s)
  unfolding retry_history_handler retry_by
  retry_history_handler-Retried id_str id s e idle =
      let r = engine.query (get_status id) s in
      subst (λ o. Retried h id s (retry_by h o s)) (sym e)
        (retry_status-Retried id r.0 s r.1 idle refl)
