-- ===== src/Handlers/Log/Steps.antt =====
-- Every handler takes the log through steps that its specification allows.
use sync_bridge.Base.{
  ◌≡◌, refl, ap, sym, subst, ◌∙◌, inl, inr, Option, none, some, arith, false, Bool-cases,
  if◌then◌else◌, take, length-take-le,
}
use sync_bridge.Base.Int.{ℤ, eqb_ℤ, eqb_ℤ_iff, eqb_ℤ_refl}
use sync_bridge.Text.{Bytes, str, Unicode, eqb, to_upper}
use sync_bridge.Errors.{error}
use sync_bridge.Handlers.Response.{Reply}
use sync_bridge.Sql.Table.{find, apply_to}
use sync_bridge.Sql.Schema.{HistoryRow, Tables}
use sync_bridge.Sql.Statement.{
  Statement, effect, writes_log, history_effect-writes_log, pending_row, reset_history,
}
use sync_bridge.Sql.Query.{Query, get_history, get_status}
use sync_bridge.Sql.Engine.{Result, ok, err, Done, IsSqlite}
use sync_bridge.Handlers.Host.{Host}
use sync_bridge.Handlers.Log.{
  Log, put, ◌≗◌, failed_row, successful_row, retried_row, LogStep, enters, fails, succeeds, resets,
  deletes, LogSteps, stay, step,
}
use sync_bridge.Handlers.Log.Invariant.{at_id, elsewhere}
use sync_bridge.Handlers.Sync.Entry.{Marked, unmarked, as_failed, as_successful, Logged, log}
use sync_bridge.Handlers.History.{retry_by, retry_status, read_back}
use sync_bridge.Handlers.History.Retry.{Reset}
use sync_bridge.Handlers.History.Delete.{Removed}

put-put : (id : ℤ) (x y : Option HistoryRow) (l : Log) → put id x l ≗ put id x (put id y l)
put-put id x y l i = ground arith

-- An entry that is changed where it stands.
apply-put :
    (id i : ℤ) (f : HistoryRow → HistoryRow) (r : HistoryRow) (l : Log)
    → l id ≡ some r
    → (if eqb_ℤ id i then apply_to f (l i) else l i) ≡ put id (some (f r)) l i
apply-put id i f r l found = elim (Bool-cases (eqb_ℤ id i)) [
  | inl same ↦
      at_id id i (apply_to f (l i)) l same
      ∙ ap (apply_to f) (sym (ap l ((eqb_ℤ_iff id i).0 same)) ∙ found)
      ∙ sym (at_id id i (some (f r)) l same)
  | inr differs ↦
      elsewhere id i (apply_to f (l i)) l differs ∙ sym (elsewhere id i (some (f r)) l differs)
]

-- A step depends on the entries of a log alone.
from-same :
    {u : Unicode} {D : ℤ → Type 0} {l m l' : Log} → m ≗ l → LogStep u D m l' → LogStep u D l l'
from-same {u} {D} {l} {m} {l'} e st = subst (λ k. LogStep u D k l') (λ j i. e i j) st

pub LogSteps-trans :
    {u : Unicode} {D : ℤ → Type 0} {l m l' : Log}
    → LogSteps u D l m
    → LogSteps u D m l'
    → LogSteps u D l l'
LogSteps-trans (stay e) (stay f) = stay λ i. f i ∙ e i
LogSteps-trans (stay e) (step st more) = step (from-same e st) more
LogSteps-trans (step st more) next = step st (LogSteps-trans more next)

module _ (u : Unicode) (D : ℤ → Type 0) where
  Entered-LogSteps :
      (reply : Reply) (missed : Type 0) (l l' : Log) (id : ℤ) (payload now : Bytes)
      (row : HistoryRow)
      → l id ≡ none
      → Marked reply missed (pending_row payload now) row
      → l' ≗ put id (some row) l
      → LogSteps u D l l'
  Entered-LogSteps reply missed l l' id payload now row new (unmarked why) e =
      step (enters id payload now new e) (stay λ i. refl)
  Entered-LogSteps reply missed l l' id payload now row new (as_failed x at bad same) e =
      let reason = take 255 (error x) in
      let p = pending_row payload now in
      step (enters id payload now new λ i. refl) (
        step
          (fails id p reason at (at_id id id (some p) l (eqb_ℤ_refl id)) refl
            (length-take-le 255 (error x))
            λ i. e i ∙ put-put id (some (failed_row reason at p)) (some p) l i)
          (stay λ i. refl))
  Entered-LogSteps reply missed l l' id payload now row new (as_successful at good) e =
      let p = pending_row payload now in
      step (enters id payload now new λ i. refl) (
        step
          (succeeds id p at (at_id id id (some p) l (eqb_ℤ_refl id)) refl
            λ i. e i ∙ put-put id (some (successful_row at p)) (some p) l i)
          (stay λ i. refl))

  pub Logged-LogSteps :
      (reply : Reply) (missed : ℤ → Bytes → Type 0) (l l' : Log)
      → Logged reply missed l l'
      → LogSteps u D l l'
  Logged-LogSteps reply missed l l' (inl (e, bad)) = stay e
  Logged-LogSteps reply missed l l' (inr x) =
      Entered-LogSteps reply (missed x.id x.payload) l l' x.id x.payload x.now x.row x.new x.marked
        x.entry

module _ (h : Host) where
  open h use {unicode, engine}

  -- The log has gone through steps that delete only entries with an id of `D`, and no transaction is open.
  abbrev pub Allowed : (ℤ → Type 0) → engine.State → engine.State → Type 0
  Allowed D s s' = LogSteps unicode D (log h s) (log h s') × (engine.saved s' ≡ none)

  pub Reset-LogSteps :
      {D : ℤ → Type 0} (id : ℤ) (s s' : engine.State)
      → Reset h id s s'
      → LogSteps unicode D (log h s) (log h s')
  Reset-LogSteps id s s' x =
      step
        (resets id x.row x.now x.found x.had_failed
          λ i. x.entries i ∙ apply-put id i (retried_row x.now) x.row (log h s) x.found)
        (stay λ i. refl)

  pub Removed-LogSteps :
      {D : ℤ → Type 0} (id : ℤ) (s s' : engine.State)
      → D id
      → Removed h id s s'
      → LogSteps unicode D (log h s) (log h s')
  Removed-LogSteps id s s' may x = step (deletes id x.row may x.found x.entries) (stay λ i. refl)

module _ (h : Host) (sql : IsSqlite h.engine) where
  open h use {unicode, engine}

  exec-idle_result :
      (st : Statement) (r : Result Done) (s s' : engine.State)
      → engine.exec st s ≡ (r, s')
      → engine.saved s ≡ none
      → engine.saved s' ≡ none
  exec-idle_result st (ok d) s s' e idle = (sql.exec_ok st s s' d e).saved_eq ∙ idle
  exec-idle_result st (err text) s s' e idle = elim (sql.exec_err st s s' text e) [
    | inl same ↦ same.saved_eq ∙ idle
    | inr back ↦ back.ended
  ]

  pub exec-idle :
      (st : Statement) (s : engine.State)
      → engine.saved s ≡ none
      → engine.saved (engine.exec st s).1 ≡ none
  exec-idle st s idle = exec-idle_result st _ s _ refl idle

  query-idle :
      (q : Query) (s : engine.State)
      → engine.saved s ≡ none
      → engine.saved (engine.query q s).1 ≡ none
  query-idle q s idle = (sql.query_same q s).saved_eq ∙ idle

  exec-Allowed_result :
      {D : ℤ → Type 0} (st : Statement) (r : Result Done) (s s' : engine.State)
      → writes_log st ≡ false
      → engine.exec st s ≡ (r, s')
      → engine.saved s ≡ none
      → Allowed h D s s'
  unfolding effect
  exec-Allowed_result st (ok d) s s' free e idle =
      let x = sql.exec_ok st s s' d e in
      let kept =
        ap (λ (u : Tables). u.sync_history) x.tables_eq
        ∙ history_effect-writes_log d.row_id (engine.clock s) st (engine.tables s).sync_history
            free in
      (stay λ i. ap (find i) kept, x.saved_eq ∙ idle)
  exec-Allowed_result st (err text) s s' free e idle = elim (sql.exec_err st s s' text e) [
    | inl same ↦
        (stay λ i. ap (λ (u : Tables). find i u.sync_history) same.tables_eq, same.saved_eq ∙ idle)
    | inr back ↦ absurd (cc (back.pending, idle))
  ]

  -- A statement on another table, and a query, leave the log as it is.
  pub exec-Allowed :
      {D : ℤ → Type 0} (st : Statement) (s : engine.State)
      → writes_log st ≡ false
      → engine.saved s ≡ none
      → Allowed h D s (engine.exec st s).1
  exec-Allowed st s free idle = exec-Allowed_result st _ s _ free refl idle

  pub query-Allowed :
      {D : ℤ → Type 0} (q : Query) (s : engine.State)
      → engine.saved s ≡ none
      → Allowed h D s (engine.query q s).1
  query-Allowed q s idle =
      let same = sql.query_same q s in
      (stay λ i. ap (λ (u : Tables). find i u.sync_history) same.tables_eq, same.saved_eq ∙ idle)

  read_back-idle :
      (id : ℤ) (r : Result Done) (s : engine.State)
      → engine.saved s ≡ none
      → engine.saved (read_back h id (r, s)).1 ≡ none
  unfolding read_back
  read_back-idle id (ok d) s idle = query-idle (get_history id) s idle
  read_back-idle id (err text) s idle = idle

  retry_status-idle :
      (id : ℤ) (r : Result (Option Bytes)) (s : engine.State)
      → engine.saved s ≡ none
      → engine.saved (retry_status h id (r, s)).1 ≡ none
  unfolding retry_status
  retry_status-idle id (ok none) s idle = idle
  retry_status-idle id (ok (some st)) s idle =
      elim (Bool-cases (eqb (to_upper unicode st) (str "FAILED"))) [
        | inl failed ↦ rw failed (read_back-idle id _ _ (exec-idle (reset_history id) s idle))
        | inr kept ↦ rw kept idle
      ]
  retry_status-idle id (err text) s idle = idle

  pub retry_by-idle :
      (o : Option ℤ) (s : engine.State)
      → engine.saved s ≡ none
      → engine.saved (retry_by h o s).1 ≡ none
  unfolding retry_by
  retry_by-idle none s idle = idle
  retry_by-idle (some id) s idle = retry_status-idle id _ _ (query-idle (get_status id) s idle)
