-- ===== src/Handlers/Log.antt =====
-- What the log of syncs promises: entries by id, whose order in the table is forgotten, and the
-- steps that an entry may take. The handlers of internal/handlers take only these steps.
pub mod Invariant
pub mod Steps
pub mod Refinement
use sync_bridge.Base.{ℕ, ◌≡◌, ◌≤◌, Option, none, some, if◌then◌else◌, length}
use sync_bridge.Base.Int.{ℤ, eqb_ℤ}
use sync_bridge.Text.{Bytes, str, Unicode, to_upper}
use sync_bridge.Sql.Table.{Table, find}
use sync_bridge.Sql.Schema.{HistoryRow}
use sync_bridge.Sql.Statement.{pending_row}

abbrev pub Log : Type 0
Log = ℤ → Option HistoryRow

abbrev pub log_of : Table HistoryRow → Log
log_of t i = find i t

-- the log with one entry changed
abbrev pub put : ℤ → Option HistoryRow → Log → Log
put id entry l i = if eqb_ℤ id i then entry else l i

abbrev pub ◌≗◌ : Log → Log → Type 0

infix 45 ◌≗◌
l ≗ l' = (i : ℤ) → l i ≡ l' i

abbrev pub failed_row : Bytes → Bytes → HistoryRow → HistoryRow
failed_row reason now r = record r {
  status = str "FAILED";
  failure_reason = some reason;
  updated_at = now;
}

abbrev pub successful_row : Bytes → HistoryRow → HistoryRow
successful_row now r = record r { status = str "SUCCESSFUL"; updated_at = now }

abbrev pub retried_row : Bytes → HistoryRow → HistoryRow
retried_row now r = record r {
  status = str "PENDING_RETRY";
  failure_reason = none;
  updated_at = now;
}

-- A new entry is pending; a pending entry fails, for a reason of at most 255 bytes, or succeeds; a
-- failed entry is pending again; and an entry with an id of `D` is deleted.
pub data LogStep (u : Unicode) (D : ℤ → Type 0) (l l' : Log) : Type 0 where
  enters :
      (id : ℤ) (payload now : Bytes)
      → l id ≡ none
      → l' ≗ put id (some (pending_row payload now)) l
      → LogStep u D l l'
  fails :
      (id : ℤ) (r : HistoryRow) (reason now : Bytes)
      → l id ≡ some r
      → r.status ≡ str "PENDING_RETRY"
      → length reason ≤ 255
      → l' ≗ put id (some (failed_row reason now r)) l
      → LogStep u D l l'
  succeeds :
      (id : ℤ) (r : HistoryRow) (now : Bytes)
      → l id ≡ some r
      → r.status ≡ str "PENDING_RETRY"
      → l' ≗ put id (some (successful_row now r)) l
      → LogStep u D l l'
  resets :
      (id : ℤ) (r : HistoryRow) (now : Bytes)
      → l id ≡ some r
      → to_upper u r.status ≡ str "FAILED"
      → l' ≗ put id (some (retried_row now r)) l
      → LogStep u D l l'
  deletes : (id : ℤ) (r : HistoryRow) → D id → l id ≡ some r → l' ≗ put id none l → LogStep u D l l'

-- A sequence of steps.
pub data LogSteps (u : Unicode) (D : ℤ → Type 0) : Log → Log → Type 0 where
  stay : {l l' : Log} → l' ≗ l → LogSteps u D l l'
  step : {l m l' : Log} → LogStep u D l m → LogSteps u D m l' → LogSteps u D l l'
