-- ===== src/Sql/Engine.antt =====
-- database/sql over SQLite on one connection, which the service does not implement: an interface
-- of operations, and what is documented of them. `saved` is the state to which a pending
-- transaction rolls back.
use sync_bridge.Base.{ℕ, ◌≡◌, ◌⊎◌, Option, none, some}
use sync_bridge.Base.Int.{ℤ}
use sync_bridge.Text.{Bytes}
use sync_bridge.Sql.Schema.{Tables}
use sync_bridge.Sql.Statement.{Statement, effect, IsCount, IsFresh}
use sync_bridge.Sql.Query.{Query, Answer, Answers}

-- A call of the driver: its value, or the text of its error.
pub data Result (A : Type 0) : Type 0 where
  ok : A → Result A
  err : Bytes → Result A

-- `sql.Result`; `LastInsertId` and `RowsAffected` may fail themselves.
pub record Done : Type 0 where
  pub row_id : ℤ
  pub row_id_error : Option Bytes
  pub affected : ℕ
  pub affected_error : Option Bytes

abbrev pub last_insert_id : Done → Result ℤ
last_insert_id d = elim d.row_id_error [ none ↦ ok d.row_id | some text ↦ err text ]

abbrev pub rows_affected : Done → Result ℕ
rows_affected d = elim d.affected_error [ none ↦ ok d.affected | some text ↦ err text ]

pub record Engine : Type 1 where
  pub State : Type 0
  pub tables : State → Tables
  pub saved : State → Option Tables
  pub clock : State → Bytes
  pub exec : Statement → State → Result Done × State
  pub query : (q : Query) → State → Result (Answer q) × State
  pub begin : State → Result (Unit {0}) × State
  pub commit : State → Result (Unit {0}) × State
  pub rollback : State → State

module _ (e : Engine) where
  open e use {State, tables, saved, clock, exec, query, begin, commit, rollback}

  -- Neither the contents nor the pending transaction have changed.
  pub record Same (s s' : State) : Type 0 where
    pub tables_eq : tables s' ≡ tables s
    pub saved_eq : saved s' ≡ saved s

  -- SQLite has rolled the transaction back by itself.
  pub record RolledBack (s s' : State) : Type 0 where
    pub pending : saved s ≡ some (tables s')
    pub ended : saved s' ≡ none

  pub record Executed (st : Statement) (d : Done) (s s' : State) : Type 0 where
    pub tables_eq : tables s' ≡ effect d.row_id (clock s) st (tables s)
    pub saved_eq : saved s' ≡ saved s
    pub fresh : IsFresh st d.row_id (tables s)
    pub count : IsCount st d.affected (tables s)

  -- A statement that fails has no effect, or ends the transaction.
  pub record IsSqlite : Type 0 where
    pub exec_ok :
        (st : Statement) (s s' : State) (d : Done) → exec st s ≡ (ok d, s') → Executed st d s s'
    pub exec_err :
        (st : Statement) (s s' : State) (text : Bytes)
        → exec st s ≡ (err text, s')
        → Same s s' ⊎ RolledBack s s'
    pub query_same : (q : Query) (s : State) → Same s (query q s).1
    pub query_ok :
        (q : Query) (s s' : State) (a : Answer q) → query q s ≡ (ok a, s') → Answers q (tables s) a
    pub begin_ok :
        (s s' : State)
        → saved s ≡ none
        → begin s ≡ (ok tt, s')
        → (tables s' ≡ tables s) × (saved s' ≡ some (tables s))
    pub begin_err : (s s' : State) (text : Bytes) → begin s ≡ (err text, s') → Same s s'
    pub commit_ok :
        (s s' : State) → commit s ≡ (ok tt, s') → (tables s' ≡ tables s) × (saved s' ≡ none)
    pub rollback_pending :
        (s : State) {t : Tables}
        → saved s ≡ some t
        → (tables (rollback s) ≡ t) × (saved (rollback s) ≡ none)
    pub rollback_ended : (s : State) → saved s ≡ none → Same s (rollback s)
