-- ===== src/Handlers/Sync/Entry.antt =====
-- The entry that a sync may leave in the log.
use sync_bridge.Base.{◌≡◌, ◌≢◌, ◌⊎◌, none, some, take}
use sync_bridge.Base.Int.{ℤ}
use sync_bridge.Text.{Bytes}
use sync_bridge.Errors.{AppError, error}
use sync_bridge.Sql.Schema.{HistoryRow}
use sync_bridge.Sql.Statement.{Statement, insert_history, mark_failed, mark_successful, pending_row}
use sync_bridge.Sql.Engine.{ok, err, Done}
use sync_bridge.Handlers.Host.{Host}
use sync_bridge.Handlers.Log.{Log, log_of, put, ◌≗◌, failed_row, successful_row}
use sync_bridge.Handlers.Response.{Reply, status, recovered, send_error, send_message}
use sync_bridge.Handlers.Sync.{Synced}

-- The entry that a sync with that answer leaves, from the pending one: FAILED, with the first 255
-- bytes of the error that is answered; SUCCESSFUL after an answer of 200; pending still, where the
-- marking was missed.
pub data Marked (reply : Reply) (missed : Type 0) (r : HistoryRow) : HistoryRow → Type 0 where
  unmarked : missed → Marked reply missed r r
  as_failed :
      (e : AppError) (now : Bytes)
      → status reply ≢ 200
      → reply ≡ send_error e
      → Marked reply missed r (failed_row (take 255 (error e)) now r)
  as_successful : (now : Bytes) → status reply ≡ 200 → Marked reply missed r (successful_row now r)

-- One entry is new, and nothing else has changed. `missed` says, by the entry's id and payload, that
-- it could not be marked.
pub record Entered (reply : Reply) (missed : ℤ → Bytes → Type 0) (l l' : Log) : Type 0 where
  pub id : ℤ
  pub payload : Bytes
  pub now : Bytes
  pub row : HistoryRow
  pub new : l id ≡ none
  pub marked : Marked reply (missed id payload) (pending_row payload now) row
  pub entry : l' ≗ put id (some row) l

abbrev pub Logged : Reply → (ℤ → Bytes → Type 0) → Log → Log → Type 0
Logged reply missed l l' = ((l' ≗ l) × (status reply ≢ 200)) ⊎ Entered reply missed l l'

-- The UPDATE of the entry `id` that belongs to an answer.
pub data IsMarking (id : ℤ) (reply : Reply) : Statement → Type 0 where
  of_error :
      (e : AppError)
      → status reply ≢ 200
      → reply ≡ send_error e
      → IsMarking id reply (mark_failed id (take 255 (error e)))
  of_success : status reply ≡ 200 → IsMarking id reply (mark_successful id)

module _ (h : Host) where
  open h use {unicode, engine}

  abbrev pub log : engine.State → Log
  log s = log_of (engine.tables s).sync_history

  -- From the state `first` to the state `last` of a sync, why its entry was not marked: the UPDATE
  -- that belongs to the answer was the last statement, and failed; an item has panicked; or the
  -- entry was inserted, and its id could not be read.
  pub data Missed (first : engine.State) (reply : Reply) (last : engine.State) (id : ℤ)
      (payload : Bytes) : Type 0 where
    update_failed :
        (st : Statement) (s : engine.State) (text : Bytes)
        → IsMarking id reply st
        → engine.exec st s ≡ (err text, last)
        → Missed first reply last id payload
    item_panicked : reply ≡ recovered → Missed first reply last id payload
    id_unknown :
        (d : Done) (text : Bytes)
        → engine.exec (insert_history payload) first ≡ (ok d, last)
        → d.row_id_error ≡ some text
        → reply ≡ send_message 500 text
        → Missed first reply last id payload

  -- What a handler has done to the log, and that it ends outside a transaction.
  abbrev pub LeavesLog : engine.State → Synced h → Type 0
  LeavesLog s out =
      Logged out.reply (Missed s out.reply out.state) (log s) (log out.state)
      × (engine.saved out.state ≡ none)
