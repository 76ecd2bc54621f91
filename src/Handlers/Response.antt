-- ===== src/Handlers/Response.antt =====
-- What a handler answers: the status and the JSON body that it hands to `c.JSON`.
use sync_bridge.Base.{ℕ, Bool, List}
use sync_bridge.Base.Int.{ℤ}
use sync_bridge.Text.{Bytes}
use sync_bridge.Errors.{AppError}
use sync_bridge.Sql.Schema.{HistoryRow}
use sync_bridge.Handlers.Items.{SyncResult}

-- `StatsData`
pub record StatsData : Type 0 where
  pub successful : ℕ
  pub failed : ℕ
  pub pending_retry : ℕ
  pub invalid : ℕ
  pub total : ℕ

-- `ListHistoryData` with its `PageableInfo`; the constant fields are left out
pub record ListHistoryData : Type 0 where
  pub content : List (ℤ × HistoryRow)
  pub offset : ℤ
  pub page_number : ℤ
  pub page_size : ℤ
  pub total_elements : ℕ
  pub total_pages : ℤ
  pub number_of_elements : ℕ
  pub first : Bool
  pub last : Bool
  pub is_empty : Bool

-- The bodies: an `AppError`, a map with "status" and "message", and that map with "data".
pub data Body : Type 0 where
  error_body : AppError → Body
  message_body : ℕ → Bytes → Body
  results_body : List SyncResult → Body
  stats_body : StatsData → Body
  page_body : ListHistoryData → Body
  row_body : Bytes → ℤ × HistoryRow → Body
  health_body : ℕ → Bytes → Bool → Bool → Body

pub record Response : Type 0 where
  pub status : ℕ
  pub body : Body

-- A handler that panics is answered for by `gin.Recovery`, with 500.
pub data Reply : Type 0 where
  sent : Response → Reply
  recovered : Reply

abbrev pub status : Reply → ℕ
status (sent r) = r.status
status recovered = 500

-- `c.JSON(appErr.StatusCode, appErr)`
abbrev pub send_error : AppError → Reply
send_error e = sent (record { status = e.status_code; body = error_body e })

-- `c.JSON(code, gin.H{"status": code, "message": msg})`
abbrev pub send_message : ℕ → Bytes → Reply
send_message code msg = sent (record { status = code; body = message_body code msg })
