-- ===== src/Handlers/History.antt =====
-- internal/handlers/history.go: statistics, listing, reading, retrying and deleting the log of syncs.
pub mod Retry
pub mod Delete
pub mod Stats
pub mod Counts
pub mod Pages
mod Tests
use sync_bridge.Base.{
  ℕ, String, ◌+◌, ◌≡◌, Bool, true, false, Option, none, some, List, [], ◌∷◌, ◌++◌, if◌then◌else◌,
  ◌==◌, get_or, length, not, ◌||◌,
}
use sync_bridge.Base.Int.{ℤ, pos, ◌-ℤ◌, ◌*ℤ◌, wrap64, ltb_ℤ, eqb_ℤ}
use sync_bridge.Text.{Bytes, str, eqb, to_upper}
use sync_bridge.Text.Number.{parse_int}
use sync_bridge.Errors.{
  AppError, GoError, no_rows, other, handle_db_error, new_not_found_error, new_bad_request_error,
}
use sync_bridge.Sql.Schema.{HistoryRow}
use sync_bridge.Sql.Statement.{reset_history, delete_history}
use sync_bridge.Sql.Query.{
  Scan, scanned, scan_failed, Cursor, count_by_status, count_history, list_history, get_history,
  get_status,
}
use sync_bridge.Sql.Engine.{Result, ok, err, Done, rows_affected}
use sync_bridge.Handlers.Host.{Host}
use sync_bridge.Handlers.Response.{
  StatsData, ListHistoryData, Response, Reply, sent, stats_body, page_body, row_body, send_error,
  send_message,
}

abbrev pub no_stats : StatsData
no_stats = record { successful = 0; failed = 0; pending_retry = 0; invalid = 0; total = 0 }

-- `float64`, whose division and rounding `ListHistoryHandler` uses: math.Ceil(a / b) as an int64
pub record Float64 : Type 0 where
  pub ceil_div : ℕ → ℤ → ℤ

module _ (h : Host) where
  open h use {unicode, engine}

  -- `HandleDBError` of an error of the driver
  abbrev pub send_db_error : GoError → Reply
  send_db_error e = send_error (handle_db_error unicode (some e))

  -- one round of the loop of `StatsHandler`
  unfoldable pub count_status : StatsData → Bytes × ℕ → StatsData
  count_status d (status, cnt) =
      let d' = record d { total = d.total + cnt } in
      let name = to_upper unicode status in
      if eqb name (str "SUCCESSFUL")
      then record d' { successful = cnt }
      else if eqb name (str "FAILED")
      then record d' { failed = cnt }
      else if eqb name (str "PENDING_RETRY")
      then record d' { pending_retry = cnt }
      else if eqb name (str "INVALID")
      then record d' { invalid = cnt }
      else d'

  -- A scan that fails ends the loop with an error; `rows.Err` is not asked.
  unfoldable pub count_rows : StatsData → List (Scan (Bytes × ℕ)) → Reply
  unfolding count_status
  count_rows d [] = sent (record { status = 200; body = stats_body d })
  count_rows d (scanned group ∷ rows) = count_rows (count_status d group) rows
  count_rows d (scan_failed text ∷ rows) = send_db_error (other text)

  unfoldable pub stats_reply : Result (Cursor (Bytes × ℕ)) → Reply
  unfolding count_rows
  stats_reply (ok cursor) = count_rows no_stats cursor.rows
  stats_reply (err text) = send_db_error (other text)

  unfoldable pub stats_handler : engine.State → Reply × engine.State
  unfolding stats_reply
  stats_handler s = let (r, s') = engine.query count_by_status s in (stats_reply r, s')

  -- A query parameter that is a positive int64, else the default.
  abbrev positive_or : ℤ → Option ℤ → ℤ
  positive_or d none = d
  positive_or d (some n) = if ltb_ℤ n (pos 1) then d else n

  -- `c.DefaultQuery(name, d)`, parsed
  unfoldable pub query_number : Option Bytes → String → ℤ → ℤ
  query_number param d default = positive_or default (parse_int (get_or param (str d)))

  -- `c.Query("status")`: the filter, if one is given
  unfoldable pub status_filter : Option Bytes → Option Bytes
  status_filter none = none
  status_filter (some st) = if eqb st [] then none else some (to_upper unicode st)

  unfoldable pub read_rows : List (Scan (ℤ × HistoryRow)) → Result (List (ℤ × HistoryRow))
  read_rows [] = ok []
  read_rows (scanned r ∷ rows) = elim (read_rows rows) [ ok rs ↦ ok (r ∷ rs) | err text ↦ err text ]
  read_rows (scan_failed text ∷ rows) = err text

  module _ (float : Float64) where
    -- the body of a page, from what has been counted and read
    unfoldable pub page_data : ℤ → ℤ → ℤ → ℕ → List (ℤ × HistoryRow) → ListHistoryData
    page_data safe_page size offset total_elements history_list =
        let total_pages = float.ceil_div total_elements size in
        record {
          content = history_list;
          offset = offset;
          page_number = safe_page;
          page_size = size;
          total_elements = total_elements;
          total_pages = total_pages;
          number_of_elements = length history_list;
          first = eqb_ℤ safe_page (pos 0);
          last = not (ltb_ℤ safe_page (wrap64 (total_pages -ℤ pos 1))) || eqb_ℤ total_pages (pos 0);
          is_empty = length history_list == 0;
        }

    unfoldable pub page_reply : ℤ → ℤ → ℤ → ℕ → Result (List (ℤ × HistoryRow)) → Reply
    unfolding page_data
    page_reply safe_page size offset total (ok rows) =
        sent
          (record { status = 200; body = page_body (page_data safe_page size offset total rows) })
    page_reply safe_page size offset total (err text) = send_db_error (other text)

    abbrev pub cursor_rows : Result (Cursor (ℤ × HistoryRow)) → Result (List (ℤ × HistoryRow))
    cursor_rows (ok cursor) = read_rows cursor.rows
    cursor_rows (err text) = err text

    unfoldable pub list_counted :
        Option Bytes → ℤ → ℤ → ℤ → Result ℕ × engine.State → Reply × engine.State
    unfolding page_reply read_rows
    list_counted st safe_page size offset (ok total, s) =
        let (r, s') = engine.query (list_history st size offset) s in
        (page_reply safe_page size offset total (cursor_rows r), s')
    list_counted st safe_page size offset (err text, s) = (send_db_error (other text), s)

    -- `page`, `size` and `status` are the parameters of the request's query, if given.
    unfoldable pub list_history_handler :
        Option Bytes → Option Bytes → Option Bytes → engine.State → Reply × engine.State
    unfolding query_number status_filter list_counted
    list_history_handler page_str size_str status_str s =
        let page = query_number page_str "1" (pos 1) in
        let size = query_number size_str "15" (pos 15) in
        let safe_page = wrap64 (page -ℤ pos 1) in
        let offset = wrap64 (safe_page *ℤ size) in
        let st = status_filter status_str in
        list_counted st safe_page size offset (engine.query (count_history st) s)

  abbrev invalid_id : Reply
  invalid_id = send_message 400 (str "Invalid sync history ID")

  abbrev not_found : Reply
  not_found = send_error (new_not_found_error (str "Sync history not found"))

  unfoldable get_reply : Result (Option (ℤ × HistoryRow)) → Reply
  get_reply (ok (some row)) =
      sent
        (record { status = 200; body = row_body (str "Sync history retrieved successfully") row })
  get_reply (ok none) = not_found
  get_reply (err text) = send_db_error (other text)

  unfoldable pub get_history_by : Option ℤ → engine.State → Reply × engine.State
  unfolding get_reply
  get_history_by none s = (invalid_id, s)
  get_history_by (some id) s = let (r, s') = engine.query (get_history id) s in (get_reply r, s')

  unfoldable pub get_history_handler : Bytes → engine.State → Reply × engine.State
  unfolding get_history_by
  get_history_handler id_str s = get_history_by (parse_int id_str) s

  -- the row that is read back after the reset
  unfoldable retried_reply : Result (Option (ℤ × HistoryRow)) → Reply
  retried_reply (ok (some row)) =
      sent (record { status = 200; body = row_body (str "Sync history will be retried") row })
  retried_reply (ok none) = send_db_error no_rows
  retried_reply (err text) = send_db_error (other text)

  unfoldable pub read_back : ℤ → Result Done × engine.State → Reply × engine.State
  unfolding retried_reply
  read_back id (ok done, s) = let (r, s') = engine.query (get_history id) s in (retried_reply r, s')
  read_back id (err text, s) = (send_db_error (other text), s)

  unfoldable pub retry_status : ℤ → Result (Option Bytes) × engine.State → Reply × engine.State
  unfolding read_back
  retry_status id (ok none, s) = (not_found, s)
  retry_status id (ok (some status), s) =
      if eqb (to_upper unicode status) (str "FAILED")
      then read_back id (engine.exec (reset_history id) s)
      else (send_error (new_bad_request_error (str "Only failed syncs can be retried")), s)
  retry_status id (err text, s) = (send_db_error (other text), s)

  unfoldable pub retry_by : Option ℤ → engine.State → Reply × engine.State
  unfolding retry_status
  retry_by none s = (invalid_id, s)
  retry_by (some id) s = retry_status id (engine.query (get_status id) s)

  unfoldable pub retry_history_handler : Bytes → engine.State → Reply × engine.State
  unfolding retry_by
  retry_history_handler id_str s = retry_by (parse_int id_str) s

  unfoldable pub deleted_reply : Result Done → Reply
  deleted_reply (ok done) = elim (rows_affected done) [
    | ok affected ↦
        if affected == 0
        then not_found
        else send_message 204 (str "Sync history deleted successfully")
    | err text ↦ send_db_error (other text)
  ]
  deleted_reply (err text) = send_db_error (other text)

  unfoldable pub delete_by : Option ℤ → engine.State → Reply × engine.State
  unfolding deleted_reply
  delete_by none s = (invalid_id, s)
  delete_by (some id) s = let (r, s') = engine.exec (delete_history id) s in (deleted_reply r, s')

  unfoldable pub delete_history_handler : Bytes → engine.State → Reply × engine.State
  unfolding delete_by
  delete_history_handler id_str s = delete_by (parse_int id_str) s
