-- ===== src/Handlers/History/Tests.antt =====
-- Requests for the log of syncs on the database in memory.
use sync_bridge.Base.{inl, arith, ℕ, true, ◌≡◌, refl, none, some, [], ◌∷◌}
use sync_bridge.Base.Int.{ℤ, pos}
use sync_bridge.Text.{Bytes, str}
use sync_bridge.Text.Number.{parse_int}
use sync_bridge.Sql.Query.{Cursor, scanned, count_by_status, count_history, list_history}
use sync_bridge.Sql.Schema.{HistoryRow}
use sync_bridge.Sql.Statement.{pending_row}
use sync_bridge.Sql.Engine.{ok}
use sync_bridge.Sql.Memory.{Memory, memory, memory-IsSqlite}
use sync_bridge.Handlers.Example.{sample_host, runs}
use sync_bridge.Handlers.History.Pages.{ShowsChunk, entries, list_history_handler-ShowsChunk}
use sync_bridge.Handlers.History.{
  Float64, query_number, status_filter, list_history_handler, stats_handler, retry_history_handler,
  delete_history_handler,
}
use sync_bridge.Handlers.History.Delete.{Deleted, delete_history_handler-Deleted}
use sync_bridge.Handlers.History.Stats.{HasTotal, stats_handler-total}
use sync_bridge.Handlers.History.Counts.{HasCounts, stats_handler-HasCounts}
use sync_bridge.Handlers.History.Retry.{Retried, retry_history_handler-Retried}

abbrev one_failed : Memory
one_failed = record {
  contents = record {
    targets = record {
      customers = [];
      products = [];
      orders = [];
      order_items = [];
      employees = [];
    };
    sync_history =
        (
          pos 12,
          record {
            payload = str "[]";
            status = str "failed";
            failure_reason = some (str "bad");
            retries = pos 0;
            created_at = [];
            updated_at = [];
          },
        )
        ∷ [];
  };
  before = none;
}

twelve : parse_int (str "12") ≡ some (pos 12)
unfolding runs
twelve = refl

retry_history_handler-Retried_example :
    Retried sample_host
      (pos 12)
      one_failed
      (retry_history_handler sample_host (str "12") one_failed)
retry_history_handler-Retried_example =
    retry_history_handler-Retried sample_host memory-IsSqlite (str "12") (pos 12) one_failed twelve
      refl

delete_history_handler-Deleted_example :
    Deleted sample_host
      (pos 12)
      one_failed
      (delete_history_handler sample_host (str "12") one_failed)
delete_history_handler-Deleted_example =
    delete_history_handler-Deleted sample_host memory-IsSqlite (str "12") (pos 12) one_failed twelve
      refl

abbrev one_group : Cursor (Bytes × ℕ)
one_group = record { rows = scanned (str "failed", 1) ∷ []; complete = true }

one_group-query : memory.query count_by_status one_failed ≡ (ok one_group, one_failed)
unfolding runs
one_group-query = refl

stats_handler-total_example : HasTotal sample_host 1 (stats_handler sample_host one_failed).0
stats_handler-total_example =
    stats_handler-total sample_host memory-IsSqlite one_failed one_failed one_group one_group-query
      refl

abbrev one_known : Memory
one_known = record {
  contents = record {
    targets = one_failed.contents.targets;
    sync_history = (pos 3, pending_row (str "[]") []) ∷ [];
  };
  before = none;
}

abbrev known_group : Cursor (Bytes × ℕ)
known_group = record { rows = scanned (str "PENDING_RETRY", 1) ∷ []; complete = true }

known_group-query : memory.query count_by_status one_known ≡ (ok known_group, one_known)
unfolding runs
known_group-query = refl

stats_handler-HasCounts_example :
    HasCounts sample_host one_known.contents.sync_history (stats_handler sample_host one_known).0
stats_handler-HasCounts_example =
    stats_handler-HasCounts sample_host memory-IsSqlite one_known one_known known_group
      (inl refl, tt) known_group-query refl

abbrev one_row : Cursor (ℤ × HistoryRow)
one_row = record { rows = scanned (pos 3, pending_row (str "[]") []) ∷ []; complete = true }

abbrev any_float : Float64
any_float = record { ceil_div = λ n size. pos 1 }

default_page : query_number sample_host none "1" (pos 1) ≡ pos 1
unfolding runs query_number
default_page = refl

default_size : query_number sample_host none "15" (pos 15) ≡ pos 15
unfolding runs query_number
default_size = refl

one_known-counted :
    memory.query (count_history (status_filter sample_host none)) one_known ≡ (ok 1, one_known)
unfolding runs status_filter
one_known-counted = refl

one_known-listed :
    memory.query (list_history (status_filter sample_host none) (pos 15) (pos 0)) one_known
    ≡ (ok one_row, one_known)
unfolding runs status_filter
one_known-listed = refl

list_history_handler-ShowsChunk_example :
    ShowsChunk sample_host 15 0 1
      (entries none one_known.contents.sync_history)
      (list_history_handler sample_host any_float none none none one_known).0
unfolding runs status_filter
list_history_handler-ShowsChunk_example =
    list_history_handler-ShowsChunk sample_host memory-IsSqlite any_float none none none 0 14 1
      one_known one_known one_known one_row default_page default_size (omega arith)
      one_known-counted one_known-listed refl
