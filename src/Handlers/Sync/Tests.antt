-- ===== src/Handlers/Sync/Tests.antt =====
-- Runs of `SyncHandler` on the database in memory, and its theorems at such runs.
use sync_bridge.Base.{◌≡◌, refl, none, some, get_or, List, [], ◌∷◌, arith}
use sync_bridge.Base.Int.{pos}
use sync_bridge.Text.{str}
use sync_bridge.Json.{Json, text, arr, obj, nil, cons, end, field}
use sync_bridge.Sql.Memory.{memory-IsSqlite}
use sync_bridge.Handlers.Example.{sample_host, empty, runs, rules_validator-IsValidator}
use sync_bridge.Handlers.Response.{status}
use sync_bridge.Handlers.Sync.{
  bind_json, sync_handler, create_pending_history, mark_history_failed, process_items, finish,
  run_transaction, log_and_run, sync_payload, error_class,
}
use sync_bridge.Handlers.Sync.Atomic.{IsIdle, targets, sync_handler-atomic}
use sync_bridge.Handlers.Process.Served.{IsReady, ready_customer}
use sync_bridge.Handlers.Sync.Served.{IsAnswered, sync_handler-IsAnswered}
use sync_bridge.Handlers.Sync.Success.{Processed, succeeded, sync_handler-Processed}
use sync_bridge.Handlers.Sync.Entry.{LeavesLog}
use sync_bridge.Handlers.Sync.Logged.{sync_handler-Logged}
use sync_bridge.Handlers.Items.{SyncResult}
use sync_bridge.Dto.{SyncRequest, CustomerDto}
use sync_bridge.Dto.Rules.{validate, request_rules, is_valid}

abbrev ada : Json
ada = obj (
    field (str "email") (text (str "ada@example.com")) (
      field (str "first_name") (text (str "Ada"))
        (field (str "last_name") (text (str "Lovelace")) end)))

abbrev nameless : Json
nameless = obj (field (str "email") (text (str "nobody@example.com")) end)

-- The second item breaks a rule, after the first has been written.
abbrev half_valid : Json
half_valid = obj (
    field (str "model") (text (str "customers"))
      (field (str "data") (arr (cons ada (cons nameless nil))) end))

sync_runs : Unit {0}
unfolding runs sync_handler create_pending_history mark_history_failed process_items finish
    run_transaction log_and_run sync_payload error_class
sync_runs = tt

half_valid-status : status (sync_handler sample_host (some half_valid) empty).reply ≡ 400
unfolding sync_runs
half_valid-status = refl

sync_handler-atomic_example :
    IsIdle sample_host
      (targets sample_host empty)
      (sync_handler sample_host (some half_valid) empty).state
sync_handler-atomic_example =
    sync_handler-atomic sample_host memory-IsSqlite (λ s. refl) (some half_valid) empty refl
      (omega (arith, half_valid-status))

abbrev all_valid : Json
all_valid =
    obj (field (str "model") (text (str "customers")) (field (str "data") (arr (cons ada nil)) end))

abbrev one_created : List SyncResult
one_created = record { id = pos 1; status = str "created" } ∷ []

all_valid-reply : (sync_handler sample_host (some all_valid) empty).reply ≡ succeeded one_created
unfolding sync_runs
all_valid-reply = refl

sync_handler-Processed_example :
    (p : SyncRequest) × (bind_json sample_host (some all_valid) ≡ some p)
    × (validate sample_host.validator (request_rules p) ≡ none)
    × Processed sample_host p.model
        (get_or p.items [])
        one_created
        (targets sample_host empty)
        (sync_handler sample_host (some all_valid) empty)
sync_handler-Processed_example =
    sync_handler-Processed sample_host memory-IsSqlite (some all_valid) one_created empty refl
      all_valid-reply

sync_handler-Logged_example :
    LeavesLog sample_host empty (sync_handler sample_host (some half_valid) empty)
sync_handler-Logged_example =
    sync_handler-Logged sample_host memory-IsSqlite (λ s. refl) (some half_valid) empty refl

abbrev ada_request : SyncRequest
ada_request = record { model = str "customers"; items = some (ada ∷ []) }

abbrev ada_customer : CustomerDto
ada_customer = record {
  id = none;
  email = str "ada@example.com";
  first_name = str "Ada";
  last_name = str "Lovelace";
  default_currency = none;
}

ada-IsReady : IsReady sample_host rules_validator-IsValidator (str "customers") ada
unfolding sync_runs is_valid
ada-IsReady = ready_customer ada_customer refl refl refl

all_valid-bound : bind_json sample_host (some all_valid) ≡ some ada_request
unfolding sync_runs
all_valid-bound = refl

ada_request-valid : validate sample_host.validator (request_rules ada_request) ≡ none
unfolding sync_runs
ada_request-valid = refl

sync_handler-IsAnswered_example :
    IsAnswered sample_host
      (str "customers")
      (ada ∷ [])
      empty
      (sync_handler sample_host (some all_valid) empty)
sync_handler-IsAnswered_example =
    sync_handler-IsAnswered sample_host rules_validator-IsValidator (some all_valid) ada_request
      empty all_valid-bound ada_request-valid (ada-IsReady, tt)
