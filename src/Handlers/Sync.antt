-- ===== src/Handlers/Sync.antt =====
-- `SyncHandler` of internal/handlers/sync.go.
pub mod Atomic
pub mod Success
pub mod Served
pub mod Entry
pub mod Marked
pub mod Logged
mod Tests
use sync_bridge.Base.{
  ℕ, ◌≡◌, Bool, Option, none, some, List, [], ◌∷◌, if◌then◌else◌, ◌==◌, take, get_or,
}
use sync_bridge.Base.Int.{ℤ}
use sync_bridge.Text.{Bytes, str, eqb}
use sync_bridge.Errors.{
  AppError, GoError, app, other, error, new_internal_error, handle_db_error, parse_validation_error,
}
use sync_bridge.Json.{Json}
use sync_bridge.Dto.{SyncRequest}
use sync_bridge.Dto.Rules.{validate, request_rules}
use sync_bridge.Dto.Decode.{decode_request}
use sync_bridge.Sql.Statement.{insert_history, mark_failed, mark_successful}
use sync_bridge.Sql.Engine.{Result, ok, err, Done, last_insert_id}
use sync_bridge.Handlers.Action.{Outcome, returned, failed, panicked, Action, pure, ◌>>=◌}
use sync_bridge.Handlers.Host.{Host}
use sync_bridge.Handlers.Items.{SyncResult}
use sync_bridge.Handlers.Process.{Tx, process_item}
use sync_bridge.Handlers.Response.{
  Response, Reply, sent, recovered, results_body, send_error, send_message,
}

-- internal/metrics/metrics.go: what a handler adds to the counters, and whose duration it observes,
-- by the labels
pub data Metric : Type 0 where
  sync_total sync_errors sync_duration : Bytes → Bytes → Metric

-- `errors.As(processErr, &appErr)`, else `HandleDBError`
abbrev pub as_app_error : Host → GoError → AppError
as_app_error h (app e) = e
as_app_error h process_err = handle_db_error h.unicode (some process_err)

unfoldable pub error_class : AppError → Bytes
error_class e =
    if e.status_code == 400
    then (if eqb e.message (str "Validation failed")
        then str "ValidationException"
        else str "ApiException")
    else if e.status_code == 409
    then str "DataIntegrityViolationException"
    else str "InternalServerError"

module _ (h : Host) where
  open h use {unicode, validator, engine, marshal}

  pub record Synced : Type 0 where
    pub reply : Reply
    pub metrics : List Metric
    pub state : engine.State

  unfoldable pub create_pending_history : Bytes → engine.State → Result ℤ × engine.State
  create_pending_history payload s =
      let (r, s') = engine.exec (insert_history payload) s in
      (elim r [ ok done ↦ last_insert_id done | err text ↦ err text ], s')

  -- an error of the UPDATE is dropped
  unfoldable pub mark_history_failed : ℤ → Bytes → engine.State → engine.State
  mark_history_failed id reason s = (engine.exec (mark_failed id (take 255 reason)) s).1

  unfoldable pub process_items : Bytes → List Json → Tx h (List SyncResult)
  process_items model [] = pure []
  process_items model (item_val ∷ more) = do
    res ← process_item h model item_val
    results ← process_items model more
    pure (res ∷ results)

  module _ (model : Bytes) (id : ℤ) where
    -- an item has failed; the deferred second `Rollback` finds the transaction done
    unfoldable pub give_up : GoError → engine.State → Synced
    give_up process_err s =
        let app_err = as_app_error h process_err in
        record {
          reply = send_error app_err;
          metrics =
              sync_total (str "error") model
              ∷ sync_errors (error_class app_err) model
              ∷ sync_duration (str "error") model
              ∷ [];
          state = mark_history_failed id (error app_err) (engine.rollback s);
        }

    unfoldable pub committed : List SyncResult → Result Unit × engine.State → Synced
    committed results (ok _, s) = record {
      reply = sent (record { status = 200; body = results_body results });
      metrics = sync_total (str "success") model ∷ sync_duration (str "success") model ∷ [];
      state = (engine.exec (mark_successful id) s).1;
    }
    committed results (err text, s) =
        let db_err = handle_db_error unicode (some (other text)) in
        record {
          reply = send_error db_err;
          metrics =
              sync_total (str "error") model
              ∷ sync_errors (str "SqliteException") model
              ∷ sync_duration (str "error") model
              ∷ [];
          state = mark_history_failed id (error db_err) s;
        }

    unfoldable pub finish : Outcome (List SyncResult) × engine.State → Synced
    unfolding give_up committed
    finish (failed process_err, s) = give_up process_err s
    finish (panicked, s) = record { reply = recovered; metrics = []; state = engine.rollback s }
    finish (returned results, s) = committed results (engine.commit s)

    unfoldable pub run_transaction : List Json → Result Unit × engine.State → Synced
    run_transaction items (ok _, s) = finish (process_items model items s)
    run_transaction items (err text, s) =
        let app_err = new_internal_error (other text) in
        record {
          reply = send_error app_err;
          metrics = [];
          state = mark_history_failed id (error app_err) s;
        }

  unfoldable pub log_and_run : Bytes → List Json → Result ℤ × engine.State → Synced
  log_and_run model items (ok id, s) = run_transaction model id items (engine.begin s)
  log_and_run model items (err text, s) = record {
    reply = send_message 500 text;
    metrics = [];
    state = s;
  }

  -- a valid request; ranging over a nil slice does nothing
  unfoldable pub sync_payload : SyncRequest → engine.State → Synced
  sync_payload payload s =
      let items = get_or payload.items [] in
      let payload_str = get_or (marshal items) (str "Error serializing payload") in
      log_and_run payload.model items (create_pending_history payload_str s)

  abbrev pub validated_payload : SyncRequest → Option GoError → engine.State → Synced
  validated_payload payload none s = sync_payload payload s
  validated_payload payload (some e) s = record {
    reply = send_error (parse_validation_error unicode e);
    metrics = [];
    state = s;
  }

  abbrev pub bound_payload : Option SyncRequest → engine.State → Synced
  bound_payload none s = record {
    reply = send_message 400 (str "Invalid JSON body");
    metrics = [];
    state = s;
  }
  bound_payload (some payload) s =
      validated_payload payload (validate validator (request_rules payload)) s

  -- `c.ShouldBindJSON`: `none` is a body that is no JSON document
  abbrev pub bind_json : Option Json → Option SyncRequest
  bind_json none = none
  bind_json (some j) = decode_request unicode j

  unfoldable pub sync_handler : Option Json → engine.State → Synced
  sync_handler body s = bound_payload (bind_json body) s
