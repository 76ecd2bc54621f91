-- ===== src/Handlers/Sync/Served.antt =====
-- A batch of items that obey their rules is answered with results, unless the database fails.
use sync_bridge.Base.{
  ◌≡◌, refl, sym, subst, Option, none, some, List, [], ◌∷◌, get_or, All, arith, length,
}
use sync_bridge.Base.Int.{ℤ}
use sync_bridge.Text.{Bytes, str}
use sync_bridge.Errors.{AppError, other, new_internal_error, handle_db_error}
use sync_bridge.Json.{Json}
use sync_bridge.Dto.{SyncRequest}
use sync_bridge.Dto.Rules.{IsValidator, request_rules, validate}
use sync_bridge.Sql.Statement.{insert_history}
use sync_bridge.Sql.Engine.{Result, ok, err, Done, last_insert_id}
use sync_bridge.Handlers.Action.{returned}
use sync_bridge.Handlers.Host.{Host}
use sync_bridge.Handlers.Items.{SyncResult}
use sync_bridge.Handlers.Process.DbFails.{
  DbFails, Served, serves, refused, Serves, Serves-pure, Serves-bind,
}
use sync_bridge.Handlers.Process.Served.{IsReady, process_item-Serves}
use sync_bridge.Handlers.Response.{send_error, send_message}
use sync_bridge.Handlers.Sync.{
  Synced, create_pending_history, process_items, committed, finish, run_transaction, log_and_run,
  sync_payload, validated_payload, bound_payload, bind_json, sync_handler,
}
use sync_bridge.Handlers.Sync.Success.{succeeded}

module _ (h : Host) where
  open h use {unicode, engine, marshal}

  -- The INSERT of the log entry of a batch.
  abbrev logs : List Json → engine.State → Result Done × engine.State
  logs js s = engine.exec (insert_history (get_or (marshal js) (str "Error serializing payload"))) s

  abbrev db_error : Bytes → AppError
  db_error text = handle_db_error unicode (some (other text))

  -- A sync of a batch from the state `s` is answered with a result for each item, or a call that it
  -- makes of the database fails, and the answer tells that error: the INSERT of the log entry, its
  -- id, the BEGIN that follows, a statement or an id of the items' run that follows, or the COMMIT
  -- after the run.
  pub data IsAnswered (model : Bytes) (js : List Json) (s : engine.State) (out : Synced h)
      : Type 1 where
    answered :
        (results : List SyncResult)
        → out.reply ≡ succeeded results
        → length results ≡ length js
        → IsAnswered model js s out
    log_refused :
        (s1 : engine.State) (text : Bytes)
        → logs js s ≡ (err text, s1)
        → out.reply ≡ send_message 500 text
        → IsAnswered model js s out
    id_refused :
        (d : Done) (s1 : engine.State) (text : Bytes)
        → logs js s ≡ (ok d, s1)
        → d.row_id_error ≡ some text
        → out.reply ≡ send_message 500 text
        → IsAnswered model js s out
    begin_refused :
        (d : Done) (s1 s2 : engine.State) (text : Bytes)
        → logs js s ≡ (ok d, s1)
        → engine.begin s1 ≡ (err text, s2)
        → out.reply ≡ send_error (new_internal_error (other text))
        → IsAnswered model js s out
    item_refused :
        (d : Done) (s1 s2 : engine.State) (text : Bytes)
        → logs js s ≡ (ok d, s1)
        → engine.begin s1 ≡ (ok tt, s2)
        → DbFails h (List SyncResult) (process_items h model js) s2 text
        → out.reply ≡ send_error (db_error text)
        → IsAnswered model js s out
    commit_refused :
        (d : Done) (s1 s2 s3 s4 : engine.State) (results : List SyncResult) (text : Bytes)
        → logs js s ≡ (ok d, s1)
        → engine.begin s1 ≡ (ok tt, s2)
        → process_items h model js s2 ≡ (returned results, s3)
        → engine.commit s3 ≡ (err text, s4)
        → out.reply ≡ send_error (db_error text)
        → IsAnswered model js s out

module _ (h : Host) (v : IsValidator h.validator) where
  open h use {validator, engine}

  process_items-Serves :
      (model : Bytes) (js : List Json)
      → All (IsReady h v model) js
      → Serves h (λ rs. length rs ≡ length js) (process_items h model js)
  unfolding process_items
  process_items-Serves model [] all = Serves-pure h _ [] refl
  process_items-Serves model (j ∷ js) (ready, all) =
      Serves-bind h _ _ _ _ (process_item-Serves h v model j ready) λ r _.
        Serves-bind h _ _ _ _ (process_items-Serves model js all)
          λ rs e. Serves-pure h _ (r ∷ rs) (omega (arith, e))

  module _ (model : Bytes) (js : List Json) (s s1 : h.engine.State) (d : Done)
      (logged : logs h js s ≡ (ok d, s1)) where
    committed-IsAnswered :
        (id : ℤ) (results : List SyncResult) (r : Result Unit) (s2 s3 s4 : engine.State)
        → engine.begin s1 ≡ (ok tt, s2)
        → process_items h model js s2 ≡ (returned results, s3)
        → length results ≡ length js
        → engine.commit s3 ≡ (r, s4)
        → IsAnswered h model js s (committed h model id results (r, s4))
    unfolding committed
    committed-IsAnswered id results (ok _) s2 s3 s4 began ran e c = answered results refl e
    committed-IsAnswered id results (err text) s2 s3 s4 began ran e c =
        commit_refused d s1 s2 s3 s4 results text logged began ran c refl

    finish-IsAnswered :
        (id : ℤ) (s2 : engine.State)
        → engine.begin s1 ≡ (ok tt, s2)
        → Served h (λ rs. length rs ≡ length js) (process_items h model js) s2
        → IsAnswered h model js s (finish h model id (process_items h model js s2))
    unfolding finish
    finish-IsAnswered id s2 began (serves results s3 ran e) =
        subst (λ x. IsAnswered h model js s (finish h model id x)) (sym ran)
          (committed-IsAnswered id results _ s2 s3 _ began ran e refl)
    finish-IsAnswered id s2 began (refused text s3 ran why) =
        subst (λ x. IsAnswered h model js s (finish h model id x)) (sym ran)
          (item_refused d s1 s2 text logged began why refl)

    run_transaction-IsAnswered :
        (id : ℤ) (r : Result Unit) (s2 : engine.State)
        → All (IsReady h v model) js
        → engine.begin s1 ≡ (r, s2)
        → IsAnswered h model js s (run_transaction h model id js (r, s2))
    unfolding run_transaction
    run_transaction-IsAnswered id (ok _) s2 all began =
        finish-IsAnswered id s2 began ((process_items-Serves model js all).at s2)
    run_transaction-IsAnswered id (err text) s2 all began =
        begin_refused d s1 s2 text logged began refl

    inserted-IsAnswered :
        (o : Option Bytes)
        → All (IsReady h v model) js
        → d.row_id_error ≡ o
        → IsAnswered h model js s
            (log_and_run h model js (elim o [ none ↦ ok d.row_id | some text ↦ err text ], s1))
    unfolding log_and_run
    inserted-IsAnswered none all given = run_transaction-IsAnswered d.row_id _ _ all refl
    inserted-IsAnswered (some text) all failure = id_refused d s1 text logged failure refl

  logged-IsAnswered :
      (model : Bytes) (js : List Json) (r : Result Done) (s s1 : engine.State)
      → All (IsReady h v model) js
      → logs h js s ≡ (r, s1)
      → let id : Result ℤ = elim r [ ok done ↦ last_insert_id done | err text ↦ err text ] in
        IsAnswered h model js s (log_and_run h model js (id, s1))
  unfolding log_and_run
  logged-IsAnswered model js (ok d) s s1 all e =
      inserted-IsAnswered model js s s1 d e d.row_id_error all refl
  logged-IsAnswered model js (err text) s s1 all e = log_refused s1 text e refl

  payload-IsAnswered :
      (p : SyncRequest) (s : engine.State)
      → All (IsReady h v p.model) (get_or p.items [])
      → IsAnswered h p.model (get_or p.items []) s (sync_payload h p s)
  unfolding sync_payload create_pending_history
  payload-IsAnswered p s all = logged-IsAnswered p.model (get_or p.items []) _ s _ all refl

  -- A sync whose body binds to a valid request, and whose items all decode and obey their rules (an
  -- order has items and no amount but theirs, or no items and an amount), is answered with 200 and
  -- one result for each item, unless a call of the database that this very sync makes fails: the
  -- INSERT of its log entry or the id of that, the BEGIN, a statement or an id in the run of its
  -- items, or the COMMIT. The answer is then the one for that error. The validator accepts exactly
  -- what obeys the rules.
  pub sync_handler-IsAnswered :
      (body : Option Json) (p : SyncRequest) (s : engine.State)
      → bind_json h body ≡ some p
      → validate validator (request_rules p) ≡ none
      → All (IsReady h v p.model) (get_or p.items [])
      → IsAnswered h p.model (get_or p.items []) s (sync_handler h body s)
  unfolding sync_handler
  sync_handler-IsAnswered body p s bound valid all =
      let js = get_or p.items [] in
      subst (λ o. IsAnswered h p.model js s (bound_payload h o s)) (sym bound)
        (subst (λ o. IsAnswered h p.model js s (validated_payload h p o s)) (sym valid)
          (payload-IsAnswered p s all))
