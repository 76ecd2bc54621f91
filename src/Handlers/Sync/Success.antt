-- ===== src/Handlers/Sync/Success.antt =====
-- What an answered sync has done.
use sync_bridge.Base.{
  ◌≡◌, refl, ap, subst, ◌∙◌, Option, none, some, List, [], ◌∷◌, get_or, arith, length,
}
use sync_bridge.Base.Int.{ℤ}
use sync_bridge.Text.{Bytes, str}
use sync_bridge.Errors.{GoError}
use sync_bridge.Json.{Json}
use sync_bridge.Dto.{SyncRequest}
use sync_bridge.Dto.Rules.{request_rules, validate}
use sync_bridge.Sql.Schema.{Tables, Targets}
use sync_bridge.Sql.Statement.{insert_history, mark_successful, target_effect}
use sync_bridge.Sql.Engine.{Result, ok, err, IsSqlite}
use sync_bridge.Handlers.Action.{Outcome, returned, failed, panicked}
use sync_bridge.Handlers.Action.Laws.{IfReturned, Ensures, Ensures-pure, Ensures-bind}
use sync_bridge.Handlers.Process.Triples.{anything-Ensures}
use sync_bridge.Handlers.Host.{Host}
use sync_bridge.Handlers.Items.{SyncResult}
use sync_bridge.Handlers.Process.{process_item}
use sync_bridge.Handlers.Response.{
  Reply, sent, recovered, results_body, error_body, message_body, stats_body, page_body, row_body,
  health_body,
}
use sync_bridge.Handlers.Sync.{
  sync_total, sync_duration, Synced, create_pending_history, process_items, give_up, committed,
  finish, run_transaction, log_and_run, sync_payload, validated_payload, bound_payload, bind_json,
  sync_handler,
}
use sync_bridge.Handlers.Sync.Atomic.{targets, IsIdle, exec-IsIdle}

abbrev pub succeeded : List SyncResult → Reply
succeeded results = sent (record { status = 200; body = results_body results })

module _ (h : Host) where
  open h use {engine}

  -- All items have been processed, from the target tables as they were, and what that made of
  -- them is committed.
  pub record Processed (model : Bytes) (items : List Json) (results : List SyncResult) (t : Targets)
      (out : Synced h) : Type 0 where
    pub before : engine.State
    pub after : engine.State
    pub starts : targets h before ≡ t
    pub run : process_items h model items before ≡ (returned results, after)
    pub one_each : length results ≡ length items
    pub lasts : IsIdle h (targets h after) out.state
    pub counted :
        out.metrics ≡ sync_total (str "success") model ∷ sync_duration (str "success") model ∷ []

body_results : Reply → List SyncResult
body_results (sent r) = elim r.body [
  | results_body rs ↦ rs
  | error_body _ ↦ []
  | message_body _ _ ↦ []
  | stats_body _ ↦ []
  | page_body _ ↦ []
  | row_body _ _ ↦ []
  | health_body _ _ _ _ ↦ []
]
body_results recovered = []

results-inj : (rs ts : List SyncResult) → succeeded rs ≡ succeeded ts → rs ≡ ts
unfolding body_results
results-inj rs ts e = ap body_results e

module _ (h : Host) (sql : IsSqlite h.engine) where
  open h use {engine}

  -- Without an error there is one result for each item.
  process_items-Ensures :
      (model : Bytes) (items : List Json)
      → Ensures (λ s. Unit) (process_items h model items) (λ rs s. length rs ≡ length items)
  unfolding process_items
  process_items-Ensures model [] = Ensures-pure _ _ [] (λ s p. refl)
  process_items-Ensures model (j ∷ js) =
      Ensures-bind _ (λ _ _. Unit) _ _ _ (anything-Ensures h sql (process_item h model j))
        λ res.
          Ensures-bind _ (λ rs _. length rs ≡ length js) _ _ _ (process_items-Ensures model js)
            λ rs. Ensures-pure _ _ (res ∷ rs) (λ s e. omega (arith, e))

  process_items-length :
      (model : Bytes) (items : List Json) (results : List SyncResult) (s s' : engine.State)
      → process_items h model items s ≡ (returned results, s')
      → length results ≡ length items
  process_items-length model items results s s' e =
      subst
        (λ (out : Outcome (List SyncResult) × engine.State).
          IfReturned (λ rs s. length rs ≡ length items) out.0 out.1)
        e ((process_items-Ensures model items).at s tt)

  committed-Processed :
      (model : Bytes) (id : ℤ) (results seen : List SyncResult) (t : Targets) (items : List Json)
      (s1 s2 : engine.State) (r : Result Unit) (s3 : engine.State)
      → targets h s1 ≡ t
      → process_items h model items s1 ≡ (returned results, s2)
      → engine.commit s2 ≡ (r, s3)
      → (committed h model id results (r, s3)).reply ≡ succeeded seen
      → Processed h model items seen t (committed h model id results (r, s3))
  unfolding committed target_effect
  committed-Processed model id results seen t items s1 s2 (ok _) s3 start run e reply =
      let same = results-inj results seen reply in
      subst (λ rs. Processed h model items rs t (committed h model id results (ok tt, s3))) same
        (record {
          before = s1;
          after = s2;
          starts = start;
          run = run;
          one_each = process_items-length model items results s1 s2 run;
          lasts =
              exec-IsIdle h sql (mark_successful id) (targets h s2) s3 (λ new now u. refl)
                (record {
                  unchanged = ap (λ (u : Tables). u.targets) (sql.commit_ok s2 s3 e).0;
                  idle = (sql.commit_ok s2 s3 e).1;
                });
          counted = refl;
        })
  committed-Processed model id results seen t items s1 s2 (err text) s3 start run e reply =
      absurd (cc reply)

  finish-Processed :
      (model : Bytes) (id : ℤ) (seen : List SyncResult) (t : Targets) (items : List Json)
      (s1 : engine.State) (r : Outcome (List SyncResult)) (s2 : engine.State)
      → targets h s1 ≡ t
      → process_items h model items s1 ≡ (r, s2)
      → (finish h model id (r, s2)).reply ≡ succeeded seen
      → Processed h model items seen t (finish h model id (r, s2))
  unfolding finish give_up
  finish-Processed model id seen t items s1 (returned results) s2 start run reply =
      committed-Processed model id results seen t items s1 s2 (engine.commit s2).0
        (engine.commit s2).1 start run refl reply
  finish-Processed model id seen t items s1 (failed x) s2 start run reply = absurd (cc reply)
  finish-Processed model id seen t items s1 panicked s2 start run reply = absurd (cc reply)

  run_transaction-Processed :
      (model : Bytes) (id : ℤ) (seen : List SyncResult) (t : Targets) (items : List Json)
      (r : Result Unit) (s s1 : engine.State)
      → IsIdle h t s
      → engine.begin s ≡ (r, s1)
      → (run_transaction h model id items (r, s1)).reply ≡ succeeded seen
      → Processed h model items seen t (run_transaction h model id items (r, s1))
  unfolding run_transaction
  run_transaction-Processed model id seen t items (ok _) s s1 i e reply =
      let (same, pending) = sql.begin_ok s s1 i.idle e in
      finish-Processed model id seen t items s1 _ _
        (ap (λ (u : Tables). u.targets) same ∙ i.unchanged) refl reply
  run_transaction-Processed model id seen t items (err text) s s1 i e reply = absurd (cc reply)

  log_and_run-Processed :
      (model : Bytes) (seen : List SyncResult) (t : Targets) (items : List Json) (r : Result ℤ)
      (s : engine.State)
      → IsIdle h t s
      → (log_and_run h model items (r, s)).reply ≡ succeeded seen
      → Processed h model items seen t (log_and_run h model items (r, s))
  unfolding log_and_run
  log_and_run-Processed model seen t items (ok id) s i reply =
      run_transaction-Processed model id seen t items _ s _ i refl reply
  log_and_run-Processed model seen t items (err text) s i reply = absurd (cc reply)

  sync_payload-Processed :
      (p : SyncRequest) (seen : List SyncResult) (t : Targets) (s : engine.State)
      → IsIdle h t s
      → (sync_payload h p s).reply ≡ succeeded seen
      → Processed h p.model (get_or p.items []) seen t (sync_payload h p s)
  unfolding sync_payload create_pending_history target_effect
  sync_payload-Processed p seen t s i reply =
      let log =
        insert_history (get_or (h.marshal (get_or p.items [])) (str "Error serializing payload")) in
      log_and_run-Processed p.model seen t (get_or p.items []) _ (engine.exec log s).1
        (exec-IsIdle h sql log t s (λ new now u. refl) i) reply

  validated-Processed :
      (p : SyncRequest) (seen : List SyncResult) (s : engine.State) (o : Option GoError)
      → engine.saved s ≡ none
      → (validated_payload h p o s).reply ≡ succeeded seen
      → (o ≡ none)
        × Processed h p.model (get_or p.items []) seen (targets h s) (validated_payload h p o s)
  validated-Processed p seen s none idle reply = (
    refl,
    sync_payload-Processed p seen (targets h s) s (record { unchanged = refl; idle = idle }) reply,
  )
  validated-Processed p seen s (some x) idle reply = absurd (cc reply)

  bound-Processed :
      (o : Option SyncRequest) (seen : List SyncResult) (s : engine.State)
      → engine.saved s ≡ none
      → (bound_payload h o s).reply ≡ succeeded seen
      → (p : SyncRequest) × (o ≡ some p)
        × (validate h.validator (request_rules p) ≡ none)
        × Processed h p.model (get_or p.items []) seen (targets h s) (bound_payload h o s)
  bound-Processed none seen s idle reply = absurd (cc reply)
  bound-Processed (some p) seen s idle reply =
      let check = validate h.validator (request_rules p) in
      let (valid, done) = validated-Processed p seen s check idle reply in (p, refl, valid, done)

  -- A sync outside a transaction that answers with results has read a valid request. Its items were
  -- processed in order, from the target tables as they were, with one result each; the target tables
  -- are what that made of them, no transaction is open, and one success was counted. The database
  -- behaves as `IsSqlite` says.
  pub sync_handler-Processed :
      (body : Option Json) (results : List SyncResult) (s : engine.State)
      → engine.saved s ≡ none
      → (sync_handler h body s).reply ≡ succeeded results
      → (p : SyncRequest) × (bind_json h body ≡ some p)
        × (validate h.validator (request_rules p) ≡ none)
        × Processed h p.model (get_or p.items []) results (targets h s) (sync_handler h body s)
  unfolding sync_handler
  sync_handler-Processed body results s idle reply =
      bound-Processed (bind_json h body) results s idle reply
