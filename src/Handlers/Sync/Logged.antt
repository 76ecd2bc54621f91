-- ===== src/Handlers/Sync/Logged.antt =====
-- What a sync leaves in the log: nothing, or one entry.
use sync_bridge.Base.{
  ◌≡◌, refl, ap, sym, subst, ◌∙◌, inl, inr, Option, none, some, List, [], get_or, arith,
  Option-cases,
}
use sync_bridge.Base.Int.{ℤ}
use sync_bridge.Text.{Bytes}
use sync_bridge.Errors.{GoError, other, new_internal_error}
use sync_bridge.Json.{Json}
use sync_bridge.Dto.{SyncRequest}
use sync_bridge.Dto.Rules.{request_rules, validate}
use sync_bridge.Sql.Table.{find}
use sync_bridge.Sql.Schema.{Tables}
use sync_bridge.Sql.Statement.{insert_history, history_effect, effect, pending_row}
use sync_bridge.Sql.Engine.{Result, ok, err, Done, IsSqlite, last_insert_id}
use sync_bridge.Handlers.Host.{Host}
use sync_bridge.Errors.Validation.{parse_validation_error-code}
use sync_bridge.Handlers.Sync.{
  create_pending_history, run_transaction, log_and_run, sync_payload, validated_payload,
  bound_payload, bind_json, sync_handler,
}
use sync_bridge.Handlers.Sync.Atomic.{Keeps-process_items}
use sync_bridge.Handlers.Sync.Entry.{unmarked, id_unknown, LeavesLog}
use sync_bridge.Handlers.Sync.Marked.{
  IsWaiting, MarkedLog, mark_history_failed-MarkedLog, log-IsWaiting, finish-MarkedLog, add-put,
}

ok_or : ℤ → Result ℤ → ℤ
ok_or d (ok z) = z
ok_or d (err text) = d

ok-inj : (a b : ℤ) → ok a ≡ ok b → a ≡ b
unfolding ok_or
ok-inj a b e = ap (ok_or a) e

error_or : Bytes → Result ℤ → Bytes
error_or d (ok z) = d
error_or d (err text) = text

err-inj : (a b : Bytes) → ◌≡◌ {A = Result ℤ} (err a) (err b) → a ≡ b
unfolding error_or
err-inj a b e = ap (error_or a) e

module _ (h : Host) (sql : IsSqlite h.engine)
    (commits : (s : h.engine.State) → (h.engine.commit s).0 ≡ ok tt) where
  open h use {unicode, engine}

  run_transaction-MarkedLog :
      (first : engine.State) (id : ℤ) (payload now : Bytes) (model : Bytes) (js : List Json)
      (r : Result Unit) (s s' : engine.State)
      → engine.begin s ≡ (r, s')
      → IsWaiting h sql first id payload now s
      → let out = run_transaction h model id js (r, s') in
        MarkedLog h sql first id payload now out.reply out.state
  unfolding run_transaction
  run_transaction-MarkedLog first id payload now model js (ok _) s s' e w =
      let (same, pending) = sql.begin_ok s s' w.idle e in
      finish-MarkedLog h sql first id payload now commits model (engine.tables s) _ _ w.entry (
        (Keeps-process_items h sql (engine.tables s) model js).at s'
          (record { saved_eq = pending; log_eq = ap (λ (u : Tables). u.sync_history) same }))
  run_transaction-MarkedLog first id payload now model js (err text) s s' e w =
      let same = sql.begin_err s s' text e in
      mark_history_failed-MarkedLog h sql first id payload now (new_internal_error (other text)) s'
        (omega arith)
        (log-IsWaiting h sql first id payload now (engine.tables s) s' w.entry
          (ap (λ (u : Tables). u.sync_history) same.tables_eq) (same.saved_eq ∙ w.idle))

  log_and_run-Logged :
      (model payload now : Bytes) (new : ℤ) (js : List Json) (r : Result ℤ) (s s' : engine.State)
      → find new (engine.tables s).sync_history ≡ none
      → ((id : ℤ) → r ≡ ok id → id ≡ new)
      → ((text : Bytes)
          → r ≡ err text
          → (d : Done) × (engine.exec (insert_history payload) s ≡ (ok d, s'))
            × (d.row_id_error ≡ some text))
      → IsWaiting h sql s new payload now s'
      → let out = log_and_run h model js (r, s') in LeavesLog h s out
  unfolding log_and_run
  log_and_run-Logged model payload now new js (ok id) s s' absent is_new lost w =
      let same = is_new id refl in
      let waiting = subst (λ i. IsWaiting h sql s i payload now s') (sym same) w in
      let (row, marked, entry, idle) =
        run_transaction-MarkedLog s id payload now model js _ s' _ refl waiting in
      (
        inr (record {
          id = id;
          payload = payload;
          now = now;
          row = row;
          new = ap (λ i. find i (engine.tables s).sync_history) same ∙ absent;
          marked = marked;
          entry = entry;
        }),
        idle,
      )
  log_and_run-Logged model payload now new js (err text) s s' absent is_new lost w =
      let (d, ran, failure) = lost text refl in
      (
        inr (record {
          id = new;
          payload = payload;
          now = now;
          row = pending_row payload now;
          new = absent;
          marked = unmarked (id_unknown d text ran failure refl);
          entry = w.entry;
        }),
        w.idle,
      )

  last_insert_id-row_id : (d : Done) (id : ℤ) → last_insert_id d ≡ ok id → id ≡ d.row_id
  last_insert_id-row_id d id e = elim (Option-cases d.row_id_error) [
    | inl given ↦ ok-inj id d.row_id (sym e ∙ rw given)
    | inr (text, f) ↦ absurd (cc (e, f))
  ]

  last_insert_id-error :
      (d : Done) (text : Bytes) → last_insert_id d ≡ err text → d.row_id_error ≡ some text
  last_insert_id-error d text e = elim (Option-cases d.row_id_error) [
    | inl given ↦ absurd (cc (e, given))
    | inr (found, f) ↦
        f
        ∙ ap some (
            err-inj found text
              (sym (ap (λ o. elim o [ none ↦ ok d.row_id | some t ↦ err t ]) f) ∙ e))
  ]

  inserted-Logged :
      (payload model : Bytes) (js : List Json) (r : Result Done) (s s' : engine.State)
      → engine.saved s ≡ none
      → engine.exec (insert_history payload) s ≡ (r, s')
      → let id : Result ℤ = elim r [ ok done ↦ last_insert_id done | err text ↦ err text ] in
        let out = log_and_run h model js (id, s') in LeavesLog h s out
  unfolding effect history_effect log_and_run
  inserted-Logged payload model js (ok d) s s' idle e =
      let x = sql.exec_ok (insert_history payload) s s' d e in
      let at = engine.clock s in
      let t = (engine.tables s).sync_history in
      log_and_run-Logged model payload at d.row_id js (last_insert_id d) s s' x.fresh
        (last_insert_id-row_id d) (λ text f. (d, e, last_insert_id-error d text f))
        (record {
          idle = x.saved_eq ∙ idle;
          entry = λ i.
              ap (λ (u : Tables). find i u.sync_history) x.tables_eq
              ∙ add-put d.row_id (pending_row payload at) t x.fresh i;
        })
  inserted-Logged payload model js (err text) s s' idle e =
      elim (sql.exec_err (insert_history payload) s s' text e) [
        | inl same ↦ (
          inl (λ i. ap (λ (u : Tables). find i u.sync_history) same.tables_eq, omega arith),
          same.saved_eq ∙ idle,
        )
        | inr back ↦ absurd (cc (back.pending, idle))
      ]

  validated-Logged :
      (p : SyncRequest) (o : Option GoError) (s : engine.State)
      → engine.saved s ≡ none
      → let out = validated_payload h p o s in LeavesLog h s out
  unfolding sync_payload create_pending_history
  validated-Logged p none s idle = inserted-Logged _ p.model (get_or p.items []) _ s _ idle refl
  validated-Logged p (some x) s idle =
      (inl (λ i. refl, omega (arith, parse_validation_error-code unicode x)), idle)

  bound-Logged :
      (o : Option SyncRequest) (s : engine.State)
      → engine.saved s ≡ none
      → LeavesLog h s (bound_payload h o s)
  bound-Logged none s idle = (inl (λ i. refl, omega arith), idle)
  bound-Logged (some p) s idle = validated-Logged p (validate h.validator (request_rules p)) s idle

  -- A sync that starts outside a transaction, on a database that behaves as `IsSqlite` says and
  -- whose COMMIT does not fail, ends outside a transaction. It leaves the log as it is and is not
  -- answered with 200, or adds one entry and changes no other. The new entry is SUCCESSFUL and the
  -- answer is 200, or it is FAILED, its reason is the first 255 bytes of the error that is answered,
  -- and the answer is not 200. It is still PENDING_RETRY only if the UPDATE that belongs to the
  -- answer was run last and failed, an item has panicked, or the INSERT of the entry succeeded and
  -- its id could not be read, which is then the answer.
  pub sync_handler-Logged :
      (body : Option Json) (s : engine.State)
      → engine.saved s ≡ none
      → LeavesLog h s (sync_handler h body s)
  unfolding sync_handler
  sync_handler-Logged body s idle = bound-Logged (bind_json h body) s idle
