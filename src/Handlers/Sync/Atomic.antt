-- ===== src/Handlers/Sync/Atomic.antt =====
-- A sync that fails leaves the target tables as they were.
use sync_bridge.Base.{
  ◌≡◌, refl, subst, ◌∙◌, ap, ◌≢◌, ◌⊎◌, inl, inr, Option, none, some, List, [], ◌∷◌, take, get_or,
}
use sync_bridge.Base.Int.{ℤ}
use sync_bridge.Text.{Bytes, str}
use sync_bridge.Errors.{GoError, error}
use sync_bridge.Json.{Json}
use sync_bridge.Dto.{SyncRequest}
use sync_bridge.Dto.Rules.{validate, request_rules}
use sync_bridge.Sql.Schema.{Tables, Targets}
use sync_bridge.Sql.Statement.{Statement, insert_history, mark_failed, target_effect, effect}
use sync_bridge.Sql.Engine.{Result, ok, err, Done, IsSqlite}
use sync_bridge.Handlers.Action.{Outcome, returned, failed, panicked}
use sync_bridge.Handlers.Host.{Host}
use sync_bridge.Handlers.Items.{SyncResult}
use sync_bridge.Handlers.Process.Keeps.{Pending, CanRollBack, Keeps, Keeps-pure, Keeps-bind}
use sync_bridge.Handlers.Process.Rollback.{Keeps-process_item}
use sync_bridge.Handlers.Response.{status}
use sync_bridge.Handlers.Sync.{
  as_app_error, create_pending_history, mark_history_failed, process_items, committed, finish,
  run_transaction, log_and_run, sync_payload, validated_payload, bound_payload, bind_json,
  sync_handler,
}

-- A statement that writes only to the log.
abbrev IsLogOnly : Statement → Type 0
IsLogOnly st = (new : ℤ) (now : Bytes) (t : Targets) → target_effect new now st t ≡ t

module _ (h : Host) where
  open h use {engine}

  abbrev pub targets : engine.State → Targets
  targets s = (engine.tables s).targets

  -- Outside a transaction, with the target tables `t`.
  pub record IsIdle (t : Targets) (s : engine.State) : Type 0 where
    pub unchanged : targets s ≡ t
    pub idle : engine.saved s ≡ none

module _ (h : Host) (sql : IsSqlite h.engine) where
  open h use {engine}

  exec-IsIdle_result :
      (st : Statement) (t : Targets) (r : Result Done) (s s' : engine.State)
      → IsLogOnly st
      → engine.exec st s ≡ (r, s')
      → IsIdle h t s
      → IsIdle h t s'
  unfolding effect
  exec-IsIdle_result st t (ok d) s s' log e i =
      let x = sql.exec_ok st s s' d e in
      record {
        unchanged =
            ap (λ (u : Tables). u.targets) x.tables_eq
            ∙ log d.row_id (engine.clock s) (targets h s)
            ∙ i.unchanged;
        idle = x.saved_eq ∙ i.idle;
      }
  exec-IsIdle_result st t (err text) s s' log e i = elim (sql.exec_err st s s' text e) [
    | inl same ↦ record {
      unchanged = ap (λ (u : Tables). u.targets) same.tables_eq ∙ i.unchanged;
      idle = same.saved_eq ∙ i.idle;
    }
    | inr back ↦ absurd (cc (back.pending, i.idle))
  ]

  pub exec-IsIdle :
      (st : Statement) (t : Targets) (s : engine.State)
      → IsLogOnly st
      → IsIdle h t s
      → IsIdle h t (engine.exec st s).1
  exec-IsIdle st t s log i =
      exec-IsIdle_result st t (engine.exec st s).0 s (engine.exec st s).1 log refl i

  mark_history_failed-IsIdle :
      (id : ℤ) (reason : Bytes) (t : Targets) (s : engine.State)
      → IsIdle h t s
      → IsIdle h t (mark_history_failed h id reason s)
  unfolding mark_history_failed target_effect
  mark_history_failed-IsIdle id reason t s i =
      exec-IsIdle (mark_failed id (take 255 reason)) t s (λ new now u. refl) i

  pub Keeps-process_items :
      (t : Tables) (model : Bytes) (js : List Json) → Keeps h.engine t (process_items h model js)
  unfolding process_items
  Keeps-process_items t model [] = Keeps-pure engine t []
  Keeps-process_items t model (j ∷ js) =
      Keeps-bind engine t _ _ (Keeps-process_item h sql t model j) λ res.
        Keeps-bind engine t _ _ (Keeps-process_items t model js)
          λ results. Keeps-pure engine t (res ∷ results)

  -- The driver has gone back to `t`, by itself or by the rollback.
  pub rollback-restores :
      (t : Tables) (s : engine.State)
      → Pending engine t s ⊎ ((engine.tables s ≡ t) × (engine.saved s ≡ none))
      → (engine.tables (engine.rollback s) ≡ t) × (engine.saved (engine.rollback s) ≡ none)
  rollback-restores t s (inl p) = sql.rollback_pending s p.saved_eq
  rollback-restores t s (inr (same, ended)) =
      let x = sql.rollback_ended s ended in (x.tables_eq ∙ same, x.saved_eq ∙ ended)

  rollback-IsIdle :
      (t : Tables) (s : engine.State)
      → Pending engine t s ⊎ ((engine.tables s ≡ t) × (engine.saved s ≡ none))
      → IsIdle h t.targets (engine.rollback s)
  rollback-IsIdle t s p =
      let (back, ended) = rollback-restores t s p in
      record { unchanged = ap (λ (u : Tables). u.targets) back; idle = ended }

  module _ (commits : (s : engine.State) → (engine.commit s).0 ≡ ok tt) where
    committed-status :
        (model : Bytes) (id : ℤ) (results : List SyncResult) (r : Result Unit) (s : engine.State)
        → r ≡ ok tt
        → status (committed h model id results (r, s)).reply ≡ 200
    unfolding committed
    committed-status model id results (ok _) s e = refl
    committed-status model id results (err text) s e = absurd (cc e)

    finish-IsIdle :
        (model : Bytes) (id : ℤ) (t : Tables) (r : Outcome (List SyncResult)) (s : engine.State)
        → CanRollBack engine t r s
        → status (finish h model id (r, s)).reply ≢ 200
        → IsIdle h t.targets (finish h model id (r, s)).state
    unfolding finish
    finish-IsIdle model id t (returned results) s p n =
        absurd (
          n (committed-status model id results (engine.commit s).0 (engine.commit s).1 (commits s)))
    finish-IsIdle model id t (failed x) s p n =
        mark_history_failed-IsIdle id (error (as_app_error h x)) t.targets (engine.rollback s)
          (rollback-IsIdle t s p.1)
    finish-IsIdle model id t panicked s p n = rollback-IsIdle t s (inl p)

    run_transaction-IsIdle :
        (model : Bytes) (id : ℤ) (js : List Json) (t : Targets) (r : Result Unit)
        (s s' : engine.State)
        → engine.begin s ≡ (r, s')
        → IsIdle h t s
        → status (run_transaction h model id js (r, s')).reply ≢ 200
        → IsIdle h t (run_transaction h model id js (r, s')).state
    unfolding run_transaction
    run_transaction-IsIdle model id js t (ok _) s s' e i n =
        let (same, pending) = sql.begin_ok s s' i.idle e in
        subst (λ u. IsIdle h u (finish h model id (process_items h model js s')).state) i.unchanged
          (finish-IsIdle model id (engine.tables s) (process_items h model js s').0
            (process_items h model js s').1
            ((Keeps-process_items (engine.tables s) model js).at s'
              (record { saved_eq = pending; log_eq = ap (λ (u : Tables). u.sync_history) same }))
            n)
    run_transaction-IsIdle model id js t (err text) s s' e i n =
        let same = sql.begin_err s s' text e in
        mark_history_failed-IsIdle id _ t s' (record {
          unchanged = ap (λ (u : Tables). u.targets) same.tables_eq ∙ i.unchanged;
          idle = same.saved_eq ∙ i.idle;
        })

    log_and_run-IsIdle :
        (model : Bytes) (js : List Json) (t : Targets) (r : Result ℤ) (s : engine.State)
        → IsIdle h t s
        → status (log_and_run h model js (r, s)).reply ≢ 200
        → IsIdle h t (log_and_run h model js (r, s)).state
    unfolding log_and_run
    log_and_run-IsIdle model js t (ok id) s i n =
        run_transaction-IsIdle model id js t (engine.begin s).0 s (engine.begin s).1 refl i n
    log_and_run-IsIdle model js t (err text) s i n = i

    sync_payload-IsIdle :
        (p : SyncRequest) (t : Targets) (s : engine.State)
        → IsIdle h t s
        → status (sync_payload h p s).reply ≢ 200
        → IsIdle h t (sync_payload h p s).state
    unfolding sync_payload create_pending_history target_effect
    sync_payload-IsIdle p t s i n =
        let log =
          insert_history
            (get_or (h.marshal (get_or p.items [])) (str "Error serializing payload")) in
        log_and_run-IsIdle p.model (get_or p.items []) t _ (engine.exec log s).1
          (exec-IsIdle log t s (λ new now u. refl) i) n

    bound_payload-IsIdle :
        (o : Option SyncRequest) (t : Targets) (s : engine.State)
        → IsIdle h t s
        → status (bound_payload h o s).reply ≢ 200
        → IsIdle h t (bound_payload h o s).state
    bound_payload-IsIdle none t s i n = i
    bound_payload-IsIdle (some p) t s i n = validated (validate h.validator (request_rules p)) n
      where
        validated :
            (o : Option GoError)
            → status (validated_payload h p o s).reply ≢ 200
            → IsIdle h t (validated_payload h p o s).state
        validated (some x) n = i
        validated none n = sync_payload-IsIdle p t s i n

    -- A sync that starts outside a transaction and is not answered with 200, for whatever reason,
    -- leaves all five target tables as they were and no transaction open, provided that no COMMIT
    -- fails, on a database that behaves as `IsSqlite` says.
    pub sync_handler-atomic :
        (body : Option Json) (s : engine.State)
        → engine.saved s ≡ none
        → status (sync_handler h body s).reply ≢ 200
        → IsIdle h (targets h s) (sync_handler h body s).state
    unfolding sync_handler
    sync_handler-atomic body s idle n =
        bound_payload-IsIdle (bind_json h body) (targets h s) s
          (record { unchanged = refl; idle = idle }) n
