-- ===== src/Server/Refinement.antt =====
-- Whatever a request is, the log of syncs goes through allowed steps only, and the broker stays
-- valid.
use sync_bridge.Base.{
  ◌≡◌, refl, ap, some, sym, subst, ◌∙◌, Option, none, Option-cases, inl, inr, List, [], ◌∷◌,
}
use mathlib.Core.Option.{some_inj}
use sync_bridge.Base.Int.{ℤ}
use sync_bridge.Text.{Bytes}
use sync_bridge.Text.Number.{parse_int}
use sync_bridge.Sql.Engine.{ok, IsSqlite}
use sync_bridge.Middleware.{Verdict, next, denied, auth_middleware}
use sync_bridge.Handlers.Host.{Host}
use sync_bridge.Handlers.Log.Steps.{Allowed, exec-Allowed, query-Allowed}
use sync_bridge.Handlers.Log.Refinement.{
  Allowed-refl, Allowed-trans, sync_handler-Allowed, retry_history_handler-Allowed,
  delete_history_handler-Allowed, stats_handler-Allowed, list_history_handler-Allowed,
  get_history_handler-Allowed, health_handler-Allowed,
}
use sync_bridge.Graph.Broker.Invariant.{IsValid, publish-Delivered}
use sync_bridge.Graph.Resolvers.{GraphState}
use sync_bridge.Graph.Resolvers.Within.{
  IsClosed, Within-create_employee_resolver, Within-update_employee_resolver,
  Within-delete_employee_resolver, Within-employees_resolver, Within-employee_resolver,
  Within-search_employees_resolver,
}
use sync_bridge.Server.{
  Endpoint, healthz, sync, stats, list_history, get_history, retry_history, delete_history, graphql,
  page, routes, Incoming, Call, create_employee, update_employee, delete_employee, employees,
  employee, search_employees, hello, ServerState, World, run_call, run_calls, call_handler, routed,
  admitted, serve,
}

module _ (h : Host) {Time : Type 0} (parse : Bytes → Bytes → Option Time) where
  open h use {engine}

  module _ (R : GraphState h parse → GraphState h parse → Type 0) (c : IsClosed h parse R) where
    run_call-Within : (k : Call) (s : GraphState h parse) → R s (run_call h parse k s)
    unfolding run_call
    run_call-Within (create_employee input) s =
        (Within-create_employee_resolver h parse R c input).at s
    run_call-Within (update_employee id input) s =
        (Within-update_employee_resolver h parse R c id input).at s
    run_call-Within (delete_employee id) s = (Within-delete_employee_resolver h parse R c id).at s
    run_call-Within (employees offset limit) s =
        (Within-employees_resolver h parse R c offset limit).at s
    run_call-Within (employee id) s = (Within-employee_resolver h parse R c id).at s
    run_call-Within (search_employees search offset limit) s =
        (Within-search_employees_resolver h parse R c search offset limit).at s
    run_call-Within hello s = c.preorder.refl_at s

    run_calls-Within : (ks : List Call) (s : GraphState h parse) → R s (run_calls h parse ks s)
    unfolding run_calls
    run_calls-Within [] s = c.preorder.refl_at s
    run_calls-Within (k ∷ ks) s =
        c.preorder.then_to (run_call-Within k s) (run_calls-Within ks (run_call h parse k s))

  -- A request that is let through and asks to delete the entry of that id.
  abbrev pub IsDeletion : World h parse → Bytes → Incoming → ℤ → Type 0
  IsDeletion w auth_token r i =
      (id_str : Bytes) × (auth_middleware auth_token r.http ≡ next)
      × (w.find_route routes r.http.method r.http.path ≡ some (delete_history, id_str))
      × (parse_int id_str ≡ some i)

  -- A valid broker stays valid.
  abbrev KeepsBroker : GraphState h parse → GraphState h parse → Type 0
  KeepsBroker s s' = IsValid s.broker → IsValid s'.broker

  KeepsBroker-IsClosed : IsClosed h parse KeepsBroker
  KeepsBroker-IsClosed = record {
    preorder = record { refl_at = λ s v. v; then_to = λ f g v. g (f v) };
    on_query = λ q s v. v;
    on_exec = λ st s free v. v;
    on_publish = λ emp s b e v.
        let (b', ran, _, valid) = publish-Delivered emp s.broker v in
        subst IsValid (some_inj.0 (sym ran ∙ e)) valid;
  }

  module _ (sql : IsSqlite engine) where
    -- Outside a transaction, the log goes through allowed steps.
    abbrev KeepsLog : (ℤ → Type 0) → GraphState h parse → GraphState h parse → Type 0
    KeepsLog D s s' = engine.saved s.db ≡ none → Allowed h D s.db s'.db

    KeepsLog-IsClosed : (D : ℤ → Type 0) → IsClosed h parse (KeepsLog D)
    KeepsLog-IsClosed D = record {
      preorder = record {
        refl_at = λ s idle. Allowed-refl h sql s.db idle;
        then_to = λ {s} {t} {v} f g idle.
            let first = f idle in Allowed-trans h sql s.db t.db v.db first (g first.1);
      };
      on_query = λ q s idle. query-Allowed h sql q s.db idle;
      on_exec = λ st s free idle. exec-Allowed h sql st s.db free idle;
      on_publish = λ emp s b e idle. Allowed-refl h sql s.db idle;
    }

    module _ (commits : (s : engine.State) → (engine.commit s).0 ≡ ok tt) (w : World h parse) where
      call_handler-Allowed :
          {D : ℤ → Type 0} (e : Endpoint) (id : Bytes) (r : Incoming) (s : ServerState h parse)
          → ((i : ℤ) → e ≡ delete_history → parse_int id ≡ some i → D i)
          → engine.saved s.graph.db ≡ none
          → Allowed h D s.graph.db (call_handler h parse w e id r s).1.graph.db
      unfolding call_handler
      call_handler-Allowed healthz id r s may idle = health_handler-Allowed h sql _ s.graph.db idle
      call_handler-Allowed sync id r s may idle =
          sync_handler-Allowed h sql commits r.document s.graph.db idle
      call_handler-Allowed stats id r s may idle = stats_handler-Allowed h sql s.graph.db idle
      call_handler-Allowed list_history id r s may idle =
          list_history_handler-Allowed h sql w.float _ _ _ s.graph.db idle
      call_handler-Allowed get_history id r s may idle =
          get_history_handler-Allowed h sql id s.graph.db idle
      call_handler-Allowed retry_history id r s may idle =
          retry_history_handler-Allowed h sql id s.graph.db idle
      call_handler-Allowed delete_history id r s may idle =
          delete_history_handler-Allowed h sql id s.graph.db (λ i e. may i refl e) idle
      call_handler-Allowed graphql id r s may idle =
          run_calls-Within (KeepsLog _) (KeepsLog-IsClosed _) (w.calls r s.graph) s.graph idle
      call_handler-Allowed page id r s may idle = Allowed-refl h sql s.graph.db idle

      admitted-Allowed :
          {D : ℤ → Type 0} (v : Verdict) (r : Incoming) (s : ServerState h parse)
          → ((id_str : Bytes) (i : ℤ)
              → v ≡ next
              → w.find_route routes r.http.method r.http.path ≡ some (delete_history, id_str)
              → parse_int id_str ≡ some i
              → D i)
          → engine.saved s.graph.db ≡ none
          → Allowed h D s.graph.db (admitted h parse w v r s).1.graph.db
      unfolding admitted
      admitted-Allowed denied r s may idle = Allowed-refl h sql s.graph.db idle
      admitted-Allowed next r s may idle =
          elim (Option-cases (w.find_route routes r.http.method r.http.path)) [
            | inl missing ↦ rw (missing, routed) (Allowed-refl h sql s.graph.db idle)
            | inr ((e, id), found) ↦
                rw (found, routed)
                  (call_handler-Allowed e id r s
                    (λ i same e. may id i refl (found ∙ ap (λ x. some (x, id)) same) e) idle)
          ]

      -- Whatever a request is, if it comes outside a transaction, the database behaves as
      -- `IsSqlite` says and no COMMIT fails, no transaction is open afterwards, and the log has gone
      -- only through steps that its specification allows: a new entry is pending, a pending one
      -- fails or succeeds, a failed one is pending again, and an entry is deleted only if the
      -- request is let through and asks to delete the entry of that id.
      pub serve-Allowed :
          (auth_token : Bytes) (r : Incoming) (s : ServerState h parse)
          → engine.saved s.graph.db ≡ none
          → Allowed h
              (IsDeletion w auth_token r)
              s.graph.db
              (serve h parse w auth_token r s).1.graph.db
      unfolding serve
      serve-Allowed auth_token r s idle =
          admitted-Allowed (auth_middleware auth_token r.http) r s
            (λ id_str i admitted found e. (id_str, admitted, found, e)) idle

  module _ (w : World h parse) where
    call_handler-broker :
        (e : Endpoint) (id : Bytes) (r : Incoming) (s : ServerState h parse)
        → IsValid s.graph.broker
        → IsValid (call_handler h parse w e id r s).1.graph.broker
    unfolding call_handler
    call_handler-broker healthz id r s v = v
    call_handler-broker sync id r s v = v
    call_handler-broker stats id r s v = v
    call_handler-broker list_history id r s v = v
    call_handler-broker get_history id r s v = v
    call_handler-broker retry_history id r s v = v
    call_handler-broker delete_history id r s v = v
    call_handler-broker graphql id r s v =
        run_calls-Within KeepsBroker KeepsBroker-IsClosed (w.calls r s.graph) s.graph v
    call_handler-broker page id r s v = v

    admitted-broker :
        (d : Verdict) (r : Incoming) (s : ServerState h parse)
        → IsValid s.graph.broker
        → IsValid (admitted h parse w d r s).1.graph.broker
    unfolding admitted
    admitted-broker denied r s v = v
    admitted-broker next r s v =
        elim (Option-cases (w.find_route routes r.http.method r.http.path)) [
          | inl missing ↦ rw (missing, routed) v
          | inr ((e, id), found) ↦ rw (found, routed) (call_handler-broker e id r s v)
        ]

    pub serve-broker :
        (auth_token : Bytes) (r : Incoming) (s : ServerState h parse)
        → IsValid s.graph.broker
        → IsValid (serve h parse w auth_token r s).1.graph.broker
    unfolding serve
    serve-broker auth_token r s v = admitted-broker (auth_middleware auth_token r.http) r s v
