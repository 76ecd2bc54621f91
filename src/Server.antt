-- ===== src/Server.antt =====
-- cmd/server/main.go: the routes, and the way of a request through the middleware to its handler.
pub mod Access
pub mod Refinement
pub mod Service
pub mod Final
mod Example
mod Tests
use sync_bridge.Base.{ℕ, ◌≡◌, ◌≢◌, Bool, true, false, Option, none, some, List, [], ◌∷◌, ◌++◌}
use mathlib.Core.List.{Memᴰ}
use sync_bridge.Base.Int.{ℤ}
use sync_bridge.Text.{Bytes, str}
use sync_bridge.Json.{Json}
use sync_bridge.Middleware.{Request, Verdict, next, denied, auth_middleware}
use sync_bridge.Handlers.Action.{Outcome, Action}
use sync_bridge.Handlers.Host.{Host}
use sync_bridge.Handlers.Response.{Reply}
use sync_bridge.Handlers.Sync.{Metric, Synced, sync_handler}
use sync_bridge.Handlers.History.{
  Float64, stats_handler, list_history_handler, get_history_handler, retry_history_handler,
  delete_history_handler,
}
use sync_bridge.Handlers.Health.{health_handler}
use sync_bridge.Graph.Model.{CreateEmployeeInput, UpdateEmployeeInput}
use sync_bridge.Graph.Resolvers.{
  GraphState, create_employee_resolver, update_employee_resolver, delete_employee_resolver,
  employees_resolver, employee_resolver, search_employees_resolver,
}

-- What a route leads to. `page` is the documentation, the playground, a redirect to one of them,
-- or the metrics.
pub data Endpoint : Type 0 where
  healthz sync stats list_history get_history retry_history delete_history graphql page : Endpoint

-- A path as it stands, one with a last segment for `:id`, and one that only has to begin so (its
-- parameter is not read).
pub data Pattern : Type 0 where
  exact with_id with_rest : Bytes → Pattern

pub record Route : Type 0 where
  pub method : Bytes
  pub pattern : Pattern
  pub endpoint : Endpoint

abbrev route : Bytes → Pattern → Endpoint → Route
route method pattern endpoint = record { method = method; pattern = pattern; endpoint = endpoint }

abbrev api : Bytes → Bytes
api path = str "/api/v1" ++ path

unfoldable graphql_routes : List Route
graphql_routes =
    route (str "GET") (exact (str "/graphql")) graphql
    ∷ route (str "POST") (exact (str "/graphql")) graphql
    ∷ route (str "GET") (exact (str "/playground")) page
    ∷ route (str "GET") (exact (str "/")) page
    ∷ []

unfoldable rest_routes : List Route
rest_routes =
    route (str "GET") (exact (api (str "/healthz"))) healthz
    ∷ route (str "POST") (exact (api (str "/sync"))) sync
    ∷ route (str "GET") (exact (api (str "/sync/stats"))) stats
    ∷ route (str "GET") (exact (api (str "/sync-history"))) list_history
    ∷ route (str "GET") (with_id (api (str "/sync-history/"))) get_history
    ∷ route (str "POST") (with_id (api (str "/sync-history/retry/"))) retry_history
    ∷ route (str "DELETE") (with_id (api (str "/sync-history/"))) delete_history
    ∷ []

-- documentation and metrics
unfoldable page_routes : List Route
page_routes =
    route (str "GET") (with_rest (str "/swagger/")) page
    ∷ route (str "GET") (exact (str "/swagger")) page
    ∷ route (str "GET") (exact (str "/metrics")) page
    ∷ route (str "GET") (exact (str "/actuator/prometheus")) page
    ∷ []

unfoldable pub routes : List Route
unfolding graphql_routes rest_routes page_routes
routes = page_routes ++ rest_routes ++ graphql_routes

-- A path of that pattern, with the value of its parameter.
abbrev pub Matches : Pattern → Bytes → Bytes → Type 0
Matches (exact p) path value = path ≡ p
Matches (with_id p) path value = (path ≡ p ++ value) × (value ≢ [])
Matches (with_rest p) path value = path ≡ p ++ value

-- gin's router: the endpoint of a table for a method and a path, and the parameter's value
abbrev pub Router : Type 0
Router = List Route → Bytes → Bytes → Option (Endpoint × Bytes)

-- What is found is a route of the table, for that method, whose pattern the path has.
pub record IsRouter (find_route : Router) : Type 0 where
  pub sound :
      (table : List Route) (method path : Bytes) (e : Endpoint) (value : Bytes)
      → find_route table method path ≡ some (e, value)
      → (r : Route) × Memᴰ r table
        × (r.method ≡ method)
        × (r.endpoint ≡ e)
        × Matches r.pattern path value

-- A request as the handlers read it: its query parameters, if given, and its body as JSON.
pub record Incoming : Type 0 where
  pub http : Request
  pub page_param : Option Bytes
  pub size_param : Option Bytes
  pub status_param : Option Bytes
  pub document : Option Json

-- The resolvers that the execution of a GraphQL document calls.
pub data Call : Type 0 where
  create_employee : CreateEmployeeInput → Call
  update_employee : ℤ → UpdateEmployeeInput → Call
  delete_employee : ℤ → Call
  employees : Option ℤ → Option ℤ → Call
  employee : ℤ → Call
  search_employees : Bytes → Option ℤ → Option ℤ → Call
  hello : Call

-- An answer of a handler, one of the middleware, or one that is not modelled further.
pub data Answer : Type 0 where
  handled : Reply → Answer
  access_denied no_route some_page graphql_response : Answer

module _ (h : Host) {Time : Type 0} (parse : Bytes → Bytes → Option Time) where
  open h use {engine}

  pub record ServerState : Type 0 where
    pub graph : GraphState h parse
    pub metrics : List Metric

  -- What the packages of the server supply: the router, the calls that gqlgen makes for a document,
  -- division of float64, and the text of a fresh UUID.
  pub record World : Type 0 where
    pub find_route : Router
    pub calls : Incoming → GraphState h parse → List Call
    pub float : Float64
    pub uuid_text : engine.State → Bytes

  -- a panic of a resolver is recovered by gqlgen
  unfoldable pub run_call : Call → GraphState h parse → GraphState h parse
  run_call (create_employee input) s = (create_employee_resolver h parse input s).1
  run_call (update_employee id input) s = (update_employee_resolver h parse id input s).1
  run_call (delete_employee id) s = (delete_employee_resolver h parse id s).1
  run_call (employees offset limit) s = (employees_resolver h parse offset limit s).1
  run_call (employee id) s = (employee_resolver h parse id s).1
  run_call (search_employees search offset limit) s =
      (search_employees_resolver h parse search offset limit s).1
  run_call hello s = s

  unfoldable pub run_calls : List Call → GraphState h parse → GraphState h parse
  unfolding run_call
  run_calls [] s = s
  run_calls (c ∷ cs) s = run_calls cs (run_call c s)

  -- a handler of the REST interface, which uses the database only
  unfoldable on_db : Reply × engine.State → ServerState → Answer × ServerState
  on_db (reply, db) s = (handled reply, record s { graph = record s.graph { db = db } })

  unfoldable on_sync : Synced h → ServerState → Answer × ServerState
  on_sync out s = (
    handled out.reply,
    record { graph = record s.graph { db = out.state }; metrics = out.metrics ++ s.metrics },
  )

  module _ (w : World) where
    unfoldable pub call_handler : Endpoint → Bytes → Incoming → ServerState → Answer × ServerState
    unfolding on_db on_sync run_calls
    call_handler healthz id r s = on_db (health_handler h (w.uuid_text s.graph.db) s.graph.db) s
    call_handler sync id r s = on_sync (sync_handler h r.document s.graph.db) s
    call_handler stats id r s = on_db (stats_handler h s.graph.db) s
    call_handler list_history id r s =
        on_db (list_history_handler h w.float r.page_param r.size_param r.status_param s.graph.db) s
    call_handler get_history id r s = on_db (get_history_handler h id s.graph.db) s
    call_handler retry_history id r s = on_db (retry_history_handler h id s.graph.db) s
    call_handler delete_history id r s = on_db (delete_history_handler h id s.graph.db) s
    call_handler graphql id r s =
        (graphql_response, record s { graph = run_calls (w.calls r s.graph) s.graph })
    call_handler page id r s = (some_page, s)

    unfoldable pub routed :
        Option (Endpoint × Bytes) → Incoming → ServerState → Answer × ServerState
    unfolding call_handler
    routed none r s = (no_route, s)
    routed (some (e, id)) r s = call_handler e id r s

    unfoldable pub admitted : Verdict → Incoming → ServerState → Answer × ServerState
    unfolding routed routes
    admitted denied r s = (access_denied, s)
    admitted next r s = routed (w.find_route routes r.http.method r.http.path) r s

    unfoldable pub serve : Bytes → Incoming → ServerState → Answer × ServerState
    unfolding admitted
    serve auth_token r s = admitted (auth_middleware auth_token r.http) r s
