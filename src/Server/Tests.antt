-- ===== src/Server/Tests.antt =====
-- A service on the database in memory, whose router looks through the table of routes, and requests
-- to it.
use sync_bridge.Base.{◌≡◌, ◌≢◌, refl, ◌⊎◌, false, Option, none, some, [], ◌∷◌}
use sync_bridge.Text.{Bytes, str, eqb, has_prefix, has_suffix}
use sync_bridge.Json.{Json, text, arr, obj, nil, cons, end, field}
use sync_bridge.Sql.Memory.{memory-IsSqlite}
use sync_bridge.Middleware.{is_public, is_graphql}
use sync_bridge.Handlers.Example.{sample_host, empty}
use sync_bridge.Handlers.Log.Steps.{Allowed}
use sync_bridge.Server.{Incoming, ServerState, World, serve}
use sync_bridge.Graph.Resolvers.{employee_created_resolver}
use sync_bridge.Server.Example.{look_up, look_up-IsRouter}
use sync_bridge.Server.Access.{serve-unchanged}
use sync_bridge.Server.Final.{serve-final}
use sync_bridge.Handlers.Sync.Entry.{log}
use sync_bridge.Base.Int.{pos, eqb_ℤ}
use sync_bridge.Sql.Schema.{HistoryRow}
use sync_bridge.Sql.Table.{find}
use sync_bridge.Server.Refinement.{IsDeletion, serve-Allowed}
use sync_bridge.Server.Service.{
  started, Reached, starts, proceeds, serves, watches, with_graph, IsSound, Reached-IsSound,
}

abbrev no_dates : Bytes → Bytes → Option Bytes
no_dates layout s = none

abbrev sample_world : World sample_host no_dates
sample_world = record {
  find_route = look_up;
  calls = λ r s. [];
  float = record { ceil_div = λ n size. size };
  uuid_text = λ s. str "u";
}

abbrev secret : Bytes
secret = str "secret"

-- A request without a token and a body.
abbrev request : Bytes → Bytes → Incoming
request method path = record {
  http = record { method = method; path = path; request_id = []; token = []; body = [] };
  page_param = none;
  size_param = none;
  status_param = none;
  document = none;
}

abbrev first : ServerState sample_host no_dates
first = started sample_host no_dates sample_world secret empty

abbrev deletion : Incoming
deletion = request (str "DELETE") (str "/api/v1/sync-history/1")

deletion-token : deletion.http.token ≢ secret
unfolding str
deletion-token e = cc e

deletion-guarded : (is_public deletion.http.path ≡ false) × (is_graphql deletion.http.path ≡ false)
unfolding str eqb has_suffix has_prefix
deletion-guarded = (refl, refl)

serve-unchanged_example : (serve sample_host no_dates sample_world secret deletion first).1 ≡ first
serve-unchanged_example =
    serve-unchanged sample_host no_dates sample_world look_up-IsRouter secret deletion first
      deletion-token deletion-guarded.0 deletion-guarded.1

abbrev ada : Json
ada = obj (
    field (str "email") (text (str "ada@example.com")) (
      field (str "first_name") (text (str "Ada"))
        (field (str "last_name") (text (str "Lovelace")) end)))

-- A sync of one customer, with the token.
abbrev upload : Incoming
upload = record {
  http = record {
    method = str "POST";
    path = str "/api/v1/sync";
    request_id = [];
    token = secret;
    body = [];
  };
  page_param = none;
  size_param = none;
  status_param = none;
  document = some (
      obj (
        field (str "model") (text (str "customers"))
          (field (str "data") (arr (cons ada nil)) end)));
}

serve-Allowed_example :
    Allowed sample_host
      (IsDeletion sample_host no_dates sample_world secret upload)
      empty
      (serve sample_host no_dates sample_world secret upload first).1.graph.db
serve-Allowed_example =
    serve-Allowed sample_host no_dates memory-IsSqlite (λ s. refl) sample_world secret upload first
      refl

-- with one subscriber
abbrev watched : ServerState sample_host no_dates
watched =
    with_graph sample_host no_dates sample_world secret first
      (employee_created_resolver sample_host no_dates first.graph).0

upload-Reached :
    Reached sample_host no_dates sample_world secret
      (serve sample_host no_dates sample_world secret upload watched).1
upload-Reached = proceeds (proceeds (starts empty refl refl) watches) (serves upload)

Reached-IsSound_example :
    IsSound sample_host no_dates sample_world secret
      (serve sample_host no_dates sample_world secret upload watched).1
Reached-IsSound_example =
    Reached-IsSound sample_host no_dates sample_world secret memory-IsSqlite (λ s. refl)
      upload-Reached

abbrev done_row : HistoryRow
done_row = record {
  payload = str "[]";
  status = str "SUCCESSFUL";
  failure_reason = none;
  retries = pos 0;
  created_at = [];
  updated_at = [];
}

-- with a successful entry in the log
abbrev after_success : ServerState sample_host no_dates
after_success =
    started sample_host no_dates sample_world secret
      (record empty { contents = record empty.contents { sync_history = (pos 1, done_row) ∷ [] } })

done-found : log sample_host after_success.graph.db (pos 1) ≡ some done_row
unfolding find eqb_ℤ
done-found = refl

serve-final_example :
    let s' = (serve sample_host no_dates sample_world secret upload after_success).1 in
    (log sample_host s'.graph.db (pos 1) ≡ some done_row)
    ⊎ IsDeletion sample_host no_dates sample_world secret upload (pos 1)
serve-final_example =
    serve-final sample_host no_dates memory-IsSqlite (λ s. refl) sample_world secret upload
      after_success (pos 1) done_row refl done-found refl
