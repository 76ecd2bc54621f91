-- ===== src/Middleware.antt =====
-- internal/middleware/middleware.go: the request id, and which requests need the token.
pub mod Auth
mod Tests
use sync_bridge.Base.{◌≡◌, Bool, true, false, ◌&&◌, ◌||◌, not, List, [], ◌∷◌, if◌then◌else◌}
use sync_bridge.Text.{Bytes, str, eqb, has_prefix, has_suffix, contains}

-- What the middleware reads of a request: an absent header is empty, and `body` is what
-- `io.ReadAll` returns of the body (empty where there is none).
pub record Request : Type 0 where
  pub method : Bytes
  pub path : Bytes
  pub request_id : Bytes
  pub token : Bytes
  pub body : Bytes

-- `RequestIDMiddleware`: the id that is set and sent back
unfoldable request_id_middleware : Bytes → Request → Bytes
request_id_middleware fresh_uuid r = if eqb r.request_id [] then fresh_uuid else r.request_id

-- `c.Next()`, or 401 "Access Denied" and `c.Abort()`
pub data Verdict : Type 0 where
  next denied : Verdict

abbrev pub is_public : Bytes → Bool
is_public path = eqb path (str "/api/v1/healthz") || eqb path (str "/healthz")

abbrev pub is_graphql : Bytes → Bool
is_graphql path = eqb path (str "/graphql") || has_suffix path (str "/graphql")

-- the texts in a body that make the token necessary
abbrev pub mentions_creation : Bytes → Bool
mentions_creation body =
    contains body (str "createEmployee")
    || (contains body (str "mutation") && contains body (str "create"))

abbrev pub is_rest : Bytes → Bool
is_rest path = has_prefix path (str "/api/v1/sync") || has_prefix path (str "/api/v1/sync-history")

unfoldable check_token : Bytes → Request → Verdict
check_token auth_token r = if eqb r.token [] || not (eqb r.token auth_token) then denied else next

unfoldable pub auth_middleware : Bytes → Request → Verdict
unfolding check_token
auth_middleware auth_token r =
    if is_public r.path
    then next
    else if is_graphql r.path
    then (if eqb r.method (str "POST") && mentions_creation r.body
        then check_token auth_token r
        else next)
    else if is_rest r.path
    then check_token auth_token r
    else next
