-- ===== src/Middleware/Auth.antt =====
-- Which requests pass the authentication.
use sync_bridge.Base.{◌≡◌, ◌≢◌, ◌↔◌, ◌⊎◌, inr, true, false, [], ◌++◌, arith, refl}
use sync_bridge.Text.{Bytes, str, eqb, has_prefix, contains}
use sync_bridge.Text.Laws.{eqb_iff, has_prefix-append}
use sync_bridge.Middleware.{
  Request, next, denied, is_public, is_graphql, mentions_creation, is_rest, auth_middleware,
}

-- The rule that the middleware is meant to enforce.
abbrev pub NeedsToken : Request → Type 0
NeedsToken r =
    (is_public r.path ≡ false)
    × (((is_graphql r.path ≡ true)
          × (eqb r.method (str "POST") ≡ true)
          × (mentions_creation r.body ≡ true))
        ⊎ ((is_graphql r.path ≡ false) × (is_rest r.path ≡ true)))

-- A request is denied exactly when it needs the token and does not carry it: a path under the sync
-- API that is no GraphQL path, or a POST to a GraphQL path whose body mentions a creation. An
-- empty token never passes, even if the configured token is empty.
pub auth_middleware-denied_iff :
    (auth_token : Bytes) (r : Request)
    → (auth_middleware auth_token r ≡ denied)
      ↔ (NeedsToken r × ((r.token ≡ []) ⊎ (r.token ≢ auth_token)))
unfolding auth_middleware
auth_middleware-denied_iff auth_token r = (
  λ e. ground (arith, eqb_iff r.token [], eqb_iff r.token auth_token),
  λ e. ground (arith, eqb_iff r.token [], eqb_iff r.token auth_token),
)

is_rest-sync : (rest : Bytes) → has_prefix (str "/api/v1/sync" ++ rest) (str "/api/v1/sync") ≡ true
is_rest-sync rest = has_prefix-append (str "/api/v1/sync") rest

is_public-sync : (rest : Bytes) → is_public (str "/api/v1/sync" ++ rest) ≡ false
unfolding eqb str
is_public-sync rest = refl

-- Every request to the sync API, whatever its method and body, is denied without the right token,
-- unless its path ends in "/graphql".
pub auth_middleware-sync :
    (auth_token rest : Bytes) (r : Request)
    → r.path ≡ str "/api/v1/sync" ++ rest
    → is_graphql r.path ≡ false
    → r.token ≢ auth_token
    → auth_middleware auth_token r ≡ denied
auth_middleware-sync auth_token rest r path graphql wrong =
    (auth_middleware-denied_iff auth_token r).1
      ((rw path (is_public-sync rest), inr (graphql, rw path (rw (is_rest-sync rest)))), inr wrong)

-- A GraphQL request whose body does not contain the letters "create" passes without a token: so do
-- the mutations updateEmployee and deleteEmployee, which modify employees.
pub auth_middleware-graphql :
    (auth_token : Bytes) (r : Request)
    → is_graphql r.path ≡ true
    → contains r.body (str "createEmployee") ≡ false
    → contains r.body (str "create") ≡ false
    → auth_middleware auth_token r ≡ next
unfolding auth_middleware
auth_middleware-graphql auth_token r graphql e c = ground arith
