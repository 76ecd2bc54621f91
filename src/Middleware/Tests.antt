-- ===== src/Middleware/Tests.antt =====
-- Requests that the middleware lets pass and denies.
use sync_bridge.Base.{◌≡◌, ◌≢◌, refl, true, false, [], ◌++◌, ◌⊎◌, ◌↔◌}
use sync_bridge.Text.{Bytes, str, eqb, contains, has_prefix, has_suffix, strip_prefix}
use sync_bridge.Middleware.{Request, denied, next, auth_middleware, is_graphql}
use sync_bridge.Middleware.Auth.{
  NeedsToken, auth_middleware-denied_iff, auth_middleware-sync, auth_middleware-graphql,
}

abbrev secret : Bytes
secret = str "s3cret"

abbrev push : Request
push = record {
  method = str "POST";
  path = str "/api/v1/sync" ++ [];
  request_id = [];
  token = str "guess";
  body = str "{}";
}

abbrev removal : Request
removal = record {
  method = str "POST";
  path = str "/graphql";
  request_id = [];
  token = [];
  body = str "mutation { deleteEmployee(id: 1) }";
}

push-wrong : push.token ≢ secret
unfolding str
push-wrong e = cc e

push-rest : is_graphql push.path ≡ false
unfolding eqb has_suffix str
push-rest = refl

auth_middleware-sync_example : auth_middleware secret push ≡ denied
auth_middleware-sync_example = auth_middleware-sync secret [] push refl push-rest push-wrong

auth_middleware-denied_iff_example :
    (auth_middleware secret push ≡ denied)
    ↔ (NeedsToken push × ((push.token ≡ []) ⊎ (push.token ≢ secret)))
auth_middleware-denied_iff_example = auth_middleware-denied_iff secret push

removal-graphql : is_graphql removal.path ≡ true
unfolding eqb str
removal-graphql = refl

removal-silent : contains removal.body (str "createEmployee") ≡ false
unfolding contains has_prefix strip_prefix str
removal-silent = refl

removal-silent_short : contains removal.body (str "create") ≡ false
unfolding contains has_prefix strip_prefix str
removal-silent_short = refl

auth_middleware-graphql_example : auth_middleware secret removal ≡ next
auth_middleware-graphql_example =
    auth_middleware-graphql secret removal removal-graphql removal-silent removal-silent_short
