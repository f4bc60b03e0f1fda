-- ===== src/Filters.antt =====
-- The filters that authenticate and authorize a request: pkg/filters/authentication.go and
-- pkg/filters/authorization.go. Each filter is modelled up to the handler that it passes the
-- request to; metrics, logging and the audit annotations are left out.
pub mod Authentication
pub mod Authorization
mod Tests
use apiserver.Base.{
  String, Bool, true, false, List, [], ◌∷◌, Option, none, some, Error, error_new, errorf,
  if◌then◌else◌, is_empty, not, Result, ok, err,
}
use apiserver.User.{User}
use apiserver.Authorizer.{Attributes, Verdict, decision_allow, decision_deny, decision_no_opinion}
use apiserver.Authenticator.{Response, Outcome, Authenticator, HttpRequest}
use apiserver.Authenticator.Audiences.{audiences_are_acceptable}
use apiserver.RequestInfo.{RequestInfo}

-- The handler that WithAuthentication calls, and the request it gets.
pub data Authenticated : Type 0 where
  served failed : HttpRequest → Authenticated

-- The last steps of a request that is authenticated.
abbrev pub admit : Bool → HttpRequest → User → HttpRequest
admit keep_authorization_header req user = record {
  authorization = if not keep_authorization_header then "" else req.authorization;
  audiences = req.audiences;
  user = some user;
}

accept_response : List String → Bool → HttpRequest → Response → Authenticated
accept_response api_auds keep_authorization_header req resp =
    if not (audiences_are_acceptable api_auds resp.audiences)
    then failed req
    else served (admit keep_authorization_header req resp.user)

-- What follows the call of the authenticator.
settle_outcome : List String → Bool → HttpRequest → Outcome → Option Authenticated
unfolding accept_response
settle_outcome api_auds keep_authorization_header req o = elim o.error [
  | some e ↦ some (failed req)
  | none ↦ if not o.is_ok then some (failed req) else elim o.response [
    | none ↦ none
    | some resp ↦ some (accept_response api_auds keep_authorization_header req resp)
  ]
]

-- The context carries the audiences of the API server, if it has any.
abbrev pub with_audiences : List String → HttpRequest → HttpRequest
with_audiences api_auds req =
    if not (is_empty api_auds) then record req { audiences = some api_auds } else req

-- The function that WithAuthentication returns, for an authenticator that is not nil.
unfoldable pub with_authentication :
    Authenticator HttpRequest → List String → Bool → HttpRequest → Option Authenticated
unfolding settle_outcome
with_authentication auth api_auds keep_authorization_header req =
    elim (auth (with_audiences api_auds req)) [
      | none ↦ none
      | some (o, req') ↦ settle_outcome api_auds keep_authorization_header req' o
    ]

-- GetAuthorizerAttributes, of the user and the request information in the context. The API group
-- and the API version stay empty: their assignments are commented out.
unfoldable pub get_authorizer_attributes : Option User → Option RequestInfo → Result Attributes
get_authorizer_attributes user none = err (error_new "no RequestInfo found in the context")
get_authorizer_attributes user (some request_info) = ok (record {
  user = user;
  verb = request_info.verb;
  namespace = request_info.namespace;
  api_group = "";
  api_version = "";
  resource = request_info.resource;
  subresource = request_info.subresource;
  name = request_info.name;
  resource_request = request_info.is_resource_request;
  path = request_info.path;
})

-- What WithAuthorization answers: it calls the next handler, or writes an error or a refusal.
pub data Authorized : Type 0 where
  handled : Authorized
  internal_error : Error → Authorized
  forbidden : Attributes → String → Authorized

settle_verdict : Attributes → Verdict → Authorized
settle_verdict attributes v = elim v.decision [
  | decision_allow ↦ handled
  | decision_deny ↦ elim v.error [
    | none ↦ forbidden attributes v.reason
    | some e ↦ internal_error e
  ]
  | decision_no_opinion ↦ elim v.error [
    | none ↦ forbidden attributes v.reason
    | some e ↦ internal_error e
  ]
]

-- The functions that WithAuthorization and Authz return, for an authorizer that is not nil.
unfoldable pub with_authorization :
    (Attributes → Verdict) → Option User → Option RequestInfo → Authorized
unfolding get_authorizer_attributes settle_verdict
with_authorization authorize user request_info =
    elim (get_authorizer_attributes user request_info) [
      | err e ↦ internal_error e
      | ok attributes ↦ settle_verdict attributes (authorize attributes)
    ]
