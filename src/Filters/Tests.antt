-- ===== src/Filters/Tests.antt =====
-- Requests through the filters, and instances of their theorems.
use apiserver.Base.{
  String, true, false, List, [], ◌∷◌, none, some, error_new, ◌≡◌, ◌≢◌, ◌↔◌, refl, ne_of_test, ok,
  err,
}
use apiserver.Samples.{sample_aggregates, alice}
use apiserver.Authenticator.{Response, Outcome, Authenticator, HttpRequest}
use apiserver.Authenticator.Audiences.{audiences_are_acceptable, authenticate_agnostic}
use apiserver.RequestInfo.{RequestInfo}
use apiserver.Rbac.Resolver.{Store}
use apiserver.Rbac.Authorize.{authorize}
use apiserver.Rbac.Authorize.Granted.{Granted}
use apiserver.Abac.{Policy, authorize as authorize_by_policies}
use apiserver.Filters.{
  served, failed, with_authentication, with_authorization, handled, internal_error,
}
use apiserver.Filters.Authentication.{Admitted, with_authentication-Admitted_iff}
use apiserver.Filters.Authorization.{with_authorization-OneGroup}

abbrev success : Response → Outcome
success resp = record { response = some resp; is_ok = true; error = none }

abbrev of_alice : Response
of_alice = record { audiences = []; user = alice }

abbrev knows_alice : Authenticator HttpRequest
knows_alice req = some (success of_alice, req)

abbrev refuses : Authenticator HttpRequest
refuses req = some (record { response = none; is_ok = false; error = none }, req)

abbrev request : HttpRequest
request = record { authorization = "Bearer t"; audiences = none; user = none }

abbrev request_of_alice : HttpRequest
request_of_alice = record { authorization = ""; audiences = none; user = some alice }

unauthenticated : with_authentication refuses [] true request ≡ some (failed request)
unfolding with_authentication
unauthenticated = refl

with_authentication-Admitted_iff_example :
    (with_authentication knows_alice [] false request ≡ some (served request_of_alice))
    ↔ Admitted knows_alice [] false request request_of_alice
with_authentication-Admitted_iff_example =
    with_authentication-Admitted_iff knows_alice [] false request request_of_alice

no_audiences : audiences_are_acceptable [] [] ≡ true
unfolding audiences_are_acceptable
no_audiences = refl

abbrev for_api : Response
for_api = record of_alice { audiences = "api" ∷ [] }

abbrev request_with_audiences : HttpRequest
request_with_audiences = record request { audiences = some ("api" ∷ []) }

wrapped :
    authenticate_agnostic
      (λ (r : HttpRequest). r.audiences)
      ("api" ∷ [])
      knows_alice
      request_with_audiences
    ≡ some (success for_api, request_with_audiences)
unfolding authenticate_agnostic
wrapped = refl

one_audience-ne-nil : ◌≢◌ {A = List String} ("api" ∷ []) []
one_audience-ne-nil h = cc

abbrev list_pods : RequestInfo
list_pods = record {
  is_resource_request = true;
  path = "/apis/apps/v1/pods";
  verb = "list";
  api_prefix = "apis";
  api_group = "apps";
  api_version = "v1";
  namespace = "";
  resource = "pods";
  subresource = "";
  name = "";
  parts = "pods" ∷ [];
}

abbrev no_bindings : Store
no_bindings = record {
  get_role = λ namespace name. err (error_new "none");
  list_role_bindings = λ namespace. ok [];
  get_cluster_role = λ name. err (error_new "none");
  list_cluster_role_bindings = ok [];
}

no_request_info :
    with_authorization (authorize sample_aggregates no_bindings alice) (some alice) none
    ≡ internal_error (error_new "no RequestInfo found in the context")
unfolding with_authorization
no_request_info = refl

-- Everything of the group "apps", for everybody.
abbrev all_apps : Policy
all_apps = record {
  kind = "Policy";
  spec = record {
    user = "*";
    group = "";
    readonly = false;
    api_group = "apps";
    resource = "*";
    namespace = "*";
    non_resource_path = "";
  };
}

with_authorization-OneGroup_example :
    with_authorization (authorize_by_policies (all_apps ∷ [])) (some alice) (some list_pods)
    ≢ handled
with_authorization-OneGroup_example =
    with_authorization-OneGroup (all_apps ∷ []) (some alice) list_pods
      ((ne_of_test "apps" "*" refl, ne_of_test "apps" "" refl), tt) refl
