-- ===== src/RequestInfo/Tests.antt =====
-- A factory, requests of the usual forms, and instances of the theorems.
use apiserver.Base.{
  String, [], ◌∷◌, ◌≡◌, refl, true, false, Option, none, some, ok, Error, error_new, ne_of_test,
  ◌==◌, ◌||◌, All,
}
use apiserver.Samples.{has_code, has_code-Lacks}
use apiserver.RequestInfo.{
  Request, RequestInfo, RequestInfoFactory, ListOptions, ParsedSelector, new_request_info,
  settle_get, split_path, plain_info,
}
use apiserver.RequestInfo.Paths.{Segment}
use apiserver.RequestInfo.Totality.{Gets, BadSelector, new_request_info-none}
use apiserver.RequestInfo.Fields.{request_for, new_request_info-grouped}

abbrev by_name : ListOptions
by_name = record { watch = true; field_selector = "metadata.name=web-1" }

abbrev one_name : ParsedSelector
one_name = record { selector = some (λ field. some "web-1"); error = none }

abbrev factory : RequestInfoFactory
factory = record {
  api_prefixes = λ s. s == "api" || s == "apis";
  groupless_api_prefixes = λ s. s == "api";
  decode_parameters = λ q. ok by_name;
  parse_selector = λ s. one_name;
  is_valid_path_segment_name = λ s. [];
}

abbrev request : String → String → Request
request method path = record { method = method; path = path; query = [] }

abbrev watch_pods : RequestInfo
watch_pods = record {
  is_resource_request = true;
  path = "/api/v1/namespaces/shop/pods";
  verb = "watch";
  api_prefix = "api";
  api_group = "";
  api_version = "v1";
  namespace = "shop";
  resource = "pods";
  subresource = "";
  name = "";
  parts = "pods" ∷ [];
}

watch_pods_parsed :
    new_request_info factory (request "GET" "/api/v1/namespaces/shop/pods")
    ≡ some (watch_pods, none)
unfolding new_request_info split_path plain_info settle_get
watch_pods_parsed = refl

delete_deployment :
    new_request_info factory
      (request "DELETE" "/apis/apps/v1/namespaces/shop/deployments/web/scale")
    ≡ some (
      record {
        is_resource_request = true;
        path = "/apis/apps/v1/namespaces/shop/deployments/web/scale";
        verb = "delete";
        api_prefix = "apis";
        api_group = "apps";
        api_version = "v1";
        namespace = "shop";
        resource = "deployments";
        subresource = "scale";
        name = "web";
        parts = "deployments" ∷ ("web" ∷ ("scale" ∷ []));
      },
      none,
    )
unfolding new_request_info split_path plain_info settle_get
delete_deployment = refl

healthz_plain :
    new_request_info factory (request "GET" "/healthz")
    ≡ some (
      record {
        is_resource_request = false;
        path = "/healthz";
        verb = "get";
        api_prefix = "";
        api_group = "";
        api_version = "";
        namespace = "";
        resource = "";
        subresource = "";
        name = "";
        parts = [];
      },
      none,
    )
unfolding new_request_info split_path plain_info
healthz_plain = refl

-- A codec that fails to parse every selector.
abbrev strict : RequestInfoFactory
strict = record factory {
  parse_selector = λ s. record { selector = none; error = some (error_new "invalid selector") };
}

new_request_info-none_example :
    Gets strict (request "GET" "/api/v1/namespaces/shop/pods")
    × BadSelector strict (request "GET" "/api/v1/namespaces/shop/pods")
unfolding new_request_info split_path plain_info settle_get
new_request_info-none_example =
    new_request_info-none strict (request "GET" "/api/v1/namespaces/shop/pods") refl

abbrev get_pods : RequestInfo
get_pods = record watch_pods { verb = "get" }

segment : (s : String) → (s == "") ≡ false → has_code s b'/' ≡ false → Segment s
segment s h k = (ne_of_test s "" h, has_code-Lacks s b'/' k)

pods_path : All Segment ("api" ∷ ("v1" ∷ ("namespaces" ∷ ("shop" ∷ ("pods" ∷ ("web-1" ∷ []))))))
pods_path = (
  segment "api" refl refl,
  (
    segment "v1" refl refl,
    (
      segment "namespaces" refl refl,
      (segment "shop" refl refl, (segment "pods" refl refl, (segment "web-1" refl refl, tt))),
    ),
  ),
)

grouped_path : All Segment (
    "apis"
    ∷ ("apps" ∷ ("v1" ∷ ("namespaces" ∷ ("shop" ∷ ("deployments" ∷ ("web" ∷ ("scale" ∷ []))))))))
grouped_path = (
  segment "apis" refl refl,
  (
    segment "apps" refl refl,
    (
      segment "v1" refl refl,
      (
        segment "namespaces" refl refl,
        (
          segment "shop" refl refl,
          (
            segment "deployments" refl refl,
            (segment "web" refl refl, (segment "scale" refl refl, tt)),
          ),
        ),
      ),
    ),
  ),
)

new_request_info-grouped_example :
    (r : RequestInfo × Option Error) × (new_request_info factory (
        request_for "GET" [] (
          "apis"
          ∷ ("apps"
              ∷ ("v1" ∷ ("namespaces" ∷ ("shop" ∷ ("deployments" ∷ ("web" ∷ ("scale" ∷ [])))))))))
      ≡ some r)
new_request_info-grouped_example = (
  _,
  new_request_info-grouped factory "GET" [] "apis" "apps" "v1" "shop" "deployments" "web"
      ("scale" ∷ []) grouped_path refl refl (ne_of_test "deployments" "status" refl)
      (ne_of_test "deployments" "finalize" refl),
)
