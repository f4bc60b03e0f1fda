-- ===== src/RequestInfo.antt =====
-- What a request asks for, from its method and its path: NewRequestInfo and splitPath of
-- pkg/request/requestinfo.go. A result `none` is a panic of Go: an index out of range, or a call of a
-- method of a nil selector.
pub mod Paths
pub mod Totality
pub mod Naming
pub mod Fields
pub mod Collections
mod Tests
use Prim.Native.String
use apiserver.Base.{
  String, Bool, true, false, List, [], ◌∷◌, Option, none, some, if◌then◌else◌, ◌==◌, ◌&&◌, ◌||◌,
  not, is_blank, Error, errorf, Result, ok, err, to_lower, trim, split,
}

-- The fields of http.Request that are read; the query is a map from a key to its values.
pub record Request : Type 0 where
  pub method : String
  pub path : String
  pub query : List (String × List String)

pub record RequestInfo : Type 0 where
  pub is_resource_request : Bool
  pub path : String
  pub verb : String
  pub api_prefix : String
  pub api_group : String
  pub api_version : String
  pub namespace : String
  pub resource : String
  pub subresource : String
  pub name : String
  pub parts : List String

-- The fields of api.ListOptions that are read.
pub record ListOptions : Type 0 where
  pub watch : Bool
  pub field_selector : String

-- What fields.ParseSelector returns: the selector as its method RequiresExactMatch, or nil, and the
-- error.
pub record ParsedSelector : Type 0 where
  pub selector : Option (String → Option String)
  pub error : Option Error

-- RequestInfoFactory with the sets as their membership tests, the codec, and three functions of
-- golib.
pub record RequestInfoFactory : Type 0 where
  pub api_prefixes : String → Bool
  pub groupless_api_prefixes : String → Bool
  pub decode_parameters : List (String × List String) → Result ListOptions
  pub parse_selector : String → ParsedSelector
  pub is_valid_path_segment_name : String → List String

special_verbs : String → Bool
special_verbs s = s == "proxy" || s == "watch"

special_verbs_no_subresources : String → Bool
special_verbs_no_subresources s = s == "proxy"

namespace_subresources : String → Bool
namespace_subresources s = s == "status" || s == "finalize"

pub split_path : String → List String
split_path path = let trimmed = trim path b'/' in if trimmed == "" then [] else split trimmed b'/'

-- The request information before anything is known of it.
pub plain_info : Request → RequestInfo
unfolding to_lower
plain_info req = record {
  is_resource_request = false;
  path = req.path;
  verb = to_lower req.method;
  api_prefix = "";
  api_group = "";
  api_version = "";
  namespace = "";
  resource = "";
  subresource = "";
  name = "";
  parts = [];
}

-- The verb of a method of HTTP, by the switch.
pub verb_of_method : String → String
verb_of_method method =
    if method == "POST"
    then "create"
    else if method == "GET" || method == "HEAD"
    then "get"
    else if method == "PUT"
    then "update"
    else if method == "PATCH"
    then "patch"
    else if method == "DELETE"
    then "delete"
    else ""

-- `values := req.URL.Query()["watch"]`: a watch unless the first value says no.
query_values : String → List (String × List String) → List String
query_values key [] = []
query_values key ((k, values) ∷ query) = if k == key then values else query_values key query

watch_from_query : List String → Bool
unfolding to_lower
watch_from_query [] = false
watch_from_query (v ∷ vs) = not (to_lower v == "false" || to_lower v == "0")

pub list_options : RequestInfoFactory → Request → ListOptions
unfolding query_values watch_from_query
list_options f req = elim (f.decode_parameters req.query) [
  | ok opts ↦ opts
  | err e ↦ record {
    watch = watch_from_query (query_values "watch" req.query);
    field_selector = "";
  }
]

-- The name that a selector gives, which is not changed if it gives none that is valid. A nil selector
-- has no method: Go panics.
selected : RequestInfoFactory → String → Option (String → Option String) → Option String
selected f name none = none
selected f name (some requires_exact_match) = some (elim (requires_exact_match "metadata.name") [
  | none ↦ name
  | some n ↦ elim (f.is_valid_path_segment_name n) [ [] ↦ n | m ∷ ms ↦ name ]
])

-- The name after the field selector is looked at. The test is `err != nil`.
selector_name : RequestInfoFactory → String → String → Option String
unfolding selected
selector_name f selector name =
    let p = f.parse_selector selector in
    elim p.error [ none ↦ some name | some e ↦ selected f name p.selector ]

-- Requests without a name: "get" is "list" or "watch", and "delete" is "deletecollection".
with_verb_and_name : RequestInfo → String → Option String → Option RequestInfo
with_verb_and_name info verb none = none
with_verb_and_name info verb (some name) = some (record info { verb = verb; name = name })

pub settle_get : RequestInfoFactory → Request → RequestInfo → Option RequestInfo
unfolding list_options selector_name with_verb_and_name
settle_get f req info =
    let opts = list_options f req in
    if is_blank info.name && info.verb == "get"
    then with_verb_and_name info (if opts.watch then "watch" else "list") (
        if not (opts.field_selector == "")
        then selector_name f opts.field_selector info.name
        else some info.name)
    else some info

settle_delete : RequestInfo → RequestInfo
settle_delete info =
    if is_blank info.name && info.verb == "delete"
    then record info { verb = "deletecollection" }
    else info

-- `requestInfo.Parts = currentParts` and the switch with its two fallthroughs.
with_parts : RequestInfo → List String → RequestInfo
with_parts info [] = record info { parts = [] }
with_parts info (r ∷ []) = record info { parts = r ∷ []; resource = r }
with_parts info (r ∷ (n ∷ [])) = record info { parts = r ∷ (n ∷ []); resource = r; name = n }
with_parts info (r ∷ (n ∷ (s ∷ rest))) = record info {
  parts = r ∷ (n ∷ (s ∷ rest));
  resource = r;
  name = n;
  subresource = if not (special_verbs_no_subresources info.verb) then s else info.subresource;
}

settle_named_delete : Option RequestInfo → Option RequestInfo
unfolding settle_delete
settle_named_delete none = none
settle_named_delete (some info) = some (settle_delete info)

finish : RequestInfoFactory → Request → RequestInfo → List String → Option RequestInfo
unfolding with_parts settle_get settle_named_delete special_verbs_no_subresources
finish f req info parts = settle_named_delete (settle_get f req (with_parts info parts))

-- URL forms `/namespaces/{namespace}/{kind}/*`; the parts are not empty here.
in_namespace : RequestInfoFactory → Request → RequestInfo → List String → Option RequestInfo
unfolding finish namespace_subresources
in_namespace f req info [] = none
in_namespace f req info (p ∷ []) = finish f req info (p ∷ [])
in_namespace f req info (p ∷ (ns ∷ [])) =
    if p == "namespaces"
    then finish f req (record info { namespace = ns }) (p ∷ (ns ∷ []))
    else finish f req info (p ∷ (ns ∷ []))
in_namespace f req info (p ∷ (ns ∷ (r ∷ rest))) =
    if p == "namespaces"
    then (if not (namespace_subresources r)
        then finish f req (record info { namespace = ns }) (r ∷ rest)
        else finish f req (record info { namespace = ns }) (p ∷ (ns ∷ (r ∷ rest))))
    else finish f req info (p ∷ (ns ∷ (r ∷ rest)))

no_error : Option RequestInfo → Option (RequestInfo × Option Error)
no_error none = none
no_error (some info) = some (info, none)

-- Input of the form `/{specialVerb}/*`, or the verb from the method. The URL in the error stands as
-- its path.
with_verb :
    RequestInfoFactory → Request → RequestInfo → List String → Option (RequestInfo × Option Error)
unfolding in_namespace special_verbs verb_of_method no_error
with_verb f req info [] = none
with_verb f req info (p ∷ []) =
    if special_verbs p
    then some
        (info, some (errorf "unable to determine kind and namespace from url, %v" (req.path ∷ [])))
    else no_error (in_namespace f req (record info { verb = verb_of_method req.method }) (p ∷ []))
with_verb f req info (p ∷ (q ∷ rest)) =
    if special_verbs p
    then no_error (in_namespace f req (record info { verb = p }) (q ∷ rest))
    else no_error
        (in_namespace f req (record info { verb = verb_of_method req.method }) (p ∷ (q ∷ rest)))

with_version :
    RequestInfoFactory → Request → RequestInfo → List String → Option (RequestInfo × Option Error)
unfolding with_verb
with_version f req info [] = none
with_version f req info (v ∷ rest) =
    with_verb f req (record info { is_resource_request = true; api_version = v }) rest

-- A prefix that is not groupless takes one more part, and wants three parts behind it.
with_group :
    RequestInfoFactory → Request → RequestInfo → List String → Option (RequestInfo × Option Error)
unfolding with_version
with_group f req info (g ∷ (v ∷ (r ∷ rest))) =
    with_version f req (record info { api_group = g }) (v ∷ (r ∷ rest))
with_group f req info parts = some (info, none)

from_parts : RequestInfoFactory → Request → List String → Option (RequestInfo × Option Error)
unfolding plain_info with_group
from_parts f req (p ∷ (q ∷ (r ∷ rest))) =
    if not (f.api_prefixes p)
    then some (plain_info req, none)
    else let info : RequestInfo = record (plain_info req) { api_prefix = p } in
      if not (f.groupless_api_prefixes p)
      then with_group f req info (q ∷ (r ∷ rest))
      else with_version f req info (q ∷ (r ∷ rest))
from_parts f req parts = some (plain_info req, none)

pub new_request_info : RequestInfoFactory → Request → Option (RequestInfo × Option Error)
unfolding from_parts split_path
new_request_info f req = from_parts f req (split_path req.path)
