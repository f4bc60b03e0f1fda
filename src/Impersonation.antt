-- ===== src/Impersonation.antt =====
-- Acting as another user: pkg/filters/impersonation.go, up to the handler that the filter calls;
-- logs and the audit event are left out. A header is a map whose loop takes the entries in the order
-- of the list; its keys are in canonical form, as net/http reads them, and so are `HeaderNames`, the
-- constants of golib's package api, so that Get and Del look for them as they stand;
-- `path_unescape` is url.PathUnescape, with `none` for an error.
pub mod Laws
pub mod Groups
pub mod Headers
mod Tests
use apiserver.Base.{
  String, Bool, true, false, List, [], ◌∷◌, ◌++◌, Option, none, some, Map, lookup, put, delete,
  Error, error_new, errorf, Result, ok, err, ◌==◌, ◌||◌, ◌&&◌, not, any, is_empty, is_blank,
  has_prefix, cut, len, to_lower, if◌then◌else◌,
}
use apiserver.User.{User, anonymous, all_authenticated, all_unauthenticated}
use apiserver.Authorizer.{
  Attributes, Verdict, Decision, decision_allow, decision_deny, decision_no_opinion,
}
use apiserver.ServiceAccount.{split_username, make_username, make_group_names}

abbrev pub Header : Type 0
Header = Map (List String)

pub record HeaderNames : Type 0 where
  pub user : String
  pub group : String
  pub user_extra_prefix : String

-- golib's IsDNS1123Label and IsDNS1123Subdomain.
pub record Validators : Type 0 where
  pub is_dns1123_label : String → List String
  pub is_dns1123_subdomain : String → List String

-- The four kinds of an ImpersonationRequest, each with the fields that it sets.
pub data ImpersonationRequest : Type 0 where
  impersonation_user : String → ImpersonationRequest
  impersonation_service_account : String → String → ImpersonationRequest
  impersonation_group : String → ImpersonationRequest
  impersonation_user_extra : String → String → ImpersonationRequest

abbrev pub or_empty : Option (List String) → List String
or_empty none = []
or_empty (some values) = values

abbrev pub values_of : String → Header → List String
values_of name h = or_empty (lookup name h)

abbrev pub first_or_blank : List String → String
first_or_blank [] = ""
first_or_blank (value ∷ values) = value

-- `h.Get(name)`
abbrev pub get : String → Header → String
get name h = first_or_blank (values_of name h)

abbrev pub group_requests : List String → List ImpersonationRequest
group_requests [] = []
group_requests (group ∷ groups) = impersonation_group group ∷ group_requests groups

abbrev pub value_requests : String → List String → List ImpersonationRequest
value_requests key [] = []
value_requests key (value ∷ values) = impersonation_user_extra key value ∷ value_requests key values

abbrev pub unescape_extra_key : (String → Option String) → String → String
unescape_extra_key path_unescape encoded = elim (path_unescape encoded) [
  | none ↦ encoded
  | some key ↦ key
]

-- A name that is a service account's is taken apart.
abbrev pub request_of : String → Result (String × String) → ImpersonationRequest
request_of requested_user (ok (namespace, name)) = impersonation_service_account namespace name
request_of requested_user (err e) = impersonation_user requested_user

abbrev pub user_request : Validators → String → ImpersonationRequest
user_request v requested_user =
    request_of requested_user
      (split_username v.is_dns1123_label v.is_dns1123_subdomain requested_user)

abbrev pub user_requests : Validators → String → List ImpersonationRequest
user_requests v requested_user =
    if is_blank requested_user then [] else user_request v requested_user ∷ []

module _ (names : HeaderNames) (path_unescape : String → Option String) where
  -- The loop over the headers, and whether it met one of an extra key.
  abbrev pub extra_requests : Header → List ImpersonationRequest
  extra_requests [] = []
  extra_requests ((name, values) ∷ h) =
      let rest = extra_requests h in
      if has_prefix name names.user_extra_prefix
      then value_requests
          (unescape_extra_key path_unescape (to_lower (cut (len names.user_extra_prefix) name)))
          values
        ++ rest
      else rest

  abbrev pub has_extra : Header → Bool
  has_extra [] = false
  has_extra ((name, values) ∷ h) = has_prefix name names.user_extra_prefix || has_extra h

  unfoldable pub build_impersonation_requests :
      Validators → Header → Result (List ImpersonationRequest)
  build_impersonation_requests v h =
      let requested_user = get names.user h in
      let groups = values_of names.group h in
      if (not (is_empty groups) || has_extra h) && is_blank requested_user
      then err (errorf "requested %v without impersonating a user" [])
      else ok (user_requests v requested_user ++ (group_requests groups ++ extra_requests h))

-- The user that the loop of WithImpersonation builds.
pub record Acting : Type 0 where
  pub username : String
  pub groups : List String
  pub user_extra : Map (List String)

abbrev pub nobody : Acting
nobody = record { username = ""; groups = []; user_extra = [] }

abbrev pub append_value : String → String → Map (List String) → Map (List String)
append_value key value extra = put key (values_of key extra ++ (value ∷ [])) extra

-- What one request adds to that user.
abbrev pub act_as : Bool → ImpersonationRequest → Acting → Acting
act_as groups_specified (impersonation_service_account namespace name) u = record {
  username = make_username namespace name;
  groups = if groups_specified then u.groups else make_group_names namespace;
  user_extra = u.user_extra;
}
act_as groups_specified (impersonation_user name) u = record u { username = name }
act_as groups_specified (impersonation_group name) u = record u { groups = u.groups ++ (name ∷ []) }
act_as groups_specified (impersonation_user_extra key value) u = record u {
  user_extra = append_value key value u.user_extra;
}

-- The attributes that are checked for a request, of a resource, a subresource, a namespace and a name.
abbrev pub acting_as : User → String → String → String → String → Attributes
acting_as requestor resource subresource namespace name = record {
  user = some requestor;
  verb = "impersonate";
  namespace = namespace;
  api_group = "";
  api_version = "";
  resource = resource;
  subresource = subresource;
  name = name;
  resource_request = true;
  path = "";
}

abbrev pub acting_as_attributes : User → ImpersonationRequest → Attributes
acting_as_attributes requestor (impersonation_service_account namespace name) =
    acting_as requestor "serviceaccounts" "" namespace name
acting_as_attributes requestor (impersonation_user name) = acting_as requestor "users" "" "" name
acting_as_attributes requestor (impersonation_group name) = acting_as requestor "groups" "" "" name
acting_as_attributes requestor (impersonation_user_extra key value) =
    acting_as requestor "userextras" key "" value

-- `err == nil && decision == authorizer.DecisionAllow`
abbrev pub is_allowed : Verdict → Bool
is_allowed v = elim v.error [
  | some e ↦ false
  | none ↦ elim v.decision [
    | decision_allow ↦ true
    | decision_deny ↦ false
    | decision_no_opinion ↦ false
  ]
]

-- The check of one request, which a nil authorizer passes.
abbrev pub is_permitted : Option (Attributes → Verdict) → Attributes → Bool
is_permitted none attributes = true
is_permitted (some authorize) attributes = is_allowed (authorize attributes)

abbrev pub reason_for : Option (Attributes → Verdict) → Attributes → String
reason_for none attributes = ""
reason_for (some authorize) attributes = (authorize attributes).reason

-- The loop of WithImpersonation: the user it builds, or the attributes that are refused with the reason.
pub data Checked : Type 0 where
  acting : Acting → Checked
  refused : Attributes → String → Checked

abbrev pub check_requests :
    Option (Attributes → Verdict) → User → Bool → List ImpersonationRequest → Acting → Checked
check_requests authorize requestor groups_specified [] u = acting u
check_requests authorize requestor groups_specified (r ∷ rs) u =
    let attributes = acting_as_attributes requestor r in
    let rest =
      check_requests authorize requestor groups_specified rs (act_as groups_specified r u) in
    if is_permitted authorize attributes
    then rest
    else refused attributes (reason_for authorize attributes)

-- The authenticated or the unauthenticated group is added to the groups of the user.
unfoldable pub complete_groups : String → List String → List String
complete_groups username groups =
    if not (username == anonymous)
    then (if any (λ g. g == all_authenticated || g == all_unauthenticated) groups
        then groups
        else groups ++ (all_authenticated ∷ []))
    else (if any (λ g. g == all_unauthenticated) groups
        then groups
        else groups ++ (all_unauthenticated ∷ []))

-- The headers that stay: the loop deletes while it ranges over the map.
abbrev pub delete_extra : String → Header → Header
delete_extra prefix [] = []
delete_extra prefix ((name, values) ∷ h) =
    let rest = delete_extra prefix h in
    if has_prefix name prefix then rest else (name, values) ∷ rest

unfoldable pub clear_headers : HeaderNames → Header → Header
clear_headers names h =
    delete_extra names.user_extra_prefix (delete names.group (delete names.user h))

-- What the filter answers: it calls the handler with a user and a header, or writes an error or a
-- refusal.
pub data Impersonated : Type 0 where
  served : Option User → Header → Impersonated
  internal_error : Error → Impersonated
  forbidden : Attributes → String → Impersonated

abbrev pub serve_as : HeaderNames → Header → Checked → Impersonated
serve_as names h (refused attributes reason) = forbidden attributes reason
serve_as names h (acting u) =
    served
      (some (record {
        name = u.username;
        uid = "";
        groups = complete_groups u.username u.groups;
        extra = u.user_extra;
      }))
      (clear_headers names h)

-- What follows, for the user of the context. No kind of request is unknown to the loop.
abbrev pub impersonate :
    HeaderNames
    → Option (Attributes → Verdict)
    → Option User
    → Header
    → Result (List ImpersonationRequest)
    → Impersonated
impersonate names authorize requestor h (err e) = internal_error e
impersonate names authorize requestor h (ok []) = served requestor h
impersonate names authorize none h (ok (r ∷ rs)) =
    internal_error (error_new "no user found for request")
impersonate names authorize (some u) h (ok (r ∷ rs)) =
    serve_as names h
      (check_requests authorize u (not (is_empty (values_of names.group h))) (r ∷ rs) nobody)

-- WithImpersonation
unfoldable pub with_impersonation :
    HeaderNames
    → (String → Option String)
    → Validators
    → Option (Attributes → Verdict)
    → Option User
    → Header
    → Impersonated
with_impersonation names path_unescape v authorize requestor h =
    impersonate names authorize requestor h (build_impersonation_requests names path_unescape v h)
