-- ===== src/Abac.antt =====
-- Attribute-based access control: plugin/authorizer/abac/abac.go and api/types.go. Reading a policy
-- file is left out; a policy list is what the reader returns.
pub mod Laws
pub mod Validation
pub mod Covering
mod Tests
use apiserver.Base.{
  String, Bool, true, false, List, [], ◌∷◌, Option, none, some, if◌then◌else◌, ◌==◌, ◌&&◌, ◌||◌,
  not, is_blank, any, has_suffix, has_prefix, trim_right, Error, error_new,
}
use apiserver.User.{User}
use apiserver.Authorizer.{
  Attributes, is_read_only, Verdict, decision_allow, decision_no_opinion, Rules, ResourceRuleInfo,
  NonResourceRuleInfo,
}

pub record PolicySpec : Type 0 where
  pub user : String
  pub group : String
  pub readonly : Bool
  pub api_group : String
  pub resource : String
  pub namespace : String
  pub non_resource_path : String

-- Policy; its kind is read by no code.
pub record Policy : Type 0 where
  pub kind : String
  pub spec : PolicySpec
  pub open spec use *

-- Policy.Validate
pub validate : Policy → Option Error
validate p =
    if p.user == "" && p.group == "" then some (error_new "user and group both empty") else none

-- PolicySpec.ValidateV0 changes the specification in place, and always returns nil.
pub validate_v0 : PolicySpec → PolicySpec
validate_v0 p = record {
  user = p.user;
  group = if p.user == "" && p.group == "" then "system:authenticated" else p.group;
  readonly = p.readonly;
  api_group = "*";
  resource = if p.resource == "" then "*" else p.resource;
  namespace = if p.namespace == "" then "*" else p.namespace;
  non_resource_path = p.non_resource_path;
}

-- The second half of subjectMatches, with what the first half has found: a group that the policy
-- names must match.
group_matches : Policy → List String → Bool → Bool
group_matches p groups matched =
    if not (is_blank p.group)
    then (if p.group == "*" then true else any (λ g. p.group == g) groups)
    else matched

user_matches : Policy → User → Bool
unfolding group_matches
user_matches p user =
    if not (is_blank p.user)
    then (if p.user == "*"
        then group_matches p user.groups true
        else if p.user == user.name
        then group_matches p user.groups true
        else false)
    else group_matches p user.groups false

pub subject_matches : Policy → Option User → Bool
unfolding user_matches
subject_matches p none = false
subject_matches p (some user) = user_matches p user

pub verb_matches : Policy → Attributes → Bool
verb_matches p a = is_read_only a || not p.readonly

pub non_resource_matches : Policy → Attributes → Bool
non_resource_matches p a =
    if a.resource_request
    then false
    else p.non_resource_path == "*"
      || p.non_resource_path == a.path
      || has_suffix p.non_resource_path "*"
        && has_prefix a.path (trim_right p.non_resource_path b'*')

pub resource_matches : Policy → Attributes → Bool
resource_matches p a =
    a.resource_request
    && (p.namespace == "*" || p.namespace == a.namespace)
    && (p.resource == "*" || p.resource == a.resource)
    && (p.api_group == "*" || p.api_group == a.api_group)

pub matches : Policy → Attributes → Bool
unfolding subject_matches verb_matches resource_matches non_resource_matches
matches p a =
    if subject_matches p a.user
    then (if verb_matches p a then resource_matches p a || non_resource_matches p a else false)
    else false

-- PolicyList.Authorize
pub authorize : List Policy → Attributes → Verdict
unfolding matches
authorize [] a = record {
  decision = decision_no_opinion;
  reason = "No policy matched.";
  error = none;
}
authorize (p ∷ pl) a =
    if matches p a
    then record { decision = decision_allow; reason = ""; error = none }
    else authorize pl a

get_verbs : Bool → List String
get_verbs is_readonly = if is_readonly then "get" ∷ ("list" ∷ ("watch" ∷ [])) else "*" ∷ []

-- The two tests of RulesFor, before the lists are extended.
rules_apply : Policy → Option User → String → Bool
rules_apply p user namespace =
    if subject_matches p user then p.namespace == "*" || p.namespace == namespace else false

resource_infos : List Policy → Option User → String → List ResourceRuleInfo
unfolding rules_apply get_verbs
resource_infos [] user namespace = []
resource_infos (p ∷ pl) user namespace =
    let rest = resource_infos pl user namespace in
    if rules_apply p user namespace && not (is_blank p.resource)
    then record {
      verbs = get_verbs p.readonly;
      resources = p.resource ∷ [];
      resource_names = [];
      api_groups = p.api_group ∷ [];
    }
      ∷ rest
    else rest

non_resource_infos : List Policy → Option User → String → List NonResourceRuleInfo
unfolding rules_apply get_verbs
non_resource_infos [] user namespace = []
non_resource_infos (p ∷ pl) user namespace =
    let rest = non_resource_infos pl user namespace in
    if rules_apply p user namespace && not (is_blank p.non_resource_path)
    then record { verbs = get_verbs p.readonly; non_resource_urls = p.non_resource_path ∷ [] }
      ∷ rest
    else rest

-- PolicyList.RulesFor
pub rules_for : List Policy → Option User → String → Rules
unfolding resource_infos non_resource_infos
rules_for pl user namespace = record {
  resource_rules = resource_infos pl user namespace;
  non_resource_rules = non_resource_infos pl user namespace;
  incomplete = false;
  error = none;
}
