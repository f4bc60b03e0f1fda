-- ===== src/Rbac/Authorize.antt =====
-- RBACAuthorizer: plugin/authorizer/rbac/rbac.go. The user is that of the request's attributes,
-- which the authorizer reads as not nil. The debug log of a denial is left out.
pub mod Laws
pub mod Granted
use apiserver.Base.{
  String, Bool, true, false, List, [], ◌∷◌, ◌++◌, Option, none, some, if◌then◌else◌, Error,
  Aggregates, ◌+s◌, quote, is_empty, is_blank, not, ◌==◌,
}
use apiserver.User.{User}
use apiserver.Authorizer.{
  Attributes, Decision, decision_allow, decision_no_opinion, Verdict, Rules, ResourceRuleInfo,
  NonResourceRuleInfo,
}
use apiserver.Rbac.{PolicyRule, Subject, service_account_kind}
use apiserver.Rbac.Match.{rule_allows}
use apiserver.Rbac.Resolver.{
  Store, Source, cluster_binding, role_binding, Visitor, visit_rules_for, rules_for, append_some,
}

-- describeSubject
pub describe_subject : Subject → String → String
unfolding quote
describe_subject s binding_namespace =
    if s.kind == service_account_kind
    then (if not (is_blank s.namespace)
        then s.kind +s " " +s quote (s.name +s "/" +s s.namespace)
        else s.kind +s " " +s quote (s.name +s "/" +s binding_namespace))
    else s.kind +s " " +s quote s.name

-- The String methods of the two describers.
pub describe : Source → String
unfolding describe_subject
describe (cluster_binding b subject) =
    "ClusterRoleBinding "
    +s quote b.name
    +s " of "
    +s b.role_ref.kind
    +s " "
    +s quote b.role_ref.name
    +s " to "
    +s describe_subject subject ""
describe (role_binding b subject) =
    "RoleBinding "
    +s quote (b.name +s "/" +s b.namespace)
    +s " of "
    +s b.role_ref.kind
    +s " "
    +s quote b.role_ref.name
    +s " to "
    +s describe_subject subject b.namespace

-- The fields of authorizingVisitor that change.
pub record Checking : Type 0 where
  pub allowed : Bool
  pub reason : String
  pub errors : List Error

module _ (a : Attributes) where
  source_text : Option Source → String
  unfolding describe
  source_text none = ""
  source_text (some source) = describe source

  rule_hit : Option PolicyRule → Bool
  rule_hit none = false
  rule_hit (some rule) = rule_allows a rule

  -- authorizingVisitor.visit
  unfoldable pub check : Visitor Checking
  unfolding source_text rule_hit
  check v source rule e =
      if rule_hit rule
      then (record v { allowed = true; reason = "RBAC: allowed by " +s source_text source }, false)
      else (record v { errors = append_some v.errors e }, true)

abbrev pub unchecked : Checking
unchecked = record { allowed = false; reason = ""; errors = [] }

reason_of : Aggregates → List Error → String
reason_of agg errors = elim (agg.new_aggregate errors) [
  | none ↦ ""
  | some e ↦ "RBAC: " +s agg.text e
]

denial : Aggregates → List Error → Verdict
unfolding reason_of
denial agg errors = record {
  decision = decision_no_opinion;
  reason = if not (is_empty errors) then reason_of agg errors else "";
  error = none;
}

unfoldable pub authorize : Aggregates → Store → User → Attributes → Verdict
unfolding denial check
authorize agg r user a =
    let v = visit_rules_for (check a) r user a.namespace unchecked in
    if v.allowed
    then record { decision = decision_allow; reason = v.reason; error = none }
    else denial agg v.errors

-- RBACAuthorizer.RulesFor: the loop over the rules of the resolver.
resource_infos : List PolicyRule → List ResourceRuleInfo
resource_infos [] = []
resource_infos (p ∷ ps) =
    let rest = resource_infos ps in
    if not (is_empty p.resources)
    then record {
      verbs = p.verbs;
      resources = p.resources;
      resource_names = p.resource_names;
      api_groups = p.api_groups;
    }
      ∷ rest
    else rest

non_resource_infos : List PolicyRule → List NonResourceRuleInfo
non_resource_infos [] = []
non_resource_infos (p ∷ ps) =
    let rest = non_resource_infos ps in
    if not (is_empty p.non_resource_urls)
    then record { verbs = p.verbs; non_resource_urls = p.non_resource_urls } ∷ rest
    else rest

unfoldable pub rule_infos_for : Aggregates → Store → User → String → Rules
unfolding resource_infos non_resource_infos
rule_infos_for agg r user namespace =
    let (policy_rules, e) = rules_for agg r user namespace in
    record {
      resource_rules = resource_infos policy_rules;
      non_resource_rules = non_resource_infos policy_rules;
      incomplete = false;
      error = e;
    }
