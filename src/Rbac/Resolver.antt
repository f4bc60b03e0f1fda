-- ===== src/Rbac/Resolver.antt =====
-- The rule resolver: plugin/authorizer/rbac/validation/rule.go. The listers and getters of the
-- stored objects are an interface; `StaticRoles` below is the implementation that the file has.
pub mod Events
pub mod Laws
pub mod References
pub mod Static
use Prim.Native.String.{[] as empty, ◌∷◌ as cons}
use apiserver.Base.{
  String, Bool, true, false, List, [], ◌∷◌, ◌++◌, map, Option, none, some, ℕ, zero, suc, any,
  is_blank, not, ◌==◌, ◌+s◌, if◌then◌else◌, Result, ok, err, Error, errorf, Aggregates, code,
  nat_eq, Char,
}
use apiserver.User.{User}
use apiserver.ServiceAccount.{matches_username}
use apiserver.Rbac.{
  PolicyRule, Subject, RoleRef, Role, RoleBinding, ClusterRole, ClusterRoleBinding, group_kind,
  service_account_kind, user_kind,
}

-- RoleGetter, RoleBindingLister, ClusterRoleGetter and ClusterRoleBindingLister.
pub record Store : Type 0 where
  pub get_role : String → String → Result Role
  pub list_role_bindings : String → Result (List RoleBinding)
  pub get_cluster_role : String → Result ClusterRole
  pub list_cluster_role_bindings : Result (List ClusterRoleBinding)

-- What a visitor is told about the origin of a rule: clusterRoleBindingDescriber and
-- roleBindingDescriber.
pub data Source : Type 0 where
  cluster_binding : ClusterRoleBinding → Subject → Source
  role_binding : RoleBinding → Subject → Source

rules_of_role : Result Role → Result (List PolicyRule)
rules_of_role (ok role) = ok role.rules
rules_of_role (err e) = err e

rules_of_cluster_role : Result ClusterRole → Result (List PolicyRule)
rules_of_cluster_role (ok role) = ok role.rules
rules_of_cluster_role (err e) = err e

unfoldable pub get_role_reference_rules : Store → RoleRef → String → Result (List PolicyRule)
unfolding rules_of_role rules_of_cluster_role
get_role_reference_rules r role_ref binding_namespace =
    if role_ref.kind == "Role"
    then rules_of_role (r.get_role binding_namespace role_ref.name)
    else if role_ref.kind == "ClusterRole"
    then rules_of_cluster_role (r.get_cluster_role role_ref.name)
    else err (errorf "unsupported role reference kind: %q" (role_ref.kind ∷ []))

has : List String → String → Bool
has set ele = any (λ s. s == ele) set

service_account_namespace : Subject → String → String
service_account_namespace subject namespace =
    if not (is_blank subject.namespace) then subject.namespace else namespace

unfoldable pub applies_to_user : User → Subject → String → Bool
unfolding has service_account_namespace
applies_to_user user subject namespace =
    if subject.kind == user_kind
    then user.name == subject.name
    else if subject.kind == group_kind
    then has user.groups subject.name
    else if subject.kind == service_account_kind
    then (let sa_namespace = service_account_namespace subject namespace in
        if is_blank sa_namespace
        then false
        else matches_username sa_namespace subject.name user.name)
    else false

-- appliesTo: the pair (i, true) is the index and the subject at it, (0, false) is `none`.
index_from : ℕ → User → List Subject → String → Option (ℕ × Subject)
index_from i user [] namespace = none
index_from i user (s ∷ subjects) namespace =
    if applies_to_user user s namespace
    then some (i, s)
    else index_from (suc i) user subjects namespace

unfoldable pub applies_to : User → List Subject → String → Option (ℕ × Subject)
unfolding index_from
applies_to user subjects namespace = index_from 0 user subjects namespace

-- A visitor changes its state and says whether to go on.
abbrev pub Visitor : Type 0 → Type 0
Visitor S = S → Option Source → Option PolicyRule → Option Error → S × Bool

-- What the two loops of VisitRulesFor read of a binding: both have the same body.
pub record Bound : Type 0 where
  pub subjects : List Subject
  pub role_ref : RoleRef
  pub describe : Subject → Source

abbrev pub cluster_bound : ClusterRoleBinding → Bound
cluster_bound b = record {
  subjects = b.subjects;
  role_ref = b.role_ref;
  describe = cluster_binding b;
}

abbrev pub role_bound : RoleBinding → Bound
role_bound b = record { subjects = b.subjects; role_ref = b.role_ref; describe = role_binding b }

module _ {S : Type 0} (visitor : Visitor S) where
  -- `for i := range rules`; the Boolean is false where the method returns.
  visit_rules : Source → S → List PolicyRule → S × Bool
  visit_rules source s [] = (s, true)
  visit_rules source s (rule ∷ rules) =
      let (s', more) = visitor s (some source) (some rule) none in
      let rest = visit_rules source s' rules in if more then rest else (s', false)

  -- A round of a loop over bindings: `continue`, an error, or the rules of the role.
  visit_binding : Store → User → String → S → Bound → S × Bool
  unfolding visit_rules
  visit_binding r user namespace s b = elim (applies_to user b.subjects namespace) [
    | none ↦ (s, true)
    | some (_, subject) ↦ elim (get_role_reference_rules r b.role_ref namespace) [
      | err e ↦ visitor s none none (some e)
      | ok rules ↦ visit_rules (b.describe subject) s rules
    ]
  ]

  visit_bindings : Store → User → String → S → List Bound → S × Bool
  unfolding visit_binding
  visit_bindings r user namespace s [] = (s, true)
  visit_bindings r user namespace s (b ∷ bs) =
      let (s', more) = visit_binding r user namespace s b in
      let rest = visit_bindings r user namespace s' bs in if more then rest else (s', false)

  -- One half of VisitRulesFor, over the result of its lister.
  visit_listed : Store → User → String → S → Result (List Bound) → S × Bool
  unfolding visit_bindings
  visit_listed r user namespace s (err e) = visitor s none none (some e)
  visit_listed r user namespace s (ok bs) = visit_bindings r user namespace s bs

abbrev pub cluster_bounds : Result (List ClusterRoleBinding) → Result (List Bound)
cluster_bounds (ok bs) = ok (map cluster_bound bs)
cluster_bounds (err e) = err e

abbrev pub role_bounds : Result (List RoleBinding) → Result (List Bound)
role_bounds (ok bs) = ok (map role_bound bs)
role_bounds (err e) = err e

-- The cluster role bindings first, then those of the namespace, if there is one.
unfoldable pub visit_rules_for : {S : Type 0} → Visitor S → Store → User → String → S → S
unfolding visit_listed
visit_rules_for visitor r user namespace s =
    let (s', more) =
      visit_listed visitor r user "" s (cluster_bounds r.list_cluster_role_bindings) in
    if more
    then (if not (is_blank namespace)
        then (visit_listed visitor r user namespace s'
            (role_bounds (r.list_role_bindings namespace))).0
        else s')
    else s'

-- ruleAccumulator
pub record RuleAccumulator : Type 0 where
  pub rules : List PolicyRule
  pub errors : List Error

abbrev pub append_some {ℓ} : {A : Type ℓ} → List A → Option A → List A
append_some xs none = xs
append_some xs (some x) = xs ++ x ∷ []

unfoldable pub accumulate : Visitor RuleAccumulator
accumulate s source rule e =
    (record { rules = append_some s.rules rule; errors = append_some s.errors e }, true)

unfoldable pub rules_for : Aggregates → Store → User → String → List PolicyRule × Option Error
unfolding visit_rules_for accumulate
rules_for agg r user namespace =
    let s = visit_rules_for accumulate r user namespace (record { rules = []; errors = [] }) in
    (s.rules, agg.new_aggregate s.errors)
