-- ===== src/Rbac/Tests.antt =====
-- One set of roles and bindings, runs of the resolver and the authorizer, and instances of their
-- theorems.
use apiserver.Base.{
  String, List, [], ◌∷◌, ◌≡◌, ◌↔◌, ◌⊎◌, refl, true, false, some, ℕ, Any, Error, ◌++◌, error_new, ap,
  Bool, Option, ◌+◌, ltb,
}
use apiserver.Authorizer.{decision_allow}
use apiserver.Samples.{sample_aggregates, alice, get_status, get_logs}
use apiserver.Rbac.{PolicyRule, Subject, RoleRef, Role}
use apiserver.Rbac.Match.{rule_allows, rules_allow, api_group_matches}
use apiserver.Rbac.Match.Laws.{Allows, rule_allows_iff}
use apiserver.Rbac.Resolver.{
  applies_to_user, applies_to, visit_rules_for, rules_for, accumulate, get_role_reference_rules,
}
use apiserver.Rbac.Resolver.Static.{StaticRoles, static_store}
use apiserver.Rbac.Resolver.Events.{events, run, visit_rules_for-run}
use apiserver.Rbac.Resolver.Laws.{StandsFor, applies_to_user_iff}
use apiserver.Rbac.Authorize.{authorize, rule_infos_for}
use apiserver.Rbac.Authorize.Granted.{Granted, authorize-Granted_iff, authorize-rules_for}
use apiserver.Rbac.Subjects.{allowed_subjects, deduped_subjects, privileged_subjects}
use apiserver.Rbac.Subjects.Laws.{
  listed_granted, namespace_granted, always_allowed, allowed_subjects_lem,
  authorize-allowed_subjects,
}
use apiserver.Rbac.Resolver.{cluster_bounds, Source}

-- Reads the status of any resource.
abbrev read_status : PolicyRule
read_status = record {
  verbs = "get" ∷ ("list" ∷ []);
  api_groups = [];
  resources = "*/status" ∷ [];
  resource_names = [];
  non_resource_urls = [];
}

abbrev read_logs : PolicyRule
read_logs = record {
  verbs = "*" ∷ [];
  api_groups = [];
  resources = [];
  resource_names = [];
  non_resource_urls = "/logs/*" ∷ [];
}

abbrev subject : String → String → Subject
subject kind name = record { kind = kind; api_group = ""; name = name; namespace = "" }

abbrev role_ref : String → String → RoleRef
role_ref kind name = record { api_group = ""; kind = kind; name = name }

abbrev roles : StaticRoles
roles = record {
  roles = record { name = "reader"; namespace = "shop"; rules = read_status ∷ [] } ∷ [];
  role_bindings =
      record {
        name = "dev-reads";
        namespace = "shop";
        subjects = subject "User" "bob" ∷ (subject "Group" "dev" ∷ []);
        role_ref = role_ref "Role" "reader";
      }
      ∷ [];
  cluster_roles = record { name = "logs"; rules = read_logs ∷ [] } ∷ [];
  cluster_role_bindings =
      record {
        name = "missing";
        subjects = subject "User" "alice" ∷ [];
        role_ref = role_ref "ClusterRole" "nowhere";
      }
      ∷ (record {
        name = "ops-logs";
        subjects = subject "Group" "ops" ∷ (subject "Group" "ops" ∷ []);
        role_ref = role_ref "ClusterRole" "logs";
      }
          ∷ []);
}

get_status_allowed :
    (authorize sample_aggregates (static_store roles) alice get_status).decision ≡ decision_allow
unfolding authorize static_store rule_allows applies_to applies_to_user get_role_reference_rules
    visit_rules_for
get_status_allowed = refl

get_logs_reason :
    (authorize sample_aggregates (static_store roles) alice get_logs).reason
    ≡ "RBAC: allowed by ClusterRoleBinding \"ops-logs\" of ClusterRole \"logs\" to Group \"ops\""
unfolding authorize static_store rule_allows applies_to applies_to_user get_role_reference_rules
    visit_rules_for
get_logs_reason = refl

rule_infos_test :
    (rule_infos_for sample_aggregates (static_store roles) alice "shop").error
    ≡ some (error_new "clusterrole not found")
unfolding rule_infos_for rules_for visit_rules_for accumulate static_store applies_to
    applies_to_user get_role_reference_rules
rule_infos_test = refl

api_group_matches_test :
    api_group_matches (record read_logs { api_groups = "apps" ∷ [] }) "" ≡ false
unfolding api_group_matches
api_group_matches_test = refl

-- What AllowedSubjects returns repeats a subject that its last loop would drop.
repeated_subject :
    let located = (allowed_subjects sample_aggregates (static_store roles) "" get_logs).0 in
    (located ≡ privileged_subjects "" ++ subject "Group" "ops" ∷ (subject "Group" "ops" ∷ []))
    × (deduped_subjects located ≡ privileged_subjects "" ++ subject "Group" "ops" ∷ [])
unfolding allowed_subjects deduped_subjects static_store rules_allow get_role_reference_rules
    privileged_subjects
repeated_subject = (refl, refl)

rule_allows_iff_example : (rule_allows get_logs read_logs ≡ true) ↔ Allows get_logs read_logs
rule_allows_iff_example = rule_allows_iff get_logs read_logs

applies_to_user_iff_example :
    (applies_to_user alice (subject "Group" "dev") "shop" ≡ true)
    ↔ StandsFor alice "shop" (subject "Group" "dev")
applies_to_user_iff_example = applies_to_user_iff alice "shop" (subject "Group" "dev")

abbrev readers : List Subject
readers = subject "User" "bob" ∷ (subject "Group" "dev" ∷ [])

second_reader : applies_to alice readers "shop" ≡ some (1, subject "Group" "dev")
unfolding applies_to applies_to_user
second_reader = refl

-- A visitor that counts the events and stops at the second.
abbrev two_events : ℕ → Option Source → Option PolicyRule → Option Error → ℕ × Bool
two_events n source rule e = (n + 1, ltb (n + 1) 2)

visit_rules_for-run_example :
    visit_rules_for two_events (static_store roles) alice "shop" 0
    ≡ (run two_events 0 (events (static_store roles) alice "shop")).0
visit_rules_for-run_example = visit_rules_for-run two_events (static_store roles) alice "shop" 0

abbrev reader : Role
reader = record { name = "reader"; namespace = "shop"; rules = read_status ∷ [] }

authorize-Granted_iff_example :
    ((authorize sample_aggregates (static_store roles) alice get_status).decision ≡ decision_allow)
    ↔ Granted (static_store roles) alice get_status
authorize-Granted_iff_example =
    authorize-Granted_iff sample_aggregates (static_store roles) alice get_status

authorize-rules_for_example :
    ((authorize sample_aggregates (static_store roles) alice get_logs).decision ≡ decision_allow)
    ↔ (rules_allow get_logs (rules_for sample_aggregates (static_store roles) alice "").0 ≡ true)
authorize-rules_for_example =
    authorize-rules_for sample_aggregates (static_store roles) alice get_logs

allowed_subjects_lem_example :
    (allowed_subjects sample_aggregates (static_store roles) "root" get_logs).0
    ≡ (always_allowed "root"
        ++ listed_granted
            (static_store roles)
            get_logs
            ""
            (cluster_bounds (static_store roles).list_cluster_role_bindings))
      ++ namespace_granted (static_store roles) get_logs
allowed_subjects_lem_example =
    ap (λ p. p.0) (allowed_subjects_lem sample_aggregates (static_store roles) "root" get_logs)

get_logs_allowed :
    (authorize sample_aggregates (static_store roles) alice get_logs).decision ≡ decision_allow
unfolding authorize static_store rule_allows applies_to applies_to_user get_role_reference_rules
    visit_rules_for
get_logs_allowed = refl

authorize-allowed_subjects_example :
    Any
      (λ s. StandsFor alice "" s ⊎ StandsFor alice "" s)
      (allowed_subjects sample_aggregates (static_store roles) "" get_logs).0
authorize-allowed_subjects_example =
    authorize-allowed_subjects sample_aggregates (static_store roles) "" alice get_logs
      get_logs_allowed
