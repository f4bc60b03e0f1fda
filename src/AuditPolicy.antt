-- ===== src/AuditPolicy.antt =====
-- The audit policy: pkg/apis/audit/type_v1.go, pkg/audit/policy/checker.go and enforce.go. Levels
-- and stages are texts, as in the source.
pub mod Match
pub mod Laws
mod Tests
use apiserver.Base.{
  String, Bool, true, false, List, [], ◌∷◌, ◌++◌, Option, none, some, map, any, if◌then◌else◌, ◌==◌,
  Has, Error, errorf, ◌↔◌,
}
use apiserver.Authorizer.{Attributes}

abbrev pub level_none : String
level_none = "None"

abbrev pub level_metadata : String
level_metadata = "Metadata"

abbrev pub level_request : String
level_request = "Request"

abbrev pub level_request_response : String
level_request_response = "RequestResponse"

pub record GroupResources : Type 0 where
  pub group : String
  pub resources : List String
  pub resource_names : List String

-- PolicyRule and Policy of package audit.
pub record AuditRule : Type 0 where
  pub level : String
  pub users : List String
  pub user_groups : List String
  pub verbs : List String
  pub resources : List GroupResources
  pub namespaces : List String
  pub non_resource_urls : List String
  pub omit_stages : List String

pub record AuditPolicy : Type 0 where
  pub rules : List AuditRule
  pub omit_stages : List String

-- The keys of a Go map into which the texts of a list were put, in the order, which the language
-- leaves open, in which a loop ranges over them.
pub record RangeKeys : Type 0 where
  pub keys : List String → List String
  pub keys-Has_iff : (xs : List String) (x : String) → Has x (keys xs) ↔ Has x xs

unfoldable pub union_stages : RangeKeys → List String → List String → List String
union_stages m policy_stages rule_stages = m.keys (policy_stages ++ rule_stages)

-- NewChecker changes the rules of the policy in place.
unfoldable pub new_checker : RangeKeys → AuditPolicy → AuditPolicy
unfolding union_stages
new_checker m policy = record {
  rules =
      map
        (λ (rule : AuditRule). record rule {
          omit_stages = union_stages m policy.omit_stages rule.omit_stages;
        })
        policy.rules;
  omit_stages = policy.omit_stages;
}

-- The fields of an event that EnforcePolicy reads or changes; `A` is the type of the objects.
pub record Event (A : Type 0) : Type 0 where
  pub level : String
  pub stage : String
  pub request_object : Option A
  pub response_object : Option A

enforce_level : {A : Type 0} → Event A → String → Option (Event A) × Option Error
enforce_level event level =
    if level == level_metadata
    then (
      some (record event { level = level_metadata; request_object = none; response_object = none }),
      none,
    )
    else if level == level_request
    then (some (record event { level = level_request; response_object = none }), none)
    else if level == level_request_response
    then (some (record event { level = level_request_response }), none)
    else if level == level_none
    then (none, none)
    else (none, some (errorf "level unknown: %s" (level ∷ [])))

unfoldable pub enforce_policy :
    {A : Type 0} → Event A → String → List String → Option (Event A) × Option Error
unfolding enforce_level
enforce_policy event level omit_stages =
    if any (λ stage. event.stage == stage) omit_stages
    then (none, none)
    else enforce_level event level
