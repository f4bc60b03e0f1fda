-- ===== src/Authorizer.antt =====
-- pkg/authorization/authorizer: the attributes of a request (interfaces.go) and the rules that a
-- resolver lists (rule.go). The getters of AttributesRecord are the fields of the record.
use apiserver.Base.{String, Bool, List, Option, Error, ◌==◌, ◌||◌}
use apiserver.User.{User}

-- AttributesRecord; `user` is `none` for a nil user.
pub record Attributes : Type 0 where
  pub user : Option User
  pub verb : String
  pub namespace : String
  pub api_group : String
  pub api_version : String
  pub resource : String
  pub subresource : String
  pub name : String
  pub resource_request : Bool
  pub path : String

unfoldable pub is_read_only : Attributes → Bool
is_read_only a = a.verb == "get" || a.verb == "list" || a.verb == "watch"

pub data Decision : Type 0 where
  decision_deny decision_allow decision_no_opinion : Decision

-- The three results of Authorize.
pub record Verdict : Type 0 where
  pub decision : Decision
  pub reason : String
  pub error : Option Error

-- DefaultResourceRuleInfo
pub record ResourceRuleInfo : Type 0 where
  pub verbs : List String
  pub resources : List String
  pub resource_names : List String
  pub api_groups : List String

-- DefaultNonResourceRuleInfo
pub record NonResourceRuleInfo : Type 0 where
  pub verbs : List String
  pub non_resource_urls : List String

-- The four results of RulesFor.
pub record Rules : Type 0 where
  pub resource_rules : List ResourceRuleInfo
  pub non_resource_rules : List NonResourceRuleInfo
  pub incomplete : Bool
  pub error : Option Error
