-- ===== src/Rbac.antt =====
-- Role-based access control: the objects of pkg/apis/rbac/types.go. Of api.ObjectMeta, which
-- golib declares, the name and the namespace are kept, since the code reads no other field; a
-- ClusterRole's AggregationRule, which no modelled code reads, is left out.
pub mod Match
pub mod Resolver
pub mod Authorize
pub mod Subjects
mod Tests
use apiserver.Base.{String, List}

abbrev pub verb_all : String
verb_all = "*"

abbrev pub api_group_all : String
api_group_all = "*"

abbrev pub resource_all : String
resource_all = "*"

abbrev pub non_resource_all : String
non_resource_all = "*"

abbrev pub group_kind : String
group_kind = "Group"

abbrev pub service_account_kind : String
service_account_kind = "ServiceAccount"

abbrev pub user_kind : String
user_kind = "User"

abbrev pub group_name : String
group_name = "rbac.authorization.k8s.io"

pub record PolicyRule : Type 0 where
  pub verbs : List String
  pub api_groups : List String
  pub resources : List String
  pub resource_names : List String
  pub non_resource_urls : List String

pub record Subject : Type 0 where
  pub kind : String
  pub api_group : String
  pub name : String
  pub namespace : String

pub record RoleRef : Type 0 where
  pub api_group : String
  pub kind : String
  pub name : String

pub record Role : Type 0 where
  pub name : String
  pub namespace : String
  pub rules : List PolicyRule

pub record RoleBinding : Type 0 where
  pub name : String
  pub namespace : String
  pub subjects : List Subject
  pub role_ref : RoleRef

pub record ClusterRole : Type 0 where
  pub name : String
  pub rules : List PolicyRule

pub record ClusterRoleBinding : Type 0 where
  pub name : String
  pub subjects : List Subject
  pub role_ref : RoleRef
