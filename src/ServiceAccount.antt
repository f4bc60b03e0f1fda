-- ===== src/ServiceAccount.antt =====
-- pkg/authentication/serviceaccount/util.go: the user names of service accounts. The two name
-- checks of SplitUsername call golib's DNS validators, which are parameters: each returns the
-- list of what is wrong with a name.
pub mod Laws
mod Tests
use apiserver.Base.{
  String, Bool, List, if◌then◌else◌, has_prefix, cut, len, ◌+s◌, ◌==◌, not, is_empty, trim_prefix,
  split, Result, ok, err, Error, errorf, is_blank, ◌&&◌, [], ◌∷◌,
}
use apiserver.User.{User}

abbrev pub username_prefix : String
username_prefix = "system:serviceaccount:"

abbrev pub username_separator : String
username_separator = ":"

abbrev pub group_prefix : String
group_prefix = "system:serviceaccounts:"

abbrev pub all_service_accounts_group : String
all_service_accounts_group = "system:serviceaccounts"

unfoldable pub make_username : String → String → String
make_username namespace name = username_prefix +s namespace +s username_separator +s name

-- The early returns of MatchesUsername, each on what is left of the user name.
pub matches_username : String → String → String → Bool
matches_username namespace name username =
    if not (has_prefix username username_prefix)
    then Bool.false
    else let rest = cut (len username_prefix) username in
      if not (has_prefix rest namespace)
      then Bool.false
      else let rest' = cut (len namespace) rest in
        if not (has_prefix rest' username_separator)
        then Bool.false
        else cut (len username_separator) rest' == name

abbrev pub invalid_username_err : Error
invalid_username_err =
    errorf "Username must be in the form %s" (make_username "namespace" "name" ∷ [])

-- ValidateNamespaceName and ValidateServiceAccountName are called with `prefix` false, where they
-- are golib's IsDNS1123Label and IsDNS1123Subdomain.
module _ (is_dns1123_label is_dns1123_subdomain : String → List String) where
  -- `len(parts) != 2`, then the two checks.
  split_parts : List String → Result (String × String)
  split_parts (namespace ∷ (name ∷ [])) =
      if not (is_empty (is_dns1123_label namespace))
      then err invalid_username_err
      else if not (is_empty (is_dns1123_subdomain name))
      then err invalid_username_err
      else ok (namespace, name)
  split_parts _ = err invalid_username_err

  unfoldable pub split_username : String → Result (String × String)
  unfolding split_parts
  split_username username =
      if not (has_prefix username username_prefix)
      then err invalid_username_err
      else split_parts (split (trim_prefix username username_prefix) b':')

pub make_namespace_group_name : String → String
make_namespace_group_name namespace = group_prefix +s namespace

pub make_group_names : String → List String
unfolding make_namespace_group_name
make_group_names namespace = all_service_accounts_group ∷ (make_namespace_group_name namespace ∷ [])

pub record ServiceAccountInfo : Type 0 where
  pub name : String
  pub namespace : String
  pub uid : String
  pub pod_name : String
  pub pod_uid : String

abbrev pod_name_key : String
pod_name_key = "authentication.kubernetes.io/pod-name"

abbrev pod_uid_key : String
pod_uid_key = "authentication.kubernetes.io/pod-uid"

-- `extra` stays empty unless both the pod's name and its UID are known.
pub user_info : ServiceAccountInfo → User
unfolding make_group_names make_username
user_info sa = record {
  name = make_username sa.namespace sa.name;
  uid = sa.uid;
  groups = make_group_names sa.namespace;
  extra =
      if not (is_blank sa.pod_name) && not (is_blank sa.pod_uid)
      then (pod_name_key, sa.pod_name ∷ []) ∷ ((pod_uid_key, sa.pod_uid ∷ []) ∷ [])
      else [];
}
