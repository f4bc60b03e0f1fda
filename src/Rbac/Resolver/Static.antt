-- ===== src/Rbac/Resolver/Static.antt =====
-- StaticRoles: the resolver's objects from fixed lists (rule.go).
use apiserver.Base.{
  String, List, [], ◌∷◌, if◌then◌else◌, Result, ok, err, error_new, is_blank, is_blank_iff, ◌==◌,
  ◌&&◌, ◌≡◌, ◌≢◌, ◌↔◌, ◌⊎◌, inl, inr, ap, arith, Bool-cases, eq_iff, eq_refl, and_iff, sym, subst,
  ◌∙◌,
}
use apiserver.Rbac.{Role, RoleBinding, ClusterRole, ClusterRoleBinding}
use apiserver.Rbac.Resolver.{Store}

pub record StaticRoles : Type 0 where
  pub roles : List Role
  pub role_bindings : List RoleBinding
  pub cluster_roles : List ClusterRole
  pub cluster_role_bindings : List ClusterRoleBinding

find_role : String → String → List Role → Result Role
find_role namespace name [] = err (error_new "role not found")
find_role namespace name (role ∷ roles) =
    if role.namespace == namespace && role.name == name
    then ok role
    else find_role namespace name roles

unfoldable pub get_role : StaticRoles → String → String → Result Role
unfolding find_role
get_role r namespace name =
    if is_blank namespace
    then err (error_new "must provide namespace when getting role")
    else find_role namespace name r.roles

find_cluster_role : String → List ClusterRole → Result ClusterRole
find_cluster_role name [] = err (error_new "clusterrole not found")
find_cluster_role name (role ∷ roles) =
    if role.name == name then ok role else find_cluster_role name roles

unfoldable pub get_cluster_role : StaticRoles → String → Result ClusterRole
unfolding find_cluster_role
get_cluster_role r name = find_cluster_role name r.cluster_roles

bindings_in : String → List RoleBinding → List RoleBinding
bindings_in namespace [] = []
bindings_in namespace (b ∷ bs) =
    let rest = bindings_in namespace bs in if b.namespace == namespace then b ∷ rest else rest

pub list_role_bindings : StaticRoles → String → Result (List RoleBinding)
unfolding bindings_in
list_role_bindings r namespace =
    if is_blank namespace
    then err (error_new "must provide namespace when listing role bindings")
    else ok (bindings_in namespace r.role_bindings)

pub list_cluster_role_bindings : StaticRoles → Result (List ClusterRoleBinding)
list_cluster_role_bindings r = ok r.cluster_role_bindings

-- The resolver that newMockRuleResolver makes reads all four from the one object.
unfoldable pub static_store : StaticRoles → Store
unfolding get_role get_cluster_role list_role_bindings list_cluster_role_bindings
static_store r = record {
  get_role = get_role r;
  list_role_bindings = list_role_bindings r;
  get_cluster_role = get_cluster_role r;
  list_cluster_role_bindings = list_cluster_role_bindings r;
}

-- The first role of the namespace with the name.
pub data FirstRole (namespace name : String) (role : Role) : List Role → Type 0 where
  here_role :
      {roles : List Role}
      → role.namespace ≡ namespace
      → role.name ≡ name
      → FirstRole namespace name role (role ∷ roles)
  next_role :
      {other : Role} {roles : List Role}
      → (other.namespace ≢ namespace) ⊎ (other.name ≢ name)
      → FirstRole namespace name role roles
      → FirstRole namespace name role (other ∷ roles)

module _ (namespace name : String) (role : Role) where
  find_role_sound :
      (roles : List Role)
      → find_role namespace name roles ≡ ok role
      → FirstRole namespace name role roles
  unfolding find_role
  find_role_sound [] h = cc
  find_role_sound (r ∷ roles) h = elim (Bool-cases (r.namespace == namespace && r.name == name)) [
    | inl e ↦
        let (p, q) = (and_iff (r.namespace == namespace) _).0 e in
        let same : r ≡ role = ground arith in
        subst (λ x. FirstRole namespace name role (x ∷ roles)) (sym same)
          (here_role
            (ap (λ (x : Role). x.namespace) (sym same) ∙ (eq_iff r.namespace namespace).0 p)
            (ap (λ (x : Role). x.name) (sym same) ∙ (eq_iff r.name name).0 q))
    | inr e ↦
        next_role (ground (arith, eq_iff r.namespace namespace, eq_iff r.name name))
          (find_role_sound roles (rw e at h))
  ]

  find_role_complete :
      (roles : List Role)
      → FirstRole namespace name role roles
      → find_role namespace name roles ≡ ok role
  unfolding find_role
  find_role_complete [] f = elim f [ ]
  find_role_complete (r ∷ roles) (here_role p q) =
      rw (p, q) (ground (arith, eq_refl namespace, eq_refl name))
  find_role_complete (r ∷ roles) (next_role n f) =
      ground (arith, eq_iff r.namespace namespace, eq_iff r.name name, find_role_complete roles f)

-- GetRole finds exactly the first role of the namespace with the name, and only in a namespace that
-- is not empty.
pub get_role_iff :
    (r : StaticRoles) (namespace name : String) (role : Role)
    → (get_role r namespace name ≡ ok role)
      ↔ ((namespace ≢ "") × FirstRole namespace name role r.roles)
unfolding get_role
get_role_iff r namespace name role = elim (Bool-cases (is_blank namespace)) [
  | inl b ↦ rw b ((λ h. cc), λ (n, f). absurd (n ((is_blank_iff namespace).0 b)))
  | inr b ↦ rw b (
    λ h. (
      (λ e. absurd (ground (arith, (is_blank_iff namespace).1 e))),
      find_role_sound namespace name role r.roles h,
    ),
    λ (n, f). find_role_complete namespace name role r.roles f,
  )
]
