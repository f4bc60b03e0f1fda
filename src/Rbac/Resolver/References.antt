-- ===== src/Rbac/Resolver/References.antt =====
-- The rules of a role reference: GetRoleReferenceRules of plugin/authorizer/rbac/validation/rule.go.
use apiserver.Base.{
  String, List, Result, ok, err, ◌==◌, eq_iff, if_true, if_ind, ok_inj, ◌≡◌, ◌↔◌, ◌⊎◌, refl, ap,
  ◌∙◌, inl, inr,
}
use apiserver.Rbac.{PolicyRule, RoleRef, Role, ClusterRole}
use apiserver.Rbac.Resolver.{Store, rules_of_role, rules_of_cluster_role, get_role_reference_rules}

-- The reference names a role in the namespace of its binding, or a cluster role, which has these
-- rules.
pub Resolves : Store → RoleRef → String → List PolicyRule → Type 0
Resolves r role_ref namespace rules =
    ((role_ref.kind ≡ "Role")
      × ((role : Role) × (r.get_role namespace role_ref.name ≡ ok role) × (role.rules ≡ rules)))
    ⊎ ((role_ref.kind ≡ "ClusterRole")
        × ((role : ClusterRole) × (r.get_cluster_role role_ref.name ≡ ok role)
            × (role.rules ≡ rules)))

rules_of_role-ok :
    (x : Result Role) (rules : List PolicyRule)
    → rules_of_role x ≡ ok rules
    → (role : Role) × (x ≡ ok role) × (role.rules ≡ rules)
unfolding rules_of_role
rules_of_role-ok (ok role) rules h = (role, refl, ok_inj h)
rules_of_role-ok (err e) rules h = cc

rules_of_cluster_role-ok :
    (x : Result ClusterRole) (rules : List PolicyRule)
    → rules_of_cluster_role x ≡ ok rules
    → (role : ClusterRole) × (x ≡ ok role) × (role.rules ≡ rules)
unfolding rules_of_cluster_role
rules_of_cluster_role-ok (ok role) rules h = (role, refl, ok_inj h)
rules_of_cluster_role-ok (err e) rules h = cc

pub get_role_reference_rules-Resolves_iff :
    (r : Store) (role_ref : RoleRef) (namespace : String) (rules : List PolicyRule)
    → (get_role_reference_rules r role_ref namespace ≡ ok rules)
      ↔ Resolves r role_ref namespace rules
unfolding get_role_reference_rules Resolves rules_of_role rules_of_cluster_role
get_role_reference_rules-Resolves_iff r role_ref namespace rules = (to, from)
  where
    to :
        get_role_reference_rules r role_ref namespace ≡ ok rules
        → Resolves r role_ref namespace rules
    to =
        if_ind (λ q. q ≡ ok rules → Resolves r role_ref namespace rules) (role_ref.kind == "Role")
          (λ t h. inl ((eq_iff _ _).0 t, rules_of_role-ok _ rules h))
          (λ t.
            if_ind (λ q. q ≡ ok rules → Resolves r role_ref namespace rules)
              (role_ref.kind == "ClusterRole")
              (λ s h. inr ((eq_iff _ _).0 s, rules_of_cluster_role-ok _ rules h)) (λ s h. cc))

    from :
        Resolves r role_ref namespace rules
        → get_role_reference_rules r role_ref namespace ≡ ok rules
    from (inl (k, (role, g, e))) =
        if_true (role_ref.kind == "Role") _ _ ((eq_iff _ _).1 k) ∙ ap rules_of_role g ∙ ap ok e
    from (inr (k, (role, g, e))) = rw k (ap rules_of_cluster_role g ∙ ap ok e)
