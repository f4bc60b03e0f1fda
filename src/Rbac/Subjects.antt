-- ===== src/Rbac/Subjects.antt =====
-- SubjectAccessEvaluator: plugin/authorizer/rbac/subject_locator.go.
pub mod Laws
use apiserver.Base.{
  String, Bool, true, false, List, [], ◌∷◌, ◌++◌, map, Option, if◌then◌else◌, Result, ok, err,
  Error, Aggregates, is_blank, not, ◌==◌, ◌&&◌, any,
}
use apiserver.User.{system_privileged_group}
use apiserver.Authorizer.{Attributes}
use apiserver.Rbac.{PolicyRule, Subject, group_kind, user_kind, group_name}
use apiserver.Rbac.Match.{rules_allow}
use apiserver.Rbac.Resolver.{Store, Bound, get_role_reference_rules, cluster_bounds, role_bounds}

unfoldable pub privileged_subjects : String → List Subject
privileged_subjects super_user =
    record {
      kind = group_kind;
      api_group = group_name;
      name = system_privileged_group;
      namespace = "";
    }
    ∷ (if not (is_blank super_user)
        then record { kind = user_kind; api_group = group_name; name = super_user; namespace = "" }
          ∷ []
        else [])

-- The two lists that AllowedSubjects builds up.
pub record Located : Type 0 where
  pub subjects : List Subject
  pub errors : List Error

-- A round of a loop over bindings. With an error the rules are nil, which allow nothing.
locate_rules : Attributes → List Subject → Located → Result (List PolicyRule) → Located
locate_rules a subjects l (err e) =
    let l' : Located = record l { errors = l.errors ++ e ∷ [] } in
    if rules_allow a [] then record l' { subjects = l'.subjects ++ subjects } else l'
locate_rules a subjects l (ok rules) =
    if rules_allow a rules then record l { subjects = l.subjects ++ subjects } else l

locate_bindings : Store → Attributes → String → Located → List Bound → Located
unfolding locate_rules
locate_bindings r a namespace l [] = l
locate_bindings r a namespace l (b ∷ bs) =
    locate_bindings r a namespace
      (locate_rules a b.subjects l (get_role_reference_rules r b.role_ref namespace)) bs

locate_listed : Store → Attributes → String → Located → Result (List Bound) → Located
unfolding locate_bindings
locate_listed r a namespace l (err e) = record l { errors = l.errors ++ e ∷ [] }
locate_listed r a namespace l (ok bs) = locate_bindings r a namespace l bs

-- `curr == subject` on the struct.
subject_eq : Subject → Subject → Bool
subject_eq s t =
    s.kind == t.kind && s.api_group == t.api_group && s.name == t.name && s.namespace == t.namespace

-- The loop that builds dedupedSubjects.
dedup_from : List Subject → List Subject → List Subject
unfolding subject_eq
dedup_from deduped [] = deduped
dedup_from deduped (s ∷ subjects) =
    dedup_from (if any (λ curr. subject_eq curr s) deduped then deduped else deduped ++ s ∷ [])
      subjects

unfoldable pub deduped_subjects : List Subject → List Subject
unfolding dedup_from
deduped_subjects subjects = dedup_from [] subjects

locate : Store → String → Attributes → Located
unfolding privileged_subjects locate_listed
locate r super_user a =
    let start : Located = record { subjects = privileged_subjects super_user; errors = [] } in
    let l = locate_listed r a "" start (cluster_bounds r.list_cluster_role_bindings) in
    if not (is_blank a.namespace)
    then locate_listed r a a.namespace l (role_bounds (r.list_role_bindings a.namespace))
    else l

-- The method ends with `return subjects`: what its last loop builds, `deduped_subjects` of them, is
-- not used.
unfoldable pub allowed_subjects :
    Aggregates → Store → String → Attributes → List Subject × Option Error
unfolding locate
allowed_subjects agg r super_user a =
    let l = locate r super_user a in (l.subjects, agg.new_aggregate l.errors)
