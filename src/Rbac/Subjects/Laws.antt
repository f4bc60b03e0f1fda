-- ===== src/Rbac/Subjects/Laws.antt =====
-- The located subjects against the bindings, and against the authorizer.
use apiserver.Base.{
  String, true, List, [], ◌∷◌, ◌++◌, map, if◌then◌else◌, Result, ok, err, Error, Aggregates,
  is_blank, is_blank_iff, not, ◌≡◌, refl, sym, subst, ◌∙◌, ap, arith, Any, Any-append_left,
  Any-append_right, Any-mono, ◌⊎◌, inl, inr, Bool-cases, append-nil, append_assoc,
}
use Prim.Native.String.{[] as nil, ◌∷◌ as cons}
use apiserver.User.{User}
use apiserver.Authorizer.{Attributes, decision_allow}
use apiserver.Rbac.{PolicyRule, Subject}
use apiserver.Rbac.Match.{rules_allow}
use apiserver.Rbac.Match.Laws.{rules_allow_iff}
use apiserver.Rbac.Resolver.{
  Store, Bound, get_role_reference_rules, cluster_bounds, role_bounds, cluster_bound, role_bound,
}
use apiserver.Rbac.Resolver.Laws.{StandsFor}
use apiserver.Rbac.Resolver.References.{get_role_reference_rules-Resolves_iff}
use apiserver.Rbac.Authorize.{authorize}
use apiserver.Rbac.Authorize.Granted.{
  Grants, Granted, by_cluster_role_binding, by_role_binding, authorize-Granted_iff,
}
use apiserver.Rbac.Subjects.{
  Located, privileged_subjects, locate_rules, locate_bindings, locate_listed, allowed_subjects,
}

-- What a binding contributes: its subjects, if its role is found and allows the request.
abbrev pub granted_by : Attributes → List Subject → Result (List PolicyRule) → List Subject
granted_by a subjects (err e) = []
granted_by a subjects (ok rules) = if rules_allow a rules then subjects else []

abbrev pub unresolved : Result (List PolicyRule) → List Error
unresolved (err e) = e ∷ []
unresolved (ok rules) = []

module _ (r : Store) (a : Attributes) (namespace : String) where
  abbrev pub all_granted : List Bound → List Subject
  all_granted [] = []
  all_granted (b ∷ bs) =
      granted_by a b.subjects (get_role_reference_rules r b.role_ref namespace) ++ all_granted bs

  abbrev pub all_unresolved : List Bound → List Error
  all_unresolved [] = []
  all_unresolved (b ∷ bs) =
      unresolved (get_role_reference_rules r b.role_ref namespace) ++ all_unresolved bs

  abbrev pub listed_granted : Result (List Bound) → List Subject
  listed_granted (err e) = []
  listed_granted (ok bs) = all_granted bs

  abbrev pub listed_unresolved : Result (List Bound) → List Error
  listed_unresolved (err e) = e ∷ []
  listed_unresolved (ok bs) = all_unresolved bs

  locate_rules_lem :
      (subjects : List Subject) (l : Located) (q : Result (List PolicyRule))
      → locate_rules a subjects l q ≡ record {
        subjects = l.subjects ++ granted_by a subjects q;
        errors = l.errors ++ unresolved q;
      }
  unfolding locate_rules
  locate_rules_lem subjects l (err e) = elim (Bool-cases (rules_allow a [])) [
    | inl h ↦ absurd ((rules_allow_iff a []).0 h)
    | inr h ↦ rw (h, append-nil l.subjects) refl
  ]
  locate_rules_lem subjects l (ok rules) = elim (Bool-cases (rules_allow a rules)) [
    | inl h ↦ rw (h, append-nil l.errors) refl
    | inr h ↦ rw (h, append-nil l.errors, append-nil l.subjects) refl
  ]

  locate_bindings_lem :
      (l : Located) (bs : List Bound)
      → locate_bindings r a namespace l bs
        ≡ record { subjects = l.subjects ++ all_granted bs; errors = l.errors ++ all_unresolved bs }
  unfolding locate_bindings
  locate_bindings_lem l [] = rw (append-nil l.errors, append-nil l.subjects) refl
  locate_bindings_lem l (b ∷ bs) =
      let q = get_role_reference_rules r b.role_ref namespace in
      ap (λ m. locate_bindings r a namespace m bs) (locate_rules_lem b.subjects l q)
      ∙ locate_bindings_lem
          (record {
            subjects = l.subjects ++ granted_by a b.subjects q;
            errors = l.errors ++ unresolved q;
          })
          bs
      ∙ (simp append_assoc)

  locate_listed_lem :
      (l : Located) (q : Result (List Bound))
      → locate_listed r a namespace l q ≡ record {
        subjects = l.subjects ++ listed_granted q;
        errors = l.errors ++ listed_unresolved q;
      }
  unfolding locate_listed
  locate_listed_lem l (err e) = rw (append-nil l.subjects) refl
  locate_listed_lem l (ok bs) = locate_bindings_lem l bs

abbrev pub namespace_granted : Store → Attributes → List Subject
namespace_granted r a =
    if not (is_blank a.namespace)
    then listed_granted r a a.namespace (role_bounds (r.list_role_bindings a.namespace))
    else []

abbrev pub namespace_unresolved : Store → Attributes → List Error
namespace_unresolved r a =
    if not (is_blank a.namespace)
    then listed_unresolved r a a.namespace (role_bounds (r.list_role_bindings a.namespace))
    else []

-- The group "system:masters".
abbrev pub masters : Subject
masters = record {
  kind = "Group";
  api_group = "rbac.authorization.k8s.io";
  name = "system:masters";
  namespace = "";
}

-- That group, and the super user if there is one.
abbrev pub always_allowed : String → List Subject
always_allowed nil = masters ∷ []
always_allowed (cons c name) =
    masters
    ∷ (record {
      kind = "User";
      api_group = "rbac.authorization.k8s.io";
      name = cons c name;
      namespace = "";
    }
        ∷ [])

privileged_subjects-always_allowed :
    (super_user : String) → privileged_subjects super_user ≡ always_allowed super_user
unfolding privileged_subjects
privileged_subjects-always_allowed nil = refl
privileged_subjects-always_allowed (cons c name) = refl

allowed_subjects-located :
    (agg : Aggregates) (r : Store) (super_user : String) (a : Attributes)
    → allowed_subjects agg r super_user a ≡ (
      (privileged_subjects super_user
            ++ listed_granted r a "" (cluster_bounds r.list_cluster_role_bindings))
          ++ namespace_granted r a,
      agg.new_aggregate (
          listed_unresolved r a "" (cluster_bounds r.list_cluster_role_bindings)
          ++ namespace_unresolved r a),
    )
unfolding allowed_subjects
allowed_subjects-located agg r super_user a =
    ap (λ (l : Located). (l.subjects, agg.new_aggregate l.errors))
      (elim (Bool-cases (is_blank a.namespace)) [
        | inl b ↦
            rw (b, append_nil_pair, append-nil (listed_unresolved r a "" clusters))
              (locate_listed_lem r a "" start clusters)
        | inr b ↦ rw b (
            ap (λ l. locate_listed r a a.namespace l namespaced)
              (locate_listed_lem r a "" start clusters)
            ∙ locate_listed_lem r a a.namespace _ namespaced)
      ])
  where
    clusters : Result (List Bound)
    clusters = cluster_bounds r.list_cluster_role_bindings

    namespaced : Result (List Bound)
    namespaced = role_bounds (r.list_role_bindings a.namespace)

    start : Located
    start = record { subjects = privileged_subjects super_user; errors = [] }

    append_nil_pair :
        (privileged_subjects super_user ++ listed_granted r a "" clusters) ++ []
        ≡ privileged_subjects super_user ++ listed_granted r a "" clusters
    append_nil_pair = append-nil _

-- AllowedSubjects returns the group "system:masters" and the super user if there is one, then the
-- subjects of every cluster role binding and then of every role binding of the namespace whose
-- role allows the request, one after the other with every repetition, and the aggregate of the
-- errors of the listers and the roles.
pub allowed_subjects_lem :
    (agg : Aggregates) (r : Store) (super_user : String) (a : Attributes)
    → allowed_subjects agg r super_user a ≡ (
      (always_allowed super_user
            ++ listed_granted r a "" (cluster_bounds r.list_cluster_role_bindings))
          ++ namespace_granted r a,
      agg.new_aggregate (
          listed_unresolved r a "" (cluster_bounds r.list_cluster_role_bindings)
          ++ namespace_unresolved r a),
    )
allowed_subjects_lem agg r super_user a = allowed_subjects-located agg r super_user a ∙ (λ i. (
  (privileged_subjects-always_allowed super_user i
        ++ listed_granted r a "" (cluster_bounds r.list_cluster_role_bindings))
      ++ namespace_granted r a,
  agg.new_aggregate (
      listed_unresolved r a "" (cluster_bounds r.list_cluster_role_bindings)
      ++ namespace_unresolved r a),
))

module _ (r : Store) (user : User) (a : Attributes) (namespace : String) where
  granted-Any :
      (ss : List Subject) (q : Result (List PolicyRule)) (rules : List PolicyRule)
      → q ≡ ok rules
      → rules_allow a rules ≡ true
      → Any (StandsFor user namespace) ss
      → Any (StandsFor user namespace) (granted_by a ss q)
  granted-Any ss (err e) rules p h s = absurd (ground arith)
  granted-Any ss (ok rules') rules p h s =
      let same : rules' ≡ rules = ground arith in rw (same, h) s

  all_granted-Any :
      {B : Type 0} (bound : B → Bound) (bs : List B)
      → Any (λ b. Grants r user a namespace (bound b).subjects (bound b).role_ref) bs
      → Any (StandsFor user namespace) (all_granted r a namespace (map bound bs))
  all_granted-Any bound [] h = absurd h
  all_granted-Any bound (b ∷ bs) (inl g) = Any-append_left (StandsFor user namespace) _ _ (
      granted-Any (bound b).subjects (get_role_reference_rules r (bound b).role_ref namespace)
        g.rules
        ((get_role_reference_rules-Resolves_iff r (bound b).role_ref namespace g.rules).1
          g.resolved)
        ((rules_allow_iff a g.rules).1 g.allows) g.stands)
  all_granted-Any bound (b ∷ bs) (inr g) =
      Any-append_right (StandsFor user namespace)
        (granted_by a (bound b).subjects (get_role_reference_rules r (bound b).role_ref namespace))
        _ (all_granted-Any bound bs g)

-- A user whom the authorizer allows is located: one of the subjects that AllowedSubjects returns
-- stands for the user, across the cluster or in the namespace of the request.
pub authorize-allowed_subjects :
    (agg : Aggregates) (r : Store) (super_user : String) (user : User) (a : Attributes)
    → (authorize agg r user a).decision ≡ decision_allow
    → Any
        (λ s. StandsFor user "" s ⊎ StandsFor user a.namespace s)
        (allowed_subjects agg r super_user a).0
authorize-allowed_subjects agg r super_user user a h =
    rw (allowed_subjects-located agg r super_user a)
      (located ((authorize-Granted_iff agg r user a).0 h))
  where
    P : Subject → Type 0
    P s = StandsFor user "" s ⊎ StandsFor user a.namespace s

    front : List Subject
    front =
        privileged_subjects super_user
        ++ listed_granted r a "" (cluster_bounds r.list_cluster_role_bindings)

    located : Granted r user a → Any P (front ++ namespace_granted r a)
    located (by_cluster_role_binding bs e g) = Any-append_left P front _ (
        Any-append_right P (privileged_subjects super_user) _ (
          subst (λ l. Any P (listed_granted r a "" (cluster_bounds l))) (sym e)
            (Any-mono (StandsFor user "") P (λ s x. inl x) _
              (all_granted-Any r user a "" cluster_bound bs g))))
    located (by_role_binding bs n e g) =
        Any-append_right P front _ (elim (Bool-cases (is_blank a.namespace)) [
          | inl b ↦ absurd (n ((is_blank_iff a.namespace).0 b))
          | inr b ↦ rw b (
              subst (λ l. Any P (listed_granted r a a.namespace (role_bounds l))) (sym e)
                (Any-mono (StandsFor user a.namespace) P (λ s x. inr x) _
                  (all_granted-Any r user a a.namespace role_bound bs g)))
        ])
