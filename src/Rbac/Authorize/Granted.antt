-- ===== src/Rbac/Authorize/Granted.antt =====
-- Which requests the stored roles and bindings grant, with no order, index or visitor.
use apiserver.Base.{
  String, Bool, true, false, List, [], ◌∷◌, map, Option, none, some, if◌then◌else◌, Aggregates,
  Result, ok, err, is_blank, is_blank_iff, not, ◌≡◌, ◌≢◌, ◌↔◌, ◌⊎◌, inl, inr, refl, sym, subst,
  arith, Any, any, Any-append_left, Any-append_right, Any-append_split, any_iff, Bool-cases, ℕ,
  Option-cases,
}
use apiserver.User.{User}
use apiserver.Authorizer.{Attributes, decision_deny, decision_allow}
use apiserver.Rbac.{PolicyRule, Subject, RoleRef, ClusterRoleBinding, RoleBinding}
use apiserver.Rbac.Match.{rule_allows, rules_allow}
use apiserver.Rbac.Match.Laws.{Allows, rule_allows_iff, rules_allow_iff}
use apiserver.Rbac.Resolver.{
  Store, Source, Bound, applies_to, applies_to_user, get_role_reference_rules, rules_for,
  cluster_bounds, role_bounds, cluster_bound, role_bound,
}
use apiserver.Rbac.Resolver.Events.{
  Event, found, failed, events, binding_events, bindings_events, listed_events, namespace_events,
}
use apiserver.Rbac.Resolver.Laws.{
  StandsFor, applies_to_user_iff, applies_to-none_iff, found_rules, failures, rules_for_lem,
}
use apiserver.Rbac.Resolver.References.{Resolves, get_role_reference_rules-Resolves_iff}
use apiserver.Rbac.Authorize.{authorize}
use apiserver.Rbac.Authorize.Laws.{first_allowed, verdict_of, authorize-first_allowed}

-- A binding grants the request: one of its subjects stands for the user, and its role is found and
-- has a rule that allows the request.
pub record Grants (r : Store) (user : User) (a : Attributes) (namespace : String)
    (subjects : List Subject) (role_ref : RoleRef) : Type 0 where
  pub stands : Any (StandsFor user namespace) subjects
  pub rules : List PolicyRule
  pub resolved : Resolves r role_ref namespace rules
  pub allows : Any (Allows a) rules

pub data Granted (r : Store) (user : User) (a : Attributes) : Type 0 where
  by_cluster_role_binding :
      (bs : List ClusterRoleBinding)
      → r.list_cluster_role_bindings ≡ ok bs
      → Any (λ b. Grants r user a "" b.subjects b.role_ref) bs
      → Granted r user a
  by_role_binding :
      (bs : List RoleBinding)
      → a.namespace ≢ ""
      → r.list_role_bindings a.namespace ≡ ok bs
      → Any (λ b. Grants r user a a.namespace b.subjects b.role_ref) bs
      → Granted r user a

module _ (a : Attributes) where
  abbrev EventAllows : Event → Type 0
  EventAllows (found source rule) = Allows a rule
  EventAllows (failed e) = ⊥

  Any-map_found :
      (f : Source) (rules : List PolicyRule)
      → Any EventAllows (map (found f) rules) ↔ Any (Allows a) rules
  Any-map_found f [] = (λ h. h, λ h. h)
  Any-map_found f (x ∷ xs) =
      let (to, from) = Any-map_found f xs in
      (
        λ h. elim h [ inl p ↦ inl p | inr q ↦ inr (to q) ],
        λ h. elim h [ inl p ↦ inl p | inr q ↦ inr (from q) ],
      )

  first_allowed_iff :
      (es : List Event)
      → ((first_allowed a es ≡ none) × (Any EventAllows es → ⊥))
        ⊎ ((source : Source) × (first_allowed a es ≡ some source) × Any EventAllows es)
  first_allowed_iff [] = inl (refl, λ h. h)
  first_allowed_iff (failed e ∷ es) = elim (first_allowed_iff es) [
    | inl (p, q) ↦ inl (p, λ h. elim h [ inl x ↦ absurd x | inr y ↦ q y ])
    | inr (s, p, q) ↦ inr (s, p, inr q)
  ]
  first_allowed_iff (found source rule ∷ es) = elim (Bool-cases (rule_allows a rule)) [
    | inl e ↦ rw e (inr (source, refl, inl ((rule_allows_iff a rule).0 e)))
    | inr e ↦ rw e (elim (first_allowed_iff es) [
      | inl (p, q) ↦ inl (
        p,
        λ h. elim h [ inl x ↦ absurd (ground (arith, (rule_allows_iff a rule).1 x)) | inr y ↦ q y ],
      )
      | inr (s, p, q) ↦ inr (s, p, inr q)
    ])
  ]

  found_rules_iff : (es : List Event) → Any EventAllows es ↔ Any (Allows a) (found_rules es)
  found_rules_iff [] = (λ h. h, λ h. h)
  found_rules_iff (failed e ∷ es) =
      let (to, from) = found_rules_iff es in
      (λ h. elim h [ inl x ↦ absurd x | inr y ↦ to y ], λ h. inr (from h))
  found_rules_iff (found source rule ∷ es) =
      let (to, from) = found_rules_iff es in
      (
        λ h. elim h [ inl x ↦ inl x | inr y ↦ inr (to y) ],
        λ h. elim h [ inl x ↦ inl x | inr y ↦ inr (from y) ],
      )

module _ (r : Store) (user : User) (a : Attributes) (namespace : String) where
  applies_to_stands :
      (ss : List Subject) (p : ℕ × Subject)
      → applies_to user ss namespace ≡ some p
      → Any (StandsFor user namespace) ss
  applies_to_stands ss p h = elim (Bool-cases (any (λ t. applies_to_user user t namespace) ss)) [
    | inl e ↦ (any_iff _ _ (applies_to_user_iff user namespace) ss).0 e
    | inr e ↦ absurd (ground (arith, (applies_to-none_iff user namespace ss).1 e))
  ]

  not_stands :
      (ss : List Subject)
      → applies_to user ss namespace ≡ none
      → Any (StandsFor user namespace) ss
      → ⊥
  not_stands ss h s = absurd (
      ground (
        arith,
        (applies_to-none_iff user namespace ss).0 h,
        (any_iff _ _ (applies_to_user_iff user namespace) ss).1 s,
      ))

  binding_sound :
      (b : Bound)
      → Any (EventAllows a) (binding_events r user namespace b)
      → Grants r user a namespace b.subjects b.role_ref
  binding_sound b =
      by_subject (applies_to user b.subjects namespace) refl
        (get_role_reference_rules r b.role_ref namespace) refl
    where
      by_subject :
          (o : Option (ℕ × Subject))
          → applies_to user b.subjects namespace ≡ o
          → (q : Result (List PolicyRule)) → get_role_reference_rules r b.role_ref namespace ≡ q
          → Any (EventAllows a) (elim o [
            | none ↦ []
            | some (_, subject) ↦ elim q [
              | err e ↦ failed e ∷ []
              | ok rules ↦ map (found (b.describe subject)) rules
            ]
          ])
          → Grants r user a namespace b.subjects b.role_ref
      by_subject none e q f h = absurd h
      by_subject (some (i, s)) e (err x) f h = elim h [ inl y ↦ absurd y | inr y ↦ absurd y ]
      by_subject (some (i, s)) e (ok rules) f h = record {
        stands = applies_to_stands b.subjects (i, s) e;
        rules = rules;
        resolved = (get_role_reference_rules-Resolves_iff r b.role_ref namespace rules).0 f;
        allows = (Any-map_found a (b.describe s) rules).0 h;
      }

  binding_complete :
      (b : Bound)
      → Grants r user a namespace b.subjects b.role_ref
      → Any (EventAllows a) (binding_events r user namespace b)
  binding_complete b g = elim (Option-cases (applies_to user b.subjects namespace)) [
    | inl e ↦ absurd (not_stands b.subjects e g.stands)
    | inr ((i, s), e) ↦
        rw
          (
            e,
            binding_events,
            (get_role_reference_rules-Resolves_iff r b.role_ref namespace g.rules).1 g.resolved,
          )
          ((Any-map_found a (b.describe s) g.rules).1 g.allows)
  ]

  bindings_sound :
      {B : Type 0} (bound : B → Bound) (bs : List B)
      → Any (EventAllows a) (bindings_events r user namespace (map bound bs))
      → Any (λ b. Grants r user a namespace (bound b).subjects (bound b).role_ref) bs
  bindings_sound bound [] h = absurd h
  bindings_sound bound (b ∷ bs) h =
      elim (Any-append_split (EventAllows a) (binding_events r user namespace (bound b)) _ h) [
        | inl x ↦ inl (binding_sound (bound b) x)
        | inr x ↦ inr (bindings_sound bound bs x)
      ]

  bindings_complete :
      {B : Type 0} (bound : B → Bound) (bs : List B)
      → Any (λ b. Grants r user a namespace (bound b).subjects (bound b).role_ref) bs
      → Any (EventAllows a) (bindings_events r user namespace (map bound bs))
  bindings_complete bound [] h = absurd h
  bindings_complete bound (b ∷ bs) (inl g) =
      Any-append_left (EventAllows a) _ _ (binding_complete (bound b) g)
  bindings_complete bound (b ∷ bs) (inr g) =
      Any-append_right (EventAllows a) (binding_events r user namespace (bound b)) _
        (bindings_complete bound bs g)

module _ (r : Store) (user : User) (a : Attributes) where
  cluster_sound :
      Any (EventAllows a) (listed_events r user "" (cluster_bounds r.list_cluster_role_bindings))
      → Granted r user a
  cluster_sound = by_list r.list_cluster_role_bindings refl
    where
      by_list :
          (l : Result (List ClusterRoleBinding))
          → r.list_cluster_role_bindings ≡ l
          → Any (EventAllows a) (listed_events r user "" (cluster_bounds l))
          → Granted r user a
      by_list (err e) q h = elim h [ inl y ↦ absurd y | inr y ↦ absurd y ]
      by_list (ok bs) q h =
          by_cluster_role_binding bs q (bindings_sound r user a "" cluster_bound bs h)

  namespace_sound : Any (EventAllows a) (namespace_events r user a.namespace) → Granted r user a
  namespace_sound = by_list (is_blank a.namespace) refl (r.list_role_bindings a.namespace) refl
    where
      by_list :
          (b : Bool)
          → is_blank a.namespace ≡ b
          → (l : Result (List RoleBinding)) → r.list_role_bindings a.namespace ≡ l
          → Any
              (EventAllows a)
              (if not b then listed_events r user a.namespace (role_bounds l) else [])
          → Granted r user a
      by_list true p l q h = absurd h
      by_list false p (err e) q h = elim h [ inl y ↦ absurd y | inr y ↦ absurd y ]
      by_list false p (ok bs) q h =
          by_role_binding bs (λ e. absurd (ground (arith, (is_blank_iff a.namespace).1 e))) q
            (bindings_sound r user a a.namespace role_bound bs h)

  events-Granted : Any (EventAllows a) (events r user a.namespace) → Granted r user a
  events-Granted h =
      elim (Any-append_split (EventAllows a)
        (listed_events r user "" (cluster_bounds r.list_cluster_role_bindings)) _ h) [
          | inl x ↦ cluster_sound x
          | inr x ↦ namespace_sound x
        ]

  Granted-events : Granted r user a → Any (EventAllows a) (events r user a.namespace)
  Granted-events (by_cluster_role_binding bs e g) =
      let listed : Any (EventAllows a)
          (listed_events r user "" (cluster_bounds r.list_cluster_role_bindings)) =
        subst (λ l. Any (EventAllows a) (listed_events r user "" (cluster_bounds l))) (sym e)
          (bindings_complete r user a "" cluster_bound bs g) in
      Any-append_left (EventAllows a)
        (listed_events r user "" (cluster_bounds r.list_cluster_role_bindings))
        (namespace_events r user a.namespace) listed
  Granted-events (by_role_binding bs n e g) =
      let listed : Any (EventAllows a) (namespace_events r user a.namespace) =
        elim (Bool-cases (is_blank a.namespace)) [
          | inl b ↦ absurd (n ((is_blank_iff a.namespace).0 b))
          | inr b ↦ rw b (
              subst (λ l. Any (EventAllows a) (listed_events r user a.namespace (role_bounds l)))
                (sym e) (bindings_complete r user a a.namespace role_bound bs g))
        ] in
      Any-append_right (EventAllows a)
        (listed_events r user "" (cluster_bounds r.list_cluster_role_bindings)) _ listed

-- The authorizer allows a request exactly when it is granted: by a cluster role binding, or, in a
-- request with a namespace, by a role binding that is listed for it. No error, and no order of
-- the bindings, changes that.
pub authorize-Granted_iff :
    (agg : Aggregates) (r : Store) (user : User) (a : Attributes)
    → ((authorize agg r user a).decision ≡ decision_allow) ↔ Granted r user a
authorize-Granted_iff agg r user a =
    rw (authorize-first_allowed agg r user a)
      (elim (first_allowed_iff a (events r user a.namespace)) [
        | inl (e, f) ↦ rw e ((λ h. cc), λ g. absurd (f (Granted-events r user a g)))
        | inr (s, e, g) ↦ rw e ((λ _. events-Granted r user a g), λ _. refl)
      ])

-- Short-circuiting loses nothing: the authorizer allows a request exactly when one of the rules that
-- RulesFor collects for the user and the namespace allows it.
pub authorize-rules_for :
    (agg : Aggregates) (r : Store) (user : User) (a : Attributes)
    → ((authorize agg r user a).decision ≡ decision_allow)
      ↔ (rules_allow a (rules_for agg r user a.namespace).0 ≡ true)
authorize-rules_for agg r user a =
    let (to, from) = authorize-Granted_iff agg r user a in
    let (any_to, any_from) = found_rules_iff a (events r user a.namespace) in
    let (allow_to, allow_from) = rules_allow_iff a (found_rules (events r user a.namespace)) in
    rw (rules_for_lem agg r user a.namespace) (
      λ h. allow_from (any_to (Granted-events r user a (to h))),
      λ h. from (events-Granted r user a (any_from (allow_to h))),
    )

-- The authorizer never denies: it allows or has no opinion, and its error is nil.
pub authorize-ne-deny :
    (agg : Aggregates) (r : Store) (user : User) (a : Attributes)
    → ((authorize agg r user a).decision ≢ decision_deny) × ((authorize agg r user a).error ≡ none)
authorize-ne-deny agg r user a =
    rw (authorize-first_allowed agg r user a)
      (by_first (first_allowed a (events r user a.namespace)))
  where
    by_first :
        (o : Option Source)
        → let v = verdict_of agg (failures (events r user a.namespace)) o in
          (v.decision ≢ decision_deny) × (v.error ≡ none)
    by_first none = ((λ e. cc), refl)
    by_first (some s) = ((λ e. cc), refl)
