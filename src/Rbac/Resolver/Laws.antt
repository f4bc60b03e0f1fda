-- ===== src/Rbac/Resolver/Laws.antt =====
-- Which subjects a user matches, the index that appliesTo returns, and what RulesFor collects.
use apiserver.Base.{
  String, Bool, true, false, List, [], ◌∷◌, ◌++◌, Option, none, some, is_blank, is_blank_iff, ℕ,
  suc, ◌+◌, if◌then◌else◌, Error, ◌≡◌, refl, arith, inl, inr, Bool-cases, ap, ◌∙◌, Has, any_iff,
  ◌↔◌, ◌≢◌, eq_iff, append_assoc, append-nil, Aggregates, ◌==◌, eq_refl, any, zero-add, blank_of_ne,
}
use apiserver.User.{User}
use apiserver.ServiceAccount.{make_username, matches_username}
use apiserver.ServiceAccount.Laws.{matches_username_iff}
use apiserver.Rbac.{PolicyRule, Subject, group_kind, service_account_kind, user_kind}
use apiserver.Rbac.Resolver.{
  Store, applies_to_user, applies_to, index_from, accumulate, RuleAccumulator, rules_for,
  service_account_namespace, has,
}
use apiserver.Rbac.Resolver.Events.{Event, found, failed, events, run, visit_rules_for-run}

-- The subject stands for the user in the namespace: by name, by one of the user's groups, or as a
-- service account, whose own namespace, if it names one, goes before that of the binding.
pub data StandsFor (user : User) (namespace : String) (s : Subject) : Type 0 where
  by_name : s.kind ≡ user_kind → user.name ≡ s.name → StandsFor user namespace s
  by_group : s.kind ≡ group_kind → Has s.name user.groups → StandsFor user namespace s
  by_own_account :
      s.kind ≡ service_account_kind
      → s.namespace ≢ ""
      → user.name ≡ make_username s.namespace s.name
      → StandsFor user namespace s
  by_local_account :
      s.kind ≡ service_account_kind
      → s.namespace ≡ ""
      → namespace ≢ ""
      → user.name ≡ make_username namespace s.name
      → StandsFor user namespace s

has_iff : (set : List String) (ele : String) → (has set ele ≡ true) ↔ Has ele set
unfolding has
has_iff set ele = any_iff (λ s. s == ele) (λ s. s ≡ ele) (λ s. eq_iff s ele) set

not_blank : (s : String) → is_blank s ≡ false → s ≢ ""
not_blank s h e = absurd (ground (arith, (is_blank_iff s).1 e))

module _ (user : User) (namespace : String) (s : Subject) where
  account_sound :
      s.kind ≡ service_account_kind
      → (let sa = service_account_namespace s namespace in
          if is_blank sa then false else matches_username sa s.name user.name)
        ≡ true
      → StandsFor user namespace s
  unfolding service_account_namespace
  account_sound k h = elim (Bool-cases (is_blank s.namespace)) [
    | inl b ↦ elim (Bool-cases (is_blank namespace)) [
      | inl c ↦ absurd (ground arith)
      | inr c ↦
          by_local_account k ((is_blank_iff _).0 b) (not_blank _ c)
            ((matches_username_iff namespace s.name user.name).0 (ground arith))
    ]
    | inr b ↦
        by_own_account k (not_blank _ b)
          ((matches_username_iff s.namespace s.name user.name).0 (ground arith))
  ]

  applies_to_user_sound : applies_to_user user s namespace ≡ true → StandsFor user namespace s
  unfolding applies_to_user
  applies_to_user_sound h = elim (Bool-cases (s.kind == user_kind)) [
    | inl k ↦ by_name ((eq_iff _ _).0 k) ((eq_iff _ _).0 (rw k at h))
    | inr k ↦ elim (Bool-cases (s.kind == group_kind)) [
      | inl g ↦ by_group ((eq_iff _ _).0 g) ((has_iff _ _).0 (rw (k, g) at h))
      | inr g ↦ elim (Bool-cases (s.kind == service_account_kind)) [
        | inl a ↦ account_sound ((eq_iff _ _).0 a) (rw (k, g, a) at h)
        | inr a ↦ absurd (ground arith)
      ]
    ]
  ]

  applies_to_user_complete : StandsFor user namespace s → applies_to_user user s namespace ≡ true
  unfolding applies_to_user service_account_namespace
  applies_to_user_complete (by_name k e) = rw (k, e) (eq_refl s.name)
  applies_to_user_complete (by_group k e) = rw k ((has_iff _ _).1 e)
  applies_to_user_complete (by_own_account k e m) =
      rw (k, blank_of_ne s.namespace e, blank_of_ne s.namespace e)
        ((matches_username_iff s.namespace s.name user.name).1 m)
  applies_to_user_complete (by_local_account k e n m) =
      rw (k, (is_blank_iff s.namespace).1 e, blank_of_ne namespace n)
        ((matches_username_iff namespace s.name user.name).1 m)

-- appliesToUser says yes exactly to a subject that stands for the user.
pub applies_to_user_iff :
    (user : User) (namespace : String) (s : Subject)
    → (applies_to_user user s namespace ≡ true) ↔ StandsFor user namespace s
applies_to_user_iff user namespace s =
    (applies_to_user_sound user namespace s, applies_to_user_complete user namespace s)

-- The index that appliesTo returns: the first one whose subject applies.
pub data FirstAt (P : Subject → Bool) : ℕ → Subject → List Subject → Type 0 where
  at_head : {s : Subject} {ss : List Subject} → P s ≡ true → FirstAt P 0 s (s ∷ ss)
  later :
      {i : ℕ} {s t : Subject} {ss : List Subject}
      → P t ≡ false
      → FirstAt P i s ss
      → FirstAt P (suc i) s (t ∷ ss)

module _ (user : User) (namespace : String) where
  index_from_sound :
      (k : ℕ) (ss : List Subject) (i : ℕ) (s : Subject)
      → index_from k user ss namespace ≡ some (i, s)
      → (j : ℕ) × (i ≡ k + j) × FirstAt (λ t. applies_to_user user t namespace) j s ss
  unfolding index_from
  index_from_sound k [] i s h = cc
  index_from_sound k (t ∷ ss) i s h = elim (Bool-cases (applies_to_user user t namespace)) [
    | inl e ↦
        let same : ◌≡◌ {A = Option (ℕ × Subject)} (some (k, t)) (some (i, s)) = rw e at h in
        let i_eq : k ≡ i = ground arith in
        let s_eq : t ≡ s = ground arith in (0, omega arith, rw (← s_eq) (at_head e))
    | inr e ↦
        let (j, p, q) = index_from_sound (suc k) ss i s (rw e at h) in
        (suc j, omega arith, later e q)
  ]

-- When appliesTo succeeds, its index is that of the first subject in the list that applies, and the
-- subject is the one at that index.
pub applies_to-FirstAt :
    (user : User) (namespace : String) (ss : List Subject) (i : ℕ) (s : Subject)
    → applies_to user ss namespace ≡ some (i, s)
    → FirstAt (λ t. applies_to_user user t namespace) i s ss
unfolding applies_to
applies_to-FirstAt user namespace ss i s h =
    let (j, p, q) = index_from_sound user namespace 0 ss i s h in rw (p ∙ zero-add j) q

-- appliesTo fails only if no subject applies.
index_from-none_iff :
    (user : User) (namespace : String) (k : ℕ) (ss : List Subject)
    → (index_from k user ss namespace ≡ none)
      ↔ (any (λ t. applies_to_user user t namespace) ss ≡ false)
unfolding index_from
index_from-none_iff user namespace k [] = (λ _. refl, λ _. refl)
index_from-none_iff user namespace k (t ∷ ss) =
    elim (Bool-cases (applies_to_user user t namespace)) [
      | inl e ↦ rw e (λ h. cc, λ h. cc)
      | inr e ↦ rw e (index_from-none_iff user namespace (suc k) ss)
    ]

pub applies_to-none_iff :
    (user : User) (namespace : String) (ss : List Subject)
    → (applies_to user ss namespace ≡ none)
      ↔ (any (λ t. applies_to_user user t namespace) ss ≡ false)
unfolding applies_to
applies_to-none_iff user namespace ss = index_from-none_iff user namespace 0 ss

abbrev pub found_rules : List Event → List PolicyRule
found_rules [] = []
found_rules (found source rule ∷ es) = rule ∷ found_rules es
found_rules (failed e ∷ es) = found_rules es

abbrev pub failures : List Event → List Error
failures [] = []
failures (found source rule ∷ es) = failures es
failures (failed e ∷ es) = e ∷ failures es

run-accumulate :
    (rules : List PolicyRule) (errors : List Error) (es : List Event)
    → run accumulate (record { rules = rules; errors = errors }) es
      ≡ (record { rules = rules ++ found_rules es; errors = errors ++ failures es }, true)
unfolding accumulate
run-accumulate rules errors [] = simp append-nil
run-accumulate rules errors (found source rule ∷ es) =
    run-accumulate (rules ++ rule ∷ []) errors es ∙ (simp append_assoc)
run-accumulate rules errors (failed e ∷ es) =
    run-accumulate rules (errors ++ e ∷ []) es ∙ (simp append_assoc)

-- RulesFor returns the rules of all events, in their order, and the aggregate of all their errors:
-- an error of one binding hides no rule of another.
pub rules_for_lem :
    (agg : Aggregates) (r : Store) (user : User) (namespace : String)
    → rules_for agg r user namespace ≡ (
      found_rules (events r user namespace),
      agg.new_aggregate (failures (events r user namespace)),
    )
unfolding rules_for
rules_for_lem agg r user namespace =
    ap (λ (s : RuleAccumulator). (s.rules, agg.new_aggregate s.errors))
      (visit_rules_for-run accumulate r user namespace (record { rules = []; errors = [] })
        ∙ ap (λ x. x.0) (run-accumulate [] [] (events r user namespace)))
