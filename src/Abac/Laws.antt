-- ===== src/Abac/Laws.antt =====
-- What a policy permits, independently of the code's tests.
use apiserver.Base.{
  true, false, List, [], ◌∷◌, Option, none, some, ◌==◌, is_blank_iff, any, Any, Has, any_iff, ◌≡◌,
  ◌≢◌, ◌↔◌, ◌⊎◌, inl, inr, refl, sym, arith, eq_iff, Bool-cases, Extends, wildcard_iff,
}
use apiserver.User.{User}
use apiserver.Authorizer.{Attributes, is_read_only, decision_allow}
use apiserver.Abac.{
  Policy, user_matches, subject_matches, verb_matches, non_resource_matches, resource_matches,
  matches, authorize,
}

-- The user and the group that the policy names, where it names them, and it names one.
pub record SubjectFits (p : Policy) (user : User) : Type 0 where
  pub by_user : (p.user ≡ "") ⊎ ((p.user ≡ "*") ⊎ (p.user ≡ user.name))
  pub by_group : (p.group ≡ "") ⊎ ((p.group ≡ "*") ⊎ Has p.group user.groups)
  pub not_empty : (p.user ≢ "") ⊎ (p.group ≢ "")

module _ (p : Policy) (user : User) where
  group_any_iff : (any (λ g. p.group == g) user.groups ≡ true) ↔ Has p.group user.groups
  group_any_iff =
      any_iff (λ g. p.group == g) (λ g. g ≡ p.group)
        (λ g. ((λ h. sym ((eq_iff p.group g).0 h)), (λ e. (eq_iff p.group g).1 (sym e))))
        user.groups

  user_matches_sound : user_matches p user ≡ true → SubjectFits p user
  unfolding user_matches
  user_matches_sound h = record {
    by_user = ground (
      arith,
      is_blank_iff p.user,
      is_blank_iff p.group,
      eq_iff p.user "*",
      eq_iff p.user user.name,
    );
    by_group = ground (
      arith,
      is_blank_iff p.user,
      is_blank_iff p.group,
      eq_iff p.user "*",
      eq_iff p.group "*",
      eq_iff p.user user.name,
      group_any_iff.0,
    );
    not_empty = ground (arith, is_blank_iff p.user, is_blank_iff p.group);
  }

  user_matches_complete : SubjectFits p user → user_matches p user ≡ true
  unfolding user_matches
  user_matches_complete f = ground (
    arith,
    f.by_user,
    f.by_group,
    f.not_empty,
    is_blank_iff p.user,
    is_blank_iff p.group,
    eq_iff p.user "*",
    eq_iff p.group "*",
    eq_iff p.user user.name,
    group_any_iff.1,
  )

pub record ResourceFits (p : Policy) (a : Attributes) : Type 0 where
  pub in_namespace : (p.namespace ≡ "*") ⊎ (p.namespace ≡ a.namespace)
  pub on_resource : (p.resource ≡ "*") ⊎ (p.resource ≡ a.resource)
  pub in_group : (p.api_group ≡ "*") ⊎ (p.api_group ≡ a.api_group)

pub data PathFits (p : Policy) (a : Attributes) : Type 0 where
  every_path : p.non_resource_path ≡ "*" → PathFits p a
  this_path : p.non_resource_path ≡ a.path → PathFits p a
  below : Extends p.non_resource_path a.path → PathFits p a

-- The policy permits the request of the user.
pub data Permits (a : Attributes) (p : Policy) : Type 0 where
  permits_resource :
      (user : User)
      → a.user ≡ some user
      → SubjectFits p user
      → (is_read_only a ≡ true) ⊎ (p.readonly ≡ false)
      → a.resource_request ≡ true
      → ResourceFits p a
      → Permits a p
  permits_path :
      (user : User)
      → a.user ≡ some user
      → SubjectFits p user
      → (is_read_only a ≡ true) ⊎ (p.readonly ≡ false)
      → a.resource_request ≡ false
      → PathFits p a
      → Permits a p

module _ (a : Attributes) (p : Policy) where
  resource_matches_sound : resource_matches p a ≡ true → ResourceFits p a
  unfolding resource_matches
  resource_matches_sound h = ground (
    arith,
    eq_iff p.namespace "*",
    eq_iff p.namespace a.namespace,
    eq_iff p.resource "*",
    eq_iff p.resource a.resource,
    eq_iff p.api_group "*",
    eq_iff p.api_group a.api_group,
  )

  resource_matches_complete :
      a.resource_request ≡ true → ResourceFits p a → resource_matches p a ≡ true
  unfolding resource_matches
  resource_matches_complete r f = ground (
    arith,
    f.in_namespace,
    f.on_resource,
    f.in_group,
    eq_iff p.namespace "*",
    eq_iff p.namespace a.namespace,
    eq_iff p.resource "*",
    eq_iff p.resource a.resource,
    eq_iff p.api_group "*",
    eq_iff p.api_group a.api_group,
  )

  non_resource_matches_sound : non_resource_matches p a ≡ true → PathFits p a
  unfolding non_resource_matches
  non_resource_matches_sound h = elim (Bool-cases (p.non_resource_path == "*")) [
    | inl e ↦ every_path ((eq_iff p.non_resource_path "*").0 e)
    | inr e ↦ elim (Bool-cases (p.non_resource_path == a.path)) [
      | inl f ↦ this_path ((eq_iff p.non_resource_path a.path).0 f)
      | inr f ↦ below ((wildcard_iff p.non_resource_path a.path).0 (ground arith))
    ]
  ]

  non_resource_matches_complete :
      a.resource_request ≡ false → PathFits p a → non_resource_matches p a ≡ true
  unfolding non_resource_matches
  non_resource_matches_complete r (every_path e) = rw (r, e) refl
  non_resource_matches_complete r (this_path e) =
      ground (arith, (eq_iff p.non_resource_path a.path).1 e)
  non_resource_matches_complete r (below x) =
      ground (arith, (wildcard_iff p.non_resource_path a.path).1 x)

  subject_matches_sound :
      subject_matches p a.user ≡ true → (user : User) × (a.user ≡ some user) × SubjectFits p user
  unfolding subject_matches
  subject_matches_sound = by_user a.user refl
    where
      by_user :
          (o : Option User)
          → a.user ≡ o
          → subject_matches p o ≡ true
          → (user : User) × (a.user ≡ some user) × SubjectFits p user
      by_user none e h = cc
      by_user (some user) e h = (user, e, user_matches_sound p user h)

  pub subject_matches_complete :
      (user : User) → a.user ≡ some user → SubjectFits p user → subject_matches p a.user ≡ true
  unfolding subject_matches
  subject_matches_complete user e f = rw e (user_matches_complete p user f)

  matches_sound : matches p a ≡ true → Permits a p
  unfolding matches verb_matches
  matches_sound h =
      let (user, e, f) = subject_matches_sound (ground arith) in
      let verbs : (is_read_only a ≡ true) ⊎ (p.readonly ≡ false) = ground arith in
      elim (Bool-cases a.resource_request) [
        | inl r ↦
            permits_resource user e f verbs r
              (resource_matches_sound (unfold non_resource_matches in ground arith))
        | inr r ↦
            permits_path user e f verbs r
              (non_resource_matches_sound (unfold resource_matches in ground arith))
      ]

  matches_complete : Permits a p → matches p a ≡ true
  unfolding matches verb_matches
  matches_complete (permits_resource user e f v r x) =
      ground (arith, v, subject_matches_complete user e f, resource_matches_complete r x)
  matches_complete (permits_path user e f v r x) =
      ground (arith, v, subject_matches_complete user e f, non_resource_matches_complete r x)

authorize-any :
    (pl : List Policy) (a : Attributes)
    → ((authorize pl a).decision ≡ decision_allow) ↔ (any (λ p. matches p a) pl ≡ true)
unfolding authorize
authorize-any [] a = ((λ h. cc), (λ h. cc))
authorize-any (p ∷ pl) a = elim (Bool-cases (matches p a)) [
  | inl e ↦ rw e ((λ _. refl), (λ _. refl))
  | inr e ↦ rw e (authorize-any pl a)
]

-- The policy list allows a request exactly when one of its policies permits it.
pub authorize-Permits_iff :
    (pl : List Policy) (a : Attributes)
    → ((authorize pl a).decision ≡ decision_allow) ↔ Any (Permits a) pl
authorize-Permits_iff pl a =
    let (to, from) = authorize-any pl a in
    let (any_to, any_from) =
      any_iff (λ p. matches p a) (Permits a) (λ p. (matches_sound a p, matches_complete a p)) pl in
    (λ h. any_to (to h), λ h. from (any_from h))
