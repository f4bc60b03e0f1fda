-- ===== src/AuditPolicy/Match/Matches.antt =====
-- A rule of an audit policy matches a request exactly if each of its restrictions does.
use apiserver.Base.{
  Bool, true, false, List, [], ◌∷◌, Option, none, some, any, is_empty, not, ◌||◌, ◌&&◌,
  if◌then◌else◌, ◌≡◌, ◌≢◌, ◌↔◌, ◌⊎◌, inl, inr, refl, sym, arith, Bool-cases, Has, Any, any_iff,
  and_iff, or_iff, subst, some_inj,
}
use apiserver.User.{User}
use apiserver.Authorizer.{Attributes}
use apiserver.AuditPolicy.{AuditRule}
use apiserver.AuditPolicy.Match.{
  has_string, users_match, groups_match, path_matches, rule_matches_non_resource, group_fits,
  rule_matches_resource, rule_matches,
}
use apiserver.AuditPolicy.Match.Laws.{
  Free, PathFits, GroupFits, restriction_iff, string_restriction_iff, is_empty_iff, has_string_iff,
  group_fits_iff, path_matches_sound, path_matches_complete,
}

-- What a rule with namespaces or resources, with URLs only, or with none of them applies to.
pub data Target (r : AuditRule) (a : Attributes) : Type 0 where
  on_resource :
      (r.namespaces ≢ []) ⊎ (r.resources ≢ [])
      → a.resource_request ≡ true
      → Free (λ n. n ≡ a.namespace) r.namespaces
      → Free (GroupFits a) r.resources
      → Target r a
  on_path :
      r.namespaces ≡ []
      → r.resources ≡ []
      → r.non_resource_urls ≢ []
      → a.resource_request ≡ false
      → Any (PathFits a.path) r.non_resource_urls
      → Target r a
  anything : r.namespaces ≡ [] → r.resources ≡ [] → r.non_resource_urls ≡ [] → Target r a

pub record Matches (r : AuditRule) (a : Attributes) : Type 0 where
  pub by_user : (r.users ≡ []) ⊎ ((u : User) × (a.user ≡ some u) × Has u.name r.users)
  pub by_group :
      (r.user_groups ≡ [])
      ⊎ ((u : User) × (a.user ≡ some u) × Any (λ group. Has group r.user_groups) u.groups)
  pub by_verb : Free (λ v. v ≡ a.verb) r.verbs
  pub target : Target r a

-- A restriction on the user.
module _ {A : Type 0} (xs : List A) (test : User → Bool) (P : User → Type 0)
    (decides : (u : User) → (test u ≡ true) ↔ P u) where
  abbrev restricted : Option User → Bool
  restricted none = is_empty xs
  restricted (some u) = is_empty xs || test u

  restricted_iff :
      (o : Option User) → (restricted o ≡ true) ↔ ((xs ≡ []) ⊎ ((u : User) × (o ≡ some u) × P u))
  restricted_iff none =
      let (to, from) = is_empty_iff xs in
      ((λ h. inl (to h)), (λ h. elim h [ inl e ↦ from e | inr (u, e, x) ↦ absurd (none-ne u e) ]))
    where
      none-ne : (u : User) → none ≢ some u
      none-ne u e = cc
  restricted_iff (some u) =
      let (to, from) = is_empty_iff xs in
      let (sound, complete) = decides u in
      let (split, combine) = or_iff (is_empty xs) (test u) in
      (
        (λ h. elim (split h) [ inl e ↦ inl (to e) | inr e ↦ inr (u, refl, sound e) ]),
        (λ h. combine (elim h [
          | inl e ↦ inl (from e)
          | inr (v, e, x) ↦ inr (complete (subst P (sym (some_inj e)) x))
        ])),
      )

module _ (r : AuditRule) (a : Attributes) where
  users_match_iff :
      (o : Option User)
      → (users_match r o ≡ true)
        ↔ ((r.users ≡ []) ⊎ ((u : User) × (o ≡ some u) × Has u.name r.users))
  unfolding users_match
  users_match_iff none =
      restricted_iff r.users (λ u. has_string r.users u.name) (λ u. Has u.name r.users)
        (λ u. has_string_iff r.users u.name) none
  users_match_iff (some u) =
      restricted_iff r.users (λ v. has_string r.users v.name) (λ v. Has v.name r.users)
        (λ v. has_string_iff r.users v.name) (some u)

  in_groups_iff :
      (u : User)
      → (any (λ group. has_string r.user_groups group) u.groups ≡ true)
        ↔ Any (λ group. Has group r.user_groups) u.groups
  in_groups_iff u =
      any_iff (λ group. has_string r.user_groups group) (λ group. Has group r.user_groups)
        (λ group. has_string_iff r.user_groups group) u.groups

  groups_match_iff :
      (o : Option User)
      → (groups_match r o ≡ true) ↔ (
          (r.user_groups ≡ [])
          ⊎ ((u : User) × (o ≡ some u) × Any (λ group. Has group r.user_groups) u.groups))
  unfolding groups_match
  groups_match_iff none = restricted_iff r.user_groups _ _ in_groups_iff none
  groups_match_iff (some u) = restricted_iff r.user_groups _ _ in_groups_iff (some u)

  abbrev aim_test : Bool
  aim_test =
      if not (is_empty r.namespaces) || not (is_empty r.resources)
      then rule_matches_resource r a
      else if not (is_empty r.non_resource_urls)
      then rule_matches_non_resource r a
      else true

  on_resource_iff : (rule_matches_resource r a ≡ true) ↔ (
      (a.resource_request ≡ true)
      × (Free (λ n. n ≡ a.namespace) r.namespaces)
      × Free (GroupFits a) r.resources)
  unfolding rule_matches_resource
  on_resource_iff = ground (
    arith,
    string_restriction_iff r.namespaces a.namespace,
    restriction_iff (group_fits a) (GroupFits a) (group_fits_iff a) r.resources,
  )

  on_path_iff :
      (rule_matches_non_resource r a ≡ true)
      ↔ ((a.resource_request ≡ false) × Any (PathFits a.path) r.non_resource_urls)
  unfolding rule_matches_non_resource
  on_path_iff = elim (Bool-cases a.resource_request) [
    | inl e ↦ rw e ((λ h. absurd (ground arith)), (λ (h, x). absurd (ground arith)))
    | inr e ↦
        let (to, from) =
          any_iff (λ spec. path_matches a.path spec) (PathFits a.path)
            (λ spec. (path_matches_sound a spec, path_matches_complete a spec))
            r.non_resource_urls in
        rw e ((λ h. (refl, to h)), (λ (h, x). from x))
  ]

  aim_sound : aim_test ≡ true → Target r a
  aim_sound h = elim (Bool-cases (is_empty r.namespaces && is_empty r.resources)) [
    | inl e ↦
        let (n, q) = (and_iff (is_empty r.namespaces) _).0 e in
        let no_namespaces = (is_empty_iff r.namespaces).0 n in
        let no_resources = (is_empty_iff r.resources).0 q in
        elim (Bool-cases (is_empty r.non_resource_urls)) [
          | inl u ↦ anything no_namespaces no_resources ((is_empty_iff r.non_resource_urls).0 u)
          | inr u ↦
              let (not_resource, fits) = on_path_iff.0 (ground arith) in
              on_path no_namespaces no_resources
                (λ z. absurd (ground (arith, (is_empty_iff r.non_resource_urls).1 z))) not_resource
                fits
        ]
    | inr e ↦
        let (request, namespaces, resources) = on_resource_iff.0 (ground arith) in
        on_resource (some_restriction e) request namespaces resources
  ]
    where
      some_restriction :
          (is_empty r.namespaces && is_empty r.resources) ≡ false
          → (r.namespaces ≢ []) ⊎ (r.resources ≢ [])
      some_restriction e = elim (Bool-cases (is_empty r.namespaces)) [
        | inl n ↦ inr (λ z. absurd (ground (arith, (is_empty_iff r.resources).1 z)))
        | inr n ↦ inl (λ z. absurd (ground (arith, (is_empty_iff r.namespaces).1 z)))
      ]

  not_empty : {A : Type 0} (xs : List A) → xs ≢ [] → is_empty xs ≡ false
  not_empty [] n = absurd (n refl)
  not_empty (x ∷ xs) n = refl

  aim_complete : Target r a → aim_test ≡ true
  aim_complete (on_resource (inl n) request namespaces resources) =
      let some_namespace = not_empty r.namespaces n in
      let fits = on_resource_iff.1 (request, namespaces, resources) in ground arith
  aim_complete (on_resource (inr n) request namespaces resources) =
      let some_resource = not_empty r.resources n in
      let fits = on_resource_iff.1 (request, namespaces, resources) in ground arith
  aim_complete (on_path n q u request fits) =
      let no_namespaces = (is_empty_iff r.namespaces).1 n in
      let no_resources = (is_empty_iff r.resources).1 q in
      let some_url = not_empty r.non_resource_urls u in
      let path = on_path_iff.1 (request, fits) in ground arith
  aim_complete (anything n q u) =
      let no_namespaces = (is_empty_iff r.namespaces).1 n in
      let no_resources = (is_empty_iff r.resources).1 q in
      let no_url = (is_empty_iff r.non_resource_urls).1 u in ground arith

-- A rule matches a request exactly if each of its restrictions does: on the user, on one of the
-- user's groups, on the verb, and on the resource or the path. A list that is empty restricts
-- nothing; a rule with namespaces or resources is for resource requests only, and its URLs are then
-- not read.
pub rule_matches-Matches_iff :
    (r : AuditRule) (a : Attributes) → (rule_matches r a ≡ true) ↔ Matches r a
unfolding rule_matches
rule_matches-Matches_iff r a = (
  (λ h.
      let (first_three, t) = (and_iff _ (aim_test r a)).0 h in
      let (first_two, v) =
        (and_iff _ (is_empty r.verbs || has_string r.verbs a.verb)).0 first_three in
      let (u, g) = (and_iff (users_match r a.user) _).0 first_two in
      record {
        by_user = (users_match_iff r a a.user).0 u;
        by_group = (groups_match_iff r a a.user).0 g;
        by_verb = (string_restriction_iff r.verbs a.verb).0 v;
        target = aim_sound r a t;
      }),
  (λ m.
      let u = (users_match_iff r a a.user).1 m.by_user in
      let g = (groups_match_iff r a a.user).1 m.by_group in
      let v = (string_restriction_iff r.verbs a.verb).1 m.by_verb in
      let t = aim_complete r a m.target in rw (u, g, v) t),
)
