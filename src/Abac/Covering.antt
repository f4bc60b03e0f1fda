-- ===== src/Abac/Covering.antt =====
-- The rules that are listed against the requests that are allowed.
use apiserver.Base.{
  Bool, true, false, List, [], ◌∷◌, some, ◌==◌, ◌&&◌, not, is_blank, Any, Has, ◌≡◌, ◌≢◌, ◌⊎◌, inl,
  inr, refl, sym, arith, eq_iff, Bool-cases, blank_of_ne,
}
use apiserver.User.{User}
use apiserver.Authorizer.{Attributes, is_read_only, decision_allow, ResourceRuleInfo}
use apiserver.Abac.{Policy, authorize, get_verbs, rules_apply, resource_infos, rules_for}
use apiserver.Abac.Laws.{
  SubjectFits, ResourceFits, Permits, permits_resource, permits_path, subject_matches_complete,
  authorize-Permits_iff,
}

-- A listed rule covers the verb, the resource and the group of the request.
pub record Covers (a : Attributes) (i : ResourceRuleInfo) : Type 0 where
  pub verb_in : Has "*" i.verbs ⊎ Has a.verb i.verbs
  pub resource_in : Has "*" i.resources ⊎ Has a.resource i.resources
  pub group_in : Has "*" i.api_groups ⊎ Has a.api_group i.api_groups

module _ (a : Attributes) where
  get_verbs-Has :
      (readonly : Bool)
      → (is_read_only a ≡ true) ⊎ (readonly ≡ false)
      → Has "*" (get_verbs readonly) ⊎ Has a.verb (get_verbs readonly)
  unfolding get_verbs is_read_only
  get_verbs-Has false h = inl (inl refl)
  get_verbs-Has true (inl h) = inr (elim (Bool-cases (a.verb == "get")) [
    | inl e ↦ inl (sym ((eq_iff a.verb "get").0 e))
    | inr e ↦ elim (Bool-cases (a.verb == "list")) [
      | inl f ↦ inr (inl (sym ((eq_iff a.verb "list").0 f)))
      | inr f ↦ inr (inr (inl (sym ((eq_iff a.verb "watch").0 (rw (e, f) at h)))))
    ]
  ])
  get_verbs-Has true (inr h) = cc

  resource_ne : (p : Policy) → ResourceFits p a → a.resource ≢ "" → is_blank p.resource ≡ false
  resource_ne p x n = elim x.on_resource [
    | inl e ↦ rw e refl
    | inr e ↦ rw e (blank_of_ne a.resource n)
  ]

  listed :
      (p : Policy) (user : User)
      → a.user ≡ some user
      → SubjectFits p user
      → ResourceFits p a
      → a.resource ≢ ""
      → (rules_apply p a.user a.namespace && not (is_blank p.resource)) ≡ true
  unfolding rules_apply
  listed p user e f x n = ground (
    arith,
    subject_matches_complete a p user e f,
    x.in_namespace,
    resource_ne p x n,
    eq_iff p.namespace "*",
    eq_iff p.namespace a.namespace,
  )

  -- The rule that a policy contributes, in the list.
  resource_infos-Covers :
      (pl : List Policy)
      → a.resource_request ≡ true
      → a.resource ≢ ""
      → Any (Permits a) pl
      → Any (Covers a) (resource_infos pl a.user a.namespace)
  unfolding resource_infos
  resource_infos-Covers [] r n h = absurd h
  resource_infos-Covers (p ∷ pl) r n (inl (permits_path user e f v q x)) = cc
  resource_infos-Covers (p ∷ pl) r n (inl (permits_resource user e f v q x)) =
      rw (listed p user e f x n) (
        inl (record {
          verb_in = get_verbs-Has p.readonly v;
          resource_in = elim x.on_resource [ inl y ↦ inl (inl y) | inr y ↦ inr (inl y) ];
          group_in = elim x.in_group [ inl y ↦ inl (inl y) | inr y ↦ inr (inl y) ];
        }))
  resource_infos-Covers (p ∷ pl) r n (inr h) =
      let rest = resource_infos-Covers pl r n h in
      elim (Bool-cases (rules_apply p a.user a.namespace && not (is_blank p.resource))) [
        | inl e ↦ rw e (inr rest)
        | inr e ↦ rw e rest
      ]

-- A request for a named resource that the policy list allows is covered by one of the resource rules
-- that RulesFor lists for the same user and namespace.
pub authorize-Covers :
    (pl : List Policy) (a : Attributes)
    → a.resource_request ≡ true
    → a.resource ≢ ""
    → (authorize pl a).decision ≡ decision_allow
    → Any (Covers a) (rules_for pl a.user a.namespace).resource_rules
unfolding rules_for
authorize-Covers pl a r n h = resource_infos-Covers a pl r n ((authorize-Permits_iff pl a).0 h)
