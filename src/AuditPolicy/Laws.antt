-- ===== src/AuditPolicy/Laws.antt =====
-- The level and the stages that a policy gives a request, and what of an event is kept.
use apiserver.Base.{
  String, Bool, true, false, List, [], ◌∷◌, ◌++◌, Option, none, some, map, any, if◌then◌else◌, ◌==◌,
  ◌≡◌, ◌≢◌, ◌↔◌, ◌⊎◌, inl, inr, refl, sym, ap, ◌∙◌, arith, Bool-cases, Has, Any, Any-append_left,
  any_iff, eq_iff, Error, errorf, if_true, if_false, some_inj, subst,
}
use apiserver.Authorizer.{Attributes}
use apiserver.AuditPolicy.{
  AuditRule, AuditPolicy, RangeKeys, union_stages, new_checker, Event, enforce_level,
  enforce_policy, level_none, level_metadata, level_request, level_request_response,
}
use apiserver.AuditPolicy.Match.{rule_matches, first_matching, level_and_stages}
use apiserver.AuditPolicy.Match.Matches.{Matches, rule_matches-Matches_iff}

-- The first rule of the list that matches the request.
pub data FirstMatch (a : Attributes) (rule : AuditRule) : List AuditRule → Type 0 where
  matched : {rules : List AuditRule} → Matches rule a → FirstMatch a rule (rule ∷ rules)
  passed :
      {other : AuditRule} {rules : List AuditRule}
      → (Matches other a → ⊥)
      → FirstMatch a rule rules
      → FirstMatch a rule (other ∷ rules)

module _ (omit_stages : List String) (a : Attributes) where
  abbrev pub Chosen : List AuditRule → String × List String → Type 0
  Chosen rules result =
      ((rule : AuditRule) × FirstMatch a rule rules × (result ≡ (rule.level, rule.omit_stages)))
      ⊎ ((Any (λ rule. Matches rule a) rules → ⊥) × (result ≡ (level_none, omit_stages)))

  first_matching-Chosen :
      (rules : List AuditRule) → Chosen rules (first_matching omit_stages rules a)
  unfolding first_matching
  first_matching-Chosen [] = inr ((λ h. h), refl)
  first_matching-Chosen (rule ∷ rules) = elim (Bool-cases (rule_matches rule a)) [
    | inl e ↦
        inl (
          rule,
          matched ((rule_matches-Matches_iff rule a).0 e),
          if_true (rule_matches rule a) _ _ e,
        )
    | inr e ↦
        let no : Matches rule a → ⊥ =
          λ m. absurd (ground (arith, (rule_matches-Matches_iff rule a).1 m)) in
        elim (first_matching-Chosen rules) [
          | inl (r, f, q) ↦ inl (r, passed no f, if_false (rule_matches rule a) _ _ e ∙ q)
          | inr (n, q) ↦ inr (
            (λ h. elim h [ inl x ↦ no x | inr y ↦ n y ]),
            if_false (rule_matches rule a) _ _ e ∙ q,
          )
        ]
  ]

-- A request gets the level and the omitted stages of the first rule that matches it, and without
-- such a rule the level "None" and the stages of the policy.
pub level_and_stages-Chosen :
    (p : AuditPolicy) (a : Attributes) → Chosen p.omit_stages a p.rules (level_and_stages p a)
unfolding level_and_stages
level_and_stages-Chosen p a = first_matching-Chosen p.omit_stages a p.rules

module _ (m : RangeKeys) (omit_stages : List String) (a : Attributes) (stage : String) where
  abbrev extended : AuditRule → AuditRule
  extended rule = record rule { omit_stages = union_stages m omit_stages rule.omit_stages }

  union_stages-Has :
      (rule_stages : List String)
      → Has stage omit_stages
      → Has stage (union_stages m omit_stages rule_stages)
  unfolding union_stages
  union_stages-Has rule_stages h =
      (m.keys-Has_iff (omit_stages ++ rule_stages) stage).1
        (Any-append_left (λ x. x ≡ stage) omit_stages rule_stages h)

  first_matching-omits :
      (rules : List AuditRule)
      → Has stage omit_stages
      → Has stage (first_matching omit_stages (map extended rules) a).1
  unfolding first_matching
  first_matching-omits [] h = h
  first_matching-omits (rule ∷ rules) h =
      by_match (rule_matches (extended rule) a) _ (first_matching-omits rules h)
    where
      by_match :
          (b : Bool) (rest : String × List String)
          → Has stage rest.1
          → Has stage
              (if b then (rule.level, union_stages m omit_stages rule.omit_stages) else rest).1
      by_match true rest k = union_stages-Has rule.omit_stages h
      by_match false rest k = k

-- A stage that the policy omits is omitted at every request, whichever rule matches it.
pub new_checker-omits :
    (m : RangeKeys) (p : AuditPolicy) (a : Attributes) (stage : String)
    → Has stage p.omit_stages
    → Has stage (level_and_stages (new_checker m p) a).1
unfolding level_and_stages new_checker
new_checker-omits m p a stage h = first_matching-omits m p.omit_stages a stage p.rules h

-- What is left of an event `e` at a level.
pub record Reduced {A : Type 0} (e : Event A) (level : String) (kept : Event A) : Type 0 where
  pub at_level : kept.level ≡ level
  pub same_stage : kept.stage ≡ e.stage
  pub request :
      (kept.request_object ≡ none)
      ⊎ ((kept.request_object ≡ e.request_object)
          × ((level ≡ level_request) ⊎ (level ≡ level_request_response)))
  pub response :
      (kept.response_object ≡ none)
      ⊎ ((kept.response_object ≡ e.response_object) × (level ≡ level_request_response))

abbrev Enforced : Type 0 → Type 0
Enforced A = Option (Event A) × Option Error

nothing-ne :
    {A : Type 0} {x : Option Error} (kept : Event A)
    → ◌≢◌ {A = Enforced A} (none, x) (some kept, none)
nothing-ne kept h = some-ne (ap (λ p. p.0) h)
  where
    some-ne : none ≢ some kept
    some-ne q = cc

kept_eq :
    {A : Type 0} {e kept : Event A}
    → ◌≡◌ {A = Enforced A} (some e, none) (some kept, none)
    → e ≡ kept
kept_eq h = some_inj (ap (λ p. p.0) h)

module _ {A : Type 0} (e : Event A) (level : String) (kept : Event A) where
  -- The last two tests of enforceLevel.
  abbrev below_request : Enforced A
  below_request =
      if level == level_none
      then (none, none)
      else (none, some (errorf "level unknown: %s" (level ∷ [])))

  abbrev from_full : Enforced A
  from_full =
      if level == level_request_response
      then (some (record e { level = level_request_response }), none)
      else below_request

  below_request-ne : below_request ≢ (some kept, none)
  below_request-ne w = elim (Bool-cases (level == level_none)) [
    | inl d ↦ nothing-ne kept (sym (if_true (level == level_none) _ _ d) ∙ w)
    | inr d ↦ nothing-ne kept (sym (if_false (level == level_none) _ _ d) ∙ w)
  ]

  from_full-Reduced : from_full ≡ (some kept, none) → Reduced e level kept
  from_full-Reduced q = elim (Bool-cases (level == level_request_response)) [
    | inl c ↦
        let is_full = (eq_iff level level_request_response).0 c in
        subst (Reduced e level)
          (kept_eq (sym (if_true (level == level_request_response) _ _ c) ∙ q))
          (record {
            at_level = sym is_full;
            same_stage = refl;
            request = inr (refl, inr is_full);
            response = inr (refl, is_full);
          })
    | inr c ↦ absurd (below_request-ne (sym (if_false (level == level_request_response) _ _ c) ∙ q))
  ]

  enforce_level-Reduced : enforce_level e level ≡ (some kept, none) → Reduced e level kept
  unfolding enforce_level
  enforce_level-Reduced h = elim (Bool-cases (level == level_metadata)) [
    | inl a ↦
        subst (Reduced e level) (kept_eq (sym (if_true (level == level_metadata) _ _ a) ∙ h))
          (record {
            at_level = sym ((eq_iff level level_metadata).0 a);
            same_stage = refl;
            request = inl refl;
            response = inl refl;
          })
    | inr a ↦
        let later = sym (if_false (level == level_metadata) _ _ a) ∙ h in
        elim (Bool-cases (level == level_request)) [
          | inl b ↦
              let is_request = (eq_iff level level_request).0 b in
              subst (Reduced e level)
                (kept_eq (sym (if_true (level == level_request) _ _ b) ∙ later))
                (record {
                  at_level = sym is_request;
                  same_stage = refl;
                  request = inr (refl, inl is_request);
                  response = inl refl;
                })
          | inr b ↦ from_full-Reduced (sym (if_false (level == level_request) _ _ b) ∙ later)
        ]
  ]

stage_test_iff :
    (stage : String) (omit_stages : List String)
    → (any (λ s. stage == s) omit_stages ≡ true) ↔ Has stage omit_stages
stage_test_iff stage omit_stages =
    any_iff (λ s. stage == s) (λ s. s ≡ stage)
      (λ s. ((λ h. sym ((eq_iff stage s).0 h)), (λ q. (eq_iff stage s).1 (sym q)))) omit_stages

-- An event that EnforcePolicy keeps is at a stage that is not omitted and carries the level; it has
-- no response object below the level "RequestResponse", and no request object below "Request".
pub enforce_policy-Reduced :
    {A : Type 0} (e : Event A) (level : String) (omit_stages : List String) (kept : Event A)
    → enforce_policy e level omit_stages ≡ (some kept, none)
    → (Has e.stage omit_stages → ⊥) × Reduced e level kept
unfolding enforce_policy
enforce_policy-Reduced e level omit_stages kept h =
    elim (Bool-cases (any (λ stage. e.stage == stage) omit_stages)) [
      | inl a ↦ absurd (nothing-ne kept (sym (if_true (any _ omit_stages) _ _ a) ∙ h))
      | inr a ↦ (
        (λ x. absurd (ground (arith, (stage_test_iff e.stage omit_stages).1 x))),
        enforce_level-Reduced e level kept (sym (if_false (any _ omit_stages) _ _ a) ∙ h),
      )
    ]

-- No event at a stage that the policy omits is ever kept, whatever the request and the rules.
pub enforce_policy-new_checker :
    {A : Type 0} (m : RangeKeys) (p : AuditPolicy) (a : Attributes) (e : Event A)
    → Has e.stage p.omit_stages
    → let (level, omit_stages) = level_and_stages (new_checker m p) a in
      enforce_policy e level omit_stages ≡ (none, none)
unfolding enforce_policy
enforce_policy-new_checker m p a e h =
    let (level, omit_stages) = level_and_stages (new_checker m p) a in
    if_true (any (λ stage. e.stage == stage) omit_stages) _ _
      ((stage_test_iff e.stage omit_stages).1 (new_checker-omits m p a e.stage h))
