-- ===== src/Rbac/Match/Laws.antt =====
-- What a rule allows, independently of the code's tests.
use apiserver.Base.{
  String, true, false, List, [], ◌∷◌, any, Any, Has, any_iff, is_empty, is_blank, is_blank_iff,
  ◌==◌, ◌||◌, ◌+s◌, ◌≡◌, ◌≢◌, ◌↔◌, ◌⊎◌, inl, inr, refl, eq_iff, and_iff, Bool-cases, arith,
  prefix_suffix_iff, wildcard_iff, Extends, blank_of_ne,
}
use apiserver.Authorizer.{Attributes}
use apiserver.Rbac.{PolicyRule}
use apiserver.Rbac.Match.{
  verb_matches, resource_hit, resource_matches, resource_name_matches, url_hit,
  non_resource_url_matches, combined_resource, rule_allows, rules_allow,
}

-- A resource of a rule covers the request.
pub data ResourceHit (a : Attributes) (r : String) : Type 0 where
  everything : r ≡ "*" → ResourceHit a r
  no_subresource : a.subresource ≡ "" → r ≡ a.resource → ResourceHit a r
  this_subresource : a.subresource ≢ "" → r ≡ a.resource +s "/" +s a.subresource → ResourceHit a r
  any_resource : a.subresource ≢ "" → r ≡ "*/" +s a.subresource → ResourceHit a r

-- A URL of a rule covers the path.
pub data UrlHit (path u : String) : Type 0 where
  every_url : u ≡ "*" → UrlHit path u
  this_url : u ≡ path → UrlHit path u
  below : Extends u path → UrlHit path u

pub data Allows (a : Attributes) (rule : PolicyRule) : Type 0 where
  on_resource :
      a.resource_request ≡ true
      → Any (λ v. (v ≡ "*") ⊎ (v ≡ a.verb)) rule.verbs
      → Any (ResourceHit a) rule.resources
      → (rule.resource_names ≡ []) ⊎ Has a.name rule.resource_names
      → Allows a rule
  on_url :
      a.resource_request ≡ false
      → Any (λ v. (v ≡ "*") ⊎ (v ≡ a.verb)) rule.verbs
      → Any (UrlHit a.path) rule.non_resource_urls
      → Allows a rule

verb_matches_iff :
    (rule : PolicyRule) (v : String)
    → (verb_matches rule v ≡ true) ↔ Any (λ r. (r ≡ "*") ⊎ (r ≡ v)) rule.verbs
unfolding verb_matches
verb_matches_iff rule v =
    any_iff (λ r. r == "*" || r == v) (λ r. (r ≡ "*") ⊎ (r ≡ v)) (λ r. either r) rule.verbs
  where
    either : (r : String) → ((r == "*" || r == v) ≡ true) ↔ ((r ≡ "*") ⊎ (r ≡ v))
    either r = ground (arith, eq_iff r "*", eq_iff r v)

module _ (a : Attributes) (r : String) where
  resource_hit_sound : resource_hit r (combined_resource a) a.subresource ≡ true → ResourceHit a r
  unfolding resource_hit combined_resource
  resource_hit_sound h = elim (Bool-cases (is_blank a.subresource)) [
    | inl b ↦ elim (Bool-cases (r == "*")) [
      | inl e ↦ everything ((eq_iff r "*").0 e)
      | inr e ↦ no_subresource ((is_blank_iff _).0 b) ((eq_iff r a.resource).0 (ground arith))
    ]
    | inr b ↦
        let some_sub : a.subresource ≢ "" = λ e. absurd (ground (arith, (is_blank_iff _).1 e)) in
        let joined = a.resource +s "/" +s a.subresource in
        elim (Bool-cases (r == "*")) [
          | inl e ↦ everything ((eq_iff r "*").0 e)
          | inr e ↦ elim (Bool-cases (r == joined)) [
            | inl f ↦ this_subresource some_sub ((eq_iff r joined).0 f)
            | inr f ↦
                any_resource some_sub
                  ((prefix_suffix_iff r "*/" a.subresource).0 (rw (b, e, f) at h))
          ]
        ]
  ]

  resource_hit_complete :
      ResourceHit a r → resource_hit r (combined_resource a) a.subresource ≡ true
  unfolding resource_hit combined_resource
  resource_hit_complete (everything e) = rw e refl
  resource_hit_complete (no_subresource b e) =
      ground (arith, (is_blank_iff a.subresource).1 b, (eq_iff r a.resource).1 e)
  resource_hit_complete (this_subresource b e) =
      let some_sub = blank_of_ne a.subresource b in
      ground (arith, (eq_iff r (a.resource +s "/" +s a.subresource)).1 e)
  resource_hit_complete (any_resource b e) =
      let some_sub = blank_of_ne a.subresource b in
      ground (arith, (prefix_suffix_iff r "*/" a.subresource).1 e)

url_hit_iff : (path u : String) → (url_hit u path ≡ true) ↔ UrlHit path u
unfolding url_hit
url_hit_iff path u = (to, from)
  where
    to : url_hit u path ≡ true → UrlHit path u
    to h = elim (Bool-cases (u == "*")) [
      | inl e ↦ every_url ((eq_iff u "*").0 e)
      | inr e ↦ elim (Bool-cases (u == path)) [
        | inl f ↦ this_url ((eq_iff u path).0 f)
        | inr f ↦ below ((wildcard_iff u path).0 (rw (e, f) at h))
      ]
    ]

    from : UrlHit path u → url_hit u path ≡ true
    from (every_url e) = rw e refl
    from (this_url e) = ground (arith, (eq_iff u path).1 e)
    from (below x) = ground (arith, (wildcard_iff u path).1 x)

resource_name_matches_iff :
    (rule : PolicyRule) (n : String)
    → (resource_name_matches rule n ≡ true)
      ↔ ((rule.resource_names ≡ []) ⊎ Has n rule.resource_names)
unfolding resource_name_matches
resource_name_matches_iff rule n =
    by_names rule.resource_names
      (any_iff (λ r. r == n) (λ r. r ≡ n) (λ r. eq_iff r n) rule.resource_names)
  where
    by_names :
        (ns : List String)
        → (any (λ r. r == n) ns ≡ true) ↔ Has n ns
        → ((is_empty ns || any (λ r. r == n) ns) ≡ true) ↔ ((ns ≡ []) ⊎ Has n ns)
    by_names [] h = (λ _. inl refl, λ _. refl)
    by_names (m ∷ ns) h = (λ e. inr (h.0 e), λ e. elim e [ inl q ↦ (cc) | inr q ↦ h.1 q ])

-- RuleAllows says yes exactly when the rule allows the request: for a resource its verbs, its
-- resources and its resource names cover the request (API groups play no part), for a URL its
-- verbs and its URLs do.
pub rule_allows_iff :
    (a : Attributes) (rule : PolicyRule) → (rule_allows a rule ≡ true) ↔ Allows a rule
unfolding rule_allows
rule_allows_iff a rule = (to, from)
  where
    verb_hit : (verb_matches rule a.verb ≡ true) ↔ Any (λ r. (r ≡ "*") ⊎ (r ≡ a.verb)) rule.verbs
    verb_hit = verb_matches_iff rule a.verb

    name_hit :
        (resource_name_matches rule a.name ≡ true)
        ↔ ((rule.resource_names ≡ []) ⊎ Has a.name rule.resource_names)
    name_hit = resource_name_matches_iff rule a.name

    any_resource_hit :
        (resource_matches rule (combined_resource a) a.subresource ≡ true)
        ↔ Any (ResourceHit a) rule.resources
    any_resource_hit =
        any_iff (λ r. resource_hit r (combined_resource a) a.subresource) (ResourceHit a)
          (λ r. (resource_hit_sound a r, resource_hit_complete a r)) rule.resources

    any_url_hit :
        (non_resource_url_matches rule a.path ≡ true) ↔ Any (UrlHit a.path) rule.non_resource_urls
    any_url_hit =
        any_iff (λ u. url_hit u a.path) (UrlHit a.path) (url_hit_iff a.path) rule.non_resource_urls

    to : rule_allows a rule ≡ true → Allows a rule
    to h = elim (Bool-cases a.resource_request) [
      | inl r ↦
          let (both, names) = (and_iff _ (resource_name_matches rule a.name)).0 (rw r at h) in
          let (verbs, resources) = (and_iff (verb_matches rule a.verb) _).0 both in
          on_resource r (verb_hit.0 verbs) (any_resource_hit.0 resources) (name_hit.0 names)
      | inr r ↦
          let (verbs, urls) = (and_iff (verb_matches rule a.verb) _).0 (rw r at h) in
          on_url r (verb_hit.0 verbs) (any_url_hit.0 urls)
    ]

    from : Allows a rule → rule_allows a rule ≡ true
    from (on_resource r v c n) = rw (r, verb_hit.1 v, any_resource_hit.1 c) (name_hit.1 n)
    from (on_url r v u) = rw (r, verb_hit.1 v) (any_url_hit.1 u)

pub rules_allow_iff :
    (a : Attributes) (rules : List PolicyRule) → (rules_allow a rules ≡ true) ↔ Any (Allows a) rules
unfolding rules_allow
rules_allow_iff a rules = any_iff (rule_allows a) (Allows a) (rule_allows_iff a) rules
