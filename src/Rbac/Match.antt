-- ===== src/Rbac/Match.antt =====
-- How a rule matches the parts of a request: pkg/apis/rbac/helpers.go, and RuleAllows and
-- RulesAllow of plugin/authorizer/rbac/rbac.go. A loop that returns true at a hit is `any`.
pub mod Laws
use apiserver.Base.{
  String, Bool, List, any, is_empty, is_blank, not, ◌==◌, ◌||◌, ◌&&◌, ◌+◌, ◌+s◌, len, nat_eq,
  has_prefix, has_suffix, trim_right, if◌then◌else◌,
}
use apiserver.Authorizer.{Attributes}
use apiserver.Rbac.{PolicyRule, verb_all, api_group_all, resource_all, non_resource_all}

unfoldable pub verb_matches : PolicyRule → String → Bool
verb_matches rule requested_verb = any (λ v. v == verb_all || v == requested_verb) rule.verbs

unfoldable pub api_group_matches : PolicyRule → String → Bool
api_group_matches rule requested_group =
    any (λ g. g == api_group_all || g == requested_group) rule.api_groups

-- One round of the loop of ResourceMatches: the resource of the rule, the combined resource and
-- the subresource of the request.
resource_hit : String → String → String → Bool
resource_hit rule_resource combined subresource =
    rule_resource == resource_all
    || rule_resource == combined
    || not (is_blank subresource)
      && (nat_eq (len rule_resource) (len subresource + 2)
          && has_prefix rule_resource "*/"
          && has_suffix rule_resource subresource)

unfoldable pub resource_matches : PolicyRule → String → String → Bool
unfolding resource_hit
resource_matches rule combined subresource =
    any (λ r. resource_hit r combined subresource) rule.resources

unfoldable pub resource_name_matches : PolicyRule → String → Bool
resource_name_matches rule requested_name =
    is_empty rule.resource_names || any (λ n. n == requested_name) rule.resource_names

-- One round of the loop of NonResourceURLMatches.
url_hit : String → String → Bool
url_hit rule_url requested_url =
    rule_url == non_resource_all
    || rule_url == requested_url
    || has_suffix rule_url "*" && has_prefix requested_url (trim_right rule_url b'*')

unfoldable pub non_resource_url_matches : PolicyRule → String → Bool
unfolding url_hit
non_resource_url_matches rule requested_url =
    any (λ u. url_hit u requested_url) rule.non_resource_urls

combined_resource : Attributes → String
combined_resource a =
    if not (is_blank a.subresource) then a.resource +s "/" +s a.subresource else a.resource

-- RuleAllows. The API group is not compared: the call of APIGroupMatches is commented out.
unfoldable pub rule_allows : Attributes → PolicyRule → Bool
unfolding combined_resource verb_matches resource_matches resource_name_matches
    non_resource_url_matches
rule_allows a rule =
    if a.resource_request
    then verb_matches rule a.verb
      && resource_matches rule (combined_resource a) a.subresource
      && resource_name_matches rule a.name
    else verb_matches rule a.verb && non_resource_url_matches rule a.path

unfoldable pub rules_allow : Attributes → List PolicyRule → Bool
unfolding rule_allows
rules_allow a rules = any (rule_allows a) rules
