-- ===== src/AuditPolicy/Match.antt =====
-- How a rule matches a request: ruleMatches and LevelAndStages of pkg/audit/policy/checker.go. An
-- early return of false is the other half of a conjunction.
pub mod Laws
pub mod Matches
use apiserver.Base.{
  String, Bool, true, false, List, [], ◌∷◌, Option, none, some, any, is_empty, is_blank, not, ◌==◌,
  ◌||◌, ◌&&◌, ◌+s◌, if◌then◌else◌, has_prefix, has_suffix, trim_prefix, trim_suffix, trim_right,
}
use apiserver.User.{User}
use apiserver.Authorizer.{Attributes}
use apiserver.AuditPolicy.{AuditRule, AuditPolicy, GroupResources, level_none}

pub has_string : List String → String → Bool
has_string slice value = any (λ s. s == value) slice

users_match : AuditRule → Option User → Bool
unfolding has_string
users_match r none = is_empty r.users
users_match r (some user) = is_empty r.users || has_string r.users user.name

groups_match : AuditRule → Option User → Bool
unfolding has_string
groups_match r none = is_empty r.user_groups
groups_match r (some user) =
    is_empty r.user_groups || any (λ group. has_string r.user_groups group) user.groups

pub path_matches : String → String → Bool
path_matches path spec =
    spec == "*" || spec == path || has_suffix spec "*" && has_prefix path (trim_right spec b'*')

rule_matches_non_resource : AuditRule → Attributes → Bool
unfolding path_matches
rule_matches_non_resource r attrs =
    if attrs.resource_request
    then false
    else any (λ spec. path_matches attrs.path spec) r.non_resource_urls

combined : Attributes → String
combined attrs =
    if not (is_blank attrs.subresource)
    then attrs.resource +s "/" +s attrs.subresource
    else attrs.resource

-- The tests of the innermost loop.
resource_fits : Attributes → String → Bool
unfolding combined
resource_fits attrs res =
    (res == combined attrs || res == "*")
    || (not (is_blank attrs.subresource)
        && (has_prefix res "*/" && attrs.subresource == trim_prefix res "*/"))
    || has_suffix res "/*" && attrs.resource == trim_suffix res "/*"

pub group_fits : Attributes → GroupResources → Bool
unfolding resource_fits has_string
group_fits attrs gr =
    gr.group == attrs.api_group
    && (is_empty gr.resources
        || any
            (λ res.
              (is_empty gr.resource_names || has_string gr.resource_names attrs.name)
              && resource_fits attrs res)
            gr.resources)

rule_matches_resource : AuditRule → Attributes → Bool
unfolding group_fits has_string
rule_matches_resource r attrs =
    attrs.resource_request
    && (is_empty r.namespaces || has_string r.namespaces attrs.namespace)
    && (is_empty r.resources || any (group_fits attrs) r.resources)

unfoldable pub rule_matches : AuditRule → Attributes → Bool
unfolding users_match groups_match has_string rule_matches_resource rule_matches_non_resource
rule_matches r attrs =
    users_match r attrs.user
    && groups_match r attrs.user
    && (is_empty r.verbs || has_string r.verbs attrs.verb)
    && (if not (is_empty r.namespaces) || not (is_empty r.resources)
        then rule_matches_resource r attrs
        else if not (is_empty r.non_resource_urls)
        then rule_matches_non_resource r attrs
        else true)

unfoldable pub first_matching : List String → List AuditRule → Attributes → String × List String
unfolding rule_matches
first_matching omit_stages [] attrs = (level_none, omit_stages)
first_matching omit_stages (rule ∷ rules) attrs =
    let rest = first_matching omit_stages rules attrs in
    if rule_matches rule attrs then (rule.level, rule.omit_stages) else rest

unfoldable pub level_and_stages : AuditPolicy → Attributes → String × List String
unfolding first_matching
level_and_stages p attrs = first_matching p.omit_stages p.rules attrs
