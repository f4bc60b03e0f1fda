-- ===== src/AuditPolicy/Tests.antt =====
-- A policy with two rules, its answers, and instances of the theorems.
use apiserver.Base.{String, [], ◌∷◌, none, some, ◌≡◌, ◌↔◌, inl, refl, true, Has}
use apiserver.Samples.{get_status, get_logs}
use apiserver.AuditPolicy.{
  AuditRule, AuditPolicy, RangeKeys, new_checker, Event, enforce_policy, level_metadata,
  level_request,
}
use apiserver.AuditPolicy.Match.{rule_matches, level_and_stages}
use apiserver.AuditPolicy.Match.Matches.{Matches, rule_matches-Matches_iff}
use apiserver.AuditPolicy.Laws.{new_checker-omits, Reduced, enforce_policy-Reduced}

abbrev any_rule : AuditRule
any_rule = record {
  level = level_metadata;
  users = [];
  user_groups = [];
  verbs = [];
  resources = [];
  namespaces = [];
  non_resource_urls = [];
  omit_stages = "Panic" ∷ [];
}

-- The status of pods, for the users of a group.
abbrev pod_status : AuditRule
pod_status = record any_rule {
  level = level_request;
  user_groups = "ops" ∷ [];
  resources = record { group = ""; resources = "pods/*" ∷ []; resource_names = "web-1" ∷ [] } ∷ [];
}

abbrev policy : AuditPolicy
policy = record { rules = pod_status ∷ (any_rule ∷ []); omit_stages = "RequestReceived" ∷ [] }

-- A loop that ranges over the keys in the order of their insertion, with repetitions kept.
abbrev in_order : RangeKeys
in_order = record { keys = λ xs. xs; keys-Has_iff = λ xs x. ((λ h. h), (λ h. h)) }

status_level :
    level_and_stages (new_checker in_order policy) get_status
    ≡ (level_request, "RequestReceived" ∷ ("Panic" ∷ []))
unfolding level_and_stages new_checker rule_matches
status_level = refl

-- "pods/*" also matches a request without a subresource.
bare_pods : rule_matches pod_status (record get_status { subresource = "" }) ≡ true
unfolding rule_matches
bare_pods = refl

rule_matches-Matches_iff_example :
    (rule_matches pod_status get_logs ≡ true) ↔ Matches pod_status get_logs
rule_matches-Matches_iff_example = rule_matches-Matches_iff pod_status get_logs

abbrev first_stage : String
first_stage = "RequestReceived"

new_checker-omits_example :
    Has first_stage (level_and_stages (new_checker in_order policy) get_logs).1
new_checker-omits_example = new_checker-omits in_order policy get_logs first_stage (inl refl)

abbrev received : Event String
received = record {
  level = "";
  stage = "RequestReceived";
  request_object = some "request";
  response_object = some "response";
}

abbrev complete : Event String
complete = record received { stage = "ResponseComplete" }

abbrev reduced : Event String
reduced = record complete { level = level_request; response_object = none }

enforced : enforce_policy complete level_request ("Panic" ∷ []) ≡ (some reduced, none)
unfolding enforce_policy
enforced = refl

enforce_policy-Reduced_example :
    (Has complete.stage ("Panic" ∷ []) → ⊥) × Reduced complete level_request reduced
enforce_policy-Reduced_example =
    enforce_policy-Reduced complete level_request ("Panic" ∷ []) reduced enforced
