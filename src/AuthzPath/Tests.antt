-- ===== src/AuthzPath/Tests.antt =====
-- A list of paths, and an instance of the theorem.
use apiserver.Base.{
  String, false, List, [], ◌∷◌, ◌==◌, any, refl, ◌≡◌, ◌↔◌, Any, ok, err, errorf, StringSets,
  trim_prefix,
}
use apiserver.Authorizer.{decision_allow}
use apiserver.Samples.{get_logs}
use apiserver.AuthzPath.{Paths, allow_paths, new_authorizer}
use apiserver.AuthzPath.Laws.{Covers, new_authorizer-Covers_iff}

-- Sets as lists.
abbrev list_sets : StringSets
list_sets = record {
  Set = List String;
  new_string = [];
  insert = λ s x. x ∷ s;
  has = λ s t. any (λ x. x == t) s;
  has-new_string = λ t. refl;
  has-insert = λ s x t. refl;
}

abbrev health_and_logs : List String
health_and_logs = "/healthz" ∷ ("/logs/*" ∷ [])

abbrev health_and_logs_paths : Paths list_sets
health_and_logs_paths = record { prefixes = "logs/" ∷ []; paths = "healthz" ∷ [] }

inner_star :
    new_authorizer list_sets ("/a*b" ∷ [])
    ≡ err (errorf "only trailing * allowed in %q" ("a*b" ∷ []))
unfolding new_authorizer
inner_star = refl

accepted :
    new_authorizer list_sets health_and_logs ≡ ok (allow_paths list_sets health_and_logs_paths)
unfolding new_authorizer
accepted = refl

new_authorizer-Covers_iff_example :
    ((allow_paths list_sets health_and_logs_paths get_logs).decision ≡ decision_allow) ↔ (
      (get_logs.resource_request ≡ false)
      × Any (λ p. Covers (trim_prefix p "/") (trim_prefix get_logs.path "/")) health_and_logs)
new_authorizer-Covers_iff_example =
    new_authorizer-Covers_iff list_sets health_and_logs
      (allow_paths list_sets health_and_logs_paths) get_logs accepted
