-- ===== src/Abac/Tests.antt =====
-- Two policies, runs of the policy list, and instances of its theorems.
use apiserver.Base.{List, [], ◌∷◌, ◌≡◌, ◌↔◌, refl, true, false, some, Any, ne_of_test}
use apiserver.Authorizer.{is_read_only, decision_allow, decision_no_opinion}
use apiserver.Samples.{alice, get_status, get_logs}
use apiserver.Abac.{PolicySpec, Policy, validate_v0, authorize, rules_for, subject_matches}
use apiserver.Abac.Laws.{Permits, authorize-Permits_iff}
use apiserver.Abac.Covering.{Covers, authorize-Covers}

-- Everybody reads pods; a policy of version 0.
abbrev read_pods : PolicySpec
read_pods = record {
  user = "";
  group = "";
  readonly = true;
  api_group = "";
  resource = "pods";
  namespace = "";
  non_resource_path = "";
}

abbrev policies : List Policy
policies =
    record { kind = "Policy"; spec = record (validate_v0 read_pods) { group = "ops" } }
    ∷ (record {
      kind = "Policy";
      spec = record {
        user = "alice";
        group = "";
        readonly = true;
        api_group = "";
        resource = "";
        namespace = "";
        non_resource_path = "/logs/*";
      };
    }
        ∷ [])

get_status_permitted : (authorize policies get_status).decision ≡ decision_allow
unfolding authorize validate_v0 is_read_only
get_status_permitted = refl

create_refused :
    (authorize policies (record get_logs { verb = "post" })).decision ≡ decision_no_opinion
unfolding authorize validate_v0 is_read_only
create_refused = refl

anybody_refused : subject_matches (record { kind = ""; spec = read_pods }) (some alice) ≡ false
unfolding subject_matches
anybody_refused = refl

authorize-Permits_iff_example :
    ((authorize policies get_logs).decision ≡ decision_allow) ↔ Any (Permits get_logs) policies
authorize-Permits_iff_example = authorize-Permits_iff policies get_logs

authorize-Covers_example :
    Any (Covers get_status) (rules_for policies (some alice) "shop").resource_rules
authorize-Covers_example =
    authorize-Covers policies get_status refl (ne_of_test "pods" "" refl) get_status_permitted
