-- ===== src/AuthzUnion/Tests.antt =====
-- Three handlers, runs of their union, and instances of its theorems.
use apiserver.Base.{String, [], ◌∷◌, ◌≡◌, refl, true, none, some, error_new}
use apiserver.User.{User}
use apiserver.Authorizer.{
  Attributes, Verdict, Rules, decision_allow, decision_deny, decision_no_opinion,
}
use apiserver.Samples.{sample_aggregates, get_status}
use apiserver.AuthzUnion.{authorize}
use apiserver.AuthzUnion.Laws.{
  first_opinion, errors_of, reasons_of, opinion_or, authorize-first_opinion,
}

abbrev unsure : Attributes → Verdict
unsure a = record {
  decision = decision_no_opinion;
  reason = "cache is cold";
  error = some (error_new "no store");
}

abbrev forbid : Attributes → Verdict
forbid a = record { decision = decision_deny; reason = "frozen"; error = none }

abbrev permit : Attributes → Verdict
permit a = record { decision = decision_allow; reason = ""; error = none }

no_rules : User → String → Rules
no_rules user namespace = record {
  resource_rules = [];
  non_resource_rules = record { verbs = "get" ∷ []; non_resource_urls = namespace ∷ [] } ∷ [];
  incomplete = true;
  error = some (error_new "no store");
}

deny_first :
    authorize sample_aggregates (unsure ∷ (forbid ∷ (permit ∷ []))) get_status ≡ forbid get_status
unfolding authorize
deny_first = refl

all_unsure :
    (authorize sample_aggregates (unsure ∷ (unsure ∷ [])) get_status).reason
    ≡ "cache is cold\ncache is cold"
unfolding authorize
all_unsure = refl

authorize-first_opinion_example :
    authorize sample_aggregates (unsure ∷ (permit ∷ [])) get_status
    ≡ opinion_or sample_aggregates
        (errors_of (unsure ∷ (permit ∷ [])) get_status)
        (reasons_of (unsure ∷ (permit ∷ [])) get_status)
        (first_opinion (unsure ∷ (permit ∷ [])) get_status)
authorize-first_opinion_example =
    authorize-first_opinion sample_aggregates (unsure ∷ (permit ∷ [])) get_status
