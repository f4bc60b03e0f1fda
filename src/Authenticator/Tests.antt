-- ===== src/Authenticator/Tests.antt =====
-- Small authenticators, runs of chains and wrappers, and instances of their theorems.
use apiserver.Base.{
  Option, List, ◌==◌, if◌then◌else◌, inl, arith, trim_space, to_lower, String, true, false, [], ◌∷◌,
  none, some, Error, error_new, ◌≡◌, ◌↔◌, refl,
}
use apiserver.Samples.{sample_aggregates, alice}
use apiserver.Authenticator.{Response, Outcome, Authenticator, HttpRequest}
use apiserver.Authenticator.Audiences.{authenticate_agnostic}
use apiserver.Authenticator.Union.{authenticate_union, new_union}
use apiserver.Authenticator.Union.Laws.{FirstSuccess, authenticate_union-FirstSuccess_iff}
use apiserver.Authenticator.Bearer.{authenticate_bearer, nothing}
use apiserver.Authenticator.Bearer.Laws.{
  Carries, authenticate_bearer-Carries_iff, RefusedWith, bearer_member, authenticate_union-refused,
}
use apiserver.Authenticator.Groups.{add_groups, add_authenticated_group}

abbrev success : Response → Outcome
success resp = record { response = some resp; is_ok = true; error = none }

abbrev of_alice : Response
of_alice = record { audiences = []; user = alice }

abbrev knows_alice : Authenticator HttpRequest
knows_alice req = some (success of_alice, record req { authorization = "" })

abbrev broken : Authenticator HttpRequest
broken req =
    some (record { response = none; is_ok = false; error = some (error_new "no key") }, req)

abbrev request : HttpRequest
request = record {
  authorization = "Bearer t";
  audiences = some ("api" ∷ ("web" ∷ []));
  user = none;
}

abbrev request_without_header : HttpRequest
request_without_header = record request { authorization = "" }

-- A chain that fails on errors stops at the first.
fail_on_error_test :
    new_union sample_aggregates true (broken ∷ (knows_alice ∷ [])) request ≡ broken request
unfolding new_union
fail_on_error_test = refl

all_broken :
    authenticate_union sample_aggregates false (broken ∷ (broken ∷ [])) request ≡ broken request
unfolding authenticate_union
all_broken = refl

add_groups_test :
    add_groups ("extra" ∷ []) knows_alice request
    ≡ some (
      success
          (record of_alice { user = record alice { groups = "dev" ∷ ("ops" ∷ ("extra" ∷ [])) } }),
      request_without_header,
    )
unfolding add_groups
add_groups_test = refl

authenticate_union-FirstSuccess_iff_example :
    ((authenticate_union sample_aggregates false (broken ∷ (knows_alice ∷ [])) request
        ≡ some (success of_alice, request_without_header))
      × ((success of_alice).error ≡ none)
      × ((success of_alice).is_ok ≡ true))
    ↔ FirstSuccess false
        (success of_alice)
        request_without_header
        (broken ∷ (knows_alice ∷ []))
        request
authenticate_union-FirstSuccess_iff_example =
    authenticate_union-FirstSuccess_iff sample_aggregates false (broken ∷ (knows_alice ∷ []))
      request (success of_alice) request_without_header

abbrev web : String
web = "web"

abbrev for_web : Response
for_web = record of_alice { audiences = "web" ∷ [] }

wrapped :
    authenticate_agnostic
      (λ (r : HttpRequest). r.audiences)
      ("web" ∷ ("db" ∷ []))
      knows_alice
      request
    ≡ some (success for_web, request_without_header)
unfolding authenticate_agnostic
wrapped = refl

abbrev marked_alice : Response
marked_alice = record of_alice {
  user = record alice { groups = "dev" ∷ ("ops" ∷ ("system:authenticated" ∷ [])) };
}

alice_marked :
    add_authenticated_group knows_alice request
    ≡ some (success marked_alice, request_without_header)
unfolding add_authenticated_group
alice_marked = refl

abbrev knows_token : Option (List String) → String → Outcome
knows_token auds token = if token == "t" then success of_alice else nothing

abbrev with_token : HttpRequest
with_token = record request { authorization = " bEARER t more" }

carries_no_token :
    (authenticate_bearer knows_token (record request { authorization = "Bearer " })).0 ≡ nothing
unfolding authenticate_bearer trim_space to_lower
carries_no_token = refl

authenticate_bearer-Carries_iff_example :
    ((authenticate_bearer knows_token with_token).0.is_ok ≡ true) ↔ (
      (token : String) × Carries with_token.authorization token
      × ((knows_token with_token.audiences token).is_ok ≡ true)
      × ((authenticate_bearer knows_token with_token).1 ≡ record with_token { authorization = "" }))
authenticate_bearer-Carries_iff_example = authenticate_bearer-Carries_iff knows_token with_token

authenticate_union-refused_example :
    (e : Error) × RefusedWith (knows_token none "u") e
    × (authenticate_union sample_aggregates true
          (bearer_member knows_token ∷ (knows_alice ∷ []))
          (record request { authorization = "Bearer u" })
        ≡ some (
          record { response = (knows_token none "u").response; is_ok = false; error = some e },
          record request { authorization = "Bearer u" },
        ))
unfolding Carries trim_space to_lower
authenticate_union-refused_example =
    authenticate_union-refused sample_aggregates knows_token (knows_alice ∷ [])
      (record request { authorization = "Bearer u" }) "u"
      ("Bearer", refl, ground arith, ground arith, refl, inl refl) refl
