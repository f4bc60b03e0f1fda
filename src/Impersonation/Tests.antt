-- ===== src/Impersonation/Tests.antt =====
-- Requests that act as another user, and instances of the theorems about them.
use apiserver.Base.{String, [], ◌∷◌, Option, none, some, ◌≡◌, refl, ◌==◌, ◌||◌, if◌then◌else◌}
use apiserver.Samples.{alice}
use apiserver.User.{User, all_authenticated}
use apiserver.Authorizer.{Attributes, Verdict, decision_allow, decision_deny}
use apiserver.ServiceAccount.{split_username}
use apiserver.Impersonation.{
  Header, HeaderNames, Validators, with_impersonation, served, forbidden, acting_as,
  build_impersonation_requests, complete_groups, clear_headers,
}
use apiserver.Impersonation.Laws.{Permitted, with_impersonation-Permitted}
use apiserver.Impersonation.Headers.{Clean, with_impersonation-Clean}

abbrev names : HeaderNames
names = record {
  user = "Impersonate-User";
  group = "Impersonate-Group";
  user_extra_prefix = "Impersonate-Extra-";
}

abbrev unescape : String → Option String
unescape s = some s

abbrev validators : Validators
validators = record { is_dns1123_label = λ s. []; is_dns1123_subdomain = λ s. [] }

-- Acting as bob and as a developer is allowed.
abbrev authorizer : Attributes → Verdict
authorizer a =
    if a.name == "bob" || a.name == "dev"
    then record { decision = decision_allow; reason = ""; error = none }
    else record { decision = decision_deny; reason = "no"; error = none }

abbrev as_bob : Header
as_bob =
    ("Accept", "text/plain" ∷ [])
    ∷ (("Impersonate-User", "bob" ∷ []) ∷ (("Impersonate-Group", "dev" ∷ []) ∷ []))

abbrev bob : User
bob = record { name = "bob"; uid = ""; groups = "dev" ∷ (all_authenticated ∷ []); extra = [] }

abbrev plain : Header
plain = ("Accept", "text/plain" ∷ []) ∷ []

becomes_bob :
    with_impersonation names unescape validators (some authorizer) (some alice) as_bob
    ≡ served (some bob) plain
unfolding with_impersonation build_impersonation_requests split_username complete_groups
    clear_headers
becomes_bob = refl

refuses_root :
    with_impersonation names unescape validators
      (some authorizer)
      (some alice)
      (("Impersonate-User", "root" ∷ []) ∷ [])
    ≡ forbidden (acting_as alice "users" "" "" "root") "no"
unfolding with_impersonation build_impersonation_requests split_username
refuses_root = refl

stays_alice :
    with_impersonation names unescape validators (some authorizer) (some alice) plain
    ≡ served (some alice) plain
unfolding with_impersonation build_impersonation_requests split_username
stays_alice = refl

with_impersonation-Permitted_example : Permitted (some authorizer) alice bob
with_impersonation-Permitted_example =
    with_impersonation-Permitted names unescape validators (some authorizer) alice bob as_bob plain
      refl becomes_bob

with_impersonation-Clean_example : Clean names unescape plain
with_impersonation-Clean_example =
    with_impersonation-Clean names unescape validators (some authorizer) (some alice) (some bob)
      as_bob plain becomes_bob
