-- ===== src/Authenticator/Groups.antt =====
-- The group adders: pkg/authentication/group/group_adder.go, token_group_adder.go, whose bodies are
-- the same, and authenticated_group_adder.go. A Response is made afresh by each call of an
-- authenticator, so that changing its user in place is returning it with another user.
pub mod Laws
use apiserver.Base.{
  String, Bool, true, false, List, [], ◌∷◌, ◌++◌, Option, none, some, Error, any, ◌==◌, ◌||◌,
  if◌then◌else◌,
}
use apiserver.User.{User, anonymous, all_authenticated, all_unauthenticated}
use apiserver.Authenticator.{Response, Outcome, Authenticator}

-- What both adders do with the results of the authenticator they delegate to.
on_success : (Response → Response) → Outcome → Option Outcome
on_success f o = elim o.error [
  | some e ↦ some (record { response = none; is_ok = o.is_ok; error = some e })
  | none ↦
      if o.is_ok
      then elim o.response [
        | none ↦ none
        | some r ↦ some (record { response = some (f r); is_ok = true; error = none })
      ]
      else some (record { response = none; is_ok = false; error = none })
]

adding : {S : Type 0} → (Response → Response) → Option (Outcome × S) → Option (Outcome × S)
unfolding on_success
adding f none = none
adding f (some (o, s)) = elim (on_success f o) [ none ↦ none | some o' ↦ some (o', s) ]

append_groups : List String → Response → Response
append_groups groups r = record r { user = record r.user { groups = r.user.groups ++ groups } }

-- GroupAdder and TokenGroupAdder
unfoldable pub add_groups : {S : Type 0} → List String → Authenticator S → Authenticator S
unfolding adding append_groups
add_groups groups auth s = adding (append_groups groups) (auth s)

is_decided : User → Bool
is_decided u =
    u.name == anonymous
    || any (λ group. group == all_authenticated || group == all_unauthenticated) u.groups

authenticated_response : Response → Response
unfolding is_decided append_groups
authenticated_response r = if is_decided r.user then r else append_groups (all_authenticated ∷ []) r

-- AuthenticatedGroupAdder
unfoldable pub add_authenticated_group : {S : Type 0} → Authenticator S → Authenticator S
unfolding adding authenticated_response
add_authenticated_group auth s = adding authenticated_response (auth s)
