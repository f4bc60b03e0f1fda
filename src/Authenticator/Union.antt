-- ===== src/Authenticator/Union.antt =====
-- Chains of authenticators: pkg/authentication/request/union/union.go and
-- pkg/authentication/token/union/union.go, whose loops are the same. The state is the request, or
-- whatever the token authenticators change.
pub mod Laws
use apiserver.Base.{
  String, Bool, true, false, List, [], ◌∷◌, ◌++◌, Option, none, some, Error, Aggregates,
  if◌then◌else◌,
}
use apiserver.Authenticator.{Outcome, Authenticator}

module _ {S : Type 0} (agg : Aggregates) (fail_on_error : Bool) where
  authenticate_from : List Error → List (Authenticator S) → Authenticator S
  authenticate_from errlist [] s =
      some (record { response = none; is_ok = false; error = agg.new_aggregate errlist }, s)
  authenticate_from errlist (handler ∷ handlers) s = elim (handler s) [
    | none ↦ none
    | some (o, s') ↦ elim o.error [
      | some e ↦
          let rest = authenticate_from (errlist ++ e ∷ []) handlers s' in
          if fail_on_error then some (o, s') else rest
      | none ↦
          let rest = authenticate_from errlist handlers s' in if o.is_ok then some (o, s') else rest
    ]
  ]

  -- AuthenticateRequest and AuthenticateToken.
  unfoldable pub authenticate_union : List (Authenticator S) → Authenticator S
  unfolding authenticate_from
  authenticate_union handlers s = authenticate_from [] handlers s

  -- New and NewFailOnError: a chain of one is its only member.
  unfoldable pub new_union : List (Authenticator S) → Authenticator S
  unfolding authenticate_union
  new_union (handler ∷ []) = handler
  new_union handlers = authenticate_union handlers
