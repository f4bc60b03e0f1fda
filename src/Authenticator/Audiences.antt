-- ===== src/Authenticator/Audiences.antt =====
-- Audiences: pkg/authentication/authenticator/audiences.go, and the wrapper of authenticators that
-- know of no audiences, audagnostic.go.
pub mod Laws
use apiserver.Base.{
  String, Bool, true, false, List, [], ◌∷◌, Option, none, some, any, is_empty, not, ◌==◌, ◌||◌,
  Error, errorf, if◌then◌else◌,
}
use apiserver.Authenticator.{Response, Outcome, Authenticator}

unfoldable pub has : List String → String → Bool
has a taud = any (λ aud. aud == taud) a

unfoldable pub intersect : List String → List String → List String
unfolding has
intersect a [] = []
intersect a (taud ∷ tauds) =
    let rest = intersect a tauds in if has a taud then taud ∷ rest else rest

unfoldable pub audiences_are_acceptable : List String → List String → Bool
unfolding intersect
audiences_are_acceptable api_auds response_audiences =
    if is_empty api_auds || is_empty response_audiences
    then true
    else not (is_empty (intersect api_auds response_audiences))

abbrev pub rejected : Option Error → Outcome
rejected e = record { response = none; is_ok = false; error = e }

-- What follows the call of the delegate, for the audiences that both sides share.
unfoldable pub claim_audiences : List String → Outcome → Option Outcome
claim_audiences auds o = elim o.error [
  | some e ↦ some (rejected (some e))
  | none ↦ if not o.is_ok then some (rejected none) else elim o.response [
    | none ↦ none
    | some resp ↦
        if not (is_empty resp.audiences)
        then some (
            rejected (
              some (
                errorf
                  "audience agnostic authenticator wrapped an authenticator that returned audiences: %q"
                  resp.audiences)))
        else some (record {
          response = some (record resp { audiences = auds });
          is_ok = true;
          error = none;
        })
  ]
]

abbrev pub with_state : {S : Type 0} → S → Option Outcome → Option (Outcome × S)
with_state s none = none
with_state s (some o) = some (o, s)

-- authenticate, where `targets` reads the audiences of the context.
unfoldable pub authenticate_agnostic :
    {S : Type 0} → (S → Option (List String)) → List String → Authenticator S → Authenticator S
unfolding intersect claim_audiences
authenticate_agnostic targets implicit delegate s = elim (targets s) [
  | none ↦ delegate s
  | some target_auds ↦
      let auds = intersect implicit target_auds in
      if is_empty auds
      then some (rejected none, s)
      else elim (delegate s) [ none ↦ none | some (o, s') ↦ with_state s' (claim_audiences auds o) ]
]
