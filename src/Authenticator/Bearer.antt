-- ===== src/Authenticator/Bearer.antt =====
-- The authenticator of bearer tokens: pkg/authentication/request/bearertoken/bearertoken.go. The
-- authenticator of tokens gets the audiences of the context. Of the parts of SplitN with at most
-- three, the code reads the first two, which are those of Split.
pub mod Laws
use apiserver.Base.{
  String, Bool, true, false, not, List, [], ◌∷◌, Option, none, some, Error, error_new, ◌==◌, ◌||◌,
  if◌then◌else◌, is_blank, split, to_lower, trim_space,
}
use apiserver.Authenticator.{Response, Outcome, Authenticator, HttpRequest}

abbrev pub invalid_token : Error
invalid_token = error_new "invalid bearer token"

abbrev pub nothing : Outcome
nothing = record { response = none; is_ok = false; error = none }

-- The parts of the header: the second one, when the first one is the word "bearer".
abbrev pub token_of_parts : List String → Option String
token_of_parts [] = none
token_of_parts (scheme ∷ []) = none
token_of_parts (scheme ∷ (token ∷ rest)) =
    if not (to_lower scheme == "bearer") || is_blank token then none else some token

abbrev pub token_of : String → Option String
token_of header =
    if is_blank (trim_space header) then none else token_of_parts (split (trim_space header) b' ')

abbrev pub or_invalid : Bool → Option Error → Option Error
or_invalid is_ok (some e) = some e
or_invalid is_ok none = if not is_ok then some invalid_token else none

-- What follows the call of the authenticator of tokens.
abbrev pub settle_token : HttpRequest → Outcome → Outcome × HttpRequest
settle_token req o = (
  record { response = o.response; is_ok = o.is_ok; error = or_invalid o.is_ok o.error },
  if o.is_ok then record req { authorization = "" } else req,
)

abbrev pub ask :
    (Option (List String) → String → Outcome) → HttpRequest → Option String → Outcome × HttpRequest
ask auth req none = (nothing, req)
ask auth req (some token) = settle_token req (auth req.audiences token)

unfoldable pub authenticate_bearer :
    (Option (List String) → String → Outcome) → HttpRequest → Outcome × HttpRequest
authenticate_bearer auth req = ask auth req (token_of req.authorization)
