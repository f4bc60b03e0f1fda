-- ===== src/Authenticator.antt =====
-- Authenticators: pkg/authentication/authenticator/interfaces.go, and the anonymous authenticator of
-- pkg/authentication/request/anonymous. An authenticator may change the request, and reads its
-- context, so that it is a function on a state; its result `none` is the panic at which Go reads
-- through a nil response.
pub mod Audiences
pub mod Union
pub mod Groups
pub mod Bearer
mod Tests
use apiserver.Base.{String, Bool, true, List, [], ◌∷◌, Option, none, some, Error}
use apiserver.User.{User, anonymous, all_unauthenticated}

pub record Response : Type 0 where
  pub audiences : List String
  pub user : User

-- The three results of AuthenticateRequest and AuthenticateToken.
pub record Outcome : Type 0 where
  pub response : Option Response
  pub is_ok : Bool
  pub error : Option Error

abbrev pub Authenticator : Type 0 → Type 0
Authenticator S = S → Option (Outcome × S)

-- The parts of http.Request that the authenticators and the filters touch: the header
-- "Authorization", and the audiences and the user of the context.
pub record HttpRequest : Type 0 where
  pub authorization : String
  pub audiences : Option (List String)
  pub user : Option User

abbrev pub or_nil : Option (List String) → List String
or_nil none = []
or_nil (some auds) = auds

unfoldable pub authenticate_anonymous : Authenticator HttpRequest
authenticate_anonymous req = some (
  record {
    response = some (record {
      audiences = or_nil req.audiences;
      user = record { name = anonymous; uid = ""; groups = all_unauthenticated ∷ []; extra = [] };
    });
    is_ok = true;
    error = none;
  },
  req,
)
