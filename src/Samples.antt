-- ===== src/Samples.antt =====
-- Concrete data that the tests of several components share.
use Prim.Native.String.{[] as empty, ◌∷◌ as cons}
use apiserver.Base.{
  String, List, [], ◌∷◌, Option, none, some, ◌≡◌, ◌≢◌, refl, Error, error_new, errorf, Aggregates,
  true, false, Bool, ℕ, code, nat_eq, if◌then◌else◌, Lacks, arith,
}
use apiserver.User.{User}
use apiserver.Authorizer.{Attributes}

abbrev pub first_error : List Error → Option Error
first_error [] = none
first_error (e ∷ es) = some e

pub first_error-cons : (e : Error) (es : List Error) → first_error (e ∷ es) ≢ none
first_error-cons e es h = cc

abbrev pub error_text : Error → String
error_text (error_new s) = s
error_text (errorf s args) = s

-- An aggregate that keeps the first error.
abbrev pub sample_aggregates : Aggregates
sample_aggregates = record {
  new_aggregate = first_error;
  text = error_text;
  new_aggregate-nil = refl;
  new_aggregate-cons = first_error-cons;
}

abbrev pub alice : User
alice = record { name = "alice"; uid = "7"; groups = "dev" ∷ ("ops" ∷ []); extra = [] }

-- Alice reads the status of a pod.
abbrev pub get_status : Attributes
get_status = record {
  user = some alice;
  verb = "get";
  namespace = "shop";
  api_group = "";
  api_version = "v1";
  resource = "pods";
  subresource = "status";
  name = "web-1";
  resource_request = true;
  path = "/api/v1/namespaces/shop/pods/web-1/status";
}

-- Alice asks for a path that is no resource.
abbrev pub get_logs : Attributes
get_logs = record {
  user = some alice;
  verb = "get";
  namespace = "";
  api_group = "";
  api_version = "";
  resource = "";
  subresource = "";
  name = "";
  resource_request = false;
  path = "/logs/today";
}

-- A test for a byte, to instantiate validators and to show what a concrete text lacks.
abbrev pub has_code : String → ℕ → Bool
has_code empty n = false
has_code (cons c s) n = if nat_eq (code c) n then true else has_code s n

pub has_code-Lacks : (s : String) (n : ℕ) → has_code s n ≡ false → Lacks n s
has_code-Lacks empty n h = tt
has_code-Lacks (cons c s) n h = (ground arith, has_code-Lacks s n (ground arith))
