-- ===== src/Base/Errors.antt =====
-- Errors of the Go code, and the package golib/util/errors, which is not part of the repository.
use Prim.Native.String.{String}
use mathlib.Core.Path.{◌≡◌}
use mathlib.Core.Logic.{◌≢◌}
use mathlib.Core.Option.{Option, none}
use mathlib.Core.List.{List, [], ◌∷◌}

-- `errors.New(text)`, and `fmt.Errorf(format, args...)` with the format and the textual arguments
-- kept apart. A nil error is `none` of `Option Error`.
pub data Error : Type 0 where
  error_new : String → Error
  errorf : String → List String → Error

-- utilerrors.NewAggregate, and the text of an error under `%v`: a nil error for no errors, and an
-- error that is not nil for at least one (the modelled lists hold no nil errors).
pub record Aggregates : Type 0 where
  pub new_aggregate : List Error → Option Error
  pub text : Error → String
  pub new_aggregate-nil : new_aggregate [] ≡ none
  pub new_aggregate-cons : (e : Error) (es : List Error) → new_aggregate (e ∷ es) ≢ none

-- The pair (value, error) of a Go function whose value is used only with a nil error.
pub data Result {ℓ} (A : Type ℓ) : Type ℓ where
  ok : A → Result A
  err : Error → Result A

pub ok_inj {ℓ} : {A : Type ℓ} {x y : A} → ok x ≡ ok y → x ≡ y
ok_inj e = cc
