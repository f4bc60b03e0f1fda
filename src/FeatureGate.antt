-- ===== src/FeatureGate.antt =====
-- Feature gates: components/featuregate/feature_gate.go. The maps of the gate are copied before they
-- are changed, so that a gate is a value; `special` is always specialFeatures. The order in which a
-- loop ranges over a map is that of the list of its entries, and what is stated of a loop does not
-- depend on it. The name of the gate, metrics and logs are left out.
pub mod Parse
pub mod Fill
pub mod Laws
pub mod Adding
pub mod Locks
pub mod RoundTrip
pub mod SetBack
mod Tests
use apiserver.Base.{
  String, Bool, true, false, not, ◌&&◌, ◌||◌, List, [], ◌∷◌, Option, none, some, Map, lookup, put,
  Error, errorf, Result, ok, err, ◌==◌, if◌then◌else◌, ◌+s◌, join,
}
use apiserver.FeatureGate.Parse.{bool_text, parse, sort}

abbrev pub alpha : String
alpha = "ALPHA"

abbrev pub beta : String
beta = "BETA"

abbrev ga : String
ga = ""

abbrev deprecated : String
deprecated = "DEPRECATED"

abbrev pub all_alpha_gate : String
all_alpha_gate = "AllAlpha"

abbrev pub all_beta_gate : String
all_beta_gate = "AllBeta"

pub record FeatureSpec : Type 0 where
  pub default : Bool
  pub lock_to_default : Bool
  pub pre_release : String

pub record FeatureGate : Type 0 where
  pub known : Map FeatureSpec
  pub enabled : Map Bool
  pub closed : Bool

abbrev pub default_features : Map FeatureSpec
default_features =
    (all_alpha_gate, (record { default = false; lock_to_default = false; pre_release = alpha }))
    ∷ (all_beta_gate, (record { default = false; lock_to_default = false; pre_release = beta }))
    ∷ []

abbrev pub new_feature_gate : FeatureGate
new_feature_gate = record { known = default_features; enabled = []; closed = false }

abbrev pub is_set : String → Map Bool → Bool
is_set k enabled = elim (lookup k enabled) [ none ↦ false | some _ ↦ true ]

-- setUnsetAlphaGates and setUnsetBetaGates, which differ in the value of PreRelease.
abbrev pub set_unset : String → Map FeatureSpec → Map Bool → Bool → Map Bool
set_unset pre_release [] enabled val = enabled
set_unset pre_release ((k, v) ∷ known) enabled val =
    set_unset pre_release known
      (if v.pre_release == pre_release && not (is_set k enabled)
        then put k val enabled
        else enabled)
      val

-- `if fn, found := f.special[k]; found { fn(known, enabled, v) }`
abbrev pub run_special : String → Map FeatureSpec → Map Bool → Bool → Map Bool
run_special k known enabled val =
    if k == all_alpha_gate
    then set_unset alpha known enabled val
    else if k == all_beta_gate
    then set_unset beta known enabled val
    else enabled

abbrev pub is_same : Bool → Bool → Bool
is_same true b = b
is_same false b = not b

-- The tests of SetFromMap for one entry, and what the rest of its loop gives.
abbrev pub check_entry : Option FeatureSpec → String → Bool → Result (Map Bool) → Result (Map Bool)
check_entry none k v rest = err (errorf "unrecognized feature gate: %s" (k ∷ []))
check_entry (some spec) k v rest =
    if spec.lock_to_default && not (is_same spec.default v)
    then err (
        errorf "cannot set feature gate %v to %v, feature is locked to %v"
          (k ∷ (bool_text v ∷ (bool_text spec.default ∷ []))))
    else rest

-- The loop of SetFromMap.
abbrev pub set_each : Map FeatureSpec → Map Bool → Map Bool → Result (Map Bool)
set_each known enabled [] = ok enabled
set_each known enabled ((k, v) ∷ m) =
    check_entry (lookup k known) k v (set_each known (run_special k known (put k v enabled) v) m)

abbrev pub store_enabled : FeatureGate → Result (Map Bool) → Option Error × FeatureGate
store_enabled f (err e) = (some e, f)
store_enabled f (ok enabled) = (none, record f { enabled = enabled })

-- The error, and the gate after the call.
unfoldable pub set_from_map : Map Bool → FeatureGate → Option Error × FeatureGate
set_from_map m f = store_enabled f (set_each f.known f.enabled m)

unfoldable pub set : (Map Bool → Map Bool) → String → FeatureGate → Option Error × FeatureGate
unfolding set_from_map
set range value f = elim (parse value) [ err e ↦ (some e, f) | ok m ↦ set_from_map (range m) f ]

abbrev pub same_spec : FeatureSpec → FeatureSpec → Bool
same_spec s t =
    is_same s.default t.default
    && is_same s.lock_to_default t.lock_to_default
    && s.pre_release == t.pre_release

-- The loop of Add.
abbrev pub check_spec :
    Option FeatureSpec
    → String
    → FeatureSpec
    → Result (Map FeatureSpec)
    → Result (Map FeatureSpec)
    → Result (Map FeatureSpec)
check_spec none name spec kept added = added
check_spec (some existing) name spec kept added =
    if same_spec existing spec
    then kept
    else err (errorf "feature gate %q with different spec already exists: %v" (name ∷ []))

abbrev pub add_each : Map FeatureSpec → Map FeatureSpec → Result (Map FeatureSpec)
add_each known [] = ok known
add_each known ((name, spec) ∷ features) =
    check_spec (lookup name known) name spec (add_each known features)
      (add_each (put name spec known) features)

abbrev pub store_known : FeatureGate → Result (Map FeatureSpec) → Option Error × FeatureGate
store_known f (err e) = (some e, f)
store_known f (ok known) = (none, record f { known = known })

unfoldable pub add : Map FeatureSpec → FeatureGate → Option Error × FeatureGate
add features f =
    if f.closed
    then (some (errorf "cannot add a feature gate after adding it to the flag set" []), f)
    else store_known f (add_each f.known features)

abbrev pub default_of : Option FeatureSpec → Option Bool
default_of none = none
default_of (some spec) = some spec.default

abbrev pub value_or : Option Bool → Option Bool → Option Bool
value_or (some v) o = some v
value_or none o = o

-- Enabled; `none` is the panic.
unfoldable pub is_enabled : String → FeatureGate → Option Bool
is_enabled key f = value_or (lookup key f.enabled) (default_of (lookup key f.known))

abbrev pub get_all : FeatureGate → Map FeatureSpec
get_all f = f.known

-- What AddFlag does to the gate; the flag set is not modelled.
abbrev pub add_flag : FeatureGate → FeatureGate
add_flag f = record f { closed = true }

abbrev pub deep_copy : FeatureGate → FeatureGate
deep_copy f = record { known = f.known; enabled = f.enabled; closed = f.closed }

-- String
unfoldable pub pairs : Map Bool → List String
pairs [] = []
pairs ((k, v) ∷ m) = (k +s "=" +s bool_text v) ∷ pairs m

unfoldable pub string : FeatureGate → String
unfolding pairs
string f = join (sort (pairs f.enabled)) ","

known_lines : Map FeatureSpec → List String
known_lines [] = []
known_lines ((k, v) ∷ known) =
    if v.pre_release == ga || v.pre_release == deprecated
    then known_lines known
    else (k +s "=true|false (" +s v.pre_release +s " - default=" +s bool_text v.default +s ")")
      ∷ known_lines known

unfoldable pub known_features : FeatureGate → List String
unfolding known_lines
known_features f = sort (known_lines f.known)
