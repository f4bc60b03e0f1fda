-- ===== src/FeatureGate/Tests.antt =====
-- Runs of a feature gate, and instances of its theorems.
use apiserver.Base.{
  trim_space, String, Bool, true, false, [], ◌∷◌, All, none, some, Map, lookup, errorf, ◌≡◌, ◌↔◌,
  refl, arith, ne_of_test,
}
use apiserver.FeatureGate.{
  FeatureSpec, FeatureGate, new_feature_gate, all_alpha_gate, alpha, beta, set_from_map, set, add,
  is_enabled, string, known_features, add_flag,
}
use apiserver.FeatureGate.Parse.{parse, sort}
use apiserver.FeatureGate.Fill.{or_else, by_stage}
use apiserver.FeatureGate.Laws.{Settable, set_from_map-Settable_iff, lookup-set_from_map}
use apiserver.FeatureGate.Adding.{lookup-add, is_enabled-add}
use apiserver.FeatureGate.Locks.{
  Reachable, fresh, adding_features, Fixed, is_enabled-none_iff, is_enabled-Fixed,
  is_enabled-all_alpha,
}
use apiserver.FeatureGate.RoundTrip.{Plain}
use apiserver.FeatureGate.SetBack.{Ranges, set-string}

abbrev locked_alpha : FeatureSpec
locked_alpha = record { default = false; lock_to_default = true; pre_release = alpha }

abbrev locked_ga : FeatureSpec
locked_ga = record { default = true; lock_to_default = true; pre_release = "" }

abbrev features : Map FeatureSpec
features = ("Old", locked_alpha) ∷ (("Stable", locked_ga) ∷ [])

abbrev gate : FeatureGate
gate = (add features new_feature_gate).1

abbrev values : Map Bool
values = ("AllAlpha", true) ∷ (("Stable", true) ∷ [])

-- A gate with values, as the flag sets them.
abbrev gate_of_flag : FeatureGate
gate_of_flag = (set (λ m. m) " AllAlpha = true,,Stable=1" gate).1

printed : string gate_of_flag ≡ "AllAlpha=true,Old=true,Stable=true"
unfolding set set_from_map string add parse trim_space sort
printed = refl

no_value :
    (set (λ m. m) "AllAlpha" gate).0 ≡ some (errorf "missing bool value for %s" ("AllAlpha" ∷ []))
unfolding set parse trim_space
no_value = refl

unknown : (set (λ m. m) "New=t" gate).0 ≡ some (errorf "unrecognized feature gate: %s" ("New" ∷ []))
unfolding set set_from_map parse add trim_space
unknown = refl

shown :
    known_features gate
    ≡ "AllAlpha=true|false (ALPHA - default=false)"
      ∷ ("AllBeta=true|false (BETA - default=false)"
          ∷ ("Old=true|false (ALPHA - default=false)" ∷ []))
unfolding known_features add sort
shown = refl

closed : (add features (add_flag gate)).1 ≡ add_flag gate
unfolding add
closed = refl

Reachable-gate : Reachable gate
Reachable-gate = adding_features features (refl, (refl, tt)) fresh

is_settable : (set_from_map values gate).0 ≡ none
unfolding set_from_map add
is_settable = refl

set_from_map-Settable_iff_example :
    ((set_from_map values gate).0 ≡ none) ↔ All (Settable gate.known) values
set_from_map-Settable_iff_example = set_from_map-Settable_iff values gate

lookup-set_from_map_example :
    lookup "Old" (set_from_map values gate).1.enabled
    ≡ or_else
        (lookup "Old" values)
        (or_else (lookup "Old" gate.enabled) (by_stage (lookup "Old" gate.known) values))
unfolding add
lookup-set_from_map_example =
    lookup-set_from_map values gate "Old" (refl, (refl, (refl, (refl, tt)))) (refl, (refl, tt))
      is_settable

lookup-add_example :
    lookup "Old" gate.known ≡ or_else (lookup "Old" new_feature_gate.known) (lookup "Old" features)
unfolding add
lookup-add_example = lookup-add features new_feature_gate "Old" (refl, (refl, tt)) refl

is_enabled-add_example : is_enabled "AllBeta" gate ≡ is_enabled "AllBeta" new_feature_gate
is_enabled-add_example =
    is_enabled-add features new_feature_gate "AllBeta"
      (record { default = false; lock_to_default = false; pre_release = "BETA" }) (refl, (refl, tt))
      refl

is_enabled-none_iff_example :
    (is_enabled "Unknown" gate ≡ none) ↔ (lookup "Unknown" gate.known ≡ none)
is_enabled-none_iff_example = is_enabled-none_iff gate "Unknown" Reachable-gate

is_enabled-Fixed_example : is_enabled "Stable" gate ≡ some true
unfolding add Fixed
is_enabled-Fixed_example =
    is_enabled-Fixed gate "Stable" locked_ga Reachable-gate refl
      (refl, ne_of_test "" alpha refl, ne_of_test "" beta refl)

is_enabled-all_alpha_example :
    is_enabled "Old" (set_from_map ((all_alpha_gate, true) ∷ []) gate).1 ≡ some true
unfolding add set_from_map
is_enabled-all_alpha_example =
    is_enabled-all_alpha gate "Old" locked_alpha true Reachable-gate refl refl refl refl

-- A gate with a value for each feature that may be set.
abbrev set_gate : FeatureGate
set_gate = (set_from_map (("AllAlpha", false) ∷ (("Stable", true) ∷ [])) gate).1

in_order : Ranges (λ m. m)
in_order = record { once = λ m u. u; same = λ m k. refl }

set-string_example :
    ((set (λ m. m) (string set_gate) gate).0 ≡ none)
    × ((k : String)
        → lookup k (set (λ m. m) (string set_gate) gate).1.enabled
          ≡ or_else
              (lookup k set_gate.enabled)
              (or_else (lookup k gate.enabled) (by_stage (lookup k gate.known) set_gate.enabled)))
unfolding set_from_map add Plain trim_space Settable
set-string_example =
    set-string (λ m. m) in_order set_gate gate (refl, (refl, (refl, tt)))
      (
        (ground arith, ground arith, refl),
        ((ground arith, ground arith, refl), ((ground arith, ground arith, refl), tt)),
      )
      (refl, (refl, (refl, (refl, tt))))
      ((_, refl, λ e. cc), ((_, refl, λ e. refl), ((_, refl, λ e. refl), tt)))
