-- ===== src/FeatureGate/Laws.antt =====
-- Setting and adding features: components/featuregate/feature_gate.go.
use apiserver.Base.{
  String, Bool, true, false, not, ◌&&◌, [], ◌∷◌, All, none, some, Map, lookup, put, Unique, Result,
  ok, err, if_false, ◌≡◌, ◌≢◌, ◌↔◌, ◌⊎◌, refl, sym, ap, ◌∙◌, inl, inr, Option-cases,
}
use apiserver.FeatureGate.{
  FeatureSpec, FeatureGate, run_special, set_each, check_entry, store_enabled, set_from_map,
  is_same,
}
use apiserver.FeatureGate.Fill.{or_else, by_stage, check_entry-ok, lookup-set_each}

-- An entry that may be set: its feature is known, and is not locked to another value.
unfoldable pub Settable : Map FeatureSpec → String × Bool → Type 0
Settable known (k, v) =
    (spec : FeatureSpec) × (lookup k known ≡ some spec)
    × (spec.lock_to_default ≡ true → spec.default ≡ v)

store_enabled-ok :
    (f : FeatureGate) (r : Result (Map Bool))
    → (store_enabled f r).0 ≡ none
    → (after : Map Bool) × (r ≡ ok after) × ((store_enabled f r).1 ≡ record f { enabled = after })
store_enabled-ok f (err e) h = cc
store_enabled-ok f (ok after) h = (after, refl, refl)

store_enabled-err :
    (f : FeatureGate) (r : Result (Map Bool))
    → (store_enabled f r).0 ≢ none
    → (store_enabled f r).1 ≡ f
store_enabled-err f (err e) h = refl
store_enabled-err f (ok after) h = absurd (h refl)

-- A call that returns an error leaves the gate as it was.
pub set_from_map-err :
    (m : Map Bool) (f : FeatureGate) → (set_from_map m f).0 ≢ none → (set_from_map m f).1 ≡ f
unfolding set_from_map
set_from_map-err m f = store_enabled-err f (set_each f.known f.enabled m)

check_entry-Settable :
    (known : Map FeatureSpec) (k : String) (v : Bool) (rest : Result (Map Bool))
    → Settable known (k, v)
    → check_entry (lookup k known) k v rest ≡ rest
unfolding Settable
check_entry-Settable known k v rest (spec, e, l) = rw e (
    if_false (spec.lock_to_default && not (is_same spec.default v)) _ _
      (test_of_same spec.lock_to_default spec.default v l))
  where
    test_of_same : (b d v : Bool) → (b ≡ true → d ≡ v) → (b && not (is_same d v)) ≡ false
    test_of_same true true v h = rw (← h refl) refl
    test_of_same true false v h = rw (← h refl) refl
    test_of_same false d v h = refl

set_each-Settable :
    (known : Map FeatureSpec) (enabled m : Map Bool)
    → All (Settable known) m
    → (after : Map Bool) × (set_each known enabled m ≡ ok after)
set_each-Settable known enabled [] h = (enabled, refl)
set_each-Settable known enabled ((k, v) ∷ m) (h, hs) =
    let r = set_each-Settable known (run_special k known (put k v enabled) v) m hs in
    (r.0, check_entry-Settable known k v _ h ∙ r.1)

pub Settable-set_each :
    (known : Map FeatureSpec) (enabled m after : Map Bool)
    → set_each known enabled m ≡ ok after
    → All (Settable known) m
unfolding Settable
Settable-set_each known enabled [] after h = tt
Settable-set_each known enabled ((k, v) ∷ m) after h =
    let c = check_entry-ok (lookup k known) k v _ after h in
    (c.1, Settable-set_each known (run_special k known (put k v enabled) v) m after c.0)

-- Setting gates succeeds exactly when each entry names a known feature and does not move a locked
-- one from its default.
pub set_from_map-Settable_iff :
    (m : Map Bool) (f : FeatureGate) → ((set_from_map m f).0 ≡ none) ↔ All (Settable f.known) m
unfolding set_from_map
set_from_map-Settable_iff m f = (
  λ h.
      let r = store_enabled-ok f (set_each f.known f.enabled m) h in
      Settable-set_each f.known f.enabled m r.0 r.1,
  λ h. let r = set_each-Settable f.known f.enabled m h in ap (λ s. (store_enabled f s).0) r.1,
)

-- After gates are set without an error, a feature has the value that is given for it, else the one
-- that was set before, else the one that is given for AllAlpha or AllBeta when that is its stage,
-- whatever the order in which the loop takes the entries. A map has no two entries of one key.
pub lookup-set_from_map :
    (m : Map Bool) (f : FeatureGate) (k : String)
    → Unique f.known
    → Unique m
    → (set_from_map m f).0 ≡ none
    → lookup k (set_from_map m f).1.enabled
      ≡ or_else (lookup k m) (or_else (lookup k f.enabled) (by_stage (lookup k f.known) m))
unfolding set_from_map
lookup-set_from_map m f k u um h =
    let r = store_enabled-ok f (set_each f.known f.enabled m) h in
    ap (λ g. lookup k g.enabled) r.2 ∙ lookup-set_each f.known f.enabled m r.0 k u um r.1

-- What SetFromMap leaves: the gate as it was, or the values of its loop.
pub set_from_map-cases :
    (m : Map Bool) (f : FeatureGate)
    → ((set_from_map m f).1 ≡ f)
      ⊎ ((after : Map Bool) × (set_each f.known f.enabled m ≡ ok after)
          × ((set_from_map m f).1 ≡ record f { enabled = after }))
unfolding set_from_map
set_from_map-cases m f = elim (Option-cases (set_from_map m f).0) [
  | inl n ↦ inr (store_enabled-ok f (set_each f.known f.enabled m) n)
  | inr (e, h) ↦ inl (set_from_map-err m f (λ n. let q : none ≡ some e = sym n ∙ h in cc))
]
