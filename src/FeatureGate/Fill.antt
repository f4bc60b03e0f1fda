-- ===== src/FeatureGate/Fill.antt =====
-- What setting gates does to the value of each feature: setUnsetAlphaGates, setUnsetBetaGates and
-- the loop of SetFromMap of components/featuregate/feature_gate.go.
use apiserver.Base.{
  String, Bool, true, false, not, ◌&&◌, [], ◌∷◌, Option, none, some, Map, lookup, put, lookup-put,
  Unique, Result, ok, ok_inj, ◌==◌, if◌then◌else◌, if_ind, ◌≡◌, refl, sym, ap, ◌∙◌, inl, inr, arith,
  Bool-cases, eq_iff,
}
use apiserver.FeatureGate.{
  FeatureSpec, alpha, beta, all_alpha_gate, all_beta_gate, is_set, set_unset, run_special, set_each,
  check_entry, is_same,
}

abbrev pub or_else : {A : Type 0} → Option A → Option A → Option A
or_else (some a) o = some a
or_else none o = o

-- The value of the gate that stands for all features of a stage.
abbrev pub gate_value : String → Map Bool → Option Bool
gate_value pre_release m =
    if pre_release == alpha
    then lookup all_alpha_gate m
    else if pre_release == beta
    then lookup all_beta_gate m
    else none

abbrev pub by_stage : Option FeatureSpec → Map Bool → Option Bool
by_stage none m = none
by_stage (some s) m = gate_value s.pre_release m

abbrev fills : String → Option FeatureSpec → Bool → Option Bool
fills pre none v = none
fills pre (some s) v = if s.pre_release == pre then some v else none

abbrev special_fills : String → Option FeatureSpec → Bool → Option Bool
special_fills j s v =
    if j == all_alpha_gate
    then fills alpha s v
    else if j == all_beta_gate
    then fills beta s v
    else none

lookup-if :
    (b : Bool) (k : String) (x y : Map Bool)
    → lookup k (if b then x else y) ≡ (if b then lookup k x else lookup k y)
lookup-if true k x y = refl
lookup-if false k x y = refl

or_else-none : (o : Option Bool) → o ≡ or_else o none
or_else-none (some b) = refl
or_else-none none = refl

fill_here :
    (a v : Bool) (o f : Option Bool)
    → f ≡ none
    → or_else (if a && not (elim o [ none ↦ false | some _ ↦ true ]) then some v else o) f
      ≡ or_else o (if a then some v else none)
fill_here true v (some x) f e = refl
fill_here true v none f e = refl
fill_here false v o f e = ap (or_else o) e

fill_there : (a : Bool) (o f : Option Bool) → or_else (if a then o else o) f ≡ or_else o f
fill_there true o f = refl
fill_there false o f = refl

pub lookup-set_unset :
    (pre : String) (known : Map FeatureSpec) (enabled : Map Bool) (v : Bool) (k : String)
    → Unique known
    → lookup k (set_unset pre known enabled v)
      ≡ or_else (lookup k enabled) (fills pre (lookup k known) v)
lookup-set_unset pre [] enabled v k u = or_else-none (lookup k enabled)
lookup-set_unset pre ((j, s) ∷ known) enabled v k (h, u) =
    let a = s.pre_release == pre in
    lookup-set_unset pre known (if a && not (is_set j enabled) then put j v enabled else enabled) v
      k u
    ∙ rw (lookup-if (a && not (is_set j enabled)) k (put j v enabled) enabled) (
        rw (lookup-put j k v enabled) (elim (Bool-cases (j == k)) [
          | inl t ↦
              let e : j ≡ k = (eq_iff j k).0 t in
              rw t (
                rw e (
                  fill_here a v (lookup k enabled) _
                    (ap (λ o. fills pre o v) (ap (λ i. lookup i known) (sym e) ∙ h))))
          | inr t ↦ rw t (fill_there (a && not (is_set j enabled)) (lookup k enabled) _)
        ]))

lookup-run_special :
    (j : String) (known : Map FeatureSpec) (enabled : Map Bool) (v : Bool) (k : String)
    → Unique known
    → lookup k (run_special j known enabled v)
      ≡ or_else (lookup k enabled) (special_fills j (lookup k known) v)
lookup-run_special j known enabled v k u = by_gate (j == all_alpha_gate) (j == all_beta_gate)
  where
    by_gate :
        (a b : Bool)
        → lookup k (
            if a
            then set_unset alpha known enabled v
            else if b
            then set_unset beta known enabled v
            else enabled)
          ≡ or_else (lookup k enabled) (
              if a
              then fills alpha (lookup k known) v
              else if b
              then fills beta (lookup k known) v
              else none)
    by_gate true b = lookup-set_unset alpha known enabled v k u
    by_gate false true = lookup-set_unset beta known enabled v k u
    by_gate false false = or_else-none (lookup k enabled)

-- A gate that is set first counts before the rest of the map.
stage_cases :
    (pa pb ja jb v : Bool) (x y : Option Bool)
    → (pa ≡ true → pb ≡ true → ⊥)
    → (ja ≡ true → jb ≡ true → ⊥)
    → or_else
        (if ja
          then (if pa then some v else none)
          else if jb
          then (if pb then some v else none)
          else none)
        (if pa then x else if pb then y else none)
      ≡ (if pa then (if ja then some v else x) else if pb then (if jb then some v else y) else none)
stage_cases true true ja jb v x y p j = absurd (p refl refl)
stage_cases true false true jb v x y p j = refl
stage_cases true false false true v x y p j = refl
stage_cases true false false false v x y p j = refl
stage_cases false pb true true v x y p j = absurd (j refl refl)
stage_cases false true true false v x y p j = refl
stage_cases false true false true v x y p j = refl
stage_cases false true false false v x y p j = refl
stage_cases false false true false v x y p j = refl
stage_cases false false false true v x y p j = refl
stage_cases false false false false v x y p j = refl

two_texts : (s t u : String) → (t == u) ≡ false → s == t ≡ true → s == u ≡ true → ⊥
two_texts s t u n h k = ground (arith, (eq_iff t u).1 (sym ((eq_iff s t).0 h) ∙ (eq_iff s u).0 k))

none_anyway :
    (a b : Bool) (o : Option Bool) → or_else (if a then o else if b then o else o) o ≡ or_else o o
none_anyway true b o = refl
none_anyway false true o = refl
none_anyway false false o = refl

by_stage_step :
    (j : String) (s : Option FeatureSpec) (v : Bool) (m : Map Bool)
    → or_else (special_fills j s v) (by_stage s m) ≡ by_stage s ((j, v) ∷ m)
by_stage_step j none v m = none_anyway (j == all_alpha_gate) (j == all_beta_gate) none
by_stage_step j (some s) v m =
    stage_cases (s.pre_release == alpha) (s.pre_release == beta) (j == all_alpha_gate)
      (j == all_beta_gate) v (lookup all_alpha_gate m) (lookup all_beta_gate m)
      (two_texts s.pre_release alpha beta refl) (two_texts j all_alpha_gate all_beta_gate refl)

or_else_assoc : (a b c : Option Bool) → or_else (or_else a b) c ≡ or_else a (or_else b c)
or_else_assoc none b c = refl
or_else_assoc (some a) b c = refl

-- One round of the loop, the key j with the value v in front of the entries m.
round :
    (j : String) (v : Bool) (m en : Map Bool) (s : Option FeatureSpec) (k : String)
    → lookup j m ≡ none
    → or_else
        (lookup k m)
        (or_else (or_else (lookup k (put j v en)) (special_fills j s v)) (by_stage s m))
      ≡ or_else (lookup k ((j, v) ∷ m)) (or_else (lookup k en) (by_stage s ((j, v) ∷ m)))
round j v m en s k h = rw (lookup-put j k v en) (elim (Bool-cases (j == k)) [
  | inl t ↦ let e : j ≡ k = (eq_iff j k).0 t in rw t (rw (ap (λ i. lookup i m) (sym e) ∙ h) refl)
  | inr t ↦ rw t (
      ap (or_else (lookup k m)) (
        or_else_assoc (lookup k en) (special_fills j s v) (by_stage s m)
        ∙ ap (or_else (lookup k en)) (by_stage_step j s v m)))
])

by_stage-nil : (s : Option FeatureSpec) → by_stage s [] ≡ none
by_stage-nil none = refl
by_stage-nil (some s) = by_gate (s.pre_release == alpha) (s.pre_release == beta)
  where
    by_gate : (a b : Bool) → (if a then none else if b then none else (none)) ≡ by_stage none []
    by_gate true b = refl
    by_gate false true = refl
    by_gate false false = refl

-- An entry that passes the tests: its feature is known, and is not locked to another value.
pub check_entry-ok :
    (s : Option FeatureSpec) (k : String) (v : Bool) (rest : Result (Map Bool)) (after : Map Bool)
    → check_entry s k v rest ≡ ok after
    → (rest ≡ ok after)
      × ((spec : FeatureSpec) × (s ≡ some spec) × (spec.lock_to_default ≡ true → spec.default ≡ v))
check_entry-ok none k v rest after h = cc
check_entry-ok (some spec) k v rest after h =
    if_ind
      (λ r.
        r ≡ ok after
        → (rest ≡ ok after)
          × ((given : FeatureSpec) × (some spec ≡ some given)
              × (given.lock_to_default ≡ true → given.default ≡ v)))
      (spec.lock_to_default && not (is_same spec.default v)) (λ t g. cc)
      (λ t g. (g, (spec, refl, λ l. same_of_test spec.lock_to_default spec.default v t l))) h
  where
    same_of_test : (l d v : Bool) → (l && not (is_same d v)) ≡ false → l ≡ true → d ≡ v
    same_of_test true true true t h = refl
    same_of_test true true false t h = t
    same_of_test true false true t h = sym t
    same_of_test true false false t h = refl
    same_of_test false d v t h = absurd (ground arith)

-- The value of each feature after the loop, whatever the order of the entries: the one given for
-- it, else the one it had, else the one given to the gate of its stage.
pub lookup-set_each :
    (known : Map FeatureSpec) (enabled m after : Map Bool) (k : String)
    → Unique known
    → Unique m
    → set_each known enabled m ≡ ok after
    → lookup k after
      ≡ or_else (lookup k m) (or_else (lookup k enabled) (by_stage (lookup k known) m))
lookup-set_each known enabled [] after k u um h =
    ap (lookup k) (sym (ok_inj h))
    ∙ or_else-none (lookup k enabled)
    ∙ ap (or_else (lookup k enabled)) (sym (by_stage-nil (lookup k known)))
lookup-set_each known enabled ((j, v) ∷ m) after k u (hm, um) h =
    lookup-set_each known (run_special j known (put j v enabled) v) m after k u um
      (check_entry-ok (lookup j known) j v _ after h).0
    ∙ rw (lookup-run_special j known (put j v enabled) v k u)
        (round j v m enabled (lookup k known) k hm)
