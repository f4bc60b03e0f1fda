-- ===== src/FeatureGate/Locks.antt =====
-- The invariant of a feature gate, and what a locked feature keeps:
-- components/featuregate/feature_gate.go.
use apiserver.Base.{
  String, Bool, true, false, [], ◌∷◌, All, Option, none, some, some_inj, Map, lookup, Unique, ok,
  ◌==◌, if◌then◌else◌, ◌≡◌, ◌≢◌, ◌↔◌, ◌⊎◌, refl, sym, ap, ◌∙◌, inl, inr, differ, Bool-cases, eq_iff,
  subst, Option-cases, if_true, if_false,
}
use apiserver.FeatureGate.{
  FeatureSpec, FeatureGate, alpha, beta, all_alpha_gate, set_each, set_from_map, add, add_each,
  add_flag, deep_copy, is_enabled, value_or, default_of, new_feature_gate,
}
use apiserver.FeatureGate.Fill.{or_else, by_stage, lookup-set_each}
use apiserver.FeatureGate.Laws.{
  Settable, Settable-set_each, set_from_map-cases, lookup-set_from_map,
}
use apiserver.FeatureGate.Adding.{Extended, add-cases, lookup-add_each, Unique-add_each}

-- A gate as its operations make it. A Go map has no two entries of one key.
pub data Reachable : FeatureGate → Type 0 where
  fresh : Reachable new_feature_gate
  setting_values :
      {f : FeatureGate} (m : Map Bool) → Unique m → Reachable f → Reachable (set_from_map m f).1
  adding_features :
      {f : FeatureGate} (features : Map FeatureSpec)
      → Unique features
      → Reachable f
      → Reachable (add features f).1
  closing : {f : FeatureGate} → Reachable f → Reachable (add_flag f)
  copying : {f : FeatureGate} → Reachable f → Reachable (deep_copy f)

-- A feature that SetFromMap alone can move: no gate stands for its stage.
unfoldable pub Fixed : FeatureSpec → Type 0
Fixed spec = (spec.lock_to_default ≡ true) × (spec.pre_release ≢ alpha) × (spec.pre_release ≢ beta)

-- Each value that is set belongs to a known feature, and is the default of a fixed one.
pub record WellFormed (f : FeatureGate) : Type 0 where
  pub unique_known : Unique f.known
  pub is_known :
      (k : String) (v : Bool)
      → lookup k f.enabled ≡ some v
      → (spec : FeatureSpec) × (lookup k f.known ≡ some spec)
  pub is_default :
      (k : String) (v : Bool) (spec : FeatureSpec)
      → lookup k f.enabled ≡ some v
      → lookup k f.known ≡ some spec
      → Fixed spec
      → spec.default ≡ v

locked : (spec : FeatureSpec) → Fixed spec → spec.lock_to_default ≡ true
unfolding Fixed
locked spec x = x.0

All-lookup :
    (P : String × Bool → Type 0) (m : Map Bool) (k : String) (v : Bool)
    → All P m
    → lookup k m ≡ some v
    → P (k, v)
All-lookup P [] k v h e = cc
All-lookup P ((j, w) ∷ m) k v (h, hs) e = elim (Bool-cases (j == k)) [
  | inl t ↦
      subst (λ p. P p)
        (ap (λ i. (i, w)) ((eq_iff j k).0 t)
          ∙ ap (λ b. (k, b)) (some_inj (sym (if_true (j == k) _ _ t) ∙ e)))
        h
  | inr t ↦ All-lookup P m k v hs (sym (if_false (j == k) _ _ t) ∙ e)
]

or_else-cases :
    (a b : Option Bool) (v : Bool)
    → or_else a b ≡ some v
    → (a ≡ some v) ⊎ ((a ≡ none) × (b ≡ some v))
or_else-cases none b v h = inr (refl, h)
or_else-cases (some a) b v h = inl h

by_stage-known :
    (s : Option FeatureSpec) (m : Map Bool) (v : Bool)
    → by_stage s m ≡ some v
    → (spec : FeatureSpec) × (s ≡ some spec)
by_stage-known none m v h = cc
by_stage-known (some s) m v h = (s, refl)

by_stage-Fixed : (spec : FeatureSpec) (m : Map Bool) → Fixed spec → by_stage (some spec) m ≡ none
unfolding Fixed
by_stage-Fixed spec m (l, a, b) =
    if_false (spec.pre_release == alpha) _ _ (differ spec.pre_release alpha a)
    ∙ if_false (spec.pre_release == beta) _ _ (differ spec.pre_release beta b)

module _ (f : FeatureGate) (w : WellFormed f) (m after : Map Bool) (um : Unique m)
    (h : set_each f.known f.enabled m ≡ ok after) where
  value_cases :
      (k : String) (v : Bool)
      → lookup k after ≡ some v
      → Settable f.known (k, v)
        ⊎ ((lookup k f.enabled ≡ some v) ⊎ (by_stage (lookup k f.known) m ≡ some v))
  value_cases k v e =
      elim (or_else-cases (lookup k m) _ v
        (sym (lookup-set_each f.known f.enabled m after k w.unique_known um h) ∙ e)) [
          | inl a ↦ inl (
              All-lookup (Settable f.known) m k v (Settable-set_each f.known f.enabled m after h) a)
          | inr (n, a) ↦ elim (or_else-cases (lookup k f.enabled) _ v a) [
            | inl b ↦ inr (inl b)
            | inr (n', b) ↦ inr (inr b)
          ]
        ]

  WellFormed-set_each : WellFormed (record f { enabled = after })
  unfolding Settable
  WellFormed-set_each = record {
    unique_known = w.unique_known;
    is_known = λ k v e. elim (value_cases k v e) [
      | inl (spec, known, l) ↦ (spec, known)
      | inr a ↦ elim a [
        | inl b ↦ w.is_known k v b
        | inr b ↦ by_stage-known (lookup k f.known) m v b
      ]
    ];
    is_default = λ k v spec e known x. elim (value_cases k v e) [
      | inl (given, found, l) ↦
          let q : given ≡ spec = some_inj (sym found ∙ known) in
          ap (λ (s : FeatureSpec). s.default) (sym q)
          ∙ l (ap (λ (s : FeatureSpec). s.lock_to_default) q ∙ locked spec x)
      | inr a ↦ elim a [
        | inl b ↦ w.is_default k v spec b known x
        | inr b ↦
            let n : none ≡ some v =
              sym (by_stage-Fixed spec m x) ∙ ap (λ o. by_stage o m) (sym known) ∙ b in
            absurd (cc)
      ]
    ];
  }

WellFormed-set_from_map :
    (f : FeatureGate) (m : Map Bool) → Unique m → WellFormed f → WellFormed (set_from_map m f).1
WellFormed-set_from_map f m um w = elim (set_from_map-cases m f) [
  | inl e ↦ subst WellFormed (sym e) w
  | inr (after, h, e) ↦ subst WellFormed (sym e) (WellFormed-set_each f w m after um h)
]

still_known :
    (f : FeatureGate) (features after : Map FeatureSpec) (k : String) (spec : FeatureSpec)
    → Unique features
    → add_each f.known features ≡ ok after
    → lookup k f.known ≡ some spec
    → lookup k after ≡ some spec
still_known f features after k spec u h e =
    lookup-add_each f.known features after k u h ∙ ap (λ o. or_else o (lookup k features)) e

WellFormed-add_each :
    (f : FeatureGate) (features after : Map FeatureSpec)
    → Unique features
    → add_each f.known features ≡ ok after
    → WellFormed f
    → WellFormed (record f { known = after })
WellFormed-add_each f features after u h w = record {
  unique_known = Unique-add_each f.known features after w.unique_known h;
  is_known = λ k v e.
      let (spec, known) = w.is_known k v e in (spec, still_known f features after k spec u h known);
  is_default = λ k v spec e known x.
      let (before, found) = w.is_known k v e in
      let q : before ≡ spec =
        some_inj (sym (still_known f features after k before u h found) ∙ known) in
      w.is_default k v spec e (found ∙ ap some q) x;
}

WellFormed-add :
    (f : FeatureGate) (features : Map FeatureSpec)
    → Unique features
    → WellFormed f
    → WellFormed (add features f).1
unfolding Extended
WellFormed-add f features u w = elim (add-cases features f) [
  | inl e ↦ subst WellFormed (sym e) w
  | inr (after, h, e) ↦ subst WellFormed (sym e) (WellFormed-add_each f features after u h w)
]

-- The invariant does not mention the flag that AddFlag sets.
WellFormed-closed :
    (f : FeatureGate) (b : Bool) → WellFormed f → WellFormed (record f { closed = b })
WellFormed-closed f b w = record {
  unique_known = w.unique_known;
  is_known = w.is_known;
  is_default = w.is_default;
}

WellFormed-new : WellFormed new_feature_gate
WellFormed-new = record {
  unique_known = (refl, (refl, tt));
  is_known = λ k v e. cc;
  is_default = λ k v spec e known x. cc;
}

-- A gate that the operations make is well-formed: what is set is known, and a locked feature of a
-- stage that no gate stands for is set to its default only.
pub Reachable-WellFormed : (f : FeatureGate) → Reachable f → WellFormed f
Reachable-WellFormed f fresh = WellFormed-new
Reachable-WellFormed f (setting_values {f = g} m um r) =
    WellFormed-set_from_map g m um (Reachable-WellFormed g r)
Reachable-WellFormed f (adding_features {f = g} features u r) =
    WellFormed-add g features u (Reachable-WellFormed g r)
Reachable-WellFormed f (closing {f = g} r) = WellFormed-closed g true (Reachable-WellFormed g r)
Reachable-WellFormed f (copying {f = g} r) = WellFormed-closed g g.closed (Reachable-WellFormed g r)

-- On a gate that the operations make, Enabled panics exactly for a feature that is not known.
pub is_enabled-none_iff :
    (f : FeatureGate) (k : String)
    → Reachable f
    → (is_enabled k f ≡ none) ↔ (lookup k f.known ≡ none)
unfolding is_enabled
is_enabled-none_iff f k r = (to, from)
  where
    unset : (o : Option Bool) (s : Option FeatureSpec) → value_or o (default_of s) ≡ none → s ≡ none
    unset none none h = refl
    unset none (some s) h = cc
    unset (some v) s h = cc

    to :
        value_or (lookup k f.enabled) (default_of (lookup k f.known)) ≡ none
        → lookup k f.known ≡ none
    to h = unset (lookup k f.enabled) (lookup k f.known) h

    from :
        lookup k f.known ≡ none
        → value_or (lookup k f.enabled) (default_of (lookup k f.known)) ≡ none
    from n = elim (Option-cases (lookup k f.enabled)) [
      | inl e ↦ rw e (rw n refl)
      | inr (v, e) ↦
          let (spec, known) = (Reachable-WellFormed f r).is_known k v e in
          let q : none ≡ some spec = sym n ∙ known in absurd (cc)
    ]

-- On a gate that the operations make, Enabled returns its default for a locked feature whose stage
-- is neither alpha nor beta.
pub is_enabled-Fixed :
    (f : FeatureGate) (k : String) (spec : FeatureSpec)
    → Reachable f
    → lookup k f.known ≡ some spec
    → Fixed spec
    → is_enabled k f ≡ some spec.default
unfolding is_enabled
is_enabled-Fixed f k spec r known x = elim (Option-cases (lookup k f.enabled)) [
  | inl e ↦ rw e (rw known refl)
  | inr (v, e) ↦ rw e (ap some (sym ((Reachable-WellFormed f r).is_default k v spec e known x)))
]

-- Setting AllAlpha alone, where it may be set, moves each other alpha feature that has no value of
-- its own, also one that is locked to its default.
pub is_enabled-all_alpha :
    (f : FeatureGate) (k : String) (spec : FeatureSpec) (v : Bool)
    → Reachable f
    → lookup k f.known ≡ some spec
    → spec.pre_release ≡ alpha
    → lookup k f.enabled ≡ none
    → (set_from_map ((all_alpha_gate, v) ∷ []) f).0 ≡ none
    → is_enabled k (set_from_map ((all_alpha_gate, v) ∷ []) f).1 ≡ some v
unfolding is_enabled
is_enabled-all_alpha f k spec v r known a n h =
    let g = (set_from_map ((all_alpha_gate, v) ∷ []) f).1 in
    let e : lookup k g.enabled ≡ some v =
      lookup-set_from_map ((all_alpha_gate, v) ∷ []) f k (Reachable-WellFormed f r).unique_known
        (refl, tt) h
      ∙ rw n (rw known (rw a (by_key (all_alpha_gate == k)))) in
    ap (λ o. value_or o (default_of (lookup k g.known))) e
  where
    by_key : (b : Bool) → or_else (if b then some v else none) (some v) ≡ some v
    by_key true = refl
    by_key false = refl
