-- ===== src/FeatureGate/Adding.antt =====
-- Adding features: Add of components/featuregate/feature_gate.go.
use apiserver.Base.{
  String, true, [], ◌∷◌, Option, none, some, Map, lookup, put, lookup-put, Unique, Unique-put,
  Error, Result, ok, err, ok_inj, ◌==◌, if_ind, if_true, if_false, subst, ◌≡◌, ◌⊎◌, refl, sym, ap,
  ◌∙◌, inl, inr, Bool-cases, eq_iff,
}
use apiserver.FeatureGate.{
  FeatureSpec, FeatureGate, same_spec, check_spec, add_each, store_known, add, is_enabled, value_or,
  default_of,
}
use apiserver.FeatureGate.Fill.{or_else}

-- What a feature that passes Add's tests leads to: it is new, or it is there with the same fields.
check_spec-ok :
    (s : Option FeatureSpec) (name : String) (spec : FeatureSpec)
    (kept added : Result (Map FeatureSpec)) (after : Map FeatureSpec)
    → check_spec s name spec kept added ≡ ok after
    → ((s ≡ none) × (added ≡ ok after))
      ⊎ ((existing : FeatureSpec) × (s ≡ some existing)
          × (same_spec existing spec ≡ true)
          × (kept ≡ ok after))
check_spec-ok none name spec kept added after h = inl (refl, h)
check_spec-ok (some existing) name spec kept added after h =
    elim (Bool-cases (same_spec existing spec)) [
      | inl t ↦ inr (existing, refl, t, sym (if_true (same_spec existing spec) kept _ t) ∙ h)
      | inr t ↦ let e = sym (if_false (same_spec existing spec) kept _ t) ∙ h in absurd (cc)
    ]

or_else-put :
    (name k : String) (spec : FeatureSpec) (known features : Map FeatureSpec)
    → lookup name known ≡ none
    → lookup name features ≡ none
    → or_else (lookup k (put name spec known)) (lookup k features)
      ≡ or_else (lookup k known) (lookup k ((name, spec) ∷ features))
or_else-put name k spec known features h g =
    rw (lookup-put name k spec known) (elim (Bool-cases (name == k)) [
      | inl t ↦
          let e : lookup k known ≡ none =
            ap (λ i. lookup i known) (sym ((eq_iff name k).0 t)) ∙ h in
          rw t (rw e refl)
      | inr t ↦ rw t refl
    ])

or_else-known :
    (name k : String) (spec existing : FeatureSpec) (known features : Map FeatureSpec)
    → lookup name known ≡ some existing
    → or_else (lookup k known) (lookup k features)
      ≡ or_else (lookup k known) (lookup k ((name, spec) ∷ features))
or_else-known name k spec existing known features h = elim (Bool-cases (name == k)) [
  | inl t ↦
      let e : lookup k known ≡ some existing =
        ap (λ i. lookup i known) (sym ((eq_iff name k).0 t)) ∙ h in
      rw e refl
  | inr t ↦ rw t refl
]

pub lookup-add_each :
    (known features after : Map FeatureSpec) (k : String)
    → Unique features
    → add_each known features ≡ ok after
    → lookup k after ≡ or_else (lookup k known) (lookup k features)
lookup-add_each known [] after k u h =
    ap (lookup k) (sym (ok_inj h)) ∙ or_else-none (lookup k known)
  where
    or_else-none : (o : Option FeatureSpec) → o ≡ or_else o none
    or_else-none none = refl
    or_else-none (some s) = refl
lookup-add_each known ((name, spec) ∷ features) after k (g, u) h =
    elim (check_spec-ok (lookup name known) name spec _ _ after h) [
      | inl (n, e) ↦
          lookup-add_each (put name spec known) features after k u e
          ∙ or_else-put name k spec known features n g
      | inr (existing, n, t, e) ↦
          lookup-add_each known features after k u e
          ∙ or_else-known name k spec existing known features n
    ]

pub Unique-add_each :
    (known features after : Map FeatureSpec)
    → Unique known
    → add_each known features ≡ ok after
    → Unique after
Unique-add_each known [] after u h = subst Unique (ok_inj h) u
Unique-add_each known ((name, spec) ∷ features) after u h =
    elim (check_spec-ok (lookup name known) name spec _ _ after h) [
      | inl (n, e) ↦
          Unique-add_each (put name spec known) features after (Unique-put name spec known u) e
      | inr (existing, n, t, e) ↦ Unique-add_each known features after u e
    ]

-- What Add does with an open gate.
unfoldable pub Extended : Map FeatureSpec → FeatureGate → FeatureGate → Type 0
Extended features f g =
    (after : Map FeatureSpec) × (add_each f.known features ≡ ok after)
    × (g ≡ record f { known = after })

store_known-cases :
    (features : Map FeatureSpec) (f : FeatureGate) (r : Result (Map FeatureSpec))
    → add_each f.known features ≡ r
    → ((store_known f r).1 ≡ f) ⊎ Extended features f (store_known f r).1
unfolding Extended
store_known-cases features f (err e) h = inl refl
store_known-cases features f (ok after) h = inr (after, h, refl)

store_known-ok :
    (features : Map FeatureSpec) (f : FeatureGate) (r : Result (Map FeatureSpec))
    → add_each f.known features ≡ r
    → (store_known f r).0 ≡ none
    → Extended features f (store_known f r).1
unfolding Extended
store_known-ok features f (err e) h n = cc
store_known-ok features f (ok after) h n = (after, h, refl)

pub add-cases :
    (features : Map FeatureSpec) (f : FeatureGate)
    → ((add features f).1 ≡ f) ⊎ Extended features f (add features f).1
unfolding add
add-cases features f =
    if_ind (λ (s : Option Error × FeatureGate). (s.1 ≡ f) ⊎ Extended features f s.1) f.closed
      (λ t. inl refl) (λ t. store_known-cases features f (add_each f.known features) refl)

-- After features are added without an error, the gate knows the features it knew, as they were, and
-- the added ones. A map has no two entries of one key.
pub lookup-add :
    (features : Map FeatureSpec) (f : FeatureGate) (k : String)
    → Unique features
    → (add features f).0 ≡ none
    → lookup k (add features f).1.known ≡ or_else (lookup k f.known) (lookup k features)
unfolding add Extended
lookup-add features f k u =
    if_ind
      (λ (s : Option Error × FeatureGate).
        s.0 ≡ none → lookup k s.1.known ≡ or_else (lookup k f.known) (lookup k features))
      f.closed (λ t h. cc)
      (λ t h.
        let r = store_known-ok features f (add_each f.known features) refl h in
        ap (λ g. lookup k g.known) r.2 ∙ lookup-add_each f.known features r.0 k u r.1)

-- Adding features, with an error or without, does not change what Enabled returns for a feature
-- that was known. A map has no two entries of one key.
pub is_enabled-add :
    (features : Map FeatureSpec) (f : FeatureGate) (k : String) (spec : FeatureSpec)
    → Unique features
    → lookup k f.known ≡ some spec
    → is_enabled k (add features f).1 ≡ is_enabled k f
unfolding is_enabled Extended
is_enabled-add features f k spec u e = elim (add-cases features f) [
  | inl h ↦ ap (is_enabled k) h
  | inr (after, h, g) ↦
      ap (is_enabled k) g
      ∙ ap (λ s. value_or (lookup k f.enabled) (default_of s))
          (lookup-add_each f.known features after k u h
            ∙ ap (λ o. or_else o (lookup k features)) e
            ∙ sym e)
]
