-- ===== src/FeatureGate/SetBack.antt =====
-- Setting a gate to the text that a gate prints: String and Set of
-- components/featuregate/feature_gate.go.
use apiserver.Base.{
  String, Bool, [], ◌∷◌, All, Option, none, some, Map, lookup, Unique, ok, ◌==◌, if_true, if_false,
  differ, eq_iff, ◌≡◌, refl, sym, ap, ◌∙◌, inl, inr, subst, Bool-cases, some_inj, Error,
}
use apiserver.FeatureGate.{
  FeatureGate, FeatureSpec, all_alpha_gate, all_beta_gate, set, set_from_map, string,
}
use apiserver.FeatureGate.Parse.{parse}
use apiserver.FeatureGate.Fill.{or_else, by_stage}
use apiserver.FeatureGate.Laws.{Settable, set_from_map-Settable_iff, lookup-set_from_map}
use apiserver.FeatureGate.RoundTrip.{Plain, parse-string}

-- An order in which a loop ranges over a map: a map of the same entries.
pub record Ranges (range : Map Bool → Map Bool) : Type 0 where
  pub once : (m : Map Bool) → Unique m → Unique (range m)
  pub same : (m : Map Bool) (k : String) → lookup k (range m) ≡ lookup k m

lookup-All :
    (P : String × Bool → Type 0) (m : Map Bool) (k : String) (v : Bool)
    → All P m
    → lookup k m ≡ some v
    → P (k, v)
lookup-All P [] k v h e = cc
lookup-All P ((j, w) ∷ m) k v (h, hs) e = elim (Bool-cases (j == k)) [
  | inl t ↦
      let q : w ≡ v = some_inj (sym (if_true (j == k) _ _ t) ∙ e) in
      subst (λ x. P (k, x)) q (subst (λ x. P (x, w)) ((eq_iff j k).0 t) h)
  | inr t ↦ lookup-All P m k v hs (sym (if_false (j == k) _ _ t) ∙ e)
]

All-lookup :
    (P : String × Bool → Type 0) (m : Map Bool)
    → Unique m
    → ((k : String) (v : Bool) → lookup k m ≡ some v → P (k, v))
    → All P m
All-lookup P [] u h = tt
All-lookup P ((j, w) ∷ m) (n, u) h = (
  h j w (if_true (j == j) _ _ ((eq_iff j j).1 refl)),
  All-lookup P m u (λ k v e. h k v (
      if_false (j == k) _ _
        (differ j k (λ q. let c : none ≡ some v = sym n ∙ ap (λ x. lookup x m) q ∙ e in cc))
      ∙ e)),
)

by_stage-lookup :
    (o : Option FeatureSpec) (m n : Map Bool)
    → ((k : String) → lookup k m ≡ lookup k n)
    → by_stage o m ≡ by_stage o n
by_stage-lookup none m n h = refl
by_stage-lookup (some s) m n h = rw (h all_alpha_gate, h all_beta_gate) refl

module _ (range : Map Bool → Map Bool) (ranges : Ranges range) (f g : FeatureGate)
    (unique : Unique f.enabled) (plain : All (λ p. Plain p.0) f.enabled) (known : Unique g.known)
    (settable : All (Settable g.known) f.enabled) where
  set-parsed :
      (m : Map Bool) → parse (string f) ≡ ok m → set range (string f) g ≡ set_from_map (range m) g
  unfolding set
  set-parsed m p = rw (p, set) refl

  set_from_map-same :
      (m : Map Bool)
      → Unique m
      → ((k : String) → lookup k m ≡ lookup k f.enabled)
      → ((set_from_map m g).0 ≡ none)
        × ((k : String)
            → lookup k (set_from_map m g).1.enabled
              ≡ or_else
                  (lookup k f.enabled)
                  (or_else (lookup k g.enabled) (by_stage (lookup k g.known) f.enabled)))
  set_from_map-same m u e =
      let s = (set_from_map-Settable_iff m g).1 (
        All-lookup (Settable g.known) m u
          (λ k v q. lookup-All (Settable g.known) f.enabled k v settable (sym (e k) ∙ q))) in
      (
        s,
        λ k.
            lookup-set_from_map m g k known u s
            ∙ ap (λ o. or_else o (or_else (lookup k g.enabled) (by_stage (lookup k g.known) m)))
                (e k)
            ∙ ap (λ b. or_else (lookup k f.enabled) (or_else (lookup k g.enabled) b))
                (by_stage-lookup (lookup k g.known) m f.enabled e),
      )

  -- A gate is set, in whatever order its loop takes the entries, to the text that String prints of a
  -- gate: when no key that is set there has a comma, an equals sign or space around it, and each may
  -- be set to its value, Set succeeds. Each feature then has the value that it had in the printed
  -- gate, and one without a value there keeps its own, or else gets that of AllAlpha or AllBeta in
  -- the printed gate when that is its stage. A map has no two entries of one key.
  pub set-string :
      ((set range (string f) g).0 ≡ none)
      × ((k : String)
          → lookup k (set range (string f) g).1.enabled
            ≡ or_else
                (lookup k f.enabled)
                (or_else (lookup k g.enabled) (by_stage (lookup k g.known) f.enabled)))
  set-string =
      let (m, p, u, e) = parse-string f unique plain in
      subst
        (λ (r : Option Error × FeatureGate).
          (r.0 ≡ none)
          × ((k : String)
              → lookup k r.1.enabled
                ≡ or_else (lookup k f.enabled)
                    (or_else (lookup k g.enabled) (by_stage (lookup k g.known) f.enabled))))
        (sym (set-parsed m p))
        (set_from_map-same (range m) (ranges.once m u) (λ k. ranges.same m k ∙ e k))
