-- ===== src/AuthzPath/Laws.antt =====
-- Which requests the authorizer of paths allows.
use Prim.Native.String.{[] as empty, ◌∷◌ as cons}
use apiserver.Base.{
  String, Bool, true, false, List, [], ◌∷◌, ◌++◌, none, any, if◌then◌else◌, is_blank, has_prefix,
  has_suffix, trim_prefix, ◌==◌, ◌||◌, Error, Result, ok, err, StringSets, ◌≡◌, ◌≢◌, ◌↔◌, inl, inr,
  refl, sym, ap, ◌∙◌, arith, Bool-cases, Any, any-append, if_true, if_false, has_suffix_iff,
  has_prefix_iff, ◌+s◌, eq_iff, is_blank_iff, any_iff,
}
use text.Mathlib.TextLemmas.{nil-append, cons-append}
use apiserver.Authorizer.{Attributes, Verdict, decision_allow, decision_no_opinion}
use apiserver.AuthzPath.{
  but_last, contains_star, Paths, add_path, add_paths, allow_paths, new_authorizer,
}

-- A path of the list covers the path of a request, both without a leading slash: it is that path,
-- or it ends in a star and what stands before the star begins it.
pub data Covers (p pth : String) : Type 0 where
  this_path : p ≡ pth → Covers p pth
  below : (stem rest : String) → p ≡ stem +s "*" → pth ≡ stem +s rest → Covers p pth

covers : String → String → Bool
covers p pth = if has_suffix p "*" then has_prefix pth (but_last p) else p == pth

but_last-append : (u : String) → but_last (u +s "*") ≡ u
unfolding but_last
but_last-append empty = ap but_last (nil-append "*")
but_last-append (cons c empty) = ap but_last (cons-append c "" "*" ∙ ap (cons c) (nil-append "*"))
but_last-append (cons c (cons d s)) =
    ap but_last (cons-append c (cons d s) "*" ∙ ap (cons c) (cons-append d s "*"))
    ∙ ap (cons c) (ap but_last (sym (cons-append d s "*")) ∙ but_last-append (cons d s))

starred : (p : String) → has_suffix p "*" ≡ true → p ≡ but_last p +s "*"
starred p h =
    let (u, e) = (has_suffix_iff p "*").0 h in
    e ∙ ap (λ x. x +s "*") (sym (ap but_last e ∙ but_last-append u))

covers_iff : (p pth : String) → (covers p pth ≡ true) ↔ Covers p pth
unfolding covers
covers_iff p pth = (to, from)
  where
    to : covers p pth ≡ true → Covers p pth
    to h = elim (Bool-cases (has_suffix p "*")) [
      | inl e ↦
          let (rest, q) =
            (has_prefix_iff pth (but_last p)).0 (sym (if_true (has_suffix p "*") _ _ e) ∙ h) in
          below (but_last p) rest (starred p e) q
      | inr e ↦ this_path ((eq_iff p pth).0 (sym (if_false (has_suffix p "*") _ _ e) ∙ h))
    ]

    from : Covers p pth → covers p pth ≡ true
    from (this_path e) = elim (Bool-cases (has_suffix p "*")) [
      | inl f ↦
          if_true (has_suffix p "*") _ _ f
          ∙ (has_prefix_iff pth (but_last p)).1 ("*", sym e ∙ starred p f)
      | inr f ↦ if_false (has_suffix p "*") _ _ f ∙ (eq_iff p pth).1 e
    ]
    from (below stem rest e q) =
        let ends = (has_suffix_iff p "*").1 (stem, e) in
        if_true (has_suffix p "*") _ _ ends
        ∙ (has_prefix_iff pth (but_last p)).1
            (rest, q ∙ ap (λ x. x +s rest) (sym (ap but_last e ∙ but_last-append stem)))

ok_inj : {A : Type 0} {x y : A} → ok x ≡ ok y → x ≡ y
ok_inj {A} {x} h = ap value h
  where
    value : Result A → A
    value (ok z) = z
    value (err e) = x

err-ne : {A : Type 0} (e : Error) (x : A) → err e ≢ ok x
err-ne e x h = cc

module _ (sets : StringSets) (pth : String) where
  -- What the collections say of a path.
  abbrev holds : Paths sets → Bool
  holds c = sets.has c.paths pth || any (λ prefix. has_prefix pth prefix) c.prefixes

  inserted :
      (c : Paths sets) (p : String)
      → holds (record { prefixes = c.prefixes; paths = sets.insert c.paths p })
        ≡ (p == pth || holds c)
  inserted c p = rw sets.has-insert (ground arith)

  prefixed :
      (c : Paths sets) (p : String)
      → holds (record { prefixes = c.prefixes ++ p ∷ []; paths = c.paths })
        ≡ (has_prefix pth p || holds c)
  prefixed c p = rw any-append (ground arith)

  add_path-holds :
      (c c' : Paths sets) (p : String)
      → add_path sets c p ≡ ok c'
      → holds c' ≡ (covers p pth || holds c)
  unfolding add_path covers
  add_path-holds c c' p h = elim (Bool-cases (is_blank p)) [
    | inl e ↦
        let plain : has_suffix p "*" ≡ false = ap (λ x. has_suffix x "*") ((is_blank_iff p).0 e) in
        ap holds (sym (ok_inj (sym (if_true (is_blank p) _ _ e) ∙ h)))
        ∙ inserted c p
        ∙ ap (λ b. b || holds c) (sym (if_false (has_suffix p "*") _ _ plain))
    | inr e ↦
        let h' = sym (if_false (is_blank p) _ _ e) ∙ h in
        elim (Bool-cases (contains_star (but_last p))) [
          | inl f ↦ absurd (err-ne _ c' (sym (if_true (contains_star (but_last p)) _ _ f) ∙ h'))
          | inr f ↦
              let h'' = sym (if_false (contains_star (but_last p)) _ _ f) ∙ h' in
              elim (Bool-cases (has_suffix p "*")) [
                | inl g ↦
                    ap holds (sym (ok_inj (sym (if_true (has_suffix p "*") _ _ g) ∙ h'')))
                    ∙ prefixed c (but_last p)
                    ∙ ap (λ b. b || holds c) (sym (if_true (has_suffix p "*") _ _ g))
                | inr g ↦
                    ap holds (sym (ok_inj (sym (if_false (has_suffix p "*") _ _ g) ∙ h'')))
                    ∙ inserted c p
                    ∙ ap (λ b. b || holds c) (sym (if_false (has_suffix p "*") _ _ g))
              ]
        ]
  ]

  add_paths-holds :
      (c c' : Paths sets) (ps : List String)
      → add_paths sets c ps ≡ ok c'
      → holds c' ≡ (any (λ p. covers (trim_prefix p "/") pth) ps || holds c)
  unfolding add_paths
  add_paths-holds c c' [] h = ap holds (sym (ok_inj h))
  add_paths-holds c c' (p ∷ ps) h =
      by_added (add_path sets c (trim_prefix p "/")) (λ m k. add_paths-holds m c' ps k) refl h
    where
      by_added :
          (q : Result (Paths sets))
          → ((m : Paths sets)
              → add_paths sets m ps ≡ ok c'
              → holds c' ≡ (any (λ x. covers (trim_prefix x "/") pth) ps || holds m))
          → add_path sets c (trim_prefix p "/") ≡ q
          → (elim q [ err e ↦ err e | ok m ↦ add_paths sets m ps ]) ≡ ok c'
          → holds c' ≡ (any (λ x. covers (trim_prefix x "/") pth) (p ∷ ps) || holds c)
      by_added (err e) rec a b = absurd (err-ne e c' b)
      by_added (ok m) rec a b =
          let first = add_path-holds c m (trim_prefix p "/") a in
          let others = rec m b in ground arith

  none_held : holds (record { prefixes = []; paths = sets.new_string }) ≡ false
  none_held = rw sets.has-new_string refl

allow_paths_iff :
    (sets : StringSets) (c : Paths sets) (a : Attributes)
    → ((allow_paths sets c a).decision ≡ decision_allow)
      ↔ ((a.resource_request ≡ false) × (holds sets (trim_prefix a.path "/") c ≡ true))
unfolding allow_paths
allow_paths_iff sets c a =
    by_tests a.resource_request (sets.has c.paths (trim_prefix a.path "/"))
      (any (λ prefix. has_prefix (trim_prefix a.path "/") prefix) c.prefixes)
  where
    no_opinion : Verdict
    no_opinion = record { decision = decision_no_opinion; reason = ""; error = none }

    allow : Verdict
    allow = record { decision = decision_allow; reason = ""; error = none }

    by_tests :
        (r s t : Bool)
        → (((if r
              then no_opinion
              else if s
              then allow
              else if t
              then allow
              else no_opinion).decision)
            ≡ decision_allow)
          ↔ ((r ≡ false) × ((s || t) ≡ true))
    by_tests true s t = ((λ h. cc), (λ (h, k). cc))
    by_tests false true t = ((λ h. (refl, refl)), (λ h. refl))
    by_tests false false true = ((λ h. (refl, refl)), (λ h. refl))
    by_tests false false false = ((λ h. cc), (λ (h, k). cc))

-- If NewAuthorizer accepts its list, its authorizer allows exactly the requests that are for no
-- resource and whose path one of the list covers: as that path, or by what stands before its star,
-- both without one leading slash.
pub new_authorizer-Covers_iff :
    (sets : StringSets) (always_allow_paths : List String) (auth : Attributes → Verdict)
    (a : Attributes)
    → new_authorizer sets always_allow_paths ≡ ok auth
    → ((auth a).decision ≡ decision_allow) ↔ (
        (a.resource_request ≡ false)
        × Any (λ p. Covers (trim_prefix p "/") (trim_prefix a.path "/")) always_allow_paths)
unfolding new_authorizer
new_authorizer-Covers_iff sets ps auth a h = by_added (add_paths sets start ps) refl h
  where
    start : Paths sets
    start = record { prefixes = []; paths = sets.new_string }

    pth : String
    pth = trim_prefix a.path "/"

    by_added :
        (q : Result (Paths sets))
        → add_paths sets start ps ≡ q
        → (elim q [ err e ↦ err e | ok c ↦ ok (allow_paths sets c) ]) ≡ ok auth
        → ((auth a).decision ≡ decision_allow)
          ↔ ((a.resource_request ≡ false) × Any (λ p. Covers (trim_prefix p "/") pth) ps)
    by_added (err e) x y = absurd (err-ne e auth y)
    by_added (ok c) x y =
        let (to, from) = allow_paths_iff sets c a in
        let (any_to, any_from) =
          any_iff (λ p. covers (trim_prefix p "/") pth) (λ p. Covers (trim_prefix p "/") pth)
            (λ p. covers_iff (trim_prefix p "/") pth) ps in
        let same : (allow_paths sets c a).decision ≡ (auth a).decision =
          ap (λ (f : Attributes → Verdict). (f a).decision) (ok_inj y) in
        let held = add_paths-holds sets pth start c ps x in
        let nothing = none_held sets pth in
        (
          (λ k. let (r, hit) = to (same ∙ k) in (r, any_to (ground arith))),
          (λ (r, k). let hit = any_from k in sym same ∙ from (r, ground arith)),
        )
