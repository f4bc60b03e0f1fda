-- ===== src/AuditPolicy/Match/Laws.antt =====
-- What a rule of an audit policy matches, independently of the code's tests.
use apiserver.Base.{
  String, Bool, true, false, List, [], ◌∷◌, any, is_empty, is_blank, is_blank_iff, ◌==◌, ◌||◌, ◌&&◌,
  ◌+s◌, ◌≡◌, ◌≢◌, ◌↔◌, ◌⊎◌, inl, inr, refl, arith, Bool-cases, Has, Any, any_iff, eq_iff, and_iff,
  Extends, wildcard_iff, prefix_trimmed_iff, suffix_trimmed_iff, ne_of_test, blank_of_ne,
  has_suffix, trim_suffix,
}
use apiserver.Authorizer.{Attributes}
use apiserver.AuditPolicy.{GroupResources}
use apiserver.AuditPolicy.Match.{has_string, path_matches, combined, resource_fits, group_fits}

-- A list that is empty restricts nothing.
abbrev pub Free : {A : Type 0} → (A → Type 0) → List A → Type 0
Free P xs = (xs ≡ []) ⊎ Any P xs

pub data ResourceFits (a : Attributes) (res : String) : Type 0 where
  everything : res ≡ "*" → ResourceFits a res
  no_subresource : a.subresource ≡ "" → res ≡ a.resource → ResourceFits a res
  this_subresource :
      a.subresource ≢ "" → res ≡ a.resource +s "/" +s a.subresource → ResourceFits a res
  of_any_resource : a.subresource ≢ "" → res ≡ "*/" +s a.subresource → ResourceFits a res
  any_subresource : res ≡ a.resource +s "/*" → ResourceFits a res

pub data PathFits (path spec : String) : Type 0 where
  every_path : spec ≡ "*" → PathFits path spec
  this_path : spec ≡ path → PathFits path spec
  below : Extends spec path → PathFits path spec

pub record GroupFits (a : Attributes) (gr : GroupResources) : Type 0 where
  pub same_group : gr.group ≡ a.api_group
  pub resource :
      (gr.resources ≡ [])
      ⊎ (((gr.resource_names ≡ []) ⊎ Has a.name gr.resource_names)
          × Any (ResourceFits a) gr.resources)

pub cons-ne : {A : Type 0} (x : A) (xs : List A) → x ∷ xs ≢ []
cons-ne x xs q = cc

pub is_empty_iff : {A : Type 0} (xs : List A) → (is_empty xs ≡ true) ↔ (xs ≡ [])
is_empty_iff [] = ((λ _. refl), (λ _. refl))
is_empty_iff (x ∷ xs) = ((λ h. absurd (ground arith)), (λ e. absurd (cons-ne x xs e)))

-- A test that does not depend on the item may stand before the loop.
both_iff :
    {A : Type 0} (n : Bool) (p : A → Bool) (P : A → Type 0)
    → ((x : A) → (p x ≡ true) ↔ P x)
    → (xs : List A) → (any (λ x. n && p x) xs ≡ true) ↔ ((n ≡ true) × Any P xs)
both_iff true p P h xs =
    let (to, from) = any_iff p P h xs in ((λ e. (refl, to e)), (λ (_, x). from x))
both_iff false p P h [] = ((λ e. cc), (λ (e, x). absurd x))
both_iff false p P h (x ∷ xs) =
    let (to, from) = both_iff false p P h xs in
    ((λ e. absurd (ground (arith, (to e).0))), (λ (e, y). absurd (ground arith)))

pub restriction_iff :
    {A : Type 0} (p : A → Bool) (P : A → Type 0)
    → ((x : A) → (p x ≡ true) ↔ P x)
    → (xs : List A) → ((is_empty xs || any p xs) ≡ true) ↔ Free P xs
restriction_iff p P h [] = ((λ _. inl refl), (λ _. refl))
restriction_iff {A} p P h (x ∷ xs) =
    let (to, from) = any_iff p P h (x ∷ xs) in
    ((λ e. inr (to e)), (λ e. elim e [ inl q ↦ absurd (cons-ne x xs q) | inr q ↦ from q ]))

pub has_string_iff : (slice : List String) (v : String) → (has_string slice v ≡ true) ↔ Has v slice
unfolding has_string
has_string_iff slice v = any_iff (λ s. s == v) (λ s. s ≡ v) (λ s. eq_iff s v) slice

pub string_restriction_iff :
    (slice : List String) (v : String)
    → ((is_empty slice || has_string slice v) ≡ true) ↔ Free (λ s. s ≡ v) slice
unfolding has_string
string_restriction_iff slice v = restriction_iff (λ s. s == v) (λ s. s ≡ v) (λ s. eq_iff s v) slice

slash_star-ne : ◌≢◌ {A = String} "/*" ""
slash_star-ne = ne_of_test "/*" "" refl

module _ (a : Attributes) (res : String) where
  resource_fits_sound : resource_fits a res ≡ true → ResourceFits a res
  unfolding resource_fits combined
  resource_fits_sound h = elim (Bool-cases (res == "*")) [
    | inl e ↦ everything ((eq_iff res "*").0 e)
    | inr e ↦ elim (Bool-cases (has_suffix res "/*" && a.resource == trim_suffix res "/*")) [
      | inl s ↦ any_subresource ((suffix_trimmed_iff res a.resource "/*" slash_star-ne).0 s)
      | inr s ↦ elim (Bool-cases (is_blank a.subresource)) [
        | inl b ↦
            no_subresource ((is_blank_iff a.subresource).0 b)
              ((eq_iff res a.resource).0 (ground arith))
        | inr b ↦
            let some_sub : a.subresource ≢ "" =
              λ q. absurd (ground (arith, (is_blank_iff a.subresource).1 q)) in
            elim (Bool-cases (res == a.resource +s "/" +s a.subresource)) [
              | inl w ↦ this_subresource some_sub ((eq_iff res _).0 w)
              | inr w ↦
                  of_any_resource some_sub
                    ((prefix_trimmed_iff res a.subresource "*/").0 (ground arith))
            ]
      ]
    ]
  ]

  resource_fits_complete : ResourceFits a res → resource_fits a res ≡ true
  unfolding resource_fits combined
  resource_fits_complete (everything e) = ground (arith, (eq_iff res "*").1 e)
  resource_fits_complete (no_subresource b e) =
      ground (arith, (is_blank_iff a.subresource).1 b, (eq_iff res a.resource).1 e)
  resource_fits_complete (this_subresource b e) =
      let some_sub = blank_of_ne a.subresource b in
      ground (arith, (eq_iff res (a.resource +s "/" +s a.subresource)).1 e)
  resource_fits_complete (of_any_resource b e) =
      let some_sub = blank_of_ne a.subresource b in
      ground (arith, (prefix_trimmed_iff res a.subresource "*/").1 e)
  resource_fits_complete (any_subresource e) =
      ground (arith, (suffix_trimmed_iff res a.resource "/*" slash_star-ne).1 e)

  pub path_matches_sound : path_matches a.path res ≡ true → PathFits a.path res
  unfolding path_matches
  path_matches_sound h = elim (Bool-cases (res == "*")) [
    | inl e ↦ every_path ((eq_iff res "*").0 e)
    | inr e ↦ elim (Bool-cases (res == a.path)) [
      | inl f ↦ this_path ((eq_iff res a.path).0 f)
      | inr f ↦ below ((wildcard_iff res a.path).0 (rw (e, f) at h))
    ]
  ]

  pub path_matches_complete : PathFits a.path res → path_matches a.path res ≡ true
  unfolding path_matches
  path_matches_complete (every_path e) = rw e refl
  path_matches_complete (this_path e) = ground (arith, (eq_iff res a.path).1 e)
  path_matches_complete (below x) = ground (arith, (wildcard_iff res a.path).1 x)

pub group_fits_iff :
    (a : Attributes) (gr : GroupResources) → (group_fits a gr ≡ true) ↔ GroupFits a gr
unfolding group_fits
group_fits_iff a gr = (to, from)
  where
    names : Bool
    names = is_empty gr.resource_names || has_string gr.resource_names a.name

    either :
        (rs : List String)
        → ((is_empty rs || any (λ res. names && resource_fits a res) rs) ≡ true)
          ↔ ((rs ≡ []) ⊎ ((names ≡ true) × Any (ResourceFits a) rs))
    either [] = ((λ _. inl refl), (λ _. refl))
    either (res ∷ rs) =
        let (some_fits, fit) =
          both_iff names (resource_fits a) (ResourceFits a)
            (λ x. (resource_fits_sound a x, resource_fits_complete a x)) (res ∷ rs) in
        (
          (λ e. inr (some_fits e)),
          (λ e. elim e [ inl q ↦ absurd (cons-ne res rs q) | inr q ↦ fit q ]),
        )

    to : group_fits a gr ≡ true → GroupFits a gr
    to h =
        let (g, r) = (and_iff (gr.group == a.api_group) _).0 h in
        record {
          same_group = (eq_iff gr.group a.api_group).0 g;
          resource = elim ((either gr.resources).0 r) [
            | inl e ↦ inl e
            | inr (n, x) ↦ inr ((string_restriction_iff gr.resource_names a.name).0 n, x)
          ];
        }

    from : GroupFits a gr → group_fits a gr ≡ true
    from f = (and_iff (gr.group == a.api_group) _).1 (
      (eq_iff gr.group a.api_group).1 f.same_group,
      (either gr.resources).1 (elim f.resource [
        | inl e ↦ inl e
        | inr (n, x) ↦ inr ((string_restriction_iff gr.resource_names a.name).1 n, x)
      ]),
    )
