-- ===== src/ServiceAccount/Laws.antt =====
-- The user names of service accounts are matched and split as they are made.
use apiserver.Base.{
  String, List, [], ◌∷◌, ◌≡◌, ◌↔◌, refl, sym, ap, ◌∙◌, arith, true, ◌+s◌, len, cut, has_prefix,
  has_prefix-append, cut-append, append-cut, eq_iff, eq_refl, ◌==◌, ok, Lacks, split, join,
  join-split, nil-append, cons-append, split-append, split_of_Lacks, Has, ◌⊎◌, inl, inr,
}
use apiserver.ServiceAccount.{
  make_username, make_group_names, matches_username, username_prefix, username_separator,
  split_username, split_parts,
}

-- What a chain of early returns accepts.
module _ (namespace name : String) where
  matches_username_sound :
      (u : String) → matches_username namespace name u ≡ true → u ≡ make_username namespace name
  unfolding matches_username make_username
  matches_username_sound u h =
      let rest = cut (len username_prefix) u in
      let rest' = cut (len namespace) rest in
      let p : has_prefix u username_prefix ≡ true = ground arith in
      let q : has_prefix rest namespace ≡ true = ground arith in
      let r : has_prefix rest' username_separator ≡ true = ground arith in
      let e : (cut (len username_separator) rest' == name) ≡ true = ground arith in
      append-cut u username_prefix p
      ∙ ap (λ s. username_prefix +s s) (append-cut rest namespace q)
      ∙ ap (λ s. username_prefix +s namespace +s s) (append-cut rest' username_separator r)
      ∙ ap (λ s. username_prefix +s namespace +s username_separator +s s) ((eq_iff _ _).0 e)

  matches_username-make_username :
      matches_username namespace name (make_username namespace name) ≡ true
  unfolding matches_username make_username
  matches_username-make_username =
      rw
        (
          has_prefix-append username_prefix (namespace +s username_separator +s name),
          cut-append username_prefix (namespace +s username_separator +s name),
          has_prefix-append namespace (username_separator +s name),
          cut-append namespace (username_separator +s name),
          has_prefix-append username_separator name,
          cut-append username_separator name,
        )
        (eq_refl name)

-- A service account's name and namespace match a user name exactly when the user name is the one
-- that MakeUsername gives for them.
pub matches_username_iff :
    (namespace name u : String)
    → (matches_username namespace name u ≡ true) ↔ (u ≡ make_username namespace name)
matches_username_iff namespace name u = (
  matches_username_sound namespace name u,
  λ e. rw e (matches_username-make_username namespace name),
)

module _ (label subdomain : String → List String)
    (label_Lacks : (s : String) → label s ≡ [] → Lacks b':' s)
    (subdomain_Lacks : (s : String) → subdomain s ≡ [] → Lacks b':' s)
    (namespace name : String) where
  split_parts_sound :
      (parts : List String)
      → split_parts label subdomain parts ≡ ok (namespace, name)
      → (parts ≡ namespace ∷ (name ∷ [])) × (label namespace ≡ []) × (subdomain name ≡ [])
  unfolding split_parts
  split_parts_sound (a ∷ (b ∷ [])) h = ground arith
  split_parts_sound [] h = cc
  split_parts_sound _ h = cc

  split_username_sound :
      (u : String)
      → split_username label subdomain u ≡ ok (namespace, name)
      → (u ≡ make_username namespace name) × (label namespace ≡ []) × (subdomain name ≡ [])
  unfolding split_username make_username
  split_username_sound u h =
      let rest = cut (len username_prefix) u in
      let p : has_prefix u username_prefix ≡ true = ground arith in
      let q : split_parts label subdomain (split rest b':') ≡ ok (namespace, name) = ground arith in
      let (parts, valid, valid') = split_parts_sound (split rest b':') q in
      let joined = sym (join-split rest ":") ∙ ap (λ ps. join ps ":") parts in
      (append-cut u username_prefix p ∙ ap (λ s. username_prefix +s s) joined, valid, valid')

  split_username-make_username :
      label namespace ≡ []
      → subdomain name ≡ []
      → split_username label subdomain (make_username namespace name) ≡ ok (namespace, name)
  unfolding split_username make_username split_parts
  split_username-make_username h k =
      rw
        (
          has_prefix-append username_prefix (namespace +s username_separator +s name),
          cut-append username_prefix (namespace +s username_separator +s name),
          cons-append ":" "" name,
          nil-append name,
          split-append namespace name ":" (label_Lacks namespace h),
          split_of_Lacks name b':' (subdomain_Lacks name k),
          h,
          k,
        )
        refl

-- If the DNS validators accept no name with a colon, SplitUsername returns a namespace and a name
-- exactly when both are valid and MakeUsername gives the user name for them.
pub split_username_iff :
    (label subdomain : String → List String)
    → ((s : String) → label s ≡ [] → Lacks b':' s)
    → ((s : String) → subdomain s ≡ [] → Lacks b':' s)
    → (namespace name u : String)
    → (split_username label subdomain u ≡ ok (namespace, name))
      ↔ ((u ≡ make_username namespace name) × (label namespace ≡ []) × (subdomain name ≡ []))
split_username_iff label subdomain p q namespace name u = (
  split_username_sound label subdomain p q namespace name u,
  λ (e, h, k). rw e (split_username-make_username label subdomain p q namespace name h k),
)

-- The groups of a service account are the one of all of them and the one of its namespace.
pub make_group_names-Has :
    (namespace g : String)
    → Has g (make_group_names namespace)
    → (g ≡ "system:serviceaccounts") ⊎ (g ≡ "system:serviceaccounts:" +s namespace)
unfolding make_group_names
make_group_names-Has namespace g (inl e) = inl (sym e)
make_group_names-Has namespace g (inr (inl e)) = inr (sym e)
make_group_names-Has namespace g (inr (inr z)) = absurd z
