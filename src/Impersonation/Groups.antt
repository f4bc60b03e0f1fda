-- ===== src/Impersonation/Groups.antt =====
-- The group that tells whether an impersonated user is authenticated: pkg/filters/impersonation.go.
use apiserver.Base.{
  String, true, false, List, [], ◌∷◌, Has, Option, some, ◌==◌, ◌||◌, any, or_iff, ne_of_test,
  if_ind, ◌≡◌, ◌≢◌, ◌⊎◌, refl, sym, ap, ◌∙◌, inl, inr, subst, Bool-cases, eq_iff, is_blank,
  Any-append_right, any_sound, Any,
}
use apiserver.User.{User, anonymous, all_authenticated, all_unauthenticated}
use apiserver.Authorizer.{Attributes, Verdict}
use apiserver.Impersonation.{
  Header, HeaderNames, Validators, Acting, Checked, acting, refused, complete_groups,
  with_impersonation, served, impersonate, serve_as, get,
}
use apiserver.Impersonation.Laws.{build-user}

-- The anonymous user is in the group of all unauthenticated users, and any other one is in that group
-- or in the one of all authenticated users.
pub Marked : User → Type 0
Marked u =
    ((u.name ≡ anonymous) × Has all_unauthenticated u.groups)
    ⊎ ((u.name ≢ anonymous) × (Has all_authenticated u.groups ⊎ Has all_unauthenticated u.groups))

of_either :
    (gs : List String)
    → Any (λ g. (g ≡ all_authenticated) ⊎ (g ≡ all_unauthenticated)) gs
    → Has all_authenticated gs ⊎ Has all_unauthenticated gs
of_either [] h = absurd h
of_either (g ∷ gs) (inl e) = elim e [ inl a ↦ inl (inl a) | inr a ↦ inr (inl a) ]
of_either (g ∷ gs) (inr h) = elim (of_either gs h) [ inl a ↦ inl (inr a) | inr a ↦ inr (inr a) ]

complete_anonymous : (gs : List String) → Has all_unauthenticated (complete_groups anonymous gs)
unfolding complete_groups
complete_anonymous gs =
    if_ind (Has all_unauthenticated) (any (λ g. g == all_unauthenticated) gs)
      (λ t.
        any_sound (λ g. g == all_unauthenticated) _ (λ x e. (eq_iff x all_unauthenticated).0 e) gs
          t)
      (λ t. Any-append_right _ gs (all_unauthenticated ∷ []) (inl refl))

complete_other :
    (n : String) (gs : List String)
    → (n == anonymous) ≡ false
    → Has all_authenticated (complete_groups n gs) ⊎ Has all_unauthenticated (complete_groups n gs)
unfolding complete_groups
complete_other n gs e = rw e (
    if_ind (λ l. Has all_authenticated l ⊎ Has all_unauthenticated l)
      (any (λ g. g == all_authenticated || g == all_unauthenticated) gs)
      (λ t. of_either gs (any_sound _ _ one_of gs t))
      (λ t. inl (Any-append_right _ gs (all_authenticated ∷ []) (inl refl))))
  where
    one_of :
        (x : String)
        → (x == all_authenticated || x == all_unauthenticated) ≡ true
        → (x ≡ all_authenticated) ⊎ (x ≡ all_unauthenticated)
    one_of x h = elim ((or_iff _ _).0 h) [
      | inl a ↦ inl ((eq_iff x all_authenticated).0 a)
      | inr a ↦ inr ((eq_iff x all_unauthenticated).0 a)
    ]

Marked-complete_groups :
    (a : Acting) (u : User)
    → u.name ≡ a.username
    → u.groups ≡ complete_groups a.username a.groups
    → Marked u
unfolding Marked
Marked-complete_groups a u n g = elim (Bool-cases (a.username == anonymous)) [
  | inl t ↦
      let e : a.username ≡ anonymous = (eq_iff _ _).0 t in
      inl (
        n ∙ e,
        subst (Has all_unauthenticated) (sym (g ∙ ap (λ x. complete_groups x a.groups) e))
            (complete_anonymous a.groups),
      )
  | inr t ↦ inr (
    λ e. ne_of_test a.username anonymous t (sym n ∙ e),
    subst (λ l. Has all_authenticated l ⊎ Has all_unauthenticated l) (sym g)
        (complete_other a.username a.groups t),
  )
]

-- When a request asks to act as a user, the user that the handler is called for is in the group of all
-- unauthenticated users if it is anonymous, and in that one or the one of all authenticated users if
-- it is not.
pub with_impersonation-Marked :
    (names : HeaderNames) (path_unescape : String → Option String) (v : Validators)
    (authorize : Option (Attributes → Verdict)) (requestor u : User) (h h' : Header)
    → is_blank (get names.user h) ≡ false
    → with_impersonation names path_unescape v authorize (some requestor) h ≡ served (some u) h'
    → Marked u
unfolding with_impersonation
with_impersonation-Marked names path_unescape v authorize requestor u h h' b e =
    let (rs, q) = build-user names path_unescape v h b in
    by_checked _ (sym (ap (impersonate names authorize (some requestor) h) q) ∙ e)
  where
    name_of : {s t : User} {k l : Header} → served (some s) k ≡ served (some t) l → s ≡ t
    name_of q = cc

    by_checked : (c : Checked) → serve_as names h c ≡ served (some u) h' → Marked u
    by_checked (refused attributes reason) s = cc
    by_checked (acting a) s =
        Marked-complete_groups a u (ap (λ (x : User). x.name) (sym (name_of s)))
          (ap (λ (x : User). x.groups) (sym (name_of s)))
