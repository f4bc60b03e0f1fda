-- ===== src/Authenticator/Groups/Laws.antt =====
-- The group that marks an authenticated user.
use apiserver.Base.{
  String, Bool, true, false, List, [], ◌∷◌, ◌++◌, Option, none, some, Error, any, ◌==◌, ◌||◌, ◌≡◌,
  ◌≢◌, ◌⊎◌, inl, inr, refl, sym, ap, ◌∙◌, arith, Bool-cases, some_inj, Has, eq_iff, if_true,
  if_false,
}
use apiserver.User.{User, anonymous, all_authenticated, all_unauthenticated}
use apiserver.Authenticator.{Response, Outcome, Authenticator}
use apiserver.Authenticator.Groups.{
  on_success, adding, append_groups, is_decided, authenticated_response, add_authenticated_group,
}

marks_end :
    (groups : List String)
    → any
        (λ group. group == all_authenticated || group == all_unauthenticated)
        (groups ++ all_authenticated ∷ [])
      ≡ true
marks_end [] = refl
marks_end (g ∷ groups) = ground (arith, marks_end groups)

decided_append : (x : Response) → is_decided (append_groups (all_authenticated ∷ []) x).user ≡ true
unfolding is_decided append_groups
decided_append x = let marked = marks_end x.user.groups in ground arith

decided_after : (r : Response) → is_decided (authenticated_response r).user ≡ true
unfolding authenticated_response
decided_after r = elim (Bool-cases (is_decided r.user)) [
  | inl e ↦ ap (λ (x : Response). is_decided x.user) (if_true (is_decided r.user) _ _ e) ∙ e
  | inr e ↦
      ap (λ (x : Response). is_decided x.user) (if_false (is_decided r.user) _ _ e)
      ∙ decided_append r
]

authenticated_twice :
    (r : Response) → authenticated_response (authenticated_response r) ≡ authenticated_response r
unfolding authenticated_response
authenticated_twice r = if_true (is_decided (authenticated_response r).user) _ _ (decided_after r)

adding_twice :
    {S : Type 0} (f : Response → Response)
    → ((r : Response) → f (f r) ≡ f r)
    → (x : Option (Outcome × S)) → adding f (adding f x) ≡ adding f x
unfolding adding on_success
adding_twice f h none = refl
adding_twice f h (some (o, s)) = by_fields o.response o.is_ok o.error
  where
    by_fields :
        (r : Option Response) (b : Bool) (e : Option Error)
        → let x : Option (Outcome × _) = some (record { response = r; is_ok = b; error = e }, s) in
          adding f (adding f x) ≡ adding f x
    by_fields r b (some e) = refl
    by_fields r false none = refl
    by_fields none true none = refl
    by_fields (some r) true none =
        ap (λ z. some (record { response = some z; is_ok = true; error = none }, s)) (h r)

-- Wrapping an authenticator twice adds the group once: the second adder changes nothing.
pub add_authenticated_group_twice :
    {S : Type 0} (auth : Authenticator S) (s : S)
    → add_authenticated_group (add_authenticated_group auth) s ≡ add_authenticated_group auth s
unfolding add_authenticated_group
add_authenticated_group_twice auth s =
    adding_twice authenticated_response authenticated_twice (auth s)

-- A user is anonymous, or is marked as authenticated or unauthenticated.
pub data Marked (u : User) : Type 0 where
  is_anonymous : u.name ≡ anonymous → Marked u
  is_authenticated : Has all_authenticated u.groups → Marked u
  is_unauthenticated : Has all_unauthenticated u.groups → Marked u

decided-Marked : (u : User) → is_decided u ≡ true → Marked u
unfolding is_decided
decided-Marked u h = elim (Bool-cases (u.name == anonymous)) [
  | inl e ↦ is_anonymous ((eq_iff u.name anonymous).0 e)
  | inr e ↦ by_groups u.groups (rw e at h)
]
  where
    marked :
        (groups : List String)
        → any (λ group. group == all_authenticated || group == all_unauthenticated) groups ≡ true
        → Has all_authenticated groups ⊎ Has all_unauthenticated groups
    marked [] g = absurd (ground arith)
    marked (x ∷ groups) g = elim (Bool-cases (x == all_authenticated)) [
      | inl p ↦ inl (inl ((eq_iff x all_authenticated).0 p))
      | inr p ↦ elim (Bool-cases (x == all_unauthenticated)) [
        | inl q ↦ inr (inl ((eq_iff x all_unauthenticated).0 q))
        | inr q ↦ elim (marked groups (rw (p, q) at g)) [
          | inl y ↦ inl (inr y)
          | inr y ↦ inr (inr y)
        ]
      ]
    ]

    by_groups :
        (groups : List String)
        → any (λ group. group == all_authenticated || group == all_unauthenticated) groups ≡ true
        → Marked (record u { groups = groups })
    by_groups groups g = elim (marked groups g) [
      | inl y ↦ is_authenticated y
      | inr y ↦ is_unauthenticated y
    ]

added :
    {S : Type 0} (f : Response → Response) (x : Option (Outcome × S)) (o : Outcome) (t : S)
    (r : Response)
    → adding f x ≡ some (o, t)
    → o.response ≡ some r
    → (r' : Response) × (r ≡ f r')
unfolding adding on_success
added f none o t r h k = cc
added f (some (p, s)) o t r h k = by_fields p.response p.is_ok p.error h
  where
    by_fields :
        (q : Option Response) (b : Bool) (e : Option Error)
        → adding f (some (record { response = q; is_ok = b; error = e }, s)) ≡ some (o, t)
        → (r' : Response) × (r ≡ f r')
    by_fields q b (some e) g =
        absurd (none-ne (ap (λ (x : Outcome × _). x.0.response) (some_inj g) ∙ k))
      where
        none-ne : none ≢ some r
        none-ne u = cc
    by_fields q false none g =
        absurd (none-ne (ap (λ (x : Outcome × _). x.0.response) (some_inj g) ∙ k))
      where
        none-ne : none ≢ some r
        none-ne u = cc
    by_fields none true none g = cc
    by_fields (some r') true none g =
        (r', sym (some_inj (ap (λ (x : Outcome × _). x.0.response) (some_inj g) ∙ k)))

-- Every response that the adder returns is of a user who is anonymous or carries one of the two
-- groups.
pub add_authenticated_group-Marked :
    {S : Type 0} (auth : Authenticator S) (s t : S) (o : Outcome) (r : Response)
    → add_authenticated_group auth s ≡ some (o, t)
    → o.response ≡ some r
    → Marked r.user
unfolding add_authenticated_group
add_authenticated_group-Marked auth s t o r h k =
    let (r', e) = added authenticated_response (auth s) o t r h k in
    decided-Marked r.user (ap (λ (x : Response). is_decided x.user) e ∙ decided_after r')
