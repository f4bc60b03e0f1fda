-- ===== src/Impersonation/Laws.antt =====
-- What a request may act as: pkg/filters/impersonation.go.
use apiserver.Base.{
  String, Bool, true, false, List, [], ◌∷◌, ◌++◌, Has, Option, some, Map, lookup, lookup-put,
  Result, ok, err, ◌==◌, ◌||◌, ◌&&◌, ◌+s◌, none, Error, is_empty, not, any, if◌then◌else◌, if_ind,
  if_true, if_false, ◌≡◌, ◌⊎◌, refl, sym, ap, ◌∙◌, inl, inr, subst, Bool-cases, Any-append_split,
  eq_iff, is_blank,
}
use apiserver.User.{User, anonymous, all_authenticated, all_unauthenticated}
use apiserver.Authorizer.{
  Attributes, Verdict, Decision, decision_allow, decision_deny, decision_no_opinion,
}
use apiserver.ServiceAccount.{make_username}
use apiserver.ServiceAccount.Laws.{make_group_names-Has}
use apiserver.Impersonation.{
  Header, HeaderNames, Validators, ImpersonationRequest, impersonation_user,
  impersonation_service_account, impersonation_group, impersonation_user_extra, Acting, nobody,
  act_as, acting_as_attributes, is_allowed, is_permitted, check_requests, Checked, acting, refused,
  complete_groups, with_impersonation, served, values_of, or_empty, append_value, request_of,
  user_request, group_requests, extra_requests, has_extra, build_impersonation_requests,
  impersonate, serve_as, get,
}

-- A value of a key is one it had, or the appended one.
append_value-cases :
    (key value j x : String) (extra : Map (List String))
    → Has x (values_of j (append_value key value extra))
    → Has x (values_of j extra) ⊎ ((key ≡ j) × (value ≡ x))
append_value-cases key value j x extra k =
    by_key (subst (λ o. Has x (or_empty o)) (lookup-put key j _ extra) k)
  where
    by_last :
        key ≡ j
        → Has x (values_of key extra ++ (value ∷ []))
        → Has x (values_of j extra) ⊎ ((key ≡ j) × (value ≡ x))
    by_last e l = elim (Any-append_split _ (values_of key extra) (value ∷ []) l) [
      | inl a ↦ inl (subst (λ i. Has x (values_of i extra)) e a)
      | inr a ↦ elim a [ inl b ↦ inr (e, b) | inr b ↦ absurd b ]
    ]

    by_key :
        Has x (
          or_empty
            (if key == j then some (values_of key extra ++ (value ∷ [])) else lookup j extra))
        → Has x (values_of j extra) ⊎ ((key ≡ j) × (value ≡ x))
    by_key =
        if_ind (λ o. Has x (or_empty o) → Has x (values_of j extra) ⊎ ((key ≡ j) × (value ≡ x)))
          (key == j) (λ t. by_last ((eq_iff key j).0 t)) (λ t l. inl l)

pub complete_groups-cases :
    (n g : String) (gs : List String)
    → Has g (complete_groups n gs)
    → Has g gs ⊎ ((g ≡ all_authenticated) ⊎ (g ≡ all_unauthenticated))
unfolding complete_groups
complete_groups-cases n g gs =
    if_ind (λ l. Has g l → Has g gs ⊎ ((g ≡ all_authenticated) ⊎ (g ≡ all_unauthenticated)))
      (not (n == anonymous))
      (λ t.
        if_ind (λ l. Has g l → Has g gs ⊎ ((g ≡ all_authenticated) ⊎ (g ≡ all_unauthenticated)))
          (any (λ x. x == all_authenticated || x == all_unauthenticated) gs) (λ s k. inl k)
          (λ s k. elim (Any-append_split _ gs (all_authenticated ∷ []) k) [
            | inl a ↦ inl a
            | inr a ↦ elim a [ inl e ↦ inr (inl (sym e)) | inr e ↦ absurd e ]
          ]))
      (λ t.
        if_ind (λ l. Has g l → Has g gs ⊎ ((g ≡ all_authenticated) ⊎ (g ≡ all_unauthenticated)))
          (any (λ x. x == all_unauthenticated) gs) (λ s k. inl k)
          (λ s k. elim (Any-append_split _ gs (all_unauthenticated ∷ []) k) [
            | inl a ↦ inl a
            | inr a ↦ elim a [ inl e ↦ inr (inr (sym e)) | inr e ↦ absurd e ]
          ]))

-- The authorizer allows without an error; without an authorizer everything is allowed.
abbrev pub Allows : Option (Attributes → Verdict) → Attributes → Type 0
Allows none attributes = Unit
Allows (some authorize) attributes =
    ((authorize attributes).error ≡ none) × ((authorize attributes).decision ≡ decision_allow)

is_permitted-Allows :
    (authorize : Option (Attributes → Verdict)) (attributes : Attributes)
    → is_permitted authorize attributes ≡ true
    → Allows authorize attributes
is_permitted-Allows none attributes t = tt
is_permitted-Allows (some authorize) attributes t =
    by_verdict (authorize attributes).error (authorize attributes).decision t
  where
    by_verdict :
        (e : Option Error) (d : Decision)
        → is_allowed (record { decision = d; reason = ""; error = e }) ≡ true
        → (e ≡ none) × (d ≡ decision_allow)
    by_verdict none decision_allow t = (refl, refl)
    by_verdict none decision_deny t = cc
    by_verdict none decision_no_opinion t = cc
    by_verdict (some e) d t = cc

user_name :
    (namespace name : String)
    → make_username namespace name ≡ "system:serviceaccount:" +s namespace +s ":" +s name
unfolding make_username
user_name namespace name = refl

module _ (authorize : Option (Attributes → Verdict)) (requestor : User) where
  -- What the authorizer is asked about.
  abbrev pub to_impersonate : String → String → String → String → Attributes
  to_impersonate resource subresource namespace name = record {
    user = some requestor;
    verb = "impersonate";
    namespace = namespace;
    api_group = "";
    api_version = "";
    resource = resource;
    subresource = subresource;
    name = name;
    resource_request = true;
    path = "";
  }

  -- The requestor may act as the request says.
  abbrev pub May : ImpersonationRequest → Type 0
  May (impersonation_user name) = Allows authorize (to_impersonate "users" "" "" name)
  May (impersonation_service_account namespace name) =
      Allows authorize (to_impersonate "serviceaccounts" "" namespace name)
  May (impersonation_group name) = Allows authorize (to_impersonate "groups" "" "" name)
  May (impersonation_user_extra key value) =
      Allows authorize (to_impersonate "userextras" key "" value)

  is_permitted-May :
      (r : ImpersonationRequest)
      → is_permitted authorize (acting_as_attributes requestor r) ≡ true
      → May r
  is_permitted-May (impersonation_user name) t =
      is_permitted-Allows authorize (to_impersonate "users" "" "" name) t
  is_permitted-May (impersonation_service_account namespace name) t =
      is_permitted-Allows authorize (to_impersonate "serviceaccounts" "" namespace name) t
  is_permitted-May (impersonation_group name) t =
      is_permitted-Allows authorize (to_impersonate "groups" "" "" name) t
  is_permitted-May (impersonation_user_extra key value) t =
      is_permitted-Allows authorize (to_impersonate "userextras" key "" value) t

  -- A group that the requestor may take, or one that every service account of a namespace has where
  -- it may act as one.
  abbrev pub MayGroup : String → Type 0
  MayGroup g =
      May (impersonation_group g)
      ⊎ ((namespace : String) × (name : String) × May (impersonation_service_account namespace name)
          × ((g ≡ "system:serviceaccounts") ⊎ (g ≡ "system:serviceaccounts:" +s namespace)))

  -- A user that the requestor may act as.
  abbrev pub MayName : String → Type 0
  MayName n =
      May (impersonation_user n)
      ⊎ ((namespace : String) × (name : String) × (n
            ≡ "system:serviceaccount:" +s namespace +s ":" +s name)
          × May (impersonation_service_account namespace name))

  abbrev pub MayExtra : Map (List String) → Type 0
  MayExtra extra =
      (key value : String)
      → Has value (values_of key extra)
      → May (impersonation_user_extra key value)

  -- Each group, each extra value and the name of the user is one that the requestor may take; the
  -- groups of all authenticated or all unauthenticated users are added without a check.
  pub record Permitted (u : User) : Type 0 where
    pub name_of : MayName u.name
    pub groups_of :
        (g : String)
        → Has g u.groups
        → MayGroup g ⊎ ((g ≡ all_authenticated) ⊎ (g ≡ all_unauthenticated))
    pub extra_of : MayExtra u.extra

  MayGroups : Acting → Type 0
  MayGroups u = (g : String) → Has g u.groups → MayGroup g

  module _ (groups_specified : Bool) where
    check-induction :
        (P : Acting → Type 0)
        → ((r : ImpersonationRequest) (u : Acting) → May r → P u → P (act_as groups_specified r u))
        → (rs : List ImpersonationRequest) (u after : Acting)
        → check_requests authorize requestor groups_specified rs u ≡ acting after
        → P u
        → P after
    check-induction P keep [] u after h p = subst P (acting_inj h) p
      where
        acting_inj : {a b : Acting} → acting a ≡ acting b → a ≡ b
        acting_inj e = cc
    check-induction P keep (r ∷ rs) u after h p =
        elim (Bool-cases (is_permitted authorize (acting_as_attributes requestor r))) [
          | inl t ↦
              check-induction P keep rs (act_as groups_specified r u) after
                (sym (if_true (is_permitted authorize (acting_as_attributes requestor r)) _ _ t)
                  ∙ h)
                (keep r u (is_permitted-May r t) p)
          | inr t ↦
              let e =
                sym (if_false (is_permitted authorize (acting_as_attributes requestor r)) _ _ t)
                ∙ h in
              absurd (cc)
        ]

    keep_groups :
        (r : ImpersonationRequest) (u : Acting)
        → May r
        → MayGroups u
        → MayGroups (act_as groups_specified r u)
    unfolding MayGroups
    keep_groups (impersonation_service_account ns n) u m h g k =
        if_ind (λ gs. Has g gs → MayGroup g) groups_specified (λ t l. h g l)
          (λ t l. inr (ns, n, m, make_group_names-Has ns g l)) k
    keep_groups (impersonation_user n) u m h g k = h g k
    keep_groups (impersonation_group n) u m h g k = elim (Any-append_split _ u.groups (n ∷ []) k) [
      | inl l ↦ h g l
      | inr l ↦ elim l [
        | inl e ↦ inl (subst (λ x. May (impersonation_group x)) e m)
        | inr e ↦ absurd e
      ]
    ]
    keep_groups (impersonation_user_extra key value) u m h g k = h g k

    keep_extra :
        (r : ImpersonationRequest) (u : Acting)
        → May r
        → MayExtra u.user_extra
        → MayExtra (act_as groups_specified r u).user_extra
    keep_extra (impersonation_service_account ns n) u m h = h
    keep_extra (impersonation_user n) u m h = h
    keep_extra (impersonation_group n) u m h = h
    keep_extra (impersonation_user_extra key value) u m h = λ j x k.
        elim (append_value-cases key value j x u.user_extra k) [
          | inl l ↦ h j x l
          | inr (a, b) ↦
              subst (λ y. May (impersonation_user_extra j y)) b
                (subst (λ i. May (impersonation_user_extra i value)) a m)
        ]

    keep_name :
        (r : ImpersonationRequest) (u : Acting)
        → May r
        → MayName u.username
        → MayName (act_as groups_specified r u).username
    keep_name (impersonation_service_account ns n) u m h = inr (ns, n, user_name ns n, m)
    keep_name (impersonation_user n) u m h = inl m
    keep_name (impersonation_group n) u m h = h
    keep_name (impersonation_user_extra key value) u m h = h

    -- The loop over a request for a user and the requests behind it.
    check-Permitted :
        (r : ImpersonationRequest) (rs : List ImpersonationRequest) (u : Acting)
        → (May r → MayName (act_as groups_specified r nobody).username)
        → check_requests authorize requestor groups_specified (r ∷ rs) nobody ≡ acting u
        → MayName u.username × MayGroups u × MayExtra u.user_extra
    unfolding MayGroups
    check-Permitted r rs u n h =
        elim (Bool-cases (is_permitted authorize (acting_as_attributes requestor r))) [
          | inl t ↦
              let h' =
                sym (if_true (is_permitted authorize (acting_as_attributes requestor r)) _ _ t)
                ∙ h in
              (
                check-induction (λ a. MayName a.username) keep_name rs
                    (act_as groups_specified r nobody) u h' (n (is_permitted-May r t)),
                check-induction MayGroups keep_groups (r ∷ rs) nobody u h (λ g k. absurd k),
                check-induction (λ a. MayExtra a.user_extra) keep_extra (r ∷ rs) nobody u h
                    (λ key value k. absurd k),
              )
          | inr t ↦
              let e =
                sym (if_false (is_permitted authorize (acting_as_attributes requestor r)) _ _ t)
                ∙ h in
              absurd (cc)
        ]

    request_of-MayName :
        (requested : String) (r : Result (String × String))
        → May (request_of requested r)
        → MayName (act_as groups_specified (request_of requested r) nobody).username
    request_of-MayName requested (ok (namespace, name)) m =
        inr (namespace, name, user_name namespace name, m)
    request_of-MayName requested (err e) m = inl m

  serve_as-Permitted :
      (names : HeaderNames) (h h' : Header) (a : Acting) (u : User)
      → serve_as names h (acting a) ≡ served (some u) h'
      → MayName a.username × MayGroups a × MayExtra a.user_extra
      → Permitted u
  unfolding MayGroups
  serve_as-Permitted names h h' a u e (n, g, x) = subst Permitted (user_inj e) (record {
    name_of = n;
    groups_of = λ i k. elim (complete_groups-cases a.username i a.groups k) [
      | inl l ↦ inl (g i l)
      | inr l ↦ inr l
    ];
    extra_of = x;
  })
    where
      user_inj : {s t : User} {k l : Header} → served (some s) k ≡ served (some t) l → s ≡ t
      user_inj q = cc

-- A request for a user becomes a list that starts with the request for that user.
pub build-user :
    (names : HeaderNames) (path_unescape : String → Option String) (v : Validators) (h : Header)
    → is_blank (get names.user h) ≡ false
    → (rs : List ImpersonationRequest) × (build_impersonation_requests names path_unescape v h
        ≡ ok (user_request v (get names.user h) ∷ rs))
unfolding build_impersonation_requests
build-user names path_unescape v h b =
    let asked = not (is_empty (values_of names.group h)) || has_extra names path_unescape h in
    let rs = group_requests (values_of names.group h) ++ extra_requests names path_unescape h in
    (rs, rw b (if_false (asked && false) _ _ (and_false asked)))
  where
    and_false : (a : Bool) → (a && false) ≡ false
    and_false true = refl
    and_false false = refl

-- When a request asks to act as a user and the handler is called, then for a user that the requestor
-- may act as: the authorizer, if there is one, allows without an error its name, or the service
-- account of that name; each of its groups, unless it is one of all authenticated or unauthenticated
-- users, by itself or with a service account that has it; and each of its extra values. It is asked
-- for the verb "impersonate" on "users", "serviceaccounts", "groups" or "userextras".
pub with_impersonation-Permitted :
    (names : HeaderNames) (path_unescape : String → Option String) (v : Validators)
    (authorize : Option (Attributes → Verdict)) (requestor u : User) (h h' : Header)
    → is_blank (get names.user h) ≡ false
    → with_impersonation names path_unescape v authorize (some requestor) h ≡ served (some u) h'
    → Permitted authorize requestor u
unfolding with_impersonation
with_impersonation-Permitted names path_unescape v authorize requestor u h h' b e =
    let (rs, q) = build-user names path_unescape v h b in
    by_checked rs _ refl (sym (ap (impersonate names authorize (some requestor) h) q) ∙ e)
  where
    gs : Bool
    gs = not (is_empty (values_of names.group h))

    by_checked :
        (rs : List ImpersonationRequest) (c : Checked)
        → check_requests authorize requestor gs (user_request v (get names.user h) ∷ rs) nobody ≡ c
        → serve_as names h c ≡ served (some u) h'
        → Permitted authorize requestor u
    by_checked rs (refused attributes reason) k s = cc
    by_checked rs (acting a) k s = serve_as-Permitted authorize requestor names h h' a u s (
        check-Permitted authorize requestor gs (user_request v (get names.user h)) rs a
          (request_of-MayName authorize requestor gs (get names.user h) _) k)
