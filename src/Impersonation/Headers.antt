-- ===== src/Impersonation/Headers.antt =====
-- The headers behind the filter, and its errors: pkg/filters/impersonation.go.
use apiserver.Base.{
  String, Bool, true, false, List, [], ◌∷◌, ◌++◌, Option, none, some, lookup, delete,
  lookup-delete_same, lookup-delete, Result, ok, err, errorf, ◌==◌, ◌||◌, ◌&&◌, not, is_empty,
  if◌then◌else◌, if_ind, if_true, if_false, ◌≡◌, refl, sym, ap, ◌∙◌, inl, inr, subst, Bool-cases,
  is_blank, has_prefix,
}
use apiserver.User.{User}
use apiserver.Authorizer.{Attributes, Verdict}
use apiserver.Impersonation.{
  Header, HeaderNames, Validators, Checked, acting, refused, with_impersonation, served, values_of,
  or_empty, first_or_blank, user_request, group_requests, extra_requests, has_extra,
  build_impersonation_requests, impersonate, serve_as, get, delete_extra, clear_headers,
  ImpersonationRequest,
}

-- A header without a user, a group or an extra value to act as.
pub Clean : HeaderNames → (String → Option String) → Header → Type 0
Clean names path_unescape h =
    (is_blank (get names.user h) ≡ true)
    × (values_of names.group h ≡ [])
    × (has_extra names path_unescape h ≡ false)

lookup-delete_extra :
    (p k : String) (h : Header) → lookup k h ≡ none → lookup k (delete_extra p h) ≡ none
lookup-delete_extra p k [] e = refl
lookup-delete_extra p k ((n, vs) ∷ h) e = elim (Bool-cases (n == k)) [
  | inl t ↦ let q : some vs ≡ none = sym (if_true (n == k) _ _ t) ∙ e in absurd (cc)
  | inr t ↦
      let rest = lookup-delete_extra p k h (sym (if_false (n == k) _ _ t) ∙ e) in
      if_ind (λ l. lookup k l ≡ none) (has_prefix n p) (λ s. rest)
        (λ s. if_false (n == k) _ _ t ∙ rest)
]

has_extra-delete_extra :
    (names : HeaderNames) (path_unescape : String → Option String) (h : Header)
    → has_extra names path_unescape (delete_extra names.user_extra_prefix h) ≡ false
has_extra-delete_extra names pu [] = refl
has_extra-delete_extra names pu ((n, vs) ∷ h) =
    let rest = has_extra-delete_extra names pu h in
    if_ind (λ l. has_extra names pu l ≡ false) (has_prefix n names.user_extra_prefix) (λ s. rest)
      (λ s. rw s rest)

still_gone : (i k : String) (h : Header) → lookup k h ≡ none → lookup k (delete i h) ≡ none
still_gone i k h e = lookup-delete i k h ∙ if_ind (λ o. o ≡ none) (i == k) (λ t. refl) (λ t. e)

Clean-clear_headers :
    (names : HeaderNames) (path_unescape : String → Option String) (h : Header)
    → Clean names path_unescape (clear_headers names h)
unfolding Clean clear_headers
Clean-clear_headers names pu h =
    let d = delete names.group (delete names.user h) in
    let user_gone : lookup names.user (delete_extra names.user_extra_prefix d) ≡ none =
      lookup-delete_extra names.user_extra_prefix names.user d (
        still_gone names.group names.user (delete names.user h)
          (lookup-delete_same names.user h)) in
    let group_gone : lookup names.group (delete_extra names.user_extra_prefix d) ≡ none =
      lookup-delete_extra names.user_extra_prefix names.group d
        (lookup-delete_same names.group (delete names.user h)) in
    (
      ap (λ o. is_blank (first_or_blank (or_empty o))) user_gone,
      ap or_empty group_gone,
      has_extra-delete_extra names pu d,
    )

empty_of_test : (xs : List String) → is_empty xs ≡ true → xs ≡ []
empty_of_test [] e = refl
empty_of_test (x ∷ xs) e = cc

Clean-build :
    (names : HeaderNames) (path_unescape : String → Option String) (v : Validators) (h : Header)
    → build_impersonation_requests names path_unescape v h ≡ ok []
    → Clean names path_unescape h
unfolding build_impersonation_requests Clean
Clean-build names pu v h e =
    by_tests (is_blank (get names.user h)) (is_empty (values_of names.group h))
      (has_extra names pu h) refl refl refl e
  where
    by_tests :
        (b g x : Bool)
        → is_blank (get names.user h) ≡ b
        → is_empty (values_of names.group h) ≡ g
        → has_extra names pu h ≡ x
        → (if (not g || x) && b
            then err (errorf "requested %v without impersonating a user" [])
            else ok (
                (if b then [] else user_request v (get names.user h) ∷ [])
                ++ (group_requests (values_of names.group h) ++ extra_requests names pu h)))
          ≡ ok []
        → (is_blank (get names.user h) ≡ true)
          × (values_of names.group h ≡ [])
          × (has_extra names pu h ≡ false)
    by_tests true true false b g x q = (b, empty_of_test _ g, x)
    by_tests true true true b g x q = cc
    by_tests true false x' b g x q = cc
    by_tests false true true b g x q = cc
    by_tests false true false b g x q = cc
    by_tests false false true b g x q = cc
    by_tests false false false b g x q = cc

-- The handler is called, with the acting user or without one, only with a header that names no user,
-- group or extra value to act as.
pub with_impersonation-Clean :
    (names : HeaderNames) (path_unescape : String → Option String) (v : Validators)
    (authorize : Option (Attributes → Verdict)) (requestor u : Option User) (h h' : Header)
    → with_impersonation names path_unescape v authorize requestor h ≡ served u h'
    → Clean names path_unescape h'
unfolding with_impersonation
with_impersonation-Clean names pu v authorize requestor u h h' e =
    by_requests (build_impersonation_requests names pu v h) refl requestor e
  where
    header_of : {s t : Option User} {k l : Header} → served s k ≡ served t l → k ≡ l
    header_of q = cc

    by_checked : (c : Checked) → serve_as names h c ≡ served u h' → Clean names pu h'
    by_checked (refused attributes reason) q = cc
    by_checked (acting a) q = subst (Clean names pu) (header_of q) (Clean-clear_headers names pu h)

    by_requests :
        (r : Result (List ImpersonationRequest))
        → build_impersonation_requests names pu v h ≡ r
        → (o : Option User) → impersonate names authorize o h r ≡ served u h'
        → Clean names pu h'
    by_requests (err x) k o q = cc
    by_requests (ok []) k o q = subst (Clean names pu) (header_of q) (Clean-build names pu v h k)
    by_requests (ok (r ∷ rs)) k none q = cc
    by_requests (ok (r ∷ rs)) k (some s) q = by_checked _ q
