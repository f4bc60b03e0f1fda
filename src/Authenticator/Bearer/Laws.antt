-- ===== src/Authenticator/Bearer/Laws.antt =====
-- The requests that a bearer token authenticates:
-- pkg/authentication/request/bearertoken/bearertoken.go.
use Prim.Native.String.{[] as nil, ◌∷◌ as cons}
use apiserver.Base.{
  ℕ, code, String, Bool, true, false, not, ◌||◌, List, [], ◌∷◌, All, Option, none, some, Lacks,
  split, join, join-split, split-append, split_of_Lacks, extend, ◌==◌, eq_iff, ◌+s◌, nat_eq,
  if◌then◌else◌, if_ind, if_true, if_false, is_blank, to_lower, trim_space, ◌≡◌, ◌↔◌, ◌⊎◌, refl,
  sym, ap, ◌∙◌, inl, inr, subst, arith, some_inj, cons-append, nil-append, one_char, Error,
  Aggregates,
}
use apiserver.Authenticator.{Response, Outcome, Authenticator, HttpRequest}
use apiserver.Authenticator.Union.{authenticate_union}
use apiserver.Authenticator.Union.Laws.{authenticate_union-stops}
use apiserver.Authenticator.Bearer.{
  token_of_parts, token_of, ask, settle_token, authenticate_bearer, invalid_token,
}

abbrev space : ℕ
space = b' '

-- The header, without space around it, is a word that says "bearer" in letters of any case, a space and
-- the token, with more text behind another space or without.
unfoldable pub Carries : String → String → Type 0
Carries header token =
    (scheme : String) × (to_lower scheme ≡ "bearer")
    × Lacks space scheme
    × Lacks space token
    × (is_blank token ≡ false)
    × ((trim_space header ≡ scheme +s " " +s token)
        ⊎ ((rest : String) × (trim_space header ≡ scheme +s " " +s token +s " " +s rest)))

split-Lacks : (s : String) (n : ℕ) → All (Lacks n) (split s n)
split-Lacks nil n = (tt, tt)
split-Lacks (cons c s) n =
    if_ind (All (Lacks n)) (nat_eq (code c) n) (λ t. (tt, split-Lacks s n))
      (λ t. extended (split s n) (split-Lacks s n) t)
  where
    extended :
        (ps : List String)
        → All (Lacks n) ps
        → nat_eq (code c) n ≡ false
        → All (Lacks n) (extend c ps)
    extended [] h t = (((λ e. ground (arith, e)), tt), tt)
    extended (p ∷ ps) (h, hs) t = (((λ e. ground (arith, e)), h), hs)

-- Two parts at least, as the test of them sees it.
Parts : List String → String → Type 0
Parts ps token =
    (scheme : String) × (rest : List String) × (ps ≡ scheme ∷ (token ∷ rest))
    × (to_lower scheme ≡ "bearer")
    × (is_blank token ≡ false)

token_of_parts-Parts :
    (ps : List String) (token : String) → token_of_parts ps ≡ some token → Parts ps token
unfolding Parts
token_of_parts-Parts [] token h = cc
token_of_parts-Parts (scheme ∷ []) token h = cc
token_of_parts-Parts (scheme ∷ (t ∷ rest)) token h =
    by_tests (to_lower scheme == "bearer") (is_blank t) refl refl h
  where
    by_tests :
        (a b : Bool)
        → (to_lower scheme == "bearer") ≡ a
        → is_blank t ≡ b
        → (if not a || b then none else some t) ≡ some token
        → Parts (scheme ∷ (t ∷ rest)) token
    by_tests true false a b h =
        let e : t ≡ token = some_inj h in
        (
          scheme,
          rest,
          ap (λ x. scheme ∷ (x ∷ rest)) e,
          (eq_iff (to_lower scheme) "bearer").0 a,
          ap is_blank (sym e) ∙ b,
        )
    by_tests true true a b h = cc
    by_tests false b a b' h = cc

Parts-token_of_parts :
    (scheme token : String) (rest : List String)
    → to_lower scheme ≡ "bearer"
    → is_blank token ≡ false
    → token_of_parts (scheme ∷ (token ∷ rest)) ≡ some token
Parts-token_of_parts scheme token rest a b =
    rw ((eq_iff (to_lower scheme) "bearer").1 a) (rw b refl)

not_blank : (s t : String) → is_blank (s +s " " +s t) ≡ false
not_blank nil t = rw nil-append (ap is_blank (one_char " " t))
not_blank (cons c s) t = rw cons-append refl

split-word : (s t : String) → Lacks space s → split (s +s " " +s t) space ≡ s ∷ split t space
split-word s t l = ap (λ x. split (s +s x) space) (one_char " " t) ∙ split-append s t " " l

Carries-token_of : (header token : String) → Carries header token → token_of header ≡ some token
unfolding Carries
Carries-token_of header token (scheme, low, ls, lt, b, shape) = elim shape [
  | inl e ↦ rw e (
      if_false (is_blank (scheme +s " " +s token)) _ _ (not_blank scheme token)
      ∙ ap token_of_parts
          (split-word scheme token ls ∙ ap (λ ps. scheme ∷ ps) (split_of_Lacks token space lt))
      ∙ Parts-token_of_parts scheme token [] low b)
  | inr (rest, e) ↦ rw e (
      if_false (is_blank (scheme +s " " +s token +s " " +s rest)) _ _ (not_blank scheme _)
      ∙ ap token_of_parts (
          split-word scheme (token +s " " +s rest) ls
          ∙ ap (λ ps. scheme ∷ ps) (split-word token rest lt))
      ∙ Parts-token_of_parts scheme token (split rest space) low b)
]

token_of-Carries : (header token : String) → token_of header ≡ some token → Carries header token
unfolding Carries Parts
token_of-Carries header token =
    if_ind (λ o. o ≡ some token → Carries header token) (is_blank (trim_space header)) (λ t h. cc)
      (λ t h.
        let (scheme, rest, e, low, b) =
          token_of_parts-Parts (split (trim_space header) space) token h in
        let (ls, (lt, lr)) = subst (All (Lacks space)) e (split-Lacks (trim_space header) space) in
        let j : trim_space header ≡ join (scheme ∷ (token ∷ rest)) " " =
          sym (join-split (trim_space header) " ") ∙ ap (λ ps. join ps " ") e in
        (scheme, low, ls, lt, b, shape scheme rest j))
  where
    shape :
        (scheme : String) (rest : List String)
        → trim_space header ≡ join (scheme ∷ (token ∷ rest)) " "
        → (trim_space header ≡ scheme +s " " +s token)
          ⊎ ((r : String) × (trim_space header ≡ scheme +s " " +s token +s " " +s r))
    shape scheme [] j = inl j
    shape scheme (r ∷ rest) j = inr (join (r ∷ rest) " ", j)

-- A request is authenticated exactly when its header carries a bearer token that the authenticator of
-- tokens accepts for the audiences of the request, and its header is then removed.
pub authenticate_bearer-Carries_iff :
    (auth : Option (List String) → String → Outcome) (req : HttpRequest)
    → ((authenticate_bearer auth req).0.is_ok ≡ true) ↔ (
        (token : String) × Carries req.authorization token
        × ((auth req.audiences token).is_ok ≡ true)
        × ((authenticate_bearer auth req).1 ≡ record req { authorization = "" }))
unfolding authenticate_bearer
authenticate_bearer-Carries_iff auth req = (to, from)
  where
    by_token :
        (o : Option String)
        → token_of req.authorization ≡ o
        → (ask auth req o).0.is_ok ≡ true
        → (token : String) × Carries req.authorization token
          × ((auth req.audiences token).is_ok ≡ true)
          × ((ask auth req o).1 ≡ record req { authorization = "" })
    by_token none e h = cc
    by_token (some token) e h = (
      token,
      token_of-Carries req.authorization token e,
      h,
      if_true (auth req.audiences token).is_ok _ _ h,
    )

    to :
        (ask auth req (token_of req.authorization)).0.is_ok ≡ true
        → (token : String) × Carries req.authorization token
          × ((auth req.audiences token).is_ok ≡ true)
          × ((ask auth req (token_of req.authorization)).1 ≡ record req { authorization = "" })
    to = by_token (token_of req.authorization) refl

    from :
        ((token : String) × Carries req.authorization token
          × ((auth req.audiences token).is_ok ≡ true)
          × ((ask auth req (token_of req.authorization)).1 ≡ record req { authorization = "" }))
        → (ask auth req (token_of req.authorization)).0.is_ok ≡ true
    from (token, c, a, e) =
        ap (λ o. (ask auth req o).0.is_ok) (Carries-token_of req.authorization token c) ∙ a

-- The error of a refused token: the one of the authenticator of tokens, or that it is invalid.
abbrev pub RefusedWith : Outcome → Error → Type 0
RefusedWith o e = (o.error ≡ some e) ⊎ ((o.error ≡ none) × (e ≡ invalid_token))

refused-error :
    (auth : Option (List String) → String → Outcome) (req : HttpRequest) (token : String)
    → Carries req.authorization token
    → (auth req.audiences token).is_ok ≡ false
    → (e : Error) × RefusedWith (auth req.audiences token) e
      × (authenticate_bearer auth req ≡ (
        record { response = (auth req.audiences token).response; is_ok = false; error = some e },
        req,
      ))
unfolding authenticate_bearer
refused-error auth req token c a =
    let o = auth req.audiences token in
    let (e, w, q) = by_error o.response o.error in
    (
      e,
      w,
      ap (ask auth req) (Carries-token_of req.authorization token c)
          ∙ ap
              (λ b. settle_token req (record { response = o.response; is_ok = b; error = o.error }))
              a
          ∙ q,
    )
  where
    by_error :
        (r : Option Response) (x : Option Error)
        → (e : Error) × ((x ≡ some e) ⊎ ((x ≡ none) × (e ≡ invalid_token)))
          × (settle_token req (record { response = r; is_ok = false; error = x })
              ≡ (record { response = r; is_ok = false; error = some e }, req))
    by_error r none = (invalid_token, inr (refl, refl), refl)
    by_error r (some e) = (e, inl refl, refl)

-- The authenticator as a member of a chain of request authenticators.
abbrev pub bearer_member : (Option (List String) → String → Outcome) → Authenticator HttpRequest
bearer_member auth req = some (authenticate_bearer auth req)

-- A chain that fails on errors and starts with the authenticator of bearer tokens stops at a refused
-- token, whatever members follow: when the authenticator of tokens does not accept the token of the
-- header, the chain does not authenticate and returns an error, the one of the authenticator of
-- tokens or else "invalid bearer token", and the request keeps its header.
pub authenticate_union-refused :
    (agg : Aggregates) (auth : Option (List String) → String → Outcome)
    (others : List (Authenticator HttpRequest)) (req : HttpRequest) (token : String)
    → Carries req.authorization token
    → (auth req.audiences token).is_ok ≡ false
    → (e : Error) × RefusedWith (auth req.audiences token) e
      × (authenticate_union agg true (bearer_member auth ∷ others) req
          ≡ some (
            record {
              response = (auth req.audiences token).response;
              is_ok = false;
              error = some e;
            },
            req,
          ))
authenticate_union-refused agg auth others req token c a =
    let (e, w, q) = refused-error auth req token c a in
    (e, w, authenticate_union-stops agg (bearer_member auth) others req req _ false e (ap some q))
