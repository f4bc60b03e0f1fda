-- ===== src/Filters/Authentication.antt =====
-- Which requests the authentication filter lets through, with which authenticators.
use apiserver.Base.{
  String, Bool, true, false, List, [], ◌∷◌, Option, none, some, Error, Aggregates, ◌≡◌, ◌≢◌, ◌↔◌,
  inl, inr, refl, ap, sym, subst, ◌∙◌, Bool-cases, some_inj,
}
use apiserver.User.{User}
use apiserver.Authenticator.{Response, Outcome, Authenticator, HttpRequest}
use apiserver.Authenticator.Audiences.{audiences_are_acceptable, authenticate_agnostic}
use apiserver.Authenticator.Audiences.Laws.{
  Acceptable, audiences_are_acceptable-Acceptable_iff, authenticate_agnostic-acceptable,
}
use apiserver.Authenticator.Union.{authenticate_union}
use apiserver.Authenticator.Union.Laws.{FirstSuccess, authenticate_union-FirstSuccess_iff}
use apiserver.Filters.{
  Authenticated, served, failed, admit, accept_response, settle_outcome, with_audiences,
  with_authentication,
}

-- What the authenticator is asked: the request, with the audiences of the API server in its context
-- if there are any.
pub record AskedFor (api_auds : List String) (req asked : HttpRequest) : Type 0 where
  pub authorization : asked.authorization ≡ req.authorization
  pub user : asked.user ≡ req.user
  pub own_audiences : api_auds ≡ [] → asked.audiences ≡ req.audiences
  pub api_audiences : api_auds ≢ [] → asked.audiences ≡ some api_auds

-- What the handler gets: the request that the authenticator leaves, with the user, and with an empty
-- header unless it is kept.
pub record ServedFor (keep : Bool) (t : HttpRequest) (user : User) (served_request : HttpRequest)
    : Type 0 where
  pub audiences : served_request.audiences ≡ t.audiences
  pub user_of : served_request.user ≡ some user
  pub kept : keep ≡ true → served_request.authorization ≡ t.authorization
  pub removed : keep ≡ false → served_request.authorization ≡ ""

-- The authenticator has authenticated a user, with audiences that are acceptable, and
-- `served_request` is the request that it leaves with the user.
pub record Admitted (auth : Authenticator HttpRequest) (api_auds : List String) (keep : Bool)
    (req served_request : HttpRequest) : Type 0 where
  pub asked : HttpRequest
  pub resp : Response
  pub t : HttpRequest
  pub asked_for : AskedFor api_auds req asked
  pub authenticated :
      auth asked ≡ some (record { response = some resp; is_ok = true; error = none }, t)
  pub acceptable : Acceptable api_auds resp.audiences
  pub admitted : ServedFor keep t resp.user served_request

with_audiences-AskedFor :
    (api_auds : List String) (req : HttpRequest)
    → AskedFor api_auds req (with_audiences api_auds req)
with_audiences-AskedFor [] req = record {
  authorization = refl;
  user = refl;
  own_audiences = λ e. refl;
  api_audiences = λ n. absurd (n refl);
}
with_audiences-AskedFor (x ∷ xs) req = record {
  authorization = refl;
  user = refl;
  own_audiences = λ e. cc;
  api_audiences = λ n. refl;
}

same_request :
    (x y : HttpRequest)
    → x.authorization ≡ y.authorization
    → x.audiences ≡ y.audiences
    → x.user ≡ y.user
    → x ≡ y
same_request x y a b c i = record { authorization = a i; audiences = b i; user = c i }

AskedFor-with_audiences :
    (api_auds : List String) (req asked : HttpRequest)
    → AskedFor api_auds req asked
    → with_audiences api_auds req ≡ asked
AskedFor-with_audiences [] req asked a =
    same_request req asked (sym a.authorization) (sym (a.own_audiences refl)) (sym a.user)
AskedFor-with_audiences (x ∷ xs) req asked a =
    same_request (record req { audiences = some (x ∷ xs) }) asked (sym a.authorization)
      (sym (a.api_audiences (λ e. cc))) (sym a.user)

pub admit-ServedFor :
    (keep : Bool) (t : HttpRequest) (user : User) → ServedFor keep t user (admit keep t user)
admit-ServedFor true t user = record {
  audiences = refl;
  user_of = refl;
  kept = λ e. refl;
  removed = λ e. cc;
}
admit-ServedFor false t user = record {
  audiences = refl;
  user_of = refl;
  kept = λ e. cc;
  removed = λ e. refl;
}

ServedFor-admit :
    (keep : Bool) (t : HttpRequest) (user : User) (served_request : HttpRequest)
    → ServedFor keep t user served_request
    → admit keep t user ≡ served_request
ServedFor-admit true t user r s =
    same_request (admit true t user) r (sym (s.kept refl)) (sym s.audiences) (sym s.user_of)
ServedFor-admit false t user r s =
    same_request (admit false t user) r (sym (s.removed refl)) (sym s.audiences) (sym s.user_of)

module _ (auth : Authenticator HttpRequest) (api_auds : List String) (keep : Bool)
    (req served_request : HttpRequest) where
  failed-ne : (t : HttpRequest) → some (failed t) ≢ some (served served_request)
  failed-ne t h = cc

  served-Admitted :
      (r : Option Response) (b : Bool) (e : Option Error) (t : HttpRequest)
      → auth (with_audiences api_auds req) ≡ some (record { response = r; is_ok = b; error = e }, t)
      → settle_outcome api_auds keep t (record { response = r; is_ok = b; error = e })
        ≡ some (served served_request)
      → Admitted auth api_auds keep req served_request
  unfolding settle_outcome accept_response
  served-Admitted r b (some e) t a h = absurd (failed-ne t h)
  served-Admitted r false none t a h = absurd (failed-ne t h)
  served-Admitted none true none t a h = cc
  served-Admitted (some resp) true none t a h =
      elim (Bool-cases (audiences_are_acceptable api_auds resp.audiences)) [
        | inl c ↦ record {
          asked = with_audiences api_auds req;
          resp = resp;
          t = t;
          asked_for = with_audiences-AskedFor api_auds req;
          authenticated = a;
          acceptable = (audiences_are_acceptable-Acceptable_iff api_auds resp.audiences).0 c;
          admitted =
              subst (ServedFor keep t resp.user) (served_inj (some_inj (rw c at h)))
                (admit-ServedFor keep t resp.user);
        }
        | inr c ↦ absurd (failed-ne t (rw c at h))
      ]
    where
      request_of : Authenticated → HttpRequest
      request_of (served r') = r'
      request_of (failed r') = r'

      served_inj : {x y : HttpRequest} → served x ≡ served y → x ≡ y
      served_inj p = ap request_of p

success_served :
    (api_auds : List String) (keep : Bool) (t : HttpRequest) (resp : Response)
    → audiences_are_acceptable api_auds resp.audiences ≡ true
    → settle_outcome api_auds keep t (record { response = some resp; is_ok = true; error = none })
      ≡ some (served (admit keep t resp.user))
unfolding settle_outcome accept_response
success_served api_auds keep t resp h = rw h refl

-- WithAuthentication passes a request to the handler exactly when the authenticator, asked with the
-- audiences of the API server in the context if there are any, has authenticated a user without an
-- error, and the API server has no audiences, or the response has none, or they have one in common;
-- the handler gets the request that the authenticator leaves, with this user, and with an empty
-- header unless it is kept.
pub with_authentication-Admitted_iff :
    (auth : Authenticator HttpRequest) (api_auds : List String) (keep : Bool)
    (req served_request : HttpRequest)
    → (with_authentication auth api_auds keep req ≡ some (served served_request))
      ↔ Admitted auth api_auds keep req served_request
unfolding with_authentication
with_authentication-Admitted_iff auth api_auds keep req served_request =
    (to (auth (with_audiences api_auds req)) refl, from)
  where
    to :
        (x : Option (Outcome × HttpRequest))
        → auth (with_audiences api_auds req) ≡ x
        → (elim x [ none ↦ none | some (o, t) ↦ settle_outcome api_auds keep t o ])
          ≡ some (served served_request)
        → Admitted auth api_auds keep req served_request
    to none a h = cc
    to (some (o, t)) a h =
        served-Admitted auth api_auds keep req served_request o.response o.is_ok o.error t a h

    from :
        Admitted auth api_auds keep req served_request
        → (elim (auth (with_audiences api_auds req)) [
          | none ↦ none
          | some (o, t) ↦ settle_outcome api_auds keep t o
        ])
          ≡ some (served served_request)
    from m =
        ap
          (λ (x : Option (Outcome × HttpRequest)). elim x [
            | none ↦ none
            | some (o, t) ↦ settle_outcome api_auds keep t o
          ])
          (ap auth (AskedFor-with_audiences api_auds req m.asked m.asked_for) ∙ m.authenticated)
        ∙ success_served api_auds keep m.t m.resp
            ((audiences_are_acceptable-Acceptable_iff api_auds m.resp.audiences).1 m.acceptable)
        ∙ ap (λ x. some (served x)) (ServedFor-admit keep m.t m.resp.user served_request m.admitted)

-- In front of the filter, a chain serves a request exactly for the first of its members that
-- authenticates it, if the audiences of this member's response are acceptable.
pub with_authentication-authenticate_union :
    (agg : Aggregates) (fail_on_error : Bool) (handlers : List (Authenticator HttpRequest))
    (api_auds : List String) (keep : Bool) (req : HttpRequest) (resp : Response) (t : HttpRequest)
    → FirstSuccess fail_on_error
        (record { response = some resp; is_ok = true; error = none })
        t
        handlers
        (with_audiences api_auds req)
    → audiences_are_acceptable api_auds resp.audiences ≡ true
    → with_authentication (authenticate_union agg fail_on_error handlers) api_auds keep req
      ≡ some (served (admit keep t resp.user))
with_authentication-authenticate_union agg fail_on_error handlers api_auds keep req resp t f c =
    (with_authentication-Admitted_iff (authenticate_union agg fail_on_error handlers) api_auds keep
        req (admit keep t resp.user)).1
      (record {
        asked = with_audiences api_auds req;
        resp = resp;
        t = t;
        asked_for = with_audiences-AskedFor api_auds req;
        authenticated =
            ((authenticate_union-FirstSuccess_iff agg fail_on_error handlers
                (with_audiences api_auds req)
                (record { response = some resp; is_ok = true; error = none }) t).1
              f).0;
        acceptable = (audiences_are_acceptable-Acceptable_iff api_auds resp.audiences).0 c;
        admitted = admit-ServedFor keep t resp.user;
      })

-- An authenticator that is wrapped is never refused for its audiences by a filter of an API server
-- that has audiences: the filter serves each request that it authenticates.
pub with_authentication-authenticate_agnostic :
    (implicit : List String) (delegate : Authenticator HttpRequest) (api_auds : List String)
    (keep : Bool) (req t : HttpRequest) (resp : Response)
    → api_auds ≢ []
    → authenticate_agnostic
        (λ (r : HttpRequest). r.audiences)
        implicit
        delegate
        (with_audiences api_auds req)
      ≡ some (record { response = some resp; is_ok = true; error = none }, t)
    → with_authentication
        (authenticate_agnostic (λ (r : HttpRequest). r.audiences) implicit delegate)
        api_auds
        keep
        req
      ≡ some (served (admit keep t resp.user))
with_authentication-authenticate_agnostic implicit delegate api_auds keep req t resp n h =
    (with_authentication-Admitted_iff
        (authenticate_agnostic (λ (r : HttpRequest). r.audiences) implicit delegate) api_auds keep
        req (admit keep t resp.user)).1
      (record {
        asked = with_audiences api_auds req;
        resp = resp;
        t = t;
        asked_for = with_audiences-AskedFor api_auds req;
        authenticated = h;
        acceptable = (audiences_are_acceptable-Acceptable_iff api_auds resp.audiences).0 (
            authenticate_agnostic-acceptable (λ (r : HttpRequest). r.audiences) implicit delegate
              (with_audiences api_auds req) t api_auds
              (record { response = some resp; is_ok = true; error = none }) resp
              (carried api_auds n) h refl refl);
        admitted = admit-ServedFor keep t resp.user;
      })
  where
    carried : (auds : List String) → auds ≢ [] → (with_audiences auds req).audiences ≡ some auds
    carried [] m = absurd (m refl)
    carried (x ∷ auds) m = refl
