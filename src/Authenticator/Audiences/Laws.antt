-- ===== src/Authenticator/Audiences/Laws.antt =====
-- The audiences: what an intersection holds, and what a wrapped authenticator claims.
use apiserver.Base.{
  String, Bool, true, false, List, [], ◌∷◌, Option, none, some, any_iff, is_empty, not, ◌==◌, ◌||◌,
  Error, errorf, if◌then◌else◌, ◌≡◌, ◌↔◌, ◌⊎◌, inl, inr, refl, sym, subst, ap, ◌∙◌, arith,
  Bool-cases, some_inj, Has, eq_iff,
}
use apiserver.User.{User}
use apiserver.Authenticator.{Response, Outcome, Authenticator}
use apiserver.Authenticator.Audiences.{
  has, intersect, audiences_are_acceptable, rejected, claim_audiences, with_state,
  authenticate_agnostic,
}

has_iff : (a : List String) (taud : String) → (has a taud ≡ true) ↔ Has taud a
unfolding has
has_iff a taud = any_iff (λ aud. aud == taud) (λ aud. aud ≡ taud) (λ aud. eq_iff aud taud) a

-- An intersection holds exactly the audiences that both sides hold.
pub intersect-Has_iff :
    (a tauds : List String) (aud : String)
    → Has aud (intersect a tauds) ↔ (Has aud a × Has aud tauds)
unfolding intersect
intersect-Has_iff a [] aud = ((λ h. absurd h), (λ h. h.1))
intersect-Has_iff a (taud ∷ tauds) aud =
    let (to, from) = intersect-Has_iff a tauds aud in
    elim (Bool-cases (has a taud)) [
      | inl e ↦ rw e (
        (λ h. elim h [
          | inl p ↦ (subst (λ x. Has x a) p ((has_iff a taud).0 e), inl p)
          | inr q ↦ let (x, y) = to q in (x, inr y)
        ]),
        (λ (x, y). elim y [ inl p ↦ inl p | inr q ↦ inr (from (x, q)) ]),
      )
      | inr e ↦ rw e (
        (λ h. let (x, y) = to h in (x, inr y)),
        (λ (x, y). elim y [
          | inl p ↦ absurd (ground (arith, (has_iff a taud).1 (subst (λ z. Has z a) (sym p) x)))
          | inr q ↦ from (x, q)
        ]),
      )
    ]

refused : {e : Option Error} (o : Outcome) → some (rejected e) ≡ some o → o.is_ok ≡ true → ⊥
refused o h k = ground (arith, ap (λ (x : Outcome). x.is_ok) (some_inj h))

-- The response of a delegate that is accepted carries the shared audiences.
claim_audiences-accepted :
    (auds : List String) (r : Option Response) (b : Bool) (e : Option Error) (o : Outcome)
    → claim_audiences auds (record { response = r; is_ok = b; error = e }) ≡ some o
    → o.is_ok ≡ true
    → (u : User) × (o.response ≡ some (record { audiences = auds; user = u }))
unfolding claim_audiences
claim_audiences-accepted auds r b (some e) o h k = absurd (refused o h k)
claim_audiences-accepted auds r false none o h k = absurd (refused o h k)
claim_audiences-accepted auds none true none o h k = cc
claim_audiences-accepted auds (some resp) true none o h k = by_audiences resp.audiences h
  where
    by_audiences :
        (own : List String)
        → (if not (is_empty own)
            then some (
                rejected (
                  some (
                    errorf
                      "audience agnostic authenticator wrapped an authenticator that returned audiences: %q"
                      own)))
            else some (record {
              response = some (record { audiences = auds; user = resp.user });
              is_ok = true;
              error = none;
            }))
          ≡ some o
        → (u : User) × (o.response ≡ some (record { audiences = auds; user = u }))
    by_audiences [] q = (resp.user, sym (ap (λ (x : Outcome). x.response) (some_inj q)))
    by_audiences (x ∷ own) q = absurd (refused o q k)

-- A text that both lists hold keeps their intersection from being empty.
intersect-shared :
    (a tauds : List String) (aud : String)
    → Has aud a
    → Has aud tauds
    → is_empty (intersect a tauds) ≡ false
intersect-shared a tauds aud x y =
    not_empty (intersect a tauds) ((intersect-Has_iff a tauds aud).1 (x, y))
  where
    not_empty : (l : List String) → Has aud l → is_empty l ≡ false
    not_empty [] h = absurd h
    not_empty (z ∷ l) h = refl

acceptable-intersect :
    (implicit target_auds : List String)
    → is_empty (intersect implicit target_auds) ≡ false
    → audiences_are_acceptable target_auds (intersect implicit target_auds) ≡ true
unfolding audiences_are_acceptable
acceptable-intersect implicit target_auds h = by_head (intersect implicit target_auds) refl h
  where
    by_head :
        (l : List String)
        → intersect implicit target_auds ≡ l
        → is_empty l ≡ false
        → (if is_empty target_auds || is_empty l
            then true
            else not (is_empty (intersect target_auds l)))
          ≡ true
    by_head [] e p = absurd (ground arith)
    by_head (x ∷ l) e p =
        let (in_implicit, in_targets) =
          (intersect-Has_iff implicit target_auds x).0 (subst (λ m. Has x m) (sym e) (inl refl)) in
        let shared = intersect-shared target_auds (x ∷ l) x in_targets (inl refl) in ground arith

-- When the context names audiences, an authenticator that is wrapped authenticates only with
-- audiences that the API server accepts.
pub authenticate_agnostic-acceptable :
    {S : Type 0} (targets : S → Option (List String)) (implicit : List String)
    (delegate : Authenticator S) (s t : S) (target_auds : List String) (o : Outcome)
    (resp : Response)
    → targets s ≡ some target_auds
    → authenticate_agnostic targets implicit delegate s ≡ some (o, t)
    → o.is_ok ≡ true
    → o.response ≡ some resp
    → audiences_are_acceptable target_auds resp.audiences ≡ true
unfolding authenticate_agnostic
authenticate_agnostic-acceptable {S} targets implicit delegate s t target_auds o resp c h k r =
    elim (Bool-cases (is_empty auds)) [
      | inl e ↦ absurd (
          refused o
            (ap (λ (x : Option (Outcome × S)). first x) (rw (c, authenticate_agnostic, e) at h)) k)
      | inr e ↦ by_result (delegate s) e (rw (c, authenticate_agnostic, e) at h)
    ]
  where
    auds : List String
    auds = intersect implicit target_auds

    first : Option (Outcome × S) → Option Outcome
    first none = none
    first (some x) = some x.0

    by_result :
        (q : Option (Outcome × S))
        → is_empty auds ≡ false
        → (elim q [ none ↦ none | some (p, u) ↦ with_state u (claim_audiences auds p) ])
          ≡ some (o, t)
        → audiences_are_acceptable target_auds resp.audiences ≡ true
    by_result none e g = cc
    by_result (some (p, u)) e g = by_claim (claim_audiences auds p) refl g
      where
        by_claim :
            (w : Option Outcome)
            → claim_audiences auds p ≡ w
            → with_state u w ≡ some (o, t)
            → audiences_are_acceptable target_auds resp.audiences ≡ true
        by_claim none a g' = cc
        by_claim (some o') a g' =
            let same : o' ≡ o = ap (λ (x : Outcome × S). x.0) (some_inj g') in
            let (user, claimed) =
              claim_audiences-accepted auds p.response p.is_ok p.error o (a ∙ ap some same) k in
            let audiences : resp.audiences ≡ auds =
              ap (λ (x : Response). x.audiences) (some_inj (sym r ∙ claimed)) in
            rw audiences (acceptable-intersect implicit target_auds e)

-- What a response claims is acceptable: one side names no audience, or both name a common one.
pub Acceptable : List String → List String → Type 0
Acceptable api_auds auds =
    (api_auds ≡ []) ⊎ ((auds ≡ []) ⊎ ((aud : String) × Has aud api_auds × Has aud auds))

pub audiences_are_acceptable-Acceptable_iff :
    (api_auds auds : List String)
    → (audiences_are_acceptable api_auds auds ≡ true) ↔ Acceptable api_auds auds
unfolding audiences_are_acceptable Acceptable
audiences_are_acceptable-Acceptable_iff [] auds = (λ h. inl refl, λ h. refl)
audiences_are_acceptable-Acceptable_iff (x ∷ xs) [] = (λ h. inr (inl refl), λ h. refl)
audiences_are_acceptable-Acceptable_iff (x ∷ xs) (y ∷ ys) =
    (to (intersect (x ∷ xs) (y ∷ ys)) refl, from)
  where
    to :
        (l : List String)
        → intersect (x ∷ xs) (y ∷ ys) ≡ l
        → not (is_empty l) ≡ true
        → Acceptable (x ∷ xs) (y ∷ ys)
    to [] e h = cc
    to (a ∷ l) e h =
        let both = (intersect-Has_iff (x ∷ xs) (y ∷ ys) a).0 (subst (Has a) (sym e) (inl refl)) in
        inr (inr (a, both.0, both.1))

    nonempty : (aud : String) (l : List String) → Has aud l → not (is_empty l) ≡ true
    nonempty aud [] k = absurd k
    nonempty aud (a ∷ l) k = refl

    from : Acceptable (x ∷ xs) (y ∷ ys) → not (is_empty (intersect (x ∷ xs) (y ∷ ys))) ≡ true
    from (inl e) = cc
    from (inr (inl e)) = cc
    from (inr (inr (aud, a, b))) =
        nonempty aud (intersect (x ∷ xs) (y ∷ ys))
          ((intersect-Has_iff (x ∷ xs) (y ∷ ys) aud).1 (a, b))
