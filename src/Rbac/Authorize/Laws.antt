-- ===== src/Rbac/Authorize/Laws.antt =====
-- The authorizer against its specification: a request is allowed exactly when a binding that stands
-- for the user has a role with a rule that allows it.
use apiserver.Base.{
  true, List, [], ◌∷◌, ◌++◌, Option, none, some, if◌then◌else◌, Error, Aggregates, ◌+s◌, ◌≡◌, inl,
  inr, refl, sym, ◌∙◌, ap, arith, Bool-cases, append-nil, append_assoc,
}
use apiserver.User.{User}
use apiserver.Authorizer.{Attributes, decision_allow, decision_no_opinion, Verdict}
use apiserver.Rbac.Match.{rule_allows}
use apiserver.Rbac.Resolver.{Store, Source}
use apiserver.Rbac.Resolver.Events.{Event, found, failed, run, events, visit_rules_for-run}
use apiserver.Rbac.Resolver.Laws.{failures}
use apiserver.Rbac.Authorize.{Checking, check, unchecked, authorize, denial, reason_of, describe}

module _ (a : Attributes) where
  -- The origin of the first rule that allows the request.
  abbrev pub first_allowed : List Event → Option Source
  first_allowed [] = none
  first_allowed (found source rule ∷ es) =
      if rule_allows a rule then some source else first_allowed es
  first_allowed (failed e ∷ es) = first_allowed es

  run-check-none :
      (v : Checking) (es : List Event)
      → first_allowed es ≡ none
      → run (check a) v es ≡ (record v { errors = v.errors ++ failures es }, true)
  unfolding check
  run-check-none v [] h = ap (λ x. (record v { errors = x }, true)) (sym (append-nil v.errors))
  run-check-none v (found source rule ∷ es) h = elim (Bool-cases (rule_allows a rule)) [
    | inl e ↦ absurd (ground arith)
    | inr e ↦ rw e (run-check-none v es (rw e at h))
  ]
  run-check-none v (failed e ∷ es) h =
      run-check-none (record v { errors = v.errors ++ e ∷ [] }) es h
      ∙ ap (λ x. (record v { errors = x }, true)) (append_assoc v.errors (e ∷ []) (failures es))

  run-check-some :
      (v : Checking) (es : List Event) (source : Source)
      → first_allowed es ≡ some source
      → ((run (check a) v es).0.allowed ≡ true)
        × ((run (check a) v es).0.reason ≡ "RBAC: allowed by " +s describe source)
  unfolding check
  run-check-some v [] source h = cc
  run-check-some v (found src rule ∷ es) source h = elim (Bool-cases (rule_allows a rule)) [
    | inl e ↦ let same : src ≡ source = ground arith in rw (e, ← same) (refl, refl)
    | inr e ↦ rw e (run-check-some v es source (rw e at h))
  ]
  run-check-some v (failed e ∷ es) source h =
      run-check-some (record v { errors = v.errors ++ e ∷ [] }) es source h

-- The verdict, from the first event that allows the request and from the errors.
abbrev pub verdict_of : Aggregates → List Error → Option Source → Verdict
verdict_of agg errors none = record {
  decision = decision_no_opinion;
  reason = elim (agg.new_aggregate errors) [ none ↦ "" | some e ↦ "RBAC: " +s agg.text e ];
  error = none;
}
verdict_of agg errors (some source) = record {
  decision = decision_allow;
  reason = "RBAC: allowed by " +s describe source;
  error = none;
}

denial_lem :
    (agg : Aggregates) (errors : List Error) → denial agg errors ≡ verdict_of agg errors none
unfolding denial reason_of
denial_lem agg [] = rw agg.new_aggregate-nil refl
denial_lem agg (e ∷ es) = refl

-- Authorize allows a request with the origin of the first event, in the order of the bindings, whose
-- rule allows it, whatever errors there are; without one it has no opinion, and its reason is the
-- text of the aggregated errors, or empty if there are none. It returns no error.
pub authorize-first_allowed :
    (agg : Aggregates) (r : Store) (user : User) (a : Attributes)
    → authorize agg r user a
      ≡ verdict_of agg
          (failures (events r user a.namespace))
          (first_allowed a (events r user a.namespace))
unfolding authorize
authorize-first_allowed agg r user a =
    rw (visit_rules_for-run (check a) r user a.namespace unchecked)
      (by_first (first_allowed a evs) refl)
  where
    evs : List Event
    evs = events r user a.namespace

    by_first :
        (o : Option Source)
        → first_allowed a evs ≡ o
        → (let v = (run (check a) unchecked evs).0 in
            if v.allowed
            then record { decision = decision_allow; reason = v.reason; error = none }
            else denial agg v.errors)
          ≡ verdict_of agg (failures evs) o
    by_first none h = rw (run-check-none a unchecked evs h) (denial_lem agg (failures evs))
    by_first (some source) h =
        let (allowed, reason) = run-check-some a unchecked evs source h in rw (allowed, reason) refl
