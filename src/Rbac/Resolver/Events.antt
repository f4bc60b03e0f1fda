-- ===== src/Rbac/Resolver/Events.antt =====
-- The specification of a visit: the whole sequence of what there is to report, with no visitor in
-- it. A visit is that sequence, fed to the visitor until it says to stop.
use apiserver.Base.{
  String, Bool, true, false, List, [], ◌∷◌, ◌++◌, map, Option, none, some, is_blank, not, ℕ,
  if◌then◌else◌, Result, ok, err, Error, ◌≡◌, refl, arith, inl, inr, Bool-cases, ap,
}
use apiserver.User.{User}
use apiserver.Rbac.{PolicyRule, Subject}
use apiserver.Rbac.Resolver.{
  Store, Source, Visitor, Bound, applies_to, get_role_reference_rules, visit_rules, visit_binding,
  visit_bindings, visit_listed, visit_rules_for, cluster_bounds, role_bounds,
}

pub data Event : Type 0 where
  found : Source → PolicyRule → Event
  failed : Error → Event

-- What a binding gives: nothing, an error, or the rules of its role.
abbrev pub binding_events : Store → User → String → Bound → List Event
binding_events r user namespace b = elim (applies_to user b.subjects namespace) [
  | none ↦ []
  | some (_, subject) ↦ elim (get_role_reference_rules r b.role_ref namespace) [
    | err e ↦ failed e ∷ []
    | ok rules ↦ map (found (b.describe subject)) rules
  ]
]

abbrev pub bindings_events : Store → User → String → List Bound → List Event
bindings_events r user namespace [] = []
bindings_events r user namespace (b ∷ bs) =
    binding_events r user namespace b ++ bindings_events r user namespace bs

abbrev pub listed_events : Store → User → String → Result (List Bound) → List Event
listed_events r user namespace (err e) = failed e ∷ []
listed_events r user namespace (ok bs) = bindings_events r user namespace bs

abbrev pub namespace_events : Store → User → String → List Event
namespace_events r user namespace =
    if not (is_blank namespace)
    then listed_events r user namespace (role_bounds (r.list_role_bindings namespace))
    else []

abbrev pub events : Store → User → String → List Event
events r user namespace =
    listed_events r user "" (cluster_bounds r.list_cluster_role_bindings)
    ++ namespace_events r user namespace

module _ {S : Type 0} (visitor : Visitor S) where
  abbrev pub feed : S → Event → S × Bool
  feed s (found source rule) = visitor s (some source) (some rule) none
  feed s (failed e) = visitor s none none (some e)

  abbrev pub run : S → List Event → S × Bool
  run s [] = (s, true)
  run s (e ∷ es) = if (feed s e).1 then run (feed s e).0 es else ((feed s e).0, false)

  run-append :
      (s : S) (xs ys : List Event)
      → run s (xs ++ ys) ≡ (if (run s xs).1 then run (run s xs).0 ys else run s xs)
  run-append s [] ys = refl
  run-append s (x ∷ xs) ys = elim (Bool-cases (feed s x).1) [
    | inl e ↦ rw e (run-append (feed s x).0 xs ys)
    | inr e ↦ rw e refl
  ]

  visit_rules_lem :
      (source : Source) (s : S) (rules : List PolicyRule)
      → visit_rules visitor source s rules ≡ run s (map (found source) rules)
  unfolding visit_rules
  visit_rules_lem source s [] = refl
  visit_rules_lem source s (rule ∷ rules) =
      ground (arith, visit_rules_lem source (feed s (found source rule)).0 rules)

  feed_lem : (s : S) (e : Event) → feed s e ≡ run s (e ∷ [])
  feed_lem s e = elim (Bool-cases (feed s e).1) [
    | inl b ↦ rw b (ap (λ x. ((feed s e).0, x)) b)
    | inr b ↦ rw b (ap (λ x. ((feed s e).0, x)) b)
  ]

  visit_binding_lem :
      (r : Store) (user : User) (namespace : String) (s : S) (b : Bound)
      → visit_binding visitor r user namespace s b ≡ run s (binding_events r user namespace b)
  unfolding visit_binding
  visit_binding_lem r user namespace s b =
      by_subject (applies_to user b.subjects namespace)
        (get_role_reference_rules r b.role_ref namespace)
    where
      by_subject :
          (a : Option (ℕ × Subject)) (q : Result (List PolicyRule))
          → (elim a [
            | none ↦ (s, true)
            | some (_, subject) ↦ elim q [
              | err e ↦ visitor s none none (some e)
              | ok rules ↦ visit_rules visitor (b.describe subject) s rules
            ]
          ])
            ≡ run s (elim a [
              | none ↦ []
              | some (_, subject) ↦ elim q [
                | err e ↦ failed e ∷ []
                | ok rules ↦ map (found (b.describe subject)) rules
              ]
            ])
      by_subject none q = refl
      by_subject (some (i, subject)) (err e) = feed_lem s (failed e)
      by_subject (some (i, subject)) (ok rules) = visit_rules_lem (b.describe subject) s rules

  visit_bindings_lem :
      (r : Store) (user : User) (namespace : String) (s : S) (bs : List Bound)
      → visit_bindings visitor r user namespace s bs ≡ run s (bindings_events r user namespace bs)
  unfolding visit_bindings
  visit_bindings_lem r user namespace s [] = refl
  visit_bindings_lem r user namespace s (b ∷ bs) =
      rw
        (
          run-append s (binding_events r user namespace b) (bindings_events r user namespace bs),
          ← visit_binding_lem r user namespace s b,
        )
        (step (visit_binding visitor r user namespace s b)
          (visit_bindings_lem r user namespace (visit_binding visitor r user namespace s b).0 bs))
    where
      step :
          (p : S × Bool) {q q' : S × Bool}
          → q ≡ q'
          → (if p.1 then q else (p.0, false)) ≡ (if p.1 then q' else p)
      step (s', true) h = h
      step (s', false) h = refl

  visit_listed_lem :
      (r : Store) (user : User) (namespace : String) (s : S) (l : Result (List Bound))
      → visit_listed visitor r user namespace s l ≡ run s (listed_events r user namespace l)
  unfolding visit_listed
  visit_listed_lem r user namespace s (err e) = feed_lem s (failed e)
  visit_listed_lem r user namespace s (ok bs) = visit_bindings_lem r user namespace s bs

-- Whatever the visitor, VisitRulesFor leaves it in the state in which it is after the events of the
-- cluster role bindings and then of the namespace's role bindings, fed one by one up to the first
-- at which it asks to stop.
pub visit_rules_for-run :
    {S : Type 0} (visitor : Visitor S) (r : Store) (user : User) (namespace : String) (s : S)
    → visit_rules_for visitor r user namespace s ≡ (run visitor s (events r user namespace)).0
unfolding visit_rules_for
visit_rules_for-run {S} visitor r user namespace s =
    rw
      (
        run-append visitor s (listed_events r user "" (cluster_bounds r.list_cluster_role_bindings))
            (namespace_events r user namespace),
        ← visit_listed_lem visitor r user "" s (cluster_bounds r.list_cluster_role_bindings),
      )
      (second (visit_listed visitor r user "" s (cluster_bounds r.list_cluster_role_bindings))
        (is_blank namespace))
  where
    second :
        (p : S × Bool) (b : Bool)
        → (if p.1
            then (if not b
                then (visit_listed visitor r user namespace p.0
                    (role_bounds (r.list_role_bindings namespace))).0
                else p.0)
            else p.0)
          ≡ (if p.1
              then run visitor p.0 (
                  if not b
                  then listed_events r user namespace (role_bounds (r.list_role_bindings namespace))
                  else [])
              else p).0
    second (s', true) true = refl
    second (s', true) false =
        ap (λ x. x.0)
          (visit_listed_lem visitor r user namespace s'
            (role_bounds (r.list_role_bindings namespace)))
    second (s', false) b = refl
