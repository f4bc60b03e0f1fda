-- ===== src/AuthzUnion/Laws.antt =====
-- A union decides as its first member with an opinion.
use apiserver.Base.{
  String, Bool, true, false, List, [], ◌∷◌, ◌++◌, Option, none, some, if◌then◌else◌, join, Error,
  Aggregates, ◌≡◌, ◌≢◌, refl, ap, ap₂, ◌∙◌, arith, append_assoc, append-nil, ◌||◌, any, map,
}
use Prim.Native.String.{[] as nil, ◌∷◌ as cons}
use apiserver.User.{User}
use apiserver.Authorizer.{
  Attributes, Decision, decision_deny, decision_allow, decision_no_opinion, Verdict, Rules,
  ResourceRuleInfo, NonResourceRuleInfo,
}
use apiserver.AuthzUnion.{
  authorize_from, authorize, append_error, append_reason, Collected, collect, rules_for,
}

-- The verdict of the first handler that allows or denies.
abbrev pub first_opinion : List (Attributes → Verdict) → Attributes → Option Verdict
first_opinion [] a = none
first_opinion (h ∷ hs) a = elim (h a).decision [
  | decision_no_opinion ↦ first_opinion hs a
  | _ ↦ some (h a)
]

-- The errors that there are, in order.
abbrev pub only_errors : List (Option Error) → List Error
only_errors [] = []
only_errors (none ∷ es) = only_errors es
only_errors (some e ∷ es) = e ∷ only_errors es

-- The texts that are not empty, in order.
abbrev pub only_words : List String → List String
only_words [] = []
only_words (nil ∷ rs) = only_words rs
only_words (cons c r ∷ rs) = cons c r ∷ only_words rs

abbrev pub errors_of : List (Attributes → Verdict) → Attributes → List Error
errors_of hs a = only_errors (map (λ h. (h a).error) hs)

abbrev pub reasons_of : List (Attributes → Verdict) → Attributes → List String
reasons_of hs a = only_words (map (λ h. (h a).reason) hs)

abbrev pub opinion_or : Aggregates → List Error → List String → Option Verdict → Verdict
opinion_or agg errlist reasonlist (some v) = v
opinion_or agg errlist reasonlist none = record {
  decision = decision_no_opinion;
  reason = join reasonlist "\n";
  error = agg.new_aggregate errlist;
}

append_error-append :
    (errlist : List Error) (e : Option Error) (es : List (Option Error))
    → append_error errlist e ++ only_errors es ≡ errlist ++ only_errors (e ∷ es)
append_error-append errlist none es = refl
append_error-append errlist (some e) es = append_assoc errlist (e ∷ []) (only_errors es)

append_reason-append :
    (reasonlist : List String) (r : String) (rs : List String)
    → append_reason reasonlist r ++ only_words rs ≡ reasonlist ++ only_words (r ∷ rs)
append_reason-append reasonlist nil rs = refl
append_reason-append reasonlist (cons c r) rs =
    append_assoc reasonlist (cons c r ∷ []) (only_words rs)

module _ (agg : Aggregates) (a : Attributes) where
  authorize_from_lem :
      (errlist : List Error) (reasonlist : List String) (hs : List (Attributes → Verdict))
      → authorize_from agg errlist reasonlist hs a
        ≡ opinion_or agg
            (errlist ++ errors_of hs a)
            (reasonlist ++ reasons_of hs a)
            (first_opinion hs a)
  unfolding authorize_from
  authorize_from_lem errlist reasonlist [] = rw (append-nil errlist, append-nil reasonlist) refl
  authorize_from_lem errlist reasonlist (h ∷ hs) = by_decision (h a).decision (first_opinion hs a) (
      authorize_from_lem (append_error errlist (h a).error) (append_reason reasonlist (h a).reason)
        hs
      ∙ ap₂ (λ x y. opinion_or agg x y (first_opinion hs a))
          (append_error-append errlist (h a).error (map (λ k. (k a).error) hs))
          (append_reason-append reasonlist (h a).reason (map (λ k. (k a).reason) hs)))
    where
      by_decision :
          (d : Decision) (o : Option Verdict) {x : Verdict}
          → x
            ≡ opinion_or agg
                (errlist ++ errors_of (h ∷ hs) a)
                (reasonlist ++ reasons_of (h ∷ hs) a)
                o
          → (elim d [ decision_allow ↦ h a | decision_deny ↦ h a | decision_no_opinion ↦ x ])
            ≡ opinion_or agg
                (errlist ++ errors_of (h ∷ hs) a)
                (reasonlist ++ reasons_of (h ∷ hs) a)
                (elim d [ decision_no_opinion ↦ o | _ ↦ some (h a) ])
      by_decision decision_allow o e = refl
      by_decision decision_deny o e = refl
      by_decision decision_no_opinion o e = e

-- The union returns, unchanged, the verdict of its first handler that allows or denies, whatever the
-- earlier ones reported. With no such handler it has no opinion, and it returns every reason that
-- is not empty, in order and one to a line, and the aggregate of every error.
pub authorize-first_opinion :
    (agg : Aggregates) (hs : List (Attributes → Verdict)) (a : Attributes)
    → authorize agg hs a ≡ opinion_or agg (errors_of hs a) (reasons_of hs a) (first_opinion hs a)
unfolding authorize
authorize-first_opinion agg hs a = authorize_from_lem agg a [] [] hs

abbrev or_else {ℓ} : {A : Type ℓ} → Option A → Option A → Option A
or_else (some v) o = some v
or_else none o = o

first_opinion-append :
    (hs ks : List (Attributes → Verdict)) (a : Attributes)
    → first_opinion (hs ++ ks) a ≡ or_else (first_opinion hs a) (first_opinion ks a)
first_opinion-append [] ks a = refl
first_opinion-append (h ∷ hs) ks a = ground (arith, first_opinion-append hs ks a)

first_opinion-ne :
    (hs : List (Attributes → Verdict)) (a : Attributes) (v : Verdict)
    → first_opinion hs a ≡ some v
    → v.decision ≢ decision_no_opinion
first_opinion-ne [] a v e = cc
first_opinion-ne (h ∷ hs) a v e = ground (arith, first_opinion-ne hs a v)

abbrev pub decision_or : Decision → Decision → Decision
decision_or decision_no_opinion d = d
decision_or decision_allow d = decision_allow
decision_or decision_deny d = decision_deny

decision_or_decided : (d d' : Decision) → d ≢ decision_no_opinion → d ≡ decision_or d d'
decision_or_decided decision_allow d' n = refl
decision_or_decided decision_deny d' n = refl
decision_or_decided decision_no_opinion d' n = absurd (n refl)

decision_or_else :
    (agg : Aggregates) (e e₁ e₂ : List Error) (r r₁ r₂ : List String) (o p : Option Verdict)
    → ((v : Verdict) → o ≡ some v → v.decision ≢ decision_no_opinion)
    → (opinion_or agg e r (or_else o p)).decision
      ≡ decision_or (opinion_or agg e₁ r₁ o).decision (opinion_or agg e₂ r₂ p).decision
decision_or_else agg e e₁ e₂ r r₁ r₂ none none n = refl
decision_or_else agg e e₁ e₂ r r₁ r₂ none (some w) n = refl
decision_or_else agg e e₁ e₂ r r₁ r₂ (some v) p n =
    decision_or_decided v.decision (opinion_or agg e₂ r₂ p).decision (n v refl)

-- Members of a union may be grouped: the decision of a union of two lists of handlers is that of the
-- union of the first list, or, where that has no opinion, that of the union of the second.
pub authorize-append :
    (agg : Aggregates) (hs ks : List (Attributes → Verdict)) (a : Attributes)
    → (authorize agg (hs ++ ks) a).decision
      ≡ decision_or (authorize agg hs a).decision (authorize agg ks a).decision
authorize-append agg hs ks a =
    rw
      (
        authorize-first_opinion agg (hs ++ ks) a,
        authorize-first_opinion agg hs a,
        authorize-first_opinion agg ks a,
        first_opinion-append hs ks a,
      )
      (decision_or_else agg (errors_of (hs ++ ks) a) (errors_of hs a) (errors_of ks a)
        (reasons_of (hs ++ ks) a) (reasons_of hs a) (reasons_of ks a) (first_opinion hs a)
        (first_opinion ks a) (first_opinion-ne hs a))

module _ (user : User) (namespace : String) where
  abbrev pub all_resource_rules : List (User → String → Rules) → List ResourceRuleInfo
  all_resource_rules [] = []
  all_resource_rules (h ∷ hs) = (h user namespace).resource_rules ++ all_resource_rules hs

  abbrev pub all_non_resource_rules : List (User → String → Rules) → List NonResourceRuleInfo
  all_non_resource_rules [] = []
  all_non_resource_rules (h ∷ hs) =
      (h user namespace).non_resource_rules ++ all_non_resource_rules hs

  abbrev pub all_errors : List (User → String → Rules) → List Error
  all_errors hs = only_errors (map (λ h. (h user namespace).error) hs)

  collect_lem :
      (c : Collected) (hs : List (User → String → Rules))
      → collect c hs user namespace ≡ record {
        err_list = c.err_list ++ all_errors hs;
        resource_rules_list = c.resource_rules_list ++ all_resource_rules hs;
        non_resource_rules_list = c.non_resource_rules_list ++ all_non_resource_rules hs;
        incomplete_status = any (λ h. (h user namespace).incomplete) hs || c.incomplete_status;
      }
  unfolding collect
  collect_lem c [] =
      rw
        (
          append-nil c.err_list,
          append-nil c.resource_rules_list,
          append-nil c.non_resource_rules_list,
        )
        refl
  collect_lem c (h ∷ hs) =
      let r = h user namespace in
      collect_lem
        (record {
          err_list = append_error c.err_list r.error;
          resource_rules_list = c.resource_rules_list ++ r.resource_rules;
          non_resource_rules_list = c.non_resource_rules_list ++ r.non_resource_rules;
          incomplete_status = if r.incomplete then true else c.incomplete_status;
        })
        hs
      ∙ (λ i. record {
        err_list =
            append_error-append c.err_list r.error (map (λ k. (k user namespace).error) hs) i;
        resource_rules_list =
            append_assoc c.resource_rules_list r.resource_rules (all_resource_rules hs) i;
        non_resource_rules_list =
            append_assoc c.non_resource_rules_list r.non_resource_rules (all_non_resource_rules hs)
              i;
        incomplete_status =
            or_swap (any (λ h. (h user namespace).incomplete) hs) r.incomplete c.incomplete_status
              i;
      })
    where
      or_swap : (x y z : Bool) → (x || (if y then true else z)) ≡ ((y || x) || z)
      or_swap x y z = ground arith

-- The union of rule resolvers lists the rules of all of them, in order, is incomplete exactly if one
-- of them is, and aggregates all their errors.
pub rules_for_union :
    (agg : Aggregates) (hs : List (User → String → Rules)) (user : User) (namespace : String)
    → rules_for agg hs user namespace ≡ record {
      resource_rules = all_resource_rules user namespace hs;
      non_resource_rules = all_non_resource_rules user namespace hs;
      incomplete = any (λ h. (h user namespace).incomplete) hs;
      error = agg.new_aggregate (all_errors user namespace hs);
    }
unfolding rules_for
rules_for_union agg hs user namespace =
    ap
      (λ (c : Collected). record {
        resource_rules = c.resource_rules_list;
        non_resource_rules = c.non_resource_rules_list;
        incomplete = c.incomplete_status;
        error = agg.new_aggregate c.err_list;
      })
      (collect_lem user namespace
        (record {
          err_list = [];
          resource_rules_list = [];
          non_resource_rules_list = [];
          incomplete_status = false;
        })
        hs)
    ∙ (λ i. record {
      resource_rules = all_resource_rules user namespace hs;
      non_resource_rules = all_non_resource_rules user namespace hs;
      incomplete = or_false (any (λ h. (h user namespace).incomplete) hs) i;
      error = agg.new_aggregate (all_errors user namespace hs);
    })
  where
    or_false : (x : Bool) → (x || false) ≡ x
    or_false x = ground arith
