-- ===== src/AuthzUnion.antt =====
-- Unions of authorizers and of rule resolvers: pkg/authorization/union/union.go. A handler is its
-- Authorize or RulesFor method.
pub mod Laws
mod Tests
use apiserver.Base.{
  String, Bool, true, false, List, [], ◌∷◌, ◌++◌, Option, none, some, if◌then◌else◌, not, is_blank,
  join, Error, Aggregates,
}
use apiserver.User.{User}
use apiserver.Authorizer.{
  Attributes, Decision, decision_deny, decision_allow, decision_no_opinion, Verdict, Rules,
  ResourceRuleInfo, NonResourceRuleInfo,
}

abbrev pub append_error : List Error → Option Error → List Error
append_error errlist none = errlist
append_error errlist (some e) = errlist ++ e ∷ []

abbrev pub append_reason : List String → String → List String
append_reason reasonlist reason =
    if not (is_blank reason) then reasonlist ++ reason ∷ [] else reasonlist

-- The loop of Authorize, with its two lists, and what follows it.
authorize_from :
    Aggregates → List Error → List String → List (Attributes → Verdict) → Attributes → Verdict
authorize_from agg errlist reasonlist [] a = record {
  decision = decision_no_opinion;
  reason = join reasonlist "\n";
  error = agg.new_aggregate errlist;
}
authorize_from agg errlist reasonlist (handler ∷ handlers) a =
    let v = handler a in
    let rest =
      authorize_from agg (append_error errlist v.error) (append_reason reasonlist v.reason) handlers
        a in
    elim v.decision [ decision_allow ↦ v | decision_deny ↦ v | decision_no_opinion ↦ rest ]

pub authorize : Aggregates → List (Attributes → Verdict) → Attributes → Verdict
unfolding authorize_from
authorize agg handlers a = authorize_from agg [] [] handlers a

-- What the loop of RulesFor builds up.
pub record Collected : Type 0 where
  pub err_list : List Error
  pub resource_rules_list : List ResourceRuleInfo
  pub non_resource_rules_list : List NonResourceRuleInfo
  pub incomplete_status : Bool

collect : Collected → List (User → String → Rules) → User → String → Collected
collect c [] user namespace = c
collect c (handler ∷ handlers) user namespace =
    let r = handler user namespace in
    collect
      (record {
        err_list = append_error c.err_list r.error;
        resource_rules_list = c.resource_rules_list ++ r.resource_rules;
        non_resource_rules_list = c.non_resource_rules_list ++ r.non_resource_rules;
        incomplete_status = if r.incomplete then true else c.incomplete_status;
      })
      handlers user namespace

pub rules_for : Aggregates → List (User → String → Rules) → User → String → Rules
unfolding collect
rules_for agg handlers user namespace =
    let c =
      collect
        (record {
          err_list = [];
          resource_rules_list = [];
          non_resource_rules_list = [];
          incomplete_status = false;
        })
        handlers user namespace in
    record {
      resource_rules = c.resource_rules_list;
      non_resource_rules = c.non_resource_rules_list;
      incomplete = c.incomplete_status;
      error = agg.new_aggregate c.err_list;
    }
