-- ===== src/Filters/Authorization.antt =====
-- Which requests the authorization filter lets through, with either authorizer.
use apiserver.Base.{
  true, List, [], ◌∷◌, Option, none, some, Error, ◌≡◌, ◌≢◌, ◌↔◌, inl, inr, refl, arith, All, Any,
}
use apiserver.User.{User}
use apiserver.Authorizer.{
  Attributes, Verdict, Decision, decision_allow, decision_deny, decision_no_opinion,
}
use apiserver.RequestInfo.{RequestInfo}
use apiserver.Rbac.Authorize.{authorize}
use apiserver.Rbac.Authorize.Granted.{Granted}
use apiserver.Abac.{Policy, authorize as authorize_by_policies}
use apiserver.Abac.Laws.{Permits, permits_resource, permits_path, authorize-Permits_iff}
use apiserver.Filters.{handled, settle_verdict, with_authorization}

handled_iff :
    (attributes : Attributes) (v : Verdict)
    → (settle_verdict attributes v ≡ handled) ↔ (v.decision ≡ decision_allow)
unfolding settle_verdict
handled_iff attributes v = by_fields v.decision v.error
  where
    by_fields :
        (d : Decision) (e : Option Error)
        → (settle_verdict attributes (record { decision = d; reason = v.reason; error = e })
            ≡ handled)
          ↔ (d ≡ decision_allow)
    by_fields decision_allow e = ((λ h. refl), (λ h. refl))
    by_fields decision_deny none = ((λ h. cc), (λ h. cc))
    by_fields decision_deny (some x) = ((λ h. cc), (λ h. cc))
    by_fields decision_no_opinion none = ((λ h. cc), (λ h. cc))
    by_fields decision_no_opinion (some x) = ((λ h. cc), (λ h. cc))

-- The attributes of a request in whose context there is request information.
abbrev pub attributes_of : Option User → RequestInfo → Attributes
attributes_of user info = record {
  user = user;
  verb = info.verb;
  namespace = info.namespace;
  api_group = "";
  api_version = "";
  resource = info.resource;
  subresource = info.subresource;
  name = info.name;
  resource_request = info.is_resource_request;
  path = info.path;
}

-- A policy that is limited to one named API group.
abbrev pub OneGroup : Policy → Type 0
OneGroup p = (p.api_group ≢ "*") × (p.api_group ≢ "")

-- Policies that name an API group never let a resource request through the filter, whatever group
-- the request is for: the attributes that the filter makes have no API group.
pub with_authorization-OneGroup :
    (pl : List Policy) (user : Option User) (info : RequestInfo)
    → All OneGroup pl
    → info.is_resource_request ≡ true
    → with_authorization (authorize_by_policies pl) user (some info) ≢ handled
unfolding with_authorization
with_authorization-OneGroup pl user info all r h = none_permits pl all (
    (authorize-Permits_iff pl (attributes_of user info)).0 (
      (handled_iff (attributes_of user info) (authorize_by_policies pl (attributes_of user info))).0
        h))
  where
    not_permitted : (p : Policy) → OneGroup p → Permits (attributes_of user info) p → ⊥
    not_permitted p (star, empty) (permits_resource u a s v q f) = elim f.in_group [
      | inl e ↦ star e
      | inr e ↦ empty e
    ]
    not_permitted p (star, empty) (permits_path u a s v q f) = absurd (ground arith)

    none_permits :
        (ps : List Policy) → All OneGroup ps → Any (Permits (attributes_of user info)) ps → ⊥
    none_permits [] k x = absurd x
    none_permits (p ∷ ps) (k, ks) (inl x) = not_permitted p k x
    none_permits (p ∷ ps) (k, ks) (inr x) = none_permits ps ks x
