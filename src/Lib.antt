-- ===== src/Lib.antt =====
-- Models of the access control of the API server, and what they are proved to do.
--
-- A filter authenticates a request by a chain of authenticators, and another one turns its request
-- information into the attributes that the authorizers read and asks them. The authorizers are
-- joined by a union, whose members are the role-based, the attribute-based and the path authorizer; service
-- accounts are users with names of a fixed form. Behind them a request may act as another user, and a mux
-- chooses the handler of its path. Audit events are reduced by a policy and sent in batches. A cache holds
-- the requests of streams for single-use tokens, and gates say which features are on.
--
--   * Base: lists, maps, texts (the functions of package strings that the code calls), errors, the
--     matching of a trailing star, and %q.
--   * User: pkg/authentication/user/user.go.
--   * Authorizer: pkg/authorization/authorizer. Attributes is AttributesRecord, Verdict the three
--     results of Authorize, Rules the four of RulesFor.
--   * ServiceAccount: pkg/authentication/serviceaccount/util.go. The validators that golib has,
--     IsDNS1123Label and IsDNS1123Subdomain, are parameters.
--   * Rbac: pkg/apis/rbac/types.go. Rbac/Match is the matching of pkg/apis/rbac/helpers.go and
--     RuleAllows; Rbac/Resolver is plugin/authorizer/rbac/validation/rule.go; Rbac/Authorize is
--     plugin/authorizer/rbac/rbac.go; Rbac/Subjects is plugin/authorizer/rbac/subject_locator.go.
--     The listers and getters are the record Store, of which Rbac/Resolver/Static is the
--     implementation that rule.go has. A visitor is a function on a state, and what a visit
--     reports is the list of events of Rbac/Resolver/Events.
--   * Abac: plugin/authorizer/abac/abac.go and plugin/authorizer/abac/api/types.go.
--   * RequestInfo: pkg/request/requestinfo.go, one function for each step of NewRequestInfo. The
--     codec, the field selectors and the test of a path segment, which golib has, are fields of
--     the factory. A panic, of an index or of a nil selector, is a missing result.
--   * AuthzUnion: pkg/authorization/union/union.go.
--   * AuthzPath: plugin/authorizer/path/path.go, over the record StringSets for sets.String of golib.
--   * Authenticator: pkg/authentication/authenticator, and the anonymous authenticator. An
--     authenticator is a function on a state, the request, with `none` for a nil dereference.
--     Authenticator/Audiences is audiences.go and audagnostic.go; Authenticator/Union is both
--     unions, pkg/authentication/request/union and pkg/authentication/token/union;
--     Authenticator/Groups is pkg/authentication/group; Authenticator/Bearer is
--     pkg/authentication/request/bearertoken.
--   * Filters: pkg/filters/authentication.go and pkg/filters/authorization.go, up to the handler
--     that each calls.
--   * Impersonation: pkg/filters/impersonation.go, up to the handler. Impersonation/Laws is what a request
--     may act as, Impersonation/Groups the groups and Impersonation/Headers the headers behind the filter.
--   * BootstrapToken: plugin/authenticator/token/bootstrap/bootstrap.go, with what it calls of
--     pkg/cluster-bootstrap. Regular expressions are written as the tests that they are; time.Parse is a
--     parameter.
--   * RequestCache: pkg/streaming/request_cache.go. An element of the list has an address; the clock and
--     what rand.Read leaves are arguments. RequestCache/Tokens is uniqueToken, whose ten rounds are the
--     fuel of its loop, RequestCache/Invariant what every operation keeps.
--   * FeatureGate: components/featuregate/feature_gate.go. FeatureGate/Parse is the text part of Set and
--     of String, FeatureGate/Fill what one call sets, FeatureGate/Locks the invariant of a gate,
--     FeatureGate/SetBack what Set makes of what String prints.
--   * PathRecorder: pkg/server/mux/pathrecorder.go. Serving is choosing a handler; PathRecorder/Priority
--     is the order of the prefixes.
--   * AuditTruncate: plugin/audit/truncate/truncate.go. A size is an int64: a sum is taken modulo 2^64.
--   * AuditPolicy: pkg/apis/audit/type_v1.go, pkg/audit/policy/checker.go and enforce.go. The order
--     in which a loop ranges over a Go map is the record RangeKeys.
--
-- A Go error is an Option of Error; errors.NewAggregate of golib is the record Aggregates, with its
-- documented behaviour on no errors and on some. A slice is a list, nil and empty alike. A map is
-- an association list. Loops are structural recursion over their slice, so that no fuel is needed; the
-- ten rounds of uniqueToken are the code's own bound.
-- Texts are the sequences of their characters; lengths and prefixes are taken in characters, which
-- agrees with Go's bytes on the tests the code makes: it compares lengths of suffixes, of ASCII tokens,
-- and of prefixes that one path has, of which the longer one is the same in both.
-- Logging, contexts and metrics are left out. Files, decoding and remote services are not modelled.
pub mod Base
mod Samples
pub mod User
pub mod Authorizer
pub mod ServiceAccount
pub mod Rbac
pub mod Abac
pub mod RequestInfo
pub mod AuthzUnion
pub mod Authenticator
pub mod Filters
pub mod AuditPolicy
pub mod AuthzPath
pub mod RequestCache
pub mod FeatureGate
pub mod PathRecorder
pub mod Impersonation
pub mod AuditTruncate
pub mod BootstrapToken
