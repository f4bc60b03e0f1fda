-- ===== src/RequestInfo/Collections.antt =====
-- Requests for a collection whose field selector does not parse: NewRequestInfo of
-- pkg/request/requestinfo.go calls a method of the nil selector.
use apiserver.Base.{
  String, true, List, [], ◌∷◌, All, none, some, ◌==◌, ◌&&◌, eq_iff, and_iff, not, is_blank,
  if◌then◌else◌, if_true, differ, ◌≡◌, ◌≢◌, ◌↔◌, refl, ap, ◌∙◌, inl, inr, Error,
}
use apiserver.RequestInfo.{
  Request, RequestInfo, RequestInfoFactory, ListOptions, special_verbs, namespace_subresources,
  plain_info, verb_of_method, list_options, selected, selector_name, with_verb_and_name, settle_get,
  settle_named_delete, with_parts, finish, in_namespace, no_error, with_verb, with_version,
  from_parts, new_request_info,
}
use apiserver.RequestInfo.Paths.{Segment, split_path-join}
use apiserver.RequestInfo.Fields.{request_for}
use apiserver.RequestInfo.Naming.{list_options_decoded}
use apiserver.RequestInfo.Totality.{Gets, BadSelector, new_request_info-none}

module _ (f : RequestInfoFactory) (req : Request) where
  selector_name-missing :
      (selector name : String)
      → ((e : Error) × ((f.parse_selector selector).error ≡ some e))
      → (f.parse_selector selector).selector ≡ none
      → selector_name f selector name ≡ none
  unfolding selector_name selected
  selector_name-missing selector name (e, h) m = rw (h, m, selector_name) refl

  settle_get-BadSelector :
      (i : RequestInfo)
      → is_blank i.name ≡ true
      → i.verb ≡ "get"
      → BadSelector f req
      → settle_get f req i ≡ none
  unfolding settle_get with_verb_and_name
  settle_get-BadSelector i n v b =
      if_true (is_blank i.name && i.verb == "get") _ _
        ((and_iff _ _).1 (n, (eq_iff i.verb "get").1 v))
      ∙ ap (with_verb_and_name i (if (list_options f req).watch then "watch" else "list")) (
          ap
            (λ (o : ListOptions).
              if not (o.field_selector == "")
              then selector_name f o.field_selector i.name
              else some i.name)
            (list_options_decoded f req b.opts b.decoded)
          ∙ if_true (not (b.opts.field_selector == "")) _ _
              (ap not (differ b.opts.field_selector "" b.given))
          ∙ selector_name-missing b.opts.field_selector i.name (b.error, b.refused) b.missing)

  verb_of_method-get : Gets f req → verb_of_method req.method ≡ "get"
  unfolding verb_of_method
  verb_of_method-get (inl e) = rw e refl
  verb_of_method-get (inr e) = rw e refl

  with_version-BadSelector :
      (info : RequestInfo) (version ns r : String)
      → info.name ≡ ""
      → r ≢ "status"
      → r ≢ "finalize"
      → Gets f req
      → BadSelector f req
      → with_version f req info (version ∷ ("namespaces" ∷ (ns ∷ (r ∷ [])))) ≡ none
  unfolding with_version with_verb in_namespace no_error special_verbs namespace_subresources finish
      with_parts settle_named_delete
  with_version-BadSelector info version ns r n p q g b =
      rw (differ r "status" p, differ r "finalize" q)
        (ap (λ o. no_error (settle_named_delete o))
          (settle_get-BadSelector
            (record info {
              is_resource_request = true;
              api_version = version;
              verb = verb_of_method req.method;
              namespace = ns;
              resource = r;
              parts = r ∷ [];
            })
            (ap is_blank n) (verb_of_method-get g) b))

-- For a path `/{prefix}/{version}/namespaces/{namespace}/{resource}`, where the prefix is an API prefix
-- without groups and the resource is not "status" or "finalize", NewRequestInfo panics exactly when
-- the method is GET or HEAD and the parameters decode to a field selector that is not empty and that
-- ParseSelector refuses with an error and a nil selector.
pub new_request_info-none_iff :
    (f : RequestInfoFactory) (method : String) (query : List (String × List String))
    (prefix version ns r : String)
    → All Segment (prefix ∷ (version ∷ ("namespaces" ∷ (ns ∷ (r ∷ [])))))
    → f.api_prefixes prefix ≡ true
    → f.groupless_api_prefixes prefix ≡ true
    → r ≢ "status"
    → r ≢ "finalize"
    → let req = request_for method query (prefix ∷ (version ∷ ("namespaces" ∷ (ns ∷ (r ∷ []))))) in
      (new_request_info f req ≡ none) ↔ (Gets f req × BadSelector f req)
unfolding new_request_info from_parts plain_info
new_request_info-none_iff f method query prefix version ns r h a g p q =
    let req : Request =
      request_for method query (prefix ∷ (version ∷ ("namespaces" ∷ (ns ∷ (r ∷ []))))) in
    (
      new_request_info-none f req,
      λ (m, b).
          ap (from_parts f req)
            (split_path-join prefix (version ∷ ("namespaces" ∷ (ns ∷ (r ∷ [])))) h)
          ∙ (rw (a, g)
              (with_version-BadSelector f req (record (plain_info req) { api_prefix = prefix })
                version ns r refl p q m b)),
    )
