-- ===== src/RequestInfo/Fields.antt =====
-- The fields of a request for a named, namespaced resource.
use apiserver.Base.{
  String, Bool, true, false, List, [], ◌∷◌, none, some, if◌then◌else◌, ◌==◌, ◌||◌, is_blank,
  blank_of_ne, ◌≡◌, ◌≢◌, refl, ap, ◌∙◌, eq_iff, Bool-cases, inl, inr, All, ◌+s◌, join,
}
use apiserver.RequestInfo.{
  Request, RequestInfo, RequestInfoFactory, special_verbs, namespace_subresources, plain_info,
  verb_of_method, settle_get, settle_delete, settle_named_delete, with_parts, finish, in_namespace,
  no_error, with_verb, with_version, with_group, from_parts, new_request_info,
}
use apiserver.RequestInfo.Paths.{Segment, split_path-join}

abbrev pub first_or_blank : List String → String
first_or_blank [] = ""
first_or_blank (s ∷ rest) = s

test_of_ne : (s t : String) → s ≢ t → (s == t) ≡ false
test_of_ne s t h = elim (Bool-cases (s == t)) [ inl e ↦ absurd (h ((eq_iff s t).0 e)) | inr e ↦ e ]

either_not_proxy :
    (b : Bool) (x y : String)
    → (x == "proxy") ≡ false
    → (y == "proxy") ≡ false
    → ((if b then x else y) == "proxy") ≡ false
either_not_proxy true x y p q = p
either_not_proxy false x y p q = q

verb_of_method-ne_proxy : (m : String) → (verb_of_method m == "proxy") ≡ false
unfolding verb_of_method
verb_of_method-ne_proxy m = either_not_proxy (m == "POST") _ _ refl (
    either_not_proxy (m == "GET" || m == "HEAD") _ _ refl (
      either_not_proxy (m == "PUT") _ _ refl (
        either_not_proxy (m == "PATCH") _ _ refl (either_not_proxy (m == "DELETE") _ _ refl refl))))

module _ (f : RequestInfoFactory) (req : Request) where
  settle_named :
      (i : RequestInfo)
      → is_blank i.name ≡ false
      → settle_named_delete (settle_get f req i) ≡ some i
  unfolding settle_named_delete settle_delete settle_get
  settle_named i h = rw (h, h) refl

  finish_named :
      (info : RequestInfo) (r n : String) (rest : List String)
      → (info.verb == "proxy") ≡ false
      → info.subresource ≡ ""
      → n ≢ ""
      → finish f req info (r ∷ (n ∷ rest))
        ≡ some (record info {
          parts = r ∷ (n ∷ rest);
          resource = r;
          name = n;
          subresource = first_or_blank rest;
        })
  unfolding finish
  finish_named info r n [] v s h =
      settle_named (record info { parts = r ∷ (n ∷ []); resource = r; name = n }) (blank_of_ne n h)
      ∙ (λ i.
          some (record info { parts = r ∷ (n ∷ []); resource = r; name = n; subresource = s i }))
  finish_named info r n (t ∷ rest) v s h =
      settle_named (with_parts info (r ∷ (n ∷ (t ∷ rest)))) (blank_of_ne n h) ∙ (rw v refl)

  -- Behind the version: the namespace, the resource, its name and what follows.
  with_version_named :
      (info : RequestInfo) (version ns r n : String) (rest : List String)
      → info.subresource ≡ ""
      → r ≢ "status"
      → r ≢ "finalize"
      → n ≢ ""
      → with_version f req info (version ∷ ("namespaces" ∷ (ns ∷ (r ∷ (n ∷ rest)))))
        ≡ some (
          record info {
            is_resource_request = true;
            api_version = version;
            verb = verb_of_method req.method;
            namespace = ns;
            resource = r;
            name = n;
            subresource = first_or_blank rest;
            parts = r ∷ (n ∷ rest);
          },
          none,
        )
  unfolding with_version with_verb in_namespace no_error special_verbs namespace_subresources
  with_version_named info version ns r n rest s p q h =
      rw (test_of_ne r "status" p, test_of_ne r "finalize" q)
        (ap no_error (
          finish_named
            (record info {
              is_resource_request = true;
              api_version = version;
              verb = verb_of_method req.method;
              namespace = ns;
            })
            r n rest (verb_of_method-ne_proxy req.method) s h))

-- The request for the path that the segments make.
abbrev pub request_for : String → List (String × List String) → List String → Request
request_for method query segments = record {
  method = method;
  path = "/" +s join segments "/";
  query = query;
}

-- A request for `/{prefix}/{version}/namespaces/{namespace}/{resource}/{name}/…`, where the prefix is
-- an API prefix without groups and the resource is not "status" or "finalize", gets all its parts
-- back: the verb of its method, the namespace, the resource, the name, and the next segment, if
-- there is one, as the subresource.
pub new_request_info-groupless :
    (f : RequestInfoFactory) (method : String) (query : List (String × List String))
    (prefix version ns r n : String) (rest : List String)
    → All Segment (prefix ∷ (version ∷ ("namespaces" ∷ (ns ∷ (r ∷ (n ∷ rest))))))
    → f.api_prefixes prefix ≡ true
    → f.groupless_api_prefixes prefix ≡ true
    → r ≢ "status"
    → r ≢ "finalize"
    → let segments = prefix ∷ (version ∷ ("namespaces" ∷ (ns ∷ (r ∷ (n ∷ rest))))) in
      new_request_info f (request_for method query segments)
      ≡ some (
        record {
          is_resource_request = true;
          path = "/" +s join segments "/";
          verb = verb_of_method method;
          api_prefix = prefix;
          api_group = "";
          api_version = version;
          namespace = ns;
          resource = r;
          subresource = first_or_blank rest;
          name = n;
          parts = r ∷ (n ∷ rest);
        },
        none,
      )
unfolding new_request_info from_parts plain_info
new_request_info-groupless f method query prefix version ns r n rest h a g p q =
    let segments = prefix ∷ (version ∷ ("namespaces" ∷ (ns ∷ (r ∷ (n ∷ rest))))) in
    let req : Request = request_for method query segments in
    ap (from_parts f req)
      (split_path-join prefix (version ∷ ("namespaces" ∷ (ns ∷ (r ∷ (n ∷ rest))))) h)
    ∙ (rw (a, g)
        (with_version_named f req (record (plain_info req) { api_prefix = prefix }) version ns r n
          rest refl p q h.1.1.1.1.1.0.0))

-- The same for a prefix with groups: the segment behind the prefix is the API group.
pub new_request_info-grouped :
    (f : RequestInfoFactory) (method : String) (query : List (String × List String))
    (prefix group version ns r n : String) (rest : List String)
    → All Segment (prefix ∷ (group ∷ (version ∷ ("namespaces" ∷ (ns ∷ (r ∷ (n ∷ rest)))))))
    → f.api_prefixes prefix ≡ true
    → f.groupless_api_prefixes prefix ≡ false
    → r ≢ "status"
    → r ≢ "finalize"
    → let segments = prefix ∷ (group ∷ (version ∷ ("namespaces" ∷ (ns ∷ (r ∷ (n ∷ rest)))))) in
      new_request_info f (request_for method query segments)
      ≡ some (
        record {
          is_resource_request = true;
          path = "/" +s join segments "/";
          verb = verb_of_method method;
          api_prefix = prefix;
          api_group = group;
          api_version = version;
          namespace = ns;
          resource = r;
          subresource = first_or_blank rest;
          name = n;
          parts = r ∷ (n ∷ rest);
        },
        none,
      )
unfolding new_request_info from_parts plain_info with_group
new_request_info-grouped f method query prefix group version ns r n rest h a g p q =
    let segments = prefix ∷ (group ∷ (version ∷ ("namespaces" ∷ (ns ∷ (r ∷ (n ∷ rest)))))) in
    let req : Request = request_for method query segments in
    ap (from_parts f req)
      (split_path-join prefix (group ∷ (version ∷ ("namespaces" ∷ (ns ∷ (r ∷ (n ∷ rest)))))) h)
    ∙ (rw (a, g)
        (with_version_named f req
          (record (plain_info req) { api_prefix = prefix; api_group = group }) version ns r n rest
          refl p q h.1.1.1.1.1.1.0.0))
