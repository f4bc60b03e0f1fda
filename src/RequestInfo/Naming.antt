-- ===== src/RequestInfo/Naming.antt =====
-- Requests with and without a name: the verb, and the name from a field selector.
use apiserver.Base.{
  String, Bool, true, false, List, [], ◌∷◌, Option, none, some, if◌then◌else◌, ◌==◌, ◌&&◌, is_blank,
  is_blank_iff, Error, ◌≡◌, ◌≢◌, refl, ap, arith, eq_iff, Bool-cases, inl, inr, ne_of_test, subst,
  sym, ◌∙◌, if_ind, if_true, and_iff, not, some_inj, ok,
}
use apiserver.RequestInfo.{
  Request, RequestInfo, RequestInfoFactory, ListOptions, special_verbs, namespace_subresources,
  split_path, plain_info, verb_of_method, settle_get, settle_delete, with_parts, finish,
  in_namespace, no_error, with_verb, with_version, with_group, from_parts, new_request_info,
  list_options, selector_name, with_verb_and_name, settle_named_delete,
}

-- A request without a name is no "get" and no "delete".
record Settled (i : RequestInfo) : Type 0 where
  get_named : i.verb ≡ "get" → i.name ≢ ""
  delete_named : i.verb ≡ "delete" → i.name ≢ ""

not_blank : (s : String) → is_blank s ≡ false → s ≢ ""
not_blank s h e = absurd (ground (arith, (is_blank_iff s).1 e))

watch_or_list :
    (b : Bool) (t : String)
    → ("watch" == t) ≡ false
    → ("list" == t) ≡ false
    → (if b then "watch" else "list") ≢ t
watch_or_list true t p q = ne_of_test "watch" t p
watch_or_list false t p q = ne_of_test "list" t q

named_of_test : (n v t : String) → (is_blank n && v == t) ≡ false → v ≡ t → n ≢ ""
named_of_test n v t h e = not_blank n (ground (arith, (eq_iff v t).1 e))

module _ (f : RequestInfoFactory) (req : Request) where
  settle_get_named :
      (i j : RequestInfo) → settle_get f req i ≡ some j → j.verb ≡ "get" → j.name ≢ ""
  unfolding settle_get
  settle_get_named i j =
      if_ind (λ o. o ≡ some j → j.verb ≡ "get" → j.name ≢ "") (is_blank i.name && i.verb == "get")
        (λ t h e. absurd (never_get (list_options f req).watch _ h e))
        (λ t h.
          let q : i ≡ j = some_inj h in
          subst (λ (k : RequestInfo). k.verb ≡ "get" → k.name ≢ "") q
            (named_of_test i.name i.verb "get" t))
    where
      never_get :
          (w : Bool) (o : Option String)
          → with_verb_and_name i (if w then "watch" else "list") o ≡ some j
          → j.verb ≡ "get"
          → ⊥
      never_get w none h e = cc
      never_get w (some n) h e =
          watch_or_list w "get" refl refl (ap (λ (k : RequestInfo). k.verb) (some_inj h) ∙ e)

settle_delete-Settled :
    (i : RequestInfo) → (i.verb ≡ "get" → i.name ≢ "") → Settled (settle_delete i)
unfolding settle_delete
settle_delete-Settled i h = elim (Bool-cases (is_blank i.name && i.verb == "delete")) [
  | inl e ↦ rw e (record {
    get_named = λ p. absurd (ne_of_test "deletecollection" "get" refl p);
    delete_named = λ p. absurd (ne_of_test "deletecollection" "delete" refl p);
  })
  | inr e ↦ rw e (record { get_named = h; delete_named = named_of_test i.name i.verb "delete" e })
]

-- What holds of the information that `finish` returns holds of every resource request that is parsed
-- without an error.
module _ (P : RequestInfo → Type 0) (f : RequestInfoFactory) (req : Request)
    (finished : (i : RequestInfo) (ps : List String) (j : RequestInfo)
      → finish f req i ps ≡ some j
      → P j) where
  found_all :
      (info : RequestInfo) (ps : List String) (i : RequestInfo)
      → finish f req info ps ≡ some i
      → P i
  found_all info ps i h = finished info ps i h

  in_namespace_all :
      (info : RequestInfo) (ps : List String) (i : RequestInfo)
      → in_namespace f req info ps ≡ some i
      → P i
  unfolding in_namespace
  in_namespace_all info [] i h = cc
  in_namespace_all info (p ∷ []) i h = found_all info (p ∷ []) i h
  in_namespace_all info (p ∷ (ns ∷ [])) i h = elim (Bool-cases (p == "namespaces")) [
    | inl e ↦ found_all (record info { namespace = ns }) (p ∷ (ns ∷ [])) i (rw e at h)
    | inr e ↦ found_all info (p ∷ (ns ∷ [])) i (rw e at h)
  ]
  in_namespace_all info (p ∷ (ns ∷ (r ∷ rest))) i h = elim (Bool-cases (p == "namespaces")) [
    | inl e ↦ elim (Bool-cases (namespace_subresources r)) [
      | inl d ↦
          found_all (record info { namespace = ns }) (p ∷ (ns ∷ (r ∷ rest))) i (rw (e, d) at h)
      | inr d ↦ found_all (record info { namespace = ns }) (r ∷ rest) i (rw (e, d) at h)
    ]
    | inr e ↦ found_all info (p ∷ (ns ∷ (r ∷ rest))) i (rw e at h)
  ]

  no_error_all :
      (o : Option RequestInfo) (i : RequestInfo)
      → ((j : RequestInfo) → o ≡ some j → P j)
      → no_error o ≡ some (i, none)
      → P i
  unfolding no_error
  no_error_all none i h e = cc
  no_error_all (some j) i h e = subst P (ap (λ x. x.0) (some_inj e)) (h j refl)

  no_error_in_namespace :
      (info : RequestInfo) (ps : List String) (i : RequestInfo)
      → no_error (in_namespace f req info ps) ≡ some (i, none)
      → P i
  no_error_in_namespace info ps i h =
      no_error_all (in_namespace f req info ps) i (in_namespace_all info ps) h

  with_verb_all :
      (info : RequestInfo) (ps : List String) (i : RequestInfo)
      → with_verb f req info ps ≡ some (i, none)
      → P i
  unfolding with_verb
  with_verb_all info [] i h = cc
  with_verb_all info (p ∷ []) i h = elim (Bool-cases (special_verbs p)) [
    | inl e ↦ absurd (ground arith)
    | inr e ↦
        no_error_in_namespace (record info { verb = verb_of_method req.method }) (p ∷ []) i
          (rw e at h)
  ]
  with_verb_all info (p ∷ (q ∷ rest)) i h = elim (Bool-cases (special_verbs p)) [
    | inl e ↦ no_error_in_namespace (record info { verb = p }) (q ∷ rest) i (rw e at h)
    | inr e ↦
        no_error_in_namespace (record info { verb = verb_of_method req.method }) (p ∷ (q ∷ rest)) i
          (rw e at h)
  ]

  with_version_all :
      (info : RequestInfo) (ps : List String) (i : RequestInfo)
      → with_version f req info ps ≡ some (i, none)
      → P i
  unfolding with_version
  with_version_all info [] i h = cc
  with_version_all info (v ∷ rest) i h =
      with_verb_all (record info { is_resource_request = true; api_version = v }) rest i h

  plain_only :
      (info i : RequestInfo)
      → info.is_resource_request ≡ false
      → ◌≡◌ {A = Option (RequestInfo × Option Error)} (some (info, none)) (some (i, none))
      → i.is_resource_request ≡ true
      → P i
  plain_only info i p h r =
      let same : info ≡ i = ap (λ x. x.0) (some_inj h) in
      absurd (ground (arith, ap (λ (x : RequestInfo). x.is_resource_request) same))

  with_group_all :
      (info : RequestInfo) (ps : List String) (i : RequestInfo)
      → info.is_resource_request ≡ false
      → with_group f req info ps ≡ some (i, none)
      → i.is_resource_request ≡ true
      → P i
  unfolding with_group
  with_group_all info (g ∷ (v ∷ (r ∷ rest))) i p h t =
      with_version_all (record info { api_group = g }) (v ∷ (r ∷ rest)) i h
  with_group_all info [] i p h t = plain_only info i p h t
  with_group_all info (g ∷ []) i p h t = plain_only info i p h t
  with_group_all info (g ∷ (v ∷ [])) i p h t = plain_only info i p h t

  from_parts_all :
      (ps : List String) (i : RequestInfo)
      → from_parts f req ps ≡ some (i, none)
      → i.is_resource_request ≡ true
      → P i
  unfolding from_parts
  from_parts_all [] i h t = plain_only (plain_info req) i refl h t
  from_parts_all (p ∷ []) i h t = plain_only (plain_info req) i refl h t
  from_parts_all (p ∷ (q ∷ [])) i h t = plain_only (plain_info req) i refl h t
  from_parts_all (p ∷ (q ∷ (r ∷ rest))) i h t = elim (Bool-cases (f.api_prefixes p)) [
    | inl e ↦ elim (Bool-cases (f.groupless_api_prefixes p)) [
      | inl d ↦
          with_version_all (record (plain_info req) { api_prefix = p }) (q ∷ (r ∷ rest)) i
            (rw (e, d) at h)
      | inr d ↦
          with_group_all (record (plain_info req) { api_prefix = p }) (q ∷ (r ∷ rest)) i refl
            (rw (e, d) at h) t
    ]
    | inr e ↦ plain_only (plain_info req) i refl (rw e at h) t
  ]

new_request_info-Settled :
    (f : RequestInfoFactory) (req : Request) (i : RequestInfo)
    → new_request_info f req ≡ some (i, none)
    → i.is_resource_request ≡ true
    → Settled i
unfolding new_request_info finish settle_named_delete
new_request_info-Settled f req i h t =
    from_parts_all Settled f req
      (λ j ps k.
        deleted (settle_get f req (with_parts j ps)) k (settle_get_named f req (with_parts j ps)))
      (split_path req.path) i h t
  where
    deleted :
        (o : Option RequestInfo) (k : RequestInfo)
        → ((j : RequestInfo) → o ≡ some j → j.verb ≡ "get" → j.name ≢ "")
        → settle_named_delete o ≡ some k
        → Settled k
    deleted none k n h = cc
    deleted (some j) k n h = subst Settled (some_inj h) (settle_delete-Settled j (n j refl))

-- A resource request that is parsed without an error and has no name is no "get" and no "delete":
-- such a request lists, watches or deletes a collection.
pub new_request_info-unnamed :
    (f : RequestInfoFactory) (req : Request) (i : RequestInfo)
    → new_request_info f req ≡ some (i, none)
    → i.is_resource_request ≡ true
    → i.name ≡ ""
    → (i.verb ≢ "get") × (i.verb ≢ "delete")
new_request_info-unnamed f req i h t n =
    let settled = new_request_info-Settled f req i h t in
    (λ e. settled.get_named e n, λ e. settled.delete_named e n)

pub list_options_decoded :
    (f : RequestInfoFactory) (req : Request) (opts : ListOptions)
    → f.decode_parameters req.query ≡ ok opts
    → list_options f req ≡ opts
unfolding list_options
list_options_decoded f req opts h = rw (h, list_options) refl

selector_name_parsed :
    (f : RequestInfoFactory) (selector name : String)
    → (f.parse_selector selector).error ≡ none
    → selector_name f selector name ≡ some name
unfolding selector_name
selector_name_parsed f selector name h = rw (h, selector_name) refl

-- A field selector that parses is never asked for a name: a "get" without a name, whose parameters
-- decode to a selector that parses without an error, becomes a "watch" or a "list" without a name,
-- whatever name the selector requires.
pub settle_get_selector :
    (f : RequestInfoFactory) (req : Request) (i : RequestInfo) (opts : ListOptions)
    → f.decode_parameters req.query ≡ ok opts
    → (f.parse_selector opts.field_selector).error ≡ none
    → i.name ≡ ""
    → i.verb ≡ "get"
    → settle_get f req i ≡ some (record i { verb = if opts.watch then "watch" else "list" })
unfolding settle_get with_verb_and_name
settle_get_selector f req i opts d p n v =
    if_true (is_blank i.name && i.verb == "get") _ _
      ((and_iff _ _).1 ((is_blank_iff i.name).1 n, (eq_iff i.verb "get").1 v))
    ∙ ap (with_verb_and_name i (if (list_options f req).watch then "watch" else "list")) same_name
    ∙ ap (λ (o : ListOptions). some (record i { verb = if o.watch then "watch" else "list" }))
        (list_options_decoded f req opts d)
  where
    same_name :
        (if not ((list_options f req).field_selector == "")
          then selector_name f (list_options f req).field_selector i.name
          else some i.name)
        ≡ some i.name
    same_name =
        if_ind (λ o. o ≡ some i.name) (not ((list_options f req).field_selector == ""))
          (λ t. selector_name_parsed f (list_options f req).field_selector i.name (
            subst (λ (o : ListOptions). (f.parse_selector o.field_selector).error ≡ none)
              (sym (list_options_decoded f req opts d)) p))
          (λ t. refl)
