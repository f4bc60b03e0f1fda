-- ===== src/RequestInfo/Totality.antt =====
-- When the request information of a request is a panic: a field selector that does not parse.
use apiserver.Base.{
  String, true, false, List, [], ◌∷◌, Option, none, some, ◌==◌, eq_iff, and_iff, Error, Result, ok,
  err, not, is_blank, if_true, if_false, ◌≡◌, ◌≢◌, ◌⊎◌, refl, sym, ap, ◌∙◌, Bool-cases, inl, inr,
  ◌||◌, ◌&&◌, if_ind, or_iff, ne_of_test,
}
use apiserver.RequestInfo.{
  Request, RequestInfo, RequestInfoFactory, ListOptions, special_verbs, namespace_subresources,
  split_path, plain_info, verb_of_method, list_options, selected, selector_name, with_verb_and_name,
  settle_get, settle_named_delete, with_parts, finish, in_namespace, no_error, with_verb,
  with_version, with_group, from_parts, new_request_info,
}

-- The parameters of the request decode to a field selector that is not empty, for which ParseSelector
-- returns an error and a nil selector.
pub record BadSelector (f : RequestInfoFactory) (req : Request) : Type 0 where
  pub opts : ListOptions
  pub decoded : f.decode_parameters req.query ≡ ok opts
  pub given : opts.field_selector ≢ ""
  pub error : Error
  pub refused : (f.parse_selector opts.field_selector).error ≡ some error
  pub missing : (f.parse_selector opts.field_selector).selector ≡ none

selector_name-none :
    (f : RequestInfoFactory) (selector name : String)
    → selector_name f selector name ≡ none
    → (e : Error) × ((f.parse_selector selector).error ≡ some e)
      × ((f.parse_selector selector).selector ≡ none)
unfolding selector_name selected
selector_name-none f selector name =
    by_parts (f.parse_selector selector).error (f.parse_selector selector).selector
  where
    by_parts :
        (x : Option Error) (s : Option (String → Option String))
        → (elim x [ none ↦ some name | some e ↦ selected f name s ]) ≡ none
        → (e : Error) × (x ≡ some e) × (s ≡ none)
    by_parts none s h = cc
    by_parts (some e) none h = (e, refl, refl)
    by_parts (some e) (some m) h = cc

module _ (f : RequestInfoFactory) (req : Request) where
  listed :
      (r : Result ListOptions)
      → f.decode_parameters req.query ≡ r
      → (list_options f req).field_selector ≢ ""
      → (f.decode_parameters req.query ≡ ok (list_options f req))
  unfolding list_options
  listed (ok opts) e n = rw (e, list_options) refl
  listed (err x) e n = absurd (n (rw (e, list_options) refl))

  asked_nothing :
      (info : RequestInfo) (verb : String) (o : Option String)
      → with_verb_and_name info verb o ≡ none
      → o ≡ none
  unfolding with_verb_and_name
  asked_nothing info verb none h = refl
  asked_nothing info verb (some name) h = cc

  settle_get-none :
      (info : RequestInfo) → settle_get f req info ≡ none → (info.verb ≡ "get") × BadSelector f req
  unfolding settle_get
  settle_get-none info h =
      let opts = list_options f req in
      elim (Bool-cases (is_blank info.name && info.verb == "get")) [
        | inr e ↦ let q : some info ≡ none = sym (if_false _ _ _ e) ∙ h in absurd (cc)
        | inl e ↦
            let n = asked_nothing info _ _ (sym (if_true _ _ _ e) ∙ h) in
            elim (Bool-cases (opts.field_selector == "")) [
              | inl b ↦
                  let q : some info.name ≡ none =
                    sym (if_false (not (opts.field_selector == "")) _ _ (ap not b)) ∙ n in
                  absurd (cc)
              | inr b ↦
                  let (x, r, m) =
                    selector_name-none f opts.field_selector info.name
                      (sym (if_true (not (opts.field_selector == "")) _ _ (ap not b)) ∙ n) in
                  (
                    (eq_iff _ _).0 ((and_iff _ _).0 e).1,
                    record {
                      opts = opts;
                      decoded =
                          listed (f.decode_parameters req.query) refl
                            (ne_of_test opts.field_selector "" b);
                      given = ne_of_test opts.field_selector "" b;
                      error = x;
                      refused = r;
                      missing = m;
                    },
                  )
            ]
      ]

  finish-none :
      (info : RequestInfo) (ps : List String)
      → finish f req info ps ≡ none
      → (info.verb ≡ "get") × BadSelector f req
  unfolding finish with_parts
  finish-none info ps h = by_parts ps (deleted (settle_get f req (with_parts info ps)) h)
    where
      deleted : (o : Option RequestInfo) → settle_named_delete o ≡ none → o ≡ none
      deleted none h = refl
      deleted (some i) h = cc

      by_parts :
          (ps : List String)
          → settle_get f req (with_parts info ps) ≡ none
          → (info.verb ≡ "get") × BadSelector f req
      by_parts [] h = settle_get-none (with_parts info []) h
      by_parts (r ∷ []) h = settle_get-none (with_parts info (r ∷ [])) h
      by_parts (r ∷ (n ∷ [])) h = settle_get-none (with_parts info (r ∷ (n ∷ []))) h
      by_parts (r ∷ (n ∷ (s ∷ rest))) h = settle_get-none (with_parts info (r ∷ (n ∷ (s ∷ rest)))) h

  in_namespace-none :
      (info : RequestInfo) (p : String) (ps : List String)
      → in_namespace f req info (p ∷ ps) ≡ none
      → (info.verb ≡ "get") × BadSelector f req
  unfolding in_namespace
  in_namespace-none info p [] = finish-none info (p ∷ [])
  in_namespace-none info p (ns ∷ []) =
      if_ind (λ o. o ≡ none → (info.verb ≡ "get") × BadSelector f req) (p == "namespaces")
        (λ t. finish-none (record info { namespace = ns }) (p ∷ (ns ∷ [])))
        (λ t. finish-none info (p ∷ (ns ∷ [])))
  in_namespace-none info p (ns ∷ (r ∷ rest)) =
      if_ind (λ o. o ≡ none → (info.verb ≡ "get") × BadSelector f req) (p == "namespaces")
        (λ t.
          if_ind (λ o. o ≡ none → (info.verb ≡ "get") × BadSelector f req)
            (not (namespace_subresources r))
            (λ s. finish-none (record info { namespace = ns }) (r ∷ rest))
            (λ s. finish-none (record info { namespace = ns }) (p ∷ (ns ∷ (r ∷ rest)))))
        (λ t. finish-none info (p ∷ (ns ∷ (r ∷ rest))))

  -- The method of the request is one that gets.
  abbrev pub Gets : Type 0
  Gets = (req.method ≡ "GET") ⊎ (req.method ≡ "HEAD")

  verb-Gets : verb_of_method req.method ≡ "get" → Gets
  unfolding verb_of_method
  verb-Gets =
      if_ind (λ v. v ≡ "get" → Gets) (req.method == "POST")
        (λ t h. absurd (ne_of_test "create" "get" refl h))
        (λ t.
          if_ind (λ v. v ≡ "get" → Gets) (req.method == "GET" || req.method == "HEAD")
            (λ s h. elim ((or_iff _ _).0 s) [
              | inl a ↦ inl ((eq_iff _ _).0 a)
              | inr a ↦ inr ((eq_iff _ _).0 a)
            ])
            (λ s.
              if_ind (λ v. v ≡ "get" → Gets) (req.method == "PUT")
                (λ t h. absurd (ne_of_test "update" "get" refl h))
                (λ t.
                  if_ind (λ v. v ≡ "get" → Gets) (req.method == "PATCH")
                    (λ t h. absurd (ne_of_test "patch" "get" refl h))
                    (λ t.
                      if_ind (λ v. v ≡ "get" → Gets) (req.method == "DELETE")
                        (λ t h. absurd (ne_of_test "delete" "get" refl h))
                        (λ t h. absurd (ne_of_test "" "get" refl h))))))

  special-ne_get : (p : String) → special_verbs p ≡ true → p ≢ "get"
  unfolding special_verbs
  special-ne_get p h e = let q : false ≡ true = rw e at h in absurd (cc)

  no_error-none : (o : Option RequestInfo) → no_error o ≡ none → o ≡ none
  unfolding no_error
  no_error-none none h = refl
  no_error-none (some i) h = cc

  with_verb-none :
      (info : RequestInfo) (p : String) (ps : List String)
      → with_verb f req info (p ∷ ps) ≡ none
      → Gets × BadSelector f req
  unfolding with_verb
  with_verb-none info p [] =
      if_ind (λ o. o ≡ none → Gets × BadSelector f req) (special_verbs p) (λ t h. cc)
        (λ t h. by_method p [] (no_error-none _ h))
    where
      by_method :
          (q : String) (qs : List String)
          → in_namespace f req (record info { verb = verb_of_method req.method }) (q ∷ qs) ≡ none
          → Gets × BadSelector f req
      by_method q qs h =
          let (v, b) =
            in_namespace-none (record info { verb = verb_of_method req.method }) q qs h in
          (verb-Gets v, b)
  with_verb-none info p (q ∷ rest) =
      if_ind (λ o. o ≡ none → Gets × BadSelector f req) (special_verbs p)
        (λ t h.
          let (v, b) = in_namespace-none (record info { verb = p }) q rest (no_error-none _ h) in
          absurd (special-ne_get p t v))
        (λ t h.
          let (v, b) =
            in_namespace-none (record info { verb = verb_of_method req.method }) p (q ∷ rest)
              (no_error-none _ h) in
          (verb-Gets v, b))

  with_version-none :
      (info : RequestInfo) (v p : String) (ps : List String)
      → with_version f req info (v ∷ (p ∷ ps)) ≡ none
      → Gets × BadSelector f req
  unfolding with_version
  with_version-none info v p ps =
      with_verb-none (record info { is_resource_request = true; api_version = v }) p ps

  with_group-none :
      (info : RequestInfo) (ps : List String)
      → with_group f req info ps ≡ none
      → Gets × BadSelector f req
  unfolding with_group
  with_group-none info (g ∷ (v ∷ (r ∷ rest))) h =
      with_version-none (record info { api_group = g }) v r rest h
  with_group-none info [] h = cc
  with_group-none info (g ∷ []) h = cc
  with_group-none info (g ∷ (v ∷ [])) h = cc

  from_parts-none : (ps : List String) → from_parts f req ps ≡ none → Gets × BadSelector f req
  unfolding from_parts
  from_parts-none [] h = cc
  from_parts-none (p ∷ []) h = cc
  from_parts-none (p ∷ (q ∷ [])) h = cc
  from_parts-none (p ∷ (q ∷ (r ∷ rest))) h =
      if_ind (λ o. o ≡ none → Gets × BadSelector f req) (not (f.api_prefixes p)) (λ t h. cc)
        (λ t.
          if_ind (λ o. o ≡ none → Gets × BadSelector f req) (not (f.groupless_api_prefixes p))
            (λ s. with_group-none (record (plain_info req) { api_prefix = p }) (q ∷ (r ∷ rest)))
            (λ s. with_version-none (record (plain_info req) { api_prefix = p }) q r rest))
        h

-- NewRequestInfo panics at most for a GET or a HEAD whose parameters decode to a field selector that
-- is not empty and that ParseSelector refuses with an error and a nil selector.
pub new_request_info-none :
    (f : RequestInfoFactory) (req : Request)
    → new_request_info f req ≡ none
    → Gets f req × BadSelector f req
unfolding new_request_info
new_request_info-none f req = from_parts-none f req (split_path req.path)
