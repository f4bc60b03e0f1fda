-- ===== src/RequestCache/Invariant.antt =====
-- The invariant of the cache of streaming requests, and that every operation keeps it:
-- pkg/streaming/request_cache.go.
use apiserver.Base.{
  All-Has, Has-All, ℕ, ◌+◌, ◌≤◌, ◌<◌, String, List, [], ◌∷◌, ◌++◌, Has, All, length, nat_eq, if_ind,
  Option, none, some, Map, lookup, put, delete, lookup-delete_same, lookup-delete_other,
  lookup-put_same, lookup-put_other, Result, ok, err, ◌≡◌, ◌≢◌, refl, sym, ap, ◌∙◌, inl, inr, subst,
  arith, Any-append_split, Any-append_left, Any-append_right, some_inj, Bool-cases, ◌==◌, eq_iff,
  ne_of_test,
}
use apiserver.RequestCache.{
  Element, RequestCache, cache_ttl, max_in_flight, new_request_cache, remove, sweep, gc, push,
  insert_token, insert_into, insert, consumed, consume, is_expired,
}
use apiserver.RequestCache.Tokens.{RawToken, unique_token, unique_token-fresh}
use apiserver.RequestCache.Lists.{
  Distinct, Aged, Distinct-Has, Has-remove, remove-ne, Has-remove_other, All-remove,
  Distinct-remove, Aged-remove, length-remove, All-push, Distinct-push, Aged-push, length-push,
}

-- At the time `now`: the map and the list hold the same elements, under different addresses that
-- have been given out; the list is in the order of expiry; no element outlives the time to live;
-- and there are not more than the maximum.
pub record WellFormed {R : Type 0} (now : ℕ) (c : RequestCache R) : Type 0 where
  pub listed :
      (t : String) (e : Element R) → lookup t c.tokens ≡ some e → Has e c.ll × (e.value.token ≡ t)
  pub held : (e : Element R) → Has e c.ll → lookup e.value.token c.tokens ≡ some e
  pub distinct : Distinct c.ll
  pub given_out : All (λ e. e.id < c.next_id) c.ll
  pub aged : Aged c.ll
  pub outlived : All (λ e. e.value.expire_time ≤ now + cache_ttl) c.ll
  pub bounded : length c.ll ≤ max_in_flight

module _ {R : Type 0} where
  pub WellFormed-new : WellFormed {R = R} 0 new_request_cache
  WellFormed-new = record {
    listed = λ t e h. cc;
    held = λ e h. absurd h;
    distinct = tt;
    given_out = tt;
    aged = tt;
    outlived = tt;
    bounded = omega arith;
  }

  pub WellFormed-later :
      (now later : ℕ) (c : RequestCache R) → now ≤ later → WellFormed now c → WellFormed later c
  WellFormed-later now later c le w = record {
    listed = w.listed;
    held = w.held;
    distinct = w.distinct;
    given_out = w.given_out;
    aged = w.aged;
    bounded = w.bounded;
    outlived = Has-All _ c.ll (λ e k. omega (arith, All-Has _ c.ll w.outlived e k, le));
  }

  -- The cache without one of its elements.
  abbrev pub without : Element R → RequestCache R → RequestCache R
  without e c = record c { tokens = delete e.value.token c.tokens; ll = remove e.id c.ll }

  module _ (now : ℕ) (c : RequestCache R) (w : WellFormed now c) (e : Element R)
      (k : Has e c.ll) where
    remains_listed :
        (t : String) (x : Element R)
        → lookup t (delete e.value.token c.tokens) ≡ some x
        → Has x (remove e.id c.ll) × (x.value.token ≡ t)
    remains_listed t x h = elim (Bool-cases (e.value.token == t)) [
      | inl q ↦
          let gone : lookup t (delete e.value.token c.tokens) ≡ none =
            subst (λ s. lookup s (delete e.value.token c.tokens) ≡ none) ((eq_iff _ _).0 q)
              (lookup-delete_same e.value.token c.tokens) in
          absurd (cc)
      | inr q ↦
          let n = ne_of_test _ _ q in
          let l = w.listed t x (sym (lookup-delete_other e.value.token t c.tokens n) ∙ h) in
          (
            Has-remove_other e.id c.ll x l.0 (λ i.
                n (ap (λ y. y.value.token) (sym (Distinct-Has c.ll w.distinct x e l.0 k i)) ∙ l.1)),
            l.1,
          )
    ]

    remains_held :
        (x : Element R)
        → Has x (remove e.id c.ll)
        → lookup x.value.token (delete e.value.token c.tokens) ≡ some x
    remains_held x h =
        let m = Has-remove e.id c.ll x h in
        let n : e.value.token ≢ x.value.token = λ q. remove-ne e.id c.ll w.distinct x h (
          ap (λ y. y.id)
            (some_inj (sym (w.held x m) ∙ ap (λ s. lookup s c.tokens) (sym q) ∙ w.held e k))) in
        lookup-delete_other e.value.token x.value.token c.tokens n ∙ w.held x m

    pub WellFormed-without : WellFormed now (without e c)
    WellFormed-without = record {
      listed = remains_listed;
      held = remains_held;
      distinct = Distinct-remove e.id c.ll w.distinct;
      given_out = All-remove _ e.id c.ll w.given_out;
      aged = Aged-remove e.id c.ll w.aged;
      outlived = All-remove _ e.id c.ll w.outlived;
      bounded = omega (arith, length-remove e.id c.ll, w.bounded);
    }

  remove-head : (e : Element R) (es : List (Element R)) → remove e.id (e ∷ es) ≡ es
  remove-head e es = ground arith

  pub WellFormed-sweep :
      (now at : ℕ) (n : ℕ) (tokens : Map (Element R)) (ll : List (Element R))
      → WellFormed now (record { tokens = tokens; ll = ll; next_id = n })
      → WellFormed now
          (record { tokens = (sweep at tokens ll).0; ll = (sweep at tokens ll).1; next_id = n })
  WellFormed-sweep now at n tokens [] w = w
  WellFormed-sweep now at n tokens (e ∷ ll) w =
      if_ind
        (λ (s : Map (Element R) × List (Element R)).
          WellFormed now (record { tokens = s.0; ll = s.1; next_id = n }))
        (is_expired at e)
        (λ t. WellFormed-sweep now at n (delete e.value.token tokens) ll (
          subst
            (λ l.
              WellFormed now (record { tokens = delete e.value.token tokens; ll = l; next_id = n }))
            (remove-head e ll) (WellFormed-without now _ w e (inl refl))))
        (λ t. w)

  pub WellFormed-gc :
      (now at : ℕ) (c : RequestCache R) → WellFormed now c → WellFormed now (gc at c)
  unfolding gc
  WellFormed-gc now at c w = WellFormed-sweep now at c.next_id c.tokens c.ll w

  module _ (now : ℕ) (c : RequestCache R) (w : WellFormed now c) where
    module _ (token : String) (req : R) (fresh : lookup token c.tokens ≡ none) where
      abbrev pub added : Element R
      added = record {
        id = c.next_id;
        value = record { token = token; req = req; expire_time = now + cache_ttl };
      }

      added_listed :
          (t : String) (x : Element R)
          → lookup t (put token added c.tokens) ≡ some x
          → Has x (c.ll ++ (added ∷ [])) × (x.value.token ≡ t)
      added_listed t x h = elim (Bool-cases (token == t)) [
        | inl q ↦
            let e : added ≡ x = some_inj (
              sym (lookup-put_same token added c.tokens)
              ∙ ap (λ s. lookup s (put token added c.tokens)) ((eq_iff _ _).0 q)
              ∙ h) in
            (
              Any-append_right _ c.ll (added ∷ []) (inl e),
              ap (λ y. y.value.token) (sym e) ∙ (eq_iff _ _).0 q,
            )
        | inr q ↦
            let l =
              w.listed t x (sym (lookup-put_other token t added c.tokens (ne_of_test _ _ q)) ∙ h) in
            (Any-append_left _ c.ll (added ∷ []) l.0, l.1)
      ]

      added_held :
          (x : Element R)
          → Has x (c.ll ++ (added ∷ []))
          → lookup x.value.token (put token added c.tokens) ≡ some x
      added_held x h = elim (Any-append_split _ c.ll (added ∷ []) h) [
        | inl k ↦
            let n : token ≢ x.value.token = λ q.
              let e : none ≡ some x = sym fresh ∙ ap (λ s. lookup s c.tokens) q ∙ w.held x k in
              cc in
            lookup-put_other token x.value.token added c.tokens n ∙ w.held x k
        | inr k ↦ elim k [
          | inl e ↦
              subst (λ y. lookup y.value.token (put token added c.tokens) ≡ some y) e
                (lookup-put_same token added c.tokens)
          | inr e ↦ absurd e
        ]
      ]

      pub WellFormed-push :
          length c.ll ≢ max_in_flight → WellFormed now (push token req (now + cache_ttl) c)
      WellFormed-push n = record {
        listed = added_listed;
        held = added_held;
        distinct =
            Distinct-push c.ll added w.distinct
              (Has-All _ c.ll (λ x k q. omega (arith, All-Has _ c.ll w.given_out x k, q)));
        given_out =
            All-push _ c.ll added
              (Has-All _ c.ll (λ x k. omega (arith, All-Has _ c.ll w.given_out x k))) (omega arith);
        aged = Aged-push c.ll added w.aged w.outlived;
        outlived = All-push _ c.ll added w.outlived (omega arith);
        bounded = omega (arith, length-push c.ll added, w.bounded, n);
      }

    WellFormed-insert_into :
        (reads : ℕ → Result RawToken) (req : R) → WellFormed now (insert_into now reads req c).1
    unfolding insert_into insert_token
    WellFormed-insert_into reads req =
        if_ind (λ (s : Result String × RequestCache R). WellFormed now s.1)
          (nat_eq (length c.ll) max_in_flight) (λ t. w)
          (λ t. by_token (unique_token reads c.tokens) refl (ground arith))
      where
        by_token :
            (r : Result String)
            → unique_token reads c.tokens ≡ r
            → length c.ll ≢ max_in_flight
            → WellFormed now (insert_token now req c r).1
        by_token (err e) q n = w
        by_token (ok t) q n = WellFormed-push t req (unique_token-fresh reads c.tokens t q) n

    pub WellFormed-consume : (at : ℕ) (t : String) → WellFormed now (consume at t c).1
    unfolding consume consumed
    WellFormed-consume at t = by_entry (lookup t c.tokens) refl
      where
        by_entry :
            (o : Option (Element R)) → lookup t c.tokens ≡ o → WellFormed now (consumed at t c o).1
        by_entry none q = w
        by_entry (some e) q =
            let l = w.listed t e q in
            let v : WellFormed now
                (record c { tokens = delete t c.tokens; ll = remove e.id c.ll }) =
              subst
                (λ s.
                  WellFormed now (record c { tokens = delete s c.tokens; ll = remove e.id c.ll }))
                l.1 (WellFormed-without now c w e l.0) in
            if_ind (λ (s : Option R × RequestCache R). WellFormed now s.1) (is_expired at e)
              (λ b. v) (λ b. v)

  -- Inserting keeps the invariant, on each of its branches.
  pub WellFormed-insert :
      (now at later : ℕ) (reads : ℕ → Result RawToken) (req : R) (c : RequestCache R)
      → now ≤ later
      → WellFormed now c
      → WellFormed later (insert at later reads req c).1
  unfolding insert
  WellFormed-insert now at later reads req c le w =
      WellFormed-insert_into later (gc at c)
        (WellFormed-later now later (gc at c) le (WellFormed-gc now at c w)) reads req
