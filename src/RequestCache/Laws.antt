-- ===== src/RequestCache/Laws.antt =====
-- What the operations of the cache of streaming requests do: pkg/streaming/request_cache.go.
use apiserver.Base.{
  All-Has, Has-All, ℕ, ◌+◌, ◌≤◌, ◌<◌, String, List, [], ◌∷◌, All, length, false, nat_eq,
  if◌then◌else◌, if_true, if_false, if_ind, Option, none, some, Map, lookup, delete,
  lookup-delete_same, lookup-put_same, Result, ok, err, ok_inj, ◌≡◌, ◌≢◌, refl, sym, ap, ◌∙◌, inl,
  inr, arith, Bool-cases,
}
use apiserver.RequestCache.{
  Element, RequestCache, new_request_cache, cache_ttl, max_in_flight, too_many_in_flight, sweep, gc,
  push, insert_token, insert_into, insert, consumed, consume, is_expired,
}
use apiserver.RequestCache.Tokens.{RawToken, encode, unique_token, unique_token-first}
use apiserver.RequestCache.Lists.{Aged, remove-push}
use apiserver.RequestCache.Invariant.{
  WellFormed, WellFormed-later, WellFormed-gc, WellFormed-insert, WellFormed-consume,
  WellFormed-new,
}

-- A cache at a time, as the operations make it, the clock never going back.
pub data Reachable {R : Type 0} : ℕ → RequestCache R → Type 0 where
  fresh_cache : Reachable 0 new_request_cache
  wait : {now later : ℕ} {c : RequestCache R} → now ≤ later → Reachable now c → Reachable later c
  inserting :
      {before now later : ℕ} {c : RequestCache R} (reads : ℕ → Result RawToken) (req : R)
      → before ≤ now
      → now ≤ later
      → Reachable before c
      → Reachable later (insert now later reads req c).1
  consuming :
      {now : ℕ} {c : RequestCache R} (token : String)
      → Reachable now c
      → Reachable now (consume now token c).1

-- The elements of the list that have not expired, as an independent description.
unfoldable pub unexpired : {R : Type 0} → ℕ → List (Element R) → List (Element R)
unexpired now [] = []
unexpired now (e ∷ es) = if is_expired now e then unexpired now es else e ∷ unexpired now es

module _ {R : Type 0} where
  -- A cache that the operations make is well-formed: its map and its list hold the same elements,
  -- in the order of their expiry, and they are at most 1000.
  pub Reachable-WellFormed : (now : ℕ) (c : RequestCache R) → Reachable now c → WellFormed now c
  Reachable-WellFormed now c fresh_cache = WellFormed-new
  Reachable-WellFormed now c (wait {now = before} le r) =
      WellFormed-later before now c le (Reachable-WellFormed before c r)
  Reachable-WellFormed now c (inserting {before = b} {now = n} {c = d} reads req le le' r) =
      WellFormed-insert b n now reads req d (omega (arith, le, le')) (Reachable-WellFormed b d r)
  Reachable-WellFormed now c (consuming {c = d} token r) =
      WellFormed-consume now d (Reachable-WellFormed now d r) now token

  unexpired-All :
      (now : ℕ) (es : List (Element R))
      → All (λ e. now ≤ e.value.expire_time) es
      → unexpired now es ≡ es
  unfolding unexpired
  unexpired-All now [] h = refl
  unexpired-All now (e ∷ es) (h, hs) = ground (arith, unexpired-All now es hs)

  sweep-unexpired :
      (now : ℕ) (tokens : Map (Element R)) (es : List (Element R))
      → Aged es
      → (sweep now tokens es).1 ≡ unexpired now es
  unfolding unexpired
  sweep-unexpired now tokens [] h = refl
  sweep-unexpired now tokens (e ∷ es) (h, hs) = elim (Bool-cases (is_expired now e)) [
    | inl t ↦
        ap (λ s. s.1) (if_true (is_expired now e) (sweep now (delete e.value.token tokens) es) _ t)
        ∙ sweep-unexpired now (delete e.value.token tokens) es hs
        ∙ sym (if_true (is_expired now e) (unexpired now es) _ t)
    | inr t ↦
        ap (λ s. s.1) (if_false (is_expired now e) (sweep now (delete e.value.token tokens) es) _ t)
        ∙ ap (λ l. e ∷ l)
            (sym
              (unexpired-All now es (Has-All _ es (λ x k. ground (arith, All-Has _ es h x k, t)))))
        ∙ sym (if_false (is_expired now e) (unexpired now es) _ t)
  ]

  -- The removal from the back, which stops at the first element that has not expired, leaves exactly
  -- the elements that have not.
  pub gc-unexpired :
      (now at : ℕ) (c : RequestCache R) → WellFormed now c → (gc at c).ll ≡ unexpired at c.ll
  unfolding gc
  gc-unexpired now at c w = sweep-unexpired at c.tokens c.ll w.aged

  lookup-consume :
      (now : ℕ) (token : String) (c : RequestCache R)
      → lookup token (consume now token c).1.tokens ≡ none
  unfolding consume consumed
  lookup-consume now token c = by_entry (lookup token c.tokens) refl
    where
      by_entry :
          (o : Option (Element R))
          → lookup token c.tokens ≡ o
          → lookup token (consumed now token c o).1.tokens ≡ none
      by_entry none q = q
      by_entry (some e) q =
          if_ind (λ (s : Option R × RequestCache R). lookup token s.1.tokens ≡ none)
            (is_expired now e) (λ b. lookup-delete_same token c.tokens)
            (λ b. lookup-delete_same token c.tokens)

  -- A token gives its request once: consuming it again, at any time, finds nothing.
  pub consume-consume :
      (now at : ℕ) (token : String) (c : RequestCache R)
      → (consume at token (consume now token c).1).0 ≡ none
  unfolding consume consumed
  consume-consume now at token c =
      let d = (consume now token c).1 in
      ap (λ o. (consumed at token d o).0) (lookup-consume now token c)

  insert_token-ok :
      (later : ℕ) (req : R) (c : RequestCache R) (r : Result String) (t : String)
      → (insert_token later req c r).0 ≡ ok t
      → insert_token later req c r ≡ (ok t, push t req (later + cache_ttl) c)
  unfolding insert_token
  insert_token-ok later req c (err e) t h = cc
  insert_token-ok later req c (ok s) t h =
      ap (λ u. (ok u, push u req (later + cache_ttl) c)) (ok_inj h)

  insert_into-ok :
      (later : ℕ) (reads : ℕ → Result RawToken) (req : R) (c : RequestCache R) (t : String)
      → (insert_into later reads req c).0 ≡ ok t
      → insert_into later reads req c ≡ (ok t, push t req (later + cache_ttl) c)
  unfolding insert_into
  insert_into-ok later reads req c t =
      if_ind
        (λ (s : Result String × RequestCache R).
          s.0 ≡ ok t → s ≡ (ok t, push t req (later + cache_ttl) c))
        (nat_eq (length c.ll) max_in_flight) (λ b h. cc)
        (λ b h. insert_token-ok later req c (unique_token reads c.tokens) t h)

  consume-push :
      (at later : ℕ) (t : String) (req : R) (c : RequestCache R)
      → All (λ x. c.next_id ≢ x.id) c.ll
      → at ≤ later + cache_ttl
      → ((consume at t (push t req (later + cache_ttl) c)).0 ≡ some req)
        × ((consume at t (push t req (later + cache_ttl) c)).1.ll ≡ c.ll)
  unfolding consume consumed
  consume-push at later t req c h le =
      let e : Element R = record {
        id = c.next_id;
        value = record { token = t; req = req; expire_time = later + cache_ttl };
      } in
      let d = push t req (later + cache_ttl) c in
      let is_found : consume at t d ≡ consumed at t d (some e) =
        ap (consumed at t d) (lookup-put_same t e c.tokens) in
      let is_kept : consumed at t d (some e) ≡ (some req, _) =
        if_false (is_expired at e) _ _ (ground (arith, le)) in
      (
        ap (λ s. s.0) (is_found ∙ is_kept),
        ap (λ s. s.1.ll) (is_found ∙ is_kept) ∙ remove-push c.ll e h,
      )

  -- A token that was given for a request gives the request back until its time to live has passed,
  -- and what is left in the list is what had not expired when it was insert_token.
  pub consume-insert :
      (before now later at : ℕ) (reads : ℕ → Result RawToken) (req : R) (c : RequestCache R)
      (t : String)
      → WellFormed before c
      → (insert now later reads req c).0 ≡ ok t
      → at ≤ later + cache_ttl
      → ((consume at t (insert now later reads req c).1).0 ≡ some req)
        × ((consume at t (insert now later reads req c).1).1.ll ≡ unexpired now c.ll)
  unfolding insert
  consume-insert before now later at reads req c t w h le =
      let g = gc now c in
      let v = WellFormed-gc before now c w in
      let p =
        consume-push at later t req g
          (Has-All _ g.ll (λ x k q. omega (arith, All-Has _ g.ll v.given_out x k, q))) le in
      let q = ap (λ s. consume at t s.1) (insert_into-ok later reads req g t h) in
      (ap (λ s. s.0) q ∙ p.0, ap (λ s. s.1.ll) q ∙ p.1 ∙ gc-unexpired before now c w)

  -- A request is let in when fewer than the maximum have not expired and the first bytes that are
  -- read encode a text that is not a token of the cache; the token is that text.
  pub insert-encode :
      (before now later : ℕ) (reads : ℕ → Result RawToken) (raw : RawToken) (req : R)
      (c : RequestCache R)
      → WellFormed before c
      → length (unexpired now c.ll) < max_in_flight
      → reads 0 ≡ ok raw
      → lookup (encode raw) (gc now c).tokens ≡ none
      → (insert now later reads req c).0 ≡ ok (encode raw)
  unfolding insert insert_into insert_token
  insert-encode before now later reads raw req c w lt h e =
      let g = gc now c in
      let n : nat_eq (length g.ll) max_in_flight ≡ false =
        rw (gc-unexpired before now c w) (ground (arith, lt)) in
      ap (λ s. s.0)
        (if_false (nat_eq (length g.ll) max_in_flight) _ _ n
          ∙ ap (insert_token later req g) (unique_token-first reads g.tokens raw h e))

  -- A request is refused, and nothing is stored, when as many as the maximum have not expired.
  pub insert-too_many :
      (before now later : ℕ) (reads : ℕ → Result RawToken) (req : R) (c : RequestCache R)
      → WellFormed before c
      → length (unexpired now c.ll) ≡ max_in_flight
      → insert now later reads req c ≡ (err too_many_in_flight, gc now c)
  unfolding insert insert_into
  insert-too_many before now later reads req c w e =
      let g = gc now c in
      if_true (nat_eq (length g.ll) max_in_flight) _ _
        (rw (gc-unexpired before now c w) (ground (arith, e)))
