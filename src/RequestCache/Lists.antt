-- ===== src/RequestCache/Lists.antt =====
-- Lists of elements with different addresses, and removing an element by its address:
-- pkg/streaming/request_cache.go.
use apiserver.Base.{
  All-Has, Has-All, ℕ, suc, ◌≤◌, List, [], ◌∷◌, ◌++◌, Has, All, length, nat_eq, if_ind, ◌≡◌, ◌≢◌,
  refl, sym, ap, ◌∙◌, inl, inr, arith,
}
use apiserver.RequestCache.{Element, remove}

module _ {R : Type 0} where
  -- No two places of the list hold elements of one address.
  abbrev pub Distinct : List (Element R) → Type 0
  Distinct [] = Unit
  Distinct (e ∷ es) = All (λ x. x.id ≢ e.id) es × Distinct es

  -- From the back to the front no element expires before the ones behind it.
  abbrev pub Aged : List (Element R) → Type 0
  Aged [] = Unit
  Aged (e ∷ es) = All (λ x. e.value.expire_time ≤ x.value.expire_time) es × Aged es

  pub Distinct-Has :
      (es : List (Element R))
      → Distinct es
      → (x y : Element R) → Has x es
      → Has y es
      → x.id ≡ y.id
      → x ≡ y
  Distinct-Has [] d x y h k e = absurd h
  Distinct-Has (z ∷ es) (d, ds) x y (inl h) (inl k) e = sym h ∙ k
  Distinct-Has (z ∷ es) (d, ds) x y (inl h) (inr k) e =
      absurd (All-Has _ es d y k (sym e ∙ ap (λ w. w.id) (sym h)))
  Distinct-Has (z ∷ es) (d, ds) x y (inr h) (inl k) e =
      absurd (All-Has _ es d x h (e ∙ ap (λ w. w.id) (sym k)))
  Distinct-Has (z ∷ es) (d, ds) x y (inr h) (inr k) e = Distinct-Has es ds x y h k e

  pub Has-remove : (i : ℕ) (es : List (Element R)) (x : Element R) → Has x (remove i es) → Has x es
  Has-remove i [] x h = h
  Has-remove i (e ∷ es) x h =
      if_ind (λ l. Has x l → Has x (e ∷ es)) (nat_eq e.id i) (λ t k. inr k)
        (λ t k. elim k [ inl p ↦ inl p | inr p ↦ inr (Has-remove i es x p) ]) h

  pub remove-ne :
      (i : ℕ) (es : List (Element R))
      → Distinct es
      → (x : Element R) → Has x (remove i es)
      → x.id ≢ i
  remove-ne i [] d x h = absurd h
  remove-ne i (e ∷ es) (d, ds) x h =
      if_ind (λ l. Has x l → x.id ≢ i) (nat_eq e.id i)
        (λ t k q. All-Has _ es d x k (ground (arith, q)))
        (λ t k. elim k [
          | inl p ↦ λ q. ground (arith, ap (λ w. w.id) p)
          | inr p ↦ remove-ne i es ds x p
        ])
        h

  pub Has-remove_other :
      (i : ℕ) (es : List (Element R)) (x : Element R) → Has x es → x.id ≢ i → Has x (remove i es)
  Has-remove_other i [] x h n = h
  Has-remove_other i (e ∷ es) x h n =
      if_ind (Has x) (nat_eq e.id i)
        (λ t. elim h [ inl p ↦ absurd (n (ground (arith, ap (λ w. w.id) p))) | inr p ↦ p ])
        (λ t. elim h [ inl p ↦ inl p | inr p ↦ inr (Has-remove_other i es x p n) ])

  pub All-remove :
      (P : Element R → Type 0) (i : ℕ) (es : List (Element R)) → All P es → All P (remove i es)
  All-remove P i es h = Has-All P (remove i es) (λ x k. All-Has P es h x (Has-remove i es x k))

  pub Distinct-remove : (i : ℕ) (es : List (Element R)) → Distinct es → Distinct (remove i es)
  Distinct-remove i [] d = tt
  Distinct-remove i (e ∷ es) (d, ds) =
      if_ind Distinct (nat_eq e.id i) (λ t. ds)
        (λ t. (All-remove _ i es d, Distinct-remove i es ds))

  pub Aged-remove : (i : ℕ) (es : List (Element R)) → Aged es → Aged (remove i es)
  Aged-remove i [] d = tt
  Aged-remove i (e ∷ es) (d, ds) =
      if_ind Aged (nat_eq e.id i) (λ t. ds) (λ t. (All-remove _ i es d, Aged-remove i es ds))

  pub length-remove : (i : ℕ) (es : List (Element R)) → length (remove i es) ≤ length es
  length-remove i [] = omega arith
  length-remove i (e ∷ es) =
      if_ind (λ l. length l ≤ suc (length es)) (nat_eq e.id i) (λ t. omega arith)
        (λ t. omega (arith, length-remove i es))

  pub All-push :
      (P : Element R → Type 0) (es : List (Element R)) (e : Element R)
      → All P es
      → P e
      → All P (es ++ (e ∷ []))
  All-push P [] e h k = (k, tt)
  All-push P (x ∷ es) e (h, hs) k = (h, All-push P es e hs k)

  -- A new element at the front.
  pub Distinct-push :
      (es : List (Element R)) (e : Element R)
      → Distinct es
      → All (λ x. e.id ≢ x.id) es
      → Distinct (es ++ (e ∷ []))
  Distinct-push [] e d h = (tt, tt)
  Distinct-push (x ∷ es) e (d, ds) (h, hs) = (All-push _ es e d h, Distinct-push es e ds hs)

  pub Aged-push :
      (es : List (Element R)) (e : Element R)
      → Aged es
      → All (λ x. x.value.expire_time ≤ e.value.expire_time) es
      → Aged (es ++ (e ∷ []))
  Aged-push [] e d h = (tt, tt)
  Aged-push (x ∷ es) e (d, ds) (h, hs) = (All-push _ es e d h, Aged-push es e ds hs)

  pub length-push :
      (es : List (Element R)) (e : Element R) → length (es ++ (e ∷ [])) ≡ suc (length es)
  length-push [] e = refl
  length-push (x ∷ es) e = ap suc (length-push es e)

  -- An element of a new address is removed from the front again.
  pub remove-push :
      (es : List (Element R)) (e : Element R)
      → All (λ x. e.id ≢ x.id) es
      → remove e.id (es ++ (e ∷ [])) ≡ es
  remove-push [] e h = ground arith
  remove-push (x ∷ es) e (h, hs) = ground (arith, remove-push es e hs)
