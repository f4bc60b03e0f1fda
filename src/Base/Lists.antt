-- ===== src/Base/Lists.antt =====
-- Lists: a Go loop that returns at the first hit is `any`, and `Any` is its specification.
use Prim.Native.Nat.{ℕ, suc}
use mathlib.Core.Path.{◌≡◌, refl, subst}
use mathlib.Core.Logic.{◌↔◌, ◌⊎◌, inl, inr}
use mathlib.Core.Bool.{Bool, true, false, ◌||◌}
use mathlib.Core.List.{List, [], ◌∷◌, ◌++◌}
use native.Mathlib.Omega.{arith}
use apiserver.Base.Tests.{or_iff}

module _ {ℓ} {A : Type ℓ} where
  abbrev pub length : List A → ℕ
  length [] = 0
  length (x ∷ xs) = suc (length xs)

  abbrev pub is_empty : List A → Bool
  is_empty [] = true
  is_empty (x ∷ xs) = false

  abbrev pub any : (A → Bool) → List A → Bool
  any p [] = false
  any p (x ∷ xs) = p x || any p xs

  abbrev pub Any : (A → Type 0) → List A → Type 0
  Any P [] = ⊥
  Any P (x ∷ xs) = P x ⊎ Any P xs

  abbrev pub All : (A → Type 0) → List A → Type 0
  All P [] = Unit
  All P (x ∷ xs) = P x × All P xs

abbrev pub Has : {A : Type 0} → A → List A → Type 0
Has a xs = Any (λ x. x ≡ a) xs

module _ {ℓ} {A : Type ℓ} where
  pub any_sound :
      (p : A → Bool) (P : A → Type 0)
      → ((x : A) → p x ≡ true → P x)
      → (xs : List A) → any p xs ≡ true
      → Any P xs
  any_sound p P to [] h = cc
  any_sound p P to (x ∷ xs) h = elim ((or_iff (p x) (any p xs)).0 h) [
    | inl e ↦ inl (to x e)
    | inr e ↦ inr (any_sound p P to xs e)
  ]

  pub any_complete :
      (p : A → Bool) (P : A → Type 0)
      → ((x : A) → P x → p x ≡ true)
      → (xs : List A) → Any P xs
      → any p xs ≡ true
  any_complete p P from [] h = absurd h
  any_complete p P from (x ∷ xs) (inl e) = (or_iff (p x) (any p xs)).1 (inl (from x e))
  any_complete p P from (x ∷ xs) (inr e) =
      (or_iff (p x) (any p xs)).1 (inr (any_complete p P from xs e))

  -- The loop decides the existence of an item that satisfies what its test decides.
  pub any_iff :
      (p : A → Bool) (P : A → Type 0)
      → ((x : A) → (p x ≡ true) ↔ P x)
      → (xs : List A) → (any p xs ≡ true) ↔ Any P xs
  any_iff p P t xs = (any_sound p P (λ x. (t x).0) xs, any_complete p P (λ x. (t x).1) xs)

  pub Any-mono : (P Q : A → Type 0) → ((x : A) → P x → Q x) → (xs : List A) → Any P xs → Any Q xs
  Any-mono P Q f [] h = absurd h
  Any-mono P Q f (x ∷ xs) (inl h) = inl (f x h)
  Any-mono P Q f (x ∷ xs) (inr h) = inr (Any-mono P Q f xs h)

  pub Any-append_left : (P : A → Type 0) (xs ys : List A) → Any P xs → Any P (xs ++ ys)
  Any-append_left P [] ys h = absurd h
  Any-append_left P (x ∷ xs) ys (inl h) = inl h
  Any-append_left P (x ∷ xs) ys (inr h) = inr (Any-append_left P xs ys h)

  pub Any-append_right : (P : A → Type 0) (xs ys : List A) → Any P ys → Any P (xs ++ ys)
  Any-append_right P [] ys h = h
  Any-append_right P (x ∷ xs) ys h = inr (Any-append_right P xs ys h)

  pub Any-append_split : (P : A → Type 0) (xs ys : List A) → Any P (xs ++ ys) → Any P xs ⊎ Any P ys
  Any-append_split P [] ys h = inr h
  Any-append_split P (x ∷ xs) ys (inl h) = inl (inl h)
  Any-append_split P (x ∷ xs) ys (inr h) = elim (Any-append_split P xs ys h) [
    | inl a ↦ inl (inr a)
    | inr b ↦ inr b
  ]

  pub any-append : (p : A → Bool) (xs ys : List A) → any p (xs ++ ys) ≡ (any p xs || any p ys)
  any-append p [] ys = refl
  any-append p (x ∷ xs) ys = ground (arith, any-append p xs ys)

module _ {A : Type 0} where
  pub All-Has : (P : A → Type 0) (xs : List A) → All P xs → (x : A) → Has x xs → P x
  All-Has P [] h x k = absurd k
  All-Has P (y ∷ xs) (h, hs) x (inl e) = subst P e h
  All-Has P (y ∷ xs) (h, hs) x (inr k) = All-Has P xs hs x k

  pub Has-All : (P : A → Type 0) (xs : List A) → ((x : A) → Has x xs → P x) → All P xs
  Has-All P [] f = tt
  Has-All P (y ∷ xs) f = (f y (inl refl), Has-All P xs (λ x k. f x (inr k)))

  pub All-mono : (P Q : A → Type 0) → ((x : A) → P x → Q x) → (xs : List A) → All P xs → All Q xs
  All-mono P Q f [] h = tt
  All-mono P Q f (x ∷ xs) (h, hs) = (f x h, All-mono P Q f xs hs)
