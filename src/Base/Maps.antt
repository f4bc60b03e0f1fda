-- ===== src/Base/Maps.antt =====
-- Go maps with text keys, as lists of their entries.
use Prim.Native.String.{String}
use mathlib.Core.Path.{◌≡◌, refl, ap, sym, ◌∙◌}
use mathlib.Core.Logic.{◌≢◌, inl, inr}
use mathlib.Core.Bool.{Bool, true, false}
use mathlib.Core.Option.{Option, none, some}
use mathlib.Core.List.{List, [], ◌∷◌}
use native.Mathlib.Omega.{arith}
use text.Mathlib.Text.{◌==◌}
use text.Mathlib.TextEquality.{eq_iff}
use text.Mathlib.TextPositions.{eq_refl}
use apiserver.Base.Tests.{if◌then◌else◌, if_true, if_false, if_ind, Bool-cases}

abbrev pub Map : Type 0 → Type 0
Map A = List (String × A)

-- `m[k]`, with `none` for `_, ok := m[k]; !ok`
abbrev pub lookup : {A : Type 0} → String → Map A → Option A
lookup k [] = none
lookup k ((j, v) ∷ m) = if j == k then some v else lookup k m

-- `m[k] = v`
abbrev pub put : {A : Type 0} → String → A → Map A → Map A
put k v [] = (k, v) ∷ []
put k v ((j, w) ∷ m) = if j == k then (j, v) ∷ m else (j, w) ∷ put k v m

-- `delete(m, k)`
abbrev pub delete : {A : Type 0} → String → Map A → Map A
delete k [] = []
delete k ((j, w) ∷ m) = if j == k then delete k m else (j, w) ∷ delete k m

-- No key has two entries.
abbrev pub Unique : {A : Type 0} → Map A → Type 0
Unique [] = Unit
Unique ((k, v) ∷ m) = (lookup k m ≡ none) × Unique m

pub differ : (k j : String) → k ≢ j → k == j ≡ false
differ k j h = elim (Bool-cases (k == j)) [ inl e ↦ absurd (h ((eq_iff k j).0 e)) | inr e ↦ e ]

same_test : (i k j : String) → i == k ≡ true → (i == j) ≡ (k == j)
same_test i k j h = rw ((eq_iff i k).0 h) refl

both_tests : (i k j : String) → i == j ≡ true → k == j ≡ true → i == k ≡ true
both_tests i k j h h' = (eq_iff i k).1 ((eq_iff i j).0 h ∙ sym ((eq_iff k j).0 h'))

module _ {A : Type 0} where
  lookup-if :
      (b : Bool) (j : String) (x y : Map A)
      → lookup j (if b then x else y) ≡ (if b then lookup j x else lookup j y)
  lookup-if true j x y = refl
  lookup-if false j x y = refl

  if_swap :
      (a b : Bool) (x y z : Option A)
      → (a ≡ true → b ≡ true → x ≡ y)
      → (if a then x else if b then y else z) ≡ (if b then y else if a then x else z)
  if_swap true true x y z h = h refl refl
  if_swap true false x y z h = refl
  if_swap false b x y z h = refl

  put_step :
      (a b c : Bool) (x y z : Option A)
      → (c ≡ true → a ≡ b)
      → (a ≡ true → b ≡ true → c ≡ true)
      → (if c then (if a then y else z) else (if a then x else if b then y else z))
        ≡ (if b then y else if a then x else z)
  put_step true b true x y z h k = rw (← h refl) refl
  put_step false b true x y z h k = rw (← h refl) refl
  put_step true true false x y z h k = absurd (ground (arith, k refl refl))
  put_step true false false x y z h k = refl
  put_step false b false x y z h k = refl

  pub lookup-put :
      (k j : String) (v : A) (m : Map A)
      → lookup j (put k v m) ≡ (if k == j then some v else lookup j m)
  lookup-put k j v [] = refl
  lookup-put k j v ((i, w) ∷ m) =
      lookup-if (i == k) j ((i, v) ∷ m) ((i, w) ∷ put k v m)
      ∙ rw (lookup-put k j v m) (
          put_step (i == j) (k == j) (i == k) (some w) (some v) (lookup j m) (same_test i k j)
            (both_tests i k j))

  same_branches : (b : Bool) {o : Option A} → o ≡ (if b then o else o)
  same_branches true = refl
  same_branches false = refl

  delete_step :
      (a b c : Bool) (x z : Option A)
      → (c ≡ true → a ≡ b)
      → (a ≡ true → b ≡ true → c ≡ true)
      → (if c then (if b then none else z) else (if a then x else if b then none else z))
        ≡ (if b then none else if a then x else z)
  delete_step true true true x z h k = refl
  delete_step true false true x z h k = absurd (ground (arith, h refl))
  delete_step false b true x z h k = rw (← h refl) refl
  delete_step true true false x z h k = absurd (ground (arith, k refl refl))
  delete_step true false false x z h k = refl
  delete_step false b false x z h k = refl

  pub lookup-delete :
      (k j : String) (m : Map A) → lookup j (delete k m) ≡ (if k == j then none else lookup j m)
  lookup-delete k j [] = same_branches (k == j)
  lookup-delete k j ((i, w) ∷ m) =
      lookup-if (i == k) j (delete k m) ((i, w) ∷ delete k m)
      ∙ rw (lookup-delete k j m) (
          delete_step (i == j) (k == j) (i == k) (some w) (lookup j m) (same_test i k j)
            (both_tests i k j))

  pub lookup-put_same : (k : String) (v : A) (m : Map A) → lookup k (put k v m) ≡ some v
  lookup-put_same k v m = lookup-put k k v m ∙ if_true (k == k) _ _ (eq_refl k)

  pub lookup-delete_same : (k : String) (m : Map A) → lookup k (delete k m) ≡ none
  lookup-delete_same k m = lookup-delete k k m ∙ if_true (k == k) _ _ (eq_refl k)

  pub lookup-put_other :
      (k j : String) (v : A) (m : Map A) → k ≢ j → lookup j (put k v m) ≡ lookup j m
  lookup-put_other k j v m h = lookup-put k j v m ∙ if_false (k == j) _ _ (differ k j h)

  pub lookup-delete_other : (k j : String) (m : Map A) → k ≢ j → lookup j (delete k m) ≡ lookup j m
  lookup-delete_other k j m h = lookup-delete k j m ∙ if_false (k == j) _ _ (differ k j h)

  pub Unique-put : (k : String) (v : A) (m : Map A) → Unique m → Unique (put k v m)
  Unique-put k v [] u = (refl, tt)
  Unique-put k v ((j, w) ∷ m) (h, u) =
      if_ind Unique (j == k) (λ t. (h, u))
        (λ t. (
          lookup-put_other k j v m (λ e. absurd (ground (arith, (eq_iff j k).1 (sym e)))) ∙ h,
          Unique-put k v m u,
        ))

  pub delete_new : (k : String) (m : Map A) → lookup k m ≡ none → delete k m ≡ m
  delete_new k [] h = refl
  delete_new k ((j, w) ∷ m) h = elim (Bool-cases (j == k)) [
    | inl t ↦ let e : some w ≡ none = sym (if_true (j == k) _ _ t) ∙ h in absurd (cc)
    | inr t ↦
        if_false (j == k) _ _ t
        ∙ ap (λ l. (j, w) ∷ l) (delete_new k m (sym (if_false (j == k) _ _ t) ∙ h))
  ]

  pub delete-put_new :
      (k : String) (v : A) (m : Map A) → lookup k m ≡ none → delete k (put k v m) ≡ m
  delete-put_new k v [] h = if_true (k == k) _ _ (eq_refl k)
  delete-put_new k v ((j, w) ∷ m) h = elim (Bool-cases (j == k)) [
    | inl t ↦ let e : some w ≡ none = sym (if_true (j == k) _ _ t) ∙ h in absurd (cc)
    | inr t ↦
        ap (delete k) (if_false (j == k) _ _ t)
        ∙ if_false (j == k) _ _ t
        ∙ ap (λ l. (j, w) ∷ l) (delete-put_new k v m (sym (if_false (j == k) _ _ t) ∙ h))
  ]
