-- ===== src/PathRecorder/Priority.antt =====
-- The order in which the prefixes are tested: byPrefixPriority of pkg/server/mux/pathrecorder.go.
use apiserver.Base.{
  All-mono, ℕ, suc, ◌≤◌, ◌<◌, code, String, Bool, true, false, ◌||◌, ◌&&◌, not, List, [], ◌∷◌, Has,
  All, ltb, nat_eq, char_eq, len, if◌then◌else◌, if_ind, ◌≡◌, ◌↔◌, refl, ap, ◌∙◌, inl, inr, subst,
  arith, Bool-cases, has_prefix, append-cut, cut, ◌+s◌, cons-append,
}
use Prim.Native.String.{[] as nil, ◌∷◌ as cons}

-- strings.Count(s, "/")
abbrev pub slashes : String → ℕ
slashes nil = 0
slashes (cons c s) = if nat_eq (code c) 0x2f then suc (slashes s) else slashes s

-- strings.Compare(s, t) < 0
abbrev pub text_before : String → String → Bool
text_before nil nil = false
text_before nil (cons d t) = true
text_before (cons c s) nil = false
text_before (cons c s) (cons d t) = ltb (code c) (code d) || char_eq c d && text_before s t

-- byPrefixPriority.Less
abbrev pub less : String → String → Bool
less s t =
    if not (nat_eq (slashes s) (slashes t))
    then ltb (slashes s) (slashes t)
    else if not (nat_eq (len s) (len t))
    then ltb (len s) (len t)
    else text_before s t

abbrev pub insert_before : String → List String → List String
insert_before p [] = p ∷ []
insert_before p (q ∷ qs) = if less p q then q ∷ insert_before p qs else p ∷ (q ∷ qs)

-- sort.Sort(sort.Reverse(byPrefixPriority(keys)))
unfoldable pub sort_reverse : List String → List String
sort_reverse [] = []
sort_reverse (p ∷ ps) = insert_before p (sort_reverse ps)

slashes-append : (p t : String) → slashes p ≤ slashes (p +s t)
slashes-append nil t = omega arith
slashes-append (cons c p) t = rw cons-append (elim (Bool-cases (nat_eq (code c) 0x2f)) [
  | inl e ↦ rw e (omega (arith, slashes-append p t))
  | inr e ↦ rw e (slashes-append p t)
])

less_of :
    (a b k l : ℕ) (t : Bool)
    → a ≤ b
    → k < l
    → (if not (nat_eq a b) then ltb a b else if not (nat_eq k l) then ltb k l else t) ≡ true
less_of a b k l t h g = ground arith

-- A longer text that starts with p comes after p.
less-append : (p t : String) → len p < len (p +s t) → less p (p +s t) ≡ true
less-append p t l =
    less_of (slashes p) (slashes (p +s t)) (len p) (len (p +s t)) (text_before p (p +s t))
      (slashes-append p t) l

text_before_asym : (s t : String) → text_before s t ≡ true → text_before t s ≡ false
text_before_asym nil nil h = cc
text_before_asym nil (cons d t) h = refl
text_before_asym (cons c s) nil h = cc
text_before_asym (cons c s) (cons d t) h = ground (arith, text_before_asym s t)

text_before_trans :
    (s t u : String) → text_before s t ≡ false → text_before t u ≡ false → text_before s u ≡ false
text_before_trans nil nil nil h g = refl
text_before_trans nil nil (cons e u) h g = cc
text_before_trans nil (cons d t) u h g = cc
text_before_trans (cons c s) nil nil h g = refl
text_before_trans (cons c s) nil (cons e u) h g = cc
text_before_trans (cons c s) (cons d t) nil h g = refl
text_before_trans (cons c s) (cons d t) (cons e u) h g = ground (arith, text_before_trans s t u)

less_asym : (s t : String) → less s t ≡ true → less t s ≡ false
less_asym s t h = ground (arith, text_before_asym s t)

less_trans : (s t u : String) → less s t ≡ false → less t u ≡ false → less s u ≡ false
less_trans s t u h g = ground (arith, text_before_trans s t u)

-- No text comes after one that is before it in the list.
abbrev pub Descending : List String → Type 0
Descending [] = Unit
Descending (p ∷ ps) = All (λ q. less p q ≡ false) ps × Descending ps

All-insert :
    (P : String → Type 0) (p : String) (qs : List String)
    → P p
    → All P qs
    → All P (insert_before p qs)
All-insert P p [] h hs = (h, tt)
All-insert P p (q ∷ qs) h (k, ks) =
    if_ind (All P) (less p q) (λ t. (k, All-insert P p qs h ks)) (λ t. (h, (k, ks)))

Descending-insert :
    (p : String) (qs : List String) → Descending qs → Descending (insert_before p qs)
Descending-insert p [] d = (tt, tt)
Descending-insert p (q ∷ qs) (d, ds) =
    if_ind Descending (less p q)
      (λ t. (All-insert _ p qs (less_asym p q t) d, Descending-insert p qs ds))
      (λ t. ((t, All-mono _ _ (λ x h. less_trans p q x t h) qs d), (d, ds)))

pub Descending-sort_reverse : (ps : List String) → Descending (sort_reverse ps)
unfolding sort_reverse
Descending-sort_reverse [] = tt
Descending-sort_reverse (p ∷ ps) =
    Descending-insert p (sort_reverse ps) (Descending-sort_reverse ps)

Has-insert_iff :
    (p : String) (qs : List String) (x : String) → Has x (insert_before p qs) ↔ Has x (p ∷ qs)
Has-insert_iff p [] x = (λ h. h, λ h. h)
Has-insert_iff p (q ∷ qs) x =
    if_ind (λ l. Has x l ↔ Has x (p ∷ (q ∷ qs))) (less p q)
      (λ t.
        let (to, from) = Has-insert_iff p qs x in
        (
          λ h. elim h [
            | inl e ↦ inr (inl e)
            | inr k ↦ elim (to k) [ inl e ↦ inl e | inr l ↦ inr (inr l) ]
          ],
          λ h. elim h [
            | inl e ↦ inr (from (inl e))
            | inr k ↦ elim k [ inl e ↦ inl e | inr l ↦ inr (from (inr l)) ]
          ],
        ))
      (λ t. (λ h. h, λ h. h))

pub Has-sort_reverse_iff : (ps : List String) (x : String) → Has x (sort_reverse ps) ↔ Has x ps
unfolding sort_reverse
Has-sort_reverse_iff [] x = (λ h. h, λ h. h)
Has-sort_reverse_iff (p ∷ ps) x =
    let (to, from) = Has-insert_iff p (sort_reverse ps) x in
    let (to', from') = Has-sort_reverse_iff ps x in
    (
      λ h. elim (to h) [ inl e ↦ inl e | inr k ↦ inr (to' k) ],
      λ h. elim h [ inl e ↦ from (inl e) | inr k ↦ from (inr (from' k)) ],
    )

has_prefix-shorter :
    (path p q : String)
    → has_prefix path p ≡ true
    → has_prefix path q ≡ true
    → len p ≤ len q
    → has_prefix q p ≡ true
has_prefix-shorter path nil q h g l = refl
has_prefix-shorter nil (cons d p) q h g l = cc
has_prefix-shorter (cons c path) (cons d p) nil h g l = absurd (omega (arith, l))
has_prefix-shorter (cons c path) (cons d p) (cons e q) h g l =
    ground (arith, has_prefix-shorter path p q)

-- Of two beginnings of one path, the one that the order does not put after the other is as long.
pub less-has_prefix :
    (path p q : String)
    → has_prefix path p ≡ true
    → has_prefix path q ≡ true
    → less p q ≡ false
    → len q ≤ len p
less-has_prefix path p q hp hq n = elim (Bool-cases (ltb (len p) (len q))) [
  | inl t ↦
      let k : len p < len q = ground arith in
      let e = append-cut q p (has_prefix-shorter path p q hp hq (omega (arith, k))) in
      let l : less p q ≡ true =
        ap (less p) e ∙ less-append p (cut (len p) q) (subst (λ s. len p < len s) e k) in
      absurd (cc)
  | inr t ↦ ground arith
]
