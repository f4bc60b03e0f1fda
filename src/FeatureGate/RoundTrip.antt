-- ===== src/FeatureGate/RoundTrip.antt =====
-- Printing the values of a gate and reading them again: String and Set of
-- components/featuregate/feature_gate.go.

use Prim.Native.String.{[] as nil, ◌∷◌ as cons}
use apiserver.Base.{
  one_char, trim_space, String, Bool, true, false, List, [], ◌∷◌, ◌++◌, All, none, some, Map,
  lookup, put, Unique, Result, ok, err, ◌==◌, if◌then◌else◌, if_ind, if_true, if_false, ◌≡◌, ◌≢◌,
  refl, sym, ap, ◌∙◌, inl, inr, arith, Bool-cases, eq_iff, subst, ◌+s◌, join, split, Lacks,
  split-append, split_of_Lacks, cons-append, nil-append, append-nil, append_assoc, differ, is_blank,
}
use apiserver.FeatureGate.{FeatureGate, pairs, string}
use apiserver.FeatureGate.Parse.{
  bool_text, split_in_two, front_of, parse_bool, comma, equals, parse_entry, put_entry, parse_all,
  parse, insert_sorted, not_after, sort,
}

-- A key that the syntax of the flag can carry.
unfoldable pub Plain : String → Type 0
Plain k = Lacks comma k × Lacks equals k × (trim_space k ≡ k)

abbrev PlainEntry : String × Bool → Type 0
PlainEntry p = Plain p.0

pair_text : String × Bool → String
pair_text (k, v) = k +s "=" +s bool_text v

split_in_two-append :
    (k t : String) → Lacks equals k → split_in_two (k +s "=" +s t) equals ≡ (k, some t)
unfolding split_in_two front_of
split_in_two-append nil t l = rw nil-append (ap (λ u. split_in_two u equals) (one_char "=" t))
split_in_two-append (cons c k) t (n, l) = rw cons-append (ground (arith, split_in_two-append k t l))

split-join :
    (p : String) (ps : List String)
    → All (Lacks comma) (p ∷ ps)
    → split (join (p ∷ ps) ",") comma ≡ p ∷ ps
split-join p [] (l, ls) = split_of_Lacks p comma l
split-join p (q ∷ ps) (l, ls) =
    ap (λ t. split (p +s t) comma) (one_char "," (join (q ∷ ps) ","))
    ∙ split-append p (join (q ∷ ps) ",") "," l
    ∙ ap (λ ts. p ∷ ts) (split-join q ps ls)

parse_bool-bool_text : (v : Bool) → parse_bool (trim_space (bool_text v)) ≡ some v
unfolding parse_bool trim_space
parse_bool-bool_text true = refl
parse_bool-bool_text false = refl

parse_entry-pair_text :
    (k : String) (v : Bool)
    → Plain k
    → parse_entry (split_in_two (pair_text (k, v)) equals) ≡ ok (k, v)
unfolding parse_entry pair_text Plain
parse_entry-pair_text k v (_, l, t) =
    rw (split_in_two-append k (bool_text v) l)
      (rw (parse_bool-bool_text v, parse_entry) (rw t refl))

pair_text-comma : (k : String) (v : Bool) → Lacks comma k → Lacks comma (pair_text (k, v))
unfolding pair_text
pair_text-comma nil v l = rw nil-append (by_value v)
  where
    by_value : (v : Bool) → Lacks comma ("=" +s bool_text v)
    by_value true = ground arith
    by_value false = ground arith
pair_text-comma (cons c k) v (n, l) = rw cons-append (n, pair_text-comma k v l)

pair_text-blank : (k : String) (v : Bool) → is_blank (pair_text (k, v)) ≡ false
unfolding pair_text
pair_text-blank nil v = rw nil-append (ap is_blank (one_char "=" (bool_text v)))
pair_text-blank (cons c k) v = rw cons-append refl

put_new :
    (k : String) (v : Bool) (m : Map Bool) → lookup k m ≡ none → put k v m ≡ m ++ ((k, v) ∷ [])
put_new k v [] h = refl
put_new k v ((j, w) ∷ m) h = elim (Bool-cases (j == k)) [
  | inl t ↦ let e : some w ≡ none = sym (if_true (j == k) _ _ t) ∙ h in absurd (cc)
  | inr t ↦
      if_false (j == k) _ _ t
      ∙ ap (λ l. (j, w) ∷ l) (put_new k v m (sym (if_false (j == k) _ _ t) ∙ h))
]

lookup-append_none :
    (i : String) (m rest : Map Bool) → lookup i (m ++ rest) ≡ none → lookup i rest ≡ none
lookup-append_none i [] rest h = h
lookup-append_none i ((j, w) ∷ m) rest h = elim (Bool-cases (j == i)) [
  | inl t ↦ let e : some w ≡ none = sym (if_true (j == i) _ _ t) ∙ h in absurd (cc)
  | inr t ↦ lookup-append_none i m rest (sym (if_false (j == i) _ _ t) ∙ h)
]

other_key : (i j : String) (w : Bool) (m : Map Bool) → lookup i ((j, w) ∷ m) ≡ none → i ≢ j
other_key i j w m h e =
    let q : some w ≡ none = sym (if_true (j == i) _ _ ((eq_iff j i).1 (sym e))) ∙ h in absurd (cc)

Unique-middle :
    (m rest : Map Bool) (k : String) (v : Bool) → Unique (m ++ ((k, v) ∷ rest)) → lookup k m ≡ none
Unique-middle [] rest k v u = refl
Unique-middle ((j, w) ∷ m) rest k v (h, u) =
    if_false (j == k) _ _
      (differ j k (other_key j k v rest (lookup-append_none j m ((k, v) ∷ rest) h)))
    ∙ Unique-middle m rest k v u

parse_all-cons :
    (m : Map Bool) (k : String) (v : Bool) (texts : List String)
    → Plain k
    → lookup k m ≡ none
    → parse_all m (pair_text (k, v) ∷ texts) ≡ parse_all (m ++ ((k, v) ∷ [])) texts
unfolding parse_all put_entry
parse_all-cons m k v texts p n =
    let after : Result (String × Bool) → Result (Map Bool) =
      λ r. elim (put_entry m r) [ err e ↦ err e | ok m' ↦ parse_all m' texts ] in
    if_false (is_blank (pair_text (k, v))) _ _ (pair_text-blank k v)
    ∙ ap after (parse_entry-pair_text k v p)
    ∙ ap (λ m'. parse_all m' texts) (put_new k v m n)

parse_all-pairs :
    (m rest : Map Bool)
    → Unique (m ++ rest)
    → All PlainEntry rest
    → parse_all m (pairs rest) ≡ ok (m ++ rest)
unfolding pairs pair_text parse_all
parse_all-pairs m [] u h = ap ok (sym (append-nil m))
parse_all-pairs m ((k, v) ∷ rest) u (h, hs) =
    parse_all-cons m k v (pairs rest) h (Unique-middle m rest k v u)
    ∙ parse_all-pairs (m ++ ((k, v) ∷ [])) rest
        (subst Unique (sym (append_assoc m ((k, v) ∷ []) rest)) u) hs
    ∙ ap ok (append_assoc m ((k, v) ∷ []) rest)

-- The entries in the order of their texts.
insert_entry : String × Bool → Map Bool → Map Bool
unfolding pair_text
insert_entry e [] = e ∷ []
insert_entry e (d ∷ m) =
    if not_after (pair_text e) (pair_text d) then e ∷ (d ∷ m) else d ∷ insert_entry e m

sort_entries : Map Bool → Map Bool
unfolding insert_entry
sort_entries [] = []
sort_entries (e ∷ m) = insert_entry e (sort_entries m)

insert_sorted-pairs :
    (e : String × Bool) (m : Map Bool)
    → insert_sorted (pair_text e) (pairs m) ≡ pairs (insert_entry e m)
unfolding insert_sorted pairs insert_entry pair_text
insert_sorted-pairs e [] = refl
insert_sorted-pairs e (d ∷ m) = elim (Bool-cases (not_after (pair_text e) (pair_text d))) [
  | inl t ↦
      if_true (not_after (pair_text e) (pair_text d)) _ _ t
      ∙ ap pairs (sym (if_true (not_after (pair_text e) (pair_text d)) (e ∷ (d ∷ m)) _ t))
  | inr t ↦
      if_false (not_after (pair_text e) (pair_text d)) _ _ t
      ∙ ap (λ ts. pair_text d ∷ ts) (insert_sorted-pairs e m)
      ∙ ap pairs (sym (if_false (not_after (pair_text e) (pair_text d)) (e ∷ (d ∷ m)) _ t))
]

sort-pairs : (m : Map Bool) → sort (pairs m) ≡ pairs (sort_entries m)
unfolding sort pairs sort_entries pair_text
sort-pairs [] = refl
sort-pairs (e ∷ m) =
    ap (insert_sorted (pair_text e)) (sort-pairs m) ∙ insert_sorted-pairs e (sort_entries m)

lookup-insert_entry :
    (k i : String) (v : Bool) (m : Map Bool)
    → lookup k m ≡ none
    → lookup i (insert_entry (k, v) m) ≡ lookup i ((k, v) ∷ m)
unfolding insert_entry
lookup-insert_entry k i v [] n = refl
lookup-insert_entry k i v ((j, w) ∷ m) n =
    if_ind (λ l. lookup i l ≡ lookup i ((k, v) ∷ ((j, w) ∷ m)))
      (not_after (pair_text (k, v)) (pair_text (j, w))) (λ t. refl)
      (λ t.
        let ne = other_key k j w m n in
        let rest =
          lookup-insert_entry k i v m
            (sym (if_false (j == k) _ _ (differ j k (λ e. ne (sym e)))) ∙ n) in
        rw rest (swapped (j == i) (k == i) (λ a b. ne ((eq_iff k i).0 b ∙ sym ((eq_iff j i).0 a)))))
  where
    swapped :
        (a b : Bool)
        → (a ≡ true → b ≡ true → ⊥)
        → (if a then some w else if b then some v else lookup i m)
          ≡ (if b then some v else if a then some w else lookup i m)
    swapped true true h = absurd (h refl refl)
    swapped true false h = refl
    swapped false b h = refl

Unique-insert_entry :
    (k : String) (v : Bool) (m : Map Bool)
    → lookup k m ≡ none
    → Unique m
    → Unique (insert_entry (k, v) m)
unfolding insert_entry
Unique-insert_entry k v [] n u = (refl, tt)
Unique-insert_entry k v ((j, w) ∷ m) n (h, u) =
    if_ind Unique (not_after (pair_text (k, v)) (pair_text (j, w))) (λ t. (n, (h, u)))
      (λ t.
        let ne = other_key k j w m n in
        let g = sym (if_false (j == k) _ _ (differ j k (λ e. ne (sym e)))) ∙ n in
        (
          lookup-insert_entry k j v m g ∙ if_false (k == j) _ _ (differ k j ne) ∙ h,
          Unique-insert_entry k v m g u,
        ))

All-insert_entry :
    (e : String × Bool) (m : Map Bool)
    → PlainEntry e
    → All PlainEntry m
    → All PlainEntry (insert_entry e m)
unfolding insert_entry
All-insert_entry e [] p h = (p, tt)
All-insert_entry e (d ∷ m) p (h, hs) =
    if_ind (All PlainEntry) (not_after (pair_text e) (pair_text d)) (λ t. (p, (h, hs)))
      (λ t. (h, All-insert_entry e m p hs))

sorted :
    (m : Map Bool)
    → Unique m
    → All PlainEntry m
    → Unique (sort_entries m)
      × All PlainEntry (sort_entries m)
      × ((i : String) → lookup i (sort_entries m) ≡ lookup i m)
unfolding sort_entries
sorted [] u h = (tt, tt, λ i. refl)
sorted ((k, v) ∷ m) (n, u) (h, hs) =
    let (u', h', e) = sorted m u hs in
    let n' = e k ∙ n in
    (
      Unique-insert_entry k v (sort_entries m) n' u',
      All-insert_entry (k, v) (sort_entries m) h h',
      λ i.
          lookup-insert_entry k i v (sort_entries m) n'
          ∙ ap (λ o. if k == i then some v else o) (e i),
    )

pairs-comma : (m : Map Bool) → All PlainEntry m → All (Lacks comma) (pairs m)
unfolding pairs pair_text Plain
pairs-comma [] h = tt
pairs-comma ((k, v) ∷ m) ((l, _, _), hs) = (pair_text-comma k v l, pairs-comma m hs)

parse-join : (m : Map Bool) → Unique m → All PlainEntry m → parse (join (pairs m) ",") ≡ ok m
unfolding parse parse_all pairs pair_text
parse-join [] u h = refl
parse-join ((k, v) ∷ m) u h =
    ap (parse_all []) (split-join (pair_text (k, v)) (pairs m) (pairs-comma ((k, v) ∷ m) h))
    ∙ parse_all-pairs [] ((k, v) ∷ m) u h

-- The text that String prints is taken apart into the same value for each feature, when no key has a
-- comma, an equals sign or space around it.
pub parse-string :
    (f : FeatureGate)
    → Unique f.enabled
    → All (λ p. Plain p.0) f.enabled
    → (m : Map Bool) × (parse (string f) ≡ ok m)
      × Unique m
      × ((k : String) → lookup k m ≡ lookup k f.enabled)
unfolding string
parse-string f u h =
    let (u', h', e) = sorted f.enabled u h in
    (
      sort_entries f.enabled,
      ap (λ ts. parse (join ts ",")) (sort-pairs f.enabled)
          ∙ parse-join (sort_entries f.enabled) u' h',
      u',
      e,
    )
