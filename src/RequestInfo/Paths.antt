-- ===== src/RequestInfo/Paths.antt =====
-- Splitting a path that is made of segments.
use Prim.Native.String.{[] as empty, ◌∷◌ as cons}
use apiserver.Base.{
  String, Char, false, ℕ, List, [], ◌∷◌, ◌==◌, ◌+s◌, ◌≡◌, ◌≢◌, refl, sym, ap, ◌∙◌, arith, All,
  Lacks, join, split, split-append, split_of_Lacks, trim, trim_left, trim_right, keep_unless,
  nil-append, cons-append, eq_iff, Bool-cases, inl, inr,
}
use text.Mathlib.TextLemmas.{
  append_assoc as append_assoc_text, append-nil as append_nil_text, cons-ne-nil,
}
use apiserver.RequestInfo.{split_path}

-- A segment of a path: not empty, with no slash.
abbrev pub Segment : String → Type 0
Segment p = (p ≢ "") × Lacks b'/' p

keep_unless_ne : (n : ℕ) (c : Char) (s : String) → s ≢ "" → keep_unless n c s ≡ cons c s
keep_unless_ne n c empty h = absurd (h refl)
keep_unless_ne n c (cons d s) h = refl

trim_right_of_Lacks : (n : ℕ) (s : String) → Lacks n s → trim_right s n ≡ s
trim_right_of_Lacks n empty h = refl
trim_right_of_Lacks n (cons c empty) (h, k) = ground arith
trim_right_of_Lacks n (cons c (cons d s)) (h, k) = rw (trim_right_of_Lacks n (cons d s) k) refl

append_ne : (s t : String) → t ≢ "" → s +s t ≢ ""
append_ne empty t h = rw nil-append h
append_ne (cons c s) t h = rw cons-append (cons-ne-nil c (s +s t))

trim_right_end : (n : ℕ) (s t : String) → t ≢ "" → Lacks n t → trim_right (s +s t) n ≡ s +s t
trim_right_end n empty t h k = rw nil-append (trim_right_of_Lacks n t k)
trim_right_end n (cons c s) t h k =
    rw (cons-append c s t, trim_right_end n s t h k) (keep_unless_ne n c (s +s t) (append_ne s t h))

trim_left_start : (n : ℕ) (s t : String) → s ≢ "" → Lacks n s → trim_left (s +s t) n ≡ s +s t
trim_left_start n empty t h k = absurd (h refl)
trim_left_start n (cons c s) t h (k, l) = rw cons-append (ground arith)

-- A path ends in its last segment.
join_end :
    (p : String) (ps : List String)
    → All Segment (p ∷ ps)
    → (s : String) × (t : String) × (join (p ∷ ps) "/" ≡ s +s t) × Segment t
join_end p [] (h, _) = ("", p, sym (nil-append p), h)
join_end p (q ∷ ps) (h, k) =
    let (s, t, e, m) = join_end q ps k in
    (
      p +s "/" +s s,
      t,
      ap (λ x. p +s "/" +s x) e
          ∙ ap (λ x. p +s x) (sym (append_assoc_text "/" s t))
          ∙ sym (append_assoc_text p ("/" +s s) t),
      m,
    )

join_start : (p : String) (ps : List String) → (t : String) × (join (p ∷ ps) "/" ≡ p +s t)
join_start p [] = ("", sym (append_nil_text p))
join_start p (q ∷ ps) = ("/" +s join (q ∷ ps) "/", refl)

slash_cons : (s : String) → "/" +s s ≡ cons "/" s
slash_cons s = cons-append "/" "" s ∙ ap (cons "/") (nil-append s)

split-join :
    (p : String) (ps : List String) → All Segment (p ∷ ps) → split (join (p ∷ ps) "/") b'/' ≡ p ∷ ps
split-join p [] ((_, h), _) = split_of_Lacks p b'/' h
split-join p (q ∷ ps) ((_, h), k) =
    ap (λ x. split (p +s x) b'/') (cons-append "/" "" _ ∙ ap (cons "/") (nil-append _))
    ∙ split-append p (join (q ∷ ps) "/") "/" h
    ∙ ap (λ x. p ∷ x) (split-join q ps k)

-- A path of segments, with a slash in front, is split into those segments.
pub split_path-join :
    (p : String) (ps : List String)
    → All Segment (p ∷ ps)
    → split_path ("/" +s join (p ∷ ps) "/") ≡ p ∷ ps
unfolding split_path
split_path-join p ps h =
    let (t, start) = join_start p ps in
    let (s, u, ending, last) = join_end p ps h in
    let left : trim_left ("/" +s join (p ∷ ps) "/") b'/' ≡ join (p ∷ ps) "/" =
      ap (λ x. trim_left x b'/') (slash_cons (join (p ∷ ps) "/"))
      ∙ ap (λ x. trim_left x b'/') start
      ∙ trim_left_start b'/' p t h.0.0 h.0.1
      ∙ sym start in
    let trimmed : trim ("/" +s join (p ∷ ps) "/") b'/' ≡ join (p ∷ ps) "/" =
      ap (λ x. trim_right x b'/') (left ∙ ending)
      ∙ trim_right_end b'/' s u last.0 last.1
      ∙ sym ending in
    let not_empty : (join (p ∷ ps) "/" == "") ≡ false =
      elim (Bool-cases (join (p ∷ ps) "/" == "")) [
        | inl e ↦ absurd (append_ne s u last.0 (sym ending ∙ (eq_iff _ "").0 e))
        | inr e ↦ e
      ] in
    rw (trimmed, not_empty) (split-join p ps h)
