-- ===== src/Base/Text.antt =====
-- The parts of Go's package strings that the code uses, over the native texts. A Go string is the
-- sequence of its code points, which is exact for valid UTF-8: there a prefix, a suffix and a cut
-- in bytes fall on code points.
use Prim.Native.Nat.{ℕ, zero, suc, ◌+◌}
use Prim.Native.Char.{Char, code}
use Prim.Native.String.{String, [], ◌∷◌}
use Prim.Native.String
use mathlib.Core.Path.{◌≡◌, refl, ap, ap₂, sym, ◌∙◌}
use mathlib.Core.Logic.{◌↔◌, ◌≢◌, inl, inr}
use mathlib.Core.Bool.{Bool, true, false, ◌&&◌, ◌||◌}
use mathlib.Core.List.{List}
use native.Mathlib.Omega.{arith}
use text.Mathlib.Text.{◌==◌}
use text.Mathlib.TextEquality.{eq_iff, Char-path}
use text.Mathlib.TextPositions.{eq_refl}
use text.Mathlib.TextLemmas.{nil-append, cons-append, cons-ne-nil}
use text.Mathlib.TextLemmas.{length-nil, length-cons, append_inj}
use apiserver.Base.Tests.{nat_eq, leb, if◌then◌else◌, and_iff, or_iff, Bool-cases}

infixr 66 ◌+s◌
abbrev pub ◌+s◌ : String → String → String
s +s t = String.◌++◌ s t

-- `len(s)`
abbrev pub len : String → ℕ
len [] = 0
len (c ∷ s) = suc (len s)

-- `len(s) == 0`, `s == ""`
abbrev pub is_blank : String → Bool
is_blank [] = true
is_blank (c ∷ s) = false

abbrev pub char_eq : Char → Char → Bool
char_eq c d = nat_eq (code c) (code d)

-- strings.HasPrefix(s, p)
abbrev pub has_prefix : String → String → Bool
has_prefix s [] = true
has_prefix [] (d ∷ p) = false
has_prefix (c ∷ s) (d ∷ p) = char_eq c d && has_prefix s p

-- strings.HasSuffix(s, p)
abbrev pub has_suffix : String → String → Bool
has_suffix [] p = is_blank p
has_suffix (c ∷ s) p = (c ∷ s) == p || has_suffix s p

-- `s[n:]`, where n is at most the length
abbrev pub cut : ℕ → String → String
cut zero s = s
cut (suc n) [] = []
cut (suc n) (c ∷ s) = cut n s

-- strings.TrimPrefix(s, p)
abbrev pub trim_prefix : String → String → String
trim_prefix s p = if has_prefix s p then cut (len p) s else s

-- strings.TrimRight(s, "*"), with the code of the one character that is trimmed
abbrev pub keep_unless : ℕ → Char → String → String
keep_unless n c [] = if nat_eq (code c) n then [] else c ∷ []
keep_unless n c (d ∷ s) = c ∷ d ∷ s

abbrev pub trim_right : String → ℕ → String
trim_right [] n = []
trim_right (c ∷ s) n = keep_unless n c (trim_right s n)

pub char_eq_iff : (c d : Char) → (char_eq c d ≡ true) ↔ (c ≡ d)
char_eq_iff c d = (λ h. Char-path c d (ground arith), λ e. rw e (ground arith))

pub is_blank_iff : (s : String) → (is_blank s ≡ true) ↔ (s ≡ [])
is_blank_iff [] = (λ _. refl, λ _. refl)
is_blank_iff (c ∷ s) = (λ h. cc, λ e. absurd (cons-ne-nil c s e))

pub has_prefix-append : (p t : String) → has_prefix (p +s t) p ≡ true
has_prefix-append [] t = refl
has_prefix-append (c ∷ p) t =
    rw cons-append ((and_iff _ _).1 ((char_eq_iff c c).1 refl, has_prefix-append p t))

pub cut-append : (p t : String) → cut (len p) (p +s t) ≡ t
cut-append [] t = nil-append t
cut-append (c ∷ p) t = rw cons-append (cut-append p t)

pub append-cut : (s p : String) → has_prefix s p ≡ true → s ≡ p +s cut (len p) s
append-cut s [] h = sym (nil-append s)
append-cut [] (d ∷ p) h = cc
append-cut (c ∷ s) (d ∷ p) h =
    let (first, later) = (and_iff _ _).0 h in
    rw cons-append (ap₂ String.◌∷◌ ((char_eq_iff c d).0 first) (append-cut s p later))

pub has_prefix_iff : (s p : String) → (has_prefix s p ≡ true) ↔ ((t : String) × (s ≡ p +s t))
has_prefix_iff s p =
    (λ h. (cut (len p) s, append-cut s p h), λ (t, e). rw e (has_prefix-append p t))

pub has_suffix-append : (u p : String) → has_suffix (u +s p) p ≡ true
has_suffix-append [] [] = refl
has_suffix-append [] (c ∷ p) = rw nil-append ((or_iff _ _).1 (inl (eq_refl (c ∷ p))))
has_suffix-append (c ∷ u) p = rw cons-append ((or_iff _ _).1 (inr (has_suffix-append u p)))

pub has_suffix_sound : (s p : String) → has_suffix s p ≡ true → (u : String) × (s ≡ u +s p)
has_suffix_sound [] p h = ([], (rw ((is_blank_iff p).0 h) (sym (nil-append []))))
has_suffix_sound (c ∷ s) p h = elim ((or_iff _ _).0 h) [
  | inl e ↦ ([], (eq_iff _ _).0 e ∙ sym (nil-append p))
  | inr e ↦
      let (u, q) = has_suffix_sound s p e in (c ∷ u, ap (String.◌∷◌ c) q ∙ sym (cons-append c u p))
]

pub has_suffix_iff : (s p : String) → (has_suffix s p ≡ true) ↔ ((u : String) × (s ≡ u +s p))
has_suffix_iff s p = (has_suffix_sound s p, λ (u, e). rw e (has_suffix-append u p))

pub count-len : (s : String) → String.count s ≡ len s
count-len [] = length-nil
count-len (c ∷ s) = length-cons c s ∙ ap suc (count-len s)

pub len-append : (s t : String) → len (s +s t) ≡ len s + len t
len-append [] t = rw nil-append (omega arith)
len-append (c ∷ s) t = rw cons-append (omega (arith, len-append s t))

-- Two splits of one text at the same length are the same split.
pub split_unique : (s s' t t' : String) → s +s t ≡ s' +s t' → len s ≡ len s' → (s ≡ s') × (t ≡ t')
split_unique s s' t t' e h = append_inj e (count-len s ∙ h ∙ sym (count-len s'))

-- `len(s) == len(p)+len(t) && HasPrefix(s, p) && HasSuffix(s, t)` is `s == p + t`.
pub prefix_suffix_iff :
    (s p t : String)
    → ((nat_eq (len s) (len t + len p) && has_prefix s p && has_suffix s t) ≡ true) ↔ (s ≡ p +s t)
prefix_suffix_iff s p t = (to, from)
  where
    to : (nat_eq (len s) (len t + len p) && has_prefix s p && has_suffix s t) ≡ true → s ≡ p +s t
    to h =
        let (both, last) = (and_iff (nat_eq (len s) (len t + len p) && has_prefix s p) _).0 h in
        let (size, first) = (and_iff (nat_eq (len s) (len t + len p)) _).0 both in
        let (r, at_front) = (has_prefix_iff s p).0 first in
        let (u, at_end) = (has_suffix_iff s t).0 last in
        let same_len : len u ≡ len p = omega (
          arith,
          len-append u t,
          ap len at_end,
          let m : len s ≡ len t + len p = ground arith in m,
        ) in
        let (fits, _) = split_unique u p t r (sym at_end ∙ at_front) same_len in
        at_end ∙ ap (λ v. v +s t) fits

    from : s ≡ p +s t → (nat_eq (len s) (len t + len p) && has_prefix s p && has_suffix s t) ≡ true
    from e = rw e (ground (arith, len-append p t, has_prefix-append p t, has_suffix-append p t))

-- strings.Split(s, sep) for a separator of one character, which is given by its code.
abbrev pub extend : Char → List String → List String
extend c List.[] = List.◌∷◌ (c ∷ []) List.[]
extend c (List.◌∷◌ p ps) = List.◌∷◌ (c ∷ p) ps

abbrev pub split : String → ℕ → List String
split [] n = List.◌∷◌ [] List.[]
split (c ∷ s) n = if nat_eq (code c) n then List.◌∷◌ [] (split s n) else extend c (split s n)

-- strings.Join(parts, sep)
abbrev pub join : List String → String → String
join List.[] sep = []
join (List.◌∷◌ p List.[]) sep = p
join (List.◌∷◌ p (List.◌∷◌ q ps)) sep = p +s sep +s join (List.◌∷◌ q ps) sep

-- No character of the text has the code.
abbrev pub Lacks : ℕ → String → Type 0
Lacks n [] = Unit
Lacks n (c ∷ s) = (code c ≢ n) × Lacks n s

-- Up to the first separator, a text without one is the first part.
pub split-append :
    (p t : String) (c : Char)
    → Lacks (code c) p
    → split (p +s c ∷ t) (code c) ≡ List.◌∷◌ p (split t (code c))
split-append [] t c h = rw nil-append (ground arith)
split-append (d ∷ p) t c (h, k) = rw cons-append (ground (arith, split-append p t c k))

pub split_of_Lacks : (p : String) (n : ℕ) → Lacks n p → split p n ≡ List.◌∷◌ p List.[]
split_of_Lacks [] n h = refl
split_of_Lacks (d ∷ p) n (h, k) = ground (arith, split_of_Lacks p n k)

pub join-extend :
    (c : Char) (ps : List String) (sep : String)
    → ps ≢ List.[]
    → join (extend c ps) sep ≡ c ∷ join ps sep
join-extend c List.[] sep h = absurd (h refl)
join-extend c (List.◌∷◌ p List.[]) sep h = refl
join-extend c (List.◌∷◌ p (List.◌∷◌ q ps)) sep h = cons-append c p _

pub split-ne-nil : (s : String) (n : ℕ) → split s n ≢ List.[]
split-ne-nil [] n = ground arith
split-ne-nil (c ∷ s) n = split-ne-nil_step c (nat_eq (code c) n) (split s n)
  where
    split-ne-nil_step :
        (c : Char) (b : Bool) (ps : List String)
        → (if b then List.◌∷◌ [] ps else extend c ps) ≢ List.[]
    split-ne-nil_step c true ps = ground arith
    split-ne-nil_step c false List.[] = ground arith
    split-ne-nil_step c false (List.◌∷◌ p ps) = ground arith

join-cons :
    (p : String) (ps : List String) (sep : String)
    → ps ≢ List.[]
    → join (List.◌∷◌ p ps) sep ≡ p +s sep +s join ps sep
join-cons p List.[] sep h = absurd (h refl)
join-cons p (List.◌∷◌ q ps) sep h = refl

-- Joining the parts of a split gives the text back.
pub join-split : (s : String) (d : Char) → join (split s (code d)) (d ∷ []) ≡ s
join-split [] d = refl
join-split (c ∷ s) d = elim (Bool-cases (char_eq c d)) [
  | inl e ↦ rw e (
      join-cons [] (split s (code d)) (d ∷ []) (split-ne-nil s (code d))
      ∙ nil-append _
      ∙ cons-append d [] _
      ∙ ap (String.◌∷◌ d) (nil-append _ ∙ join-split s d)
      ∙ ap (λ x. x ∷ s) (sym ((char_eq_iff c d).0 e)))
  | inr e ↦ rw e (
      join-extend c (split s (code d)) (d ∷ []) (split-ne-nil s (code d))
      ∙ ap (String.◌∷◌ c) (join-split s d))
]

pub blank_of_ne : (t : String) → t ≢ [] → is_blank t ≡ false
blank_of_ne [] h = absurd (h refl)
blank_of_ne (c ∷ t) h = refl

-- strings.ToLower, for ASCII letters; other characters stay.
lower : Char → String
lower c =
    let n = code c in
    if leb b'A' n && leb n b'Z'
    then (if nat_eq n b'A'
        then "a"
        else if nat_eq n b'B'
        then "b"
        else if nat_eq n b'C'
        then "c"
        else if nat_eq n b'D'
        then "d"
        else if nat_eq n b'E'
        then "e"
        else if nat_eq n b'F'
        then "f"
        else if nat_eq n b'G'
        then "g"
        else if nat_eq n b'H'
        then "h"
        else if nat_eq n b'I'
        then "i"
        else if nat_eq n b'J'
        then "j"
        else if nat_eq n b'K'
        then "k"
        else if nat_eq n b'L'
        then "l"
        else if nat_eq n b'M'
        then "m"
        else if nat_eq n b'N'
        then "n"
        else if nat_eq n b'O'
        then "o"
        else if nat_eq n b'P'
        then "p"
        else if nat_eq n b'Q'
        then "q"
        else if nat_eq n b'R'
        then "r"
        else if nat_eq n b'S'
        then "s"
        else if nat_eq n b'T'
        then "t"
        else if nat_eq n b'U'
        then "u"
        else if nat_eq n b'V'
        then "v"
        else if nat_eq n b'W'
        then "w"
        else if nat_eq n b'X'
        then "x"
        else if nat_eq n b'Y'
        then "y"
        else "z")
    else c ∷ []

unfoldable pub to_lower : String → String
unfolding lower
to_lower [] = []
to_lower (c ∷ s) = lower c +s to_lower s

-- strings.Trim(s, cutset) for a cutset of one character, which is given by its code.
abbrev pub trim_left : String → ℕ → String
trim_left [] n = []
trim_left (c ∷ s) n = if nat_eq (code c) n then trim_left s n else c ∷ s

abbrev pub trim : String → ℕ → String
trim s n = trim_right (trim_left s n) n

pub ne_of_test : (s t : String) → (s == t) ≡ false → s ≢ t
ne_of_test s t h e = absurd (ground (arith, (eq_iff s t).1 e))

-- A separator of one character, in front of a text.
pub one_char : (c : Char) (t : String) → (c ∷ []) +s t ≡ c ∷ t
one_char c t = cons-append c [] t ∙ ap (String.◌∷◌ c) (nil-append t)
