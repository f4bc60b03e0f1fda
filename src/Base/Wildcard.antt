-- ===== src/Base/Wildcard.antt =====
-- A trailing `*` in a path, as three components match it:
-- `strings.HasSuffix(spec, "*") && strings.HasPrefix(path, strings.TrimRight(spec, "*"))`.
use Prim.Native.Nat.{ℕ, zero, suc}
use Prim.Native.Char.{Char, code}
use Prim.Native.String.{String, [], ◌∷◌}
use mathlib.Core.Path.{◌≡◌, refl, ap, sym, ◌∙◌}
use mathlib.Core.Logic.{◌↔◌, inl, inr}
use mathlib.Core.Bool.{Bool, true, false, ◌&&◌}
use native.Mathlib.Omega.{arith}
use text.Mathlib.Text.{◌==◌}
use text.Mathlib.TextEquality.{eq_iff, Char-path}
use text.Mathlib.TextLemmas.{nil-append, cons-append, append-nil, append_assoc}
use text.Mathlib.TextLemmas.{head-eq_of_cons-eq, tail-eq_of_cons-eq, cons-ne-nil}
use apiserver.Base.Tests.{nat_eq, and_iff, Bool-cases}
use apiserver.Base.Text.{
  ◌+s◌, has_prefix, has_suffix, trim_right, keep_unless, has_prefix_iff, has_prefix-append,
  has_suffix-append,
}

abbrev pub stars : ℕ → String
stars zero = ""
stars (suc k) = "*" +s stars k

-- The code's test.
abbrev pub wildcard : String → String → Bool
wildcard spec path = has_suffix spec "*" && has_prefix path (trim_right spec b'*')

-- Its meaning: the specification is a stem with at least one star behind it, the stem does not end
-- in a star, and the path begins with the stem.
pub record Extends (spec path : String) : Type 0 where
  pub stem : String
  pub rest : String
  pub more : ℕ
  pub spec_eq : spec ≡ stem +s stars (suc more)
  pub stem_plain : has_suffix stem "*" ≡ false
  pub path_eq : path ≡ stem +s rest

single_ne : (c : Char) → nat_eq (code c) b'*' ≡ false → ((c ∷ []) == "*") ≡ false
single_ne c h = elim (Bool-cases ((c ∷ []) == "*")) [
  | inl e ↦
      let same : c ≡ "*" = head-eq_of_cons-eq ((eq_iff (c ∷ []) "*").0 e) in
      absurd (ground (arith, ap code same))
  | inr e ↦ e
]

longer_ne : (c d : Char) (s : String) → ((c ∷ d ∷ s) == "*") ≡ false
longer_ne c d s = elim (Bool-cases ((c ∷ d ∷ s) == "*")) [
  | inl e ↦ absurd (cons-ne-nil d s (tail-eq_of_cons-eq ((eq_iff _ _).0 e)))
  | inr e ↦ e
]

star_of_code : (c : Char) → nat_eq (code c) b'*' ≡ true → c ≡ "*"
star_of_code c h = Char-path c "*" (ground arith)

-- The recursion of TrimRight on a text whose tail is split already.
module _ (c : Char) (s : String) (k : ℕ) where
  keep_unless_split :
      (t : String)
      → s ≡ t +s stars k
      → has_suffix t "*" ≡ false
      → (m : ℕ) × (c ∷ s ≡ keep_unless b'*' c t +s stars m)
        × (has_suffix (keep_unless b'*' c t) "*" ≡ false)
  keep_unless_split [] e f = elim (Bool-cases (nat_eq (code c) b'*')) [
    | inl h ↦ rw h (
      suc k,
      (rw
          (
            star_of_code c h,
            e,
            nil-append (stars k),
            nil-append ("*" +s stars k),
            cons-append "*" "" (stars k),
            nil-append (stars k),
          )
          refl),
      refl,
    )
    | inr h ↦ rw h (
      k,
      ap (String.◌∷◌ c) (e ∙ nil-append _)
          ∙ sym (cons-append c [] _ ∙ ap (String.◌∷◌ c) (nil-append _)),
      rw (single_ne c h) refl,
    )
  ]
  keep_unless_split (d ∷ t) e f =
      (k, ap (String.◌∷◌ c) e ∙ sym (cons-append c (d ∷ t) _), rw (longer_ne c d t) f)

trim_right_split :
    (s : String)
    → (k : ℕ) × (s ≡ trim_right s b'*' +s stars k) × (has_suffix (trim_right s b'*') "*" ≡ false)
trim_right_split [] = (0, refl, refl)
trim_right_split (c ∷ s) =
    let (k, e, f) = trim_right_split s in keep_unless_split c s k (trim_right s b'*') e f

trim_right-stars : (k : ℕ) → trim_right (stars k) b'*' ≡ []
trim_right-stars zero = refl
trim_right-stars (suc k) =
    rw (cons-append "*" "" (stars k), nil-append (stars k), trim_right-stars k) refl

keep_unless-plain :
    (c : Char) (p : String) → has_suffix (c ∷ p) "*" ≡ false → keep_unless b'*' c p ≡ c ∷ p
keep_unless-plain c [] h = elim (Bool-cases (nat_eq (code c) b'*')) [
  | inl e ↦ absurd (ground (arith, (eq_iff (c ∷ []) "*").1 (ap (λ x. x ∷ []) (star_of_code c e))))
  | inr e ↦ rw e refl
]
keep_unless-plain c (d ∷ p) h = refl

-- TrimRight gives the stem back.
trim_right-append :
    (p : String) (k : ℕ) → has_suffix p "*" ≡ false → trim_right (p +s stars k) b'*' ≡ p
trim_right-append [] k h = rw nil-append (trim_right-stars k)
trim_right-append (c ∷ p) k h =
    let tail_plain : has_suffix p "*" ≡ false = ground arith in
    rw (cons-append c p (stars k), trim_right-append p k tail_plain) (keep_unless-plain c p h)

stars_comm : (k : ℕ) → stars (suc k) ≡ stars k +s "*"
stars_comm zero = refl
stars_comm (suc k) = ap (λ s. "*" +s s) (stars_comm k) ∙ sym (append_assoc "*" (stars k) "*")

has_suffix-stars : (p : String) (k : ℕ) → has_suffix (p +s stars (suc k)) "*" ≡ true
has_suffix-stars p k =
    rw (stars_comm k, ← append_assoc p (stars k) "*") (has_suffix-append (p +s stars k) "*")

no_stars :
    (s : String) (k : ℕ) (p : String)
    → s ≡ p +s stars k
    → has_suffix p "*" ≡ false
    → has_suffix s "*" ≡ true
    → (m : ℕ) × (k ≡ suc m)
no_stars s zero p e f h = absurd (ground (arith, ap (λ t. has_suffix t "*") (e ∙ append-nil p)))
no_stars s (suc m) p e f h = (m, refl)

wildcard_sound : (spec path : String) → wildcard spec path ≡ true → Extends spec path
wildcard_sound spec path h =
    let (ends, begins) = (and_iff (has_suffix spec "*") _).0 h in
    let (k, e, f) = trim_right_split spec in
    let (m, k_eq) = no_stars spec k (trim_right spec b'*') e f ends in
    let (t, q) = (has_prefix_iff path (trim_right spec b'*')).0 begins in
    record {
      stem = trim_right spec b'*';
      rest = t;
      more = m;
      spec_eq = e ∙ ap (λ n. trim_right spec b'*' +s stars n) k_eq;
      stem_plain = f;
      path_eq = q;
    }

wildcard_complete : (spec path : String) → Extends spec path → wildcard spec path ≡ true
wildcard_complete spec path x =
    rw
      (
        x.spec_eq,
        x.path_eq,
        has_suffix-stars x.stem x.more,
        trim_right-append x.stem (suc x.more) x.stem_plain,
      )
      (has_prefix-append x.stem x.rest)

-- The test of the code decides the meaning.
pub wildcard_iff : (spec path : String) → (wildcard spec path ≡ true) ↔ Extends spec path
wildcard_iff spec path = (wildcard_sound spec path, wildcard_complete spec path)
