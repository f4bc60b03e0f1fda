-- ===== src/Base/Trim.antt =====
-- Trimming a prefix or a suffix, as the code compares what is left.
use Prim.Native.Char.{Char}
use Prim.Native.String.{String, [], ◌∷◌, ◌∷◌ as cons}
use mathlib.Core.Path.{◌≡◌, refl, ap, sym, ◌∙◌}
use mathlib.Core.Logic.{◌↔◌, ◌≢◌, inl, inr}
use mathlib.Core.Bool.{true, ◌&&◌}
use native.Mathlib.Omega.{arith}
use text.Mathlib.Text.{◌==◌}
use text.Mathlib.TextEquality.{eq_iff}
use text.Mathlib.TextPositions.{eq_refl}
use text.Mathlib.TextLemmas.{nil-append, cons-append}
use apiserver.Base.Tests.{if◌then◌else◌, and_iff, Bool-cases, if_true, if_false}
use apiserver.Base.Text.{
  ◌+s◌, len, has_prefix, has_suffix, has_suffix_sound, has_suffix-append, has_prefix-append,
  append-cut, cut-append, len-append, trim_prefix,
}

-- strings.TrimSuffix
abbrev pub trim_suffix : String → String → String
trim_suffix [] p = []
trim_suffix (c ∷ s) p = if (c ∷ s) == p then [] else c ∷ trim_suffix s p

longer-ne : (c : Char) (u p : String) → c ∷ (u +s p) ≢ p
longer-ne c u p h = omega (arith, ap len h, len-append u p)

pub trim_suffix-append : (u p : String) → p ≢ [] → trim_suffix (u +s p) p ≡ u
trim_suffix-append [] [] h = absurd (h refl)
trim_suffix-append [] (d ∷ p) h = rw nil-append (if_true ((d ∷ p) == (d ∷ p)) _ _ (eq_refl (d ∷ p)))
trim_suffix-append (c ∷ u) p h = rw cons-append (elim (Bool-cases ((c ∷ (u +s p)) == p)) [
  | inl e ↦ absurd (longer-ne c u p ((eq_iff _ p).0 e))
  | inr e ↦ if_false ((c ∷ (u +s p)) == p) _ _ e ∙ ap (cons c) (trim_suffix-append u p h)
])

-- `HasSuffix(s, p) && r == TrimSuffix(s, p)` is `s == r + p`.
pub suffix_trimmed_iff :
    (s r p : String) → p ≢ [] → ((has_suffix s p && r == trim_suffix s p) ≡ true) ↔ (s ≡ r +s p)
suffix_trimmed_iff s r p n = (to, from)
  where
    to : (has_suffix s p && r == trim_suffix s p) ≡ true → s ≡ r +s p
    to h =
        let (ends, same) = (and_iff (has_suffix s p) _).0 h in
        let (u, e) = has_suffix_sound s p ends in
        let stem : r ≡ u =
          (eq_iff r _).0 same ∙ ap (λ x. trim_suffix x p) e ∙ trim_suffix-append u p n in
        e ∙ ap (λ x. x +s p) (sym stem)

    from : s ≡ r +s p → (has_suffix s p && r == trim_suffix s p) ≡ true
    from e =
        rw e
          ((and_iff _ _).1 (has_suffix-append r p, (eq_iff r _).1 (sym (trim_suffix-append r p n))))

-- `HasPrefix(s, p) && r == TrimPrefix(s, p)` is `s == p + r`.
pub prefix_trimmed_iff :
    (s r p : String) → ((has_prefix s p && r == trim_prefix s p) ≡ true) ↔ (s ≡ p +s r)
prefix_trimmed_iff s r p = (to, from)
  where
    to : (has_prefix s p && r == trim_prefix s p) ≡ true → s ≡ p +s r
    to h =
        let (starts, same) = (and_iff (has_prefix s p) _).0 h in
        append-cut s p starts
        ∙ ap (λ x. p +s x) (sym ((eq_iff r _).0 same ∙ if_true (has_prefix s p) _ _ starts))

    from : s ≡ p +s r → (has_prefix s p && r == trim_prefix s p) ≡ true
    from e = rw e (
        (and_iff _ _).1 (
          has_prefix-append p r,
          (eq_iff r _).1
              (sym (if_true (has_prefix (p +s r) p) _ _ (has_prefix-append p r) ∙ cut-append p r)),
        ))
