-- ===== src/AuthzPath.antt =====
-- The authorizer of paths: plugin/authorizer/path/path.go. The set of paths is golib's.
pub mod Laws
mod Tests
use Prim.Native.String.{[] as empty, ◌∷◌ as cons}
use apiserver.Base.{
  String, Bool, true, false, List, [], ◌∷◌, ◌++◌, Option, none, any, if◌then◌else◌, is_blank,
  has_prefix, has_suffix, trim_prefix, code, nat_eq, ◌||◌, Error, errorf, Result, ok, err,
  StringSets,
}
use apiserver.Authorizer.{Attributes, Verdict, decision_allow, decision_no_opinion}

-- `p[:len(p)-1]` of a path that is not empty. The code keeps it only where the last character is a
-- star, and otherwise looks for a star in it, so that its cut inside a longer character is the same.
but_last : String → String
but_last empty = empty
but_last (cons c empty) = empty
but_last (cons c (cons d s)) = cons c (but_last (cons d s))

-- strings.ContainsRune(s, '*')
contains_star : String → Bool
contains_star empty = false
contains_star (cons c s) = nat_eq (code c) b'*' || contains_star s

module _ (sets : StringSets) where
  -- The two collections that NewAuthorizer fills.
  pub record Paths : Type 0 where
    pub prefixes : List String
    pub paths : sets.Set

  -- One round of the loop.
  add_path : Paths → String → Result Paths
  unfolding but_last contains_star
  add_path c p =
      if is_blank p
      then ok (record { prefixes = c.prefixes; paths = sets.insert c.paths p })
      else if contains_star (but_last p)
      then err (errorf "only trailing * allowed in %q" (p ∷ []))
      else if has_suffix p "*"
      then ok (record { prefixes = c.prefixes ++ but_last p ∷ []; paths = c.paths })
      else ok (record { prefixes = c.prefixes; paths = sets.insert c.paths p })

  add_paths : Paths → List String → Result Paths
  unfolding add_path
  add_paths c [] = ok c
  add_paths c (p ∷ always_allow_paths) = elim (add_path c (trim_prefix p "/")) [
    | err e ↦ err e
    | ok c' ↦ add_paths c' always_allow_paths
  ]

  -- The function that NewAuthorizer returns.
  pub allow_paths : Paths → Attributes → Verdict
  allow_paths c a =
      let no_opinion : Verdict = record {
        decision = decision_no_opinion;
        reason = "";
        error = none;
      } in
      let allow : Verdict = record { decision = decision_allow; reason = ""; error = none } in
      let pth = trim_prefix a.path "/" in
      if a.resource_request
      then no_opinion
      else if sets.has c.paths pth
      then allow
      else if any (λ prefix. has_prefix pth prefix) c.prefixes
      then allow
      else no_opinion

  unfoldable pub new_authorizer : List String → Result (Attributes → Verdict)
  unfolding add_paths allow_paths
  new_authorizer always_allow_paths =
      elim (add_paths (record { prefixes = []; paths = sets.new_string }) always_allow_paths) [
        | err e ↦ err e
        | ok c ↦ ok (allow_paths c)
      ]
