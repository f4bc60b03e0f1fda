-- ===== src/BootstrapToken/Parsing.antt =====
-- The form of a bootstrap token: pkg/cluster-bootstrap/util/tokens and pkg/cluster-bootstrap/token/util.
use Prim.Native.String.{[] as nil, ◌∷◌ as cons}
use apiserver.Base.{
  String, Bool, true, false, ◌&&◌, List, [], ◌∷◌, some, some_inj, ◌+s◌, split, split-append,
  split_of_Lacks, join, join-split, one_char, Lacks, nat_eq, len, and_iff, ◌≡◌, ◌↔◌, refl, sym, ap,
  ◌∙◌, arith,
}
use apiserver.BootstrapToken.{
  is_token_char, all_chars, is_token_part, when_formed, parts_of, parse_token,
  token_from_id_and_secret,
}

-- The form of an id and a secret.
abbrev pub Formed : String → String → Type 0
Formed id secret = (is_token_part 6 id ≡ true) × (is_token_part 16 secret ≡ true)

no_point : (s : String) → all_chars is_token_char s ≡ true → Lacks b'.' s
no_point nil h = tt
no_point (cons c s) h =
    let (a, b) = (and_iff (is_token_char c) (all_chars is_token_char s)).0 h in
    ((λ e. ground (arith, a, e)), no_point s b)

parts_of-Formed :
    (ps : List String) (id secret : String)
    → parts_of ps ≡ some (id, secret)
    → (ps ≡ id ∷ (secret ∷ [])) × Formed id secret
parts_of-Formed [] id secret h = cc
parts_of-Formed (a ∷ []) id secret h = cc
parts_of-Formed (a ∷ (b ∷ [])) id secret h =
    by_tests (is_token_part 6 a) (is_token_part 16 b) refl refl h
  where
    by_tests :
        (x y : Bool)
        → is_token_part 6 a ≡ x
        → is_token_part 16 b ≡ y
        → when_formed (x && y) (a, b) ≡ some (id, secret)
        → (a ∷ (b ∷ []) ≡ id ∷ (secret ∷ [])) × Formed id secret
    by_tests true true p q g =
        let e = some_inj g in
        let i : a ≡ id = ap (λ x. x.0) e in
        let s : b ≡ secret = ap (λ x. x.1) e in
        (
          ap (λ x. x ∷ (b ∷ [])) i ∙ ap (λ x. id ∷ (x ∷ [])) s,
          (ap (is_token_part 6) (sym i) ∙ p, ap (is_token_part 16) (sym s) ∙ q),
        )
    by_tests true false p q g = cc
    by_tests false y p q g = cc
parts_of-Formed (a ∷ (b ∷ (c ∷ ps))) id secret h = cc

-- ParseToken takes apart exactly the texts that TokenFromIDAndSecret makes of an id and a secret of
-- the right form.
pub parse_token_iff :
    (token id secret : String)
    → (parse_token token ≡ some (id, secret))
      ↔ ((token ≡ token_from_id_and_secret id secret) × Formed id secret)
unfolding parse_token token_from_id_and_secret
parse_token_iff token id secret = (to, from)
  where
    to :
        parts_of (split token b'.') ≡ some (id, secret)
        → (token ≡ id +s "." +s secret) × Formed id secret
    to h =
        let (e, f) = parts_of-Formed (split token b'.') id secret h in
        (sym (join-split token ".") ∙ ap (λ ps. join ps ".") e, f)

    from :
        ((token ≡ id +s "." +s secret) × Formed id secret)
        → parts_of (split token b'.') ≡ some (id, secret)
    from (e, (f, g)) =
        let i = no_point id ((and_iff (nat_eq (len id) 6) _).0 f).1 in
        let s = no_point secret ((and_iff (nat_eq (len secret) 16) _).0 g).1 in
        ap (λ t. parts_of (split t b'.')) (e ∙ ap (λ t. id +s t) (one_char "." secret))
        ∙ ap parts_of
            (split-append id secret "." i ∙ ap (λ ps. id ∷ ps) (split_of_Lacks secret b'.' s))
        ∙ ap (λ b. when_formed b (id, secret))
            ((and_iff (is_token_part 6 id) (is_token_part 16 secret)).1 (f, g))
