-- ===== src/BootstrapToken/Tests.antt =====
-- Bootstrap tokens, and instances of the theorems about them.
use apiserver.Base.{
  ℕ, String, false, [], ◌∷◌, Option, none, some, ◌==◌, if◌then◌else◌, ◌≡◌, ◌↔◌, refl, SetLists,
}
use apiserver.BootstrapToken.{
  Secret, Got, found, not_found, no_token, accepted, parse_token, token_from_id_and_secret,
  authenticate_bootstrap, get_groups, is_group, is_usable,
}
use apiserver.BootstrapToken.Parsing.{Formed, parse_token_iff}

abbrev sets : SetLists
sets = record { list = λ ks. ks; list-Has_iff = λ ks k. ((λ h. h), (λ h. h)) }

abbrev secret : Secret
secret = record {
  is_deleted = false;
  type = "bootstrap.kubernetes.io/token";
  secret_data = some (
      ("token-id", "abcdef")
      ∷ (("token-secret", "0123456789abcdef")
          ∷ (("usage-bootstrap-authentication", "true")
              ∷ (("expiration", "2030-01-01T00:00:00Z")
                  ∷ (("auth-extra-groups", "system:bootstrappers:dev") ∷ [])))));
}

abbrev lister : String → Got
lister name = if name == "bootstrap-token-abcdef" then found secret else not_found

abbrev year_2030 : String → Option ℕ
year_2030 s = if s == "2030-01-01T00:00:00Z" then some 1893456000 else none

abbrev token : String
token = "abcdef.0123456789abcdef"

is_taken_apart : parse_token token ≡ some ("abcdef", "0123456789abcdef")
unfolding parse_token
is_taken_apart = refl

is_accepted :
    authenticate_bootstrap sets year_2030 1700000000 lister token
    ≡ accepted "abcdef" ("system:bootstrappers:dev" ∷ ("system:bootstrappers" ∷ []))
unfolding authenticate_bootstrap parse_token get_groups is_group is_usable
is_accepted = refl

is_expired : authenticate_bootstrap sets year_2030 1900000000 lister token ≡ no_token none
unfolding authenticate_bootstrap parse_token get_groups is_usable
is_expired = refl

is_refused :
    authenticate_bootstrap sets year_2030 1700000000 lister "abcdef.0123456789abcdeg"
    ≡ no_token none
unfolding authenticate_bootstrap parse_token get_groups is_usable
is_refused = refl

parse_token_iff_example : (parse_token token ≡ some ("abcdef", "0123456789abcdef")) ↔ (
    (token ≡ token_from_id_and_secret "abcdef" "0123456789abcdef")
    × Formed "abcdef" "0123456789abcdef")
parse_token_iff_example = parse_token_iff token "abcdef" "0123456789abcdef"
