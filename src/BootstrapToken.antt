-- ===== src/BootstrapToken.antt =====
-- Bootstrap tokens: plugin/authenticator/token/bootstrap/bootstrap.go, with the functions of
-- pkg/cluster-bootstrap that it calls and the constants of pkg/cluster-bootstrap/token/api/types.go.
-- A regular expression is written as the test that it is. `parse_time` is time.Parse with RFC3339;
-- SetLists has sets.String of golib. Logs are left out.
pub mod Parsing
pub mod Groups
pub mod Laws
mod Tests
use apiserver.Base.{
  ℕ, ◌+◌, String, Char, code, Bool, true, false, not, ◌&&◌, ◌||◌, List, [], ◌∷◌, Option, none, some,
  Map, lookup, Error, errorf, Result, ok, err, ◌==◌, ◌+s◌, if◌then◌else◌, is_blank, split, len,
  has_prefix, cut, nat_eq, leb, ltb, SetLists,
}
use Prim.Native.String.{[] as nil, ◌∷◌ as cons}
use apiserver.User.{User}
use apiserver.Authenticator.{Response, Outcome}

abbrev pub secret_prefix : String
secret_prefix = "bootstrap-token-"

abbrev pub secret_type : String
secret_type = "bootstrap.kubernetes.io/token"

abbrev pub id_key : String
id_key = "token-id"

abbrev pub secret_key : String
secret_key = "token-secret"

abbrev pub expiration_key : String
expiration_key = "expiration"

abbrev pub extra_groups_key : String
extra_groups_key = "auth-extra-groups"

abbrev pub usage_authentication : String
usage_authentication = "usage-bootstrap-authentication"

abbrev pub bootstrap_user_prefix : String
bootstrap_user_prefix = "system:bootstrap:"

abbrev pub default_group : String
default_group = "system:bootstrappers"

-- `[a-z0-9]`
abbrev pub is_token_char : Char → Bool
is_token_char c = leb b'a' (code c) && leb (code c) b'z' || leb b'0' (code c) && leb (code c) b'9'

abbrev pub all_chars : (Char → Bool) → String → Bool
all_chars p nil = true
all_chars p (cons c s) = p c && all_chars p s

abbrev pub is_token_part : ℕ → String → Bool
is_token_part n s = nat_eq (len s) n && all_chars is_token_char s

abbrev pub when_formed : Bool → String × String → Option (String × String)
when_formed true p = some p
when_formed false p = none

-- BootstrapTokenPattern, whose classes have no point.
abbrev pub parts_of : List String → Option (String × String)
parts_of (id ∷ (secret ∷ [])) =
    when_formed (is_token_part 6 id && is_token_part 16 secret) (id, secret)
parts_of _ = none

unfoldable pub parse_token : String → Option (String × String)
parse_token s = parts_of (split s b'.')

unfoldable pub token_from_id_and_secret : String → String → String
token_from_id_and_secret id secret = id +s "." +s secret

-- `[a-z0-9:-]`
abbrev pub is_group_char : Char → Bool
is_group_char c = is_token_char c || nat_eq (code c) b':' || nat_eq (code c) b'-'

abbrev pub ends_with_token_char : String → Bool
ends_with_token_char nil = false
ends_with_token_char (cons c nil) = is_token_char c
ends_with_token_char (cons c (cons d s)) = ends_with_token_char (cons d s)

abbrev pub group_pattern_prefix : String
group_pattern_prefix = "system:bootstrappers:"

-- BootstrapGroupPattern
unfoldable pub is_group : String → Bool
is_group name =
    let rest = cut (len group_pattern_prefix) name in
    has_prefix name group_pattern_prefix
    && leb (len rest) 256
    && all_chars is_group_char rest
    && ends_with_token_char rest

-- The fields of api.Secret that are read. The deletion timestamp is told by whether it is set.
pub record Secret : Type 0 where
  pub is_deleted : Bool
  pub type : String
  pub secret_data : Option (Map String)

abbrev pub value_of : Option String → String
value_of none = ""
value_of (some v) = v

abbrev pub data_of : Option (Map String) → String → String
data_of none key = ""
data_of (some m) key = value_of (lookup key m)

abbrev pub get_data : Secret → String → String
get_data s key = data_of s.secret_data key

-- HasExpired, which is GetExpiration's second result.
abbrev pub is_over : ℕ → Option ℕ → Bool
is_over now none = true
is_over now (some t) = leb t now

abbrev pub has_expired : (String → Option ℕ) → ℕ → Secret → Bool
has_expired parse_time now s =
    if is_blank (get_data s expiration_key)
    then false
    else is_over now (parse_time (get_data s expiration_key))

-- The loop of GetGroups: the groups, unless one is not valid.
abbrev pub insert_groups : List String → List String → Option (List String)
insert_groups groups [] = some groups
insert_groups groups (group ∷ extra) =
    let rest = insert_groups (group ∷ groups) extra in if is_group group then rest else none

abbrev pub list_set : SetLists → Option (List String) → Option (List String)
list_set sets none = none
list_set sets (some groups) = some (sets.list groups)

unfoldable pub get_groups : SetLists → Secret → Option (List String)
get_groups sets s =
    if is_blank (get_data s extra_groups_key)
    then some (sets.list (default_group ∷ []))
    else list_set sets
        (insert_groups (default_group ∷ []) (split (get_data s extra_groups_key) b','))

-- What the lister's Get returns.
pub data Got : Type 0 where
  found : Secret → Got
  not_found : Got
  failed : Error → Got

abbrev pub no_token : Option Error → Outcome
no_token e = record { response = none; is_ok = false; error = e }

abbrev pub accepted : String → List String → Outcome
accepted id groups = record {
  response = some (record {
    audiences = [];
    user = record { name = bootstrap_user_prefix +s id; uid = ""; groups = groups; extra = [] };
  });
  is_ok = true;
  error = none;
}

abbrev pub is_nil : Option (Map String) → Bool
is_nil none = true
is_nil (some m) = false

-- The tests of the secret that come before its groups are read.
unfoldable pub is_usable : (String → Option ℕ) → ℕ → String → String → Secret → Bool
is_usable parse_time now id secret s =
    not s.is_deleted
    && not (not (s.type == secret_type) || is_nil s.secret_data)
    && get_data s secret_key == secret
    && get_data s id_key == id
    && not (has_expired parse_time now s)
    && get_data s usage_authentication == "true"

abbrev pub with_groups : String → Option (List String) → Outcome
with_groups id none = no_token none
with_groups id (some groups) = accepted id groups

abbrev pub check_secret : SetLists → (String → Option ℕ) → ℕ → String → String → Got → Outcome
check_secret sets parse_time now id secret not_found = no_token none
check_secret sets parse_time now id secret (failed e) = no_token (some e)
check_secret sets parse_time now id secret (found s) =
    if is_usable parse_time now id secret s
    then with_groups id (get_groups sets s)
    else no_token none

abbrev pub check_token :
    SetLists → (String → Option ℕ) → ℕ → (String → Got) → Option (String × String) → Outcome
check_token sets parse_time now lister none = no_token none
check_token sets parse_time now lister (some (id, secret)) =
    check_secret sets parse_time now id secret (lister (secret_prefix +s id))

-- AuthenticateToken. The id that is compared with the token's is the one in the user's name.
unfoldable pub authenticate_bootstrap :
    SetLists → (String → Option ℕ) → ℕ → (String → Got) → String → Outcome
authenticate_bootstrap sets parse_time now lister token =
    check_token sets parse_time now lister (parse_token token)
