-- ===== src/BootstrapToken/Laws.antt =====
-- Which tokens are authenticated, and as whom: plugin/authenticator/token/bootstrap/bootstrap.go and
-- pkg/cluster-bootstrap.
use apiserver.Base.{
  Has, ℕ, String, true, false, List, All, Option, none, some, ◌+s◌, ◌≡◌, ◌≢◌, ◌⊎◌, ◌↔◌, ◌<◌, [],
  SetLists,
}
use apiserver.Authenticator.{Outcome}
use apiserver.BootstrapToken.{token_from_id_and_secret, Secret, get_data, get_groups, Got, found}
use apiserver.BootstrapToken.Parsing.{Formed}
use apiserver.BootstrapToken.Groups.{IsBootstrapGroup, IsGroupOf}

-- The secret has no expiration, or one that can be read and lies ahead.
pub Alive : (String → Option ℕ) → ℕ → Secret → Type 0
Alive parse_time now s =
    (get_data s "expiration" ≡ "")
    ⊎ ((t : ℕ) × (parse_time (get_data s "expiration") ≡ some t) × (now < t))

-- The stored secret is in use for an id and a secret: it is of the right type and is not deleted, holds
-- both, has not expired and says that it is for authentication.
unfoldable pub InUse : (String → Option ℕ) → ℕ → String → String → Secret → Type 0
InUse parse_time now id secret s =
    (s.is_deleted ≡ false)
    × ((s.type ≡ "bootstrap.kubernetes.io/token") × (s.secret_data ≢ none))
    × (get_data s "token-secret" ≡ secret)
    × (get_data s "token-id" ≡ id)
    × Alive parse_time now s
    × (get_data s "usage-bootstrap-authentication" ≡ "true")

-- The answer that the token is the one of the bootstrap user of `id`, in `groups`.
pub record IsUserOf (id : String) (groups : List String) (o : Outcome) : Type 0 where
  pub is_ok : o.is_ok ≡ true
  pub error : o.error ≡ none
  pub response :
      o.response
      ≡ some (record {
        audiences = [];
        user = record { name = "system:bootstrap:" +s id; uid = ""; groups = groups; extra = [] };
      })

-- What a token presents: the secret of its id, in use and with groups that are all valid.
pub Presents :
    SetLists → (String → Option ℕ) → ℕ → (String → Got) → String → String → List String → Type 0
Presents sets parse_time now lister token id groups =
    (secret : String) × (s : Secret) × (token ≡ token_from_id_and_secret id secret)
    × Formed id secret
    × (lister ("bootstrap-token-" +s id) ≡ found s)
    × InUse parse_time now id secret s
    × (get_groups sets s ≡ some groups)
    × All IsBootstrapGroup groups
    × ((g : String) → Has g groups ↔ IsGroupOf s g)
