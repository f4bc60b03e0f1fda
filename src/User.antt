-- ===== src/User.antt =====
-- pkg/authentication/user/user.go: the user of a request, and the well-known groups.
use apiserver.Base.{String, List}

-- DefaultInfo. A Go map is the association list of its entries.
pub record User : Type 0 where
  pub name : String
  pub uid : String
  pub groups : List String
  pub extra : List (String × List String)

abbrev pub system_privileged_group : String
system_privileged_group = "system:masters"

abbrev pub all_unauthenticated : String
all_unauthenticated = "system:unauthenticated"

abbrev pub all_authenticated : String
all_authenticated = "system:authenticated"

abbrev pub anonymous : String
anonymous = "system:anonymous"
