-- ===== src/ServiceAccount/Tests.antt =====
-- Runs of the user name functions, and instances of their theorems.
use apiserver.Base.{
  String, List, [], ◌∷◌, ◌≡◌, ◌↔◌, refl, true, ok, if◌then◌else◌, Lacks, arith, Bool-cases, inl,
  inr,
}
use apiserver.Samples.{has_code, has_code-Lacks}
use apiserver.ServiceAccount.{
  make_username, matches_username, split_parts, split_username, ServiceAccountInfo, user_info,
}
use apiserver.ServiceAccount.Laws.{split_username_iff}

-- A validator that only looks for colons.
abbrev no_colon : String → List String
no_colon s = if has_code s b':' then "no colons" ∷ [] else []

no_colon-Lacks : (s : String) → no_colon s ≡ [] → Lacks b':' s
no_colon-Lacks s h = elim (Bool-cases (has_code s b':')) [
  | inl e ↦ absurd (ground arith)
  | inr e ↦ has_code-Lacks s b':' e
]

matches_username_test : matches_username "shop" "bot" "system:serviceaccount:shop:bot" ≡ true
unfolding matches_username
matches_username_test = refl

split_username_test :
    split_username no_colon no_colon "system:serviceaccount:shop:bot" ≡ ok ("shop", "bot")
unfolding split_username split_parts
split_username_test = refl

abbrev bot : ServiceAccountInfo
bot = record { name = "bot"; namespace = "shop"; uid = "1"; pod_name = "p"; pod_uid = "" }

user_info_groups_test :
    (user_info bot).groups ≡ "system:serviceaccounts" ∷ ("system:serviceaccounts:shop" ∷ [])
unfolding user_info
user_info_groups_test = refl

split_username_iff_example :
    (split_username no_colon no_colon "system:serviceaccount:shop:bot" ≡ ok ("shop", "bot")) ↔ (
      ("system:serviceaccount:shop:bot" ≡ make_username "shop" "bot")
      × (no_colon "shop" ≡ [])
      × (no_colon "bot" ≡ []))
split_username_iff_example =
    split_username_iff no_colon no_colon no_colon-Lacks no_colon-Lacks "shop" "bot"
      "system:serviceaccount:shop:bot"
