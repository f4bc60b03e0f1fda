-- ===== src/Base/Sets.antt =====
-- golib/util/sets.String, which is not part of the repository: a set of texts that grows.
use Prim.Native.String.{String}
use mathlib.Core.Path.{◌≡◌}
use mathlib.Core.Bool.{Bool, false, ◌||◌}
use mathlib.Core.Logic.{◌↔◌}
use mathlib.Core.List.{List}
use text.Mathlib.Text.{◌==◌}
use apiserver.Base.Lists.{Has}

pub record StringSets : Type 1 where
  pub Set : Type 0
  pub new_string : Set
  pub insert : Set → String → Set
  pub has : Set → String → Bool
  pub has-new_string : (t : String) → has new_string t ≡ false
  pub has-insert : (s : Set) (x t : String) → has (insert s x) t ≡ (x == t || has s t)

-- sets.NewString(ks...).List() and sets.StringKeySet(m).List(): the elements, sorted and each once.
pub record SetLists : Type 0 where
  pub list : List String → List String
  pub list-Has_iff : (ks : List String) (k : String) → Has k (list ks) ↔ Has k ks
