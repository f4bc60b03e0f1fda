-- ===== src/Base/Space.antt =====
-- strings.TrimSpace.
use Prim.Native.Char.{Char, code}
use Prim.Native.String.{String, [] as nil, ◌∷◌ as cons}
use mathlib.Core.Bool.{Bool, ◌&&◌, ◌||◌}
use apiserver.Base.Tests.{leb, nat_eq, if◌then◌else◌}

-- unicode.IsSpace, for Latin-1
abbrev pub is_space : Char → Bool
is_space c = let n = code c in leb 9 n && leb n 13 || nat_eq n 32 || nat_eq n 0x85 || nat_eq n 0xa0

trim_front : String → String
trim_front nil = nil
trim_front (cons c s) = if is_space c then trim_front s else cons c s

-- `c` in front of a text without trailing space.
keep_front : Char → String → String
keep_front c nil = if is_space c then nil else cons c nil
keep_front c (cons d s) = cons c (cons d s)

trim_back : String → String
unfolding keep_front
trim_back nil = nil
trim_back (cons c s) = keep_front c (trim_back s)

-- strings.TrimSpace
unfoldable pub trim_space : String → String
unfolding trim_front trim_back
trim_space s = trim_back (trim_front s)
