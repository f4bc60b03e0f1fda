-- ===== src/FeatureGate/Parse.antt =====
-- Reading and printing feature gates: the text part of Set of components/featuregate/feature_gate.go,
-- with the functions of packages strings, strconv and sort that it calls.
use apiserver.Base.{
  trim_space, ℕ, String, Char, code, Bool, true, false, ◌||◌, ◌&&◌, Option, none, some, Map, put,
  errorf, Result, ok, err, ◌==◌, if◌then◌else◌, split, char_eq, nat_eq, ltb, is_blank,
}
use mathlib.Core.List.{List, [], ◌∷◌}
use Prim.Native.String.{[] as nil, ◌∷◌ as cons}

-- `%t`, `%v`
abbrev pub bool_text : Bool → String
bool_text true = "true"
bool_text false = "false"

-- strings.SplitN(s, sep, 2), with the part behind the first separator when there is one.
unfoldable pub front_of : Char → String × Option String → String × Option String
front_of c p = (cons c p.0, p.1)

unfoldable pub split_in_two : String → ℕ → String × Option String
unfolding front_of
split_in_two nil n = (nil, none)
split_in_two (cons c s) n =
    let rest = split_in_two s n in if nat_eq (code c) n then (nil, some s) else front_of c rest

-- strconv.ParseBool
unfoldable pub parse_bool : String → Option Bool
parse_bool s =
    if s == "1" || s == "t" || s == "T" || s == "true" || s == "TRUE" || s == "True"
    then some true
    else if s == "0" || s == "f" || s == "F" || s == "false" || s == "FALSE" || s == "False"
    then some false
    else none

abbrev pub comma : ℕ
comma = 0x2c

abbrev pub equals : ℕ
equals = 0x3d

-- One entry of the value of the flag: its key and its value.
unfoldable pub parse_entry : String × Option String → Result (String × Bool)
unfolding trim_space parse_bool
parse_entry (k, none) = err (errorf "missing bool value for %s" (trim_space k ∷ []))
parse_entry (k, some v) = elim (parse_bool (trim_space v)) [
  | none ↦ err (errorf "invalid value of %s=%s, err: %v" (trim_space k ∷ (trim_space v ∷ [])))
  | some b ↦ ok (trim_space k, b)
]

unfoldable pub put_entry : Map Bool → Result (String × Bool) → Result (Map Bool)
put_entry m (err e) = err e
put_entry m (ok (k, b)) = ok (put k b m)

unfoldable pub parse_all : Map Bool → List String → Result (Map Bool)
unfolding put_entry parse_entry split_in_two
parse_all m [] = ok m
parse_all m (s ∷ entries) =
    if is_blank s
    then parse_all m entries
    else elim (put_entry m (parse_entry (split_in_two s equals))) [
      | err e ↦ err e
      | ok m' ↦ parse_all m' entries
    ]

-- The loop of Set.
unfoldable pub parse : String → Result (Map Bool)
unfolding parse_all
parse value = parse_all [] (split value comma)

-- The order of sort.Strings.
unfoldable pub not_after : String → String → Bool
not_after nil t = true
not_after (cons c s) nil = false
not_after (cons c s) (cons d t) = ltb (code c) (code d) || char_eq c d && not_after s t

unfoldable pub insert_sorted : String → List String → List String
unfolding not_after
insert_sorted s [] = s ∷ []
insert_sorted s (t ∷ ts) = if not_after s t then s ∷ (t ∷ ts) else t ∷ insert_sorted s ts

-- sort.Strings
unfoldable pub sort : List String → List String
unfolding insert_sorted
sort [] = []
sort (s ∷ ts) = insert_sorted s (sort ts)
