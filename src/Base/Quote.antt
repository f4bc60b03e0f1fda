-- ===== src/Base/Quote.antt =====
-- `%q` of package fmt on a text (strconv.Quote). A code point beyond ASCII is taken as printable.
use Prim.Native.Nat.{ℕ, ◌/◌, ◌%◌}
use Prim.Native.Char.{Char, code}
use Prim.Native.String.{String, [], ◌∷◌}
use mathlib.Core.Bool.{◌||◌}
use apiserver.Base.Tests.{ltb, nat_eq, if◌then◌else◌}
use apiserver.Base.Text.{◌+s◌}

hex_digit : ℕ → String
hex_digit n =
    if ltb n 1
    then "0"
    else if ltb n 2
    then "1"
    else if ltb n 3
    then "2"
    else if ltb n 4
    then "3"
    else if ltb n 5
    then "4"
    else if ltb n 6
    then "5"
    else if ltb n 7
    then "6"
    else if ltb n 8
    then "7"
    else if ltb n 9
    then "8"
    else if ltb n 10
    then "9"
    else if ltb n 11
    then "a"
    else if ltb n 12
    then "b"
    else if ltb n 13
    then "c"
    else if ltb n 14
    then "d"
    else if ltb n 15
    then "e"
    else "f"

escape : Char → String
unfolding hex_digit
escape c =
    let n = code c in
    if nat_eq n 0x22
    then "\\\""
    else if nat_eq n 0x5c
    then "\\\\"
    else if nat_eq n 7
    then "\\a"
    else if nat_eq n 8
    then "\\b"
    else if nat_eq n 12
    then "\\f"
    else if nat_eq n 10
    then "\\n"
    else if nat_eq n 13
    then "\\r"
    else if nat_eq n 9
    then "\\t"
    else if nat_eq n 11
    then "\\v"
    else if ltb n 0x20 || nat_eq n 0x7f
    then "\\x" +s hex_digit (n / 16) +s hex_digit (n % 16)
    else c ∷ []

escape_all : String → String
unfolding escape
escape_all [] = []
escape_all (c ∷ s) = escape c +s escape_all s

unfoldable pub quote : String → String
unfolding escape_all
quote s = "\"" +s escape_all s +s "\""
