-- ===== src/Python/Text.antt =====
-- The text operations that the scripts make.
pub mod Lines
use Prim.Native.Nat.{◌/◌, ◌%◌}
use Prim.Native.Char.{Char, code}
use Prim.Native.String.{◌++◌ as ◌<>◌}
use kube_delivery_platform.Prelude.{
  ltb, ℕ, zero, suc, String, Bool, false, not, ◌&&◌, ◌||◌, Option, none, some, List, [], ◌∷◌, eqb,
  leb, if◌then◌else◌, ◌+◌, true, ◌==◌,
}

-- The line boundaries of `str.splitlines`.
unfoldable pub is_break : Char → Bool
is_break c =
    let n = code c in
    (leb 10 n && leb n 13) || (leb 28 n && leb n 30) || eqb n 133 || (leb 8232 n && leb n 8233)

abbrev pub cons_head : Char → List String → List String
cons_head c [] = String.◌∷◌ c String.[] ∷ []
cons_head c (line ∷ lines) = String.◌∷◌ c line ∷ lines

-- `text.splitlines()`. The flag says that the character before was a carriage return, whose line
-- feed belongs to the same boundary.
unfoldable pub split_from : Bool → String → List String
split_from cr String.[] = []
split_from cr (String.◌∷◌ c s) =
    let skip = cr && eqb (code c) 10 in
    let rest = split_from (not skip && eqb (code c) 13) s in
    if skip then rest else if is_break c then "" ∷ rest else cons_head c rest

unfoldable pub splitlines : String → List String
splitlines = split_from false

-- `sep.join(texts)`
unfoldable pub join : String → List String → String
join sep [] = ""
join sep (t ∷ []) = t
join sep (t ∷ u ∷ rest) = t <> (sep <> join sep (u ∷ rest))

-- Every line with its line feed.
unfoldable pub unlines : List String → String
unlines [] = ""
unlines (line ∷ lines) = line <> ("\n" <> unlines lines)

-- `text[:n]`
unfoldable pub prefix : ℕ → String → String
prefix zero s = ""
prefix (suc n) String.[] = ""
prefix (suc n) (String.◌∷◌ c s) = String.◌∷◌ c (prefix n s)

-- What follows `lead` in a text that begins with it.
unfoldable pub after_prefix : String → String → Option String
after_prefix String.[] s = some s
after_prefix (String.◌∷◌ c lead) String.[] = none
after_prefix (String.◌∷◌ c lead) (String.◌∷◌ d s) =
    let rest = after_prefix lead s in if eqb (code c) (code d) then rest else none

-- A character's number, in lower case for an ASCII letter.
unfoldable pub lower_code : Char → ℕ
lower_code c = let n = code c in if leb b'A' n && leb n b'Z' then n + 32 else n

-- `text.lower() == name` for a name in ASCII. No other letter has a lower case that is in ASCII, but
-- for the Kelvin sign, whose lower case is k: `name` holds no k.
unfoldable pub lower_is : String → String → Bool
lower_is String.[] String.[] = true
lower_is String.[] (String.◌∷◌ c s) = false
lower_is (String.◌∷◌ d name) String.[] = false
lower_is (String.◌∷◌ d name) (String.◌∷◌ c s) = eqb (code d) (lower_code c) && lower_is name s

-- `str.isspace`
unfoldable pub is_space : Char → Bool
is_space c =
    let n = code c in
    (leb 9 n && leb n 13)
    || (leb 28 n && leb n 32)
    || eqb n 133
    || eqb n 160
    || eqb n 5760
    || (leb 8192 n && leb n 8202)
    || (leb 8232 n && leb n 8233)
    || eqb n 8239
    || eqb n 8287
    || eqb n 12288

unfoldable pub lstrip : String → String
lstrip String.[] = ""
lstrip (String.◌∷◌ c s) = let rest = lstrip s in if is_space c then rest else String.◌∷◌ c s

unfoldable pub rstrip : String → String
rstrip String.[] = ""
rstrip (String.◌∷◌ c s) =
    let rest = rstrip s in if is_space c && (rest == "") then "" else String.◌∷◌ c rest

unfoldable pub strip : String → String
strip s = rstrip (lstrip s)

unfoldable pub digit : ℕ → String
digit n =
    if eqb n 0
    then "0"
    else if eqb n 1
    then "1"
    else if eqb n 2
    then "2"
    else if eqb n 3
    then "3"
    else if eqb n 4
    then "4"
    else if eqb n 5
    then "5"
    else if eqb n 6
    then "6"
    else if eqb n 7
    then "7"
    else if eqb n 8
    then "8"
    else "9"

-- `str(n)`. A number has fewer digits than its successor counts.
unfoldable pub decimal_from : ℕ → ℕ → String
decimal_from zero n = digit (n % 10)
decimal_from (suc fuel) n =
    let higher = decimal_from fuel (n / 10) in
    if ltb n 10 then digit n else higher <> digit (n % 10)

unfoldable pub decimal : ℕ → String
decimal n = decimal_from n n
