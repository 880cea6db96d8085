-- ===== src/Prelude/Text.antt =====
-- The functions of Go's `strings` and `fmt` that the program uses, over the native texts.
use Prim.Native.Nat.{ℕ, zero, suc, ◌/◌, ◌%◌}
use Prim.Native.Char.{Char, code}
use Prim.Native.String.{String, ◌++◌ as text_append}
use mathlib.Core.Bool.{Bool, true, false, ◌&&◌, ◌||◌}
use mathlib.Core.List.{List, [], ◌∷◌}
use mathlib.Core.Option.{Option, none, some}
use text.Mathlib.Text.{◌==◌ as text_eq, starts_with, find?}
use atlas_operator.Prelude.Tests.{◌==◌, leb, ltb, if◌then◌else◌}

-- s == t
abbrev pub str_eq : String → String → Bool
str_eq s t = text_eq s t

-- The concatenation of the parts, for `+` and `fmt.Sprintf`.
abbrev pub concat : List String → String
concat [] = ""
concat (s ∷ ss) = text_append s (concat ss)

-- strings.Join
abbrev pub join : List String → String → String
join [] sep = ""
join (s ∷ []) sep = s
join (s ∷ t ∷ ts) sep = text_append s (text_append sep (join (t ∷ ts) sep))

-- strings.Contains
abbrev pub contains : String → String → Bool
contains s t = elim (find? s t) [ none ↦ false | some i ↦ true ]

-- strings.HasPrefix
abbrev pub has_prefix : String → String → Bool
has_prefix s t = starts_with s t

-- The code points that `unicode.IsSpace` accepts.
abbrev is_space : ℕ → Bool
is_space c =
    (leb 9 c && leb c 13)
    || c == 0x20
    || c == 0x85
    || c == 0xa0
    || c == 0x1680
    || (leb 0x2000 c && leb c 0x200a)
    || c == 0x2028
    || c == 0x2029
    || c == 0x202f
    || c == 0x205f
    || c == 0x3000

trim_left : String → String
trim_left String.[] = String.[]
trim_left (String.◌∷◌ c s) = if is_space (code c) then trim_left s else String.◌∷◌ c s

trim_right : String → String
trim_right String.[] = String.[]
trim_right (String.◌∷◌ c s) =
    let rest = trim_right s in
    if text_eq rest "" && is_space (code c) then String.[] else String.◌∷◌ c rest

-- strings.TrimSpace
unfoldable pub trim_space : String → String
unfolding trim_left trim_right
trim_space s = trim_right (trim_left s)

-- cmp.Or on two texts: the first that is not empty.
abbrev pub or_text : String → String → String
or_text s t = if str_eq s "" then t else s

abbrev digit : ℕ → String
digit n =
    if n == 0
    then "0"
    else if n == 1
    then "1"
    else if n == 2
    then "2"
    else if n == 3
    then "3"
    else if n == 4
    then "4"
    else if n == 5
    then "5"
    else if n == 6
    then "6"
    else if n == 7
    then "7"
    else if n == 8
    then "8"
    else "9"

-- The decimal digits of a number, with as much fuel as the number.
digits_of : ℕ → ℕ → String → String
digits_of zero n acc = acc
digits_of (suc f) n acc =
    let rest = digits_of f (n / 10) (text_append (digit (n % 10)) acc) in
    if ltb n 10 then text_append (digit n) acc else rest

-- The verb %d of a number that is not negative.
unfoldable pub decimal : ℕ → String
unfolding digits_of
decimal n = digits_of (suc n) n ""

-- The letters whose lower case is ASCII: A to Z, and the two other code points of which
-- `unicode.ToLower` makes an ASCII letter.
abbrev lower_table : List (ℕ × Char)
lower_table =
    (0x41, "a")
    ∷ (0x42, "b")
    ∷ (0x43, "c")
    ∷ (0x44, "d")
    ∷ (0x45, "e")
    ∷ (0x46, "f")
    ∷ (0x47, "g")
    ∷ (0x48, "h")
    ∷ (0x49, "i")
    ∷ (0x4a, "j")
    ∷ (0x4b, "k")
    ∷ (0x4c, "l")
    ∷ (0x4d, "m")
    ∷ (0x4e, "n")
    ∷ (0x4f, "o")
    ∷ (0x50, "p")
    ∷ (0x51, "q")
    ∷ (0x52, "r")
    ∷ (0x53, "s")
    ∷ (0x54, "t")
    ∷ (0x55, "u")
    ∷ (0x56, "v")
    ∷ (0x57, "w")
    ∷ (0x58, "x")
    ∷ (0x59, "y")
    ∷ (0x5a, "z")
    ∷ (0x130, "i")
    ∷ (0x212a, "k")
    ∷ []

lower_char : List (ℕ × Char) → Char → Char
lower_char [] c = c
lower_char ((n, d) ∷ rest) c = if code c == n then d else lower_char rest c

-- strings.ToLower, as far as a comparison with an ASCII text sees it.
unfoldable pub to_lower : String → String
unfolding lower_char
to_lower String.[] = String.[]
to_lower (String.◌∷◌ c s) = String.◌∷◌ (lower_char lower_table c) (to_lower s)

-- strings.SplitN(s, sep, 2)[0], where sep is one character.
unfoldable pub before : ℕ → String → String
before sep String.[] = String.[]
before sep (String.◌∷◌ c s) =
    let rest = before sep s in if code c == sep then String.[] else String.◌∷◌ c rest

-- How often a character occurs: one less than the parts of `strings.Split`.
unfoldable pub occurrences : ℕ → String → ℕ
occurrences sep String.[] = 0
occurrences sep (String.◌∷◌ c s) =
    if code c == sep then suc (occurrences sep s) else occurrences sep s

-- strings.Lines: each line with its line break.
unfoldable pub lines : String → List String
lines String.[] = []
lines (String.◌∷◌ c s) =
    let rest = lines s in
    if code c == 10
    then "\n" ∷ rest
    else elim rest [ [] ↦ String.◌∷◌ c String.[] ∷ [] | l ∷ ls ↦ String.◌∷◌ c l ∷ ls ]

-- What stands behind a prefix.
behind : String → String → Option String
behind s String.[] = some s
behind String.[] (String.◌∷◌ d p) = none
behind (String.◌∷◌ c s) (String.◌∷◌ d p) =
    let rest = behind s p in if code c == code d then rest else none

-- strings.TrimPrefix
unfoldable pub trim_prefix : String → String → String
unfolding behind
trim_prefix s p = elim (behind s p) [ none ↦ s | some rest ↦ rest ]

skip_left : ℕ → String → String
skip_left k String.[] = String.[]
skip_left k (String.◌∷◌ c s) =
    let rest = skip_left k s in if code c == k then rest else String.◌∷◌ c s

skip_right : ℕ → String → String
skip_right k String.[] = String.[]
skip_right k (String.◌∷◌ c s) =
    let rest = skip_right k s in
    if text_eq rest "" && code c == k then String.[] else String.◌∷◌ c rest

-- strings.Trim(s, cutset), where cutset is one character.
unfoldable pub trim_char : ℕ → String → String
unfolding skip_left skip_right
trim_char k s = skip_right k (skip_left k s)
