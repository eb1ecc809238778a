-- ===== src/Common/Text.antt =====
-- What the program takes from Go's `strings` and `strconv`.
pub mod Digits
use Prim.Native.Nat.{ℕ, zero, suc, ◌+◌, ◌-◌, ◌*◌, ◌/◌, ◌%◌, ◌^◌}
use mathlib.Core.Path.{◌≡◌, refl}
use mathlib.Core.Option.{Option, none, some}
use Prim.Native.Char.{Char, code}
use Prim.Native.String.{String}
use mathlib.Core.Bool.{Bool, true, false, ◌&&◌, ◌||◌}
use Prim.Native.String.{◌++◌ as concat}
use mathlib.Core.List.{List, [], ◌∷◌, ◌++◌}
use request_system.Common.Tests.{leb, ltb, ◌==◌, if◌then◌else◌}

-- `unicode.IsSpace`.
abbrev pub is_space : ℕ → Bool
is_space c =
    (leb 9 c && leb c 13)
    || c == 32
    || c == 0x85
    || c == 0xA0
    || c == 0x1680
    || (leb 0x2000 c && leb c 0x200A)
    || c == 0x2028
    || c == 0x2029
    || c == 0x202F
    || c == 0x205F
    || c == 0x3000

abbrev pub is_empty : String → Bool
is_empty String.[] = true
is_empty (String.◌∷◌ c s) = false

pub trim_left : String → String
trim_left String.[] = String.[]
trim_left (String.◌∷◌ c s) =
    let rest = trim_left s in if is_space (code c) then rest else String.◌∷◌ c s

pub trim_right : String → String
trim_right String.[] = String.[]
trim_right (String.◌∷◌ c s) =
    let rest = trim_right s in
    if is_empty rest && is_space (code c) then String.[] else String.◌∷◌ c rest

-- `strings.TrimSpace`.
unfoldable pub trim_space : String → String
unfolding trim_left trim_right
trim_space s = trim_right (trim_left s)

-- `strings.Split` by a one-byte separator; `current` is the part read so far.
pub prefix_first : Char → List String → List String
prefix_first c [] = String.◌∷◌ c String.[] ∷ []
prefix_first c (part ∷ rest) = String.◌∷◌ c part ∷ rest

unfoldable pub split_on : ℕ → String → List String
unfolding prefix_first
split_on sep String.[] = String.[] ∷ []
split_on sep (String.◌∷◌ c s) =
    let rest = split_on sep s in if code c == sep then String.[] ∷ rest else prefix_first c rest

-- The code points of a text.
abbrev pub codes : String → List ℕ
codes String.[] = []
codes (String.◌∷◌ c s) = code c ∷ codes s

-- `strings.ToLower` on one code point, as far as a comparison with an ASCII text can tell: the
-- capitals of ASCII, and the two others whose lower case is an ASCII letter. Every other code
-- point above 127 stays above 127 in Go too, and is left as it is here.
abbrev pub to_lower_code : ℕ → ℕ
to_lower_code c =
    if leb b'A' c && leb c b'Z'
    then c + 32
    else if c == 0x212A
    then b'k'
    else if c == 0x130
    then b'i'
    else c

abbrev pub to_lower : List ℕ → List ℕ
to_lower [] = []
to_lower (c ∷ s) = to_lower_code c ∷ to_lower s

abbrev pub codes_eq : List ℕ → List ℕ → Bool
codes_eq [] [] = true
codes_eq [] (d ∷ t) = false
codes_eq (c ∷ s) [] = false
codes_eq (c ∷ s) (d ∷ t) = c == d && codes_eq s t

-- `strings.HasPrefix s p`.
abbrev pub has_prefix : List ℕ → List ℕ → Bool
has_prefix s [] = true
has_prefix [] (d ∷ p) = false
has_prefix (c ∷ s) (d ∷ p) = c == d && has_prefix s p

-- `strings.Contains s p`.
abbrev pub contains : List ℕ → List ℕ → Bool
contains [] p = has_prefix [] p
contains (c ∷ s) p = has_prefix (c ∷ s) p || contains s p

digit : ℕ → Char
digit n =
    if n == 0
    then "0"
    else if n == 1
    then "1"
    else if n == 2
    then "2"
    else if n == 3
    then "3"
    else if n == 4
    then "4"
    else if n == 5
    then "5"
    else if n == 6
    then "6"
    else if n == 7
    then "7"
    else if n == 8
    then "8"
    else "9"

-- `strconv.FormatUint(n, 10)`. A uint64 has at most twenty digits, which is the fuel.
format_digits : ℕ → ℕ → String → String
format_digits zero n s = s
format_digits (suc fuel) n s =
    let more = format_digits fuel (n / 10) (String.◌∷◌ (digit (n % 10)) s) in
    if n / 10 == 0 then String.◌∷◌ (digit n) s else more

unfoldable pub format_uint : ℕ → String
unfolding format_digits digit
format_uint n = format_digits 20 n String.[]

-- `strconv.ParseUint(s, 10, 64)`, its error as `none`.
parse_digits : ℕ → String → Option ℕ
parse_digits acc String.[] = some acc
parse_digits acc (String.◌∷◌ c s) =
    let rest = parse_digits (acc * 10 + (code c - b'0')) s in
    if leb b'0' (code c) && leb (code c) b'9' && ltb (acc * 10 + (code c - b'0')) (2 ^ 64)
    then rest
    else none

unfoldable pub parse_uint : String → Option ℕ
unfolding parse_digits
parse_uint s = if is_empty s then none else parse_digits 0 s

format_then_parse : parse_uint (format_uint 10456) ≡ some 10456
unfolding parse_uint format_uint
format_then_parse = refl

-- `FormatSecondsToHumanReadable` of pkg/utils/time_helpers.go.
abbrev part_if : Bool → ℕ → String → List String
part_if true n suffix = concat (format_uint n) suffix ∷ []
part_if false n suffix = []

abbrev no_parts : List String → Bool
no_parts [] = true
no_parts (p ∷ ps) = false

-- `strings.Join(parts, separator)`.
abbrev pub join : String → List String → String
join separator [] = ""
join separator (a ∷ []) = a
join separator (a ∷ b ∷ rest) = concat a (concat separator (join separator (b ∷ rest)))

unfoldable pub format_seconds_to_human_readable : ℕ → String
unfolding format_uint
format_seconds_to_human_readable total =
    let days = total / 86400 in
    let in_day = total % 86400 in
    let hours = in_day / 3600 in
    let in_hour = in_day % 3600 in
    let minutes = in_hour / 60 in
    let seconds = in_hour % 60 in
    let parts =
      part_if (ltb 0 days) days "д"
      ++ part_if (ltb 0 hours) hours "ч"
      ++ part_if (ltb 0 minutes) minutes "м" in
    if total == 0
    then "0с"
    else join " " (parts ++ part_if (ltb 0 seconds || no_parts parts) seconds "с")

format_day : format_seconds_to_human_readable 93784 ≡ "1д 2ч 3м 4с"
unfolding format_seconds_to_human_readable
format_day = refl
