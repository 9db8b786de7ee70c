-- ===== src/Prelude/Text.antt =====
-- The functions of Go's packages `strings` and `strconv` that the program calls, over native texts.
-- Case mapping covers the letters of ASCII, and white space is that of ASCII.
use Prim.Native.Nat.{ℕ, zero, suc, ◌+◌, ◌-◌, ◌*◌, ◌/◌, ◌%◌, ◌^◌, ◌<◌}
use Prim.Native.Char.{Char, code}
use Prim.Native.String.{String, len, slice, char_at, ◌++◌}
use mathlib.Core.Bool.{Bool, true, false, ◌&&◌, ◌||◌}
use mathlib.Core.Option.{Option, none, some}
use mathlib.Core.List.{List, [], ◌∷◌}
use mathlib.Core.Path.{◌≡◌}
use mathlib.Core.Logic.{◌≢◌}
use native.Mathlib.Omega.{arith}
use text.Mathlib.TextEquality.{eq_iff}
use text.Mathlib.Text.{◌==◌, starts_with, find?}
use pentameter.Prelude.Tests.{ltb, leb, eqb, if◌then◌else◌}
use pentameter.Prelude.Int.{ℤ, pos, negsuc}

-- `strings.HasPrefix(s, t)`
abbrev pub has_prefix : String → String → Bool
has_prefix s t = starts_with s t

-- `strings.HasSuffix(s, t)`
abbrev pub has_suffix : String → String → Bool
has_suffix s t = leb (len t) (len s) && (slice s (len s - len t) (len s) == t)

-- `strings.Contains(s, t)`
abbrev pub contains : String → String → Bool
contains s t = elim (find? s t) [ none ↦ false | some i ↦ true ]

abbrev is_upper : ℕ → Bool
is_upper c = leb b'A' c && leb c b'Z'

abbrev is_lower : ℕ → Bool
is_lower c = leb b'a' c && leb c b'z'

lower_char : Char → Char
lower_char c = if is_upper (code c) then char_at "abcdefghijklmnopqrstuvwxyz" (code c - b'A') else c

upper_char : Char → Char
upper_char c = if is_lower (code c) then char_at "ABCDEFGHIJKLMNOPQRSTUVWXYZ" (code c - b'a') else c

-- `strings.ToLower`
unfoldable pub to_lower : String → String
unfolding lower_char
to_lower String.[] = String.[]
to_lower (String.◌∷◌ c s) = String.◌∷◌ (lower_char c) (to_lower s)

-- `strings.ToUpper`
unfoldable pub to_upper : String → String
unfolding upper_char
to_upper String.[] = String.[]
to_upper (String.◌∷◌ c s) = String.◌∷◌ (upper_char c) (to_upper s)

abbrev pub is_space : ℕ → Bool
is_space c = eqb c 32 || (leb 9 c && leb c 13)

-- `strings.Fields`: the runs of characters that are not white space.
fields_from : String → String → List String
fields_from word String.[] = if word == "" then [] else word ∷ []
fields_from word (String.◌∷◌ c s) =
    let here = fields_from "" s in
    let further = fields_from (word ++ (String.◌∷◌ c String.[])) s in
    if is_space (code c) then (if word == "" then here else word ∷ here) else further

unfoldable pub fields : String → List String
unfolding fields_from
fields = fields_from ""

trim_left : String → String
trim_left String.[] = String.[]
trim_left (String.◌∷◌ c s) =
    let rest = trim_left s in if is_space (code c) then rest else String.◌∷◌ c s

trim_right : String → String
trim_right String.[] = String.[]
trim_right (String.◌∷◌ c s) =
    let rest = trim_right s in
    if is_space (code c) && (rest == "") then String.[] else String.◌∷◌ c rest

-- `strings.TrimSpace`
unfoldable pub trim_space : String → String
unfolding trim_left trim_right
trim_space s = trim_right (trim_left s)

-- The digits of a number, the last ones first in `tail`; the fuel bounds their count.
digits : ℕ → ℕ → String → String
digits zero n tail = tail
digits (suc fuel) n tail =
    let text = slice "0123456789" (n % 10) (n % 10 + 1) ++ tail in
    let rest = digits fuel (n / 10) text in if ltb n 10 then text else rest

-- `strconv.Itoa`; a 64-bit integer has at most 19 digits.
unfoldable pub itoa : ℤ → String
unfolding digits
itoa (pos n) = digits 20 n ""
itoa (negsuc n) = "-" ++ digits 20 (n + 1) ""

digit_value : Char → Option ℕ
digit_value c = if leb b'0' (code c) && leb (code c) b'9' then some (code c - b'0') else none

-- Reading stops at the first digit that leaves the range of `uint64`, as in `ParseUint`.
decimal_from : ℕ → String → Option ℕ
decimal_from acc String.[] = some acc
decimal_from acc (String.◌∷◌ c s) =
    let next : ℕ = acc * 10 + (code c - b'0') in
    let rest = decimal_from next s in
    elim (digit_value c) [ none ↦ none | some d ↦ if ltb next (2 ^ 64) then rest else some next ]

decimal : String → Option ℕ
decimal s = if s == "" then none else decimal_from 0 s

abbrev pub in_range : ℕ → Option ℕ → Option ℕ
in_range bits none = none
in_range bits (some n) = if ltb n (2 ^ bits) then some n else none

-- `strconv.ParseUint(s, 10, bits)` for at most 64 bits, where its error is nil.
unfoldable pub parse_uint : ℕ → String → Option ℕ
unfolding digit_value decimal_from decimal
parse_uint bits s = in_range bits (decimal s)

pub parse_uint-lt : (bits : ℕ) (s : String) (n : ℕ) → parse_uint bits s ≡ some n → n < 2 ^ bits
unfolding parse_uint
parse_uint-lt bits s n h = lt_of_in_range (decimal s) h
  where
    lt_of_in_range : (o : Option ℕ) → in_range bits o ≡ some n → n < 2 ^ bits
    lt_of_in_range none h = cc
    lt_of_in_range (some m) h = ground (arith, h)

-- `strings.EqualFold`
abbrev pub equal_fold : String → String → Bool
equal_fold s t = to_lower s == to_lower t

-- A magnitude in the range of `int`; beyond it `Atoi` fails, and its value is the nearest bound.
clamp_int : Bool → Option ℕ → ℤ × Bool
clamp_int negative none = (pos 0, false)
clamp_int false (some n) = if ltb n (2 ^ 63) then (pos n, true) else (pos (2 ^ 63 - 1), false)
clamp_int true (some zero) = (pos 0, true)
clamp_int true (some (suc n)) =
    if ltb n (2 ^ 63) then (negsuc n, true) else (negsuc (2 ^ 63 - 1), false)

-- `strconv.Atoi`: the value, and whether the error is nil.
unfoldable pub atoi : String → ℤ × Bool
unfolding digit_value decimal_from decimal clamp_int
atoi s =
    if has_prefix s "-"
    then clamp_int true (decimal (slice s 1 (len s)))
    else if has_prefix s "+"
    then clamp_int false (decimal (slice s 1 (len s)))
    else clamp_int false (decimal s)

-- Texts that the test tells apart are different.
pub ne_of_test : (s t : String) → (s == t) ≡ false → s ≢ t
ne_of_test s t h same = ground (arith, eq_iff s t, same)
