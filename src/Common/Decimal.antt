-- ===== src/Common/Decimal.antt =====
-- Rust's `to_string` and `parse::<i64>` on decimal texts.
pub mod RoundTrip
use Prim.Native.Nat.{ℕ, zero, suc, ◌+◌, ◌-◌, ◌*◌, ◌/◌, ◌%◌}
use Prim.Native.String.{String, ◌++◌}
use mathlib.Core.Bool.{Bool, ◌&&◌}
use mathlib.Core.Option.{Option, none, some}
use mathlib.Core.List.{List, [], ◌∷◌}
use square_uni_fi_protect_in.Common.Tests.{ltb, leb, ◌==◌, if◌then◌else◌}
use square_uni_fi_protect_in.Common.Int.{ℤ, pos, negsuc, sub_ℕ}
use square_uni_fi_protect_in.Common.Texts.{codes}

digit_text : ℕ → String
digit_text d =
    if d == 0
    then "0"
    else if d == 1
    then "1"
    else if d == 2
    then "2"
    else if d == 3
    then "3"
    else if d == 4
    then "4"
    else if d == 5
    then "5"
    else if d == 6
    then "6"
    else if d == 7
    then "7"
    else if d == 8
    then "8"
    else "9"

-- The fuel bounds the number of digits; `n + 1` is enough.
decimal : ℕ → ℕ → String
unfolding digit_text
decimal zero n = ""
decimal (suc fuel) n =
    let rest = decimal fuel (n / 10) in
    if ltb n 10 then digit_text n else rest ++ digit_text (n % 10)

unfoldable pub to_string : ℤ → String
unfolding decimal
to_string (pos n) = decimal (suc n) n
to_string (negsuc n) = "-" ++ decimal (suc (suc n)) (suc n)

unfoldable pub is_digit : ℕ → Bool
is_digit c = leb b'0' c && leb c b'9'

parse_digits : ℕ → List ℕ → Option ℕ
unfolding is_digit
parse_digits acc [] = some acc
parse_digits acc (c ∷ cs) =
    let rest = parse_digits (acc * 10 + (c - b'0')) cs in if is_digit c then rest else none

abbrev pub i64_max : ℕ
i64_max = 9_223_372_036_854_775_807

-- A magnitude, with at least one digit.
parse_magnitude : List ℕ → Option ℕ
unfolding parse_digits
parse_magnitude [] = none
parse_magnitude (c ∷ cs) = parse_digits 0 (c ∷ cs)

in_range_pos : Option ℕ → Option ℤ
in_range_pos none = none
in_range_pos (some n) = if leb n i64_max then some (pos n) else none

in_range_neg : Option ℕ → Option ℤ
in_range_neg none = none
in_range_neg (some zero) = some (pos 0)
in_range_neg (some (suc n)) = if leb n i64_max then some (negsuc n) else none

parse_codes : List ℕ → Option ℤ
unfolding parse_magnitude in_range_pos in_range_neg
parse_codes [] = none
parse_codes (c ∷ cs) =
    if c == b'-'
    then in_range_neg (parse_magnitude cs)
    else if c == b'+'
    then in_range_pos (parse_magnitude cs)
    else in_range_pos (parse_magnitude (c ∷ cs))

unfoldable pub parse_i64 : String → Option ℤ
unfolding parse_codes
parse_i64 s = parse_codes (codes s)

-- The digits at the front of a text.
unfoldable pub cast_digits : ℕ → List ℕ → ℕ
unfolding is_digit
cast_digits acc [] = acc
cast_digits acc (c ∷ cs) =
    let rest = cast_digits (acc * 10 + (c - b'0')) cs in if is_digit c then rest else acc

-- SQL's CAST(text AS INTEGER), for a text that does not begin with white space.
unfoldable pub cast_integer : List ℕ → ℤ
unfolding cast_digits
cast_integer [] = pos 0
cast_integer (c ∷ cs) =
    if c == b'-'
    then sub_ℕ 0 (cast_digits 0 cs)
    else if c == b'+'
    then pos (cast_digits 0 cs)
    else pos (cast_digits 0 (c ∷ cs))
