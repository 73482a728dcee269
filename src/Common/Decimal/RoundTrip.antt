-- ===== src/Common/Decimal/RoundTrip.antt =====
-- A number within i64 is read back from its decimal print.
use Prim.Native.Nat.{ℕ, zero, suc, ◌+◌, ◌-◌, ◌*◌, ◌/◌, ◌%◌, ◌<◌}
use Prim.Native.Char.{code}
use Prim.Native.String
use Prim.Native.String.{String}
use Prim.Native.String.append
use mathlib.Core.Path.{sym, ◌≡◌, refl, ap, ◌∙◌}
use mathlib.Core.Logic.{inl, inr}
use mathlib.Core.Bool.{true}
use mathlib.Core.Option.{Option, none, some}
use mathlib.Core.List.{List, [], ◌∷◌, ◌++◌}
use native.Mathlib.Omega.{arith}
use square_uni_fi_protect_in.Common.Tests.{ltb, leb, ◌==◌, Bool-cases, if◌then◌else◌}
use square_uni_fi_protect_in.Common.Int.{pos}
use square_uni_fi_protect_in.Common.Texts.{codes, str_is_empty, str_is_empty_iff}
use square_uni_fi_protect_in.Common.Decimal.{
  cast_digits, cast_integer, digit_text, decimal, to_string, is_digit, parse_digits,
  parse_magnitude, in_range_pos, in_range_neg, parse_codes, parse_i64, i64_max,
}

pub codes-append : (s t : String) → codes (String.◌++◌ s t) ≡ codes s ++ codes t
codes-append String.[] t = ap codes (append.nil t)
codes-append (String.◌∷◌ c s) t =
    ap codes (append.cons c s t) ∙ ap (λ rest. code c ∷ rest) (codes-append s t)

-- Reading on after a prefix that was read.
parse_digits-append :
    (acc v : ℕ) (cs ds : List ℕ)
    → parse_digits acc cs ≡ some v
    → parse_digits acc (cs ++ ds) ≡ parse_digits v ds
unfolding parse_digits
parse_digits-append acc v [] ds e = ground (arith, e)
parse_digits-append acc v (c ∷ cs) ds e = elim (Bool-cases (is_digit c)) [
  | inl d ↦ rw d (parse_digits-append (acc * 10 + (c - b'0')) v cs ds (ground (arith, e, d)))
  | inr d ↦ absurd (ground (arith, e, d))
]

parse_digits-digit :
    (acc d : ℕ) → d < 10 → parse_digits acc (codes (digit_text d)) ≡ some (acc * 10 + d)
unfolding parse_digits digit_text is_digit
parse_digits-digit acc zero h = ap some (omega arith)
parse_digits-digit acc (suc zero) h = ap some (omega arith)
parse_digits-digit acc (suc (suc zero)) h = ap some (omega arith)
parse_digits-digit acc (suc (suc (suc zero))) h = ap some (omega arith)
parse_digits-digit acc (suc (suc (suc (suc zero)))) h = ap some (omega arith)
parse_digits-digit acc (suc (suc (suc (suc (suc zero))))) h = ap some (omega arith)
parse_digits-digit acc (suc (suc (suc (suc (suc (suc zero)))))) h = ap some (omega arith)
parse_digits-digit acc (suc (suc (suc (suc (suc (suc (suc zero))))))) h = ap some (omega arith)
parse_digits-digit acc (suc (suc (suc (suc (suc (suc (suc (suc zero)))))))) h =
    ap some (omega arith)
parse_digits-digit acc (suc (suc (suc (suc (suc (suc (suc (suc (suc zero))))))))) h =
    ap some (omega arith)
parse_digits-digit acc (suc (suc (suc (suc (suc (suc (suc (suc (suc (suc d)))))))))) h =
    absurd (omega (arith, h))

parse_digits-decimal : (fuel n : ℕ) → n < fuel → parse_digits 0 (codes (decimal fuel n)) ≡ some n
unfolding decimal
parse_digits-decimal zero n h = absurd (omega (arith, h))
parse_digits-decimal (suc fuel) n h = elim (Bool-cases (ltb n 10)) [
  | inl small ↦ rw small (parse_digits-digit 0 n (ground (arith, small)) ∙ ap some (omega arith))
  | inr big ↦ rw big (
      ap (parse_digits 0) (codes-append (decimal fuel (n / 10)) (digit_text (n % 10)))
      ∙ parse_digits-append 0 (n / 10) (codes (decimal fuel (n / 10))) _
          (parse_digits-decimal fuel (n / 10) (ground (arith, big, h)))
      ∙ parse_digits-digit (n / 10) (n % 10) (omega arith)
      ∙ ap some (omega arith))
]

-- A printed number has a first digit.
first_digit :
    (cs : List ℕ) (n : ℕ)
    → parse_digits 0 cs ≡ some n
    → leb 1 n ≡ true
    → parse_codes cs ≡ in_range_pos (some n)
unfolding parse_codes parse_magnitude parse_digits is_digit
first_digit [] n e h = absurd (ground (arith, e, h))
first_digit (c ∷ cs) n e h = elim (Bool-cases (is_digit c)) [
  | inl d ↦ ground (arith, e, d)
  | inr d ↦ absurd (ground (arith, e, d))
]

pub parse_i64-to_string :
    (n : ℕ) → leb n i64_max ≡ true → parse_i64 (to_string (pos n)) ≡ some (pos n)
unfolding parse_i64 to_string parse_codes parse_magnitude parse_digits in_range_pos decimal
    digit_text is_digit
parse_i64-to_string zero h = refl
parse_i64-to_string (suc n) h =
    first_digit (codes (decimal (suc (suc n)) (suc n))) (suc n)
      (parse_digits-decimal (suc (suc n)) (suc n) (omega arith)) (ground arith)
    ∙ unfold in_range_pos in rw h refl

pub to_string-bit : (to_string (pos 0) ≡ "0") × (to_string (pos 1) ≡ "1")
unfolding to_string decimal digit_text
to_string-bit = (refl, refl)

-- A number that is read lies within i64.
in_range_pos-le : (o : Option ℕ) (n : ℕ) → in_range_pos o ≡ some (pos n) → leb n i64_max ≡ true
unfolding in_range_pos
in_range_pos-le none n e = absurd (cc)
in_range_pos-le (some m) n e = elim (Bool-cases (leb m i64_max)) [
  | inl h ↦ ground (arith, e, h)
  | inr h ↦ absurd (ground (arith, e, h))
]

in_range_neg-le : (o : Option ℕ) (n : ℕ) → in_range_neg o ≡ some (pos n) → leb n i64_max ≡ true
unfolding in_range_neg
in_range_neg-le none n e = absurd (cc)
in_range_neg-le (some zero) n e = ground (arith, e)
in_range_neg-le (some (suc m)) n e = absurd (ground (arith, e))

parse_codes-le : (cs : List ℕ) (n : ℕ) → parse_codes cs ≡ some (pos n) → leb n i64_max ≡ true
unfolding parse_codes
parse_codes-le [] n e = absurd (cc)
parse_codes-le (c ∷ cs) n e = elim (Bool-cases (c == b'-')) [
  | inl minus ↦ in_range_neg-le (parse_magnitude cs) n (rw minus at e)
  | inr other ↦ elim (Bool-cases (c == b'+')) [
    | inl plus ↦ in_range_pos-le (parse_magnitude cs) n (rw (other, plus) at e)
    | inr digit ↦ in_range_pos-le (parse_magnitude (c ∷ cs)) n (rw (other, digit) at e)
  ]
]

pub parse_i64-le : (s : String) (n : ℕ) → parse_i64 s ≡ some (pos n) → leb n i64_max ≡ true
unfolding parse_i64
parse_i64-le s n e = parse_codes-le (codes s) n e

cast_digits-parse :
    (acc n : ℕ) (cs : List ℕ) → parse_digits acc cs ≡ some n → cast_digits acc cs ≡ n
unfolding parse_digits cast_digits
cast_digits-parse acc n [] e = ground (arith, e)
cast_digits-parse acc n (c ∷ cs) e = elim (Bool-cases (is_digit c)) [
  | inl d ↦ rw d (cast_digits-parse (acc * 10 + (c - b'0')) n cs (ground (arith, e, d)))
  | inr d ↦ absurd (ground (arith, e, d))
]

cast_integer-parse :
    (cs : List ℕ) (n : ℕ) → parse_digits 0 cs ≡ some n → leb 1 n ≡ true → cast_integer cs ≡ pos n
unfolding cast_integer parse_digits is_digit
cast_integer-parse [] n e h = absurd (ground (arith, e, h))
cast_integer-parse (c ∷ cs) n e h =
    let read = cast_digits-parse 0 n (c ∷ cs) (unfold parse_digits in e) in
    elim (Bool-cases (is_digit c)) [
      | inl d ↦ ground (arith, e, d, read)
      | inr d ↦ absurd (ground (arith, e, d))
    ]

-- SQL reads a printed number back, too.
pub cast_integer-to_string : (n : ℕ) → cast_integer (codes (to_string (pos n))) ≡ pos n
unfolding to_string cast_integer decimal digit_text is_digit cast_digits
cast_integer-to_string zero = refl
cast_integer-to_string (suc n) =
    cast_integer-parse (codes (decimal (suc (suc n)) (suc n))) (suc n)
      (parse_digits-decimal (suc (suc n)) (suc n) (omega arith)) (ground arith)

-- An empty text stands for zero either way.
pub cast_integer-default :
    (s : String) → cast_integer (codes (if str_is_empty s then "0" else s)) ≡ cast_integer (codes s)
unfolding cast_integer cast_digits is_digit
cast_integer-default s = elim (Bool-cases (str_is_empty s)) [
  | inl e ↦ rw e (ap (λ t. cast_integer (codes t)) (sym ((str_is_empty_iff s).0 e)))
  | inr e ↦ rw e refl
]
