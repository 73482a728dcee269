-- ===== src/Common/Texts.antt =====
-- Rust's `str` and `String`: equality, length in bytes, ASCII classes and case folding.
use Prim.Native.Nat.{ℕ, ◌+◌, ◌-◌}
use Prim.Native.Char.{code}
use Prim.Native.String.{String, len}
use mathlib.Core.Path.{◌≡◌, refl}
use mathlib.Core.Logic.{◌↔◌}
use mathlib.Core.Bool.{Bool, true, false, ◌&&◌, ◌||◌}
use mathlib.Core.Option.{Option, none, some}
use mathlib.Core.List.{List, [], ◌∷◌, map}
use native.Mathlib.Omega.{arith}
use text.Mathlib.Text.{◌==◌ as text_eq}
use text.Mathlib.TextEquality.{eq_iff}
use square_uni_fi_protect_in.Common.Tests.{leb, ◌==◌, if◌then◌else◌}

unfoldable pub str_eq : String → String → Bool
str_eq s t = text_eq s t

pub str_eq_iff : (s t : String) → (str_eq s t ≡ true) ↔ (s ≡ t)
unfolding str_eq
str_eq_iff s t = eq_iff s t

pub str_eq_refl : (s : String) → str_eq s s ≡ true
str_eq_refl s = (str_eq_iff s s).1 refl

pub str_eq_sym : (s t : String) → str_eq s t ≡ str_eq t s
str_eq_sym s t = ground (arith, str_eq_iff s t, str_eq_iff t s)

-- `str::len`, in bytes of UTF-8.
unfoldable pub str_len : String → ℕ
str_len s = len s

unfoldable pub str_is_empty : String → Bool
str_is_empty s = text_eq s ""

pub str_is_empty_iff : (s : String) → (str_is_empty s ≡ true) ↔ (s ≡ "")
unfolding str_is_empty
str_is_empty_iff s = eq_iff s ""

-- Equality of optional texts; a comparison with NULL in SQL is not true, see `opt_is`.
abbrev pub opt_eq : Option String → Option String → Bool
opt_eq none none = true
opt_eq none (some t) = false
opt_eq (some s) none = false
opt_eq (some s) (some t) = str_eq s t

-- `column = ?` in SQL, which is not true on NULL.
abbrev pub opt_is : Option String → String → Bool
opt_is none t = false
opt_is (some s) t = str_eq s t

pub opt_eq_iff : (a b : Option String) → (opt_eq a b ≡ true) ↔ (a ≡ b)
opt_eq_iff none none = ground arith
opt_eq_iff none (some t) = ground arith
opt_eq_iff (some s) none = ground arith
opt_eq_iff (some s) (some t) = ground (arith, str_eq_iff s t)

-- The code points of a text, Rust's `chars`.
abbrev pub codes : String → List ℕ
codes String.[] = []
codes (String.◌∷◌ c s) = code c ∷ codes s

abbrev pub codes_eq : List ℕ → List ℕ → Bool
codes_eq [] [] = true
codes_eq [] (d ∷ ds) = false
codes_eq (c ∷ cs) [] = false
codes_eq (c ∷ cs) (d ∷ ds) = c == d && codes_eq cs ds

-- `to_ascii_lowercase` and `to_ascii_uppercase` of one code point.
unfoldable pub to_lower : ℕ → ℕ
to_lower c = if leb b'A' c && leb c b'Z' then c + 32 else c

unfoldable pub to_upper : ℕ → ℕ
to_upper c = if leb b'a' c && leb c b'z' then c - 32 else c

unfoldable pub is_ascii_alphanumeric : ℕ → Bool
is_ascii_alphanumeric c =
    (leb b'0' c && leb c b'9') || (leb b'A' c && leb c b'Z') || (leb b'a' c && leb c b'z')

-- `eq_ignore_ascii_case`, and the `NOCASE` collation of SQLite.
unfoldable pub eq_ignore_ascii_case : String → String → Bool
unfolding to_lower
eq_ignore_ascii_case s t = codes_eq (map to_lower (codes s)) (map to_lower (codes t))

-- `UPPER(s) = t` of SQLite, which folds ASCII letters only.
unfoldable pub upper_is : String → String → Bool
unfolding to_upper
upper_is s t = codes_eq (map to_upper (codes s)) (codes t)
