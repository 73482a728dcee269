-- ===== src/Common/Folding.antt =====
-- Rust's `eq_ignore_ascii_case` and SQLite's `UPPER` agree on texts of capital letters.
use Prim.Native.Nat.{ℕ, ◌≤◌}
use Prim.Native.String.{String}
use mathlib.Core.Path.{◌≡◌, refl, ap₂}
use mathlib.Core.Bool.{◌&&◌}
use mathlib.Core.List.{List, [], ◌∷◌, map}
use native.Mathlib.Omega.{arith}
use square_uni_fi_protect_in.Common.Tests.{◌==◌}
use square_uni_fi_protect_in.Common.Lists.{All}
use square_uni_fi_protect_in.Common.Texts.{
  codes, codes_eq, to_lower, to_upper, eq_ignore_ascii_case, upper_is,
}

abbrev pub IsCapital : ℕ → Type 0
IsCapital d = (65 ≤ d) × (d ≤ 90)

fold_char : (c d : ℕ) → IsCapital d → (to_lower c == to_lower d) ≡ (to_upper c == d)
unfolding to_lower to_upper
fold_char c d h = ground arith

fold_codes :
    (cs ds : List ℕ)
    → All IsCapital ds
    → codes_eq (map to_lower cs) (map to_lower ds) ≡ codes_eq (map to_upper cs) ds
fold_codes [] [] h = refl
fold_codes [] (d ∷ ds) h = refl
fold_codes (c ∷ cs) [] h = refl
fold_codes (c ∷ cs) (d ∷ ds) h = ap₂ ◌&&◌ (fold_char c d h.0) (fold_codes cs ds h.1)

pub eq_ignore-upper_is :
    (s t : String) → All IsCapital (codes t) → eq_ignore_ascii_case s t ≡ upper_is s t
unfolding eq_ignore_ascii_case upper_is
eq_ignore-upper_is s t h = fold_codes (codes s) (codes t) h
