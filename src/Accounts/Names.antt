-- ===== src/Accounts/Names.antt =====
-- src/store.rs: `normalize_username`.
use Prim.Native.String.{String}
use square_uni_fi_protect_in.Common.{
  ℕ, trim, Bool, false, not, ◌&&◌, ◌||◌, List, [], ◌∷◌, leb, ◌==◌, all, codes, str_len,
  is_ascii_alphanumeric, AppResult, ok, unprocessable, refuse_if, ◌>>◌,
}

abbrev pub is_username_char : ℕ → Bool
is_username_char c = is_ascii_alphanumeric c || c == b'.' || c == b'-' || c == b'_'

-- The first of `chars()` is a letter or a digit.
abbrev pub starts_well : List ℕ → Bool
starts_well [] = false
starts_well (c ∷ cs) = is_ascii_alphanumeric c

unfoldable pub normalize_username : String → AppResult String
normalize_username value = do
  let username = trim value
  refuse_if (not (leb 1 (str_len username) && leb (str_len username) 64)) unprocessable
  refuse_if (not (starts_well (codes username)) || not (all is_username_char (codes username)))
      unprocessable
  ok username
