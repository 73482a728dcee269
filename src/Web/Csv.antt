-- ===== src/Web/Csv.antt =====
-- src/web.rs: `safe_csv_cell`, on texts as lists of code points. Spreadsheets read a cell that begins like a
-- formula as one, and cells keep their line breaks as CR LF.
use square_uni_fi_protect_in.Common.{
  is_whitespace, ℕ, Bool, true, false, not, ◌&&◌, ◌||◌, List, [], ◌∷◌, map, if◌then◌else◌, ◌==◌,
}

-- `replace("\r\n", "\n")`.
unfoldable pub join_breaks : List ℕ → List ℕ
join_breaks [] = []
join_breaks (c ∷ []) = c ∷ []
join_breaks (c ∷ d ∷ cs) =
    let joined = join_breaks cs in
    let kept = join_breaks (d ∷ cs) in if c == b'\r' && d == b'\n' then b'\n' ∷ joined else c ∷ kept

-- `replace('\r', "\n")`, on one code point.
unfoldable pub to_newline : ℕ → ℕ
to_newline c = if c == b'\r' then b'\n' else c

-- `replace('\n', "\r\n")`.
unfoldable pub split_breaks : List ℕ → List ℕ
split_breaks [] = []
split_breaks (c ∷ cs) =
    let rest = split_breaks cs in if c == b'\n' then b'\r' ∷ b'\n' ∷ rest else c ∷ rest

unfoldable pub trim_matches : (ℕ → Bool) → List ℕ → List ℕ
trim_matches p [] = []
trim_matches p (c ∷ cs) = let rest = trim_matches p cs in if p c then rest else c ∷ cs

abbrev pub starts_with : (ℕ → Bool) → List ℕ → Bool
starts_with p [] = false
starts_with p (c ∷ cs) = p c

-- Without leading white space, byte order marks and white space behind them.
unfoldable pub candidate : List ℕ → List ℕ
candidate text =
    trim_matches is_whitespace (trim_matches (λ c. c == 65279) (trim_matches is_whitespace text))

unfoldable pub is_dangerous : List ℕ → Bool
is_dangerous text =
    starts_with (λ c. c == b'\t' || c == b'\r' || c == b'\n') text
    || starts_with (λ c. c == b'=' || c == b'+' || c == b'-' || c == b'@') (candidate text)

unfoldable pub safe_csv_cell : List ℕ → List ℕ
safe_csv_cell value =
    let text = split_breaks (map to_newline (join_breaks value)) in
    if is_dangerous text then b'\'' ∷ text else text

-- CR stands only before LF, and LF only behind CR.
abbrev pub has_clean_breaks : List ℕ → Bool
has_clean_breaks [] = true
has_clean_breaks (c ∷ []) = not (c == b'\r' || c == b'\n')
has_clean_breaks (c ∷ d ∷ cs) =
    let broken = d == b'\n' && has_clean_breaks cs in
    let plain = not (c == b'\n') && has_clean_breaks (d ∷ cs) in
    if c == b'\r' then broken else plain
