-- ===== src/Accounts/Audit.antt =====
-- src/store.rs, `list_login_audit`: what a page of the login audit holds.
use square_uni_fi_protect_in.Common.{
  ℕ, ◌≡◌, refl, ap, true, false, Option, none, some, List, [], ◌∷◌, ◌++◌, drop, negsuc, ltb_ℤ, ◌⊎◌,
  ◌∙◌, ◌≤◌, ◌&&◌, Bool, length-take-le, arith, ℤ, pos, if◌then◌else◌, ltb, leb, take, length, inl,
  inr, zero, suc, ok,
}
use square_uni_fi_protect_in.Table.{count_where, select_where}
use square_uni_fi_protect_in.Store.Ordering.{order_by, IsSorted, order_by-IsSorted, count-order_by}
use square_uni_fi_protect_in.Accounts.{
  LoginAuditRecord, Accounts, list_login_audit, is_before, is_bad_page, is_newer, last_id,
}

-- Fetching one row too many does not change the page, and tells whether there are more.
take-take : {R : Type 0} (n : ℕ) (rows : List R) → take n (take (suc n) rows) ≡ take n rows
take-take zero rows = refl
take-take (suc n) [] = refl
take-take (suc n) (r ∷ rows) = ap (λ rest. r ∷ rest) (take-take n rows)

more-take :
    {R : Type 0} (n : ℕ) (rows : List R) → ltb n (length (take (suc n) rows)) ≡ ltb n (length rows)
more-take zero [] = refl
more-take zero (r ∷ rows) = ground arith
more-take (suc n) [] = refl
more-take (suc n) (r ∷ rows) = ground (arith, more-take n rows)

take-drop : {R : Type 0} (n : ℕ) (rows : List R) → take n rows ++ drop n rows ≡ rows
take-drop zero rows = refl
take-drop (suc n) [] = refl
take-drop (suc n) (r ∷ rows) = ap (λ rest. r ∷ rest) (take-drop n rows)

-- Whether rows are left after a page.
more-drop :
    {R : Type 0} (n : ℕ) (rows : List R)
    → ((ltb n (length rows) ≡ true) × (length (take n rows) ≡ n) × (1 ≤ length (drop n rows)))
      ⊎ ((ltb n (length rows) ≡ false) × (drop n rows ≡ []))
more-drop zero [] = inr (refl, refl)
more-drop zero (r ∷ rows) = inl (ground arith, refl, omega arith)
more-drop (suc n) [] = inr (ground arith, refl)
more-drop (suc n) (r ∷ rows) = elim (more-drop n rows) [
  | inl h ↦ inl (ground (arith, h.0), omega (arith, h.1), h.2)
  | inr h ↦ inr (ground (arith, h.0), h.1)
]

last_id-last :
    (page : List LoginAuditRecord)
    → (length page ≡ 0)
      ⊎ ((front : List LoginAuditRecord) × (r : LoginAuditRecord) × (page ≡ front ++ r ∷ [])
          × (last_id page ≡ some r.id))
last_id-last [] = inl refl
last_id-last (r ∷ []) = inr ([], r, refl, refl)
last_id-last (r ∷ s ∷ page) = elim (last_id-last (s ∷ page)) [
  | inl e ↦ absurd (omega (arith, e))
  | inr (front, x, e, id) ↦ inr (r ∷ front, x, ap (λ rows. r ∷ rows) e, id)
]

-- The entry lies before the position, where there is one.
abbrev pub is_below : Option ℤ → LoginAuditRecord → Bool
is_below none r = true
is_below (some position) r = ltb_ℤ (pos r.id) position

is_below-is_before :
    (before : Option ℤ) (r : LoginAuditRecord) → is_before before r ≡ is_below before r
is_below-is_before none r = refl
is_below-is_before (some (pos n)) r = ground arith
is_below-is_before (some (negsuc n)) r = ground arith

-- The page and the `rest` are the entries before the position, newest first. The page is full if
-- there is a rest, and its last entry is then the position to go on from.
pub record IsPage (limit : ℕ) (before : Option ℤ) (audit page : List LoginAuditRecord)
    (next : Option ℕ) (rest : List LoginAuditRecord) : Type 0 where
  newest_first : IsSorted (λ (r s : LoginAuditRecord). leb s.id r.id) (page ++ rest)
  complete :
      (p : LoginAuditRecord → Bool)
      → count_where p (page ++ rest) ≡ count_where (λ r. p r && is_below before r) audit
  bounded : length page ≤ limit
  continued :
      ((rest ≡ []) × (next ≡ none))
      ⊎ ((1 ≤ length rest)
          × (length page ≡ limit)
          × ((front : List LoginAuditRecord) × (r : LoginAuditRecord) × (page ≡ front ++ r ∷ [])
              × (next ≡ some r.id)))

count-select :
    (before : Option ℤ) (p : LoginAuditRecord → Bool) (audit : List LoginAuditRecord)
    → count_where p (select_where (is_before before) audit)
      ≡ count_where (λ r. p r && is_below before r) audit
unfolding count_where select_where
count-select before p [] = refl
count-select before p (r ∷ audit) =
    ground (arith, is_below-is_before before r, count-select before p audit)

-- For a valid limit and position, a page of the login audit and some list `rest` make up the
-- entries before the position, each as often as it is there, newest first. The page has at most as
-- many entries as asked for, and exactly as many if there is a rest; then, and only then, the id of
-- its last entry is returned as the next position.
pub list_login_audit-IsPage :
    (limit : ℕ) (before : Option ℤ) (db : Accounts)
    → is_bad_page (pos limit) before ≡ false
    → (page : List LoginAuditRecord) × (next : Option ℕ) × (rest : List LoginAuditRecord)
      × (list_login_audit (pos limit) before db ≡ ok (page, next))
      × IsPage limit before db.login_audit page next rest
unfolding list_login_audit
list_login_audit-IsPage limit before db valid =
    let rows = order_by is_newer (select_where (is_before before) db.login_audit) in
    let page = take limit rows in
    let rest = drop limit rows in
    let next = if ltb limit (length rows) then last_id page else none in
    let whole = take-drop limit rows in
    (
      page,
      next,
      rest,
      rw (valid, take-take limit rows, more-take limit rows) refl,
      record {
        newest_first = rw whole (
            order_by-IsSorted is_newer (λ x y z e f. ground (arith, e, f))
              (λ x y e. ground (arith, e)) (select_where (is_before before) db.login_audit));
        complete = λ p. rw whole (
            count-order_by is_newer p (select_where (is_before before) db.login_audit)
            ∙ count-select before p db.login_audit);
        bounded = length-take-le limit rows;
        continued = elim (more-drop limit rows) [
          | inl (more, full, left) ↦ elim (last_id-last page) [
            | inl empty ↦ absurd (ground (arith, full, empty, valid))
            | inr (front, r, e, id) ↦ inr (left, full, (front, r, e, rw more id))
          ]
          | inr (done, e) ↦ inl (e, rw done refl)
        ];
      },
    )
