-- ===== src/Store/Feed/Facts.antt =====
-- What the pages of the feed depend on: the ids, the times and, under a filter, the searched fields of the
-- transactions up to the snapshot's boundary.
use square_uni_fi_protect_in.Common.{
  drop, ℕ, zero, suc, ◌≡◌, refl, sym, ap, ◌∙◌, Bool, true, false, not, ◌&&◌, ◌||◌, List, [], ◌∷◌,
  map, String, ℤ, arith, take, any, codes, str_is_empty, str_eq, Bool-cases, inl, inr,
}
use square_uni_fi_protect_in.Table.{select_where}
use square_uni_fi_protect_in.Schema.{TransactionRow, Db}
use square_uni_fi_protect_in.Store.Ordering.{order_by, insert_ordered}
use square_uni_fi_protect_in.Store.Feed.{
  FeedFilter, is_unfiltered, is_shown, is_newer, is_listed_before, searched_fields, like,
  like_tokens, search_pattern, page_rows,
}

pub record FeedFacts : Type 0 where
  pub id : String
  pub ts_ms : ℤ
  pub status : String
  pub fields : List String

-- The facts of a row that matter to a filtered, or to an unfiltered, feed.
abbrev pub facts : Bool → TransactionRow → FeedFacts
facts true t = record { id = t.id; ts_ms = t.ts_ms; status = t.status; fields = searched_fields t }
facts false t = record { id = t.id; ts_ms = t.ts_ms; status = ""; fields = [] }

-- The facts of the transactions up to a boundary.
abbrev pub feed_facts : Bool → ℕ → Db → List FeedFacts
feed_facts filtered boundary db = map (facts filtered) (take boundary db.transactions)

-- The ids on a page.
abbrev pub page_ids : FeedFilter → ℕ → ℕ → ℕ → Db → List String
page_ids f boundary limit offset db = map (λ t. t.id) (page_rows f boundary limit offset db)

module _ {A B : Type 0} (g : A → B) where
  pub map-take : (n : ℕ) (xs : List A) → map g (take n xs) ≡ take n (map g xs)
  map-take zero xs = refl
  map-take (suc n) [] = refl
  map-take (suc n) (x ∷ xs) = ap (λ rest. g x ∷ rest) (map-take n xs)

  pub map-drop : (n : ℕ) (xs : List A) → map g (drop n xs) ≡ drop n (map g xs)
  map-drop zero xs = refl
  map-drop (suc n) [] = refl
  map-drop (suc n) (x ∷ xs) = map-drop n xs

  map-select_where :
      (p : A → Bool) (q : B → Bool) (xs : List A)
      → ((x : A) → p x ≡ q (g x))
      → map g (select_where p xs) ≡ select_where q (map g xs)
  unfolding select_where
  map-select_where p q [] h = refl
  map-select_where p q (x ∷ xs) h = elim (Bool-cases (p x)) [
    | inl e ↦ rw (e, sym (h x) ∙ e) (ap (λ rest. g x ∷ rest) (map-select_where p q xs h))
    | inr e ↦ rw (e, sym (h x) ∙ e) (map-select_where p q xs h)
  ]

  map-insert_ordered :
      (le : A → A → Bool) (le' : B → B → Bool) (r : A) (xs : List A)
      → ((x y : A) → le x y ≡ le' (g x) (g y))
      → map g (insert_ordered le r xs) ≡ insert_ordered le' (g r) (map g xs)
  unfolding insert_ordered
  map-insert_ordered le le' r [] h = refl
  map-insert_ordered le le' r (x ∷ xs) h = elim (Bool-cases (le r x)) [
    | inl e ↦ rw (e, sym (h r x) ∙ e) refl
    | inr e ↦ rw (e, sym (h r x) ∙ e) (ap (λ rest. g x ∷ rest) (map-insert_ordered le le' r xs h))
  ]

  map-order_by :
      (le : A → A → Bool) (le' : B → B → Bool) (xs : List A)
      → ((x y : A) → le x y ≡ le' (g x) (g y))
      → map g (order_by le xs) ≡ order_by le' (map g xs)
  unfolding order_by
  map-order_by le le' [] h = refl
  map-order_by le le' (x ∷ xs) h =
      map-insert_ordered le le' x (order_by le xs) h
      ∙ ap (insert_ordered le' (g x)) (map-order_by le le' xs h)

-- The tests of the page, on facts.
shows : FeedFilter → FeedFacts → Bool
shows f x =
    let tokens = like_tokens (search_pattern f.query) in
    (str_is_empty f.query || any (λ field. like tokens (codes field)) x.fields)
    && (str_is_empty f.status || str_eq x.status f.status)

lists_before : FeedFacts → FeedFacts → Bool
lists_before x y = is_listed_before x.id x.ts_ms y.id y.ts_ms

shows-facts :
    (f : FeedFilter) (filtered : Bool) (t : TransactionRow)
    → (not (is_unfiltered f) ≡ true → filtered ≡ true)
    → is_shown f t ≡ shows f (facts filtered t)
unfolding is_shown shows
shows-facts f true t h = refl
shows-facts f false t h = elim (Bool-cases (is_unfiltered f)) [
  | inl u ↦ ground (arith, u)
  | inr u ↦ let bad = h (rw u refl) in cc
]

lists_before-facts :
    (filtered : Bool) (t u : TransactionRow)
    → is_newer t u ≡ lists_before (facts filtered t) (facts filtered u)
unfolding lists_before
lists_before-facts true t u = refl
lists_before-facts false t u = refl

id-facts :
    (filtered : Bool) (xs : List TransactionRow)
    → map (λ t. t.id) xs ≡ map (λ x. x.id) (map (facts filtered) xs)
id-facts filtered [] = refl
id-facts true (x ∷ xs) = ap (λ rest. x.id ∷ rest) (id-facts true xs)
id-facts false (x ∷ xs) = ap (λ rest. x.id ∷ rest) (id-facts false xs)

page_ids-facts :
    (f : FeedFilter) (filtered : Bool) (boundary limit offset : ℕ) (db : Db)
    → (not (is_unfiltered f) ≡ true → filtered ≡ true)
    → page_ids f boundary limit offset db
      ≡ map
          (λ x. x.id)
          (take limit (
            drop offset
              (order_by lists_before (select_where (shows f) (feed_facts filtered boundary db)))))
unfolding page_rows
page_ids-facts f filtered boundary limit offset db h =
    let rows = take boundary db.transactions in
    let shown = select_where (is_shown f) rows in
    id-facts filtered (take limit (drop offset (order_by is_newer shown)))
    ∙ ap (map (λ (x : FeedFacts). x.id)) (
        map-take (facts filtered) limit (drop offset (order_by is_newer shown))
        ∙ ap (take limit) (
            map-drop (facts filtered) offset (order_by is_newer shown)
            ∙ ap (drop offset) (
                map-order_by (facts filtered) is_newer lists_before shown
                  (lists_before-facts filtered)
                ∙ ap (order_by lists_before) (
                    map-select_where (facts filtered) (is_shown f) (shows f) rows
                      (λ t. shows-facts f filtered t h)))))

-- Pages over the same facts show the same transactions in the same order.
pub page_ids-same :
    (f : FeedFilter) (filtered : Bool) (boundary limit offset : ℕ) (db db' : Db)
    → (not (is_unfiltered f) ≡ true → filtered ≡ true)
    → feed_facts filtered boundary db' ≡ feed_facts filtered boundary db
    → page_ids f boundary limit offset db' ≡ page_ids f boundary limit offset db
page_ids-same f filtered boundary limit offset db db' h e =
    page_ids-facts f filtered boundary limit offset db' h
    ∙ ap
        (λ xs.
          map (λ (x : FeedFacts). x.id)
            (take limit (drop offset (order_by lists_before (select_where (shows f) xs)))))
        e
    ∙ sym (page_ids-facts f filtered boundary limit offset db h)
