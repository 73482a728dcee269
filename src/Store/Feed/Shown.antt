-- ===== src/Store/Feed/Shown.antt =====
-- What a snapshot of the feed shows: the invariant that fixes it, and updates that leave it alone.
use square_uni_fi_protect_in.Common.{
  ℕ, zero, suc, ◌≡◌, ◌≤◌, refl, sym, ap, ◌∙◌, Bool, true, false, not, ◌==◌, List, [], ◌∷◌, map,
  take, length, any, All, String, arith, Bool-cases, inl, inr, str_is_empty,
}
use square_uni_fi_protect_in.Table.{update_where, delete_where}
use square_uni_fi_protect_in.Schema.{TransactionRow, FeedSnapshot, Db}
use square_uni_fi_protect_in.Store.Feed.Facts.{FeedFacts, facts, feed_facts}

-- Some snapshot has the id.
abbrev pub is_live : ℕ → List FeedSnapshot → Bool
is_live i snapshots = any (λ s. s.id == i) snapshots

-- A snapshot with the id has this boundary and this filter.
abbrev pub HasView : ℕ → ℕ → String → FeedSnapshot → Type 0
HasView i boundary signature s =
    s.id == i ≡ true → (s.rowid_boundary ≡ boundary) × (s.filter_signature ≡ signature)

-- The id was given to one view of the feed, and while it is live the view shows the facts `shown`.
pub record Shows (i boundary : ℕ) (signature : String) (shown : List FeedFacts) (db : Db)
    : Type 0 where
  pub issued : i ≤ db.snapshot_sequence
  pub views : All (HasView i boundary signature) db.snapshots
  pub rows :
      is_live i db.snapshots ≡ true
      → (boundary ≤ length db.transactions)
        × (feed_facts (not (str_is_empty signature)) boundary db ≡ shown)

-- The statements of a call write neither to the snapshots nor to what the feed shows.
pub record IsQuiet (db db' : Db) : Type 0 where
  pub same_snapshots : db'.snapshots ≡ db.snapshots
  pub same_sequence : db'.snapshot_sequence ≡ db.snapshot_sequence
  pub same_facts : map (facts true) db'.transactions ≡ map (facts true) db.transactions

pub IsQuiet-refl : (db : Db) → IsQuiet db db
IsQuiet-refl db = record { same_snapshots = refl; same_sequence = refl; same_facts = refl }

pub IsQuiet-trans : (a b c : Db) → IsQuiet a b → IsQuiet b c → IsQuiet a c
IsQuiet-trans a b c f g = record {
  same_snapshots = g.same_snapshots ∙ f.same_snapshots;
  same_sequence = g.same_sequence ∙ f.same_sequence;
  same_facts = g.same_facts ∙ f.same_facts;
}

-- An update that keeps what the feed shows of each row.
pub map-update_where :
    (p : TransactionRow → Bool) (f : TransactionRow → TransactionRow) (rows : List TransactionRow)
    → ((t : TransactionRow) → facts true (f t) ≡ facts true t)
    → map (facts true) (update_where p f rows) ≡ map (facts true) rows
unfolding update_where
map-update_where p f [] h = refl
map-update_where p f (t ∷ rows) h = elim (Bool-cases (p t)) [
  | inl e ↦ rw (e, h t) (ap (λ rest. facts true t ∷ rest) (map-update_where p f rows h))
  | inr e ↦ rw e (ap (λ rest. facts true t ∷ rest) (map-update_where p f rows h))
]

length-map_same :
    (xs ys : List TransactionRow)
    → map (facts true) ys ≡ map (facts true) xs
    → length ys ≡ length xs
length-map_same [] [] e = refl
length-map_same [] (y ∷ ys) e = absurd (ground (arith, e))
length-map_same (x ∷ xs) [] e = absurd (ground (arith, e))
length-map_same (x ∷ xs) (y ∷ ys) e = ground (arith, e, length-map_same xs ys)

map-take_same :
    (filtered : Bool) (n : ℕ) (xs ys : List TransactionRow)
    → map (facts true) ys ≡ map (facts true) xs
    → map (facts filtered) (take n ys) ≡ map (facts filtered) (take n xs)
map-take_same filtered zero xs ys e = refl
map-take_same filtered (suc n) [] [] e = refl
map-take_same filtered (suc n) [] (y ∷ ys) e = absurd (ground (arith, e))
map-take_same filtered (suc n) (x ∷ xs) [] e = absurd (ground (arith, e))
map-take_same true (suc n) (x ∷ xs) (y ∷ ys) e = ground (arith, e, map-take_same true n xs ys)
map-take_same false (suc n) (x ∷ xs) (y ∷ ys) e = ground (arith, e, map-take_same false n xs ys)

module _ (i boundary : ℕ) (signature : String) (shown : List FeedFacts) where
  pub IsQuiet-Shows :
      (db db' : Db)
      → IsQuiet db db'
      → Shows i boundary signature shown db
      → Shows i boundary signature shown db'
  IsQuiet-Shows db db' q h = record {
    issued = rw q.same_sequence h.issued;
    views = rw q.same_snapshots h.views;
    rows = λ live.
        let old = h.rows (rw (sym q.same_snapshots) live) in
        (
          rw (length-map_same db.transactions db'.transactions q.same_facts) old.0,
          map-take_same (not (str_is_empty signature)) boundary db.transactions db'.transactions
                q.same_facts
              ∙ old.1,
        );
  }

-- Deleting snapshots takes no view back, and brings none.
pub delete_where-All {ℓ κ} :
    {R : Type ℓ} (P : R → Type κ) (p : R → Bool) (rows : List R)
    → All P rows
    → All P (delete_where p rows)
unfolding delete_where
delete_where-All P p [] h = tt
delete_where-All P p (r ∷ rows) h = elim (Bool-cases (p r)) [
  | inl e ↦ rw e (delete_where-All P p rows h.1)
  | inr e ↦ rw e (h.0, delete_where-All P p rows h.1)
]

pub is_live-delete :
    (i : ℕ) (p : FeedSnapshot → Bool) (rows : List FeedSnapshot)
    → is_live i (delete_where p rows) ≡ true
    → is_live i rows ≡ true
unfolding delete_where
is_live-delete i p [] h = h
is_live-delete i p (s ∷ rows) h = elim (Bool-cases (p s)) [
  | inl e ↦ ground (arith, h, e, is_live-delete i p rows)
  | inr e ↦ ground (arith, h, e, is_live-delete i p rows)
]

-- No filtered view outlives the deletion of the filtered snapshots.
pub is_live-unfiltered :
    (i boundary : ℕ) (signature : String) (rows : List FeedSnapshot)
    → All (HasView i boundary signature) rows
    → is_live i (delete_where (λ s. not (str_is_empty s.filter_signature)) rows) ≡ true
    → str_is_empty signature ≡ true
unfolding delete_where
is_live-unfiltered i boundary signature [] h l = absurd (cc)
is_live-unfiltered i boundary signature (s ∷ rows) h l =
    ground (arith, l, h.0, ap str_is_empty, is_live-unfiltered i boundary signature rows h.1)
