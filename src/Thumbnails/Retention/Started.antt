-- ===== src/Thumbnails/Retention/Started.antt =====
-- The total of the assets at the start, and their sizes, against the rows.
use square_uni_fi_protect_in.Common.{
  ◌≤◌, ◌≡◌, refl, sym, ap, ◌∙◌, Bool, true, List, [], ◌∷◌, map, pos, ◌+ℤ◌, All, All-mono, some,
  str_eq, str_eq_iff, is_some, unwrap_or, Bool-cases, inl, inr, arith,
}
use square_uni_fi_protect_in.Table.{find, IsUnique, IsUnique-found, select_where}
use square_uni_fi_protect_in.Schema.{TransactionRow, Db, tx_key}
use square_uni_fi_protect_in.Store.Ordering.{order_by, All-order_by, weigh, weigh-order_by}
use square_uni_fi_protect_in.Thumbnails.Retention.{
  ThumbnailAsset, to_asset, is_older, list_thumbnail_assets, total_size, start_sweep,
}
use square_uni_fi_protect_in.Thumbnails.Retention.Covered.{is_kept, KeptPass}
use square_uni_fi_protect_in.Thumbnails.Retention.Measured.{
  row_size, kept_bytes, asset_size-pos, agrees, Agree, IsMeasured,
}

-- The sum over the assets is that over the rows.
total_size-map :
    (rows : List TransactionRow) → total_size (map to_asset rows) ≡ pos (weigh row_size rows)
unfolding total_size ◌+ℤ◌
total_size-map [] = refl
total_size-map (t ∷ rows) = ground (arith, asset_size-pos (to_asset t), total_size-map rows)

kept_bytes-select :
    (rows : List TransactionRow)
    → kept_bytes rows ≤ weigh row_size (select_where (λ t. is_some t.thumbnail_path) rows)
unfolding select_where
kept_bytes-select [] = omega arith
kept_bytes-select (t ∷ rows) = ground (arith, kept_bytes-select rows)

-- At the start the total covers what is kept.
pub start-IsMeasured : (db : Db) → IsMeasured (start_sweep db)
unfolding start_sweep list_thumbnail_assets
start-IsMeasured db =
    let listed = select_where (λ (t : TransactionRow). is_some t.thumbnail_path) db.transactions in
    rw (total_size-map (order_by is_older listed), weigh-order_by is_older row_size listed)
      (omega (arith, kept_bytes-select db.transactions))

All-map_asset :
    (P : ThumbnailAsset → Type 0) (rows : List TransactionRow)
    → All (λ t. P (to_asset t)) rows
    → All P (map to_asset rows)
All-map_asset P [] h = tt
All-map_asset P (t ∷ rows) h = (h.0, All-map_asset P rows h.1)

All-select :
    (P : TransactionRow → Type 0) (p : TransactionRow → Bool) (rows : List TransactionRow)
    → All P rows
    → All P (select_where p rows)
unfolding select_where
All-select P p [] h = tt
All-select P p (t ∷ rows) h = elim (Bool-cases (p t)) [
  | inl e ↦ rw e (h.0, All-select P p rows h.1)
  | inr e ↦ rw e (All-select P p rows h.1)
]

found-agrees :
    (x t : TransactionRow) (rows : List TransactionRow)
    → find tx_key x.id rows ≡ some x
    → find tx_key t.id rows ≡ some t
    → is_kept t ≡ true
    → agrees (to_asset x) t ≡ true
found-agrees x t rows e f kept = elim (Bool-cases (str_eq t.id x.id)) [
  | inl same ↦
      let both : some t ≡ some x =
        sym f ∙ ap (λ k. find tx_key k rows) ((str_eq_iff t.id x.id).0 same) ∙ e in
      let size : row_size t ≡ row_size x = ap (λ o. row_size (unwrap_or o t)) both in
      ground (arith, size)
  | inr other ↦ ground (arith, other)
]

-- At the start an asset has the size of every row of its id: with unique ids, there is one.
pub start-Agree :
    (db : Db) → IsUnique tx_key db.transactions → Agree (list_thumbnail_assets db) db.transactions
unfolding list_thumbnail_assets
start-Agree db u =
    let found = IsUnique-found tx_key db.transactions u in
    All-map_asset (λ a. KeptPass (agrees a) db.transactions) _
      (All-order_by is_older (λ x. KeptPass (agrees (to_asset x)) db.transactions) _
        (All-select (λ x. KeptPass (agrees (to_asset x)) db.transactions)
          (λ t. is_some t.thumbnail_path) db.transactions
          (All-mono (λ x. find tx_key x.id db.transactions ≡ some x)
            (λ x. KeptPass (agrees (to_asset x)) db.transactions) db.transactions
            (λ x e.
              All-mono (λ t. find tx_key t.id db.transactions ≡ some t)
                (λ t. is_kept t ≡ true → agrees (to_asset x) t ≡ true) db.transactions
                (λ t f. found-agrees x t db.transactions e f) found)
            found)))
