-- ===== src/Store/Feed/Updates.antt =====
-- Updates of transactions that leave what the feed shows of them alone.
use square_uni_fi_protect_in.Common.{
  ℕ, zero, suc, ◌≡◌, ◌≤◌, refl, sym, ap, ◌∙◌, Bool, true, false, ◌&&◌, Option, some, List, [], ◌∷◌,
  ◌++◌, map, take, length, All, All-mono, String, arith, Bool-cases, inl, inr, str_eq, str_eq_iff,
  eqb_ℤ_iff,
}
use square_uni_fi_protect_in.Table.{find, update_where, IsUnique, IsUnique-found}
use square_uni_fi_protect_in.Schema.{PaymentFacts, TransactionRow, tx_key}
use square_uni_fi_protect_in.Store.Ingest.{
  offered_row, merge_row, silence, timestamp_changed, searched_facts_changed, accepted_location_id,
  accepted_device_id,
}
use square_uni_fi_protect_in.Store.Feed.Facts.{facts, map-take}

pub length-update_where :
    (p : TransactionRow → Bool) (f : TransactionRow → TransactionRow) (rows : List TransactionRow)
    → length (update_where p f rows) ≡ length rows
unfolding update_where
length-update_where p f [] = refl
length-update_where p f (t ∷ rows) = ap (λ n. suc n) (length-update_where p f rows)

-- An update that keeps what the feed shows of the rows that it writes.
pub map-update_rows :
    (filtered : Bool) (p : TransactionRow → Bool) (f : TransactionRow → TransactionRow)
    (rows : List TransactionRow)
    → All (λ t. p t ≡ true → facts filtered (f t) ≡ facts filtered t) rows
    → map (facts filtered) (update_where p f rows) ≡ map (facts filtered) rows
unfolding update_where
map-update_rows filtered p f [] h = refl
map-update_rows filtered p f (t ∷ rows) h = elim (Bool-cases (p t)) [
  | inl e ↦
      rw (e, h.0 e) (ap (λ rest. facts filtered t ∷ rest) (map-update_rows filtered p f rows h.1))
  | inr e ↦ rw e (ap (λ rest. facts filtered t ∷ rest) (map-update_rows filtered p f rows h.1))
]

-- The row with a key is the only one that an update under this key writes.
pub map-update_keyed :
    (filtered : Bool) (k : String) (q : TransactionRow → Bool) (f : TransactionRow → TransactionRow)
    (rows : List TransactionRow)
    → IsUnique tx_key rows
    → ((t : TransactionRow) → find tx_key k rows ≡ some t → facts filtered (f t) ≡ facts filtered t)
    → map (facts filtered) (update_where (λ t. str_eq t.id k && q t) f rows)
      ≡ map (facts filtered) rows
map-update_keyed filtered k q f rows u h =
    map-update_rows filtered (λ t. str_eq t.id k && q t) f rows
      (All-mono (λ (t : TransactionRow). find tx_key t.id rows ≡ some t)
        (λ t. (str_eq t.id k && q t) ≡ true → facts filtered (f t) ≡ facts filtered t) rows
        (λ t e same.
          h t
            (ap (λ j. find tx_key j rows) (sym ((str_eq_iff t.id k).0 (ground (arith, same)))) ∙ e))
        (IsUnique-found tx_key rows u))

pub take-append :
    (n : ℕ) (rows : List TransactionRow) (x : TransactionRow)
    → n ≤ length rows
    → take n (rows ++ x ∷ []) ≡ take n rows
take-append zero rows x h = refl
take-append (suc n) [] x h = absurd (omega (arith, h))
take-append (suc n) (t ∷ rows) x h = ap (λ rest. t ∷ rest) (take-append n rows x (omega (arith, h)))

-- Rows with the same facts show the same up to any boundary.
pub take_same :
    (filtered : Bool) (n : ℕ) (xs ys : List TransactionRow)
    → map (facts filtered) ys ≡ map (facts filtered) xs
    → map (facts filtered) (take n ys) ≡ map (facts filtered) (take n xs)
take_same filtered n xs ys e =
    map-take (facts filtered) n ys ∙ ap (take n) e ∙ sym (map-take (facts filtered) n xs)

-- A merge that changes neither the time nor, for a filtered feed, a searched fact.
pub merge_row-facts :
    (filtered : Bool) (payment : PaymentFacts) (e : TransactionRow) (camera : Option String)
    → timestamp_changed payment (some e) ≡ false
    → (filtered ≡ true → searched_facts_changed payment (some e) ≡ false)
    → facts filtered (merge_row (offered_row payment (some e) camera) e) ≡ facts filtered e
unfolding timestamp_changed searched_facts_changed merge_row offered_row accepted_location_id
    accepted_device_id
merge_row-facts false payment e camera t s = ground (arith, t, eqb_ℤ_iff e.ts_ms payment.ts_ms)
merge_row-facts true payment e camera t s =
    let unchanged = s refl in
    ground (
      arith,
      t,
      unchanged,
      eqb_ℤ_iff e.ts_ms payment.ts_ms,
      str_eq_iff e.status payment.status,
      str_eq_iff e.location_id payment.location_id,
      str_eq_iff e.device_id payment.device_id,
      str_eq_iff payment.device_id e.device_id,
      str_eq_iff e.device_name payment.device_name,
      str_eq_iff e.card_last4 payment.card_last4,
    )

pub silence-facts :
    (filtered : Bool) (t : TransactionRow) → facts filtered (silence t) ≡ facts filtered t
unfolding silence
silence-facts true t = refl
silence-facts false t = refl
