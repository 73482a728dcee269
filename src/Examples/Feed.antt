-- ===== src/Examples/Feed.antt =====
-- Two sales in the feed, and a third that arrives between two pages.
use square_uni_fi_protect_in.Common.{
  codes, ◌≡◌, refl, String, List, [], ◌∷◌, none, some, pos, ok, AppResult, arith, str_eq, str_len,
  trim, str_is_empty,
}
use square_uni_fi_protect_in.Table.{find}
use square_uni_fi_protect_in.Schema
use square_uni_fi_protect_in.Store.Queue.{IsConsistent}
use square_uni_fi_protect_in.Store.Steps.{upserts, writes_note}
use square_uni_fi_protect_in.Store.Feed.{
  FeedFilter, FeedPage, list_transactions_page, like, like_tokens, search_pattern,
  transaction_filter, status_filter,
}
use square_uni_fi_protect_in.Store.Guards.{has_forbidden_controls}
use square_uni_fi_protect_in.Store.Feed.History.{FeedCall, changes, PagesAgree}
use square_uni_fi_protect_in.Store.Feed.Served.{next_page_served}
use square_uni_fi_protect_in.Store.Feed.Search.{search_exact, contains_like}
use square_uni_fi_protect_in.Store.Feed.Pages.{pages_agree}
use square_uni_fi_protect_in.Examples.Data.{sale, sale_row, empty}

abbrev tagged : String → String → AppResult String
tagged query status = ok "tag"

abbrev everything : FeedFilter
everything = record { query = ""; status = "" }

abbrev two_sales : Schema.Db
two_sales = record empty {
  transactions =
      record sale_row { camera_id = none }
      ∷ record sale_row { id = "pay_2"; ts_ms = pos 3000; camera_id = none }
      ∷ [];
}

two_sales-IsConsistent : IsConsistent two_sales
unfolding find str_eq
two_sales-IsConsistent = record {
  tx_unique = (refl, (refl, tt));
  retry_unique = tt;
  exact = λ k. ground arith;
}

abbrev between : List FeedCall
between =
    changes (upserts (record sale { id = "pay_3"; ts_ms = pos 4000 }))
    ∷ changes (writes_note "pay_1" "checked" (pos 0))
    ∷ []

pages_agree_example :
    PagesAgree tagged "" "" (pos 1) (pos 0) (pos 1) (pos 1) 5 9 between two_sales everything
unfolding transaction_filter str_len trim has_forbidden_controls status_filter str_is_empty
pages_agree_example =
    pages_agree tagged "" "" (pos 1) (pos 0) (pos 1) (pos 1) 5 9 between two_sales everything ""
      two_sales-IsConsistent tt refl refl refl

search_exact_example :
    like (like_tokens (search_pattern "50%")) (codes "Sale 50% off")
    ≡ contains_like (codes "50%") (codes "Sale 50% off")
search_exact_example = search_exact "50%" "Sale 50% off"

next_page_served_example :
    (page : FeedPage) × (db' : Schema.Db) × (page' : FeedPage) × (db'' : Schema.Db)
    × (list_transactions_page tagged (pos 1) (pos 0) none "" "" 5 two_sales ≡ ok (page, db'))
    × (list_transactions_page tagged (pos 1) (pos 1) (some (pos page.1)) "" "" 9 db'
        ≡ ok (page', db''))
unfolding transaction_filter str_len trim has_forbidden_controls status_filter str_is_empty
next_page_served_example =
    next_page_served tagged "" "" (pos 1) (pos 0) (pos 1) (pos 1) 5 9 two_sales (everything, "") tt
      refl refl refl (omega arith)
