-- ===== src/Examples/Thumbnails.antt =====
-- The theorems on the queue of thumbnails, applied to the entry of `Data`.
use square_uni_fi_protect_in.Common.{
  ◌≡◌, refl, some, true, pos, String, if◌then◌else◌, arith, ok, str_eq, ◌&&◌, str_is_empty, str_len,
  is_ascii_alphanumeric,
}
use mathlib.Core.Option
use square_uni_fi_protect_in.Table.{find}
use square_uni_fi_protect_in.Schema.{Db, find_tx, find_retry}
use square_uni_fi_protect_in.Store.Guards.{validate_camera_id, is_local_filename}
use square_uni_fi_protect_in.Store.Retries.{
  attach, complete_thumbnail_retry, claim_due_thumbnail_retries, backoff, postpone,
  fail_thumbnail_retry,
}
use square_uni_fi_protect_in.Store.Retries.Leases.{claim_respects_lease}
use square_uni_fi_protect_in.Store.Retries.Fencing.{complete_exact, failure_pauses, backoff_exact}
use square_uni_fi_protect_in.Examples.Data.{busy, leased}

valid_camera : validate_camera_id "cam1aaaaaaaaaaaaaaaaaaaaa" ≡ ok tt
unfolding validate_camera_id str_len is_ascii_alphanumeric
valid_camera = refl

complete_exact_example :
    (db' : Db) × (complete_thumbnail_retry "pay_1" "worker" "cam1aaaaaaaaaaaaaaaaaaaaa"
        (pos 2000)
        "a.jpg"
        (pos 9)
        (pos 1)
        busy
      ≡ ok (true, db'))
    × ((k : String)
        → find_tx k db' ≡ (
            if str_eq k "pay_1" && true
            then Option.map (attach "a.jpg" (pos 9) (pos 1)) (find_tx k busy)
            else find_tx k busy))
unfolding find is_local_filename str_eq str_is_empty
complete_exact_example =
    complete_exact "pay_1" "worker" "cam1aaaaaaaaaaaaaaaaaaaaa" (pos 2000) "a.jpg" (pos 9) (pos 1)
      busy (refl, tt) (refl, tt) refl valid_camera

claim_respects_lease_example :
    find_retry "pay_1" (claim_due_thumbnail_retries (pos 10) 5 "other" busy).1 ≡ some leased
unfolding find str_eq
claim_respects_lease_example =
    claim_respects_lease (pos 10) 5 "other" "pay_1" busy leased (refl, tt) refl refl

failure_pauses_example :
    (find_retry "pay_1"
        (fail_thumbnail_retry "pay_1" "worker" "cam1aaaaaaaaaaaaaaaaaaaaa"
          (pos 2000)
          "timeout"
          5
          busy).1
      ≡ some (postpone "timeout" 5 leased))
    × (find_retry "pay_1"
          (claim_due_thumbnail_retries
            (pos 10)
            1000
            "other"
            (fail_thumbnail_retry "pay_1" "worker" "cam1aaaaaaaaaaaaaaaaaaaaa"
              (pos 2000)
              "timeout"
              5
              busy).1).1
        ≡ some (postpone "timeout" 5 leased))
unfolding find backoff str_eq
failure_pauses_example =
    failure_pauses "pay_1" "worker" "cam1aaaaaaaaaaaaaaaaaaaaa" (pos 2000) "timeout" 5 busy leased
      (pos 10) 1000 "other" (refl, tt) refl refl refl (omega arith)

backoff_exact_example : backoff 3 ≡ 240
backoff_exact_example = backoff_exact 3
