-- ===== src/Store/Evidence/Switches.antt =====
-- src/store.rs: a switch of the Square account or of the Protect console keeps the durable queue exact.
use square_uni_fi_protect_in.Common.{refl, true, not, ◌&&◌, upper_is, arith}
use square_uni_fi_protect_in.Table.{find, update_where, find-update_where, update_where-IsUnique}
use square_uni_fi_protect_in.Schema.{Db, tx_key, is_sent}
use square_uni_fi_protect_in.Store.Ingest.{silence}
use square_uni_fi_protect_in.Store.Queue.{IsConsistent}
use square_uni_fi_protect_in.Store.Evidence.{
  forget_camera, clear_protect_evidence, clear_square_account_data,
}

pub clear_square-IsConsistent : (db : Db) → IsConsistent (clear_square_account_data db)
unfolding clear_square_account_data find
clear_square-IsConsistent db = record { tx_unique = tt; retry_unique = tt; exact = λ k. refl }

pub clear_protect-IsConsistent :
    (db : Db) → IsConsistent db → IsConsistent (clear_protect_evidence db)
unfolding clear_protect_evidence
clear_protect-IsConsistent db q = record {
  tx_unique =
      update_where-IsUnique tx_key _ silence _ (λ t. unfold silence in refl)
        (update_where-IsUnique tx_key _ forget_camera db.transactions
          (λ t. unfold forget_camera in refl) q.tx_unique);
  retry_unique = tt;
  exact = λ k.
      unfold find silence forget_camera in
      ground (
        arith,
        find-update_where tx_key (λ t. upper_is t.status "COMPLETED" && not (is_sent t.alarm_state))
            silence k (update_where (λ t. true) forget_camera db.transactions)
            (λ t. unfold silence in refl),
        find-update_where tx_key (λ t. true) forget_camera k db.transactions
            (λ t. unfold forget_camera in refl),
      );
}
