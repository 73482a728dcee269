-- ===== src/Store/Steps/Stability.antt =====
-- What no call takes back: a test on a transaction that every write to a row keeps, holds for good, until
-- the account is switched.
pub mod Kept
pub mod Calls
use square_uni_fi_protect_in.Common.{ℕ, ◌≡◌, Bool, true, Option, String, ℤ, leb_ℤ, ◌&&◌}
use square_uni_fi_protect_in.Schema.{TransactionRow, is_in_progress}
use square_uni_fi_protect_in.Store.Ingest.{merge_row, silence}
use square_uni_fi_protect_in.Store.Retries.{attach, detach}
use square_uni_fi_protect_in.Store.Alarms.{is_pending, claim, is_held_by, unclaim, deliver}
use square_uni_fi_protect_in.Store.Evidence.{forget_camera, expire, account, remeasure}

-- The test `P` survives each write that the store makes to a row of `transactions`.
pub record IsStable (P : TransactionRow → Bool) : Type 0 where
  pub on_merge :
      (x t : TransactionRow)
      → leb_ℤ t.updated_ts_ms x.updated_ts_ms ≡ true
      → P t ≡ true
      → P (merge_row x t) ≡ true
  pub on_silence : (t : TransactionRow) → P t ≡ true → P (silence t) ≡ true
  pub on_unclaim :
      (t : TransactionRow) → is_in_progress t.alarm_state ≡ true → P t ≡ true → P (unclaim t) ≡ true
  pub on_claim :
      (token : String) (at : ℕ) (t : TransactionRow)
      → is_pending t ≡ true
      → P t ≡ true
      → P (claim token at t) ≡ true
  pub on_deliver :
      (token : String) (at_ms : ℤ) (t : TransactionRow)
      → is_held_by token t ≡ true
      → P t ≡ true
      → P (deliver at_ms t) ≡ true
  pub on_camera :
      (camera : Option String) (t : TransactionRow)
      → P t ≡ true
      → P (record t { camera_id = camera }) ≡ true
  pub on_attach :
      (filename : String) (bytes revision : ℤ) (t : TransactionRow)
      → P t ≡ true
      → P (attach filename bytes revision t) ≡ true
  pub on_detach : (t : TransactionRow) → P t ≡ true → P (detach t) ≡ true
  pub on_forget : (t : TransactionRow) → P t ≡ true → P (forget_camera t) ≡ true
  pub on_expire :
      (now_ms : ℤ) (reason : String) (t : TransactionRow)
      → P t ≡ true
      → P (expire now_ms reason t) ≡ true
  pub on_account : (size : String → ℤ) (t : TransactionRow) → P t ≡ true → P (account size t) ≡ true
  pub on_remeasure :
      (bytes revision : ℤ) (t : TransactionRow) → P t ≡ true → P (remeasure bytes revision t) ≡ true
  pub on_note :
      (note : String) (revision : ℤ) (t : TransactionRow)
      → P t ≡ true
      → P (record t { note = note; note_revision = revision }) ≡ true
