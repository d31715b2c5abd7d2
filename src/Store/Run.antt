-- ===== src/Store/Run.antt =====
-- The operations of internal/state on the wallet tables as one type, and their sequences. A mutex makes the
-- operations of a node follow one another, and each that can fail after a write is one gorm transaction:
-- what fails is rolled back.
pub mod Safety
use goat_relayer.Prelude.{ℕ, List, [], ◌∷◌, Bool, Option}
use goat_relayer.Store.{Utxo, Withdraw, SendOrder, Vin, Vout, SafeboxTask, Db, Result, after}
use goat_relayer.Store.Rows.{update_utxo_status_spent}
use goat_relayer.Store.Orders.{
  create_send_order, recover_send_order, clean_processing_withdraw_by_order_id,
  clean_processing_withdraw,
}
use goat_relayer.Store.Progress.{
  create_withdrawal, update_withdraw_replace, update_withdraw_canceling, update_withdraw_canceled,
  close_withdraw_by_request_id, update_send_order_initlized, update_send_order_pending,
  update_send_order_confirmed, update_withdraw_initialized, update_withdraw_finalized,
}
use goat_relayer.Store.Safebox.{TaskCall, task_call}
use goat_relayer.Store.Coins.{
  update_utxo_status_processed, update_utxo_status_spent_by_vins, add_or_update_vin,
}

-- A call of an operation with its arguments. AddUtxo, AddDepositResult, UpdateUtxoSubScript and AddOrUpdateVout, which
-- also write these tables, are not modelled.
pub data Call : Type 0 where
  withdrawal_request : ℕ → ℕ → ℕ → ℕ → ℕ → ℕ → Call
  replace : ℕ → ℕ → Call
  cancel : ℕ → Call
  canceled : ℕ → Call
  close : ℕ → ℕ → Call
  send_order :
      SendOrder → List Utxo → List Withdraw → List SafeboxTask → List Vin → List Vout → Bool → Call
  recovery : SendOrder → List Vin → List Vout → List ℕ → Call
  initialized_order : ℕ → ℕ → Call
  pending_order : ℕ → ℕ → List ℕ → Option SendOrder → List Utxo → List Vin → List Vout → Call
  confirmed_order : ℕ → ℕ → Call
  initialized : ℕ → ℕ → Call
  finalized : ℕ → ℕ → Call
  clean_one : ℕ → Call
  clean_all : Call
  utxo_processed : ℕ → ℕ → Call
  utxo_spent : ℕ → ℕ → ℕ → Call
  utxos_spent : List Vin → ℕ → Call
  safebox_task : TaskCall → Call
  vin_seen : Vin → Call

unfoldable pub call : Call → Db → Result Db
call (withdrawal_request s r b i p a) = create_withdrawal s r b i p a
call (replace i p) = update_withdraw_replace i p
call (cancel i) = update_withdraw_canceling i
call (canceled i) = update_withdraw_canceled i
call (close i r) = close_withdraw_by_request_id i r
call (send_order o us ws ts vins vouts b) = create_send_order o us ws ts vins vouts b
call (recovery o vins vouts ids) = recover_send_order o vins vouts ids
call (initialized_order t x) = update_send_order_initlized t x
call (pending_order t x ids o us vins vouts) = update_send_order_pending t x ids o us vins vouts
call (confirmed_order t b) = update_send_order_confirmed t b
call (initialized t p) = update_withdraw_initialized t p
call (finalized t p) = update_withdraw_finalized t p
call (clean_one i) = clean_processing_withdraw_by_order_id i
call clean_all = clean_processing_withdraw
call (utxo_processed t out) = update_utxo_status_processed t out
call (utxo_spent t out b) = update_utxo_status_spent t out b
call (utxos_spent vins b) = update_utxo_status_spent_by_vins vins b
call (safebox_task c) = task_call c
call (vin_seen v) = add_or_update_vin v

unfoldable pub run : List Call → Db → Db
unfolding call
run [] d = d
run (c ∷ cs) d = run cs (after d (call c d))
