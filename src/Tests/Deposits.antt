-- ===== src/Tests/Deposits.antt =====
-- A deposit is found, confirmed by its block and processed; another one is processed before it is seen.
use goat_relayer.Prelude.{◌≡◌, refl, List, [], ◌∷◌, some, replicate, map}
use goat_relayer.Bytes.{Bytes}
use goat_relayer.Table.{find_first, update_where}
use goat_relayer.Store.{processed}
use goat_relayer.Deposit.{
  Deposit, DepositState, found_deposit, query_deposit, insert_deposit, save_deposit, drop_outpoint,
  add_unconfirm_deposit, Place, save_confirm_deposit, update_processed_deposit, DepositCall, found,
  confirm, process, confirm_block, deposit_call, run_deposits,
}
use goat_relayer.Deposit.Rows.{After}
use goat_relayer.Deposit.Run.{run_deposits-After}

abbrev no_deposits : DepositState
no_deposits = record {
  deposits = [];
  latest = found_deposit 0 0 0 0 0 0;
  unconfirm_queue = [];
  sig_queue = [];
  next_id = 1;
}

abbrev place : Place
place = record { block_hash = 900; block_height = 101; merkle_root = []; proof = []; tx_index = 2 }

abbrev hash_of : Bytes → Bytes
hash_of bs = replicate 32 0

abbrev early_calls : List DepositCall
early_calls =
    found 70 1 40 1 0 5000
    ∷ found 70 1 40 1 0 5000
    ∷ process 71 1 41
    ∷ confirm 71 6000 1 41 1 1 place
    ∷ confirm 70 5000 1 40 1 0 place
    ∷ process 70 0 40
    ∷ []

early_calls-statuses :
    map
      (λ (d : Deposit). d.status)
      (run_deposits hash_of (λ t. some (replicate 32 t)) early_calls no_deposits).deposits
    ≡ processed ∷ processed ∷ []
unfolding run_deposits deposit_call add_unconfirm_deposit query_deposit find_first insert_deposit
    update_processed_deposit drop_outpoint save_confirm_deposit save_deposit update_where
early_calls-statuses = refl

run_deposits-After_example : After no_deposits (
    run_deposits hash_of
      (λ t. some (replicate 32 t))
      (found 70 1 40 1 0 5000 ∷ confirm_block 101 900 (69 ∷ 70 ∷ []) ∷ early_calls)
      no_deposits)
run_deposits-After_example =
    run_deposits-After hash_of (λ t. some (replicate 32 t))
      (found 70 1 40 1 0 5000 ∷ confirm_block 101 900 (69 ∷ 70 ∷ []) ∷ early_calls) no_deposits
      ((tt, tt, tt), tt, tt)
