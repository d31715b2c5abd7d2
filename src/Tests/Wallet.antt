-- ===== src/Tests/Wallet.antt =====
-- A wallet with two UTXOs and a withdrawal: an order takes the second UTXO, is initialised and confirmed.
use goat_relayer.Prelude.{
  ◌≡◌, refl, List, [], ◌∷◌, true, false, ◌⊎◌, none, some, arith, get_elem?, All,
}
use goat_relayer.Table.{find_first, find_last, update_where, exists_row}
use goat_relayer.Table.Evolve.{Evolves, Ascending}
use goat_relayer.Store.{
  closed, create, aggregating, processed, spent, withdrawal, Utxo, Withdraw, SendOrder, Vin, Vout,
  Db, Result, ok, each, after,
}
use goat_relayer.Store.Rows.{
  get_vins, get_order_by_order_id, get_utxo, get_withdraw, insert_order, insert_vin, insert_vout,
  insert_vins, insert_vouts, create_vins, create_vouts, set_utxo_status, save_withdraw,
}
use goat_relayer.Store.Orders.{
  clean_processing_withdraw_by_order_id, lock_utxo, claimable, claim_withdraw, claim_rows,
  create_send_order,
}
use goat_relayer.Store.Progress.{create_withdrawal}
use goat_relayer.Store.Claim.{Waiting, Claimed, DistinctRequests, create_send_order-claims}
use goat_relayer.Store.Request.{IsFresh, create_withdrawal-records}
use goat_relayer.Store.Release.{holds, held_by, clean_processing_withdraw_by_order_id-frees}
use goat_relayer.Store.Spent.{UtxoStep}
use goat_relayer.Store.Lock.{Spendable, Locked, Distinct, create_send_order-locks}
use goat_relayer.Store.Safebox.{create_task, task_init_ok, task_processed}
use goat_relayer.Store.Run.{
  Call, run, send_order, initialized, confirmed_order, clean_all, utxo_processed, safebox_task,
  vin_seen,
}
use goat_relayer.Store.Run.Safety.{run-Evolves, run-spent}

abbrev old_coin : Utxo
old_coin = record {
  id = 1;
  txid = 70;
  out_index = 0;
  amount = 500;
  receiver_type = 1;
  sub_script = 0;
  status = spent;
  spent_block = 9;
}

abbrev coin_two : Utxo
coin_two = record {
  id = 2;
  txid = 71;
  out_index = 1;
  amount = 90000;
  receiver_type = 1;
  sub_script = 0;
  status = processed;
  spent_block = 0;
}

abbrev request_five : Withdraw
request_five = record {
  id = 3;
  request_id = 5;
  goat_block = 8;
  amount = 60000;
  tx_price = 4;
  tx_fee = 0;
  sender = 11;
  receiver = 12;
  status = create;
  order_id = 0;
  txid = 0;
  reason = 0;
}

abbrev small_db : Db
small_db = record {
  utxos = old_coin ∷ coin_two ∷ [];
  withdraws = request_five ∷ [];
  orders = [];
  vins = [];
  vouts = [];
  tasks = [];
  next_id = 4;
}

abbrev order_one : SendOrder
order_one = record {
  id = 0;
  order_id = 33;
  pid = 0;
  amount = 60000;
  tx_price = 4;
  status = aggregating;
  order_type = withdrawal;
  btc_block = 0;
  txid = 99;
  tx_fee = 100;
  external_tx_id = 0;
}

abbrev vin_one : Vin
vin_one = record {
  id = 0;
  order_id = 33;
  btc_height = 1;
  txid = 71;
  out_index = 1;
  receiver_type = 1;
  status = aggregating;
}

abbrev vout_one : Vout
vout_one = record {
  id = 0;
  order_id = 33;
  btc_height = 0;
  txid = 99;
  out_index = 0;
  withdraw_id = 5;
  amount = 59900;
  status = aggregating;
}

abbrev result_db : Result Db → Db
result_db r = after small_db r

abbrev created : Result Db
created =
    create_send_order order_one (coin_two ∷ []) (request_five ∷ []) [] (vin_one ∷ [])
      (vout_one ∷ []) true small_db

created_ok : created ≡ ok (result_db created)
unfolding create_send_order insert_order exists_row create_vins create_vouts insert_vins
    insert_vouts insert_vin insert_vout lock_utxo get_utxo find_last find_first set_utxo_status
    update_where each claim_rows claim_withdraw claimable get_withdraw save_withdraw
created_ok = refl

create_send_order-locks_example :
    All (Spendable small_db.utxos) (coin_two ∷ [])
    × All (Locked (result_db created).utxos) (coin_two ∷ [])
    × Distinct (coin_two ∷ [])
create_send_order-locks_example =
    create_send_order-locks order_one (coin_two ∷ []) (request_five ∷ []) [] (vin_one ∷ [])
      (vout_one ∷ []) true small_db (result_db created) created_ok

abbrev calls : List Call
calls =
    send_order order_one (coin_two ∷ []) (request_five ∷ []) [] (vin_one ∷ []) (vout_one ∷ []) true
    ∷ initialized 99 1
    ∷ confirmed_order 99 800000
    ∷ safebox_task (create_task 4 2000 500 60 61)
    ∷ safebox_task (task_init_ok 4 99 0)
    ∷ safebox_task (task_processed 4)
    ∷ vin_seen vin_one
    ∷ utxo_processed 70 0
    ∷ clean_all
    ∷ []

keys-Ascending : Ascending (λ u. u.id) small_db.utxos
keys-Ascending = ((omega arith, tt), (tt, tt))

run-Evolves_example :
    Ascending (λ u. u.id) (run calls small_db).utxos
    × Evolves UtxoStep small_db.utxos (run calls small_db).utxos
run-Evolves_example = run-Evolves calls small_db keys-Ascending

run-spent_example : get_elem? (run calls small_db).utxos 0 ≡ some old_coin
run-spent_example = run-spent calls small_db 0 old_coin keys-Ascending refl refl

order_found : get_order_by_order_id 33 (result_db created) ≡ some (record order_one { id = 4 })
unfolding get_order_by_order_id create_send_order insert_order exists_row create_vins create_vouts
    insert_vins insert_vouts insert_vin insert_vout lock_utxo get_utxo find_last find_first
    set_utxo_status update_where each claim_rows claim_withdraw claimable get_withdraw save_withdraw
order_found = refl

create_send_order-claims_example :
    All (Waiting small_db.withdraws) (request_five ∷ [])
    × All (Claimed 33 (result_db created).withdraws) (request_five ∷ [])
    × DistinctRequests (request_five ∷ [])
create_send_order-claims_example =
    create_send_order-claims order_one (coin_two ∷ []) (request_five ∷ []) [] (vin_one ∷ [])
      (vout_one ∷ []) small_db (result_db created) (λ e. absurd (omega (arith, e))) refl created_ok

create_withdrawal-records_example :
    (d' : Db) × (w : Withdraw) × (create_withdrawal 11 12 8 6 4 70000 small_db ≡ ok d')
    × (get_withdraw 6 d' ≡ some w)
    × ((get_withdraw 6 small_db ≡ some w)
        ⊎ ((get_withdraw 6 small_db ≡ none) × IsFresh 11 12 8 6 4 70000 w))
    × (get_withdraw 5 d' ≡ get_withdraw 5 small_db)
    × (create_withdrawal 0 0 0 6 0 1 d' ≡ ok d')
create_withdrawal-records_example =
    create_withdrawal-records 11 12 8 6 4 70000 small_db 5 0 0 0 0 1
      (λ e. absurd (omega (arith, e)))

clean_processing_withdraw_by_order_id-frees_example :
    (d' : Db) × (clean_processing_withdraw_by_order_id 33 (result_db created) ≡ ok d')
    × (get_order_by_order_id 33 d' ≡ some (record order_one { id = 4; status = closed }))
    × All (λ v. holds v d'.utxos ≡ false) (get_vins 33 (result_db created))
    × All (λ w. held_by 33 w ≡ false) d'.withdraws
clean_processing_withdraw_by_order_id-frees_example =
    clean_processing_withdraw_by_order_id-frees 33 (result_db created) (record order_one { id = 4 })
      order_found refl
