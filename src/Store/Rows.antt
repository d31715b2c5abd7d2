-- ===== src/Store/Rows.antt =====
-- The private helpers of internal/state/withdraw.go and internal/state/wallet.go: queries of one
-- row, the saving of a row, and the updates of the rows that belong to an order or a transaction.
-- A row that is read, changed and saved is an update of the changed columns at its primary key.
use goat_relayer.Prelude.{
  ℕ, suc, List, [], ◌∷◌, ◌++◌, Bool, true, ◌&&◌, ◌||◌, Option, none, some, ◌==◌, if◌then◌else◌,
}
use goat_relayer.Table.{find_first, find_last, find_all, update_where, exists_row}
use goat_relayer.Store.{
  Status, Utxo, Withdraw, SendOrder, Vin, Vout, SafeboxTask, Db, Result, ok, err, constraint,
  empty_slice, not_found, is, one_of, pending, spent,
}

-- getUtxo
unfoldable pub get_utxo : ℕ → ℕ → Db → Option Utxo
get_utxo txid out d = find_last (λ u. u.txid == txid && u.out_index == out) d.utxos

-- getWithdrawByRequestId
unfoldable pub get_withdraw : ℕ → Db → Option Withdraw
get_withdraw request_id d = find_first (λ w. w.request_id == request_id) d.withdraws

-- getOrderByTxid
unfoldable pub get_order_by_txid : ℕ → Db → Option SendOrder
get_order_by_txid txid d = find_last (λ o. o.txid == txid) d.orders

-- getOrderByTxidAndStatuses
unfoldable pub get_order_by_txid_and_statuses : ℕ → List Status → Db → Option SendOrder
get_order_by_txid_and_statuses txid statuses d =
    find_last (λ o. o.txid == txid && one_of o.status statuses) d.orders

-- getOrderByOrderId
unfoldable pub get_order_by_order_id : ℕ → Db → Option SendOrder
get_order_by_order_id order_id d = find_first (λ o. o.order_id == order_id) d.orders

-- getVinsByOrderId
unfoldable pub get_vins : ℕ → Db → List Vin
get_vins order_id d = find_all (λ v. v.order_id == order_id) d.vins

-- hasWithdrawByTxidAndStatus
unfoldable pub has_withdraw : ℕ → Status → Db → Bool
has_withdraw txid status d = exists_row (λ w. w.txid == txid && is w.status status) d.withdraws

-- `saveOrder` of an order that is new: the index on order ids is unique.
unfoldable pub insert_order : SendOrder → Db → Result Db
insert_order o d =
    if exists_row (λ p. p.order_id == o.order_id) d.orders
    then err constraint
    else ok (record d {
      orders = d.orders ++ record o { id = d.next_id } ∷ [];
      next_id = suc d.next_id;
    })

unfoldable pub insert_vin : Vin → Db → Db
insert_vin v d = record d {
  vins = d.vins ++ record v { id = d.next_id } ∷ [];
  next_id = suc d.next_id;
}

unfoldable pub insert_vout : Vout → Db → Db
insert_vout v d = record d {
  vouts = d.vouts ++ record v { id = d.next_id } ∷ [];
  next_id = suc d.next_id;
}

unfoldable pub insert_vins : List Vin → Db → Db
insert_vins [] d = d
insert_vins (v ∷ vs) d = insert_vins vs (insert_vin v d)

unfoldable pub insert_vouts : List Vout → Db → Db
insert_vouts [] d = d
insert_vouts (v ∷ vs) d = insert_vouts vs (insert_vout v d)

-- `tx.Create(&vins)`: gorm refuses an empty slice.
unfoldable pub create_vins : List Vin → Db → Result Db
unfolding insert_vin insert_vins
create_vins [] d = err empty_slice
create_vins (v ∷ vs) d = ok (insert_vins (v ∷ vs) d)

unfoldable pub create_vouts : List Vout → Db → Result Db
unfolding insert_vout insert_vouts
create_vouts [] d = err empty_slice
create_vouts (v ∷ vs) d = ok (insert_vouts (v ∷ vs) d)

-- The status of the UTXO with this primary key.
unfoldable pub set_utxo_status : ℕ → Status → Db → Db
set_utxo_status id status d = record d {
  utxos = update_where (λ u. u.id == id) (λ u. record u { status = status }) d.utxos;
}

unfoldable pub set_utxo_spent : ℕ → ℕ → Db → Db
set_utxo_spent id block d = record d {
  utxos =
      update_where (λ u. u.id == id) (λ u. record u { status = spent; spent_block = block })
        d.utxos;
}

-- updateUtxoStatusSpent
unfoldable pub update_utxo_status_spent : ℕ → ℕ → ℕ → Db → Result Db
unfolding get_utxo set_utxo_spent
update_utxo_status_spent txid out block d = elim (get_utxo txid out d) [
  | none ↦ err not_found
  | some u ↦ ok (if is u.status spent then d else set_utxo_spent u.id block d)
]

-- updateUtxoStatusPending
unfoldable pub update_utxo_status_pending : ℕ → ℕ → Db → Result Db
unfolding get_utxo set_utxo_status
update_utxo_status_pending txid out d = elim (get_utxo txid out d) [
  | none ↦ err not_found
  | some u ↦
      ok (if is u.status spent || is u.status pending then d else set_utxo_status u.id pending d)
]

-- The columns of an order that a `saveOrder` after a read changes.
unfoldable pub save_order : ℕ → (SendOrder → SendOrder) → Db → Db
save_order id f d = record d { orders = update_where (λ o. o.id == id) f d.orders }

unfoldable pub save_withdraw : ℕ → (Withdraw → Withdraw) → Db → Db
save_withdraw id f d = record d { withdraws = update_where (λ w. w.id == id) f d.withdraws }

unfoldable pub save_task : ℕ → (SafeboxTask → SafeboxTask) → Db → Db
save_task id f d = record d { tasks = update_where (λ t. t.id == id) f d.tasks }

-- updateOtherStatusByOrder
unfoldable pub update_other_status_by_order : ℕ → Status → Bool → Db → Db
update_other_status_by_order order_id status exclude_withdraw d =
    let rest = if exclude_withdraw then d else record d {
      withdraws =
          update_where (λ w. w.order_id == order_id) (λ w. record w { status = status })
            d.withdraws;
      tasks =
          update_where (λ t. t.order_id == order_id) (λ t. record t { status = status }) d.tasks;
    } in
    record rest {
      vins = update_where (λ v. v.order_id == order_id) (λ v. record v { status = status }) d.vins;
      vouts =
          update_where (λ v. v.order_id == order_id) (λ v. record v { status = status }) d.vouts;
    }

-- updateOtherStatusByTxid
unfoldable pub update_other_status_by_txid : ℕ → Status → Db → Db
update_other_status_by_txid txid status d = record d {
  withdraws = update_where (λ w. w.txid == txid) (λ w. record w { status = status }) d.withdraws;
  tasks = update_where (λ t. t.timelock_txid == txid) (λ t. record t { status = status }) d.tasks;
  vins = update_where (λ v. v.txid == txid) (λ v. record v { status = status }) d.vins;
  vouts = update_where (λ v. v.txid == txid) (λ v. record v { status = status }) d.vouts;
}

-- An empty list of raw statuses stands for no condition on the status.
unfoldable pub raw_match : Status → List Status → Bool
raw_match s [] = true
raw_match s (t ∷ ts) = one_of s (t ∷ ts)

-- updateWithdrawStatusByOrderId
unfoldable pub update_withdraw_status_by_order_id : Status → ℕ → List Status → Db → Db
unfolding raw_match
update_withdraw_status_by_order_id status order_id raw d = record d {
  withdraws =
      update_where (λ w. w.order_id == order_id && raw_match w.status raw)
        (λ w. record w { status = status }) d.withdraws;
}

-- updateSafeboxTaskStatusByOrderId
unfoldable pub update_safebox_task_status_by_order_id : Status → ℕ → List Status → Db → Db
unfolding raw_match
update_safebox_task_status_by_order_id status order_id raw d = record d {
  tasks =
      update_where (λ t. t.order_id == order_id && raw_match t.status raw)
        (λ t. record t { status = status }) d.tasks;
}

-- updateWithdrawStatusByStatuses
unfoldable pub update_withdraw_status_by_statuses : Status → List Status → Db → Db
update_withdraw_status_by_statuses status raw d = record d {
  withdraws =
      update_where (λ w. one_of w.status raw) (λ w. record w { status = status }) d.withdraws;
}

-- updateOtherStatusByStatuses
unfoldable pub update_other_status_by_statuses : Status → List Status → Db → Db
update_other_status_by_statuses status raw d = record d {
  vins = update_where (λ v. one_of v.status raw) (λ v. record v { status = status }) d.vins;
  vouts = update_where (λ v. one_of v.status raw) (λ v. record v { status = status }) d.vouts;
}
