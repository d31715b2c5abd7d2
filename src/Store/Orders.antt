-- ===== src/Store/Orders.antt =====
-- internal/state/withdraw.go: the creation of a send order (`CreateSendOrder`), its recovery from a
-- layer 2 message (`RecoverSendOrder`), and the release of what it holds
-- (`CleanProcessingWithdrawByOrderId`, `CleanProcessingWithdraw`).
use goat_relayer.Prelude.{ℕ, List, [], ◌∷◌, Bool, true, ◌&&◌, none, some, ◌==◌, if◌then◌else◌}
use goat_relayer.Table.{find_first, find_all, assign}
use goat_relayer.Store.{
  Status, OrderType, withdrawal, consolidation, safebox, create, aggregating, init, pending,
  unconfirm, processed, closed, spent, received_ok, Utxo, Withdraw, SendOrder, Vin, Vout,
  SafeboxTask, Db, Result, ok, err, not_found, refused, ◌>>=◌, is, one_of, each,
}
use goat_relayer.Store.Rows.{
  get_utxo, get_withdraw, get_order_by_order_id, get_order_by_txid_and_statuses, get_vins,
  insert_order, create_vins, create_vouts, set_utxo_status, save_order, save_withdraw, save_task,
  update_other_status_by_order, update_withdraw_status_by_order_id,
  update_safebox_task_status_by_order_id, update_withdraw_status_by_statuses,
  update_other_status_by_statuses,
}

-- The loop body over the selected UTXOs of `CreateSendOrder`.
unfoldable pub lock_utxo : Utxo → Db → Result Db
lock_utxo u d = elim (get_utxo u.txid u.out_index d) [
  | none ↦ err not_found
  | some r ↦
      if one_of r.status (unconfirm ∷ pending ∷ spent ∷ [])
      then err refused
      else ok (set_utxo_status r.id pending d)
]

-- The statuses in which a row may be taken into an order: a proposer takes a row once, a voter may receive
-- several orders with the same row.
unfoldable pub claimable : Status → Status → Bool → Status → Bool
claimable first again is_proposer s =
    if is_proposer then is s first else one_of s (first ∷ again ∷ [])

-- The loop body over the safebox tasks.
unfoldable pub claim_task : SendOrder → Bool → SafeboxTask → Db → Result Db
unfolding claimable
claim_task order is_proposer task d = elim (find_first (λ t. t.task_id == task.task_id) d.tasks) [
  | none ↦ err not_found
  | some r ↦
      if claimable received_ok init is_proposer r.status
      then ok (
          save_task r.id
            (λ t. record t {
              status = init;
              order_id = assign order.order_id t.order_id;
              timelock_txid = assign order.txid t.timelock_txid;
            })
            d)
      else err refused
]

-- The loop body over the selected withdrawals.
unfoldable pub claim_withdraw : SendOrder → Bool → Withdraw → Db → Result Db
unfolding claimable
claim_withdraw order is_proposer w d = elim (get_withdraw w.request_id d) [
  | none ↦ err not_found
  | some r ↦
      if claimable create aggregating is_proposer r.status
      then ok (
          save_withdraw r.id
            (λ x. record x {
              status = aggregating;
              order_id = assign order.order_id x.order_id;
              txid = assign order.txid x.txid;
            })
            d)
      else err refused
]

-- The rows that an order claims beside UTXOs, by its type.
unfoldable pub claim_rows :
    OrderType → SendOrder → List Withdraw → List SafeboxTask → Bool → Db → Result Db
unfolding claim_task claim_withdraw each
claim_rows safebox order withdraws tasks is_proposer d = each (claim_task order is_proposer) tasks d
claim_rows withdrawal order withdraws tasks is_proposer d =
    each (claim_withdraw order is_proposer) withdraws d
claim_rows consolidation order withdraws tasks is_proposer d = ok d

unfoldable pub create_send_order :
    SendOrder
    → List Utxo
    → List Withdraw
    → List SafeboxTask
    → List Vin
    → List Vout
    → Bool
    → Db
    → Result Db
create_send_order order utxos withdraws tasks vins vouts is_proposer d = do
  d₁ ← insert_order order d
  d₂ ← create_vins vins d₁
  d₃ ← create_vouts vouts d₂
  d₄ ← each lock_utxo utxos d₃
  claim_rows order.order_type order withdraws tasks is_proposer d₄

-- Step 2 of `RecoverSendOrder`, for one withdrawal.
unfoldable pub recover_withdraw : SendOrder → ℕ → Db → Db
recover_withdraw order request_id d = elim (get_withdraw request_id d) [
  | none ↦ d
  | some r ↦
      if one_of r.status (create ∷ aggregating ∷ [])
      then save_withdraw r.id
          (λ w. record w { status = init; order_id = order.order_id; txid = order.txid }) d
      else d
]

unfoldable pub recover_withdraws : SendOrder → List ℕ → Db → Db
recover_withdraws order [] d = d
recover_withdraws order (i ∷ is) d = recover_withdraws order is (recover_withdraw order i d)

-- Step 3, for one input: the UTXO is locked, and the input takes its receiver type.
unfoldable pub recover_vin : Vin → Db → Db × Vin
recover_vin v d = elim (get_utxo v.txid v.out_index d) [
  | none ↦ (d, v)
  | some r ↦
      if one_of r.status (pending ∷ spent ∷ [])
      then (d, v)
      else (set_utxo_status r.id pending d, record v { receiver_type = r.receiver_type })
]

unfoldable pub recover_vins : List Vin → Db → Db × List Vin
recover_vins [] d = (d, [])
recover_vins (v ∷ vs) d =
    let now = recover_vin v d in let rest = recover_vins vs now.0 in (rest.0, now.1 ∷ rest.1)

unfoldable pub recover_send_order : SendOrder → List Vin → List Vout → List ℕ → Db → Result Db
recover_send_order order vins vouts withdraw_ids d =
    elim (get_order_by_txid_and_statuses order.txid (init ∷ aggregating ∷ []) d) [
      | some known ↦ ok d
      | none ↦
          (let locked = recover_vins vins (recover_withdraws order withdraw_ids d) in
            do
              d₁ ← insert_order order locked.0
              d₂ ← create_vins locked.1 d₁
              create_vouts vouts d₂)
    ]

-- One input of an order that is cleaned: its UTXO, if pending, is free again.
unfoldable pub release_vin : Vin → Db → Db
release_vin v d = elim (find_first (λ u. u.txid == v.txid && u.out_index == v.out_index) d.utxos) [
  | none ↦ d
  | some r ↦ if is r.status pending then set_utxo_status r.id processed d else d
]

unfoldable pub release_vins : List Vin → Db → Db
release_vins [] d = d
release_vins (v ∷ vs) d = release_vins vs (release_vin v d)

-- The body that both cleaning functions share: close an aggregating order and free its rows.
unfoldable pub close_order : SendOrder → Db → Db
close_order o d =
    let closed_db = save_order o.id (λ p. record p { status = closed }) d in
    let freed = release_vins (get_vins o.order_id closed_db) closed_db in
    let others = update_other_status_by_order o.order_id closed true freed in
    let withdraws_back =
      update_withdraw_status_by_order_id create o.order_id (aggregating ∷ []) others in
    update_safebox_task_status_by_order_id received_ok o.order_id (init ∷ []) withdraws_back

unfoldable pub clean_processing_withdraw_by_order_id : ℕ → Db → Result Db
clean_processing_withdraw_by_order_id order_id d = elim (get_order_by_order_id order_id d) [
  | none ↦ ok d
  | some o ↦ if is o.status aggregating then ok (close_order o d) else ok d
]

-- The loop over the aggregating orders ends with its first round: the source returns inside it.
unfoldable pub clean_processing_withdraw : Db → Result Db
clean_processing_withdraw d = elim (find_all (λ o. one_of o.status (aggregating ∷ [])) d.orders) [
  | o ∷ others ↦ ok (close_order o d)
  | [] ↦
      (let restored = update_withdraw_status_by_statuses create (aggregating ∷ []) d in
        ok (update_other_status_by_statuses closed (create ∷ aggregating ∷ []) restored))
]
