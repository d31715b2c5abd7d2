-- ===== src/Store/Progress.antt =====
-- internal/state/withdraw.go: a send order on its way, as it is initialised, broadcast, confirmed and
-- finalised, and the withdrawals that requests create, replace and cancel.
use goat_relayer.Prelude.{
  ℕ, suc, List, [], ◌∷◌, ◌++◌, Bool, true, false, ◌||◌, Option, none, some, ◌==◌, if◌then◌else◌,
}
use mathlib.Core.List.{reverse}
use goat_relayer.Table.{find_all, update_where}
use goat_relayer.Store.{
  Status, create, aggregating, init, pending, unconfirm, confirmed, processed, closed, canceling,
  spent, Utxo, SendOrder, Vin, Vout, Db, Result, ok, err, not_found, refused, nil_deref, ◌>>=◌, is,
  one_of, each,
}
use goat_relayer.Store.Rows.{
  get_utxo, get_withdraw, get_order_by_txid, get_vins, has_withdraw, insert_order, insert_vins,
  insert_vouts, set_utxo_status, save_order, save_withdraw, update_utxo_status_spent,
  update_utxo_status_pending, update_other_status_by_order, update_other_status_by_txid,
  update_withdraw_status_by_order_id,
}

-- The text "canceled" of `Withdraw.Reason`.
abbrev pub canceled_text : ℕ
canceled_text = 1

unfoldable pub create_withdrawal : ℕ → ℕ → ℕ → ℕ → ℕ → ℕ → Db → Result Db
create_withdrawal sender receiver block id tx_price amount d = elim (get_withdraw id d) [
  | some known ↦ ok d
  | none ↦ ok (record d {
    withdraws =
        d.withdraws
        ++ record {
          id = d.next_id;
          request_id = id;
          goat_block = block;
          amount = amount;
          tx_price = tx_price;
          tx_fee = 0;
          sender = sender;
          receiver = receiver;
          status = create;
          order_id = 0;
          txid = 0;
          reason = 0;
        }
          ∷ [];
    next_id = suc d.next_id;
  })
]

unfoldable pub update_withdraw_replace : ℕ → ℕ → Db → Result Db
update_withdraw_replace id tx_price d = elim (get_withdraw id d) [
  | none ↦ err not_found
  | some w ↦ ok (
      if one_of w.status (create ∷ aggregating ∷ [])
      then save_withdraw w.id (λ x. record x { tx_price = tx_price }) d
      else d)
]

unfoldable pub update_withdraw_canceling : ℕ → Db → Result Db
update_withdraw_canceling id d = elim (get_withdraw id d) [
  | none ↦ err not_found
  | some w ↦ ok (
      if one_of w.status (create ∷ aggregating ∷ [])
      then save_withdraw w.id (λ x. record x { status = canceling }) d
      else d)
]

unfoldable pub update_withdraw_canceled : ℕ → Db → Result Db
update_withdraw_canceled id d = elim (get_withdraw id d) [
  | none ↦ ok d
  | some w ↦ ok (save_withdraw w.id (λ x. record x { status = closed; reason = canceled_text }) d)
]

-- CloseWithdrawByRequestId; an empty reason is not assigned.
unfoldable pub close_withdraw_by_request_id : ℕ → ℕ → Db → Result Db
close_withdraw_by_request_id request_id reason d = ok (record d {
  withdraws =
      update_where (λ w. w.request_id == request_id)
        (λ w. record w { status = closed; reason = if reason == 0 then w.reason else reason })
        d.withdraws;
})

-- The orders that no progress reaches any more.
abbrev pub settled : Status → Bool
settled s = one_of s (confirmed ∷ processed ∷ closed ∷ [])

unfoldable pub update_send_order_initlized : ℕ → ℕ → Db → Result Db
update_send_order_initlized txid external_tx_id d = elim (get_order_by_txid txid d) [
  | none ↦ ok d
  | some o ↦
      if settled o.status
      then ok d
      else ok (
          update_other_status_by_order o.order_id init true
            (save_order o.id (λ p. record p { status = init; external_tx_id = external_tx_id }) d))
]

-- The end of `UpdateSendOrderPending`, for an order with this key, number and status.
unfoldable pub mark_pending : ℕ → ℕ → Status → ℕ → Db → Db
mark_pending id order_id status external_tx_id d =
    if settled status
    then d
    else update_other_status_by_order order_id pending false
        (save_order id (λ p. record p { status = pending; external_tx_id = external_tx_id }) d)

unfoldable pub recover_utxo : Utxo → Db → Result Db
recover_utxo u d = elim (get_utxo u.txid u.out_index d) [
  | none ↦ err not_found
  | some r ↦
      if one_of r.status (pending ∷ spent ∷ unconfirm ∷ [])
      then err refused
      else ok (set_utxo_status r.id pending d)
]

-- A withdrawal that is not found leaves a nil pointer, which is read.
unfoldable pub claim_broadcast_withdraw : SendOrder → ℕ → ℕ → Db → Result Db
claim_broadcast_withdraw order txid id d = elim (get_withdraw id d) [
  | none ↦ err nil_deref
  | some w ↦
      if one_of w.status (aggregating ∷ create ∷ [])
      then ok (
          save_withdraw w.id
            (λ x. record x { order_id = order.order_id; txid = txid; status = init }) d)
      else err refused
]

unfoldable pub own_vins : ℕ → List Vin → List Vin
own_vins order_id [] = []
own_vins order_id (v ∷ vs) = record v { order_id = order_id } ∷ own_vins order_id vs

unfoldable pub own_vouts : ℕ → List Vout → List Vout
own_vouts order_id [] = []
own_vouts order_id (v ∷ vs) = record v { order_id = order_id } ∷ own_vouts order_id vs

unfoldable pub is_nil : {A : Type 0} → List A → Bool
is_nil [] = true
is_nil (x ∷ xs) = false

-- The recovery of an order that this node does not know, from the message of another.
unfoldable pub recover_broadcast :
    ℕ → List ℕ → SendOrder → List Utxo → List Vin → List Vout → Db → Result Db
unfolding own_vins own_vouts
recover_broadcast txid withdraw_ids order utxos vins vouts d = do
  d₁ ← insert_order order d
  d₂ ← each recover_utxo utxos d₁
  let d₃ = insert_vins (own_vins order.order_id vins) d₂
  d₄ ← each (claim_broadcast_withdraw order txid) withdraw_ids d₃
  ok (insert_vouts (own_vouts order.order_id vouts) d₄)

unfoldable pub update_send_order_pending :
    ℕ → ℕ → List ℕ → Option SendOrder → List Utxo → List Vin → List Vout → Db → Result Db
unfolding is_nil
update_send_order_pending txid external_tx_id withdraw_ids order utxos vins vouts d =
    elim (get_order_by_txid txid d) [
      | some o ↦ ok (mark_pending o.id o.order_id o.status external_tx_id d)
      | none ↦ elim order [
        | none ↦ err refused
        | some o ↦
            if is_nil utxos || is_nil vins || is_nil vouts
            then err refused
            else recover_broadcast txid withdraw_ids o utxos vins vouts d >>= λ r.
                ok (mark_pending d.next_id o.order_id o.status external_tx_id r)
      ]
    ]

-- The loop over the inputs of an order: their UTXOs are spent.
unfoldable pub spend_vin : ℕ → Vin → Db → Result Db
unfolding update_utxo_status_spent
spend_vin block v d = update_utxo_status_spent v.txid v.out_index block d

unfoldable pub update_send_order_confirmed : ℕ → ℕ → Db → Result Db
update_send_order_confirmed txid btc_block d = elim (get_order_by_txid txid d) [
  | some o ↦
      if settled o.status
      then ok d
      else (let marked =
            update_other_status_by_order o.order_id confirmed false
              (save_order o.id (λ p. record p { btc_block = btc_block; status = confirmed }) d) in
          each (spend_vin btc_block) (get_vins o.order_id marked) marked)
  | none ↦ ok (
      update_other_status_by_txid txid
        (if has_withdraw txid processed d then processed else confirmed) d)
]

-- getAllOrdersByTxid: the latest first.
unfoldable pub get_all_orders : ℕ → Db → List SendOrder
get_all_orders txid d = reverse (find_all (λ o. o.txid == txid) d.orders)

unfoldable pub pend_vin : Vin → Db → Result Db
unfolding update_utxo_status_pending
pend_vin v d = update_utxo_status_pending v.txid v.out_index d

-- The loop body of `UpdateWithdrawInitialized`: the latest order of the transaction is
-- initialised, the older ones are closed.
unfoldable pub initialize_order : ℕ → Status → SendOrder → Db → Result Db
initialize_order pid new_status o d =
    if one_of o.status (aggregating ∷ closed ∷ [])
    then (let marked =
          update_withdraw_status_by_order_id init o.order_id (create ∷ aggregating ∷ closed ∷ []) (
            update_other_status_by_order o.order_id new_status true
              (save_order o.id (λ p. record p { status = new_status; pid = pid }) d)) in
        if is new_status init then each pend_vin (get_vins o.order_id marked) marked else ok marked)
    else ok d

unfoldable pub initialize_orders : ℕ → Status → List SendOrder → Db → Result Db
initialize_orders pid status [] d = ok d
initialize_orders pid status (o ∷ os) d =
    initialize_order pid status o d >>= initialize_orders pid closed os

unfoldable pub update_withdraw_initialized : ℕ → ℕ → Db → Result Db
update_withdraw_initialized txid pid d = initialize_orders pid init (get_all_orders txid d) d

-- The loop body of `UpdateWithdrawFinalized`.
unfoldable pub finalize_order : ℕ → SendOrder → Db → Result Db
finalize_order pid o d =
    let paid = update_withdraw_status_by_order_id processed o.order_id [] d in
    if one_of o.status (init ∷ pending ∷ confirmed ∷ [])
    then (let marked =
          update_other_status_by_order o.order_id processed true
            (save_order o.id (λ p. record p { status = processed; pid = pid }) paid) in
        each (spend_vin o.btc_block) (get_vins o.order_id marked) marked)
    else ok paid

unfoldable pub update_withdraw_finalized : ℕ → ℕ → Db → Result Db
unfolding is_nil
update_withdraw_finalized txid pid d =
    if is_nil (get_all_orders txid d)
    then ok d
    else each (finalize_order pid) (get_all_orders txid d) d >>= λ r.
        ok (update_other_status_by_txid txid processed r)
