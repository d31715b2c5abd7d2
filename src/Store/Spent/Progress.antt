-- ===== src/Store/Spent/Progress.antt =====
-- Initialisation, broadcast, confirmation and finalisation of send orders (internal/state/withdraw.go)
-- and the table of UTXOs.
use goat_relayer.Prelude.{
  ℕ, ◌≡◌, refl, sym, List, [], ◌∷◌, Bool, true, false, Option, arith, ◌==◌, ◌&&◌, ◌||◌, if-split,
  Option-split,
}
use goat_relayer.Store.{
  Status, create, aggregating, init, pending, unconfirm, confirmed, processed, closed, spent, Utxo,
  SendOrder, Vin, Vout, Db, Result, ok, is, one_of, each, ◌>>=◌,
}
use goat_relayer.Store.Rows.{
  get_utxo, get_withdraw, get_order_by_txid, get_vins, insert_order, insert_vins, insert_vouts,
  save_order, save_withdraw, update_utxo_status_spent, update_utxo_status_pending,
  update_other_status_by_order, update_other_status_by_txid, update_withdraw_status_by_order_id,
}
use goat_relayer.Store.Progress.{
  create_withdrawal, update_withdraw_replace, update_withdraw_canceling, update_withdraw_canceled,
  close_withdraw_by_request_id, settled, update_send_order_initlized, mark_pending, recover_utxo,
  claim_broadcast_withdraw, own_vins, own_vouts, is_nil, recover_broadcast,
  update_send_order_pending, spend_vin, update_send_order_confirmed, get_all_orders, pend_vin,
  initialize_order, initialize_orders, update_withdraw_initialized, finalize_order,
  update_withdraw_finalized,
}
use goat_relayer.Store.Spent.{
  Kept, Kept-refl, KeptResult, KeptResult-after, KeptResult-bind, each-KeptResult, one_of-unspent,
  set_utxo_status-last, set_utxo_spent-last, Kept-same,
}
use goat_relayer.Store.Spent.Orders.{insert_order-KeptResult, insert_vins-utxos, insert_vouts-utxos}

pub update_utxo_status_spent-KeptResult :
    (txid out block : ℕ) (d : Db) → KeptResult d (update_utxo_status_spent txid out block d)
unfolding update_utxo_status_spent get_utxo
update_utxo_status_spent-KeptResult txid out block d =
    Option-split (KeptResult d) (get_utxo txid out d) (λ _. tt)
      (λ u found.
        if-split (λ (e : Db). Kept d.utxos e.utxos) (is u.status spent) (λ _. Kept-refl d.utxos)
          (λ no.
            set_utxo_spent-last (λ x. x.txid == txid && x.out_index == out) block d u found
              (λ e. ground (arith, no, e))))

update_utxo_status_pending-KeptResult :
    (txid out : ℕ) (d : Db) → KeptResult d (update_utxo_status_pending txid out d)
unfolding update_utxo_status_pending get_utxo
update_utxo_status_pending-KeptResult txid out d =
    Option-split (KeptResult d) (get_utxo txid out d) (λ _. tt)
      (λ u found.
        if-split (λ (e : Db). Kept d.utxos e.utxos) (is u.status spent || is u.status pending)
          (λ _. Kept-refl d.utxos)
          (λ no.
            set_utxo_status-last (λ x. x.txid == txid && x.out_index == out) pending d u found
              (λ e. ground (arith, no, e))))

pub spend_vins-KeptResult :
    (block : ℕ) (vs : List Vin) (d : Db) → KeptResult d (each (spend_vin block) vs d)
unfolding spend_vin
spend_vins-KeptResult block =
    each-KeptResult (spend_vin block)
      (λ v. update_utxo_status_spent-KeptResult v.txid v.out_index block)

pend_vins-KeptResult : (vs : List Vin) (d : Db) → KeptResult d (each pend_vin vs d)
unfolding pend_vin
pend_vins-KeptResult =
    each-KeptResult pend_vin (λ v. update_utxo_status_pending-KeptResult v.txid v.out_index)

by_order-utxos :
    (order_id : ℕ) (s : Status) (b : Bool) (d : Db)
    → (update_other_status_by_order order_id s b d).utxos ≡ d.utxos
unfolding update_other_status_by_order
by_order-utxos order_id s true d = refl
by_order-utxos order_id s false d = refl

pub create_withdrawal-KeptResult :
    (s r b i p a : ℕ) (d : Db) → KeptResult d (create_withdrawal s r b i p a d)
unfolding create_withdrawal
create_withdrawal-KeptResult s r b i p a d =
    Option-split (KeptResult d) (get_withdraw i d) (λ _. Kept-refl d.utxos)
      (λ _ _. Kept-refl d.utxos)

pub update_withdraw_replace-KeptResult :
    (i p : ℕ) (d : Db) → KeptResult d (update_withdraw_replace i p d)
unfolding update_withdraw_replace save_withdraw
update_withdraw_replace-KeptResult i p d =
    Option-split (KeptResult d) (get_withdraw i d) (λ _. tt)
      (λ w _.
        if-split (λ (e : Db). Kept d.utxos e.utxos) (one_of w.status (create ∷ aggregating ∷ []))
          (λ _. Kept-refl d.utxos) (λ _. Kept-refl d.utxos))

pub update_withdraw_canceling-KeptResult :
    (i : ℕ) (d : Db) → KeptResult d (update_withdraw_canceling i d)
unfolding update_withdraw_canceling save_withdraw
update_withdraw_canceling-KeptResult i d =
    Option-split (KeptResult d) (get_withdraw i d) (λ _. tt)
      (λ w _.
        if-split (λ (e : Db). Kept d.utxos e.utxos) (one_of w.status (create ∷ aggregating ∷ []))
          (λ _. Kept-refl d.utxos) (λ _. Kept-refl d.utxos))

pub update_withdraw_canceled-KeptResult :
    (i : ℕ) (d : Db) → KeptResult d (update_withdraw_canceled i d)
unfolding update_withdraw_canceled save_withdraw
update_withdraw_canceled-KeptResult i d =
    Option-split (KeptResult d) (get_withdraw i d) (λ _. Kept-refl d.utxos)
      (λ _ _. Kept-refl d.utxos)

pub close_withdraw_by_request_id-KeptResult :
    (i r : ℕ) (d : Db) → KeptResult d (close_withdraw_by_request_id i r d)
unfolding close_withdraw_by_request_id
close_withdraw_by_request_id-KeptResult i r d = Kept-refl d.utxos

pub update_send_order_initlized-KeptResult :
    (t x : ℕ) (d : Db) → KeptResult d (update_send_order_initlized t x d)
unfolding update_send_order_initlized save_order update_other_status_by_order
update_send_order_initlized-KeptResult t x d =
    Option-split (KeptResult d) (get_order_by_txid t d) (λ _. Kept-refl d.utxos)
      (λ o _.
        if-split (KeptResult d) (settled o.status) (λ _. Kept-refl d.utxos)
          (λ _. Kept-refl d.utxos))

mark_pending-Kept :
    (id order_id : ℕ) (s : Status) (x : ℕ) (d : Db)
    → Kept d.utxos (mark_pending id order_id s x d).utxos
unfolding mark_pending save_order update_other_status_by_order
mark_pending-Kept id order_id s x d =
    if-split (λ (e : Db). Kept d.utxos e.utxos) (settled s) (λ _. Kept-refl d.utxos)
      (λ _. Kept-refl d.utxos)

recover_utxo-KeptResult : (u : Utxo) (d : Db) → KeptResult d (recover_utxo u d)
unfolding recover_utxo get_utxo
recover_utxo-KeptResult u d =
    Option-split (KeptResult d) (get_utxo u.txid u.out_index d) (λ _. tt)
      (λ r found.
        if-split (KeptResult d) (one_of r.status (pending ∷ spent ∷ unconfirm ∷ [])) (λ _. tt)
          (λ free.
            set_utxo_status-last (λ x. x.txid == u.txid && x.out_index == u.out_index) pending d r
              found (one_of-unspent r.status (pending ∷ spent ∷ unconfirm ∷ []) free refl)))

claim_broadcast_withdraw-KeptResult :
    (o : SendOrder) (t i : ℕ) (d : Db) → KeptResult d (claim_broadcast_withdraw o t i d)
unfolding claim_broadcast_withdraw save_withdraw
claim_broadcast_withdraw-KeptResult o t i d =
    Option-split (KeptResult d) (get_withdraw i d) (λ _. tt)
      (λ w _.
        if-split (KeptResult d) (one_of w.status (aggregating ∷ create ∷ []))
          (λ _. Kept-refl d.utxos) (λ _. tt))

recover_broadcast-KeptResult :
    (t : ℕ) (ids : List ℕ) (o : SendOrder) (us : List Utxo) (vins : List Vin) (vouts : List Vout)
    (d : Db)
    → KeptResult d (recover_broadcast t ids o us vins vouts d)
unfolding recover_broadcast
recover_broadcast-KeptResult t ids o us vins vouts d =
    let last : Db → Result Db = λ d₄. ok (insert_vouts (own_vouts o.order_id vouts) d₄) in
    let third : Db → Result Db = λ d₂.
      each (claim_broadcast_withdraw o t) ids (insert_vins (own_vins o.order_id vins) d₂)
      >>= last in
    KeptResult-bind d (insert_order o d) (λ d₁. each recover_utxo us d₁ >>= third)
      (insert_order-KeptResult o d)
      (λ d₁.
        KeptResult-bind d₁ (each recover_utxo us d₁) third
          (each-KeptResult recover_utxo recover_utxo-KeptResult us d₁)
          (λ d₂.
            let d₃ = insert_vins (own_vins o.order_id vins) d₂ in
            KeptResult-after d₂ d₃ (each (claim_broadcast_withdraw o t) ids d₃ >>= last)
              (Kept-same d₂.utxos d₃.utxos (sym (insert_vins-utxos (own_vins o.order_id vins) d₂)))
              (KeptResult-bind d₃ (each (claim_broadcast_withdraw o t) ids d₃) last
                (each-KeptResult (claim_broadcast_withdraw o t)
                  (claim_broadcast_withdraw-KeptResult o t) ids d₃)
                (λ d₄.
                  Kept-same d₄.utxos (insert_vouts (own_vouts o.order_id vouts) d₄).utxos
                    (sym (insert_vouts-utxos (own_vouts o.order_id vouts) d₄))))))

pub update_send_order_pending-KeptResult :
    (t x : ℕ) (ids : List ℕ) (o : Option SendOrder) (us : List Utxo) (vins : List Vin)
    (vouts : List Vout) (d : Db)
    → KeptResult d (update_send_order_pending t x ids o us vins vouts d)
unfolding update_send_order_pending
update_send_order_pending-KeptResult t x ids o us vins vouts d =
    Option-split (KeptResult d) (get_order_by_txid t d)
      (λ _.
        Option-split (KeptResult d) o (λ _. tt)
          (λ p _.
            if-split (KeptResult d) (is_nil us || is_nil vins || is_nil vouts) (λ _. tt)
              (λ _.
                KeptResult-bind d (recover_broadcast t ids p us vins vouts d)
                  (λ r. ok (mark_pending d.next_id p.order_id p.status x r))
                  (recover_broadcast-KeptResult t ids p us vins vouts d)
                  (λ r. mark_pending-Kept d.next_id p.order_id p.status x r))))
      (λ p _. mark_pending-Kept p.id p.order_id p.status x d)

pub update_send_order_confirmed-KeptResult :
    (t b : ℕ) (d : Db) → KeptResult d (update_send_order_confirmed t b d)
unfolding update_send_order_confirmed save_order update_other_status_by_order
    update_other_status_by_txid
update_send_order_confirmed-KeptResult t b d =
    Option-split (KeptResult d) (get_order_by_txid t d) (λ _. Kept-refl d.utxos)
      (λ o _.
        if-split (KeptResult d) (settled o.status) (λ _. Kept-refl d.utxos)
          (λ _.
            let marked =
              update_other_status_by_order o.order_id confirmed false
                (save_order o.id (λ p. record p { btc_block = b; status = confirmed }) d) in
            spend_vins-KeptResult b (get_vins o.order_id marked) marked))

initialize_order-KeptResult :
    (pid : ℕ) (s : Status) (o : SendOrder) (d : Db) → KeptResult d (initialize_order pid s o d)
unfolding initialize_order save_order update_other_status_by_order
    update_withdraw_status_by_order_id
initialize_order-KeptResult pid s o d =
    if-split (KeptResult d) (one_of o.status (aggregating ∷ closed ∷ []))
      (λ _.
        let marked =
          update_withdraw_status_by_order_id init o.order_id (create ∷ aggregating ∷ closed ∷ []) (
            update_other_status_by_order o.order_id s true
              (save_order o.id (λ p. record p { status = s; pid = pid }) d)) in
        if-split (KeptResult d) (is s init)
          (λ _. pend_vins-KeptResult (get_vins o.order_id marked) marked) (λ _. Kept-refl d.utxos))
      (λ _. Kept-refl d.utxos)

initialize_orders-KeptResult :
    (pid : ℕ) (s : Status) (os : List SendOrder) (d : Db)
    → KeptResult d (initialize_orders pid s os d)
unfolding initialize_orders
initialize_orders-KeptResult pid s [] d = Kept-refl d.utxos
initialize_orders-KeptResult pid s (o ∷ os) d =
    KeptResult-bind d (initialize_order pid s o d) (initialize_orders pid closed os)
      (initialize_order-KeptResult pid s o d) (initialize_orders-KeptResult pid closed os)

pub update_withdraw_initialized-KeptResult :
    (t pid : ℕ) (d : Db) → KeptResult d (update_withdraw_initialized t pid d)
unfolding update_withdraw_initialized
update_withdraw_initialized-KeptResult t pid d =
    initialize_orders-KeptResult pid init (get_all_orders t d) d

finalize_order-KeptResult :
    (pid : ℕ) (o : SendOrder) (d : Db) → KeptResult d (finalize_order pid o d)
unfolding finalize_order save_order update_other_status_by_order update_withdraw_status_by_order_id
finalize_order-KeptResult pid o d =
    let paid = update_withdraw_status_by_order_id processed o.order_id [] d in
    if-split (KeptResult d) (one_of o.status (init ∷ pending ∷ confirmed ∷ []))
      (λ _.
        let marked =
          update_other_status_by_order o.order_id processed true
            (save_order o.id (λ p. record p { status = processed; pid = pid }) paid) in
        spend_vins-KeptResult o.btc_block (get_vins o.order_id marked) marked)
      (λ _. Kept-refl d.utxos)

pub update_withdraw_finalized-KeptResult :
    (t pid : ℕ) (d : Db) → KeptResult d (update_withdraw_finalized t pid d)
unfolding update_withdraw_finalized update_other_status_by_txid
update_withdraw_finalized-KeptResult t pid d =
    if-split (KeptResult d) (is_nil (get_all_orders t d)) (λ _. Kept-refl d.utxos)
      (λ _.
        KeptResult-bind d (each (finalize_order pid) (get_all_orders t d) d)
          (λ r. ok (update_other_status_by_txid t processed r))
          (each-KeptResult (finalize_order pid) (finalize_order-KeptResult pid) (get_all_orders t d)
            d)
          (λ r. Kept-refl r.utxos))
