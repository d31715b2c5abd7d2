-- ===== src/Store/Run/Safety.antt =====
-- The sequences of operations of internal/state and the table of UTXOs.
use goat_relayer.Prelude.{
  ℕ, zero, suc, ◌≡◌, refl, ap, ◌∙◌, List, [], ◌∷◌, some, get_elem?, ◌==◌, ◌&&◌, if-split,
  Option-split,
}
use goat_relayer.Table.Evolve.{Evolves, Ascending}
use goat_relayer.Store.{
  pending, confirmed, closed, spent, processed, Utxo, Vin, not_found, constraint, empty_slice,
  refused, nil_deref, Db, Result, ok, err, after, is, one_of,
}
use goat_relayer.Store.Rows.{get_utxo, insert_vin, update_utxo_status_spent}
use goat_relayer.Store.Coins.{
  skip_missing, spend_known_vin, add_or_update_vin, record_vin, save_vin, get_vin,
  update_utxo_status_processed, update_utxo_status_spent_by_vins,
}
use goat_relayer.Store.Spent.{
  UtxoStep, Kept, Kept-refl, Kept-trans, KeptResult, KeptResult-bind, each-KeptResult,
  one_of-unspent, set_utxo_status-last,
}
use goat_relayer.Store.Spent.Orders.{
  create_send_order-KeptResult, recover_send_order-KeptResult,
  clean_processing_withdraw_by_order_id-KeptResult, clean_processing_withdraw-KeptResult,
}
use goat_relayer.Store.Spent.Progress.{
  update_utxo_status_spent-KeptResult, create_withdrawal-KeptResult,
  update_withdraw_replace-KeptResult, update_withdraw_canceling-KeptResult,
  update_withdraw_canceled-KeptResult, close_withdraw_by_request_id-KeptResult,
  update_send_order_initlized-KeptResult, update_send_order_pending-KeptResult,
  update_send_order_confirmed-KeptResult, update_withdraw_initialized-KeptResult,
  update_withdraw_finalized-KeptResult,
}
use goat_relayer.Store.Spent.Safebox.{task_call-KeptResult}
use goat_relayer.Store.Run.{
  Call, call, run, withdrawal_request, replace, cancel, canceled, close, send_order, recovery,
  initialized_order, pending_order, confirmed_order, initialized, finalized, clean_one, clean_all,
  utxo_processed, utxo_spent, utxos_spent, safebox_task, vin_seen,
}

update_utxo_status_processed-KeptResult :
    (t out : ℕ) (d : Db) → KeptResult d (update_utxo_status_processed t out d)
unfolding update_utxo_status_processed get_utxo
update_utxo_status_processed-KeptResult t out d =
    Option-split (KeptResult d) (get_utxo t out d) (λ _. tt)
      (λ u found.
        if-split (KeptResult d) (one_of u.status (pending ∷ spent ∷ [])) (λ _. tt)
          (λ free.
            if-split (KeptResult d) (is u.status processed) (λ _. Kept-refl d.utxos)
              (λ _.
                set_utxo_status-last (λ x. x.txid == t && x.out_index == out) processed d u found
                  (one_of-unspent u.status (pending ∷ spent ∷ []) free refl))))

skip_missing-KeptResult :
    (d : Db) (r : Result Db) → KeptResult d r → KeptResult d (skip_missing d r)
unfolding skip_missing
skip_missing-KeptResult d (ok e) h = h
skip_missing-KeptResult d (err not_found) h = Kept-refl d.utxos
skip_missing-KeptResult d (err constraint) h = tt
skip_missing-KeptResult d (err empty_slice) h = tt
skip_missing-KeptResult d (err refused) h = tt
skip_missing-KeptResult d (err nil_deref) h = tt

spend_known_vin-KeptResult :
    (block : ℕ) (v : Vin) (d : Db) → KeptResult d (spend_known_vin block v d)
unfolding spend_known_vin
spend_known_vin-KeptResult block v d =
    skip_missing-KeptResult d (update_utxo_status_spent v.txid v.out_index block d)
      (update_utxo_status_spent-KeptResult v.txid v.out_index block d)

update_utxo_status_spent_by_vins-KeptResult :
    (vs : List Vin) (block : ℕ) (d : Db)
    → KeptResult d (update_utxo_status_spent_by_vins vs block d)
unfolding update_utxo_status_spent_by_vins
update_utxo_status_spent_by_vins-KeptResult vs block d =
    each-KeptResult (spend_known_vin block) (spend_known_vin-KeptResult block) vs d

add_or_update_vin-KeptResult : (v : Vin) (d : Db) → KeptResult d (add_or_update_vin v d)
unfolding add_or_update_vin record_vin save_vin insert_vin
add_or_update_vin-KeptResult v d =
    KeptResult-bind d (spend_known_vin v.btc_height v d) (λ e. ok (record_vin v e))
      (spend_known_vin-KeptResult v.btc_height v d)
      (λ e.
        let P : Db → Type 0 = λ f. Kept e.utxos f.utxos in
        Option-split P (get_vin v.txid v.out_index e) (λ _. Kept-refl e.utxos)
          (λ r _.
            if-split P (is r.status closed) (λ _. Kept-refl e.utxos)
              (λ _.
                if-split P (one_of r.status (confirmed ∷ processed ∷ [])) (λ _. Kept-refl e.utxos)
                  (λ _. Kept-refl e.utxos))))

call-KeptResult : (c : Call) (d : Db) → KeptResult d (call c d)
unfolding call
call-KeptResult (withdrawal_request s r b i p a) d = create_withdrawal-KeptResult s r b i p a d
call-KeptResult (replace i p) d = update_withdraw_replace-KeptResult i p d
call-KeptResult (cancel i) d = update_withdraw_canceling-KeptResult i d
call-KeptResult (canceled i) d = update_withdraw_canceled-KeptResult i d
call-KeptResult (close i r) d = close_withdraw_by_request_id-KeptResult i r d
call-KeptResult (send_order o us ws ts vins vouts b) d =
    create_send_order-KeptResult o us ws ts vins vouts b d
call-KeptResult (recovery o vins vouts ids) d = recover_send_order-KeptResult o vins vouts ids d
call-KeptResult (initialized_order t x) d = update_send_order_initlized-KeptResult t x d
call-KeptResult (pending_order t x ids o us vins vouts) d =
    update_send_order_pending-KeptResult t x ids o us vins vouts d
call-KeptResult (confirmed_order t b) d = update_send_order_confirmed-KeptResult t b d
call-KeptResult (initialized t p) d = update_withdraw_initialized-KeptResult t p d
call-KeptResult (finalized t p) d = update_withdraw_finalized-KeptResult t p d
call-KeptResult (clean_one i) d = clean_processing_withdraw_by_order_id-KeptResult i d
call-KeptResult clean_all d = clean_processing_withdraw-KeptResult d
call-KeptResult (utxo_processed t out) d = update_utxo_status_processed-KeptResult t out d
call-KeptResult (utxo_spent t out b) d = update_utxo_status_spent-KeptResult t out b d
call-KeptResult (utxos_spent vins b) d = update_utxo_status_spent_by_vins-KeptResult vins b d
call-KeptResult (safebox_task c) d = task_call-KeptResult c d
call-KeptResult (vin_seen v) d = add_or_update_vin-KeptResult v d

after-Kept : (d : Db) (r : Result Db) → KeptResult d r → Kept d.utxos (after d r).utxos
after-Kept d (ok e) h = h
after-Kept d (err e) h = Kept-refl d.utxos

run-Kept : (cs : List Call) (d : Db) → Kept d.utxos (run cs d).utxos
unfolding run
run-Kept [] d = Kept-refl d.utxos
run-Kept (c ∷ cs) d =
    let next = after d (call c d) in
    Kept-trans d.utxos next.utxos (run cs next).utxos
      (after-Kept d (call c d) (call-KeptResult c d)) (run-Kept cs next)

-- In a table of UTXOs whose primary keys ascend, whatever calls of `Call` run, the keys ascend afterwards, and every
-- UTXO is still at its place, with its key, transaction, output index and amount; one that
-- is spent is unchanged.
pub run-Evolves :
    (cs : List Call) (d : Db)
    → Ascending (λ u. u.id) d.utxos
    → Ascending (λ u. u.id) (run cs d).utxos × Evolves UtxoStep d.utxos (run cs d).utxos
run-Evolves cs d h = run-Kept cs d h

Evolves-spent :
    (us vs : List Utxo) (i : ℕ) (u : Utxo)
    → Evolves UtxoStep us vs
    → get_elem? us i ≡ some u
    → u.status ≡ spent
    → get_elem? vs i ≡ some u
Evolves-spent [] vs i u p e h = cc
Evolves-spent (x ∷ us) [] i u p e h = absurd p
Evolves-spent (x ∷ us) (y ∷ vs) zero u p e h =
    let same : x ≡ u = cc in
    let kept : y ≡ x = p.0.4 (ap (λ r. r.status) same ∙ h) in ap some (kept ∙ same)
Evolves-spent (x ∷ us) (y ∷ vs) (suc i) u p e h = Evolves-spent us vs i u p.1 e h

-- When the primary keys of the UTXOs ascend, a row that is spent is the same row after every
-- sequence of calls of `Call`, successful or not: it never becomes spendable again.
pub run-spent :
    (cs : List Call) (d : Db) (i : ℕ) (u : Utxo)
    → Ascending (λ r. r.id) d.utxos
    → get_elem? d.utxos i ≡ some u
    → u.status ≡ spent
    → get_elem? (run cs d).utxos i ≡ some u
run-spent cs d i u h e s = Evolves-spent d.utxos (run cs d).utxos i u (run-Kept cs d h).1 e s
