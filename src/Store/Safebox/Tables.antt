-- ===== src/Store/Safebox/Tables.antt =====
-- The operations on orders that leave the table of tasks alone (internal/state/deposit.go: the ends of
-- UpdateSafeboxTaskInitOK and UpdateSafeboxTaskProcessed).
use goat_relayer.Prelude.{ℕ, ◌≡◌, refl, ◌∙◌, subst, List, [], ◌∷◌, true, if-split, Option-split}
use goat_relayer.Store.{
  init, pending, confirmed, processed, SendOrder, Vin, spent, Db, Result, ok, err, ◌>>=◌, is,
  one_of, each,
}
use goat_relayer.Store.Rows.{
  get_order_by_txid, get_vins, save_order, update_other_status_by_order,
  update_other_status_by_txid, update_withdraw_status_by_order_id, update_utxo_status_spent,
  get_utxo, set_utxo_spent,
}
use goat_relayer.Store.Progress.{get_all_orders, spend_vin, settled, is_nil}
use goat_relayer.Store.Steps.{SameView, each-SameView}
use goat_relayer.Store.Safebox.{process_order, process_timelock, init_timelock_order}
use goat_relayer.Store.Safebox.Moves.{TaskTable, finish_all, TablePath, next, task_table, PathTo}

-- The order of a timelock transaction is initialised without its task.
pub init_timelock_order-table :
    (txid : ℕ) (d : Db) → task_table d ≡ task_table (init_timelock_order txid d)
unfolding init_timelock_order update_other_status_by_order save_order
init_timelock_order-table txid d =
    let P : Db → Type 0 = λ e. task_table d ≡ task_table e in
    Option-split P (get_order_by_txid txid d) (λ _. refl)
      (λ o _. if-split P (settled o.status) (λ _. refl) (λ _. refl))

spend_vin-table : (block : ℕ) (v : Vin) (d : Db) → SameView task_table d (spend_vin block v d)
unfolding spend_vin update_utxo_status_spent set_utxo_spent
spend_vin-table block v d =
    Option-split (SameView task_table d) (get_utxo v.txid v.out_index d) (λ _. tt)
      (λ u _.
        if-split (λ (e : Db). task_table d ≡ task_table e) (is u.status spent) (λ _. refl)
          (λ _. refl))

pub SameView-trans :
    (a b : Db) (r : Result Db)
    → task_table a ≡ task_table b
    → SameView task_table b r
    → SameView task_table a r
SameView-trans a b (ok e) h k = h ∙ k
SameView-trans a b (err x) h k = tt

each_result-table :
    {A : Type 0} (step : A → Db → Result Db)
    → ((x : A) (d : Db) → SameView task_table d (step x d))
    → (xs : List A) (d : Db) (r : Result Db) → each step xs d ≡ r
    → SameView task_table d r
each_result-table step h xs d (ok e) k = each-SameView task_table step h xs d e k
each_result-table step h xs d (err x) k = tt

pub process_order-table : (o : SendOrder) (d : Db) → SameView task_table d (process_order o d)
unfolding process_order update_withdraw_status_by_order_id update_other_status_by_order save_order
process_order-table o d =
    let paid = update_withdraw_status_by_order_id processed o.order_id [] d in
    let marked =
      update_other_status_by_order o.order_id processed true
        (save_order o.id (λ p. record p { status = processed }) paid) in
    if-split (SameView task_table d) (one_of o.status (init ∷ pending ∷ confirmed ∷ []))
      (λ _.
        SameView-trans d marked (each (spend_vin o.btc_block) (get_vins o.order_id marked) marked)
          refl
          (each_result-table (spend_vin o.btc_block) (spend_vin-table o.btc_block)
            (get_vins o.order_id marked) marked
            (each (spend_vin o.btc_block) (get_vins o.order_id marked) marked) refl))
      (λ _. refl)

finish_timelock-step :
    (a : TaskTable) (txid : ℕ) (e : Db) (r : Result Db)
    → TablePath a (task_table e)
    → SameView task_table e r
    → PathTo a (r >>= λ x. ok (update_other_status_by_txid txid processed x))
unfolding update_other_status_by_txid
finish_timelock-step a txid e (ok x) path same =
    next (subst (TablePath a) same path) (finish_all txid refl)
finish_timelock-step a txid e (err x) path same = tt

-- The end of all tasks of a timelock transaction comes after the path so far.
pub process_timelock-step :
    (a : TaskTable) (txid : ℕ) (e : Db)
    → TablePath a (task_table e)
    → PathTo a (process_timelock txid e)
unfolding process_timelock
process_timelock-step a txid e path =
    let orders = get_all_orders txid e in
    if-split (PathTo a) (is_nil orders) (λ _. path)
      (λ _. finish_timelock-step a txid e (each process_order orders e) path (
        each_result-table process_order process_order-table orders e (each process_order orders e)
          refl))
