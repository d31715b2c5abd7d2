-- ===== src/Store/Spent/Safebox.antt =====
-- The operations on the tasks of the safebox (internal/state/deposit.go, internal/state/safebox.go) and the table
-- of UTXOs: only the timelock transaction of a processed task spends any.
use goat_relayer.Prelude.{ℕ, [], ◌∷◌, true, ◌==◌, if-split, Option-split}
use goat_relayer.Int64.{lt64}
use goat_relayer.Table.{exists_row}
use goat_relayer.Store.{
  create, received, received_ok, init, init_ok, pending, confirmed, processed, SendOrder, Db, ok,
  is, one_of, each,
}
use goat_relayer.Store.Rows.{
  get_order_by_txid, get_vins, save_order, save_task, update_other_status_by_order,
  update_other_status_by_txid, update_withdraw_status_by_order_id,
}
use goat_relayer.Store.Progress.{get_all_orders, settled, is_nil}
use goat_relayer.Store.Safebox.{
  live_task_by_id, live_task_by_address, live_task_by_timelock, init_task_by_txid,
  processed_task_by_id, update_safebox_task_cancelled, create_safebox_task,
  update_safebox_task_completed, process_order, process_timelock, update_safebox_task_processed,
  init_timelock_order, update_safebox_task_init_ok, update_safebox_task_init,
  update_safebox_task_received_ok, update_safebox_task_received, revert_safebox_task, TaskCall,
  create_task, task_cancelled, task_completed, task_processed, task_init_ok, task_init,
  task_received_ok, task_received, revert_task, task_call,
}
use goat_relayer.Store.Spent.{Kept, Kept-refl, KeptResult, KeptResult-bind, each-KeptResult}
use goat_relayer.Store.Spent.Progress.{spend_vins-KeptResult}

process_order-KeptResult : (o : SendOrder) (d : Db) → KeptResult d (process_order o d)
unfolding process_order save_order update_other_status_by_order update_withdraw_status_by_order_id
process_order-KeptResult o d =
    let paid = update_withdraw_status_by_order_id processed o.order_id [] d in
    if-split (KeptResult d) (one_of o.status (init ∷ pending ∷ confirmed ∷ []))
      (λ _.
        let marked =
          update_other_status_by_order o.order_id processed true
            (save_order o.id (λ p. record p { status = processed }) paid) in
        spend_vins-KeptResult o.btc_block (get_vins o.order_id marked) marked)
      (λ _. Kept-refl d.utxos)

process_timelock-KeptResult : (txid : ℕ) (d : Db) → KeptResult d (process_timelock txid d)
unfolding process_timelock update_other_status_by_txid
process_timelock-KeptResult txid d =
    if-split (KeptResult d) (is_nil (get_all_orders txid d)) (λ _. Kept-refl d.utxos)
      (λ _.
        KeptResult-bind d (each process_order (get_all_orders txid d) d)
          (λ r. ok (update_other_status_by_txid txid processed r))
          (each-KeptResult process_order process_order-KeptResult (get_all_orders txid d) d)
          (λ r. Kept-refl r.utxos))

task_processed-KeptResult : (i : ℕ) (d : Db) → KeptResult d (update_safebox_task_processed i d)
unfolding update_safebox_task_processed save_task
task_processed-KeptResult i d =
    Option-split (KeptResult d) (live_task_by_id i d) (λ _. tt)
      (λ t _.
        if-split (KeptResult d) (one_of t.status (confirmed ∷ init_ok ∷ []))
          (λ _.
            process_timelock-KeptResult t.timelock_txid
              (save_task t.id (λ x. record x { status = processed }) d))
          (λ _. tt))

init_timelock_order-Kept : (txid : ℕ) (d : Db) → Kept d.utxos (init_timelock_order txid d).utxos
unfolding init_timelock_order save_order update_other_status_by_order
init_timelock_order-Kept txid d =
    Option-split (λ (e : Db). Kept d.utxos e.utxos) (get_order_by_txid txid d)
      (λ _. Kept-refl d.utxos)
      (λ o _.
        if-split (λ (e : Db). Kept d.utxos e.utxos) (settled o.status) (λ _. Kept-refl d.utxos)
          (λ _. Kept-refl d.utxos))

task_init_ok-KeptResult :
    (i txid out : ℕ) (d : Db) → KeptResult d (update_safebox_task_init_ok i txid out d)
unfolding update_safebox_task_init_ok save_task
task_init_ok-KeptResult i txid out d =
    Option-split (KeptResult d) (live_task_by_id i d) (λ _. tt)
      (λ t _.
        if-split (KeptResult d) (one_of t.status (init ∷ received_ok ∷ received ∷ create ∷ []))
          (λ _. init_timelock_order-Kept txid (
            save_task t.id
              (λ x. record x { timelock_txid = txid; timelock_out_index = out; status = init_ok })
              d))
          (λ _. tt))

task_init-KeptResult :
    (address txid out : ℕ) (d : Db) → KeptResult d (update_safebox_task_init address txid out d)
unfolding update_safebox_task_init save_task
task_init-KeptResult address txid out d =
    Option-split (KeptResult d) (live_task_by_timelock address d) (λ _. tt)
      (λ t _.
        if-split (KeptResult d) (one_of t.status (received_ok ∷ received ∷ create ∷ []))
          (λ _. Kept-refl d.utxos) (λ _. tt))

task_received_ok-KeptResult :
    (i txid out : ℕ) (d : Db) → KeptResult d (update_safebox_task_received_ok i txid out d)
unfolding update_safebox_task_received_ok save_task
task_received_ok-KeptResult i txid out d =
    Option-split (KeptResult d) (live_task_by_id i d) (λ _. tt)
      (λ t _.
        if-split (KeptResult d) (one_of t.status (received ∷ create ∷ [])) (λ _. Kept-refl d.utxos)
          (λ _. tt))

task_received-KeptResult :
    (now txid address out amount : ℕ) (d : Db)
    → KeptResult d (update_safebox_task_received now txid address out amount d)
unfolding update_safebox_task_received save_task
task_received-KeptResult now txid address out amount d =
    let P : Db → Type 0 = λ e. Kept d.utxos e.utxos in
    Option-split (KeptResult d) (live_task_by_address address d) (λ _. Kept-refl d.utxos)
      (λ t _.
        if-split P (is t.status create)
          (λ _.
            if-split P (lt64 t.deadline now) (λ _. Kept-refl d.utxos)
              (λ _.
                if-split P (amount == t.amount) (λ _. Kept-refl d.utxos) (λ _. Kept-refl d.utxos)))
          (λ _. Kept-refl d.utxos))

create_task-KeptResult :
    (i deadline amount address timelock : ℕ) (d : Db)
    → KeptResult d (create_safebox_task i deadline amount address timelock d)
unfolding create_safebox_task
create_task-KeptResult i deadline amount address timelock d =
    Option-split (KeptResult d) (live_task_by_address address d)
      (λ _.
        if-split (KeptResult d) (exists_row (λ t. t.task_id == i) d.tasks) (λ _. tt)
          (λ _. Kept-refl d.utxos))
      (λ _ _. tt)

task_cancelled-KeptResult : (i : ℕ) (d : Db) → KeptResult d (update_safebox_task_cancelled i d)
unfolding update_safebox_task_cancelled save_task
task_cancelled-KeptResult i d =
    Option-split (KeptResult d) (live_task_by_id i d) (λ _. Kept-refl d.utxos)
      (λ _ _. Kept-refl d.utxos)

task_completed-KeptResult : (i : ℕ) (d : Db) → KeptResult d (update_safebox_task_completed i d)
unfolding update_safebox_task_completed save_task
task_completed-KeptResult i d =
    Option-split (KeptResult d) (processed_task_by_id i d) (λ _. tt) (λ _ _. Kept-refl d.utxos)

revert_task-KeptResult : (txid : ℕ) (d : Db) → KeptResult d (revert_safebox_task txid d)
unfolding revert_safebox_task save_task
revert_task-KeptResult txid d =
    Option-split (KeptResult d) (init_task_by_txid txid d) (λ _. tt) (λ _ _. Kept-refl d.utxos)

pub task_call-KeptResult : (c : TaskCall) (d : Db) → KeptResult d (task_call c d)
unfolding task_call
task_call-KeptResult (create_task i deadline amount address timelock) d =
    create_task-KeptResult i deadline amount address timelock d
task_call-KeptResult (task_cancelled i) d = task_cancelled-KeptResult i d
task_call-KeptResult (task_completed i) d = task_completed-KeptResult i d
task_call-KeptResult (task_processed i) d = task_processed-KeptResult i d
task_call-KeptResult (task_init_ok i txid out) d = task_init_ok-KeptResult i txid out d
task_call-KeptResult (task_init address txid out) d = task_init-KeptResult address txid out d
task_call-KeptResult (task_received_ok i txid out) d = task_received_ok-KeptResult i txid out d
task_call-KeptResult (task_received now txid address out amount) d =
    task_received-KeptResult now txid address out amount d
task_call-KeptResult (revert_task txid) d = revert_task-KeptResult txid d
