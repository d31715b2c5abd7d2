-- ===== src/Store/Safebox.antt =====
-- internal/state/deposit.go and internal/state/safebox.go: the tasks of the safebox, from the request of layer 2
-- to the timelock transaction. The time of a call is a parameter, in seconds.
pub mod Live
pub mod Moves
pub mod Rows
pub mod Tables
pub mod Steps
use goat_relayer.Prelude.{
  ℕ, suc, List, [], ◌∷◌, ◌++◌, Bool, true, false, not, ◌&&◌, Option, none, some, ◌==◌,
  if◌then◌else◌,
}
use goat_relayer.Int64.{lt64}
use goat_relayer.Table.{find_first, exists_row}
use goat_relayer.Store.{
  Status, create, received, received_ok, init, init_ok, pending, confirmed, processed, completed,
  closed, SendOrder, Vin, SafeboxTask, Db, Result, ok, err, not_found, refused, constraint, ◌>>=◌,
  is, one_of, each,
}
use goat_relayer.Store.Rows.{
  get_order_by_txid, get_vins, save_order, save_task, update_other_status_by_order,
  update_other_status_by_txid, update_withdraw_status_by_order_id,
}
use goat_relayer.Store.Progress.{get_all_orders, spend_vin, settled, is_nil}

-- `status NOT IN (processed, completed, closed)`.
abbrev pub is_live : Status → Bool
is_live s = not (one_of s (processed ∷ completed ∷ closed ∷ []))

-- queryProcessingSafeboxTaskByTaskId
unfoldable pub live_task_by_id : ℕ → Db → Option SafeboxTask
live_task_by_id task_id d = find_first (λ t. t.task_id == task_id && is_live t.status) d.tasks

-- queryProcessingSafeboxTaskByEvmAddr
unfoldable pub live_task_by_address : ℕ → Db → Option SafeboxTask
live_task_by_address address d =
    find_first (λ t. t.deposit_address == address && is_live t.status) d.tasks

-- queryProcessingSafeboxTaskByTimelockAddress
unfoldable pub live_task_by_timelock : ℕ → Db → Option SafeboxTask
live_task_by_timelock address d =
    find_first (λ t. t.timelock_address == address && is_live t.status) d.tasks

-- queryProcessingSafeboxTaskByTimelockTxid
unfoldable pub init_task_by_txid : ℕ → Db → Option SafeboxTask
init_task_by_txid txid d = find_first (λ t. t.timelock_txid == txid && is t.status init) d.tasks

-- queryProcessedSafeboxTaskByTaskId
unfoldable pub processed_task_by_id : ℕ → Db → Option SafeboxTask
processed_task_by_id task_id d =
    find_first (λ t. t.task_id == task_id && is t.status processed) d.tasks

unfoldable pub update_safebox_task_cancelled : ℕ → Db → Result Db
update_safebox_task_cancelled task_id d = elim (live_task_by_id task_id d) [
  | none ↦ ok d
  | some t ↦ ok (save_task t.id (λ x. record x { status = closed }) d)
]

-- The index on task ids is unique.
unfoldable pub create_safebox_task : ℕ → ℕ → ℕ → ℕ → ℕ → Db → Result Db
create_safebox_task task_id deadline amount deposit_address timelock_address d =
    elim (live_task_by_address deposit_address d) [
      | some t ↦ err refused
      | none ↦
          if exists_row (λ t. t.task_id == task_id) d.tasks
          then err constraint
          else ok (record d {
            tasks =
                d.tasks
                ++ record {
                  id = d.next_id;
                  task_id = task_id;
                  deposit_address = deposit_address;
                  deadline = deadline;
                  amount = amount;
                  timelock_address = timelock_address;
                  funding_txid = 0;
                  funding_out_index = 0;
                  timelock_txid = 0;
                  timelock_out_index = 0;
                  status = create;
                  order_id = 0;
                }
                  ∷ [];
            next_id = suc d.next_id;
          })
    ]

unfoldable pub update_safebox_task_completed : ℕ → Db → Result Db
update_safebox_task_completed task_id d = elim (processed_task_by_id task_id d) [
  | none ↦ err not_found
  | some t ↦ ok (save_task t.id (λ x. record x { status = completed }) d)
]

-- The loop body of `UpdateSafeboxTaskProcessed`.
unfoldable pub process_order : SendOrder → Db → Result Db
process_order o d =
    let paid = update_withdraw_status_by_order_id processed o.order_id [] d in
    if one_of o.status (init ∷ pending ∷ confirmed ∷ [])
    then (let marked =
          update_other_status_by_order o.order_id processed true
            (save_order o.id (λ p. record p { status = processed }) paid) in
        each (spend_vin o.btc_block) (get_vins o.order_id marked) marked)
    else ok paid

-- Its end, for the timelock transaction of the task.
unfoldable pub process_timelock : ℕ → Db → Result Db
unfolding process_order
process_timelock txid d =
    if is_nil (get_all_orders txid d)
    then ok d
    else each process_order (get_all_orders txid d) d >>= λ r.
        ok (update_other_status_by_txid txid processed r)

unfoldable pub update_safebox_task_processed : ℕ → Db → Result Db
unfolding process_timelock
update_safebox_task_processed task_id d = elim (live_task_by_id task_id d) [
  | none ↦ err not_found
  | some t ↦
      if one_of t.status (confirmed ∷ init_ok ∷ [])
      then process_timelock t.timelock_txid
          (save_task t.id (λ x. record x { status = processed }) d)
      else err refused
]

-- The end of `UpdateSafeboxTaskInitOK`: the order of the timelock transaction is initialised.
unfoldable pub init_timelock_order : ℕ → Db → Db
init_timelock_order txid d = elim (get_order_by_txid txid d) [
  | none ↦ d
  | some o ↦
      if settled o.status
      then d
      else update_other_status_by_order o.order_id init true
          (save_order o.id (λ p. record p { status = init }) d)
]

unfoldable pub update_safebox_task_init_ok : ℕ → ℕ → ℕ → Db → Result Db
unfolding init_timelock_order
update_safebox_task_init_ok task_id timelock_txid timelock_out_index d =
    elim (live_task_by_id task_id d) [
      | none ↦ err not_found
      | some t ↦
          if one_of t.status (init ∷ received_ok ∷ received ∷ create ∷ [])
          then ok (
              init_timelock_order timelock_txid (
                save_task t.id
                  (λ x. record x {
                    timelock_txid = timelock_txid;
                    timelock_out_index = timelock_out_index;
                    status = init_ok;
                  })
                  d))
          else err refused
    ]

unfoldable pub update_safebox_task_init : ℕ → ℕ → ℕ → Db → Result Db
update_safebox_task_init timelock_address timelock_txid timelock_out_index d =
    elim (live_task_by_timelock timelock_address d) [
      | none ↦ err not_found
      | some t ↦
          if one_of t.status (received_ok ∷ received ∷ create ∷ [])
          then ok (
              save_task t.id
                (λ x. record x {
                  timelock_txid = timelock_txid;
                  timelock_out_index = timelock_out_index;
                  status = init;
                })
                d)
          else err refused
    ]

unfoldable pub update_safebox_task_received_ok : ℕ → ℕ → ℕ → Db → Result Db
update_safebox_task_received_ok task_id funding_txid tx_out d = elim (live_task_by_id task_id d) [
  | none ↦ err not_found
  | some t ↦
      if one_of t.status (received ∷ create ∷ [])
      then ok (
          save_task t.id
            (λ x. record x {
              funding_txid = funding_txid;
              funding_out_index = tx_out;
              status = received_ok;
            })
            d)
      else err refused
]

-- A deposit of `amount` to the address at time `now`.
unfoldable pub update_safebox_task_received : ℕ → ℕ → ℕ → ℕ → ℕ → Db → Result Db
update_safebox_task_received now txid address txout amount d =
    elim (live_task_by_address address d) [
      | none ↦ ok d
      | some t ↦ ok (
          if is t.status create
          then if lt64 t.deadline now
            then save_task t.id (λ x. record x { status = closed }) d
            else if amount == t.amount
            then save_task t.id
                (λ x. record x {
                  status = received;
                  funding_txid = txid;
                  funding_out_index = txout;
                })
                d
            else d
          else d)
    ]

unfoldable pub revert_safebox_task : ℕ → Db → Result Db
revert_safebox_task timelock_txid d = elim (init_task_by_txid timelock_txid d) [
  | none ↦ err not_found
  | some t ↦ ok (save_task t.id (λ x. record x { status = received_ok }) d)
]

-- A call of an operation on tasks, with its arguments.
pub data TaskCall : Type 0 where
  create_task : ℕ → ℕ → ℕ → ℕ → ℕ → TaskCall
  task_cancelled : ℕ → TaskCall
  task_completed : ℕ → TaskCall
  task_processed : ℕ → TaskCall
  task_init_ok : ℕ → ℕ → ℕ → TaskCall
  task_init : ℕ → ℕ → ℕ → TaskCall
  task_received_ok : ℕ → ℕ → ℕ → TaskCall
  task_received : ℕ → ℕ → ℕ → ℕ → ℕ → TaskCall
  revert_task : ℕ → TaskCall

unfoldable pub task_call : TaskCall → Db → Result Db
task_call (create_task i deadline amount address timelock) =
    create_safebox_task i deadline amount address timelock
task_call (task_cancelled i) = update_safebox_task_cancelled i
task_call (task_completed i) = update_safebox_task_completed i
task_call (task_processed i) = update_safebox_task_processed i
task_call (task_init_ok i txid out) = update_safebox_task_init_ok i txid out
task_call (task_init address txid out) = update_safebox_task_init address txid out
task_call (task_received_ok i txid out) = update_safebox_task_received_ok i txid out
task_call (task_received now txid address out amount) =
    update_safebox_task_received now txid address out amount
task_call (revert_task txid) = revert_safebox_task txid
