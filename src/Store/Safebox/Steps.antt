-- ===== src/Store/Safebox/Steps.antt =====
-- The operations on the tasks of the safebox (internal/state/deposit.go, internal/state/safebox.go) as paths of the
-- table's steps.
use goat_relayer.Prelude.{ℕ, refl, subst, [], ◌∷◌, Bool, ◌&&◌, ◌==◌, if-split, Option-split}
use goat_relayer.Int64.{lt64}
use goat_relayer.Table.{find_first, exists_row}
use goat_relayer.Table.Evolve.{find_first_sound}
use goat_relayer.Store.{
  create, received, received_ok, init, init_ok, confirmed, processed, completed, closed,
  SafeboxTask, Db, is, one_of,
}
use goat_relayer.Store.Rows.{save_task}
use goat_relayer.Store.Safebox.{
  is_live, live_task_by_id, live_task_by_address, live_task_by_timelock, init_task_by_txid,
  processed_task_by_id, update_safebox_task_cancelled, create_safebox_task,
  update_safebox_task_completed, update_safebox_task_processed, update_safebox_task_init_ok,
  update_safebox_task_init, update_safebox_task_received_ok, update_safebox_task_received,
  revert_safebox_task, TaskCall, create_task, task_cancelled, task_completed, task_processed,
  task_init_ok, task_init, task_received_ok, task_received, revert_task, task_call,
}
use goat_relayer.Store.Safebox.Moves.{
  receive, expire, accept, start, confirm, finish, complete, cancel, revert, add_task, TablePath,
  here, task_table, one_step, Steps, save_task-step, SameTask-update, SameTask-status, status_of,
}
use goat_relayer.Store.Safebox.Tables.{init_timelock_order-table, process_timelock-step}

task_cancelled-Steps : (i : ℕ) (d : Db) → Steps d (update_safebox_task_cancelled i d)
unfolding update_safebox_task_cancelled live_task_by_id
task_cancelled-Steps i d =
    let q : SafeboxTask → Bool = λ t. t.task_id == i && is_live t.status in
    Option-split (Steps d) (find_first q d.tasks) (λ _. here)
      (λ t found.
        save_task-step q (λ x. record x { status = closed }) closed d t found
          (SameTask-status closed)
          (cancel
            (status_of (t.task_id == i) (is_live t.status) (find_first_sound q d.tasks t found))))

task_completed-Steps : (i : ℕ) (d : Db) → Steps d (update_safebox_task_completed i d)
unfolding update_safebox_task_completed processed_task_by_id
task_completed-Steps i d =
    let q : SafeboxTask → Bool = λ t. t.task_id == i && is t.status processed in
    Option-split (Steps d) (find_first q d.tasks) (λ _. tt)
      (λ t found.
        save_task-step q (λ x. record x { status = completed }) completed d t found
          (SameTask-status completed)
          (complete (
            status_of (t.task_id == i) (is t.status processed)
              (find_first_sound q d.tasks t found))))

revert_task-Steps : (txid : ℕ) (d : Db) → Steps d (revert_safebox_task txid d)
unfolding revert_safebox_task init_task_by_txid
revert_task-Steps txid d =
    let q : SafeboxTask → Bool = λ t. t.timelock_txid == txid && is t.status init in
    Option-split (Steps d) (find_first q d.tasks) (λ _. tt)
      (λ t found.
        save_task-step q (λ x. record x { status = received_ok }) received_ok d t found
          (SameTask-status received_ok)
          (revert (
            status_of (t.timelock_txid == txid) (is t.status init)
              (find_first_sound q d.tasks t found))))

task_init-Steps :
    (address txid out : ℕ) (d : Db) → Steps d (update_safebox_task_init address txid out d)
unfolding update_safebox_task_init live_task_by_timelock
task_init-Steps address txid out d =
    let q : SafeboxTask → Bool = λ t. t.timelock_address == address && is_live t.status in
    Option-split (Steps d) (find_first q d.tasks) (λ _. tt)
      (λ t found.
        if-split (Steps d) (one_of t.status (received_ok ∷ received ∷ create ∷ []))
          (λ early.
            save_task-step q
              (λ x. record x { timelock_txid = txid; timelock_out_index = out; status = init }) init
              d t found
              (λ x. (SameTask-update x x.funding_txid x.funding_out_index txid out init, refl))
              (start early))
          (λ _. tt))

task_received_ok-Steps :
    (i txid out : ℕ) (d : Db) → Steps d (update_safebox_task_received_ok i txid out d)
unfolding update_safebox_task_received_ok live_task_by_id
task_received_ok-Steps i txid out d =
    let q : SafeboxTask → Bool = λ t. t.task_id == i && is_live t.status in
    Option-split (Steps d) (find_first q d.tasks) (λ _. tt)
      (λ t found.
        if-split (Steps d) (one_of t.status (received ∷ create ∷ []))
          (λ early.
            save_task-step q
              (λ x. record x { funding_txid = txid; funding_out_index = out; status = received_ok })
              received_ok d t found
              (λ x.
                (SameTask-update x txid out x.timelock_txid x.timelock_out_index received_ok, refl))
              (accept early))
          (λ _. tt))

create_task-Steps :
    (i deadline amount address timelock : ℕ) (d : Db)
    → Steps d (create_safebox_task i deadline amount address timelock d)
unfolding create_safebox_task live_task_by_address
create_task-Steps i deadline amount address timelock d =
    let q : SafeboxTask → Bool = λ t. t.deposit_address == address && is_live t.status in
    Option-split (Steps d) (find_first q d.tasks)
      (λ missing.
        if-split (Steps d) (exists_row (λ t. t.task_id == i) d.tasks) (λ _. tt)
          (λ _. one_step (add_task _ refl refl missing refl)))
      (λ t found. tt)

task_received-Steps :
    (now txid address out amount : ℕ) (d : Db)
    → Steps d (update_safebox_task_received now txid address out amount d)
unfolding update_safebox_task_received live_task_by_address
task_received-Steps now txid address out amount d =
    let q : SafeboxTask → Bool = λ t. t.deposit_address == address && is_live t.status in
    let P : Db → Type 0 = λ e. TablePath (task_table d) (task_table e) in
    Option-split (Steps d) (find_first q d.tasks) (λ _. here)
      (λ t found.
        if-split P (is t.status create)
          (λ fresh.
            if-split P (lt64 t.deadline now)
              (λ _.
                save_task-step q (λ x. record x { status = closed }) closed d t found
                  (SameTask-status closed) (expire fresh))
              (λ _.
                if-split P (amount == t.amount)
                  (λ _.
                    save_task-step q
                      (λ x. record x {
                        status = received;
                        funding_txid = txid;
                        funding_out_index = out;
                      })
                      received d t found
                      (λ x. (
                        SameTask-update x txid out x.timelock_txid x.timelock_out_index received,
                        refl,
                      ))
                      (receive fresh))
                  (λ _. here)))
          (λ _. here))

task_init_ok-Steps : (i txid out : ℕ) (d : Db) → Steps d (update_safebox_task_init_ok i txid out d)
unfolding update_safebox_task_init_ok live_task_by_id
task_init_ok-Steps i txid out d =
    let q : SafeboxTask → Bool = λ t. t.task_id == i && is_live t.status in
    let f : SafeboxTask → SafeboxTask =
      λ x. record x { timelock_txid = txid; timelock_out_index = out; status = init_ok } in
    Option-split (Steps d) (find_first q d.tasks) (λ _. tt)
      (λ t found.
        if-split (Steps d) (one_of t.status (init ∷ received_ok ∷ received ∷ create ∷ []))
          (λ early.
            subst (TablePath (task_table d)) (init_timelock_order-table txid (save_task t.id f d)) (
              save_task-step q f init_ok d t found
                (λ x. (SameTask-update x x.funding_txid x.funding_out_index txid out init_ok, refl))
                (confirm early)))
          (λ _. tt))

task_processed-Steps : (i : ℕ) (d : Db) → Steps d (update_safebox_task_processed i d)
unfolding update_safebox_task_processed live_task_by_id
task_processed-Steps i d =
    let q : SafeboxTask → Bool = λ t. t.task_id == i && is_live t.status in
    let f : SafeboxTask → SafeboxTask = λ x. record x { status = processed } in
    Option-split (Steps d) (find_first q d.tasks) (λ _. tt)
      (λ t found.
        if-split (Steps d) (one_of t.status (confirmed ∷ init_ok ∷ []))
          (λ ready.
            process_timelock-step (task_table d) t.timelock_txid (save_task t.id f d)
              (save_task-step q f processed d t found (SameTask-status processed) (finish ready)))
          (λ _. tt))

-- A successful operation on the safebox tasks is a path of steps of the abstract table: a new task for an
-- address with no live one, a move of one task along the state machine, or the end of all tasks of a timelock
-- transaction.
pub task_call-Steps : (c : TaskCall) (d : Db) → Steps d (task_call c d)
unfolding task_call
task_call-Steps (create_task i deadline amount address timelock) d =
    create_task-Steps i deadline amount address timelock d
task_call-Steps (task_cancelled i) d = task_cancelled-Steps i d
task_call-Steps (task_completed i) d = task_completed-Steps i d
task_call-Steps (task_processed i) d = task_processed-Steps i d
task_call-Steps (task_init_ok i txid out) d = task_init_ok-Steps i txid out d
task_call-Steps (task_init address txid out) d = task_init-Steps address txid out d
task_call-Steps (task_received_ok i txid out) d = task_received_ok-Steps i txid out d
task_call-Steps (task_received now txid address out amount) d =
    task_received-Steps now txid address out amount d
task_call-Steps (revert_task txid) d = revert_task-Steps txid d
