-- ===== src/Tests/Safebox.antt =====
-- A task of the safebox from its creation to its end, then a second one for the same address that expires.
use goat_relayer.Prelude.{◌≡◌, refl, List, [], ◌∷◌, arith}
use goat_relayer.Table.{find_first, find_all, find_last, update_where, exists_row}
use goat_relayer.Table.Evolve.{Evolves}
use goat_relayer.Store.{closed, completed, SafeboxTask, Db, after}
use goat_relayer.Store.Rows.{save_task, get_order_by_txid}
use goat_relayer.Store.Progress.{get_all_orders, is_nil}
use goat_relayer.Store.Safebox.{
  live_task_by_id, live_task_by_address, live_task_by_timelock, init_task_by_txid,
  processed_task_by_id, create_safebox_task, update_safebox_task_completed, process_timelock,
  update_safebox_task_processed, init_timelock_order, update_safebox_task_init_ok,
  update_safebox_task_init, update_safebox_task_received_ok, update_safebox_task_received,
  revert_safebox_task, TaskCall, create_task, task_completed, task_processed, task_init_ok,
  task_init, task_received_ok, task_received, revert_task, task_call,
}
use goat_relayer.Store.Safebox.Moves.{Steps, task_table}
use goat_relayer.Store.Safebox.Steps.{task_call-Steps}
use goat_relayer.Store.Safebox.Rows.{TaskRow}
use goat_relayer.Store.Safebox.Live.{TaskInv, task_call-TaskInv}

abbrev old_task : SafeboxTask
old_task = record {
  id = 1;
  task_id = 4;
  deposit_address = 41;
  deadline = 90;
  amount = 7;
  timelock_address = 51;
  funding_txid = 0;
  funding_out_index = 0;
  timelock_txid = 0;
  timelock_out_index = 0;
  status = closed;
  order_id = 0;
}

abbrev safebox_db : Db
safebox_db = record {
  utxos = [];
  withdraws = [];
  orders = [];
  vins = [];
  vouts = [];
  tasks = old_task ∷ [];
  next_id = 2;
}

-- Operations one after another; one that fails is rolled back.
run_tasks : List TaskCall → Db → Db
run_tasks [] d = d
run_tasks (c ∷ cs) d = run_tasks cs (after d (task_call c d))

abbrev task_run : List TaskCall
task_run =
    create_task 5 100 7 40 50
    ∷ task_received 10 80 40 0 7
    ∷ task_received_ok 5 80 0
    ∷ task_init 50 81 0
    ∷ revert_task 81
    ∷ task_init_ok 5 82 1
    ∷ task_processed 5
    ∷ task_completed 5
    ∷ create_task 6 100 7 40 50
    ∷ create_task 7 100 7 40 50
    ∷ task_received 101 83 40 0 7
    ∷ []

task_run-statuses :
    (run_tasks task_run safebox_db).tasks
    ≡ old_task
      ∷ record old_task {
        id = 2;
        task_id = 5;
        deposit_address = 40;
        deadline = 100;
        timelock_address = 50;
        funding_txid = 80;
        timelock_txid = 82;
        timelock_out_index = 1;
        status = completed;
      }
      ∷ record old_task {
        id = 3;
        task_id = 6;
        deposit_address = 40;
        deadline = 100;
        timelock_address = 50;
      }
      ∷ []
unfolding run_tasks task_call create_safebox_task live_task_by_address find_first exists_row
    update_safebox_task_received save_task update_where update_safebox_task_received_ok
    live_task_by_id update_safebox_task_init live_task_by_timelock revert_safebox_task
    init_task_by_txid update_safebox_task_init_ok init_timelock_order get_order_by_txid find_last
    update_safebox_task_processed process_timelock get_all_orders find_all is_nil
    update_safebox_task_completed processed_task_by_id
task_run-statuses = refl

task_call-Steps_example : Steps safebox_db (task_call (create_task 5 100 7 40 50) safebox_db)
task_call-Steps_example = task_call-Steps (create_task 5 100 7 40 50) safebox_db

-- A second task of the closed one's address.
task_call-TaskInv_example :
    TaskInv (task_table (after safebox_db (task_call (create_task 5 100 7 41 50) safebox_db)))
    × Evolves TaskRow safebox_db.tasks
        (after safebox_db (task_call (create_task 5 100 7 41 50) safebox_db)).tasks
task_call-TaskInv_example =
    task_call-TaskInv (create_task 5 100 7 41 50) safebox_db
      ((tt, tt), (ground arith, tt), (tt, tt))
