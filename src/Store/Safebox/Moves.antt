-- ===== src/Store/Safebox/Moves.antt =====
-- The tasks of the safebox as an abstract machine (internal/state/deposit.go, internal/state/safebox.go): the moves of
-- one task, the steps of the table, and the operations as steps.
use goat_relayer.Prelude.{
  ℕ, suc, ◌≡◌, refl, List, [], ◌∷◌, ◌++◌, Bool, true, false, ◌&&◌, none, some, ◌==◌,
}
use goat_relayer.Table.{find_first, update_where}
use goat_relayer.Table.Evolve.{Ascending, Only, find_first-Only}
use goat_relayer.Store.{
  Status, create, received, received_ok, init, init_ok, confirmed, processed, completed, closed,
  SafeboxTask, Db, Result, ok, err, is, one_of,
}
use goat_relayer.Store.Rows.{save_task}
use goat_relayer.Store.Safebox.{is_live}

-- How an event moves one task.
pub data TaskMove (s : Status) : Status → Type 0 where
  receive : is s create ≡ true → TaskMove s received
  expire : is s create ≡ true → TaskMove s closed
  accept : one_of s (received ∷ create ∷ []) ≡ true → TaskMove s received_ok
  start : one_of s (received_ok ∷ received ∷ create ∷ []) ≡ true → TaskMove s init
  confirm : one_of s (init ∷ received_ok ∷ received ∷ create ∷ []) ≡ true → TaskMove s init_ok
  finish : one_of s (confirmed ∷ init_ok ∷ []) ≡ true → TaskMove s processed
  complete : is s processed ≡ true → TaskMove s completed
  cancel : is_live s ≡ true → TaskMove s closed
  revert : is s init ≡ true → TaskMove s received_ok

-- What no operation changes of a task.
pub record SameTask (x y : SafeboxTask) : Type 0 where
  pub same_id : y.id ≡ x.id
  pub same_task : y.task_id ≡ x.task_id
  pub same_address : y.deposit_address ≡ x.deposit_address
  pub same_amount : y.amount ≡ x.amount
  pub same_deadline : y.deadline ≡ x.deadline
  pub same_timelock : y.timelock_address ≡ x.timelock_address

-- The rows, and the next primary key.
abbrev pub TaskTable : Type 0
TaskTable = List SafeboxTask × ℕ

-- How an event moves the table: not at all, by a new task for an address with no live one, by a
-- move of one task, or by the end of all tasks of a timelock transaction.
pub data TableStep (a b : TaskTable) : Type 0 where
  stay : b ≡ a → TableStep a b
  add_task :
      (t : SafeboxTask)
      → t.status ≡ create
      → t.id ≡ a.1
      → find_first (λ u. u.deposit_address == t.deposit_address && is_live u.status) a.0 ≡ none
      → b ≡ (a.0 ++ t ∷ [], suc a.1)
      → TableStep a b
  move_task :
      (u : SafeboxTask) (f : SafeboxTask → SafeboxTask) (s : Status)
      → (Ascending (λ t. t.id) a.0 → Only (λ t. t.id) u a.0)
      → ((t : SafeboxTask) → SameTask t (f t) × ((f t).status ≡ s))
      → TaskMove u.status s
      → b ≡ (update_where (λ t. t.id == u.id) f a.0, a.1)
      → TableStep a b
  finish_all :
      (txid : ℕ)
      → b ≡ (
        update_where (λ t. t.timelock_txid == txid) (λ t. record t { status = processed }) a.0,
        a.1,
      )
      → TableStep a b

pub data TablePath (a : TaskTable) : TaskTable → Type 0 where
  here : TablePath a a
  next : {b c : TaskTable} → TablePath a b → TableStep b c → TablePath a c

-- The table of tasks of a database.
abbrev pub task_table : Db → TaskTable
task_table d = (d.tasks, d.next_id)

pub one_step : {a b : TaskTable} → TableStep a b → TablePath a b
one_step s = next here s

-- The result of an operation is reached by steps of the table.
abbrev pub PathTo : TaskTable → Result Db → Type 0
PathTo a (ok e) = TablePath a (task_table e)
PathTo a (err x) = Unit {0}

abbrev pub Steps : Db → Result Db → Type 0
Steps d = PathTo (task_table d)

-- The move of a task that a query found.
pub save_task-step :
    (q : SafeboxTask → Bool) (f : SafeboxTask → SafeboxTask) (s : Status) (d : Db) (t : SafeboxTask)
    → find_first q d.tasks ≡ some t
    → ((x : SafeboxTask) → SameTask x (f x) × ((f x).status ≡ s))
    → TaskMove t.status s
    → TablePath (task_table d) (task_table (save_task t.id f d))
unfolding save_task
save_task-step q f s d t found same move =
    one_step (move_task t f s (λ h. find_first-Only (λ x. x.id) q d.tasks t h found) same move refl)

pub SameTask-update :
    (x : SafeboxTask) (a b c e : ℕ) (s : Status)
    → SameTask x (record x {
      funding_txid = a;
      funding_out_index = b;
      timelock_txid = c;
      timelock_out_index = e;
      status = s;
    })
SameTask-update x a b c e s = record {
  same_id = refl;
  same_task = refl;
  same_address = refl;
  same_amount = refl;
  same_deadline = refl;
  same_timelock = refl;
}

pub SameTask-status :
    (s : Status) (x : SafeboxTask) → SameTask x (record x { status = s }) × (s ≡ s)
SameTask-status s x = (
  SameTask-update x x.funding_txid x.funding_out_index x.timelock_txid x.timelock_out_index s,
  refl,
)

pub status_of : (i : Bool) (b : Bool) → (i && b) ≡ true → b ≡ true
status_of true b h = h
status_of false b h = absurd cc
