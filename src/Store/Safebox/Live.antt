-- ===== src/Store/Safebox/Live.antt =====
-- The tasks of the safebox through an operation (internal/state/deposit.go, internal/state/safebox.go).
use goat_relayer.Prelude.{
  ◌≡◌, refl, sym, ◌∙◌, subst, List, [], ◌∷◌, ◌++◌, Bool, true, false, ◌&&◌, none, ◌==◌, All,
}
use goat_relayer.Table.{find_first, update_where}
use goat_relayer.Table.Append.{All-append, Ascending-append, Below-append}
use goat_relayer.Table.Pairs.{Pairs, Pairs-update_where, first_miss}
use goat_relayer.Table.Evolve.{
  Evolves, Evolves-refl, Evolves-trans, Below, Ascending, update_where-Ascending,
  update_where-Below,
}
use goat_relayer.Store.{processed, SafeboxTask, Db, Result, ok, err, after}
use goat_relayer.Store.Safebox.{is_live, TaskCall, task_call}
use goat_relayer.Store.Safebox.Moves.{
  SameTask, TaskTable, TableStep, stay, add_task, move_task, finish_all, TablePath, here, next,
  task_table, Steps, SameTask-status,
}
use goat_relayer.Store.Safebox.Steps.{task_call-Steps}
use goat_relayer.Store.Safebox.Rows.{
  TaskRow, TaskRow-refl, TaskRow-trans, move-TaskRow, finish-TaskRow, step-Evolves,
}

-- Two live tasks for one address.
abbrev pub clash : SafeboxTask → SafeboxTask → Bool
clash t u = is_live t.status && (is_live u.status && t.deposit_address == u.deposit_address)

abbrev pub OneLive : List SafeboxTask → Type 0
OneLive = Pairs clash

abbrev pub TaskInv : TaskTable → Type 0
TaskInv a = Ascending (λ t. t.id) a.0 × Below (λ t. t.id) a.1 a.0 × OneLive a.0

meet_false :
    (a b c a' b' c' : Bool)
    → (a ≡ false → a' ≡ false)
    → (b ≡ false → b' ≡ false)
    → c ≡ c'
    → (a && (b && c)) ≡ false
    → (a' && (b' && c')) ≡ false
meet_false a b c false b' c' p q e h = refl
meet_false a b c true false c' p q e h = refl
meet_false false b c true true c' p q e h = absurd (let no : true ≡ false = p refl in cc)
meet_false true false c true true c' p q e h = absurd (let no : true ≡ false = q refl in cc)
meet_false true true c true true c' p q e h = sym e ∙ h

clash-row :
    (x y z w : SafeboxTask) → TaskRow x y → TaskRow z w → clash x z ≡ false → clash y w ≡ false
clash-row x y z w p q h =
    meet_false (is_live x.status) (is_live z.status) (x.deposit_address == z.deposit_address)
      (is_live y.status) (is_live w.status) (y.deposit_address == w.deposit_address) p.1 q.1
      (rw (p.0.same_address, q.0.same_address) refl) h

OneLive-update_where :
    (p : SafeboxTask → Bool) (f : SafeboxTask → SafeboxTask) (ts : List SafeboxTask)
    → All (λ t. p t ≡ true → TaskRow t (f t)) ts
    → OneLive ts
    → OneLive (update_where p f ts)
OneLive-update_where = Pairs-update_where clash TaskRow TaskRow-refl clash-row

clash_sound :
    (u t : SafeboxTask)
    → (u.deposit_address == t.deposit_address && is_live u.status) ≡ false
    → clash u t ≡ false
clash_sound u t h =
    go (is_live u.status) (is_live t.status) (u.deposit_address == t.deposit_address) h
  where
    go : (a b c : Bool) → (c && a) ≡ false → (a && (b && c)) ≡ false
    go false b c h = refl
    go true false c h = refl
    go true true false h = refl
    go true true true h = h

-- A task for an address that no live task has.
pub OneLive-append :
    (t : SafeboxTask) (ts : List SafeboxTask)
    → find_first (λ u. u.deposit_address == t.deposit_address && is_live u.status) ts ≡ none
    → OneLive ts
    → OneLive (ts ++ t ∷ [])
OneLive-append t [] missing h = (tt, tt)
OneLive-append t (u ∷ us) missing h =
    let q : SafeboxTask → Bool = λ u. u.deposit_address == t.deposit_address && is_live u.status in
    let miss = first_miss q u us missing in
    (
      All-append (λ v. clash u v ≡ false) us t h.0 (clash_sound u t miss.0),
      OneLive-append t us miss.1 h.1,
    )

-- An update of rows that keeps the invariant.
pub TaskInv-update_where :
    (a : TaskTable) (p : SafeboxTask → Bool) (f : SafeboxTask → SafeboxTask)
    → ((t : SafeboxTask) → SameTask t (f t))
    → All (λ t. p t ≡ true → TaskRow t (f t)) a.0
    → TaskInv a
    → TaskInv (update_where p f a.0, a.1)
TaskInv-update_where a p f same rows inv = (
  update_where-Ascending (λ t. t.id) p f a.0 (λ t. (same t).same_id) inv.0,
  update_where-Below (λ t. t.id) a.1 p f a.0 (λ t. (same t).same_id) inv.1,
  OneLive-update_where p f a.0 rows inv.2,
)

step-TaskInv : {a b : TaskTable} → TableStep a b → TaskInv a → TaskInv b
step-TaskInv {a} (stay e) inv = subst TaskInv (sym e) inv
step-TaskInv {a} (add_task t _ key missing e) inv =
    let below : Below (λ u. u.id) t.id a.0 = subst (λ n. Below (λ u. u.id) n a.0) (sym key) inv.1 in
    subst TaskInv (sym e) (
      Ascending-append (λ u. u.id) t a.0 below inv.0,
      Below-append (λ u. u.id) a.1 t a.0 key inv.1,
      OneLive-append t a.0 missing inv.2,
    )
step-TaskInv {a} (move_task u f s only same move e) inv = subst TaskInv (sym e) (
    TaskInv-update_where a (λ t. t.id == u.id) f (λ t. (same t).0)
      (move-TaskRow u f s a.0 same move (only inv.0)) inv)
step-TaskInv {a} (finish_all txid e) inv = subst TaskInv (sym e) (
    TaskInv-update_where a (λ t. t.timelock_txid == txid) (λ t. record t { status = processed })
      (λ t. (SameTask-status processed t).0) (finish-TaskRow txid a.0) inv)

-- The invariant, and how the rows have changed since.
abbrev Since : TaskTable → TaskTable → Type 0
Since a b = TaskInv b × Evolves TaskRow a.0 b.0

path-Since : {a b : TaskTable} → TablePath a b → TaskInv a → Since a b
path-Since {a} here inv = (inv, Evolves-refl TaskRow TaskRow-refl a.0)
path-Since {a} {b = c} (next {b} p s) inv =
    let so_far = path-Since p inv in
    (
      step-TaskInv s so_far.0,
      Evolves-trans TaskRow TaskRow-trans a.0 b.0 c.0 so_far.1 (step-Evolves s so_far.0.0),
    )

-- Each operation of internal/state/deposit.go and internal/state/safebox.go on tasks, failing or not, keeps that
-- primary keys ascend below the counter and that no two live tasks have one deposit address. It keeps every
-- row with its key, task id, addresses, amount and deadline, and a task that is over stays over. The
-- operations of internal/state/withdraw.go, which write the status of an order to its tasks, are not meant.
pub task_call-TaskInv :
    (c : TaskCall) (d : Db)
    → TaskInv (task_table d)
    → TaskInv (task_table (after d (task_call c d)))
      × Evolves TaskRow d.tasks (after d (task_call c d)).tasks
task_call-TaskInv c d inv = go (task_call c d) (task_call-Steps c d)
  where
    go : (r : Result Db) → Steps d r → Since (task_table d) (task_table (after d r))
    go (ok e) path = path-Since path inv
    go (err x) path = (inv, Evolves-refl TaskRow TaskRow-refl d.tasks)
