-- ===== src/Store/Safebox/Rows.antt =====
-- How the rows of the safebox tasks may change (internal/state/deposit.go, internal/state/safebox.go).
use goat_relayer.Prelude.{
  ℕ, ◌≡◌, refl, sym, ◌∙◌, ap, subst, List, [], ◌∷◌, true, false, arith, ◌==◌, All,
}
use goat_relayer.Table.Append.{Evolves-append}
use goat_relayer.Table.Evolve.{
  Evolves, Evolves-refl, update_where-Evolves, All-map, Ascending, Only,
}
use goat_relayer.Store.{Status, processed, SafeboxTask}
use goat_relayer.Store.Safebox.{is_live}
use goat_relayer.Store.Safebox.Moves.{
  TaskMove, receive, expire, accept, start, confirm, finish, complete, cancel, revert, SameTask,
  TaskTable, TableStep, stay, add_task, move_task, finish_all, SameTask-status,
}

-- How a row may change: a task that is over stays over.
abbrev pub TaskRow : SafeboxTask → SafeboxTask → Type 0
TaskRow x y = SameTask x y × (is_live x.status ≡ false → is_live y.status ≡ false)

-- No move brings a task back.
move-live : {s r : Status} → TaskMove s r → is_live s ≡ false → is_live r ≡ false
move-live {s} (receive h) dead = ground (arith, h, dead)
move-live {s} (expire h) dead = refl
move-live {s} (accept h) dead = ground (arith, h, dead)
move-live {s} (start h) dead = ground (arith, h, dead)
move-live {s} (confirm h) dead = ground (arith, h, dead)
move-live {s} (finish h) dead = refl
move-live {s} (complete h) dead = refl
move-live {s} (cancel h) dead = refl
move-live {s} (revert h) dead = ground (arith, h, dead)

move_row :
    {s r : Status} (x y : SafeboxTask)
    → TaskMove s r
    → x.status ≡ s
    → SameTask x y × (y.status ≡ r)
    → TaskRow x y
move_row x y move old new =
    (new.0, λ dead. ap is_live new.1 ∙ move-live move (ap is_live (sym old) ∙ dead))

pub TaskRow-refl : (x : SafeboxTask) → TaskRow x x
TaskRow-refl x = ((SameTask-status x.status x).0, λ h. h)

pub TaskRow-trans : (x y z : SafeboxTask) → TaskRow x y → TaskRow y z → TaskRow x z
TaskRow-trans x y z p q = (
  record {
    same_id = q.0.same_id ∙ p.0.same_id;
    same_task = q.0.same_task ∙ p.0.same_task;
    same_address = q.0.same_address ∙ p.0.same_address;
    same_amount = q.0.same_amount ∙ p.0.same_amount;
    same_deadline = q.0.same_deadline ∙ p.0.same_deadline;
    same_timelock = q.0.same_timelock ∙ p.0.same_timelock;
  },
  λ dead. q.1 (p.1 dead),
)

pub move-TaskRow :
    (u : SafeboxTask) (f : SafeboxTask → SafeboxTask) (s : Status) (ts : List SafeboxTask)
    → ((t : SafeboxTask) → SameTask t (f t) × ((f t).status ≡ s))
    → TaskMove u.status s
    → Only (λ t. t.id) u ts
    → All (λ t. (t.id == u.id) ≡ true → TaskRow t (f t)) ts
move-TaskRow u f s ts same move only =
    All-map ts (λ t one hit. move_row t (f t) move (ap (λ x. x.status) (one hit)) (same t)) only

pub finish-TaskRow :
    (txid : ℕ) (ts : List SafeboxTask)
    → All (λ t. (t.timelock_txid == txid) ≡ true → TaskRow t (record t { status = processed })) ts
finish-TaskRow txid [] = tt
finish-TaskRow txid (x ∷ xs) =
    ((λ _. ((SameTask-status processed x).0, λ _. refl)), finish-TaskRow txid xs)

-- A step keeps every row, when the primary keys ascend.
pub step-Evolves :
    {a b : TaskTable} → TableStep a b → Ascending (λ t. t.id) a.0 → Evolves TaskRow a.0 b.0
step-Evolves {a} (stay e) h =
    subst (λ c. Evolves TaskRow a.0 c.0) (sym e) (Evolves-refl TaskRow TaskRow-refl a.0)
step-Evolves {a} (add_task t _ _ _ e) h =
    subst (λ c. Evolves TaskRow a.0 c.0) (sym e) (Evolves-append TaskRow TaskRow-refl a.0 (t ∷ []))
step-Evolves {a} (move_task u f s only same move e) h =
    subst (λ c. Evolves TaskRow a.0 c.0) (sym e)
      (update_where-Evolves TaskRow TaskRow-refl (λ t. t.id == u.id) f a.0
        (move-TaskRow u f s a.0 same move (only h)))
step-Evolves {a} (finish_all txid e) h =
    subst (λ c. Evolves TaskRow a.0 c.0) (sym e)
      (update_where-Evolves TaskRow TaskRow-refl (λ t. t.timelock_txid == txid)
        (λ t. record t { status = processed }) a.0 (finish-TaskRow txid a.0))
