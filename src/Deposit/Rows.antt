-- ===== src/Deposit/Rows.antt =====
-- The deposits through a sequence of operations (internal/state/deposit.go).

use goat_relayer.Prelude.{
  ℕ, ◌≡◌, refl, sym, ◌∙◌, ap, List, [], ◌∷◌, ◌++◌, Bool, true, false, none, ◌==◌, All, if-split,
  Option-split,
}
use goat_relayer.Table.{find_first, update_where}
use goat_relayer.Table.Append.{All-append, Memᴰ-All}
use goat_relayer.Table.Pairs.{Pairs-append, none-All, All-none}
use goat_relayer.Table.Evolve.{Evolves, Evolves-refl, All-map, find_first-Only}
use goat_relayer.Store.{processed, is}
use goat_relayer.Deposit.{
  Deposit, DepositState, at_outpoint, query_deposit, insert_deposit, save_deposit, drop_outpoint,
  found_deposit, add_unconfirm_deposit, Place, confirm_at, save_confirm_deposit,
}
use goat_relayer.Deposit.Queue.{
  DepositRow, DepositRow-refl, same_outpoint, OneOutpoint, Linked, Keyed, Linked-update_where,
  Linked-append, Linked-last, Keyed-update_where, Keyed-append, drop_outpoint-All,
  drop_outpoint-OneOutpoint,
}

-- The keys ascend, no two rows have one outpoint, and the queue holds structs of different deposits that are not
-- processed.
abbrev pub DepositInv : DepositState → Type 0
DepositInv s =
    Keyed s.next_id s.deposits
    × All (Linked s.deposits) s.unconfirm_queue
    × OneOutpoint s.unconfirm_queue

abbrev pub After : DepositState → DepositState → Type 0
After s t = Evolves DepositRow s.deposits t.deposits × DepositInv t

pub same_rows : (rows : List Deposit) → Evolves DepositRow rows rows
same_rows = Evolves-refl DepositRow DepositRow-refl

-- An outpoint that has no row has no struct in the queue.
unlisted :
    (t o : ℕ) (rows : List Deposit) (q : Deposit)
    → find_first (at_outpoint t o) rows ≡ none
    → Linked rows q
    → at_outpoint t o q ≡ false
unlisted t o rows q missing l =
    let miss : at_outpoint t o l.0 ≡ false =
      Memᴰ-All (λ r. at_outpoint t o r ≡ false) l.0 rows l.1
        (none-All (at_outpoint t o) rows missing) in
    rw (sym l.3, sym l.4) miss

pub add_unconfirm_deposit-After :
    (t r e v o a : ℕ) (s : DepositState)
    → DepositInv s
    → After s (add_unconfirm_deposit t r e v o a s)
unfolding add_unconfirm_deposit query_deposit insert_deposit
add_unconfirm_deposit-After t r e v o a s inv =
    let d : Deposit = record (found_deposit t r e v o a) { id = s.next_id } in
    Option-split (After s) (find_first (at_outpoint t o) s.deposits)
      (λ missing.
        let rows = Keyed-append s.next_id d s.deposits refl missing inv.0 in
        let new : find_first (λ u. same_outpoint u d) s.unconfirm_queue ≡ none =
          All-none (at_outpoint t o) s.unconfirm_queue
            (All-map s.unconfirm_queue (λ q l. unlisted t o s.deposits q missing l) inv.1) in
        (
          rows.0,
          (
            rows.1,
            All-append (Linked (s.deposits ++ d ∷ [])) s.unconfirm_queue d
                (All-map s.unconfirm_queue (λ q l. Linked-append s.deposits (d ∷ []) q l) inv.1)
                (Linked-last s.deposits d refl),
            Pairs-append same_outpoint d s.unconfirm_queue new inv.2,
          ),
        ))
      (λ known _. (same_rows s.deposits, inv))

-- The end of an operation: the outpoint leaves the queue.
drop_outpoint-After :
    (t o : ℕ) (s u : DepositState)
    → Evolves DepositRow s.deposits u.deposits
    → Keyed u.next_id u.deposits
    → All (Linked u.deposits) (drop_outpoint t o u.unconfirm_queue)
    → OneOutpoint u.unconfirm_queue
    → After s (record u { unconfirm_queue = drop_outpoint t o u.unconfirm_queue })
drop_outpoint-After t o s u rows k links one =
    (rows, (k, links, drop_outpoint-OneOutpoint t o u.unconfirm_queue one))

-- A new row for an outpoint that has none.
pub insert-After :
    (t o : ℕ) (d : Deposit) (s : DepositState)
    → d.tx_hash ≡ t
    → d.output_index ≡ o
    → find_first (at_outpoint t o) s.deposits ≡ none
    → DepositInv s
    → After s
        (record (insert_deposit d s) { unconfirm_queue = drop_outpoint t o s.unconfirm_queue })
unfolding insert_deposit
insert-After t o d s et eo missing inv =
    let r : Deposit = record d { id = s.next_id } in
    let here : find_first (at_outpoint d.tx_hash d.output_index) s.deposits ≡ none =
      rw (et, eo) missing in
    let rows = Keyed-append s.next_id r s.deposits refl here inv.0 in
    (
      rows.0,
      (
        rows.1,
        drop_outpoint-All (Linked (s.deposits ++ r ∷ [])) t o s.unconfirm_queue
            (All-map s.unconfirm_queue (λ q l. Linked-append s.deposits (r ∷ []) q l) inv.1),
        drop_outpoint-OneOutpoint t o s.unconfirm_queue inv.2,
      ),
    )

pub save_confirm_deposit-After :
    (t a r e v o : ℕ) (p : Place) (s : DepositState)
    → DepositInv s
    → After s (save_confirm_deposit t a r e v o p s)
unfolding save_confirm_deposit query_deposit save_deposit
save_confirm_deposit-After t a r e v o p s inv =
    let finish : DepositState → DepositState =
      λ u. record u { unconfirm_queue = drop_outpoint t o u.unconfirm_queue } in
    Option-split (λ u. After s (finish u)) (find_first (at_outpoint t o) s.deposits)
      (λ missing.
        insert-After t o (confirm_at p (found_deposit t r e v o a)) s refl refl missing inv)
      (λ u there.
        if-split (λ x. After s (finish x)) (is u.status processed)
          (λ _. (
            same_rows s.deposits,
            (
              inv.0,
              drop_outpoint-All (Linked s.deposits) t o s.unconfirm_queue inv.1,
              drop_outpoint-OneOutpoint t o s.unconfirm_queue inv.2,
            ),
          ))
          (λ fresh.
            let f : Deposit → Deposit = λ x. record (confirm_at p x) { amount = a } in
            let hits : Deposit → Bool = λ x. x.id == u.id in
            let only = find_first-Only (λ x. x.id) (at_outpoint t o) s.deposits u inv.0.0 there in
            let step : (x : Deposit) → is x.status processed ≡ false → DepositRow x (f x) =
              λ x unfinished. (
                refl,
                refl,
                refl,
                λ done. absurd (let no : true ≡ false = sym done ∙ unfinished in cc),
              ) in
            let rows =
              Keyed-update_where s.next_id hits f s.deposits (λ x. refl)
                (All-map s.deposits
                  (λ x one hit. step x (ap (λ z. is z.status processed) (one hit) ∙ fresh)) only)
                inv.0 in
            (
              rows.0,
              (
                rows.1,
                drop_outpoint-All (Linked (update_where hits f s.deposits)) t o s.unconfirm_queue (
                    All-map s.unconfirm_queue
                      (λ q l. Linked-update_where hits f s.deposits q l (λ _. (step l.0 l.5, refl)))
                      inv.1),
                drop_outpoint-OneOutpoint t o s.unconfirm_queue inv.2,
              ),
            )))
