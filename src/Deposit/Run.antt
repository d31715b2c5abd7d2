-- ===== src/Deposit/Run.antt =====
-- A block confirms the deposits in the queue, layer 2 processes them, and all operations one after another
-- (internal/state/deposit.go).

use goat_relayer.Prelude.{
  ℕ, ◌≡◌, refl, sym, ◌∙◌, ap, subst, List, [], ◌∷◌, Bool, true, false, not, Option, arith, ◌==◌,
  All, if-split, Option-split,
}
use goat_relayer.Bytes.{Bytes}
use goat_relayer.Table.{find_first, update_where}
use goat_relayer.Table.Append.{Memᴰ-All}
use goat_relayer.Table.Evolve.{Evolves, Evolves-trans, All-map, find_first-Only, find_first_sound}
use goat_relayer.Store.{
  Status, create, aggregating, init, pending, rbf_request, unconfirm, confirmed, signing, processed,
  closed, canceling, spent, received, received_ok, init_ok, completed, is,
}
use goat_relayer.Spv.{SpvResult, SpvError, ok, err, generate_spv_proof}
use goat_relayer.Deposit.{
  Deposit, DepositState, at_outpoint, query_deposit, insert_deposit, save_deposit, drop_outpoint,
  found_deposit, Place, confirm_at, update_processed_deposit, contains, confirm_queue,
  update_confirmed_deposits_by_btc_height, DepositCall, found, confirm, process, confirm_block,
  deposit_call, run_deposits,
}
use goat_relayer.Deposit.Queue.{
  DepositRow, DepositRow-trans, same_outpoint, OneOutpoint, Linked, Keyed, Linked-update_where,
  Keyed-update_where, member-Only, drop_outpoint-All, drop_outpoint-OneOutpoint,
  drop_outpoint-clears,
}
use goat_relayer.Deposit.Rows.{
  DepositInv, After, same_rows, insert-After, add_unconfirm_deposit-After,
  save_confirm_deposit-After,
}

status_processed : (s : Status) → is s processed ≡ true → s ≡ processed
status_processed create h = cc
status_processed aggregating h = cc
status_processed init h = cc
status_processed pending h = cc
status_processed rbf_request h = cc
status_processed unconfirm h = cc
status_processed confirmed h = cc
status_processed signing h = cc
status_processed processed h = refl
status_processed closed h = cc
status_processed canceling h = cc
status_processed spent h = cc
status_processed received h = cc
status_processed received_ok h = cc
status_processed init_ok h = cc
status_processed completed h = cc

All-zip :
    {A : Type 0} {P Q R : A → Type 0} (xs : List A)
    → ((a : A) → P a → Q a → R a)
    → All P xs
    → All Q xs
    → All R xs
All-zip [] f p q = tt
All-zip (x ∷ xs) f p q = (f x p.0 q.0, All-zip xs f p.1 q.1)

update_processed_deposit-After :
    (t o e : ℕ) (s : DepositState) → DepositInv s → After s (update_processed_deposit t o e s)
unfolding update_processed_deposit query_deposit save_deposit insert_deposit
update_processed_deposit-After t o e s inv =
    let finish : DepositState → DepositState = λ u. record u {
      unconfirm_queue = drop_outpoint t o u.unconfirm_queue;
      sig_queue = drop_outpoint t o u.sig_queue;
    } in
    Option-split (λ u. After s (finish u)) (find_first (at_outpoint t o) s.deposits)
      (λ missing.
        insert-After t o (record (found_deposit t 0 e 0 o 0) { status = processed }) s refl refl
          missing inv)
      (λ u there.
        let f : Deposit → Deposit = λ x. record x { status = processed } in
        let hits : Deposit → Bool = λ x. x.id == u.id in
        let only = find_first-Only (λ x. x.id) (at_outpoint t o) s.deposits u inv.0.0 there in
        let step : (x : Deposit) → DepositRow x (f x) = λ x. (
          refl,
          refl,
          refl,
          λ done. ap (λ z. record x { status = z }) (sym (status_processed x.status done)),
        ) in
        let rows =
          Keyed-update_where s.next_id hits f s.deposits (λ x. refl)
            (All-map s.deposits (λ x one hit. step x) only) inv.0 in
        let outside : (q : Deposit)
            → Linked s.deposits q
            → at_outpoint t o q ≡ false
            → Linked (update_where hits f s.deposits) q =
          λ q l away. Linked-update_where hits f s.deposits q l (λ hit.
            let one : l.0 ≡ u = Memᴰ-All (λ x. hits x ≡ true → x ≡ u) l.0 s.deposits l.1 only hit in
            let at : at_outpoint t o l.0 ≡ true =
              subst (λ x. at_outpoint t o x ≡ true) (sym one)
                (find_first_sound (at_outpoint t o) s.deposits u there) in
            absurd (clash_outpoint t o l.0 q l.3 l.4 at away)) in
        (
          rows.0,
          (
            rows.1,
            All-zip (drop_outpoint t o s.unconfirm_queue) outside
                (drop_outpoint-All (Linked s.deposits) t o s.unconfirm_queue inv.1)
                (drop_outpoint-clears t o s.unconfirm_queue inv.2),
            drop_outpoint-OneOutpoint t o s.unconfirm_queue inv.2,
          ),
        ))
  where
    clash_outpoint :
        (t o : ℕ) (x q : Deposit)
        → x.tx_hash ≡ q.tx_hash
        → x.output_index ≡ q.output_index
        → at_outpoint t o x ≡ true
        → at_outpoint t o q ≡ false
        → ⊥
    clash_outpoint t o x q a b at away = ground (arith, a, b, at, away)

-- What the loop over the queue keeps, for other structs too.
abbrev Confirms :
    ℕ → List Deposit → List Deposit → List Deposit → List Deposit × List Deposit × Bool → Type 0
Confirms n qs ds rows c =
    Evolves DepositRow rows c.1
    × Keyed n c.1
    × All (Linked c.1) qs
    × All (Linked c.1) c.0
    × ((e : Deposit)
        → All (λ u. same_outpoint e u ≡ false) ds
        → All (λ u. same_outpoint e u ≡ false) c.0)
    × (OneOutpoint ds → OneOutpoint c.0)

-- A struct in front that the loop leaves at its outpoint.
Confirms-front :
    (n : ℕ) (qs ds rows : List Deposit) (d e : Deposit) (c : List Deposit × List Deposit × Bool)
    → e.tx_hash ≡ d.tx_hash
    → e.output_index ≡ d.output_index
    → Confirms n (e ∷ qs) ds rows c
    → Confirms n qs (d ∷ ds) rows (e ∷ c.0, c.1, c.2)
Confirms-front n qs ds rows d e c a b h = (
  h.0,
  h.1,
  h.2.1,
  (h.2.0, h.3),
  (λ x away. (rw (a, b) away.0, h.4 x away.1)),
  (λ one. (h.4 e (rw (a, b) one.0), h.5 one.1)),
)

SpvResult-split :
    {A C : Type 0} (P : C → Type 0) (r : SpvResult A) {f : SpvError → C} {g : A → C}
    → ((x : SpvError) → P (f x))
    → ((a : A) → P (g a))
    → P (elim r [ err x ↦ f x | ok a ↦ g a ])
SpvResult-split P (err x) p q = p x
SpvResult-split P (ok a) p q = q a

-- The row of a struct of the queue is overwritten by the struct, confirmed.
confirm_row :
    (n : ℕ) (rows : List Deposit) (d : Deposit) (place : Place)
    → Keyed n rows
    → Linked rows d
    → Evolves DepositRow rows
        (update_where (λ r. r.id == d.id) (λ r. record (confirm_at place d) { id = r.id }) rows)
      × Keyed n
          (update_where (λ r. r.id == d.id) (λ r. record (confirm_at place d) { id = r.id }) rows)
      × ((q : Deposit)
          → Linked rows q
          → Linked
              (update_where
                (λ r. r.id == d.id)
                (λ r. record (confirm_at place d) { id = r.id })
                rows)
              q)
confirm_row n rows d place k h =
    let f : Deposit → Deposit = λ r. record (confirm_at place d) { id = r.id } in
    let hits : Deposit → Bool = λ r. r.id == d.id in
    let only : All (λ x. hits x ≡ true → x ≡ h.0) rows =
      subst (λ i. All (λ x. (x.id == i) ≡ true → x ≡ h.0) rows) h.2
        (member-Only rows h.0 k.0 h.1) in
    let own : DepositRow h.0 (f h.0) =
      (refl, sym h.3, sym h.4, λ done. absurd (let no : true ≡ false = sym done ∙ h.5 in cc)) in
    let step : (x : Deposit) → x ≡ h.0 → DepositRow x (f x) =
      λ x e. subst (λ z. DepositRow z (f z)) (sym e) own in
    let changed =
      Keyed-update_where n hits f rows (λ x. refl)
        (All-map rows (λ x one hit. step x (one hit)) only) k in
    (
      changed.0,
      changed.1,
      λ q l.
          Linked-update_where hits f rows q l (λ hit.
            (step l.0 (Memᴰ-All (λ x. hits x ≡ true → x ≡ h.0) l.0 rows l.1 only hit), refl)),
    )

confirm_queue-Confirms :
    (sha256 : Bytes → Bytes) (parse : ℕ → Option Bytes) (height hash : ℕ) (txs : List ℕ) (n : ℕ)
    (qs ds rows : List Deposit)
    → Keyed n rows
    → All (Linked rows) qs
    → All (Linked rows) ds
    → Confirms n qs ds rows (confirm_queue sha256 parse height hash txs ds rows)
unfolding confirm_queue
confirm_queue-Confirms sha256 parse height hash txs n qs [] rows k l h =
    (same_rows rows, k, l, tt, (λ e away. tt), λ one. tt)
confirm_queue-Confirms sha256 parse height hash txs n qs (d ∷ ds) rows k l h =
    let P : List Deposit × List Deposit × Bool → Type 0 = Confirms n qs (d ∷ ds) rows in
    let skip : P (
      d ∷ (confirm_queue sha256 parse height hash txs ds rows).0,
      (confirm_queue sha256 parse height hash txs ds rows).1,
      (confirm_queue sha256 parse height hash txs ds rows).2,
    ) =
      Confirms-front n qs ds rows d d (confirm_queue sha256 parse height hash txs ds rows) refl refl
        (confirm_queue-Confirms sha256 parse height hash txs n (d ∷ qs) ds rows k (h.0, l) h.1) in
    if-split P (not (contains txs d.tx_hash)) (λ _. skip)
      (λ _.
        SpvResult-split P (generate_spv_proof sha256 parse d.tx_hash txs)
          (λ e. (same_rows rows, k, l, h, (λ x away. away), λ one. one))
          (λ proof.
            if-split P (is d.status unconfirm)
              (λ _.
                let place : Place = record {
                  block_hash = hash;
                  block_height = height;
                  merkle_root = proof.0;
                  proof = proof.1;
                  tx_index = proof.2;
                } in
                let e = confirm_at place d in
                let new = update_where (λ r. r.id == d.id) (λ r. record e { id = r.id }) rows in
                let c = confirm_queue sha256 parse height hash txs ds new in
                let one = confirm_row n rows d place k h.0 in
                let front = Confirms-front n qs ds new d e c refl refl (
                  confirm_queue-Confirms sha256 parse height hash txs n (e ∷ qs) ds new one.1
                    (one.2 d h.0, All-map qs one.2 l) (All-map ds one.2 h.1)) in
                (
                  Evolves-trans DepositRow DepositRow-trans rows new c.1 one.0 front.0,
                  front.1,
                  front.2,
                  front.3,
                  front.4,
                  front.5,
                ))
              (λ _. skip)))

same-After : (s : DepositState) → DepositInv s → After s s
same-After s inv = (same_rows s.deposits, inv)

deposit_call-After :
    (sha256 : Bytes → Bytes) (parse : ℕ → Option Bytes) (c : DepositCall) (s : DepositState)
    → DepositInv s
    → After s (deposit_call sha256 parse c s)
unfolding deposit_call update_confirmed_deposits_by_btc_height
deposit_call-After sha256 parse (found t r e v o a) s inv =
    add_unconfirm_deposit-After t r e v o a s inv
deposit_call-After sha256 parse (confirm t a r e v o p) s inv =
    save_confirm_deposit-After t a r e v o p s inv
deposit_call-After sha256 parse (process t o e) s inv = update_processed_deposit-After t o e s inv
deposit_call-After sha256 parse (confirm_block height hash txs) s inv =
    let c =
      confirm_queue-Confirms sha256 parse height hash txs s.next_id [] s.unconfirm_queue s.deposits
        inv.0 tt inv.1 in
    (c.0, (c.1, c.3, c.5 inv.2))

-- When the primary keys of the deposits ascend below the counter, no two have one outpoint, and the queue holds
-- structs of different deposits that are not processed, this also holds after any sequence of operations, no
-- deposit is lost or changes its outpoint, and a processed one keeps everything.
pub run_deposits-After :
    (sha256 : Bytes → Bytes) (parse : ℕ → Option Bytes) (cs : List DepositCall) (s : DepositState)
    → DepositInv s
    → After s (run_deposits sha256 parse cs s)
unfolding run_deposits
run_deposits-After sha256 parse [] s inv = same-After s inv
run_deposits-After sha256 parse (c ∷ cs) s inv =
    let t = deposit_call sha256 parse c s in
    let first = deposit_call-After sha256 parse c s inv in
    let rest = run_deposits-After sha256 parse cs t first.1 in
    (
      Evolves-trans DepositRow DepositRow-trans s.deposits t.deposits
          (run_deposits sha256 parse cs t).deposits first.0 rest.0,
      rest.1,
    )
