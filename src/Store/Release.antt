-- ===== src/Store/Release.antt =====
-- `CleanProcessingWithdrawByOrderId` (internal/state/withdraw.go) and what the order held.
use goat_relayer.Prelude.{
  ℕ, ◌≡◌, refl, sym, ◌∙◌, ap, subst, inl, inr, List, [], ◌∷◌, Bool, true, false, ◌&&◌, Option, none,
  some, arith, ◌==◌, All, if-split, Option-split, Bool-cases,
}
use goat_relayer.Table.{find_first, update_where}
use goat_relayer.Table.Query.{updated, find_first-update_where}
use goat_relayer.Store.{
  create, aggregating, pending, processed, closed, Utxo, Withdraw, SendOrder, Vin, Db, Result, ok,
  is,
}
use goat_relayer.Store.Rows.{
  get_order_by_order_id, get_vins, set_utxo_status, save_order, update_other_status_by_order,
  raw_match, update_withdraw_status_by_order_id, update_safebox_task_status_by_order_id,
}
use goat_relayer.Store.Orders.{
  release_vin, release_vins, close_order, clean_processing_withdraw_by_order_id,
}

is_pending : Option Utxo → Bool
is_pending none = false
is_pending (some u) = is u.status pending

-- Whether the UTXO of an input is locked.
pub holds : Vin → List Utxo → Bool
unfolding is_pending
holds v us = is_pending (find_first (λ u. u.txid == v.txid && u.out_index == v.out_index) us)

-- An update to `processed` leaves a row unlocked that was, and unlocks the one that it meets.
processed_row :
    (q : Utxo → Bool) (o : Option Utxo)
    → is_pending o ≡ false
    → is_pending (updated q (λ u. record u { status = processed }) o) ≡ false
unfolding is_pending
processed_row q none h = refl
processed_row q (some u) h = elim (Bool-cases (q u)) [
  | inl hit ↦ rw hit refl
  | inr miss ↦ rw miss h
]

holds-set_utxo_status :
    (v : Vin) (id : ℕ) (d : Db)
    → holds v (set_utxo_status id processed d).utxos
      ≡ is_pending (
          updated
            (λ u. u.id == id)
            (λ u. record u { status = processed })
            (find_first (λ u. u.txid == v.txid && u.out_index == v.out_index) d.utxos))
unfolding holds set_utxo_status
holds-set_utxo_status v id d = ap is_pending (
    find_first-update_where (λ u. u.txid == v.txid && u.out_index == v.out_index) (λ u. u.id == id)
      (λ u. record u { status = processed }) d.utxos (λ _. refl))

release_vin-keeps :
    (v w : Vin) (d : Db) → holds w d.utxos ≡ false → holds w (release_vin v d).utxos ≡ false
unfolding release_vin is_pending holds
release_vin-keeps v w d h =
    Option-split (λ (e : Db). holds w e.utxos ≡ false)
      (find_first (λ u. u.txid == v.txid && u.out_index == v.out_index) d.utxos) (λ _. h)
      (λ r _.
        if-split (λ (e : Db). holds w e.utxos ≡ false) (is r.status pending)
          (λ _.
            holds-set_utxo_status w r.id d
            ∙ processed_row (λ u. u.id == r.id)
                (find_first (λ u. u.txid == w.txid && u.out_index == w.out_index) d.utxos) h)
          (λ _. h))

release_vin-frees : (v : Vin) (d : Db) → holds v (release_vin v d).utxos ≡ false
unfolding release_vin holds is_pending
release_vin-frees v d =
    Option-split (λ (e : Db). holds v e.utxos ≡ false)
      (find_first (λ u. u.txid == v.txid && u.out_index == v.out_index) d.utxos)
      (λ missing. ap is_pending missing)
      (λ r found.
        if-split (λ (e : Db). holds v e.utxos ≡ false) (is r.status pending)
          (λ _.
            holds-set_utxo_status v r.id d
            ∙ ap
                (λ o.
                  is_pending (updated (λ u. u.id == r.id) (λ u. record u { status = processed }) o))
                found
            ∙ hit r)
          (λ free. ap is_pending found ∙ free))
  where
    hit :
        (r : Utxo)
        → is_pending (updated (λ u. u.id == r.id) (λ u. record u { status = processed }) (some r))
          ≡ false
    hit r = let same : (r.id == r.id) ≡ true = ground arith in rw same refl

release_vins-keeps :
    (vs : List Vin) (w : Vin) (d : Db)
    → holds w d.utxos ≡ false
    → holds w (release_vins vs d).utxos ≡ false
unfolding release_vins
release_vins-keeps [] w d h = h
release_vins-keeps (v ∷ vs) w d h =
    release_vins-keeps vs w (release_vin v d) (release_vin-keeps v w d h)

release_vins-frees :
    (vs : List Vin) (d : Db) → All (λ v. holds v (release_vins vs d).utxos ≡ false) vs
unfolding release_vins
release_vins-frees [] d = tt
release_vins-frees (v ∷ vs) d = (
  release_vins-keeps vs v (release_vin v d) (release_vin-frees v d),
  release_vins-frees vs (release_vin v d),
)

release_vin-orders : (v : Vin) (d : Db) → (release_vin v d).orders ≡ d.orders
unfolding release_vin set_utxo_status
release_vin-orders v d =
    Option-split (λ (e : Db). e.orders ≡ d.orders)
      (find_first (λ u. u.txid == v.txid && u.out_index == v.out_index) d.utxos) (λ _. refl)
      (λ r _.
        if-split (λ (e : Db). e.orders ≡ d.orders) (is r.status pending) (λ _. refl) (λ _. refl))

release_vins-orders : (vs : List Vin) (d : Db) → (release_vins vs d).orders ≡ d.orders
unfolding release_vins
release_vins-orders [] d = refl
release_vins-orders (v ∷ vs) d = release_vins-orders vs (release_vin v d) ∙ release_vin-orders v d

update_where-All :
    {R : Type 0} (P : R → Type 0) (p : R → Bool) (f : R → R)
    → ((r : R) → p r ≡ true → P (f r))
    → ((r : R) → p r ≡ false → P r)
    → (rs : List R) → All P (update_where p f rs)
unfolding update_where
update_where-All P p f hit miss [] = tt
update_where-All P p f hit miss (r ∷ rs) =
    (if-split P (p r) (hit r) (miss r), update_where-All P p f hit miss rs)

-- A withdrawal of the order that still is aggregating.
abbrev pub held_by : ℕ → Withdraw → Bool
held_by order_id w = w.order_id == order_id && is w.status aggregating

withdraws_freed :
    (order_id : ℕ) (d : Db)
    → All
        (λ w. held_by order_id w ≡ false)
        (update_withdraw_status_by_order_id create order_id (aggregating ∷ []) d).withdraws
unfolding update_withdraw_status_by_order_id raw_match
withdraws_freed order_id d =
    update_where-All (λ w. held_by order_id w ≡ false)
      (λ w. w.order_id == order_id && raw_match w.status (aggregating ∷ []))
      (λ w. record w { status = create }) (λ w _. ground arith) (λ w free. ground (arith, free))
      d.withdraws

order_closed :
    (id : ℕ) (o : SendOrder) (d : Db)
    → get_order_by_order_id id d ≡ some o
    → find_first
        (λ p. p.order_id == id)
        (save_order o.id (λ p. record p { status = closed }) d).orders
      ≡ some (record o { status = closed })
unfolding get_order_by_order_id save_order
order_closed id o d found =
    let own : (o.id == o.id) ≡ true = ground arith in
    find_first-update_where (λ p. p.order_id == id) (λ p. p.id == o.id)
      (λ p. record p { status = closed }) d.orders (λ _. refl)
    ∙ ap (updated (λ p. p.id == o.id) (λ p. record p { status = closed })) found
    ∙ rw own refl

cleaned :
    (id : ℕ) (d : Db) (o : SendOrder)
    → get_order_by_order_id id d ≡ some o
    → o.status ≡ aggregating
    → clean_processing_withdraw_by_order_id id d ≡ ok (close_order o d)
unfolding clean_processing_withdraw_by_order_id
cleaned id d o found busy =
    let P : Result Db → Type 0 = λ x. x ≡ ok (close_order o d) in
    Option-split P (get_order_by_order_id id d)
      (λ missing. absurd (let no : none ≡ some o = sym missing ∙ found in cc))
      (λ p here.
        let both : some p ≡ some o = sym here ∙ found in
        let same : p ≡ o = cc in
        if-split P (is p.status aggregating) (λ _. ap (λ x. ok (close_order x d)) same)
          (λ other.
            absurd (busy_test o busy (subst (λ x. is x.status aggregating ≡ false) same other))))
  where
    busy_test : (o : SendOrder) → o.status ≡ aggregating → is o.status aggregating ≡ false → ⊥
    busy_test o busy other = ground (arith, busy, other)

-- An aggregating order is cleaned: the call succeeds, the order is closed, none of its inputs
-- holds a UTXO as pending any more, and none of its withdrawals is aggregating.
pub clean_processing_withdraw_by_order_id-frees :
    (id : ℕ) (d : Db) (o : SendOrder)
    → get_order_by_order_id id d ≡ some o
    → o.status ≡ aggregating
    → (d' : Db) × (clean_processing_withdraw_by_order_id id d ≡ ok d')
      × (get_order_by_order_id id d' ≡ some (record o { status = closed }))
      × All (λ v. holds v d'.utxos ≡ false) (get_vins o.order_id d)
      × All (λ w. held_by o.order_id w ≡ false) d'.withdraws
unfolding clean_processing_withdraw_by_order_id close_order update_other_status_by_order
    update_safebox_task_status_by_order_id update_withdraw_status_by_order_id get_vins save_order
    get_order_by_order_id
clean_processing_withdraw_by_order_id-frees id d o found busy =
    let closed_db = save_order o.id (λ p. record p { status = closed }) d in
    let vins = get_vins o.order_id d in
    let freed = release_vins vins closed_db in
    (
      close_order o d,
      cleaned id d o found busy,
      ap (find_first (λ p. p.order_id == id)) (release_vins-orders vins closed_db)
          ∙ order_closed id o d found,
      release_vins-frees vins closed_db,
      withdraws_freed o.order_id (update_other_status_by_order o.order_id closed true freed),
    )
