-- ===== src/Store/Spent/Orders.antt =====
-- The creation, recovery and cleaning of send orders (internal/state/withdraw.go) and the table of
-- UTXOs.
use goat_relayer.Prelude.{
  ℕ, ◌≡◌, refl, sym, ◌∙◌, List, [], ◌∷◌, Bool, arith, ◌==◌, ◌&&◌, if-split, Option-split,
}
use goat_relayer.Table.{find_first, find_all, exists_row}
use goat_relayer.Store.{
  OrderType, withdrawal, consolidation, safebox, create, aggregating, init, pending, unconfirm,
  spent, processed, closed, received_ok, Utxo, Withdraw, SendOrder, Vin, Vout, SafeboxTask, Db, ok,
  is, one_of, each, ◌>>=◌,
}
use goat_relayer.Store.Rows.{
  get_utxo, get_withdraw, get_order_by_order_id, get_order_by_txid_and_statuses, get_vins,
  insert_order, insert_vin, insert_vout, insert_vins, insert_vouts, create_vins, create_vouts,
  save_order, save_withdraw, save_task, update_other_status_by_order,
  update_withdraw_status_by_order_id, update_safebox_task_status_by_order_id,
  update_withdraw_status_by_statuses, update_other_status_by_statuses,
}
use goat_relayer.Store.Orders.{
  claimable, lock_utxo, claim_task, claim_withdraw, claim_rows, create_send_order, recover_withdraw,
  recover_withdraws, recover_vin, recover_vins, recover_send_order, release_vin, release_vins,
  close_order, clean_processing_withdraw_by_order_id, clean_processing_withdraw,
}
use goat_relayer.Store.Spent.{
  Kept-same, Kept, Kept-refl, Kept-trans, KeptResult, KeptResult-after, KeptResult-bind,
  each-KeptResult, one_of-unspent, set_utxo_status-last, set_utxo_status-first,
}

pub lock_utxo-KeptResult : (u : Utxo) (d : Db) → KeptResult d (lock_utxo u d)
unfolding lock_utxo get_utxo
lock_utxo-KeptResult u d =
    Option-split (KeptResult d) (get_utxo u.txid u.out_index d) (λ _. tt)
      (λ r found.
        if-split (KeptResult d) (one_of r.status (unconfirm ∷ pending ∷ spent ∷ [])) (λ _. tt)
          (λ free.
            set_utxo_status-last (λ x. x.txid == u.txid && x.out_index == u.out_index) pending d r
              found (one_of-unspent r.status (unconfirm ∷ pending ∷ spent ∷ []) free refl)))

claim_task-KeptResult :
    (o : SendOrder) (b : Bool) (t : SafeboxTask) (d : Db) → KeptResult d (claim_task o b t d)
unfolding claim_task save_task
claim_task-KeptResult o b t d =
    Option-split (KeptResult d) (find_first (λ x. x.task_id == t.task_id) d.tasks) (λ _. tt)
      (λ r found.
        if-split (KeptResult d) (claimable received_ok init b r.status) (λ _. Kept-refl d.utxos)
          (λ _. tt))

pub insert_order-KeptResult : (o : SendOrder) (d : Db) → KeptResult d (insert_order o d)
unfolding insert_order
insert_order-KeptResult o d =
    if-split (KeptResult d) (exists_row (λ p. p.order_id == o.order_id) d.orders) (λ _. tt)
      (λ _. Kept-refl d.utxos)

claim_withdraw-KeptResult :
    (o : SendOrder) (b : Bool) (w : Withdraw) (d : Db) → KeptResult d (claim_withdraw o b w d)
unfolding claim_withdraw save_withdraw
claim_withdraw-KeptResult o b w d =
    Option-split (KeptResult d) (get_withdraw w.request_id d) (λ _. tt)
      (λ r found.
        if-split (KeptResult d) (claimable create aggregating b r.status) (λ _. Kept-refl d.utxos)
          (λ _. tt))

claim_rows-KeptResult :
    (t : OrderType) (o : SendOrder) (ws : List Withdraw) (ts : List SafeboxTask) (b : Bool) (d : Db)
    → KeptResult d (claim_rows t o ws ts b d)
unfolding claim_rows
claim_rows-KeptResult safebox o ws ts b d =
    each-KeptResult (claim_task o b) (claim_task-KeptResult o b) ts d
claim_rows-KeptResult withdrawal o ws ts b d =
    each-KeptResult (claim_withdraw o b) (claim_withdraw-KeptResult o b) ws d
claim_rows-KeptResult consolidation o ws ts b d = Kept-refl d.utxos

pub insert_vins-utxos : (vs : List Vin) (d : Db) → (insert_vins vs d).utxos ≡ d.utxos
unfolding insert_vins insert_vin
insert_vins-utxos [] d = refl
insert_vins-utxos (v ∷ vs) d = insert_vins-utxos vs (insert_vin v d)

pub insert_vouts-utxos : (vs : List Vout) (d : Db) → (insert_vouts vs d).utxos ≡ d.utxos
unfolding insert_vouts insert_vout
insert_vouts-utxos [] d = refl
insert_vouts-utxos (v ∷ vs) d = insert_vouts-utxos vs (insert_vout v d)

pub create_vins-KeptResult : (vs : List Vin) (d : Db) → KeptResult d (create_vins vs d)
unfolding create_vins
create_vins-KeptResult [] d = tt
create_vins-KeptResult (v ∷ vs) d =
    Kept-same d.utxos (insert_vins (v ∷ vs) d).utxos (sym (insert_vins-utxos (v ∷ vs) d))

pub create_vouts-KeptResult : (vs : List Vout) (d : Db) → KeptResult d (create_vouts vs d)
unfolding create_vouts
create_vouts-KeptResult [] d = tt
create_vouts-KeptResult (v ∷ vs) d =
    Kept-same d.utxos (insert_vouts (v ∷ vs) d).utxos (sym (insert_vouts-utxos (v ∷ vs) d))

pub create_send_order-KeptResult :
    (o : SendOrder) (us : List Utxo) (ws : List Withdraw) (ts : List SafeboxTask) (vins : List Vin)
    (vouts : List Vout) (b : Bool) (d : Db)
    → KeptResult d (create_send_order o us ws ts vins vouts b d)
unfolding create_send_order
create_send_order-KeptResult o us ws ts vins vouts b d =
    KeptResult-bind d (insert_order o d)
      (λ d₁. create_vins vins d₁ >>= λ d₂. create_vouts vouts d₂ >>= λ d₃.
        each lock_utxo us d₃ >>= λ d₄. claim_rows o.order_type o ws ts b d₄)
      (insert_order-KeptResult o d)
      (λ d₁.
        KeptResult-bind d₁ (create_vins vins d₁)
          (λ d₂. create_vouts vouts d₂ >>= λ d₃.
            each lock_utxo us d₃ >>= λ d₄. claim_rows o.order_type o ws ts b d₄)
          (create_vins-KeptResult vins d₁)
          (λ d₂.
            KeptResult-bind d₂ (create_vouts vouts d₂)
              (λ d₃. each lock_utxo us d₃ >>= λ d₄. claim_rows o.order_type o ws ts b d₄)
              (create_vouts-KeptResult vouts d₂)
              (λ d₃.
                KeptResult-bind d₃ (each lock_utxo us d₃)
                  (λ d₄. claim_rows o.order_type o ws ts b d₄)
                  (each-KeptResult lock_utxo lock_utxo-KeptResult us d₃)
                  (λ d₄. claim_rows-KeptResult o.order_type o ws ts b d₄))))

recover_withdraw-utxos : (o : SendOrder) (i : ℕ) (d : Db) → d.utxos ≡ (recover_withdraw o i d).utxos
unfolding recover_withdraw save_withdraw
recover_withdraw-utxos o i d =
    Option-split (λ (e : Db). d.utxos ≡ e.utxos) (get_withdraw i d) (λ _. refl)
      (λ r _.
        if-split (λ (e : Db). d.utxos ≡ e.utxos) (one_of r.status (create ∷ aggregating ∷ []))
          (λ _. refl) (λ _. refl))

recover_withdraws-utxos :
    (o : SendOrder) (is : List ℕ) (d : Db) → d.utxos ≡ (recover_withdraws o is d).utxos
unfolding recover_withdraws
recover_withdraws-utxos o [] d = refl
recover_withdraws-utxos o (i ∷ is) d =
    recover_withdraw-utxos o i d ∙ recover_withdraws-utxos o is (recover_withdraw o i d)

recover_vin-Kept : (v : Vin) (d : Db) → Kept d.utxos (recover_vin v d).0.utxos
unfolding recover_vin get_utxo
recover_vin-Kept v d =
    Option-split (λ (r : Db × Vin). Kept d.utxos r.0.utxos) (get_utxo v.txid v.out_index d)
      (λ _. Kept-refl d.utxos)
      (λ r found.
        if-split (λ (r : Db × Vin). Kept d.utxos r.0.utxos) (one_of r.status (pending ∷ spent ∷ []))
          (λ _. Kept-refl d.utxos)
          (λ free.
            set_utxo_status-last (λ x. x.txid == v.txid && x.out_index == v.out_index) pending d r
              found (one_of-unspent r.status (pending ∷ spent ∷ []) free refl)))

recover_vins-Kept : (vs : List Vin) (d : Db) → Kept d.utxos (recover_vins vs d).0.utxos
unfolding recover_vins
recover_vins-Kept [] d = Kept-refl d.utxos
recover_vins-Kept (v ∷ vs) d =
    Kept-trans d.utxos (recover_vin v d).0.utxos (recover_vins vs (recover_vin v d).0).0.utxos
      (recover_vin-Kept v d) (recover_vins-Kept vs (recover_vin v d).0)

release_vin-Kept : (v : Vin) (d : Db) → Kept d.utxos (release_vin v d).utxos
unfolding release_vin
release_vin-Kept v d =
    Option-split (λ (e : Db). Kept d.utxos e.utxos)
      (find_first (λ u. u.txid == v.txid && u.out_index == v.out_index) d.utxos)
      (λ _. Kept-refl d.utxos)
      (λ r found.
        if-split (λ (e : Db). Kept d.utxos e.utxos) (is r.status pending)
          (λ held.
            set_utxo_status-first (λ u. u.txid == v.txid && u.out_index == v.out_index) processed d
              r found (λ e. ground (arith, held, e)))
          (λ _. Kept-refl d.utxos))

release_vins-Kept : (vs : List Vin) (d : Db) → Kept d.utxos (release_vins vs d).utxos
unfolding release_vins
release_vins-Kept [] d = Kept-refl d.utxos
release_vins-Kept (v ∷ vs) d =
    Kept-trans d.utxos (release_vin v d).utxos (release_vins vs (release_vin v d)).utxos
      (release_vin-Kept v d) (release_vins-Kept vs (release_vin v d))

close_order-Kept : (o : SendOrder) (d : Db) → Kept d.utxos (close_order o d).utxos
unfolding close_order save_order update_other_status_by_order update_withdraw_status_by_order_id
    update_safebox_task_status_by_order_id
close_order-Kept o d =
    let closed_db = save_order o.id (λ p. record p { status = closed }) d in
    release_vins-Kept (get_vins o.order_id closed_db) closed_db

pub recover_send_order-KeptResult :
    (o : SendOrder) (vins : List Vin) (vouts : List Vout) (ids : List ℕ) (d : Db)
    → KeptResult d (recover_send_order o vins vouts ids d)
unfolding recover_send_order
recover_send_order-KeptResult o vins vouts ids d =
    Option-split (KeptResult d) (get_order_by_txid_and_statuses o.txid (init ∷ aggregating ∷ []) d)
      (λ _.
        let ready = recover_withdraws o ids d in
        let locked = recover_vins vins ready in
        KeptResult-after d locked.0
          (insert_order o locked.0 >>= λ d₁.
            create_vins locked.1 d₁ >>= λ d₂. create_vouts vouts d₂)
          (Kept-trans d.utxos ready.utxos locked.0.utxos
            (Kept-same d.utxos ready.utxos (recover_withdraws-utxos o ids d))
            (recover_vins-Kept vins ready))
          (KeptResult-bind locked.0 (insert_order o locked.0)
            (λ d₁. create_vins locked.1 d₁ >>= λ d₂. create_vouts vouts d₂)
            (insert_order-KeptResult o locked.0)
            (λ d₁.
              KeptResult-bind d₁ (create_vins locked.1 d₁) (λ d₂. create_vouts vouts d₂)
                (create_vins-KeptResult locked.1 d₁) (λ d₂. create_vouts-KeptResult vouts d₂))))
      (λ _ _. Kept-refl d.utxos)

pub clean_processing_withdraw_by_order_id-KeptResult :
    (id : ℕ) (d : Db) → KeptResult d (clean_processing_withdraw_by_order_id id d)
unfolding clean_processing_withdraw_by_order_id
clean_processing_withdraw_by_order_id-KeptResult id d =
    Option-split (KeptResult d) (get_order_by_order_id id d) (λ _. Kept-refl d.utxos)
      (λ o _.
        if-split (KeptResult d) (is o.status aggregating) (λ _. close_order-Kept o d)
          (λ _. Kept-refl d.utxos))

pub clean_processing_withdraw-KeptResult : (d : Db) → KeptResult d (clean_processing_withdraw d)
unfolding clean_processing_withdraw update_withdraw_status_by_statuses
    update_other_status_by_statuses
clean_processing_withdraw-KeptResult d =
    elim (find_all (λ o. one_of o.status (aggregating ∷ [])) d.orders)
      as (λ os. KeptResult d (elim os [
        | o ∷ others ↦ ok (close_order o d)
        | [] ↦
            (let restored = update_withdraw_status_by_statuses create (aggregating ∷ []) d in
              ok (update_other_status_by_statuses closed (create ∷ aggregating ∷ []) restored))
      ])) [ [] ↦ Kept-refl d.utxos | o ∷ others ↦ close_order-Kept o d ]
