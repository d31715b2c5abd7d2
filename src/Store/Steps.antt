-- ===== src/Store/Steps.antt =====
-- `CreateSendOrder` (internal/state/withdraw.go) taken apart into its statements.
use goat_relayer.Prelude.{◌≡◌, refl, ◌∙◌, ap, subst, List, [], ◌∷◌, Bool, ◌==◌, if-split}
use goat_relayer.Table.{exists_row}
use goat_relayer.Store.{
  Utxo, Withdraw, SendOrder, Vin, Vout, SafeboxTask, Db, Result, ok, err, ◌>>=◌, each,
}
use goat_relayer.Store.Rows.{
  insert_order, insert_vin, insert_vout, insert_vins, insert_vouts, create_vins, create_vouts,
}
use goat_relayer.Store.Orders.{lock_utxo, claim_rows, create_send_order}

pub ok-injective : (d e : Db) → ok d ≡ ok e → d ≡ e
ok-injective d e h = ap result h
  where
    result : Result Db → Db
    result (ok x) = x
    result (err x) = d

pub bind-ok :
    (r : Result Db) (f : Db → Result Db) (d' : Db)
    → (r >>= f) ≡ ok d'
    → (e : Db) × (r ≡ ok e) × (f e ≡ ok d')
bind-ok (ok e) f d' h = (e, refl, h)
bind-ok (err x) f d' h = absurd cc

module _ {T : Type 0} (view : Db → T) where
  -- A result whose database has the same view.
  abbrev pub SameView : Db → Result Db → Type 0
  SameView d (ok e) = view d ≡ view e
  SameView d (err x) = Unit {0}

  pub each-SameView :
      {A : Type 0} (step : A → Db → Result Db)
      → ((x : A) (d : Db) → SameView d (step x d))
      → (xs : List A) (d d' : Db) → each step xs d ≡ ok d'
      → view d ≡ view d'
  unfolding each
  each-SameView step h [] d d' e = ap view (ok-injective d d' e)
  each-SameView step h (x ∷ xs) d d' e =
      let split = bind-ok (step x d) (each step xs) d' e in
      subst (SameView d) split.1 (h x d) ∙ each-SameView step h xs split.0 d' split.2

-- The tables of UTXOs and withdrawals.
abbrev tables : Db → List Utxo × List Withdraw
tables d = (d.utxos, d.withdraws)

insert_order-tables : (o : SendOrder) (d : Db) → SameView tables d (insert_order o d)
unfolding insert_order
insert_order-tables o d =
    if-split (SameView tables d) (exists_row (λ p. p.order_id == o.order_id) d.orders) (λ _. tt)
      (λ _. refl)

insert_vins-tables : (vs : List Vin) (d : Db) → tables d ≡ tables (insert_vins vs d)
unfolding insert_vins insert_vin
insert_vins-tables [] d = refl
insert_vins-tables (v ∷ vs) d = insert_vins-tables vs (insert_vin v d)

insert_vouts-tables : (vs : List Vout) (d : Db) → tables d ≡ tables (insert_vouts vs d)
unfolding insert_vouts insert_vout
insert_vouts-tables [] d = refl
insert_vouts-tables (v ∷ vs) d = insert_vouts-tables vs (insert_vout v d)

create_vins-tables : (vs : List Vin) (d : Db) → SameView tables d (create_vins vs d)
unfolding create_vins
create_vins-tables [] d = tt
create_vins-tables (v ∷ vs) d = insert_vins-tables (v ∷ vs) d

create_vouts-tables : (vs : List Vout) (d : Db) → SameView tables d (create_vouts vs d)
unfolding create_vouts
create_vouts-tables [] d = tt
create_vouts-tables (v ∷ vs) d = insert_vouts-tables (v ∷ vs) d

-- A successful creation locks the UTXOs in a database with the tables of the first one, and then claims the
-- rows of the order.
pub create_send_order-steps :
    (o : SendOrder) (us : List Utxo) (ws : List Withdraw) (ts : List SafeboxTask) (vins : List Vin)
    (vouts : List Vout) (b : Bool) (d d' : Db)
    → create_send_order o us ws ts vins vouts b d ≡ ok d'
    → (start mid : Db) × (d.utxos ≡ start.utxos)
      × (d.withdraws ≡ start.withdraws)
      × (each lock_utxo us start ≡ ok mid)
      × (claim_rows o.order_type o ws ts b mid ≡ ok d')
unfolding create_send_order
create_send_order-steps o us ws ts vins vouts b d d' h =
    let claim : Db → Result Db = claim_rows o.order_type o ws ts b in
    let lock : Db → Result Db = λ x. each lock_utxo us x >>= claim in
    let p =
      bind-ok (insert_order o d) (λ x. create_vins vins x >>= λ y. create_vouts vouts y >>= lock) d'
        h in
    let q = bind-ok (create_vins vins p.0) (λ y. create_vouts vouts y >>= lock) d' p.2 in
    let r = bind-ok (create_vouts vouts q.0) lock d' q.2 in
    let s = bind-ok (each lock_utxo us r.0) claim d' r.2 in
    let same : tables d ≡ tables r.0 =
      subst (SameView tables d) p.1 (insert_order-tables o d)
      ∙ subst (SameView tables p.0) q.1 (create_vins-tables vins p.0)
      ∙ subst (SameView tables q.0) r.1 (create_vouts-tables vouts q.0) in
    (r.0, s.0, ap (λ t. t.0) same, ap (λ t. t.1) same, s.1, s.2)
