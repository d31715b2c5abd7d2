-- ===== src/Store/Claim.antt =====
-- `CreateSendOrder` (internal/state/withdraw.go) of a proposer and the withdrawals it is given.
use goat_relayer.Prelude.{
  ℕ, ◌≡◌, refl, sym, ◌∙◌, ap, subst, List, [], ◌∷◌, Bool, true, Option, none, some, ◌⊎◌, inl, inr,
  arith, ◌==◌, All, if-split, Option-split, Bool-cases,
}
use goat_relayer.Table.{find_first, assign}
use goat_relayer.Table.Query.{updated, find_first-update_where}
use goat_relayer.Table.Evolve.{All-map}
use goat_relayer.Store.{
  Status, create, aggregating, withdrawal, Utxo, Withdraw, SendOrder, Vin, Vout, SafeboxTask, Db,
  Result, ok, is, each, pending, unconfirm, spent, one_of,
}
use goat_relayer.Store.Rows.{get_utxo, get_withdraw, save_withdraw, set_utxo_status}
use goat_relayer.Store.Orders.{claimable, lock_utxo, claim_withdraw, claim_rows, create_send_order}
use goat_relayer.Store.Steps.{
  ok-injective, bind-ok, SameView, each-SameView, create_send_order-steps,
}

-- The status of a withdrawal and the order it is in.
abbrev state_of : Option Withdraw → Option (Status × ℕ)
state_of none = none
state_of (some w) = some (w.status, w.order_id)

abbrev pub request : ℕ → List Withdraw → Option (Status × ℕ)
request id ws = state_of (find_first (λ w. w.request_id == id) ws)

-- A withdrawal that waits: it is in the status `create`.
abbrev pub Waiting : List Withdraw → Withdraw → Type 0
Waiting table w =
    (s : Status) × (order_id : ℕ) × (request w.request_id table ≡ some (s, order_id))
    × (is s create ≡ true)

-- A withdrawal that this order has taken.
abbrev pub Claimed : ℕ → List Withdraw → Withdraw → Type 0
Claimed order_id table w = request w.request_id table ≡ some (aggregating, order_id)

abbrev pub DistinctRequests : List Withdraw → Type 0
DistinctRequests [] = Unit {0}
DistinctRequests (w ∷ ws) = All (λ v. w.request_id ≡ v.request_id → ⊥) ws × DistinctRequests ws

-- The columns that a claim changes.
abbrev claim_row : SendOrder → Withdraw → Withdraw
claim_row o x = record x {
  status = aggregating;
  order_id = assign o.order_id x.order_id;
  txid = assign o.txid x.txid;
}

claimed_row :
    (order : SendOrder) (q : Withdraw → Bool) (o : Option Withdraw)
    → (order.order_id ≡ 0 → ⊥)
    → (state_of (updated q (claim_row order) o) ≡ state_of o)
      ⊎ (state_of (updated q (claim_row order) o) ≡ some (aggregating, order.order_id))
claimed_row order q none named = inl refl
claimed_row order q (some w) named = elim (Bool-cases (q w)) [
  | inl hit ↦
      inr (rw hit (ap (λ n. some (aggregating, n)) (assigned order.order_id w.order_id named)))
  | inr miss ↦ inl (rw miss refl)
]
  where
    assigned : (n m : ℕ) → (n ≡ 0 → ⊥) → assign n m ≡ n
    assigned n m h = ground (arith, h)

-- A claim that succeeds for a proposer.
abbrev ClaimOf : SendOrder → Withdraw → Db → Db → Type 0
ClaimOf o w d d' =
    (r : Withdraw) × (get_withdraw w.request_id d ≡ some r)
    × (is r.status create ≡ true)
    × (d' ≡ save_withdraw r.id (claim_row o) d)

claim_withdraw-ClaimOf :
    (o : SendOrder) (w : Withdraw) (d d' : Db)
    → claim_withdraw o true w d ≡ ok d'
    → ClaimOf o w d d'
unfolding claim_withdraw claimable
claim_withdraw-ClaimOf o w d d' =
    Option-split (λ (x : Result Db). x ≡ ok d' → ClaimOf o w d d') (get_withdraw w.request_id d)
      (λ _ h. absurd cc)
      (λ r found.
        if-split (λ (x : Result Db). x ≡ ok d' → ClaimOf o w d d')
          (claimable create aggregating true r.status)
          (λ waits h.
            (r, found, waits, sym (ok-injective (save_withdraw r.id (claim_row o) d) d' h)))
          (λ _ h. absurd cc))

request-save_withdraw :
    (o : SendOrder) (i id : ℕ) (d : Db)
    → request i (save_withdraw id (claim_row o) d).withdraws
      ≡ state_of (
          updated (λ w. w.id == id) (claim_row o) (find_first (λ w. w.request_id == i) d.withdraws))
unfolding save_withdraw
request-save_withdraw o i id d = ap state_of (
    find_first-update_where (λ w. w.request_id == i) (λ w. w.id == id) (claim_row o) d.withdraws
      (λ _. refl))

-- A positive order id; the column is not assigned otherwise.
module _ (o : SendOrder) (named : o.order_id ≡ 0 → ⊥) where
  ClaimOf-Claimed :
      (w : Withdraw) (d d' : Db) → ClaimOf o w d d' → Claimed o.order_id d'.withdraws w
  unfolding get_withdraw
  ClaimOf-Claimed w d d' (r, found, waits, e) =
      let hit : (r.id == r.id) ≡ true = ground arith in
      let own : state_of (updated (λ x. x.id == r.id) (claim_row o) (some r))
          ≡ some (aggregating, o.order_id) =
        rw hit (ap (λ n. some (aggregating, n)) (assigned o.order_id r.order_id named)) in
      subst (λ x. Claimed o.order_id x.withdraws w) (sym e)
        (request-save_withdraw o w.request_id r.id d
          ∙ ap (λ x. state_of (updated (λ y. y.id == r.id) (claim_row o) x)) found
          ∙ own)
    where
      assigned : (n m : ℕ) → (n ≡ 0 → ⊥) → assign n m ≡ n
      assigned n m h = ground (arith, h)

  ClaimOf-request :
      (w v : Withdraw) (d d' : Db)
      → ClaimOf o w d d'
      → (request v.request_id d'.withdraws ≡ request v.request_id d.withdraws)
        ⊎ Claimed o.order_id d'.withdraws v
  ClaimOf-request w v d d' (r, found, waits, e) =
      subst
        (λ x.
          (request v.request_id x.withdraws ≡ request v.request_id d.withdraws)
          ⊎ Claimed o.order_id x.withdraws v)
        (sym e)
        (elim (claimed_row o (λ x. x.id == r.id)
          (find_first (λ x. x.request_id == v.request_id) d.withdraws) named) [
            | inl same ↦ inl (request-save_withdraw o v.request_id r.id d ∙ same)
            | inr taken ↦ inr (request-save_withdraw o v.request_id r.id d ∙ taken)
          ])

  ClaimOf-Waiting : (w : Withdraw) (d d' : Db) → ClaimOf o w d d' → Waiting d.withdraws w
  unfolding get_withdraw
  ClaimOf-Waiting w d d' (r, found, waits, e) = (r.status, r.order_id, ap state_of found, waits)

  taken_not_Waiting :
      (table : List Withdraw) (v : Withdraw) → Claimed o.order_id table v → Waiting table v → ⊥
  taken_not_Waiting table v taken (s, n, e, waits) =
      let same : some (aggregating, o.order_id) ≡ some (s, n) = sym taken ∙ e in
      let same_status : aggregating ≡ s = ap first same in
      never (subst (λ x. is x create ≡ true) (sym same_status) waits)
    where
      never : is aggregating create ≡ true → ⊥
      never e = cc

      first : Option (Status × ℕ) → Status
      first none = aggregating
      first (some p) = p.0

  ClaimOf-back :
      (w v : Withdraw) (d d' : Db)
      → ClaimOf o w d d'
      → Waiting d'.withdraws v
      → Waiting d.withdraws v
  ClaimOf-back w v d d' c waits = elim (ClaimOf-request w v d d' c) [
    | inl same ↦ (waits.0, waits.1, sym same ∙ waits.2, waits.3)
    | inr taken ↦ absurd (taken_not_Waiting d'.withdraws v taken waits)
  ]

  ClaimedAll : List Withdraw → Db → Db → Type 0
  ClaimedAll ws d d' =
      All (Waiting d.withdraws) ws
      × All (Claimed o.order_id d'.withdraws) ws
      × DistinctRequests ws
      × ((v : Withdraw) → Claimed o.order_id d.withdraws v → Claimed o.order_id d'.withdraws v)

  claim_all-ClaimedAll :
      (ws : List Withdraw) (d d' : Db)
      → each (claim_withdraw o true) ws d ≡ ok d'
      → ClaimedAll ws d d'
  unfolding each ClaimedAll
  claim_all-ClaimedAll [] d d' h = (
    tt,
    tt,
    tt,
    λ v taken. subst (λ x. Claimed o.order_id x.withdraws v) (ok-injective d d' h) taken,
  )
  claim_all-ClaimedAll (w ∷ ws) d d' h =
      let (e, now, later) =
        bind-ok (claim_withdraw o true w d) (each (claim_withdraw o true) ws) d' h in
      let c = claim_withdraw-ClaimOf o w d e now in
      let (waiting, claimed, distinct, keeps) = claim_all-ClaimedAll ws e d' later in
      let taken = ClaimOf-Claimed w d e c in
      (
        (ClaimOf-Waiting w d e c, All-map ws (λ v. ClaimOf-back w v d e c) waiting),
        (keeps w taken, claimed),
        (
          All-map ws
              (λ v waits same.
                taken_not_Waiting e.withdraws v
                  (subst (λ i. request i e.withdraws ≡ some (aggregating, o.order_id)) same taken)
                  waits)
              waiting,
          distinct,
        ),
        λ v before. keeps v (elim (ClaimOf-request w v d e c) [
          | inl same ↦ same ∙ before
          | inr taken_too ↦ taken_too
        ]),
      )

lock_utxos-withdraws :
    (us : List Utxo) (d d' : Db) → each lock_utxo us d ≡ ok d' → d.withdraws ≡ d'.withdraws
unfolding lock_utxo set_utxo_status
lock_utxos-withdraws =
    each-SameView (λ x. x.withdraws) lock_utxo
      (λ u d.
        Option-split (SameView (λ x. x.withdraws) d) (get_utxo u.txid u.out_index d) (λ _. tt)
          (λ r _.
            if-split (SameView (λ x. x.withdraws) d)
              (one_of r.status (unconfirm ∷ pending ∷ spent ∷ [])) (λ _. tt) (λ _. refl)))

-- When `CreateSendOrder` succeeds for a proposer, with an order of withdrawals that has an id: every
-- withdrawal it was given was recorded and in the status `create`; each is aggregating afterwards and
-- belongs to this order; and no request was given twice.
pub create_send_order-claims :
    (o : SendOrder) (us : List Utxo) (ws : List Withdraw) (ts : List SafeboxTask) (vins : List Vin)
    (vouts : List Vout) (d d' : Db)
    → (o.order_id ≡ 0 → ⊥)
    → o.order_type ≡ withdrawal
    → create_send_order o us ws ts vins vouts true d ≡ ok d'
    → All (Waiting d.withdraws) ws × All (Claimed o.order_id d'.withdraws) ws × DistinctRequests ws
unfolding claim_rows ClaimedAll
create_send_order-claims o us ws ts vins vouts d d' named kind h =
    let (start, mid, coins, before, lock, claim) =
      create_send_order-steps o us ws ts vins vouts true d d' h in
    let claims : each (claim_withdraw o true) ws mid ≡ ok d' =
      subst (λ t. claim_rows t o ws ts true mid ≡ ok d') kind claim in
    let all = claim_all-ClaimedAll o named ws mid d' claims in
    let same : d.withdraws ≡ mid.withdraws = before ∙ lock_utxos-withdraws us start mid lock in
    (subst (λ table. All (Waiting table) ws) (sym same) all.0, all.1, all.2)
