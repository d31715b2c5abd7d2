-- ===== src/Store/Lock.antt =====
-- `CreateSendOrder` (internal/state/withdraw.go) and the UTXOs it is given.
use goat_relayer.Prelude.{
  ℕ, ◌≡◌, refl, sym, ◌∙◌, ap, subst, List, [], ◌∷◌, Bool, true, false, Option, none, some, ◌⊎◌, inl,
  inr, arith, ◌==◌, ◌&&◌, All, if-split, Option-split, Bool-cases,
}
use goat_relayer.Table.{find_first, find_last}
use goat_relayer.Table.Query.{updated, find_last-update_where}
use goat_relayer.Table.Evolve.{All-map}
use goat_relayer.Store.{
  Status, create, aggregating, init, pending, unconfirm, spent, received_ok, OrderType, withdrawal,
  consolidation, safebox, Utxo, Withdraw, SendOrder, Vin, Vout, SafeboxTask, Db, Result, ok, one_of,
  each,
}
use goat_relayer.Store.Rows.{get_utxo, get_withdraw, save_task, save_withdraw, set_utxo_status}
use goat_relayer.Store.Orders.{
  claimable, lock_utxo, claim_task, claim_withdraw, claim_rows, create_send_order,
}
use goat_relayer.Store.Steps.{
  ok-injective, bind-ok, SameView, each-SameView, create_send_order-steps,
}

-- The status of the latest row of an outpoint.
abbrev status_of : Option Utxo → Option Status
status_of none = none
status_of (some u) = some u.status

abbrev pub coin : ℕ → ℕ → List Utxo → Option Status
coin txid out us = status_of (find_last (λ u. u.txid == txid && u.out_index == out) us)

-- An outpoint that may be selected: it has a row, which is neither unconfirmed, nor pending, nor spent.
abbrev pub Spendable : List Utxo → Utxo → Type 0
Spendable us u =
    (s : Status) × (coin u.txid u.out_index us ≡ some s)
    × (one_of s (unconfirm ∷ pending ∷ spent ∷ []) ≡ false)

abbrev pub Locked : List Utxo → Utxo → Type 0
Locked us u = coin u.txid u.out_index us ≡ some pending

-- Another outpoint.
abbrev pub Apart : Utxo → Utxo → Type 0
Apart u v = u.txid ≡ v.txid × u.out_index ≡ v.out_index → ⊥

abbrev pub Distinct : List Utxo → Type 0
Distinct [] = Unit {0}
Distinct (u ∷ us) = All (Apart u) us × Distinct us

-- What setting rows to pending does to the status of an outpoint.
pend_row :
    (q : Utxo → Bool) (o : Option Utxo)
    → (status_of (updated q (λ u. record u { status = pending }) o) ≡ status_of o)
      ⊎ ((status_of (updated q (λ u. record u { status = pending }) o) ≡ some pending)
          × (status_of o ≡ none → ⊥))
pend_row q none = inl refl
pend_row q (some u) = elim (Bool-cases (q u)) [
  | inl hit ↦ inr (rw hit refl, λ e. cc)
  | inr miss ↦ inl (rw miss refl)
]

pend_coin :
    (txid out id : ℕ) (d : Db)
    → (coin txid out (set_utxo_status id pending d).utxos ≡ coin txid out d.utxos)
      ⊎ ((coin txid out (set_utxo_status id pending d).utxos ≡ some pending)
          × (coin txid out d.utxos ≡ none → ⊥))
unfolding set_utxo_status
pend_coin txid out id d =
    rw
      (find_last-update_where (λ u. u.txid == txid && u.out_index == out) (λ u. u.id == id)
        (λ u. record u { status = pending }) d.utxos (λ r. refl))
      (pend_row (λ u. u.id == id) (find_last (λ u. u.txid == txid && u.out_index == out) d.utxos))

==_refl : (n : ℕ) → (n == n) ≡ true
==_refl n = ground arith

-- A lock that succeeds.
abbrev LockOf : Utxo → Db → Db → Type 0
LockOf u d d' =
    (r : Utxo) × (get_utxo u.txid u.out_index d ≡ some r)
    × (one_of r.status (unconfirm ∷ pending ∷ spent ∷ []) ≡ false)
    × (d' ≡ set_utxo_status r.id pending d)

lock_utxo-LockOf : (u : Utxo) (d d' : Db) → lock_utxo u d ≡ ok d' → LockOf u d d'
unfolding lock_utxo
lock_utxo-LockOf u d d' =
    Option-split (λ (x : Result Db). x ≡ ok d' → LockOf u d d') (get_utxo u.txid u.out_index d)
      (λ _ h. absurd cc)
      (λ r found.
        if-split (λ (x : Result Db). x ≡ ok d' → LockOf u d d')
          (one_of r.status (unconfirm ∷ pending ∷ spent ∷ [])) (λ _ h. absurd cc)
          (λ free h. (r, found, free, sym (ok-injective (set_utxo_status r.id pending d) d' h))))

LockOf-Spendable : (u : Utxo) (d d' : Db) → LockOf u d d' → Spendable d.utxos u
unfolding get_utxo
LockOf-Spendable u d d' l = (l.0.status, ap status_of l.1, l.2)

LockOf-Locked : (u : Utxo) (d d' : Db) → LockOf u d d' → Locked d'.utxos u
unfolding get_utxo set_utxo_status
LockOf-Locked u d d' l =
    let r = l.0 in
    let after_lock : Locked (set_utxo_status r.id pending d).utxos u =
      rw
        (
          find_last-update_where (λ x. x.txid == u.txid && x.out_index == u.out_index)
              (λ x. x.id == r.id) (λ x. record x { status = pending }) d.utxos (λ _. refl),
          l.1,
        )
        (rw (==_refl r.id) refl) in
    subst (λ e. Locked e.utxos u) (sym l.3) after_lock

LockOf-coin :
    (u v : Utxo) (d d' : Db)
    → LockOf u d d'
    → (coin v.txid v.out_index d'.utxos ≡ coin v.txid v.out_index d.utxos) ⊎ Locked d'.utxos v
LockOf-coin u v d d' l =
    subst
      (λ e. (coin v.txid v.out_index e.utxos ≡ coin v.txid v.out_index d.utxos) ⊎ Locked e.utxos v)
      (sym l.3)
      (elim (pend_coin v.txid v.out_index l.0.id d) [ inl same ↦ inl same | inr p ↦ inr p.0 ])

pending_not_Spendable : (us : List Utxo) (v : Utxo) → Locked us v → Spendable us v → ⊥
pending_not_Spendable us v l s =
    let same : some pending ≡ some s.0 = sym l ∙ s.1 in
    let same_status : pending ≡ s.0 = cc in
    absurd (
      let no : one_of pending (unconfirm ∷ pending ∷ spent ∷ []) ≡ false =
        subst (λ t. one_of t (unconfirm ∷ pending ∷ spent ∷ []) ≡ false) (sym same_status) s.2 in
      cc)

LockOf-keeps : (u v : Utxo) (d d' : Db) → LockOf u d d' → Locked d.utxos v → Locked d'.utxos v
LockOf-keeps u v d d' l held = elim (LockOf-coin u v d d' l) [
  | inl same ↦ same ∙ held
  | inr now ↦ now
]

LockOf-back : (u v : Utxo) (d d' : Db) → LockOf u d d' → Spendable d'.utxos v → Spendable d.utxos v
LockOf-back u v d d' l free = elim (LockOf-coin u v d d' l) [
  | inl same ↦ (free.0, sym same ∙ free.1, free.2)
  | inr now ↦ absurd (pending_not_Spendable d'.utxos v now free)
]

Locked-Apart : (us : List Utxo) (u v : Utxo) → Locked us u → Spendable us v → Apart u v
Locked-Apart us u v held free same =
    pending_not_Spendable us v
      (subst (λ t. coin t v.out_index us ≡ some pending) same.0
        (subst (λ o. coin u.txid o us ≡ some pending) same.1 held))
      free

abbrev LockedAll : List Utxo → Db → Db → Type 0
LockedAll us d d' =
    All (Spendable d.utxos) us
    × All (Locked d'.utxos) us
    × Distinct us
    × ((v : Utxo) → Locked d.utxos v → Locked d'.utxos v)

lock_all-nil : (d d' : Db) → ok d ≡ ok d' → LockedAll [] d d'
lock_all-nil d d' h =
    (tt, tt, tt, λ v held. subst (λ e. Locked e.utxos v) (ok-injective d d' h) held)

lock_all-LockedAll : (us : List Utxo) (d d' : Db) → each lock_utxo us d ≡ ok d' → LockedAll us d d'
unfolding each
lock_all-LockedAll [] d d' h = lock_all-nil d d' h
lock_all-LockedAll (u ∷ us) d d' h =
    let split = bind-ok (lock_utxo u d) (each lock_utxo us) d' h in
    let e = split.0 in
    let lock = lock_utxo-LockOf u d e split.1 in
    let rest = lock_all-LockedAll us e d' split.2 in
    let held = LockOf-Locked u d e lock in
    (
      (LockOf-Spendable u d e lock, All-map us (λ v. LockOf-back u v d e lock) rest.0),
      (rest.3 u held, rest.1),
      (All-map us (λ v. Locked-Apart e.utxos u v held) rest.0, rest.2),
      λ v before. rest.3 v (LockOf-keeps u v d e lock before),
    )

claim_rows-utxos :
    (t : OrderType) (o : SendOrder) (ws : List Withdraw) (ts : List SafeboxTask) (b : Bool)
    (d d' : Db)
    → claim_rows t o ws ts b d ≡ ok d'
    → d.utxos ≡ d'.utxos
unfolding claim_rows claim_task claim_withdraw save_task save_withdraw
claim_rows-utxos consolidation o ws ts b d d' h = ap (λ x. x.utxos) (ok-injective d d' h)
claim_rows-utxos safebox o ws ts b d d' h =
    each-SameView (λ x. x.utxos) (claim_task o b)
      (λ t e.
        Option-split (SameView (λ x. x.utxos) e) (find_first (λ x. x.task_id == t.task_id) e.tasks)
          (λ _. tt)
          (λ r _.
            if-split (SameView (λ x. x.utxos) e) (claimable received_ok init b r.status) (λ _. refl)
              (λ _. tt)))
      ts d d' h
claim_rows-utxos withdrawal o ws ts b d d' h =
    each-SameView (λ x. x.utxos) (claim_withdraw o b)
      (λ w e.
        Option-split (SameView (λ x. x.utxos) e) (get_withdraw w.request_id e) (λ _. tt)
          (λ r _.
            if-split (SameView (λ x. x.utxos) e) (claimable create aggregating b r.status)
              (λ _. refl) (λ _. tt)))
      ws d d' h

-- When `CreateSendOrder` succeeds, every outpoint it was given had a row that was neither unconfirmed,
-- nor pending, nor spent; each is pending afterwards; and no outpoint was given twice.
pub create_send_order-locks :
    (o : SendOrder) (us : List Utxo) (ws : List Withdraw) (ts : List SafeboxTask) (vins : List Vin)
    (vouts : List Vout) (b : Bool) (d d' : Db)
    → create_send_order o us ws ts vins vouts b d ≡ ok d'
    → All (Spendable d.utxos) us × All (Locked d'.utxos) us × Distinct us
create_send_order-locks o us ws ts vins vouts b d d' h =
    let (start, mid, before, requests, lock, claim) =
      create_send_order-steps o us ws ts vins vouts b d d' h in
    let locked = lock_all-LockedAll us start mid lock in
    let behind : mid.utxos ≡ d'.utxos = claim_rows-utxos o.order_type o ws ts b mid d' claim in
    (
      subst (λ table. All (Spendable table) us) (sym before) locked.0,
      subst (λ table. All (Locked table) us) behind locked.1,
      locked.2,
    )
