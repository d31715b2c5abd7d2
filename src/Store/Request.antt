-- ===== src/Store/Request.antt =====
-- `CreateWithdrawal` (internal/state/withdraw.go): the requests of layer 2.
use goat_relayer.Prelude.{
  ℕ, suc, ◌≡◌, ◌≢◌, refl, sym, ◌∙◌, ◌⊎◌, inl, inr, List, [], ◌∷◌, ◌++◌, Bool, true, false, Option,
  none, some, arith, ◌==◌, Option-split, Option-cases, Bool-cases, if◌then◌else◌,
}
use goat_relayer.Table.{find_first}
use goat_relayer.Store.{create, Withdraw, Db, Result, ok}
use goat_relayer.Store.Rows.{get_withdraw}
use goat_relayer.Store.Progress.{create_withdrawal}

-- A query of a table with one more row.
find_first-append :
    {R : Type 0} (p : R → Bool) (rs : List R) (r : R)
    → find_first p (rs ++ r ∷ [])
      ≡ elim (find_first p rs) [ none ↦ (if p r then some r else none) | some found ↦ some found ]
unfolding find_first
find_first-append p [] r = refl
find_first-append p (x ∷ rs) r = elim (Bool-cases (p x)) [
  | inl hit ↦ rw hit refl
  | inr miss ↦ rw (miss, find_first-append p rs r) refl
]

-- The row of a request that was not known before.
abbrev pub IsFresh : ℕ → ℕ → ℕ → ℕ → ℕ → ℕ → Withdraw → Type 0
IsFresh sender receiver block id tx_price amount w =
    (w.sender ≡ sender)
    × (w.receiver ≡ receiver)
    × (w.goat_block ≡ block)
    × (w.request_id ≡ id)
    × (w.tx_price ≡ tx_price)
    × (w.amount ≡ amount)
    × (w.status ≡ create)

abbrev fresh_row : ℕ → ℕ → ℕ → ℕ → ℕ → ℕ → ℕ → Withdraw
fresh_row key sender receiver block id tx_price amount = record {
  id = key;
  request_id = id;
  goat_block = block;
  amount = amount;
  tx_price = tx_price;
  tx_fee = 0;
  sender = sender;
  receiver = receiver;
  status = create;
  order_id = 0;
  txid = 0;
  reason = 0;
}

abbrev with_row : Withdraw → Db → Db
with_row w d = record d { withdraws = d.withdraws ++ w ∷ []; next_id = suc d.next_id }

known_again :
    (sender receiver block id tx_price amount : ℕ) (d : Db) (w : Withdraw)
    → get_withdraw id d ≡ some w
    → create_withdrawal sender receiver block id tx_price amount d ≡ ok d
unfolding create_withdrawal
known_again sender receiver block id tx_price amount d w known =
    Option-split (λ (x : Result Db). x ≡ ok d) (get_withdraw id d)
      (λ missing. absurd (let no : none ≡ some w = sym missing ∙ known in cc)) (λ _ _. refl)

new_request :
    (sender receiver block id tx_price amount : ℕ) (d : Db)
    → get_withdraw id d ≡ none
    → create_withdrawal sender receiver block id tx_price amount d
      ≡ ok (with_row (fresh_row d.next_id sender receiver block id tx_price amount) d)
unfolding create_withdrawal
new_request sender receiver block id tx_price amount d missing =
    Option-split
      (λ (x : Result Db).
        x ≡ ok (with_row (fresh_row d.next_id sender receiver block id tx_price amount) d))
      (get_withdraw id d) (λ _. refl)
      (λ w known. absurd (let no : none ≡ some w = sym missing ∙ known in cc))

get_withdraw-with_row :
    (i : ℕ) (w : Withdraw) (d : Db)
    → get_withdraw i (with_row w d) ≡ elim (get_withdraw i d) [
      | none ↦ (if w.request_id == i then some w else none)
      | some found ↦ some found
    ]
unfolding get_withdraw
get_withdraw-with_row i w d = find_first-append (λ x. x.request_id == i) d.withdraws w

-- `CreateWithdrawal` always succeeds. Afterwards the request has a row: the one it had before, unchanged, or, when
-- it had none, a new one with the arguments, in the status `create`. Any other request has the
-- row it had, and a second request of the same id, whatever its arguments, changes nothing.
pub create_withdrawal-records :
    (sender receiver block id tx_price amount : ℕ) (d : Db) (other s r b p a : ℕ)
    → other ≢ id
    → (d' : Db) × (w : Withdraw) × (create_withdrawal sender receiver block id tx_price amount d
        ≡ ok d')
      × (get_withdraw id d' ≡ some w)
      × ((get_withdraw id d ≡ some w)
          ⊎ ((get_withdraw id d ≡ none) × IsFresh sender receiver block id tx_price amount w))
      × (get_withdraw other d' ≡ get_withdraw other d)
      × (create_withdrawal s r b id p a d' ≡ ok d')
create_withdrawal-records sender receiver block id tx_price amount d other s r b p a differ =
    elim (Option-cases (get_withdraw id d)) [
      | inr (w, known) ↦ (
        d,
        w,
        known_again sender receiver block id tx_price amount d w known,
        known,
        inl known,
        refl,
        known_again s r b id p a d w known,
      )
      | inl missing ↦
          let w = fresh_row d.next_id sender receiver block id tx_price amount in
          let d' = with_row w d in
          let own : (id == id) ≡ true = ground arith in
          let foreign : (id == other) ≡ false = ground (arith, differ) in
          let found : get_withdraw id d' ≡ some w =
            get_withdraw-with_row id w d ∙ rw (missing, own) refl in
          (
            d',
            w,
            new_request sender receiver block id tx_price amount d missing,
            found,
            inr (missing, (refl, refl, refl, refl, refl, refl, refl)),
            get_withdraw-with_row other w d ∙ others (get_withdraw other d) w (id == other) foreign,
            known_again s r b id p a d' w found,
          )
    ]
  where
    others :
        (o : Option Withdraw) (w : Withdraw) (t : Bool)
        → t ≡ false
        → elim o as (λ _. Option Withdraw) [
          | none ↦ (if t then some w else none)
          | some found ↦ some found
        ]
          ≡ o
    others none w t e = rw e refl
    others (some x) w t e = refl
