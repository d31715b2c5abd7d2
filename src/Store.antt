-- ===== src/Store.antt =====
-- The wallet database of internal/state (internal/db/models.go, internal/db/types.go): its tables,
-- the statuses, and the results of the operations on it.
-- Texts that are only compared (transaction ids, order ids, addresses, external ids) are numbers, 0 for the
-- empty text. Columns that no operation reads back, such as times of update, are left out. A function
-- that runs in a gorm transaction takes the database to a new one, or fails and leaves it as it was.
pub mod Rows
pub mod Orders
pub mod Progress
pub mod Coins
pub mod Safebox
pub mod Spent
pub mod Steps
pub mod Lock
pub mod Claim
pub mod Request
pub mod Release
pub mod Run
use goat_relayer.Prelude.{
  ℕ, zero, suc, ◌+◌, ◌≡◌, refl, ap, sym, ◌∙◌, ◌↔◌, List, [], ◌∷◌, ◌++◌, Bool, true, false, ◌&&◌,
  ◌||◌, Option, none, some, ◌==◌, ==_iff, if◌then◌else◌, arith,
}
use goat_relayer.Table.{find_first, find_last, find_all, update_where, exists_row}

-- The texts of internal/db/types.go. Orders, withdrawals, inputs, outputs, UTXOs and tasks share the
-- texts: an order's status is written to the rows that belong to it.
pub data Status : Type 0 where
  create aggregating init pending rbf_request unconfirm confirmed signing processed closed : Status
  canceling spent received received_ok init_ok completed : Status

pub data OrderType : Type 0 where
  withdrawal consolidation safebox : OrderType

abbrev pub code : Status → ℕ
code create = 0
code aggregating = 1
code init = 2
code pending = 3
code rbf_request = 4
code unconfirm = 5
code confirmed = 6
code signing = 7
code processed = 8
code closed = 9
code canceling = 10
code spent = 11
code received = 12
code received_ok = 13
code init_ok = 14
code completed = 15

-- The comparison of two statuses, `a == b` on their texts.
abbrev pub is : Status → Status → Bool
is a b = code a == code b

-- `status in (?)`.
abbrev pub one_of : Status → List Status → Bool
one_of s [] = false
one_of s (t ∷ ts) = is s t || one_of s ts

pub record Utxo : Type 0 where
  pub id : ℕ
  pub txid : ℕ
  pub out_index : ℕ
  pub amount : ℕ
  pub receiver_type : ℕ
  pub sub_script : ℕ
  pub status : Status
  pub spent_block : ℕ

pub record Withdraw : Type 0 where
  pub id : ℕ
  pub request_id : ℕ
  pub goat_block : ℕ
  pub amount : ℕ
  pub tx_price : ℕ
  pub tx_fee : ℕ
  pub sender : ℕ
  pub receiver : ℕ
  pub status : Status
  pub order_id : ℕ
  pub txid : ℕ
  pub reason : ℕ

pub record SendOrder : Type 0 where
  pub id : ℕ
  pub order_id : ℕ
  pub pid : ℕ
  pub amount : ℕ
  pub tx_price : ℕ
  pub status : Status
  pub order_type : OrderType
  pub btc_block : ℕ
  pub txid : ℕ
  pub tx_fee : ℕ
  pub external_tx_id : ℕ

pub record Vin : Type 0 where
  pub id : ℕ
  pub order_id : ℕ
  pub btc_height : ℕ
  pub txid : ℕ
  pub out_index : ℕ
  pub receiver_type : ℕ
  pub status : Status

pub record Vout : Type 0 where
  pub id : ℕ
  pub order_id : ℕ
  pub btc_height : ℕ
  pub txid : ℕ
  pub out_index : ℕ
  pub withdraw_id : ℕ
  pub amount : ℕ
  pub status : Status

pub record SafeboxTask : Type 0 where
  pub id : ℕ
  pub task_id : ℕ
  pub deposit_address : ℕ
  pub deadline : ℕ
  pub amount : ℕ
  pub timelock_address : ℕ
  pub funding_txid : ℕ
  pub funding_out_index : ℕ
  pub timelock_txid : ℕ
  pub timelock_out_index : ℕ
  pub status : Status
  pub order_id : ℕ

-- One counter gives the primary keys of all tables.
pub record Db : Type 0 where
  pub utxos : List Utxo
  pub withdraws : List Withdraw
  pub orders : List SendOrder
  pub vins : List Vin
  pub vouts : List Vout
  pub tasks : List SafeboxTask
  pub next_id : ℕ

pub data DbError : Type 0 where
  not_found constraint empty_slice refused nil_deref : DbError

pub data Result {ℓ} (A : Type ℓ) : Type ℓ where
  ok : A → Result A
  err : DbError → Result A

infixl 5 ◌>>=◌
abbrev pub ◌>>=◌ {ℓ κ} : {A : Type ℓ} {B : Type κ} → Result A → (A → Result B) → Result B
ok a >>= f = f a
err e >>= f = err e

-- What is left after a transaction: a failed one is rolled back.
abbrev pub after : Db → Result Db → Db
after d (ok d') = d'
after d (err e) = d

-- `for _, x := range xs { if err := step(x); err != nil { return err } }`.
unfoldable pub each : {A : Type 0} → (A → Db → Result Db) → List A → Db → Result Db
each step [] d = ok d
each step (x ∷ xs) d = step x d >>= each step xs
