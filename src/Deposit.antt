-- ===== src/Deposit.antt =====
-- internal/state/deposit.go: the cache of deposits, from their detection to their processing by layer 2. A deposit is known by
-- its outpoint. The queues hold structs of their own; saving one writes every column of the row at its key.
pub mod Queue
pub mod Rows
pub mod Run
use goat_relayer.Prelude.{
  ℕ, suc, List, [], ◌∷◌, ◌++◌, Bool, true, false, not, ◌&&◌, Option, none, some, ◌==◌,
  if◌then◌else◌,
}
use goat_relayer.Bytes.{Bytes}
use goat_relayer.Table.{find_first, update_where}
use goat_relayer.Store.{Status, unconfirm, confirmed, processed, is}
use goat_relayer.Spv.{SpvResult, ok, err, generate_spv_proof}

pub record Deposit : Type 0 where
  pub id : ℕ
  pub tx_hash : ℕ
  pub amount : ℕ
  pub raw_tx : ℕ
  pub evm_addr : ℕ
  pub block_hash : ℕ
  pub block_height : ℕ
  pub tx_index : ℕ
  pub output_index : ℕ
  pub merkle_root : Bytes
  pub proof : Bytes
  pub sign_version : ℕ
  pub status : Status

pub record DepositState : Type 0 where
  pub deposits : List Deposit
  pub latest : Deposit
  pub unconfirm_queue : List Deposit
  pub sig_queue : List Deposit
  pub next_id : ℕ

-- `tx_hash = ? and output_index = ?`.
abbrev pub at_outpoint : ℕ → ℕ → Deposit → Bool
at_outpoint tx_hash output_index d = d.tx_hash == tx_hash && d.output_index == output_index

-- queryDepositByTxHash
unfoldable pub query_deposit : ℕ → ℕ → DepositState → Option Deposit
query_deposit tx_hash output_index s = find_first (at_outpoint tx_hash output_index) s.deposits

-- A new row gets the next primary key.
unfoldable pub insert_deposit : Deposit → DepositState → DepositState
insert_deposit d s = record s {
  deposits = s.deposits ++ record d { id = s.next_id } ∷ [];
  next_id = suc s.next_id;
}

unfoldable pub save_deposit : ℕ → (Deposit → Deposit) → DepositState → DepositState
save_deposit id f s = record s { deposits = update_where (λ r. r.id == id) f s.deposits }

-- The first deposit with this outpoint leaves the queue.
unfoldable pub drop_outpoint : ℕ → ℕ → List Deposit → List Deposit
drop_outpoint tx_hash output_index [] = []
drop_outpoint tx_hash output_index (d ∷ ds) =
    let rest = drop_outpoint tx_hash output_index ds in
    if at_outpoint tx_hash output_index d then ds else d ∷ rest

-- A deposit as the scanner finds it.
abbrev pub found_deposit : ℕ → ℕ → ℕ → ℕ → ℕ → ℕ → Deposit
found_deposit tx_hash raw_tx evm_addr sign_version output_index amount = record {
  id = 0;
  tx_hash = tx_hash;
  amount = amount;
  raw_tx = raw_tx;
  evm_addr = evm_addr;
  block_hash = 0;
  block_height = 0;
  tx_index = 0;
  output_index = output_index;
  merkle_root = [];
  proof = [];
  sign_version = sign_version;
  status = unconfirm;
}

unfoldable pub add_unconfirm_deposit : ℕ → ℕ → ℕ → ℕ → ℕ → ℕ → DepositState → DepositState
unfolding query_deposit insert_deposit
add_unconfirm_deposit tx_hash raw_tx evm_addr sign_version output_index amount s =
    let d = found_deposit tx_hash raw_tx evm_addr sign_version output_index amount in
    elim (query_deposit tx_hash output_index s) [
      | some known ↦ s
      | none ↦ record (insert_deposit d s) {
        unconfirm_queue = s.unconfirm_queue ++ record d { id = s.next_id } ∷ [];
      }
    ]

-- Where a confirmed deposit stands: the block, the index of the transaction, the root and the proof.
pub record Place : Type 0 where
  pub block_hash : ℕ
  pub block_height : ℕ
  pub merkle_root : Bytes
  pub proof : Bytes
  pub tx_index : ℕ

abbrev pub confirm_at : Place → Deposit → Deposit
confirm_at p d = record d {
  status = confirmed;
  block_hash = p.block_hash;
  block_height = p.block_height;
  tx_index = p.tx_index;
  merkle_root = p.merkle_root;
  proof = p.proof;
}

unfoldable pub save_confirm_deposit : ℕ → ℕ → ℕ → ℕ → ℕ → ℕ → Place → DepositState → DepositState
unfolding query_deposit insert_deposit save_deposit drop_outpoint
save_confirm_deposit tx_hash amount raw_tx evm_addr sign_version output_index p s =
    let d = found_deposit tx_hash raw_tx evm_addr sign_version output_index amount in
    let saved : DepositState = elim (query_deposit tx_hash output_index s) [
      | none ↦ insert_deposit (confirm_at p d) s
      | some r ↦
          if is r.status processed
          then s
          else save_deposit r.id (λ x. record (confirm_at p x) { amount = amount }) s
    ] in
    record saved { unconfirm_queue = drop_outpoint tx_hash output_index saved.unconfirm_queue }

unfoldable pub update_processed_deposit : ℕ → ℕ → ℕ → DepositState → DepositState
unfolding query_deposit insert_deposit save_deposit drop_outpoint
update_processed_deposit tx_hash txout evm_addr s =
    let d : Deposit = record (found_deposit tx_hash 0 evm_addr 0 txout 0) { status = processed } in
    let saved : DepositState = elim (query_deposit tx_hash txout s) [
      | none ↦ record (insert_deposit d s) { latest = record d { id = s.next_id } }
      | some r ↦ record (save_deposit r.id (λ x. record x { status = processed }) s) {
        latest = record r { status = processed };
      }
    ] in
    record saved {
      unconfirm_queue = drop_outpoint tx_hash txout saved.unconfirm_queue;
      sig_queue = drop_outpoint tx_hash txout saved.sig_queue;
    }

unfoldable pub contains : List ℕ → ℕ → Bool
contains [] item = false
contains (x ∷ xs) item = let rest = contains xs item in if x == item then true else rest

module _ (sha256 : Bytes → Bytes) (parse : ℕ → Option Bytes) where
  -- The loop of `UpdateConfirmedDepositsByBtcHeight`: the rest of the queue as it is afterwards, the rows, and
  -- whether a proof failed, which ends the loop.
  unfoldable pub confirm_queue :
      ℕ → ℕ → List ℕ → List Deposit → List Deposit → List Deposit × List Deposit × Bool
  unfolding contains
  confirm_queue height hash txs [] rows = ([], rows, false)
  confirm_queue height hash txs (d ∷ ds) rows =
      if not (contains txs d.tx_hash)
      then (let rest = confirm_queue height hash txs ds rows in (d ∷ rest.0, rest.1, rest.2))
      else elim (generate_spv_proof sha256 parse d.tx_hash txs) [
        | err e ↦ (d ∷ ds, rows, true)
        | ok proof ↦
            if is d.status unconfirm
            then (let place : Place = record {
              block_hash = hash;
              block_height = height;
              merkle_root = proof.0;
              proof = proof.1;
              tx_index = proof.2;
            } in
                let rest = confirm_queue height hash txs ds (
                  update_where (λ r. r.id == d.id) (λ r. record (confirm_at place d) { id = r.id })
                    rows) in
                (confirm_at place d ∷ rest.0, rest.1, rest.2))
            else (let rest = confirm_queue height hash txs ds rows in (d ∷ rest.0, rest.1, rest.2))
      ]

  unfoldable pub update_confirmed_deposits_by_btc_height :
      ℕ → ℕ → List ℕ → DepositState → DepositState
  unfolding confirm_queue
  update_confirmed_deposits_by_btc_height height hash txs s =
      let r = confirm_queue height hash txs s.unconfirm_queue s.deposits in
      record s { unconfirm_queue = r.0; deposits = r.1 }

-- A call of an operation with its arguments.
pub data DepositCall : Type 0 where
  found : ℕ → ℕ → ℕ → ℕ → ℕ → ℕ → DepositCall
  confirm : ℕ → ℕ → ℕ → ℕ → ℕ → ℕ → Place → DepositCall
  process : ℕ → ℕ → ℕ → DepositCall
  confirm_block : ℕ → ℕ → List ℕ → DepositCall

unfoldable pub deposit_call :
    (Bytes → Bytes) → (ℕ → Option Bytes) → DepositCall → DepositState → DepositState
deposit_call sha256 parse (found t r e v o a) s = add_unconfirm_deposit t r e v o a s
deposit_call sha256 parse (confirm t a r e v o p) s = save_confirm_deposit t a r e v o p s
deposit_call sha256 parse (process t o e) s = update_processed_deposit t o e s
deposit_call sha256 parse (confirm_block height hash txs) s =
    update_confirmed_deposits_by_btc_height sha256 parse height hash txs s

unfoldable pub run_deposits :
    (Bytes → Bytes) → (ℕ → Option Bytes) → List DepositCall → DepositState → DepositState
unfolding deposit_call
run_deposits sha256 parse [] s = s
run_deposits sha256 parse (c ∷ cs) s = run_deposits sha256 parse cs (deposit_call sha256 parse c s)
