-- ===== src/Head.antt =====
-- internal/state/btc_head.go: the Bitcoin blocks that the node knows, from their detection to their processing by layer 2.
-- The index on heights is unique.
pub mod Rows
use goat_relayer.Prelude.{
  ℕ, suc, ◌+◌, List, [], ◌∷◌, ◌++◌, Bool, true, false, not, ◌&&◌, ◌||◌, Option, none, some, length,
  ◌==◌, ltb, leb, if◌then◌else◌,
}
use goat_relayer.Table.{find_first, find_all, update_where, exists_row}
use goat_relayer.Store.{Status, unconfirm, confirmed, processed, is}

pub record BtcBlock : Type 0 where
  pub id : ℕ
  pub height : ℕ
  pub hash : ℕ
  pub status : Status

pub record BtcHead : Type 0 where
  pub blocks : List BtcBlock
  pub latest : BtcBlock
  pub unconfirm_queue : List BtcBlock
  pub sig_queue : List BtcBlock
  pub syncing : Bool
  pub fastest_fee : ℕ
  pub half_hour_fee : ℕ
  pub hour_fee : ℕ
  pub next_id : ℕ

unfoldable pub update_btc_network_fee : ℕ → ℕ → ℕ → BtcHead → BtcHead
update_btc_network_fee fastest half_hour hour b = record b {
  fastest_fee = fastest;
  half_hour_fee = half_hour;
  hour_fee = hour;
}

unfoldable pub update_btc_syncing : Bool → BtcHead → BtcHead
update_btc_syncing syncing b = record b { syncing = syncing }

-- queryBtcBlockByHeight
unfoldable pub query_btc_block : ℕ → BtcHead → Option BtcBlock
query_btc_block height b = find_first (λ r. r.height == height) b.blocks

-- A new row gets the next primary key.
unfoldable pub insert_block : ℕ → ℕ → Status → BtcHead → BtcHead
insert_block height hash status b = record b {
  blocks =
      b.blocks ++ record { id = b.next_id; height = height; hash = hash; status = status } ∷ [];
  next_id = suc b.next_id;
}

unfoldable pub save_block : ℕ → (BtcBlock → BtcBlock) → BtcHead → BtcHead
save_block id f b = record b { blocks = update_where (λ r. r.id == id) f b.blocks }

-- The status of a block that is not above the latest one of layer 2.
unfoldable pub status_at : Status → ℕ → BtcHead → Status
status_at status height b = if leb height b.latest.height then processed else status

unfoldable pub add_unconfirm_btc_block : ℕ → ℕ → BtcHead → BtcHead
unfolding query_btc_block insert_block status_at
add_unconfirm_btc_block height hash b = elim (query_btc_block height b) [
  | some r ↦ b
  | none ↦ insert_block height hash (status_at unconfirm height b) b
]

unfoldable pub save_confirm_btc_block : ℕ → ℕ → BtcHead → BtcHead
unfolding query_btc_block insert_block save_block status_at
save_confirm_btc_block height hash b = elim (query_btc_block height b) [
  | none ↦ insert_block height hash (status_at confirmed height b) b
  | some r ↦
      if is r.status processed
      then b
      else save_block r.id (λ x. record x { status = status_at confirmed height b; hash = hash }) b
]

-- The first block of this height leaves the queue.
unfoldable pub drop_height : ℕ → List BtcBlock → List BtcBlock
drop_height height [] = []
drop_height height (r ∷ rs) =
    let rest = drop_height height rs in if r.height == height then rs else r ∷ rest

unfoldable pub leave_queues : ℕ → BtcHead → BtcHead
unfolding drop_height
leave_queues height b = record b {
  unconfirm_queue = drop_height height b.unconfirm_queue;
  sig_queue = drop_height height b.sig_queue;
}

unfoldable pub update_processed_btc_block : ℕ → ℕ → BtcHead → BtcHead
unfolding query_btc_block insert_block save_block leave_queues
update_processed_btc_block height hash b = elim (query_btc_block height b) [
  | none ↦ leave_queues height (record (insert_block height hash processed b) {
    latest = record { id = b.next_id; height = height; hash = hash; status = processed };
  })
  | some r ↦
      if is r.status processed
      then b
      else leave_queues height (record (save_block r.id (λ x. record x { status = processed }) b) {
        latest = record r { status = processed };
      })
]

-- CheckBtcBlockSignCount: the blocks that have one of the hashes and are not processed.
unfoldable pub hash_in : ℕ → List ℕ → Bool
hash_in hash [] = false
hash_in hash (h ∷ hs) = hash == h || hash_in hash hs

unfoldable pub check_btc_block_sign_count : List ℕ → BtcHead → ℕ
unfolding hash_in
check_btc_block_sign_count hashes b =
    length (find_all (λ r. hash_in r.hash hashes && not (is r.status processed)) b.blocks)

-- A call of an operation with its arguments.
pub data HeadCall : Type 0 where
  network_fee : ℕ → ℕ → ℕ → HeadCall
  set_syncing : Bool → HeadCall
  unconfirm_block : ℕ → ℕ → HeadCall
  confirm_block : ℕ → ℕ → HeadCall
  processed_block : ℕ → ℕ → HeadCall

unfoldable pub head_call : HeadCall → BtcHead → BtcHead
head_call (network_fee a m h) b = update_btc_network_fee a m h b
head_call (set_syncing s) b = update_btc_syncing s b
head_call (unconfirm_block height hash) b = add_unconfirm_btc_block height hash b
head_call (confirm_block height hash) b = save_confirm_btc_block height hash b
head_call (processed_block height hash) b = update_processed_btc_block height hash b

unfoldable pub run_head : List HeadCall → BtcHead → BtcHead
unfolding head_call
run_head [] b = b
run_head (c ∷ cs) b = run_head cs (head_call c b)
