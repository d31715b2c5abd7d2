-- ===== src/Layer2.antt =====
-- internal/state/l2_info.go: what the node knows of layer 2, by the events of its blocks. A row that is cached and
-- saved at once is one value. The addresses and keys that `EpochVoter` joins by commas are lists, and a
-- wallet's type and key a pair.
pub mod Progress
use goat_relayer.Prelude.{
  ℕ, suc, ◌+◌, ◌%◌, ◌^◌, List, [], ◌∷◌, ◌++◌, map, keep, Bool, true, false, not, ◌&&◌, Option, none,
  some, ◌==◌, ltb, leb, if◌then◌else◌,
}
use goat_relayer.Table.{find_first, find_last, update_where}

pub record L2Info : Type 0 where
  pub height : ℕ
  pub syncing : Bool
  pub deposit_key : ℕ × ℕ
  pub deposit_magic : ℕ
  pub min_deposit_amount : ℕ
  pub start_btc_height : ℕ
  pub latest_btc_height : ℕ

pub record Voter : Type 0 where
  pub vote_addr : ℕ
  pub vote_key : ℕ
  pub joined : ℕ

pub record EpochVoter : Type 0 where
  pub vote_addr_list : List ℕ
  pub vote_key_list : List ℕ
  pub epoch : ℕ
  pub sequence : ℕ
  pub height : ℕ
  pub proposer : ℕ

pub data QueueStatus : Type 0 where
  init pending processed : QueueStatus

abbrev pub queue_code : QueueStatus → ℕ
queue_code init = 0
queue_code pending = 1
queue_code processed = 2

pub record VoterQueue : Type 0 where
  pub id : ℕ
  pub vote_addr : ℕ
  pub epoch : ℕ
  pub status : QueueStatus

pub record DepositPubKey : Type 0 where
  pub id : ℕ
  pub btc_height : ℕ
  pub pub_type : ℕ
  pub pub_key : ℕ

-- `voter_queue` is the cache, `queue_rows` the table.
pub record Layer2State : Type 0 where
  pub info : L2Info
  pub voters : List Voter
  pub epoch_voter : EpochVoter
  pub current_epoch : ℕ
  pub voter_queue : List VoterQueue
  pub queue_rows : List VoterQueue
  pub pub_keys : List DepositPubKey
  pub next_id : ℕ

-- GetDepositKeyByBtcBlock
unfoldable pub get_deposit_key_by_btc_block : ℕ → ℕ → Layer2State → Option DepositPubKey
get_deposit_key_by_btc_block secp256k1 block s =
    find_last
      (λ k. k.pub_type == secp256k1 && (if ltb 0 block then leb k.btc_height block else true))
      s.pub_keys

unfoldable pub update_l2_chain_status : ℕ → ℕ → Bool → Layer2State → Layer2State
update_l2_chain_status latest_block confirmations catching_up s =
    let late = ltb ((s.info.height + confirmations + 5) % 2 ^ 64) latest_block in
    record s { info = record (s.info) { syncing = if catching_up then true else late } }

unfoldable pub update_l2_info_end_block : ℕ → Layer2State → Layer2State
update_l2_info_end_block block s =
    if ltb s.info.height block then record s { info = record (s.info) { height = block } } else s

-- The epoch's voters, from an event of `block`.
unfoldable pub set_epoch_voters : ℕ → ℕ → ℕ → ℕ → List Voter → EpochVoter → EpochVoter
set_epoch_voters block epoch sequence proposer voters e = record e {
  height = block;
  epoch = epoch;
  sequence = sequence;
  proposer = proposer;
  vote_addr_list = map (λ v. v.vote_addr) voters;
  vote_key_list = map (λ v. v.vote_key) voters;
}

unfoldable pub update_l2_info_first_block :
    ℕ → L2Info → List Voter → ℕ → ℕ → ℕ → Layer2State → Layer2State
unfolding set_epoch_voters
update_l2_info_first_block block info voters epoch sequence proposer s =
    let t : Layer2State = record s { voters = voters; info = info } in
    if leb s.epoch_voter.height block
    then record t {
      epoch_voter = set_epoch_voters block epoch sequence proposer voters s.epoch_voter;
      current_epoch = epoch;
    }
    else t

unfoldable pub update_l2_info_params : ℕ → ℕ → Layer2State → Layer2State
update_l2_info_params min_deposit_amount deposit_magic s = record s {
  info = record (s.info) { min_deposit_amount = min_deposit_amount; deposit_magic = deposit_magic };
}

unfoldable pub update_l2_info_voters : ℕ → ℕ → ℕ → ℕ → List Voter → Layer2State → Layer2State
unfolding set_epoch_voters
update_l2_info_voters block epoch sequence proposer voters s =
    let t : Layer2State = record s { voters = voters } in
    if leb s.epoch_voter.height block
    then record t {
      epoch_voter = set_epoch_voters block epoch sequence proposer voters s.epoch_voter;
    }
    else t

unfoldable pub update_l2_info_wallet : ℕ → ℕ → ℕ → Layer2State → Layer2State
update_l2_info_wallet block wallet_type wallet_key s =
    if leb s.info.height block
    then record s {
      info = record (s.info) { height = block; deposit_key = (wallet_type, wallet_key) };
      pub_keys =
          s.pub_keys
          ++ record {
            id = s.next_id;
            btc_height = s.info.latest_btc_height;
            pub_type = wallet_type;
            pub_key = wallet_key;
          }
            ∷ [];
      next_id = suc s.next_id;
    }
    else s

unfoldable pub update_l2_info_latest_btc : ℕ → ℕ → Layer2State → Layer2State
update_l2_info_latest_btc block btc_height s =
    if leb s.info.height block
    then record s { info = record (s.info) { height = block; latest_btc_height = btc_height } }
    else s

-- An empty proposer is not assigned.
unfoldable pub update_l2_info_epoch : ℕ → ℕ → ℕ → Layer2State → Layer2State
update_l2_info_epoch block epoch proposer s =
    if leb s.epoch_voter.height block
    then record s {
      epoch_voter = record (s.epoch_voter) {
        height = block;
        epoch = epoch;
        proposer = if proposer == 0 then s.epoch_voter.proposer else proposer;
      };
      current_epoch = epoch;
    }
    else s

unfoldable pub update_l2_info_sequence : ℕ → ℕ → Layer2State → Layer2State
update_l2_info_sequence block sequence s =
    if leb s.epoch_voter.height block
    then record s {
      epoch_voter = record (s.epoch_voter) { height = block; sequence = (sequence + 1) % 2 ^ 64 };
    }
    else s

-- An empty address is refused; the block of the event is the epoch.
unfoldable pub add_voter_queue : ℕ → ℕ → Layer2State → Option Layer2State
add_voter_queue voter_addr block s =
    if voter_addr == 0
    then none
    else elim (find_first (λ q. q.vote_addr == voter_addr && q.epoch == block) s.queue_rows) [
      | some q ↦ some s
      | none ↦
          let row : VoterQueue = record {
            id = s.next_id;
            vote_addr = voter_addr;
            epoch = block;
            status = init;
          } in
          some (record s {
            voter_queue = s.voter_queue ++ row ∷ [];
            queue_rows = s.queue_rows ++ row ∷ [];
            next_id = suc s.next_id;
          })
    ]

unfoldable pub save_queue : ℕ → QueueStatus → Layer2State → Layer2State
save_queue id status s = record s {
  queue_rows = update_where (λ q. q.id == id) (λ q. record q { status = status }) s.queue_rows;
}

unfoldable pub update_voter_queue_pending : ℕ → Layer2State → Layer2State
unfolding save_queue
update_voter_queue_pending voter_addr s =
    elim (find_last (λ q. q.vote_addr == voter_addr && queue_code q.status == 0) s.queue_rows) [
      | none ↦ s
      | some q ↦ save_queue q.id pending s
    ]

unfoldable pub update_voter_queue_processed : ℕ → Layer2State → Layer2State
unfolding save_queue
update_voter_queue_processed voter_addr s =
    let t : Layer2State = record s {
      voter_queue = keep (λ q. not (q.vote_addr == voter_addr)) s.voter_queue;
    } in
    elim (find_last (λ q. q.vote_addr == voter_addr && not (queue_code q.status == 2))
      s.queue_rows) [ none ↦ t | some q ↦ save_queue q.id processed t ]
