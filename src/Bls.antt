-- ===== src/Bls.antt =====
-- internal/bls: the votes that a proposer collects for a message, and their aggregation. The signer's messages for new
-- block hashes (internal/bls/handle_block.go) and for send orders (internal/bls/handle_wallet.go) share the vote and
-- differ in what they carry, `P`. A Go map from voters to messages is the list of its entries in some order.
-- Parameters: the bitmaps of kelindar/bitmap, and `AggregateSignatures` of the goat crypto library, which may fail.
pub mod Handle
pub mod Collect
pub mod Sound
pub mod Quorum
pub mod Order
pub mod Sessions
pub mod Orders
use goat_relayer.Prelude.{
  ℕ, suc, ◌+◌, List, [], ◌∷◌, ◌++◌, Bool, true, false, not, Option, none, some, length, ◌==◌, ltb,
  if◌then◌else◌,
}
use goat_relayer.Votes.{threshold}
use goat_relayer.Layer2.{EpochVoter}

pub record MsgSign (P : Type 0) : Type 0 where
  pub request_id : ℕ
  pub sequence : ℕ
  pub epoch : ℕ
  pub voter_address : ℕ
  pub is_proposer : Bool
  pub sig_data : ℕ
  pub body : P

-- What a `MsgSignNewBlock` carries.
pub record NewBlock : Type 0 where
  pub start_block_number : ℕ
  pub block_hash : List ℕ

-- What a `MsgSignSendOrder` carries for the message to layer 2; the order is text.
pub record SendOrderVote : Type 0 where
  pub send_order : ℕ
  pub withdraw_ids : List ℕ
  pub witness_size : ℕ

-- The columns that are read of the decoded order.
pub record DecodedOrder : Type 0 where
  pub is_withdrawal : Bool
  pub tx_fee : ℕ
  pub no_witness_tx : ℕ

pub data SignError : Type 0 where
  no_sig bad_order missing_proposer bad_epoch bad_sequence below_threshold no_aggregate : SignError

pub data Signed {ℓ} (A : Type ℓ) : Type ℓ where
  ok : A → Signed A
  err : SignError → Signed A

-- `types.IndexOfSlice` from position `i`; `none` is -1.
unfoldable pub index_of_slice : List ℕ → ℕ → ℕ → Option ℕ
index_of_slice [] s i = none
index_of_slice (a ∷ addrs) s i =
    let rest = index_of_slice addrs s (suc i) in if a == s then some i else rest

-- `strings.Split(epochVoter.VoteAddrList, ",")`: the empty text has one part.
unfoldable pub voter_all : EpochVoter → List ℕ
voter_all e = elim e.vote_addr_list [ [] ↦ 0 ∷ [] | a ∷ addrs ↦ a ∷ addrs ]

-- The local variables of the loop over the votes.
pub record Tally (B P : Type 0) : Type 0 where
  pub proposer : ℕ
  pub sequence : ℕ
  pub epoch : ℕ
  pub body : P
  pub proposer_sig : ℕ
  pub bits : B
  pub vote_sig : List ℕ

pub record Votes (B : Type 0) : Type 0 where
  pub sequence : ℕ
  pub epoch : ℕ
  pub voters : B
  pub signature : ℕ

-- `MsgNewBlockHashes`, and the messages of an order: proposer, vote and content.
pub record Message (B P : Type 0) : Type 0 where
  pub proposer : ℕ
  pub vote : Votes B
  pub content : P

module _ {B P : Type 0} (set_bit : ℕ → B → B) where
  unfoldable pub tally_vote : List ℕ → ℕ → MsgSign P → Tally B P → Tally B P
  tally_vote voters address m t =
      if m.is_proposer
      then record t {
        proposer = address;
        sequence = m.sequence;
        epoch = m.epoch;
        body = m.body;
        proposer_sig = m.sig_data;
      }
      else elim (index_of_slice voters address 0) [
        | none ↦ t
        | some pos ↦ record t {
          bits = set_bit pos t.bits;
          vote_sig = t.vote_sig ++ m.sig_data ∷ [];
        }
      ]

  unfoldable pub tally : List ℕ → List (ℕ × MsgSign P) → Tally B P → Tally B P
  unfolding tally_vote
  tally voters [] t = t
  tally voters ((address, m) ∷ votes) t = tally voters votes (tally_vote voters address m t)

-- The checks after the loop, and the aggregate.
unfoldable pub conclude :
    {B P : Type 0} → (List ℕ → Option ℕ) → EpochVoter → Tally B P → Signed (Message B P)
unfolding voter_all threshold
conclude aggregate e t =
    if t.proposer == 0
    then err missing_proposer
    else if not (t.epoch == e.epoch)
    then err bad_epoch
    else if not (t.sequence == e.sequence)
    then err bad_sequence
    else if ltb (length (t.proposer_sig ∷ t.vote_sig)) (threshold (length (voter_all e)))
    then err below_threshold
    else elim (aggregate (t.proposer_sig ∷ t.vote_sig)) [
      | none ↦ err no_aggregate
      | some sig ↦ ok (record {
        proposer = t.proposer;
        vote = record { sequence = t.sequence; epoch = t.epoch; voters = t.bits; signature = sig };
        content = t.body;
      })
    ]

-- `MsgProcessWithdrawalV2` and `MsgNewConsolidation`.
pub data OrderMessage (B : Type 0) : Type 0 where
  withdrawal_message : ℕ → Votes B → List ℕ → ℕ → ℕ → ℕ → OrderMessage B
  consolidation_message : ℕ → Votes B → ℕ → OrderMessage B

-- A withdrawal is sent with its ids, transaction, fee and witness size, a consolidation with its transaction.
unfoldable pub order_message :
    {B : Type 0} → Signed (Message B (SendOrderVote × DecodedOrder)) → Signed (OrderMessage B)
order_message (err x) = err x
order_message (ok m) =
    if m.content.1.is_withdrawal
    then ok (
        withdrawal_message m.proposer m.vote m.content.0.withdraw_ids m.content.1.no_witness_tx
          m.content.1.tx_fee m.content.0.witness_size)
    else ok (consolidation_message m.proposer m.vote m.content.1.no_witness_tx)

module _ {B : Type 0} (set_bit : ℕ → B → B) (no_bits : B) (aggregate : List ℕ → Option ℕ) where
  -- Before the loop.
  abbrev pub start_tally : {P : Type 0} → P → Tally B P
  start_tally body = record {
    proposer = 0;
    sequence = 0;
    epoch = 0;
    body = body;
    proposer_sig = 0;
    bits = no_bits;
    vote_sig = [];
  }

  unfoldable pub agg_sig_new_block :
      EpochVoter → Option (List (ℕ × MsgSign NewBlock)) → Signed (Message B NewBlock)
  unfolding tally conclude voter_all
  agg_sig_new_block e none = err no_sig
  agg_sig_new_block e (some votes) = conclude aggregate e (
      tally set_bit (voter_all e) votes
        (start_tally (record { start_block_number = 0; block_hash = [] })))

  -- Every message's order is decoded, the one of the proposer is used.
  unfoldable pub decode_all :
      (ℕ → Option DecodedOrder)
      → List (ℕ × MsgSign SendOrderVote)
      → Option (List (ℕ × MsgSign (SendOrderVote × DecodedOrder)))
  decode_all unmarshal [] = some []
  decode_all unmarshal ((address, m) ∷ votes) = elim (unmarshal m.body.send_order) [
    | none ↦ none
    | some order ↦ elim (decode_all unmarshal votes) [
      | none ↦ none
      | some rest ↦ some (
          (
            address,
            record {
              request_id = m.request_id;
              sequence = m.sequence;
              epoch = m.epoch;
              voter_address = m.voter_address;
              is_proposer = m.is_proposer;
              sig_data = m.sig_data;
              body = (m.body, order);
            },
          )
          ∷ rest)
    ]
  ]

  unfoldable pub agg_sig_send_order :
      (ℕ → Option DecodedOrder)
      → EpochVoter
      → Option (List (ℕ × MsgSign SendOrderVote))
      → Signed (OrderMessage B)
  unfolding tally conclude voter_all decode_all order_message
  agg_sig_send_order unmarshal e none = err no_sig
  agg_sig_send_order unmarshal e (some votes) = elim (decode_all unmarshal votes) [
    | none ↦ err bad_order
    | some decoded ↦ order_message (
        conclude aggregate e (
          tally set_bit (voter_all e) decoded (
            start_tally (
              record { send_order = 0; withdraw_ids = []; witness_size = 0 },
              record { is_withdrawal = true; tx_fee = 0; no_witness_tx = 0 },
            ))))
  ]
