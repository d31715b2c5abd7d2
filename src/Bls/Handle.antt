-- ===== src/Bls/Handle.antt =====
-- internal/bls/handle_block.go and internal/bls/handle.go: the proposer starts the signing of new block hashes and collects the
-- votes, the voters check and sign. Parameters: the case folding of `strings.EqualFold`, the signature of
-- `makeSigNewBlock` (a document and a signature of the goat libraries) for the epoch, whether the p2p message is published
-- and whether `RetrySubmit` succeeds, and the text of a hash, which is 32 bytes or refused.
use goat_relayer.Prelude.{
  ℕ, ◌+◌, ◌%◌, ◌^◌, List, [], ◌∷◌, ◌++◌, keep, Bool, true, false, not, ◌&&◌, Option, none, some,
  length, ◌==◌, ltb, if◌then◌else◌,
}
use goat_relayer.Layer2.{EpochVoter, Layer2State}
use goat_relayer.Head.{BtcHead, check_btc_block_sign_count}
use goat_relayer.Bls.{MsgSign, NewBlock, Message, ok, err, agg_sig_new_block}

-- The entries of `voteMap`, and `sigMap` by request. The source's one map holds messages of any kind, and its
-- type assertions panic on one of another kind: here each kind has its own map, so the keys of requests of
-- different kinds are taken to differ.
abbrev pub VoteMap : Type 0 → Type 0
VoteMap P = List (ℕ × MsgSign P)

abbrev pub SigMap : Type 0 → Type 0
SigMap P = List (ℕ × VoteMap P)

unfoldable pub sig_exists : {P : Type 0} → ℕ → SigMap P → Option (VoteMap P)
sig_exists id [] = none
sig_exists id ((k, votes) ∷ m) = let rest = sig_exists id m in if k == id then some votes else rest

unfoldable pub remove_sig_map : {P : Type 0} → ℕ → SigMap P → SigMap P
remove_sig_map id m = keep (λ s. not (s.0 == id)) m

-- `sigMap[id] = votes`.
unfoldable pub put_sig_map : {P : Type 0} → ℕ → VoteMap P → SigMap P → SigMap P
unfolding remove_sig_map
put_sig_map id votes m = (id, votes) ∷ remove_sig_map id m

unfoldable pub has_vote : {P : Type 0} → ℕ → VoteMap P → Bool
has_vote address [] = false
has_vote address ((k, m) ∷ votes) =
    let rest = has_vote address votes in if k == address then true else rest

-- The signer of a node, and the parts of its state that it reads.
pub record Signer : Type 0 where
  pub address : ℕ
  pub layer2 : Layer2State
  pub head : BtcHead
  pub sig_map : SigMap NewBlock

unfoldable pub can_sign : Signer → Bool
can_sign s = not s.layer2.info.syncing

-- What a handler sends: a signature by p2p, a message to layer 2, the event `SigFinish`.
pub data Action (B : Type 0) : Type 0 where
  publish_vote : MsgSign NewBlock → Action B
  submit_block : Message B NewBlock → Action B
  sig_finish : ℕ → Action B

pub record Handled (B : Type 0) : Type 0 where
  pub sig_map : SigMap NewBlock
  pub actions : List (Action B)
  pub failed : Bool

-- The texts of the hashes, if all have the size.
unfoldable pub hash_texts : (ℕ → Option ℕ) → List ℕ → Option (List ℕ)
hash_texts text [] = some []
hash_texts text (h ∷ hs) = elim (text h) [
  | none ↦ none
  | some t ↦ elim (hash_texts text hs) [ none ↦ none | some ts ↦ some (t ∷ ts) ]
]

unfoldable pub is_proposer_node : (ℕ → ℕ) → Signer → Bool
is_proposer_node fold s = fold s.address == fold s.layer2.epoch_voter.proposer

-- The vote of this node for a block message.
abbrev pub own_vote :
    (EpochVoter → NewBlock → ℕ) → Signer → Bool → MsgSign NewBlock → MsgSign NewBlock
own_vote sign s proposing e = record e {
  is_proposer = proposing;
  voter_address = s.address;
  sig_data = sign s.layer2.epoch_voter e.body;
}

-- The checks of a voter, in their order.
unfoldable pub accepts : (ℕ → Option ℕ) → MsgSign NewBlock → Signer → Bool
unfolding hash_texts check_btc_block_sign_count
accepts text e s =
    (e.body.start_block_number == (s.layer2.info.latest_btc_height + 1) % 2 ^ 64)
    && ((e.epoch == s.layer2.epoch_voter.epoch)
        && (not (ltb 16 (length e.body.block_hash))
            && (not (length e.body.block_hash == 0) && elim (hash_texts text e.body.block_hash) [
              | none ↦ false
              | some texts ↦ check_btc_block_sign_count texts s.head == length e.body.block_hash
            ])))

-- A handler that sends nothing.
abbrev pub quiet : {B : Type 0} → Signer → Bool → Handled B
quiet s failed = record { sig_map = s.sig_map; actions = []; failed = failed }

module _ {B : Type 0} (fold : ℕ → ℕ) (sign : EpochVoter → NewBlock → ℕ)
    (published : MsgSign NewBlock → Bool) where
  -- `handleSigReceiveNewBlock` of a voter.
  unfoldable pub receive_as_voter : (ℕ → Option ℕ) → MsgSign NewBlock → Signer → Handled B
  unfolding accepts
  receive_as_voter text e s =
      if not e.is_proposer
      then quiet s false
      else if not (accepts text e s)
      then quiet s true
      else if not (published (own_vote sign s false e))
      then quiet s true
      else record {
        sig_map = s.sig_map;
        actions = publish_vote (own_vote sign s false e) ∷ [];
        failed = false;
      }

  module _ (set_bit : ℕ → B → B) (no_bits : B) (aggregate : List ℕ → Option ℕ)
      (submitted : Message B NewBlock → Bool) where
    -- The attempt to aggregate and submit the votes that are there.
    unfoldable pub try_submit : ℕ → EpochVoter → SigMap NewBlock → List (Action B) → Handled B
    unfolding sig_exists remove_sig_map agg_sig_new_block
    try_submit id e m sent =
        elim (agg_sig_new_block set_bit no_bits aggregate e (sig_exists id m)) [
          | err x ↦ record { sig_map = m; actions = sent; failed = false }
          | ok msg ↦
              if submitted msg
              then record {
                sig_map = remove_sig_map id m;
                actions = sent ++ submit_block msg ∷ sig_finish id ∷ [];
                failed = false;
              }
              else record {
                sig_map = remove_sig_map id m;
                actions = sent ++ submit_block msg ∷ [];
                failed = true;
              }
        ]

    unfoldable pub handle_sig_start_new_block : MsgSign NewBlock → Signer → Handled B
    unfolding can_sign is_proposer_node sig_exists put_sig_map try_submit
    handle_sig_start_new_block e s =
        if not (can_sign s && is_proposer_node fold s)
        then quiet s true
        else if not (e.body.start_block_number == (s.layer2.info.latest_btc_height + 1) % 2 ^ 64)
        then quiet s true
        else elim (sig_exists e.request_id s.sig_map) [
          | some votes ↦ quiet s true
          | none ↦
              if not (published (own_vote sign s true e))
              then quiet s true
              else try_submit e.request_id s.layer2.epoch_voter
                  (put_sig_map e.request_id ((s.address, own_vote sign s true e) ∷ []) s.sig_map)
                  (publish_vote (own_vote sign s true e) ∷ [])
        ]

    -- `handleSigReceiveNewBlock` of the proposer.
    unfoldable pub receive_as_proposer : MsgSign NewBlock → Signer → Handled B
    unfolding sig_exists put_sig_map has_vote try_submit
    receive_as_proposer e s =
        if e.is_proposer then quiet s false else elim (sig_exists e.request_id s.sig_map) [
          | none ↦ quiet s true
          | some votes ↦
              if has_vote e.voter_address votes
              then quiet s false
              else try_submit e.request_id s.layer2.epoch_voter
                  (put_sig_map e.request_id ((e.voter_address, e) ∷ votes) s.sig_map) []
        ]

    unfoldable pub handle_sig_receive_new_block :
        (ℕ → Option ℕ) → MsgSign NewBlock → Signer → Handled B
    unfolding can_sign is_proposer_node receive_as_proposer receive_as_voter
    handle_sig_receive_new_block text e s =
        if not (can_sign s)
        then quiet s true
        else if is_proposer_node fold s
        then receive_as_proposer e s
        else receive_as_voter text e s
