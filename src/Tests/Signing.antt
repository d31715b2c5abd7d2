-- ===== src/Tests/Signing.antt =====
-- Four voters sign new block hashes; events of layer 2 and Bitcoin blocks.
use mathlib.Core.List.{Permᴰ}
use mathlib.Core.Path.{fun_ext}
use goat_relayer.Prelude.{
  ℕ, ◌+◌, ◌≡◌, refl, ◌∙◌, ap, List, [], ◌∷◌, Bool, true, false, ◌||◌, Option, none, some, arith,
  ◌==◌,
}
use goat_relayer.Table.{find_first, find_last, update_where}
use goat_relayer.Store.{processed}
use goat_relayer.Layer2.{
  init, Layer2State, update_l2_info_sequence, add_voter_queue, save_queue,
  update_voter_queue_pending, update_voter_queue_processed, update_l2_info_end_block,
  update_l2_info_epoch,
}
use goat_relayer.Layer2.Progress.{
  BlockEvent, end_block, new_epoch, new_sequence, queue_added, queue_pending, queue_processed,
  block_event, run_events, Later, run_events-Later,
}
use goat_relayer.Head.{
  BtcBlock, BtcHead, HeadCall, unconfirm_block, confirm_block, processed_block, run_head, head_call,
  query_btc_block, insert_block, save_block, status_at, add_unconfirm_btc_block,
  save_confirm_btc_block, update_processed_btc_block, leave_queues, drop_height,
}
use goat_relayer.Head.Rows.{After, run_head-After}
use goat_relayer.Bls.{
  MsgSign, NewBlock, SendOrderVote, Message, ok, index_of_slice, voter_all, tally_vote, tally,
  conclude, agg_sig_new_block,
}
use goat_relayer.Bls.Quorum.{FromProposer, HasQuorum, agg_sig_new_block_quorum}
use goat_relayer.Bls.Order.{proposers, agg_sig_new_block-Perm}
use goat_relayer.Bls.Handle.{
  SigMap, Signer, handle_sig_start_new_block, handle_sig_receive_new_block,
}
use goat_relayer.Bls.Sessions.{Good, new_block_handlers-Good}
use goat_relayer.Bls.Orders.{receive_send_order_as_proposer}

abbrev genesis : Layer2State
genesis = record {
  info = record {
    height = 1;
    syncing = false;
    deposit_key = (1, 2);
    deposit_magic = 3;
    min_deposit_amount = 1000;
    start_btc_height = 90;
    latest_btc_height = 100;
  };
  voters = [];
  epoch_voter = record {
    vote_addr_list = 11 ∷ 12 ∷ 13 ∷ 14 ∷ [];
    vote_key_list = 21 ∷ 22 ∷ 23 ∷ 24 ∷ [];
    epoch = 5;
    sequence = 7;
    height = 1;
    proposer = 11;
  };
  current_epoch = 5;
  voter_queue = [];
  queue_rows = record { id = 1; vote_addr = 31; epoch = 1; status = init } ∷ [];
  pub_keys = [];
  next_id = 2;
}

abbrev events : List BlockEvent
events =
    queue_added 31 2
    ∷ queue_pending 31
    ∷ queue_processed 31
    ∷ new_sequence 4 7
    ∷ new_epoch 3 6 12
    ∷ end_block 4
    ∷ []

events-sequence : (run_events events genesis).epoch_voter.sequence ≡ 8
unfolding run_events block_event add_voter_queue find_first update_voter_queue_pending find_last
    save_queue update_where update_voter_queue_processed update_l2_info_sequence
    update_l2_info_epoch update_l2_info_end_block
events-sequence = refl

run_events-Later_example : Later genesis (run_events events genesis)
run_events-Later_example = run_events-Later events genesis ((tt, tt), (ground arith, tt))

abbrev block_100 : BtcBlock
block_100 = record { id = 1; height = 100; hash = 1000; status = processed }

abbrev head_100 : BtcHead
head_100 = record {
  blocks = block_100 ∷ [];
  latest = block_100;
  unconfirm_queue = [];
  sig_queue = [];
  syncing = false;
  fastest_fee = 3;
  half_hour_fee = 2;
  hour_fee = 1;
  next_id = 2;
}

abbrev head_calls : List HeadCall
head_calls =
    unconfirm_block 101 1001
    ∷ confirm_block 101 1002
    ∷ processed_block 101 1002
    ∷ confirm_block 101 1003
    ∷ confirm_block 100 7
    ∷ []

head_calls-blocks :
    (run_head head_calls head_100).blocks
    ≡ block_100 ∷ record { id = 2; height = 101; hash = 1002; status = processed } ∷ []
unfolding run_head head_call add_unconfirm_btc_block query_btc_block find_first insert_block
    status_at save_confirm_btc_block save_block update_where update_processed_btc_block leave_queues
    drop_height
head_calls-blocks = refl

run_head-After_example : After head_100 (run_head head_calls head_100)
run_head-After_example = run_head-After head_calls head_100 ((tt, tt), (ground arith, tt), (tt, tt))

-- Bitmaps as functions, the aggregate as a sum.
abbrev Bits : Type 0
Bits = ℕ → Bool

abbrev set_bit : ℕ → Bits → Bits
set_bit p b = λ q. q == p || b q

abbrev no_bits : Bits
no_bits = λ q. false

abbrev total : List ℕ → ℕ
total [] = 0
total (x ∷ xs) = x + total xs

abbrev aggregate : List ℕ → Option ℕ
aggregate xs = some (total xs)

total-Permᴰ : (xs ys : List ℕ) → Permᴰ xs ys → total xs ≡ total ys
total-Permᴰ _ _ Permᴰ.nil = refl
total-Permᴰ _ _ (Permᴰ.cons {l₁} {l₂} e d) = omega (arith, e, total-Permᴰ l₁ l₂ d)
total-Permᴰ _ _ (Permᴰ.swap e f) = omega (arith, e, f)
total-Permᴰ _ _ (Permᴰ.trans {l₁} {l₂} {l₃} d e) = total-Permᴰ l₁ l₂ d ∙ total-Permᴰ l₂ l₃ e

or_swap : (a b c : Bool) → (a || (b || c)) ≡ (b || (a || c))
or_swap true true c = refl
or_swap true false c = refl
or_swap false true c = refl
or_swap false false c = refl

set_bit_comm : (p q : ℕ) (b : Bits) → set_bit p (set_bit q b) ≡ set_bit q (set_bit p b)
set_bit_comm p q b = fun_ext (λ x. or_swap (x == p) (x == q) (b x))

abbrev vote : ℕ → Bool → ℕ → MsgSign NewBlock
vote address proposing sig = record {
  request_id = 9;
  sequence = 7;
  epoch = 5;
  voter_address = address;
  is_proposer = proposing;
  sig_data = sig;
  body = record { start_block_number = 101; block_hash = 1001 ∷ [] };
}

abbrev three_votes : List (ℕ × MsgSign NewBlock)
three_votes = (11, vote 11 true 1) ∷ (14, vote 14 false 4) ∷ (12, vote 12 false 2) ∷ []

abbrev three_votes_msg : Message Bits NewBlock
three_votes_msg = record {
  proposer = 11;
  vote = record { sequence = 7; epoch = 5; voters = set_bit 1 (set_bit 3 no_bits); signature = 7 };
  content = record { start_block_number = 101; block_hash = 1001 ∷ [] };
}

three_votes-aggregate :
    agg_sig_new_block set_bit no_bits aggregate genesis.epoch_voter (some three_votes)
    ≡ ok three_votes_msg
unfolding agg_sig_new_block tally tally_vote voter_all index_of_slice conclude
three_votes-aggregate = refl

agg_sig_new_block_quorum_example :
    FromProposer genesis.epoch_voter three_votes three_votes_msg
    × HasQuorum (λ p b. b p) genesis.epoch_voter three_votes three_votes_msg
agg_sig_new_block_quorum_example =
    agg_sig_new_block_quorum set_bit no_bits aggregate (λ p b. b p) (λ p q b. refl) (λ p. refl)
      genesis.epoch_voter three_votes three_votes_msg ((refl, (refl, tt)), ((refl, tt), (tt, tt)))
      three_votes-aggregate

one_proposer : proposers three_votes ≡ 1
unfolding proposers
one_proposer = refl

agg_sig_new_block-Perm_example :
    agg_sig_new_block set_bit no_bits aggregate genesis.epoch_voter (some three_votes)
    ≡ agg_sig_new_block set_bit no_bits aggregate genesis.epoch_voter
        (some ((14, vote 14 false 4) ∷ (11, vote 11 true 1) ∷ (12, vote 12 false 2) ∷ []))
agg_sig_new_block-Perm_example =
    agg_sig_new_block-Perm set_bit no_bits aggregate set_bit_comm
      (λ xs ys d. ap some (total-Permᴰ xs ys d)) genesis.epoch_voter three_votes
      ((14, vote 14 false 4) ∷ (11, vote 11 true 1) ∷ (12, vote 12 false 2) ∷ [])
      (Permᴰ.swap refl refl) (omega (arith, one_proposer))

abbrev proposer_node : Signer
proposer_node = record {
  address = 11;
  layer2 = genesis;
  head = head_100;
  sig_map = (9, (11, vote 11 true 1) ∷ (14, vote 14 false 4) ∷ []) ∷ [];
}

session_proposers : proposers ((11, vote 11 true 1) ∷ (14, vote 14 false 4) ∷ []) ≡ 1
unfolding proposers
session_proposers = refl

new_block_handlers-Good_example :
    Good
      (λ a. a)
      (λ v b. 6)
      (λ m. true)
      set_bit
      no_bits
      aggregate
      (λ m. true)
      (λ p b. b p)
      (λ p q b. refl)
      (λ p. refl)
      genesis.epoch_voter
      (handle_sig_start_new_block
        (λ a. a)
        (λ v b. 6)
        (λ m. true)
        set_bit
        no_bits
        aggregate
        (λ m. true)
        (vote 12 false 2)
        proposer_node)
    × Good
        (λ a. a)
        (λ v b. 6)
        (λ m. true)
        set_bit
        no_bits
        aggregate
        (λ m. true)
        (λ p b. b p)
        (λ p q b. refl)
        (λ p. refl)
        genesis.epoch_voter
        (handle_sig_receive_new_block
          (λ a. a)
          (λ v b. 6)
          (λ m. true)
          set_bit
          no_bits
          aggregate
          (λ m. true)
          (λ h. some h)
          (vote 12 false 2)
          proposer_node)
new_block_handlers-Good_example =
    new_block_handlers-Good (λ a. a) (λ v b. 6) (λ m. true) set_bit no_bits aggregate (λ m. true)
      (λ p b. b p) (λ p q b. refl) (λ p. refl) (λ h. some h) (vote 12 false 2) proposer_node
      ((((refl, tt), (tt, tt)), session_proposers), tt)

abbrev order_vote : ℕ → Bool → MsgSign SendOrderVote
order_vote address proposing = record {
  request_id = 9;
  sequence = 7;
  epoch = 5;
  voter_address = address;
  is_proposer = proposing;
  sig_data = address;
  body = record { send_order = 1; withdraw_ids = 5 ∷ []; witness_size = 108 };
}

abbrev order_sessions : SigMap SendOrderVote
order_sessions = (9, (11, order_vote 11 true) ∷ []) ∷ []

abbrev first_sessions : SigMap SendOrderVote
first_sessions =
    (receive_send_order_as_proposer set_bit no_bits aggregate (λ o. none) (λ m. true)
      (order_vote 12 false) genesis.epoch_voter order_sessions).sig_map
