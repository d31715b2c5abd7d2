-- ===== src/Bls/Orders.antt =====
-- internal/bls/handle_wallet.go: the proposer collects the votes for a send order that layer 2 signs off.
use goat_relayer.Prelude.{
  ℕ, ◌≡◌, refl, List, [], ◌∷◌, ◌++◌, Bool, true, false, not, Option, none, some, ◌==◌,
  if◌then◌else◌,
}
use goat_relayer.Layer2.{EpochVoter}
use goat_relayer.Bls.{
  MsgSign, SendOrderVote, DecodedOrder, OrderMessage, ok, err, agg_sig_send_order,
}
use goat_relayer.Bls.Handle.{VoteMap, SigMap, sig_exists, remove_sig_map, put_sig_map, has_vote}

pub data OrderAction (B : Type 0) : Type 0 where
  submit_order : OrderMessage B → OrderAction B
  order_finish : ℕ → OrderAction B

pub record OrderHandled (B : Type 0) : Type 0 where
  pub sig_map : SigMap SendOrderVote
  pub actions : List (OrderAction B)
  pub failed : Bool

-- A list of entries without one key, and the entry in front of it, which is kept or not.
sig_exists-kept :
    (id k : ℕ) (votes : VoteMap SendOrderVote) (rest : SigMap SendOrderVote) (b : Bool)
    → (k == id) ≡ b
    → sig_exists id rest ≡ none
    → sig_exists id (elim (not b) [ true ↦ (k, votes) ∷ rest | false ↦ rest ]) ≡ none
unfolding sig_exists
sig_exists-kept id k votes rest true e h = h
sig_exists-kept id k votes rest false e h = rw (e, h) refl

pub sig_exists-remove_sig_map :
    (id : ℕ) (m : SigMap SendOrderVote) → sig_exists id (remove_sig_map id m) ≡ none
unfolding sig_exists remove_sig_map
sig_exists-remove_sig_map id [] = refl
sig_exists-remove_sig_map id ((k, votes) ∷ m) =
    sig_exists-kept id k votes (remove_sig_map id m) (k == id) refl (sig_exists-remove_sig_map id m)

module _ {B : Type 0} (set_bit : ℕ → B → B) (no_bits : B) (aggregate : List ℕ → Option ℕ)
    (unmarshal : ℕ → Option DecodedOrder) (submitted : OrderMessage B → Bool) where
  -- The attempt to aggregate and submit, with the vote in the map.
  unfoldable pub try_submit_order : ℕ → EpochVoter → SigMap SendOrderVote → OrderHandled B
  unfolding sig_exists agg_sig_send_order
  try_submit_order id v m =
      elim (agg_sig_send_order set_bit no_bits aggregate unmarshal v (sig_exists id m)) [
        | err x ↦ record { sig_map = m; actions = []; failed = false }
        | ok msg ↦ record {
          sig_map = m;
          actions = submit_order msg ∷ [];
          failed = not (submitted msg);
        }
      ]

  unfoldable pub submit_send_order_to_layer2 :
      MsgSign SendOrderVote → EpochVoter → SigMap SendOrderVote → OrderHandled B
  unfolding sig_exists has_vote put_sig_map try_submit_order
  submit_send_order_to_layer2 e v m =
      if e.is_proposer
      then record { sig_map = m; actions = []; failed = false }
      else elim (sig_exists e.request_id m) [
        | none ↦ record { sig_map = m; actions = []; failed = true }
        | some votes ↦
            if has_vote e.voter_address votes
            then record { sig_map = m; actions = []; failed = false }
            else try_submit_order e.request_id v
                (put_sig_map e.request_id ((e.voter_address, e) ∷ votes) m)
      ]

  -- `handleSigReceiveSendOrder` of the proposer, for a message that is not signed by TSS.
  unfoldable pub receive_send_order_as_proposer :
      MsgSign SendOrderVote → EpochVoter → SigMap SendOrderVote → OrderHandled B
  unfolding submit_send_order_to_layer2 remove_sig_map
  receive_send_order_as_proposer e v m =
      let r = submit_send_order_to_layer2 e v m in
      record {
        sig_map = remove_sig_map e.request_id r.sig_map;
        actions = if r.failed then r.actions else r.actions ++ order_finish e.request_id ∷ [];
        failed = r.failed;
      }
