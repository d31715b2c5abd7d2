-- ===== src/Bls/Quorum.antt =====
-- The message that `aggSigNewBlock` (internal/bls/handle_block.go) returns.
use mathlib.Core.List.{Memᴰ}
use goat_relayer.Prelude.{
  ℕ, suc, ◌≤◌, ◌<◌, ◌≡◌, sym, ◌∙◌, ap, inl, inr, List, [], Bool, true, false, ◌||◌, Option, some,
  arith, ◌==◌, All, length,
}
use goat_relayer.Votes.{threshold}
use goat_relayer.Layer2.{EpochVoter}
use goat_relayer.Bls.{
  MsgSign, NewBlock, Message, ok, voter_all, tally, start_tally, agg_sig_new_block,
}
use goat_relayer.Bls.Collect.{
  positions, member, DistinctKeys, DistinctNumbers, positions_bound, positions_distinct,
}
use goat_relayer.Bls.Sound.{tally-Counted, tally-taken, Concluded, conclude-Concluded, or_false}

-- The message comes from the proposer's one in the map, for the current epoch and sequence.
abbrev pub FromProposer : {B P : Type 0} → EpochVoter → List (ℕ × MsgSign P) → Message B P → Type 0
FromProposer {P} e votes msg =
    (a : ℕ) × (m : MsgSign P) × Memᴰ (a, m) votes
    × (m.is_proposer ≡ true)
    × (msg.proposer ≡ a)
    × (msg.content ≡ m.body)
    × (m.epoch ≡ e.epoch)
    × (m.sequence ≡ e.sequence)
    × (msg.vote.epoch ≡ e.epoch)
    × (msg.vote.sequence ≡ e.sequence)

-- The bitmap holds different voters of the epoch, with the proposer as many as the threshold asks for.
abbrev pub HasQuorum :
    {B P : Type 0} → (ℕ → B → Bool) → EpochVoter → List (ℕ × MsgSign P) → Message B P → Type 0
HasQuorum has e votes msg =
    DistinctNumbers (positions (voter_all e) votes)
    × All (λ p. p < length (voter_all e)) (positions (voter_all e) votes)
    × (threshold (length (voter_all e)) ≤ suc (length (positions (voter_all e) votes)))
    × ((p : ℕ) → has p msg.vote.voters ≡ member p (positions (voter_all e) votes))

module _ {B : Type 0} (set_bit : ℕ → B → B) (no_bits : B) (aggregate : List ℕ → Option ℕ)
    (has : ℕ → B → Bool)
    (has-set_bit : (p q : ℕ) (b : B) → has p (set_bit q b) ≡ (p == q || has p b))
    (has-no_bits : (p : ℕ) → has p no_bits ≡ false) where
  from_proposer :
      {P : Type 0} (e : EpochVoter) (votes : List (ℕ × MsgSign P)) (body : P) (msg : Message B P)
      → Concluded aggregate e
          (tally set_bit (voter_all e) votes (start_tally set_bit no_bits aggregate body))
          msg
      → FromProposer e votes msg
  from_proposer e votes body msg c =
      elim (tally-taken set_bit (voter_all e) votes (start_tally set_bit no_bits aggregate body)) [
        | inl same ↦ absurd (c.0 (ap (λ x. x.0) same))
        | inr (a, m, found, mine, same) ↦ (
          a,
          m,
          found,
          mine,
          c.5 ∙ ap (λ x. x.0) same,
          c.6 ∙ ap (λ x. x.3) same,
          sym (ap (λ x. x.1) same) ∙ c.1,
          sym (ap (λ x. x.2) same) ∙ c.2,
          c.8 ∙ c.1,
          c.9 ∙ c.2,
        )
      ]

  has_quorum :
      {P : Type 0} (e : EpochVoter) (votes : List (ℕ × MsgSign P)) (body : P) (msg : Message B P)
      → DistinctKeys votes
      → Concluded aggregate e
          (tally set_bit (voter_all e) votes (start_tally set_bit no_bits aggregate body))
          msg
      → HasQuorum has e votes msg
  has_quorum e votes body msg distinct c =
      let ps = positions (voter_all e) votes in
      let n =
        tally-Counted set_bit has has-set_bit (voter_all e) votes
          (start_tally set_bit no_bits aggregate body) in
      (
        positions_distinct (voter_all e) votes distinct,
        positions_bound (voter_all e) votes,
        omega (arith, n.0, c.3),
        λ p.
            ap (has p) c.7
            ∙ n.1 p
            ∙ ap (λ x. member p ps || x) (has-no_bits p)
            ∙ or_false (member p ps),
      )

  -- With bitmaps that hold what was set, when aggSigNewBlock succeeds on votes of different voters, the message is
  -- that of a proposer's vote for the current epoch and sequence, and its bitmap holds exactly the positions of
  -- the other known voters, which are different voters of the epoch and with the proposer reach the threshold.
  pub agg_sig_new_block_quorum :
      (e : EpochVoter) (votes : List (ℕ × MsgSign NewBlock)) (msg : Message B NewBlock)
      → DistinctKeys votes
      → agg_sig_new_block set_bit no_bits aggregate e (some votes) ≡ ok msg
      → FromProposer e votes msg × HasQuorum has e votes msg
  unfolding agg_sig_new_block
  agg_sig_new_block_quorum e votes msg distinct h =
      let body : NewBlock = record { start_block_number = 0; block_hash = [] } in
      let c =
        conclude-Concluded aggregate e
          (tally set_bit (voter_all e) votes (start_tally set_bit no_bits aggregate body)) msg h in
      (from_proposer e votes body msg c, has_quorum e votes body msg distinct c)
