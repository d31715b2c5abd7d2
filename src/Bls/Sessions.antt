-- ===== src/Bls/Sessions.antt =====
-- The signing sessions of a proposer (internal/bls/handle_block.go): what their vote maps hold, and what is submitted.
use goat_relayer.Prelude.{
  ℕ, ◌+◌, ◌%◌, ◌^◌, ◌≡◌, refl, subst, inl, inr, List, [], ◌∷◌, ◌++◌, keep, Bool, true, false, not,
  ◌&&◌, ◌||◌, Option, some, arith, ◌==◌, All, Bool-cases, if-split, Option-split,
}
use goat_relayer.Layer2.{EpochVoter}
use goat_relayer.Bls.{MsgSign, NewBlock, Message, Signed, SignError, ok, err, agg_sig_new_block}
use goat_relayer.Bls.Collect.{DistinctKeys}
use goat_relayer.Bls.Order.{proposers}
use goat_relayer.Bls.Quorum.{FromProposer, HasQuorum, agg_sig_new_block_quorum}
use goat_relayer.Bls.Handle.{
  VoteMap, SigMap, sig_exists, remove_sig_map, put_sig_map, has_vote, Signer, can_sign, Action,
  publish_vote, submit_block, sig_finish, Handled, is_proposer_node, own_vote, accepts,
  receive_as_voter, try_submit, handle_sig_start_new_block, receive_as_proposer,
  handle_sig_receive_new_block,
}

-- A vote map has one message for each voter, and one of them is the proposer's.
abbrev pub SessionInv : VoteMap NewBlock → Type 0
SessionInv votes = DistinctKeys votes × (proposers votes ≡ 1)

abbrev pub SessionsInv : SigMap NewBlock → Type 0
SessionsInv = All (λ s. SessionInv s.1)

sig_exists-All :
    (id : ℕ) (m : SigMap NewBlock) (votes : VoteMap NewBlock)
    → SessionsInv m
    → sig_exists id m ≡ some votes
    → SessionInv votes
unfolding sig_exists
sig_exists-All id [] votes h e = cc
sig_exists-All id ((k, v) ∷ m) votes h e = elim (Bool-cases (k == id)) [
  | inl hit ↦ let same : v ≡ votes = ground (arith, e, hit) in subst SessionInv same h.0
  | inr miss ↦ sig_exists-All id m votes h.1 (ground (arith, e, miss))
]

keep-All : {A : Type 0} (P : A → Type 0) (p : A → Bool) (xs : List A) → All P xs → All P (keep p xs)
keep-All P p [] h = tt
keep-All P p (x ∷ xs) h = go (p x) (keep-All P p xs h.1)
  where
    go :
        (b : Bool) → All P (keep p xs) → All P (elim b [ true ↦ x ∷ keep p xs | false ↦ keep p xs ])
    go true rest = (h.0, rest)
    go false rest = rest

Signed-split :
    {A C : Type 0} (P : C → Type 0) (r : Signed A) {f : SignError → C} {g : A → C}
    → ((x : SignError) → r ≡ err x → P (f x))
    → ((a : A) → r ≡ ok a → P (g a))
    → P (elim r [ err x ↦ f x | ok a ↦ g a ])
Signed-split P (err x) p q = p x refl
Signed-split P (ok a) p q = q a refl

remove_sig_map-SessionsInv :
    (id : ℕ) (m : SigMap NewBlock) → SessionsInv m → SessionsInv (remove_sig_map id m)
unfolding remove_sig_map
remove_sig_map-SessionsInv id m h = keep-All (λ s. SessionInv s.1) (λ s. not (s.0 == id)) m h

has_vote-DistinctKeys :
    (a : ℕ) (m : MsgSign NewBlock) (votes : VoteMap NewBlock)
    → has_vote a votes ≡ false
    → All (λ (w : ℕ × MsgSign NewBlock). (a == w.0) ≡ false) votes
unfolding has_vote
has_vote-DistinctKeys a m [] h = tt
has_vote-DistinctKeys a m ((k, n) ∷ votes) h = elim (Bool-cases (k == a)) [
  | inl hit ↦ absurd (ground (arith, h, hit))
  | inr miss ↦ (ground (arith, miss), has_vote-DistinctKeys a m votes (ground (arith, h, miss)))
]

-- A first session, and a vote of another voter.
first-SessionInv : (a : ℕ) (m : MsgSign NewBlock) → m.is_proposer ≡ true → SessionInv ((a, m) ∷ [])
unfolding proposers
first-SessionInv a m mine = ((tt, tt), rw mine refl)

next-SessionInv :
    (a : ℕ) (m : MsgSign NewBlock) (votes : VoteMap NewBlock)
    → m.is_proposer ≡ false
    → has_vote a votes ≡ false
    → SessionInv votes
    → SessionInv ((a, m) ∷ votes)
unfolding proposers
next-SessionInv a m votes other new h = ((has_vote-DistinctKeys a m votes new, h.0), rw other (h.1))

module _ {B : Type 0} (fold : ℕ → ℕ) (sign : EpochVoter → NewBlock → ℕ)
    (published : MsgSign NewBlock → Bool) (set_bit : ℕ → B → B) (no_bits : B)
    (aggregate : List ℕ → Option ℕ) (submitted : Message B NewBlock → Bool) (has : ℕ → B → Bool)
    (has-set_bit : (p q : ℕ) (b : B) → has p (set_bit q b) ≡ (p == q || has p b))
    (has-no_bits : (p : ℕ) → has p no_bits ≡ false) where
  -- What is submitted rests on votes of different voters of the epoch.
  abbrev pub Backed : EpochVoter → Action B → Type 0
  Backed e (publish_vote m) = Unit {0}
  Backed e (submit_block msg) =
      (votes : VoteMap NewBlock) × SessionInv votes
      × FromProposer e votes msg
      × HasQuorum has e votes msg
  Backed e (sig_finish id) = Unit {0}

  abbrev pub Good : EpochVoter → Handled B → Type 0
  Good e h = SessionsInv h.sig_map × All (Backed e) h.actions

  All-++ :
      (e : EpochVoter) (xs ys : List (Action B))
      → All (Backed e) xs
      → All (Backed e) ys
      → All (Backed e) (xs ++ ys)
  All-++ e [] ys p q = q
  All-++ e (x ∷ xs) ys p q = (p.0, All-++ e xs ys p.1 q)

  try_submit-Good :
      (id : ℕ) (e : EpochVoter) (m : SigMap NewBlock) (votes : VoteMap NewBlock)
      (sent : List (Action B))
      → sig_exists id m ≡ some votes
      → SessionsInv m
      → All (Backed e) sent
      → Good e (try_submit fold sign published set_bit no_bits aggregate submitted id e m sent)
  unfolding try_submit
  try_submit-Good id e m votes sent found inv h =
      let agg : Option (VoteMap NewBlock) → Signed (Message B NewBlock) =
        agg_sig_new_block set_bit no_bits aggregate e in
      Signed-split (Good e) (agg (sig_exists id m)) (λ x _. (inv, h))
        (λ msg made.
          let session = sig_exists-All id m votes inv found in
          let quorum =
            agg_sig_new_block_quorum set_bit no_bits aggregate has has-set_bit has-no_bits e votes
              msg session.0 (subst (λ o. agg o ≡ ok msg) found made) in
          let backed : Backed e (submit_block msg) = (votes, session, quorum.0, quorum.1) in
          if-split (Good e) (submitted msg)
            (λ _. (
              remove_sig_map-SessionsInv id m inv,
              All-++ e sent (submit_block msg ∷ sig_finish id ∷ []) h (backed, (tt, tt)),
            ))
            (λ _. (
              remove_sig_map-SessionsInv id m inv,
              All-++ e sent (submit_block msg ∷ []) h (backed, tt),
            )))

  put-Good :
      (id : ℕ) (e : EpochVoter) (m : SigMap NewBlock) (votes : VoteMap NewBlock)
      (sent : List (Action B))
      → SessionInv votes
      → SessionsInv m
      → All (Backed e) sent
      → Good e (
          try_submit fold sign published set_bit no_bits aggregate submitted id e
            (put_sig_map id votes m)
            sent)
  unfolding put_sig_map sig_exists
  put-Good id e m votes sent session inv h =
      try_submit-Good id e (put_sig_map id votes m) votes sent (ground arith)
        (session, remove_sig_map-SessionsInv id m inv) h

  start-Good :
      (e : MsgSign NewBlock) (s : Signer)
      → SessionsInv s.sig_map
      → Good s.layer2.epoch_voter
          (handle_sig_start_new_block fold sign published set_bit no_bits aggregate submitted e s)
  unfolding handle_sig_start_new_block
  start-Good e s inv =
      let P : Handled B → Type 0 = Good s.layer2.epoch_voter in
      if-split P (not (can_sign s && is_proposer_node fold s)) (λ _. (inv, tt))
        (λ _.
          if-split P
            (not (e.body.start_block_number == (s.layer2.info.latest_btc_height + 1) % 2 ^ 64))
            (λ _. (inv, tt))
            (λ _.
              Option-split P (sig_exists e.request_id s.sig_map)
                (λ _.
                  if-split P (not (published (own_vote sign s true e))) (λ _. (inv, tt))
                    (λ _.
                      put-Good e.request_id s.layer2.epoch_voter s.sig_map
                        ((s.address, own_vote sign s true e) ∷ [])
                        (publish_vote (own_vote sign s true e) ∷ [])
                        (first-SessionInv s.address (own_vote sign s true e) refl) inv (tt, tt)))
                (λ votes _. (inv, tt))))

  receive_as_proposer-Good :
      (e : MsgSign NewBlock) (s : Signer)
      → SessionsInv s.sig_map
      → Good s.layer2.epoch_voter
          (receive_as_proposer fold sign published set_bit no_bits aggregate submitted e s)
  unfolding receive_as_proposer
  receive_as_proposer-Good e s inv =
      let P : Handled B → Type 0 = Good s.layer2.epoch_voter in
      if-split P e.is_proposer (λ _. (inv, tt))
        (λ other.
          Option-split P (sig_exists e.request_id s.sig_map) (λ _. (inv, tt))
            (λ votes found.
              if-split P (has_vote e.voter_address votes) (λ _. (inv, tt))
                (λ new.
                  put-Good e.request_id s.layer2.epoch_voter s.sig_map
                    ((e.voter_address, e) ∷ votes) []
                    (next-SessionInv e.voter_address e votes other new
                      (sig_exists-All e.request_id s.sig_map votes inv found))
                    inv tt)))

  receive-Good :
      (text : ℕ → Option ℕ) (e : MsgSign NewBlock) (s : Signer)
      → SessionsInv s.sig_map
      → Good s.layer2.epoch_voter (
          handle_sig_receive_new_block fold sign published set_bit no_bits aggregate submitted text
            e s)
  unfolding handle_sig_receive_new_block receive_as_voter
  receive-Good text e s inv =
      let P : Handled B → Type 0 = Good s.layer2.epoch_voter in
      if-split P (not (can_sign s)) (λ _. (inv, tt))
        (λ _.
          if-split P (is_proposer_node fold s) (λ _. receive_as_proposer-Good e s inv)
            (λ _.
              if-split P (not e.is_proposer) (λ _. (inv, tt))
                (λ _.
                  if-split P (not (accepts text e s)) (λ _. (inv, tt))
                    (λ _.
                      if-split P (not (published (own_vote sign s false e))) (λ _. (inv, tt))
                        (λ _. (inv, (tt, tt)))))))

  -- With bitmaps that hold what was set, when every vote map has one message for each voter and one of them is a
  -- proposer's, this also holds after a signing is started or a message received, and every block message that is then
  -- submitted is a proposer's in such a map for the current epoch and sequence, with a quorum in its bitmap.
  pub new_block_handlers-Good :
      (text : ℕ → Option ℕ) (e : MsgSign NewBlock) (s : Signer)
      → SessionsInv s.sig_map
      → Good s.layer2.epoch_voter
          (handle_sig_start_new_block fold sign published set_bit no_bits aggregate submitted e s)
        × Good s.layer2.epoch_voter (
            handle_sig_receive_new_block fold sign published set_bit no_bits aggregate submitted
              text e s)
  new_block_handlers-Good text e s inv = (start-Good e s inv, receive-Good text e s inv)
