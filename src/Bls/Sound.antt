-- ===== src/Bls/Sound.antt =====
-- The loop over the votes and the checks after it (internal/bls/handle_block.go, internal/bls/handle_wallet.go).
use mathlib.Core.List.{Memᴰ}
use goat_relayer.Prelude.{
  ℕ, suc, ◌+◌, ◌≤◌, ◌≡◌, ◌≢◌, refl, sym, ◌∙◌, ap, subst, ◌⊎◌, inl, inr, List, [], ◌∷◌, ◌++◌, Bool,
  true, false, not, ◌||◌, Option, some, arith, ◌==◌, length, ltb, if-split, Option-split,
}
use goat_relayer.Votes.{threshold}
use goat_relayer.Layer2.{EpochVoter}
use goat_relayer.Bls.{
  MsgSign, Tally, Message, Signed, ok, err, voter_all, tally_vote, tally, conclude,
}
use goat_relayer.Bls.Collect.{
  positions, member, Kind, proposing, unknown, counted, classify, counts, positions-counts, effect,
  tally_vote-effect,
}

length-snoc : (xs : List ℕ) (x : ℕ) → length (xs ++ x ∷ []) ≡ suc (length xs)
length-snoc [] x = refl
length-snoc (y ∷ ys) x = ap suc (length-snoc ys x)

or_assoc : (a b c : Bool) → (a || (b || c)) ≡ ((b || a) || c)
or_assoc true true c = refl
or_assoc true false c = refl
or_assoc false true c = refl
or_assoc false false c = refl

pub or_false : (b : Bool) → (b || false) ≡ b
or_false true = refl
or_false false = refl

module _ {B P : Type 0} (set_bit : ℕ → B → B) (has : ℕ → B → Bool)
    (has-set_bit : (p q : ℕ) (b : B) → has p (set_bit q b) ≡ (p == q || has p b)) where
  -- One signature is counted and one bit set for each position.
  abbrev pub Counted : List ℕ → Tally B P → Tally B P → Type 0
  Counted ps t u =
      (length u.vote_sig ≡ length ps + length t.vote_sig)
      × ((p : ℕ) → has p u.bits ≡ (member p ps || has p t.bits))

  counts-Counted :
      (voters : List ℕ) (a : ℕ) (m : MsgSign P) (ps : List ℕ) (t u : Tally B P)
      (k : Kind voters a m)
      → Counted ps (effect set_bit k t) u
      → Counted (counts k ps) t u
  counts-Counted voters a m ps t u (proposing mine) h = h
  counts-Counted voters a m ps t u (unknown other absent) h = h
  counts-Counted voters a m ps t u (counted q other found) h = (
    omega (arith, h.0, length-snoc t.vote_sig m.sig_data),
    λ p.
        h.1 p
        ∙ ap (λ x. member p ps || x) (has-set_bit p q t.bits)
        ∙ or_assoc (member p ps) (p == q) (has p t.bits),
  )

  pub tally-Counted :
      (voters : List ℕ) (votes : List (ℕ × MsgSign P)) (t : Tally B P)
      → Counted (positions voters votes) t (tally set_bit voters votes t)
  unfolding tally positions
  tally-Counted voters [] t = (omega arith, λ p. refl)
  tally-Counted voters ((a, m) ∷ votes) t =
      let k = classify voters a m in
      let next = tally_vote set_bit voters a m t in
      let u = tally set_bit voters votes next in
      subst (λ ps. Counted ps t u) (sym (positions-counts voters a m votes k))
        (counts-Counted voters a m (positions voters votes) t u k (
          subst (λ x. Counted (positions voters votes) x u)
            (tally_vote-effect set_bit voters a m k t) (tally-Counted voters votes next)))

module _ {B P : Type 0} (set_bit : ℕ → B → B) where
  -- What the loop takes from the proposer's message.
  abbrev pub taken : Tally B P → ℕ × ℕ × ℕ × P × ℕ
  taken t = (t.proposer, t.epoch, t.sequence, t.body, t.proposer_sig)

  -- A message of the map that a proposer sent.
  abbrev pub Proposed : List (ℕ × MsgSign P) → ℕ × ℕ × ℕ × P × ℕ → Type 0
  Proposed votes x =
      (a : ℕ) × (m : MsgSign P) × Memᴰ (a, m) votes
      × (m.is_proposer ≡ true)
      × (x ≡ (a, m.epoch, m.sequence, m.body, m.sig_data))

  effect-taken :
      (voters : List ℕ) (a : ℕ) (m : MsgSign P) (votes : List (ℕ × MsgSign P)) (t : Tally B P)
      (k : Kind voters a m)
      → (taken (effect set_bit k t) ≡ taken t)
        ⊎ Proposed ((a, m) ∷ votes) (taken (effect set_bit k t))
  effect-taken voters a m votes t (proposing mine) = inr (a, m, Memᴰ.head refl, mine, refl)
  effect-taken voters a m votes t (unknown other absent) = inl refl
  effect-taken voters a m votes t (counted q other found) = inl refl

  pub tally-taken :
      (voters : List ℕ) (votes : List (ℕ × MsgSign P)) (t : Tally B P)
      → (taken (tally set_bit voters votes t) ≡ taken t)
        ⊎ Proposed votes (taken (tally set_bit voters votes t))
  unfolding tally
  tally-taken voters [] t = inl refl
  tally-taken voters ((a, m) ∷ votes) t =
      let k = classify voters a m in
      let next = tally_vote set_bit voters a m t in
      let u = tally set_bit voters votes next in
      elim (tally-taken voters votes next) [
        | inr (b, n, found, mine, e) ↦ inr (b, n, Memᴰ.tail found, mine, e)
        | inl same ↦ elim (effect-taken voters a m votes t k) [
          | inl same' ↦ inl (same ∙ ap taken (tally_vote-effect set_bit voters a m k t) ∙ same')
          | inr (b, n, found, mine, e) ↦
              inr
                (b, n, found, mine, same ∙ ap taken (tally_vote-effect set_bit voters a m k t) ∙ e)
        ]
      ]

-- What the checks after the loop have established.
abbrev pub Concluded :
    {B P : Type 0} → (List ℕ → Option ℕ) → EpochVoter → Tally B P → Message B P → Type 0
Concluded aggregate e t msg =
    (t.proposer ≢ 0)
    × (t.epoch ≡ e.epoch)
    × (t.sequence ≡ e.sequence)
    × (threshold (length (voter_all e)) ≤ suc (length t.vote_sig))
    × (aggregate (t.proposer_sig ∷ t.vote_sig) ≡ some msg.vote.signature)
    × (msg.proposer ≡ t.proposer)
    × (msg.content ≡ t.body)
    × (msg.vote.voters ≡ t.bits)
    × (msg.vote.epoch ≡ t.epoch)
    × (msg.vote.sequence ≡ t.sequence)

signed_injective : {A : Type 0} (a b : A) → ok a ≡ ok b → a ≡ b
signed_injective {A} a b h = ap value h
  where
    value : Signed A → A
    value (ok x) = x
    value (err x) = a

pub conclude-Concluded :
    {B P : Type 0} (aggregate : List ℕ → Option ℕ) (e : EpochVoter) (t : Tally B P)
    (msg : Message B P)
    → conclude aggregate e t ≡ ok msg
    → Concluded aggregate e t msg
unfolding conclude
conclude-Concluded {B} {P} aggregate e t msg =
    let Q : Signed (Message B P) → Type 0 = λ r. r ≡ ok msg → Concluded aggregate e t msg in
    if-split Q (t.proposer == 0) (λ _ h. absurd cc)
      (λ present.
        if-split Q (not (t.epoch == e.epoch)) (λ _ h. absurd cc)
          (λ epoch.
            if-split Q (not (t.sequence == e.sequence)) (λ _ h. absurd cc)
              (λ sequence.
                if-split Q
                  (ltb (length (t.proposer_sig ∷ t.vote_sig)) (threshold (length (voter_all e))))
                  (λ _ h. absurd cc)
                  (λ enough.
                    Option-split Q (aggregate (t.proposer_sig ∷ t.vote_sig)) (λ _ h. absurd cc)
                      (λ sig found h.
                        let same = signed_injective _ msg h in
                        (
                          ground (arith, present),
                          ground (arith, epoch),
                          ground (arith, sequence),
                          ground (arith, enough),
                          found ∙ ap (λ x. some x.vote.signature) same,
                          sym (ap (λ x. x.proposer) same),
                          sym (ap (λ x. x.content) same),
                          sym (ap (λ x. x.vote.voters) same),
                          sym (ap (λ x. x.vote.epoch) same),
                          sym (ap (λ x. x.vote.sequence) same),
                        ))))))
