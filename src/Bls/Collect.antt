-- ===== src/Bls/Collect.antt =====
-- What the loop over the votes of internal/bls/handle_block.go and internal/bls/handle_wallet.go collects.

use goat_relayer.Prelude.{
  ℕ, suc, ◌+◌, ◌≤◌, ◌<◌, ◌≡◌, refl, sym, subst, inl, inr, List, [], ◌∷◌, ◌++◌, Bool, true, false,
  ◌||◌, none, some, arith, ◌==◌, All, length, Bool-cases, Option-cases, if-split, Option-split,
  if◌then◌else◌,
}
use goat_relayer.Bls.{MsgSign, Tally, index_of_slice, tally_vote}

-- The positions of the voters whose votes count, in the order of the map.
unfoldable pub positions : {P : Type 0} → List ℕ → List (ℕ × MsgSign P) → List ℕ
positions voters [] = []
positions voters ((address, m) ∷ votes) =
    let rest = positions voters votes in
    if m.is_proposer
    then rest
    else elim (index_of_slice voters address 0) [ none ↦ rest | some p ↦ p ∷ rest ]

abbrev pub member : ℕ → List ℕ → Bool
member p [] = false
member p (q ∷ qs) = p == q || member p qs

-- No two entries of a map have one key.
abbrev pub DistinctKeys : {P : Type 0} → List (ℕ × MsgSign P) → Type 0
DistinctKeys [] = Unit {0}
DistinctKeys (v ∷ vs) = All (λ w. (v.0 == w.0) ≡ false) vs × DistinctKeys vs

abbrev pub DistinctNumbers : List ℕ → Type 0
DistinctNumbers [] = Unit {0}
DistinctNumbers (p ∷ ps) = All (λ q. (p == q) ≡ false) ps × DistinctNumbers ps

-- The index of an address in the slice.
index_of_slice_range :
    (voters : List ℕ) (a i p : ℕ)
    → index_of_slice voters a i ≡ some p
    → (i ≤ p) × (p < i + length voters)
unfolding index_of_slice
index_of_slice_range [] a i p h = absurd cc
index_of_slice_range (v ∷ vs) a i p h = elim (Bool-cases (v == a)) [
  | inl hit ↦
      let same : i ≡ p = ground (arith, h, hit) in (omega (arith, same), omega (arith, same))
  | inr miss ↦
      let rest = index_of_slice_range vs a (suc i) p (ground (arith, h, miss)) in
      (omega (arith, rest.0), omega (arith, rest.1))
]

index_of_slice_injective :
    (voters : List ℕ) (a b i p : ℕ)
    → index_of_slice voters a i ≡ some p
    → index_of_slice voters b i ≡ some p
    → a ≡ b
unfolding index_of_slice
index_of_slice_injective [] a b i p h k = absurd cc
index_of_slice_injective (v ∷ vs) a b i p h k = elim (Bool-cases (v == a)) [
  | inl hit ↦ elim (Bool-cases (v == b)) [
    | inl hit' ↦ ground (arith, hit, hit')
    | inr miss' ↦
        let here : i ≡ p = ground (arith, h, hit) in
        let later = index_of_slice_range vs b (suc i) p (ground (arith, k, miss')) in
        absurd (omega (arith, here, later.0))
  ]
  | inr miss ↦ elim (Bool-cases (v == b)) [
    | inl hit' ↦
        let here : i ≡ p = ground (arith, k, hit') in
        let later = index_of_slice_range vs a (suc i) p (ground (arith, h, miss)) in
        absurd (omega (arith, here, later.0))
    | inr miss' ↦
        index_of_slice_injective vs a b (suc i) p (ground (arith, h, miss))
          (ground (arith, k, miss'))
  ]
]

-- Every counted position belongs to a vote and is a position of the slice.
pub positions-All :
    {P : Type 0} (Q : ℕ → Type 0) (voters : List ℕ) (votes : List (ℕ × MsgSign P))
    → All (λ v. (p : ℕ) → index_of_slice voters v.0 0 ≡ some p → Q p) votes
    → All Q (positions voters votes)
unfolding positions
positions-All Q voters [] h = tt
positions-All Q voters ((a, m) ∷ votes) h =
    let rest = positions-All Q voters votes h.1 in
    if-split (All Q) m.is_proposer (λ _. rest)
      (λ _.
        Option-split (All Q) (index_of_slice voters a 0) (λ _. rest)
          (λ p found. (h.0 p found, rest)))

All-trivial : {A : Type 0} {Q : A → Type 0} (xs : List A) → ((a : A) → Q a) → All Q xs
All-trivial [] f = tt
All-trivial (x ∷ xs) f = (f x, All-trivial xs f)

pub positions_bound :
    {P : Type 0} (voters : List ℕ) (votes : List (ℕ × MsgSign P))
    → All (λ p. p < length voters) (positions voters votes)
positions_bound voters votes =
    positions-All (λ p. p < length voters) voters votes
      (All-trivial votes
        (λ v p found. omega (arith, (index_of_slice_range voters v.0 0 p found).1)))

other_position :
    {P : Type 0} (voters : List ℕ) (a p : ℕ) (votes : List (ℕ × MsgSign P))
    → index_of_slice voters a 0 ≡ some p
    → All (λ w. (a == w.0) ≡ false) votes
    → All (λ v. (q : ℕ) → index_of_slice voters v.0 0 ≡ some q → (p == q) ≡ false) votes
other_position voters a p [] found h = tt
other_position voters a p (v ∷ votes) found h = (
  (λ q found'. elim (Bool-cases (p == q)) [
    | inr apart ↦ apart
    | inl same ↦
        let pq : p ≡ q = ground (arith, same) in
        let e : a ≡ v.0 =
          index_of_slice_injective voters a v.0 0 p found
            (subst (λ x. index_of_slice voters v.0 0 ≡ some x) (sym pq) found') in
        absurd (ground (arith, e, h.0))
  ]),
  other_position voters a p votes found h.1,
)

pub positions_distinct :
    {P : Type 0} (voters : List ℕ) (votes : List (ℕ × MsgSign P))
    → DistinctKeys votes
    → DistinctNumbers (positions voters votes)
unfolding positions
positions_distinct voters [] h = tt
positions_distinct voters ((a, m) ∷ votes) h =
    let rest = positions_distinct voters votes h.1 in
    if-split DistinctNumbers m.is_proposer (λ _. rest)
      (λ _.
        Option-split DistinctNumbers (index_of_slice voters a 0) (λ _. rest)
          (λ p found. (
            positions-All (λ q. (p == q) ≡ false) voters votes
                (other_position voters a p votes found h.0),
            rest,
          )))

-- The three kinds of votes.
pub data Kind {P : Type 0} (voters : List ℕ) (a : ℕ) (m : MsgSign P) : Type 0 where
  proposing : m.is_proposer ≡ true → Kind voters a m
  unknown : m.is_proposer ≡ false → index_of_slice voters a 0 ≡ none → Kind voters a m
  counted : (p : ℕ) → m.is_proposer ≡ false → index_of_slice voters a 0 ≡ some p → Kind voters a m

pub classify : {P : Type 0} (voters : List ℕ) (a : ℕ) (m : MsgSign P) → Kind voters a m
classify voters a m = elim (Bool-cases m.is_proposer) [
  | inl mine ↦ proposing mine
  | inr other ↦ elim (Option-cases (index_of_slice voters a 0)) [
    | inl absent ↦ unknown other absent
    | inr (p, found) ↦ counted p other found
  ]
]

-- What a vote of each kind does.
abbrev pub counts :
    {P : Type 0} {voters : List ℕ} {a : ℕ} {m : MsgSign P} → Kind voters a m → List ℕ → List ℕ
counts (proposing _) ps = ps
counts (unknown _ _) ps = ps
counts (counted p _ _) ps = p ∷ ps

pub positions-counts :
    {P : Type 0} (voters : List ℕ) (a : ℕ) (m : MsgSign P) (votes : List (ℕ × MsgSign P))
    (k : Kind voters a m)
    → positions voters ((a, m) ∷ votes) ≡ counts k (positions voters votes)
unfolding positions
positions-counts voters a m votes (proposing mine) = rw mine refl
positions-counts voters a m votes (unknown other absent) = rw (other, absent) refl
positions-counts voters a m votes (counted p other found) = rw (other, found) refl

module _ {B P : Type 0} (set_bit : ℕ → B → B) where
  abbrev pub effect :
      {voters : List ℕ} {a : ℕ} {m : MsgSign P} → Kind voters a m → Tally B P → Tally B P
  effect {a} {m} (proposing _) t = record t {
    proposer = a;
    sequence = m.sequence;
    epoch = m.epoch;
    body = m.body;
    proposer_sig = m.sig_data;
  }
  effect (unknown _ _) t = t
  effect {m} (counted p _ _) t = record t {
    bits = set_bit p t.bits;
    vote_sig = t.vote_sig ++ m.sig_data ∷ [];
  }

  pub tally_vote-effect :
      (voters : List ℕ) (a : ℕ) (m : MsgSign P) (k : Kind voters a m) (t : Tally B P)
      → tally_vote set_bit voters a m t ≡ effect k t
  unfolding tally_vote
  tally_vote-effect voters a m (proposing mine) t = rw mine refl
  tally_vote-effect voters a m (unknown other absent) t = rw (other, absent) refl
  tally_vote-effect voters a m (counted p other found) t = rw (other, found) refl
