-- ===== src/Bls/Order.antt =====
-- Go ranges over a map in no order: the aggregation of internal/bls/handle_block.go for two orders of one map.
use mathlib.Core.List.{Permᴰ}
use mathlib.Core.List.Permᴰ
use goat_relayer.Prelude.{
  ℕ, suc, ◌≤◌, ◌≡◌, refl, sym, ◌∙◌, ap, subst, List, [], ◌∷◌, ◌++◌, Bool, true, false, Option, some,
  arith, length, if◌then◌else◌, if-split,
}
use goat_relayer.Layer2.{EpochVoter}
use goat_relayer.Bls.{
  MsgSign, NewBlock, Tally, voter_all, tally_vote, tally, conclude, start_tally, agg_sig_new_block,
}
use goat_relayer.Bls.Collect.{
  Kind, proposing, unknown, counted, classify, effect, tally_vote-effect,
}
use goat_relayer.Bls.Sound.{taken}

-- The number of proposers' messages.
unfoldable pub proposers : {P : Type 0} → List (ℕ × MsgSign P) → ℕ
proposers [] = 0
proposers ((a, m) ∷ votes) = let rest = proposers votes in if m.is_proposer then suc rest else rest

proposers-rest :
    {P : Type 0} (v : ℕ × MsgSign P) (votes : List (ℕ × MsgSign P))
    → proposers votes ≤ proposers (v ∷ votes)
unfolding proposers
proposers-rest v votes =
    if-split (λ n. proposers votes ≤ n) (v.1).is_proposer (λ _. omega arith) (λ _. omega arith)

proposers-Permᴰ :
    {P : Type 0} (vs ws : List (ℕ × MsgSign P)) → Permᴰ vs ws → proposers vs ≡ proposers ws
unfolding proposers
proposers-Permᴰ _ _ Permᴰ.nil = refl
proposers-Permᴰ _ _ (Permᴰ.cons {a} {l₁} {l₂} e d) =
    subst (λ x. proposers (a ∷ l₁) ≡ proposers (x ∷ l₂)) e
      (ap (λ n. if a.1.is_proposer then suc n else n) (proposers-Permᴰ l₁ l₂ d))
proposers-Permᴰ _ _ (Permᴰ.swap {a} {b} {b'} {l} e f) =
    subst (λ x. proposers (a ∷ b ∷ l) ≡ proposers (x ∷ b' ∷ l)) f
      (subst (λ y. proposers (a ∷ b ∷ l) ≡ proposers (b ∷ y ∷ l)) e
        (swap_tests a.1.is_proposer b.1.is_proposer (proposers l)))
  where
    swap_tests :
        (x y : Bool) (n : ℕ)
        → (if x then suc (if y then suc n else n) else (if y then suc n else n))
          ≡ (if y then suc (if x then suc n else n) else (if x then suc n else n))
    swap_tests true true n = refl
    swap_tests true false n = refl
    swap_tests false true n = refl
    swap_tests false false n = refl
proposers-Permᴰ _ _ (Permᴰ.trans d e) = proposers-Permᴰ _ _ d ∙ proposers-Permᴰ _ _ e

Permᴰ-snoc : (xs ys : List ℕ) (z : ℕ) → Permᴰ xs ys → Permᴰ (xs ++ z ∷ []) (ys ++ z ∷ [])
Permᴰ-snoc _ _ z Permᴰ.nil = Permᴰ.refl (z ∷ [])
Permᴰ-snoc _ _ z (Permᴰ.cons e d) = Permᴰ.cons e (Permᴰ-snoc _ _ z d)
Permᴰ-snoc _ _ z (Permᴰ.swap e f) = Permᴰ.swap e f
Permᴰ-snoc _ _ z (Permᴰ.trans d e) = Permᴰ.trans (Permᴰ-snoc _ _ z d) (Permᴰ-snoc _ _ z e)

snoc-snoc : (xs : List ℕ) (y z : ℕ) → Permᴰ ((xs ++ y ∷ []) ++ z ∷ []) ((xs ++ z ∷ []) ++ y ∷ [])
snoc-snoc [] y z = Permᴰ.swap refl refl
snoc-snoc (x ∷ xs) y z = Permᴰ.cons refl (snoc-snoc xs y z)

Permᴰ-length : {A : Type 0} (xs ys : List A) → Permᴰ xs ys → length xs ≡ length ys
Permᴰ-length _ _ Permᴰ.nil = refl
Permᴰ-length _ _ (Permᴰ.cons e d) = ap suc (Permᴰ-length _ _ d)
Permᴰ-length _ _ (Permᴰ.swap e f) = refl
Permᴰ-length _ _ (Permᴰ.trans d e) = Permᴰ-length _ _ d ∙ Permᴰ-length _ _ e

module _ {B P : Type 0} (set_bit : ℕ → B → B)
    (set_bit_comm : (p q : ℕ) (b : B) → set_bit p (set_bit q b) ≡ set_bit q (set_bit p b)) where
  -- The same but for the order of the signatures.
  abbrev Same : Tally B P → Tally B P → Type 0
  Same t u = (taken set_bit t ≡ taken set_bit u) × (t.bits ≡ u.bits) × Permᴰ t.vote_sig u.vote_sig

  Same-refl : (t : Tally B P) → Same t t
  Same-refl t = (refl, refl, Permᴰ.refl t.vote_sig)

  Same-trans : (t u v : Tally B P) → Same t u → Same u v → Same t v
  Same-trans t u v p q = (p.0 ∙ q.0, p.1 ∙ q.1, Permᴰ.trans p.2 q.2)

  effect-Same :
      {voters : List ℕ} {a : ℕ} {m : MsgSign P} (k : Kind voters a m) (t u : Tally B P)
      → Same t u
      → Same (effect set_bit k t) (effect set_bit k u)
  effect-Same (proposing mine) t u s = (refl, s.1, s.2)
  effect-Same (unknown other absent) t u s = s
  effect-Same {m} (counted p other found) t u s =
      (s.0, ap (set_bit p) s.1, Permᴰ-snoc t.vote_sig u.vote_sig m.sig_data s.2)

  effect-swap :
      {voters : List ℕ} {a b : ℕ} {m n : MsgSign P} (k : Kind voters a m) (l : Kind voters b n)
      (votes : List (ℕ × MsgSign P)) (t : Tally B P)
      → proposers ((a, m) ∷ (b, n) ∷ votes) ≤ 1
      → Same (effect set_bit l (effect set_bit k t)) (effect set_bit k (effect set_bit l t))
  unfolding proposers
  effect-swap (proposing mine) (proposing yours) votes t h = absurd (ground (arith, mine, yours, h))
  effect-swap (proposing mine) (unknown other absent) votes t h = Same-refl _
  effect-swap (proposing mine) (counted p other found) votes t h = Same-refl _
  effect-swap (unknown other absent) l votes t h = Same-refl _
  effect-swap (counted p other found) (proposing mine) votes t h = Same-refl _
  effect-swap (counted p other found) (unknown other' absent) votes t h = Same-refl _
  effect-swap {m} {n} (counted p other found) (counted q other' found') votes t h =
      (refl, set_bit_comm q p t.bits, snoc-snoc t.vote_sig m.sig_data n.sig_data)

  tally_vote-Same :
      (voters : List ℕ) (v : ℕ × MsgSign P) (t u : Tally B P)
      → Same t u
      → Same (tally_vote set_bit voters v.0 v.1 t) (tally_vote set_bit voters v.0 v.1 u)
  tally_vote-Same voters v t u s =
      let k = classify voters v.0 v.1 in
      rw
        (tally_vote-effect set_bit voters v.0 v.1 k t, tally_vote-effect set_bit voters v.0 v.1 k u)
        (effect-Same k t u s)

  tally_vote-swap :
      (voters : List ℕ) (v w : ℕ × MsgSign P) (votes : List (ℕ × MsgSign P)) (t : Tally B P)
      → proposers (v ∷ w ∷ votes) ≤ 1
      → Same
          (tally_vote set_bit voters w.0 w.1 (tally_vote set_bit voters v.0 v.1 t))
          (tally_vote set_bit voters v.0 v.1 (tally_vote set_bit voters w.0 w.1 t))
  tally_vote-swap voters v w votes t h =
      let k = classify voters v.0 v.1 in
      let l = classify voters w.0 w.1 in
      let first = tally_vote-effect set_bit voters v.0 v.1 k in
      let second = tally_vote-effect set_bit voters w.0 w.1 l in
      subst (λ x. Same x (tally_vote set_bit voters v.0 v.1 (tally_vote set_bit voters w.0 w.1 t)))
        (sym (second (tally_vote set_bit voters v.0 v.1 t) ∙ ap (effect set_bit l) (first t)))
        (subst (Same (effect set_bit l (effect set_bit k t)))
          (sym (first (tally_vote set_bit voters w.0 w.1 t) ∙ ap (effect set_bit k) (second t)))
          (effect-swap k l votes t h))

  tally-Same :
      (voters : List ℕ) (votes : List (ℕ × MsgSign P)) (t u : Tally B P)
      → Same t u
      → Same (tally set_bit voters votes t) (tally set_bit voters votes u)
  unfolding tally
  tally-Same voters [] t u s = s
  tally-Same voters (v ∷ votes) t u s =
      tally-Same voters votes (tally_vote set_bit voters v.0 v.1 t)
        (tally_vote set_bit voters v.0 v.1 u) (tally_vote-Same voters v t u s)

  -- The loop over a map in two orders.
  pub tally-Permᴰ :
      (voters : List ℕ) (votes votes' : List (ℕ × MsgSign P)) (t : Tally B P)
      → Permᴰ votes votes'
      → proposers votes ≤ 1
      → Same (tally set_bit voters votes t) (tally set_bit voters votes' t)
  unfolding tally
  tally-Permᴰ voters _ _ t Permᴰ.nil h = Same-refl t
  tally-Permᴰ voters _ _ t (Permᴰ.cons {a} {b} {l₁} {l₂} e d) h =
      subst (λ x. Same (tally set_bit voters (a ∷ l₁) t) (tally set_bit voters (x ∷ l₂) t)) e
        (tally-Permᴰ voters l₁ l₂ (tally_vote set_bit voters a.0 a.1 t) d
          (omega (arith, h, proposers-rest a l₁)))
  tally-Permᴰ voters _ _ t (Permᴰ.swap {a} {b} {a'} {b'} {l} e f) h =
      subst (λ x. Same (tally set_bit voters (a ∷ b ∷ l) t) (tally set_bit voters (x ∷ b' ∷ l) t)) f
        (subst (λ y. Same (tally set_bit voters (a ∷ b ∷ l) t) (tally set_bit voters (b ∷ y ∷ l) t))
          e
          (tally-Same voters l
            (tally_vote set_bit voters b.0 b.1 (tally_vote set_bit voters a.0 a.1 t))
            (tally_vote set_bit voters a.0 a.1 (tally_vote set_bit voters b.0 b.1 t))
            (tally_vote-swap voters a b l t h)))
  tally-Permᴰ voters _ _ t (Permᴰ.trans {l₁} {l₂} {l₃} d d') h =
      Same-trans (tally set_bit voters l₁ t) (tally set_bit voters l₂ t) (tally set_bit voters l₃ t)
        (tally-Permᴰ voters l₁ l₂ t d h)
        (tally-Permᴰ voters l₂ l₃ t d' (subst (λ n. n ≤ 1) (proposers-Permᴰ l₁ l₂ d) h))

  build : ℕ × ℕ × ℕ × P × ℕ → B → List ℕ → Tally B P
  build x b sigs = record {
    proposer = x.0;
    epoch = x.1;
    sequence = x.2;
    body = x.3;
    proposer_sig = x.4;
    bits = b;
    vote_sig = sigs;
  }

  conclude-sigs :
      (aggregate : List ℕ → Option ℕ) (e : EpochVoter) (t : Tally B P) (sigs : List ℕ)
      → length t.vote_sig ≡ length sigs
      → aggregate (t.proposer_sig ∷ t.vote_sig) ≡ aggregate (t.proposer_sig ∷ sigs)
      → conclude aggregate e t ≡ conclude aggregate e (record t { vote_sig = sigs })
  unfolding conclude
  conclude-sigs aggregate e t sigs len agg = rw (len, agg) refl

  pub conclude-Same :
      (aggregate : List ℕ → Option ℕ) (e : EpochVoter)
      → ((xs ys : List ℕ) → Permᴰ xs ys → aggregate xs ≡ aggregate ys)
      → (t u : Tally B P) → Same t u
      → conclude aggregate e t ≡ conclude aggregate e u
  unfolding build
  conclude-Same aggregate e sum t u s =
      conclude-sigs aggregate e t u.vote_sig (Permᴰ-length t.vote_sig u.vote_sig s.2)
        (sum (t.proposer_sig ∷ t.vote_sig) (t.proposer_sig ∷ u.vote_sig) (Permᴰ.cons refl s.2))
      ∙ ap (λ x. conclude aggregate e (build x t.bits u.vote_sig)) s.0
      ∙ ap (λ b. conclude aggregate e (build (taken set_bit u) b u.vote_sig)) s.1

-- With bitmaps on which setting two bits commutes and an aggregate that does not depend on the order of signatures,
-- aggSigNewBlock returns the same result for every order of a map with at most one proposer's message.
pub agg_sig_new_block-Perm :
    {B : Type 0} (set_bit : ℕ → B → B) (no_bits : B) (aggregate : List ℕ → Option ℕ)
    → ((p q : ℕ) (b : B) → set_bit p (set_bit q b) ≡ set_bit q (set_bit p b))
    → ((xs ys : List ℕ) → Permᴰ xs ys → aggregate xs ≡ aggregate ys)
    → (e : EpochVoter) (votes votes' : List (ℕ × MsgSign NewBlock)) → Permᴰ votes votes'
    → proposers votes ≤ 1
    → agg_sig_new_block set_bit no_bits aggregate e (some votes)
      ≡ agg_sig_new_block set_bit no_bits aggregate e (some votes')
unfolding agg_sig_new_block
agg_sig_new_block-Perm set_bit no_bits aggregate comm sum e votes votes' perm one =
    let t =
      start_tally set_bit no_bits aggregate (record { start_block_number = 0; block_hash = [] }) in
    conclude-Same set_bit comm aggregate e sum (tally set_bit (voter_all e) votes t)
      (tally set_bit (voter_all e) votes' t)
      (tally-Permᴰ set_bit comm (voter_all e) votes votes' t perm one)
