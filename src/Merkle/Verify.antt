-- ===== src/Merkle/Verify.antt =====
-- internal/types/merkle.go: what `VerifyProof` decides.
use goat_relayer.Prelude.{
  ℕ, ◌+◌, ◌*◌, ◌/◌, ◌%◌, ◌≡◌, refl, subst, ◌↔◌, inl, inr, List, [], ◌∷◌, true, false, length, arith,
  ◌==◌, ◌&&◌, Bool-cases,
}
use goat_relayer.Bytes.{Bytes, bytes_eq, bytes_eq_iff, copy_hash-eq_self}
use goat_relayer.Merkle.{is_empty, compute_parent_node, climb, verify_proof}

module _ (sha256 : Bytes → Bytes) where
  -- The shortcut for a block of one transaction does not change the answer.
  shortcut_agrees :
      (txid root : Bytes) (i : ℕ) (path : List Bytes)
      → (bytes_eq txid root && (i == 0 && is_empty path)) ≡ true
      → climb sha256 txid i path ≡ root
  unfolding climb is_empty
  shortcut_agrees txid root i [] h = ground (arith, bytes_eq_iff txid root)
  shortcut_agrees txid root i (s ∷ path) h = ground arith

  pub verify_proof-climb :
      (txid root : Bytes) (i : ℕ) (path : List Bytes)
      → length txid ≡ 32
      → (verify_proof sha256 txid root i path ≡ true) ↔ (climb sha256 txid i path ≡ root)
  unfolding verify_proof
  verify_proof-climb txid root i path h =
      let whole = copy_hash-eq_self txid h in
      elim (Bool-cases (bytes_eq txid root && (i == 0 && is_empty path))) [
        | inl short ↦ rw short (λ _. shortcut_agrees txid root i path short, λ _. refl)
        | inr long ↦ rw (long, whole) (bytes_eq_iff _ root)
      ]

  -- A path from a node of a Merkle tree to the root: the node at position `2 * k` of a level is the left child of
  -- the node at position `k` of the next level, and the one at `2 * k + 1` is its right child.
  pub data Opens : Bytes → ℕ → List Bytes → Bytes → Type 0 where
    at_root : {root : Bytes} {i : ℕ} → Opens root i [] root
    left_child :
        {x s root : Bytes} {path : List Bytes} (k : ℕ) {i : ℕ}
        → i ≡ 2 * k
        → Opens (compute_parent_node sha256 x s) k path root
        → Opens x i (s ∷ path) root
    right_child :
        {x s root : Bytes} {path : List Bytes} (k : ℕ) {i : ℕ}
        → i ≡ 2 * k + 1
        → Opens (compute_parent_node sha256 s x) k path root
        → Opens x i (s ∷ path) root

  Opens-climb :
      (x root : Bytes) (i : ℕ) (path : List Bytes)
      → Opens x i path root
      → climb sha256 x i path ≡ root
  unfolding climb
  Opens-climb x root i _ at_root = refl
  Opens-climb x root i (s ∷ path) (left_child k e up) =
      let even : (i % 2 == 0) ≡ true = ground (arith, e) in
      let half : i / 2 ≡ k = omega (arith, e) in rw (even, half) (Opens-climb _ root k path up)
  Opens-climb x root i (s ∷ path) (right_child k e up) =
      let odd : (i % 2 == 0) ≡ false = ground (arith, e) in
      let half : i / 2 ≡ k = omega (arith, e) in rw (odd, half) (Opens-climb _ root k path up)

  climb-Opens :
      (x root : Bytes) (i : ℕ) (path : List Bytes)
      → climb sha256 x i path ≡ root
      → Opens x i path root
  unfolding climb
  climb-Opens x root i [] h = subst (λ r. Opens x i [] r) h at_root
  climb-Opens x root i (s ∷ path) h = elim (Bool-cases (i % 2 == 0)) [
    | inl even ↦
        left_child (i / 2) (ground (arith, even))
          (climb-Opens (compute_parent_node sha256 x s) root (i / 2) path (rw even at h))
    | inr odd ↦
        right_child (i / 2) (ground (arith, odd))
          (climb-Opens (compute_parent_node sha256 s x) root (i / 2) path (rw odd at h))
  ]

  -- For a whole hash, the proof is accepted exactly when the path opens the root at the index: from the hash,
  -- whose position the index is, each step joins the node with its sibling on the side that the position
  -- says, and halves the position, and the last node is the root.
  pub verify_proof_iff :
      (txid root : Bytes) (i : ℕ) (path : List Bytes)
      → length txid ≡ 32
      → (verify_proof sha256 txid root i path ≡ true) ↔ Opens txid i path root
  verify_proof_iff txid root i path h =
      let folds = verify_proof-climb txid root i path h in
      (λ v. climb-Opens txid root i path (folds.0 v), λ o. folds.1 (Opens-climb txid root i path o))
