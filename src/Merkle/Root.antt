-- ===== src/Merkle/Root.antt =====
-- internal/types/merkle.go: the two routines that compute a root.
use goat_relayer.Prelude.{
  ℕ, zero, suc, ◌+◌, ◌/◌, ◌≤◌, ◌<◌, ◌≡◌, refl, subst, List, [], ◌∷◌, some, length, arith,
}
use goat_relayer.Bytes.{Bytes, copy_hash, length-copy_hash}
use goat_relayer.Merkle.{
  pad_level, parents, root_from, compute_merkle_root, root_and_proof_from,
  compute_merkle_root_and_proof,
}
use goat_relayer.Merkle.Level.{
  length-pad_level, pad_level_even, length-parents, proof_level-parents,
}

module _ (sha256 : Bytes → Bytes) where
  -- A level of two or more hashes has half as many parents, rounded up.
  pub length-parents-pad_level :
      (xs : List Bytes) → length (parents sha256 (pad_level xs)) ≡ (length xs + 1) / 2
  length-parents-pad_level xs =
      omega (arith, length-parents sha256 (pad_level xs), length-pad_level xs)

  root_and_proof_from-root :
      (fuel : ℕ) (xs : List Bytes) (i : ℕ) (proof : List Bytes)
      → (root_and_proof_from sha256 fuel xs i proof).0 ≡ root_from sha256 fuel xs
  unfolding root_and_proof_from root_from
  root_and_proof_from-root zero xs i proof = refl
  root_and_proof_from-root (suc fuel) [] i proof = refl
  root_and_proof_from-root (suc fuel) (h ∷ []) i proof = refl
  root_and_proof_from-root (suc fuel) (h ∷ k ∷ rest) i proof =
      rw
        (
          pad_level_even (h ∷ k ∷ rest),
          ← proof_level-parents sha256 0 i (pad_level (h ∷ k ∷ rest)) [] proof 0,
        )
        (root_and_proof_from-root fuel _ _ _)

  -- The routine that also gathers a proof computes the root of the plain routine, for every
  -- transaction index and every contents of the proof slice.
  pub root_and_proof-root :
      (xs : List Bytes) (i : ℕ) (proof : List Bytes)
      → (compute_merkle_root_and_proof sha256 xs i proof).0 ≡ compute_merkle_root sha256 xs
  unfolding compute_merkle_root_and_proof compute_merkle_root
  root_and_proof-root xs i proof = root_and_proof_from-root (length xs) xs i proof

  root_from-some :
      (fuel : ℕ) (xs : List Bytes)
      → 0 < length xs
      → length xs ≤ fuel
      → (root : Bytes) × (root_from sha256 fuel xs ≡ some root) × (length root ≡ 32)
  unfolding root_from
  root_from-some zero xs pos h = absurd (omega arith)
  root_from-some (suc fuel) [] pos h = absurd (omega arith)
  root_from-some (suc fuel) (x ∷ []) pos h = (copy_hash x, refl, length-copy_hash x)
  root_from-some (suc fuel) (x ∷ y ∷ xs) pos h =
      let halved = length-parents-pad_level (x ∷ y ∷ xs) in
      rw (pad_level_even (x ∷ y ∷ xs)) (
        root_from-some fuel (parents sha256 (pad_level (x ∷ y ∷ xs))) (omega (arith, halved))
          (omega (arith, halved)))

  -- The root of a block with a transaction is a whole hash: the recursion does not run out, and no level
  -- has an odd length, at which the loop over its pairs would panic.
  pub compute_merkle_root-some :
      (xs : List Bytes)
      → 0 < length xs
      → (root : Bytes) × (compute_merkle_root sha256 xs ≡ some root) × (length root ≡ 32)
  unfolding compute_merkle_root
  compute_merkle_root-some xs pos = root_from-some (length xs) xs pos (omega arith)

  -- A root that is computed is a whole hash.
  pub compute_merkle_root-IsHash :
      (xs : List Bytes) (root : Bytes)
      → 0 < length xs
      → compute_merkle_root sha256 xs ≡ some root
      → length root ≡ 32
  compute_merkle_root-IsHash xs root pos e =
      let (root', e', whole) = compute_merkle_root-some xs pos in
      let same : root' ≡ root = cc (e, e') in subst (λ r. length r ≡ 32) same whole
