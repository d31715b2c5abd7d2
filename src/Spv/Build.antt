-- ===== src/Spv/Build.antt =====
-- internal/types: the loop of `buildMerkleRoot` beside the recursion of `ComputeMerkleRoot`.
use goat_relayer.Prelude.{
  ℕ, zero, suc, ◌%◌, ◌≡◌, refl, sym, ap, ◌∙◌, List, [], ◌∷◌, ◌++◌, some, length, arith, ◌==◌,
  Bool-cases, inl, inr,
}
use goat_relayer.Bytes.{Bytes, copy_hash-eq_self}
use goat_relayer.Merkle.{
  double_sha256_sum, compute_parent_node, pad_level, parents, root_from, compute_merkle_root,
  last_or,
}
use goat_relayer.Merkle.Level.{AreHashes, pad_level_even, parents-AreHashes}
use goat_relayer.Spv.{new_level, build_from, build_merkle_root}

pad_level-cons :
    (l r x : Bytes) (xs : List Bytes) → pad_level (l ∷ r ∷ x ∷ xs) ≡ l ∷ r ∷ pad_level (x ∷ xs)
unfolding pad_level last_or
pad_level-cons l r x xs =
    let parity : length (l ∷ r ∷ x ∷ xs) % 2 ≡ length (x ∷ xs) % 2 = omega arith in
    rw parity
      (elim (Bool-cases (length (x ∷ xs) % 2 == 0)) [ inl even ↦ rw even | inr odd ↦ rw odd ])

module _ (sha256 double_hash_h : Bytes → Bytes) (sha_32 : (bs : Bytes) → length (sha256 bs) ≡ 32)
    (double_hash_h-double : (bs : Bytes) → double_hash_h bs ≡ double_sha256_sum sha256 bs) where
  double_is_parent : (l r : Bytes) → double_hash_h (l ++ r) ≡ compute_parent_node sha256 l r
  unfolding double_sha256_sum compute_parent_node
  double_is_parent l r = double_hash_h-double (l ++ r) ∙ sym (copy_hash-eq_self _ (sha_32 _))

  -- The parents of a level whose odd last hash is doubled.
  abbrev padded_parents : List Bytes → List Bytes
  padded_parents xs = parents sha256 (pad_level xs)

  new_level-parents :
      (x : Bytes) (xs : List Bytes)
      → AreHashes (x ∷ xs)
      → new_level double_hash_h (x ∷ xs) ≡ padded_parents (x ∷ xs)
  unfolding new_level parents pad_level last_or
  new_level-parents x [] hs = rw (copy_hash-eq_self x hs.0, double_is_parent x x)
  new_level-parents x (r ∷ []) hs = rw (double_is_parent x r)
  new_level-parents x (r ∷ y ∷ ys) hs =
      (λ j. double_is_parent x r j ∷ new_level-parents y ys hs.1.1 j)
      ∙ sym (ap (parents sha256) (pad_level-cons x r y ys))

  build_from-root_from :
      (fuel : ℕ) (xs : List Bytes)
      → AreHashes xs
      → build_from double_hash_h fuel xs ≡ root_from sha256 fuel xs
  unfolding build_from root_from
  build_from-root_from zero xs hs = refl
  build_from-root_from (suc fuel) [] hs = refl
  build_from-root_from (suc fuel) (x ∷ []) hs = ap some (sym (copy_hash-eq_self x hs.0))
  build_from-root_from (suc fuel) (x ∷ y ∷ xs) hs =
      ap (build_from double_hash_h fuel) (new_level-parents x (y ∷ xs) hs)
      ∙ rw (pad_level_even (x ∷ y ∷ xs)) (build_from-root_from fuel _ (parents-AreHashes sha256 _))

  -- With SHA-256 giving 32 bytes and `DoubleHashH` being SHA-256 twice, the iterative routine that
  -- checks a block and the recursive routine that proves a transaction compute the same root, for
  -- every list of whole hashes.
  pub build_merkle_root-compute :
      (xs : List Bytes)
      → AreHashes xs
      → build_merkle_root double_hash_h xs ≡ compute_merkle_root sha256 xs
  unfolding build_merkle_root compute_merkle_root
  build_merkle_root-compute xs hs = build_from-root_from (length xs) xs hs
