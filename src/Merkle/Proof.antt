-- ===== src/Merkle/Proof.antt =====
-- internal/types/merkle.go: the proofs of `ComputeMerkleRootAndProof` under `VerifyProof`.
use goat_relayer.Prelude.{
  ℕ, zero, suc, ◌+◌, ◌*◌, ◌/◌, ◌%◌, ◌^◌, ◌≤◌, ◌<◌, ◌≡◌, refl, sym, subst, ◌∙◌, List, [], ◌∷◌, ◌++◌,
  Option, true, some, length, get_elem?, arith,
}
use native.Mathlib.Nat.{pow-suc}
use mathlib.Core.List.{append-nil, append_assoc}
use goat_relayer.Bytes.{Bytes, copy_hash, copy_hash-eq_self}
use goat_relayer.Merkle.{
  pad_level, parents, root_and_proof_from, compute_merkle_root_and_proof, climb, verify_proof,
}
use goat_relayer.Merkle.Level.{
  AreHashes, get_elem?-IsHash, length-pad_level, pad_level-AreHashes, get_elem?-pad_level,
  pad_level_even, parents-AreHashes, proof_level-parents, proof_level_hit,
}
use goat_relayer.Merkle.Verify.{verify_proof-climb}
use goat_relayer.Merkle.Root.{length-parents-pad_level}

doubled_le : (k n m : ℕ) → m ≡ (n + 1) / 2 → m ≤ 2 ^ k → n ≤ 2 ^ suc k
doubled_le k n m e h = omega (arith, pow-suc 2 k)

doubled_lt : (k n m : ℕ) → 2 ≤ n → m ≡ (n + 1) / 2 → 2 ^ k < 2 * m → 2 ^ suc k < 2 * n
doubled_lt zero n m two e h = omega arith
doubled_lt (suc k) n m two e h = omega (arith, pow-suc 2 k, pow-suc 2 (suc k))

module _ (sha256 : Bytes → Bytes) where
  -- The result of a run on the hash `x` of index `i`: the proof slice grows by a path that leads
  -- from `x` to the root, of the height of the tree.
  abbrev pub Leads : List Bytes → ℕ → Bytes → List Bytes → Option Bytes × List Bytes → Type 0
  Leads xs i x proof result =
      (root : Bytes) × (path : List Bytes) × (result.0 ≡ some root)
      × (result.1 ≡ proof ++ path)
      × (climb sha256 x i path ≡ root)
      × (length xs ≤ 2 ^ length path)
      × (2 ^ length path < 2 * length xs)
      × AreHashes path

  has_path :
      (fuel : ℕ) (xs : List Bytes) (i : ℕ) (x : Bytes) (proof : List Bytes)
      → length xs ≤ fuel
      → AreHashes xs
      → get_elem? xs i ≡ some x
      → Leads xs i x proof (root_and_proof_from sha256 fuel xs i proof)
  unfolding root_and_proof_from climb
  has_path zero (y ∷ xs) i x proof h hs g = absurd (omega arith)
  has_path zero [] i x proof h hs g = cc
  has_path (suc fuel) [] i x proof h hs g = cc
  has_path (suc fuel) (y ∷ []) zero x proof h hs g =
      let same : x ≡ y = cc in
      (
        copy_hash y,
        [],
        refl,
        sym (append-nil proof),
        same ∙ sym (copy_hash-eq_self y hs.0),
        omega arith,
        omega arith,
        tt,
      )
  has_path (suc fuel) (y ∷ []) (suc i) x proof h hs g = cc
  has_path (suc fuel) (y ∷ z ∷ xs) i x proof h hs g =
      let padded = pad_level (y ∷ z ∷ xs) in
      let even : length padded % 2 ≡ 0 = omega (arith, length-pad_level (y ∷ z ∷ xs)) in
      let hit =
        proof_level_hit sha256 0 i i x padded [] proof 0 (omega arith) refl
          (pad_level-AreHashes y (z ∷ xs) hs) even (get_elem?-pad_level (y ∷ z ∷ xs) i g) in
      let halved = length-parents-pad_level sha256 (y ∷ z ∷ xs) in
      let rest =
        has_path fuel (parents sha256 padded) (i / 2) _ (proof ++ hit.0 ∷ [])
          (omega (arith, halved)) (parents-AreHashes sha256 padded) hit.4 in
      let step : root_and_proof_from sha256 (suc fuel) (y ∷ z ∷ xs) i proof
          ≡ root_and_proof_from sha256 fuel (parents sha256 padded) (i / 2) (proof ++ hit.0 ∷ []) =
        rw (pad_level_even (y ∷ z ∷ xs)) (λ j.
          root_and_proof_from sha256 fuel (proof_level-parents sha256 0 i padded [] proof 0 j)
            (hit.3 j) (hit.2 j)) in
      subst (Leads (y ∷ z ∷ xs) i x proof) (sym step) (
        rest.0,
        hit.0 ∷ rest.1,
        rest.2,
        rest.3 ∙ append_assoc proof _ _,
        rest.4,
        doubled_le (length rest.1) _ _ halved rest.5,
        doubled_lt (length rest.1) _ _ (omega arith) halved rest.6,
        (hit.1, rest.7),
      )

  -- A proof made for a transaction of a block verifies: for every list of hashes and every index in
  -- it, the run returns a root, and from an empty slice a path that leads from the hash at that
  -- index to this root by `VerifyProof`. With `n` hashes the path has the height of the tree, the
  -- least `k` with `n ≤ 2 ^ k`, and its steps are whole hashes.
  pub verify_proof-of-compute :
      (xs : List Bytes) (i : ℕ) (x : Bytes)
      → AreHashes xs
      → get_elem? xs i ≡ some x
      → (root : Bytes) × (path : List Bytes) × (compute_merkle_root_and_proof sha256 xs i []
          ≡ (some root, path))
        × (verify_proof sha256 x root i path ≡ true)
        × (length xs ≤ 2 ^ length path)
        × (2 ^ length path < 2 * length xs)
        × AreHashes path
  unfolding compute_merkle_root_and_proof
  verify_proof-of-compute xs i x hs g =
      let (root, path, r, p, c, up, low, steps) =
        has_path (length xs) xs i x [] (omega arith) hs g in
      (
        root,
        path,
        λ j. (r j, p j),
        (verify_proof-climb sha256 x root i path (get_elem?-IsHash xs i hs g)).1 c,
        up,
        low,
        steps,
      )
