-- ===== src/Merkle.antt =====
-- internal/types/merkle.go: Merkle roots and inclusion proofs of a Bitcoin block.
-- A `*chainhash.Hash` that is not nil is its 32 bytes; a result that may be nil is an `Option`.
-- SHA-256 is the standard library's, the section's parameter.
pub mod Level
pub mod Root
pub mod Verify
pub mod Proof
pub mod Binding
pub mod Raw
use goat_relayer.Prelude.{
  ℕ, zero, suc, ◌+◌, ◌-◌, ◌/◌, ◌%◌, List, [], ◌∷◌, ◌++◌, Bool, true, false, ◌&&◌, ◌||◌, Option,
  none, some, length, ◌==◌, if◌then◌else◌, take, drop,
}
use goat_relayer.Bytes.{Bytes, bytes_eq, copy_hash}

-- The last element, which pads an odd level.
unfoldable pub last_or : Bytes → List Bytes → Bytes
last_or d [] = d
last_or d (x ∷ xs) = last_or x xs

-- `if len(txhs)%2 != 0 { txhs = append(txhs, last) }`.
unfoldable pub pad_level : List Bytes → List Bytes
unfolding last_or
pad_level txhs = if length txhs % 2 == 0 then txhs else txhs ++ copy_hash (last_or [] txhs) ∷ []

unfoldable pub is_empty : List Bytes → Bool
is_empty [] = true
is_empty (x ∷ xs) = false

module _ (sha256 : Bytes → Bytes) where
  -- The pooled hasher is reset before each write, so two runs of it are two hashes.
  unfoldable pub double_sha256_sum : Bytes → Bytes
  double_sha256_sum bs = let first = sha256 bs in sha256 first

  unfoldable pub compute_parent_node : Bytes → Bytes → Bytes
  unfolding copy_hash double_sha256_sum
  compute_parent_node left right =
      let combined = left ++ right in copy_hash (double_sha256_sum combined)

  -- The loop `for i := 0; i < len(txhs); i += 2` over the pairs of a level. On an odd level it panics at
  -- `txhs[i+1]`, which its callers below test for: `none` there is a nil root or a panic.
  unfoldable pub parents : List Bytes → List Bytes
  parents (left ∷ right ∷ rest) = compute_parent_node left right ∷ parents rest
  parents (left ∷ []) = []
  parents [] = []

  -- The recursion halves the level, so the level's length is fuel enough.
  unfoldable pub root_from : ℕ → List Bytes → Option Bytes
  root_from zero txhs = none
  root_from (suc fuel) [] = none
  root_from (suc fuel) (h ∷ []) = some (copy_hash h)
  root_from (suc fuel) (h ∷ k ∷ rest) =
      let level = pad_level (h ∷ k ∷ rest) in
      let root = root_from fuel (parents level) in if length level % 2 == 0 then root else none

  unfoldable pub compute_merkle_root : List Bytes → Option Bytes
  compute_merkle_root txhs = root_from (length txhs) txhs

  -- One pass of the loop of `ComputeMerkleRootAndProof`: `i` is the position of the pair, `acc` the
  -- parents so far. The result holds the parents, the proof, and the index of the parent.
  unfoldable pub proof_level :
      ℕ → ℕ → List Bytes → List Bytes → List Bytes → ℕ → List Bytes × List Bytes × ℕ
  proof_level i tx_index (left ∷ right ∷ rest) acc proof new_index =
      let acc' = acc ++ compute_parent_node left right ∷ [] in
      let hit = i == tx_index || i + 1 == tx_index in
      proof_level (i + 2) tx_index rest acc'
        (if hit then proof ++ copy_hash (if i == tx_index then right else left) ∷ [] else proof)
        (if hit then length acc' - 1 else new_index)
  proof_level i tx_index (left ∷ []) acc proof new_index = (acc, proof, new_index)
  proof_level i tx_index [] acc proof new_index = (acc, proof, new_index)

  -- The root, and the proof that the pointer argument holds at the end.
  unfoldable pub root_and_proof_from : ℕ → List Bytes → ℕ → List Bytes → Option Bytes × List Bytes
  root_and_proof_from zero txhs tx_index proof = (none, proof)
  root_and_proof_from (suc fuel) [] tx_index proof = (none, proof)
  root_and_proof_from (suc fuel) (h ∷ []) tx_index proof = (some (copy_hash h), proof)
  root_and_proof_from (suc fuel) (h ∷ k ∷ rest) tx_index proof =
      let level = pad_level (h ∷ k ∷ rest) in
      let pass = proof_level 0 tx_index level [] proof 0 in
      let root = root_and_proof_from fuel pass.0 pass.2 pass.1 in
      if length level % 2 == 0 then root else (none, pass.1)

  unfoldable pub compute_merkle_root_and_proof :
      List Bytes → ℕ → List Bytes → Option Bytes × List Bytes
  compute_merkle_root_and_proof txhs tx_index proof =
      root_and_proof_from (length txhs) txhs tx_index proof

  -- The loop of `VerifyProof`: the hash is folded with each step of the path.
  unfoldable pub climb : Bytes → ℕ → List Bytes → Bytes
  climb current tx_index [] = current
  climb current tx_index (sibling ∷ path) =
      climb
        (if tx_index % 2 == 0
          then compute_parent_node current sibling
          else compute_parent_node sibling current)
        (tx_index / 2) path

  unfoldable pub verify_proof : Bytes → Bytes → ℕ → List Bytes → Bool
  unfolding is_empty
  verify_proof txid root tx_index path =
      if bytes_eq txid root && (tx_index == 0 && is_empty path)
      then true
      else bytes_eq (climb (copy_hash txid) tx_index path) root

  -- The loop of `VerifyRawProof` over the hashes between the first 32 bytes and the last.
  unfoldable pub raw_climb : ℕ → Bytes → ℕ → Bytes → Bytes
  raw_climb zero current index rest = current
  raw_climb (suc n) current index rest =
      let next = take 32 rest in
      raw_climb n
        (if index % 2 == 0
          then double_sha256_sum (current ++ next)
          else double_sha256_sum (next ++ current))
        (index / 2) (drop 32 rest)

  -- `none` is the panic of `proof[:32]` on an empty slice.
  unfoldable pub verify_raw_proof : Bytes → ℕ → Option Bool
  verify_raw_proof proof index =
      if length proof % 32 == 0
      then if length proof == 64
        then some (bytes_eq (take 32 proof) (drop 32 proof))
        else if length proof == 0
        then none
        else some (
            bytes_eq (raw_climb (length proof / 32 - 2) (take 32 proof) index (drop 32 proof))
              (drop (length proof - 32) proof))
      else some false
