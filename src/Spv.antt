-- ===== src/Spv.antt =====
-- internal/types/utils.go: the proof of a transaction in a block (`GenerateSPVProof`), the check of a
-- block (`VerifyBlockSPV`) and its own Merkle loop (`buildMerkleRoot`).
-- Transaction ids in hexadecimal are only compared and parsed: a `Txid` stands for such a text.
-- `chainhash.NewHashFromStr` and `chainhash.DoubleHashH` are parameters.
pub mod Build
pub mod Generate
use goat_relayer.Prelude.{
  ℕ, zero, suc, ◌+◌, List, [], ◌∷◌, ◌++◌, Bool, true, false, Option, none, some, length, ◌==◌,
  if◌then◌else◌,
}
use goat_relayer.Bytes.{Bytes, bytes_eq}
use goat_relayer.Merkle.{compute_merkle_root_and_proof}

abbrev pub Txid : Type 0
Txid = ℕ

pub data SpvError : Type 0 where
  not_in_block bad_hash nil_root merkle_mismatch hash_mismatch : SpvError

pub data SpvResult {ℓ} (A : Type ℓ) : Type ℓ where
  ok : A → SpvResult A
  err : SpvError → SpvResult A

-- The position of the first match; `none` is the source's -1.
unfoldable pub tx_position : Txid → List Txid → ℕ → Option ℕ
tx_position tx [] i = none
tx_position tx (h ∷ hs) i = let rest = tx_position tx hs (i + 1) in if h == tx then some i else rest

-- All the texts parsed, or none.
unfoldable pub parse_all : (Txid → Option Bytes) → List Txid → Option (List Bytes)
parse_all parse [] = some []
parse_all parse (h ∷ hs) = elim (parse h) [
  | none ↦ none
  | some bs ↦ elim (parse_all parse hs) [ none ↦ none | some rest ↦ some (bs ∷ rest) ]
]

-- The buffer that the steps of the proof are written to.
unfoldable pub serialize : List Bytes → Bytes
serialize [] = []
serialize (p ∷ ps) = p ++ serialize ps

module _ (sha256 : Bytes → Bytes) (parse : Txid → Option Bytes) where
  unfoldable pub root_bytes : Option Bytes × List Bytes → ℕ → SpvResult (Bytes × Bytes × ℕ)
  root_bytes (none, proof) i = err nil_root
  root_bytes (some root, proof) i = ok (root, serialize proof, i)

  unfoldable pub generate_spv_proof : Txid → List Txid → SpvResult (Bytes × Bytes × ℕ)
  unfolding root_bytes
  generate_spv_proof tx txs = elim (tx_position tx txs 0) [
    | none ↦ err not_in_block
    | some i ↦ elim (parse_all parse txs) [
      | none ↦ err bad_hash
      | some hashes ↦ root_bytes (compute_merkle_root_and_proof sha256 hashes i []) i
    ]
  ]

-- A nil hash is equal to no hash.
unfoldable pub same_root : Option Bytes → Bytes → Bool
same_root none root = false
same_root (some actual) root = bytes_eq actual root

module _ (double_hash_h : Bytes → Bytes) where
  -- One round of the loop: an odd last hash is combined with itself.
  unfoldable pub new_level : List Bytes → List Bytes
  new_level [] = []
  new_level (l ∷ []) = double_hash_h (l ++ l) ∷ []
  new_level (l ∷ r ∷ rest) = double_hash_h (l ++ r) ∷ new_level rest

  -- `for len(txHashes) > 1`, on fuel; `none` for an empty list is the source's nil.
  unfoldable pub build_from : ℕ → List Bytes → Option Bytes
  build_from zero hashes = none
  build_from (suc fuel) [] = none
  build_from (suc fuel) (h ∷ []) = some h
  build_from (suc fuel) (h ∷ k ∷ rest) = build_from fuel (new_level (h ∷ k ∷ rest))

  unfoldable pub build_merkle_root : List Bytes → Option Bytes
  build_merkle_root hashes = build_from (length hashes) hashes

  -- The hashes of the transactions, of the header and of the block are computed by the wire package.
  unfoldable pub verify_block_spv : Bytes → List Bytes → Bytes → Bytes → SpvResult (Unit {0})
  unfolding same_root
  verify_block_spv expected_root tx_hashes header_hash block_hash =
      if same_root (build_merkle_root tx_hashes) expected_root
      then if bytes_eq header_hash block_hash then ok tt else err hash_mismatch
      else err merkle_mismatch
