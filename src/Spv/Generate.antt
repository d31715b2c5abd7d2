-- ===== src/Spv/Generate.antt =====
-- internal/types/utils.go: the proof that `GenerateSPVProof` returns, and the blocks that
-- `VerifyBlockSPV` accepts.
use goat_relayer.Prelude.{
  ℕ, zero, suc, ◌+◌, ◌≤◌, ◌<◌, ◌≡◌, refl, sym, ap, ◌∙◌, ◌↔◌, inl, inr, List, [], ◌∷◌, ◌++◌, true,
  Option, none, some, length, arith, ◌==◌, ==_iff, get_elem?, Bool-cases, Option-cases,
}
use goat_relayer.Bytes.{Bytes, bytes_eq_iff}
use goat_relayer.Merkle.{
  double_sha256_sum, compute_merkle_root, compute_merkle_root_and_proof, verify_raw_proof,
}
use goat_relayer.Merkle.Level.{AreHashes, get_elem?-IsHash, ==_true}
use goat_relayer.Merkle.Root.{root_and_proof-root, compute_merkle_root-IsHash}
use goat_relayer.Merkle.Proof.{verify_proof-of-compute}
use goat_relayer.Merkle.Raw.{concat, verify_raw_proof-agrees}
use goat_relayer.Spv.{
  Txid, ok, tx_position, parse_all, serialize, generate_spv_proof, verify_block_spv, same_root,
  build_merkle_root,
}
use goat_relayer.Spv.Build.{build_merkle_root-compute}

-- The search finds the first of the places that hold the transaction.
tx_position-get :
    (tx : Txid) (txs : List Txid) (from k : ℕ)
    → get_elem? txs k ≡ some tx
    → (d : ℕ) × (tx_position tx txs from ≡ some (from + d)) × (get_elem? txs d ≡ some tx) × (d ≤ k)
unfolding tx_position
tx_position-get tx [] from k h = cc
tx_position-get tx (y ∷ txs) from zero h =
    let same : y ≡ tx = cc in (0, rw (==_true y tx same) (ap some (omega arith)), h, omega arith)
tx_position-get tx (y ∷ txs) from (suc k) h = elim (Bool-cases (y == tx)) [
  | inl hit ↦ (0, rw hit (ap some (omega arith)), ap some ((==_iff y tx).0 hit), omega arith)
  | inr miss ↦
      let (d, p, g, le) = tx_position-get tx txs (from + 1) k h in
      (suc d, rw miss (p ∙ ap some (omega arith)), g, omega arith)
]

module _ (parse : Txid → Option Bytes) where
  parse_all_inv :
      (y : Txid) (txs : List Txid) (hashes : List Bytes)
      → parse_all parse (y ∷ txs) ≡ some hashes
      → (b : Bytes) × (bs : List Bytes) × (hashes ≡ b ∷ bs)
        × (parse y ≡ some b)
        × (parse_all parse txs ≡ some bs)
  unfolding parse_all
  parse_all_inv y txs hashes e = elim (Option-cases (parse y)) [
    | inl bad ↦ absurd (ground (arith))
    | inr (b, p) ↦ elim (Option-cases (parse_all parse txs)) [
      | inl bad ↦ absurd (ground (arith))
      | inr (bs, q) ↦ (b, bs, ground arith, p, q)
    ]
  ]

  parse_all-get :
      (txs : List Txid) (hashes : List Bytes) (i : ℕ) (tx : Txid)
      → parse_all parse txs ≡ some hashes
      → get_elem? txs i ≡ some tx
      → (bs : Bytes) × (get_elem? hashes i ≡ some bs) × (parse tx ≡ some bs)
  parse_all-get [] hashes i tx e g = cc
  parse_all-get (y ∷ txs) hashes zero tx e g =
      let (b, bs, shape, p, q) = parse_all_inv y txs hashes e in
      let same : y ≡ tx = cc in (b, ap (λ l. get_elem? l 0) shape, ap parse (sym same) ∙ p)
  parse_all-get (y ∷ txs) hashes (suc i) tx e g =
      let (b, bs, shape, p, q) = parse_all_inv y txs hashes e in
      rw shape (parse_all-get txs bs i tx q g)

  parse_all-AreHashes :
      (txs : List Txid) (hashes : List Bytes)
      → ((tx : Txid) (h : Bytes) → parse tx ≡ some h → length h ≡ 32)
      → parse_all parse txs ≡ some hashes
      → AreHashes hashes
  unfolding parse_all
  parse_all-AreHashes [] [] whole e = tt
  parse_all-AreHashes [] (h ∷ hs) whole e = absurd cc
  parse_all-AreHashes (y ∷ txs) hashes whole e =
      let (b, bs, shape, p, q) = parse_all_inv y txs hashes e in
      rw shape (whole y b p, parse_all-AreHashes txs bs whole q)

same_root_iff : (o : Option Bytes) (root : Bytes) → (same_root o root ≡ true) ↔ (o ≡ some root)
unfolding same_root
same_root_iff none root = ground arith
same_root_iff (some actual) root = ground (arith, bytes_eq_iff actual root)

serialize-concat : (path : List Bytes) → serialize path ≡ concat path
unfolding serialize
serialize-concat [] = refl
serialize-concat (p ∷ path) = ap (◌++◌ p) (serialize-concat path)

nonempty_of_get {ℓ} :
    {A : Type ℓ} (xs : List A) (i : ℕ) {a : A} → get_elem? xs i ≡ some a → 0 < length xs
nonempty_of_get [] i h = cc
nonempty_of_get (x ∷ xs) i h = omega arith

module _ (sha256 : Bytes → Bytes) (parse : Txid → Option Bytes)
    (sha_32 : (bs : Bytes) → length (sha256 bs) ≡ 32)
    (parse_32 : (tx : Txid) (h : Bytes) → parse tx ≡ some h → length h ≡ 32) where
  generated :
      (tx : Txid) (txs : List Txid) (i : ℕ) (hashes : List Bytes) (root : Bytes) (path : List Bytes)
      → tx_position tx txs 0 ≡ some i
      → parse_all parse txs ≡ some hashes
      → compute_merkle_root_and_proof sha256 hashes i [] ≡ (some root, path)
      → generate_spv_proof sha256 parse tx txs ≡ ok (root, serialize path, i)
  unfolding generate_spv_proof
  generated tx txs i hashes root path p q r = ground arith

  -- With SHA-256 and the parser giving 32 bytes: for a transaction of the block, and if all ids of
  -- the block parse, `GenerateSPVProof` succeeds with the first index that holds the transaction, with the
  -- root that `ComputeMerkleRoot` computes, and with steps such that `VerifyRawProof` accepts
  -- `txid || steps || root` at this index.
  pub generate_spv_proof-verifies :
      (tx : Txid) (txs : List Txid) (k : ℕ) (hashes : List Bytes)
      → get_elem? txs k ≡ some tx
      → parse_all parse txs ≡ some hashes
      → (root : Bytes) × (steps : Bytes) × (i : ℕ) × (txid : Bytes) × (generate_spv_proof sha256
            parse tx txs
          ≡ ok (root, steps, i))
        × (get_elem? txs i ≡ some tx)
        × (i ≤ k)
        × (parse tx ≡ some txid)
        × (compute_merkle_root sha256 hashes ≡ some root)
        × (verify_raw_proof sha256 (txid ++ (steps ++ root)) i ≡ some true)
  generate_spv_proof-verifies tx txs k hashes g e =
      let (i, found, at, le) = tx_position-get tx txs 0 k g in
      let (txid, here, parsed) = parse_all-get parse txs hashes i tx e at in
      let whole = parse_all-AreHashes parse txs hashes parse_32 e in
      let (root, path, run, valid, _, _, steps) =
        verify_proof-of-compute sha256 hashes i txid whole here in
      let computed : compute_merkle_root sha256 hashes ≡ some root =
        sym (root_and_proof-root sha256 hashes i []) ∙ ap (λ r. r.0) run in
      let root_32 =
        compute_merkle_root-IsHash sha256 hashes root (nonempty_of_get hashes i here) computed in
      (
        root,
        serialize path,
        i,
        txid,
        generated tx txs i hashes root path (found ∙ ap some (omega arith)) e run,
        at,
        le,
        parsed,
        computed,
        ap (λ s. verify_raw_proof sha256 (txid ++ (s ++ root)) i) (serialize-concat path)
            ∙ verify_raw_proof-agrees sha256 sha_32 txid root i path
                (get_elem?-IsHash hashes i whole here) root_32 steps
            ∙ ap some valid,
      )

  -- In a block that `VerifyBlockSPV` accepts, with `DoubleHashH` being SHA-256 twice, the root of
  -- such a proof is the one in the header; a block whose hashes have another root is refused.
  pub verify_block_spv-root :
      (double_hash_h : Bytes → Bytes)
      → ((bs : Bytes) → double_hash_h bs ≡ double_sha256_sum sha256 bs)
      → (expected : Bytes) (hashes : List Bytes) (header_hash block_hash : Bytes) → AreHashes hashes
      → ((verify_block_spv double_hash_h expected hashes header_hash block_hash ≡ ok tt)
          ↔ ((compute_merkle_root sha256 hashes ≡ some expected) × (header_hash ≡ block_hash)))
  unfolding verify_block_spv
  verify_block_spv-root double_hash_h double expected hashes header_hash block_hash whole =
      let same = build_merkle_root-compute sha256 double_hash_h sha_32 double hashes whole in
      ground (
        arith,
        same,
        same_root_iff (build_merkle_root double_hash_h hashes) expected,
        bytes_eq_iff header_hash block_hash,
      )
