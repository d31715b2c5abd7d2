-- ===== src/Tests/Proofs.antt =====
-- Runs of internal/types/merkle.go and internal/types/utils.go on a block of three transactions, with a sum of
-- bytes in the place of SHA-256.
use goat_relayer.Prelude.{
  ℕ, ◌+◌, ◌*◌, ◌%◌, ◌^◌, ◌≤◌, ◌<◌, ◌≡◌, refl, subst, ◌↔◌, ◌⊎◌, List, [], ◌∷◌, ◌++◌, true, Option,
  some, length, keep, ◌&&◌, ltb, replicate, arith, get_elem?,
}
use goat_relayer.Bytes.{Bytes, bytes_eq, copy_hash}
use goat_relayer.Merkle.{
  is_empty, double_sha256_sum, compute_parent_node, compute_merkle_root,
  compute_merkle_root_and_proof, climb, verify_proof, verify_raw_proof,
}
use goat_relayer.Merkle.Level.{AreHashes}
use goat_relayer.Merkle.Root.{root_and_proof-root, compute_merkle_root-some}
use goat_relayer.Merkle.Verify.{Opens, verify_proof_iff}
use goat_relayer.Merkle.Proof.{verify_proof-of-compute}
use goat_relayer.Merkle.Binding.{Collision, hashed, verify_proof-binds}
use goat_relayer.Merkle.Raw.{verify_raw_proof-agrees, concat}
use goat_relayer.Spv.{Txid, ok, generate_spv_proof, parse_all, build_merkle_root, verify_block_spv}
use goat_relayer.Spv.Build.{build_merkle_root-compute}
use goat_relayer.Spv.Generate.{generate_spv_proof-verifies, verify_block_spv-root}
use goat_relayer.Votes.{threshold}
use goat_relayer.Votes.Quorum.{threshold_iff, threshold-quorum}

abbrev sum_from : ℕ → Bytes → ℕ
sum_from n [] = n
sum_from n (b ∷ bs) = sum_from ((n * 3 + b) % 251) bs

-- 32 equal bytes.
abbrev toy_sha : Bytes → Bytes
toy_sha bs = replicate 32 (sum_from 7 bs)

toy_sha_32 : (bs : Bytes) → length (toy_sha bs) ≡ 32
toy_sha_32 bs = refl

abbrev toy_double : Bytes → Bytes
toy_double bs = toy_sha (toy_sha bs)

toy_double_lem : (bs : Bytes) → toy_double bs ≡ double_sha256_sum toy_sha bs
unfolding double_sha256_sum
toy_double_lem bs = refl

abbrev hash_of : ℕ → Bytes
hash_of n = replicate 32 n

abbrev three : List Bytes
three = hash_of 1 ∷ hash_of 2 ∷ hash_of 3 ∷ []

three-AreHashes : AreHashes three
three-AreHashes = (refl, (refl, (refl, tt)))

abbrev step_one : List Bytes
step_one = hash_of 2 ∷ []

abbrev root_two : Bytes
root_two = toy_double (hash_of 1 ++ hash_of 2)

step_one_valid : verify_proof toy_sha (hash_of 1) root_two 0 step_one ≡ true
unfolding verify_proof climb compute_parent_node double_sha256_sum copy_hash bytes_eq is_empty
step_one_valid = refl

root_and_proof-root_example :
    (compute_merkle_root_and_proof toy_sha three 2 []).0 ≡ compute_merkle_root toy_sha three
root_and_proof-root_example = root_and_proof-root toy_sha three 2 []

compute_merkle_root-some_example :
    (root : Bytes) × (compute_merkle_root toy_sha three ≡ some root) × (length root ≡ 32)
compute_merkle_root-some_example = compute_merkle_root-some toy_sha three (omega arith)

verify_proof_iff_example :
    (verify_proof toy_sha (hash_of 1) root_two 0 step_one ≡ true)
    ↔ Opens toy_sha (hash_of 1) 0 step_one root_two
verify_proof_iff_example = verify_proof_iff toy_sha (hash_of 1) root_two 0 step_one refl

verify_proof-of-compute_example :
    (root : Bytes) × (path : List Bytes) × (compute_merkle_root_and_proof toy_sha three 2 []
      ≡ (some root, path))
    × (verify_proof toy_sha (hash_of 3) root 2 path ≡ true)
    × (length three ≤ 2 ^ length path)
    × (2 ^ length path < 2 * length three)
    × AreHashes path
verify_proof-of-compute_example =
    verify_proof-of-compute toy_sha three 2 (hash_of 3) three-AreHashes refl

verify_proof-binds_example :
    ((hash_of 1 ≡ hash_of 1) × (step_one ≡ step_one))
    ⊎ Collision toy_sha
        (hashed toy_sha (hash_of 1) 0 step_one)
        (hashed toy_sha (hash_of 1) 0 step_one)
verify_proof-binds_example =
    verify_proof-binds toy_sha (hash_of 1) (hash_of 1) root_two 0 step_one step_one refl refl
      (refl, tt) (refl, tt) refl step_one_valid step_one_valid

verify_raw_proof-agrees_example :
    verify_raw_proof toy_sha (hash_of 1 ++ (concat step_one ++ root_two)) 0
    ≡ some (verify_proof toy_sha (hash_of 1) root_two 0 step_one)
verify_raw_proof-agrees_example =
    verify_raw_proof-agrees toy_sha toy_sha_32 (hash_of 1) root_two 0 step_one refl refl (refl, tt)

build_merkle_root-compute_example :
    build_merkle_root toy_double three ≡ compute_merkle_root toy_sha three
build_merkle_root-compute_example =
    build_merkle_root-compute toy_sha toy_double toy_sha_32 toy_double_lem three three-AreHashes

abbrev ids : List Txid
ids = 1 ∷ 2 ∷ 3 ∷ []

-- Every text parses, to a hash of its own.
abbrev toy_parse : Txid → Option Bytes
toy_parse n = some (hash_of n)

toy_parse_32 : (tx : Txid) (h : Bytes) → toy_parse tx ≡ some h → length h ≡ 32
toy_parse_32 tx h e = let same : hash_of tx ≡ h = cc in subst (λ x. length x ≡ 32) same refl

three_parsed : parse_all toy_parse ids ≡ some three
unfolding parse_all
three_parsed = refl

generate_spv_proof-verifies_example :
    (root : Bytes) × (steps : Bytes) × (i : ℕ) × (txid : Bytes) × (generate_spv_proof toy_sha
        toy_parse 3 ids
      ≡ ok (root, steps, i))
    × (get_elem? ids i ≡ some 3)
    × (i ≤ 2)
    × (toy_parse 3 ≡ some txid)
    × (compute_merkle_root toy_sha three ≡ some root)
    × (verify_raw_proof toy_sha (txid ++ (steps ++ root)) i ≡ some true)
generate_spv_proof-verifies_example =
    generate_spv_proof-verifies toy_sha toy_parse toy_sha_32 toy_parse_32 3 ids 2 three refl
      three_parsed

verify_block_spv-root_example :
    (verify_block_spv toy_double root_two three (hash_of 9) (hash_of 9) ≡ ok tt)
    ↔ ((compute_merkle_root toy_sha three ≡ some root_two) × (hash_of 9 ≡ hash_of 9))
verify_block_spv-root_example =
    verify_block_spv-root toy_sha toy_parse toy_sha_32 toy_parse_32 toy_double toy_double_lem
      root_two three (hash_of 9) (hash_of 9) three-AreHashes

threshold_iff_example : (threshold 7 ≤ 5) ↔ (2 * 7 ≤ 3 * 5)
threshold_iff_example = threshold_iff 7 5

five_of_seven : threshold 7 ≤ 5
unfolding threshold
five_of_seven = omega arith

abbrev seven_voters : List ℕ
seven_voters = 1 ∷ 2 ∷ 3 ∷ 4 ∷ 5 ∷ 6 ∷ 7 ∷ []

threshold-quorum_example :
    length seven_voters ≤ 3 * length (keep (λ v. ltb v 6 && ltb 1 v) seven_voters)
threshold-quorum_example =
    threshold-quorum seven_voters (λ v. ltb v 6) (λ v. ltb 1 v) five_of_seven
      (omega (arith, five_of_seven))
