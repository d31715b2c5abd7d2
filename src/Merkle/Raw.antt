-- ===== src/Merkle/Raw.antt =====
-- internal/types/merkle.go: `VerifyRawProof`, on the serialised form of a proof, beside `VerifyProof`.
use goat_relayer.Prelude.{
  ℕ, suc, ◌+◌, ◌-◌, ◌*◌, ◌/◌, ◌%◌, ◌<◌, ◌≡◌, refl, sym, ap, ◌∙◌, List, [], ◌∷◌, ◌++◌, some, length,
  take, drop, arith, ◌==◌, if◌then◌else◌, length-append, take-append_self, drop-append_self,
}
use mathlib.Core.List.{append_assoc}
use goat_relayer.Bytes.{Bytes, bytes_eq, copy_hash-eq_self}
use goat_relayer.Merkle.{
  double_sha256_sum, compute_parent_node, climb, verify_proof, raw_climb, verify_raw_proof,
}
use goat_relayer.Merkle.Level.{AreHashes, ==_true, ==_false}

-- `txid || intermediate nodes || root`, as the comment on `VerifyRawProof` lays it out.
abbrev pub concat : List Bytes → Bytes
concat [] = []
concat (h ∷ hs) = h ++ concat hs

length-concat : (hs : List Bytes) → AreHashes hs → length (concat hs) ≡ length hs * 32
length-concat [] h = omega arith
length-concat (x ∷ hs) h = omega (arith, length-append x (concat hs), length-concat hs h.1, h.0)

module _ (sha256 : Bytes → Bytes) (sha_32 : (bs : Bytes) → length (sha256 bs) ≡ 32) where
  double_is_parent :
      (l r : Bytes) → double_sha256_sum sha256 (l ++ r) ≡ compute_parent_node sha256 l r
  unfolding double_sha256_sum compute_parent_node
  double_is_parent l r = sym (copy_hash-eq_self _ (sha_32 _))

  raw_climb-climb :
      (current : Bytes) (i : ℕ) (path : List Bytes) (rest : Bytes)
      → AreHashes path
      → raw_climb sha256 (length path) current i (concat path ++ rest) ≡ climb sha256 current i path
  unfolding raw_climb climb
  raw_climb-climb current i [] rest h = refl
  raw_climb-climb current i (s ∷ path) rest h =
      let regroup = append_assoc s (concat path) rest in
      let first : take 32 (concat (s ∷ path) ++ rest) ≡ s =
        ap (take 32) regroup ∙ take-append_self s (concat path ++ rest) 32 h.0 in
      let others : drop 32 (concat (s ∷ path) ++ rest) ≡ concat path ++ rest =
        ap (drop 32) regroup ∙ drop-append_self s (concat path ++ rest) 32 h.0 in
      (λ j.
        raw_climb sha256 (length path)
          (if i % 2 == 0
            then double_sha256_sum sha256 (current ++ first j)
            else double_sha256_sum sha256 (first j ++ current))
          (i / 2) (others j))
      ∙ (λ j.
          raw_climb sha256 (length path)
            (if i % 2 == 0 then double_is_parent current s j else double_is_parent s current j)
            (i / 2) (concat path ++ rest))
      ∙ raw_climb-climb
          (if i % 2 == 0
            then compute_parent_node sha256 current s
            else compute_parent_node sha256 s current)
          (i / 2) path rest h.1

  -- With a path, `VerifyProof` has no shortcut.
  verify_proof_path :
      (txid root : Bytes) (i : ℕ) (s : Bytes) (path : List Bytes)
      → length txid ≡ 32
      → verify_proof sha256 txid root i (s ∷ path) ≡ bytes_eq (climb sha256 txid i (s ∷ path)) root
  unfolding verify_proof
  verify_proof_path txid root i s path ht = rw (copy_hash-eq_self txid ht) (ground arith)

  -- The tests and the offsets of a proof of `n + 2` hashes.
  verify_raw_proof_long :
      (p : Bytes) (i n : ℕ)
      → length p ≡ n * 32 + 64
      → 0 < n
      → verify_raw_proof sha256 p i
        ≡ some (bytes_eq (raw_climb sha256 n (take 32 p) i (drop 32 p)) (drop (n * 32 + 32) p))
  unfolding verify_raw_proof
  verify_raw_proof_long p i n e pos =
      rw
        (
          ==_true (length p % 32) 0 (omega arith),
          ==_false (length p) 64 (omega arith),
          ==_false (length p) 0 (omega arith),
        )
        (let count : length p / 32 - 2 ≡ n = omega arith in
          let offset : length p - 32 ≡ n * 32 + 32 = omega arith in
          λ j.
            some
              (bytes_eq (raw_climb sha256 (count j) (take 32 p) i (drop 32 p)) (drop (offset j) p)))

  -- With SHA-256 giving 32 bytes, `VerifyRawProof` on `txid || path || root` answers, and as
  -- `VerifyProof` does on the parts, for whole hashes, every path and every index.
  pub verify_raw_proof-agrees :
      (txid root : Bytes) (i : ℕ) (path : List Bytes)
      → length txid ≡ 32
      → length root ≡ 32
      → AreHashes path
      → verify_raw_proof sha256 (txid ++ (concat path ++ root)) i
        ≡ some (verify_proof sha256 txid root i path)
  unfolding verify_raw_proof verify_proof climb
  verify_raw_proof-agrees txid root i [] ht hr hp =
      rw
        (
          ==_true (length (txid ++ root) % 32) 0 (omega (arith, length-append txid root)),
          ==_true (length (txid ++ root)) 64 (omega (arith, length-append txid root)),
          take-append_self txid root 32 ht,
          drop-append_self txid root 32 ht,
          copy_hash-eq_self txid ht,
        )
        (ground arith)
  verify_raw_proof-agrees txid root i (s ∷ path) ht hr hp =
      let nodes = concat (s ∷ path) in
      let whole = length-concat (s ∷ path) hp in
      verify_raw_proof_long (txid ++ (nodes ++ root)) i (suc (length path))
        (omega (arith, length-append txid (nodes ++ root), length-append nodes root, whole))
        (omega arith)
      ∙ (λ j. some (
          bytes_eq
            (raw_climb sha256 (suc (length path)) (take-append_self txid (nodes ++ root) 32 ht j) i
              (drop-append_self txid (nodes ++ root) 32 ht j))
            (last_32 j)))
      ∙ (λ j. some (bytes_eq (raw_climb-climb txid i (s ∷ path) root hp j) root))
      ∙ ap some (sym (verify_proof_path txid root i s path ht))
    where
      last_32 : drop (suc (length path) * 32 + 32) (txid ++ (concat (s ∷ path) ++ root)) ≡ root
      last_32 =
          ap (drop (suc (length path) * 32 + 32)) (sym (append_assoc txid (concat (s ∷ path)) root))
          ∙ drop-append_self (txid ++ concat (s ∷ path)) root _
              (omega (arith, length-append txid (concat (s ∷ path)), length-concat (s ∷ path) hp))
