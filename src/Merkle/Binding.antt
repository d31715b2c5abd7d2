-- ===== src/Merkle/Binding.antt =====
-- internal/types/merkle.go: two proofs at one index under one root, and collisions of the hash
-- function.
use mathlib.Core.List.{Memᴰ}
use goat_relayer.Prelude.{
  ℕ, ◌/◌, ◌%◌, ◌≡◌, ◌≢◌, refl, sym, ap, ◌∙◌, ◌⊎◌, inl, inr, List, [], ◌∷◌, ◌++◌, Bool, true, false,
  length, take, drop, arith, ◌==◌, if◌then◌else◌, Bool-cases, take-append_self, drop-append_self,
}
use goat_relayer.Bytes.{Bytes, copy_hash, bytes_eq, bytes_eq_iff, length-copy_hash}
use goat_relayer.Merkle.{double_sha256_sum, compute_parent_node, climb, verify_proof}
use goat_relayer.Merkle.Level.{AreHashes}
use goat_relayer.Merkle.Verify.{verify_proof-climb}

-- A node and its sibling, in the order that the position of the node says.
abbrev pub joined : ℕ → Bytes → Bytes → Bytes
joined i x s = if i % 2 == 0 then x ++ s else s ++ x

append_binds :
    (a b c d : Bytes) → length a ≡ 32 → length c ≡ 32 → a ++ b ≡ c ++ d → (a ≡ c) × (b ≡ d)
append_binds a b c d h k e = (
  sym (take-append_self a b 32 h) ∙ ap (take 32) e ∙ take-append_self c d 32 k,
  sym (drop-append_self a b 32 h) ∙ ap (drop 32) e ∙ drop-append_self c d 32 k,
)

joined_binds :
    (b : Bool) (x s y s' : Bytes)
    → length x ≡ 32
    → length s ≡ 32
    → length y ≡ 32
    → length s' ≡ 32
    → (if b then x ++ s else s ++ x) ≡ (if b then y ++ s' else s' ++ y)
    → (x ≡ y) × (s ≡ s')
joined_binds true x s y s' hx hs hy hs' e = append_binds x s y s' hx hy e
joined_binds false x s y s' hx hs hy hs' e =
    let both = append_binds s x s' y hs hs' e in (both.1, both.0)

module _ (sha256 : Bytes → Bytes) where
  -- The hash of two joined nodes.
  abbrev pub parent : Bytes → Bytes
  parent bs = copy_hash (double_sha256_sum sha256 bs)

  -- What the loop of `VerifyProof` hashes on its way along the path.
  abbrev pub hashed : Bytes → ℕ → List Bytes → List Bytes
  hashed x i [] = []
  hashed x i (s ∷ path) = joined i x s ∷ hashed (parent (joined i x s)) (i / 2) path

  -- Two different byte strings, one that each run hashes, with one hash.
  abbrev pub Collision : List Bytes → List Bytes → Type 0
  Collision xs ys = (a b : Bytes) × Memᴰ a xs × Memᴰ b ys × (a ≢ b) × (parent a ≡ parent b)

  parent_joined :
      (b : Bool) (x s : Bytes)
      → (if b then compute_parent_node sha256 x s else compute_parent_node sha256 s x)
        ≡ parent (if b then x ++ s else s ++ x)
  unfolding compute_parent_node
  parent_joined true x s = refl
  parent_joined false x s = refl

  length-parent : (b : Bool) (x s : Bytes) → length (parent (if b then x ++ s else s ++ x)) ≡ 32
  length-parent b x s = length-copy_hash _

  climb_binds :
      (x y : Bytes) (i : ℕ) (path path' : List Bytes)
      → length x ≡ 32
      → length y ≡ 32
      → AreHashes path
      → AreHashes path'
      → length path ≡ length path'
      → climb sha256 x i path ≡ climb sha256 y i path'
      → ((x ≡ y) × (path ≡ path')) ⊎ Collision (hashed x i path) (hashed y i path')
  unfolding climb
  climb_binds x y i [] [] hx hy hs hs' e h = inl (h, refl)
  climb_binds x y i [] (s ∷ path') hx hy hs hs' e h = absurd (omega arith)
  climb_binds x y i (s ∷ path) [] hx hy hs hs' e h = absurd (omega arith)
  climb_binds x y i (s ∷ path) (s' ∷ path') hx hy hs hs' e h =
      let up = rw (parent_joined (i % 2 == 0) x s, parent_joined (i % 2 == 0) y s') at h in
      let a = joined i x s in
      let b = joined i y s' in
      elim (climb_binds (parent a) (parent b) (i / 2) path path' (length-parent (i % 2 == 0) x s)
        (length-parent (i % 2 == 0) y s') hs.1 hs'.1 (omega arith) up) [
          | inl (p, q) ↦ elim (Bool-cases (bytes_eq a b)) [
            | inl same ↦
                let both =
                  joined_binds (i % 2 == 0) x s y s' hx hs.0 hy hs'.0 ((bytes_eq_iff a b).0 same) in
                inl (both.0, cc (both.1, q))
            | inr other ↦ inr (
              a,
              b,
              Memᴰ.head refl,
              Memᴰ.head refl,
              (λ k. absurd (let same = (bytes_eq_iff a b).1 k in cc (same, other))),
              p,
            )
          ]
          | inr c ↦ inr (c.0, c.1, Memᴰ.tail c.2, Memᴰ.tail c.3, c.4, c.5)
        ]

  -- If two proofs of one length, of whole hashes, are accepted for whole hashes at one index under one root, then
  -- they are for the same transaction and are the same path, or the two runs hash two different byte
  -- strings to the same value.
  pub verify_proof-binds :
      (txid txid' root : Bytes) (i : ℕ) (path path' : List Bytes)
      → length txid ≡ 32
      → length txid' ≡ 32
      → AreHashes path
      → AreHashes path'
      → length path ≡ length path'
      → verify_proof sha256 txid root i path ≡ true
      → verify_proof sha256 txid' root i path' ≡ true
      → ((txid ≡ txid') × (path ≡ path')) ⊎ Collision (hashed txid i path) (hashed txid' i path')
  verify_proof-binds txid txid' root i path path' h h' hs hs' e v v' =
      climb_binds txid txid' i path path' h h' hs hs' e (
        (verify_proof-climb sha256 txid root i path h).0 v
        ∙ sym ((verify_proof-climb sha256 txid' root i path' h').0 v'))
