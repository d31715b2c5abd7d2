-- ===== src/Merkle/Level.antt =====
-- internal/types/merkle.go, one level of the tree: padding, the parents, and the pass that also records the sibling.
use goat_relayer.Prelude.{
  ℕ, zero, suc, ◌+◌, ◌-◌, ◌*◌, ◌/◌, ◌%◌, ◌<◌, ◌≡◌, ◌≢◌, refl, sym, subst, ◌∙◌, inl, inr, List, [],
  ◌∷◌, ◌++◌, true, false, some, length, ◌==◌, if◌then◌else◌, get_elem?, All, length-append, arith,
  Bool-cases,
}
use mathlib.Core.List.{append-nil, append_assoc}
use goat_relayer.Bytes.{Bytes, copy_hash, copy_hash-eq_self, length-copy_hash}
use goat_relayer.Merkle.{compute_parent_node, last_or, pad_level, parents, proof_level}

pub ==_false : (a b : ℕ) → a ≢ b → (a == b) ≡ false
==_false a b h = ground arith

pub ==_true : (a b : ℕ) → a ≡ b → (a == b) ≡ true
==_true a b h = ground arith

half_two_up : (d : ℕ) → suc (suc d) / 2 ≡ suc (d / 2)
half_two_up d = omega arith

mod_two_up : (d : ℕ) → suc (suc d) % 2 ≡ d % 2
mod_two_up d = omega arith

-- A list of whole hashes.
abbrev pub AreHashes : List Bytes → Type 0
AreHashes = All (λ h. length h ≡ 32)

last_or-IsHash :
    (d : Bytes) (xs : List Bytes) → length d ≡ 32 → AreHashes xs → length (last_or d xs) ≡ 32
unfolding last_or
last_or-IsHash d [] h hs = h
last_or-IsHash d (x ∷ xs) h hs = last_or-IsHash x xs hs.0 hs.1

All-append {ℓ κ} :
    {A : Type ℓ} (P : A → Type κ) (xs ys : List A) → All P xs → All P ys → All P (xs ++ ys)
All-append P [] ys hx hy = hy
All-append P (x ∷ xs) ys hx hy = (hx.0, All-append P xs ys hx.1 hy)

pub get_elem?-IsHash :
    (xs : List Bytes) (i : ℕ) {x : Bytes} → AreHashes xs → get_elem? xs i ≡ some x → length x ≡ 32
get_elem?-IsHash [] i hs h = cc
get_elem?-IsHash (y ∷ xs) zero {x} hs h =
    let same : y ≡ x = cc in subst (λ z. length z ≡ 32) same hs.0
get_elem?-IsHash (y ∷ xs) (suc i) hs h = get_elem?-IsHash xs i hs.1 h

pub get_elem?-append {ℓ} :
    {A : Type ℓ} (xs ys : List A) (i : ℕ) {a : A}
    → get_elem? xs i ≡ some a
    → get_elem? (xs ++ ys) i ≡ some a
get_elem?-append [] ys i h = cc
get_elem?-append (x ∷ xs) ys zero h = h
get_elem?-append (x ∷ xs) ys (suc i) h = get_elem?-append xs ys i h

-- An even length: the old one, or one more.
pub length-pad_level : (xs : List Bytes) → length (pad_level xs) ≡ 2 * ((length xs + 1) / 2)
unfolding pad_level
length-pad_level xs = elim (Bool-cases (length xs % 2 == 0)) [
  | inl even ↦ rw even (ground arith)
  | inr odd ↦ rw odd (ground (arith, length-append xs (copy_hash (last_or [] xs) ∷ [])))
]

-- So the loop over the pairs does not panic.
pub pad_level_even : (xs : List Bytes) → (length (pad_level xs) % 2 == 0) ≡ true
pad_level_even xs = ground (arith, length-pad_level xs)

pub pad_level-AreHashes :
    (x : Bytes) (xs : List Bytes) → AreHashes (x ∷ xs) → AreHashes (pad_level (x ∷ xs))
unfolding pad_level
pad_level-AreHashes x xs h = elim (Bool-cases (length (x ∷ xs) % 2 == 0)) [
  | inl even ↦ rw even h
  | inr odd ↦ rw odd (All-append _ (x ∷ xs) _ h (length-copy_hash _, tt))
]

pub get_elem?-pad_level :
    (xs : List Bytes) (i : ℕ) {a : Bytes}
    → get_elem? xs i ≡ some a
    → get_elem? (pad_level xs) i ≡ some a
unfolding pad_level
get_elem?-pad_level xs i h = elim (Bool-cases (length xs % 2 == 0)) [
  | inl even ↦ rw even h
  | inr odd ↦ rw odd (get_elem?-append xs _ i h)
]

module _ (sha256 : Bytes → Bytes) where
  pub length-compute_parent_node : (l r : Bytes) → length (compute_parent_node sha256 l r) ≡ 32
  unfolding compute_parent_node
  length-compute_parent_node l r = length-copy_hash _

  pub length-parents : (xs : List Bytes) → length (parents sha256 xs) ≡ length xs / 2
  unfolding parents
  length-parents [] = omega arith
  length-parents (l ∷ []) = omega arith
  length-parents (l ∷ r ∷ xs) = omega (arith, length-parents xs)

  pub parents-AreHashes : (xs : List Bytes) → AreHashes (parents sha256 xs)
  unfolding parents
  parents-AreHashes [] = tt
  parents-AreHashes (l ∷ []) = tt
  parents-AreHashes (l ∷ r ∷ xs) = (length-compute_parent_node l r, parents-AreHashes xs)

  -- The pass gathers the same parents, whatever index it looks for.
  pub proof_level-parents :
      (i t : ℕ) (xs acc proof : List Bytes) (new_index : ℕ)
      → (proof_level sha256 i t xs acc proof new_index).0 ≡ acc ++ parents sha256 xs
  unfolding proof_level parents
  proof_level-parents i t [] acc proof n = sym (append-nil acc)
  proof_level-parents i t (l ∷ []) acc proof n = sym (append-nil acc)
  proof_level-parents i t (l ∷ r ∷ xs) acc proof n =
      proof_level-parents (i + 2) t xs _ _ _ ∙ append_assoc acc _ _

  -- Behind the pair that it looks for, the pass keeps the proof and the index.
  proof_level_past :
      (i t : ℕ) (xs acc proof : List Bytes) (new_index : ℕ)
      → t < i
      → (proof_level sha256 i t xs acc proof new_index).1 ≡ proof
        × ((proof_level sha256 i t xs acc proof new_index).2 ≡ new_index)
  unfolding proof_level
  proof_level_past i t [] acc proof n h = (refl, refl)
  proof_level_past i t (l ∷ []) acc proof n h = (refl, refl)
  proof_level_past i t (l ∷ r ∷ xs) acc proof n h =
      rw (==_false i t (omega arith), ==_false (i + 1) t (omega arith))
        (proof_level_past (i + 2) t xs _ proof n (omega arith))

  -- What the pass leaves behind: one more step of the proof, the index of the parent, and at that
  -- index the parent of the hash and its sibling.
  abbrev pub Hits : ℕ → Bytes → List Bytes → ℕ → List Bytes → List Bytes × List Bytes × ℕ → Type 0
  Hits d x xs t proof result =
      (s : Bytes) × (length s ≡ 32)
      × (result.1 ≡ proof ++ s ∷ [])
      × (result.2 ≡ t / 2)
      × (get_elem? (parents sha256 xs) (d / 2)
          ≡ some (
              if d % 2 == 0
              then compute_parent_node sha256 x s
              else compute_parent_node sha256 s x))

  pub proof_level_hit :
      (i t d : ℕ) (x : Bytes) (xs acc proof : List Bytes) (n : ℕ)
      → t ≡ i + d
      → length acc * 2 ≡ i
      → AreHashes xs
      → length xs % 2 ≡ 0
      → get_elem? xs d ≡ some x
      → Hits d x xs t proof (proof_level sha256 i t xs acc proof n)
  unfolding proof_level parents
  proof_level_hit i t d x [] acc proof n e a hs even h = cc
  proof_level_hit i t d x (l ∷ []) acc proof n e a hs even h = absurd (omega arith)
  proof_level_hit i t zero x (l ∷ r ∷ xs) acc proof n e a hs even h =
      rw (==_true i t (omega arith)) (
        let past =
          proof_level_past (i + 2) t xs (acc ++ compute_parent_node sha256 l r ∷ [])
            (proof ++ copy_hash r ∷ []) (length (acc ++ compute_parent_node sha256 l r ∷ []) - 1)
            (omega arith) in
        (
          copy_hash r,
          length-copy_hash r,
          past.0,
          past.1 ∙ omega (arith, length-append acc (compute_parent_node sha256 l r ∷ [])),
          let same : l ≡ x = cc in rw (copy_hash-eq_self r hs.1.0, same) refl,
        ))
  proof_level_hit i t (suc zero) x (l ∷ r ∷ xs) acc proof n e a hs even h =
      rw (==_false i t (omega arith), ==_true (i + 1) t (omega arith))
        (let past =
            proof_level_past (i + 2) t xs (acc ++ compute_parent_node sha256 l r ∷ [])
              (proof ++ copy_hash l ∷ []) (length (acc ++ compute_parent_node sha256 l r ∷ []) - 1)
              (omega arith) in
          (
            copy_hash l,
            length-copy_hash l,
            past.0,
            past.1 ∙ omega (arith, length-append acc (compute_parent_node sha256 l r ∷ [])),
            let same : r ≡ x = cc in rw (copy_hash-eq_self l hs.0, same) refl,
          ))
  proof_level_hit i t (suc (suc d)) x (l ∷ r ∷ xs) acc proof n e a hs even h =
      let acc' = acc ++ compute_parent_node sha256 l r ∷ [] in
      let shifted : t ≡ i + 2 + d = omega arith in
      let longer : length acc' * 2 ≡ i + 2 =
        omega (arith, length-append acc (compute_parent_node sha256 l r ∷ [])) in
      let rest =
        proof_level_hit (i + 2) t d x xs acc' proof n shifted longer hs.1.1 (omega arith) h in
      rw (==_false i t (omega arith), ==_false (i + 1) t (omega arith))
        (rest.0, rest.1, rest.2, rest.3, rw (half_two_up d, mod_two_up d) rest.4)
