-- ===== src/Bytes.antt =====
-- Byte slices as lists of numbers: `bytes.Equal`, and the fixed arrays of 32 bytes
-- (`chainhash.Hash`) that internal/types/merkle.go fills by `copy`.
use goat_relayer.Prelude.{
  ℕ, zero, suc, ◌≤◌, ◌≡◌, refl, ap, ◌↔◌, List, [], ◌∷◌, ◌++◌, Bool, true, false, ◌&&◌, ◌==◌, length,
  take, replicate, arith, take-append_self,
}

abbrev pub Bytes : Type 0
Bytes = List ℕ

-- `bytes.Equal`, and the comparison of two hashes.
unfoldable pub bytes_eq : Bytes → Bytes → Bool
bytes_eq [] [] = true
bytes_eq [] (y ∷ ys) = false
bytes_eq (x ∷ xs) [] = false
bytes_eq (x ∷ xs) (y ∷ ys) = x == y && bytes_eq xs ys

pub bytes_eq_iff : (xs ys : Bytes) → (bytes_eq xs ys ≡ true) ↔ (xs ≡ ys)
unfolding bytes_eq
bytes_eq_iff [] [] = ground arith
bytes_eq_iff [] (y ∷ ys) = ground arith
bytes_eq_iff (x ∷ xs) [] = ground arith
bytes_eq_iff (x ∷ xs) (y ∷ ys) = ground (arith, bytes_eq_iff xs ys)

pub bytes_eq_refl : (xs : Bytes) → bytes_eq xs xs ≡ true
bytes_eq_refl xs = (bytes_eq_iff xs xs).1 refl

-- A hash is an array of 32 bytes.
abbrev pub hash_size : ℕ
hash_size = 32

-- `new(chainhash.Hash)` followed by `copy(h[:], bs)`: short sources leave zeros, long ones are cut.
unfoldable pub copy_hash : Bytes → Bytes
copy_hash bs = take hash_size (bs ++ replicate hash_size 0)

pub copy_hash-eq_self : (bs : Bytes) → length bs ≡ 32 → copy_hash bs ≡ bs
unfolding copy_hash
copy_hash-eq_self bs h = take-append_self bs _ 32 h

length-take-append : (bs zs : Bytes) (n : ℕ) → n ≤ length zs → length (take n (bs ++ zs)) ≡ n
length-take-append bs zs zero h = refl
length-take-append [] [] (suc n) h = absurd (omega arith)
length-take-append [] (z ∷ zs) (suc n) h = ap suc (length-take-append [] zs n (omega arith))
length-take-append (b ∷ bs) zs (suc n) h = ap suc (length-take-append bs zs n (omega arith))

-- Whatever is copied, the array has its 32 bytes.
pub length-copy_hash : (bs : Bytes) → length (copy_hash bs) ≡ 32
unfolding copy_hash
length-copy_hash bs = length-take-append bs (replicate 32 0) 32 (omega arith)
