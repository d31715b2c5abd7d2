-- ===== src/Select/Sub.antt =====
-- Selections from a list of UTXOs: sums, outpoints, and sublists.
use goat_relayer.Prelude.{
  ℕ, suc, zero, ◌+◌, ◌≤◌, ◌≡◌, refl, sym, ◌∙◌, ap, subst, ◌⊎◌, inl, inr, List, [], ◌∷◌, ◌++◌, arith,
  All, take, length,
}
use mathlib.Core.List.{Permᴰ}
use goat_relayer.Store.{Utxo}

-- The amounts of the UTXOs together.
abbrev pub total_of : List Utxo → ℕ
total_of [] = 0
total_of (u ∷ us) = u.amount + total_of us

-- Another outpoint.
abbrev pub Apart : Utxo → Utxo → Type 0
Apart u v = u.txid ≡ v.txid × u.out_index ≡ v.out_index → ⊥

pub Apart-sym : (u v : Utxo) → Apart u v → Apart v u
Apart-sym u v apart same = apart (sym same.0, sym same.1)

-- No outpoint stands twice in the list.
abbrev pub Distinct : List Utxo → Type 0
Distinct [] = Unit {0}
Distinct (u ∷ us) = All (Apart u) us × Distinct us

-- Some UTXOs of a list, in its order.
abbrev pub Sub : List Utxo → List Utxo → Type 0
Sub [] us = Unit {0}
Sub (x ∷ xs) [] = ⊥
Sub (x ∷ xs) (u ∷ us) = ((x ≡ u) × Sub xs us) ⊎ Sub (x ∷ xs) us

pub Sub-All : (P : Utxo → Type 0) (xs us : List Utxo) → Sub xs us → All P us → All P xs
Sub-All P [] us s h = tt
Sub-All P (x ∷ xs) [] s h = absurd s
Sub-All P (x ∷ xs) (u ∷ us) (inl here) h = (subst P (sym here.0) h.0, Sub-All P xs us here.1 h.1)
Sub-All P (x ∷ xs) (u ∷ us) (inr later) h = Sub-All P (x ∷ xs) us later h.1

pub Sub-Distinct : (xs us : List Utxo) → Sub xs us → Distinct us → Distinct xs
Sub-Distinct [] us s h = tt
Sub-Distinct (x ∷ xs) [] s h = absurd s
Sub-Distinct (x ∷ xs) (u ∷ us) (inl here) h = (
  Sub-All (Apart x) xs us here.1 (subst (λ v. All (Apart v) us) (sym here.0) h.0),
  Sub-Distinct xs us here.1 h.1,
)
Sub-Distinct (x ∷ xs) (u ∷ us) (inr later) h = Sub-Distinct (x ∷ xs) us later h.1

pub Sub-total_of : (xs us : List Utxo) → Sub xs us → total_of xs ≤ total_of us
Sub-total_of [] us s = omega arith
Sub-total_of (x ∷ xs) [] s = absurd s
Sub-total_of (x ∷ xs) (u ∷ us) (inl here) =
    let same : x.amount ≡ u.amount = ap (λ v. v.amount) here.0 in
    omega (arith, same, Sub-total_of xs us here.1)
Sub-total_of (x ∷ xs) (u ∷ us) (inr later) = omega (arith, Sub-total_of (x ∷ xs) us later)

pub take-Sub : (k : ℕ) (us : List Utxo) → Sub (take k us) us
take-Sub zero us = tt
take-Sub (suc k) [] = tt
take-Sub (suc k) (u ∷ us) = inl (refl, take-Sub k us)

pub total_of-append : (xs ys : List Utxo) → total_of (xs ++ ys) ≡ total_of xs + total_of ys
total_of-append [] ys = omega arith
total_of-append (x ∷ xs) ys = omega (arith, total_of-append xs ys)

-- A permutation keeps sums, predicates and distinctness.
pub Perm-total_of : (us vs : List Utxo) → Permᴰ us vs → total_of us ≡ total_of vs
Perm-total_of us vs Permᴰ.nil = refl
Perm-total_of us vs (Permᴰ.cons {a = a} {b = b} {l₁ = l₁} {l₂ = l₂} e p) =
    let same : a.amount ≡ b.amount = ap (λ v. v.amount) e in
    omega (arith, same, Perm-total_of l₁ l₂ p)
Perm-total_of us vs (Permᴰ.swap {a = a} {b = b} {a' = a'} {b' = b'} e f) =
    let first : a.amount ≡ b'.amount = ap (λ v. v.amount) e in
    let second : b.amount ≡ a'.amount = ap (λ v. v.amount) f in omega arith
Perm-total_of us vs (Permᴰ.trans {l₂ = ws} p q) = Perm-total_of us ws p ∙ Perm-total_of ws vs q

pub Perm-length : (us vs : List Utxo) → Permᴰ us vs → length us ≡ length vs
Perm-length us vs Permᴰ.nil = refl
Perm-length us vs (Permᴰ.cons {l₁ = l₁} {l₂ = l₂} e p) = omega (arith, Perm-length l₁ l₂ p)
Perm-length us vs (Permᴰ.swap e f) = refl
Perm-length us vs (Permᴰ.trans {l₂ = ws} p q) = Perm-length us ws p ∙ Perm-length ws vs q

pub Perm-All : (P : Utxo → Type 0) (us vs : List Utxo) → Permᴰ us vs → All P us → All P vs
Perm-All P us vs Permᴰ.nil h = h
Perm-All P us vs (Permᴰ.cons {l₁ = l₁} {l₂ = l₂} e p) h = (subst P e h.0, Perm-All P l₁ l₂ p h.1)
Perm-All P us vs (Permᴰ.swap e f) h = (subst P f h.1.0, (subst P e h.0, h.1.1))
Perm-All P us vs (Permᴰ.trans {l₂ = ws} p q) h = Perm-All P ws vs q (Perm-All P us ws p h)

pub Perm-Distinct : (us vs : List Utxo) → Permᴰ us vs → Distinct us → Distinct vs
Perm-Distinct us vs Permᴰ.nil h = h
Perm-Distinct us vs (Permᴰ.cons {a = a} {l₁ = l₁} {l₂ = l₂} e p) h =
    (subst (λ v. All (Apart v) l₂) e (Perm-All (Apart a) l₁ l₂ p h.0), Perm-Distinct l₁ l₂ p h.1)
Perm-Distinct us vs (Permᴰ.swap {a = a} {b = b} {a' = a'} {b' = b'} {l = l} e f) h = (
  (
    subst (λ v. Apart a' v) e (subst (λ v. Apart v a) f (Apart-sym a b h.0.0)),
    subst (λ v. All (Apart v) l) f h.1.0,
  ),
  (subst (λ v. All (Apart v) l) e h.0.1, h.1.1),
)
Perm-Distinct us vs (Permᴰ.trans {l₂ = ws} p q) h = Perm-Distinct ws vs q (Perm-Distinct us ws p h)

pub All-append :
    (P : Utxo → Type 0) (us : List Utxo) (v : Utxo) → All P us → P v → All P (us ++ v ∷ [])
All-append P [] v h p = (p, tt)
All-append P (u ∷ us) v h p = (h.0, All-append P us v h.1 p)

-- A UTXO that is apart from all the others may stand behind them.
pub Distinct-append :
    (us : List Utxo) (v : Utxo) → Distinct us → All (λ u. Apart u v) us → Distinct (us ++ v ∷ [])
Distinct-append [] v h apart = (tt, tt)
Distinct-append (u ∷ us) v h apart =
    (All-append (Apart u) us v h.0 apart.0, Distinct-append us v h.1 apart.1)
