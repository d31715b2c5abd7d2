-- ===== src/Table/Append.antt =====
-- A new row at the end of a table, and the members of one.
use mathlib.Core.List.{Memᴰ}
use goat_relayer.Prelude.{ℕ, suc, ◌<◌, ◌≡◌, refl, sym, subst, List, [], ◌∷◌, ◌++◌, arith, All}
use goat_relayer.Table.Evolve.{Evolves, All-map, Below, Ascending}

pub All-any {ℓ κ} : {A : Type ℓ} {P : A → Type κ} (xs : List A) → ((a : A) → P a) → All P xs
All-any [] f = tt
All-any (x ∷ xs) f = (f x, All-any xs f)

pub All-append {ℓ κ} :
    {A : Type ℓ} (P : A → Type κ) (xs : List A) (a : A) → All P xs → P a → All P (xs ++ a ∷ [])
All-append P [] a h p = (p, tt)
All-append P (x ∷ xs) a h p = (h.0, All-append P xs a h.1 p)

-- Members, and what holds of all.
pub Memᴰ-All : {A : Type 0} (Q : A → Type 0) (a : A) (xs : List A) → Memᴰ a xs → All Q xs → Q a
Memᴰ-All Q a [] m h = elim m [ ]
Memᴰ-All Q a (x ∷ xs) (Memᴰ.head e) h = subst Q (sym e) h.0
Memᴰ-All Q a (x ∷ xs) (Memᴰ.tail m) h = Memᴰ-All Q a xs m h.1

pub All-self : {A : Type 0} (xs : List A) → All (λ x. Memᴰ x xs) xs
All-self [] = tt
All-self (x ∷ xs) = (Memᴰ.head refl, All-map xs (λ y m. Memᴰ.tail m) (All-self xs))

module _ {R : Type 0} where
  pub Evolves-append :
      (Step : R → R → Type 0) → ((r : R) → Step r r) → (xs ys : List R) → Evolves Step xs (xs ++ ys)
  Evolves-append Step same [] ys = tt
  Evolves-append Step same (x ∷ xs) ys = (same x, Evolves-append Step same xs ys)

  pub Ascending-append :
      (key : R → ℕ) (t : R) (ts : List R)
      → Below key (key t) ts
      → Ascending key ts
      → Ascending key (ts ++ t ∷ [])
  Ascending-append key t [] below h = (tt, tt)
  Ascending-append key t (u ∷ us) below h =
      (All-append (λ v. key u < key v) us t h.0 below.0, Ascending-append key t us below.1 h.1)

  -- A row with the next primary key.
  pub Below-append :
      (key : R → ℕ) (n : ℕ) (t : R) (ts : List R)
      → key t ≡ n
      → Below key n ts
      → Below key (suc n) (ts ++ t ∷ [])
  Below-append key n t ts e h =
      All-append (λ u. key u < suc n) ts t (All-map ts (λ u lt. ground (arith, lt)) h)
        (ground (arith, e))
