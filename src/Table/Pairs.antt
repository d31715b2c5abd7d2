-- ===== src/Table/Pairs.antt =====
-- Tables in which no two rows clash, as by a unique index.
use goat_relayer.Prelude.{
  ◌≡◌, refl, List, [], ◌∷◌, ◌++◌, Bool, true, false, none, some, inl, inr, arith, All, Bool-cases,
  if-split, if◌then◌else◌,
}
use goat_relayer.Table.{find_first, update_where}
use goat_relayer.Table.Append.{All-append}

module _ {R : Type 0} where
  -- What a query that finds nothing says of the first row.
  pub first_miss :
      (q : R → Bool) (u : R) (us : List R)
      → find_first q (u ∷ us) ≡ none
      → (q u ≡ false) × (find_first q us ≡ none)
  unfolding find_first
  first_miss q u us h = elim (Bool-cases (q u)) [
    | inl hit ↦ absurd (let no : some u ≡ none = ground (arith, h, hit) in cc)
    | inr miss ↦ (miss, ground (arith, h, miss))
  ]

  pub none-All : (q : R → Bool) (xs : List R) → find_first q xs ≡ none → All (λ x. q x ≡ false) xs
  none-All q [] h = tt
  none-All q (x ∷ xs) h = let miss = first_miss q x xs h in (miss.0, none-All q xs miss.1)

  pub All-none : (q : R → Bool) (xs : List R) → All (λ x. q x ≡ false) xs → find_first q xs ≡ none
  unfolding find_first
  All-none q [] h = refl
  All-none q (x ∷ xs) h = rw (h.0) (All-none q xs h.1)

  module _ (clash : R → R → Bool) where
    abbrev pub Pairs : List R → Type 0
    Pairs [] = Unit {0}
    Pairs (t ∷ ts) = All (λ u. clash t u ≡ false) ts × Pairs ts

    -- A new row that clashes with none.
    pub Pairs-append :
        (t : R) (ts : List R)
        → find_first (λ u. clash u t) ts ≡ none
        → Pairs ts
        → Pairs (ts ++ t ∷ [])
    Pairs-append t [] missing h = (tt, tt)
    Pairs-append t (u ∷ us) missing h =
        let miss = first_miss (λ v. clash v t) u us missing in
        (All-append (λ v. clash u v ≡ false) us t h.0 miss.0, Pairs-append t us miss.1 h.1)

    -- An update by steps that make no clash.
    module _ (Step : R → R → Type 0) (same : (r : R) → Step r r)
        (keeps : (x y z w : R) → Step x y → Step z w → clash x z ≡ false → clash y w ≡ false) where
      updated_Step :
          (p : R → Bool) (f : R → R) (t : R)
          → (p t ≡ true → Step t (f t))
          → Step t (if p t then f t else t)
      updated_Step p f t h = if-split (Step t) (p t) h (λ _. same t)

      clash-update_where :
          (p : R → Bool) (f : R → R) (x y : R) (ts : List R)
          → Step x y
          → All (λ t. p t ≡ true → Step t (f t)) ts
          → All (λ u. clash x u ≡ false) ts
          → All (λ u. clash y u ≡ false) (update_where p f ts)
      unfolding update_where
      clash-update_where p f x y [] r rows h = tt
      clash-update_where p f x y (t ∷ ts) r rows h = (
        keeps x y t (if p t then f t else t) r (updated_Step p f t rows.0) h.0,
        clash-update_where p f x y ts r rows.1 h.1,
      )

      pub Pairs-update_where :
          (p : R → Bool) (f : R → R) (ts : List R)
          → All (λ t. p t ≡ true → Step t (f t)) ts
          → Pairs ts
          → Pairs (update_where p f ts)
      unfolding update_where
      Pairs-update_where p f [] rows h = tt
      Pairs-update_where p f (t ∷ ts) rows h = (
        clash-update_where p f t (if p t then f t else t) ts (updated_Step p f t rows.0) rows.1 h.0,
        Pairs-update_where p f ts rows.1 h.1,
      )
