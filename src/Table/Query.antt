-- ===== src/Table/Query.antt =====
-- What a query finds after an update that keeps the columns the query reads.
use goat_relayer.Prelude.{
  ◌≡◌, refl, List, [], ◌∷◌, Bool, true, false, Option, none, some, inl, inr, Bool-cases,
  Option-cases, if◌then◌else◌,
}
use goat_relayer.Table.{find_last, find_first, update_where}

module _ {R : Type 0} where
  -- The row of a query's result after an update.
  abbrev pub updated : (R → Bool) → (R → R) → Option R → Option R
  updated q f none = none
  updated q f (some r) = some (if q r then f r else r)

  test_kept :
      (p q : R → Bool) (f : R → R) (x : R)
      → ((r : R) → p (f r) ≡ p r)
      → p (if q x then f x else x) ≡ p x
  test_kept p q f x same = elim (Bool-cases (q x)) [
    | inl hit ↦ rw hit (same x)
    | inr miss ↦ rw miss refl
  ]

  updated-if :
      (q : R → Bool) (f : R → R) (b : Bool) (x : R) (o : Option R)
      → (if b then some (if q x then f x else x) else updated q f o)
        ≡ updated q f (if b then some x else o)
  updated-if q f true x o = refl
  updated-if q f false x o = refl

  pub find_last-update_where :
      (p q : R → Bool) (f : R → R) (xs : List R)
      → ((r : R) → p (f r) ≡ p r)
      → find_last p (update_where q f xs) ≡ updated q f (find_last p xs)
  unfolding find_last update_where
  find_last-update_where p q f [] same = refl
  find_last-update_where p q f (x ∷ xs) same = elim (Option-cases (find_last p xs)) [
    | inr (v, found) ↦ rw (find_last-update_where p q f xs same, found) refl
    | inl missing ↦
        rw (find_last-update_where p q f xs same, missing, test_kept p q f x same)
          (updated-if q f (p x) x none)
  ]

  pub find_first-update_where :
      (p q : R → Bool) (f : R → R) (xs : List R)
      → ((r : R) → p (f r) ≡ p r)
      → find_first p (update_where q f xs) ≡ updated q f (find_first p xs)
  unfolding find_first update_where
  find_first-update_where p q f [] same = refl
  find_first-update_where p q f (x ∷ xs) same =
      rw (test_kept p q f x same, find_first-update_where p q f xs same)
        (updated-if q f (p x) x (find_first p xs))
