-- ===== src/Table/Evolve.antt =====
-- How a table may change while its rows are never deleted: each old row steps to the row in its
-- place, and new rows come behind. The primary keys of a table ascend.
use goat_relayer.Prelude.{
  ℕ, ◌<◌, ◌≡◌, refl, sym, subst, inl, inr, List, [], ◌∷◌, Bool, true, some, arith, ◌==◌, All,
  Bool-cases, Option-cases,
}
use goat_relayer.Table.{find_first, find_last, update_where}

module _ {R : Type 0} (Step : R → R → Type 0) where
  abbrev pub Evolves : List R → List R → Type 0
  Evolves [] ys = Unit {0}
  Evolves (x ∷ xs) [] = ⊥
  Evolves (x ∷ xs) (y ∷ ys) = Step x y × Evolves xs ys

  pub Evolves-refl : ((r : R) → Step r r) → (xs : List R) → Evolves xs xs
  Evolves-refl same [] = tt
  Evolves-refl same (x ∷ xs) = (same x, Evolves-refl same xs)

  pub Evolves-trans :
      ((a b c : R) → Step a b → Step b c → Step a c)
      → (xs ys zs : List R) → Evolves xs ys
      → Evolves ys zs
      → Evolves xs zs
  Evolves-trans comp [] ys zs p q = tt
  Evolves-trans comp (x ∷ xs) [] zs p q = absurd p
  Evolves-trans comp (x ∷ xs) (y ∷ ys) [] p q = absurd q
  Evolves-trans comp (x ∷ xs) (y ∷ ys) (z ∷ zs) p q =
      (comp x y z p.0 q.0, Evolves-trans comp xs ys zs p.1 q.1)

  pub update_where-Evolves :
      ((r : R) → Step r r)
      → (p : R → Bool) (f : R → R) (xs : List R) → All (λ r. p r ≡ true → Step r (f r)) xs
      → Evolves xs (update_where p f xs)
  unfolding update_where
  update_where-Evolves same p f [] h = tt
  update_where-Evolves same p f (x ∷ xs) h = elim (Bool-cases (p x)) [
    | inl hit ↦ (rw hit (h.0 hit), update_where-Evolves same p f xs h.1)
    | inr miss ↦ (rw miss (same x), update_where-Evolves same p f xs h.1)
  ]

pub All-map {ℓ κ μ} :
    {A : Type ℓ} {P : A → Type κ} {Q : A → Type μ} (xs : List A)
    → ((a : A) → P a → Q a)
    → All P xs
    → All Q xs
All-map [] f h = tt
All-map (x ∷ xs) f h = (f x h.0, All-map xs f h.1)

module _ {R : Type 0} where
  pub find_last-All {κ} :
      (P : R → Type κ) (p : R → Bool) (xs : List R) (u : R)
      → All P xs
      → find_last p xs ≡ some u
      → P u
  unfolding find_last
  find_last-All P p [] u h e = cc
  find_last-All P p (x ∷ xs) u h e = elim (Option-cases (find_last p xs)) [
    | inr (v, found) ↦
        let same : v ≡ u = ground (arith, e, found) in
        subst P same (find_last-All P p xs v h.1 found)
    | inl missing ↦ let same : x ≡ u = ground (arith, e, missing) in subst P same h.0
  ]

  pub find_last_sound : (p : R → Bool) (xs : List R) (u : R) → find_last p xs ≡ some u → p u ≡ true
  unfolding find_last
  find_last_sound p [] u e = cc
  find_last_sound p (x ∷ xs) u e = elim (Option-cases (find_last p xs)) [
    | inr (v, found) ↦
        let same : v ≡ u = ground (arith, e, found) in
        subst (λ z. p z ≡ true) same (find_last_sound p xs v found)
    | inl missing ↦ ground (arith, e, missing)
  ]

  pub find_first_sound :
      (p : R → Bool) (xs : List R) (u : R) → find_first p xs ≡ some u → p u ≡ true
  unfolding find_first
  find_first_sound p [] u e = cc
  find_first_sound p (x ∷ xs) u e = elim (Bool-cases (p x)) [
    | inl hit ↦ let same : x ≡ u = ground (arith, e, hit) in subst (λ z. p z ≡ true) same hit
    | inr miss ↦ find_first_sound p xs u (ground (arith, e, miss))
  ]

  pub find_first-All {κ} :
      (P : R → Type κ) (p : R → Bool) (xs : List R) (u : R)
      → All P xs
      → find_first p xs ≡ some u
      → P u
  unfolding find_first
  find_first-All P p [] u h e = cc
  find_first-All P p (x ∷ xs) u h e = elim (Bool-cases (p x)) [
    | inl hit ↦ let same : x ≡ u = ground (arith, e, hit) in subst P same h.0
    | inr miss ↦ find_first-All P p xs u h.1 (ground (arith, e, miss))
  ]

module _ {R : Type 0} (key : R → ℕ) where
  abbrev pub Below : ℕ → List R → Type 0
  Below n = All (λ r. key r < n)

  -- The primary keys ascend.
  abbrev pub Ascending : List R → Type 0
  Ascending [] = Unit {0}
  Ascending (x ∷ xs) = All (λ y. key x < key y) xs × Ascending xs

  -- Only the row that a query found has its key.
  abbrev pub Only : R → List R → Type 0
  Only u = All (λ r. (key r == key u) ≡ true → r ≡ u)

  above_Only : (x u : R) (xs : List R) → key x ≡ key u → All (λ y. key x < key y) xs → Only u xs
  above_Only x u xs e h = All-map xs (λ r lt hit. absurd (ground (arith, lt, hit, e))) h

  pub find_last-Only :
      (p : R → Bool) (xs : List R) (u : R) → Ascending xs → find_last p xs ≡ some u → Only u xs
  unfolding find_last
  find_last-Only p [] u h e = tt
  find_last-Only p (x ∷ xs) u h e = elim (Option-cases (find_last p xs)) [
    | inr (v, found) ↦
        let same : v ≡ u = ground (arith, e, found) in
        let lt : key x < key v = find_last-All (λ y. key x < key y) p xs v h.0 found in
        subst (λ z. Only z (x ∷ xs)) same
          ((λ hit. absurd (ground (arith, lt, hit))), find_last-Only p xs v h.1 found)
    | inl missing ↦
        let same : x ≡ u = ground (arith, e, missing) in
        subst (λ z. Only z (x ∷ xs)) same ((λ _. refl), above_Only x x xs refl h.0)
  ]

  pub find_first-Only :
      (p : R → Bool) (xs : List R) (u : R) → Ascending xs → find_first p xs ≡ some u → Only u xs
  unfolding find_first
  find_first-Only p [] u h e = tt
  find_first-Only p (x ∷ xs) u h e = elim (Bool-cases (p x)) [
    | inl hit ↦
        let same : x ≡ u = ground (arith, e, hit) in
        subst (λ z. Only z (x ∷ xs)) same ((λ _. refl), above_Only x x xs refl h.0)
    | inr miss ↦
        let found : find_first p xs ≡ some u = ground (arith, e, miss) in
        let lt : key x < key u = find_first-All (λ y. key x < key y) p xs u h.0 found in
        ((λ hit. absurd (ground (arith, lt, hit))), find_first-Only p xs u h.1 found)
  ]

  update_where-All :
      (P : ℕ → Type 0) (p : R → Bool) (f : R → R) (xs : List R)
      → ((r : R) → key (f r) ≡ key r)
      → All (λ r. P (key r)) xs
      → All (λ r. P (key r)) (update_where p f xs)
  unfolding update_where
  update_where-All P p f [] k h = tt
  update_where-All P p f (x ∷ xs) k h = elim (Bool-cases (p x)) [
    | inl hit ↦ (rw hit (subst P (sym (k x)) h.0), update_where-All P p f xs k h.1)
    | inr miss ↦ (rw miss h.0, update_where-All P p f xs k h.1)
  ]

  pub update_where-Below :
      (n : ℕ) (p : R → Bool) (f : R → R) (xs : List R)
      → ((r : R) → key (f r) ≡ key r)
      → Below n xs
      → Below n (update_where p f xs)
  update_where-Below n = update_where-All (λ k. k < n)

  -- An update that keeps the keys keeps their order.
  pub update_where-Ascending :
      (p : R → Bool) (f : R → R) (xs : List R)
      → ((r : R) → key (f r) ≡ key r)
      → Ascending xs
      → Ascending (update_where p f xs)
  unfolding update_where
  update_where-Ascending p f [] k h = tt
  update_where-Ascending p f (x ∷ xs) k h = elim (Bool-cases (p x)) [
    | inl hit ↦ (
      rw (hit, k x) (update_where-All (λ m. key x < m) p f xs k h.0),
      update_where-Ascending p f xs k h.1,
    )
    | inr miss ↦ (
      rw miss (update_where-All (λ m. key x < m) p f xs k h.0),
      update_where-Ascending p f xs k h.1,
    )
  ]
