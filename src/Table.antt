-- ===== src/Table.antt =====
-- Tables of the SQLite databases behind internal/state, as lists of rows in the order of their
-- primary keys, and the queries that the code sends through gorm: `First` (the match with the least
-- key), `Order("id desc").First` (the one with the greatest), `Find`, and `Updates` on all matches.
pub mod Append
pub mod Evolve
pub mod Pairs
pub mod Query
use goat_relayer.Prelude.{
  ℕ, List, [], ◌∷◌, Bool, true, false, Option, none, some, if◌then◌else◌, ◌==◌,
}

module _ {R : Type 0} where
  -- `Where(p).Order("id desc").First(&row)`.
  unfoldable pub find_last : (R → Bool) → List R → Option R
  find_last p [] = none
  find_last p (r ∷ rs) = elim (find_last p rs) [
    | some later ↦ some later
    | none ↦ if p r then some r else none
  ]

  -- `Where(p).First(&row)`.
  unfoldable pub find_first : (R → Bool) → List R → Option R
  find_first p [] = none
  find_first p (r ∷ rs) = let rest = find_first p rs in if p r then some r else rest

  -- `Where(p).Find(&rows)`.
  unfoldable pub find_all : (R → Bool) → List R → List R
  find_all p [] = []
  find_all p (r ∷ rs) = let rest = find_all p rs in if p r then r ∷ rest else rest

  -- `Model(&R{}).Where(p).Updates(...)`.
  unfoldable pub update_where : (R → Bool) → (R → R) → List R → List R
  update_where p f [] = []
  update_where p f (r ∷ rs) = (if p r then f r else r) ∷ update_where p f rs

  unfoldable pub exists_row : (R → Bool) → List R → Bool
  exists_row p [] = false
  exists_row p (r ∷ rs) = let rest = exists_row p rs in if p r then true else rest

-- A column that `Updates` with a struct assigns: zero values are skipped.
abbrev pub assign : ℕ → ℕ → ℕ
assign new old = if new == 0 then old else new
