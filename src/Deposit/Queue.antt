-- ===== src/Deposit/Queue.antt =====
-- How the rows of the deposits may change, and the structs in the queue that belong to them (internal/state/deposit.go).
use mathlib.Core.List.{Memᴰ}
use goat_relayer.Prelude.{
  ℕ, suc, ◌<◌, ◌≡◌, refl, sym, ◌∙◌, ap, subst, List, [], ◌∷◌, ◌++◌, Bool, true, false, none, arith,
  All, if-split, if◌then◌else◌,
}
use goat_relayer.Table.{find_first, update_where}
use goat_relayer.Table.Append.{Memᴰ-All, All-self, Evolves-append, Ascending-append, Below-append}
use goat_relayer.Table.Pairs.{Pairs, Pairs-append, Pairs-update_where}
use goat_relayer.Table.Evolve.{
  Evolves, update_where-Evolves, All-map, Below, Ascending, Only, update_where-Ascending,
  update_where-Below,
}
use goat_relayer.Store.{processed, is}
use goat_relayer.Deposit.{Deposit, at_outpoint, drop_outpoint}

-- The outpoint stays, and once a deposit is processed everything does.
abbrev pub DepositRow : Deposit → Deposit → Type 0
DepositRow x y =
    (y.id ≡ x.id)
    × (y.tx_hash ≡ x.tx_hash)
    × (y.output_index ≡ x.output_index)
    × (is x.status processed ≡ true → y ≡ x)

pub DepositRow-refl : (x : Deposit) → DepositRow x x
DepositRow-refl x = (refl, refl, refl, λ _. refl)

pub DepositRow-trans : (x y z : Deposit) → DepositRow x y → DepositRow y z → DepositRow x z
DepositRow-trans x y z p q = (
  q.0 ∙ p.0,
  q.1 ∙ p.1,
  q.2 ∙ p.2,
  λ done. q.3 (subst (λ r. is r.status processed ≡ true) (sym (p.3 done)) done) ∙ p.3 done,
)

abbrev pub same_outpoint : Deposit → Deposit → Bool
same_outpoint x y = at_outpoint y.tx_hash y.output_index x

same_outpoint-DepositRow :
    (x y z w : Deposit)
    → DepositRow x y
    → DepositRow z w
    → same_outpoint x z ≡ false
    → same_outpoint y w ≡ false
same_outpoint-DepositRow x y z w p q h = rw (p.1, p.2, q.1, q.2) h

-- One row for an outpoint.
abbrev pub OneOutpoint : List Deposit → Type 0
OneOutpoint = Pairs same_outpoint

-- A row of the table that is not processed has the key and the outpoint of the struct.
abbrev pub Linked : List Deposit → Deposit → Type 0
Linked rows q =
    (r : Deposit) × Memᴰ r rows
    × (r.id ≡ q.id)
    × (r.tx_hash ≡ q.tx_hash)
    × (r.output_index ≡ q.output_index)
    × (is r.status processed ≡ false)

abbrev pub Keyed : ℕ → List Deposit → Type 0
Keyed n rows = Ascending (λ r. r.id) rows × Below (λ r. r.id) n rows × OneOutpoint rows

Memᴰ-update_where :
    (p : Deposit → Bool) (f : Deposit → Deposit) (r : Deposit) (rows : List Deposit)
    → Memᴰ r rows
    → Memᴰ (if p r then f r else r) (update_where p f rows)
unfolding update_where
Memᴰ-update_where p f r [] m = elim m [ ]
Memᴰ-update_where p f r (x ∷ xs) (Memᴰ.head e) = Memᴰ.head (ap (λ y. if p y then f y else y) e)
Memᴰ-update_where p f r (x ∷ xs) (Memᴰ.tail m) = Memᴰ.tail (Memᴰ-update_where p f r xs m)

-- An update by allowed steps keeps a struct linked, when its own row stays open.
pub Linked-update_where :
    (p : Deposit → Bool) (f : Deposit → Deposit) (rows : List Deposit) (q : Deposit)
    (l : Linked rows q)
    → (p l.0 ≡ true → DepositRow l.0 (f l.0) × (is (f l.0).status processed ≡ false))
    → Linked (update_where p f rows) q
Linked-update_where p f rows q l h =
    let step : DepositRow l.0 (if p l.0 then f l.0 else l.0)
        × (is (if p l.0 then f l.0 else l.0).status processed ≡ false) =
      if-split (λ (y : Deposit). DepositRow l.0 y × (is y.status processed ≡ false)) (p l.0) h
        (λ _. (DepositRow-refl l.0, l.5)) in
    (
      if p l.0 then f l.0 else l.0,
      Memᴰ-update_where p f l.0 rows l.1,
      step.0.0 ∙ l.2,
      step.0.1 ∙ l.3,
      step.0.2 ∙ l.4,
      step.1,
    )

Memᴰ-append : (r : Deposit) (xs ys : List Deposit) → Memᴰ r xs → Memᴰ r (xs ++ ys)
Memᴰ-append r [] ys m = elim m [ ]
Memᴰ-append r (x ∷ xs) ys (Memᴰ.head e) = Memᴰ.head e
Memᴰ-append r (x ∷ xs) ys (Memᴰ.tail m) = Memᴰ.tail (Memᴰ-append r xs ys m)

pub Linked-append : (rows new : List Deposit) (q : Deposit) → Linked rows q → Linked (rows ++ new) q
Linked-append rows new q l = (l.0, Memᴰ-append l.0 rows new l.1, l.2, l.3, l.4, l.5)

pub Linked-last :
    (rows : List Deposit) (r : Deposit) → is r.status processed ≡ false → Linked (rows ++ r ∷ []) r
Linked-last rows r fresh = (r, last rows, refl, refl, refl, fresh)
  where
    last : (xs : List Deposit) → Memᴰ r (xs ++ r ∷ [])
    last [] = Memᴰ.head refl
    last (x ∷ xs) = Memᴰ.tail (last xs)

-- The table after an update by allowed steps, or with a new row.
pub Keyed-update_where :
    (n : ℕ) (p : Deposit → Bool) (f : Deposit → Deposit) (rows : List Deposit)
    → ((r : Deposit) → (f r).id ≡ r.id)
    → All (λ r. p r ≡ true → DepositRow r (f r)) rows
    → Keyed n rows
    → Evolves DepositRow rows (update_where p f rows) × Keyed n (update_where p f rows)
Keyed-update_where n p f rows same steps k = (
  update_where-Evolves DepositRow DepositRow-refl p f rows steps,
  (
    update_where-Ascending (λ r. r.id) p f rows same k.0,
    update_where-Below (λ r. r.id) n p f rows same k.1,
    Pairs-update_where same_outpoint DepositRow DepositRow-refl same_outpoint-DepositRow p f rows
        steps k.2,
  ),
)

pub Keyed-append :
    (n : ℕ) (r : Deposit) (rows : List Deposit)
    → r.id ≡ n
    → find_first (at_outpoint r.tx_hash r.output_index) rows ≡ none
    → Keyed n rows
    → Evolves DepositRow rows (rows ++ r ∷ []) × Keyed (suc n) (rows ++ r ∷ [])
Keyed-append n r rows key missing k = (
  Evolves-append DepositRow DepositRow-refl rows (r ∷ []),
  (
    Ascending-append (λ x. x.id) r rows (subst (λ m. Below (λ x. x.id) m rows) (sym key) k.1) k.0,
    Below-append (λ x. x.id) n r rows key k.1,
    Pairs-append same_outpoint r rows missing k.2,
  ),
)

-- Two rows with one key are one.
same_key :
    (rows : List Deposit) (x y : Deposit)
    → Ascending (λ r. r.id) rows
    → Memᴰ x rows
    → Memᴰ y rows
    → x.id ≡ y.id
    → x ≡ y
same_key [] x y h m n e = elim m [ ]
same_key (r ∷ rs) x y h (Memᴰ.head a) (Memᴰ.head b) e = a ∙ sym b
same_key (r ∷ rs) x y h (Memᴰ.head a) (Memᴰ.tail n) e =
    absurd (omega (arith, Memᴰ-All (λ z. r.id < z.id) y rs n h.0, ap (λ z. z.id) a, e))
same_key (r ∷ rs) x y h (Memᴰ.tail m) (Memᴰ.head b) e =
    absurd (omega (arith, Memᴰ-All (λ z. r.id < z.id) x rs m h.0, ap (λ z. z.id) b, e))
same_key (r ∷ rs) x y h (Memᴰ.tail m) (Memᴰ.tail n) e = same_key rs x y h.1 m n e

pub member-Only :
    (rows : List Deposit) (u : Deposit)
    → Ascending (λ r. r.id) rows
    → Memᴰ u rows
    → Only (λ r. r.id) u rows
member-Only rows u h m =
    All-map rows (λ x n hit. same_key rows x u h n m (ground (arith, hit))) (All-self rows)

-- The queue without the deposits at an outpoint.
pub drop_outpoint-All :
    (Q : Deposit → Type 0) (t o : ℕ) (ds : List Deposit) → All Q ds → All Q (drop_outpoint t o ds)
unfolding drop_outpoint
drop_outpoint-All Q t o [] h = tt
drop_outpoint-All Q t o (d ∷ ds) h =
    if-split (All Q) (at_outpoint t o d) (λ _. h.1) (λ _. (h.0, drop_outpoint-All Q t o ds h.1))

pub drop_outpoint-OneOutpoint :
    (t o : ℕ) (ds : List Deposit) → OneOutpoint ds → OneOutpoint (drop_outpoint t o ds)
unfolding drop_outpoint
drop_outpoint-OneOutpoint t o [] h = tt
drop_outpoint-OneOutpoint t o (d ∷ ds) h =
    if-split OneOutpoint (at_outpoint t o d) (λ _. h.1)
      (λ _. (
        drop_outpoint-All (λ e. same_outpoint d e ≡ false) t o ds h.0,
        drop_outpoint-OneOutpoint t o ds h.1,
      ))

other_outpoint :
    (t o : ℕ) (d e : Deposit)
    → at_outpoint t o d ≡ true
    → same_outpoint d e ≡ false
    → at_outpoint t o e ≡ false
other_outpoint t o d e hit apart = ground (arith, hit, apart)

pub drop_outpoint-clears :
    (t o : ℕ) (ds : List Deposit)
    → OneOutpoint ds
    → All (λ e. at_outpoint t o e ≡ false) (drop_outpoint t o ds)
unfolding drop_outpoint
drop_outpoint-clears t o [] h = tt
drop_outpoint-clears t o (d ∷ ds) h =
    if-split (All (λ e. at_outpoint t o e ≡ false)) (at_outpoint t o d)
      (λ hit. All-map ds (λ e apart. other_outpoint t o d e hit apart) h.0)
      (λ miss. (miss, drop_outpoint-clears t o ds h.1))
