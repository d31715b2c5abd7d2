-- ===== src/Store/Spent.antt =====
-- What the operations of internal/state/withdraw.go do to the table of UTXOs: how a row may change
-- (`UtxoStep`), and the rules that carry this through a sequence of statements.
pub mod Orders
pub mod Progress
pub mod Safebox
use goat_relayer.Prelude.{
  ℕ, ◌≡◌, refl, sym, ◌∙◌, ap, subst, List, [], ◌∷◌, Bool, true, false, Option, none, some, arith,
  ◌==◌, All,
}
use goat_relayer.Table.{find_first, find_last, update_where}
use goat_relayer.Table.Evolve.{
  Evolves, Evolves-refl, Evolves-trans, update_where-Evolves, All-map, Ascending, Only,
  find_last-Only, find_first-Only, update_where-Ascending,
}
use goat_relayer.Store.{Status, spent, Utxo, Db, Result, ok, err, ◌>>=◌, is, one_of, each}
use goat_relayer.Store.Rows.{set_utxo_status, set_utxo_spent, get_utxo}

-- A UTXO keeps its key, outpoint and amount, and a spent one keeps everything.
abbrev pub UtxoStep : Utxo → Utxo → Type 0
UtxoStep x y =
    (y.id ≡ x.id)
    × (y.txid ≡ x.txid)
    × (y.out_index ≡ x.out_index)
    × (y.amount ≡ x.amount)
    × (x.status ≡ spent → y ≡ x)

UtxoStep-refl : (x : Utxo) → UtxoStep x x
UtxoStep-refl x = (refl, refl, refl, refl, λ _. refl)

UtxoStep-trans : (x y z : Utxo) → UtxoStep x y → UtxoStep y z → UtxoStep x z
UtxoStep-trans x y z p q = (
  q.0 ∙ p.0,
  q.1 ∙ p.1,
  q.2 ∙ p.2,
  q.3 ∙ p.3,
  λ h. let same : y ≡ x = p.4 h in q.4 (ap (λ r. r.status) same ∙ h) ∙ same,
)

-- From one table of UTXOs to a later one.
abbrev pub Kept : List Utxo → List Utxo → Type 0
Kept us vs = Ascending (λ u. u.id) us → Ascending (λ u. u.id) vs × Evolves UtxoStep us vs

pub Kept-refl : (us : List Utxo) → Kept us us
Kept-refl us h = (h, Evolves-refl UtxoStep UtxoStep-refl us)

pub Kept-same : (us vs : List Utxo) → us ≡ vs → Kept us vs
Kept-same us vs e = subst (Kept us) e (Kept-refl us)

pub Kept-trans : (us vs ws : List Utxo) → Kept us vs → Kept vs ws → Kept us ws
Kept-trans us vs ws p q h =
    let first = p h in
    let second = q first.0 in
    (second.0, Evolves-trans UtxoStep UtxoStep-trans us vs ws first.1 second.1)

-- The same for the result of a function that may fail.
abbrev pub KeptResult : Db → Result Db → Type 0
KeptResult d (ok d') = Kept d.utxos d'.utxos
KeptResult d (err e) = Unit {0}

pub KeptResult-after :
    (d d' : Db) (r : Result Db) → Kept d.utxos d'.utxos → KeptResult d' r → KeptResult d r
KeptResult-after d d' (err e) p q = tt
KeptResult-after d d' (ok e) p q = Kept-trans d.utxos d'.utxos e.utxos p q

pub KeptResult-bind :
    (d : Db) (r : Result Db) (f : Db → Result Db)
    → KeptResult d r
    → ((d' : Db) → KeptResult d' (f d'))
    → KeptResult d (r >>= f)
KeptResult-bind d (err e) f p q = tt
KeptResult-bind d (ok d') f p q = KeptResult-after d d' (f d') p (q d')

pub each-KeptResult :
    {A : Type 0} (step : A → Db → Result Db)
    → ((x : A) (d : Db) → KeptResult d (step x d))
    → (xs : List A) (d : Db) → KeptResult d (each step xs d)
unfolding each
each-KeptResult step h [] d = Kept-refl d.utxos
each-KeptResult step h (x ∷ xs) d =
    KeptResult-bind d (step x d) (each step xs) (h x d) (each-KeptResult step h xs)

-- A status outside of a list that has `spent` is another one.
pub one_of-unspent :
    (s : Status) (ss : List Status) → one_of s ss ≡ false → one_of spent ss ≡ true → s ≡ spent → ⊥
one_of-unspent s ss out has e =
    absurd (
      let back : one_of spent ss ≡ false = subst (λ t. one_of t ss ≡ false) e out in cc (back, has))

module _ (f : Utxo → Utxo)
    (same : (r : Utxo)
      → (f r).id ≡ r.id
        × (f r).txid ≡ r.txid
        × (f r).out_index ≡ r.out_index
        × (f r).amount ≡ r.amount) where
  -- An update of the one row that a query found, when it is not spent.
  update_found :
      (us : List Utxo) (u : Utxo)
      → (u.status ≡ spent → ⊥)
      → (Ascending (λ r. r.id) us → Only (λ r. r.id) u us)
      → Kept us (update_where (λ r. r.id == u.id) f us)
  update_found us u unspent only h = (
    update_where-Ascending (λ r. r.id) (λ r. r.id == u.id) f us (λ r. (same r).0) h,
    update_where-Evolves UtxoStep UtxoStep-refl (λ r. r.id == u.id) f us
        (All-map us
          (λ r alone hit. (
            (same r).0,
            (same r).1,
            (same r).2,
            (same r).3,
            λ e. absurd (unspent (ap (λ x. x.status) (sym (alone hit)) ∙ e)),
          ))
          (only h)),
  )

-- The status of a row that a query found is set.
pub set_utxo_status-last :
    (p : Utxo → Bool) (s : Status) (d : Db) (u : Utxo)
    → find_last p d.utxos ≡ some u
    → (u.status ≡ spent → ⊥)
    → Kept d.utxos (set_utxo_status u.id s d).utxos
unfolding set_utxo_status
set_utxo_status-last p s d u found unspent =
    update_found (λ r. record r { status = s }) (λ r. (refl, refl, refl, refl)) d.utxos u unspent
      (λ h. find_last-Only (λ r. r.id) p d.utxos u h found)

pub set_utxo_status-first :
    (p : Utxo → Bool) (s : Status) (d : Db) (u : Utxo)
    → find_first p d.utxos ≡ some u
    → (u.status ≡ spent → ⊥)
    → Kept d.utxos (set_utxo_status u.id s d).utxos
unfolding set_utxo_status
set_utxo_status-first p s d u found unspent =
    update_found (λ r. record r { status = s }) (λ r. (refl, refl, refl, refl)) d.utxos u unspent
      (λ h. find_first-Only (λ r. r.id) p d.utxos u h found)

pub set_utxo_spent-last :
    (p : Utxo → Bool) (block : ℕ) (d : Db) (u : Utxo)
    → find_last p d.utxos ≡ some u
    → (u.status ≡ spent → ⊥)
    → Kept d.utxos (set_utxo_spent u.id block d).utxos
unfolding set_utxo_spent
set_utxo_spent-last p block d u found unspent =
    update_found (λ r. record r { status = spent; spent_block = block })
      (λ r. (refl, refl, refl, refl)) d.utxos u unspent
      (λ h. find_last-Only (λ r. r.id) p d.utxos u h found)
