-- ===== src/Select/Settle.antt =====
-- The end of `SelectOptimalUTXOs` (internal/wallet/withdraw_strategy.go): the smallest UTXO that is
-- appended, and the change.
use goat_relayer.Prelude.{
  ℕ, ◌+◌, ◌*◌, ◌^◌, ◌≤◌, ◌<◌, ◌-◌, ◌≡◌, refl, ◌∙◌, ap, subst, ◌⊎◌, inl, inr, List, [], ◌∷◌, false,
  ◌&&◌, Option, none, some, arith, All, ltb, if-split,
}
use goat_relayer.Table.Evolve.{All-map}
use goat_relayer.Store.{Utxo}
use goat_relayer.Int64.{add64, add64_small, sub64, sub64_small, lt64, lt64_small}
use goat_relayer.Size.{get_dust_amount}
use goat_relayer.Select.{
  Selected, ok, Selection, already_selected, smallest_utxo, append_smallest, small_utxo_define,
  settle_change,
}
use goat_relayer.Select.Sub.{
  total_of, Distinct, Distinct-append, All-append, Sub, Sub-All, Sub-Distinct, Sub-total_of,
  total_of-append,
}
use goat_relayer.Select.Pick.{smallest_utxo-from, already_selected-Apart}

-- UTXOs of a list together with their sum.
abbrev pub Picked : List Utxo × ℕ × List Utxo → Type 0
Picked r = Sub r.0 r.2 × (r.1 ≡ total_of r.0)

amounts-total_of : (us : List Utxo) → All (λ v. v.amount ≤ total_of us) us
amounts-total_of [] = tt
amounts-total_of (u ∷ us) =
    (omega arith, All-map us (λ v le. omega (arith, le)) (amounts-total_of us))

All-zip :
    {A : Type 0} (P Q : A → Type 0) (xs : List A) → All P xs → All Q xs → All (λ x. P x × Q x) xs
All-zip P Q [] p q = tt
All-zip P Q (x ∷ xs) p q = ((p.0, q.0), All-zip P Q xs p.1 q.1)

-- What a selection with its sum keeps from the list `us` that it is of, beside `least`.
abbrev pub Kept : (Utxo → Type 0) → ℕ → List Utxo × ℕ → Type 0
Kept P least r = All P r.0 × Distinct r.0 × (r.1 ≡ total_of r.0) × (least ≤ r.1) × (r.1 < 2 ^ 63)

append_cases :
    (K : List Utxo × ℕ → Type 0) (selected : List Utxo) (total : ℕ) (o : Option Utxo)
    → K (selected, total)
    → ((u : Utxo) → o ≡ some u → K (append_smallest (some u) selected total))
    → K (append_smallest o selected total)
unfolding append_smallest
append_cases K selected total none h f = h
append_cases K selected total (some u) h f = f u refl

pub append_smallest-Kept :
    (P : Utxo → Type 0) (network_fee : ℕ) (selected us : List Utxo) (total : ℕ)
    → Picked (selected, total, us)
    → All P us
    → Distinct us
    → total_of us + small_utxo_define < 2 ^ 63
    → Kept P total (append_smallest (smallest_utxo network_fee selected us none) selected total)
unfolding append_smallest
append_smallest-Kept P network_fee selected us total (sub, sum) all apart small =
    let inner : total_of selected ≤ total_of us = Sub-total_of selected us sub in
    let same : Kept P total (selected, total) = (
      Sub-All P selected us sub all,
      Sub-Distinct selected us sub apart,
      sum,
      omega arith,
      omega (arith, sum, inner),
    ) in
    append_cases (Kept P total) selected total (smallest_utxo network_fee selected us none) same
      (λ u found.
        let (p, new, fits) =
          smallest_utxo-from
            (λ v. P v × (already_selected v selected ≡ false) × (v.amount ≤ total_of us))
            network_fee selected us none
            (All-map us (λ v h new. (h.0, new, h.1))
              (All-zip P (λ v. v.amount ≤ total_of us) us all (amounts-total_of us)))
            (λ v e. absurd cc) u found in
        if-split (Kept P total) (lt64 0 u.amount && lt64 u.amount small_utxo_define)
          (λ tiny.
            let test : lt64 u.amount small_utxo_define ≡ ltb u.amount small_utxo_define =
              lt64_small u.amount small_utxo_define (omega arith) (omega arith) in
            let below : u.amount < small_utxo_define = ground (arith, test, tiny) in
            let plus : add64 total u.amount ≡ total + u.amount =
              add64_small total u.amount (omega (arith, sum, inner)) in
            (
              All-append P selected u same.0 p,
              Distinct-append selected u same.1 (already_selected-Apart u selected new),
              omega (arith, plus, sum, total_of-append selected (u ∷ [])),
              omega (arith, plus),
              omega (arith, plus, sum, inner),
            ))
          (λ _. same))

-- What the amounts of a selection say: the change is what is left, and paid out only above dust.
abbrev pub Settled : ℕ → ℕ → ℕ → Selection → Type 0
Settled withdraw_amount required dust s =
    (s.withdraw_amount ≡ withdraw_amount)
    × (required ≤ s.total)
    × (((s.total ≡ withdraw_amount + s.change) × (dust < s.change))
        ⊎ ((s.change ≡ 0) × (s.total ≤ withdraw_amount + dust)))

ok-injective : (s t : Selection) → ok s ≡ ok t → s ≡ t
ok-injective s t h = cc

get_dust_amount_small : (fee : ℕ) → fee * 93 < 2 ^ 63 → get_dust_amount fee ≡ fee * 93
unfolding get_dust_amount
get_dust_amount_small fee f = omega arith

pub settle_change-Settled :
    (types : List ℕ) (w required fee n : ℕ) (r : List Utxo × ℕ) (s : Selection)
    → r.1 < 2 ^ 63
    → w ≤ required
    → required < 2 ^ 63
    → fee * 93 < 2 ^ 63
    → settle_change types w required fee n r ≡ ok s
    → (s.utxos ≡ r.0) × (s.total ≡ r.1) × Settled w required (fee * 93) s
unfolding settle_change
settle_change-Settled types w required fee n r s t le q f =
    let Goal : Selection → Type 0 =
      λ x. (x.utxos ≡ r.0) × (x.total ≡ r.1) × Settled w required (fee * 93) x in
    if-split (λ x. x ≡ ok s → Goal s) (lt64 r.1 required) (λ _ h. absurd cc)
      (λ covered.
        let test : lt64 r.1 required ≡ ltb r.1 required = lt64_small r.1 required t q in
        let enough : required ≤ r.1 = ground (arith, test, covered) in
        let change : sub64 r.1 w ≡ r.1 - w = sub64_small r.1 w (omega (arith, enough, le)) t in
        let dust : get_dust_amount fee ≡ fee * 93 = get_dust_amount_small fee f in
        let compared : lt64 (get_dust_amount fee) (sub64 r.1 w) ≡ ltb (fee * 93) (r.1 - w) =
          ap (λ x. lt64 x (sub64 r.1 w)) dust
          ∙ ap (lt64 (fee * 93)) change
          ∙ lt64_small (fee * 93) (r.1 - w) f (omega arith) in
        if-split (λ x. x ≡ ok s → Goal s) (lt64 (get_dust_amount fee) (sub64 r.1 w))
          (λ more h. subst Goal (ok-injective _ s h) (
            refl,
            refl,
            (
              refl,
              enough,
              inl (omega (arith, change, enough), ground (arith, compared, more, change)),
            ),
          ))
          (λ less h. subst Goal (ok-injective _ s h) (
            refl,
            refl,
            (refl, enough, inr (refl, ground (arith, compared, less, change, enough))),
          )))

pub settle_change-ok :
    (types : List ℕ) (w required fee n : ℕ) (r : List Utxo × ℕ)
    → r.1 < 2 ^ 63
    → required ≤ r.1
    → (s : Selection) × (settle_change types w required fee n r ≡ ok s)
unfolding settle_change
settle_change-ok types w required fee n r t enough =
    let test : lt64 r.1 required ≡ ltb r.1 required =
      lt64_small r.1 required t (omega (arith, enough)) in
    let P : Selected Selection → Type 0 = λ x. (s : Selection) × (x ≡ ok s) in
    if-split P (lt64 r.1 required) (λ missing. absurd (ground (arith, test, missing, enough)))
      (λ _. if-split P (lt64 (get_dust_amount fee) (sub64 r.1 w)) (λ _. (_, refl)) (λ _. (_, refl)))
