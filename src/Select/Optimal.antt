-- ===== src/Select/Optimal.antt =====
-- What `SelectOptimalUTXOs` (internal/wallet/withdraw_strategy.go) returns.
use goat_relayer.Prelude.{
  ℕ, ◌+◌, ◌*◌, ◌^◌, ◌≤◌, ◌<◌, ◌≡◌, sym, ◌∙◌, ap, subst, List, [], ◌∷◌, none, arith, All, take,
  length, if-split, Option-split,
}
use mathlib.Core.List.{Permᴰ}
use goat_relayer.Store.{Utxo}
use goat_relayer.Int64.{add64, add64_small, lt64}
use goat_relayer.Select.{
  ok, Selection, pick_single, pick_pair, accumulate, pick, smallest_utxo, append_smallest,
  small_utxo_define, max_vin_of, select_optimal_utxos,
}
use goat_relayer.Select.Sub.{
  total_of, Distinct, Sub, Sub-total_of, take-Sub, Perm-total_of, Perm-length, Perm-All,
  Perm-Distinct,
}
use goat_relayer.Select.Pick.{pick_single-Sub, pick_pair-Sub, accumulate-Taken, accumulate-covers}
use goat_relayer.Select.Settle.{
  Picked, Kept, Settled, append_smallest-Kept, settle_change-Settled, settle_change-ok,
}

-- `sort.Slice` puts the elements in another order.
module _ (sort_ascending sort_descending : List Utxo → List Utxo)
    (ascending-Perm : (us : List Utxo) → Permᴰ us (sort_ascending us))
    (descending-Perm : (us : List Utxo) → Permᴰ us (sort_descending us)) where
  pick-Perm :
      (required max_vin : ℕ) (us : List Utxo)
      → Permᴰ us (pick sort_ascending sort_descending required max_vin us).2
  unfolding pick
  pick-Perm required max_vin us =
      Option-split (λ (r : List Utxo × ℕ × List Utxo). Permᴰ us r.2)
        (pick_single required (sort_ascending us))
        (λ _.
          Option-split (λ (r : List Utxo × ℕ × List Utxo). Permᴰ us r.2)
            (pick_pair required (sort_ascending us))
            (λ _. Permᴰ.trans (ascending-Perm us) (descending-Perm (sort_ascending us)))
            (λ _ _. ascending-Perm us))
        (λ _ _. ascending-Perm us)

  pick-Picked :
      (required max_vin : ℕ) (us : List Utxo)
      → required < 2 ^ 63
      → total_of us < 2 ^ 63
      → Picked (pick sort_ascending sort_descending required max_vin us)
  unfolding pick
  pick-Picked required max_vin us r t =
      let up = sort_ascending us in
      let same : total_of us ≡ total_of up = Perm-total_of us up (ascending-Perm us) in
      Option-split Picked (pick_single required up)
        (λ _.
          Option-split Picked (pick_pair required up)
            (λ _.
              let down = sort_descending up in
              let back : total_of up ≡ total_of down = Perm-total_of up down (descending-Perm up) in
              let taken = accumulate-Taken required max_vin down [] 0 (omega (arith, same, back)) in
              let moved : total_of (accumulate required max_vin down [] 0).0
                  ≡ total_of (take taken.0 down) =
                ap total_of taken.1 in
              let same_sum : (accumulate required max_vin down [] 0).1
                  ≡ total_of (accumulate required max_vin down [] 0).0 =
                omega (arith, taken.2, moved) in
              (subst (λ xs. Sub xs down) (sym taken.1) (take-Sub taken.0 down), same_sum))
            (λ p found.
              let two = pick_pair-Sub required up p r (omega (arith, same)) found in
              let fits : p.0.amount + (p.1.amount + 0) ≤ total_of up =
                Sub-total_of (p.0 ∷ p.1 ∷ []) up two.0 in
              (
                two.0,
                omega (arith, add64_small p.0.amount p.1.amount (omega (arith, same, fits))),
              )))
        (λ u found. ((pick_single-Sub required up u r (omega (arith, same)) found).0, omega arith))

  -- What is known of the list before the selection.
  picked :
      (P : Utxo → Type 0) (us : List Utxo) (required max_vin network_fee : ℕ)
      → All P us
      → Distinct us
      → total_of us + small_utxo_define < 2 ^ 63
      → required < 2 ^ 63
      → let p = pick sort_ascending sort_descending required max_vin us in
        Kept P p.1 (append_smallest (smallest_utxo network_fee p.0 p.2 none) p.0 p.1)
  picked P us required max_vin network_fee all apart small r =
      let p = pick sort_ascending sort_descending required max_vin us in
      let perm = pick-Perm required max_vin us in
      append_smallest-Kept P network_fee p.0 p.2 p.1
        (pick-Picked required max_vin us r (omega arith)) (Perm-All P us p.2 perm all)
        (Perm-Distinct us p.2 perm apart) (omega (arith, Perm-total_of us p.2 perm))

  -- If no outpoint stands twice in the list, all amounts together, the required amount and the dust
  -- limit are in the range of int64 (with room for one small UTXO), and `SelectOptimalUTXOs` succeeds:
  -- what it returns are UTXOs of the list (what holds of all there holds of them), no outpoint twice;
  -- `total` is the sum of their amounts and covers the amount to withdraw with the extra amount; and
  -- the change is either all that is left, and above the dust limit, or nothing, when at most the
  -- dust limit is left.
  pub select_optimal_utxos-Settled :
      (P : Utxo → Type 0) (us : List Utxo) (types : List ℕ) (w extra fee n : ℕ) (s : Selection)
      → All P us
      → Distinct us
      → total_of us + small_utxo_define < 2 ^ 63
      → w + extra < 2 ^ 63
      → fee * 93 < 2 ^ 63
      → select_optimal_utxos sort_ascending sort_descending us types w extra fee n ≡ ok s
      → All P s.utxos
        × Distinct s.utxos
        × (s.total ≡ total_of s.utxos)
        × Settled w (w + extra) (fee * 93) s
  unfolding select_optimal_utxos
  select_optimal_utxos-Settled P us types w extra fee n s all apart small r f h =
      let required = add64 w extra in
      let plain : required ≡ w + extra = add64_small w extra r in
      let p = pick sort_ascending sort_descending required (max_vin_of required) us in
      let taken = append_smallest (smallest_utxo fee p.0 p.2 none) p.0 p.1 in
      let kept =
        picked P us required (max_vin_of required) fee all apart small (omega (arith, plain)) in
      let settled =
        settle_change-Settled types w required fee n taken s kept.4 (omega (arith, plain))
          (omega (arith, plain)) f h in
      (
        subst (All P) (sym settled.0) kept.0,
        subst Distinct (sym settled.0) kept.1,
        settled.1 ∙ kept.2 ∙ ap total_of (sym settled.0),
        subst (λ x. Settled w x (fee * 93) s) plain settled.2,
      )

  pick-covers :
      (required max_vin : ℕ) (us : List Utxo)
      → required < 2 ^ 63
      → total_of us < 2 ^ 63
      → length us ≤ max_vin
      → required ≤ total_of us
      → required ≤ (pick sort_ascending sort_descending required max_vin us).1
  unfolding pick
  pick-covers required max_vin us r t room enough =
      let up = sort_ascending us in
      let down = sort_descending up in
      let same : total_of us ≡ total_of up = Perm-total_of us up (ascending-Perm us) in
      let back : total_of up ≡ total_of down = Perm-total_of up down (descending-Perm up) in
      let many : length us ≡ length down =
        Perm-length us up (ascending-Perm us) ∙ Perm-length up down (descending-Perm up) in
      Option-split (λ (p : List Utxo × ℕ × List Utxo). required ≤ p.1) (pick_single required up)
        (λ _.
          Option-split (λ (p : List Utxo × ℕ × List Utxo). required ≤ p.1) (pick_pair required up)
            (λ _.
              accumulate-covers required max_vin down [] 0 r (omega (arith, same, back))
                (omega (arith, many)) (omega (arith, same, back)))
            (λ p found.
              let two = pick_pair-Sub required up p r (omega (arith, same)) found in
              let fits : p.0.amount + (p.1.amount + 0) ≤ total_of up =
                Sub-total_of (p.0 ∷ p.1 ∷ []) up two.0 in
              omega (arith, two.1, add64_small p.0.amount p.1.amount (omega (arith, same, fits)))))
        (λ u found. (pick_single-Sub required up u r (omega (arith, same)) found).1)

  ten_allowed : (required : ℕ) → 10 ≤ max_vin_of required
  unfolding max_vin_of
  ten_allowed required =
      if-split (λ m. 10 ≤ m) (lt64 5000000000 required) (λ _. omega arith) (λ _. omega arith)

  -- With at most ten UTXOs in the wallet, in which no outpoint stands twice, whose amounts together cover the amount
  -- to withdraw with the extra amount, and amounts in the range of int64 (with room for one small
  -- UTXO), `SelectOptimalUTXOs` succeeds.
  pub select_optimal_utxos-succeeds :
      (us : List Utxo) (types : List ℕ) (w extra fee n : ℕ)
      → Distinct us
      → length us ≤ 10
      → total_of us + small_utxo_define < 2 ^ 63
      → w + extra ≤ total_of us
      → (s : Selection) × (select_optimal_utxos sort_ascending sort_descending us types w extra fee
            n
          ≡ ok s)
  unfolding select_optimal_utxos
  select_optimal_utxos-succeeds us types w extra fee n apart few small enough =
      let required = add64 w extra in
      let plain : required ≡ w + extra = add64_small w extra (omega arith) in
      let p = pick sort_ascending sort_descending required (max_vin_of required) us in
      let taken = append_smallest (smallest_utxo fee p.0 p.2 none) p.0 p.1 in
      let kept =
        picked (λ _. Unit {0}) us required (max_vin_of required) fee (everything us) apart small
          (omega (arith, plain)) in
      let first =
        pick-covers required (max_vin_of required) us (omega (arith, plain)) (omega arith)
          (omega (arith, ten_allowed required)) (omega (arith, plain)) in
      settle_change-ok types w required fee n taken kept.4 (omega (arith, first, kept.3))
    where
      everything : (vs : List Utxo) → All (λ _. Unit {0}) vs
      everything [] = tt
      everything (v ∷ vs) = (tt, everything vs)
