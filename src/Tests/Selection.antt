-- ===== src/Tests/Selection.antt =====
-- Selections from three UTXOs: for a withdrawal, and for a consolidation of ten.
use goat_relayer.Prelude.{ℕ, ◌+◌, ◌*◌, ◌≤◌, ◌≡◌, refl, List, [], ◌∷◌, arith, All, length, replicate}
use mathlib.Core.List.{Permᴰ}
use mathlib.Core.List.Permᴰ
use goat_relayer.Store.{processed, Utxo}
use goat_relayer.Size.{
  p2wpkh, p2pkh, p2tr, get_dust_amount, base_size, witness_size, output_size_v2, add_sizes,
  add_change, transaction_size_estimate, transaction_size_estimate_v2,
}
use goat_relayer.Size.Laws.{transaction_size_estimate_v2-bounds}
use goat_relayer.Select.{
  ok, Selection, pick_single, pick_pair, accumulate, pick, already_selected, is_smaller,
  smallest_utxo, append_smallest, types_of, settle_change, max_vin_of, select_optimal_utxos,
  Consolidation, consolidated_type, small_utxos, settle_consolidation, consolidate_small_utxos,
  consolidate_utxos_by_count,
}
use goat_relayer.Select.Sub.{total_of, Distinct}
use goat_relayer.Select.Settle.{Settled}
use goat_relayer.Select.Optimal.{select_optimal_utxos-Settled, select_optimal_utxos-succeeds}
use goat_relayer.Select.Consolidate.{
  IsConsolidation, consolidate_small_utxos-IsConsolidation,
  consolidate_utxos_by_count-IsConsolidation,
}

abbrev coin_of : ℕ → ℕ → Utxo
coin_of txid amount = record {
  id = txid;
  txid = txid;
  out_index = 0;
  amount = amount;
  receiver_type = p2wpkh;
  sub_script = 0;
  status = processed;
  spent_block = 0;
}

abbrev coins : List Utxo
coins = coin_of 1 40000 ∷ coin_of 2 70000 ∷ coin_of 3 90000 ∷ []

-- The list is sorted as it is.
abbrev as_it_is : List Utxo → List Utxo
as_it_is us = us

as_it_is-Perm : (us : List Utxo) → Permᴰ us (as_it_is us)
as_it_is-Perm us = Permᴰ.refl us

coins-Distinct : Distinct coins
coins-Distinct = (
  ((λ e. absurd (omega (arith, e.0))), ((λ e. absurd (omega (arith, e.0))), tt)),
  (((λ e. absurd (omega (arith, e.0))), tt), (tt, tt)),
)

abbrev selection : Selection
selection = record {
  utxos = coin_of 2 70000 ∷ coin_of 3 90000 ∷ coin_of 1 40000 ∷ [];
  total = 200000;
  withdraw_amount = 120000;
  change = 80000;
  fee = 4424;
  witness = 326;
}

selected : select_optimal_utxos as_it_is as_it_is coins (p2wpkh ∷ []) 120000 0 4 1 ≡ ok selection
unfolding select_optimal_utxos pick pick_single pick_pair accumulate already_selected is_smaller
    smallest_utxo append_smallest settle_change types_of max_vin_of get_dust_amount
    transaction_size_estimate_v2 add_sizes base_size witness_size output_size_v2 add_change
selected = refl

select_optimal_utxos-Settled_example :
    All (λ u. u.status ≡ processed) selection.utxos
    × Distinct selection.utxos
    × (selection.total ≡ total_of selection.utxos)
    × Settled 120000 (120000 + 0) (4 * 93) selection
select_optimal_utxos-Settled_example =
    select_optimal_utxos-Settled as_it_is as_it_is as_it_is-Perm as_it_is-Perm
      (λ u. u.status ≡ processed) coins (p2wpkh ∷ []) 120000 0 4 1 selection
      (refl, (refl, (refl, tt))) coins-Distinct (omega arith) (omega arith) (omega arith) selected

select_optimal_utxos-succeeds_example :
    (s : Selection) × (select_optimal_utxos as_it_is as_it_is coins (p2wpkh ∷ []) 120000 0 4 1
      ≡ ok s)
select_optimal_utxos-succeeds_example =
    select_optimal_utxos-succeeds as_it_is as_it_is as_it_is-Perm as_it_is-Perm coins (p2wpkh ∷ [])
      120000 0 4 1 coins-Distinct (omega arith) (omega arith) (omega arith)

transaction_size_estimate_v2-bounds_example :
    ((transaction_size_estimate_v2 (p2tr ∷ []) 2 (p2wpkh ∷ p2pkh ∷ [])).0
      ≡ 4 * (transaction_size_estimate (p2tr ∷ []) 2 (p2wpkh ∷ p2pkh ∷ []) + 1)
        + (transaction_size_estimate_v2 (p2tr ∷ []) 2 (p2wpkh ∷ p2pkh ∷ [])).1)
    × (66 * 1 ≤ (transaction_size_estimate_v2 (p2tr ∷ []) 2 (p2wpkh ∷ p2pkh ∷ [])).1)
    × ((transaction_size_estimate_v2 (p2tr ∷ []) 2 (p2wpkh ∷ p2pkh ∷ [])).1 ≤ 132 * 1 + 2)
transaction_size_estimate_v2-bounds_example =
    transaction_size_estimate_v2-bounds (p2tr ∷ []) 2 (p2wpkh ∷ p2pkh ∷ [])

abbrev ten : List Utxo
ten = replicate 10 (coin_of 7 3000)

abbrev consolidation : Consolidation
consolidation = record { utxos = ten; total = 30000; final_amount = 28556; witness = 1082 }

consolidated : consolidate_small_utxos 100 ten 2 50000000 50 10 ≡ ok consolidation
unfolding consolidate_small_utxos small_utxos consolidated_type settle_consolidation types_of
    get_dust_amount transaction_size_estimate_v2 add_sizes base_size witness_size output_size_v2
    add_change
consolidated = refl

consolidate_small_utxos-IsConsolidation_example :
    IsConsolidation 2 50000000 ten consolidation × (10 ≤ length consolidation.utxos)
consolidate_small_utxos-IsConsolidation_example =
    consolidate_small_utxos-IsConsolidation 100 ten 2 50000000 50 10 consolidation (omega arith)
      (omega arith) (omega arith) consolidated

consolidated_by_count : consolidate_utxos_by_count 100 ten 2 50000000 50 4 ≡ ok consolidation
unfolding consolidate_utxos_by_count small_utxos consolidated_type settle_consolidation types_of
    get_dust_amount transaction_size_estimate_v2 add_sizes base_size witness_size output_size_v2
    add_change
consolidated_by_count = refl

consolidate_utxos_by_count-IsConsolidation_example :
    IsConsolidation 2 50000000 ten consolidation × (4 ≤ length ten)
consolidate_utxos_by_count-IsConsolidation_example =
    consolidate_utxos_by_count-IsConsolidation 100 ten 2 50000000 50 4 consolidation (omega arith)
      (omega arith) (omega arith) consolidated_by_count
