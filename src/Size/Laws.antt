-- ===== src/Size/Laws.antt =====
-- How the two estimates of a transaction's size compare (internal/types/utxo.go).
use goat_relayer.Prelude.{
  ℕ, ◌+◌, ◌*◌, ◌≤◌, ◌≡◌, refl, ap, List, [], ◌∷◌, length, arith, ◌==◌, if◌then◌else◌,
}
use goat_relayer.Size.{
  p2wpkh, p2wsh, p2tr, input_size, output_size, base_size, witness_size, output_size_v2, add_sizes,
  add_change, transaction_size_estimate, transaction_size_estimate_v2,
}

-- The sum of the sizes of a list of types.
abbrev sum_by : (ℕ → ℕ) → List ℕ → ℕ
sum_by size [] = 0
sum_by size (t ∷ ts) = size t + sum_by size ts

add_sizes-sum_by :
    (size : ℕ → ℕ) (total : ℕ) (ts : List ℕ) → add_sizes size total ts ≡ total + sum_by size ts
unfolding add_sizes
add_sizes-sum_by size total [] = omega arith
add_sizes-sum_by size total (t ∷ ts) = omega (arith, add_sizes-sum_by size (total + size t) ts)

-- How many of the types are Taproot.
abbrev pub count_p2tr : List ℕ → ℕ
count_p2tr [] = 0
count_p2tr (t ∷ ts) = (if t == p2tr then 1 else 0) + count_p2tr ts

output_size_v2-output_size :
    (t : ℕ) → output_size_v2 t ≡ output_size t + (if t == p2tr then 1 else 0)
unfolding output_size output_size_v2
output_size_v2-output_size t = ground arith

outputs_differ : (ts : List ℕ) → sum_by output_size_v2 ts ≡ sum_by output_size ts + count_p2tr ts
outputs_differ [] = omega arith
outputs_differ (t ∷ ts) = omega (arith, outputs_differ ts, output_size_v2-output_size t)

inputs_same : (ts : List ℕ) → sum_by input_size ts ≡ sum_by base_size ts
unfolding input_size base_size
inputs_same [] = refl
inputs_same (t ∷ ts) = ap (λ n. base_size t + n) (inputs_same ts)

witness_size_le : (t : ℕ) → witness_size t ≤ 132
unfolding witness_size
witness_size_le t = ground arith

witnesses_le : (ts : List ℕ) → sum_by witness_size ts ≤ 132 * length ts
witnesses_le [] = omega arith
witnesses_le (t ∷ ts) = omega (arith, witness_size_le t, witnesses_le ts)

-- How many of the inputs have a witness.
abbrev pub count_witness : List ℕ → ℕ
count_witness [] = 0
count_witness (t ∷ ts) =
    (if t == p2wpkh then 1 else if t == p2wsh then 1 else if t == p2tr then 1 else 0)
    + count_witness ts

witness_size-between :
    (t : ℕ)
    → (66 * (if t == p2wpkh then 1 else if t == p2wsh then 1 else if t == p2tr then 1 else 0)
        ≤ witness_size t)
      × (witness_size t
          ≤ 132 * (if t == p2wpkh then 1 else if t == p2wsh then 1 else if t == p2tr then 1 else 0))
unfolding witness_size
witness_size-between t = ground arith

witnesses_between :
    (ts : List ℕ)
    → (66 * count_witness ts ≤ sum_by witness_size ts)
      × (sum_by witness_size ts ≤ 132 * count_witness ts)
witnesses_between [] = (omega arith, omega arith)
witnesses_between (t ∷ ts) =
    let rest = witnesses_between ts in
    let one = witness_size-between t in (omega (arith, rest.0, one.0), omega (arith, rest.1, one.1))

base_size_le : (t : ℕ) → base_size t ≤ 296
unfolding base_size
base_size_le t = ground arith

bases_le : (ts : List ℕ) → sum_by base_size ts ≤ 296 * length ts
bases_le [] = omega arith
bases_le (t ∷ ts) = omega (arith, base_size_le t, bases_le ts)

-- What change outputs add.
abbrev change_size : List ℕ → ℕ → ℕ
change_size types n = add_change types n 0

add_change-change_size :
    (types : List ℕ) (n total : ℕ) → add_change types n total ≡ total + change_size types n
unfolding add_change
add_change-change_size types n total = ground arith

-- The estimate that counts witnesses (four times the virtual size) is four times the estimate of plain bytes, with
-- one byte more for each Taproot receiver, and the size of the witnesses; these are at least 66 and at most 132
-- bytes for each P2WPKH, P2WSH or Taproot input, none for another, and two more when there are any.
pub transaction_size_estimate_v2-bounds :
    (types : List ℕ) (n : ℕ) (inputs : List ℕ)
    → ((transaction_size_estimate_v2 types n inputs).0
        ≡ 4 * (transaction_size_estimate types n inputs + count_p2tr types)
          + (transaction_size_estimate_v2 types n inputs).1)
      × (66 * count_witness inputs ≤ (transaction_size_estimate_v2 types n inputs).1)
      × ((transaction_size_estimate_v2 types n inputs).1
          ≤ 132 * count_witness inputs + (if 0 == count_witness inputs then 0 else 2))
unfolding transaction_size_estimate transaction_size_estimate_v2
transaction_size_estimate_v2-bounds types n inputs =
    let old_inputs = add_sizes-sum_by input_size 10 inputs in
    let old_outputs = add_sizes-sum_by output_size (add_sizes input_size 10 inputs) types in
    let old_change =
      add_change-change_size types n
        (add_sizes output_size (add_sizes input_size 10 inputs) types) in
    let new_inputs = add_sizes-sum_by base_size 9 inputs in
    let new_outputs = add_sizes-sum_by output_size_v2 (add_sizes base_size 9 inputs + 1) types in
    let new_change =
      add_change-change_size types n
        (add_sizes output_size_v2 (add_sizes base_size 9 inputs + 1) types) in
    let wits = add_sizes-sum_by witness_size 0 inputs in
    let between = witnesses_between inputs in
    (
      omega (
        arith,
        old_inputs,
        old_outputs,
        old_change,
        new_inputs,
        new_outputs,
        new_change,
        outputs_differ types,
        inputs_same inputs,
      ),
      ground (arith, wits, between.0),
      ground (arith, wits, between.0, between.1),
    )

-- The weight of a consolidation with one output is bounded by its number of inputs.
pub consolidation_size_le :
    (inputs : List ℕ)
    → (transaction_size_estimate_v2 (p2wpkh ∷ []) 1 inputs).0 ≤ 168 + 1320 * length inputs
unfolding transaction_size_estimate_v2 add_sizes output_size_v2 add_change
consolidation_size_le inputs =
    let new_inputs = add_sizes-sum_by base_size 9 inputs in
    let wits = add_sizes-sum_by witness_size 0 inputs in
    ground (arith, new_inputs, wits, witnesses_le inputs, bases_le inputs)
