-- ===== src/Size.antt =====
-- internal/types/utxo.go: the estimates of a transaction's size (`TransactionSizeEstimate`,
-- `TransactionSizeEstimateV2`) and `GetDustAmount`.
-- A virtual size is a number of quarter bytes, which is the weight: the source's float64 is a quarter of it, and
-- exact for a weight below 2 ^ 53. Counts of inputs and outputs stay far from the bounds of int64.
pub mod Laws
use goat_relayer.Prelude.{ℕ, ◌+◌, ◌-◌, ◌*◌, List, [], ◌∷◌, Bool, length, ◌==◌, ltb, if◌then◌else◌}
use goat_relayer.Int64.{mul64}

-- The texts of the receiver types.
abbrev pub p2wpkh : ℕ
p2wpkh = 1

abbrev pub p2pkh : ℕ
p2pkh = 2

abbrev pub p2sh : ℕ
p2sh = 3

abbrev pub p2wsh : ℕ
p2wsh = 4

abbrev pub p2tr : ℕ
p2tr = 5

unfoldable pub get_dust_amount : ℕ → ℕ
get_dust_amount tx_price = mul64 (mul64 tx_price 31) 3

-- The case of an input in `TransactionSizeEstimate`.
unfoldable pub input_size : ℕ → ℕ
input_size t =
    if t == p2wpkh
    then 41
    else (if t == p2pkh
        then 148
        else (if t == p2wsh
            then 41
            else (if t == p2sh then 296 else (if t == p2tr then 41 else 0))))

unfoldable pub output_size : ℕ → ℕ
output_size t =
    if t == p2pkh
    then 34
    else (if t == p2wpkh
        then 31
        else (if t == p2sh then 32 else (if t == p2wsh then 43 else (if t == p2tr then 42 else 0))))

-- The loops add up the cases.
unfoldable pub add_sizes : (ℕ → ℕ) → ℕ → List ℕ → ℕ
add_sizes size total [] = total
add_sizes size total (t ∷ ts) = add_sizes size (total + size t) ts

-- Outputs beyond the receivers are change outputs to P2WPKH.
unfoldable pub add_change : List ℕ → ℕ → ℕ → ℕ
add_change receiver_types num_outputs total =
    if ltb (length receiver_types) num_outputs
    then total + 31 * (num_outputs - length receiver_types)
    else total

unfoldable pub transaction_size_estimate : List ℕ → ℕ → List ℕ → ℕ
unfolding input_size output_size add_sizes add_change
transaction_size_estimate receiver_types num_outputs utxo_types =
    add_change receiver_types num_outputs
      (add_sizes output_size (add_sizes input_size 10 utxo_types) receiver_types)

-- The cases of `TransactionSizeEstimateV2`: base sizes of inputs, their witnesses, and outputs.
unfoldable pub base_size : ℕ → ℕ
base_size t =
    if t == p2wpkh
    then 41
    else (if t == p2pkh
        then 148
        else (if t == p2wsh
            then 41
            else (if t == p2sh then 296 else (if t == p2tr then 41 else 0))))

unfoldable pub witness_size : ℕ → ℕ
witness_size t =
    if t == p2wpkh
    then 108
    else (if t == p2pkh
        then 0
        else (if t == p2wsh then 132 else (if t == p2sh then 0 else (if t == p2tr then 66 else 0))))

unfoldable pub output_size_v2 : ℕ → ℕ
output_size_v2 t =
    if t == p2pkh
    then 34
    else (if t == p2wpkh
        then 31
        else (if t == p2sh then 32 else (if t == p2wsh then 43 else (if t == p2tr then 43 else 0))))

-- The virtual size in quarter bytes, and the size of the witnesses.
unfoldable pub transaction_size_estimate_v2 : List ℕ → ℕ → List ℕ → ℕ × ℕ
unfolding base_size witness_size output_size_v2 add_sizes add_change
transaction_size_estimate_v2 receiver_types num_outputs utxo_types =
    let inputs = add_sizes base_size 9 utxo_types in
    let witnesses = add_sizes witness_size 0 utxo_types in
    let base =
      add_change receiver_types num_outputs
        (add_sizes output_size_v2 (inputs + 1) receiver_types) in
    let witness = if ltb 0 witnesses then witnesses + 2 else witnesses in
    (base * 4 + witness, witness)
