-- ===== src/Select.antt =====
-- internal/wallet/withdraw_strategy.go: the selection of UTXOs for withdrawals (`SelectOptimalUTXOs`) and
-- for consolidation (`ConsolidateSmallUTXOs`, `ConsolidateUTXOsByCount`).
-- An int64 is its 64 bits as a number below 2 ^ 64. `sort.Slice` of the standard library is a parameter, once for
-- each order. A fee in float64 is a number of quarter satoshis, as sizes are quarter bytes.
pub mod Sub
pub mod Pick
pub mod Settle
pub mod Optimal
pub mod Chosen
pub mod Consolidate
use goat_relayer.Prelude.{
  ℕ, ◌+◌, ◌*◌, ◌/◌, List, [], ◌∷◌, ◌++◌, map, Bool, true, false, not, ◌&&◌, ◌||◌, Option, none,
  some, length, ◌==◌, ltb, leb, if◌then◌else◌,
}
use goat_relayer.Store.{Utxo}
use goat_relayer.Size.{p2wpkh, p2wsh, p2pkh, get_dust_amount, transaction_size_estimate_v2}
use goat_relayer.Int64.{add64, sub64, mul64, lt64}

pub data SelectError : Type 0 where
  fee_too_high not_enough_utxos amount_too_low : SelectError

pub data Selected {ℓ} (A : Type ℓ) : Type ℓ where
  ok : A → Selected A
  err : SelectError → Selected A

-- `types.SMALL_UTXO_DEFINE`, 0.5 BTC.
abbrev pub small_utxo_define : ℕ
small_utxo_define = 50000000

-- The first UTXO that alone covers the required amount.
unfoldable pub pick_single : ℕ → List Utxo → Option Utxo
pick_single required [] = none
pick_single required (u ∷ us) =
    let rest = pick_single required us in if not (lt64 u.amount required) then some u else rest

-- The first two neighbours that together cover it.
unfoldable pub pick_pair : ℕ → List Utxo → Option (Utxo × Utxo)
pick_pair required [] = none
pick_pair required (a ∷ []) = none
pick_pair required (a ∷ b ∷ us) =
    let rest = pick_pair required (b ∷ us) in
    if not (lt64 (add64 a.amount b.amount) required) then some (a, b) else rest

-- The loop that takes UTXOs until they cover the required amount, at most `max_vin` of them.
unfoldable pub accumulate : ℕ → ℕ → List Utxo → List Utxo → ℕ → List Utxo × ℕ
accumulate required max_vin [] selected total = (selected, total)
accumulate required max_vin (u ∷ us) selected total =
    let selected' = selected ++ u ∷ [] in
    let total' = add64 total u.amount in
    let rest = accumulate required max_vin us selected' total' in
    if not (lt64 total required)
    then (selected, total)
    else (if leb max_vin (length selected') then (selected', total') else rest)

-- The selected UTXOs, their sum, and the UTXOs in the order that the slice has afterwards.
unfoldable pub pick :
    (List Utxo → List Utxo)
    → (List Utxo → List Utxo)
    → ℕ
    → ℕ
    → List Utxo
    → List Utxo × ℕ × List Utxo
unfolding pick_single pick_pair accumulate
pick sort_ascending sort_descending required max_vin utxos =
    let ascending = sort_ascending utxos in
    elim (pick_single required ascending) [
      | some u ↦ (u ∷ [], u.amount, ascending)
      | none ↦ elim (pick_pair required ascending) [
        | some p ↦ (p.0 ∷ p.1 ∷ [], add64 p.0.amount p.1.amount, ascending)
        | none ↦
            (let descending = sort_descending ascending in
              let taken = accumulate required max_vin descending [] 0 in
              (taken.0, taken.1, descending))
      ]
    ]

-- `isAlreadySelected`.
unfoldable pub already_selected : Utxo → List Utxo → Bool
already_selected u [] = false
already_selected u (s ∷ ss) =
    let rest = already_selected u ss in
    if s.txid == u.txid && s.out_index == u.out_index then true else rest

-- `smallestUTXO == nil || utxo.Amount < smallestUTXO.Amount`.
unfoldable pub is_smaller : Utxo → Option Utxo → Bool
is_smaller u none = true
is_smaller u (some best) = lt64 u.amount best.amount

unfoldable pub smallest_utxo : ℕ → List Utxo → List Utxo → Option Utxo → Option Utxo
unfolding already_selected is_smaller
smallest_utxo network_fee selected [] best = best
smallest_utxo network_fee selected (u ∷ us) best = smallest_utxo network_fee selected us (
    if already_selected u selected
    then best
    else (if lt64 (mul64 network_fee (296 + 31)) u.amount && is_smaller u best
        then some u
        else best))

-- Whether the smallest UTXO is appended.
unfoldable pub append_smallest : Option Utxo → List Utxo → ℕ → List Utxo × ℕ
append_smallest none selected total = (selected, total)
append_smallest (some u) selected total =
    if lt64 0 u.amount && lt64 u.amount small_utxo_define
    then (selected ++ u ∷ [], add64 total u.amount)
    else (selected, total)

unfoldable pub types_of : List Utxo → List ℕ
types_of [] = []
types_of (u ∷ us) = u.receiver_type ∷ types_of us

-- What `SelectOptimalUTXOs` returns: the UTXOs, their sum, the amount to withdraw, the change, the fee
-- in quarter satoshis, and the size of the witnesses.
pub record Selection : Type 0 where
  pub utxos : List Utxo
  pub total : ℕ
  pub withdraw_amount : ℕ
  pub change : ℕ
  pub fee : ℕ
  pub witness : ℕ

-- The end: the check of the sum, the change and the fee.
unfoldable pub settle_change : List ℕ → ℕ → ℕ → ℕ → ℕ → List Utxo × ℕ → Selected Selection
unfolding types_of
settle_change receiver_types withdraw_amount required network_fee withdraw_total taken =
    let types = types_of taken.0 in
    let size = transaction_size_estimate_v2 receiver_types withdraw_total types in
    let with_change = transaction_size_estimate_v2 receiver_types (withdraw_total + 1) types in
    let change = sub64 taken.1 withdraw_amount in
    if lt64 taken.1 required
    then err not_enough_utxos
    else (if lt64 (get_dust_amount network_fee) change
        then ok record {
          utxos = taken.0;
          total = taken.1;
          withdraw_amount = withdraw_amount;
          change = change;
          fee = with_change.0 * network_fee;
          witness = with_change.1;
        }
        else ok record {
          utxos = taken.0;
          total = taken.1;
          withdraw_amount = withdraw_amount;
          change = 0;
          fee = size.0 * network_fee + 4 * change;
          witness = size.1;
        })

unfoldable pub max_vin_of : ℕ → ℕ
max_vin_of required = if lt64 5000000000 required then 50 else 10

unfoldable pub select_optimal_utxos :
    (List Utxo → List Utxo)
    → (List Utxo → List Utxo)
    → List Utxo
    → List ℕ
    → ℕ
    → ℕ
    → ℕ
    → ℕ
    → Selected Selection
unfolding pick smallest_utxo append_smallest settle_change max_vin_of
select_optimal_utxos sort_ascending sort_descending utxos receiver_types withdraw_amount
      external_amount network_fee withdraw_total =
    let required = add64 withdraw_amount external_amount in
    let picked = pick sort_ascending sort_descending required (max_vin_of required) utxos in
    let taken =
      append_smallest (smallest_utxo network_fee picked.0 picked.2 none) picked.0 picked.1 in
    settle_change receiver_types withdraw_amount required network_fee withdraw_total taken

-- `BTCMaxNetworkFee` of the configuration is `max_network_fee`; the receiver types that are consolidated.
unfoldable pub consolidated_type : ℕ → Bool
consolidated_type t = t == p2wpkh || (t == p2wsh || t == p2pkh)

-- The loop that both functions share: UTXOs below the threshold, at most `max_vin` of them. The limit is
-- not tested after a UTXO of another type.
unfoldable pub small_utxos : ℕ → ℕ → List Utxo → List Utxo → ℕ → List Utxo × ℕ
small_utxos threshold max_vin [] selected total = (selected, total)
small_utxos threshold max_vin (u ∷ us) selected total =
    let fits = lt64 u.amount threshold in
    let selected' = if fits then selected ++ u ∷ [] else selected in
    let total' = if fits then add64 total u.amount else total in
    let rest = small_utxos threshold max_vin us selected' total' in
    if consolidated_type u.receiver_type
    then (if leb max_vin (length selected') then (selected', total') else rest)
    else small_utxos threshold max_vin us selected total

-- What a consolidation returns: the UTXOs, their sum, the sum less the fee, and the witnesses' size,
-- which only `ConsolidateUTXOsByCount` passes on.
pub record Consolidation : Type 0 where
  pub utxos : List Utxo
  pub total : ℕ
  pub final_amount : ℕ
  pub witness : ℕ

-- The end that both functions share: `math.Ceil` of the size, the dust limit, and the fee.
unfoldable pub settle_consolidation : ℕ → List Utxo × ℕ → Selected Consolidation
unfolding types_of
settle_consolidation network_fee taken =
    let size = transaction_size_estimate_v2 (p2wpkh ∷ []) 1 (types_of taken.0) in
    let final = sub64 taken.1 (mul64 ((size.0 + 3) / 4) network_fee) in
    if lt64 taken.1 (get_dust_amount network_fee)
    then err amount_too_low
    else (if lt64 0 final
        then ok record { utxos = taken.0; total = taken.1; final_amount = final; witness = size.1 }
        else err fee_too_high)

unfoldable pub consolidate_small_utxos : ℕ → List Utxo → ℕ → ℕ → ℕ → ℕ → Selected Consolidation
unfolding consolidated_type small_utxos settle_consolidation
consolidate_small_utxos max_network_fee utxos network_fee threshold max_vin trigger =
    let triger_num = if ltb trigger 10 then 500 else trigger in
    let taken = small_utxos threshold max_vin utxos [] 0 in
    if lt64 max_network_fee network_fee
    then err fee_too_high
    else (if ltb (length utxos) triger_num
        then err not_enough_utxos
        else (if ltb (length taken.0) triger_num
            then err not_enough_utxos
            else settle_consolidation network_fee taken))

unfoldable pub consolidate_utxos_by_count : ℕ → List Utxo → ℕ → ℕ → ℕ → ℕ → Selected Consolidation
unfolding consolidated_type small_utxos settle_consolidation
consolidate_utxos_by_count max_network_fee utxos network_fee threshold max_vin triger_num =
    let taken = small_utxos threshold max_vin utxos [] 0 in
    if lt64 max_network_fee network_fee
    then err fee_too_high
    else (if ltb (length utxos) triger_num
        then err not_enough_utxos
        else settle_consolidation network_fee taken)
