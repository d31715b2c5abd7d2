-- ===== src/Select/Consolidate.antt =====
-- What the two consolidations of internal/wallet/withdraw_strategy.go return.
use goat_relayer.Prelude.{
  ℕ, ◌+◌, ◌*◌, ◌/◌, ◌^◌, ◌≤◌, ◌<◌, ◌-◌, ◌≡◌, refl, sym, ◌∙◌, ap, subst, inl, inr, List, [], ◌∷◌,
  true, false, arith, All, length, ltb, if-split, if◌then◌else◌,
}
use native.Mathlib.Nat.{mul_comm, mul-le-mul_left}
use goat_relayer.Store.{Utxo}
use goat_relayer.Int64.{sub64, sub64_small, lt64, mul64, mul64_small}
use goat_relayer.Size.{p2wpkh, get_dust_amount, transaction_size_estimate_v2}
use goat_relayer.Size.Laws.{consolidation_size_le}
use goat_relayer.Select.{
  ok, Consolidation, small_utxos, settle_consolidation, types_of, consolidate_small_utxos,
  consolidate_utxos_by_count,
}
use goat_relayer.Select.Sub.{total_of, Sub, Sub-total_of}
use goat_relayer.Select.Chosen.{Small, small_utxos-Chosen}

Sub-length : (xs us : List Utxo) → Sub xs us → length xs ≤ length us
Sub-length [] us s = omega arith
Sub-length (x ∷ xs) [] s = absurd s
Sub-length (x ∷ xs) (u ∷ us) (inl here) = omega (arith, Sub-length xs us here.1)
Sub-length (x ∷ xs) (u ∷ us) (inr later) = omega (arith, Sub-length (x ∷ xs) us later)

length-types_of : (us : List Utxo) → length (types_of us) ≡ length us
unfolding types_of
length-types_of [] = refl
length-types_of (u ∷ us) = omega (arith, length-types_of us)

-- The virtual size of a consolidation, rounded up, times the fee rate.
abbrev pub fee_for : List Utxo → ℕ → ℕ
fee_for us network_fee =
    ((transaction_size_estimate_v2 (p2wpkh ∷ []) 1 (types_of us)).0 + 3) / 4 * network_fee

fee_for-bounded :
    (xs us : List Utxo) (network_fee : ℕ)
    → Sub xs us
    → network_fee * (43 + 330 * length us) < 2 ^ 63
    → fee_for xs network_fee < 2 ^ 63
fee_for-bounded xs us network_fee sub h =
    let size = (transaction_size_estimate_v2 (p2wpkh ∷ []) 1 (types_of xs)).0 in
    let few : (size + 3) / 4 ≤ 43 + 330 * length us =
      omega
        (arith, consolidation_size_le (types_of xs), length-types_of xs, Sub-length xs us sub) in
    let product : network_fee * ((size + 3) / 4) ≤ network_fee * (43 + 330 * length us) =
      mul-le-mul_left network_fee few in
    let swap : (size + 3) / 4 * network_fee ≡ network_fee * ((size + 3) / 4) =
      mul_comm ((size + 3) / 4) network_fee in
    omega (arith, product, swap, h)

positive_sub64 : (a b : ℕ) → a < 2 ^ 63 → b < 2 ^ 63 → lt64 0 (sub64 a b) ≡ true → b < a
positive_sub64 a b p q h = ground arith

-- What a consolidation is: small UTXOs of the list, their sum, and the sum less the fee, which is
-- positive.
abbrev pub IsConsolidation : ℕ → ℕ → List Utxo → Consolidation → Type 0
IsConsolidation network_fee threshold us c =
    Sub c.utxos us
    × All (Small threshold) c.utxos
    × (c.total ≡ total_of c.utxos)
    × (c.final_amount + fee_for c.utxos network_fee ≡ c.total)
    × (0 < c.final_amount)

settle_consolidation-lem :
    (network_fee : ℕ) (r : List Utxo × ℕ) (c : Consolidation)
    → r.1 < 2 ^ 63
    → fee_for r.0 network_fee < 2 ^ 63
    → settle_consolidation network_fee r ≡ ok c
    → (c.utxos ≡ r.0)
      × (c.total ≡ r.1)
      × (c.final_amount + fee_for r.0 network_fee ≡ r.1)
      × (0 < c.final_amount)
unfolding settle_consolidation
settle_consolidation-lem network_fee r c t f =
    let fee = fee_for r.0 network_fee in
    let final = sub64 r.1 (
      mul64 (((transaction_size_estimate_v2 (p2wpkh ∷ []) 1 (types_of r.0)).0 + 3) / 4)
        network_fee) in
    let Goal : Consolidation → Type 0 = λ x.
      (x.utxos ≡ r.0) × (x.total ≡ r.1) × (x.final_amount + fee ≡ r.1) × (0 < x.final_amount) in
    if-split (λ x. x ≡ ok c → Goal c) (lt64 r.1 (get_dust_amount network_fee)) (λ _ h. absurd cc)
      (λ _.
        if-split (λ x. x ≡ ok c → Goal c) (lt64 0 final)
          (λ positive h.
            let exact : final ≡ sub64 r.1 fee = ap (sub64 r.1) (
              mul64_small
                (((transaction_size_estimate_v2 (p2wpkh ∷ []) 1 (types_of r.0)).0 + 3) / 4)
                network_fee f) in
            let less : fee < r.1 =
              positive_sub64 r.1 fee t f (ap (lt64 0) (sym exact) ∙ positive) in
            let plain : final ≡ r.1 - fee = exact ∙ sub64_small r.1 fee (omega arith) t in
            subst Goal (same_ok _ c h)
              (refl, refl, omega (arith, plain, less), omega (arith, plain, less)))
          (λ _ h. absurd cc))
  where
    same_ok : (x y : Consolidation) → ok x ≡ ok y → x ≡ y
    same_ok x y h = cc

chosen-IsConsolidation :
    (network_fee threshold max_vin : ℕ) (us : List Utxo) (c : Consolidation)
    → threshold < 2 ^ 63
    → total_of us < 2 ^ 63
    → network_fee * (43 + 330 * length us) < 2 ^ 63
    → settle_consolidation network_fee (small_utxos threshold max_vin us [] 0) ≡ ok c
    → IsConsolidation network_fee threshold us c
      × (c.utxos ≡ (small_utxos threshold max_vin us [] 0).0)
chosen-IsConsolidation network_fee threshold max_vin us c t h f e =
    let r = small_utxos threshold max_vin us [] 0 in
    let (xs, same, sub, small, sum) =
      small_utxos-Chosen threshold max_vin us [] 0 t (omega arith) in
    let inner = Sub-total_of xs us sub in
    let bound : fee_for r.0 network_fee < 2 ^ 63 =
      subst (λ ys. fee_for ys network_fee < 2 ^ 63) (sym same)
        (fee_for-bounded xs us network_fee sub f) in
    let (here, total, final, positive) =
      settle_consolidation-lem network_fee r c (omega (arith, sum, inner)) bound e in
    let all : c.utxos ≡ xs = here ∙ same in
    let moved : total_of c.utxos ≡ total_of xs = ap total_of all in
    (
      (
        subst (λ ys. Sub ys us) (sym all) sub,
        subst (All (Small threshold)) (sym all) small,
        omega (arith, total, sum, moved),
        subst (λ ys. c.final_amount + fee_for ys network_fee ≡ c.total) (sym here)
            (final ∙ sym total),
        positive,
      ),
      here,
    )

-- If the threshold, all amounts together and the fee for spending every UTXO of the list are in the range of
-- int64, and `ConsolidateSmallUTXOs` succeeds: it returns UTXOs of the list below the threshold and
-- of a type that is consolidated, at least as many as the trigger asks for, the sum of their
-- amounts, and this sum less the fee for their virtual size, which leaves something.
pub consolidate_small_utxos-IsConsolidation :
    (max_fee : ℕ) (us : List Utxo) (network_fee threshold max_vin trigger : ℕ) (c : Consolidation)
    → threshold < 2 ^ 63
    → total_of us < 2 ^ 63
    → network_fee * (43 + 330 * length us) < 2 ^ 63
    → consolidate_small_utxos max_fee us network_fee threshold max_vin trigger ≡ ok c
    → IsConsolidation network_fee threshold us c
      × ((if ltb trigger 10 then 500 else trigger) ≤ length c.utxos)
unfolding consolidate_small_utxos
consolidate_small_utxos-IsConsolidation max_fee us network_fee threshold max_vin trigger c t h f =
    let need = if ltb trigger 10 then 500 else trigger in
    let taken = small_utxos threshold max_vin us [] 0 in
    let Goal : Type 0 = IsConsolidation network_fee threshold us c × (need ≤ length c.utxos) in
    if-split (λ x. x ≡ ok c → Goal) (lt64 max_fee network_fee) (λ _ e. absurd cc)
      (λ _.
        if-split (λ x. x ≡ ok c → Goal) (ltb (length us) need) (λ _ e. absurd cc)
          (λ _.
            if-split (λ x. x ≡ ok c → Goal) (ltb (length taken.0) need) (λ _ e. absurd cc)
              (λ many e.
                let (is, same) =
                  chosen-IsConsolidation network_fee threshold max_vin us c t h f e in
                let size : length c.utxos ≡ length taken.0 = ap length same in
                (is, at_least need (length taken.0) (length c.utxos) many size))))
  where
    at_least : (n m k : ℕ) → ltb m n ≡ false → k ≡ m → n ≤ k
    at_least n m k h e = ground arith

-- Under the same bounds, if `ConsolidateUTXOsByCount` succeeds, it returns such a consolidation too.
pub consolidate_utxos_by_count-IsConsolidation :
    (max_fee : ℕ) (us : List Utxo) (network_fee threshold max_vin trigger : ℕ) (c : Consolidation)
    → threshold < 2 ^ 63
    → total_of us < 2 ^ 63
    → network_fee * (43 + 330 * length us) < 2 ^ 63
    → consolidate_utxos_by_count max_fee us network_fee threshold max_vin trigger ≡ ok c
    → IsConsolidation network_fee threshold us c × (trigger ≤ length us)
unfolding consolidate_utxos_by_count
consolidate_utxos_by_count-IsConsolidation max_fee us network_fee threshold max_vin trigger c t h
      f =
    let Goal : Type 0 = IsConsolidation network_fee threshold us c × (trigger ≤ length us) in
    if-split (λ x. x ≡ ok c → Goal) (lt64 max_fee network_fee) (λ _ e. absurd cc)
      (λ _.
        if-split (λ x. x ≡ ok c → Goal) (ltb (length us) trigger) (λ _ e. absurd cc)
          (λ many e. (
            (chosen-IsConsolidation network_fee threshold max_vin us c t h f e).0,
            ground (arith, many),
          )))
