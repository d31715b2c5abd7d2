-- ===== src/Select/Chosen.antt =====
-- The loop of the two consolidations of internal/wallet/withdraw_strategy.go.
use goat_relayer.Prelude.{
  ℕ, ◌+◌, ◌^◌, ◌≤◌, ◌<◌, ◌≡◌, refl, sym, ◌∙◌, inl, inr, List, [], ◌∷◌, ◌++◌, Bool, true, false,
  arith, All, length, leb, ltb, if-split, if◌then◌else◌,
}
use mathlib.Core.List.{append_assoc, append-nil}
use goat_relayer.Store.{Utxo}
use goat_relayer.Int64.{add64, add64_small, lt64, lt64_small}
use goat_relayer.Select.{consolidated_type, small_utxos}
use goat_relayer.Select.Sub.{total_of, Sub}

-- A UTXO that is consolidated.
abbrev pub Small : ℕ → Utxo → Type 0
Small threshold u = u.amount < threshold × (consolidated_type u.receiver_type ≡ true)

-- Small UTXOs of the list stand behind what was selected before.
abbrev pub Chosen : ℕ → List Utxo → ℕ → List Utxo → List Utxo × ℕ → Type 0
Chosen threshold selected total us r =
    (xs : List Utxo) × (r.0 ≡ selected ++ xs)
    × Sub xs us
    × All (Small threshold) xs
    × (r.1 ≡ total + total_of xs)

Sub-skip : (xs us : List Utxo) (u : Utxo) → Sub xs us → Sub xs (u ∷ us)
Sub-skip [] us u s = tt
Sub-skip (x ∷ xs) us u s = inr s

Chosen-skip :
    (threshold : ℕ) (selected : List Utxo) (total : ℕ) (u : Utxo) (us : List Utxo)
    (r : List Utxo × ℕ)
    → Chosen threshold selected total us r
    → Chosen threshold selected total (u ∷ us) r
Chosen-skip threshold selected total u us r (xs, e, s, a, t) = (xs, e, Sub-skip xs us u s, a, t)

Chosen-take :
    (threshold : ℕ) (selected : List Utxo) (total : ℕ) (u : Utxo) (us : List Utxo)
    (r : List Utxo × ℕ)
    → Small threshold u
    → Chosen threshold (selected ++ u ∷ []) (total + u.amount) us r
    → Chosen threshold selected total (u ∷ us) r
Chosen-take threshold selected total u us r small (xs, e, s, a, t) =
    (u ∷ xs, e ∙ append_assoc selected (u ∷ []) xs, inl (refl, s), (small, a), omega (arith, t))

Chosen-stop :
    (threshold : ℕ) (selected : List Utxo) (total : ℕ) (us : List Utxo)
    → Chosen threshold selected total us (selected, total)
Chosen-stop threshold selected total us = ([], sym (append-nil selected), tt, tt, omega arith)

-- The round of the loop for a UTXO of a type that is consolidated.
small_round :
    (threshold max_vin : ℕ) (u : Utxo) (us selected : List Utxo) (total : ℕ) (fits : Bool)
    → (fits ≡ true → u.amount < threshold)
    → consolidated_type u.receiver_type ≡ true
    → total + u.amount < 2 ^ 63
    → ((selected' : List Utxo) (total' : ℕ)
        → total' ≤ total + u.amount
        → Chosen threshold selected' total' us (small_utxos threshold max_vin us selected' total'))
    → let selected' = if fits then selected ++ u ∷ [] else selected in
      let total' = if fits then add64 total u.amount else total in
      Chosen threshold selected total (u ∷ us) (
        if leb max_vin (length selected')
        then (selected', total')
        else small_utxos threshold max_vin us selected' total')
small_round threshold max_vin u us selected total true below kind small rest =
    let sum : add64 total u.amount ≡ total + u.amount = add64_small total u.amount small in
    if-split (Chosen threshold selected total (u ∷ us)) (leb max_vin (length (selected ++ u ∷ [])))
      (λ _.
        Chosen-take threshold selected total u us (selected ++ u ∷ [], add64 total u.amount)
          (below refl, kind)
          (rw sum (Chosen-stop threshold (selected ++ u ∷ []) (total + u.amount) us)))
      (λ _.
        Chosen-take threshold selected total u us
          (small_utxos threshold max_vin us (selected ++ u ∷ []) (add64 total u.amount))
          (below refl, kind) (rw sum (rest (selected ++ u ∷ []) (total + u.amount) (omega arith))))
small_round threshold max_vin u us selected total false below kind small rest =
    if-split (Chosen threshold selected total (u ∷ us)) (leb max_vin (length selected))
      (λ _. Chosen-stop threshold selected total (u ∷ us))
      (λ _.
        Chosen-skip threshold selected total u us (small_utxos threshold max_vin us selected total)
          (rest selected total (omega arith)))

pub small_utxos-Chosen :
    (threshold max_vin : ℕ) (us selected : List Utxo) (total : ℕ)
    → threshold < 2 ^ 63
    → total + total_of us < 2 ^ 63
    → Chosen threshold selected total us (small_utxos threshold max_vin us selected total)
unfolding small_utxos
small_utxos-Chosen threshold max_vin [] selected total t h = Chosen-stop threshold selected total []
small_utxos-Chosen threshold max_vin (u ∷ us) selected total t h =
    if-split (Chosen threshold selected total (u ∷ us)) (consolidated_type u.receiver_type)
      (λ kind.
        small_round threshold max_vin u us selected total (lt64 u.amount threshold)
          (λ fits.
            let same : lt64 u.amount threshold ≡ ltb u.amount threshold =
              lt64_small u.amount threshold (omega arith) t in
            ground (arith, same, fits))
          kind (omega arith)
          (λ selected' total' le.
            small_utxos-Chosen threshold max_vin us selected' total' t (omega (arith, le))))
      (λ _.
        Chosen-skip threshold selected total u us (small_utxos threshold max_vin us selected total)
          (small_utxos-Chosen threshold max_vin us selected total t (omega arith)))
