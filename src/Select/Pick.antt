-- ===== src/Select/Pick.antt =====
-- What the loops of `SelectOptimalUTXOs` pick (internal/wallet/withdraw_strategy.go).
use goat_relayer.Prelude.{
  ℕ, suc, ◌+◌, ◌^◌, ◌≤◌, ◌<◌, ◌≡◌, refl, sym, ◌∙◌, ap, subst, inl, inr, List, [], ◌∷◌, ◌++◌, true,
  false, not, ◌&&◌, Option, some, arith, All, take, length, length-append, leb, ltb, leb→le, ◌==◌,
  if-split, if◌then◌else◌,
}
use mathlib.Core.List.{append_assoc, append-nil}
use goat_relayer.Store.{Utxo}
use goat_relayer.Int64.{add64, add64_small, lt64, lt64_small, mul64}
use goat_relayer.Select.{
  pick_single, pick_pair, accumulate, already_selected, is_smaller, smallest_utxo,
}
use goat_relayer.Select.Sub.{total_of, Apart, Sub}

-- `x >= y` on small amounts.
pub covers : (x y : ℕ) → x < 2 ^ 63 → y < 2 ^ 63 → not (lt64 x y) ≡ true → y ≤ x
covers x y p q h = let same : lt64 x y ≡ ltb x y = lt64_small x y p q in ground (arith, same, h)

pub covers_not : (x y : ℕ) → x < 2 ^ 63 → y < 2 ^ 63 → not (lt64 x y) ≡ false → x < y
covers_not x y p q h = let same : lt64 x y ≡ ltb x y = lt64_small x y p q in ground (arith, same, h)

pub pick_single-Sub :
    (required : ℕ) (us : List Utxo) (u : Utxo)
    → required < 2 ^ 63
    → total_of us < 2 ^ 63
    → pick_single required us ≡ some u
    → Sub (u ∷ []) us × (required ≤ u.amount)
unfolding pick_single
pick_single-Sub required [] u r t = λ h. absurd cc
pick_single-Sub required (x ∷ us) u r t =
    if-split (λ o. o ≡ some u → Sub (u ∷ []) (x ∷ us) × (required ≤ u.amount))
      (not (lt64 x.amount required))
      (λ fits h.
        let same : u ≡ x = cc in
        (
          inl (same, tt),
          subst (λ v. required ≤ v.amount) (sym same)
              (covers x.amount required (omega arith) r fits),
        ))
      (λ _ h. let rest = pick_single-Sub required us u r (omega arith) h in (inr rest.0, rest.1))

pub pick_pair-Sub :
    (required : ℕ) (us : List Utxo) (p : Utxo × Utxo)
    → required < 2 ^ 63
    → total_of us < 2 ^ 63
    → pick_pair required us ≡ some p
    → Sub (p.0 ∷ p.1 ∷ []) us × (required ≤ p.0.amount + p.1.amount)
unfolding pick_pair
pick_pair-Sub required [] p r t = λ h. absurd cc
pick_pair-Sub required (a ∷ []) p r t = λ h. absurd cc
pick_pair-Sub required (a ∷ b ∷ us) p r t =
    if-split
      (λ o. o ≡ some p → Sub (p.0 ∷ p.1 ∷ []) (a ∷ b ∷ us) × (required ≤ p.0.amount + p.1.amount))
      (not (lt64 (add64 a.amount b.amount) required))
      (λ fits h.
        let same : (a, b) ≡ p = some_same h in
        let sum : add64 a.amount b.amount ≡ a.amount + b.amount =
          add64_small a.amount b.amount (omega arith) in
        (
          inl (ap (λ q. q.0) (sym same), inl (ap (λ q. q.1) (sym same), tt)),
          subst (λ (q : Utxo × Utxo). required ≤ q.0.amount + q.1.amount) same
              (covers (a.amount + b.amount) required (omega arith) r
                (subst (λ x. not (lt64 x required) ≡ true) sum fits)),
        ))
      (λ _ h.
        let rest = pick_pair-Sub required (b ∷ us) p r (omega arith) h in (inr rest.0, rest.1))
  where
    some_same : {x y : Utxo × Utxo} → some x ≡ some y → x ≡ y
    some_same h = cc

-- A prefix of the list stands behind what was selected before, and the sum is what the prefix adds.
abbrev pub Taken : List Utxo → ℕ → List Utxo → List Utxo × ℕ → Type 0
Taken selected total us r =
    (k : ℕ) × (r.0 ≡ selected ++ take k us) × (r.1 ≡ total + total_of (take k us))

Taken-step :
    (selected : List Utxo) (total : ℕ) (u : Utxo) (us : List Utxo) (r : List Utxo × ℕ)
    → Taken (selected ++ u ∷ []) (total + u.amount) us r
    → Taken selected total (u ∷ us) r
Taken-step selected total u us r (k, e, f) =
    (suc k, e ∙ append_assoc selected (u ∷ []) (take k us), omega (arith, f))

pub accumulate-Taken :
    (required max_vin : ℕ) (us selected : List Utxo) (total : ℕ)
    → total + total_of us < 2 ^ 63
    → Taken selected total us (accumulate required max_vin us selected total)
unfolding accumulate
accumulate-Taken required max_vin [] selected total h = (0, sym (append-nil selected), omega arith)
accumulate-Taken required max_vin (u ∷ us) selected total h =
    let sum : add64 total u.amount ≡ total + u.amount = add64_small total u.amount (omega arith) in
    if-split (Taken selected total (u ∷ us)) (not (lt64 total required))
      (λ _. (0, sym (append-nil selected), omega arith))
      (λ _.
        if-split (Taken selected total (u ∷ us)) (leb max_vin (length (selected ++ u ∷ [])))
          (λ _. (1, refl, omega (arith, sum)))
          (λ _. rw sum (
            Taken-step selected total u us
              (accumulate required max_vin us (selected ++ u ∷ []) (total + u.amount))
              (accumulate-Taken required max_vin us (selected ++ u ∷ []) (total + u.amount)
                (omega arith)))))

none_left : (us : List Utxo) → length us ≤ 0 → total_of us ≡ 0
none_left [] h = refl
none_left (u ∷ us) h = absurd (omega arith)

-- With room for all of them, the loop covers what the UTXOs can cover.
pub accumulate-covers :
    (required max_vin : ℕ) (us selected : List Utxo) (total : ℕ)
    → required < 2 ^ 63
    → total + total_of us < 2 ^ 63
    → length selected + length us ≤ max_vin
    → required ≤ total + total_of us
    → required ≤ (accumulate required max_vin us selected total).1
unfolding accumulate
accumulate-covers required max_vin [] selected total r h room enough = omega (arith, enough)
accumulate-covers required max_vin (u ∷ us) selected total r h room enough =
    let sum : add64 total u.amount ≡ total + u.amount = add64_small total u.amount (omega arith) in
    let one_more : length (selected ++ u ∷ []) ≡ length selected + 1 =
      length-append selected (u ∷ []) in
    if-split (λ (p : List Utxo × ℕ). required ≤ p.1) (not (lt64 total required))
      (λ fits. covers total required (omega arith) r fits)
      (λ _.
        if-split (λ (p : List Utxo × ℕ). required ≤ p.1) (leb max_vin (length (selected ++ u ∷ [])))
          (λ full. rw sum (
            omega (
              arith,
              enough,
              none_left us
                  (omega (arith, one_more, leb→le max_vin (length (selected ++ u ∷ [])) full)),
            )))
          (λ _. rw sum (
            accumulate-covers required max_vin us (selected ++ u ∷ []) (total + u.amount) r
              (omega arith) (omega (arith, one_more)) (omega arith))))

-- At most `max_vin` inputs are taken.
pub accumulate-length :
    (required max_vin : ℕ) (us selected : List Utxo) (total : ℕ)
    → length selected < max_vin
    → length (accumulate required max_vin us selected total).0 ≤ max_vin
unfolding accumulate
accumulate-length required max_vin [] selected total room = omega arith
accumulate-length required max_vin (u ∷ us) selected total room =
    let one_more : length (selected ++ u ∷ []) ≡ length selected + 1 =
      length-append selected (u ∷ []) in
    if-split (λ (p : List Utxo × ℕ). length p.0 ≤ max_vin) (not (lt64 total required))
      (λ _. omega arith)
      (λ _.
        if-split (λ (p : List Utxo × ℕ). length p.0 ≤ max_vin)
          (leb max_vin (length (selected ++ u ∷ []))) (λ _. omega (arith, one_more))
          (λ more.
            accumulate-length required max_vin us (selected ++ u ∷ []) (add64 total u.amount)
              (ground (arith, more))))

-- The appended UTXO is of the list and not selected before.
pub smallest_utxo-from :
    (Q : Utxo → Type 0) (network_fee : ℕ) (selected us : List Utxo) (best : Option Utxo)
    → All (λ v. already_selected v selected ≡ false → Q v) us
    → ((v : Utxo) → best ≡ some v → Q v)
    → (u : Utxo) → smallest_utxo network_fee selected us best ≡ some u
    → Q u
unfolding smallest_utxo
smallest_utxo-from Q network_fee selected [] best h b = b
smallest_utxo-from Q network_fee selected (x ∷ us) best h b =
    smallest_utxo-from Q network_fee selected us
      (if already_selected x selected
        then best
        else (if lt64 (mul64 network_fee (296 + 31)) x.amount && is_smaller x best
            then some x
            else best))
      h.1
      (λ v.
        if-split (λ o. o ≡ some v → Q v) (already_selected x selected) (λ _ e. b v e)
          (λ new.
            if-split (λ o. o ≡ some v → Q v)
              (lt64 (mul64 network_fee (296 + 31)) x.amount && is_smaller x best)
              (λ _ e. let same : x ≡ v = cc in subst Q same (h.0 new)) (λ _ e. b v e)))

pub already_selected-Apart :
    (u : Utxo) (ss : List Utxo) → already_selected u ss ≡ false → All (λ s. Apart s u) ss
unfolding already_selected
already_selected-Apart u [] = λ h. tt
already_selected-Apart u (s ∷ ss) =
    if-split (λ b. b ≡ false → All (λ x. Apart x u) (s ∷ ss))
      (s.txid == u.txid && s.out_index == u.out_index) (λ _ h. absurd cc)
      (λ other h. ((λ same. ground (arith, other, same)), already_selected-Apart u ss h))
