-- ===== src/Payout/Waiting.antt =====
-- No request waits too long for `SelectWithdrawals` (internal/wallet/withdraw_strategy.go).
use mathlib.Core.List.{Permᴰ, Memᴰ}
use goat_relayer.Prelude.{
  ℕ, suc, ◌+◌, ◌-◌, ◌/◌, ◌≤◌, ◌<◌, ◌≡◌, refl, sym, ◌∙◌, ap, subst, ◌⊎◌, inl, inr, List, [], ◌∷◌,
  take, Bool, true, false, ◌&&◌, ◌||◌, arith, length, leb, ltb, if-split,
}
use goat_relayer.Store.{Withdraw}
use goat_relayer.Payout.{
  NetworkFee, Group, group1, group2, group3, in_group, Payable, PayResult, ok, err, nothing_ready,
  Limits, should_process, group_of, apply_group, try_group, select_withdrawals,
}
use goat_relayer.Payout.Ready.{
  List-split, InGroup, in_group_iff, unix, IsSorted, by_age_first, Permᴰ-Memᴰ, keep-Memᴰ,
}

no_Memᴰ : {A : Type 0} (a : A) → Memᴰ a [] → ⊥
no_Memᴰ a m = elim m [ ]

List-cases : {A : Type 0} (xs : List A) → (xs ≡ []) ⊎ ((x : A) × (rest : List A) × (xs ≡ x ∷ rest))
List-cases [] = inl refl
List-cases (x ∷ xs) = inr (x, xs, refl)

or_true : (a b c : Bool) → c ≡ true → (a || (b || c)) ≡ true
or_true true b c h = refl
or_true false true c h = refl
or_true false false c h = h

nonempty : {A : Type 0} {x : A} {xs : List A} → [] ≡ x ∷ xs → ⊥
nonempty h = absurd cc

-- Some withdrawals are paid.
abbrev pub Pays : PayResult → Type 0
Pays r = (p : Payable) × (r ≡ ok p)

should_process_old :
    (now : ℕ) (created : Withdraw → ℕ) (address_type : ℕ → ℕ) (l : Limits) (w : Withdraw)
    (count : ℕ)
    → l.wait_time2 < now - created w
    → should_process now created address_type l w count ≡ true
unfolding should_process
should_process_old now created address_type l w count old =
    or_true (leb l.immediate_count count)
      (ltb l.wait_time1 (now - created w) && leb (l.immediate_count / 3) count)
      (ltb l.wait_time2 (now - created w)) (ground (arith, old))

module _ (now : ℕ) (created : Withdraw → ℕ) (address_type : ℕ → ℕ)
    (by_price by_age : List Withdraw → List Withdraw)
    (by_price-Perm : (ws : List Withdraw) → Permᴰ ws (by_price ws))
    (by_age-Perm : (ws : List Withdraw) → Permᴰ ws (by_age ws))
    (by_age-IsSorted : (ws : List Withdraw) → IsSorted (unix created) (by_age ws)) where
  first_by_age :
      (ws : List Withdraw) (w : Withdraw)
      → Memᴰ w ws
      → (v : Withdraw) × (rest : List Withdraw) × (by_age ws ≡ v ∷ rest)
  first_by_age ws w m = elim (List-cases (by_age ws)) [
    | inl empty ↦
        absurd (no_Memᴰ w (subst (Memᴰ w) empty (Permᴰ-Memᴰ w ws (by_age ws) (by_age-Perm ws) m)))
    | inr first ↦ first
  ]

  -- The first of a group that is not empty, when an output is allowed.
  apply_group-first :
      (l : Limits) (f : NetworkFee) (g : Group) (ws : List Withdraw) (v : Withdraw)
      (rest : List Withdraw)
      → 1 ≤ l.max_vout
      → by_age (group_of now created address_type by_price by_age f g ws) ≡ v ∷ rest
      → apply_group now created address_type by_price by_age l f g ws
        ≡ v ∷ take (l.max_vout - 1) rest
  unfolding apply_group
  apply_group-first l f g ws v rest some_out same =
      let one_more : l.max_vout ≡ suc (l.max_vout - 1) = omega (arith, some_out) in
      ap (take l.max_vout) same ∙ ap (λ n. take n (v ∷ rest)) one_more

  -- A group is either passed over or pays.
  try_group-Pays :
      (l : Limits) (f : NetworkFee) (g : Group) (ws : List Withdraw) (later : PayResult)
      → 1 ≤ l.max_vout
      → Pays later
      → Pays (try_group now created address_type by_price by_age l f g ws later)
  unfolding try_group
  try_group-Pays l f g ws later some_out pays =
      let group = group_of now created address_type by_price by_age f g ws in
      List-split Pays group (λ _. pays)
        (λ u others full.
          List-split Pays (apply_group now created address_type by_price by_age l f g ws)
            (λ none_left.
              let here : Memᴰ u group = subst (Memᴰ u) (sym full) (Memᴰ.head refl) in
              let first = first_by_age group u here in
              absurd (
                nonempty
                  (sym none_left ∙ apply_group-first l f g ws first.0 first.1 some_out first.2)))
            (λ w rest _.
              if-split Pays (should_process now created address_type l w (length (w ∷ rest)))
                (λ _. (_, refl)) (λ _. pays)))

  -- A group with a request that has waited pays.
  try_group-waited :
      (l : Limits) (f : NetworkFee) (g : Group) (ws : List Withdraw) (later : PayResult)
      (w : Withdraw)
      → 1 ≤ l.max_vout
      → Memᴰ w ws
      → InGroup f g w
      → l.wait_time2 + 1_000_000_000 ≤ now - created w
      → Pays (try_group now created address_type by_price by_age l f g ws later)
  unfolding try_group group_of
  try_group-waited l f g ws later w some_out known member old =
      let group = group_of now created address_type by_price by_age f g ws in
      let here : Memᴰ w group =
        keep-Memᴰ (in_group f g) w (by_price ws) ((in_group_iff f g w).1 member)
          (Permᴰ-Memᴰ w ws (by_price ws) (by_price-Perm ws) known) in
      let first = first_by_age group w here in
      let oldest : created first.0 / 1_000_000_000 ≤ created w / 1_000_000_000 =
        by_age_first now created address_type by_price by_age by_price-Perm by_age-Perm
          by_age-IsSorted group first.0 first.1 w first.2 here in
      List-split Pays group (λ empty. absurd (no_Memᴰ w (subst (Memᴰ w) empty here)))
        (λ _ _ _. rw (apply_group-first l f g ws first.0 first.1 some_out first.2) (
          if-split Pays
            (should_process now created address_type l first.0
              (length (first.0 ∷ take (l.max_vout - 1) first.1)))
            (λ _. (_, refl))
            (λ not_ready. absurd (
              let ready : true ≡ false =
                sym (
                  should_process_old now created address_type l first.0
                    (length (first.0 ∷ take (l.max_vout - 1) first.1)) (omega (arith, old, oldest)))
                ∙ not_ready in
              cc))))

  -- When the network fee is allowed and outputs are, sorting permutes, and by age sorts by the second of creation,
  -- SelectWithdrawals pays some withdrawals as soon as one request of a fee group has waited a second longer
  -- than the second wait time.
  pub select_withdrawals-Pays :
      (l : Limits) (f : NetworkFee) (g : Group) (ws : List Withdraw) (w : Withdraw)
      → f.fastest_fee ≤ l.max_network_fee
      → 1 ≤ l.max_vout
      → Memᴰ w ws
      → InGroup f g w
      → l.wait_time2 + 1_000_000_000 ≤ now - created w
      → Pays (select_withdrawals now created address_type by_price by_age l f ws)
  unfolding select_withdrawals
  select_withdrawals-Pays l f g ws w fee some_out known member old =
      let third : PayResult =
        try_group now created address_type by_price by_age l f group3 ws (err nothing_ready) in
      let second : PayResult =
        try_group now created address_type by_price by_age l f group2 ws third in
      if-split Pays (ltb l.max_network_fee f.fastest_fee)
        (λ high. absurd (ground (arith, high, fee)))
        (λ _.
          elim g
              as (λ g.
                InGroup f g w
                → Pays (try_group now created address_type by_price by_age l f group1 ws second)) [
                  | group1 ↦
                      λ member. try_group-waited l f group1 ws second w some_out known member old
                  | group2 ↦ λ member.
                      try_group-Pays l f group1 ws second some_out
                        (try_group-waited l f group2 ws third w some_out known member old)
                  | group3 ↦ λ member. try_group-Pays l f group1 ws second some_out (
                      try_group-Pays l f group2 ws third some_out (
                        try_group-waited l f group3 ws (err nothing_ready) w some_out known member
                          old))
                ]
            member)
