-- ===== src/Payout/Ready.antt =====
-- What `SelectWithdrawals` (internal/wallet/withdraw_strategy.go) returns.
use mathlib.Core.List.{Permᴰ, Memᴰ}
use goat_relayer.Prelude.{
  ℕ, zero, suc, ◌+◌, ◌-◌, ◌/◌, ◌%◌, ◌^◌, ◌<◌, ◌≤◌, ◌≡◌, ◌↔◌, refl, sym, ◌∙◌, ap, subst, Bool-cases,
  leb, ◌⊎◌, inl, inr, List, [], ◌∷◌, map, keep, take, Bool, true, false, arith, All, length, ltb,
  if-split,
}
use goat_relayer.Table.Evolve.{All-map}
use goat_relayer.Size.{get_dust_amount}
use goat_relayer.Store.{Withdraw}
use goat_relayer.Table.Append.{All-self, Memᴰ-All}
use goat_relayer.Payout.{
  NetworkFee, Group, group1, group2, group3, nothing_ready, group_fee, in_group, amount_of, Payable,
  PayResult, ok, err, Limits, should_process, group_of, apply_group, try_group, select_withdrawals,
}

pub Permᴰ-All : {A : Type 0} (Q : A → Type 0) (xs ys : List A) → Permᴰ xs ys → All Q xs → All Q ys
Permᴰ-All Q _ _ Permᴰ.nil h = tt
Permᴰ-All Q _ _ (Permᴰ.cons e d) h = (subst Q e h.0, Permᴰ-All Q _ _ d h.1)
Permᴰ-All Q _ _ (Permᴰ.swap e f) h = (subst Q f h.1.0, (subst Q e h.0, h.1.1))
Permᴰ-All Q _ _ (Permᴰ.trans d e) h = Permᴰ-All Q _ _ e (Permᴰ-All Q _ _ d h)

take-All : {A : Type 0} (Q : A → Type 0) (n : ℕ) (xs : List A) → All Q xs → All Q (take n xs)
take-All Q zero xs h = tt
take-All Q (suc n) [] h = tt
take-All Q (suc n) (x ∷ xs) h = (h.0, take-All Q n xs h.1)

length-take : {A : Type 0} (n : ℕ) (xs : List A) → length (take n xs) ≤ n
length-take zero xs = omega arith
length-take (suc n) [] = omega arith
length-take (suc n) (x ∷ xs) = omega (arith, length-take n xs)

pub List-split :
    {A B : Type 0} (P : B → Type 0) (xs : List A) {a : B} {f : A → List A → B}
    → (xs ≡ [] → P a)
    → ((x : A) (rest : List A) → xs ≡ x ∷ rest → P (f x rest))
    → P (elim xs [ [] ↦ a | x ∷ rest ↦ f x rest ])
List-split P [] p q = p refl
List-split P (x ∷ xs) p q = q x xs refl

-- What passes a test passes it, and keeps what it had.
keep-tested :
    {A : Type 0} (Q : A → Type 0) (p : A → Bool) (xs : List A)
    → All Q xs
    → All (λ x. Q x × (p x ≡ true)) (keep p xs)
keep-tested {A} Q p [] h = tt
keep-tested {A} Q p (x ∷ xs) h = go (p x) refl h.0 (keep-tested Q p xs h.1)
  where
    go :
        (b : Bool)
        → p x ≡ b
        → Q x
        → All (λ y. Q y × (p y ≡ true)) (keep p xs)
        → All (λ y. Q y × (p y ≡ true)) (elim b [ true ↦ x ∷ keep p xs | false ↦ keep p xs ])
    go true e q rest = ((q, e), rest)
    go false e q rest = rest

-- The fee of the group is paid and that of no faster one, and the amount is above the dust at this fee.
abbrev pub InGroup : NetworkFee → Group → Withdraw → Type 0
InGroup f group1 w = (f.fastest_fee ≤ w.tx_price) × (get_dust_amount f.fastest_fee < w.amount)
InGroup f group2 w =
    (w.tx_price < f.fastest_fee)
    × (f.half_hour_fee ≤ w.tx_price)
    × (get_dust_amount f.half_hour_fee < w.amount)
InGroup f group3 w =
    (w.tx_price < f.fastest_fee)
    × (w.tx_price < f.half_hour_fee)
    × (f.hour_fee ≤ w.tx_price)
    × (get_dust_amount f.hour_fee < w.amount)

pub in_group_iff :
    (f : NetworkFee) (g : Group) (w : Withdraw) → (in_group f g w ≡ true) ↔ InGroup f g w
unfolding in_group
in_group_iff f group1 w = ground arith
in_group_iff f group2 w = ground arith
in_group_iff f group3 w = ground arith

-- `CreatedAt.Unix()`, by which requests are sorted.
abbrev pub unix : (Withdraw → ℕ) → Withdraw → ℕ
unix created w = created w / 1_000_000_000

-- What `sort.Slice` promises: no later element is less than an earlier one.
abbrev pub IsSorted : (Withdraw → ℕ) → List Withdraw → Type 0
IsSorted key [] = Unit
IsSorted key (w ∷ ws) = All (λ x. key w ≤ key x) ws × IsSorted key ws

-- The requests are many, or have waited.
abbrev pub IsReady : ℕ → (Withdraw → ℕ) → Limits → Withdraw → ℕ → Type 0
IsReady now created l w n =
    (l.immediate_count ≤ n)
    ⊎ (((l.wait_time1 < now - created w) × (l.immediate_count / 3 ≤ n))
        ⊎ (l.wait_time2 < now - created w))

should_process-IsReady :
    (now : ℕ) (created : Withdraw → ℕ) (address_type : ℕ → ℕ) (l : Limits) (w : Withdraw) (n : ℕ)
    → should_process now created address_type l w n ≡ true
    → IsReady now created l w n
unfolding should_process
should_process-IsReady now created address_type l w n h =
    elim (Bool-cases (leb l.immediate_count n)) [
      | inl many ↦ inl (ground (arith, many))
      | inr few ↦ elim (Bool-cases (ltb l.wait_time2 (now - created w))) [
        | inl long ↦ inr (inr (ground (arith, long)))
        | inr short ↦ inr (inl (ground (arith, h, few, short)))
      ]
    ]

-- The sum of the amounts.
abbrev pub sum_of : List Withdraw → ℕ
sum_of [] = 0
sum_of (w ∷ ws) = w.amount + sum_of ws

amount_of-sum_of : (ws : List Withdraw) → amount_of ws ≡ sum_of ws % 2 ^ 64
unfolding amount_of
amount_of-sum_of [] = refl
amount_of-sum_of (w ∷ ws) = omega (arith, amount_of-sum_of ws)

-- Requests of the list and of one group, not too many, ready, and with none older in the group than the first.
abbrev pub IsPayable :
    ℕ → (Withdraw → ℕ) → (ℕ → ℕ) → Limits → NetworkFee → List Withdraw → Payable → Type 0
IsPayable now created address_type l f ws p =
    (g : Group) × (w : Withdraw) × (rest : List Withdraw) × (p.withdrawals ≡ w ∷ rest)
    × All (λ x. Memᴰ x ws × InGroup f g x) p.withdrawals
    × All (λ x. unix created w ≤ unix created x) (keep (in_group f g) ws)
    × (length p.withdrawals ≤ l.max_vout)
    × IsReady now created l w (length p.withdrawals)
    × (p.price ≡ group_fee f g)
    × (p.amount ≡ sum_of p.withdrawals % 2 ^ 64)
    × (p.receiver_types ≡ map (λ x. address_type x.receiver) p.withdrawals)

take_first :
    {A : Type 0} (n : ℕ) (xs : List A) (w : A) (rest : List A)
    → take n xs ≡ w ∷ rest
    → (others : List A) × (xs ≡ w ∷ others)
take_first zero xs w rest h = absurd cc
take_first (suc n) [] w rest h = absurd cc
take_first (suc n) (x ∷ xs) w rest h = let same : x ≡ w = cc in (xs, ap (λ y. y ∷ xs) same)

pub Permᴰ-Memᴰ : {A : Type 0} (a : A) (xs ys : List A) → Permᴰ xs ys → Memᴰ a xs → Memᴰ a ys
Permᴰ-Memᴰ a _ _ Permᴰ.nil m = elim m [ ]
Permᴰ-Memᴰ a _ _ (Permᴰ.cons e d) (Memᴰ.head h) = Memᴰ.head (h ∙ e)
Permᴰ-Memᴰ a _ _ (Permᴰ.cons e d) (Memᴰ.tail m) = Memᴰ.tail (Permᴰ-Memᴰ a _ _ d m)
Permᴰ-Memᴰ a _ _ (Permᴰ.swap e f) (Memᴰ.head h) = Memᴰ.tail (Memᴰ.head (h ∙ e))
Permᴰ-Memᴰ a _ _ (Permᴰ.swap e f) (Memᴰ.tail (Memᴰ.head h)) = Memᴰ.head (h ∙ f)
Permᴰ-Memᴰ a _ _ (Permᴰ.swap e f) (Memᴰ.tail (Memᴰ.tail m)) = Memᴰ.tail (Memᴰ.tail m)
Permᴰ-Memᴰ a _ _ (Permᴰ.trans d e) m = Permᴰ-Memᴰ a _ _ e (Permᴰ-Memᴰ a _ _ d m)

pub keep-Memᴰ :
    {A : Type 0} (p : A → Bool) (a : A) (xs : List A) → p a ≡ true → Memᴰ a xs → Memᴰ a (keep p xs)
keep-Memᴰ p a [] h m = elim m [ ]
keep-Memᴰ p a (x ∷ xs) h (Memᴰ.head e) = go (p x) (ap p (sym e) ∙ h)
  where
    go : (b : Bool) → b ≡ true → Memᴰ a (elim b [ true ↦ x ∷ keep p xs | false ↦ keep p xs ])
    go true _ = Memᴰ.head e
    go false k = absurd cc
keep-Memᴰ p a (x ∷ xs) h (Memᴰ.tail m) = go (p x) (keep-Memᴰ p a xs h m)
  where
    go :
        (b : Bool)
        → Memᴰ a (keep p xs)
        → Memᴰ a (elim b [ true ↦ x ∷ keep p xs | false ↦ keep p xs ])
    go true rest = Memᴰ.tail rest
    go false rest = rest

pay_injective : (p q : Payable) → PayResult.ok p ≡ ok q → p ≡ q
pay_injective p q h = ap value h
  where
    value : PayResult → Payable
    value (ok x) = x
    value (err x) = p

module _ (now : ℕ) (created : Withdraw → ℕ) (address_type : ℕ → ℕ)
    (by_price by_age : List Withdraw → List Withdraw)
    (by_price-Perm : (ws : List Withdraw) → Permᴰ ws (by_price ws))
    (by_age-Perm : (ws : List Withdraw) → Permᴰ ws (by_age ws))
    (by_age-IsSorted : (ws : List Withdraw) → IsSorted (unix created) (by_age ws)) where
  -- The first of a sorted list is the oldest.
  pub by_age_first :
      (ws : List Withdraw) (v : Withdraw) (rest : List Withdraw) (w : Withdraw)
      → by_age ws ≡ v ∷ rest
      → Memᴰ w ws
      → unix created v ≤ unix created w
  by_age_first ws v rest w same m =
      let sorted = subst (IsSorted (unix created)) same (by_age-IsSorted ws) in
      let here = subst (Memᴰ w) same (Permᴰ-Memᴰ w ws (by_age ws) (by_age-Perm ws) m) in
      Memᴰ-All (λ x. unix created v ≤ unix created x) w (v ∷ rest) here (omega arith, sorted.0)

  apply_group_oldest :
      (l : Limits) (f : NetworkFee) (g : Group) (ws : List Withdraw) (w : Withdraw)
      (rest : List Withdraw)
      → apply_group now created address_type by_price by_age l f g ws ≡ w ∷ rest
      → All (λ x. unix created w ≤ unix created x) (keep (in_group f g) ws)
  unfolding apply_group group_of
  apply_group_oldest l f g ws w rest same =
      let group = keep (in_group f g) (by_price ws) in
      let first = take_first l.max_vout (by_age group) w rest same in
      All-map (keep (in_group f g) ws)
        (λ x known. by_age_first group w first.0 x first.1 (
          keep-Memᴰ (in_group f g) x (by_price ws) known.1
            (Permᴰ-Memᴰ x ws (by_price ws) (by_price-Perm ws) known.0)))
        (keep-tested (λ x. Memᴰ x ws) (in_group f g) ws (All-self ws))

  apply_group-All :
      (l : Limits) (f : NetworkFee) (g : Group) (ws : List Withdraw)
      → All
          (λ x. Memᴰ x ws × (in_group f g x ≡ true))
          (apply_group now created address_type by_price by_age l f g ws)
  unfolding apply_group group_of
  apply_group-All l f g ws =
      let Q : Withdraw → Type 0 = λ x. Memᴰ x ws × (in_group f g x ≡ true) in
      let sorted = Permᴰ-All (λ x. Memᴰ x ws) ws (by_price ws) (by_price-Perm ws) (All-self ws) in
      let group = keep (in_group f g) (by_price ws) in
      take-All Q l.max_vout (by_age group) (
        Permᴰ-All Q group (by_age group) (by_age-Perm group)
          (keep-tested (λ x. Memᴰ x ws) (in_group f g) (by_price ws) sorted))

  length-apply_group :
      (l : Limits) (f : NetworkFee) (g : Group) (ws : List Withdraw)
      → length (apply_group now created address_type by_price by_age l f g ws) ≤ l.max_vout
  unfolding apply_group
  length-apply_group l f g ws =
      length-take l.max_vout (by_age (group_of now created address_type by_price by_age f g ws))

  try_group-IsPayable :
      (l : Limits) (f : NetworkFee) (g : Group) (ws : List Withdraw) (later : PayResult)
      (p : Payable)
      → try_group now created address_type by_price by_age l f g ws later ≡ ok p
      → (IsPayable now created address_type l f ws p) ⊎ (later ≡ ok p)
  unfolding try_group
  try_group-IsPayable l f g ws later p =
      let Q : PayResult → Type 0 =
        λ r. r ≡ ok p → (IsPayable now created address_type l f ws p) ⊎ (later ≡ ok p) in
      let chosen = apply_group now created address_type by_price by_age l f g ws in
      List-split Q (group_of now created address_type by_price by_age f g ws) (λ _ h. inr h)
        (λ _ _ _.
          List-split Q chosen (λ _ h. absurd cc)
            (λ w rest same.
              if-split Q (should_process now created address_type l w (length (w ∷ rest)))
                (λ ready h. inl (
                  subst (IsPayable now created address_type l f ws) (pay_injective _ p h) (
                    g,
                    w,
                    rest,
                    refl,
                    subst (All (λ x. Memᴰ x ws × InGroup f g x)) same (
                        All-map (apply_group now created address_type by_price by_age l f g ws)
                          (λ x known. (known.0, (in_group_iff f g x).0 known.1))
                          (apply_group-All l f g ws)),
                    apply_group_oldest l f g ws w rest same,
                    subst (λ xs. length xs ≤ l.max_vout) same (length-apply_group l f g ws),
                    should_process-IsReady now created address_type l w (length (w ∷ rest)) ready,
                    refl,
                    amount_of-sum_of (w ∷ rest),
                    refl,
                  )))
                (λ _ h. inr h)))

  -- When sorting permutes, and by age sorts by the second of creation, what SelectWithdrawals returns are at least
  -- one and at most the allowed number of requests of the list, which all pay the fee of one group and not of
  -- a faster one, and are above its dust. None of the group was created in an earlier second than the first,
  -- they are many enough or the first has waited long enough, and the amount is their sum in 64 bits,
  -- the price the fee of the group, and the types those of the receivers.
  pub select_withdrawals-IsPayable :
      (l : Limits) (f : NetworkFee) (ws : List Withdraw) (p : Payable)
      → select_withdrawals now created address_type by_price by_age l f ws ≡ ok p
      → IsPayable now created address_type l f ws p
  unfolding select_withdrawals
  select_withdrawals-IsPayable l f ws p =
      let third : PayResult =
        try_group now created address_type by_price by_age l f group3 ws (err nothing_ready) in
      let second : PayResult =
        try_group now created address_type by_price by_age l f group2 ws third in
      if-split (λ r. r ≡ ok p → IsPayable now created address_type l f ws p)
        (ltb l.max_network_fee f.fastest_fee) (λ _ h. absurd cc)
        (λ _ h. elim (try_group-IsPayable l f group1 ws second p h) [
          | inl found ↦ found
          | inr h₂ ↦ elim (try_group-IsPayable l f group2 ws third p h₂) [
            | inl found ↦ found
            | inr h₃ ↦ elim (try_group-IsPayable l f group3 ws (err nothing_ready) p h₃) [
              | inl found ↦ found
              | inr stuck ↦ absurd cc
            ]
          ]
        ])
