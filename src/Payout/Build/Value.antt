-- ===== src/Payout/Build/Value.antt =====
-- Where the value of a transaction goes (internal/wallet/withdraw_strategy.go, `createTransaction`).
use goat_relayer.Prelude.{
  ℕ, ◌+◌, ◌-◌, ◌*◌, ◌/◌, ◌^◌, ◌≤◌, ◌<◌, ◌≡◌, refl, sym, ◌∙◌, ap, subst, List, [], ◌∷◌, ◌++◌, Bool,
  true, false, not, Option, arith, All, length, if-split, Option-split, if◌then◌else◌,
}
use native.Mathlib.Nat.{suc-mul, mul_comm, mul_assoc, div-mul-le_self, lt-div-mul-add}
use goat_relayer.Int64.{sub64, lt64}
use goat_relayer.Store.{Withdraw, SafeboxTask}
use goat_relayer.Size.{get_dust_amount}
use goat_relayer.Payout.Ready.{List-split}
use goat_relayer.Payout.Build.{
  TransactionError, Built, ok, err, ◌>>=◌, TxOut, MsgTx, TransactionParams, TransactionResult,
  calculate_fees, add_transaction_inputs, output_to, withdraw_dust_amount, change_dust_amount,
  add_withdrawals, add_tasks, add_change, add_transaction_outputs, validate_transaction_size,
  validate_transaction_fees, create_transaction,
}

abbrev pub value_of : List TxOut → ℕ
value_of [] = 0
value_of (o ∷ os) = o.value + value_of os

abbrev pub withdrawn : List Withdraw → ℕ
withdrawn [] = 0
withdrawn (w ∷ ws) = w.amount + withdrawn ws

abbrev pub locked : List SafeboxTask → ℕ
locked [] = 0
locked (t ∷ ts) = t.amount + locked ts

value_of-++ : (xs ys : List TxOut) → value_of (xs ++ ys) ≡ value_of xs + value_of ys
value_of-++ [] ys = omega arith
value_of-++ (x ∷ xs) ys = omega (arith, value_of-++ xs ys)

built_injective : {A : Type 0} (a b : A) → Built.ok a ≡ ok b → a ≡ b
built_injective {A} a b h = ap value h
  where
    value : Built A → A
    value (ok x) = x
    value (err x) = a

bind-ok :
    {A B : Type 0} (r : Built A) (f : A → Built B) (b : B)
    → (r >>= f) ≡ ok b
    → (a : A) × (r ≡ ok a) × (f a ≡ ok b)
bind-ok (ok a) f b h = (a, refl, h)
bind-ok (err x) f b h = absurd cc

passed :
    {A : Type 0} (b : Bool) (e : TransactionError) (x : Built A) (a : A)
    → (if b then err e else x) ≡ ok a
    → (b ≡ false) × (x ≡ ok a)
passed true e x a h = absurd cc
passed false e x a h = (refl, h)

-- A difference that is above a limit was no underflow.
above_limit :
    (a b limit : ℕ)
    → a < 2 ^ 63
    → b < 2 ^ 63
    → limit < 2 ^ 63
    → not (lt64 limit (sub64 a b)) ≡ false
    → (b ≤ a) × (sub64 a b ≡ a - b)
above_limit a b limit p q r h = (ground (arith, p, q, r, h), ground (arith, p, q, r, h))

module _ (txid_hash decode_address to_script : ℕ → Option ℕ) where
  output_to-value :
      (address value : ℕ) (o : TxOut)
      → output_to txid_hash decode_address to_script address value ≡ ok o
      → o.value ≡ value
  unfolding output_to
  output_to-value address value o =
      let P : Built TxOut → Type 0 = λ r. r ≡ ok o → o.value ≡ value in
      Option-split P (decode_address address) (λ _ h. absurd cc)
        (λ a _.
          Option-split P (to_script a) (λ _ h. absurd cc)
            (λ s _ h. sym (ap (λ x. x.value) (built_injective _ o h))))

  add_withdrawals-value :
      (fee dust : ℕ) (ws : List Withdraw) (outs : List TxOut)
      → fee < 2 ^ 63
      → dust < 2 ^ 63
      → All (λ w. w.amount < 2 ^ 63) ws
      → add_withdrawals txid_hash decode_address to_script fee dust ws ≡ ok outs
      → value_of outs + length ws * fee ≡ withdrawn ws
  unfolding add_withdrawals
  add_withdrawals-value fee dust [] outs p q r h =
      subst (λ x. value_of x + 0 * fee ≡ 0) (built_injective [] outs h) (omega arith)
  add_withdrawals-value fee dust (w ∷ ws) outs p q r h =
      let first =
        bind-ok (output_to txid_hash decode_address to_script w.receiver (sub64 w.amount fee)) _
          outs h in
      let checked =
        passed (not (lt64 dust (sub64 w.amount fee))) withdraw_dust_amount _ outs first.2 in
      let rest =
        bind-ok (add_withdrawals txid_hash decode_address to_script fee dust ws) _ outs checked.1 in
      let value = output_to-value w.receiver (sub64 w.amount fee) first.0 first.1 in
      let exact = above_limit w.amount fee dust r.0 p q checked.0 in
      subst (λ x. value_of x + length (w ∷ ws) * fee ≡ withdrawn (w ∷ ws))
        (built_injective (first.0 ∷ rest.0) outs rest.2)
        (omega (
          arith,
          value,
          exact.0,
          exact.1,
          add_withdrawals-value fee dust ws rest.0 p q r.1 rest.1,
          suc-mul (length ws) fee,
        ))

  add_tasks-value :
      (ts : List SafeboxTask) (outs : List TxOut)
      → add_tasks txid_hash decode_address to_script ts ≡ ok outs
      → value_of outs ≡ locked ts
  unfolding add_tasks
  add_tasks-value [] outs h = ap value_of (sym (built_injective [] outs h))
  add_tasks-value (t ∷ ts) outs h =
      let first =
        bind-ok (output_to txid_hash decode_address to_script t.timelock_address t.amount) _ outs
          h in
      let rest = bind-ok (add_tasks txid_hash decode_address to_script ts) _ outs first.2 in
      let value = output_to-value t.timelock_address t.amount first.0 first.1 in
      subst (λ x. value_of x ≡ locked (t ∷ ts)) (built_injective (first.0 ∷ rest.0) outs rest.2)
        (omega (arith, value, add_tasks-value ts rest.0 rest.1))

  add_change-value :
      (address value dust : ℕ) (outs : List TxOut)
      → value < 2 ^ 63
      → add_change txid_hash decode_address to_script address value dust ≡ ok outs
      → value_of outs ≡ value
  unfolding add_change
  add_change-value address value dust outs small =
      let P : Built (List TxOut) → Type 0 = λ r. r ≡ ok outs → value_of outs ≡ value in
      if-split P (not (lt64 0 value))
        (λ none_left h.
          let nothing : value ≡ 0 = ground (arith, small, none_left) in
          ap value_of (sym (built_injective [] outs h)) ∙ sym nothing)
        (λ _ h.
          let first =
            bind-ok (output_to txid_hash decode_address to_script address value) _ outs h in
          let checked = passed (not (lt64 dust value)) change_dust_amount _ outs first.2 in
          let exact = output_to-value address value first.0 first.1 in
          subst (λ x. value_of x ≡ value) (built_injective (first.0 ∷ []) outs checked.1)
            (omega (arith, exact)))

  -- With no fee taken from the change.
  outputs-value :
      (p : TransactionParams) (fee : ℕ) (outs : List TxOut)
      → fee < 2 ^ 63
      → get_dust_amount p.network_fee < 2 ^ 63
      → p.change_amount < 2 ^ 63
      → All (λ w. w.amount < 2 ^ 63) p.withdrawals
      → add_transaction_outputs txid_hash decode_address to_script p fee 0 ≡ ok outs
      → value_of outs + length p.withdrawals * fee
        ≡ withdrawn p.withdrawals + locked p.tasks + p.change_amount
  unfolding add_transaction_outputs
  outputs-value p fee outs small dust change amounts h =
      let paid =
        bind-ok
          (add_withdrawals txid_hash decode_address to_script fee (get_dust_amount p.network_fee)
            p.withdrawals)
          _ outs h in
      let tasks = bind-ok (add_tasks txid_hash decode_address to_script p.tasks) _ outs paid.2 in
      let left : sub64 p.change_amount 0 ≡ p.change_amount = omega (arith, change) in
      let rest =
        bind-ok
          (add_change txid_hash decode_address to_script p.change_address (sub64 p.change_amount 0)
            (get_dust_amount p.network_fee))
          _ outs tasks.2 in
      let paid_value =
        add_withdrawals-value fee (get_dust_amount p.network_fee) p.withdrawals paid.0 small dust
          amounts paid.1 in
      let task_value = add_tasks-value p.tasks tasks.0 tasks.1 in
      let change_value =
        add_change-value p.change_address (sub64 p.change_amount 0) (get_dust_amount p.network_fee)
          rest.0 (omega (arith, left, change)) rest.1 in
      subst
        (λ x.
          value_of x + length p.withdrawals * fee
          ≡ withdrawn p.withdrawals + locked p.tasks + p.change_amount)
        (built_injective (paid.0 ++ (tasks.0 ++ rest.0)) outs rest.2)
        (omega (
          arith,
          value_of-++ paid.0 (tasks.0 ++ rest.0),
          value_of-++ tasks.0 rest.0,
          paid_value,
          task_value,
          change_value,
          left,
        ))

-- The fee of a withdrawal, rounded up, for some withdrawals.
abbrev ShareOf : TransactionParams → ℕ × ℕ → Type 0
ShareOf p x =
    (x.1 ≡ 0)
    × (p.estimated_fee ≤ 4 * (length p.withdrawals * x.0))
    × (4 * (length p.withdrawals * x.0) < p.estimated_fee + 4 * length p.withdrawals)

share_bounds :
    (e n : ℕ)
    → 1 ≤ n
    → (e ≤ 4 * (n * ((e + (4 * n - 1)) / (4 * n))))
      × (4 * (n * ((e + (4 * n - 1)) / (4 * n))) < e + 4 * n)
share_bounds e n some_one =
    let q = (e + (4 * n - 1)) / (4 * n) in
    let upper : q * (4 * n) ≤ e + (4 * n - 1) = div-mul-le_self (e + (4 * n - 1)) (4 * n) in
    let lower : e + (4 * n - 1) < q * (4 * n) + 4 * n = lt-div-mul-add (omega (arith, some_one)) in
    let swap : q * (4 * n) ≡ 4 * (n * q) = mul_comm q (4 * n) ∙ mul_assoc 4 n q in
    (omega (arith, lower, swap, some_one), omega (arith, upper, swap, some_one))

calculate_fees-ShareOf :
    (p : TransactionParams) → 1 ≤ length p.withdrawals → ShareOf p (calculate_fees p)
unfolding calculate_fees
calculate_fees-ShareOf p some_one =
    List-split (ShareOf p) p.withdrawals
      (λ empty. absurd (
        let none_one : 1 ≤ 0 = subst (λ ws. 1 ≤ length ws) empty some_one in
        omega (arith, none_one)))
      (λ w ws same.
        subst (λ n. ShareOf p ((p.estimated_fee + (4 * n - 1)) / (4 * n), 0)) (ap length same)
          (let bounds = share_bounds p.estimated_fee (length p.withdrawals) some_one in
            (refl, bounds.0, bounds.1)))

-- What is paid to the miners when the inputs hold the withdrawals, the tasks and the change.
abbrev pub Balanced : TransactionParams → TransactionResult → Type 0
Balanced p r =
    (value_of r.tx.outputs + length p.withdrawals * r.actual_fee
      ≡ withdrawn p.withdrawals + locked p.tasks + p.change_amount)
    × (p.estimated_fee ≤ 4 * (length p.withdrawals * r.actual_fee))
    × (4 * (length p.withdrawals * r.actual_fee) < p.estimated_fee + 4 * length p.withdrawals)

module _ (txid_hash decode_address to_script : ℕ → Option ℕ) (serialized_size : MsgTx → Option ℕ)
    (min_size max_size : ℕ) where
  -- With some withdrawals and amounts, the fee of an output and the dust in the range of int64, the outputs of a
  -- transaction that is created hold the withdrawals, tasks and change less one fee for each withdrawal, and these
  -- fees together cover the estimated fee and are less than one satoshi for each withdrawal above it.
  pub create_transaction-Balanced :
      (p : TransactionParams) (r : TransactionResult)
      → 1 ≤ length p.withdrawals
      → (calculate_fees p).0 < 2 ^ 63
      → get_dust_amount p.network_fee < 2 ^ 63
      → p.change_amount < 2 ^ 63
      → All (λ w. w.amount < 2 ^ 63) p.withdrawals
      → create_transaction txid_hash decode_address to_script serialized_size min_size max_size p
        ≡ ok r
      → Balanced p r
  unfolding create_transaction
  create_transaction-Balanced p r some_one fee dust change amounts h =
      let share = calculate_fees-ShareOf p some_one in
      let inputs =
        bind-ok (add_transaction_inputs txid_hash decode_address to_script p.utxos) _ r h in
      let outputs =
        bind-ok
          (add_transaction_outputs txid_hash decode_address to_script p (calculate_fees p).0
            (calculate_fees p).1)
          _ r inputs.2 in
      let sized =
        bind-ok
          (validate_transaction_size txid_hash decode_address to_script serialized_size min_size
            max_size (record { inputs = inputs.0; outputs = outputs.0 }))
          _ r outputs.2 in
      let value =
        outputs-value txid_hash decode_address to_script p (calculate_fees p).0 outputs.0 fee dust
          change amounts
          (subst
            (λ c.
              add_transaction_outputs txid_hash decode_address to_script p (calculate_fees p).0 c
              ≡ ok outputs.0)
            share.0 outputs.1) in
      if-split (λ x. x ≡ ok r → Balanced p r)
        (validate_transaction_fees txid_hash decode_address to_script serialized_size min_size
          max_size sized.0 p p.withdrawals)
        (λ _ made. subst (Balanced p) (built_injective _ r made) (value, share.1, share.2))
        (λ _ made. absurd cc) sized.2
