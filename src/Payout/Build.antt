-- ===== src/Payout/Build.antt =====
-- internal/wallet/withdraw_strategy.go: the inputs and outputs of a transaction (`createTransaction`). The decoding of
-- addresses and transaction ids, the scripts, the serialised size and its bounds are libraries'. A fee in float64 is a
-- number of quarter satoshis, and prices are compared without rounding.
pub mod Value
use goat_relayer.Prelude.{
  ℕ, ◌+◌, ◌-◌, ◌*◌, ◌/◌, List, [], ◌∷◌, ◌++◌, map, Bool, true, false, not, ◌&&◌, ◌||◌, Option, none,
  some, length, ◌==◌, ltb, leb, if◌then◌else◌,
}
use goat_relayer.Int64.{sub64, lt64}
use goat_relayer.Store.{Utxo, Withdraw, SafeboxTask}
use goat_relayer.Size.{get_dust_amount}

-- The codes of a `TransactionError`.
pub data TransactionError : Type 0 where
  invalid_utxo invalid_address invalid_script invalid_tx : TransactionError
  withdraw_dust_amount change_dust_amount tx_too_large tx_price_too_high : TransactionError

pub data Built {ℓ} (A : Type ℓ) : Type ℓ where
  ok : A → Built A
  err : TransactionError → Built A

infixl 5 ◌>>=◌
abbrev pub ◌>>=◌ {ℓ κ} : {A : Type ℓ} {B : Type κ} → Built A → (A → Built B) → Built B
ok a >>= f = f a
err e >>= f = err e

pub record TxOut : Type 0 where
  pub value : ℕ
  pub pk_script : ℕ

pub record MsgTx : Type 0 where
  pub inputs : List (ℕ × ℕ)
  pub outputs : List TxOut

pub record TransactionParams : Type 0 where
  pub utxos : List Utxo
  pub withdrawals : List Withdraw
  pub tasks : List SafeboxTask
  pub change_address : ℕ
  pub change_amount : ℕ
  pub estimated_fee : ℕ
  pub witness_size : ℕ
  pub network_fee : ℕ

-- The transaction, the fee of an output, and the withdrawals with their fees.
pub record TransactionResult : Type 0 where
  pub tx : MsgTx
  pub actual_fee : ℕ
  pub withdrawals : List Withdraw

-- CalculateFees: `math.Ceil` of the fee for each withdrawal, or of all of it for the change.
unfoldable pub calculate_fees : TransactionParams → ℕ × ℕ
calculate_fees p = elim p.withdrawals [
  | [] ↦ (0, (p.estimated_fee + 3) / 4)
  | w ∷ ws ↦ ((p.estimated_fee + (4 * length (w ∷ ws) - 1)) / (4 * length (w ∷ ws)), 0)
]

module _ (txid_hash decode_address to_script : ℕ → Option ℕ) where
  unfoldable pub add_transaction_inputs : List Utxo → Built (List (ℕ × ℕ))
  add_transaction_inputs [] = ok []
  add_transaction_inputs (u ∷ us) = elim (txid_hash u.txid) [
    | none ↦ err invalid_utxo
    | some hash ↦ add_transaction_inputs us >>= λ rest. ok ((hash, u.out_index) ∷ rest)
  ]

  -- An output of this value to the address.
  unfoldable pub output_to : ℕ → ℕ → Built TxOut
  output_to address value = elim (decode_address address) [
    | none ↦ err invalid_address
    | some a ↦ elim (to_script a) [
      | none ↦ err invalid_script
      | some s ↦ ok (record { value = value; pk_script = s })
    ]
  ]

  unfoldable pub add_withdrawals : ℕ → ℕ → List Withdraw → Built (List TxOut)
  unfolding output_to
  add_withdrawals fee dust [] = ok []
  add_withdrawals fee dust (w ∷ ws) =
      let rest = add_withdrawals fee dust ws in
      output_to w.receiver (sub64 w.amount fee) >>= λ o.
      if not (lt64 dust (sub64 w.amount fee))
      then err withdraw_dust_amount
      else rest >>= λ outs. ok (o ∷ outs)

  unfoldable pub add_tasks : List SafeboxTask → Built (List TxOut)
  unfolding output_to
  add_tasks [] = ok []
  add_tasks (t ∷ ts) =
      output_to t.timelock_address t.amount >>= λ o. add_tasks ts >>= λ outs. ok (o ∷ outs)

  unfoldable pub add_change : ℕ → ℕ → ℕ → Built (List TxOut)
  unfolding output_to
  add_change address value dust =
      if not (lt64 0 value)
      then ok []
      else output_to address value >>= λ o.
          if not (lt64 dust value) then err change_dust_amount else ok (o ∷ [])

  unfoldable pub add_transaction_outputs : TransactionParams → ℕ → ℕ → Built (List TxOut)
  unfolding add_withdrawals add_tasks add_change
  add_transaction_outputs p actual_fee change_fee =
      let dust = get_dust_amount p.network_fee in
      add_withdrawals actual_fee dust p.withdrawals >>= λ paid. add_tasks p.tasks >>= λ locked.
      add_change p.change_address (sub64 p.change_amount change_fee) dust >>= λ change.
      ok (paid ++ (locked ++ change))

  module _ (serialized_size : MsgTx → Option ℕ) (min_size max_size : ℕ) where
    unfoldable pub validate_transaction_size : MsgTx → Built ℕ
    validate_transaction_size tx = elim (serialized_size tx) [
      | none ↦ err invalid_tx
      | some size ↦ if ltb size min_size || ltb max_size size then err tx_too_large else ok size
    ]

    -- A withdrawal pays no higher price than it allows.
    unfoldable pub validate_transaction_fees : ℕ → TransactionParams → List Withdraw → Bool
    validate_transaction_fees size p [] = true
    validate_transaction_fees size p (w ∷ ws) =
        let rest = validate_transaction_fees size p ws in
        if ltb (w.tx_price * (4 * size + p.witness_size)) p.estimated_fee then false else rest

    unfoldable pub create_transaction : TransactionParams → Built TransactionResult
    unfolding calculate_fees add_transaction_inputs add_transaction_outputs
        validate_transaction_size validate_transaction_fees
    create_transaction p = add_transaction_inputs p.utxos >>= λ inputs.
        add_transaction_outputs p (calculate_fees p).0 (calculate_fees p).1 >>= λ outputs.
        let tx : MsgTx = record { inputs = inputs; outputs = outputs } in
        validate_transaction_size tx >>= λ size.
        if validate_transaction_fees size p p.withdrawals
        then ok (record {
          tx = tx;
          actual_fee = (calculate_fees p).0;
          withdrawals =
              map
                (λ (w : Withdraw). record w {
                  tx_fee = sub64 w.amount (sub64 w.amount (calculate_fees p).0);
                })
                p.withdrawals;
        })
        else err tx_price_too_high
