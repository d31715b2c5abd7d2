-- ===== src/Tests/Payout.antt =====
-- Two requests are selected and paid by one transaction.
use mathlib.Core.List.{Memᴰ, Permᴰ}
use mathlib.Core.List.Permᴰ
use goat_relayer.Prelude.{
  ℕ, ◌≤◌, ◌≡◌, refl, List, [], ◌∷◌, some, arith, ◌-◌, ◌*◌, ◌+◌, leb, leb→le, if-split,
  if◌then◌else◌,
}
use goat_relayer.Table.Evolve.{All-map}
use goat_relayer.Store.{create, Withdraw}
use goat_relayer.Size.{get_dust_amount}
use goat_relayer.Payout.{
  NetworkFee, group3, in_group, amount_of, Payable, ok, Limits, should_process, group_of,
  apply_group, try_group, select_withdrawals,
}
use goat_relayer.Payout.Ready.{
  InGroup, unix, IsSorted, Permᴰ-All, IsPayable, select_withdrawals-IsPayable,
}
use goat_relayer.Payout.Waiting.{Pays, select_withdrawals-Pays}
use goat_relayer.Payout.Build.{
  TransactionParams, TransactionResult, Built, calculate_fees, add_transaction_inputs, output_to,
  add_withdrawals, add_tasks, add_change, add_transaction_outputs, validate_transaction_size,
  validate_transaction_fees, create_transaction,
}
use goat_relayer.Payout.Build.Value.{Balanced, create_transaction-Balanced}

abbrev request : ℕ → ℕ → ℕ → Withdraw
request id amount price = record {
  id = id;
  request_id = id;
  goat_block = 8;
  amount = amount;
  tx_price = price;
  tx_fee = 0;
  sender = 60;
  receiver = 70;
  status = create;
  order_id = 0;
  txid = 0;
  reason = 0;
}

-- A request that pays the fee of an hour, one with dust, and another.
abbrev requests : List Withdraw
requests = request 1 60000 4 ∷ request 2 10 4 ∷ request 3 50000 3 ∷ []

abbrev fees : NetworkFee
fees = record { fastest_fee = 9; half_hour_fee = 6; hour_fee = 3 }

abbrev limits : Limits
limits = record {
  max_network_fee = 500;
  max_vout = 20;
  immediate_count = 30;
  wait_time1 = 10_000_000_000;
  wait_time2 = 20_000_000_000;
}

abbrev two_requests : Payable
two_requests = record {
  withdrawals = request 3 50000 3 ∷ request 1 60000 4 ∷ [];
  receiver_types = 1 ∷ 1 ∷ [];
  amount = 110000;
  price = 3;
}

-- Later requests of the list are older.
abbrev created_at : Withdraw → ℕ
created_at w = (10 - w.id) * 1_000_000_000 + 7

abbrev at_forty : ℕ
at_forty = 40_000_000_000

abbrev insert : Withdraw → List Withdraw → List Withdraw
insert w [] = w ∷ []
insert w (x ∷ xs) =
    let rest = insert w xs in
    if leb (unix created_at w) (unix created_at x) then w ∷ x ∷ xs else x ∷ rest

abbrev sort_by_age : List Withdraw → List Withdraw
sort_by_age [] = []
sort_by_age (w ∷ ws) = insert w (sort_by_age ws)

insert-Perm : (w : Withdraw) (ws : List Withdraw) → Permᴰ (w ∷ ws) (insert w ws)
insert-Perm w [] = Permᴰ.refl (w ∷ [])
insert-Perm w (x ∷ xs) =
    if-split (Permᴰ (w ∷ x ∷ xs)) (leb (unix created_at w) (unix created_at x))
      (λ _. Permᴰ.refl (w ∷ x ∷ xs))
      (λ _. Permᴰ.trans (Permᴰ.swap refl refl) (Permᴰ.cons refl (insert-Perm w xs)))

sort-Perm : (ws : List Withdraw) → Permᴰ ws (sort_by_age ws)
sort-Perm [] = Permᴰ.nil
sort-Perm (w ∷ ws) = Permᴰ.trans (Permᴰ.cons refl (sort-Perm ws)) (insert-Perm w (sort_by_age ws))

insert-IsSorted :
    (w : Withdraw) (ws : List Withdraw)
    → IsSorted (unix created_at) ws
    → IsSorted (unix created_at) (insert w ws)
insert-IsSorted w [] h = (tt, tt)
insert-IsSorted w (x ∷ xs) h =
    if-split (IsSorted (unix created_at)) (leb (unix created_at w) (unix created_at x))
      (λ yes.
        let first : unix created_at w ≤ unix created_at x = leb→le _ _ yes in
        ((first, All-map xs (λ y le. omega (arith, first, le)) h.0), h))
      (λ no.
        let back : unix created_at x ≤ unix created_at w = ground (arith, no) in
        (
          Permᴰ-All (λ y. unix created_at x ≤ unix created_at y) (w ∷ xs) (insert w xs)
              (insert-Perm w xs) (back, h.0),
          insert-IsSorted w xs h.1,
        ))

sort-IsSorted : (ws : List Withdraw) → IsSorted (unix created_at) (sort_by_age ws)
sort-IsSorted [] = tt
sort-IsSorted (w ∷ ws) = insert-IsSorted w (sort_by_age ws) (sort-IsSorted ws)

two_requests-selected :
    select_withdrawals at_forty created_at (λ a. 1) (λ ws. ws) sort_by_age limits fees requests
    ≡ ok two_requests
unfolding select_withdrawals try_group group_of in_group get_dust_amount apply_group should_process
    amount_of
two_requests-selected = refl

select_withdrawals-IsPayable_example :
    IsPayable at_forty created_at (λ a. 1) limits fees requests two_requests
select_withdrawals-IsPayable_example =
    select_withdrawals-IsPayable at_forty created_at (λ a. 1) (λ ws. ws) sort_by_age
      (λ ws. Permᴰ.refl ws) sort-Perm sort-IsSorted limits fees requests two_requests
      two_requests-selected

first-InGroup : InGroup fees group3 (request 1 60000 4)
unfolding get_dust_amount
first-InGroup = (omega arith, omega arith, omega arith, omega arith)

select_withdrawals-Pays_example :
    Pays
      (select_withdrawals at_forty created_at (λ a. 1) (λ ws. ws) sort_by_age limits fees requests)
select_withdrawals-Pays_example =
    select_withdrawals-Pays at_forty created_at (λ a. 1) (λ ws. ws) sort_by_age
      (λ ws. Permᴰ.refl ws) sort-Perm sort-IsSorted limits fees group3 requests (request 1 60000 4)
      (omega arith) (omega arith) (Memᴰ.head refl) first-InGroup (omega arith)

abbrev pay_two : TransactionParams
pay_two = record {
  utxos =
      record {
        id = 1;
        txid = 71;
        out_index = 1;
        amount = 130000;
        receiver_type = 1;
        sub_script = 0;
        status = create;
        spent_block = 0;
      }
      ∷ [];
  withdrawals = request 1 60000 4 ∷ request 3 50000 3 ∷ [];
  tasks = [];
  change_address = 90;
  change_amount = 20000;
  estimated_fee = 1801;
  witness_size = 108;
  network_fee = 3;
}

abbrev paid_two : TransactionResult
paid_two = record {
  tx = record {
    inputs = (71, 1) ∷ [];
    outputs =
        record { value = 59774; pk_script = 70 }
        ∷ record { value = 49774; pk_script = 70 }
        ∷ record { value = 20000; pk_script = 90 }
        ∷ [];
  };
  actual_fee = 226;
  withdrawals =
      record (request 1 60000 4) { tx_fee = 226 }
      ∷ record (request 3 50000 3) { tx_fee = 226 }
      ∷ [];
}

paid_two-created :
    create_transaction (λ t. some t) (λ a. some a) (λ a. some a) (λ t. some 150) 60 32768 pay_two
    ≡ Built.ok paid_two
unfolding create_transaction add_transaction_inputs calculate_fees add_transaction_outputs
    add_withdrawals output_to get_dust_amount add_tasks add_change validate_transaction_size
    validate_transaction_fees
paid_two-created = refl

pay_two-fee : (calculate_fees pay_two).0 ≡ 226
unfolding calculate_fees
pay_two-fee = refl

pay_two-dust : get_dust_amount 3 ≡ 279
unfolding get_dust_amount
pay_two-dust = refl

create_transaction-Balanced_example : Balanced pay_two paid_two
create_transaction-Balanced_example =
    create_transaction-Balanced (λ t. some t) (λ a. some a) (λ a. some a) (λ t. some 150) 60 32768
      pay_two paid_two (omega arith) (omega (arith, pay_two-fee)) (omega (arith, pay_two-dust))
      (omega arith) (omega arith, (omega arith, tt)) paid_two-created
