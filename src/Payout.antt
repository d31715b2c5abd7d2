-- ===== src/Payout.antt =====
-- internal/wallet/withdraw_strategy.go: which withdrawals are paid now (`SelectWithdrawals`), and the outputs of their
-- transaction. `sort.Slice` is a parameter, once for each order, and the type of an address is a library's. The time
-- of the call and `CreatedAt` are parameters, in nanoseconds; `time.Since` that is not positive is 0, which
-- no wait time is below.
pub mod Ready
pub mod Waiting
pub mod Build
use goat_relayer.Prelude.{
  ℕ, ◌+◌, ◌-◌, ◌*◌, ◌/◌, List, [], ◌∷◌, map, keep, take, Bool, true, false, not, ◌&&◌, ◌||◌, Option,
  none, some, length, ◌==◌, ltb, leb, if◌then◌else◌,
}
use goat_relayer.Int64.{add64}
use goat_relayer.Store.{Withdraw}
use goat_relayer.Size.{get_dust_amount}

pub record NetworkFee : Type 0 where
  pub fastest_fee : ℕ
  pub half_hour_fee : ℕ
  pub hour_fee : ℕ

pub data Group : Type 0 where
  group1 group2 group3 : Group

abbrev pub group_fee : NetworkFee → Group → ℕ
group_fee f group1 = f.fastest_fee
group_fee f group2 = f.half_hour_fee
group_fee f group3 = f.hour_fee

-- Above the dust at this fee.
abbrev pub above_dust : ℕ → Withdraw → Bool
above_dust fee w = ltb (get_dust_amount fee) w.amount

-- The cases of the switch: the first fee that the request pays decides.
unfoldable pub in_group : NetworkFee → Group → Withdraw → Bool
in_group f group1 w = leb f.fastest_fee w.tx_price && above_dust f.fastest_fee w
in_group f group2 w =
    not (leb f.fastest_fee w.tx_price)
    && (leb f.half_hour_fee w.tx_price && above_dust f.half_hour_fee w)
in_group f group3 w =
    not (leb f.fastest_fee w.tx_price)
    && (not (leb f.half_hour_fee w.tx_price)
        && (leb f.hour_fee w.tx_price && above_dust f.hour_fee w))

unfoldable pub amount_of : List Withdraw → ℕ
amount_of [] = 0
amount_of (w ∷ ws) = add64 w.amount (amount_of ws)

pub record Payable : Type 0 where
  pub withdrawals : List Withdraw
  pub receiver_types : List ℕ
  pub amount : ℕ
  pub price : ℕ

pub data PayError : Type 0 where
  fee_too_high nothing_ready index_out_of_range : PayError

pub data PayResult : Type 0 where
  ok : Payable → PayResult
  err : PayError → PayResult

-- The limits of the configuration; the wait times are those of `WithdrawalWaitTime`.
pub record Limits : Type 0 where
  pub max_network_fee : ℕ
  pub max_vout : ℕ
  pub immediate_count : ℕ
  pub wait_time1 : ℕ
  pub wait_time2 : ℕ

module _ (now : ℕ) (created : Withdraw → ℕ) (address_type : ℕ → ℕ) where
  unfoldable pub should_process : Limits → Withdraw → ℕ → Bool
  should_process l first count =
      leb l.immediate_count count
      || ((ltb l.wait_time1 (now - created first) && leb (l.immediate_count / 3) count)
          || ltb l.wait_time2 (now - created first))

  module _ (by_price by_age : List Withdraw → List Withdraw) where
    unfoldable pub group_of : NetworkFee → Group → List Withdraw → List Withdraw
    unfolding in_group
    group_of f g ws = keep (in_group f g) (by_price ws)

    -- The oldest of a group, at most `max_vout` of them.
    unfoldable pub apply_group : Limits → NetworkFee → Group → List Withdraw → List Withdraw
    unfolding group_of
    apply_group l f g ws = take l.max_vout (by_age (group_of f g ws))

    -- A group that is not empty and is to be processed is the result, another one is passed over. With
    -- no output allowed the first of no withdrawals is read.
    unfoldable pub try_group : Limits → NetworkFee → Group → List Withdraw → PayResult → PayResult
    unfolding group_of apply_group should_process amount_of
    try_group l f g ws later = elim (group_of f g ws) [
      | [] ↦ later
      | some_one ∷ others ↦ elim (apply_group l f g ws) [
        | [] ↦ err index_out_of_range
        | w ∷ selected ↦
            if should_process l w (length (w ∷ selected))
            then ok (record {
              withdrawals = w ∷ selected;
              receiver_types = map (λ x. address_type x.receiver) (w ∷ selected);
              amount = amount_of (w ∷ selected);
              price = group_fee f g;
            })
            else later
      ]
    ]

    unfoldable pub select_withdrawals : Limits → NetworkFee → List Withdraw → PayResult
    unfolding try_group
    select_withdrawals l f ws =
        if ltb l.max_network_fee f.fastest_fee
        then err fee_too_high
        else try_group l f group1 ws
            (try_group l f group2 ws (try_group l f group3 ws (err nothing_ready)))
