-- ===== src/Notifier.antt =====
-- internal/btc/notifier.go: the loop that follows the Bitcoin chain. At each tick the node's height is asked for, and the
-- blocks from the last confirmed one are delivered in order, at most `max_range` of them, until one cannot be fetched.
-- Heights are not negative; a chain shorter than the confirmations has none confirmed.
pub mod Order
use goat_relayer.Prelude.{
  ℕ, zero, suc, ◌+◌, ◌-◌, List, [], ◌∷◌, ◌++◌, Bool, true, false, not, Option, none, some, ◌==◌,
  ltb, leb, if◌then◌else◌,
}

-- The status of the synchronisation, and the blocks delivered so far.
pub record Notifier : Type 0 where
  pub confirmed_height : ℕ
  pub current_height : ℕ
  pub syncing : Bool
  pub delivered : List ℕ

-- What a tick finds: the height of the node, unless it does not answer, and which blocks can be fetched.
pub record Tick : Type 0 where
  pub block_count : Option ℕ
  pub fetched : ℕ → Bool

-- The loop over `count` heights after `height`: the last height processed, and the blocks.
unfoldable pub sync_blocks : (ℕ → Bool) → ℕ → ℕ → ℕ × List ℕ
sync_blocks fetched zero height = (height, [])
sync_blocks fetched (suc count) height =
    let rest = sync_blocks fetched count (suc height) in
    if fetched (suc height) then (rest.0, suc height ∷ rest.1) else (height, [])

-- The end of the range of this tick.
unfoldable pub end_height : ℕ → ℕ → ℕ → ℕ
end_height max_range height confirmed =
    if ltb confirmed (height + max_range) then confirmed else height + max_range

-- `saveSyncStatus`.
unfoldable pub save_sync_status : ℕ → ℕ → Notifier → Notifier
save_sync_status new_height confirmed n = record n {
  confirmed_height = new_height;
  syncing = if leb confirmed new_height then false else n.syncing;
}

unfoldable pub sync_to : ℕ → ℕ → (ℕ → Bool) → Notifier → Notifier
unfolding sync_blocks end_height save_sync_status
sync_to max_range confirmed fetched n =
    let last = end_height max_range n.confirmed_height confirmed in
    let r = sync_blocks fetched (last - n.confirmed_height) n.confirmed_height in
    let synced : Notifier = record n {
      current_height = n.current_height + (r.0 - n.confirmed_height);
      syncing = true;
      delivered = n.delivered ++ r.1;
    } in
    if n.confirmed_height == r.0 then synced else save_sync_status r.0 confirmed synced

-- One round of `checkConfirmations`.
unfoldable pub check_confirmations : ℕ → ℕ → Tick → Notifier → Notifier
unfolding sync_to
check_confirmations confirmations max_range t n = elim t.block_count [
  | none ↦ n
  | some best ↦
      if leb (best - confirmations) n.confirmed_height
      then record n { syncing = false }
      else sync_to max_range (best - confirmations) t.fetched n
]

unfoldable pub run_ticks : ℕ → ℕ → List Tick → Notifier → Notifier
unfolding check_confirmations
run_ticks confirmations max_range [] n = n
run_ticks confirmations max_range (t ∷ ts) n =
    run_ticks confirmations max_range ts (check_confirmations confirmations max_range t n)
