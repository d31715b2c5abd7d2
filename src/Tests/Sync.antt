-- ===== src/Tests/Sync.antt =====
-- A node follows the chain over four ticks: a range of three, a block that is missing, no answer, and the rest.
use goat_relayer.Prelude.{
  ◌+◌, ◌-◌, ◌≡◌, refl, List, [], ◌∷◌, true, false, not, none, some, arith, ◌==◌, ltb, if◌then◌else◌,
}
use goat_relayer.Notifier.{
  Notifier, Tick, sync_blocks, end_height, save_sync_status, sync_to, check_confirmations,
  run_ticks,
}
use goat_relayer.Notifier.Order.{Continues, run_ticks-Continues, check_confirmations_advances}

abbrev at_hundred : Notifier
at_hundred = record {
  confirmed_height = 100;
  current_height = 101;
  syncing = false;
  delivered = [];
}

abbrev ticks : List Tick
ticks =
    record { block_count = some 111; fetched = λ h. true }
    ∷ record { block_count = some 112; fetched = λ h. not (h == 105) }
    ∷ record { block_count = none; fetched = λ h. true }
    ∷ record { block_count = some 112; fetched = λ h. true }
    ∷ []

ticks-delivered :
    (run_ticks 6 3 ticks at_hundred).delivered ≡ 101 ∷ 102 ∷ 103 ∷ 104 ∷ 105 ∷ 106 ∷ []
unfolding run_ticks check_confirmations sync_to sync_blocks end_height save_sync_status
ticks-delivered = refl

run_ticks-Continues_example : Continues at_hundred (run_ticks 6 3 ticks at_hundred)
run_ticks-Continues_example = run_ticks-Continues 6 3 ticks at_hundred

check_confirmations_advances_example :
    (check_confirmations 6 3
      (record { block_count = some 111; fetched = λ h. true })
      at_hundred).confirmed_height
    ≡ (if ltb (111 - 6) (100 + 3) then 111 - 6 else 100 + 3)
check_confirmations_advances_example =
    check_confirmations_advances 6 3 111 (λ h. true) at_hundred (λ h. refl) (omega arith)
