-- ===== src/Store/Coins.antt =====
-- internal/state/wallet.go: what the scan of Bitcoin blocks does to the UTXOs of the wallet.
use goat_relayer.Prelude.{ℕ, List, [], ◌∷◌, Option, none, some, ◌==◌, ◌&&◌, if◌then◌else◌}
use goat_relayer.Table.{find_last, update_where}
use goat_relayer.Store.{
  pending, confirmed, closed, spent, processed, Vin, Db, Result, ok, err, not_found, constraint,
  empty_slice, refused, nil_deref, is, one_of, each, ◌>>=◌,
}
use goat_relayer.Store.Rows.{get_utxo, insert_vin, set_utxo_status, update_utxo_status_spent}

unfoldable pub update_utxo_status_processed : ℕ → ℕ → Db → Result Db
update_utxo_status_processed txid out d = elim (get_utxo txid out d) [
  | none ↦ err not_found
  | some u ↦
      if one_of u.status (pending ∷ spent ∷ [])
      then err refused
      else (if is u.status processed then ok d else ok (set_utxo_status u.id processed d))
]

-- The loop body of `UpdateUtxoStatusSpentByVins` goes on after a row that is not found.
unfoldable pub skip_missing : Db → Result Db → Result Db
skip_missing d (ok r) = ok r
skip_missing d (err not_found) = ok d
skip_missing d (err constraint) = err constraint
skip_missing d (err empty_slice) = err empty_slice
skip_missing d (err refused) = err refused
skip_missing d (err nil_deref) = err nil_deref

unfoldable pub spend_known_vin : ℕ → Vin → Db → Result Db
unfolding skip_missing
spend_known_vin block v d = skip_missing d (update_utxo_status_spent v.txid v.out_index block d)

unfoldable pub update_utxo_status_spent_by_vins : List Vin → ℕ → Db → Result Db
unfolding spend_known_vin each
update_utxo_status_spent_by_vins vins block d = each (spend_known_vin block) vins d

unfoldable pub get_vin : ℕ → ℕ → Db → Option Vin
get_vin txid out d = find_last (λ v. v.txid == txid && v.out_index == out) d.vins

-- `saveVin` of an input that is new, or of one under the key and the order of the row `r`.
unfoldable pub save_vin : Vin → Option Vin → Db → Db
save_vin v none d = insert_vin v d
save_vin v (some r) d = record d {
  vins =
      update_where (λ x. x.id == r.id) (λ x. record v { id = r.id; order_id = r.order_id }) d.vins;
}

-- The end of `AddOrUpdateVin`, after the UTXO is marked.
unfoldable pub record_vin : Vin → Db → Db
unfolding get_vin save_vin
record_vin v d = elim (get_vin v.txid v.out_index d) [
  | none ↦ save_vin v none d
  | some r ↦
      if is r.status closed
      then save_vin v none d
      else (if one_of r.status (confirmed ∷ processed ∷ []) then d else save_vin v (some r) d)
]

unfoldable pub add_or_update_vin : Vin → Db → Result Db
unfolding spend_known_vin record_vin
add_or_update_vin v d = spend_known_vin v.btc_height v d >>= λ e. ok (record_vin v e)
