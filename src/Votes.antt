-- ===== src/Votes.antt =====
-- internal/types/utils.go: `Threshold`, the number of signatures that a block message and a withdrawal
-- message of internal/bls need before they are aggregated. The number of voters stays far from the
-- bounds of Go's `int`.
pub mod Quorum
use goat_relayer.Prelude.{ℕ, ◌+◌, ◌*◌, ◌/◌}

unfoldable pub threshold : ℕ → ℕ
threshold total = (total * 2 + 2) / 3
