-- ===== src/Votes/Quorum.antt =====
-- The threshold of internal/types/utils.go and quorums of voters.
use goat_relayer.Prelude.{ℕ, ◌+◌, ◌*◌, ◌≤◌, ◌↔◌, List, [], ◌∷◌, keep, length, Bool, ◌&&◌, arith}
use goat_relayer.Votes.{threshold}

-- Signatures reach the threshold exactly when they are at least two thirds of the voters.
pub threshold_iff : (n m : ℕ) → (threshold n ≤ m) ↔ (2 * n ≤ 3 * m)
unfolding threshold
threshold_iff n m = (λ h. omega arith, λ h. omega arith)

-- Those that pass two tests are at least as many as both have above the whole list.
both_pass :
    {A : Type 0} (p q : A → Bool) (xs : List A)
    → length (keep p xs) + length (keep q xs) ≤ length xs + length (keep (λ x. p x && q x) xs)
both_pass p q [] = omega arith
both_pass p q (x ∷ xs) = ground (arith, both_pass p q xs)

-- Any two sets of voters that both reach the threshold have at least a third of all voters in common.
pub threshold-quorum :
    (voters : List ℕ) (signed signed' : ℕ → Bool)
    → threshold (length voters) ≤ length (keep signed voters)
    → threshold (length voters) ≤ length (keep signed' voters)
    → length voters ≤ 3 * length (keep (λ v. signed v && signed' v) voters)
unfolding threshold
threshold-quorum voters signed signed' p q = omega (arith, p, q, both_pass signed signed' voters)
