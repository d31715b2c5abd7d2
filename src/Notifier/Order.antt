-- ===== src/Notifier/Order.antt =====
-- The blocks that the notifier delivers (internal/btc/notifier.go).
use mathlib.Core.List.{append-nil, append_assoc}
use goat_relayer.Prelude.{
  ℕ, zero, suc, ◌+◌, ◌-◌, ◌≤◌, ◌<◌, ◌≡◌, refl, sym, ◌∙◌, ap, List, [], ◌∷◌, ◌++◌, Bool, true, some,
  arith, ◌==◌, ltb, leb, if-split, Option-split, if◌then◌else◌,
}
use goat_relayer.Notifier.{
  Notifier, Tick, sync_blocks, end_height, save_sync_status, sync_to, check_confirmations,
  run_ticks,
}

-- The heights after `a`, `n` of them.
abbrev pub consecutive : ℕ → ℕ → List ℕ
consecutive a zero = []
consecutive a (suc n) = suc a ∷ consecutive (suc a) n

consecutive-add : (a m n : ℕ) → consecutive a m ++ consecutive (a + m) n ≡ consecutive a (m + n)
consecutive-add a zero n =
    rw (let e : a + 0 ≡ a = omega arith in e, let e : 0 + n ≡ n = omega arith in e) refl
consecutive-add a (suc m) n =
    let shift : a + suc m ≡ suc a + m = omega arith in
    let grow : suc m + n ≡ suc (m + n) = omega arith in
    rw (shift, grow) (ap (λ hs. suc a ∷ hs) (consecutive-add (suc a) m n))

-- What a run delivers continues where the last one stopped.
abbrev pub Continues : Notifier → Notifier → Type 0
Continues n m =
    (k : ℕ) × (m.confirmed_height ≡ n.confirmed_height + k)
    × (m.delivered ≡ n.delivered ++ consecutive n.confirmed_height k)

sync_blocks-consecutive :
    (fetched : ℕ → Bool) (count height : ℕ)
    → (k : ℕ) × (k ≤ count)
      × ((sync_blocks fetched count height).0 ≡ height + k)
      × ((sync_blocks fetched count height).1 ≡ consecutive height k)
unfolding sync_blocks
sync_blocks-consecutive fetched zero height = (0, omega arith, omega arith, refl)
sync_blocks-consecutive fetched (suc count) height =
    let P : ℕ × List ℕ → Type 0 =
      λ r. (k : ℕ) × (k ≤ suc count) × (r.0 ≡ height + k) × (r.1 ≡ consecutive height k) in
    let rest = sync_blocks-consecutive fetched count (suc height) in
    if-split P (fetched (suc height))
      (λ _. (
        suc rest.0,
        omega (arith, rest.1),
        omega (arith, rest.2),
        ap (λ hs. suc height ∷ hs) rest.3,
      ))
      (λ _. (0, omega arith, omega arith, refl))

Continues-refl : (n : Notifier) → Continues n n
Continues-refl n = (0, omega arith, sym (append-nil n.delivered))

Continues-trans : (a b c : Notifier) → Continues a b → Continues b c → Continues a c
Continues-trans a b c p q = (
  p.0 + q.0,
  omega (arith, p.1, q.1),
  q.2
      ∙ ap (λ hs. hs ++ consecutive b.confirmed_height q.0) p.2
      ∙ append_assoc a.delivered (consecutive a.confirmed_height p.0)
          (consecutive b.confirmed_height q.0)
      ∙ ap (λ h. a.delivered ++ (consecutive a.confirmed_height p.0 ++ consecutive h q.0)) p.1
      ∙ ap (λ hs. a.delivered ++ hs) (consecutive-add a.confirmed_height p.0 q.0),
)

-- A tick delivers the next blocks, at most `max_range` and none above the confirmed height.
abbrev Bounded : ℕ → ℕ → Notifier → Notifier → Type 0
Bounded max_range confirmed n m =
    Continues n m
    × (m.confirmed_height ≤ n.confirmed_height + max_range)
    × (m.confirmed_height ≤ confirmed)

end_height_bounds :
    (max_range height confirmed : ℕ)
    → (end_height max_range height confirmed ≤ height + max_range)
      × (end_height max_range height confirmed ≤ confirmed)
unfolding end_height
end_height_bounds max_range height confirmed = (ground arith, ground arith)

sync_to-Bounded :
    (max_range confirmed : ℕ) (fetched : ℕ → Bool) (n : Notifier)
    → n.confirmed_height ≤ confirmed
    → Bounded max_range confirmed n (sync_to max_range confirmed fetched n)
unfolding sync_to save_sync_status
sync_to-Bounded max_range confirmed fetched n below =
    let last = end_height max_range n.confirmed_height confirmed in
    let bounds = end_height_bounds max_range n.confirmed_height confirmed in
    let r = sync_blocks-consecutive fetched (last - n.confirmed_height) n.confirmed_height in
    if-split (Bounded max_range confirmed n)
      (n.confirmed_height == (sync_blocks fetched (last - n.confirmed_height) n.confirmed_height).0)
      (λ still.
        let none_done : r.0 ≡ 0 = ground (arith, still, r.2) in
        (
          (
            0,
            omega arith,
            ap (λ hs. n.delivered ++ hs) (r.3 ∙ ap (consecutive n.confirmed_height) none_done),
          ),
          omega arith,
          below,
        ))
      (λ _. (
        (r.0, r.2, ap (λ hs. n.delivered ++ hs) r.3),
        omega (arith, r.1, r.2, bounds.0),
        omega (arith, r.1, r.2, bounds.1, below),
      ))

check_confirmations-Continues :
    (confirmations max_range : ℕ) (t : Tick) (n : Notifier)
    → Continues n (check_confirmations confirmations max_range t n)
unfolding check_confirmations
check_confirmations-Continues confirmations max_range t n =
    Option-split (Continues n) t.block_count (λ _. Continues-refl n)
      (λ best _.
        if-split (Continues n) (leb (best - confirmations) n.confirmed_height)
          (λ _. Continues-refl n)
          (λ ahead.
            (sync_to-Bounded max_range (best - confirmations) t.fetched n
              (ground (arith, ahead))).0))

-- Whatever the node answers at each tick, the notifier delivers the blocks after the confirmed height it starts from
-- up to the one it ends at, each once and in order.
pub run_ticks-Continues :
    (confirmations max_range : ℕ) (ts : List Tick) (n : Notifier)
    → Continues n (run_ticks confirmations max_range ts n)
unfolding run_ticks
run_ticks-Continues confirmations max_range [] n = Continues-refl n
run_ticks-Continues confirmations max_range (t ∷ ts) n =
    let m = check_confirmations confirmations max_range t n in
    Continues-trans n m (run_ticks confirmations max_range ts m)
      (check_confirmations-Continues confirmations max_range t n)
      (run_ticks-Continues confirmations max_range ts m)

sync_blocks_all :
    (fetched : ℕ → Bool) (count height : ℕ)
    → ((h : ℕ) → fetched h ≡ true)
    → (sync_blocks fetched count height).0 ≡ height + count
unfolding sync_blocks
sync_blocks_all fetched zero height all = omega arith
sync_blocks_all fetched (suc count) height all =
    rw (all (suc height)) (omega (arith, sync_blocks_all fetched count (suc height) all))

end_height_above :
    (max_range height confirmed : ℕ)
    → height < confirmed
    → height ≤ end_height max_range height confirmed
unfolding end_height
end_height_above max_range height confirmed h = ground (arith, h)

sync_to-end_height :
    (max_range confirmed : ℕ) (fetched : ℕ → Bool) (n : Notifier)
    → ((h : ℕ) → fetched h ≡ true)
    → n.confirmed_height < confirmed
    → (sync_to max_range confirmed fetched n).confirmed_height
      ≡ end_height max_range n.confirmed_height confirmed
unfolding sync_to save_sync_status
sync_to-end_height max_range confirmed fetched n all ahead =
    let last = end_height max_range n.confirmed_height confirmed in
    let above = end_height_above max_range n.confirmed_height confirmed ahead in
    let reached = sync_blocks_all fetched (last - n.confirmed_height) n.confirmed_height all in
    if-split (λ (m : Notifier). m.confirmed_height ≡ last)
      (n.confirmed_height == (sync_blocks fetched (last - n.confirmed_height) n.confirmed_height).0)
      (λ still. ground (arith, still, reached, above)) (λ _. omega (arith, reached, above))

-- When every block can be fetched, a tick at which the node is ahead reaches the confirmed height, or
-- delivers `max_range` blocks, whichever is less.
pub check_confirmations_advances :
    (confirmations max_range best : ℕ) (fetched : ℕ → Bool) (n : Notifier)
    → ((h : ℕ) → fetched h ≡ true)
    → n.confirmed_height < best - confirmations
    → (check_confirmations confirmations max_range
        (record { block_count = some best; fetched = fetched })
        n).confirmed_height
      ≡ (if ltb (best - confirmations) (n.confirmed_height + max_range)
          then best - confirmations
          else n.confirmed_height + max_range)
unfolding check_confirmations end_height
check_confirmations_advances confirmations max_range best fetched n all ahead =
    if-split
      (λ (m : Notifier).
        m.confirmed_height ≡ end_height max_range n.confirmed_height (best - confirmations))
      (leb (best - confirmations) n.confirmed_height)
      (λ behind. absurd (ground (arith, behind, ahead)))
      (λ _. sync_to-end_height max_range (best - confirmations) fetched n all ahead)
