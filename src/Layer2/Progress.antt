-- ===== src/Layer2/Progress.antt =====
-- The state of layer 2 through a sequence of block events (internal/state/l2_info.go). The first block, which brings the
-- genesis, comes before them.
use goat_relayer.Prelude.{
  ℕ, ◌≤◌, ◌≡◌, refl, sym, ◌∙◌, ap, subst, List, [], ◌∷◌, Bool, true, false, not, ◌&&◌, Option, none,
  some, arith, ◌==◌, leb, ltb, if-split, Option-split,
}
use goat_relayer.Table.{find_first, find_last}
use goat_relayer.Table.Append.{Evolves-append, Ascending-append, Below-append}
use goat_relayer.Table.Evolve.{
  Evolves, Evolves-refl, Evolves-trans, update_where-Evolves, All-map, Below, Ascending,
  find_last-Only, find_last_sound, update_where-Ascending, update_where-Below,
}
use goat_relayer.Layer2.{
  Voter, QueueStatus, init, pending, processed, queue_code, VoterQueue, Layer2State,
  update_l2_chain_status, update_l2_info_end_block, set_epoch_voters, update_l2_info_params,
  update_l2_info_voters, update_l2_info_wallet, update_l2_info_latest_btc, update_l2_info_epoch,
  update_l2_info_sequence, add_voter_queue, save_queue, update_voter_queue_pending,
  update_voter_queue_processed,
}

pub data BlockEvent : Type 0 where
  chain_status : ℕ → ℕ → Bool → BlockEvent
  end_block : ℕ → BlockEvent
  new_params : ℕ → ℕ → BlockEvent
  new_voters : ℕ → ℕ → ℕ → ℕ → List Voter → BlockEvent
  new_wallet : ℕ → ℕ → ℕ → BlockEvent
  latest_btc : ℕ → ℕ → BlockEvent
  new_epoch : ℕ → ℕ → ℕ → BlockEvent
  new_sequence : ℕ → ℕ → BlockEvent
  queue_added : ℕ → ℕ → BlockEvent
  queue_pending : ℕ → BlockEvent
  queue_processed : ℕ → BlockEvent

-- The state that an error leaves alone.
abbrev pub kept : Layer2State → Option Layer2State → Layer2State
kept s none = s
kept s (some t) = t

unfoldable pub block_event : BlockEvent → Layer2State → Layer2State
block_event (chain_status latest c catching_up) s = update_l2_chain_status latest c catching_up s
block_event (end_block b) s = update_l2_info_end_block b s
block_event (new_params a m) s = update_l2_info_params a m s
block_event (new_voters b e q p vs) s = update_l2_info_voters b e q p vs s
block_event (new_wallet b t k) s = update_l2_info_wallet b t k s
block_event (latest_btc b h) s = update_l2_info_latest_btc b h s
block_event (new_epoch b e p) s = update_l2_info_epoch b e p s
block_event (new_sequence b q) s = update_l2_info_sequence b q s
block_event (queue_added v b) s = kept s (add_voter_queue v b s)
block_event (queue_pending v) s = update_voter_queue_pending v s
block_event (queue_processed v) s = update_voter_queue_processed v s

unfoldable pub run_events : List BlockEvent → Layer2State → Layer2State
run_events [] s = s
run_events (e ∷ es) s = run_events es (block_event e s)

-- A row of the voter queue only moves towards its end.
abbrev pub QueueRow : VoterQueue → VoterQueue → Type 0
QueueRow x y =
    (y.id ≡ x.id)
    × (y.vote_addr ≡ x.vote_addr)
    × (y.epoch ≡ x.epoch)
    × (queue_code x.status ≤ queue_code y.status)

abbrev pub Keyed : Layer2State → Type 0
Keyed s = Ascending (λ q. q.id) s.queue_rows × Below (λ q. q.id) s.next_id s.queue_rows

-- The heights never fall, the rows only progress, and the keys stay in order.
abbrev pub Later : Layer2State → Layer2State → Type 0
Later s t =
    (s.info.height ≤ t.info.height)
    × (s.epoch_voter.height ≤ t.epoch_voter.height)
    × Evolves QueueRow s.queue_rows t.queue_rows
    × Keyed t

QueueRow-refl : (x : VoterQueue) → QueueRow x x
QueueRow-refl x = (refl, refl, refl, omega arith)

QueueRow-trans : (x y z : VoterQueue) → QueueRow x y → QueueRow y z → QueueRow x z
QueueRow-trans x y z p q = (q.0 ∙ p.0, q.1 ∙ p.1, q.2 ∙ p.2, omega (arith, p.3, q.3))

same_rows : (xs : List VoterQueue) → Evolves QueueRow xs xs
same_rows = Evolves-refl QueueRow QueueRow-refl

-- The rows after an update of the one that a query found.
save_queue-Later :
    (s : Layer2State) (q : VoterQueue → Bool) (u : VoterQueue) (status : QueueStatus)
    → Keyed s
    → find_last q s.queue_rows ≡ some u
    → queue_code u.status ≤ queue_code status
    → Later s (save_queue u.id status s)
unfolding save_queue
save_queue-Later s q u status k found up =
    let f : VoterQueue → VoterQueue = λ r. record r { status = status } in
    let p : VoterQueue → Bool = λ r. r.id == u.id in
    (
      omega arith,
      omega arith,
      update_where-Evolves QueueRow QueueRow-refl p f s.queue_rows (
          All-map s.queue_rows
            (λ r one hit. (
              refl,
              refl,
              refl,
              subst (λ c. queue_code c ≤ queue_code status) (ap (λ x. x.status) (sym (one hit))) up,
            ))
            (find_last-Only (λ r. r.id) q s.queue_rows u k.0 found)),
      (
        update_where-Ascending (λ r. r.id) p f s.queue_rows (λ _. refl) k.0,
        update_where-Below (λ r. r.id) s.next_id p f s.queue_rows (λ _. refl) k.1,
      ),
    )

status_found : (i b : Bool) → (i && b) ≡ true → b ≡ true
status_found true b h = h
status_found false b h = absurd cc

queue_pending-Later : (v : ℕ) (s : Layer2State) → Keyed s → Later s (update_voter_queue_pending v s)
unfolding update_voter_queue_pending
queue_pending-Later v s k =
    let q : VoterQueue → Bool = λ r. r.vote_addr == v && queue_code r.status == 0 in
    Option-split (Later s) (find_last q s.queue_rows)
      (λ _. (omega arith, omega arith, same_rows s.queue_rows, k))
      (λ u found. save_queue-Later s q u pending k found (
        let fresh : (queue_code u.status == 0) ≡ true =
          status_found (u.vote_addr == v) (queue_code u.status == 0)
            (find_last_sound q s.queue_rows u found) in
        ground (arith, fresh)))

at_most_two : (c : QueueStatus) → queue_code c ≤ 2
at_most_two init = omega arith
at_most_two pending = omega arith
at_most_two processed = omega arith

queue_processed-Later :
    (v : ℕ) (s : Layer2State) → Keyed s → Later s (update_voter_queue_processed v s)
unfolding update_voter_queue_processed save_queue
queue_processed-Later v s k =
    let q : VoterQueue → Bool = λ r. r.vote_addr == v && not (queue_code r.status == 2) in
    Option-split (Later s) (find_last q s.queue_rows)
      (λ _. (omega arith, omega arith, same_rows s.queue_rows, k))
      (λ u found. save_queue-Later s q u processed k found (at_most_two u.status))

same-Later : (s : Layer2State) → Keyed s → Later s s
same-Later s k = (omega arith, omega arith, same_rows s.queue_rows, k)

queue_added-Later : (v b : ℕ) (s : Layer2State) → Keyed s → Later s (kept s (add_voter_queue v b s))
unfolding add_voter_queue
queue_added-Later v b s k =
    let P : Option Layer2State → Type 0 = λ o. Later s (kept s o) in
    let row : VoterQueue = record { id = s.next_id; vote_addr = v; epoch = b; status = init } in
    if-split P (v == 0) (λ _. same-Later s k)
      (λ _.
        Option-split P (find_first (λ q. q.vote_addr == v && q.epoch == b) s.queue_rows)
          (λ _. (
            omega arith,
            omega arith,
            Evolves-append QueueRow QueueRow-refl s.queue_rows (row ∷ []),
            (
              Ascending-append (λ q. q.id) row s.queue_rows k.1 k.0,
              Below-append (λ q. q.id) s.next_id row s.queue_rows refl k.1,
            ),
          ))
          (λ q _. same-Later s k))

block_event-Later : (e : BlockEvent) (s : Layer2State) → Keyed s → Later s (block_event e s)
unfolding block_event update_l2_chain_status update_l2_info_end_block update_l2_info_params
    update_l2_info_voters set_epoch_voters update_l2_info_wallet update_l2_info_latest_btc
    update_l2_info_epoch update_l2_info_sequence
block_event-Later (chain_status latest c catching_up) s k =
    (omega arith, omega arith, same_rows s.queue_rows, k)
block_event-Later (end_block b) s k =
    if-split (Later s) (ltb s.info.height b)
      (λ h. (ground (arith, h), omega arith, same_rows s.queue_rows, k)) (λ _. same-Later s k)
block_event-Later (new_params a m) s k = (omega arith, omega arith, same_rows s.queue_rows, k)
block_event-Later (new_voters b e q p vs) s k =
    if-split (Later s) (leb s.epoch_voter.height b)
      (λ h. (omega arith, ground (arith, h), same_rows s.queue_rows, k))
      (λ _. (omega arith, omega arith, same_rows s.queue_rows, k))
block_event-Later (new_wallet b t w) s k =
    if-split (Later s) (leb s.info.height b)
      (λ h. (
        ground (arith, h),
        omega arith,
        same_rows s.queue_rows,
        (k.0, All-map s.queue_rows (λ u lt. ground (arith, lt)) k.1),
      ))
      (λ _. same-Later s k)
block_event-Later (latest_btc b h) s k =
    if-split (Later s) (leb s.info.height b)
      (λ h. (ground (arith, h), omega arith, same_rows s.queue_rows, k)) (λ _. same-Later s k)
block_event-Later (new_epoch b e p) s k =
    if-split (Later s) (leb s.epoch_voter.height b)
      (λ h. (omega arith, ground (arith, h), same_rows s.queue_rows, k)) (λ _. same-Later s k)
block_event-Later (new_sequence b q) s k =
    if-split (Later s) (leb s.epoch_voter.height b)
      (λ h. (omega arith, ground (arith, h), same_rows s.queue_rows, k)) (λ _. same-Later s k)
block_event-Later (queue_added v b) s k = queue_added-Later v b s k
block_event-Later (queue_pending v) s k = queue_pending-Later v s k
block_event-Later (queue_processed v) s k = queue_processed-Later v s k

Later-trans : (a b c : Layer2State) → Later a b → Later b c → Later a c
Later-trans a b c p q = (
  omega (arith, p.0, q.0),
  omega (arith, p.1, q.1),
  Evolves-trans QueueRow QueueRow-trans a.queue_rows b.queue_rows c.queue_rows p.2 q.2,
  q.3,
)

-- When the primary keys of the voter queue ascend below the counter, a sequence of block events never lowers
-- the height of the chain or of the epoch's voters, loses no row of the voter queue, and moves each only from
-- init to pending to processed.
pub run_events-Later :
    (es : List BlockEvent) (s : Layer2State) → Keyed s → Later s (run_events es s)
unfolding run_events
run_events-Later [] s k = same-Later s k
run_events-Later (e ∷ es) s k =
    let first = block_event-Later e s k in
    Later-trans s (block_event e s) (run_events es (block_event e s)) first
      (run_events-Later es (block_event e s) first.3)
