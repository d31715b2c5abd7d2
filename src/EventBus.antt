-- ===== src/EventBus.antt =====
-- internal/state/eventbus.go: the subscribers of each event, and the channels that they receive from.
-- A channel is a number, and what is published is a number.
pub mod Delivery
use goat_relayer.Prelude.{
  ℕ, zero, suc, ◌||◌, List, [], ◌∷◌, ◌++◌, length, Bool, true, false, Option, none, some, ◌==◌, ltb,
  if◌then◌else◌,
}

pub data EventType : Type 0 where
  event_unkown : EventType
  sig_start : EventType
  sig_receive : EventType
  sig_finish : EventType
  sig_failed : EventType
  sig_timeout : EventType
  deposit_receive : EventType
  block_scanned : EventType
  withdraw_request : EventType
  withdraw_finalize : EventType
  send_order_broadcasted : EventType
  new_voter : EventType
  safebox_task : EventType

-- The position among the constants; the names of `String` differ wherever it does.
unfoldable pub iota : EventType → ℕ
iota event_unkown = 0
iota sig_start = 1
iota sig_receive = 2
iota sig_finish = 3
iota sig_failed = 4
iota sig_timeout = 5
iota deposit_receive = 6
iota block_scanned = 7
iota withdraw_request = 8
iota withdraw_finalize = 9
iota send_order_broadcasted = 10
iota new_voter = 11
iota safebox_task = 12

-- `waiting` receivers have asked for a value and each takes the next one that is sent, `received` is what such ones took.
pub record Channel : Type 0 where
  pub received : List ℕ
  pub waiting : ℕ
  pub buffer : List ℕ
  pub capacity : ℕ
  pub is_closed : Bool

-- A key that is missing in the map is `none`.
pub record EventBus : Type 0 where
  pub subscribers : ℕ → Option (List ℕ)
  pub channels : ℕ → Channel

-- How a call ends: it returns, panics, or waits forever for a lock.
pub data Outcome {ℓ} (A : Type ℓ) : Type ℓ where
  returned : A → Outcome A
  panicked : Outcome A
  blocked : Outcome A

abbrev pub set_subscribers : ℕ → Option (List ℕ) → EventBus → EventBus
set_subscribers e cs b = record b { subscribers = λ k. if k == e then cs else b.subscribers k }

-- Reading a missing key of a map of slices gives the empty slice.
unfoldable pub subscribers_of : EventType → EventBus → List ℕ
unfolding iota
subscribers_of e b = elim (b.subscribers (iota e)) [ none ↦ [] | some cs ↦ cs ]

-- A nil channel is `none`.
unfoldable pub subscribe : EventType → Option ℕ → EventBus → Outcome EventBus
unfolding iota subscribers_of
subscribe e none b = panicked
subscribe e (some c) b = returned (set_subscribers (iota e) (some (subscribers_of e b ++ c ∷ [])) b)

-- A value goes to a receiver that waits, or else into the buffer.
unfoldable pub accept : ℕ → ℕ → Channel → Channel
accept zero x ch = record ch { buffer = ch.buffer ++ x ∷ [] }
accept (suc n) x ch = record ch { received = ch.received ++ x ∷ []; waiting = n }

unfoldable pub put : ℕ → ℕ → (ℕ → Channel) → ℕ → Channel
unfolding accept
put c x chs k = if k == c then accept (chs k).waiting x (chs k) else chs k

-- What the `select` waits for.
abbrev pub can_send : Channel → Bool
can_send ch = ltb 0 ch.waiting || ltb (length ch.buffer) ch.capacity

-- The loop of `Publish`, while no other goroutine runs. A send on a closed channel panics; when nobody waits and the
-- buffer is full, the write lock is asked for while the goroutine itself holds the read lock, so nothing
-- after that runs.
unfoldable pub publish_all : List ℕ → ℕ → (ℕ → Channel) → Outcome (ℕ → Channel)
unfolding put
publish_all [] x chs = returned chs
publish_all (c ∷ cs) x chs =
    let rest = publish_all cs x (put c x chs) in
    if (chs c).is_closed then panicked else if can_send (chs c) then rest else blocked

abbrev pub with_channels : EventBus → Outcome (ℕ → Channel) → Outcome EventBus
with_channels b (returned chs) = returned (record b { channels = chs })
with_channels b panicked = panicked
with_channels b blocked = blocked

unfoldable pub publish : EventType → ℕ → EventBus → Outcome EventBus
unfolding subscribers_of publish_all
publish e x b = with_channels b (publish_all (subscribers_of e b) x b.channels)

unfoldable pub remove_subscriber : ℕ → List ℕ → List ℕ
remove_subscriber c [] = []
remove_subscriber c (k ∷ ks) = let rest = remove_subscriber c ks in if k == c then ks else k ∷ rest

abbrev some_unless_empty : List ℕ → Option (List ℕ)
some_unless_empty [] = none
some_unless_empty (k ∷ ks) = some (k ∷ ks)

unfoldable pub unsubscribe : EventType → ℕ → EventBus → EventBus
unfolding iota remove_subscriber
unsubscribe e c b = elim (b.subscribers (iota e)) [
  | none ↦ b
  | some cs ↦ set_subscribers (iota e) (some_unless_empty (remove_subscriber c cs)) b
]
