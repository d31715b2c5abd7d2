-- ===== src/Tests/Events.antt =====
-- Two channels subscribe to failed signings; one event is published to channels with room, another to a full one.
use mathlib.Core.List.{Memᴰ}
use goat_relayer.Prelude.{
  ℕ, ◌≡◌, refl, [], ◌∷◌, false, none, some, arith, subst, sym, ◌==◌, if◌then◌else◌,
}
use goat_relayer.EventBus.{
  sig_failed, sig_finish, Channel, EventBus, returned, panicked, blocked, iota, subscribers_of,
  subscribe, unsubscribe, remove_subscriber, publish, publish_all,
}
use goat_relayer.EventBus.Delivery.{count, HasRoom, Took, Ready, publish-delivers, publish-blocks}

-- The first channel has no buffer, and a receiver that waits.
abbrev open_channel : ℕ → Channel
open_channel k = record {
  received = [];
  waiting = if k == 1 then 1 else 0;
  buffer = [];
  capacity = if k == 1 then 0 else 10;
  is_closed = false;
}

abbrev full_second : ℕ → Channel
full_second k = record {
  received = [];
  waiting = 0;
  buffer = 7 ∷ [];
  capacity = if k == 2 then 1 else 10;
  is_closed = false;
}

abbrev two_subscribers : (ℕ → Channel) → EventBus
two_subscribers chs = record {
  subscribers = λ k. if k == 4 then some (1 ∷ 2 ∷ []) else none;
  channels = chs;
}

subscribe-none : subscribe sig_failed none (two_subscribers open_channel) ≡ panicked
unfolding subscribe
subscribe-none = refl

unsubscribe-first :
    subscribers_of sig_failed (unsubscribe sig_failed 1 (two_subscribers open_channel)) ≡ 2 ∷ []
unfolding subscribers_of unsubscribe remove_subscriber iota
unsubscribe-first = refl

publish-other :
    publish sig_finish 5 (two_subscribers full_second) ≡ returned (two_subscribers full_second)
unfolding publish publish_all subscribers_of iota
publish-other = refl

both-Ready : Ready (1 ∷ 2 ∷ []) open_channel
both-Ready c (Memᴰ.head e) =
    subst (λ k. HasRoom (count k (1 ∷ 2 ∷ [])) (open_channel k)) (sym e) (refl, omega arith)
both-Ready c (Memᴰ.tail (Memᴰ.head e)) =
    subst (λ k. HasRoom (count k (1 ∷ 2 ∷ [])) (open_channel k)) (sym e) (refl, omega arith)
both-Ready c (Memᴰ.tail (Memᴰ.tail m)) = elim m [ ]

open-Ready : Ready (subscribers_of sig_failed (two_subscribers open_channel)) open_channel
unfolding subscribers_of iota
open-Ready = both-Ready

publish-delivers_example :
    (new : EventBus) × publish sig_failed 5 (two_subscribers open_channel) ≡ returned new
    × new.subscribers ≡ (two_subscribers open_channel).subscribers
    × ((c : ℕ)
        → Took
            (count c (subscribers_of sig_failed (two_subscribers open_channel)))
            5
            (open_channel c)
            (new.channels c))
publish-delivers_example = publish-delivers sig_failed 5 (two_subscribers open_channel) open-Ready

second-Mem : Memᴰ 2 (subscribers_of sig_failed (two_subscribers full_second))
unfolding subscribers_of iota
second-Mem = Memᴰ.tail (Memᴰ.head refl)

publish-blocks_example : publish sig_failed 5 (two_subscribers full_second) ≡ blocked
publish-blocks_example =
    publish-blocks sig_failed 5 (two_subscribers full_second) 2 second-Mem (λ k m. refl)
      (refl, omega arith)
