-- ===== src/EventBus/Delivery.antt =====
-- What `Publish` of internal/state/eventbus.go delivers, and when it blocks.
use mathlib.Core.List.{Memᴰ, append-nil, append_assoc}
use goat_relayer.Prelude.{
  ℕ, zero, ◌-◌, take, drop, suc, ◌+◌, ◌≤◌, ◌≡◌, refl, sym, ap, subst, ◌∙◌, List, [], ◌∷◌, ◌++◌,
  length, replicate, length-append, Bool, true, false, arith, ◌==◌, ==_iff, if-split, if◌then◌else◌,
}
use goat_relayer.EventBus.{
  EventType, Channel, EventBus, returned, panicked, blocked, subscribers_of, accept, put, can_send,
  publish_all, with_channels, publish,
}

-- How often a channel is among the subscribers.
abbrev pub count : ℕ → List ℕ → ℕ
count c [] = 0
count c (k ∷ ks) = let rest = count c ks in if c == k then suc rest else rest

-- An open channel that takes `n` values: those that no receiver waits for fit into its buffer.
abbrev pub HasRoom : ℕ → Channel → Type 0
HasRoom n ch = (ch.is_closed ≡ false) × (length ch.buffer + (n - ch.waiting) ≤ ch.capacity)

abbrev pub Ready : List ℕ → (ℕ → Channel) → Type 0
Ready cs chs = (c : ℕ) → Memᴰ c cs → HasRoom (count c cs) (chs c)

-- Of `n` equal values, as many as receivers wait are handed over, and the others are appended to the buffer.
abbrev pub Took : ℕ → ℕ → Channel → Channel → Type 0
Took n x old new =
    (new.received ≡ old.received ++ take old.waiting (replicate n x))
    × (new.buffer ≡ old.buffer ++ drop old.waiting (replicate n x))

accept-HasRoom :
    (w x n : ℕ) (ch : Channel) → ch.waiting ≡ w → HasRoom (suc n) ch → HasRoom n (accept w x ch)
unfolding accept
accept-HasRoom zero x n ch e h = (h.0, omega (arith, h.1, e, length-append ch.buffer (x ∷ [])))
accept-HasRoom (suc w) x n ch e h = (h.0, omega (arith, h.1, e))

accept-Took :
    (w x n : ℕ) (ch new : Channel)
    → ch.waiting ≡ w
    → Took n x (accept w x ch) new
    → Took (suc n) x ch new
unfolding accept
accept-Took zero x n ch new e h =
    rw e (rw e at h.0, (rw e at h.1) ∙ append_assoc ch.buffer (x ∷ []) (replicate n x))
accept-Took (suc w) x n ch new e h =
    rw e (h.0 ∙ append_assoc ch.received (x ∷ []) (take w (replicate n x)), h.1)

abbrev pushed : Bool → ℕ → Channel → Channel
pushed b x ch = if b then accept ch.waiting x ch else ch

pushed-HasRoom :
    (b : Bool) (x n : ℕ) (ch : Channel)
    → HasRoom (if b then suc n else n) ch
    → HasRoom n (pushed b x ch)
pushed-HasRoom true x n ch h = accept-HasRoom ch.waiting x n ch refl h
pushed-HasRoom false x n ch h = h

pushed-Took :
    (b : Bool) (x n : ℕ) (ch new : Channel)
    → Took n x (pushed b x ch) new
    → Took (if b then suc n else n) x ch new
pushed-Took true x n ch new h = accept-Took ch.waiting x n ch new refl h
pushed-Took false x n ch new h = h

none_sent : (x : ℕ) (ch : Channel) → Took 0 x ch ch
none_sent x ch = go ch.waiting
  where
    go : (w : ℕ) → (ch.received ≡ ch.received ++ take w []) × (ch.buffer ≡ ch.buffer ++ drop w [])
    go zero = (sym (append-nil ch.received), sym (append-nil ch.buffer))
    go (suc w) = (sym (append-nil ch.received), sym (append-nil ch.buffer))

HasRoom-one :
    (b : Bool) (n : ℕ) (ch : Channel)
    → b ≡ true
    → HasRoom (if b then suc n else n) ch
    → can_send ch ≡ true
HasRoom-one true n ch e h = ground (arith, h.1)
HasRoom-one false n ch e h = absurd (cc e)

opens :
    {A : Type 0} (shut room : Bool) (p q r : A)
    → shut ≡ false
    → room ≡ true
    → (if shut then p else if room then r else q) ≡ r
opens false true p q r h g = refl
opens false false p q r h g = absurd (cc g)
opens true room p q r h g = absurd (cc h)

publish_all-delivers :
    (cs : List ℕ) (x : ℕ) (chs : ℕ → Channel)
    → Ready cs chs
    → (new : ℕ → Channel) × publish_all cs x chs ≡ returned new
      × ((c : ℕ) → Took (count c cs) x (chs c) (new c))
unfolding publish_all put
publish_all-delivers [] x chs h = (chs, refl, λ c. none_sent x (chs c))
publish_all-delivers (c ∷ cs) x chs h =
    let mine = h c (Memᴰ.head refl) in
    let room = HasRoom-one (c == c) (count c cs) (chs c) ((==_iff c c).1 refl) mine in
    let rest =
      publish_all-delivers cs x (put c x chs)
        (λ k m. pushed-HasRoom (k == c) x (count k cs) (chs k) (h k (Memᴰ.tail m))) in
    (
      rest.0,
      opens (chs c).is_closed (can_send (chs c)) panicked blocked (publish_all cs x (put c x chs))
            mine.0 room
          ∙ rest.1,
      λ k. pushed-Took (k == c) x (count k cs) (chs k) (rest.0 k) (rest.2 k),
    )

-- When every subscriber of an event is open and has receivers that wait or room in its buffer for what it gets,
-- `Publish` returns and leaves the subscribers as they are, and each channel gets the value once for each
-- time it is subscribed: first the receivers that wait, then the buffer.
pub publish-delivers :
    (e : EventType) (x : ℕ) (b : EventBus)
    → Ready (subscribers_of e b) b.channels
    → (new : EventBus) × publish e x b ≡ returned new
      × new.subscribers ≡ b.subscribers
      × ((c : ℕ) → Took (count c (subscribers_of e b)) x (b.channels c) (new.channels c))
unfolding publish
publish-delivers e x b h =
    let sent = publish_all-delivers (subscribers_of e b) x b.channels h in
    (record b { channels = sent.0 }, ap (with_channels b) sent.1, refl, sent.2)

accept-is_closed : (w x : ℕ) (ch : Channel) → (accept w x ch).is_closed ≡ ch.is_closed
unfolding accept
accept-is_closed zero x ch = refl
accept-is_closed (suc w) x ch = refl

pushed-is_closed : (b : Bool) (x : ℕ) (ch : Channel) → (pushed b x ch).is_closed ≡ ch.is_closed
pushed-is_closed true x ch = accept-is_closed ch.waiting x ch
pushed-is_closed false x ch = refl

-- Nobody waits, and the buffer has no room.
abbrev pub IsFull : Channel → Type 0
IsFull ch = (ch.waiting ≡ 0) × (ch.capacity ≤ length ch.buffer)

accept-IsFull : (w x : ℕ) (ch : Channel) → ch.waiting ≡ w → IsFull ch → IsFull (accept w x ch)
unfolding accept
accept-IsFull zero x ch e h = (e, omega (arith, h.1, length-append ch.buffer (x ∷ [])))
accept-IsFull (suc w) x ch e h = absurd (omega (arith, e, h.0))

pushed-IsFull : (b : Bool) (x : ℕ) (ch : Channel) → IsFull ch → IsFull (pushed b x ch)
pushed-IsFull true x ch h = accept-IsFull ch.waiting x ch refl h
pushed-IsFull false x ch h = h

full_cannot_send : (ch : Channel) → can_send ch ≡ true → IsFull ch → ⊥
full_cannot_send ch free full = ground (arith, free, full.0, full.1)

publish_all-blocks :
    (cs : List ℕ) (x : ℕ) (chs : ℕ → Channel) (c : ℕ)
    → Memᴰ c cs
    → ((k : ℕ) → Memᴰ k cs → (chs k).is_closed ≡ false)
    → IsFull (chs c)
    → publish_all cs x chs ≡ blocked
unfolding publish_all put
publish_all-blocks [] x chs c m alive full = elim m [ ]
publish_all-blocks (k ∷ cs) x chs c m alive full =
    if-split (λ o. o ≡ blocked) (chs k).is_closed
      (λ shut. absurd (let unshut = alive k (Memᴰ.head refl) in cc (shut, unshut)))
      (λ _.
        if-split (λ o. o ≡ blocked) (can_send (chs k))
          (λ free. elim m [
            | Memᴰ.head e ↦
                absurd (full_cannot_send (chs k) free (subst (λ j. IsFull (chs j)) e full))
            | Memᴰ.tail later ↦
                publish_all-blocks cs x (put k x chs) c later
                  (λ j n. pushed-is_closed (j == k) x (chs j) ∙ alive j (Memᴰ.tail n))
                  (pushed-IsFull (c == k) x (chs c) full)
          ])
          (λ _. refl))

-- When no receiver waits at a subscriber of an event, its buffer has no room, and no subscriber is closed, `Publish`
-- blocks forever.
pub publish-blocks :
    (e : EventType) (x : ℕ) (b : EventBus) (c : ℕ)
    → Memᴰ c (subscribers_of e b)
    → ((k : ℕ) → Memᴰ k (subscribers_of e b) → (b.channels k).is_closed ≡ false)
    → IsFull (b.channels c)
    → publish e x b ≡ blocked
unfolding publish
publish-blocks e x b c m alive full =
    ap (with_channels b) (publish_all-blocks (subscribers_of e b) x b.channels c m alive full)
