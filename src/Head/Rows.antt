-- ===== src/Head/Rows.antt =====
-- The table of Bitcoin blocks through a sequence of operations (internal/state/btc_head.go).
use goat_relayer.Prelude.{
  ℕ, ◌≡◌, refl, sym, ◌∙◌, ap, subst, List, [], ◌∷◌, Bool, true, false, none, some, ◌==◌, if-split,
  Option-split,
}
use goat_relayer.Table.{update_where}
use goat_relayer.Table.Append.{All-any, Evolves-append, Ascending-append, Below-append}
use goat_relayer.Table.Pairs.{Pairs, Pairs-append, Pairs-update_where}
use goat_relayer.Table.Evolve.{
  Evolves, Evolves-refl, Evolves-trans, update_where-Evolves, All-map, Below, Ascending,
  find_first-Only, update_where-Ascending, update_where-Below,
}
use goat_relayer.Store.{Status, unconfirm, confirmed, processed, is}
use goat_relayer.Head.{
  BtcBlock, BtcHead, query_btc_block, insert_block, save_block, status_at, add_unconfirm_btc_block,
  save_confirm_btc_block, update_processed_btc_block, leave_queues, update_btc_network_fee,
  update_btc_syncing, HeadCall, network_fee, set_syncing, unconfirm_block, confirm_block,
  processed_block, head_call, run_head,
}

-- How a row may change: its height stays, and once it is processed everything does.
abbrev pub BlockRow : BtcBlock → BtcBlock → Type 0
BlockRow x y = (y.id ≡ x.id) × (y.height ≡ x.height) × (is x.status processed ≡ true → y ≡ x)

-- One row for a height.
abbrev pub OneHeight : List BtcBlock → Type 0
OneHeight = Pairs (λ x y. x.height == y.height)

abbrev pub HeadInv : BtcHead → Type 0
HeadInv b =
    Ascending (λ r. r.id) b.blocks × Below (λ r. r.id) b.next_id b.blocks × OneHeight b.blocks

abbrev pub After : BtcHead → BtcHead → Type 0
After a b = Evolves BlockRow a.blocks b.blocks × HeadInv b

BlockRow-refl : (x : BtcBlock) → BlockRow x x
BlockRow-refl x = (refl, refl, λ _. refl)

BlockRow-trans : (x y z : BtcBlock) → BlockRow x y → BlockRow y z → BlockRow x z
BlockRow-trans x y z p q = (
  q.0 ∙ p.0,
  q.1 ∙ p.1,
  λ done. q.2 (subst (λ r. is r.status processed ≡ true) (sym (p.2 done)) done) ∙ p.2 done,
)

-- Updates that keep the height.
SameHeight : BtcBlock → BtcBlock → Type 0
SameHeight x y = y.height ≡ x.height

OneHeight-update_where :
    (p : BtcBlock → Bool) (f : BtcBlock → BtcBlock) (xs : List BtcBlock)
    → ((r : BtcBlock) → (f r).height ≡ r.height)
    → OneHeight xs
    → OneHeight (update_where p f xs)
unfolding SameHeight
OneHeight-update_where p f xs same =
    Pairs-update_where (λ x y. x.height == y.height) SameHeight (λ r. refl)
      (λ x y z w a b h. rw (a, b) h) p f xs (All-any xs (λ r _. same r))

-- A block of a height that has none.
insert-After :
    (height hash : ℕ) (status : Status) (b : BtcHead)
    → query_btc_block height b ≡ none
    → HeadInv b
    → After b (insert_block height hash status b)
unfolding query_btc_block insert_block
insert-After height hash status b missing inv =
    let x : BtcBlock = record { id = b.next_id; height = height; hash = hash; status = status } in
    (
      Evolves-append BlockRow BlockRow-refl b.blocks (x ∷ []),
      (
        Ascending-append (λ r. r.id) x b.blocks inv.1 inv.0,
        Below-append (λ r. r.id) b.next_id x b.blocks refl inv.1,
        Pairs-append (λ x y. x.height == y.height) x b.blocks missing inv.2,
      ),
    )

-- A change of the block that was found, which is not processed.
save-After :
    (height : ℕ) (r : BtcBlock) (f : BtcBlock → BtcBlock) (b : BtcHead)
    → query_btc_block height b ≡ some r
    → is r.status processed ≡ false
    → ((x : BtcBlock) → ((f x).id ≡ x.id) × ((f x).height ≡ x.height))
    → HeadInv b
    → After b (save_block r.id f b)
unfolding query_btc_block save_block
save-After height r f b found pending same inv =
    let p : BtcBlock → Bool = λ x. x.id == r.id in
    let only = find_first-Only (λ x. x.id) (λ x. x.height == height) b.blocks r inv.0 found in
    (
      update_where-Evolves BlockRow BlockRow-refl p f b.blocks (
          All-map b.blocks
            (λ x one hit. (
              (same x).0,
              (same x).1,
              λ done. absurd (
                  let no : true ≡ false =
                    sym done ∙ ap (λ z. is z.status processed) (one hit) ∙ pending in
                  cc),
            ))
            only),
      (
        update_where-Ascending (λ x. x.id) p f b.blocks (λ x. (same x).0) inv.0,
        update_where-Below (λ x. x.id) b.next_id p f b.blocks (λ x. (same x).0) inv.1,
        OneHeight-update_where p f b.blocks (λ x. (same x).1) inv.2,
      ),
    )

same-After : (b : BtcHead) → HeadInv b → After b b
same-After b inv = (Evolves-refl BlockRow BlockRow-refl b.blocks, inv)

head_call-After : (c : HeadCall) (b : BtcHead) → HeadInv b → After b (head_call c b)
unfolding head_call update_btc_network_fee update_btc_syncing add_unconfirm_btc_block
    save_confirm_btc_block update_processed_btc_block leave_queues
head_call-After (network_fee a m h) b inv = same-After b inv
head_call-After (set_syncing s) b inv = same-After b inv
head_call-After (unconfirm_block height hash) b inv =
    Option-split (After b) (query_btc_block height b)
      (λ missing. insert-After height hash (status_at unconfirm height b) b missing inv)
      (λ r _. same-After b inv)
head_call-After (confirm_block height hash) b inv =
    Option-split (After b) (query_btc_block height b)
      (λ missing. insert-After height hash (status_at confirmed height b) b missing inv)
      (λ r found.
        if-split (After b) (is r.status processed) (λ _. same-After b inv)
          (λ pending.
            save-After height r
              (λ x. record x { status = status_at confirmed height b; hash = hash }) b found pending
              (λ x. (refl, refl)) inv))
head_call-After (processed_block height hash) b inv =
    Option-split (After b) (query_btc_block height b)
      (λ missing. insert-After height hash processed b missing inv)
      (λ r found.
        if-split (After b) (is r.status processed) (λ _. same-After b inv)
          (λ pending.
            save-After height r (λ x. record x { status = processed }) b found pending
              (λ x. (refl, refl)) inv))

-- When the primary keys of the blocks ascend below the counter and no two have one height, this also holds after
-- any sequence of operations, no block is lost or changes its height, and a processed one keeps everything.
pub run_head-After : (cs : List HeadCall) (b : BtcHead) → HeadInv b → After b (run_head cs b)
unfolding run_head
run_head-After [] b inv = same-After b inv
run_head-After (c ∷ cs) b inv =
    let first = head_call-After c b inv in
    let rest = run_head-After cs (head_call c b) first.1 in
    (
      Evolves-trans BlockRow BlockRow-trans b.blocks (head_call c b).blocks
          (run_head cs (head_call c b)).blocks first.0 rest.0,
      rest.1,
    )
