-- ===== src/Sequencer/Worker/Chain.antt =====
-- The blocks that crates/sequencer/src/main.rs stores, under any interleaving: a chain of roots with
-- consecutive numbers.
use tiny_sp1_rollup.Base.{
  ◌≡◌, refl, ap, sym, ◌∙◌, ℕ, List, [], ◌∷◌, ◌++◌, String, Option, some, Outcome, ok, err, panic,
  length, ltb, Bool, true, false, ◌&&◌, Bool-cases, inl, inr,
}
use mathlib.Core.List.{append-nil}
use tiny_sp1_rollup.Stf.Digest.{Hash}
use tiny_sp1_rollup.Stf.Types.{Transaction, Deposit, ForcedTx}
use tiny_sp1_rollup.Core.Block.{PendingBlock}
use tiny_sp1_rollup.Sequencer.Batch.{is_empty}
use tiny_sp1_rollup.Sequencer.Error.{SequencerError}
use tiny_sp1_rollup.Sequencer.L1.{Bridge}
use tiny_sp1_rollup.Sequencer.Worker.{
  Outside, Batch, Pc, sleeping, fetched, collected, rooted, executed, headed, drained, crashed,
  System, handle_submit_tx, after_fetches, after_batch, execute_locked, after_commit, move,
  next_number,
}
use tiny_sp1_rollup.Sequencer.Worker.Reach.{stored, Other, attempts, removes, fails, calls, Reach}

-- Each block starts at the root where the one before ends, and has the next number.
abbrev pub IsChain : Hash → ℕ → List PendingBlock → Type 0
IsChain root n [] = Unit {0}
IsChain root n (b ∷ blocks) =
    (b.pre_state_root ≡ root)
    × (b.block_number ≡ n)
    × IsChain b.post_state_root (next_number n) blocks

-- The root and the number after a chain.
abbrev pub last_root : Hash → List PendingBlock → Hash
last_root root [] = root
last_root root (b ∷ blocks) = last_root b.post_state_root blocks

abbrev pub number_after : ℕ → List PendingBlock → ℕ
number_after n [] = n
number_after n (b ∷ blocks) = number_after (next_number n) blocks

IsChain-more :
    (root : Hash) (n : ℕ) (blocks : List PendingBlock) (b : PendingBlock)
    → IsChain root n blocks
    → b.pre_state_root ≡ last_root root blocks
    → b.block_number ≡ number_after n blocks
    → IsChain root n (blocks ++ (b ∷ []))
      × (last_root root (blocks ++ (b ∷ [])) ≡ b.post_state_root)
      × (number_after n (blocks ++ (b ∷ [])) ≡ next_number (number_after n blocks))
IsChain-more root n [] b h pre number = ((pre, number, tt), refl, refl)
IsChain-more root n (c ∷ blocks) b (p, k, h) pre number =
    let (h', last, next) = IsChain-more c.post_state_root (next_number n) blocks b h pre number in
    ((p, k, h'), last, next)

-- Where the worker stands, its head, its counter and the tree's head root, against the root and the
-- number after the stored blocks.
abbrev pub IsAt : Pc → Hash → ℕ → Option Hash → Hash → ℕ → Type 0
IsAt (rooted pre_root batch) optimistic counter headroot root n =
    (pre_root ≡ root) × (optimistic ≡ root) × (counter ≡ n) × (headroot ≡ some root)
IsAt (executed number new_root pre_root batch) optimistic counter headroot root n =
    (pre_root ≡ root) × (number ≡ n) × (counter ≡ next_number n) × (headroot ≡ some new_root)
IsAt (headed number new_root pre_root batch) optimistic counter headroot root n =
    (pre_root ≡ root)
    × (number ≡ n)
    × (counter ≡ next_number n)
    × (headroot ≡ some new_root)
    × (optimistic ≡ new_root)
IsAt (drained block) optimistic counter headroot root n =
    (block.pre_state_root ≡ root)
    × (block.block_number ≡ n)
    × (counter ≡ next_number n)
    × (headroot ≡ some block.post_state_root)
    × (optimistic ≡ block.post_state_root)
IsAt crashed optimistic counter headroot root n = Unit {0}
IsAt _ optimistic counter headroot root n =
    (optimistic ≡ root) × (counter ≡ n) × (headroot ≡ some root)

module _ (o : Outside) (root : Hash) (n : ℕ) where
  -- The stored blocks are a chain from `root` and `n`, and the system stands behind it.
  pub record Follows (s : System o) (blocks : List PendingBlock) : Type 0 where
    pub chain : IsChain root n blocks
    pub at :
        IsAt s.pc s.optimistic s.block_counter s.headroot
          (last_root root blocks)
          (number_after n blocks)

  no_block :
      {s : System o} {blocks : List PendingBlock} → Follows s blocks → Follows s (blocks ++ [])
  no_block {blocks = blocks} h = rw (append-nil blocks) h

  module _ (blocks : List PendingBlock) (chained : IsChain root n blocks) where
    abbrev Here : Pc → System o → Type 0
    Here pc s =
        IsAt pc s.optimistic s.block_counter s.headroot (last_root root blocks)
          (number_after n blocks)

    after_fetches-Follows :
        (ds : Outcome String (List Deposit)) (fs : Outcome String (List ForcedTx)) (s : System o)
        → Here sleeping s
        → Follows (after_fetches o ds fs s) blocks
    after_fetches-Follows (ok ds) (ok fs) s h = record { chain = chained; at = h }
    after_fetches-Follows (ok ds) (err e) s h = record { chain = chained; at = tt }
    after_fetches-Follows (ok ds) panic s h = record { chain = chained; at = tt }
    after_fetches-Follows (err e) fs s h = record { chain = chained; at = tt }
    after_fetches-Follows panic fs s h = record { chain = chained; at = tt }

    after_batch-Follows :
        (pre_root : Hash) (batch : Batch) (r : o.db.Tree × Outcome SequencerError Hash)
        (s : System o)
        → Here (rooted pre_root batch) s
        → Follows (after_batch o pre_root batch r s) blocks
    after_batch-Follows pre_root batch (tree', ok new_root) s (pre, optimistic, counter, head) =
        record { chain = chained; at = (pre, counter, ap next_number counter, refl) }
    after_batch-Follows pre_root batch (tree', err e) s h = record { chain = chained; at = tt }
    after_batch-Follows pre_root batch (tree', panic) s h = record { chain = chained; at = tt }

    execute_locked-Follows :
        (pre_root : Hash) (batch : Batch) (poisoned : Bool) (s : System o)
        → Here (rooted pre_root batch) s
        → Follows (execute_locked o pre_root batch poisoned s) blocks
    execute_locked-Follows pre_root batch true s h = record { chain = chained; at = tt }
    execute_locked-Follows pre_root batch false s h = after_batch-Follows pre_root batch _ s h

    after_commit-Follows :
        (block : PendingBlock) (r : o.rocks.Db × Outcome String (Unit {0})) (s : System o)
        → Here (drained block) s
        → let s' = after_commit o r s in Follows s' (blocks ++ stored (drained block) s'.pc)
    after_commit-Follows block (queue', ok u) s (pre, number, counter, head, optimistic) =
        let (chain, last, next) = IsChain-more root n blocks block chained pre number in
        record {
          chain = chain;
          at = (optimistic ∙ sym last, counter ∙ sym next, head ∙ ap some (sym last));
        }
    after_commit-Follows block (queue', err e) s h = no_block (record { chain = chained; at = tt })
    after_commit-Follows block (queue', panic) s h = no_block (record { chain = chained; at = tt })

    move-Follows :
        (bridge : Bridge) (pc : Pc) (s : System o)
        → Here pc s
        → let s' = move o bridge pc s in Follows s' (blocks ++ stored pc s'.pc)
    unfolding move
    move-Follows bridge sleeping s h = elim (Bool-cases o.l1_enabled) [
      | inl enabled ↦ rw enabled (no_block (after_fetches-Follows _ _ s h))
      | inr disabled ↦ rw disabled (no_block (record { chain = chained; at = h }))
    ]
    move-Follows bridge (fetched ds fs) s h =
        elim (Bool-cases (is_empty s.mempool && (is_empty ds && is_empty fs))) [
          | inl idle ↦ rw idle (no_block (record { chain = chained; at = h }))
          | inr busy ↦ rw busy (no_block (record { chain = chained; at = h }))
        ]
    move-Follows bridge (collected batch) s (optimistic, counter, head) =
        no_block (record { chain = chained; at = (optimistic, optimistic, counter, head) })
    move-Follows bridge (rooted pre_root batch) s h =
        no_block (execute_locked-Follows pre_root batch s.poisoned s h)
    move-Follows bridge (executed number new_root pre_root batch) s (pre, k, counter, head) =
        no_block (record { chain = chained; at = (pre, k, counter, head, refl) })
    move-Follows bridge (headed number new_root pre_root batch) s h =
        elim (Bool-cases (ltb (length s.mempool) (length batch.txs))) [
          | inl short ↦ rw short (no_block (record { chain = chained; at = tt }))
          | inr long ↦ rw long (no_block (record { chain = chained; at = h }))
        ]
    move-Follows bridge (drained block) s h = after_commit-Follows block _ s h
    move-Follows bridge crashed s h = no_block (record { chain = chained; at = tt })

  other-Follows :
      (blocks : List PendingBlock) (s s' : System o)
      → Follows s blocks
      → Other o s s'
      → Follows s' blocks
  other-Follows blocks s s' h (attempts attempt block) = record { chain = h.chain; at = h.at }
  other-Follows blocks s s' h (removes k) = record { chain = h.chain; at = h.at }
  other-Follows blocks s s' h (fails block) = record { chain = h.chain; at = h.at }
  other-Follows blocks s s' h (calls c call) = record { chain = h.chain; at = h.at }

  -- The stored blocks are a chain. In every reachable system, however the tasks have taken turns
  -- since a start that stands at a root and a number, each stored block starts at the root where the
  -- one before it ends and has the number after it, from the root and the number of the start on;
  -- and until the worker ends, its place says how the optimistic head, the block counter and the
  -- tree's head root stand to the end of that chain.
  pub Reach-Follows :
      (first s : System o) (txs : List Transaction) (blocks : List PendingBlock)
      → first.pc ≡ sleeping
      → first.optimistic ≡ root
      → first.block_counter ≡ n
      → first.headroot ≡ some root
      → Reach o first s txs blocks
      → Follows s blocks
  unfolding handle_submit_tx
  Reach-Follows first s txs blocks asleep head counter headroot Reach.starts = record {
    chain = tt;
    at = rw asleep (head, counter, headroot);
  }
  Reach-Follows first s txs blocks asleep head counter headroot
        (Reach.submits {s = s₀} {txs = txs₀} tx r) =
      let h = Reach-Follows first s₀ txs₀ blocks asleep head counter headroot r in
      record { chain = h.chain; at = h.at }
  Reach-Follows first s txs blocks asleep head counter headroot
        (Reach.advances {s = s₀} {blocks = blocks₀} bridge r) =
      let h = Reach-Follows first s₀ txs blocks₀ asleep head counter headroot r in
      move-Follows blocks₀ h.chain bridge s₀.pc s₀ h.at
  Reach-Follows first s txs blocks asleep head counter headroot (Reach.moves {s = s₀} r other) =
      other-Follows blocks s₀ s (Reach-Follows first s₀ txs blocks asleep head counter headroot r)
        other
