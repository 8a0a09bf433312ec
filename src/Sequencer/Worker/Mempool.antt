-- ===== src/Sequencer/Worker/Mempool.antt =====
-- The mempool of crates/sequencer/src/main.rs under any interleaving: the worker copies it, executes
-- the copy while others push, and drains as many transactions as it has copied.
use tiny_sp1_rollup.Base.{
  ◌≡◌, refl, ap, sym, ◌∙◌, ℕ, List, [], ◌∷◌, ◌++◌, String, Outcome, ok, err, panic, length, drop,
  ltb, Bool, true, false, ◌&&◌, Bool-cases, inl, inr, drop-append_left,
}
use mathlib.Core.List.{append_assoc, append-nil}
use tiny_sp1_rollup.Stf.Digest.{Hash}
use tiny_sp1_rollup.Stf.Types.{Transaction, Deposit, ForcedTx}
use tiny_sp1_rollup.Core.Block.{PendingBlock}
use tiny_sp1_rollup.Sequencer.Batch.{is_empty}
use tiny_sp1_rollup.Sequencer.Error.{SequencerError}
use tiny_sp1_rollup.Sequencer.L1.{Bridge}
use tiny_sp1_rollup.Sequencer.Worker.{
  Outside, Batch, Pc, sleeping, fetched, collected, rooted, executed, headed, drained, crashed,
  System, after_fetches, after_batch, execute_locked, after_commit, block_of, move,
}
use tiny_sp1_rollup.Sequencer.Worker.Reach.{stored}

-- The transactions of blocks, in order.
abbrev pub txs_of : List PendingBlock → List Transaction
txs_of [] = []
txs_of (block ∷ blocks) = block.txs ++ txs_of blocks

-- The transactions that are neither in the mempool nor in a stored block: those of a block that is
-- about to be stored, and what the worker took with it when it ended.
abbrev pub IsHeld : Pc → List Transaction → Type 0
IsHeld (drained block) held = held ≡ block.txs
IsHeld crashed held = Unit {0}
IsHeld _ held = held ≡ []

-- The worker's copy is at the front of the mempool.
abbrev pub IsCopied : Pc → List Transaction → Type 0
IsCopied (collected batch) mempool = (later : List Transaction) × (mempool ≡ batch.txs ++ later)
IsCopied (rooted pre_root batch) mempool =
    (later : List Transaction) × (mempool ≡ batch.txs ++ later)
IsCopied (executed n root pre_root batch) mempool =
    (later : List Transaction) × (mempool ≡ batch.txs ++ later)
IsCopied (headed n root pre_root batch) mempool =
    (later : List Transaction) × (mempool ≡ batch.txs ++ later)
IsCopied _ mempool = Unit {0}

-- Every submitted transaction is in a stored block, held, or in the mempool, in this order.
pub record Accounts (pc : Pc) (mempool txs : List Transaction) (blocks : List PendingBlock)
    : Type 0 where
  pub held : List Transaction
  pub is_held : IsHeld pc held
  pub is_copied : IsCopied pc mempool
  pub all_there : txs_of blocks ++ (held ++ mempool) ≡ txs

txs_of-append : (bs cs : List PendingBlock) → txs_of (bs ++ cs) ≡ txs_of bs ++ txs_of cs
txs_of-append [] cs = refl
txs_of-append (b ∷ bs) cs =
    rw (txs_of-append bs cs) (sym (append_assoc b.txs (txs_of bs) (txs_of cs)))

-- A move that stores nothing.
no_block :
    {pc : Pc} {mempool txs : List Transaction} {blocks : List PendingBlock}
    → Accounts pc mempool txs blocks
    → Accounts pc mempool txs (blocks ++ [])
no_block {blocks = blocks} h = rw (append-nil blocks) h

module _ (o : Outside) where
  -- A system after a move that has stored nothing.
  abbrev pub Counts : List Transaction → List PendingBlock → System o → Type 0
  Counts txs blocks s = Accounts s.pc s.mempool txs blocks

  module _ (txs : List Transaction) (blocks : List PendingBlock) where
    crash :
        (pc : Pc) (mempool : List Transaction)
        → Accounts pc mempool txs blocks
        → Accounts crashed mempool txs blocks
    crash pc mempool h = record {
      held = h.held;
      is_held = tt;
      is_copied = tt;
      all_there = h.all_there;
    }

    after_fetches-Counts :
        (ds : Outcome String (List Deposit)) (fs : Outcome String (List ForcedTx)) (s : System o)
        → Accounts sleeping s.mempool txs blocks
        → Counts txs blocks (after_fetches o ds fs s)
    after_fetches-Counts (ok ds) (ok fs) s h = record {
      held = h.held;
      is_held = h.is_held;
      is_copied = tt;
      all_there = h.all_there;
    }
    after_fetches-Counts (ok ds) (err e) s h = crash sleeping s.mempool h
    after_fetches-Counts (ok ds) panic s h = crash sleeping s.mempool h
    after_fetches-Counts (err e) fs s h = crash sleeping s.mempool h
    after_fetches-Counts panic fs s h = crash sleeping s.mempool h

    after_batch-Counts :
        (pre_root : Hash) (batch : Batch) (r : o.db.Tree × Outcome SequencerError Hash)
        (s : System o)
        → Accounts (rooted pre_root batch) s.mempool txs blocks
        → Counts txs blocks (after_batch o pre_root batch r s)
    after_batch-Counts pre_root batch (tree', ok root) s h = record {
      held = h.held;
      is_held = h.is_held;
      is_copied = h.is_copied;
      all_there = h.all_there;
    }
    after_batch-Counts pre_root batch (tree', err e) s h = crash (rooted pre_root batch) s.mempool h
    after_batch-Counts pre_root batch (tree', panic) s h = crash (rooted pre_root batch) s.mempool h

    execute_locked-Counts :
        (pre_root : Hash) (batch : Batch) (poisoned : Bool) (s : System o)
        → Accounts (rooted pre_root batch) s.mempool txs blocks
        → Counts txs blocks (execute_locked o pre_root batch poisoned s)
    execute_locked-Counts pre_root batch true s h = crash (rooted pre_root batch) s.mempool h
    execute_locked-Counts pre_root batch false s h = after_batch-Counts pre_root batch _ s h

    drain-Counts :
        (n : ℕ) (root pre_root : Hash) (batch : Batch) (s : System o)
        → Accounts (headed n root pre_root batch) s.mempool txs blocks
        → Accounts
            (drained (block_of o n root pre_root batch))
            (drop (length batch.txs) s.mempool)
            txs
            blocks
    drain-Counts n root pre_root batch s h =
        let (later, copied) = h.is_copied in
        let same : batch.txs ++ drop (length batch.txs) s.mempool ≡ s.mempool =
          rw (copied, drop-append_left batch.txs later) in
        record {
          held = batch.txs;
          is_held = refl;
          is_copied = tt;
          all_there =
              ap (λ m. txs_of blocks ++ m) same
              ∙ ap (λ m. txs_of blocks ++ (m ++ s.mempool)) (sym h.is_held)
              ∙ h.all_there;
        }

    after_commit-Counts :
        (block : PendingBlock) (r : o.rocks.Db × Outcome String (Unit {0})) (s : System o)
        → Accounts (drained block) s.mempool txs blocks
        → let s' = after_commit o r s in
          Accounts s'.pc s'.mempool txs (blocks ++ stored (drained block) s'.pc)
    after_commit-Counts block (queue', ok u) s h = record {
      held = [];
      is_held = refl;
      is_copied = tt;
      all_there =
          rw
            (
              txs_of-append blocks (block ∷ []),
              append-nil block.txs,
              append_assoc (txs_of blocks) block.txs s.mempool,
              ← h.is_held,
            )
            h.all_there;
    }
    after_commit-Counts block (queue', err e) s h = no_block (crash (drained block) s.mempool h)
    after_commit-Counts block (queue', panic) s h = no_block (crash (drained block) s.mempool h)

    pub move-Counts :
        (bridge : Bridge) (pc : Pc) (s : System o)
        → Accounts pc s.mempool txs blocks
        → let s' = move o bridge pc s in Accounts s'.pc s'.mempool txs (blocks ++ stored pc s'.pc)
    unfolding move
    move-Counts bridge sleeping s h = elim (Bool-cases o.l1_enabled) [
      | inl enabled ↦ rw enabled (no_block (after_fetches-Counts _ _ s h))
      | inr disabled ↦ rw disabled (
          no_block (record {
            held = h.held;
            is_held = h.is_held;
            is_copied = tt;
            all_there = h.all_there;
          }))
    ]
    move-Counts bridge (fetched ds fs) s h =
        elim (Bool-cases (is_empty s.mempool && (is_empty ds && is_empty fs))) [
          | inl idle ↦ rw idle (
              no_block (record {
                held = h.held;
                is_held = h.is_held;
                is_copied = tt;
                all_there = h.all_there;
              }))
          | inr busy ↦ rw busy (
              no_block (record {
                held = h.held;
                is_held = h.is_held;
                is_copied = ([], sym (append-nil s.mempool));
                all_there = h.all_there;
              }))
        ]
    move-Counts bridge (collected batch) s h = no_block (record {
      held = h.held;
      is_held = h.is_held;
      is_copied = h.is_copied;
      all_there = h.all_there;
    })
    move-Counts bridge (rooted pre_root batch) s h =
        no_block (execute_locked-Counts pre_root batch s.poisoned s h)
    move-Counts bridge (executed n root pre_root batch) s h = no_block (record {
      held = h.held;
      is_held = h.is_held;
      is_copied = h.is_copied;
      all_there = h.all_there;
    })
    move-Counts bridge (headed n root pre_root batch) s h =
        elim (Bool-cases (ltb (length s.mempool) (length batch.txs))) [
          | inl short ↦ rw short (no_block (crash (headed n root pre_root batch) s.mempool h))
          | inr long ↦ rw long (no_block (drain-Counts n root pre_root batch s h))
        ]
    move-Counts bridge (drained block) s h = after_commit-Counts block _ s h
    move-Counts bridge crashed s h = no_block h
