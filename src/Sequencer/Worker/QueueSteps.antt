-- ===== src/Sequencer/Worker/QueueSteps.antt =====
-- What a move of the optimistic worker of crates/sequencer/src/main.rs does to the queue, and the
-- numbers of its blocks.
use tiny_sp1_rollup.Base.{
  ◌≡◌, ◌≢◌, ◌⊎◌, inl, inr, refl, ◌∙◌, ℕ, ◌+◌, ◌<◌, ◌≤◌, List, [], ◌∷◌, String, Outcome, ok, err,
  panic, length, arith, All, Bool, true, false, if◌then◌else◌,
}
use tiny_sp1_rollup.Base.Bytes.{u64_mod}
use tiny_sp1_rollup.Stf.Digest.{Hash}
use tiny_sp1_rollup.Stf.Types.{Deposit, ForcedTx}
use tiny_sp1_rollup.Core.Block.{PendingBlock}
use tiny_sp1_rollup.Sequencer.Error.{SequencerError}
use tiny_sp1_rollup.Sequencer.L1.{Bridge}
use tiny_sp1_rollup.Sequencer.Queue.{commit_optimistic_block}
use tiny_sp1_rollup.Sequencer.Queue.Entries.{IsBelow}
use tiny_sp1_rollup.Sequencer.Worker.{
  Outside, Batch, Pc, sleeping, fetched, collected, rooted, executed, headed, drained, crashed,
  System, after_fetches, after_batch, execute_locked, after_commit, move, next_number,
}
use tiny_sp1_rollup.Sequencer.Worker.Reach.{stored}
use tiny_sp1_rollup.Sequencer.Worker.Chain.{IsChain, number_after}

module _ (o : Outside) where
  -- What a move of the optimistic worker does to the queue: nothing, or the commit of a block.
  abbrev pub QueueStep : Pc → System o → System o → Type 0
  QueueStep pc s s' =
      ((stored pc s'.pc ≡ []) × (s'.queue ≡ s.queue))
      ⊎ ((b : PendingBlock) × (pc ≡ drained b)
          × (stored pc s'.pc ≡ b ∷ [])
          × (commit_optimistic_block o.rocks o.block_codec s.queue b (next_number b.block_number)
              ≡ (s'.queue, ok tt)))

  after_fetches-queue :
      (ds : Outcome String (List Deposit)) (fs : Outcome String (List ForcedTx)) (s : System o)
      → (after_fetches o ds fs s).queue ≡ s.queue
  after_fetches-queue (ok ds) (ok fs) s = refl
  after_fetches-queue (ok ds) (err e) s = refl
  after_fetches-queue (ok ds) panic s = refl
  after_fetches-queue (err e) fs s = refl
  after_fetches-queue panic fs s = refl

  after_batch-queue :
      (pre_root : Hash) (batch : Batch) (r : o.db.Tree × Outcome SequencerError Hash) (s : System o)
      → (after_batch o pre_root batch r s).queue ≡ s.queue
  after_batch-queue pre_root batch (tree, ok root) s = refl
  after_batch-queue pre_root batch (tree, err e) s = refl
  after_batch-queue pre_root batch (tree, panic) s = refl

  execute_locked-queue :
      (pre_root : Hash) (batch : Batch) (poisoned : Bool) (s : System o)
      → (execute_locked o pre_root batch poisoned s).queue ≡ s.queue
  execute_locked-queue pre_root batch true s = refl
  execute_locked-queue pre_root batch false s = after_batch-queue pre_root batch _ s

  if-queue :
      (test : Bool) (s₁ s₂ s : System o)
      → s₁.queue ≡ s.queue
      → s₂.queue ≡ s.queue
      → (if test then s₁ else s₂).queue ≡ s.queue
  if-queue true s₁ s₂ s e₁ e₂ = e₁
  if-queue false s₁ s₂ s e₁ e₂ = e₂

  after_commit-QueueStep :
      (b : PendingBlock) (r : o.rocks.Db × Outcome String (Unit {0})) (s : System o)
      → (after_commit o r s).pc ≢ crashed
      → (stored (drained b) (after_commit o r s).pc ≡ b ∷ [])
        × (r ≡ ((after_commit o r s).queue, ok tt))
  after_commit-QueueStep b (queue, ok u) s up = (refl, refl)
  after_commit-QueueStep b (queue, err e) s up = absurd (up refl)
  after_commit-QueueStep b (queue, panic) s up = absurd (up refl)

  pub move-QueueStep :
      (bridge : Bridge) (pc : Pc) (s : System o)
      → (move o bridge pc s).pc ≢ crashed
      → QueueStep pc s (move o bridge pc s)
  unfolding move
  move-QueueStep bridge sleeping s up =
      inl (refl, if-queue o.l1_enabled _ _ s (after_fetches-queue _ _ s) refl)
  move-QueueStep bridge (fetched ds fs) s up = inl (refl, if-queue _ _ _ s refl refl)
  move-QueueStep bridge (collected batch) s up = inl (refl, refl)
  move-QueueStep bridge (rooted pre_root batch) s up =
      inl (refl, execute_locked-queue pre_root batch s.poisoned s)
  move-QueueStep bridge (executed k new_root pre_root batch) s up = inl (refl, refl)
  move-QueueStep bridge (headed k new_root pre_root batch) s up =
      inl (refl, if-queue _ _ _ s refl refl)
  move-QueueStep bridge (drained b) s up =
      let (added, done) = after_commit-QueueStep b _ s up in inr (b, refl, added, done)
  move-QueueStep bridge crashed s up = inl (refl, refl)

-- While the numbers do not wrap, they count the blocks.
pub number_after-count :
    (n : ℕ) (blocks : List PendingBlock)
    → n + length blocks < u64_mod
    → number_after n blocks ≡ n + length blocks
number_after-count n [] h = omega arith
number_after-count n (b ∷ blocks) h =
    let next : next_number n ≡ n + 1 = omega (arith, h) in
    number_after-count (next_number n) blocks (omega (arith, h, next)) ∙ omega (arith, next)

pub IsChain-IsBelow :
    (root : Hash) (n m : ℕ) (blocks : List PendingBlock)
    → IsChain root n blocks
    → n + length blocks < u64_mod
    → n + length blocks ≤ m
    → All (IsBelow m) blocks
IsChain-IsBelow root n m [] chain h le = tt
IsChain-IsBelow root n m (b ∷ blocks) (_, number, chain) h le =
    let next : next_number n ≡ n + 1 = omega (arith, h) in
    (
      omega (arith, number, le),
      IsChain-IsBelow b.post_state_root (next_number n) m blocks chain (omega (arith, h, next))
          (omega (arith, le, next)),
    )
