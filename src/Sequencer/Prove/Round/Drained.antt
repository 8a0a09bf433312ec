-- ===== src/Sequencer/Prove/Round/Drained.antt =====
-- The rounds of `prover_worker_loop` (crates/sequencer/src/main.rs) when nothing fails.
use tiny_sp1_rollup.Base.{
  ◌≡◌, refl, ap, ◌∙◌, ℕ, zero, suc, Bool, true, false, List, [], ◌∷◌, Option, none, some, ok,
  length, ◌<◌, arith, ◌⊎◌, inl, inr,
}
use tiny_sp1_rollup.Base.Bytes.{Bytes, u32_mod}
use tiny_sp1_rollup.Stf.Digest.{Hash, Digest}
use tiny_sp1_rollup.Stf.Commitment.{Abi, PublicValues}
use tiny_sp1_rollup.Contract.{Gateway}
use tiny_sp1_rollup.Contract.Accepts.{Waits, advanced-Waits, front-Waits}
use tiny_sp1_rollup.Core.Block.{PendingBlock}
use tiny_sp1_rollup.Core.External.{StateTree, Codec}
use tiny_sp1_rollup.Core.Prover.Idle.{IsIdle, idle_bundle, idle_replay}
use tiny_sp1_rollup.Sequencer.Queue.{
  ColumnFamily, pending_blocks, Rocks, BlockCodec, peek_pending, remove_pending,
}
use tiny_sp1_rollup.Sequencer.Queue.Counter.{StoresBatches}
use tiny_sp1_rollup.Sequencer.Queue.Keys.{StoresKeys, IteratesInOrder, key_of}
use tiny_sp1_rollup.Sequencer.Queue.Pending.{
  RoundTrips, IsQueue, first-front, remove-IsQueue, peek-none,
}
use tiny_sp1_rollup.Sequencer.Prove.{Attempt, ProverState}
use tiny_sp1_rollup.Sequencer.Prove.Blocks.{prove_block}
use tiny_sp1_rollup.Sequencer.Prove.Retries.{Verdict, proven_and_sent}
use tiny_sp1_rollup.Sequencer.Prove.Progress.{
  IsReliable, AreProvable, deposits_of, forced_of, settle, settle_all, prove_block-settles,
}
use tiny_sp1_rollup.Sequencer.Prove.Round.{
  Ending, idle, went_on, ended, write_queue, round_of, prover_round,
}

-- What RocksDB documents when its disk does not fail: an iterator has no entry or gives one, a
-- delete is done, and it leaves the column families.
pub record IsAvailable (rocks : Rocks) : Type 0 where
  pub first-ok :
      (db : rocks.Db) (cf : ColumnFamily)
      → (rocks.first db cf ≡ none)
        ⊎ ((key : Bytes) × (value : Bytes) × (rocks.first db cf ≡ some (ok (key, value))))
  pub delete_cf-ok :
      (db : rocks.Db) (cf : ColumnFamily) (key : Bytes)
      → (db' : rocks.Db) × (rocks.delete_cf db cf key ≡ (db', ok tt))
        × ((cf' : ColumnFamily) → rocks.cf_handle db' cf' ≡ rocks.cf_handle db cf')

-- The blocks follow each other from a root and change nothing, and their forced transactions can be
-- counted.
abbrev pub AreIdle : Hash → List PendingBlock → Type 0
AreIdle root [] = Unit {0}
AreIdle root (b ∷ blocks) =
    (b.pre_state_root ≡ root)
    × IsIdle b
    × (length b.forced_txs < u32_mod)
    × AreIdle b.post_state_root blocks

idle-deposits_of :
    (root : Hash) (blocks : List PendingBlock) → AreIdle root blocks → deposits_of blocks ≡ []
idle-deposits_of root [] h = refl
idle-deposits_of root (b ∷ blocks) (at, kept, few, rest) =
    rw (kept.no_deposits, idle-deposits_of b.post_state_root blocks rest)

idle-AreProvable :
    (sha3 : Digest) (db : StateTree) (codec : Codec) (tree : db.Tree) (root : Hash)
    (blocks : List PendingBlock)
    → AreIdle root blocks
    → AreProvable sha3 db codec tree root blocks
idle-AreProvable sha3 db codec tree root [] h = tt
idle-AreProvable sha3 db codec tree root (b ∷ blocks) (at, kept, few, rest) = (
  at,
  record {
    bundle = idle_bundle b;
    replay = idle_replay sha3 db codec tree b kept;
    few = rw kept.no_deposits (omega arith);
    few_forced = few;
  },
  idle-AreProvable sha3 db codec tree b.post_state_root blocks rest,
)

module _ (rocks : Rocks) (block_codec : BlockCodec) (sha3 keccak : Digest) (abi : Abi)
    (gateway : Gateway) (db : StateTree) (codec : Codec)
    (decode : Bytes → Option PublicValues) where
  -- An ending that is none goes on with the loop.
  abbrev pub unless_ended :
      (rocks.Db → ProverState db.Tree → rocks.Db × ProverState db.Tree)
      → rocks.Db × ProverState db.Tree × Ending
      → rocks.Db × ProverState db.Tree
  unless_ended rest (queue, s, ended) = (queue, s)
  unless_ended rest (queue, s, idle) = rest queue s
  unless_ended rest (queue, s, went_on) = rest queue s

  -- The first rounds of the loop.
  unfoldable pub prover_rounds :
      Bool
      → (PendingBlock → ℕ → Attempt)
      → ℕ
      → rocks.Db
      → ProverState db.Tree
      → rocks.Db × ProverState db.Tree
  prover_rounds l1_enabled attempts zero queue s = (queue, s)
  prover_rounds l1_enabled attempts (suc n) queue s =
      unless_ended (prover_rounds l1_enabled attempts n) (
        prover_round rocks block_codec sha3 keccak abi gateway db codec decode l1_enabled attempts
          queue s)

  module _ (batches : StoresBatches rocks) (keys : StoresKeys rocks) (order : IteratesInOrder rocks)
      (trips : RoundTrips block_codec) (available : IsAvailable rocks) where
    -- The queue shows its first block.
    front_shown :
        (queue : rocks.Db) (b : PendingBlock) (blocks : List PendingBlock)
        → IsQueue rocks block_codec queue (b ∷ blocks)
        → rocks.cf_handle queue pending_blocks ≡ true
        → peek_pending rocks block_codec queue ≡ ok (some b)
    unfolding peek_pending
    front_shown queue b blocks q opened = elim (available.first-ok queue pending_blocks) [
      | inl nothing ↦
          let unseen : peek_pending rocks block_codec queue ≡ ok none = rw (opened, nothing) in
          absurd
            (cc (peek-none rocks block_codec batches keys order trips queue (b ∷ blocks) q unseen))
      | inr (key, value, e) ↦
          let stored =
            first-front rocks block_codec batches keys order trips queue b blocks key value q e in
          rw (opened, e, trips.deserialize-serialize b value stored)
    ]

    -- The first block is removed.
    front_removed :
        (queue : rocks.Db) (b : PendingBlock) (blocks : List PendingBlock)
        → IsQueue rocks block_codec queue (b ∷ blocks)
        → rocks.cf_handle queue pending_blocks ≡ true
        → (queue' : rocks.Db) × (write_queue rocks block_codec proven_and_sent b queue
            ≡ (queue', went_on))
          × IsQueue rocks block_codec queue' blocks
          × (rocks.cf_handle queue' pending_blocks ≡ true)
    unfolding write_queue remove_pending
    front_removed queue b blocks q opened =
        let (queue', done, families) = available.delete_cf-ok queue pending_blocks (key_of b) in
        (
          queue',
          rw (opened, done),
          remove-IsQueue rocks block_codec batches keys order trips queue queue' b blocks q
              (rw (opened, done)),
          families pending_blocks ∙ opened,
        )

    -- A round settles the first block and removes it.
    round_settled :
        (attempts : PendingBlock → ℕ → Attempt) (b : PendingBlock) (blocks : List PendingBlock)
        (queue : rocks.Db) (s : ProverState db.Tree)
        → IsQueue rocks block_codec queue (b ∷ blocks)
        → rocks.cf_handle queue pending_blocks ≡ true
        → prove_block sha3 keccak abi gateway db codec decode true (attempts b) b s
          ≡ (settle b s, proven_and_sent)
        → (queue' : rocks.Db) × (prover_round rocks block_codec sha3 keccak abi gateway db codec
              decode true attempts queue s
            ≡ (queue', settle b s, went_on))
          × IsQueue rocks block_codec queue' blocks
          × (rocks.cf_handle queue' pending_blocks ≡ true)
    unfolding prover_round
    round_settled attempts b blocks queue s q opened proven =
        let (queue', removed, q', opened') = front_removed queue b blocks q opened in
        (
          queue',
          ap
                (λ m.
                  round_of rocks block_codec sha3 keccak abi gateway db codec decode true attempts m
                    queue s)
                (front_shown queue b blocks q opened)
              ∙ ap
                  (λ (r : ProverState db.Tree × Verdict).
                    let w = write_queue rocks block_codec r.1 b queue in (w.0, r.0, w.1))
                  proven
              ∙ ap (λ (w : rocks.Db × Ending). (w.0, settle b s, w.1)) removed,
          q',
          opened',
        )

    -- Blocks that can be proven are settled.
    rounds_settled :
        (attempts : PendingBlock → ℕ → Attempt)
        → ((b : PendingBlock) → IsReliable sha3 keccak abi gateway decode (attempts b 0))
        → (blocks : List PendingBlock) (queue : rocks.Db) (s : ProverState db.Tree)
        → IsQueue rocks block_codec queue blocks
        → rocks.cf_handle queue pending_blocks ≡ true
        → s.poisoned ≡ false
        → AreProvable sha3 db codec s.tree s.contract.state_root blocks
        → Waits s.contract (deposits_of blocks) (forced_of blocks)
        → (queue' : rocks.Db) × (prover_rounds true attempts (length blocks) queue s
            ≡ (queue', settle_all blocks s))
          × IsQueue rocks block_codec queue' []
    unfolding prover_rounds
    rounds_settled attempts reliable [] queue s q opened clean p w = (queue, refl, q)
    rounds_settled attempts reliable (b ∷ blocks) queue s q opened clean (at, p, ps) w =
        let proven =
          prove_block-settles sha3 keccak abi gateway db codec decode (attempts b) (reliable b) b s
            clean at p
            (front-Waits b.deposits (deposits_of blocks) b.forced_txs (forced_of blocks) s.contract
              w) in
        let (queue', round, q', opened') =
          round_settled attempts b blocks queue s q opened proven in
        let (last, rounds, empty) =
          rounds_settled attempts reliable blocks queue' (settle b s) q' opened' clean ps (
            advanced-Waits b.post_state_root b.deposits (deposits_of blocks) b.forced_txs
              (forced_of blocks) s.contract w) in
        (
          last,
          ap (unless_ended (prover_rounds true attempts (length blocks))) round ∙ rounds,
          empty,
        )

    -- The prover empties its queue of blocks that change nothing. From a queue and a state whose
    -- mutex is not poisoned, with blocks from the contract's state root that have no deposit, no
    -- transaction, forced transactions from the default address only, fewer than 2^32 of them, and
    -- one root, whose forced transactions stand in order in the contract's array, with a store that
    -- does not fail and first attempts in which the prover, the verifier and the transaction do not
    -- fail, as many rounds as there are blocks leave no pending block, and settle every one in
    -- order, whatever the state tree holds: exactly their forced transactions are counted as
    -- processed.
    pub prover_rounds-settle_all :
        (attempts : PendingBlock → ℕ → Attempt)
        → ((b : PendingBlock) → IsReliable sha3 keccak abi gateway decode (attempts b 0))
        → (blocks : List PendingBlock) (queue : rocks.Db) (s : ProverState db.Tree)
        → IsQueue rocks block_codec queue blocks
        → rocks.cf_handle queue pending_blocks ≡ true
        → s.poisoned ≡ false
        → AreIdle s.contract.state_root blocks
        → Waits s.contract [] (forced_of blocks)
        → (queue' : rocks.Db) × (prover_rounds true attempts (length blocks) queue s
            ≡ (queue', settle_all blocks s))
          × IsQueue rocks block_codec queue' []
    prover_rounds-settle_all attempts reliable blocks queue s q opened clean kept w =
        rounds_settled attempts reliable blocks queue s q opened clean
          (idle-AreProvable sha3 db codec s.tree s.contract.state_root blocks kept)
          (rw (idle-deposits_of s.contract.state_root blocks kept) w)
