-- ===== src/Sequencer/Queue/Fifo.antt =====
-- The pending blocks of crates/sequencer/src/persistence.rs as a queue that the optimistic worker
-- appends to while the prover shows and removes blocks.
use tiny_sp1_rollup.Base.{
  ◌≡◌, refl, sym, subst, ◌∙◌, ℕ, List, [], ◌∷◌, ◌++◌, Option, none, some, ok, All,
}
use mathlib.Core.List.{append_assoc, append-nil}
use tiny_sp1_rollup.Base.Bytes.{IsU64}
use tiny_sp1_rollup.Core.Block.{PendingBlock}
use tiny_sp1_rollup.Sequencer.Queue.{
  Rocks, BlockCodec, peek_pending, remove_pending, push_failed, commit_optimistic_block,
}
use tiny_sp1_rollup.Sequencer.Queue.Counter.{StoresBatches}
use tiny_sp1_rollup.Sequencer.Queue.Keys.{StoresKeys, IteratesInOrder}
use tiny_sp1_rollup.Sequencer.Queue.Entries.{IsBelow}
use tiny_sp1_rollup.Sequencer.Queue.Pending.{
  RoundTrips, IsQueue, IsFront, commit-IsQueue, remove-IsQueue, fail-IsQueue, peek-IsFront,
  peek-none,
}

module _ (rocks : Rocks) (codec : BlockCodec) where
  -- Interleaved steps on one database: the worker commits a block whose number is above those
  -- before, and the prover looks at the queue, keeps the block that it saw, and either removes it or
  -- notes it as failed. The last three indices are the blocks committed, the blocks removed, and the
  -- block that the prover has.
  pub data Run (first : rocks.Db)
      : rocks.Db → List PendingBlock → List PendingBlock → Option PendingBlock → Type 0 where
    starts : Run first first [] [] none
    commits :
        {queue queue' : rocks.Db} {added removed : List PendingBlock} {shown : Option PendingBlock}
        (b : PendingBlock) (next : ℕ)
        → Run first queue added removed shown
        → IsU64 b.block_number
        → All (IsBelow b.block_number) added
        → commit_optimistic_block rocks codec queue b next ≡ (queue', ok tt)
        → Run first queue' (added ++ (b ∷ [])) removed shown
    peeks :
        {queue : rocks.Db} {added removed : List PendingBlock} {shown : Option PendingBlock}
        (seen : Option PendingBlock)
        → Run first queue added removed shown
        → peek_pending rocks codec queue ≡ ok seen
        → Run first queue added removed seen
    removes :
        {queue queue' : rocks.Db} {added removed : List PendingBlock} (b : PendingBlock)
        → Run first queue added removed (some b)
        → remove_pending rocks queue b.block_number ≡ (queue', ok tt)
        → Run first queue' added (removed ++ (b ∷ [])) none
    fails :
        {queue queue' : rocks.Db} {added removed : List PendingBlock} (b : PendingBlock)
        → Run first queue added removed (some b)
        → push_failed rocks codec queue b ≡ (queue', ok tt)
        → Run first queue' added removed (some b)

  module _ (batches : StoresBatches rocks) (keys : StoresKeys rocks) (order : IteratesInOrder rocks)
      (trips : RoundTrips codec) where
    -- The blocks behind the removed ones.
    abbrev pub Remaining :
        rocks.Db → List PendingBlock → List PendingBlock → Option PendingBlock → Type 0
    Remaining queue added removed shown =
        (rest : List PendingBlock) × IsQueue rocks codec queue rest
        × (added ≡ removed ++ rest)
        × IsFront rocks codec shown rest

    IsFront-snoc :
        (shown : Option PendingBlock) (rest : List PendingBlock) (b : PendingBlock)
        → IsFront rocks codec shown rest
        → IsFront rocks codec shown (rest ++ (b ∷ []))
    IsFront-snoc none rest b f = tt
    IsFront-snoc (some c) rest b (behind, e) = (behind ++ (b ∷ []), rw e refl)

    below-rest :
        (P : PendingBlock → Type 0) (removed rest : List PendingBlock)
        → All P (removed ++ rest)
        → All P rest
    below-rest P [] rest h = h
    below-rest P (b ∷ removed) rest h = below-rest P removed rest h.1

    -- The queue is first in, first out. Let the database start with no pending block, and let the
    -- worker commit blocks of ascending numbers while the prover looks, removes what it saw, or
    -- notes it as failed, in any order of these steps, each of them done. Then the blocks committed
    -- are the blocks removed followed by those still pending, in this order; the pending entries of
    -- the database are these; and the block that the prover has seen and not removed is the first
    -- of them.
    pub Run-Remaining :
        (first queue : rocks.Db) {added removed : List PendingBlock} {shown : Option PendingBlock}
        → IsQueue rocks codec first []
        → Run first queue added removed shown
        → Remaining queue added removed shown
    Run-Remaining first queue start starts = ([], start, refl, tt)
    Run-Remaining first queue start
          (commits {queue = before} {added = added} {removed = removed} {shown = shown} b next run h
            below done) =
        let (rest, q, split, front) = Run-Remaining first before start run in
        (
          rest ++ (b ∷ []),
          commit-IsQueue rocks codec batches keys order trips before queue b next rest q h
              (below-rest (IsBelow b.block_number) removed rest (rw split at below)) done,
          rw split (append_assoc removed rest (b ∷ [])),
          IsFront-snoc shown rest b front,
        )
    Run-Remaining first queue start (peeks seen run done) =
        let (rest, q, split, _) = Run-Remaining first queue start run in
        (rest, q, split, peek-IsFront rocks codec batches keys order trips queue seen rest q done)
    Run-Remaining first queue start
          (removes {queue = before} {added = added} {removed = removed} b run done) =
        let (rest, q, split, front) = Run-Remaining first before start run in
        let (behind, e) = front in
        (
          behind,
          remove-IsQueue rocks codec batches keys order trips before queue b behind
              (subst (IsQueue rocks codec before) e q) done,
          split ∙ rw e (sym (append_assoc removed (b ∷ []) behind)),
          tt,
        )
    Run-Remaining first queue start (fails {queue = before} b run done) =
        let (rest, q, split, front) = Run-Remaining first before start run in
        (
          rest,
          fail-IsQueue rocks codec batches keys order trips before queue b rest q done,
          split,
          front,
        )

    -- Nothing committed is lost and nothing is removed twice. If after such a run the queue shows no
    -- block, then the removed blocks are the committed ones, in the order of the commits.
    pub Run-drained :
        (first queue : rocks.Db) {added removed : List PendingBlock} {shown : Option PendingBlock}
        → IsQueue rocks codec first []
        → Run first queue added removed shown
        → peek_pending rocks codec queue ≡ ok none
        → removed ≡ added
    Run-drained first queue {removed = removed} start run e =
        let (rest, q, split, _) = Run-Remaining first queue start run in
        sym (
          split
          ∙ rw (peek-none rocks codec batches keys order trips queue rest q e) (append-nil removed))
