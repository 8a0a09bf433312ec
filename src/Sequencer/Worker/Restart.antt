-- ===== src/Sequencer/Worker/Restart.antt =====
-- A restart of crates/sequencer/src/main.rs between the write of the tree's head root and the write
-- of the block: the two stand in two databases.
use tiny_sp1_rollup.Base.{
  ◌≡◌, ◌≢◌, refl, subst, sym, ◌∙◌, ℕ, List, [], ◌∷◌, Option, some, ok, bind_inv, ok-injective,
}
use tiny_sp1_rollup.Stf.Digest.{Hash}
use tiny_sp1_rollup.Stf.Types.{Transaction}
use tiny_sp1_rollup.Contract.{Contract}
use tiny_sp1_rollup.Core.Block.{PendingBlock}
use tiny_sp1_rollup.Sequencer.Queue.{get_block_counter}
use tiny_sp1_rollup.Sequencer.Worker.{
  Outside, Pc, sleeping, drained, System, initial_root, start_up,
}
use tiny_sp1_rollup.Sequencer.Worker.Reach.{Reach}
use tiny_sp1_rollup.Sequencer.Worker.Chain.{IsAt, last_root, Reach-Follows}

module _ (o : Outside) where
  -- How `main` starts the workers.
  pub record IsStarted (root : Hash) (s : System o) : Type 0 where
    pub asleep : s.pc ≡ sleeping
    pub optimistic : s.optimistic ≡ root
    pub proven : s.proven ≡ root
    pub headroot : s.headroot ≡ some root
    pub empty : s.mempool ≡ []

  pub start_up-IsStarted :
      (tree : o.db.Tree) (headroot : Option Hash) (queue : o.rocks.Db) (c : Contract) (s : System o)
      → start_up o tree headroot queue c ≡ ok s
      → IsStarted (initial_root o headroot) s
  unfolding start_up
  start_up-IsStarted tree headroot queue c s e =
      let (n, _, done) = bind_inv _ (get_block_counter o.rocks queue) e in
      rw (← ok-injective done)
        (record { asleep = refl; optimistic = refl; proven = refl; headroot = refl; empty = refl })

  drained_at :
      (pc : Pc) (block : PendingBlock) (optimistic : Hash) (counter : ℕ) (headroot : Option Hash)
      (root : Hash) (n : ℕ)
      → pc ≡ drained block
      → IsAt pc optimistic counter headroot root n
      → (block.pre_state_root ≡ root) × (headroot ≡ some block.post_state_root)
  drained_at pc block optimistic counter headroot root n e h =
      let at = subst (λ p. IsAt p optimistic counter headroot root n) e h in (at.0, at.3)

  -- A restart can skip a block. If the sequencer stops when it has executed a block that changes the
  -- root and has still to store it, then `main` starts again at that block's post-state root, as the
  -- optimistic and as the proven head; and whatever happens from there, the first block that is
  -- stored does not start where the stored blocks end.
  pub restart_skips_block :
      (root : Hash) (first s again s' : System o) (txs txs' : List Transaction)
      (blocks later : List PendingBlock) (block next : PendingBlock)
      → IsStarted root first
      → Reach o first s txs blocks
      → s.pc ≡ drained block
      → block.pre_state_root ≢ block.post_state_root
      → start_up o s.tree s.headroot s.queue s.contract ≡ ok again
      → Reach o again s' txs' (next ∷ later)
      → (again.optimistic ≡ block.post_state_root)
        × (again.proven ≡ block.post_state_root)
        × (next.pre_state_root ≢ last_root root blocks)
  restart_skips_block root first s again s' txs txs' blocks later block next f r stopped changes e
        r' =
      let h =
        Reach-Follows o root first.block_counter first s txs blocks f.asleep f.optimistic refl
          f.headroot r in
      let (pre, head) = drained_at s.pc block _ _ _ _ _ stopped h.at in
      let g = start_up-IsStarted s.tree s.headroot s.queue s.contract again e in
      let restarted : initial_root o s.headroot ≡ block.post_state_root = rw head in
      let h' =
        Reach-Follows o (initial_root o s.headroot) again.block_counter again s' txs' (next ∷ later)
          g.asleep g.optimistic refl g.headroot r' in
      (
        g.optimistic ∙ restarted,
        g.proven ∙ restarted,
        λ continues. changes (pre ∙ sym continues ∙ h'.chain.0 ∙ restarted),
      )
