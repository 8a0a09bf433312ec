-- ===== src/Sequencer/Prove/Stalled.antt =====
-- Blocks that the prover's worker of crates/sequencer/src/main.rs can never settle: those that do
-- not start at the contract's state root.
use tiny_sp1_rollup.Base.{
  ◌≡◌, ◌≢◌, refl, ap, sym, ◌∙◌, ℕ, zero, suc, true, List, [], ◌∷◌, String, Option, Outcome, ok, err,
  panic, All, ◌+◌, leb, Bool-cases, inl, inr,
}
use tiny_sp1_rollup.Base.Bytes.{Bytes}
use tiny_sp1_rollup.Stf.Digest.{Hash, Digest}
use tiny_sp1_rollup.Stf.Commitment.{Abi, PublicValues}
use tiny_sp1_rollup.Contract.{Contract, Gateway}
use tiny_sp1_rollup.Core.Block.{PendingBlock}
use tiny_sp1_rollup.Core.External.{StateTree, Codec}
use tiny_sp1_rollup.Core.Prover.{ProofBundle, generate_proofs_for_block}
use tiny_sp1_rollup.Sequencer.Prove.{
  ProveError, Delivery, delivered, undelivered, receipt_lost, Attempt, ProverState, locked,
  submit_proof_to_l1, head_written, proved, finish, process_and_prove_batch,
}
use tiny_sp1_rollup.Sequencer.Prove.Retries.{
  Verdict, proven_and_sent, given_up, crashed, out_of_fuel, max_retries, after_attempt, retry_loop,
}
use tiny_sp1_rollup.Sequencer.Prove.Blocks.{unless_crashed, prove_block, prove_blocks}
use tiny_sp1_rollup.Sequencer.Prove.Settled.{IsHonest, stale_root, proved_values}

module _ (sha3 keccak : Digest) (abi : Abi) (gateway : Gateway) (db : StateTree) (codec : Codec)
    (decode : Bytes → Option PublicValues) where
  -- A run that does not succeed, and leaves the contract and the proven head.
  pub record IsInVain (s : ProverState db.Tree)
      (r : ProverState db.Tree × Outcome ProveError (Unit {0})) : Type 0 where
    pub contract : r.0.contract ≡ s.contract
    pub proven : r.0.proven ≡ s.proven
    pub failed : r.1 ≢ ok tt

  -- A submission that reverts changes nothing.
  reverted :
      (s : ProverState db.Tree) (root : Hash) (delivery : Delivery) (text : String)
      → IsInVain s (head_written s root (submit_proof_to_l1 delivery s.contract (err text)))
  reverted s root delivered text = record { contract = refl; proven = refl; failed = cc }
  reverted s root undelivered text = record { contract = refl; proven = refl; failed = cc }
  reverted s root receipt_lost text = record { contract = refl; proven = refl; failed = cc }

  module _ (attempt : Attempt) (honest : IsHonest sha3 keccak abi gateway decode attempt)
      (block : PendingBlock) where
    finish-IsInVain :
        (proofs : Outcome ProveError ProofBundle) (m : Outcome ProveError (Bytes × Bytes × Hash))
        (s : ProverState db.Tree)
        → block.pre_state_root ≢ s.contract.state_root
        → proved sha3 keccak abi gateway db codec decode true attempt block proofs ≡ m
        → IsInVain s (finish sha3 keccak abi gateway db codec decode true attempt m s)
    unfolding finish
    finish-IsInVain proofs (ok (values, proof, root)) s other made =
        let (v, decoded, pre, _, _) =
          proved_values sha3 keccak abi gateway db codec decode attempt honest true block proofs
            values proof root made in
        rw
          (stale_root sha3 keccak abi gateway s.contract values proof v decoded
            (λ e. other (sym pre ∙ e)))
          (reverted s root attempt.delivery _)
    finish-IsInVain proofs (err x) s other made = record {
      contract = refl;
      proven = refl;
      failed = cc;
    }
    finish-IsInVain proofs panic s other made = record {
      contract = refl;
      proven = refl;
      failed = cc;
    }

    pub process_and_prove_batch-IsInVain :
        (s : ProverState db.Tree)
        → block.pre_state_root ≢ s.contract.state_root
        → IsInVain s
            (process_and_prove_batch sha3 keccak abi gateway db codec decode true attempt block s)
    unfolding process_and_prove_batch
    process_and_prove_batch-IsInVain s other =
        let entered = locked s.poisoned (generate_proofs_for_block sha3 db codec s.tree block) in
        let run =
          finish-IsInVain entered.1
            (proved sha3 keccak abi gateway db codec decode true attempt block entered.1)
            (record s { poisoned = entered.0 }) other refl in
        record { contract = run.contract; proven = run.proven; failed = run.failed }

  -- A state that has the contract and the proven head of another.
  abbrev pub IsLike : ProverState db.Tree → ProverState db.Tree → Type 0
  IsLike s s' = (s'.contract ≡ s.contract) × (s'.proven ≡ s.proven)

  All-roots :
      (blocks : List PendingBlock) (s s' : ProverState db.Tree)
      → s'.contract ≡ s.contract
      → All (λ (b : PendingBlock). b.pre_state_root ≢ s.contract.state_root) blocks
      → All (λ (b : PendingBlock). b.pre_state_root ≢ s'.contract.state_root) blocks
  All-roots blocks s s' e others = rw e others

  module _ (attempts : ℕ → Attempt)
      (honest : (n : ℕ) → IsHonest sha3 keccak abi gateway decode (attempts n))
      (block : PendingBlock) where
    after-IsLike :
        (n : ℕ) (s : ProverState db.Tree)
        (again : ProverState db.Tree → ProverState db.Tree × Verdict)
        (r : ProverState db.Tree × Outcome ProveError (Unit {0}))
        → IsInVain s r
        → ((s' : ProverState db.Tree)
            → IsLike s s'
            → IsLike s (again s').0 × ((again s').1 ≢ proven_and_sent))
        → IsLike s (after_attempt n again r).0 × ((after_attempt n again r).1 ≢ proven_and_sent)
    unfolding after_attempt
    after-IsLike n s again (s', ok u) h ih = absurd (h.failed refl)
    after-IsLike n s again (s', err e) h ih = elim (Bool-cases (leb max_retries (n + 1))) [
      | inl last ↦ rw last ((h.contract, h.proven), cc)
      | inr more ↦ rw more (ih s' (h.contract, h.proven))
    ]
    after-IsLike n s again (s', panic) h ih = ((h.contract, h.proven), cc)

    loop-IsLike :
        (fuel n : ℕ) (s s' : ProverState db.Tree)
        → block.pre_state_root ≢ s.contract.state_root
        → IsLike s s'
        → let r =
            retry_loop
              (λ n.
                process_and_prove_batch sha3 keccak abi gateway db codec decode true
                  (attempts n)
                  block)
              fuel
              n
              s' in
          IsLike s r.0 × (r.1 ≢ proven_and_sent)
    unfolding retry_loop
    loop-IsLike zero n s s' other like = (like, cc)
    loop-IsLike (suc fuel) n s s' other like =
        let run =
          process_and_prove_batch-IsInVain (attempts n) (honest n) block s'
            (λ e. other (e ∙ ap (λ (c : Contract). c.state_root) like.0)) in
        after-IsLike n s
          (retry_loop
            (λ m.
              process_and_prove_batch sha3 keccak abi gateway db codec decode true (attempts m)
                block)
            fuel (n + 1))
          (process_and_prove_batch sha3 keccak abi gateway db codec decode true (attempts n) block
            s')
          (record {
            contract = run.contract ∙ like.0;
            proven = run.proven ∙ like.1;
            failed = run.failed;
          })
          (λ s'' closer. loop-IsLike fuel (n + 1) s s'' other closer)

    prove_block-IsLike :
        (s : ProverState db.Tree)
        → block.pre_state_root ≢ s.contract.state_root
        → IsLike s (prove_block sha3 keccak abi gateway db codec decode true attempts block s).0
    unfolding prove_block
    prove_block-IsLike s other = (loop-IsLike max_retries 0 s s other (refl, refl)).0

  unless_crashed-IsLike :
      (s : ProverState db.Tree) (rest : ProverState db.Tree → ProverState db.Tree)
      (r : ProverState db.Tree × Verdict)
      → IsLike s r.0
      → ((s' : ProverState db.Tree) → IsLike s s' → IsLike s (rest s'))
      → IsLike s (unless_crashed rest r)
  unless_crashed-IsLike s rest (s', crashed) like h = like
  unless_crashed-IsLike s rest (s', proven_and_sent) like h = h s' like
  unless_crashed-IsLike s rest (s', given_up) like h = h s' like
  unless_crashed-IsLike s rest (s', out_of_fuel) like h = h s' like

  -- A given-up block stalls the rollup. While the pre-state roots of the blocks in the queue all
  -- differ from the contract's state root, as they do behind a block of their chain that was given
  -- up, then with honest provers and L1 enabled proving them all, with all their retries, changes
  -- neither the contract nor the proven head.
  pub prove_blocks_stalled :
      (attempts : PendingBlock → ℕ → Attempt)
      → ((b : PendingBlock) (n : ℕ) → IsHonest sha3 keccak abi gateway decode (attempts b n))
      → (blocks : List PendingBlock) (s : ProverState db.Tree)
      → All (λ (b : PendingBlock). b.pre_state_root ≢ s.contract.state_root) blocks
      → IsLike s (prove_blocks sha3 keccak abi gateway db codec decode true attempts blocks s)
  unfolding prove_blocks
  prove_blocks_stalled attempts honest [] s others = (refl, refl)
  prove_blocks_stalled attempts honest (b ∷ blocks) s others =
      unless_crashed-IsLike s
        (prove_blocks sha3 keccak abi gateway db codec decode true attempts blocks)
        (prove_block sha3 keccak abi gateway db codec decode true (attempts b) b s)
        (prove_block-IsLike (attempts b) (honest b) b s others.0)
        (λ s' like.
          let rest =
            prove_blocks_stalled attempts honest blocks s'
              (All-roots blocks s s' like.0 others.1) in
          (rest.0 ∙ like.0, rest.1 ∙ like.1))
