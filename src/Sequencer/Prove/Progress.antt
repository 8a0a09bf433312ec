-- ===== src/Sequencer/Prove/Progress.antt =====
-- A block in the prover's worker of crates/sequencer/src/main.rs when nothing fails: it is settled,
-- from the proofs of crates/core over the guest of crates/program
-- to `updateState` of contracts/src/RollupBridge.sol.
use tiny_sp1_rollup.Base.{
  ◌≡◌, refl, ap, sym, ◌∙◌, ℕ, ◌%◌, ◌<◌, true, false, List, [], ◌∷◌, ◌++◌, Option, none, some,
  Outcome, ok, length,
}
use tiny_sp1_rollup.Base.Bytes.{Bytes, u32_mod, bytes_eq_refl}
use tiny_sp1_rollup.Stf.Digest.{Hash, Digest}
use tiny_sp1_rollup.Stf.Types.{StfError, Transaction, Deposit, ForcedTx}
use tiny_sp1_rollup.Stf.Commitment.{Abi, PublicValues}
use tiny_sp1_rollup.Stf.Transition.{Proofs, execute_transition}
use tiny_sp1_rollup.Program.{public_values, expect, main}
use tiny_sp1_rollup.Contract.{Contract, Gateway, update_state}
use tiny_sp1_rollup.Contract.Accepts.{Waits, advanced, block_values, update_state-advanced}
use tiny_sp1_rollup.Core.Block.{PendingBlock}
use tiny_sp1_rollup.Core.External.{StateTree, Codec}
use tiny_sp1_rollup.Core.Prover.{ProofBundle, generate_proofs_for_block}
use tiny_sp1_rollup.Core.Prover.Bundle.{written}
use tiny_sp1_rollup.Core.Prover.Agree.{BlockReplay, generated_bundle_accepted}
use tiny_sp1_rollup.Sequencer.Prove.{
  delivered, Attempt, ProverState, locked, proved, finish, process_and_prove_batch,
}
use tiny_sp1_rollup.Sequencer.Prove.Blocks.{prove_block}
use tiny_sp1_rollup.Sequencer.Prove.Retries.{proven_and_sent, after_attempt, retry_loop}

-- An attempt in which nothing fails: SP1 proves what the guest commits, the verifier takes the
-- proof, the transaction is included, and both decoders decode what is encoded.
pub record IsReliable (sha3 keccak : Digest) (abi : Abi) (gateway : Gateway)
    (decode : Bytes → Option PublicValues) (attempt : Attempt) : Type 0 where
  pub proves :
      (pre : Hash) (txs : List Transaction) (deposits : List Deposit) (forced : List ForcedTx)
      (proofs : Proofs) (values : Bytes)
      → main sha3 keccak abi pre txs deposits forced proofs ≡ some values
      → (proof : Bytes) × (attempt.prove pre txs deposits forced proofs ≡ ok (values, proof))
        × (gateway.verify_proof values proof ≡ true)
  pub delivers : attempt.delivery ≡ delivered
  pub decodes : (v : PublicValues) → decode (abi.encode_public_values v) ≡ some v
  pub gateway_decodes : (v : PublicValues) → gateway.decode (abi.encode_public_values v) ≡ some v

-- The deposits and the forced transactions of blocks, in order.
abbrev pub deposits_of : List PendingBlock → List Deposit
deposits_of [] = []
deposits_of (b ∷ blocks) = b.deposits ++ deposits_of blocks

abbrev pub forced_of : List PendingBlock → List ForcedTx
forced_of [] = []
forced_of (b ∷ blocks) = b.forced_txs ++ forced_of blocks

-- What settling a block does to the contract and the proven head.
abbrev pub settle : {Tree : Type 0} → PendingBlock → ProverState Tree → ProverState Tree
settle b s = record s {
  contract = advanced b.post_state_root b.deposits b.forced_txs s.contract;
  proven = b.post_state_root;
}

abbrev pub settle_all : {Tree : Type 0} → List PendingBlock → ProverState Tree → ProverState Tree
settle_all [] s = s
settle_all (b ∷ blocks) s = settle_all blocks (settle b s)

module _ (sha3 keccak : Digest) (abi : Abi) where
  -- The guest commits what the transition returns.
  pub main-commits :
      (pre : Hash) (txs : List Transaction) (deposits : List Deposit) (forced : List ForcedTx)
      (proofs : Proofs) (r : Hash × Hash × Hash)
      → execute_transition sha3 keccak abi pre txs deposits forced proofs ≡ ok r
      → main sha3 keccak abi pre txs deposits forced proofs
        ≡ some (
            abi.encode_public_values
              (public_values pre r (length deposits % u32_mod) (length forced % u32_mod)))
  unfolding main
  main-commits pre txs deposits forced proofs r e =
      ap
        (λ (o : Outcome StfError (Hash × Hash × Hash)). elim (expect o) [
          | none ↦ none
          | some result ↦ some (
              abi.encode_public_values
                (public_values pre result (length deposits % u32_mod) (length forced % u32_mod)))
        ])
        e

module _ (sha3 : Digest) (db : StateTree) (codec : Codec) where
  -- The block can be executed from the tree, and its lengths fit the commitments.
  pub record IsProvable (tree : db.Tree) (b : PendingBlock) : Type 0 where
    pub bundle : ProofBundle
    pub replay : BlockReplay sha3 db codec tree b bundle
    pub few : length b.deposits < u32_mod
    pub few_forced : length b.forced_txs < u32_mod

  -- The blocks follow each other from a root, and each is provable from the tree.
  abbrev pub AreProvable : db.Tree → Hash → List PendingBlock → Type 0
  AreProvable tree root [] = Unit {0}
  AreProvable tree root (b ∷ blocks) =
      (b.pre_state_root ≡ root) × IsProvable tree b × AreProvable tree b.post_state_root blocks

module _ (sha3 keccak : Digest) (abi : Abi) (gateway : Gateway) (db : StateTree) (codec : Codec)
    (decode : Bytes → Option PublicValues) where
  module _ (attempt : Attempt) (reliable : IsReliable sha3 keccak abi gateway decode attempt)
      (b : PendingBlock) where
    -- From the proofs to what is submitted.
    proved_reliably :
        (bundle : ProofBundle) (values proof : Bytes) (v : PublicValues)
        → attempt.prove b.pre_state_root b.txs b.deposits b.forced_txs (written bundle)
          ≡ ok (values, proof)
        → decode values ≡ some v
        → v.post_state_root ≡ b.post_state_root
        → proved sha3 keccak abi gateway db codec decode true attempt b (ok bundle)
          ≡ ok (values, proof, v.post_state_root)
    unfolding proved
    proved_reliably bundle values proof v runs decoded same =
        rw (runs, decoded, same, bytes_eq_refl b.post_state_root)

    finished :
        (s : ProverState db.Tree) (c' : Contract) (values proof root : Bytes)
        → update_state keccak abi gateway s.contract values proof ≡ ok c'
        → finish sha3 keccak abi gateway db codec decode true attempt (ok (values, proof, root)) s
          ≡ (record s { contract = c'; proven = root }, ok tt)
    unfolding finish
    finished s c' values proof root e = rw (reliable.delivers, e)

    pub process-settles :
        (s : ProverState db.Tree)
        → s.poisoned ≡ false
        → b.pre_state_root ≡ s.contract.state_root
        → IsProvable sha3 db codec s.tree b
        → Waits s.contract b.deposits b.forced_txs
        → process_and_prove_batch sha3 keccak abi gateway db codec decode true attempt b s
          ≡ (settle b s, ok tt)
    unfolding process_and_prove_batch public_values
    process-settles s clean at p w =
        let (generated, executed) =
          generated_bundle_accepted sha3 db codec s.tree keccak abi b p.bundle p.replay in
        let v =
          block_values keccak abi b.pre_state_root b.post_state_root b.deposits b.forced_txs in
        let values = abi.encode_public_values v in
        let (proof, made, verified) = reliable.proves _ _ _ _ _ values (
          main-commits sha3 keccak abi b.pre_state_root b.txs b.deposits b.forced_txs
            (written p.bundle) _ executed) in
        let s' : ProverState db.Tree = record s { poisoned = false } in
        let decoded : gateway.decode values
            ≡ some (
                block_values keccak abi s.contract.state_root b.post_state_root b.deposits
                  b.forced_txs) =
          reliable.gateway_decodes v
          ∙ ap (λ r. some (block_values keccak abi r b.post_state_root b.deposits b.forced_txs))
              at in
        let entered : locked s.poisoned (generate_proofs_for_block sha3 db codec s.tree b)
            ≡ (false, ok p.bundle) =
          rw (clean, generated) in
        ap
          (λ x.
            finish sha3 keccak abi gateway db codec decode true attempt
              (proved sha3 keccak abi gateway db codec decode true attempt b x.1)
              (record s { poisoned = x.0 }))
          entered
        ∙ ap (λ m. finish sha3 keccak abi gateway db codec decode true attempt m s')
            (proved_reliably p.bundle values proof v made (reliable.decodes v) refl)
        ∙ finished s' (advanced b.post_state_root b.deposits b.forced_txs s.contract) values proof
            b.post_state_root
            (update_state-advanced keccak abi gateway s.contract b.post_state_root b.deposits
              b.forced_txs values proof w p.few p.few_forced decoded verified)
        ∙ ap (λ poisoned. (record (settle b s) { poisoned = poisoned }, ok tt)) (sym clean)

  pub prove_block-settles :
      (attempts : ℕ → Attempt)
      → IsReliable sha3 keccak abi gateway decode (attempts 0)
      → (b : PendingBlock) (s : ProverState db.Tree) → s.poisoned ≡ false
      → b.pre_state_root ≡ s.contract.state_root
      → IsProvable sha3 db codec s.tree b
      → Waits s.contract b.deposits b.forced_txs
      → prove_block sha3 keccak abi gateway db codec decode true attempts b s
        ≡ (settle b s, proven_and_sent)
  unfolding prove_block retry_loop after_attempt
  prove_block-settles attempts reliable b s clean at p w =
      rw (process-settles (attempts 0) reliable b s clean at p w)
