-- ===== src/Core/Prover/Idle.antt =====
-- The blocks that change no account: they have forced transactions from the default address only,
-- which `generate_proofs_for_block` (crates/core/src/lib.rs) and `execute_transition`
-- (crates/stf/src/lib.rs) skip. The sequencer makes one of each calldata that it cannot decode.
use tiny_sp1_rollup.Base.{◌≡◌, refl, List, [], ◌∷◌, map, true, All}
use tiny_sp1_rollup.Base.Bytes.{bytes_eq}
use tiny_sp1_rollup.Stf.Digest.{Hash, Digest, default}
use tiny_sp1_rollup.Stf.Types.{ForcedTx}
use tiny_sp1_rollup.Core.Block.{PendingBlock}
use tiny_sp1_rollup.Core.External.{StateTree, Codec}
use tiny_sp1_rollup.Core.Prover.{ProofBundle, ProofPair, dummy_proof}
use tiny_sp1_rollup.Core.Prover.Bundle.{bundle_of}
use tiny_sp1_rollup.Core.Prover.Replay.{DepositReplay, TxReplay, ForcedReplay}
use tiny_sp1_rollup.Core.Prover.Agree.{BlockReplay}

-- `tx.from == Hash::default()`
abbrev pub IsSkipped : ForcedTx → Type 0
IsSkipped tx = bytes_eq tx.from default ≡ true

-- No deposit, no transaction, only skipped forced transactions, and one root.
pub record IsIdle (block : PendingBlock) : Type 0 where
  pub no_deposits : block.deposits ≡ []
  pub no_txs : block.txs ≡ []
  pub skipped : All IsSkipped block.forced_txs
  pub one_root : block.pre_state_root ≡ block.post_state_root

abbrev pub skipped_pair : ForcedTx → ProofPair
skipped_pair tx = (dummy_proof tx.from, dummy_proof tx.to)

-- The bundle of such a block.
abbrev pub idle_bundle : PendingBlock → ProofBundle
idle_bundle block = bundle_of [] (map skipped_pair block.forced_txs) []

module _ (sha3 : Digest) (db : StateTree) (codec : Codec) (tree : db.Tree) where
  skipped_replay :
      (root : Hash) (txs : List ForcedTx)
      → All IsSkipped txs
      → ForcedReplay sha3 db codec tree root txs (map skipped_pair txs) root
  skipped_replay root [] h = ForcedReplay.done
  skipped_replay root (tx ∷ txs) (h, hs) = ForcedReplay.skipped tx h (skipped_replay root txs hs)

  pub idle_replay :
      (block : PendingBlock)
      → IsIdle block
      → BlockReplay sha3 db codec tree block (idle_bundle block)
  idle_replay block idle = record {
    after_deposits = block.pre_state_root;
    after_forced = block.pre_state_root;
    deposits = [];
    forced = map skipped_pair block.forced_txs;
    txs = [];
    deposit_replay = rw idle.no_deposits DepositReplay.done;
    forced_replay = skipped_replay block.pre_state_root block.forced_txs idle.skipped;
    tx_replay = rw (idle.no_txs, idle.one_root) TxReplay.done;
    bundle-eq = refl;
  }
