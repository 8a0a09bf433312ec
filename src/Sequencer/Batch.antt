-- ===== src/Sequencer/Batch.antt =====
-- `apply_optimistic_batch` of crates/sequencer/src/main.rs.
pub mod Stored
pub mod Repeated
use tiny_sp1_rollup.Base.{
  Bool, true, false, ◌&&◌, List, [], ◌∷◌, String, Option, Outcome, ok, err, panic, ◌>>=◌, map_err,
  for_each, if◌then◌else◌,
}
use tiny_sp1_rollup.Stf.Digest.{Hash, Digest}
use tiny_sp1_rollup.Stf.Account.{Account}
use tiny_sp1_rollup.Stf.Types.{Transaction, Deposit, ForcedTx}
use tiny_sp1_rollup.Core.Error.{CoreError}
use tiny_sp1_rollup.Core.External.{StateTree, Codec}
use tiny_sp1_rollup.Core.Cache.{MapOrder}
use tiny_sp1_rollup.Core.Executor.{
  BlockExecutor, new, apply_deposit, apply_forced_tx, apply_transaction, unwrap_or_default,
  commit_block,
}
use tiny_sp1_rollup.Sequencer.Error.{SequencerError, from_core}

abbrev pub is_empty {ℓ} : {A : Type ℓ} → List A → Bool
is_empty [] = true
is_empty (x ∷ xs) = false

module _ (db : StateTree) (codec : Codec) where
  -- The three loops over an executor.
  unfoldable pub execute :
      List Transaction
      → List Deposit
      → List ForcedTx
      → BlockExecutor db.Tree
      → Outcome CoreError (BlockExecutor db.Tree)
  unfolding for_each
  execute txs deposits forced_txs executor = do
    executor₁ ← for_each (apply_deposit db codec) deposits executor
    executor₂ ← for_each (apply_forced_tx db codec) forced_txs executor₁
    for_each (apply_transaction db codec) txs executor₂

module _ (sha3 : Digest) (db : StateTree) (codec : Codec) (iteration : MapOrder Account)
    (debug : Hash → String) where
  -- `Ok(executor.commit_block()?)`, where the loops have not failed.
  unfoldable pub committed :
      db.Tree → Outcome CoreError (BlockExecutor db.Tree) → db.Tree × Outcome SequencerError Hash
  unfolding from_core
  committed tree (ok executor) =
      let (tree', result) = commit_block sha3 db iteration executor in
      (tree', map_err (from_core debug) result)
  committed tree (err e) = (tree, err (from_core debug e))
  committed tree panic = (tree, panic)

  -- With the tree after it.
  unfoldable pub apply_optimistic_batch :
      db.Tree
      → Option Hash
      → List Transaction
      → List Deposit
      → List ForcedTx
      → db.Tree × Outcome SequencerError Hash
  unfolding execute committed
  apply_optimistic_batch tree root txs deposits forced_txs =
      if is_empty txs && (is_empty deposits && is_empty forced_txs)
      then (tree, ok (unwrap_or_default root))
      else committed tree (execute db codec txs deposits forced_txs (new tree root))
