-- ===== src/Core/Prover/Replay.antt =====
-- When `generate_proofs_for_block` (crates/core/src/lib.rs) and `execute_transition`
-- (crates/stf/src/lib.rs) agree on a block: each read of the state tree opens the root at hand.
use tiny_sp1_rollup.Base.{◌≡◌, true, false, List, [], ◌∷◌, some, ok}
use tiny_sp1_rollup.Base.Bytes.{bytes_eq}
use tiny_sp1_rollup.Stf.Digest.{Hash, Digest, default}
use tiny_sp1_rollup.Stf.Account
use tiny_sp1_rollup.Stf.Account.{Account}
use tiny_sp1_rollup.Stf.Types.{success, failure, Transaction, Deposit, ForcedTx}
use tiny_sp1_rollup.Stf.Apply.{apply_deposit, apply_transaction, apply_forced_tx}
use tiny_sp1_rollup.Stf.Merkle.{MerkleProof, compute_new_root, verify}
use tiny_sp1_rollup.Core.External.{StateTree, Codec}
use tiny_sp1_rollup.Core.Reads.{get_account, build_stf_proof}
use tiny_sp1_rollup.Core.Prover.{ProofPair, dummy_proof}

module _ (sha3 : Digest) (db : StateTree) (codec : Codec) (tree : db.Tree) where
  -- The tree answers with a proof that the root accepts.
  pub record Opens (root key : Hash) (p : MerkleProof) : Type 0 where
    pub built : build_stf_proof db codec tree root key ≡ ok p
    pub verified : verify sha3 p root ≡ true

  -- The root that a proof gives with another account in place.
  abbrev pub with_account : MerkleProof → Account → Hash
  with_account p a = compute_new_root sha3 p (Account.hash sha3 a)

  -- Deposits that are credited one after the other, with their proofs.
  pub data DepositReplay : Hash → List Deposit → List MerkleProof → Hash → Type 0 where
    done : {r : Hash} → DepositReplay r [] [] r
    credit :
        {r u : Hash} {ds : List Deposit} {ps : List MerkleProof} (d : Deposit) (p : MerkleProof)
        (a : Account)
        → Opens r d.to p
        → apply_deposit p.account d ≡ ok a
        → DepositReplay (with_account p a) ds ps u
        → DepositReplay r (d ∷ ds) (p ∷ ps) u

  -- Transactions: the sender is in the tree; the recipient of a payment reads as a new account, and
  -- opens the root that the sender's debit gives.
  pub data TxReplay : Hash → List Transaction → List ProofPair → Hash → Type 0 where
    done : {r : Hash} → TxReplay r [] [] r
    paid :
        {r u : Hash} {txs : List Transaction} {ps : List ProofPair} (tx : Transaction)
        (p b q : MerkleProof) (sender a' b' : Account)
        → get_account db codec tree (some r) tx.from ≡ ok sender
        → Opens r tx.from p
        → build_stf_proof db codec tree r tx.to ≡ ok b
        → b.account ≡ Account.new tx.to
        → apply_transaction p.account (Account.new tx.to) tx ≡ ok (success a' b')
        → Opens (with_account p a') tx.to q
        → TxReplay (with_account q b') txs ps u
        → TxReplay r (tx ∷ txs) ((p, q) ∷ ps) u
    failed :
        {r u : Hash} {txs : List Transaction} {ps : List ProofPair} (tx : Transaction)
        (p b : MerkleProof) (sender a' : Account)
        → get_account db codec tree (some r) tx.from ≡ ok sender
        → Opens r tx.from p
        → build_stf_proof db codec tree r tx.to ≡ ok b
        → apply_transaction p.account b.account tx ≡ ok (failure a')
        → TxReplay (with_account p a') txs ps u
        → TxReplay r (tx ∷ txs) ((p, b) ∷ ps) u

  -- Forced transactions: so too, and one from the default address is skipped.
  pub data ForcedReplay : Hash → List ForcedTx → List ProofPair → Hash → Type 0 where
    done : {r : Hash} → ForcedReplay r [] [] r
    skipped :
        {r u : Hash} {txs : List ForcedTx} {ps : List ProofPair} (tx : ForcedTx)
        → bytes_eq tx.from default ≡ true
        → ForcedReplay r txs ps u
        → ForcedReplay r (tx ∷ txs) ((dummy_proof tx.from, dummy_proof tx.to) ∷ ps) u
    paid :
        {r u : Hash} {txs : List ForcedTx} {ps : List ProofPair} (tx : ForcedTx)
        (p b q : MerkleProof) (a' b' : Account)
        → bytes_eq tx.from default ≡ false
        → Opens r tx.from p
        → build_stf_proof db codec tree r tx.to ≡ ok b
        → b.account ≡ Account.new tx.to
        → apply_forced_tx p.account (Account.new tx.to) tx ≡ ok (success a' b')
        → Opens (with_account p a') tx.to q
        → ForcedReplay (with_account q b') txs ps u
        → ForcedReplay r (tx ∷ txs) ((p, q) ∷ ps) u
    failed :
        {r u : Hash} {txs : List ForcedTx} {ps : List ProofPair} (tx : ForcedTx) (p b : MerkleProof)
        (a' : Account)
        → bytes_eq tx.from default ≡ false
        → Opens r tx.from p
        → build_stf_proof db codec tree r tx.to ≡ ok b
        → apply_forced_tx p.account b.account tx ≡ ok (failure a')
        → ForcedReplay (with_account p a') txs ps u
        → ForcedReplay r (tx ∷ txs) ((p, b) ∷ ps) u
