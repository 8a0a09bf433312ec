-- ===== src/Stf/Transition/Runs.antt =====
-- What a block does to a whole tree of accounts, as relations that know no digests of roots: the
-- specification of `execute_transition` (crates/stf/src/lib.rs).
use tiny_sp1_rollup.Base.{◌≡◌, true, false, List, [], ◌∷◌, ok}
use tiny_sp1_rollup.Base.Bytes.{bytes_eq}
use tiny_sp1_rollup.Stf.Digest.{Digest, default}
use tiny_sp1_rollup.Stf.Account
use tiny_sp1_rollup.Stf.Account.{Account}
use tiny_sp1_rollup.Stf.Types.{success, failure, Transaction, Deposit, ForcedTx}
use tiny_sp1_rollup.Stf.Apply.{apply_deposit, apply_transaction, apply_forced_tx}
use tiny_sp1_rollup.Stf.Merkle.{MerkleProof}
use tiny_sp1_rollup.Stf.Merkle.Tree.{Tree, TreePath, leaf, subtree, set_leaf, opening}
use tiny_sp1_rollup.Stf.Transition.{Proofs}

module _ (sha3 : Digest) where
  -- The tree has the account at the path.
  abbrev pub Holds : Tree → TreePath → Account → Type 0
  Holds t path a = subtree t path ≡ leaf (Account.hash sha3 a)

  abbrev pub put : Tree → TreePath → Account → Tree
  put t path a = set_leaf t path (Account.hash sha3 a)

  -- Deposits, each with the proof of the account that it credits in the tree at hand.
  pub data DepositRun : Tree → List Deposit → List MerkleProof → Tree → Type 0 where
    done : {t : Tree} → DepositRun t [] [] t
    credit :
        {t u : Tree} {ds : List Deposit} {ps : List MerkleProof} (path : TreePath) (a a' : Account)
        (d : Deposit)
        → Holds t path a
        → apply_deposit a d ≡ ok a'
        → DepositRun (put t path a') ds ps u
        → DepositRun t (d ∷ ds) (opening sha3 t path a ∷ ps) u

  -- Transactions: a paid one writes the sender's leaf, and then the recipient's, the latter from
  -- a fresh account for `tx.to`; a failed one writes the sender's leaf alone.
  pub data TxRun
      : Tree → List Transaction → List MerkleProof → List MerkleProof → Tree → Type 0 where
    done : {t : Tree} → TxRun t [] [] [] t
    paid :
        {t u : Tree} {txs : List Transaction} {fs ts : List MerkleProof} (p q : TreePath)
        (a b a' b' : Account) (tx : Transaction)
        → Holds t p a
        → apply_transaction a (Account.new tx.to) tx ≡ ok (success a' b')
        → Holds (put t p a') q b
        → TxRun (put (put t p a') q b') txs fs ts u
        → TxRun t (tx ∷ txs) (opening sha3 t p a ∷ fs) (opening sha3 (put t p a') q b ∷ ts) u
    failed :
        {t u : Tree} {txs : List Transaction} {fs ts : List MerkleProof} (p : TreePath)
        (a a' : Account) (unread : MerkleProof) (tx : Transaction)
        → Holds t p a
        → apply_transaction a (Account.new tx.to) tx ≡ ok (failure a')
        → TxRun (put t p a') txs fs ts u
        → TxRun t (tx ∷ txs) (opening sha3 t p a ∷ fs) (unread ∷ ts) u

  -- Forced transactions: so too, and one from the default address is skipped with its proofs.
  pub data ForcedRun
      : Tree → List ForcedTx → List MerkleProof → List MerkleProof → Tree → Type 0 where
    done : {t : Tree} → ForcedRun t [] [] [] t
    skipped :
        {t u : Tree} {txs : List ForcedTx} {fs ts : List MerkleProof} (x y : MerkleProof)
        (tx : ForcedTx)
        → bytes_eq tx.from default ≡ true
        → ForcedRun t txs fs ts u
        → ForcedRun t (tx ∷ txs) (x ∷ fs) (y ∷ ts) u
    paid :
        {t u : Tree} {txs : List ForcedTx} {fs ts : List MerkleProof} (p q : TreePath)
        (a b a' b' : Account) (tx : ForcedTx)
        → bytes_eq tx.from default ≡ false
        → Holds t p a
        → apply_forced_tx a (Account.new tx.to) tx ≡ ok (success a' b')
        → Holds (put t p a') q b
        → ForcedRun (put (put t p a') q b') txs fs ts u
        → ForcedRun t (tx ∷ txs) (opening sha3 t p a ∷ fs) (opening sha3 (put t p a') q b ∷ ts) u
    failed :
        {t u : Tree} {txs : List ForcedTx} {fs ts : List MerkleProof} (p : TreePath)
        (a a' : Account) (unread : MerkleProof) (tx : ForcedTx)
        → bytes_eq tx.from default ≡ false
        → Holds t p a
        → apply_forced_tx a (Account.new tx.to) tx ≡ ok (failure a')
        → ForcedRun (put t p a') txs fs ts u
        → ForcedRun t (tx ∷ txs) (opening sha3 t p a ∷ fs) (unread ∷ ts) u

  -- A whole block: the deposits, then the forced transactions, then the transactions.
  pub record BlockRun (t : Tree) (txs : List Transaction) (deposits : List Deposit)
      (forced : List ForcedTx) (proofs : Proofs) (u : Tree) : Type 0 where
    pub after_deposits : Tree
    pub after_forced : Tree
    pub deposit_run : DepositRun t deposits proofs.deposits after_deposits
    pub forced_run :
        ForcedRun after_deposits forced proofs.forced_from proofs.forced_to after_forced
    pub tx_run : TxRun after_forced txs proofs.txs_from proofs.txs_to u
