-- ===== src/Stf/Transition/Honest.antt =====
-- The guest against a whole tree: `execute_transition` computes the root of the tree that results.
use tiny_sp1_rollup.Base.{
  ◌≡◌, refl, ap, ◌∙◌, true, false, List, ◌∷◌, arith, ok, for_enumerate, for_enumerate_shift,
}
use tiny_sp1_rollup.Base.Bytes.{bytes_eq}
use tiny_sp1_rollup.Stf.Digest.{Hash, Digest, default}
use tiny_sp1_rollup.Stf.Account
use tiny_sp1_rollup.Stf.Account.{Account}
use tiny_sp1_rollup.Stf.Types.{TransactionResult, success, failure, Transaction, Deposit, ForcedTx}
use tiny_sp1_rollup.Stf.Apply.{apply_deposit, apply_transaction, apply_forced_tx}
use tiny_sp1_rollup.Stf.Merkle.{MerkleProof}
use tiny_sp1_rollup.Stf.Merkle.Tree.{
  Tree, TreePath, root, opening, verify_honest, compute_new_root-set_leaf,
}
use tiny_sp1_rollup.Stf.Commitment.{Abi, hash_deposits, hash_forced_txs}
use tiny_sp1_rollup.Stf.Transition.{
  Proofs, deposit_round, settle, forced_round, tx_round, execute_transition,
}
use tiny_sp1_rollup.Stf.Transition.Runs.{Holds, put, DepositRun, TxRun, ForcedRun, BlockRun}

module _ (sha3 : Digest) where
  pub deposit_round_honest :
      (t : Tree) (path : TreePath) (a a' : Account) (d : Deposit) (ps : List MerkleProof)
      → Holds sha3 t path a
      → apply_deposit a d ≡ ok a'
      → deposit_round sha3 (opening sha3 t path a ∷ ps) 0 d (root sha3 t)
        ≡ ok (root sha3 (put sha3 t path a'))
  unfolding deposit_round
  deposit_round_honest t path a a' d ps held e =
      rw (verify_honest sha3 t path a held, e) (ap ok (compute_new_root-set_leaf sha3 t path a _))

  deposits_honest :
      {t u : Tree} {ds : List Deposit} {ps : List MerkleProof}
      → DepositRun sha3 t ds ps u
      → for_enumerate (deposit_round sha3 ps) 0 ds (root sha3 t) ≡ ok (root sha3 u)
  unfolding for_enumerate
  deposits_honest DepositRun.done = refl
  deposits_honest (DepositRun.credit {t = t} {ds = ds} {ps = ps} path a a' d held e run) =
      rw (deposit_round_honest t path a a' d ps held e) (
        for_enumerate_shift (deposit_round sha3 (opening sha3 t path a ∷ ps))
          (deposit_round sha3 ps) (λ i x s. unfold deposit_round in refl) 0 ds _
        ∙ deposits_honest run)

  pub settle_paid :
      (t : Tree) (p q : TreePath) (a b a' b' : Account) (ts : List MerkleProof)
      → Holds sha3 (put sha3 t p a') q b
      → settle sha3 (opening sha3 t p a) (opening sha3 (put sha3 t p a') q b ∷ ts) 0 (success a' b')
        ≡ ok (root sha3 (put sha3 (put sha3 t p a') q b'))
  unfolding settle
  settle_paid t p q a b a' b' ts held =
      rw (compute_new_root-set_leaf sha3 t p a (Account.hash sha3 a')) (
        rw (verify_honest sha3 (put sha3 t p a') q b held)
          (ap ok (compute_new_root-set_leaf sha3 (put sha3 t p a') q b _)))

  pub tx_round_honest :
      (t u : Tree) (p : TreePath) (a : Account) (tx : Transaction) (fs ts : List MerkleProof)
      (r : TransactionResult)
      → Holds sha3 t p a
      → apply_transaction a (Account.new tx.to) tx ≡ ok r
      → settle sha3 (opening sha3 t p a) ts 0 r ≡ ok (root sha3 u)
      → tx_round sha3 (opening sha3 t p a ∷ fs) ts 0 tx (root sha3 t) ≡ ok (root sha3 u)
  unfolding tx_round
  tx_round_honest t u p a tx fs ts r held e rest = rw (verify_honest sha3 t p a held, e) rest

  forced_round_honest :
      (t u : Tree) (p : TreePath) (a : Account) (tx : ForcedTx) (fs ts : List MerkleProof)
      (r : TransactionResult)
      → bytes_eq tx.from default ≡ false
      → Holds sha3 t p a
      → apply_forced_tx a (Account.new tx.to) tx ≡ ok r
      → settle sha3 (opening sha3 t p a) ts 0 r ≡ ok (root sha3 u)
      → forced_round sha3 (opening sha3 t p a ∷ fs) ts 0 tx (root sha3 t) ≡ ok (root sha3 u)
  unfolding forced_round
  forced_round_honest t u p a tx fs ts r live held e rest =
      rw (live, verify_honest sha3 t p a held, e) rest

  settle_failed :
      (t : Tree) (p : TreePath) (a a' : Account) (ts : List MerkleProof)
      → settle sha3 (opening sha3 t p a) ts 0 (failure a') ≡ ok (root sha3 (put sha3 t p a'))
  unfolding settle
  settle_failed t p a a' ts = ap ok (compute_new_root-set_leaf sha3 t p a _)

  forced_round_skipped :
      (fs ts : List MerkleProof) (tx : ForcedTx) (h : Hash)
      → bytes_eq tx.from default ≡ true
      → forced_round sha3 fs ts 0 tx h ≡ ok h
  unfolding forced_round
  forced_round_skipped fs ts tx h dummy = rw dummy

  -- Later rounds do not read the first proofs.
  pub shift_txs :
      (f g : MerkleProof) (fs ts : List MerkleProof) (txs : List Transaction) (h : Hash)
      → for_enumerate (tx_round sha3 (f ∷ fs) (g ∷ ts)) 1 txs h
        ≡ for_enumerate (tx_round sha3 fs ts) 0 txs h
  shift_txs f g fs ts txs h =
      for_enumerate_shift (tx_round sha3 (f ∷ fs) (g ∷ ts)) (tx_round sha3 fs ts)
        (λ i x s. unfold tx_round settle in ground arith) 0 txs h

  pub shift_forced :
      (f g : MerkleProof) (fs ts : List MerkleProof) (txs : List ForcedTx) (h : Hash)
      → for_enumerate (forced_round sha3 (f ∷ fs) (g ∷ ts)) 1 txs h
        ≡ for_enumerate (forced_round sha3 fs ts) 0 txs h
  shift_forced f g fs ts txs h =
      for_enumerate_shift (forced_round sha3 (f ∷ fs) (g ∷ ts)) (forced_round sha3 fs ts)
        (λ i x s. unfold forced_round settle in ground arith) 0 txs h

  txs_honest :
      {t u : Tree} {txs : List Transaction} {fs ts : List MerkleProof}
      → TxRun sha3 t txs fs ts u
      → for_enumerate (tx_round sha3 fs ts) 0 txs (root sha3 t) ≡ ok (root sha3 u)
  unfolding for_enumerate
  txs_honest TxRun.done = refl
  txs_honest (TxRun.paid {t = t} {txs = txs} {fs = fs} {ts = ts} p q a b a' b' tx ha e hb run) =
      rw (tx_round_honest t _ p a tx fs _ (success a' b') ha e (settle_paid t p q a b a' b' ts hb))
        (shift_txs _ _ fs ts txs _ ∙ txs_honest run)
  txs_honest (TxRun.failed {t = t} {txs = txs} {fs = fs} {ts = ts} p a a' unread tx ha e run) =
      rw (tx_round_honest t _ p a tx fs _ (failure a') ha e (settle_failed t p a a' _))
        (shift_txs _ _ fs ts txs _ ∙ txs_honest run)

  forced_honest :
      {t u : Tree} {txs : List ForcedTx} {fs ts : List MerkleProof}
      → ForcedRun sha3 t txs fs ts u
      → for_enumerate (forced_round sha3 fs ts) 0 txs (root sha3 t) ≡ ok (root sha3 u)
  unfolding for_enumerate
  forced_honest ForcedRun.done = refl
  forced_honest (ForcedRun.skipped {t = t} {txs = txs} {fs = fs} {ts = ts} x y tx dummy run) =
      rw (forced_round_skipped (x ∷ fs) (y ∷ ts) tx _ dummy)
        (shift_forced _ _ fs ts txs _ ∙ forced_honest run)
  forced_honest
        (ForcedRun.paid {t = t} {txs = txs} {fs = fs} {ts = ts} p q a b a' b' tx live ha e hb run) =
      rw
        (forced_round_honest t _ p a tx fs _ (success a' b') live ha e
          (settle_paid t p q a b a' b' ts hb))
        (shift_forced _ _ fs ts txs _ ∙ forced_honest run)
  forced_honest
        (ForcedRun.failed {t = t} {txs = txs} {fs = fs} {ts = ts} p a a' unread tx live ha e run) =
      rw (forced_round_honest t _ p a tx fs _ (failure a') live ha e (settle_failed t p a a' _))
        (shift_forced _ _ fs ts txs _ ∙ forced_honest run)

module _ (sha3 keccak : Digest) (abi : Abi) where
  -- The guest executes every block that a tree of accounts can: with the openings of the tree as
  -- proofs it fails at no check, and its result is the root of the tree that the deposits, forced
  -- transactions and transactions leave, with the hashes of the deposits and of the forced ones.
  pub execute_transition_honest :
      {t u : Tree} {txs : List Transaction} {deposits : List Deposit} {forced : List ForcedTx}
      {proofs : Proofs}
      → BlockRun sha3 t txs deposits forced proofs u
      → execute_transition sha3 keccak abi (root sha3 t) txs deposits forced proofs
        ≡ ok (root sha3 u, hash_deposits keccak abi deposits, hash_forced_txs keccak abi forced)
  unfolding execute_transition
  execute_transition_honest run = rw (
    deposits_honest sha3 run.deposit_run,
    forced_honest sha3 run.forced_run,
    txs_honest sha3 run.tx_run,
  )
