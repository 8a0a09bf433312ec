-- ===== src/Stf/Transition/Unbound.antt =====
-- What `execute_transition` (crates/stf/src/lib.rs) does not check: whose account a proof opens,
-- and what a recipient held before.
use mathlib.Core.Path.{fun_ext}
use tiny_sp1_rollup.Base.{
  ◌≡◌, refl, ap, ◌∙◌, List, [], ◌∷◌, map, arith, Outcome, ok, err, panic, for_enumerate,
  for_enumerate-map,
}
use tiny_sp1_rollup.Stf.Digest.{Hash, Digest}
use tiny_sp1_rollup.Stf.Account
use tiny_sp1_rollup.Stf.Account.{Account}
use tiny_sp1_rollup.Stf.Types.{StfError, success, Transaction, Deposit, ForcedTx}
use tiny_sp1_rollup.Stf.Apply.{apply_deposit, apply_transaction}
use tiny_sp1_rollup.Stf.Merkle.{MerkleProof}
use tiny_sp1_rollup.Stf.Merkle.Tree.{Tree, TreePath, root, opening}
use tiny_sp1_rollup.Stf.Commitment.{Abi}
use tiny_sp1_rollup.Stf.Transition.{Proofs, deposit_round, tx_round, execute_transition}
use tiny_sp1_rollup.Stf.Transition.Runs.{Holds, put}
use tiny_sp1_rollup.Stf.Transition.Honest.{tx_round_honest, settle_paid}

-- Deposits with other recipients.
abbrev pub redirect : (Deposit → Hash) → Deposit → Deposit
redirect to d = record d { to = to d }

-- Transactions with other senders.
abbrev pub impersonate : (Transaction → Hash) → Transaction → Transaction
impersonate from tx = record tx { from = from tx }

-- The post-state root of an outcome.
abbrev pub post_root : Outcome StfError (Hash × Hash × Hash) → Outcome StfError Hash
post_root (ok r) = ok r.0
post_root (err e) = err e
post_root panic = panic

-- What a paid recipient's leaf holds: the account `to` with the amount alone.
abbrev pub fresh_recipient : Transaction → Account
fresh_recipient tx = record { id = tx.to; balance = tx.amount; nonce = 0 }

module _ (sha3 : Digest) where
  deposits_redirect :
      (to : Deposit → Hash) (ps : List MerkleProof) (ds : List Deposit) (h : Hash)
      → for_enumerate (deposit_round sha3 ps) 0 (map (redirect to) ds) h
        ≡ for_enumerate (deposit_round sha3 ps) 0 ds h
  deposits_redirect to ps ds h =
      for_enumerate-map (deposit_round sha3 ps) (deposit_round sha3 ps) (redirect to)
        (λ i d s. unfold deposit_round apply_deposit in refl) 0 ds h

  txs_impersonate :
      (from : Transaction → Hash) (fs ts : List MerkleProof) (txs : List Transaction) (h : Hash)
      → for_enumerate (tx_round sha3 fs ts) 0 (map (impersonate from) txs) h
        ≡ for_enumerate (tx_round sha3 fs ts) 0 txs h
  txs_impersonate from fs ts txs h =
      for_enumerate-map (tx_round sha3 fs ts) (tx_round sha3 fs ts) (impersonate from)
        (λ i tx s. unfold tx_round apply_transaction in refl) 0 txs h

  paid_recipient :
      (a a' b' : Account) (tx : Transaction)
      → apply_transaction a (Account.new tx.to) tx ≡ ok (success a' b')
      → b' ≡ fresh_recipient tx
  unfolding apply_transaction Account.new
  paid_recipient a a' b' tx e = ground arith

  -- A payment overwrites its recipient. Whatever account `b` the tree holds where the second proof
  -- opens it, its balance and nonce included, after a paid transaction the root is that of a tree
  -- that holds there a fresh account for `tx.to` with the amount as its whole balance.
  pub payment_overwrites_recipient :
      (t : Tree) (p q : TreePath) (a b a' b' : Account) (tx : Transaction)
      → Holds sha3 t p a
      → apply_transaction a (Account.new tx.to) tx ≡ ok (success a' b')
      → Holds sha3 (put sha3 t p a') q b
      → tx_round sha3
          (opening sha3 t p a ∷ [])
          (opening sha3 (put sha3 t p a') q b ∷ [])
          0
          tx
          (root sha3 t)
        ≡ ok (root sha3 (put sha3 (put sha3 t p a') q (fresh_recipient tx)))
  payment_overwrites_recipient t p q a b a' b' tx ha e hb =
      tx_round_honest sha3 t _ p a tx [] _ (success a' b') ha e
        (settle_paid sha3 t p q a b a' b' [] hb)
      ∙ ap (λ r. ok (root sha3 (put sha3 (put sha3 t p a') q r))) (paid_recipient a a' b' tx e)

module _ (sha3 keccak : Digest) (abi : Abi) where
  -- No check ties a deposit to the account that its proof opens: whatever recipients are written
  -- into the deposits in place of theirs, the transition ends in the same post-state root, or the
  -- same error.
  pub execute_transition-redirect :
      (to : Deposit → Hash) (pre : Hash) (txs : List Transaction) (deposits : List Deposit)
      (forced : List ForcedTx) (proofs : Proofs)
      → post_root
          (execute_transition sha3 keccak abi pre txs (map (redirect to) deposits) forced proofs)
        ≡ post_root (execute_transition sha3 keccak abi pre txs deposits forced proofs)
  unfolding execute_transition
  execute_transition-redirect to pre txs deposits forced proofs =
      rw (deposits_redirect sha3 to proofs.deposits deposits pre) (ground arith)

  -- No check ties a transaction to the account that pays for it: whatever senders are written into
  -- the transactions in place of theirs, the transition ends in the same result.
  pub execute_transition-impersonate :
      (from : Transaction → Hash) (pre : Hash) (txs : List Transaction) (deposits : List Deposit)
      (forced : List ForcedTx) (proofs : Proofs)
      → execute_transition sha3 keccak abi pre (map (impersonate from) txs) deposits forced proofs
        ≡ execute_transition sha3 keccak abi pre txs deposits forced proofs
  unfolding execute_transition
  execute_transition-impersonate from pre txs deposits forced proofs =
      rw (fun_ext (txs_impersonate sha3 from proofs.txs_from proofs.txs_to txs))
