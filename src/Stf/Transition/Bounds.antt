-- ===== src/Stf/Transition/Bounds.antt =====
-- When `execute_transition` cannot panic: its lists of proofs are as long as its operations.
use tiny_sp1_rollup.Base.{
  ℕ, ◌≤◌, ◌<◌, ◌≢◌, Bool, true, false, List, arith, length, get_elem?, get_elem?-some, panic, guard,
  unwrap, for_enumerate-ne-panic, >>=-ne-panic, inl, inr, Bool-cases,
}
use tiny_sp1_rollup.Base.Bytes.{bytes_eq}
use tiny_sp1_rollup.Stf.Digest.{Hash, Digest, default}
use tiny_sp1_rollup.Stf.Account.{Account}
use tiny_sp1_rollup.Stf.Types.{
  StfError, TransactionResult, success, failure, Transaction, Deposit, ForcedTx,
}
use tiny_sp1_rollup.Stf.Apply.{apply_deposit, apply_transaction, apply_forced_tx}
use tiny_sp1_rollup.Stf.Merkle.{MerkleProof, verify}
use tiny_sp1_rollup.Stf.Commitment.{Abi}
use tiny_sp1_rollup.Stf.Transition.{
  Proofs, deposit_round, settle, forced_round, tx_round, execute_transition,
}

guard-ne-panic {ℓ} : {E : Type ℓ} (b : Bool) (e : E) → guard b e ≢ panic
guard-ne-panic true e = cc
guard-ne-panic false e = cc

unwrap-ne-panic {ℓ} :
    {A : Type ℓ} (xs : List A) (i : ℕ)
    → i < length xs
    → unwrap {E = StfError} (get_elem? xs i) ≢ panic
unwrap-ne-panic xs i h = let found = get_elem?-some xs i h in rw found.1 (cc)

apply_deposit-ne-panic : (a : Account) (d : Deposit) → apply_deposit a d ≢ panic
unfolding apply_deposit
apply_deposit-ne-panic a d = ground arith

apply_transaction-ne-panic : (a b : Account) (tx : Transaction) → apply_transaction a b tx ≢ panic
unfolding apply_transaction
apply_transaction-ne-panic a b tx = ground arith

apply_forced_tx-ne-panic : (a b : Account) (tx : ForcedTx) → apply_forced_tx a b tx ≢ panic
unfolding apply_forced_tx
apply_forced_tx-ne-panic a b tx = ground arith

module _ (sha3 : Digest) where
  deposit_round-ne-panic :
      (ps : List MerkleProof) (i : ℕ) (d : Deposit) (h : Hash)
      → i < length ps
      → deposit_round sha3 ps i d h ≢ panic
  unfolding deposit_round
  deposit_round-ne-panic ps i d h le = >>=-ne-panic _ _ (unwrap-ne-panic ps i le) λ p _.
      >>=-ne-panic _ _ (guard-ne-panic (verify sha3 p h) _)
        λ _ _. >>=-ne-panic _ _ (apply_deposit-ne-panic p.account d) λ _ _. cc

  settle-ne-panic :
      (p : MerkleProof) (ts : List MerkleProof) (i : ℕ) (r : TransactionResult)
      → i < length ts
      → settle sha3 p ts i r ≢ panic
  unfolding settle
  settle-ne-panic p ts i (success a b) le =
      >>=-ne-panic _ _ (unwrap-ne-panic ts i le)
        λ q _. >>=-ne-panic _ _ (guard-ne-panic (verify sha3 q _) _) λ _ _. cc
  settle-ne-panic p ts i (failure a) le = cc

  tx_round-ne-panic :
      (fs ts : List MerkleProof) (i : ℕ) (tx : Transaction) (h : Hash)
      → i < length fs
      → i < length ts
      → tx_round sha3 fs ts i tx h ≢ panic
  unfolding tx_round
  tx_round-ne-panic fs ts i tx h lf lt = >>=-ne-panic _ _ (unwrap-ne-panic fs i lf) λ p _.
      >>=-ne-panic _ _ (guard-ne-panic (verify sha3 p h) _) λ _ _.
        >>=-ne-panic _ _ (apply_transaction-ne-panic p.account _ tx)
          λ r _. settle-ne-panic p ts i r lt

  forced_round-ne-panic :
      (fs ts : List MerkleProof) (i : ℕ) (tx : ForcedTx) (h : Hash)
      → i < length fs
      → i < length ts
      → forced_round sha3 fs ts i tx h ≢ panic
  unfolding forced_round
  forced_round-ne-panic fs ts i tx h lf lt = elim (Bool-cases (bytes_eq tx.from default)) [
    | inl dummy ↦ rw dummy (cc)
    | inr live ↦ rw live (
        >>=-ne-panic _ _ (unwrap-ne-panic fs i lf) λ p _.
          >>=-ne-panic _ _ (guard-ne-panic (verify sha3 p h) _) λ _ _.
            >>=-ne-panic _ _ (apply_forced_tx-ne-panic p.account _ tx)
              λ r _. settle-ne-panic p ts i r lt)
  ]

-- There is a proof for each operation of a block.
pub record Covers (txs : List Transaction) (ds : List Deposit) (forced : List ForcedTx)
    (proofs : Proofs) : Type 0 where
  pub deposits : length ds ≤ length proofs.deposits
  pub forced_from : length forced ≤ length proofs.forced_from
  pub forced_to : length forced ≤ length proofs.forced_to
  pub txs_from : length txs ≤ length proofs.txs_from
  pub txs_to : length txs ≤ length proofs.txs_to

module _ (sha3 keccak : Digest) (abi : Abi) where
  -- The guest never indexes out of bounds: if each of the five lists of proofs is at least as long
  -- as the operations that it serves, whatever the proofs hold, the transition ends in a result or
  -- in an error, not in a panic.
  pub execute_transition-ne-panic :
      (root : Hash) (txs : List Transaction) (deposits : List Deposit) (forced : List ForcedTx)
      (proofs : Proofs)
      → Covers txs deposits forced proofs
      → execute_transition sha3 keccak abi root txs deposits forced proofs ≢ panic
  unfolding execute_transition
  execute_transition-ne-panic root txs deposits forced proofs c =
      >>=-ne-panic _ _
        (for_enumerate-ne-panic (length deposits) (deposit_round sha3 proofs.deposits)
          (λ i d h lt.
            deposit_round-ne-panic sha3 proofs.deposits i d h (omega (arith, c.deposits)))
          0 deposits root (omega arith))
        λ h₁ _.
          >>=-ne-panic _ _
            (for_enumerate-ne-panic (length forced)
              (forced_round sha3 proofs.forced_from proofs.forced_to)
              (λ i x h lt.
                forced_round-ne-panic sha3 proofs.forced_from proofs.forced_to i x h
                  (omega (arith, c.forced_from)) (omega (arith, c.forced_to)))
              0 forced h₁ (omega arith))
            λ h₂ _.
              >>=-ne-panic _ _
                (for_enumerate-ne-panic (length txs) (tx_round sha3 proofs.txs_from proofs.txs_to)
                  (λ i x h lt.
                    tx_round-ne-panic sha3 proofs.txs_from proofs.txs_to i x h
                      (omega (arith, c.txs_from)) (omega (arith, c.txs_to)))
                  0 txs h₂ (omega arith))
                λ _ _. cc
