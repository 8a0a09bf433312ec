-- ===== src/Program/Accepted.antt =====
-- What the guest commits, against the checks of `updateState` in contracts/src/RollupBridge.sol.
use mathlib.Core.List.{map}
use tiny_sp1_rollup.Base.{ℕ, ◌%◌, ◌<◌, ◌≡◌, refl, List, [], ◌∷◌, ◌++◌, some, arith, length, All}
use tiny_sp1_rollup.Base.Bytes.{Bytes, u32_mod}
use tiny_sp1_rollup.Stf.Digest.{Hash, Digest, IsHash}
use tiny_sp1_rollup.Stf.Types.{Transaction, Deposit, ForcedTx}
use tiny_sp1_rollup.Stf.Merkle.Tree.{Tree, root}
use tiny_sp1_rollup.Stf.Commitment.{
  Abi, PublicValues, DepositL1, ForcedTransactionL1, deposit_l1, forced_transaction_l1,
  build_commitment, hash_deposits, hash_forced_txs,
}
use tiny_sp1_rollup.Stf.Commitment.Decode.{
  word, truncate, decode_commitment, decode-build_commitment,
}
use tiny_sp1_rollup.Stf.Commitment.Layout.{
  calculate_hash, hash_deposits-eq-calculate_hash, hash_forced_txs-eq-calculate_hash,
}
use tiny_sp1_rollup.Stf.Transition.{Proofs}
use tiny_sp1_rollup.Stf.Transition.Runs.{BlockRun}
use tiny_sp1_rollup.Stf.Transition.Honest.{execute_transition_honest}
use tiny_sp1_rollup.Program.{public_values, main}

-- `require(truncate(calculate…Hash(processed, count)) == hash)` for the count and the hash that
-- the commitment decodes to, over the contract's array.
abbrev pub IsMatched : {A : Type 0} → Digest → (A → Bytes) → List A → ℕ → Hash → Type 0
IsMatched keccak encode pending processed commitment =
    (h : Hash) × (calculate_hash keccak encode pending processed
        (decode_commitment (word commitment)).0
      ≡ some h)
    × (truncate (word h) ≡ (decode_commitment (word commitment)).1)

commitment_IsMatched :
    {A : Type 0} (keccak : Digest) (encode : A → Bytes) (pending : List A) (processed count : ℕ)
    (h : Hash)
    → IsHash h
    → All (λ b. b < 256) h
    → count < u32_mod
    → calculate_hash keccak encode pending processed count ≡ some h
    → IsMatched keccak encode pending processed (build_commitment h (count % u32_mod))
commitment_IsMatched keccak encode pending processed count h width bytes fits e =
    let d = decode-build_commitment h count width bytes fits in
    let small : count % u32_mod ≡ count = omega arith in rw (small, d) (h, e, refl)

module _ (keccak : Digest) (abi : Abi) where
  pub hash_deposits-IsHash : (items : List Deposit) → IsHash (hash_deposits keccak abi items)
  unfolding hash_deposits
  hash_deposits-IsHash [] = keccak.digest-IsHash _
  hash_deposits-IsHash (d ∷ ds) = keccak.digest-IsHash _

  pub hash_deposits-bytes :
      (items : List Deposit) → All (λ b. b < 256) (hash_deposits keccak abi items)
  unfolding hash_deposits
  hash_deposits-bytes [] = keccak.digest-bytes _
  hash_deposits-bytes (d ∷ ds) = keccak.digest-bytes _

  pub hash_forced_txs-IsHash : (items : List ForcedTx) → IsHash (hash_forced_txs keccak abi items)
  unfolding hash_forced_txs
  hash_forced_txs-IsHash [] = keccak.digest-IsHash _
  hash_forced_txs-IsHash (d ∷ ds) = keccak.digest-IsHash _

  pub hash_forced_txs-bytes :
      (items : List ForcedTx) → All (λ b. b < 256) (hash_forced_txs keccak abi items)
  unfolding hash_forced_txs
  hash_forced_txs-bytes [] = keccak.digest-bytes _
  hash_forced_txs-bytes (d ∷ ds) = keccak.digest-bytes _

-- What `updateState` accepts of public values: the pre-state root is the contract's, and both
-- commitments match the contract's arrays from the processed counts on.
pub record IsAccepted (keccak : Digest) (abi : Abi) (state_root : Hash) (pending : List DepositL1)
    (processed : ℕ) (forced : List ForcedTransactionL1) (processed_forced : ℕ)
    (values : PublicValues) : Type 0 where
  pub pre : values.pre_state_root ≡ state_root
  pub deposits : IsMatched keccak abi.encode_deposit pending processed values.deposits_commitment
  pub forced_txs :
      IsMatched keccak abi.encode_forced forced processed_forced values.forced_txs_commitment

module _ (sha3 keccak : Digest) (abi : Abi) where
  -- `main` commits public values with this post-state root that the contract accepts.
  abbrev pub Commits :
      Hash
      → List Transaction
      → List Deposit
      → List ForcedTx
      → Proofs
      → Hash
      → List DepositL1
      → ℕ
      → List ForcedTransactionL1
      → ℕ
      → Type 0
  Commits pre txs deposits forced proofs post pending processed pending_forced processed_forced =
      (values : PublicValues) × (main sha3 keccak abi pre txs deposits forced proofs
        ≡ some (abi.encode_public_values values))
      × (values.post_state_root ≡ post)
      × IsAccepted keccak abi pre pending processed pending_forced processed_forced values

  -- The guest's output is what the contract checks for. For a block that a tree of accounts can
  -- execute, with fewer than 2^32 deposits and forced transactions, that stand in the contract's
  -- arrays right behind the processed ones, `main` does not panic; it commits public values whose
  -- post-state root is the root of the tree after the block, and the checks of `updateState` in a
  -- contract whose state root is that of the tree before accept them, whatever the arrays hold
  -- before and after.
  pub main-IsAccepted :
      (t u : Tree) (txs : List Transaction) (deposits : List Deposit) (forced : List ForcedTx)
      (proofs : Proofs) (before after : List DepositL1) (before' after' : List ForcedTransactionL1)
      → BlockRun sha3 t txs deposits forced proofs u
      → length deposits < u32_mod
      → length forced < u32_mod
      → Commits
          (root sha3 t)
          txs
          deposits
          forced
          proofs
          (root sha3 u)
          (before ++ (map deposit_l1 deposits ++ after))
          (length before)
          (before' ++ (map forced_transaction_l1 forced ++ after'))
          (length before')
  unfolding main public_values
  main-IsAccepted t u txs deposits forced proofs before after before' after' run few few' = (
    public_values (root sha3 t)
        (root sha3 u, hash_deposits keccak abi deposits, hash_forced_txs keccak abi forced)
        (length deposits % u32_mod) (length forced % u32_mod),
    rw (execute_transition_honest sha3 keccak abi run, main),
    refl,
    record {
      pre = refl;
      deposits =
          commitment_IsMatched keccak abi.encode_deposit _ (length before) (length deposits) _
            (hash_deposits-IsHash keccak abi deposits) (hash_deposits-bytes keccak abi deposits) few
            (hash_deposits-eq-calculate_hash keccak abi before after deposits);
      forced_txs =
          commitment_IsMatched keccak abi.encode_forced _ (length before') (length forced) _
            (hash_forced_txs-IsHash keccak abi forced) (hash_forced_txs-bytes keccak abi forced)
            few' (hash_forced_txs-eq-calculate_hash keccak abi before' after' forced);
    },
  )
