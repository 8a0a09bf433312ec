-- ===== src/Contract/Accepts.antt =====
-- `updateState` (contracts/src/RollupBridge.sol) on what the guest commits: it does not revert, and
-- counts the block's deposits and forced transactions as processed.
use mathlib.Core.List.{append_assoc, map-append}
use tiny_sp1_rollup.Base.{
  ◌≡◌, ◌∙◌, ℕ, ◌+◌, ◌%◌, ◌<◌, List, ◌++◌, map, some, ok, true, arith, All, eq_refl, length,
  length-append, length-map,
}
use tiny_sp1_rollup.Base.Bytes.{Bytes, u32_mod, bytes_eq_refl}
use tiny_sp1_rollup.Stf.Digest.{Hash, Digest, IsHash}
use tiny_sp1_rollup.Stf.Types.{Deposit, ForcedTx}
use tiny_sp1_rollup.Stf.Commitment.{
  Abi, PublicValues, DepositL1, ForcedTransactionL1, deposit_l1, forced_transaction_l1,
  build_commitment, hash_deposits, hash_forced_txs,
}
use tiny_sp1_rollup.Stf.Commitment.Decode.{
  word, truncate, decode_commitment, decode-build_commitment,
}
use tiny_sp1_rollup.Stf.Commitment.Layout.{
  calculate_hash, hash_deposits-eq-calculate_hash, hash_forced_txs-eq-calculate_hash,
}
use tiny_sp1_rollup.Program.{public_values}
use tiny_sp1_rollup.Program.Accepted.{
  hash_deposits-IsHash, hash_deposits-bytes, hash_forced_txs-IsHash, hash_forced_txs-bytes,
}
use tiny_sp1_rollup.Contract.{Contract, Gateway, update_state}

-- The deposits and forced transactions stand in the contract's arrays, right behind the processed
-- ones.
pub record Waits (c : Contract) (deposits : List Deposit) (forced : List ForcedTx) : Type 0 where
  pub before : List DepositL1
  pub after : List DepositL1
  pub before_forced : List ForcedTransactionL1
  pub after_forced : List ForcedTransactionL1
  pub held : c.pending_deposits ≡ before ++ (map deposit_l1 deposits ++ after)
  pub processed : c.processed_deposit_count ≡ length before
  pub held_forced :
      c.forced_transactions ≡ before_forced ++ (map forced_transaction_l1 forced ++ after_forced)
  pub processed_forced : c.processed_forced_tx_count ≡ length before_forced

-- The contract after a block.
abbrev pub advanced : Hash → List Deposit → List ForcedTx → Contract → Contract
advanced post deposits forced c = record c {
  processed_deposit_count = c.processed_deposit_count + length deposits;
  processed_forced_tx_count = c.processed_forced_tx_count + length forced;
  state_root = post;
}

-- The next items of a list pass to its front.
front_moves :
    {A B : Type 0} (f : A → B) (before after : List B) (xs ys : List A)
    → before ++ (map f (xs ++ ys) ++ after) ≡ (before ++ map f xs) ++ (map f ys ++ after)
front_moves f before after xs ys = simp (map-append, append_assoc)

front-length :
    {A B : Type 0} (f : A → B) (before : List B) (xs : List A) (n : ℕ)
    → n ≡ length before
    → n + length xs ≡ length (before ++ map f xs)
front-length f before xs n h = omega (arith, h, length-append before (map f xs), length-map xs f)

-- What waits behind a block waits in the contract after it.
pub advanced-Waits :
    (post : Hash) (ds es : List Deposit) (fs gs : List ForcedTx) (c : Contract)
    → Waits c (ds ++ es) (fs ++ gs)
    → Waits (advanced post ds fs c) es gs
advanced-Waits post ds es fs gs c w = record {
  before = w.before ++ map deposit_l1 ds;
  after = w.after;
  before_forced = w.before_forced ++ map forced_transaction_l1 fs;
  after_forced = w.after_forced;
  held = w.held ∙ front_moves deposit_l1 w.before w.after ds es;
  processed = front-length deposit_l1 w.before ds _ w.processed;
  held_forced =
      w.held_forced ∙ front_moves forced_transaction_l1 w.before_forced w.after_forced fs gs;
  processed_forced = front-length forced_transaction_l1 w.before_forced fs _ w.processed_forced;
}

-- What waits in front of more is waiting.
pub front-Waits :
    (ds es : List Deposit) (fs gs : List ForcedTx) (c : Contract)
    → Waits c (ds ++ es) (fs ++ gs)
    → Waits c ds fs
front-Waits ds es fs gs c w = record {
  before = w.before;
  after = map deposit_l1 es ++ w.after;
  before_forced = w.before_forced;
  after_forced = map forced_transaction_l1 gs ++ w.after_forced;
  held = w.held ∙ simp (map-append, append_assoc);
  processed = w.processed;
  held_forced = w.held_forced ∙ simp (map-append, append_assoc);
  processed_forced = w.processed_forced;
}

-- A commitment with a count that fits decodes to both its parts.
commitment_decoded :
    (h : Hash) (count : ℕ)
    → IsHash h
    → All (λ b. b < 256) h
    → count < u32_mod
    → decode_commitment (word (build_commitment h (count % u32_mod))) ≡ (count, truncate (word h))
commitment_decoded h count width bytes fits =
    let small : count % u32_mod ≡ count = omega arith in
    rw small (decode-build_commitment h count width bytes fits)

module _ (keccak : Digest) (abi : Abi) where
  -- The values that the guest commits for a block.
  abbrev pub block_values : Hash → Hash → List Deposit → List ForcedTx → PublicValues
  block_values pre post deposits forced =
      public_values pre (post, hash_deposits keccak abi deposits, hash_forced_txs keccak abi forced)
        (length deposits % u32_mod) (length forced % u32_mod)

module _ (keccak : Digest) (abi : Abi) (gateway : Gateway) where
  -- The contract takes the guest's values for what waits in it.
  pub update_state-advanced :
      (c : Contract) (post : Hash) (ds : List Deposit) (fs : List ForcedTx) (values proof : Bytes)
      → Waits c ds fs
      → length ds < u32_mod
      → length fs < u32_mod
      → gateway.decode values ≡ some (block_values keccak abi c.state_root post ds fs)
      → gateway.verify_proof values proof ≡ true
      → update_state keccak abi gateway c values proof ≡ ok (advanced post ds fs c)
  unfolding update_state public_values
  update_state-advanced c post ds fs values proof w few few' decoded verified =
      let deposits_hash = hash_deposits keccak abi ds in
      let forced_hash = hash_forced_txs keccak abi fs in
      let found : calculate_hash keccak abi.encode_deposit c.pending_deposits
            c.processed_deposit_count (length ds)
          ≡ some deposits_hash =
        rw (w.held, w.processed) (hash_deposits-eq-calculate_hash keccak abi w.before w.after ds) in
      let found_forced : calculate_hash keccak abi.encode_forced c.forced_transactions
            c.processed_forced_tx_count (length fs)
          ≡ some forced_hash =
        rw (w.held_forced, w.processed_forced)
          (hash_forced_txs-eq-calculate_hash keccak abi w.before_forced w.after_forced fs) in
      rw (
        decoded,
        bytes_eq_refl c.state_root,
        commitment_decoded deposits_hash (length ds) (hash_deposits-IsHash keccak abi ds)
            (hash_deposits-bytes keccak abi ds) few,
        found,
        eq_refl (truncate (word deposits_hash)),
        commitment_decoded forced_hash (length fs) (hash_forced_txs-IsHash keccak abi fs)
            (hash_forced_txs-bytes keccak abi fs) few',
        found_forced,
        eq_refl (truncate (word forced_hash)),
        verified,
      )
