-- ===== src/Contract.antt =====
-- The L1 contract, contracts/src/RollupBridge.sol: its storage and its functions. A revert is an
-- error with its text. The gateway of the verifier and `abi.decode` are parameters.
pub mod Invariant
pub mod Withdrawals
pub mod Accepts
use tiny_sp1_rollup.Base.{
  ℕ, ◌+◌, List, [], ◌∷◌, ◌++◌, Bool, true, false, not, if◌then◌else◌, String, Option, Outcome, ok,
  err, ◌>>=◌, ◌>>◌, guard, ok_or, length, take, drop, leb, ltb, ◌==◌,
}
use tiny_sp1_rollup.Base.Bytes.{Bytes, bytes_eq, to_be_bytes}
use tiny_sp1_rollup.Stf.Digest.{Hash, Digest}
use tiny_sp1_rollup.Stf.Commitment.{Abi, PublicValues, DepositL1, ForcedTransactionL1}
use tiny_sp1_rollup.Stf.Commitment.Decode.{word, truncate, decode_commitment}
use tiny_sp1_rollup.Stf.Commitment.Layout.{calculate_hash}

pub record Contract : Type 0 where
  pub state_root : Hash
  pub pending_deposits : List DepositL1
  pub deposit_count : ℕ
  pub processed_deposit_count : ℕ
  pub forced_transactions : List ForcedTransactionL1
  pub forced_tx_count : ℕ
  pub processed_forced_tx_count : ℕ
  -- the keys that are mapped to `true`
  pub nullifiers : List Hash

-- `new TinyRollupBridge(…, initialStateRoot)`
unfoldable pub deploy : Hash → Contract
deploy initial_state_root = record {
  state_root = initial_state_root;
  pending_deposits = [];
  deposit_count = 0;
  processed_deposit_count = 0;
  forced_transactions = [];
  forced_tx_count = 0;
  processed_forced_tx_count = 0;
  nullifiers = [];
}

-- `deposit`, from `user` with `value` at `timestamp`
unfoldable pub deposit : Bytes → ℕ → ℕ → Contract → Outcome String Contract
deposit user value timestamp c = do
  guard (ltb 0 value) "deposit: zero deposit"
  let pushed =
      c.pending_deposits ++ (record { user = user; amount = value; timestamp = timestamp } ∷ [])
  ok (record c { pending_deposits = pushed; deposit_count = length pushed })

-- 0.001 ether
abbrev pub forced_tx_fee : ℕ
forced_tx_fee = 1000000000000000

-- `forceTransaction`
unfoldable pub force_transaction : Bytes → ℕ → ℕ → Contract → Outcome String Contract
force_transaction l2_tx_data value timestamp c = do
  guard (leb forced_tx_fee value) "forceTransaction: not enough fee"
  let pushed =
      c.forced_transactions ++ (record { calldata = l2_tx_data; timestamp = timestamp } ∷ [])
  ok (record c { forced_transactions = pushed; forced_tx_count = length pushed })

-- `getDeposits`
unfoldable pub get_deposits : Contract → ℕ → ℕ → Outcome String (List DepositL1)
get_deposits c start count = do
  guard (leb (start + count) c.deposit_count) "getDeposits: invalid range"
  ok (take count (drop start c.pending_deposits))

-- `getForcedTransactions`
unfoldable pub get_forced_transactions :
    Contract → ℕ → ℕ → Outcome String (List ForcedTransactionL1)
get_forced_transactions c start count = do
  guard (leb (start + count) c.forced_tx_count) "getForcedTransactions: invalid range"
  ok (take count (drop start c.forced_transactions))

-- `abi.decode` of the public values, whether `verifyProof` returns for the program's key, and
-- `MerkleProof.verify`.
pub record Gateway : Type 0 where
  pub decode : Bytes → Option PublicValues
  pub verify_proof : Bytes → Bytes → Bool
  pub verify_merkle_proof : List Hash → Hash → Hash → Bool

-- `nullifiers[key]`
unfoldable pub is_claimed : Hash → List Hash → Bool
is_claimed key [] = false
is_claimed key (k ∷ nullifiers) = if bytes_eq key k then true else is_claimed key nullifiers

-- `keccak256(abi.encodePacked(msg.sender, amount, nonce))`
abbrev pub withdrawal : Digest → Bytes → ℕ → ℕ → Hash
withdrawal keccak user amount nonce =
    keccak.digest (user ++ (to_be_bytes 32 amount ++ to_be_bytes 8 nonce))

module _ (keccak : Digest) (gateway : Gateway) where
  -- `withdraw`, where `sent` is whether the transfer succeeds. It writes nothing after the transfer,
  -- so that the calls of the user's own code in between are as calls that come after it.
  unfoldable pub withdraw : Bytes → ℕ → ℕ → List Hash → Bool → Contract → Outcome String Contract
  unfolding is_claimed
  withdraw user amount nonce merkle_proof sent c = do
    let nullifier = withdrawal keccak user amount nonce
    guard (not (is_claimed nullifier c.nullifiers)) "withdraw: already claimed"
    let leaf = withdrawal keccak user amount nonce
    guard (gateway.verify_merkle_proof merkle_proof c.state_root leaf) "withdraw: invalid proof"
    guard sent "withdraw: transfer failed"
    ok (record c { nullifiers = nullifier ∷ c.nullifiers })

module _ (keccak : Digest) (abi : Abi) (gateway : Gateway) where
  -- `updateState`
  unfoldable pub update_state : Contract → Bytes → Bytes → Outcome String Contract
  update_state c public_values proof_bytes = do
    values ← ok_or (gateway.decode public_values) "abi.decode"
    guard (bytes_eq values.pre_state_root c.state_root) "updateState: invalid pre-state root"
    let deposits = decode_commitment (word values.deposits_commitment)
    let forced_txs = decode_commitment (word values.forced_txs_commitment)
    deposits_hash ←
        ok_or
          (calculate_hash keccak abi.encode_deposit c.pending_deposits c.processed_deposit_count
            deposits.0)
          "calculateDepositHash: invalid range"
    guard (truncate (word deposits_hash) == deposits.1) "updateState: deposit data mismatch"
    forced_txs_hash ←
        ok_or
          (calculate_hash keccak abi.encode_forced c.forced_transactions c.processed_forced_tx_count
            forced_txs.0)
          "calculateForcedTxHash: invalid range"
    guard (truncate (word forced_txs_hash) == forced_txs.1) "updateState: forced tx data mismatch"
    guard (gateway.verify_proof public_values proof_bytes) "verifyProof"
    ok (record c {
      processed_deposit_count = c.processed_deposit_count + deposits.0;
      processed_forced_tx_count = c.processed_forced_tx_count + forced_txs.0;
      state_root = values.post_state_root;
    })
