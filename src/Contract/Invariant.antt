-- ===== src/Contract/Invariant.antt =====
-- What every call of the L1 contract (contracts/src/RollupBridge.sol) keeps: its counters.
use tiny_sp1_rollup.Base.{
  ◌≡◌, refl, subst, ℕ, ◌+◌, ◌≤◌, List, [], ◌∷◌, some, ok, arith, length, leb, ltb, ◌==◌, guard,
  bind_inv, guard_passed, ok_or_found, ok-injective, length-append, ok_or, true, Bool, not,
}
use tiny_sp1_rollup.Base.Bytes.{Bytes, bytes_eq}
use tiny_sp1_rollup.Stf.Digest.{Hash, Digest}
use tiny_sp1_rollup.Stf.Commitment.{Abi, PublicValues, DepositL1, ForcedTransactionL1}
use tiny_sp1_rollup.Stf.Commitment.Decode.{word, truncate, decode_commitment}
use tiny_sp1_rollup.Stf.Commitment.Layout.{calculate_hash}
use tiny_sp1_rollup.Contract.{
  Contract, Gateway, forced_tx_fee, withdrawal, is_claimed, withdraw, deploy, deposit,
  force_transaction, update_state,
}

-- The counters are the lengths of the arrays, and nothing is processed that is not there.
pub record IsWellFormed (c : Contract) : Type 0 where
  pub deposits : c.deposit_count ≡ length c.pending_deposits
  pub processed_deposits : c.processed_deposit_count ≤ c.deposit_count
  pub forced_txs : c.forced_tx_count ≡ length c.forced_transactions
  pub processed_forced_txs : c.processed_forced_tx_count ≤ c.forced_tx_count

pub deploy-IsWellFormed : (root : Hash) → IsWellFormed (deploy root)
unfolding deploy
deploy-IsWellFormed root = ground arith

deposit-IsWellFormed :
    (user : Bytes) (value timestamp : ℕ) (c c' : Contract)
    → IsWellFormed c
    → deposit user value timestamp c ≡ ok c'
    → IsWellFormed c'
unfolding deposit
deposit-IsWellFormed user value timestamp c c' h e =
    let (_, _, done) = bind_inv _ (guard (ltb 0 value) "deposit: zero deposit") e in
    let pushed : List DepositL1 =
      record { user = user; amount = value; timestamp = timestamp } ∷ [] in
    subst IsWellFormed (ok-injective done) (record {
      deposits = refl;
      processed_deposits = omega (arith, h, length-append c.pending_deposits pushed);
      forced_txs = h.forced_txs;
      processed_forced_txs = h.processed_forced_txs;
    })

force_transaction-IsWellFormed :
    (calldata : Bytes) (value timestamp : ℕ) (c c' : Contract)
    → IsWellFormed c
    → force_transaction calldata value timestamp c ≡ ok c'
    → IsWellFormed c'
unfolding force_transaction
force_transaction-IsWellFormed calldata value timestamp c c' h e =
    let (_, _, done) =
      bind_inv _ (guard (leb forced_tx_fee value) "forceTransaction: not enough fee") e in
    let pushed : List ForcedTransactionL1 =
      record { calldata = calldata; timestamp = timestamp } ∷ [] in
    subst IsWellFormed (ok-injective done) (record {
      deposits = h.deposits;
      processed_deposits = h.processed_deposits;
      forced_txs = refl;
      processed_forced_txs = omega (arith, h, length-append c.forced_transactions pushed);
    })

-- A hash is recomputed inside the array, or of nothing.
calculate_hash-le :
    {A : Type 0} (keccak : Digest) (encode : A → Bytes) (pending : List A) (start count : ℕ)
    (h : Hash)
    → start ≤ length pending
    → calculate_hash keccak encode pending start count ≡ some h
    → start + count ≤ length pending
unfolding calculate_hash
calculate_hash-le keccak encode pending start count h le e = ground arith

-- A call of `updateState` that does not revert: what its checks passed, and what it leaves.
pub record Updated (keccak : Digest) (abi : Abi) (gateway : Gateway) (c : Contract)
    (public_values proof_bytes : Bytes) (c' : Contract) : Type 0 where
  pub values : PublicValues
  pub decoded : gateway.decode public_values ≡ some values
  pub pre : bytes_eq values.pre_state_root c.state_root ≡ true
  pub deposits_hash : Hash
  pub deposits_found :
      calculate_hash keccak abi.encode_deposit c.pending_deposits c.processed_deposit_count
        (decode_commitment (word values.deposits_commitment)).0
      ≡ some deposits_hash
  pub forced_txs_hash : Hash
  pub forced_txs_found :
      calculate_hash keccak abi.encode_forced c.forced_transactions c.processed_forced_tx_count
        (decode_commitment (word values.forced_txs_commitment)).0
      ≡ some forced_txs_hash
  pub verified : gateway.verify_proof public_values proof_bytes ≡ true
  pub result :
      record c {
        processed_deposit_count =
            c.processed_deposit_count + (decode_commitment (word values.deposits_commitment)).0;
        processed_forced_tx_count =
            c.processed_forced_tx_count + (decode_commitment (word values.forced_txs_commitment)).0;
        state_root = values.post_state_root;
      }
      ≡ c'

module _ (keccak : Digest) (abi : Abi) (gateway : Gateway) where
  -- A withdrawal that does not revert: what its checks passed, and what it leaves.
  pub withdraw_inv :
      (user : Bytes) (amount nonce : ℕ) (proof : List Hash) (sent : Bool) (c c' : Contract)
      → withdraw keccak gateway user amount nonce proof sent c ≡ ok c'
      → let key = withdrawal keccak user amount nonce in
        (not (is_claimed key c.nullifiers) ≡ true)
        × (gateway.verify_merkle_proof proof c.state_root key ≡ true)
        × (sent ≡ true)
        × (record c { nullifiers = key ∷ c.nullifiers } ≡ c')
  unfolding withdraw
  withdraw_inv user amount nonce proof sent c c' e =
      let key = withdrawal keccak user amount nonce in
      let (u, unclaimed, e₁) = bind_inv _ (guard (not (is_claimed key c.nullifiers)) _) e in
      let (v, proven, e₂) =
        bind_inv _ (guard (gateway.verify_merkle_proof proof c.state_root key) _) e₁ in
      let (w, transferred, done) = bind_inv _ (guard sent _) e₂ in
      (
        guard_passed _ _ u unclaimed,
        guard_passed _ _ v proven,
        guard_passed _ _ w transferred,
        ok-injective done,
      )

  pub update_state-Updated :
      (public_values proof_bytes : Bytes) (c c' : Contract)
      → update_state keccak abi gateway c public_values proof_bytes ≡ ok c'
      → Updated keccak abi gateway c public_values proof_bytes c'
  unfolding update_state
  update_state-Updated public_values proof_bytes c c' e =
      let (values, decoded, e₁) = bind_inv _ (ok_or (gateway.decode public_values) _) e in
      let (u, pre, e₂) = bind_inv _ (guard (bytes_eq values.pre_state_root c.state_root) _) e₁ in
      let deposits = decode_commitment (word values.deposits_commitment) in
      let forced_txs = decode_commitment (word values.forced_txs_commitment) in
      let recomputed =
        calculate_hash keccak abi.encode_deposit c.pending_deposits c.processed_deposit_count
          deposits.0 in
      let (deposits_hash, f₁, e₃) = bind_inv _ (ok_or recomputed _) e₂ in
      let (_, _, e₄) = bind_inv _ (guard (truncate (word deposits_hash) == deposits.1) _) e₃ in
      let forced_recomputed =
        calculate_hash keccak abi.encode_forced c.forced_transactions c.processed_forced_tx_count
          forced_txs.0 in
      let (forced_hash, f₂, e₅) = bind_inv _ (ok_or forced_recomputed _) e₄ in
      let (_, _, e₆) = bind_inv _ (guard (truncate (word forced_hash) == forced_txs.1) _) e₅ in
      let (v, verified, done) =
        bind_inv _ (guard (gateway.verify_proof public_values proof_bytes) _) e₆ in
      record {
        values = values;
        decoded = ok_or_found (gateway.decode public_values) _ values decoded;
        pre = guard_passed _ _ u pre;
        deposits_hash = deposits_hash;
        deposits_found = ok_or_found recomputed _ deposits_hash f₁;
        forced_txs_hash = forced_hash;
        forced_txs_found = ok_or_found forced_recomputed _ forced_hash f₂;
        verified = guard_passed _ _ v verified;
        result = ok-injective done;
      }

  update_state-IsWellFormed :
      (public_values proof_bytes : Bytes) (c c' : Contract)
      → IsWellFormed c
      → update_state keccak abi gateway c public_values proof_bytes ≡ ok c'
      → IsWellFormed c'
  update_state-IsWellFormed public_values proof_bytes c c' h e =
      let run = update_state-Updated public_values proof_bytes c c' e in
      let le₁ =
        calculate_hash-le keccak abi.encode_deposit c.pending_deposits c.processed_deposit_count _
          run.deposits_hash (omega (arith, h)) run.deposits_found in
      let le₂ =
        calculate_hash-le keccak abi.encode_forced c.forced_transactions c.processed_forced_tx_count
          _ run.forced_txs_hash (omega (arith, h)) run.forced_txs_found in
      subst IsWellFormed run.result (record {
        deposits = h.deposits;
        processed_deposits = omega (arith, h, le₁);
        forced_txs = h.forced_txs;
        processed_forced_txs = omega (arith, h, le₂);
      })

  withdraw-IsWellFormed :
      (user : Bytes) (amount nonce : ℕ) (proof : List Hash) (sent : Bool) (c c' : Contract)
      → IsWellFormed c
      → withdraw keccak gateway user amount nonce proof sent c ≡ ok c'
      → IsWellFormed c'
  withdraw-IsWellFormed user amount nonce proof sent c c' h e =
      let (_, _, _, done) = withdraw_inv user amount nonce proof sent c c' e in
      subst IsWellFormed done (record {
        deposits = h.deposits;
        processed_deposits = h.processed_deposits;
        forced_txs = h.forced_txs;
        processed_forced_txs = h.processed_forced_txs;
      })

  -- A call that does not revert, by anyone, with any arguments.
  pub data Call (c c' : Contract) : Type 0 where
    deposits :
        (user : Bytes) (value timestamp : ℕ) → deposit user value timestamp c ≡ ok c' → Call c c'
    forces :
        (calldata : Bytes) (value timestamp : ℕ)
        → force_transaction calldata value timestamp c ≡ ok c'
        → Call c c'
    updates :
        (public_values proof_bytes : Bytes)
        → update_state keccak abi gateway c public_values proof_bytes ≡ ok c'
        → Call c c'
    withdraws :
        (user : Bytes) (amount nonce : ℕ) (proof : List Hash) (sent : Bool)
        → withdraw keccak gateway user amount nonce proof sent c ≡ ok c'
        → Call c c'

  -- The contracts that calls lead to.
  pub data Reach (root : Hash) : Contract → Type 0 where
    start : Reach root (deploy root)
    later : {c c' : Contract} → Reach root c → Call c c' → Reach root c'

  Call-IsWellFormed : {c c' : Contract} → IsWellFormed c → Call c c' → IsWellFormed c'
  Call-IsWellFormed h (deposits user value timestamp e) =
      deposit-IsWellFormed user value timestamp _ _ h e
  Call-IsWellFormed h (forces calldata value timestamp e) =
      force_transaction-IsWellFormed calldata value timestamp _ _ h e
  Call-IsWellFormed h (updates public_values proof_bytes e) =
      update_state-IsWellFormed public_values proof_bytes _ _ h e
  Call-IsWellFormed h (withdraws user amount nonce proof sent e) =
      withdraw-IsWellFormed user amount nonce proof sent _ _ h e

  -- In every contract that calls lead to from its deployment, the counters are the lengths of the
  -- arrays, and no more is processed than there is, whatever the verifier accepts.
  pub Reach-IsWellFormed : {root : Hash} {c : Contract} → Reach root c → IsWellFormed c
  Reach-IsWellFormed Reach.start = deploy-IsWellFormed _
  Reach-IsWellFormed (Reach.later r call) = Call-IsWellFormed (Reach-IsWellFormed r) call
