-- ===== src/Stf/Commitment/Layout.antt =====
-- `hash_deposits` and `hash_forced_txs` (crates/stf/src/lib.rs) against the functions of the L1
-- contract that recompute them, `calculateDepositHash` and `calculateForcedTxHash` of
-- contracts/src/RollupBridge.sol.
use mathlib.Core.List.{map}
use tiny_sp1_rollup.Base.{
  ℕ, suc, ◌+◌, ◌≡◌, refl, ap, sym, ◌∙◌, List, [], ◌∷◌, ◌++◌, arith, leb, if◌then◌else◌, length,
  take, drop, Option, none, some, ◌==◌, length-map, length-append, drop-append_left,
  take-append_left, le→leb, suc-eq_zero,
}
use tiny_sp1_rollup.Base.Bytes.{Bytes}
use tiny_sp1_rollup.Stf.Digest.{Hash, Digest}
use tiny_sp1_rollup.Stf.Types.{Deposit, ForcedTx}
use tiny_sp1_rollup.Stf.Commitment.{
  DepositL1, ForcedTransactionL1, Abi, deposit_l1, forced_transaction_l1, deposit_item_hashes,
  hash_deposits, forced_item_hashes, hash_forced_txs,
}

-- `abi.encodePacked` of an array of 32-byte words
abbrev pub encode_packed : List Hash → Bytes
encode_packed [] = []
encode_packed (h ∷ hs) = h ++ encode_packed hs

module _ {A : Type 0} (keccak : Digest) (encode : A → Bytes) where
  -- The body that `calculateDepositHash(start, count)` and `calculateForcedTxHash(start, count)`
  -- share, over the contract's array. `none` is a revert; the range is checked against the array's
  -- length, where the source has the counter that it advances with the array.
  unfoldable pub calculate_hash : List A → ℕ → ℕ → Option Hash
  calculate_hash pending start count =
      if count == 0
      then some (keccak.digest [])
      else if leb (start + count) (length pending)
      then some (
          keccak.digest
            (encode_packed (map (λ x. keccak.digest (encode x)) (take count (drop start pending)))))
      else none

  calculate_hash-append :
      (before items after : List A) (x : A)
      → calculate_hash (before ++ ((x ∷ items) ++ after)) (length before) (length (x ∷ items))
        ≡ some (keccak.digest (encode_packed (map (λ y. keccak.digest (encode y)) (x ∷ items))))
  unfolding calculate_hash
  calculate_hash-append before items after x = rw (
    suc-eq_zero (length items),
    drop-append_left before _,
    take-append_left items after,
    le→leb (length before + length (x ∷ items)) (length (before ++ ((x ∷ items) ++ after))) (
        omega
          (arith, length-append before ((x ∷ items) ++ after), length-append (x ∷ items) after)),
  )

module _ (keccak : Digest) (abi : Abi) where
  deposit_item_hashes_lem :
      (items : List Deposit)
      → deposit_item_hashes keccak abi items
        ≡ encode_packed (map (λ d. keccak.digest (abi.encode_deposit d)) (map deposit_l1 items))
  unfolding deposit_item_hashes
  deposit_item_hashes_lem [] = refl
  deposit_item_hashes_lem (d ∷ ds) = rw (deposit_item_hashes_lem ds)

  -- The commitment hash of the deposits is the hash that the contract recomputes: for any deposits
  -- that stand in the contract's array behind the processed ones, `calculateDepositHash` from
  -- there, with their number, does not revert and gives what `hash_deposits` gives.
  pub hash_deposits-eq-calculate_hash :
      (before after : List DepositL1) (items : List Deposit)
      → calculate_hash keccak abi.encode_deposit
          (before ++ (map deposit_l1 items ++ after))
          (length before)
          (length items)
        ≡ some (hash_deposits keccak abi items)
  unfolding hash_deposits calculate_hash
  hash_deposits-eq-calculate_hash before after [] = refl
  hash_deposits-eq-calculate_hash before after (d ∷ ds) =
      ap
        (λ n.
          calculate_hash keccak abi.encode_deposit (before ++ (map deposit_l1 (d ∷ ds) ++ after))
            (length before) (suc n))
        (sym (length-map ds deposit_l1))
      ∙ calculate_hash-append keccak abi.encode_deposit before (map deposit_l1 ds) after
          (deposit_l1 d)
      ∙ ap (λ h. some (keccak.digest h)) (sym (deposit_item_hashes_lem (d ∷ ds)))

  forced_item_hashes_lem :
      (items : List ForcedTx)
      → forced_item_hashes keccak abi items
        ≡ encode_packed
            (map (λ f. keccak.digest (abi.encode_forced f)) (map forced_transaction_l1 items))
  unfolding forced_item_hashes
  forced_item_hashes_lem [] = refl
  forced_item_hashes_lem (f ∷ fs) = rw (forced_item_hashes_lem fs)

  -- The same of the forced transactions: the hash of those that stand in the contract's array
  -- behind the processed ones, by `calculateForcedTxHash`, is what `hash_forced_txs` gives.
  pub hash_forced_txs-eq-calculate_hash :
      (before after : List ForcedTransactionL1) (items : List ForcedTx)
      → calculate_hash keccak abi.encode_forced
          (before ++ (map forced_transaction_l1 items ++ after))
          (length before)
          (length items)
        ≡ some (hash_forced_txs keccak abi items)
  unfolding hash_forced_txs calculate_hash
  hash_forced_txs-eq-calculate_hash before after [] = refl
  hash_forced_txs-eq-calculate_hash before after (f ∷ fs) =
      ap
        (λ n.
          calculate_hash keccak abi.encode_forced
            (before ++ (map forced_transaction_l1 (f ∷ fs) ++ after)) (length before) (suc n))
        (sym (length-map fs forced_transaction_l1))
      ∙ calculate_hash-append keccak abi.encode_forced before (map forced_transaction_l1 fs) after
          (forced_transaction_l1 f)
      ∙ ap (λ h. some (keccak.digest h)) (sym (forced_item_hashes_lem (f ∷ fs)))
