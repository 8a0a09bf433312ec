-- ===== src/Tests/ContractTests.antt =====
-- The contract on a deposit, a forced transaction and a proof; its theorems there, and those of the
-- fetches from it.
use tiny_sp1_rollup.Base.{◌≡◌, refl, arith, true, err, ◌++◌, [], ◌∷◌, drop, some, ok, panic, Option}
use tiny_sp1_rollup.Base.Bytes.{Bytes, u64_mod}
use tiny_sp1_rollup.Stf.Digest.{sample_digest}
use tiny_sp1_rollup.Stf.Types.{ForcedTx}
use tiny_sp1_rollup.Stf.Commitment.{DepositL1, deposit_l1, forced_transaction_l1}
use tiny_sp1_rollup.Contract.Withdrawals.{Calls, withdrawn_once}
use tiny_sp1_rollup.Contract.{
  Contract, withdrawal, withdraw, deploy, deposit, forced_tx_fee, force_transaction,
}
use tiny_sp1_rollup.Contract.Invariant.{IsWellFormed, Call, Reach, Reach-IsWellFormed}
use tiny_sp1_rollup.Sequencer.L1.{fetch_new_deposits, fetch_new_forced_txs}
use tiny_sp1_rollup.Sequencer.L1.Fetched.{bridge_of, ReadsBack, fetched-ReadsBack}
use tiny_sp1_rollup.Sequencer.L1.Panics.{large_deposit_panics}
use tiny_sp1_rollup.Tests.Data
use tiny_sp1_rollup.Tests.Guest.{guest_abi, gateway}
use tiny_sp1_rollup.Tests.ProverTests.{block}
use tiny_sp1_rollup.Tests.ProveTests.{waiting, settled, block_output, update_runs}

abbrev user : Bytes
user = drop 12 Data.deposit.to

abbrev with_deposit : Contract
with_deposit = record waiting { forced_transactions = []; forced_tx_count = 0 }

deposit_runs : deposit user 50 9 (deploy block.pre_state_root) ≡ ok with_deposit
unfolding deposit deploy
deposit_runs = refl

force_runs : force_transaction (222 ∷ []) forced_tx_fee 8 with_deposit ≡ ok waiting
unfolding force_transaction
force_runs = refl

reach_waiting : Reach sample_digest guest_abi gateway block.pre_state_root waiting
reach_waiting =
    Reach.later (Reach.later Reach.start (Call.deposits user 50 9 deposit_runs))
      (Call.forces (222 ∷ []) forced_tx_fee 8 force_runs)

Reach-IsWellFormed_example : IsWellFormed settled
Reach-IsWellFormed_example =
    Reach-IsWellFormed sample_digest guest_abi gateway
      (Reach.later reach_waiting (Call.updates block_output [] update_runs))

waiting-IsWellFormed : IsWellFormed waiting
waiting-IsWellFormed = Reach-IsWellFormed sample_digest guest_abi gateway reach_waiting

-- Calldata that decodes to a transaction, which the fetch stamps.
abbrev deserialize : Bytes → Option ForcedTx
deserialize b = some Data.forced_payment

fetched-ReadsBack_example :
    ReadsBack deposit_l1 (deposit_l1 Data.deposit ∷ []) (fetch_new_deposits (bridge_of waiting))
    × ReadsBack forced_transaction_l1
        (forced_transaction_l1 Data.dummy ∷ [])
        (fetch_new_forced_txs deserialize (bridge_of waiting))
fetched-ReadsBack_example =
    fetched-ReadsBack deserialize waiting waiting-IsWellFormed (omega arith) (omega arith)
      ((omega arith, omega arith, refl), tt) (omega arith, tt)

-- A deposit of 2^64 wei behind one that fits.
abbrev large : DepositL1
large = record { user = user; amount = u64_mod; timestamp = 10 }

abbrev with_large : Contract
with_large = record waiting {
  pending_deposits = deposit_l1 Data.deposit ∷ large ∷ [];
  deposit_count = 2;
}

large_deposit_panics_example : fetch_new_deposits (bridge_of with_large) ≡ panic
large_deposit_panics_example =
    large_deposit_panics with_large (deposit_l1 Data.deposit ∷ []) [] large
      (record {
        deposits = refl;
        processed_deposits = omega arith;
        forced_txs = refl;
        processed_forced_txs = omega arith;
      })
      (omega arith) refl (omega arith) (omega arith)

abbrev withdrawn : Contract
withdrawn = record settled { nullifiers = withdrawal sample_digest user 50 0 ∷ [] }

withdraw_runs : withdraw sample_digest gateway user 50 0 [] true settled ≡ ok withdrawn
unfolding withdraw
withdraw_runs = refl

abbrev deposited : Contract
deposited = record withdrawn {
  pending_deposits =
      withdrawn.pending_deposits ++ (record { user = user; amount = 3; timestamp = 12 } ∷ []);
  deposit_count = 2;
}

deposit_again : deposit user 3 12 withdrawn ≡ ok deposited
unfolding deposit
deposit_again = refl

withdrawn_once_example :
    withdraw sample_digest gateway user 50 0 [] true deposited ≡ err "withdraw: already claimed"
withdrawn_once_example =
    withdrawn_once sample_digest guest_abi gateway user 50 0 [] [] true true settled withdrawn
      deposited withdraw_runs (Calls.more Calls.stays (Call.deposits user 3 12 deposit_again))
