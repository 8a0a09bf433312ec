-- ===== src/Sequencer/L1.antt =====
-- `fetch_new_deposits` and `fetch_new_forced_txs` of crates/sequencer/src/main.rs. What `retry` of a
-- call of the contract ends in, and the decoding of a forced transaction by bincode, are parameters.
pub mod Fetched
pub mod Panics
use tiny_sp1_rollup.Base.{
  ℕ, ◌-◌, List, [], ◌∷◌, String, Option, none, some, Outcome, ok, err, panic, ◌>>=◌, map_err,
  collect, ltb, if◌then◌else◌,
}
use tiny_sp1_rollup.Base.Bytes.{Bytes, u64_mod}
use tiny_sp1_rollup.Stf.Digest.{default}
use tiny_sp1_rollup.Stf.Types.{Deposit, ForcedTx}
use tiny_sp1_rollup.Stf.Commitment.{DepositL1, ForcedTransactionL1}
use tiny_sp1_rollup.Core.Block.{address_to_hash}
use tiny_sp1_rollup.Sequencer.Queue.{context}

-- The views of the contract that the sequencer calls, each with its retries.
pub record Bridge : Type 0 where
  pub processed_deposit_count : Outcome String ℕ
  pub deposit_count : Outcome String ℕ
  pub get_deposits : ℕ → ℕ → Outcome String (List DepositL1)
  pub processed_forced_tx_count : Outcome String ℕ
  pub forced_tx_count : Outcome String ℕ
  pub get_forced_transactions : ℕ → ℕ → Outcome String (List ForcedTransactionL1)

-- `.to::<u64>()` on a U256, which panics when the value does not fit
abbrev pub to_u64 : ℕ → Outcome String ℕ
to_u64 n = if ltb n u64_mod then ok n else panic

unfoldable pub deposit_of : DepositL1 → Outcome String Deposit
deposit_of d = do
  amount ← to_u64 d.amount
  timestamp ← to_u64 d.timestamp
  ok (record { to = address_to_hash d.user; amount = amount; timestamp = timestamp })

unfoldable pub fetch_new_deposits : Bridge → Outcome String (List Deposit)
unfolding deposit_of
fetch_new_deposits bridge = do
  processed ←
      context "fetch_new_deposits processed_deposit_count err" bridge.processed_deposit_count
  processed_deposit_count ← to_u64 processed
  count ← context "fetch_new_deposits deposit_count err" bridge.deposit_count
  l1_deposit_count ← to_u64 count
  if ltb processed_deposit_count l1_deposit_count
      then (do
        let num_to_fetch = l1_deposit_count - processed_deposit_count
        deposits_from_l1 ←
            context "fetch_new_deposits get_deposits err"
              (bridge.get_deposits processed_deposit_count num_to_fetch)
        collect deposit_of deposits_from_l1)
      else ok []

-- The dummy that stands for calldata that does not decode.
abbrev pub dummy_tx : Bytes → ℕ → ForcedTx
dummy_tx l1_data timestamp = record {
  from = default;
  to = default;
  nonce = 0;
  fee = 0;
  amount = 0;
  timestamp = timestamp;
  l2_calldata = l1_data;
}

-- A decoded transaction takes its timestamp and calldata from L1.
abbrev pub stamped : Bytes → ℕ → Option ForcedTx → ForcedTx
stamped l1_data timestamp (some tx) = record tx { timestamp = timestamp; l2_calldata = l1_data }
stamped l1_data timestamp none = dummy_tx l1_data timestamp

module _ (deserialize : Bytes → Option ForcedTx) where
  unfoldable pub forced_of : ForcedTransactionL1 → Outcome String ForcedTx
  forced_of l1_tx = do
    timestamp ← to_u64 l1_tx.timestamp
    ok (stamped l1_tx.calldata timestamp (deserialize l1_tx.calldata))

  unfoldable pub fetch_new_forced_txs : Bridge → Outcome String (List ForcedTx)
  unfolding forced_of
  fetch_new_forced_txs bridge = do
    processed ←
        context "fetch_new_forced_txs processed_forced_tx_count err"
          bridge.processed_forced_tx_count
    processed_forced_tx_count ← to_u64 processed
    count ← context "fetch_new_forced_txs forced_tx_count err" bridge.forced_tx_count
    l1_forced_tx_count ← to_u64 count
    if ltb processed_forced_tx_count l1_forced_tx_count
        then (do
          let num_to_fetch = l1_forced_tx_count - processed_forced_tx_count
          forced_txs_from_l1 ←
              context "fetch_new_forced_txs get_forced_transactions err"
                (bridge.get_forced_transactions processed_forced_tx_count num_to_fetch)
          collect forced_of forced_txs_from_l1)
        else ok []
