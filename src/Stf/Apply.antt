-- ===== src/Stf/Apply.antt =====
-- `apply_deposit`, `apply_transaction` and `apply_forced_tx` of crates/stf/src/lib.rs. The proofs
-- are in the modules below.
pub mod Money
use tiny_sp1_rollup.Base.{
  ℕ, ◌+◌, ◌-◌, ◌%◌, ltb, ◌==◌, if◌then◌else◌, Outcome, ok, err, ◌>>=◌, ok_or,
}
use tiny_sp1_rollup.Base.Bytes.{u64_mod, checked_add}
use tiny_sp1_rollup.Stf.Account.{Account}
use tiny_sp1_rollup.Stf.Types.{
  StfError, balance_overflow, invalid_nonce, TransactionResult, success, failure, Transaction,
  Deposit, ForcedTx,
}

-- `nonce += 1` on a u64, as a release build compiles it
abbrev pub next_nonce : ℕ → ℕ
next_nonce n = (n + 1) % u64_mod

unfoldable pub apply_deposit : Account → Deposit → Outcome StfError Account
apply_deposit account deposit = do
  balance ← ok_or (checked_add account.balance deposit.amount) balance_overflow
  ok (record account { balance = balance })

unfoldable pub apply_transaction :
    Account → Account → Transaction → Outcome StfError TransactionResult
apply_transaction from to tx =
    if from.nonce == tx.nonce
    then (do
      let from' = record from { nonce = next_nonce from.nonce }
      total_debit ← ok_or (checked_add tx.amount tx.fee) balance_overflow
      if ltb from'.balance total_debit
          then ok (failure (record from' { balance = from'.balance - tx.fee }))
          else do
            let debited = record from' { balance = from'.balance - total_debit }
            balance ← ok_or (checked_add to.balance tx.amount) balance_overflow
            ok (success debited (record to { balance = balance })))
    else err (invalid_nonce from.nonce tx.nonce)

unfoldable pub apply_forced_tx : Account → Account → ForcedTx → Outcome StfError TransactionResult
apply_forced_tx from to tx =
    if from.nonce == tx.nonce
    then (do
      let from' = record from { nonce = next_nonce from.nonce }
      total_debit ← ok_or (checked_add tx.amount tx.fee) balance_overflow
      if ltb from'.balance total_debit
          then ok (failure (record from' { balance = from'.balance - tx.fee }))
          else do
            let debited = record from' { balance = from'.balance - total_debit }
            balance ← ok_or (checked_add to.balance tx.amount) balance_overflow
            ok (success debited (record to { balance = balance })))
    else err (invalid_nonce from.nonce tx.nonce)
