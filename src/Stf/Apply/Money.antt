-- ===== src/Stf/Apply/Money.antt =====
-- What an operation does to the money, the nonce and the ranges of the accounts it is given.
use tiny_sp1_rollup.Base.{◌+◌, ◌-◌, ◌≤◌, ◌<◌, ◌≡◌, ◌≢◌, Outcome, ok, err, panic, arith, refl, ◌⊎◌}
use tiny_sp1_rollup.Base.Bytes.{u64_mod, IsU64}
use tiny_sp1_rollup.Stf.Account.{Account}
use tiny_sp1_rollup.Stf.Types.{
  StfError, balance_overflow, invalid_nonce, TransactionResult, success, failure, Transaction,
  Deposit, ForcedTx,
}
use tiny_sp1_rollup.Stf.Apply.{next_nonce, apply_deposit, apply_transaction, apply_forced_tx}

-- The transaction that a forced one stands for.
abbrev pub as_transaction : ForcedTx → Transaction
as_transaction tx = record {
  from = tx.from;
  to = tx.to;
  nonce = tx.nonce;
  fee = tx.fee;
  amount = tx.amount;
}

-- A forced transaction has the result of the plain transaction with its fields, errors included:
-- the time stamp and the calldata change nothing.
pub apply_forced_tx-eq-apply_transaction :
    (from to : Account) (tx : ForcedTx)
    → apply_forced_tx from to tx ≡ apply_transaction from to (as_transaction tx)
unfolding apply_forced_tx apply_transaction
apply_forced_tx-eq-apply_transaction from to tx = refl

-- What an outcome must satisfy: a result the first predicate, an error the second.
abbrev pub Settles :
    (TransactionResult → Type 0) → (StfError → Type 0) → Outcome StfError TransactionResult → Type 0
Settles P Q (ok r) = P r
Settles P Q (err e) = Q e
Settles P Q panic = ⊥

-- The accounts `from` and `to` after a transaction, against those before it; `-` stops at 0.
abbrev pub IsSettled : Account → Account → Transaction → TransactionResult → Type 0
IsSettled from to tx (success from' to') =
    (from'.balance + to'.balance + tx.fee ≡ from.balance + to.balance)
    × (to'.balance ≡ to.balance + tx.amount)
    × (from'.nonce ≡ next_nonce from.nonce)
    × (from'.id ≡ from.id)
    × (to'.id ≡ to.id)
    × (to'.nonce ≡ to.nonce)
IsSettled from to tx (failure from') =
    (from.balance < tx.amount + tx.fee)
    × (from'.balance ≡ from.balance - tx.fee)
    × (from'.nonce ≡ next_nonce from.nonce)
    × (from'.id ≡ from.id)

-- Why a transaction has neither a success nor a failure.
abbrev pub IsRefused : Account → Account → Transaction → StfError → Type 0
IsRefused from to tx (invalid_nonce expected got) =
    (expected ≡ from.nonce) × (got ≡ tx.nonce) × (from.nonce ≢ tx.nonce)
IsRefused from to tx balance_overflow =
    (from.nonce ≡ tx.nonce)
    × ((u64_mod ≤ tx.amount + tx.fee)
        ⊎ ((tx.amount + tx.fee ≤ from.balance) × (u64_mod ≤ to.balance + tx.amount)))
IsRefused from to tx _ = ⊥

-- A transaction never panics. If it succeeds, the two balances and the fee add up to what the two
-- balances were, the recipient has gained exactly the amount, the sender's nonce has advanced and
-- nothing else has changed. If it fails, the sender could not cover amount and fee, it has paid the
-- fee, or all it had if that was less, and its nonce has advanced. If it is refused, it is for the
-- nonce, or for an overflow of amount and fee, or of the balance of the recipient of a covered
-- amount.
pub apply_transaction-Settles :
    (from to : Account) (tx : Transaction)
    → Settles (IsSettled from to tx) (IsRefused from to tx) (apply_transaction from to tx)
unfolding apply_transaction
apply_transaction-Settles from to tx = ground arith

-- What a deposit may end in.
abbrev pub IsCredited : Account → Deposit → Outcome StfError Account → Type 0
IsCredited a d (ok a') =
    (a'.balance ≡ a.balance + d.amount) × IsU64 a'.balance × (a'.nonce ≡ a.nonce) × (a'.id ≡ a.id)
IsCredited a d (err e) = (e ≡ balance_overflow) × (u64_mod ≤ a.balance + d.amount)
IsCredited a d panic = ⊥

-- A deposit adds its amount and changes nothing else, or it overflows the balance and is refused
-- with exactly that error.
pub apply_deposit-IsCredited : (a : Account) (d : Deposit) → IsCredited a d (apply_deposit a d)
unfolding apply_deposit
apply_deposit-IsCredited a d = ground arith
