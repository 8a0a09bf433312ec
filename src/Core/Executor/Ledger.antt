-- ===== src/Core/Executor/Ledger.antt =====
-- The methods of `BlockExecutor` against a ledger without a cache: what deposits and transactions
-- do to every account.
use tiny_sp1_rollup.Base.{
  ◌≡◌, refl, ap, ◌∙◌, Outcome, ok, err, panic, ◌>>=◌, map_ok, if◌then◌else◌, Bool-cases, inl, inr,
}
use tiny_sp1_rollup.Base.Bytes.{bytes_eq}
use tiny_sp1_rollup.Stf.Digest.{Hash, default}
use tiny_sp1_rollup.Stf.Account
use tiny_sp1_rollup.Stf.Account.{Account}
use tiny_sp1_rollup.Stf.Types.{
  StfError, balance_overflow, invalid_nonce, TransactionResult, success, failure, Transaction,
  Deposit, ForcedTx,
}
use tiny_sp1_rollup.Stf.Apply
use tiny_sp1_rollup.Core.Error.{CoreError, account_not_found}
use tiny_sp1_rollup.Core.External.{StateTree, Codec}
use tiny_sp1_rollup.Core.Reads.{account_or_new}
use tiny_sp1_rollup.Core.Executor.{
  BlockExecutor, Read, put, update_cache_success, settle, settle_deposit, recipient, with_sender,
  unwrap_or_new, get_account_helper, apply_deposit, apply_transaction, apply_forced_tx,
}
use tiny_sp1_rollup.Core.Executor.View.{
  Ledger, write, view, view-put, Reads, get_account_helper-Reads,
}

-- A transaction's result written to the ledger; an error writes nothing. Where sender and
-- recipient are one address, only the recipient's account is written.
abbrev pub post :
    Hash → Hash → Outcome StfError TransactionResult → Ledger → Outcome CoreError Ledger
post from to (ok (success f t)) l =
    ok (if bytes_eq from to then write from t l else write to t (write from f l))
post from to (ok (failure f)) l = ok (write from f l)
post from to (err e) l = ok l
post from to panic l = panic

-- A recipient that cannot be read is new, whatever the error.
abbrev pub readable : Hash → Outcome CoreError Account → Outcome CoreError Account
readable k (ok a) = ok a
readable k (err e) = ok (Account.new k)
readable k panic = panic

-- A method on the ledger that goes on with the sender's account, and does nothing without one.
abbrev pub sent :
    Outcome CoreError Account
    → (Account → Outcome CoreError Ledger)
    → Ledger
    → Outcome CoreError Ledger
sent (ok a) rest l = rest a
sent (err (account_not_found _)) rest l = ok l
sent (err e) rest l = err e
sent panic rest l = panic

-- `apply_transaction` on a ledger.
unfoldable pub pay : Transaction → Ledger → Outcome CoreError Ledger
pay tx l =
    sent (l tx.from)
      (λ a. readable tx.to (l tx.to) >>= λ b. post tx.from tx.to (Apply.apply_transaction a b tx) l)
      l

-- `apply_forced_tx` on a ledger.
unfoldable pub force : ForcedTx → Ledger → Outcome CoreError Ledger
force tx l =
    if bytes_eq tx.from default
    then ok l
    else sent (l tx.from)
        (λ a. readable tx.to (l tx.to) >>= λ b. post tx.from tx.to (Apply.apply_forced_tx a b tx) l)
        l

-- A deposit's result written to the ledger.
abbrev pub deposited : Hash → Outcome StfError Account → Ledger → Outcome CoreError Ledger
deposited to (ok a) l = ok (write to a l)
deposited to (err balance_overflow) l = ok l
deposited to (err e) l = panic
deposited to panic l = panic

-- `apply_deposit` on a ledger.
unfoldable pub credit : Deposit → Ledger → Outcome CoreError Ledger
credit d l = do a ← account_or_new d.to (l d.to); deposited d.to (Apply.apply_deposit a d) l

module _ (db : StateTree) (codec : Codec) where
  -- The ledgers that an outcome shows.
  abbrev pub shown : Outcome CoreError (BlockExecutor db.Tree) → Outcome CoreError Ledger
  shown = map_ok (view db codec)

  settle-post :
      (from to : Hash) (r : Outcome StfError TransactionResult) (self : BlockExecutor db.Tree)
      → shown (settle from to r self) ≡ post from to r (view db codec self)
  unfolding settle update_cache_success
  settle-post from to (ok (success f t)) self = elim (Bool-cases (bytes_eq from to)) [
    | inl same ↦ rw same (ap ok (view-put db codec from t self))
    | inr other ↦ rw other (
        ap ok (
          view-put db codec to t (put from f self)
          ∙ ap (write to t) (view-put db codec from f self)))
  ]
  settle-post from to (ok (failure f)) self = ap ok (view-put db codec from f self)
  settle-post from to (err (invalid_nonce m n)) self = refl
  settle-post from to (err e) self = refl
  settle-post from to panic self = refl

  settle_deposit-deposited :
      (to : Hash) (r : Outcome StfError Account) (self : BlockExecutor db.Tree)
      → shown (settle_deposit to r self) ≡ deposited to r (view db codec self)
  unfolding settle_deposit
  settle_deposit-deposited to (ok a) self = ap ok (view-put db codec to a self)
  settle_deposit-deposited to (err balance_overflow) self = refl
  settle_deposit-deposited to (err e) self = refl
  settle_deposit-deposited to panic self = refl

  -- The rest of a method after its recipient is read, for any way to compute the result.
  module _ (from to : Hash) (run : Account → Account → Outcome StfError TransactionResult) where
    recipient_read :
        (a : Account) (self : BlockExecutor db.Tree) (r : Read db.Tree)
        → Reads db codec to self r
        → shown (unwrap_or_new to self r >>= λ found. settle from to (run a found.0) found.1) ≡ (
            readable to (view db codec self to) >>= λ b.
            post from to (run a b) (view db codec self))
    recipient_read a self (ok (b, self')) h = rw (h.0, ← h.1) (settle-post from to (run a b) self')
    recipient_read a self (err e) h = rw h (settle-post from to (run a (Account.new to)) self)
    recipient_read a self panic h = rw h

    sender_read :
        (self : BlockExecutor db.Tree) (r : Read db.Tree)
        → Reads db codec from self r
        → shown (
            with_sender self
              (λ a self'. unwrap_or_new to self' (get_account_helper db codec to self') >>= λ found.
                settle from to (run a found.0) found.1)
              r)
          ≡ sent
              (view db codec self from)
              (λ a. readable to (view db codec self to) >>= λ b.
                post from to (run a b) (view db codec self))
              (view db codec self)
    sender_read self (ok (a, self')) h =
        rw (h.0, ← h.1)
          (recipient_read a self' (get_account_helper db codec to self')
            (get_account_helper-Reads db codec to self'))
    sender_read self (err (account_not_found k)) h = rw h
    sender_read self (err e) h = rw h
    sender_read self panic h = rw h

  -- A transaction does to the accounts that the executor shows what `pay` does to a ledger without
  -- a cache, on every branch: an error or a panic of one is that of the other.
  pub apply_transaction-pay :
      (tx : Transaction) (self : BlockExecutor db.Tree)
      → shown (apply_transaction db codec tx self) ≡ pay tx (view db codec self)
  unfolding apply_transaction pay
  apply_transaction-pay tx self =
      sender_read tx.from tx.to (λ a b. Apply.apply_transaction a b tx) self
        (get_account_helper db codec tx.from self) (get_account_helper-Reads db codec tx.from self)

  -- The same of a forced transaction and `force`, the skipped dummy of a default sender included.
  pub apply_forced_tx-force :
      (tx : ForcedTx) (self : BlockExecutor db.Tree)
      → shown (apply_forced_tx db codec tx self) ≡ force tx (view db codec self)
  unfolding apply_forced_tx force
  apply_forced_tx-force tx self = elim (Bool-cases (bytes_eq tx.from default)) [
    | inl dummy ↦ rw dummy
    | inr live ↦ rw live (
        sender_read tx.from tx.to (λ a b. Apply.apply_forced_tx a b tx) self
          (get_account_helper db codec tx.from self)
          (get_account_helper-Reads db codec tx.from self))
  ]

  recipient_deposit :
      (d : Deposit) (self : BlockExecutor db.Tree) (r : Read db.Tree)
      → Reads db codec d.to self r
      → shown (
          recipient d.to self r >>= λ found.
          settle_deposit d.to (Apply.apply_deposit found.0 d) found.1)
        ≡ credit d (view db codec self)
  unfolding credit
  recipient_deposit d self (ok (a, self')) h =
      rw (h.0, ← h.1) (settle_deposit-deposited d.to (Apply.apply_deposit a d) self')
  recipient_deposit d self (err (account_not_found k)) h =
      rw h (settle_deposit-deposited d.to (Apply.apply_deposit (Account.new d.to) d) self)
  recipient_deposit d self (err e) h = rw h
  recipient_deposit d self panic h = rw h

  -- The same of a deposit and `credit`: the recipient is credited, a new account if there is none,
  -- and a deposit that overflows is skipped.
  pub apply_deposit-credit :
      (d : Deposit) (self : BlockExecutor db.Tree)
      → shown (apply_deposit db codec d self) ≡ credit d (view db codec self)
  unfolding apply_deposit
  apply_deposit-credit d self =
      recipient_deposit d self (get_account_helper db codec d.to self)
        (get_account_helper-Reads db codec d.to self)
