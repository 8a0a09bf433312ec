-- ===== src/Core/Executor/Invariant.antt =====
-- What every method of `BlockExecutor` (crates/core/src/executor.rs) keeps: the tree, the root and
-- the keys of the cache.
use tiny_sp1_rollup.Base.{
  ◌≡◌, refl, Option, Outcome, ok, err, panic, ◌>>=◌, Option-cases, Bool-cases, inl, inr,
}
use tiny_sp1_rollup.Base.Bytes.{bytes_eq}
use tiny_sp1_rollup.Stf.Digest.{Hash, default}
use tiny_sp1_rollup.Stf.Account.{Account}
use tiny_sp1_rollup.Stf.Types.{
  StfError, balance_overflow, invalid_nonce, TransactionResult, success, failure, Transaction,
  Deposit, ForcedTx,
}
use tiny_sp1_rollup.Stf.Apply
use tiny_sp1_rollup.Core.Error.{CoreError, account_not_found}
use tiny_sp1_rollup.Core.External.{StateTree, Codec}
use tiny_sp1_rollup.Core.Reads.{get_account}
use tiny_sp1_rollup.Core.Cache.{lookup, IsDistinct, insert-IsDistinct}
use tiny_sp1_rollup.Core.Executor.{
  BlockExecutor, Read, new, put, update_cache_success, settle, settle_deposit, recipient,
  with_sender, unwrap_or_new, get_account_helper, apply_deposit, apply_transaction, apply_forced_tx,
}

-- The executor runs on this tree and this root, and no address is cached twice.
pub record IsOn {Tree : Type 0} (tree : Tree) (root : Option Hash) (self : BlockExecutor Tree)
    : Type 0 where
  pub same_tree : self.tree ≡ tree
  pub same_root : self.root ≡ root
  pub distinct : IsDistinct self.account_cache

module _ {Tree : Type 0} (tree : Tree) (root : Option Hash) where
  -- A new executor is on its tree and root.
  pub new-IsOn : IsOn tree root (new tree root)
  unfolding new
  new-IsOn = record { same_tree = refl; same_root = refl; distinct = tt }

  pub put-IsOn :
      (k : Hash) (a : Account) (self : BlockExecutor Tree)
      → IsOn tree root self
      → IsOn tree root (put k a self)
  unfolding put
  put-IsOn k a self h = record {
    same_tree = h.same_tree;
    same_root = h.same_root;
    distinct = insert-IsDistinct k a self.account_cache h.distinct;
  }

module _ {Tree : Type 0} (P : BlockExecutor Tree → Type 0) where
  -- A predicate of the executor that a method leaves, if it leaves one.
  abbrev pub Keeps : Outcome CoreError (BlockExecutor Tree) → Type 0
  Keeps (ok self) = P self
  Keeps (err e) = Unit {0}
  Keeps panic = Unit {0}

  abbrev KeepsRead : Read Tree → Type 0
  KeepsRead (ok (a, self)) = P self
  KeepsRead (err e) = Unit {0}
  KeepsRead panic = Unit {0}

-- What every insertion into the cache keeps, every method keeps.
module _ {Tree : Type 0} (P : BlockExecutor Tree → Type 0)
    (closed : (k : Hash) (a : Account) (self : BlockExecutor Tree)
      → P self
      → P (put k a self)) where
  settle-Keeps :
      (from to : Hash) (r : Outcome StfError TransactionResult) (self : BlockExecutor Tree)
      → P self
      → Keeps P (settle from to r self)
  unfolding settle update_cache_success
  settle-Keeps from to (ok (success f t)) self h = elim (Bool-cases (bytes_eq from to)) [
    | inl same ↦ rw same (closed from t self h)
    | inr other ↦ rw other (closed to t (put from f self) (closed from f self h))
  ]
  settle-Keeps from to (ok (failure f)) self h = closed from f self h
  settle-Keeps from to (err (invalid_nonce m n)) self h = h
  settle-Keeps from to (err e) self h = h
  settle-Keeps from to panic self h = tt

  settle_deposit-Keeps :
      (to : Hash) (r : Outcome StfError Account) (self : BlockExecutor Tree)
      → P self
      → Keeps P (settle_deposit to r self)
  unfolding settle_deposit
  settle_deposit-Keeps to (ok a) self h = closed to a self h
  settle_deposit-Keeps to (err balance_overflow) self h = h
  settle_deposit-Keeps to (err e) self h = tt
  settle_deposit-Keeps to panic self h = tt

module _ (db : StateTree) (codec : Codec) (P : BlockExecutor db.Tree → Type 0)
    (closed : (k : Hash) (a : Account) (self : BlockExecutor db.Tree)
      → P self
      → P (put k a self)) where
  filled :
      (k : Hash) (self : BlockExecutor db.Tree) (r : Outcome CoreError Account)
      → P self
      → KeepsRead P (r >>= λ a. ok (a, put k a self))
  filled k self (ok a) h = closed k a self h
  filled k self (err e) h = tt
  filled k self panic h = tt

  read-Keeps :
      (k : Hash) (self : BlockExecutor db.Tree)
      → P self
      → KeepsRead P (get_account_helper db codec k self)
  unfolding get_account_helper
  read-Keeps k self h = elim (Option-cases (lookup k self.account_cache)) [
    | inl absent ↦
        rw (get_account_helper, absent)
          (filled k self (get_account db codec self.tree self.root k) h)
    | inr (a, cached) ↦ rw (get_account_helper, cached) h
  ]

  module _ (from to : Hash) (run : Account → Account → Outcome StfError TransactionResult) where
    recipient_read :
        (a : Account) (self : BlockExecutor db.Tree) (r : Read db.Tree)
        → P self
        → KeepsRead P r
        → Keeps P (unwrap_or_new to self r >>= λ found. settle from to (run a found.0) found.1)
    recipient_read a self (ok (b, self')) h k = settle-Keeps P closed from to (run a b) self' k
    recipient_read a self (err e) h k = settle-Keeps P closed from to _ self h
    recipient_read a self panic h k = tt

    sender_read :
        (self : BlockExecutor db.Tree) (r : Read db.Tree)
        → P self
        → KeepsRead P r
        → Keeps P (
            with_sender self
              (λ a self'. unwrap_or_new to self' (get_account_helper db codec to self') >>= λ found.
                settle from to (run a found.0) found.1)
              r)
    sender_read self (ok (a, self')) h k =
        recipient_read a self' (get_account_helper db codec to self') k (read-Keeps to self' k)
    sender_read self (err (account_not_found x)) h k = h
    sender_read self (err e) h k = tt
    sender_read self panic h k = tt

  -- A transaction keeps it too.
  pub apply_transaction-Keeps :
      (tx : Transaction) (self : BlockExecutor db.Tree)
      → P self
      → Keeps P (apply_transaction db codec tx self)
  unfolding apply_transaction
  apply_transaction-Keeps tx self h =
      sender_read tx.from tx.to (λ a b. Apply.apply_transaction a b tx) self _ h
        (read-Keeps tx.from self h)

  pub apply_forced_tx-Keeps :
      (tx : ForcedTx) (self : BlockExecutor db.Tree)
      → P self
      → Keeps P (apply_forced_tx db codec tx self)
  unfolding apply_forced_tx
  apply_forced_tx-Keeps tx self h = elim (Bool-cases (bytes_eq tx.from default)) [
    | inl dummy ↦ rw dummy h
    | inr live ↦ rw live (
        sender_read tx.from tx.to (λ a b. Apply.apply_forced_tx a b tx) self
          (get_account_helper db codec tx.from self) h (read-Keeps tx.from self h))
  ]

  deposit_read :
      (d : Deposit) (self : BlockExecutor db.Tree) (r : Read db.Tree)
      → P self
      → KeepsRead P r
      → Keeps P (
          recipient d.to self r >>= λ found.
          settle_deposit d.to (Apply.apply_deposit found.0 d) found.1)
  deposit_read d self (ok (a, self')) h k = settle_deposit-Keeps P closed d.to _ self' k
  deposit_read d self (err (account_not_found x)) h k = settle_deposit-Keeps P closed d.to _ self h
  deposit_read d self (err e) h k = tt
  deposit_read d self panic h k = tt

  pub apply_deposit-Keeps :
      (d : Deposit) (self : BlockExecutor db.Tree)
      → P self
      → Keeps P (apply_deposit db codec d self)
  unfolding apply_deposit
  apply_deposit-Keeps d self h = deposit_read d self _ h (read-Keeps d.to self h)
