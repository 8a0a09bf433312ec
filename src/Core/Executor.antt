-- ===== src/Core/Executor.antt =====
-- `BlockExecutor` of crates/core/src/executor.rs. A method takes the executor and returns it
-- changed; where it returns an error the caller drops the executor, or goes on with the one that
-- it had, which the failed read has left alone. Printing is left out.
pub mod View
pub mod Ledger
pub mod Invariant
pub mod Replay
pub mod Supply
pub mod Commit
pub mod Unreadable
use tiny_sp1_rollup.Base.{
  ℕ, Bool, true, false, List, [], ◌∷◌, String, append, Option, none, some, Outcome, ok, err, panic,
  ◌>>=◌, map_err, ok_or, if◌then◌else◌, map,
}
use tiny_sp1_rollup.Base.Bytes.{Bytes, bytes_eq}
use tiny_sp1_rollup.Stf.Digest.{Hash, Digest, default}
use tiny_sp1_rollup.Stf.Account
use tiny_sp1_rollup.Stf.Account.{Account}
use tiny_sp1_rollup.Stf.Types.{
  StfError, insufficient_balance, balance_overflow, merkle_proof_verification_failed, invalid_nonce,
  invalid_transaction, TransactionResult, success, failure, Transaction, Deposit, ForcedTx,
}
use tiny_sp1_rollup.Stf.Apply
use tiny_sp1_rollup.Core.Error.{CoreError, database_error, account_not_found}
use tiny_sp1_rollup.Core.External.{StateTree, Codec}
use tiny_sp1_rollup.Core.Reads.{get_account}
use tiny_sp1_rollup.Core.Cache.{lookup, insert, MapOrder}

abbrev pub Cache : Type 0
Cache = List (Hash × Account)

pub record BlockExecutor (Tree : Type 0) : Type 0 where
  pub tree : Tree
  pub root : Option Hash
  pub account_cache : Cache

-- An account as `get_account_helper` returns it, with the executor after the call.
abbrev pub Read : Type 0 → Type 0
Read Tree = Outcome CoreError (Account × BlockExecutor Tree)

module _ {Tree : Type 0} where
  -- `BlockExecutor::new`
  unfoldable pub new : Tree → Option Hash → BlockExecutor Tree
  new tree root = record { tree = tree; root = root; account_cache = [] }

  -- `self.account_cache.insert(key, account)`
  unfoldable pub put : Hash → Account → BlockExecutor Tree → BlockExecutor Tree
  put key account self = record self { account_cache = insert key account self.account_cache }

  unfoldable pub update_cache_success :
      Hash → Account → Hash → Account → BlockExecutor Tree → BlockExecutor Tree
  unfolding put
  update_cache_success from_key from_account to_key to_account self =
      if bytes_eq from_key to_key
      then put from_key to_account self
      else put to_key to_account (put from_key from_account self)

  -- Every error is printed and skipped.
  unfoldable pub handle_stf_error :
      StfError → Hash → BlockExecutor Tree → Outcome CoreError (BlockExecutor Tree)
  handle_stf_error (invalid_nonce expected got) from self = ok self
  handle_stf_error balance_overflow from self = ok self
  handle_stf_error insufficient_balance from self = ok self
  handle_stf_error merkle_proof_verification_failed from self = ok self
  handle_stf_error (invalid_transaction msg) from self = ok self

  -- The `match` on the result of a transaction, the same in both methods.
  unfoldable pub settle :
      Hash
      → Hash
      → Outcome StfError TransactionResult
      → BlockExecutor Tree
      → Outcome CoreError (BlockExecutor Tree)
  unfolding update_cache_success put handle_stf_error
  settle from to (ok (success updated_from updated_to)) self =
      ok (update_cache_success from updated_from to updated_to self)
  settle from to (ok (failure updated_from)) self = ok (put from updated_from self)
  settle from to (err e) self = handle_stf_error e from self
  settle from to panic self = panic

  -- The `match` on the result of `stf::apply_deposit`; its last arm is `unreachable!`.
  unfoldable pub settle_deposit :
      Hash → Outcome StfError Account → BlockExecutor Tree → Outcome CoreError (BlockExecutor Tree)
  unfolding put
  settle_deposit to (ok updated_account) self = ok (put to updated_account self)
  settle_deposit to (err balance_overflow) self = ok self
  settle_deposit to (err e) self = panic
  settle_deposit to panic self = panic

  -- A deposit's recipient: an account that is not found is new.
  abbrev pub recipient : Hash → BlockExecutor Tree → Read Tree → Read Tree
  recipient to self (ok found) = ok found
  recipient to self (err (account_not_found _)) = ok (Account.new to, self)
  recipient to self (err e) = err e
  recipient to self panic = panic

  -- A sender that is not found ends the method with nothing done.
  abbrev pub with_sender :
      BlockExecutor Tree
      → (Account → BlockExecutor Tree → Outcome CoreError (BlockExecutor Tree))
      → Read Tree
      → Outcome CoreError (BlockExecutor Tree)
  with_sender self rest (ok (account, self')) = rest account self'
  with_sender self rest (err (account_not_found _)) = ok self
  with_sender self rest (err e) = err e
  with_sender self rest panic = panic

  -- `.unwrap_or_else(|_| Account::new(to))`, whatever the error
  abbrev pub unwrap_or_new : Hash → BlockExecutor Tree → Read Tree → Read Tree
  unwrap_or_new to self (ok found) = ok found
  unwrap_or_new to self (err _) = ok (Account.new to, self)
  unwrap_or_new to self panic = panic

module _ (db : StateTree) (codec : Codec) where
  -- A cached account, or one that is read from the tree and cached.
  unfoldable pub get_account_helper : Hash → BlockExecutor db.Tree → Read db.Tree
  unfolding put
  get_account_helper address self = elim (lookup address self.account_cache) [
    | some account ↦ ok (account, self)
    | none ↦ do
      account ← get_account db codec self.tree self.root address
      ok (account, put address account self)
  ]

  unfoldable pub apply_deposit :
      Deposit → BlockExecutor db.Tree → Outcome CoreError (BlockExecutor db.Tree)
  unfolding get_account_helper settle_deposit
  apply_deposit deposit self = do
    (to_account, self') ← recipient deposit.to self (get_account_helper deposit.to self)
    settle_deposit deposit.to (Apply.apply_deposit to_account deposit) self'

  unfoldable pub apply_forced_tx :
      ForcedTx → BlockExecutor db.Tree → Outcome CoreError (BlockExecutor db.Tree)
  unfolding get_account_helper settle
  apply_forced_tx tx self =
      if bytes_eq tx.from default
      then ok self
      else with_sender self
          (λ from_account self₁. do
            (to_account, self₂) ← unwrap_or_new tx.to self₁ (get_account_helper tx.to self₁)
            settle tx.from tx.to (Apply.apply_forced_tx from_account to_account tx) self₂)
          (get_account_helper tx.from self)

  unfoldable pub apply_transaction :
      Transaction → BlockExecutor db.Tree → Outcome CoreError (BlockExecutor db.Tree)
  unfolding get_account_helper settle
  apply_transaction tx self =
      with_sender self
        (λ from_account self₁. do
          (to_account, self₂) ← unwrap_or_new tx.to self₁ (get_account_helper tx.to self₁)
          settle tx.from tx.to (Apply.apply_transaction from_account to_account tx) self₂)
        (get_account_helper tx.from self)

-- `root.unwrap_or_default()`
abbrev pub unwrap_or_default : Option Hash → Hash
unwrap_or_default none = default
unwrap_or_default (some root) = root

module _ (sha3 : Digest) (db : StateTree) (iteration : MapOrder Account) where
  -- `commit_block`, with the tree after it.
  unfoldable pub commit_block : BlockExecutor db.Tree → db.Tree × Outcome CoreError Hash
  commit_block self = elim self.account_cache [
    | [] ↦ (self.tree, ok (unwrap_or_default self.root))
    | e ∷ rest ↦
        let entries = iteration.order (e ∷ rest) in
        let keys = map (λ (x : Hash × Account). x.0) entries in
        let leaves = map (λ (x : Hash × Account). Account.hash sha3 x.1) entries in
        let (tree', inserted) = db.inserts self.tree self.root keys leaves in
        (
          tree',
          do
            new_root ←
                map_err (λ e. database_error (append "commit_block inserts err: " e)) inserted
            ok_or new_root (database_error "commit_block inserts returned none err"),
        )
  ]
