-- ===== src/Core/Executor/Unreadable.antt =====
-- What a block leaves for the next one: the leaves that `commit_block` inserts are 32-byte hashes,
-- and `get_account` decodes a leaf as a whole account.
use tiny_sp1_rollup.Base.{
  ◌<◌, ◌≡◌, ◌≢◌, false, List, [], ◌∷◌, Option, none, some, ok, err, arith, length,
}
use tiny_sp1_rollup.Base.Bytes.{Bytes, bytes_eq}
use tiny_sp1_rollup.Stf.Digest.{Hash, Digest, default}
use tiny_sp1_rollup.Stf.Account
use tiny_sp1_rollup.Stf.Account.{Account}
use tiny_sp1_rollup.Stf.Types.{Transaction, Deposit}
use tiny_sp1_rollup.Core.Error.{CoreError, account_data_corrupted}
use tiny_sp1_rollup.Core.External.{StateTree, Codec}
use tiny_sp1_rollup.Core.Reads.{get_account}
use tiny_sp1_rollup.Core.Cache.{lookup, IsDistinct, MapOrder}
use tiny_sp1_rollup.Core.Executor.{
  BlockExecutor, new, commit_block, get_account_helper, apply_deposit, apply_transaction,
}
use tiny_sp1_rollup.Core.Executor.Commit.{InsertsLeaves, commit_block-leaves}

-- `bincode` reads 32 + 8 + 8 bytes for an account, and fails on an input that ends before.
pub record DecodesWhole (codec : Codec) : Type 0 where
  pub deserialize-short : (b : Bytes) → length b < 48 → codec.deserialize b ≡ none

module _ (sha3 : Digest) (db : StateTree) (codec : Codec) (iteration : MapOrder Account)
    (laws : InsertsLeaves db) (decodes : DecodesWhole codec) where
  get_account_committed :
      (self : BlockExecutor db.Tree) (tree' : db.Tree) (new_root k : Hash) (a : Account)
      → self.account_cache ≢ []
      → IsDistinct self.account_cache
      → commit_block sha3 db iteration self ≡ (tree', ok new_root)
      → bytes_eq new_root default ≡ false
      → lookup k self.account_cache ≡ some a
      → get_account db codec tree' (some new_root) k ≡ err (account_data_corrupted k)
  unfolding get_account
  get_account_committed self tree' new_root k a ne distinct e live cached =
      let corrupt =
        decodes.deserialize-short (Account.hash sha3 a)
          (unfold Account.hash in omega (arith, sha3.digest-IsHash (Account.preimage a))) in
      rw (
        live,
        commit_block-leaves sha3 db iteration laws self tree' new_root ne distinct e k,
        cached,
        corrupt,
      )

  not_empty : (k : Hash) (a : Account) (c : List (Hash × Account)) → lookup k c ≡ some a → c ≢ []
  unfolding lookup
  not_empty k a [] h p = cc
  not_empty k a (x ∷ c) h p = cc

  new_read :
      (tree : db.Tree) (root : Option Hash) (k : Hash) (x : CoreError)
      → get_account db codec tree root k ≡ err x
      → get_account_helper db codec k (new tree root) ≡ err x
  unfolding get_account_helper new lookup
  new_read tree root k x e = rw e

  -- An account that one block has touched stops the next. Once a block with the recipient of a
  -- deposit and the sender of a transaction in its cache is committed under a root that is not the
  -- default one, the next block's executor fails with `account_data_corrupted` on that deposit and
  -- on that transaction.
  pub committed_account_blocks :
      (self : BlockExecutor db.Tree) (tree' : db.Tree) (new_root : Hash) (a b : Account)
      (d : Deposit) (tx : Transaction)
      → IsDistinct self.account_cache
      → commit_block sha3 db iteration self ≡ (tree', ok new_root)
      → bytes_eq new_root default ≡ false
      → lookup d.to self.account_cache ≡ some a
      → lookup tx.from self.account_cache ≡ some b
      → (apply_deposit db codec d (new tree' (some new_root)) ≡ err (account_data_corrupted d.to))
        × (apply_transaction db codec tx (new tree' (some new_root))
            ≡ err (account_data_corrupted tx.from))
  unfolding apply_deposit apply_transaction
  committed_account_blocks self tree' new_root a b d tx distinct e live to from =
      let blocked = λ (k : Hash) (acc : Account) (cached : lookup k self.account_cache ≡ some acc).
        new_read tree' (some new_root) k (account_data_corrupted k) (
          get_account_committed self tree' new_root k acc
            (not_empty k acc self.account_cache cached) distinct e live cached) in
      (rw (blocked d.to a to), rw (blocked tx.from b from))
