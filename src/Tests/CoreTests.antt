-- ===== src/Tests/CoreTests.antt =====
-- Theorems on the block executor at sample data.
use tiny_sp1_rollup.Base.{◌+◌, ◌≤◌, ◌≡◌, refl, List, [], ◌∷◌, none, some, ok, err, arith}
use tiny_sp1_rollup.Base.Bytes.{bytes_eq, to_be_bytes}
use tiny_sp1_rollup.Stf.Digest.{Hash, sample_digest}
use tiny_sp1_rollup.Stf.Types.{Transaction}
use tiny_sp1_rollup.Stf.Apply
use tiny_sp1_rollup.Core.Error.{account_data_corrupted}
use tiny_sp1_rollup.Core.Cache.{lookup, insert}
use tiny_sp1_rollup.Core.Executor
use tiny_sp1_rollup.Core.Executor.{BlockExecutor, new, commit_block}
use tiny_sp1_rollup.Core.Executor.View.{view, write}
use tiny_sp1_rollup.Core.Executor.Ledger.{shown, pay, apply_transaction-pay}
use tiny_sp1_rollup.Core.Executor.Invariant.{IsOn}
use tiny_sp1_rollup.Core.Executor.Replay.{apply_transaction_once, self_transfer_mints}
use tiny_sp1_rollup.Core.Executor.Supply.{total, count, apply_transaction-IsBurned}
use tiny_sp1_rollup.Core.Executor.Commit.{overlaid, cached_leaf, commit_block-leaves}
use tiny_sp1_rollup.Core.Executor.Unreadable.{committed_account_blocks}
use tiny_sp1_rollup.Tests.Data.{id_of, alice, bob, deposit, payment}
use tiny_sp1_rollup.Tests.Store.{
  sample_db, sample_codec, sample_order, sample_laws, sample_decodes, sample_root,
}

-- An executor on an empty tree that has read Alice and Bob.
abbrev self : BlockExecutor sample_db.Tree
unfolding sample_db
self = record { tree = []; root = none; account_cache = (id_of 1, alice) ∷ (id_of 2, bob) ∷ [] }

abbrev paid : BlockExecutor sample_db.Tree
unfolding sample_db
paid = record {
  tree = [];
  root = none;
  account_cache =
      (id_of 1, record { id = id_of 1; balance = 69; nonce = 1 })
      ∷ (id_of 2, record { id = id_of 2; balance = 37; nonce = 4 })
      ∷ [];
}

-- Thirty from Alice to herself.
abbrev to_self : Transaction
to_self = record payment { to = id_of 1 }

paid_lem : Executor.apply_transaction sample_db sample_codec payment self ≡ ok paid
unfolding Executor.apply_transaction Apply.apply_transaction lookup insert bytes_eq sample_db
paid_lem = refl

apply_transaction-pay_example :
    shown sample_db sample_codec (Executor.apply_transaction sample_db sample_codec payment self)
    ≡ pay payment (view sample_db sample_codec self)
apply_transaction-pay_example = apply_transaction-pay sample_db sample_codec payment self

apply_transaction_once_example :
    shown sample_db sample_codec (Executor.apply_transaction sample_db sample_codec payment paid)
    ≡ ok (view sample_db sample_codec paid)
unfolding bytes_eq
apply_transaction_once_example =
    apply_transaction_once sample_db sample_codec payment self paid refl paid_lem

self_transfer_mints_example :
    shown sample_db sample_codec (Executor.apply_transaction sample_db sample_codec to_self self)
    ≡ ok (
        write
          (id_of 1)
          (record { id = id_of 1; balance = 130; nonce = 0 })
          (view sample_db sample_codec self))
unfolding view lookup bytes_eq sample_db
self_transfer_mints_example =
    self_transfer_mints sample_db sample_codec to_self self alice refl refl refl (omega arith)
      (omega arith)

abbrev everybody : List Hash
everybody = id_of 1 ∷ id_of 2 ∷ []

apply_transaction-IsBurned_example :
    (total everybody (view sample_db sample_codec paid)
      ≤ total everybody (view sample_db sample_codec self))
    × (total everybody (view sample_db sample_codec self)
        ≤ total everybody (view sample_db sample_codec paid) + 1)
unfolding count bytes_eq
apply_transaction-IsBurned_example =
    apply_transaction-IsBurned sample_db sample_codec everybody payment self paid refl refl refl
      paid_lem

abbrev credited : BlockExecutor sample_db.Tree
unfolding sample_db
credited = record {
  tree = [];
  root = none;
  account_cache =
      (id_of 1, record { id = id_of 1; balance = 150; nonce = 0 }) ∷ (id_of 2, bob) ∷ [];
}

credited_lem : Executor.apply_deposit sample_db sample_codec deposit self ≡ ok credited
unfolding Executor.apply_deposit Apply.apply_deposit lookup insert bytes_eq sample_db
credited_lem = refl

self-IsOn : IsOn {Tree = sample_db.Tree} self.tree none self
unfolding sample_db lookup bytes_eq
self-IsOn = record { same_tree = refl; same_root = refl; distinct = (refl, (refl, tt)) }

commit_block-leaves_example :
    let (tree', result) = commit_block sample_digest sample_db sample_order self in
    sample_db.get tree' (some (sample_root 0)) (id_of 2)
    ≡ overlaid (sample_db.get self.tree none (id_of 2)) (cached_leaf sample_digest (some bob))
unfolding commit_block sample_db sample_order lookup bytes_eq
commit_block-leaves_example =
    commit_block-leaves sample_digest sample_db sample_order sample_laws self
      (commit_block sample_digest sample_db sample_order self).0 (sample_root 0) (λ p. cc)
      self-IsOn.distinct refl (id_of 2)

committed_account_blocks_example :
    let tree' = (commit_block sample_digest sample_db sample_order self).0 in
    (Executor.apply_deposit sample_db sample_codec deposit (new tree' (some (sample_root 0)))
      ≡ err (account_data_corrupted (id_of 1)))
    × (Executor.apply_transaction sample_db sample_codec payment (new tree' (some (sample_root 0)))
        ≡ err (account_data_corrupted (id_of 1)))
unfolding commit_block sample_db sample_order lookup bytes_eq to_be_bytes
committed_account_blocks_example =
    committed_account_blocks sample_digest sample_db sample_codec sample_order sample_laws
      sample_decodes self (commit_block sample_digest sample_db sample_order self).0 (sample_root 0)
      alice alice deposit payment self-IsOn.distinct refl refl refl refl
