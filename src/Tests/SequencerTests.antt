-- ===== src/Tests/SequencerTests.antt =====
-- A batch of the sequencer on the sample state tree, and its theorem at it.
use tiny_sp1_rollup.Base.{◌≡◌, refl, [], ◌∷◌, String, some, ok, err, false, arith}
use tiny_sp1_rollup.Base.Bytes.{bytes_eq, to_be_bytes}
use tiny_sp1_rollup.Stf.Digest.{Hash, default, sample_digest}
use tiny_sp1_rollup.Stf.Account
use tiny_sp1_rollup.Stf.Apply
use tiny_sp1_rollup.Core.Cache.{lookup, insert}
use tiny_sp1_rollup.Core.Reads.{get_account}
use tiny_sp1_rollup.Core.Executor
use tiny_sp1_rollup.Core.Executor.View.{Ledger}
use tiny_sp1_rollup.Sequencer.Batch.{apply_optimistic_batch}
use tiny_sp1_rollup.Sequencer.Batch.Stored.{settle_batch, IsStored, apply_optimistic_batch-IsStored}
use tiny_sp1_rollup.Sequencer.Batch.Repeated.{repeated_deposit_fails}
use tiny_sp1_rollup.Sequencer.Error.{from_core}
use tiny_sp1_rollup.Core.Error.{account_data_corrupted}
use tiny_sp1_rollup.Tests.Data.{id_of, deposit, payment, dummy}
use tiny_sp1_rollup.Tests.Store.{
  Leaves, sample_root, sample_db, sample_codec, sample_order, sample_laws, sample_decodes,
}

abbrev pub no_text : Hash → String
no_text h = "hash"

-- Alice is credited 50 and pays Bob 30 of it with a fee of 1.
abbrev pub stored_leaves : Leaves
stored_leaves =
    (id_of 1, Account.hash sample_digest (record { id = id_of 1; balance = 19; nonce = 1 }))
    ∷ (id_of 2, Account.hash sample_digest (record { id = id_of 2; balance = 30; nonce = 0 }))
    ∷ []

unfoldable pub no_roots : sample_db.Tree
unfolding sample_db
no_roots = []

unfoldable pub one_root : sample_db.Tree
unfolding sample_db
one_root = (sample_root 0, stored_leaves) ∷ []

pub sample_batch :
    apply_optimistic_batch sample_digest sample_db sample_codec sample_order no_text no_roots
      (some default)
      (payment ∷ [])
      (deposit ∷ [])
      (dummy ∷ [])
    ≡ (one_root, ok (sample_root 0))
unfolding no_roots one_root apply_optimistic_batch Executor.new Executor.apply_deposit
    Executor.apply_forced_tx Executor.apply_transaction Executor.commit_block Executor.put
    Executor.update_cache_success Executor.settle Executor.settle_deposit
    Executor.get_account_helper get_account lookup insert sample_db sample_order sample_codec
    bytes_eq Account.new Apply.apply_deposit Apply.apply_transaction
sample_batch = refl

apply_optimistic_batch-IsStored_example :
    (l : Ledger) × (settle_batch
        (payment ∷ [])
        (deposit ∷ [])
        (dummy ∷ [])
        (get_account sample_db sample_codec no_roots (some default))
      ≡ ok l)
    × ((k : Hash)
        → IsStored sample_digest sample_db sample_codec no_roots
            (some default)
            one_root
            (sample_root 0)
            l
            k)
apply_optimistic_batch-IsStored_example =
    apply_optimistic_batch-IsStored sample_digest sample_db sample_codec sample_order sample_laws
      no_text no_roots default (payment ∷ []) (deposit ∷ []) (dummy ∷ []) one_root (sample_root 0)
      sample_batch

no_default : bytes_eq (sample_root 0) default ≡ false
unfolding bytes_eq to_be_bytes
no_default = refl

repeated_deposit_fails_example :
    apply_optimistic_batch sample_digest sample_db sample_codec sample_order no_text one_root
      (some (sample_root 0))
      []
      (deposit ∷ deposit ∷ [])
      []
    ≡ (one_root, err (from_core no_text (account_data_corrupted deposit.to)))
repeated_deposit_fails_example =
    repeated_deposit_fails sample_digest sample_db sample_codec sample_order no_text sample_laws
      sample_decodes no_roots one_root default (sample_root 0) deposit (payment ∷ []) [] []
      (deposit ∷ []) (dummy ∷ []) [] (omega arith) no_default sample_batch
