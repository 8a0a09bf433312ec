-- ===== src/Tests/IdleTests.antt =====
-- Blocks that change nothing, over a tree that stores hashes of 32 bytes, and the theorem on which
-- blocks can be proven at one of them.
use tiny_sp1_rollup.Base.{◌≢◌, refl, ◌↔◌, [], ◌∷◌, some, ok}
use tiny_sp1_rollup.Base.Bytes.{Bytes, bytes_eq}
use tiny_sp1_rollup.Stf.Digest.{Hash, default, sample_digest}
use tiny_sp1_rollup.Core.Block.{PendingBlock}
use tiny_sp1_rollup.Core.Cache.{lookup}
use tiny_sp1_rollup.Core.Prover.Idle.{IsIdle}
use tiny_sp1_rollup.Core.Prover.Hashes.{StoresHashes}
use tiny_sp1_rollup.Core.Prover.Provable.{IsUnnamed, IsProvenBy, IsProvenBy-IsIdle}
use tiny_sp1_rollup.Tests.Data.{dummy, deposit, payment, abi}
use tiny_sp1_rollup.Tests.ProverTests.{new_account_hash}
use tiny_sp1_rollup.Tests.SequencerTests.{no_roots}
use tiny_sp1_rollup.Tests.Store.{sample_db, sample_codec, sample_decodes}

-- A skipped forced transaction.
abbrev pub skipping : PendingBlock
skipping = record {
  block_number = 1;
  txs = [];
  deposits = [];
  forced_txs = dummy ∷ [];
  pre_state_root = default;
  post_state_root = default;
}

abbrev pub nothing : PendingBlock
nothing = record skipping { block_number = 2; forced_txs = [] }

pub skipping-IsIdle : IsIdle skipping
unfolding bytes_eq
skipping-IsIdle = record {
  no_deposits = refl;
  no_txs = refl;
  skipped = (refl, tt);
  one_root = refl;
}

pub nothing-IsIdle : IsIdle nothing
nothing-IsIdle = record { no_deposits = refl; no_txs = refl; skipped = tt; one_root = refl }

no_leaf : (root key : Hash) (leaf : Bytes) → sample_db.get no_roots (some root) key ≢ ok (some leaf)
unfolding sample_db no_roots lookup
no_leaf root key leaf e = cc

stores : StoresHashes sample_db no_roots
unfolding sample_db
stores = record {
  leaf-length = λ root key leaf e. absurd (no_leaf root key leaf e);
  no_proof = λ root key e. refl;
}

-- With a deposit and a payment.
abbrev busy : PendingBlock
busy = record skipping { txs = payment ∷ []; deposits = deposit ∷ [] }

busy-IsUnnamed : IsUnnamed sample_digest sample_db sample_codec no_roots busy
unfolding bytes_eq
busy-IsUnnamed = record {
  recipients = (new_account_hash, tt);
  forced_senders = (λ live. cc live, tt);
  senders = (new_account_hash, tt);
}

IsProvenBy-IsIdle_example :
    IsProvenBy sample_digest sample_db sample_codec no_roots sample_digest abi busy ↔ IsIdle busy
IsProvenBy-IsIdle_example =
    IsProvenBy-IsIdle sample_digest sample_db sample_codec no_roots stores sample_decodes
      sample_digest abi busy busy-IsUnnamed

skipping-IsUnnamed : IsUnnamed sample_digest sample_db sample_codec no_roots skipping
unfolding bytes_eq
skipping-IsUnnamed = record {
  recipients = tt;
  forced_senders = (λ live. cc live, tt);
  senders = tt;
}

skipping-IsProvenBy :
    IsProvenBy sample_digest sample_db sample_codec no_roots sample_digest abi skipping
skipping-IsProvenBy =
    (IsProvenBy-IsIdle sample_digest sample_db sample_codec no_roots stores sample_decodes
        sample_digest abi skipping skipping-IsUnnamed).1
      skipping-IsIdle
