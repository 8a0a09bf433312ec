-- ===== src/Tests/ProveTests.antt =====
-- The prover's worker on a block, with the guest run in place of the prover: its theorems there.
use tiny_sp1_rollup.Base.{
  ◌≡◌, ◌≢◌, refl, ℕ, zero, suc, All, arith, List, [], ◌∷◌, true, false, Outcome, ok, panic,
}
use tiny_sp1_rollup.Base.Bytes.{Bytes, bytes_eq, bytes_eq_iff}
use tiny_sp1_rollup.Stf.Digest.{default, sample_digest}
use tiny_sp1_rollup.Stf.Account
use tiny_sp1_rollup.Stf.Merkle.{hash_nodes}
use tiny_sp1_rollup.Stf.Merkle.Tree.{root, set_leaf}
use tiny_sp1_rollup.Stf.Commitment.{
  PublicValues, deposit_l1, forced_transaction_l1, build_commitment, hash_deposits, hash_forced_txs,
}
use tiny_sp1_rollup.Stf.Commitment.Decode.{truncate, decode_commitment}
use tiny_sp1_rollup.Stf.Commitment.Layout.{calculate_hash}
use tiny_sp1_rollup.Program.{public_values}
use tiny_sp1_rollup.Contract.{Contract, update_state}
use tiny_sp1_rollup.Core.Block.{PendingBlock}
use tiny_sp1_rollup.Core.Prover.{generate_proofs_for_block}
use tiny_sp1_rollup.Contract.Accepts.{Waits}
use tiny_sp1_rollup.Sequencer.Prove.Progress.{IsProvable, process-settles}
use tiny_sp1_rollup.Sequencer.Prove.Blocks.{prove_block, prove_blocks}
use tiny_sp1_rollup.Sequencer.Prove.Retries.{
  given_up, out_of_fuel, max_retries, retry_loop, Retried, retry_loop-Retried,
}
use tiny_sp1_rollup.Sequencer.Prove.Poisoned.{panic_poisons}
use tiny_sp1_rollup.Sequencer.Prove.Stalled.{IsLike, prove_blocks_stalled}
use tiny_sp1_rollup.Sequencer.Prove.{
  ProveError, Attempt, undelivered, delivered, ProverState, process_and_prove_batch,
}
use tiny_sp1_rollup.Sequencer.Prove.Settled.{IsHonest, process_and_prove_batch-IsSettled}
use tiny_sp1_rollup.Tests.Data.{id_of, deposit, dummy}
use tiny_sp1_rollup.Tests.Guest.{reliable, guest_abi, decode, gateway, honest_attempt, honest}
use tiny_sp1_rollup.Tests.ProverTests.{recorded_db, answers, block, bundle, block_replay}
use tiny_sp1_rollup.Tests.Store.{sample_codec}

-- The contract before the block, with what its users have sent.
abbrev pub waiting : Contract
waiting = record {
  state_root = block.pre_state_root;
  pending_deposits = deposit_l1 deposit ∷ [];
  deposit_count = 1;
  processed_deposit_count = 0;
  forced_transactions = forced_transaction_l1 dummy ∷ [];
  forced_tx_count = 1;
  processed_forced_tx_count = 0;
  nullifiers = [];
}

abbrev pub settled : Contract
settled = record waiting {
  state_root = block.post_state_root;
  processed_deposit_count = 1;
  processed_forced_tx_count = 1;
}

abbrev pub ready : ProverState recorded_db.Tree
ready = record {
  tree = answers;
  poisoned = false;
  proven = block.pre_state_root;
  contract = waiting;
}

abbrev pub done : ProverState recorded_db.Tree
done = record ready { proven = block.post_state_root; contract = settled }

-- What the guest commits for the block.
abbrev pub block_values : PublicValues
block_values =
    public_values block.pre_state_root
      (
        block.post_state_root,
        hash_deposits sample_digest guest_abi block.deposits,
        hash_forced_txs sample_digest guest_abi block.forced_txs,
      )
      1 1

abbrev pub block_output : Bytes
block_output = guest_abi.encode_public_values block_values

pub update_runs : update_state sample_digest guest_abi gateway waiting block_output [] ≡ ok settled
unfolding update_state decode public_values build_commitment hash_deposits hash_forced_txs
    calculate_hash decode_commitment truncate bytes_eq root hash_nodes sample_digest Account.hash
    set_leaf
update_runs = refl

pub block-IsProvable : IsProvable sample_digest recorded_db sample_codec answers block
block-IsProvable = record {
  bundle = bundle;
  replay = block_replay;
  few = omega arith;
  few_forced = omega arith;
}

pub block-Waits : Waits waiting (deposit ∷ []) (dummy ∷ [])
block-Waits = record {
  before = [];
  after = [];
  before_forced = [];
  after_forced = [];
  held = refl;
  processed = refl;
  held_forced = refl;
  processed_forced = refl;
}

pub block_proven :
    process_and_prove_batch sample_digest sample_digest guest_abi gateway recorded_db sample_codec
      decode true
      (honest_attempt delivered)
      block
      ready
    ≡ (done, ok tt)
block_proven =
    process-settles sample_digest sample_digest guest_abi gateway recorded_db sample_codec decode
      (honest_attempt delivered) reliable block ready refl refl block-IsProvable block-Waits

process_and_prove_batch-IsSettled_example :
    (waiting.state_root ≡ block.pre_state_root)
    × (settled.state_root ≡ block.post_state_root)
    × (done.proven ≡ block.post_state_root)
process_and_prove_batch-IsSettled_example =
    process_and_prove_batch-IsSettled sample_digest sample_digest guest_abi gateway recorded_db
      sample_codec decode (honest_attempt delivered) (honest delivered) block ready done
      block_proven

-- The first transaction does not arrive.
abbrev pub attempts : ℕ → Attempt
attempts zero = honest_attempt undelivered
attempts (suc n) = honest_attempt delivered

abbrev pub attempt_block :
    ℕ → ProverState recorded_db.Tree → ProverState recorded_db.Tree × Outcome ProveError (Unit {0})
attempt_block n =
    process_and_prove_batch sample_digest sample_digest guest_abi gateway recorded_db sample_codec
      decode true (attempts n) block

retry_loop-Retried_example :
    Retried attempt_block 0 ready (retry_loop attempt_block max_retries 0 ready)
    × ((retry_loop attempt_block max_retries 0 ready).1 ≢ out_of_fuel)
retry_loop-Retried_example = retry_loop-Retried attempt_block ready

-- An empty block with two roots.
abbrev wrong : PendingBlock
wrong = record {
  block_number = 2;
  txs = [];
  deposits = [];
  forced_txs = [];
  pre_state_root = default;
  post_state_root = id_of 9;
}

wrong_panics :
    generate_proofs_for_block sample_digest recorded_db sample_codec answers wrong ≡ panic
unfolding generate_proofs_for_block bytes_eq
wrong_panics = refl

panic_poisons_example :
    (prove_block sample_digest sample_digest guest_abi gateway recorded_db sample_codec decode true
        attempts wrong ready
      ≡ (record ready { poisoned = true }, given_up))
    × ((later : PendingBlock) (attempts' : ℕ → Attempt)
        → prove_block sample_digest sample_digest guest_abi gateway recorded_db sample_codec decode
            true attempts' later
            (record ready { poisoned = true })
          ≡ (record ready { poisoned = true }, given_up))
panic_poisons_example =
    panic_poisons sample_digest sample_digest guest_abi gateway recorded_db sample_codec decode true
      attempts wrong ready refl wrong_panics

-- Blocks after one that was given up.
abbrev stranded : List PendingBlock
stranded =
    record block { pre_state_root = id_of 8 } ∷ record wrong { pre_state_root = id_of 9 } ∷ []

abbrev behind : ProverState recorded_db.Tree
behind = record ready { contract = record waiting { state_root = default } }

bytes_differ : (x y : Bytes) → bytes_eq x y ≡ false → x ≢ y
bytes_differ x y apart e =
    let same : bytes_eq x y ≡ true = (bytes_eq_iff x y).1 e in cc (apart, same)

stranded_roots : All (λ (b : PendingBlock). b.pre_state_root ≢ behind.contract.state_root) stranded
unfolding bytes_eq
stranded_roots = (bytes_differ (id_of 8) default refl, (bytes_differ (id_of 9) default refl, tt))

pub attempts-IsHonest :
    (n : ℕ) → IsHonest sample_digest sample_digest guest_abi gateway decode (attempts n)
attempts-IsHonest zero = honest undelivered
attempts-IsHonest (suc n) = honest delivered

prove_blocks_stalled_example :
    IsLike sample_digest sample_digest guest_abi gateway recorded_db sample_codec decode behind (
      prove_blocks sample_digest sample_digest guest_abi gateway recorded_db sample_codec decode
        true
        (λ b. attempts)
        stranded
        behind)
prove_blocks_stalled_example =
    prove_blocks_stalled sample_digest sample_digest guest_abi gateway recorded_db sample_codec
      decode (λ b. attempts) (λ b. attempts-IsHonest) stranded behind stranded_roots
