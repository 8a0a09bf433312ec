-- ===== src/Tests/WorkerTests.antt =====
-- Two rounds of the optimistic worker, with a restart between them, and its theorems there.
use tiny_sp1_rollup.Base.{
  ◌≡◌, ◌≢◌, refl, ap, subst, collect, List, [], ◌∷◌, ◌++◌, true, false, none, some, ok,
}
use tiny_sp1_rollup.Base.Bytes.{bytes_eq, bytes_eq_iff, to_be_bytes}
use tiny_sp1_rollup.Stf.Account
use tiny_sp1_rollup.Stf.Apply
use tiny_sp1_rollup.Stf.Digest.{default, sample_digest}
use tiny_sp1_rollup.Stf.Types.{Transaction, Deposit}
use tiny_sp1_rollup.Stf.Commitment.{deposit_l1, forced_transaction_l1}
use tiny_sp1_rollup.Contract.{Contract, get_deposits, get_forced_transactions}
use tiny_sp1_rollup.Core.Block.{PendingBlock, address_to_hash}
use tiny_sp1_rollup.Core.Cache.{lookup, insert}
use tiny_sp1_rollup.Core.Reads.{get_account}
use tiny_sp1_rollup.Core.Executor
use tiny_sp1_rollup.Sequencer.Batch.{apply_optimistic_batch}
use tiny_sp1_rollup.Sequencer.Queue.Counter.{put_of}
use tiny_sp1_rollup.Sequencer.L1.{Bridge, fetch_new_deposits, fetch_new_forced_txs}
use tiny_sp1_rollup.Sequencer.L1.Fetched.{bridge_of}
use tiny_sp1_rollup.Sequencer.Queue.{get_block_counter, commit_optimistic_block}
use tiny_sp1_rollup.Sequencer.Worker.{
  Outside, Batch, sleeping, fetched, collected, rooted, executed, headed, drained, System, start_up,
  handle_submit_tx, move, advance, after_batch,
}
use tiny_sp1_rollup.Sequencer.Worker.Reach.{Reach, stored}
use tiny_sp1_rollup.Sequencer.Worker.Mempool.{Accounts}
use tiny_sp1_rollup.Sequencer.Worker.Submitted.{Reach-Accounts}
use tiny_sp1_rollup.Sequencer.Worker.Chain.{last_root, Follows, Reach-Follows}
use tiny_sp1_rollup.Sequencer.Worker.Restart.{start_up-IsStarted, restart_skips_block}
use tiny_sp1_rollup.Tests.Data.{id_of, deposit, payment, dummy}
use tiny_sp1_rollup.Tests.Guest.{guest_abi, decode, gateway}
use tiny_sp1_rollup.Tests.QueueTests.{sample_rocks, empty}
use tiny_sp1_rollup.Tests.BlockBytes.{sample_blocks}
use tiny_sp1_rollup.Tests.SequencerTests.{no_text, no_roots, one_root, stored_leaves, sample_batch}
use tiny_sp1_rollup.Tests.Store.{sample_db, sample_codec, sample_order, sample_root}

abbrev pub outside : Outside
outside = record {
  sha3 = sample_digest;
  keccak = sample_digest;
  abi = guest_abi;
  gateway = gateway;
  db = sample_db;
  codec = sample_codec;
  decode = decode;
  iteration = sample_order;
  debug = no_text;
  rocks = sample_rocks;
  block_codec = sample_blocks;
  deserialize = λ b. none;
  l1_enabled = true;
}

-- A contract with a deposit and a forced transaction.
abbrev pub waiting : Contract
waiting = record {
  state_root = default;
  pending_deposits = deposit_l1 deposit ∷ [];
  deposit_count = 1;
  processed_deposit_count = 0;
  forced_transactions = forced_transaction_l1 dummy ∷ [];
  forced_tx_count = 1;
  processed_forced_tx_count = 0;
  nullifiers = [];
}

abbrev pub started : System outside
started = record {
  mempool = [];
  proven = default;
  optimistic = default;
  tree = no_roots;
  headroot = some default;
  poisoned = false;
  block_counter = 0;
  queue = empty;
  contract = waiting;
  pc = sleeping;
}

start_up_runs : start_up outside no_roots none empty waiting ≡ ok started
unfolding start_up get_block_counter empty sample_rocks put_of
start_up_runs = refl

abbrev pub batch : Batch
batch = record { txs = payment ∷ []; deposits = deposit ∷ []; forced_txs = dummy ∷ [] }

-- The worker's states in the first round, until the block is to be stored; a second transaction
-- comes when the first is copied.
abbrev pub with_tx : System outside
with_tx = record started { mempool = payment ∷ [] }

abbrev pub with_l1 : System outside
with_l1 = record with_tx { pc = fetched (deposit ∷ []) (dummy ∷ []) }

abbrev pub copied : System outside
copied = record with_tx { pc = collected batch }

abbrev pub later_tx : Transaction
later_tx = record { from = id_of 3; to = id_of 4; nonce = 0; fee = 0; amount = 0 }

abbrev pub busy : System outside
busy = record copied { mempool = payment ∷ later_tx ∷ [] }

abbrev pub reading : System outside
reading = record busy { pc = rooted default batch }

abbrev pub run : System outside
run = record busy {
  tree = one_root;
  headroot = some (sample_root 0);
  block_counter = 1;
  pc = executed 0 (sample_root 0) default batch;
}

abbrev pub ahead : System outside
ahead = record run { optimistic = sample_root 0; pc = headed 0 (sample_root 0) default batch }

abbrev pub first_block : PendingBlock
first_block = record {
  block_number = 0;
  txs = payment ∷ [];
  deposits = deposit ∷ [];
  forced_txs = dummy ∷ [];
  pre_state_root = default;
  post_state_root = sample_root 0;
}

abbrev pub unstored : System outside
unstored = record ahead { mempool = later_tx ∷ []; pc = drained first_block }

abbrev pub asleep : System outside
asleep = record unstored {
  queue = (commit_optimistic_block sample_rocks sample_blocks empty first_block 1).0;
  pc = sleeping;
}

step :
    {first : System outside} {txs : List Transaction} {blocks : List PendingBlock} (bridge : Bridge)
    (s s' : System outside)
    → advance outside bridge s ≡ s'
    → Reach outside first s txs blocks
    → Reach outside first s' txs (blocks ++ stored s.pc s'.pc)
step {first = first} {txs = txs} {blocks = blocks} bridge s s' e r =
    subst (λ x. Reach outside first x txs (blocks ++ stored s.pc x.pc)) e (Reach.advances bridge r)

pub fetch_runs : advance outside (bridge_of waiting) with_tx ≡ with_l1
unfolding move fetch_new_deposits fetch_new_forced_txs get_deposits get_forced_transactions collect
    address_to_hash
fetch_runs = refl

pub copy_runs : advance outside (bridge_of waiting) with_l1 ≡ copied
unfolding move
copy_runs = refl

pub head_runs : advance outside (bridge_of waiting) busy ≡ reading
unfolding move
head_runs = refl

pub execute_runs : advance outside (bridge_of waiting) reading ≡ run
unfolding move
execute_runs = ap (λ r. after_batch outside default batch r reading) sample_batch

pub write_runs : advance outside (bridge_of waiting) run ≡ ahead
unfolding move
write_runs = refl

pub drain_runs : advance outside (bridge_of waiting) ahead ≡ unstored
unfolding move
drain_runs = refl

pub store_runs : advance outside (bridge_of waiting) unstored ≡ asleep
unfolding move commit_optimistic_block empty sample_rocks sample_blocks
store_runs = refl

reach_unstored : Reach outside started unstored (payment ∷ later_tx ∷ []) []
unfolding handle_submit_tx
reach_unstored = step (bridge_of waiting) ahead unstored drain_runs (
    step (bridge_of waiting) run ahead write_runs (
      step (bridge_of waiting) reading run execute_runs (
        step (bridge_of waiting) busy reading head_runs (
          Reach.submits later_tx (
            step (bridge_of waiting) with_l1 copied copy_runs (
              step (bridge_of waiting) with_tx with_l1 fetch_runs
                (Reach.submits payment Reach.starts)))))))

Reach-Accounts_example :
    Accounts asleep.pc asleep.mempool (payment ∷ later_tx ∷ []) (first_block ∷ [])
Reach-Accounts_example =
    Reach-Accounts outside started asleep (payment ∷ later_tx ∷ []) (first_block ∷ []) refl refl
      (step (bridge_of waiting) unstored asleep store_runs reach_unstored)

Reach-Follows_example : Follows outside default 0 asleep (first_block ∷ [])
Reach-Follows_example =
    Reach-Follows outside default 0 started asleep (payment ∷ later_tx ∷ []) (first_block ∷ []) refl
      refl refl refl (step (bridge_of waiting) unstored asleep store_runs reach_unstored)

-- The sequencer stops before the block is stored, and starts again; L1 has a deposit to another address.
abbrev again : System outside
again = record started {
  tree = one_root;
  headroot = some (sample_root 0);
  proven = sample_root 0;
  optimistic = sample_root 0;
}

again_runs :
    start_up outside unstored.tree unstored.headroot unstored.queue unstored.contract ≡ ok again
unfolding start_up get_block_counter empty sample_rocks put_of
again_runs = refl

abbrev other_deposit : Deposit
other_deposit = record { to = id_of 3; amount = 5; timestamp = 9 }

abbrev newer : Contract
newer = record waiting {
  pending_deposits = deposit_l1 other_deposit ∷ [];
  processed_forced_tx_count = 1;
}

abbrev newer_l1 : Bridge
newer_l1 = bridge_of newer

abbrev second_batch : Batch
second_batch = record { txs = later_tx ∷ []; deposits = other_deposit ∷ []; forced_txs = [] }

abbrev second_submitted : System outside
second_submitted = record again { mempool = later_tx ∷ [] }

abbrev second_fetched : System outside
second_fetched = record second_submitted { pc = fetched (other_deposit ∷ []) [] }

abbrev second_copied : System outside
second_copied = record second_submitted { pc = collected second_batch }

abbrev second_reading : System outside
second_reading = record second_submitted { pc = rooted (sample_root 0) second_batch }

two_roots : sample_db.Tree
unfolding sample_db
two_roots =
    (
      sample_root 1,
      (id_of 3, Account.hash sample_digest (record { id = id_of 3; balance = 5; nonce = 1 }))
          ∷ (id_of 4, Account.hash sample_digest (record { id = id_of 4; balance = 0; nonce = 0 }))
          ∷ stored_leaves,
    )
    ∷ (sample_root 0, stored_leaves)
    ∷ []

abbrev second_run : System outside
second_run = record second_submitted {
  tree = two_roots;
  headroot = some (sample_root 1);
  block_counter = 1;
  pc = executed 0 (sample_root 1) (sample_root 0) second_batch;
}

abbrev second_ahead : System outside
second_ahead = record second_run {
  optimistic = sample_root 1;
  pc = headed 0 (sample_root 1) (sample_root 0) second_batch;
}

abbrev second_block : PendingBlock
second_block = record {
  block_number = 0;
  txs = later_tx ∷ [];
  deposits = other_deposit ∷ [];
  forced_txs = [];
  pre_state_root = sample_root 0;
  post_state_root = sample_root 1;
}

abbrev second_unstored : System outside
second_unstored = record second_ahead { mempool = []; pc = drained second_block }

abbrev second_asleep : System outside
second_asleep = record second_unstored {
  queue = (commit_optimistic_block sample_rocks sample_blocks empty second_block 1).0;
  pc = sleeping;
}

second_fetch_runs : advance outside newer_l1 second_submitted ≡ second_fetched
unfolding move fetch_new_deposits fetch_new_forced_txs get_deposits get_forced_transactions collect
    address_to_hash
second_fetch_runs = refl

second_copy_runs : advance outside newer_l1 second_fetched ≡ second_copied
unfolding move
second_copy_runs = refl

second_head_runs : advance outside newer_l1 second_copied ≡ second_reading
unfolding move
second_head_runs = refl

second_batch_runs :
    apply_optimistic_batch sample_digest sample_db sample_codec sample_order no_text one_root
      (some (sample_root 0))
      (later_tx ∷ [])
      (other_deposit ∷ [])
      []
    ≡ (two_roots, ok (sample_root 1))
unfolding one_root two_roots apply_optimistic_batch Executor.new Executor.apply_deposit
    Executor.apply_forced_tx Executor.apply_transaction Executor.commit_block Executor.put
    Executor.update_cache_success Executor.settle Executor.settle_deposit
    Executor.get_account_helper get_account lookup insert sample_db sample_order sample_codec
    bytes_eq Account.new Apply.apply_deposit Apply.apply_transaction to_be_bytes
second_batch_runs = refl

second_execute_runs : advance outside newer_l1 second_reading ≡ second_run
unfolding move
second_execute_runs =
    ap (λ r. after_batch outside (sample_root 0) second_batch r second_reading) second_batch_runs

second_write_runs : advance outside newer_l1 second_run ≡ second_ahead
unfolding move
second_write_runs = refl

second_drain_runs : advance outside newer_l1 second_ahead ≡ second_unstored
unfolding move
second_drain_runs = refl

second_store_runs : advance outside newer_l1 second_unstored ≡ second_asleep
unfolding move commit_optimistic_block empty sample_rocks sample_blocks
second_store_runs = refl

reach_again : Reach outside again second_asleep (later_tx ∷ []) (second_block ∷ [])
unfolding handle_submit_tx
reach_again = step newer_l1 second_unstored second_asleep second_store_runs (
    step newer_l1 second_ahead second_unstored second_drain_runs (
      step newer_l1 second_run second_ahead second_write_runs (
        step newer_l1 second_reading second_run second_execute_runs (
          step newer_l1 second_copied second_reading second_head_runs (
            step newer_l1 second_fetched second_copied second_copy_runs (
              step newer_l1 second_submitted second_fetched second_fetch_runs
                (Reach.submits later_tx Reach.starts)))))))

changed : bytes_eq default (sample_root 0) ≡ false
unfolding bytes_eq to_be_bytes
changed = refl

restart_skips_block_example :
    (again.optimistic ≡ first_block.post_state_root)
    × (again.proven ≡ first_block.post_state_root)
    × (second_block.pre_state_root ≢ last_root default [])
restart_skips_block_example =
    restart_skips_block outside default started unstored again second_asleep
      (payment ∷ later_tx ∷ []) (later_tx ∷ []) [] [] first_block second_block
      (start_up-IsStarted outside no_roots none empty waiting started start_up_runs) reach_unstored
      refl (λ e. cc (changed, (bytes_eq_iff _ _).1 e)) again_runs reach_again
