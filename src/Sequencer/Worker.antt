-- ===== src/Sequencer/Worker.antt =====
-- `AppState`, `main`, `handle_submit_tx` and `optimistic_worker_loop` of crates/sequencer/src/main.rs.
-- The worker moves one access of the shared state at a time; the handler, the prover's worker and
-- the users of the contract move in between. Printing and the waits are left out.
pub mod Reach
pub mod Mempool
pub mod Submitted
pub mod Chain
pub mod Restart
pub mod Pipeline
pub mod QueueSteps
pub mod InOrder
use tiny_sp1_rollup.Base.{
  ℕ, ◌+◌, ◌%◌, Bool, true, false, ◌&&◌, List, [], ◌∷◌, ◌++◌, String, Option, none, some, Outcome,
  ok, err, panic, ◌>>=◌, length, drop, ltb, if◌then◌else◌,
}
use tiny_sp1_rollup.Base.Bytes.{Bytes, u64_mod}
use tiny_sp1_rollup.Stf.Digest.{Hash, Digest, default}
use tiny_sp1_rollup.Stf.Account.{Account}
use tiny_sp1_rollup.Stf.Types.{Transaction, Deposit, ForcedTx}
use tiny_sp1_rollup.Stf.Commitment.{Abi, PublicValues}
use tiny_sp1_rollup.Contract.{Contract, Gateway}
use tiny_sp1_rollup.Core.Block.{PendingBlock}
use tiny_sp1_rollup.Core.Cache.{MapOrder}
use tiny_sp1_rollup.Core.External.{StateTree, Codec}
use tiny_sp1_rollup.Sequencer.Batch.{is_empty, apply_optimistic_batch}
use tiny_sp1_rollup.Sequencer.Error.{SequencerError}
use tiny_sp1_rollup.Sequencer.L1.{Bridge, fetch_new_deposits, fetch_new_forced_txs}
use tiny_sp1_rollup.Sequencer.Queue.{Rocks, BlockCodec, get_block_counter, commit_optimistic_block}

-- What the sequencer takes from other crates, and its configuration.
pub record Outside : Type 1 where
  pub sha3 : Digest
  pub keccak : Digest
  pub abi : Abi
  pub gateway : Gateway
  pub db : StateTree
  pub codec : Codec
  pub decode : Bytes → Option PublicValues
  pub iteration : MapOrder Account
  pub debug : Hash → String
  pub rocks : Rocks
  pub block_codec : BlockCodec
  pub deserialize : Bytes → Option ForcedTx
  pub l1_enabled : Bool

-- What a round of the optimistic worker takes from its mempool and from L1.
pub record Batch : Type 0 where
  pub txs : List Transaction
  pub deposits : List Deposit
  pub forced_txs : List ForcedTx

-- Where the optimistic worker stands, with the variables that are live there.
pub data Pc : Type 0 where
  sleeping : Pc
  fetched : List Deposit → List ForcedTx → Pc
  collected : Batch → Pc
  rooted : (pre_root : Hash) → Batch → Pc
  executed : (block_number : ℕ) → (new_root : Hash) → (pre_root : Hash) → Batch → Pc
  headed : (block_number : ℕ) → (new_root : Hash) → (pre_root : Hash) → Batch → Pc
  drained : PendingBlock → Pc
  crashed : Pc

-- `state.block_counter.fetch_add(1)` and `block_number + 1` on a u64
abbrev pub next_number : ℕ → ℕ
next_number n = (n + 1) % u64_mod

module _ (o : Outside) where
  -- `AppState`, the tree's head root in its database, the contract, and where the worker stands.
  pub record System : Type 0 where
    pub mempool : List Transaction
    pub proven : Hash
    pub optimistic : Hash
    pub tree : o.db.Tree
    pub headroot : Option Hash
    pub poisoned : Bool
    pub block_counter : ℕ
    pub queue : o.rocks.Db
    pub contract : Contract
    pub pc : Pc

  -- `tree.get_headroot()?`, with the empty root where there is none
  abbrev pub initial_root : Option Hash → Hash
  initial_root none = default
  initial_root (some root) = root

  -- `main`, up to the start of the workers.
  unfoldable pub start_up : o.db.Tree → Option Hash → o.rocks.Db → Contract → Outcome String System
  start_up tree headroot queue contract = do
    initial_block_counter ← get_block_counter o.rocks queue
    ok (record {
      mempool = [];
      proven = initial_root headroot;
      optimistic = initial_root headroot;
      tree = tree;
      headroot = some (initial_root headroot);
      poisoned = false;
      block_counter = initial_block_counter;
      queue = queue;
      contract = contract;
      pc = sleeping;
    })

  -- `mempool.push_back(tx)`
  unfoldable pub handle_submit_tx : Transaction → System → System
  handle_submit_tx tx s = record s { mempool = s.mempool ++ (tx ∷ []) }

  -- Both fetches have come back.
  abbrev pub after_fetches :
      Outcome String (List Deposit) → Outcome String (List ForcedTx) → System → System
  after_fetches (ok deposits) (ok forced_txs) s = record s { pc = fetched deposits forced_txs }
  after_fetches (ok deposits) (err e) s = record s { pc = crashed }
  after_fetches (ok deposits) panic s = record s { pc = crashed }
  after_fetches (err e) forced_txs s = record s { pc = crashed }
  after_fetches panic forced_txs s = record s { pc = crashed }

  -- The closure of `spawn_blocking` after the lock: a panic under the lock poisons it.
  abbrev pub after_batch : Hash → Batch → o.db.Tree × Outcome SequencerError Hash → System → System
  after_batch pre_root batch (tree', ok new_root) s = record s {
    tree = tree';
    headroot = some new_root;
    block_counter = next_number s.block_counter;
    pc = executed s.block_counter new_root pre_root batch;
  }
  after_batch pre_root batch (tree', err e) s = record s { tree = tree'; pc = crashed }
  after_batch pre_root batch (tree', panic) s = record s {
    tree = tree';
    poisoned = true;
    pc = crashed;
  }

  abbrev pub execute_locked : Hash → Batch → Bool → System → System
  execute_locked pre_root batch true s = record s { pc = crashed }
  execute_locked pre_root batch false s =
      after_batch pre_root batch
        (apply_optimistic_batch o.sha3 o.db o.codec o.iteration o.debug s.tree (some pre_root)
          batch.txs batch.deposits batch.forced_txs)
        s

  abbrev pub after_commit : o.rocks.Db × Outcome String (Unit {0}) → System → System
  after_commit (queue', ok u) s = record s { queue = queue'; pc = sleeping }
  after_commit (queue', err e) s = record s { queue = queue'; pc = crashed }
  after_commit (queue', panic) s = record s { queue = queue'; pc = crashed }

  -- The block of a round.
  abbrev pub block_of : ℕ → Hash → Hash → Batch → PendingBlock
  block_of block_number new_root pre_root batch = record {
    block_number = block_number;
    txs = batch.txs;
    deposits = batch.deposits;
    forced_txs = batch.forced_txs;
    pre_state_root = pre_root;
    post_state_root = new_root;
  }

  -- One move of `optimistic_worker_loop` from where it stands.
  unfoldable pub move : Bridge → Pc → System → System
  move bridge sleeping s =
      if o.l1_enabled
      then after_fetches (fetch_new_deposits bridge) (fetch_new_forced_txs o.deserialize bridge) s
      else record s { pc = fetched [] [] }
  move bridge (fetched deposits forced_txs) s =
      if is_empty s.mempool && (is_empty deposits && is_empty forced_txs)
      then record s { pc = sleeping }
      else record s {
        pc = collected (record { txs = s.mempool; deposits = deposits; forced_txs = forced_txs });
      }
  move bridge (collected batch) s = record s { pc = rooted s.optimistic batch }
  move bridge (rooted pre_root batch) s = execute_locked pre_root batch s.poisoned s
  move bridge (executed block_number new_root pre_root batch) s = record s {
    optimistic = new_root;
    pc = headed block_number new_root pre_root batch;
  }
  move bridge (headed block_number new_root pre_root batch) s =
      if ltb (length s.mempool) (length batch.txs) then record s { pc = crashed } else record s {
        mempool = drop (length batch.txs) s.mempool;
        pc = drained (block_of block_number new_root pre_root batch);
      }
  move bridge (drained block) s =
      after_commit
        (commit_optimistic_block o.rocks o.block_codec s.queue block
          (next_number block.block_number))
        s
  move bridge crashed s = record s { pc = crashed }

  abbrev pub advance : Bridge → System → System
  advance bridge s = move bridge s.pc s
