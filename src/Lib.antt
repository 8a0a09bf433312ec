-- ===== src/Lib.antt =====
-- tiny-sp1-rollup, a small zk-rollup: a state transition function that runs inside the SP1 zkVM, a
-- sequencer that executes blocks off chain, and an L1 contract that checks the proofs.
--
-- How the parts interact. Users and the L1 contract give a block its transactions, deposits and
-- forced transactions. The block executor (crates/core) applies them to accounts that it reads from
-- a sparse Merkle tree and caches, and commits the leaves. Proof generation opens the tree for each
-- operation. The guest (crates/program) hands the operations and openings to the transition
-- function (crates/stf), which knows only roots, and commits the roots and two commitments to the
-- operations, which the contract (contracts/src/RollupBridge.sol) compares with its own arrays.
--
-- What models what:
--   Base               shared names, outcomes (`ok`, `err`, `panic`), byte strings, loops over
--                      `iter().enumerate()`.
--   Stf                crates/stf/src/lib.rs. Stf.Digest: `Hash`, Sha3_256 and Keccak256. Stf.Account:
--                      `Account::new`, `Account::hash`. Stf.Types: the other types. Stf.Apply:
--                      `apply_deposit`, `apply_transaction`, `apply_forced_tx`. Stf.Merkle:
--                      `hash_nodes`, `compute_new_root`, `MerkleProof::verify`. Stf.Commitment:
--                      `build_commitment`, `hash_deposits`, `hash_forced_txs`. Stf.Transition:
--                      `StateTransitioner::execute_transition`, a function for the rounds of each loop.
--   Program            crates/program/src/main.rs: `main`. Program.Stdin: its reads, and the writes of
--                      `process_and_prove_batch` to `SP1Stdin`.
--   Contract           contracts/src/RollupBridge.sol: the storage, the constructor, `deposit`,
--                      `forceTransaction`, `updateState`, `withdraw`, `getDeposits`,
--                      `getForcedTransactions`. Its pure functions and the checks of
--                      `updateState` on what the guest commits are in Stf.Commitment.Decode,
--                      Stf.Commitment.Layout and Program.Accepted;
--                      Contract.Accepts: a call of `updateState` that does not revert.
--   Core               crates/core/src. Core.Error: error.rs. Core.Block: types.rs, utils.rs.
--                      Core.Reads: `get_proof`, `get_account`, `build_stf_proof` of lib.rs.
--                      Core.Cache, Core.Executor: executor.rs, a function for each method of
--                      `BlockExecutor`. Core.Prover: `generate_proofs_for_block` of lib.rs, a
--                      function for the rounds of each loop; under it Replay and Agree: blocks
--                      whose reads open their roots; Hashes, Refused, Idle and Provable: which
--                      blocks that leaves over a tree of 32-byte hashes.
--   Sequencer          crates/sequencer/src/main.rs: `SequencerError`, `apply_optimistic_batch`.
--                      Sequencer.Queue: crates/sequencer/src/persistence.rs, `BlockQueueStore`;
--                      under it KeyOrder and Keys: the keys of RocksDB; Entries, Pending and Fifo:
--                      the pending blocks as a queue. Sequencer.L1: `fetch_new_deposits`,
--                      `fetch_new_forced_txs` of main.rs. Sequencer.Worker: `AppState`, `main`,
--                      `handle_submit_tx`, and `optimistic_worker_loop`, which moves one access of
--                      the shared state at a time; Sequencer.Worker.Reach: all tasks interleaved;
--                      Sequencer.Worker.Pipeline: the same with the prover's worker at the queue.
--                      Sequencer.Prove: `process_and_prove_batch`, `submit_proof_to_l1`, the loop
--                      over the retries and a round of `prover_worker_loop`. Sequencer.Config:
--                      crates/sequencer/src/config.rs. Sequencer.Launch: `main` up to the start of
--                      the workers, and `open_db` of persistence.rs.
--   Script             crates/script/src/bin/main.rs: `main`. Script.Evm: evm.rs beside it.
--   Tests              sample data and the theorems applied to it.
--
-- Numbers. A u64 or u32 is a natural number with its range as a hypothesis where one is needed;
-- `checked_add` tests against 2^64, and the nonce's `+= 1` wraps, as it does in a release build (a
-- debug build panics at the last nonce). A hash is a list of bytes. The loop over the retries
-- (`retry_loop`) is on fuel, for its three rounds, and never runs out of them; every other loop is
-- over a list, and the endless loops of the workers are steps of a relation, or, where the prover's
-- worker alone runs, a number of its rounds (`prover_rounds`): one for each block is enough.
--
-- Parameters. The digests (`Digest`: 32 bytes out, each below 256; no theorem assumes that they
-- have no collisions, and where that matters a collision is a possible conclusion), the ABI
-- encodings (`Abi`), monotree (`StateTree`, with the laws `InsertsLeaves` of its batch
-- insertion and `StoresHashes` of its leaves, which have 32 bytes),
-- bincode (`Codec`, with the law `DecodesWhole`: an input shorter than an account fails), the order
-- of iteration of a HashMap (`MapOrder`: each entry once), and RocksDB with the bincode of blocks
-- (`Rocks`, `BlockCodec`, with the laws `StoresBatches` of a written batch and `StoresKeys` of a
-- put and a delete, `IteratesInOrder` of an iterator from the start, `IsAvailable` of a disk
-- that does not fail, and `RoundTrips` of the bincode of blocks).
-- A read of the tree is taken to leave what later reads see. The verifier's gateway with
-- `abi.decode` and `MerkleProof.verify` (`Gateway`), the calls of the contract with their retries
-- (`Bridge`), and what the SP1 prover and the transaction to L1 come to in one attempt (`Attempt`);
-- the law `IsHonest` of an attempt is what SP1 documents, that a proof's public values are what the
-- program has committed, and that both decoders of the public values decode what is encoded. The
-- law `IsReliable` is that of an attempt in which nothing fails. The standard input of the zkVM
-- (`Stdio`, with the law `ReadsBack`: reads give the writes in order), the SP1 client, files and
-- formats of the command line tools (`Client` with the law `RunsGuest`, `Files`, `EvmClient`), what
-- the configuration is built from (`Sources`), and what the sequencer's start takes from the
-- machine (`Machine`).
--
-- Not modelled: printing, waits and backoff; the sequencer's HTTP routing; the parsing of arguments
-- by clap; vkey.rs of the command line tools, which is one call of the SP1 SDK; and the
-- contract's events, its balance (whether a transfer succeeds is an argument) and `reclaimDeposit`,
-- which always reverts. Where all tasks are interleaved, the prover's attempts and its writes to
-- the queue are moves of their own, in any order (`Reach`); where its worker takes blocks from the
-- queue (`Runs`), it attempts, removes or notes as failed only the block that it has seen, each
-- write of the queue is done, and the optimistic worker has not ended.
pub mod Base
pub mod Stf
pub mod Program
pub mod Contract
pub mod Core
pub mod Tests
pub mod Sequencer
pub mod Script
