-- ===== src/Tests/ScriptTests.antt =====
-- The theorems on the guest's inputs and on the command line tools, at a standard input that is the
-- list of its values and at clients that run the guest.
use tiny_sp1_rollup.Base.{
  ◌≡◌, refl, ap, ℕ, List, [], ◌∷◌, ◌++◌, true, false, String, Option, none, some, Outcome, ok, err,
  panic,
}
use tiny_sp1_rollup.Base.Bytes.{Bytes}
use tiny_sp1_rollup.Stf.Digest.{Hash, sample_digest}
use tiny_sp1_rollup.Stf.Types.{Transaction, Deposit, ForcedTx}
use tiny_sp1_rollup.Stf.Merkle.{MerkleProof}
use tiny_sp1_rollup.Core.Prover.Bundle.{written}
use tiny_sp1_rollup.Program
use tiny_sp1_rollup.Program.Stdin.{
  Value, root, transactions, deposits, forced_transactions, merkle_proofs, Stdio, ReadsBack,
  stdin_of, entry, entry-stdin_of,
}
use tiny_sp1_rollup.Script
use tiny_sp1_rollup.Script.{Args, Client, Files}
use tiny_sp1_rollup.Script.Evm.{groth16, EvmClient, evm_main, evm_main_panics}
use tiny_sp1_rollup.Tests.Guest.{guest_abi, decode}
use tiny_sp1_rollup.Tests.ProverTests.{block, bundle}
use tiny_sp1_rollup.Tests.IdleTests.{skipping}
use tiny_sp1_rollup.Tests.SequencerTests.{no_roots}
use tiny_sp1_rollup.Tests.Store.{sample_db}

abbrev Input : Type 0
Input = List Value

abbrev read_root : Input → Option (Hash × Input)
read_root (root a ∷ rest) = some (a, rest)
read_root _ = none

abbrev read_transactions : Input → Option (List Transaction × Input)
read_transactions (transactions a ∷ rest) = some (a, rest)
read_transactions _ = none

abbrev read_deposits : Input → Option (List Deposit × Input)
read_deposits (deposits a ∷ rest) = some (a, rest)
read_deposits _ = none

abbrev read_forced_transactions : Input → Option (List ForcedTx × Input)
read_forced_transactions (forced_transactions a ∷ rest) = some (a, rest)
read_forced_transactions _ = none

abbrev read_merkle_proofs : Input → Option (List MerkleProof × Input)
read_merkle_proofs (merkle_proofs a ∷ rest) = some (a, rest)
read_merkle_proofs _ = none

abbrev sample_io : Stdio
sample_io = record {
  Stdin = Input;
  new = [];
  write = λ s v. s ++ (v ∷ []);
  read_root = read_root;
  read_transactions = read_transactions;
  read_deposits = read_deposits;
  read_forced_transactions = read_forced_transactions;
  read_merkle_proofs = read_merkle_proofs;
}

sample_reads : ReadsBack sample_io
sample_reads = record {
  buffers = λ s. s;
  buffers-new = refl;
  buffers-write = λ s v. refl;
  read_root-buffers = λ s a rest e. (rest, ap read_root e, refl);
  read_transactions-buffers = λ s a rest e. (rest, ap read_transactions e, refl);
  read_deposits-buffers = λ s a rest e. (rest, ap read_deposits e, refl);
  read_forced_transactions-buffers = λ s a rest e. (rest, ap read_forced_transactions e, refl);
  read_merkle_proofs-buffers = λ s a rest e. (rest, ap read_merkle_proofs e, refl);
  read_deposits-empty = λ s e. ap read_deposits e;
}

entry-stdin_of_example :
    entry sample_io sample_digest sample_digest guest_abi (stdin_of sample_io block bundle)
    ≡ Program.main sample_digest sample_digest guest_abi block.pre_state_root block.txs
        block.deposits block.forced_txs
        (written bundle)
entry-stdin_of_example =
    entry-stdin_of sample_io sample_digest sample_digest guest_abi sample_reads block bundle

-- A run of the guest, as a client tells it.
abbrev run_of : Option Bytes → Outcome String (Bytes × ℕ)
run_of none = err "the program panicked"
run_of (some values) = ok (values, 1000)

abbrev proof_of : Option Bytes → Outcome String Bytes
proof_of none = err "the program panicked"
proof_of (some values) = ok values

abbrev sample_client : Client Input
sample_client = record {
  ProvingKey = Unit {0};
  Proof = Bytes;
  execute = λ stdin. run_of (entry sample_io sample_digest sample_digest guest_abi stdin);
  setup = ok tt;
  prove = λ pk stdin. proof_of (entry sample_io sample_digest sample_digest guest_abi stdin);
  verify = λ proof pk. ok tt;
}

abbrev sample_files : Files sample_db.Tree
sample_files = record {
  FilePath = String;
  open_file = λ path. some [];
  from_reader = λ content. some skipping;
  to_str = λ path. some path;
  debug = λ path. path;
  new_tree = λ path. no_roots;
}

abbrev execute_args : Args String
execute_args = record {
  execute = true;
  prove = false;
  block_data = "block.json";
  db_path = "../sequencer/db/state_tree_db";
}

abbrev evm_client : EvmClient Input
evm_client = record {
  ProvingKey = Unit {0};
  Proof = Bytes;
  setup = ok tt;
  prove = λ pk stdin system. proof_of (entry sample_io sample_digest sample_digest guest_abi stdin);
  public_values = λ proof. proof;
  bytes = λ proof. [];
  vkey_bytes32 = λ pk. "0x00";
  decode = decode;
  encode_hex = λ b. "";
  to_string_pretty = λ fixture. some "{}";
  create_dir_all = λ path. ok tt;
  write_file = λ path text. ok tt;
}

proof_of_lem : (o : Option Bytes) (proof : Bytes) → proof_of o ≡ ok proof → o ≡ some proof
proof_of_lem none proof e = cc e
proof_of_lem (some values) proof e = cc e

evm_main_panics_example :
    evm_main sample_io evm_client "fixtures" (record { n = 20; system = groth16 }) ≡ panic
evm_main_panics_example =
    evm_main_panics sample_io evm_client "fixtures" sample_digest sample_digest guest_abi
      sample_reads (λ pk stdin system proof e. proof_of_lem _ proof e)
      (record { n = 20; system = groth16 })
