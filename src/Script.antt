-- ===== src/Script.antt =====
-- The command line tool of crates/script/src/bin/main.rs: it proves or executes the guest on a block
-- that it reads from a file. The files, clap and the SP1 client are parameters.
pub mod Executes
pub mod Evm
use tiny_sp1_rollup.Base.{
  ℕ, Bool, true, false, String, append, Option, Outcome, ok, err, panic, ◌>>=◌, ◌>>◌, map_err,
  ok_or, if◌then◌else◌,
}
use tiny_sp1_rollup.Base.Bytes.{Bytes}
use tiny_sp1_rollup.Stf.Digest.{Hash, Digest}
use tiny_sp1_rollup.Stf.Commitment.{PublicValues}
use tiny_sp1_rollup.Core.Block.{PendingBlock}
use tiny_sp1_rollup.Core.External.{StateTree, Codec}
use tiny_sp1_rollup.Core.Prover.{generate_proofs_for_block}
use tiny_sp1_rollup.Program.Stdin.{Stdio, stdin_of}

-- The arguments; a path is a parameter.
pub record Args (FilePath : Type 0) : Type 0 where
  pub execute : Bool
  pub prove : Bool
  pub block_data : FilePath
  pub db_path : FilePath

-- `ProverClient::from_env()`: `execute` gives the public values and the number of instructions,
-- `setup` a proving key.
pub record Client (Stdin : Type 0) : Type 1 where
  pub ProvingKey : Type 0
  pub Proof : Type 0
  pub execute : Stdin → Outcome String (Bytes × ℕ)
  pub setup : Outcome String ProvingKey
  pub prove : ProvingKey → Stdin → Outcome String Proof
  pub verify : Proof → ProvingKey → Outcome String (Unit {0})

-- The file system and its formats: the content of a file, the block in it, the text of a path, and
-- the tree that `Monotree::new` opens.
pub record Files (Tree : Type 0) : Type 1 where
  pub FilePath : Type 0
  pub open_file : FilePath → Option Bytes
  pub from_reader : Bytes → Option PendingBlock
  pub to_str : FilePath → Option String
  pub debug : FilePath → String
  pub new_tree : String → Tree

-- What the tool tells: the root and the instructions of an execution, or that a proof is verified.
pub data Report : Type 0 where
  executed : (post_state_root : Hash) → (cycles : ℕ) → Report
  verified : Report

-- How the process ends: by `std::process::exit`, or by the result of `main`.
pub data Ended : Type 0 where
  exited : (code : ℕ) → Ended
  returned : Outcome String Report → Ended

-- `args.execute == args.prove`
abbrev pub same : Bool → Bool → Bool
same true b = b
same false true = false
same false false = true

module _ (io : Stdio) (client : Client io.Stdin) (decode : Bytes → Option PublicValues) where
  -- `if args.execute`: execution, with the decoded output.
  unfoldable pub execute_program : io.Stdin → Outcome String Report
  execute_program stdin = do
    (output, cycles) ← client.execute stdin
    decoded ← ok_or (decode output) "abi_decode err"
    ok (executed decoded.post_state_root cycles)

  -- Its other branch: the key, the proof, and its verification.
  unfoldable pub prove_program : io.Stdin → Outcome String Report
  prove_program stdin = do
    pk ← client.setup
    proof ← client.prove pk stdin
    client.verify proof pk
    ok verified

  module _ (sha3 : Digest) (db : StateTree) (codec : Codec) (files : Files db.Tree) where
    -- `main` after the check of the flags.
    unfoldable pub run : Args files.FilePath → Outcome String Report
    unfolding execute_program prove_program
    run args = do
      file ←
          ok_or (files.open_file args.block_data)
            (append "main open block_data file err: " (files.debug args.block_data))
      block ← ok_or (files.from_reader file) "main from_reader err"
      db_path ← ok_or (files.to_str args.db_path) "main db_path to_str err"
      proofs ←
          map_err (λ e. "main generate_proofs_for_block err")
            (generate_proofs_for_block sha3 db codec (files.new_tree db_path) block)
      if args.execute
          then execute_program (stdin_of io block proofs)
          else prove_program (stdin_of io block proofs)

    -- `main`
    unfoldable pub main : Args files.FilePath → Ended
    main args = if same args.execute args.prove then exited 1 else returned (run args)
