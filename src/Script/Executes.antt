-- ===== src/Script/Executes.antt =====
-- The command line tool of crates/script/src/bin/main.rs on a block that changes nothing.
use tiny_sp1_rollup.Base.{
  ◌≡◌, refl, ◌∙◌, ℕ, ◌%◌, Bool, true, false, Option, some, ok, String, length,
}
use tiny_sp1_rollup.Base.Bytes.{Bytes, u32_mod}
use tiny_sp1_rollup.Stf.Digest.{Digest}
use tiny_sp1_rollup.Stf.Commitment.{Abi, PublicValues}
use tiny_sp1_rollup.Core.Block.{PendingBlock}
use tiny_sp1_rollup.Core.External.{StateTree, Codec}
use tiny_sp1_rollup.Core.Prover.{ProofBundle}
use tiny_sp1_rollup.Core.Prover.Agree.{BlockReplay, generated_bundle_accepted}
use tiny_sp1_rollup.Core.Prover.Idle.{IsIdle}
use tiny_sp1_rollup.Program.{public_values}
use tiny_sp1_rollup.Program.Stdin.{Stdio, ReadsBack, stdin_of, entry, entry-stdin_of}
use tiny_sp1_rollup.Sequencer.Prove.Progress.{main-commits}
use tiny_sp1_rollup.Script.{Args, Client, Files, Ended, executed, verified, returned}

module _ (io : Stdio) (client : Client io.Stdin) (decode : Bytes → Option PublicValues)
    (sha3 keccak : Digest) (abi : Abi) where
  -- What SP1 documents of a client: it runs the guest, and what it proves can be verified. The
  -- decoder decodes what is encoded.
  pub record RunsGuest : Type 0 where
    pub key : client.ProvingKey
    pub sets_up : client.setup ≡ ok key
    pub executes :
        (stdin : io.Stdin) (values : Bytes)
        → entry io sha3 keccak abi stdin ≡ some values
        → (cycles : ℕ) × (client.execute stdin ≡ ok (values, cycles))
    pub proves :
        (stdin : io.Stdin) (values : Bytes)
        → entry io sha3 keccak abi stdin ≡ some values
        → (proof : client.Proof) × (client.prove key stdin ≡ ok proof)
          × (client.verify proof key ≡ ok tt)
    pub decodes : (v : PublicValues) → decode (abi.encode_public_values v) ≡ some v

  module _ (db : StateTree) (codec : Codec) (files : Files db.Tree) (laws : ReadsBack io)
      (guest : RunsGuest) where
    -- The file has a block that changes nothing, and the path can be read.
    pub record IsReadable (args : Args files.FilePath) (block : PendingBlock) : Type 0 where
      pub file : Bytes
      pub opens : files.open_file args.block_data ≡ some file
      pub reads : files.from_reader file ≡ some block
      pub path : String
      pub named : files.to_str args.db_path ≡ some path
      pub idle : IsIdle block

    -- The guest commits, on what the tool writes, values with the block's root.
    committed :
        (block : PendingBlock) (tree : db.Tree) (bundle : ProofBundle)
        → BlockReplay sha3 db codec tree block bundle
        → (v : PublicValues) × (entry io sha3 keccak abi (stdin_of io block bundle)
            ≡ some (abi.encode_public_values v))
          × (v.post_state_root ≡ block.post_state_root)
    unfolding public_values
    committed block tree bundle replay =
        let (_, done) =
          generated_bundle_accepted sha3 db codec tree keccak abi block bundle replay in
        (
          public_values block.pre_state_root _ (length block.deposits % u32_mod)
              (length block.forced_txs % u32_mod),
          entry-stdin_of io sha3 keccak abi laws block bundle
              ∙ main-commits sha3 keccak abi _ _ _ _ _ _ done,
          refl,
        )

    -- What the tool reports under `--execute`, and else.
    abbrev pub Reports : Bool → PendingBlock → Ended → Type 0
    Reports true block end =
        (cycles : ℕ) × (end ≡ returned (ok (executed block.post_state_root cycles)))
    Reports false block end = end ≡ returned (ok verified)
