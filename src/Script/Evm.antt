-- ===== src/Script/Evm.antt =====
-- crates/script/src/bin/evm.rs, which proves one fixed block for Solidity and writes the proof to a
-- fixture. The SP1 client, hex, JSON and the file system are parameters; printing is left out.
use tiny_sp1_rollup.Base.{
  ◌≡◌, ◌≢◌, refl, ℕ, [], ◌∷◌, String, append, Option, none, some, Outcome, ok, err, panic, ◌>>=◌,
  ◌>>◌, replicate, unwrap,
}
use tiny_sp1_rollup.Base.Bytes.{Bytes}
use tiny_sp1_rollup.Stf.Digest.{Digest, default}
use tiny_sp1_rollup.Stf.Types.{Transaction}
use tiny_sp1_rollup.Stf.Commitment.{Abi, PublicValues}
use tiny_sp1_rollup.Program.Stdin.{Stdio, ReadsBack, root, transactions, entry}

pub data ProofSystem : Type 0 where
  plonk groth16 : ProofSystem

pub record EvmArgs : Type 0 where
  pub n : ℕ
  pub system : ProofSystem

pub record Sp1RollupProofFixture : Type 0 where
  pub pre_state_root : String
  pub post_state_root : String
  pub vkey : String
  pub public_values : String
  pub proof : String

-- The client, with the parts of a proof and of a key, and what the fixture is made with. A file is
-- written or not.
pub record EvmClient (Stdin : Type 0) : Type 1 where
  pub ProvingKey : Type 0
  pub Proof : Type 0
  pub setup : Outcome String ProvingKey
  pub prove : ProvingKey → Stdin → ProofSystem → Outcome String Proof
  pub public_values : Proof → Bytes
  pub bytes : Proof → Bytes
  pub vkey_bytes32 : ProvingKey → String
  pub decode : Bytes → Option PublicValues
  pub encode_hex : Bytes → String
  pub to_string_pretty : Sp1RollupProofFixture → Option String
  pub create_dir_all : String → Outcome String (Unit {0})
  pub write_file : String → String → Outcome String (Unit {0})

-- `.expect(…)` of a result
abbrev pub expected : {A : Type 0} → Outcome String A → Outcome String A
expected (ok a) = ok a
expected (err e) = panic
expected panic = panic

-- `format!("{:?}-fixture.json", system).to_lowercase()`
abbrev pub fixture_name : ProofSystem → String
fixture_name plonk = "plonk-fixture.json"
fixture_name groth16 = "groth16-fixture.json"

-- The one transaction that the tool proves.
abbrev pub sample_transaction : Transaction
sample_transaction = record {
  from = replicate 32 1;
  to = replicate 32 2;
  nonce = 0;
  fee = 0;
  amount = 100;
}

module _ (io : Stdio) (client : EvmClient io.Stdin) (fixture_path : String) where
  unfoldable pub create_proof_fixture :
      client.Proof → client.ProvingKey → ProofSystem → Outcome String (Unit {0})
  create_proof_fixture proof pk system = do
    decoded_values ← unwrap (client.decode (client.public_values proof))
    expected (client.create_dir_all fixture_path)
    text ← unwrap (
        client.to_string_pretty (record {
          pre_state_root = append "0x" (client.encode_hex decoded_values.pre_state_root);
          post_state_root = append "0x" (client.encode_hex decoded_values.post_state_root);
          vkey = client.vkey_bytes32 pk;
          public_values = append "0x" (client.encode_hex (client.public_values proof));
          proof = append "0x" (client.encode_hex (client.bytes proof));
        }))
    expected (client.write_file (append fixture_path (append "/" (fixture_name system))) text)

  -- The inputs that `main` writes.
  unfoldable pub evm_stdin : io.Stdin
  evm_stdin = io.write (io.write io.new (root default)) (transactions (sample_transaction ∷ []))

  -- `main`
  unfoldable pub evm_main : EvmArgs → Outcome String (Unit {0})
  evm_main args = do
    pk ← expected client.setup
    proof ← expected (client.prove pk evm_stdin args.system)
    create_proof_fixture proof pk args.system

  module _ (sha3 keccak : Digest) (abi : Abi) (laws : ReadsBack io) where
    -- The guest on these inputs panics at its third read.
    entry-evm_stdin : entry io sha3 keccak abi evm_stdin ≡ none
    unfolding entry evm_stdin
    entry-evm_stdin =
        let written : laws.buffers
              (io.write (io.write io.new (root default)) (transactions (sample_transaction ∷ [])))
            ≡ root default ∷ transactions (sample_transaction ∷ []) ∷ [] =
          simp (laws.buffers-write, laws.buffers-new) in
        let (s₁, e₁, r₁) = laws.read_root-buffers _ _ _ written in
        let (s₂, e₂, r₂) = laws.read_transactions-buffers s₁ _ _ r₁ in
        rw (e₁, e₂, laws.read_deposits-empty s₂ r₂)

    failed :
        (pk : Outcome String client.ProvingKey)
        (rest : client.ProvingKey → Outcome String (Unit {0}))
        → ((k : client.ProvingKey) → rest k ≡ panic)
        → (expected pk >>= rest) ≡ panic
    failed (ok k) rest h = h k
    failed (err e) rest h = refl
    failed panic rest h = refl

    unproven :
        (proof : Outcome String client.Proof) (rest : client.Proof → Outcome String (Unit {0}))
        → ((p : client.Proof) → proof ≢ ok p)
        → (expected proof >>= rest) ≡ panic
    unproven (ok p) rest h = absurd (h p refl)
    unproven (err e) rest h = refl
    unproven panic rest h = refl

    -- The tool never writes a fixture: it panics, with either proof system, whatever the arguments,
    -- if a client proves only runs of the guest that commit values. It writes two of the nine inputs
    -- that the guest reads.
    pub evm_main_panics :
        ((pk : client.ProvingKey) (stdin : io.Stdin) (system : ProofSystem) (proof : client.Proof)
          → client.prove pk stdin system ≡ ok proof
          → entry io sha3 keccak abi stdin ≡ some (client.public_values proof))
        → (args : EvmArgs) → evm_main args ≡ panic
    unfolding evm_main
    evm_main_panics sound args = failed client.setup _ λ pk.
        unproven (client.prove pk evm_stdin args.system) _
          λ proof made. cc (entry-evm_stdin, sound pk evm_stdin args.system proof made)
