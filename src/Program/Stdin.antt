-- ===== src/Program/Stdin.antt =====
-- The inputs of the guest (crates/program/src/main.rs): what its host writes to `SP1Stdin`, and the
-- reads with which `main` starts. `SP1Stdin` and `sp1_zkvm::io` are parameters.
use tiny_sp1_rollup.Base.{◌≡◌, List, [], ◌∷◌, ◌++◌, Option, none, some}
use tiny_sp1_rollup.Base.Bytes.{Bytes}
use tiny_sp1_rollup.Stf.Digest.{Hash, Digest}
use tiny_sp1_rollup.Stf.Types.{Transaction, Deposit, ForcedTx}
use tiny_sp1_rollup.Stf.Merkle.{MerkleProof}
use tiny_sp1_rollup.Stf.Commitment.{Abi}
use tiny_sp1_rollup.Core.Block.{PendingBlock}
use tiny_sp1_rollup.Core.Prover.{ProofBundle}
use tiny_sp1_rollup.Core.Prover.Bundle.{written}
use tiny_sp1_rollup.Program.{main}

-- A value that the host writes.
pub data Value : Type 0 where
  root : Hash → Value
  transactions : List Transaction → Value
  deposits : List Deposit → Value
  forced_transactions : List ForcedTx → Value
  merkle_proofs : List MerkleProof → Value

-- `SP1Stdin::new`, `stdin.write` and `sp1_zkvm::io::read` at the types that the guest reads; a read
-- that panics is `none`.
pub record Stdio : Type 1 where
  pub Stdin : Type 0
  pub new : Stdin
  pub write : Stdin → Value → Stdin
  pub read_root : Stdin → Option (Hash × Stdin)
  pub read_transactions : Stdin → Option (List Transaction × Stdin)
  pub read_deposits : Stdin → Option (List Deposit × Stdin)
  pub read_forced_transactions : Stdin → Option (List ForcedTx × Stdin)
  pub read_merkle_proofs : Stdin → Option (List MerkleProof × Stdin)

-- What a read of a value gives from what was written.
abbrev pub Gives :
    {A Stdin : Type 0} → (Stdin → List Value) → Option (A × Stdin) → A → List Value → Type 0
Gives {A} {Stdin} buffers result a rest = (s : Stdin) × (result ≡ some (a, s)) × (buffers s ≡ rest)

-- What SP1 documents: each write is a buffer, and the reads give the buffers in their order, at the
-- types of the writes; to read when no buffer is left is a panic.
pub record ReadsBack (io : Stdio) : Type 0 where
  pub buffers : io.Stdin → List Value
  pub buffers-new : buffers io.new ≡ []
  pub buffers-write : (s : io.Stdin) (v : Value) → buffers (io.write s v) ≡ buffers s ++ (v ∷ [])
  pub read_root-buffers :
      (s : io.Stdin) (a : Hash) (rest : List Value)
      → buffers s ≡ root a ∷ rest
      → Gives buffers (io.read_root s) a rest
  pub read_transactions-buffers :
      (s : io.Stdin) (a : List Transaction) (rest : List Value)
      → buffers s ≡ transactions a ∷ rest
      → Gives buffers (io.read_transactions s) a rest
  pub read_deposits-buffers :
      (s : io.Stdin) (a : List Deposit) (rest : List Value)
      → buffers s ≡ deposits a ∷ rest
      → Gives buffers (io.read_deposits s) a rest
  pub read_forced_transactions-buffers :
      (s : io.Stdin) (a : List ForcedTx) (rest : List Value)
      → buffers s ≡ forced_transactions a ∷ rest
      → Gives buffers (io.read_forced_transactions s) a rest
  pub read_merkle_proofs-buffers :
      (s : io.Stdin) (a : List MerkleProof) (rest : List Value)
      → buffers s ≡ merkle_proofs a ∷ rest
      → Gives buffers (io.read_merkle_proofs s) a rest
  pub read_deposits-empty : (s : io.Stdin) → buffers s ≡ [] → io.read_deposits s ≡ none

-- A read, and the program after it.
abbrev pub reading :
    {A Stdin : Type 0} → Option (A × Stdin) → (A → Stdin → Option Bytes) → Option Bytes
reading none rest = none
reading (some (a, s)) rest = rest a s

module _ (io : Stdio) where
  -- The writes of `process_and_prove_batch`, which the command line tool repeats.
  unfoldable pub stdin_of : PendingBlock → ProofBundle → io.Stdin
  stdin_of block proofs =
      let stdin = io.write io.new (root block.pre_state_root) in
      let stdin = io.write stdin (transactions block.txs) in
      let stdin = io.write stdin (deposits block.deposits) in
      let stdin = io.write stdin (forced_transactions block.forced_txs) in
      let stdin = io.write stdin (merkle_proofs proofs.proofs_deposits) in
      let stdin = io.write stdin (merkle_proofs proofs.proofs_forced_from) in
      let stdin = io.write stdin (merkle_proofs proofs.proofs_forced_to) in
      let stdin = io.write stdin (merkle_proofs proofs.proofs_txs_from) in
      io.write stdin (merkle_proofs proofs.proofs_txs_to)

  module _ (sha3 keccak : Digest) (abi : Abi) where
    -- The guest from its entry point: the nine reads, and `main` on what they give.
    unfoldable pub entry : io.Stdin → Option Bytes
    entry stdin = reading (io.read_root stdin) λ pre_state_root s₁.
        reading (io.read_transactions s₁) λ txs s₂. reading (io.read_deposits s₂) λ items s₃.
          reading (io.read_forced_transactions s₃) λ forced s₄.
            reading (io.read_merkle_proofs s₄) λ proofs_deposits s₅.
              reading (io.read_merkle_proofs s₅) λ proofs_forced_from s₆.
                reading (io.read_merkle_proofs s₆) λ proofs_forced_to s₇.
                  reading (io.read_merkle_proofs s₇) λ proofs_txs_from s₈.
                    reading (io.read_merkle_proofs s₈) λ proofs_txs_to s₉.
                      main sha3 keccak abi pre_state_root txs items forced (record {
                        deposits = proofs_deposits;
                        forced_from = proofs_forced_from;
                        forced_to = proofs_forced_to;
                        txs_from = proofs_txs_from;
                        txs_to = proofs_txs_to;
                      })

    module _ (laws : ReadsBack io) where
      -- What the nine writes leave.
      buffers-stdin_of :
          (b : PendingBlock) (p : ProofBundle)
          → laws.buffers (stdin_of b p)
            ≡ root b.pre_state_root
              ∷ transactions b.txs
              ∷ deposits b.deposits
              ∷ forced_transactions b.forced_txs
              ∷ merkle_proofs p.proofs_deposits
              ∷ merkle_proofs p.proofs_forced_from
              ∷ merkle_proofs p.proofs_forced_to
              ∷ merkle_proofs p.proofs_txs_from
              ∷ merkle_proofs p.proofs_txs_to
              ∷ []
      unfolding stdin_of
      buffers-stdin_of b p = simp (laws.buffers-write, laws.buffers-new)

      -- The guest reads what the host writes. On the standard input that the sequencer and the
      -- command line tool write for a block and its proofs, the guest's reads all succeed, and it
      -- commits what `main` commits on the block's root and operations and these proofs.
      pub entry-stdin_of :
          (b : PendingBlock) (p : ProofBundle)
          → entry (stdin_of b p)
            ≡ main sha3 keccak abi b.pre_state_root b.txs b.deposits b.forced_txs (written p)
      unfolding entry
      entry-stdin_of b p =
          let (s₁, e₁, r₁) = laws.read_root-buffers _ _ _ (buffers-stdin_of b p) in
          let (s₂, e₂, r₂) = laws.read_transactions-buffers s₁ _ _ r₁ in
          let (s₃, e₃, r₃) = laws.read_deposits-buffers s₂ _ _ r₂ in
          let (s₄, e₄, r₄) = laws.read_forced_transactions-buffers s₃ _ _ r₃ in
          let (s₅, e₅, r₅) = laws.read_merkle_proofs-buffers s₄ _ _ r₄ in
          let (s₆, e₆, r₆) = laws.read_merkle_proofs-buffers s₅ _ _ r₅ in
          let (s₇, e₇, r₇) = laws.read_merkle_proofs-buffers s₆ _ _ r₆ in
          let (s₈, e₈, r₈) = laws.read_merkle_proofs-buffers s₇ _ _ r₇ in
          let (_, e₉, _) = laws.read_merkle_proofs-buffers s₈ _ _ r₈ in
          rw (e₁, e₂, e₃, e₄, e₅, e₆, e₇, e₈, e₉)
