-- ===== src/Program.antt =====
-- The guest program, crates/program/src/main.rs. What `sp1_zkvm::io::read` returns are the
-- arguments, and what `commit_slice` takes is the result; `none` is a panic, which commits
-- nothing.
pub mod Accepted
pub mod Stdin
use tiny_sp1_rollup.Base.{ℕ, ◌%◌, List, Option, none, some, Outcome, ok, err, panic, length}
use tiny_sp1_rollup.Base.Bytes.{Bytes, u32_mod}
use tiny_sp1_rollup.Stf.Digest.{Hash, Digest}
use tiny_sp1_rollup.Stf.Types.{StfError, Transaction, Deposit, ForcedTx}
use tiny_sp1_rollup.Stf.Commitment.{Abi, PublicValues, build_commitment}
use tiny_sp1_rollup.Stf.Transition.{Proofs, execute_transition}

-- The values that `main` makes public after the transition.
unfoldable pub public_values : Hash → Hash × Hash × Hash → ℕ → ℕ → PublicValues
public_values pre (post, deposits_hash, forced_txs_hash) deposits_len forced_txs_len = record {
  pre_state_root = pre;
  post_state_root = post;
  deposits_commitment = build_commitment deposits_hash deposits_len;
  forced_txs_commitment = build_commitment forced_txs_hash forced_txs_len;
}

-- `.expect(…)`
abbrev pub expect : {E A : Type 0} → Outcome E A → Option A
expect (ok a) = some a
expect (err e) = none
expect panic = none

module _ (sha3 keccak : Digest) (abi : Abi) where
  -- `main`
  unfoldable pub main :
      Hash → List Transaction → List Deposit → List ForcedTx → Proofs → Option Bytes
  unfolding public_values
  main pre_state_root transactions deposits forced_transactions proofs =
      let deposits_len = length deposits % u32_mod in
      let forced_txs_len = length forced_transactions % u32_mod in
      elim (expect (
        execute_transition sha3 keccak abi pre_state_root transactions deposits forced_transactions
          proofs)) [
            | none ↦ none
            | some result ↦ some (
                abi.encode_public_values
                  (public_values pre_state_root result deposits_len forced_txs_len))
          ]
