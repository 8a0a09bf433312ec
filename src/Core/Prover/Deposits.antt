-- ===== src/Core/Prover/Deposits.antt =====
-- Deposits for which `generate_proofs_for_block` (crates/core/src/lib.rs) returns a bundle that
-- `execute_transition` (crates/stf/src/lib.rs) refuses.
use tiny_sp1_rollup.Base.{
  ◌≡◌, refl, ap, sym, ◌∙◌, ◌≢◌, ℕ, ◌+◌, ◌≤◌, List, ◌∷◌, false, arith, ok, err, for_push,
  for_enumerate, first_round, bind_inv, ok-injective, Bool-cases, inl, inr,
}
use tiny_sp1_rollup.Base.Bytes.{bytes_eq, bytes_eq_iff, u64_mod}
use tiny_sp1_rollup.Stf.Digest.{Hash, Digest, default}
use tiny_sp1_rollup.Stf.Account
use tiny_sp1_rollup.Stf.Types.{
  StfError, merkle_proof_verification_failed, balance_overflow, Transaction, Deposit, ForcedTx,
}
use tiny_sp1_rollup.Stf.Apply.{apply_deposit}
use tiny_sp1_rollup.Stf.Commitment.{Abi}
use tiny_sp1_rollup.Stf.Merkle.{MerkleProof, climb, verify}
use tiny_sp1_rollup.Stf.Transition.{Proofs, deposit_round, execute_transition}
use tiny_sp1_rollup.Core.External.{StateTree, Codec}
use tiny_sp1_rollup.Core.Reads.{build_stf_proof, get_account, get_proof}
use tiny_sp1_rollup.Core.Prover.{
  ProofBundle, dummy_proof, root_after_deposit, prove_deposit, generate_proofs_for_block,
}
use tiny_sp1_rollup.Core.Prover.Bundle.{written, generate_proofs-Loops}

-- The proof of an absent account opens no root but that account's own hash.
pub fresh_unverified :
    (sha3 : Digest) (root key : Hash)
    → Account.hash sha3 (Account.new key) ≢ root
    → verify sha3 (dummy_proof key) root ≡ false
unfolding verify climb
fresh_unverified sha3 root key fresh = elim (Bool-cases (verify sha3 (dummy_proof key) root)) [
  | inl same ↦ absurd (fresh ((bytes_eq_iff _ _).0 same))
  | inr other ↦ other
]

module _ (sha3 : Digest) (db : StateTree) (codec : Codec) (tree : db.Tree) where
  build_stf_proof-default :
      (key : Hash) → build_stf_proof db codec tree default key ≡ ok (dummy_proof key)
  unfolding build_stf_proof get_account get_proof bytes_eq
  build_stf_proof-default key = refl

  -- The proof that a first deposit gets.
  pub first_proof :
      (root r : Hash) (d : Deposit) (ds : List Deposit) (ps : List MerkleProof) (p : MerkleProof)
      → build_stf_proof db codec tree root d.to ≡ ok p
      → for_push (prove_deposit sha3 db codec tree) root (d ∷ ds) ≡ ok (r, ps)
      → (qs : List MerkleProof) × (ps ≡ p ∷ qs)
  unfolding prove_deposit
  first_proof root r d ds ps p built e =
      let (s, qs, e₁, listed) = first_round _ root r d ds ps e in
      let (p', b, k) = bind_inv _ (build_stf_proof db codec tree root d.to) e₁ in
      let (next, _, k') =
        bind_inv _ (root_after_deposit sha3 root p' (apply_deposit p'.account d)) k in
      (
        qs,
        listed
            ∙ ap (λ x. x ∷ qs)
                (sym (ap (λ (x : Hash × MerkleProof). x.1) (ok-injective k'))
                  ∙ ok-injective (sym b ∙ built)),
      )

  -- A transition fails with the error of the first deposit.
  pub first_refused :
      (keccak : Digest) (abi : Abi) (root : Hash) (txs : List Transaction) (d : Deposit)
      (ds : List Deposit) (forced : List ForcedTx) (proofs : Proofs) (x : StfError)
      → deposit_round sha3 proofs.deposits 0 d root ≡ err x
      → execute_transition sha3 keccak abi root txs (d ∷ ds) forced proofs ≡ err x
  unfolding execute_transition for_enumerate
  first_refused keccak abi root txs d ds forced proofs x e = rw e

  pub unverified :
      (root : Hash) (d : Deposit) (p : MerkleProof) (ps : List MerkleProof)
      → verify sha3 p root ≡ false
      → deposit_round sha3 (p ∷ ps) 0 d root ≡ err merkle_proof_verification_failed
  unfolding deposit_round
  unverified root d p ps e = rw e

  -- The first deposits cannot be proven. On the empty state, whose root is the default hash, the
  -- account of a deposit is absent, and its proof has no siblings: unless the digest of a new
  -- account is the default hash, a bundle that is generated for a block on the empty state with a
  -- deposit makes the transition fail at the proof of the first deposit.
  pub genesis_deposit_refused :
      (keccak : Digest) (abi : Abi) (n : ℕ) (txs : List Transaction) (d : Deposit)
      (ds : List Deposit) (forced : List ForcedTx) (post : Hash) (bundle : ProofBundle)
      → Account.hash sha3 (Account.new d.to) ≢ default
      → generate_proofs_for_block sha3 db codec tree (record {
        block_number = n;
        txs = txs;
        deposits = d ∷ ds;
        forced_txs = forced;
        pre_state_root = default;
        post_state_root = post;
      })
        ≡ ok bundle
      → execute_transition sha3 keccak abi default txs (d ∷ ds) forced (written bundle)
        ≡ err merkle_proof_verification_failed
  genesis_deposit_refused keccak abi n txs d ds forced post bundle fresh e =
      let run = generate_proofs-Loops sha3 db codec tree _ bundle e in
      let (qs, listed) =
        first_proof default _ d ds run.deposits (dummy_proof d.to) (build_stf_proof-default d.to)
          run.deposits_loop in
      let held : bundle.proofs_deposits ≡ dummy_proof d.to ∷ qs =
        ap (λ (b : ProofBundle). b.proofs_deposits) (sym run.bundle-eq) ∙ listed in
      first_refused keccak abi default txs d ds forced (written bundle) _ (
        rw held
          (unverified default d (dummy_proof d.to) qs (fresh_unverified sha3 default d.to fresh)))

  overflowing :
      (root : Hash) (d : Deposit) (p : MerkleProof) (ps : List MerkleProof)
      → u64_mod ≤ p.account.balance + d.amount
      → (x : StfError) × (deposit_round sha3 (p ∷ ps) 0 d root ≡ err x)
  unfolding deposit_round apply_deposit
  overflowing root d p ps over = elim (Bool-cases (verify sha3 p root)) [
    | inl opens ↦ (balance_overflow, rw opens (ground arith))
    | inr other ↦ (merkle_proof_verification_failed, rw other)
  ]

  -- A deposit that overflows is skipped by `generate_proofs_for_block` and ends the guest. If the
  -- account that the first deposit of a block credits cannot hold its amount in 64 bits, then a
  -- bundle that is generated for the block makes the transition fail, whatever else the block has.
  pub overflowing_deposit_refused :
      (keccak : Digest) (abi : Abi) (n : ℕ) (txs : List Transaction) (d : Deposit)
      (ds : List Deposit) (forced : List ForcedTx) (pre post : Hash) (p : MerkleProof)
      (bundle : ProofBundle)
      → build_stf_proof db codec tree pre d.to ≡ ok p
      → u64_mod ≤ p.account.balance + d.amount
      → generate_proofs_for_block sha3 db codec tree (record {
        block_number = n;
        txs = txs;
        deposits = d ∷ ds;
        forced_txs = forced;
        pre_state_root = pre;
        post_state_root = post;
      })
        ≡ ok bundle
      → (x : StfError) × (execute_transition sha3 keccak abi pre txs
            (d ∷ ds)
            forced
            (written bundle)
          ≡ err x)
  overflowing_deposit_refused keccak abi n txs d ds forced pre post p bundle built over e =
      let run = generate_proofs-Loops sha3 db codec tree _ bundle e in
      let (qs, listed) = first_proof pre _ d ds run.deposits p built run.deposits_loop in
      let held : bundle.proofs_deposits ≡ p ∷ qs =
        ap (λ (b : ProofBundle). b.proofs_deposits) (sym run.bundle-eq) ∙ listed in
      let (x, failed) = overflowing pre d p qs over in
      (x, first_refused keccak abi pre txs d ds forced (written bundle) x (rw held failed))
