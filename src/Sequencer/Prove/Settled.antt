-- ===== src/Sequencer/Prove/Settled.antt =====
-- The proven head of the sequencer and the state root of the contract: what one call of
-- `process_and_prove_batch` (crates/sequencer/src/main.rs) says of the other.
use tiny_sp1_rollup.Base.{
  ◌≡◌, ◌≢◌, refl, ap, sym, ◌∙◌, ℕ, Bool, true, List, String, Option, length, ◌%◌, none, some,
  Outcome, ok, err, panic, guard, ok_or, map_err, map_err-ok, second, guard_passed, bind_inv,
  ok-injective, Bool-cases, inl, inr,
}
use tiny_sp1_rollup.Base.Bytes.{Bytes, u32_mod, bytes_eq, bytes_eq_iff}
use tiny_sp1_rollup.Stf.Digest.{Hash, Digest}
use tiny_sp1_rollup.Stf.Types.{Transaction, Deposit, ForcedTx}
use tiny_sp1_rollup.Stf.Commitment.{Abi, PublicValues}
use tiny_sp1_rollup.Stf.Transition.{Proofs, execute_transition}
use tiny_sp1_rollup.Program.{public_values, expect, main}
use tiny_sp1_rollup.Contract.{Contract, Gateway, update_state}
use tiny_sp1_rollup.Contract.Invariant.{update_state-Updated}
use tiny_sp1_rollup.Core.Block.{PendingBlock}
use tiny_sp1_rollup.Core.External.{StateTree, Codec}
use tiny_sp1_rollup.Core.Prover.{ProofBundle, generate_proofs_for_block}
use tiny_sp1_rollup.Core.Prover.Bundle.{written}
use tiny_sp1_rollup.Sequencer.Prove.{
  ProveError, decode_error, root_mismatch, prove_error, Delivery, delivered, undelivered,
  receipt_lost, Attempt, ProverState, locked, submit_proof_to_l1, head_written, proved, finish,
  process_and_prove_batch,
}

-- What SP1 documents: the public values of a proof are those that the program has committed; and
-- what both decoders of the public values rely on: they decode what is encoded.
pub record IsHonest (sha3 keccak : Digest) (abi : Abi) (gateway : Gateway)
    (decode : Bytes → Option PublicValues) (attempt : Attempt) : Type 0 where
  pub commits :
      (pre : Hash) (txs : List Transaction) (deposits : List Deposit) (forced : List ForcedTx)
      (proofs : Proofs) (values proof : Bytes)
      → attempt.prove pre txs deposits forced proofs ≡ ok (values, proof)
      → main sha3 keccak abi pre txs deposits forced proofs ≡ some values
  pub decodes : (v : PublicValues) → decode (abi.encode_public_values v) ≡ some v
  pub gateway_decodes : (v : PublicValues) → gateway.decode (abi.encode_public_values v) ≡ some v

module _ (sha3 keccak : Digest) (abi : Abi) where
  committed_by :
      (pre : Hash) (n m : ℕ) (o : Option (Hash × Hash × Hash)) (committed : Bytes)
      → elim o [
        | none ↦ none
        | some result ↦ some (abi.encode_public_values (public_values pre result n m))
      ]
        ≡ some committed
      → (v : PublicValues) × (committed ≡ abi.encode_public_values v) × (v.pre_state_root ≡ pre)
  unfolding public_values
  committed_by pre n m (some r) committed e = (public_values pre r n m, cc, refl)
  committed_by pre n m none committed e = cc

  -- What the guest commits has the pre-state root that it was given.
  main_values :
      (pre : Hash) (txs : List Transaction) (deposits : List Deposit) (forced : List ForcedTx)
      (proofs : Proofs) (committed : Bytes)
      → main sha3 keccak abi pre txs deposits forced proofs ≡ some committed
      → (v : PublicValues) × (committed ≡ abi.encode_public_values v) × (v.pre_state_root ≡ pre)
  unfolding main
  main_values pre txs deposits forced proofs committed e =
      committed_by pre (length deposits % u32_mod) (length forced % u32_mod)
        (expect (execute_transition sha3 keccak abi pre txs deposits forced proofs)) committed e

  module _ (gateway : Gateway) where
    updated_roots :
        (c c' : Contract) (values proof : Bytes) (v : PublicValues)
        → gateway.decode values ≡ some v
        → update_state keccak abi gateway c values proof ≡ ok c'
        → (v.pre_state_root ≡ c.state_root) × (c'.state_root ≡ v.post_state_root)
    updated_roots c c' values proof v decoded e =
        let run = update_state-Updated keccak abi gateway values proof c c' e in
        let same : run.values ≡ v = cc (run.decoded, decoded) in
        (
          ap (λ (x : PublicValues). x.pre_state_root) (sym same) ∙ (bytes_eq_iff _ _).0 run.pre,
          ap (λ (x : Contract). x.state_root) (sym run.result)
              ∙ ap (λ (x : PublicValues). x.post_state_root) same,
        )

    pub stale_root :
        (c : Contract) (values proof : Bytes) (v : PublicValues)
        → gateway.decode values ≡ some v
        → v.pre_state_root ≢ c.state_root
        → update_state keccak abi gateway c values proof ≡ err "updateState: invalid pre-state root"
    unfolding update_state
    stale_root c values proof v decoded other =
        elim (Bool-cases (bytes_eq v.pre_state_root c.state_root)) [
          | inl same ↦ absurd (other ((bytes_eq_iff _ _).0 same))
          | inr no_match ↦ rw (decoded, no_match)
        ]

  module _ (gateway : Gateway) (db : StateTree) (codec : Codec)
      (decode : Bytes → Option PublicValues) (attempt : Attempt)
      (honest : IsHonest sha3 keccak abi gateway decode attempt) where
    -- What an attempt submits: the contract decodes it to values with the block's roots.
    pub proved_values :
        (l1_enabled : Bool) (block : PendingBlock) (proofs : Outcome ProveError ProofBundle)
        (values proof : Bytes) (root : Hash)
        → proved sha3 keccak abi gateway db codec decode l1_enabled attempt block proofs
          ≡ ok (values, proof, root)
        → (v : PublicValues) × (gateway.decode values ≡ some v)
          × (v.pre_state_root ≡ block.pre_state_root)
          × (v.post_state_root ≡ block.post_state_root)
          × (root ≡ block.post_state_root)
    unfolding proved
    proved_values l1_enabled block proofs values proof root e =
        let (bundle, _, e₁) = bind_inv _ proofs e in
        let ran =
          attempt.prove block.pre_state_root block.txs block.deposits block.forced_txs
            (written bundle) in
        let ((committed, bytes), made, e₂) = bind_inv _ (map_err prove_error ran) e₁ in
        let (w, decoded, e₃) = bind_inv _ (ok_or (decode committed) decode_error) e₂ in
        let (u, passed, done) =
          bind_inv _ (guard (bytes_eq w.post_state_root block.post_state_root) root_mismatch) e₃ in
        let (v, encoded, pre) =
          main_values block.pre_state_root block.txs block.deposits block.forced_txs
            (written bundle) committed
            (honest.commits _ _ _ _ _ committed bytes (map_err-ok prove_error ran made)) in
        let same : w ≡ v = cc (decoded, ap decode encoded, honest.decodes v) in
        let post : w.post_state_root ≡ block.post_state_root =
          (bytes_eq_iff _ _).0 (guard_passed _ _ u passed) in
        let out : committed ≡ values = ap (λ (r : Bytes × Bytes × Hash). r.0) (ok-injective done) in
        let out_root : w.post_state_root ≡ root =
          ap (λ (r : Bytes × Bytes × Hash). r.2) (ok-injective done) in
        (
          v,
          ap gateway.decode (sym out ∙ encoded) ∙ honest.gateway_decodes v,
          pre,
          ap (λ (x : PublicValues). x.post_state_root) (sym same) ∙ post,
          sym out_root ∙ post,
        )

    sent :
        (s s' : ProverState db.Tree) (root : Hash) (delivery : Delivery)
        (updated : Outcome String Contract)
        → head_written s root (submit_proof_to_l1 delivery s.contract updated) ≡ (s', ok tt)
        → (c : Contract) × (updated ≡ ok c) × (record s { contract = c; proven = root } ≡ s')
    sent s s' root delivered (ok c) e = (c, refl, λ i. (e i).0)
    sent s s' root delivered (err x) e = cc (ap second e)
    sent s s' root delivered panic e = cc (ap second e)
    sent s s' root undelivered updated e = cc (ap second e)
    sent s s' root receipt_lost updated e = cc (ap second e)

    module _ (block : PendingBlock) where
      -- The settled state: the contract was at the block's pre-state root, and is, as the proven
      -- head is, at its post-state root.
      abbrev pub IsSettled : ProverState db.Tree → ProverState db.Tree → Type 0
      IsSettled s s' =
          (s.contract.state_root ≡ block.pre_state_root)
          × (s'.contract.state_root ≡ block.post_state_root)
          × (s'.proven ≡ block.post_state_root)

      finish-IsSettled :
          (proofs : Outcome ProveError ProofBundle) (m : Outcome ProveError (Bytes × Bytes × Hash))
          (s s' : ProverState db.Tree)
          → proved sha3 keccak abi gateway db codec decode true attempt block proofs ≡ m
          → finish sha3 keccak abi gateway db codec decode true attempt m s ≡ (s', ok tt)
          → IsSettled s s'
      unfolding finish
      finish-IsSettled proofs (ok (values, proof, root)) s s' made e =
          let (v, decoded, pre, post, at) =
            proved_values true block proofs values proof root made in
          let (c, updated, left) = sent s s' root attempt.delivery _ e in
          let (from, to) = updated_roots gateway s.contract c values proof v decoded updated in
          (
            sym from ∙ pre,
            ap (λ (x : ProverState db.Tree). x.contract.state_root) (sym left) ∙ to ∙ post,
            ap (λ (x : ProverState db.Tree). x.proven) (sym left) ∙ at,
          )
      finish-IsSettled proofs (err x) s s' made e = cc (ap second e)
      finish-IsSettled proofs panic s s' made e = cc (ap second e)

      -- The proven head is the state root of the contract. With an honest prover and L1 enabled, a
      -- call of `process_and_prove_batch` that succeeds found the contract at the block's pre-state
      -- root, and leaves the contract and the proven head at the block's post-state root.
      pub process_and_prove_batch-IsSettled :
          (s s' : ProverState db.Tree)
          → process_and_prove_batch sha3 keccak abi gateway db codec decode true attempt block s
            ≡ (s', ok tt)
          → IsSettled s s'
      unfolding process_and_prove_batch
      process_and_prove_batch-IsSettled s s' e =
          let entered = locked s.poisoned (generate_proofs_for_block sha3 db codec s.tree block) in
          finish-IsSettled entered.1 _ (record s { poisoned = entered.0 }) s' refl e
