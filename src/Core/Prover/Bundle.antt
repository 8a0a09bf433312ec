-- ===== src/Core/Prover/Bundle.antt =====
-- What `generate_proofs_for_block` (crates/core/src/lib.rs) hands to the guest, whatever the state
-- tree holds: how many proofs, and what they are worth on the empty state.
use tiny_sp1_rollup.Base.{
  ◌≡◌, refl, ap, List, [], ◌∷◌, map, length, true, false, arith, Outcome, ok, err, panic, for_push,
  length-for_push, bind_inv, Bool, if◌then◌else◌,
}
use tiny_sp1_rollup.Base.Bytes.{bytes_eq}
use tiny_sp1_rollup.Stf.Digest.{Hash, Digest}
use tiny_sp1_rollup.Stf.Merkle.{MerkleProof}
use tiny_sp1_rollup.Stf.Transition.{Proofs}
use tiny_sp1_rollup.Stf.Transition.Bounds.{Covers}
use tiny_sp1_rollup.Core.Block.{PendingBlock}
use tiny_sp1_rollup.Core.Error.{CoreError}
use tiny_sp1_rollup.Core.External.{StateTree, Codec}
use tiny_sp1_rollup.Core.Prover.{
  ProofBundle, ProofPair, prove_deposit, prove_forced, prove_tx, generate_proofs_for_block,
}

-- The five vectors as the guest reads them.
abbrev pub written : ProofBundle → Proofs
written b = record {
  deposits = b.proofs_deposits;
  forced_from = b.proofs_forced_from;
  forced_to = b.proofs_forced_to;
  txs_from = b.proofs_txs_from;
  txs_to = b.proofs_txs_to;
}

-- The bundle of three lists.
abbrev pub bundle_of : List MerkleProof → List ProofPair → List ProofPair → ProofBundle
bundle_of deposits forced txs = record {
  proofs_deposits = deposits;
  proofs_forced_from = map (λ (p : ProofPair). p.0) forced;
  proofs_forced_to = map (λ (p : ProofPair). p.1) forced;
  proofs_txs_from = map (λ (p : ProofPair). p.0) txs;
  proofs_txs_to = map (λ (p : ProofPair). p.1) txs;
}

length-map : {A B : Type 0} (f : A → B) (xs : List A) → length (map f xs) ≡ length xs
length-map f [] = refl
length-map f (x ∷ xs) = grind (arith, length-map f xs)

abbrev bundle_panic : Outcome CoreError ProofBundle
bundle_panic = panic

abbrev bundle_in : ProofBundle → Outcome CoreError ProofBundle → ProofBundle
bundle_in b (ok c) = c
bundle_in b (err e) = b
bundle_in b panic = b

checked_root :
    (test : Bool) (b c : ProofBundle)
    → (if test then ok b else bundle_panic) ≡ ok c
    → (test ≡ true) × (b ≡ c)
checked_root true b c e = (refl, ap (bundle_in b) e)
checked_root false b c e = cc

module _ (sha3 : Digest) (db : StateTree) (codec : Codec) (tree : db.Tree) where
  -- The three loops of a run that returns a bundle.
  pub record Loops (block : PendingBlock) (bundle : ProofBundle) : Type 0 where
    pub after_deposits : Hash
    pub after_forced : Hash
    pub final_root : Hash
    pub deposits : List MerkleProof
    pub forced : List ProofPair
    pub txs : List ProofPair
    pub deposits_loop :
        for_push (prove_deposit sha3 db codec tree) block.pre_state_root block.deposits
        ≡ ok (after_deposits, deposits)
    pub forced_loop :
        for_push (prove_forced sha3 db codec tree) after_deposits block.forced_txs
        ≡ ok (after_forced, forced)
    pub txs_loop :
        for_push (prove_tx sha3 db codec tree) after_forced block.txs ≡ ok (final_root, txs)
    pub root_matches : bytes_eq final_root block.post_state_root ≡ true
    pub bundle-eq : bundle_of deposits forced txs ≡ bundle

  pub generate_proofs-Loops :
      (block : PendingBlock) (bundle : ProofBundle)
      → generate_proofs_for_block sha3 db codec tree block ≡ ok bundle
      → Loops block bundle
  unfolding generate_proofs_for_block
  generate_proofs-Loops block bundle e =
      let ((r₁, ds), e₁, k₁) = bind_inv _ (for_push _ block.pre_state_root block.deposits) e in
      let ((r₂, fs), e₂, k₂) = bind_inv _ (for_push _ r₁ block.forced_txs) k₁ in
      let ((r₃, ts), e₃, k₃) = bind_inv _ (for_push _ r₂ block.txs) k₂ in
      let (matches, same) =
        checked_root (bytes_eq r₃ block.post_state_root) (bundle_of ds fs ts) bundle k₃ in
      record {
        after_deposits = r₁;
        after_forced = r₂;
        final_root = r₃;
        deposits = ds;
        forced = fs;
        txs = ts;
        deposits_loop = e₁;
        forced_loop = e₂;
        txs_loop = e₃;
        root_matches = matches;
        bundle-eq = same;
      }

  pub generate_proofs-Covers :
      (block : PendingBlock) (bundle : ProofBundle)
      → generate_proofs_for_block sha3 db codec tree block ≡ ok bundle
      → Covers block.txs block.deposits block.forced_txs (written bundle)
  generate_proofs-Covers block bundle e =
      let run = generate_proofs-Loops block bundle e in
      let n_ds = length-for_push _ _ _ block.deposits run.deposits run.deposits_loop in
      let n_fs = length-for_push _ _ _ block.forced_txs run.forced run.forced_loop in
      let n_ts = length-for_push _ _ _ block.txs run.txs run.txs_loop in
      rw (← run.bundle-eq) (record {
        deposits = omega (arith, n_ds);
        forced_from = omega (arith, n_fs, length-map (λ (p : ProofPair). p.0) run.forced);
        forced_to = omega (arith, n_fs, length-map (λ (p : ProofPair). p.1) run.forced);
        txs_from = omega (arith, n_ts, length-map (λ (p : ProofPair). p.0) run.txs);
        txs_to = omega (arith, n_ts, length-map (λ (p : ProofPair). p.1) run.txs);
      })
