-- ===== src/Core/Prover/Refused.antt =====
-- The loops of `generate_proofs_for_block` (crates/core/src/lib.rs) and of `execute_transition`
-- (crates/stf/src/lib.rs) on a tree that stores 32-byte hashes.
use tiny_sp1_rollup.Base.{
  ◌≡◌, ◌≢◌, refl, ap, sym, ◌∙◌, List, [], ◌∷◌, map, true, false, Bool, All, some, Outcome, ok, err,
  panic, for_push, for_enumerate, bind_inv, ok-injective, Bool-cases, inl, inr, map_err,
}
use tiny_sp1_rollup.Base.Bytes.{bytes_eq}
use tiny_sp1_rollup.Stf.Digest.{Hash, Digest, default}
use tiny_sp1_rollup.Stf.Account
use tiny_sp1_rollup.Stf.Account.{Account}
use tiny_sp1_rollup.Stf.Types.{
  StfError, TransactionResult, success, failure, Transaction, Deposit, ForcedTx,
}
use tiny_sp1_rollup.Stf.Apply.{apply_forced_tx}
use tiny_sp1_rollup.Stf.Merkle.{MerkleProof, compute_new_root, verify}
use tiny_sp1_rollup.Stf.Transition.{deposit_round, forced_round, tx_round}
use tiny_sp1_rollup.Stf.Transition.Honest.{shift_forced}
use tiny_sp1_rollup.Core.Error.{CoreError, stf_error}
use tiny_sp1_rollup.Core.External.{StateTree, Codec}
use tiny_sp1_rollup.Core.Reads.{get_account, build_stf_proof}
use tiny_sp1_rollup.Core.Executor.Unreadable.{DecodesWhole}
use tiny_sp1_rollup.Core.Prover.{
  ProofPair, dummy_proof, is_err, prove_result, prove_deposit, prove_forced, prove_tx,
}
use tiny_sp1_rollup.Core.Prover.Deposits.{first_proof, unverified, fresh_unverified}
use tiny_sp1_rollup.Core.Prover.Idle.{IsSkipped}
use tiny_sp1_rollup.Core.Prover.Hashes.{StoresHashes, unread, built_dummy}

abbrev pub froms : List ProofPair → List MerkleProof
froms = map (λ (p : ProofPair). p.0)

abbrev pub tos : List ProofPair → List MerkleProof
tos = map (λ (p : ProofPair). p.1)

module _ (sha3 : Digest) where
  -- The root is not the hash of a new account at the address.
  abbrev pub IsFresh : Hash → Hash → Type 0
  IsFresh root key = Account.hash sha3 (Account.new key) ≢ root

  -- The same of a forced transaction that is not skipped.
  abbrev pub IsFreshLive : Hash → ForcedTx → Type 0
  IsFreshLive root tx = bytes_eq tx.from default ≡ false → IsFresh root tx.from

module _ (sha3 : Digest) (db : StateTree) (codec : Codec) (tree : db.Tree)
    (stores : StoresHashes db tree) (decodes : DecodesWhole codec) where
  pub deposits_none :
      (ds : List Deposit) (root r u : Hash) (ps : List MerkleProof)
      → All (λ (d : Deposit). IsFresh sha3 root d.to) ds
      → for_push (prove_deposit sha3 db codec tree) root ds ≡ ok (r, ps)
      → for_enumerate (deposit_round sha3 ps) 0 ds root ≡ ok u
      → (ds ≡ []) × (r ≡ root) × (u ≡ root)
  unfolding for_push for_enumerate prove_deposit
  deposits_none [] root r u ps fresh e g =
      (refl, ap (λ (x : Hash × List MerkleProof). x.0) (sym (ok-injective e)), sym (ok-injective g))
  deposits_none (d ∷ ds) root r u ps fresh e g =
      let ((s, q), first, _) = bind_inv _ (prove_deposit sha3 db codec tree root d) e in
      let (p, built, _) = bind_inv _ (build_stf_proof db codec tree root d.to) first in
      let (qs, listed) = first_proof sha3 db codec tree root r d ds ps p built e in
      let held : ps ≡ dummy_proof d.to ∷ qs =
        listed
        ∙ ap (λ (x : MerkleProof). x ∷ qs)
            (sym (built_dummy db codec tree stores decodes root d.to p built)) in
      let (u₁, round, _) = bind_inv _ (deposit_round sha3 ps 0 d root) g in
      let refused =
        unverified sha3 db codec tree root d (dummy_proof d.to) qs
          (fresh_unverified sha3 root d.to fresh.0) in
      absurd
        (cc (refused, ap (λ (x : List MerkleProof). deposit_round sha3 x 0 d root) held, round))

  prove_result-from :
      (to s : Hash) (p b : MerkleProof) (result : TransactionResult) (pair : ProofPair)
      → prove_result sha3 db codec tree to p b result ≡ ok (s, pair)
      → p ≡ pair.0
  unfolding prove_result
  prove_result-from to s p b (success a' b') pair e =
      let root = compute_new_root sha3 p (Account.hash sha3 a') in
      let (q, _, made) = bind_inv _ (build_stf_proof db codec tree root to) e in
      ap (λ (x : Hash × ProofPair). x.1.0) (ok-injective made)
  prove_result-from to s p b (failure a') pair e =
      ap (λ (x : Hash × ProofPair). x.1.0) (ok-injective e)

  -- A forced transaction that is not skipped gets the proof of an absent sender, which is refused.
  forced_refused :
      (tx : ForcedTx) (root s u : Hash) (pair : ProofPair) (froms tos : List MerkleProof)
      → IsFresh sha3 root tx.from
      → bytes_eq tx.from default ≡ false
      → prove_forced sha3 db codec tree root tx ≡ ok (s, pair)
      → forced_round sha3 (pair.0 ∷ froms) tos 0 tx root ≢ ok u
  unfolding prove_forced forced_round
  forced_refused tx root s u pair froms tos fresh live e g =
      let (p, built, e₁) = bind_inv _ (build_stf_proof db codec tree root tx.from) (rw live at e) in
      let (b, _, e₂) = bind_inv _ (build_stf_proof db codec tree root tx.to) e₁ in
      let (result, _, e₃) =
        bind_inv _
          (map_err (λ (x : StfError). stf_error (codec.debug x))
            (apply_forced_tx p.account b.account tx))
          e₂ in
      let same =
        built_dummy db codec tree stores decodes root tx.from p built
        ∙ prove_result-from tx.to s p b result pair e₃ in
      let refused : verify sha3 pair.0 root ≡ false =
        ap (λ (x : MerkleProof). verify sha3 x root) (sym same)
        ∙ fresh_unverified sha3 root tx.from fresh in
      cc (rw (live, refused) at g)

  -- A skipped one changes nothing.
  skipped_prove :
      (tx : ForcedTx) (root s : Hash) (pair : ProofPair)
      → IsSkipped tx
      → prove_forced sha3 db codec tree root tx ≡ ok (s, pair)
      → s ≡ root
  unfolding prove_forced
  skipped_prove tx root s pair skipped e =
      let made : prove_forced sha3 db codec tree root tx
          ≡ ok (root, (dummy_proof tx.from, dummy_proof tx.to)) =
        rw skipped in
      ap (λ (x : Hash × ProofPair). x.0) (ok-injective (sym e ∙ made))

  skipped_round :
      (tx : ForcedTx) (root u : Hash) (froms tos : List MerkleProof)
      → IsSkipped tx
      → forced_round sha3 froms tos 0 tx root ≡ ok u
      → u ≡ root
  unfolding forced_round
  skipped_round tx root u froms tos skipped e =
      let made : forced_round sha3 froms tos 0 tx root ≡ ok root = rw skipped in
      ok-injective (sym e ∙ made)

  pub forced_none :
      (txs : List ForcedTx) (root r u : Hash) (ps : List ProofPair)
      → All (IsFreshLive sha3 root) txs
      → for_push (prove_forced sha3 db codec tree) root txs ≡ ok (r, ps)
      → for_enumerate (forced_round sha3 (froms ps) (tos ps)) 0 txs root ≡ ok u
      → All IsSkipped txs × (r ≡ root) × (u ≡ root)
  unfolding for_push for_enumerate
  forced_none [] root r u ps fresh e g =
      (tt, ap (λ (x : Hash × List ProofPair). x.0) (sym (ok-injective e)), sym (ok-injective g))
  forced_none (tx ∷ txs) root r u ps fresh e g =
      let ((s, pair), first, k) = bind_inv _ (prove_forced sha3 db codec tree root tx) e in
      let ((r', qs), loop, k') = bind_inv _ (for_push (prove_forced sha3 db codec tree) s txs) k in
      let listed : ps ≡ pair ∷ qs =
        ap (λ (x : Hash × List ProofPair). x.1) (sym (ok-injective k')) in
      let ended : r' ≡ r = ap (λ (x : Hash × List ProofPair). x.0) (ok-injective k') in
      let (v, round, g') = bind_inv _ (forced_round sha3 (froms ps) (tos ps) 0 tx root) g in
      elim (Bool-cases (bytes_eq tx.from default)) [
        | inl skipped ↦
            let loop' : for_push (prove_forced sha3 db codec tree) root txs ≡ ok (r, qs) =
              ap (λ x. for_push (prove_forced sha3 db codec tree) x txs)
                (sym (skipped_prove tx root s pair skipped first))
              ∙ loop
              ∙ ap (λ (x : Hash). ok (x, qs)) ended in
            let rounds : for_enumerate (forced_round sha3 (froms qs) (tos qs)) 0 txs root ≡ ok u =
              sym (shift_forced sha3 pair.0 pair.1 (froms qs) (tos qs) txs root)
              ∙ ap
                  (λ (x : List ProofPair).
                    for_enumerate (forced_round sha3 (froms x) (tos x)) 1 txs root)
                  (sym listed)
              ∙ ap (for_enumerate (forced_round sha3 (froms ps) (tos ps)) 1 txs)
                  (sym (skipped_round tx root v (froms ps) (tos ps) skipped round))
              ∙ g' in
            let (all, kept, last) = forced_none txs root r u qs fresh.1 loop' rounds in
            ((skipped, all), kept, last)
        | inr live ↦ absurd (
            forced_refused tx root s v pair (froms qs) (pair.1 ∷ tos qs) (fresh.0 live) live first (
              ap (λ (x : List ProofPair). forced_round sha3 (froms x) (tos x) 0 tx root)
                (sym listed)
              ∙ round))
      ]

  is_err-true :
      (found : Outcome CoreError Account) (absent : Bool)
      → ((a : Account) → found ≢ ok a)
      → is_err {F = CoreError} found ≡ ok absent
      → absent ≡ true
  is_err-true (ok a) absent none_read e = absurd (none_read a refl)
  is_err-true (err x) absent none_read e = sym (ok-injective e)
  is_err-true panic absent none_read e = absurd (cc)

  -- A sender is absent, and its proof is the dummy one.
  prove_tx-dummy :
      (tx : Transaction) (root s : Hash) (pair : ProofPair)
      → prove_tx sha3 db codec tree root tx ≡ ok (s, pair)
      → pair ≡ (dummy_proof tx.from, dummy_proof tx.to)
  unfolding prove_tx
  prove_tx-dummy tx root s pair e =
      let (absent, found, k) =
        bind_inv _ (is_err {F = CoreError} (get_account db codec tree (some root) tx.from)) e in
      let gone = is_err-true _ absent (unread db codec tree stores decodes root tx.from) found in
      let made = rw gone at k in ap (λ (x : Hash × ProofPair). x.1) (ok-injective (sym made))

  tx_refused :
      (tx : Transaction) (root u : Hash) (froms tos : List MerkleProof)
      → IsFresh sha3 root tx.from
      → tx_round sha3 (dummy_proof tx.from ∷ froms) tos 0 tx root ≢ ok u
  unfolding tx_round
  tx_refused tx root u froms tos fresh g = cc (rw (fresh_unverified sha3 root tx.from fresh) at g)

  pub txs_none :
      (txs : List Transaction) (root r u : Hash) (ps : List ProofPair)
      → All (λ (tx : Transaction). IsFresh sha3 root tx.from) txs
      → for_push (prove_tx sha3 db codec tree) root txs ≡ ok (r, ps)
      → for_enumerate (tx_round sha3 (froms ps) (tos ps)) 0 txs root ≡ ok u
      → (txs ≡ []) × (r ≡ root)
  unfolding for_push for_enumerate
  txs_none [] root r u ps fresh e g =
      (refl, ap (λ (x : Hash × List ProofPair). x.0) (sym (ok-injective e)))
  txs_none (tx ∷ txs) root r u ps fresh e g =
      let ((s, pair), first, k) = bind_inv _ (prove_tx sha3 db codec tree root tx) e in
      let ((r', qs), _, k') = bind_inv _ (for_push (prove_tx sha3 db codec tree) s txs) k in
      let listed : ps ≡ (dummy_proof tx.from, dummy_proof tx.to) ∷ qs =
        ap (λ (x : Hash × List ProofPair). x.1) (sym (ok-injective k'))
        ∙ ap (λ (x : ProofPair). x ∷ qs) (prove_tx-dummy tx root s pair first) in
      let (v, round, _) = bind_inv _ (tx_round sha3 (froms ps) (tos ps) 0 tx root) g in
      absurd (
        tx_refused tx root v (froms qs) (dummy_proof tx.to ∷ tos qs) fresh.0 (
          ap (λ (x : List ProofPair). tx_round sha3 (froms x) (tos x) 0 tx root) (sym listed)
          ∙ round))
