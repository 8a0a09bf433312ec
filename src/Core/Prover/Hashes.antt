-- ===== src/Core/Prover/Hashes.antt =====
-- What `get_account` and `build_stf_proof` (crates/core/src/lib.rs) read from a tree that stores
-- 32-byte hashes, as `monotree` does.
use tiny_sp1_rollup.Base.{
  ◌≡◌, ◌≢◌, refl, sym, ◌∙◌, false, String, Option, none, some, Outcome, ok, err, panic, length,
  arith, ok-injective, Bool-cases, inl, inr,
}
use tiny_sp1_rollup.Base.Bytes.{Bytes, bytes_eq}
use tiny_sp1_rollup.Stf.Digest.{Hash, default}
use tiny_sp1_rollup.Stf.Account.{Account}
use tiny_sp1_rollup.Stf.Merkle.{MerkleProof}
use tiny_sp1_rollup.Core.External.{StateTree, Codec}
use tiny_sp1_rollup.Core.Reads.{get_account, get_proof, build_stf_proof, to_siblings}
use tiny_sp1_rollup.Core.Executor.Unreadable.{DecodesWhole}
use tiny_sp1_rollup.Core.Prover.{dummy_proof}

-- What `monotree` documents of a tree: a leaf is a hash of 32 bytes, and a key without a leaf has no
-- proof.
pub record StoresHashes (db : StateTree) (tree : db.Tree) : Type 0 where
  pub leaf-length :
      (root key : Hash) (leaf : Bytes)
      → db.get tree (some root) key ≡ ok (some leaf)
      → length leaf ≡ 32
  pub no_proof :
      (root key : Hash)
      → db.get tree (some root) key ≡ ok none
      → db.get_merkle_proof tree (some root) key ≡ ok none

module _ (db : StateTree) (codec : Codec) (tree : db.Tree) (stores : StoresHashes db tree)
    (decodes : DecodesWhole codec) where
  unreadable_leaf :
      (root key : Hash) (leaf : Bytes)
      → db.get tree (some root) key ≡ ok (some leaf)
      → codec.deserialize leaf ≡ none
  unreadable_leaf root key leaf e =
      decodes.deserialize-short leaf (omega (arith, stores.leaf-length root key leaf e))

  live_unread :
      (root key : Hash) (a : Account) (found : Outcome String (Option Bytes))
      → db.get tree (some root) key ≡ found
      → bytes_eq root default ≡ false
      → get_account db codec tree (some root) key ≢ ok a
  unfolding get_account
  live_unread root key a (ok none) read live e = cc (rw (live, read) at e)
  live_unread root key a (ok (some leaf)) read live e =
      cc (rw (live, read, unreadable_leaf root key leaf read) at e)
  live_unread root key a (err x) read live e = cc (rw (live, read) at e)
  live_unread root key a panic read live e = cc (rw (live, read) at e)

  -- No account can be read.
  pub unread : (root key : Hash) (a : Account) → get_account db codec tree (some root) key ≢ ok a
  unfolding get_account
  unread root key a e = elim (Bool-cases (bytes_eq root default)) [
    | inl zero_root ↦ cc (rw zero_root at e)
    | inr live ↦ live_unread root key a (db.get tree (some root) key) refl live e
  ]

  -- What a read of a root other than the default gives.
  built_live :
      (root key : Hash) (p : MerkleProof) (found : Outcome String (Option Bytes))
      → db.get tree (some root) key ≡ found
      → bytes_eq root default ≡ false
      → build_stf_proof db codec tree root key ≡ ok p
      → dummy_proof key ≡ p
  unfolding build_stf_proof get_account get_proof to_siblings
  built_live root key p (ok none) read live e =
      let built : build_stf_proof db codec tree root key ≡ ok (dummy_proof key) =
        rw (live, read, stores.no_proof root key read) in
      ok-injective (sym built ∙ e)
  built_live root key p (ok (some leaf)) read live e =
      absurd (cc (rw (live, read, unreadable_leaf root key leaf read) at e))
  built_live root key p (err x) read live e = absurd (cc (rw (live, read) at e))
  built_live root key p panic read live e = absurd (cc (rw (live, read) at e))

  -- A proof that is built is that of an absent account.
  pub built_dummy :
      (root key : Hash) (p : MerkleProof)
      → build_stf_proof db codec tree root key ≡ ok p
      → dummy_proof key ≡ p
  unfolding build_stf_proof get_account get_proof to_siblings
  built_dummy root key p e = elim (Bool-cases (bytes_eq root default)) [
    | inl zero_root ↦
        let built : build_stf_proof db codec tree root key ≡ ok (dummy_proof key) = rw zero_root in
        ok-injective (sym built ∙ e)
    | inr live ↦ built_live root key p (db.get tree (some root) key) refl live e
  ]
