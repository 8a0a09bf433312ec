-- ===== src/Stf/Merkle.antt =====
-- `hash_nodes`, `compute_new_root` and `MerkleProof` of crates/stf/src/lib.rs. The digest `sha3` is
-- a parameter.
pub mod Tree
pub mod Binding
use tiny_sp1_rollup.Base.{Bool, List, [], ◌∷◌, ◌++◌, if◌then◌else◌}
use tiny_sp1_rollup.Base.Bytes.{bytes_eq}
use tiny_sp1_rollup.Stf.Digest.{Hash, Digest}
use tiny_sp1_rollup.Stf.Account
use tiny_sp1_rollup.Stf.Account.{Account}

-- A sibling, and whether it stands on the right; from the leaf upwards.
abbrev pub Sibling : Type 0
Sibling = Bool × Hash

pub record MerkleProof : Type 0 where
  pub account : Account
  pub siblings : List Sibling

module _ (sha3 : Digest) where
  unfoldable pub hash_nodes : Hash → Hash → Hash
  hash_nodes left right = sha3.digest (left ++ right)

  -- The loop over the siblings, which `compute_new_root` and `verify` share.
  unfoldable pub climb : Hash → List Sibling → Hash
  climb current_hash [] = current_hash
  climb current_hash ((is_right, sibling) ∷ siblings) =
      climb (if is_right then hash_nodes current_hash sibling else hash_nodes sibling current_hash)
        siblings

  unfoldable pub compute_new_root : MerkleProof → Hash → Hash
  unfolding climb
  compute_new_root proof new_leaf_hash = climb new_leaf_hash proof.siblings

  -- `MerkleProof::verify`
  unfoldable pub verify : MerkleProof → Hash → Bool
  unfolding climb
  verify proof expected_root =
      bytes_eq (climb (Account.hash sha3 proof.account) proof.siblings) expected_root
