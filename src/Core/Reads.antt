-- ===== src/Core/Reads.antt =====
-- `get_proof`, `get_account` and `build_stf_proof` of crates/core/src/lib.rs.
use tiny_sp1_rollup.Base.{
  Bool, false, List, [], ◌∷◌, append, Option, none, some, Outcome, ok, err, panic, ◌>>=◌, map_err,
  ok_or, length, ◌==◌, if◌then◌else◌,
}
use tiny_sp1_rollup.Base.Bytes.{Bytes, bytes_eq}
use tiny_sp1_rollup.Stf.Digest.{Hash, default}
use tiny_sp1_rollup.Stf.Account
use tiny_sp1_rollup.Stf.Account.{Account}
use tiny_sp1_rollup.Stf.Merkle.{Sibling, MerkleProof}
use tiny_sp1_rollup.Core.Error.{
  CoreError, database_error, account_not_found, account_data_corrupted, proof_not_found,
}
use tiny_sp1_rollup.Core.External.{StateTree, Codec}

-- `root == Some(&Hash::default())`
abbrev pub is_default : Option Hash → Bool
is_default none = false
is_default (some root) = bytes_eq root default

-- The `match` on `get_account` in `build_stf_proof`.
abbrev pub account_or_new : Hash → Outcome CoreError Account → Outcome CoreError Account
account_or_new key (ok acc) = ok acc
account_or_new key (err (account_not_found _)) = ok (Account.new key)
account_or_new key (err e) = err e
account_or_new key panic = panic

-- `bytes.try_into().expect("monotree sibling must be 32 bytes")` on every sibling
unfoldable pub to_siblings : List (Bool × Bytes) → Outcome CoreError (List Sibling)
to_siblings [] = ok []
to_siblings ((is_right, bytes) ∷ proof) = do
  rest ← to_siblings proof
  if length bytes == 32 then ok ((is_right, bytes) ∷ rest) else panic

-- The `match` on `get_proof` in `build_stf_proof`.
abbrev pub siblings_or_empty :
    Outcome CoreError (List (Bool × Bytes)) → Outcome CoreError (List Sibling)
siblings_or_empty (ok proof) = to_siblings proof
siblings_or_empty (err (proof_not_found _)) = ok []
siblings_or_empty (err e) = err e
siblings_or_empty panic = panic

module _ (db : StateTree) (codec : Codec) where
  unfoldable pub get_proof : db.Tree → Hash → Hash → Outcome CoreError (List (Bool × Bytes))
  get_proof tree root key = if bytes_eq root default then err (proof_not_found key) else do
    proof ←
        map_err (λ e. database_error (append "get_proof get_merkle_proof err: " e))
          (db.get_merkle_proof tree (some root) key)
    ok_or proof (proof_not_found key)

  unfoldable pub get_account : db.Tree → Option Hash → Hash → Outcome CoreError Account
  get_account tree root key = if is_default root then err (account_not_found key) else do
    found ←
        map_err (λ e. database_error (append "get_account get_leaf err: " e)) (db.get tree root key)
    leaf ← ok_or found (account_not_found key)
    ok_or (codec.deserialize leaf) (account_data_corrupted key)

  unfoldable pub build_stf_proof : db.Tree → Hash → Hash → Outcome CoreError MerkleProof
  unfolding get_account get_proof to_siblings
  build_stf_proof tree root key = do
    account ← account_or_new key (get_account tree (some root) key)
    siblings ← siblings_or_empty (get_proof tree root key)
    ok (record { account = account; siblings = siblings })
