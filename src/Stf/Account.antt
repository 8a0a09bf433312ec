-- ===== src/Stf/Account.antt =====
-- `Account` of crates/stf/src/lib.rs, and the bytes that its leaf hash is taken of.
use tiny_sp1_rollup.Base.{ℕ, ◌++◌}
use tiny_sp1_rollup.Base.Bytes.{Bytes, IsU64, to_be_bytes}
use tiny_sp1_rollup.Stf.Digest.{Hash, IsHash, Digest}

pub record Account : Type 0 where
  pub id : Hash
  pub balance : ℕ
  pub nonce : ℕ

-- The values that the Rust types hold.
pub record IsValid (a : Account) : Type 0 where
  pub id_width : IsHash a.id
  pub balance_range : IsU64 a.balance
  pub nonce_range : IsU64 a.nonce

-- `Account::new`
unfoldable pub new : Hash → Account
new id = record { id = id; nonce = 0; balance = 0 }

-- The vector `data` of `Account::hash`.
unfoldable pub preimage : Account → Bytes
preimage a = to_be_bytes 8 a.nonce ++ (a.id ++ to_be_bytes 8 a.balance)

-- `Account::hash`
unfoldable pub hash : Digest → Account → Hash
unfolding preimage
hash sha3 a = sha3.digest (preimage a)
