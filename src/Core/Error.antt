-- ===== src/Core/Error.antt =====
-- crates/core/src/error.rs
use tiny_sp1_rollup.Base.{String}
use tiny_sp1_rollup.Stf.Digest.{Hash}

pub data CoreError : Type 0 where
  database_error : String → CoreError
  account_not_found : Hash → CoreError
  account_data_corrupted : Hash → CoreError
  proof_not_found : Hash → CoreError
  stf_error : String → CoreError
