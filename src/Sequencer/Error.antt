-- ===== src/Sequencer/Error.antt =====
-- `SequencerError` of crates/sequencer/src/main.rs, its conversion from `CoreError` and its status.
use tiny_sp1_rollup.Base.{ℕ, String, append}
use tiny_sp1_rollup.Stf.Digest.{Hash}
use tiny_sp1_rollup.Stf.Types.{StfError, invalid_transaction}
use tiny_sp1_rollup.Core.Error.{CoreError}

pub data SequencerError : Type 0 where
  stf : StfError → SequencerError
  mempool_empty : SequencerError
  account_not_found : Hash → SequencerError
  insufficient_balance : Hash → SequencerError
  invalid_nonce : Hash → ℕ → ℕ → SequencerError
  l1_submit_failed : SequencerError
  state_lock_poisoned : SequencerError
  account_data_corrupted : Hash → SequencerError
  database_error : String → SequencerError

-- `From<CoreError>`; the text of a hash is a parameter.
unfoldable pub from_core : (Hash → String) → CoreError → SequencerError
from_core debug (CoreError.database_error s) = SequencerError.database_error s
from_core debug (CoreError.account_not_found h) = SequencerError.account_not_found h
from_core debug (CoreError.account_data_corrupted h) = SequencerError.account_data_corrupted h
from_core debug (CoreError.proof_not_found h) =
    SequencerError.database_error (append "proof not found for " (debug h))
from_core debug (CoreError.stf_error s) = SequencerError.stf (invalid_transaction s)

-- The status code of `into_response`.
unfoldable pub status : SequencerError → ℕ
status SequencerError.mempool_empty = 400
status (SequencerError.account_not_found h) = 404
status (SequencerError.insufficient_balance h) = 400
status (SequencerError.invalid_nonce h m n) = 400
status e = 500
