-- ===== src/Tests/Data.antt =====
-- Accounts, a tree of two of them, a block on it, and parameters that compute.
use tiny_sp1_rollup.Base.{ℕ, [], ◌∷◌, ◌++◌, replicate, true, false}
use tiny_sp1_rollup.Base.Bytes.{to_be_bytes}
use tiny_sp1_rollup.Stf.Digest.{Hash, default, sample_digest}
use tiny_sp1_rollup.Stf.Account
use tiny_sp1_rollup.Stf.Account.{Account}
use tiny_sp1_rollup.Stf.Types.{Transaction, Deposit, ForcedTx}
use tiny_sp1_rollup.Stf.Merkle.{MerkleProof}
use tiny_sp1_rollup.Stf.Merkle.Tree.{Tree, TreePath, leaf, node, opening}
use tiny_sp1_rollup.Stf.Commitment.{Abi}
use tiny_sp1_rollup.Stf.Transition.{Proofs}
use tiny_sp1_rollup.Stf.Transition.Runs.{put}

abbrev pub id_of : ℕ → Hash
id_of n = replicate 31 0 ++ (n ∷ [])

abbrev pub alice : Account
alice = record { id = id_of 1; balance = 100; nonce = 0 }

abbrev pub bob : Account
bob = record { id = id_of 2; balance = 7; nonce = 4 }

-- Alice after a deposit of 50, and then after a payment of 30 with a fee of 1.
abbrev pub alice_credited : Account
alice_credited = record { id = id_of 1; balance = 150; nonce = 0 }

abbrev pub alice_paid : Account
alice_paid = record { id = id_of 1; balance = 119; nonce = 1 }

-- What the guest writes for Bob.
abbrev pub bob_paid : Account
bob_paid = record { id = id_of 2; balance = 30; nonce = 0 }

abbrev pub to_alice : TreePath
to_alice = true ∷ []

abbrev pub to_bob : TreePath
to_bob = false ∷ []

abbrev pub tree : Tree
tree = node (leaf (Account.hash sample_digest alice)) (leaf (Account.hash sample_digest bob))

abbrev pub deposit : Deposit
deposit = record { to = id_of 1; amount = 50; timestamp = 9 }

abbrev pub payment : Transaction
payment = record { from = id_of 1; to = id_of 2; nonce = 0; fee = 1; amount = 30 }

-- A dummy, as the sequencer makes one of calldata that it cannot decode.
abbrev pub dummy : ForcedTx
dummy = record {
  from = default;
  to = default;
  nonce = 0;
  fee = 0;
  amount = 0;
  timestamp = 8;
  l2_calldata = 222 ∷ [];
}

abbrev pub forced_payment : ForcedTx
forced_payment = record {
  from = id_of 1;
  to = id_of 2;
  nonce = 0;
  fee = 1;
  amount = 30;
  timestamp = 8;
  l2_calldata = 5 ∷ 6 ∷ [];
}

abbrev pub after_deposit : Tree
after_deposit = put sample_digest tree to_alice alice_credited

abbrev pub after_debit : Tree
after_debit = put sample_digest after_deposit to_alice alice_paid

abbrev pub after_block : Tree
after_block = put sample_digest after_debit to_bob bob_paid

abbrev pub unread : MerkleProof
unread = record { account = bob; siblings = [] }

abbrev pub proofs : Proofs
proofs = record {
  deposits = opening sample_digest tree to_alice alice ∷ [];
  forced_from = unread ∷ [];
  forced_to = unread ∷ [];
  txs_from = opening sample_digest after_deposit to_alice alice_credited ∷ [];
  txs_to = opening sample_digest after_debit to_bob bob ∷ [];
}

-- Fields one after the other; the true encodings are alloy's.
abbrev pub abi : Abi
abi = record {
  encode_deposit = λ d. d.user ++ (to_be_bytes 32 d.amount ++ to_be_bytes 32 d.timestamp);
  encode_forced = λ f. f.calldata ++ to_be_bytes 32 f.timestamp;
  encode_public_values = λ v.
      v.pre_state_root ++ (v.post_state_root ++ (v.deposits_commitment ++ v.forced_txs_commitment));
}
