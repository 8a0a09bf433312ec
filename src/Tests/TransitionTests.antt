-- ===== src/Tests/TransitionTests.antt =====
-- Runs of the transition and of the guest program, and their theorems at a block.
use mathlib.Core.List.{map}
use tiny_sp1_rollup.Base.{◌≡◌, refl, List, [], ◌∷◌, ◌++◌, ok, arith}
use tiny_sp1_rollup.Base.Bytes.{bytes_eq}
use tiny_sp1_rollup.Stf.Digest.{sample_digest}
use tiny_sp1_rollup.Stf.Account
use tiny_sp1_rollup.Stf.Apply
use tiny_sp1_rollup.Stf.Merkle.Tree.{subtree, set_leaf, root, opening}
use tiny_sp1_rollup.Stf.Commitment.{
  DepositL1, deposit_l1, forced_transaction_l1, hash_deposits, hash_forced_txs,
}
use tiny_sp1_rollup.Stf.Transition.{execute_transition, tx_round}
use tiny_sp1_rollup.Stf.Transition.Runs.{DepositRun, TxRun, ForcedRun, BlockRun, put}
use tiny_sp1_rollup.Stf.Transition.Honest.{execute_transition_honest}
use tiny_sp1_rollup.Stf.Transition.Unbound.{
  impersonate, fresh_recipient, execute_transition-impersonate, payment_overwrites_recipient,
}
use tiny_sp1_rollup.Program.Accepted.{Commits, main-IsAccepted}
use tiny_sp1_rollup.Tests.Data.{
  id_of, alice, bob, alice_credited, alice_paid, bob_paid, to_alice, to_bob, tree, deposit, payment,
  dummy, after_deposit, after_debit, after_block, unread, proofs, abi,
}

block_run :
    BlockRun sample_digest tree (payment ∷ []) (deposit ∷ []) (dummy ∷ []) proofs after_block
unfolding Apply.apply_deposit Apply.apply_transaction Account.new subtree set_leaf bytes_eq
block_run = record {
  after_deposits = after_deposit;
  after_forced = after_deposit;
  deposit_run = DepositRun.credit to_alice alice alice_credited deposit refl refl DepositRun.done;
  forced_run = ForcedRun.skipped unread unread dummy refl ForcedRun.done;
  tx_run =
      TxRun.paid to_alice to_bob alice_credited bob alice_paid bob_paid payment refl refl refl
        TxRun.done;
}

execute_transition_honest_example :
    execute_transition sample_digest sample_digest abi
      (root sample_digest tree)
      (payment ∷ [])
      (deposit ∷ [])
      (dummy ∷ [])
      proofs
    ≡ ok (
      root sample_digest after_block,
      hash_deposits sample_digest abi (deposit ∷ []),
      hash_forced_txs sample_digest abi (dummy ∷ []),
    )
execute_transition_honest_example =
    execute_transition_honest sample_digest sample_digest abi block_run

abbrev earlier : List DepositL1
earlier = record { user = 3 ∷ []; amount = 5; timestamp = 1 } ∷ []

main-IsAccepted_example :
    Commits sample_digest sample_digest abi
      (root sample_digest tree)
      (payment ∷ [])
      (deposit ∷ [])
      (dummy ∷ [])
      proofs
      (root sample_digest after_block)
      (earlier ++ (map deposit_l1 (deposit ∷ []) ++ []))
      1
      ([] ++ (map forced_transaction_l1 (dummy ∷ []) ++ []))
      0
main-IsAccepted_example =
    main-IsAccepted sample_digest sample_digest abi tree after_block (payment ∷ []) (deposit ∷ [])
      (dummy ∷ []) proofs earlier [] [] [] block_run (omega arith) (omega arith)

execute_transition-impersonate_example :
    execute_transition sample_digest sample_digest abi
      (root sample_digest tree)
      (map (impersonate (λ _. id_of 9)) (payment ∷ []))
      (deposit ∷ [])
      (dummy ∷ [])
      proofs
    ≡ execute_transition sample_digest sample_digest abi
        (root sample_digest tree)
        (payment ∷ [])
        (deposit ∷ [])
        (dummy ∷ [])
        proofs
execute_transition-impersonate_example =
    execute_transition-impersonate sample_digest sample_digest abi (λ _. id_of 9)
      (root sample_digest tree) (payment ∷ []) (deposit ∷ []) (dummy ∷ []) proofs

payment_overwrites_recipient_example :
    tx_round sample_digest
      (opening sample_digest after_deposit to_alice alice_credited ∷ [])
      (opening sample_digest after_debit to_bob bob ∷ [])
      0
      payment
      (root sample_digest after_deposit)
    ≡ ok (root sample_digest (put sample_digest after_debit to_bob (fresh_recipient payment)))
unfolding Apply.apply_transaction Account.new subtree set_leaf
payment_overwrites_recipient_example =
    payment_overwrites_recipient sample_digest after_deposit to_alice to_bob alice_credited bob
      alice_paid bob_paid payment refl refl refl
