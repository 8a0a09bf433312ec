-- ===== src/Tests/StfTests.antt =====
-- Theorems on operations, proofs and commitments at sample data.
use mathlib.Core.List.{map}
use tiny_sp1_rollup.Base.{◌≡◌, refl, [], ◌∷◌, ◌++◌, false, arith, some, ◌⊎◌}
use tiny_sp1_rollup.Base.Bytes.{bytes_eq}
use tiny_sp1_rollup.Stf.Digest.{sample_digest}
use tiny_sp1_rollup.Stf.Account
use tiny_sp1_rollup.Stf.Apply.{apply_transaction}
use tiny_sp1_rollup.Stf.Apply.Money.{Settles, IsSettled, IsRefused, apply_transaction-Settles}
use tiny_sp1_rollup.Stf.Merkle.{hash_nodes, verify}
use tiny_sp1_rollup.Stf.Merkle.Tree.{subtree, root, siblings, opening, verify_honest}
use tiny_sp1_rollup.Stf.Merkle.Binding
use tiny_sp1_rollup.Stf.Merkle.Binding.{verify_binding, Collide, hashed}
use tiny_sp1_rollup.Stf.Commitment.{deposit_l1, hash_deposits}
use tiny_sp1_rollup.Stf.Commitment.Layout.{calculate_hash, hash_deposits-eq-calculate_hash}
use tiny_sp1_rollup.Tests.Data.{alice, bob, to_alice, to_bob, tree, deposit, payment, abi}

-- The leaf hash of Alice, as Bob's proof has it for a sibling, is not what Bob's proof hashes.
tampered :
    verify sample_digest (opening sample_digest tree to_bob alice) (root sample_digest tree) ≡ false
unfolding verify root siblings hash_nodes Account.hash bytes_eq sample_digest
tampered = refl

proof_IsValid : Binding.IsValid (opening sample_digest tree to_alice alice)
unfolding siblings root Account.hash sample_digest
proof_IsValid = record {
  account = record { id_width = refl; balance_range = omega arith; nonce_range = omega arith };
  siblings = (refl, tt);
}

verify_binding_example :
    (opening sample_digest tree to_alice alice ≡ opening sample_digest tree to_alice alice)
    ⊎ Collide sample_digest
        (hashed sample_digest (opening sample_digest tree to_alice alice))
        (hashed sample_digest (opening sample_digest tree to_alice alice))
verify_binding_example =
    verify_binding sample_digest (opening sample_digest tree to_alice alice)
      (opening sample_digest tree to_alice alice) (root sample_digest tree) proof_IsValid
      proof_IsValid refl (verify_honest sample_digest tree to_alice alice (unfold subtree in refl))
      (verify_honest sample_digest tree to_alice alice (unfold subtree in refl))

apply_transaction-Settles_example :
    Settles
      (IsSettled alice bob payment)
      (IsRefused alice bob payment)
      (apply_transaction alice bob payment)
apply_transaction-Settles_example = apply_transaction-Settles alice bob payment

hash_deposits-eq-calculate_hash_example :
    calculate_hash sample_digest abi.encode_deposit
      (deposit_l1 deposit ∷ (map deposit_l1 (deposit ∷ deposit ∷ []) ++ []))
      1
      2
    ≡ some (hash_deposits sample_digest abi (deposit ∷ deposit ∷ []))
hash_deposits-eq-calculate_hash_example =
    hash_deposits-eq-calculate_hash sample_digest abi (deposit_l1 deposit ∷ []) []
      (deposit ∷ deposit ∷ [])
