-- ===== src/Tests/ProverTests.antt =====
-- A state tree that answers from a record, the blocks that the generation of proofs runs on it, and
-- its theorems at them.
use tiny_sp1_rollup.Base.{
  ◌≡◌, ◌≢◌, refl, List, [], ◌∷◌, ◌++◌, Bool, true, false, Option, none, some, ok, err, ◌-◌,
}
use tiny_sp1_rollup.Base.Bytes.{Bytes, to_be_bytes, bytes_eq, bytes_eq_iff, u64_mod}
use tiny_sp1_rollup.Stf.Digest.{Hash, default, sample_digest}
use tiny_sp1_rollup.Stf.Account
use tiny_sp1_rollup.Stf.Account.{Account}
use tiny_sp1_rollup.Stf.Types.{merkle_proof_verification_failed}
use tiny_sp1_rollup.Stf.Apply
use tiny_sp1_rollup.Stf.Merkle.{Sibling, MerkleProof, hash_nodes, climb, compute_new_root, verify}
use tiny_sp1_rollup.Stf.Merkle.Tree.{Tree, leaf, node, root, siblings, opening, set_leaf}
use tiny_sp1_rollup.Stf.Transition.{execute_transition}
use tiny_sp1_rollup.Stf.Transition.Runs.{put}
use tiny_sp1_rollup.Core.Block.{PendingBlock}
use tiny_sp1_rollup.Core.Cache.{lookup}
use tiny_sp1_rollup.Core.External.{StateTree}
use tiny_sp1_rollup.Core.Reads.{build_stf_proof, get_account, get_proof, to_siblings}
use tiny_sp1_rollup.Core.Prover.{ProofBundle, dummy_proof, generate_proofs_for_block}
use tiny_sp1_rollup.Core.Prover.Bundle.{written, bundle_of}
use tiny_sp1_rollup.Core.Prover.Deposits.{genesis_deposit_refused}
use tiny_sp1_rollup.Core.Prover.Replay.{Opens, DepositReplay, TxReplay, ForcedReplay}
use tiny_sp1_rollup.Core.Prover.Agree.{BlockReplay}
use tiny_sp1_rollup.Tests.Data.{
  id_of, alice, alice_credited, alice_paid, bob_paid, to_alice, to_bob, deposit, payment, dummy,
  abi,
}
use tiny_sp1_rollup.Tests.Store.{sample_codec}

-- A leaf with its siblings, under its key.
abbrev pub Entry : Type 0
Entry = Hash × (Bytes × List Sibling)

abbrev pub Answers : Type 0
Answers = List (Hash × List Entry)

abbrev pub entries : Option (List Entry) → List Entry
entries none = []
entries (some m) = m

abbrev pub answer : Answers → Option Hash → Hash → Option (Bytes × List Sibling)
unfolding lookup
answer tree none key = none
answer tree (some r) key = lookup key (entries (lookup r tree))

abbrev pub leaf_of : Option (Bytes × List Sibling) → Option Bytes
leaf_of none = none
leaf_of (some e) = some e.0

abbrev pub proof_of : Option (Bytes × List Sibling) → Option (List Sibling)
proof_of none = none
proof_of (some e) = some e.1

abbrev pub recorded_db : StateTree
recorded_db = record {
  Tree = Answers;
  get = λ tree r key. ok (leaf_of (answer tree r key));
  get_merkle_proof = λ tree r key. ok (proof_of (answer tree r key));
  inserts = λ tree r keys leaves. (tree, ok r);
}

abbrev pub entry : Tree → List Bool → Account → Entry
entry t path a = (
  a.id,
  (a.id ++ (to_be_bytes 8 a.balance ++ to_be_bytes 8 a.nonce), siblings sample_digest t path),
)

-- Alice, and Bob with a new account.
abbrev pub bob_new : Account
bob_new = record { id = id_of 2; balance = 0; nonce = 0 }

abbrev pub before : Tree
before = node (leaf (Account.hash sample_digest alice)) (leaf (Account.hash sample_digest bob_new))

abbrev pub credited : Tree
credited = put sample_digest before to_alice alice_credited

abbrev pub debited : Tree
debited = put sample_digest credited to_alice alice_paid

abbrev pub after : Tree
after = put sample_digest debited to_bob bob_paid

abbrev pub answers : Answers
answers =
    (root sample_digest before, entry before to_alice alice ∷ [])
    ∷ (
      root sample_digest credited,
      entry credited to_alice alice_credited ∷ entry credited to_bob bob_new ∷ [],
    )
    ∷ (root sample_digest debited, entry debited to_bob bob_new ∷ [])
    ∷ []

abbrev pub block : PendingBlock
block = record {
  block_number = 1;
  txs = payment ∷ [];
  deposits = deposit ∷ [];
  forced_txs = dummy ∷ [];
  pre_state_root = root sample_digest before;
  post_state_root = root sample_digest after;
}

abbrev pub bundle : ProofBundle
bundle =
    bundle_of (opening sample_digest before to_alice alice ∷ [])
      ((dummy_proof default, dummy_proof default) ∷ [])
      ((
        opening sample_digest credited to_alice alice_credited,
        opening sample_digest debited to_bob bob_new,
      )
        ∷ [])

sender-Opens :
    Opens sample_digest recorded_db sample_codec answers
      (root sample_digest before)
      (id_of 1)
      (opening sample_digest before to_alice alice)
unfolding build_stf_proof get_account get_proof to_siblings verify compute_new_root climb root
    siblings sample_codec sample_digest lookup bytes_eq Account.new set_leaf hash_nodes Account.hash
sender-Opens = record { built = refl; verified = refl }

credited-Opens :
    Opens sample_digest recorded_db sample_codec answers
      (root sample_digest credited)
      (id_of 1)
      (opening sample_digest credited to_alice alice_credited)
unfolding build_stf_proof get_account get_proof to_siblings verify compute_new_root climb root
    siblings sample_codec sample_digest lookup bytes_eq Account.new set_leaf hash_nodes Account.hash
credited-Opens = record { built = refl; verified = refl }

recipient-Opens :
    Opens sample_digest recorded_db sample_codec answers
      (root sample_digest debited)
      (id_of 2)
      (opening sample_digest debited to_bob bob_new)
unfolding build_stf_proof get_account get_proof to_siblings verify compute_new_root climb root
    siblings sample_codec sample_digest lookup bytes_eq Account.new set_leaf hash_nodes Account.hash
recipient-Opens = record { built = refl; verified = refl }

sender_found :
    get_account recorded_db sample_codec answers (some (root sample_digest credited)) (id_of 1)
    ≡ ok alice_credited
unfolding build_stf_proof get_account get_proof to_siblings verify compute_new_root climb root
    siblings sample_codec sample_digest lookup bytes_eq Account.new set_leaf hash_nodes Account.hash
sender_found = refl

recipient_found :
    build_stf_proof recorded_db sample_codec answers (root sample_digest credited) (id_of 2)
    ≡ ok (opening sample_digest credited to_bob bob_new)
unfolding build_stf_proof get_account get_proof to_siblings verify compute_new_root climb root
    siblings sample_codec sample_digest lookup bytes_eq Account.new set_leaf hash_nodes Account.hash
recipient_found = refl

pub block_replay : BlockReplay sample_digest recorded_db sample_codec answers block bundle
unfolding Apply.apply_deposit Apply.apply_transaction Account.new bytes_eq compute_new_root root
    siblings set_leaf
block_replay = record {
  after_deposits = root sample_digest credited;
  after_forced = root sample_digest credited;
  deposits = bundle.proofs_deposits;
  forced = (dummy_proof default, dummy_proof default) ∷ [];
  txs =
      (
        opening sample_digest credited to_alice alice_credited,
        opening sample_digest debited to_bob bob_new,
      )
      ∷ [];
  deposit_replay =
      DepositReplay.credit deposit (opening sample_digest before to_alice alice) alice_credited
        sender-Opens refl DepositReplay.done;
  forced_replay = ForcedReplay.skipped dummy refl ForcedReplay.done;
  tx_replay =
      TxReplay.paid payment (opening sample_digest credited to_alice alice_credited)
        (opening sample_digest credited to_bob bob_new)
        (opening sample_digest debited to_bob bob_new) alice_credited alice_paid bob_paid
        sender_found credited-Opens recipient_found refl refl recipient-Opens TxReplay.done;
  bundle-eq = refl;
}

-- A first block, on the empty state.
abbrev genesis : PendingBlock
genesis = record {
  block_number = 0;
  txs = [];
  deposits = deposit ∷ [];
  forced_txs = [];
  pre_state_root = default;
  post_state_root = Account.hash sample_digest (record { id = id_of 1; balance = 50; nonce = 0 });
}

abbrev genesis_bundle : ProofBundle
genesis_bundle = bundle_of (dummy_proof (id_of 1) ∷ []) [] []

genesis_generated :
    generate_proofs_for_block sample_digest recorded_db sample_codec [] genesis ≡ ok genesis_bundle
unfolding generate_proofs_for_block build_stf_proof get_account get_proof to_siblings verify
    compute_new_root climb root siblings sample_codec sample_digest lookup bytes_eq Account.new
    set_leaf hash_nodes Account.hash Apply.apply_deposit
genesis_generated = refl

new_account_bytes : bytes_eq (Account.hash sample_digest (Account.new (id_of 1))) default ≡ false
unfolding Account.new Account.hash sample_digest bytes_eq
new_account_bytes = refl

pub new_account_hash : Account.hash sample_digest (Account.new (id_of 1)) ≢ default
new_account_hash e =
    let same : bytes_eq (Account.hash sample_digest (Account.new (id_of 1))) default ≡ true =
      (bytes_eq_iff _ _).1 e in
    cc (new_account_bytes, same)

genesis_deposit_refused_example :
    execute_transition sample_digest sample_digest abi default []
      (deposit ∷ [])
      []
      (written genesis_bundle)
    ≡ err merkle_proof_verification_failed
genesis_deposit_refused_example =
    genesis_deposit_refused sample_digest recorded_db sample_codec [] sample_digest abi 0 [] deposit
      [] [] genesis.post_state_root genesis_bundle new_account_hash genesis_generated

-- Alice with the largest balance there is.
abbrev rich : Account
rich = record { id = id_of 1; balance = u64_mod - 1; nonce = 0 }

abbrev rich_tree : Tree
rich_tree = leaf (Account.hash sample_digest rich)

abbrev rich_answers : Answers
rich_answers = (root sample_digest rich_tree, entry rich_tree [] rich ∷ []) ∷ []

abbrev rich_proof : MerkleProof
rich_proof = record { account = rich; siblings = [] }

abbrev rich_bundle : ProofBundle
rich_bundle = bundle_of (rich_proof ∷ []) [] []

rich_found :
    build_stf_proof recorded_db sample_codec rich_answers (root sample_digest rich_tree) (id_of 1)
    ≡ ok rich_proof
unfolding generate_proofs_for_block build_stf_proof get_account get_proof to_siblings verify
    compute_new_root climb root siblings sample_codec sample_digest lookup bytes_eq Account.new
    set_leaf hash_nodes Account.hash Apply.apply_deposit
rich_found = refl

rich_generated :
    generate_proofs_for_block sample_digest recorded_db sample_codec rich_answers (record {
      block_number = 1;
      txs = [];
      deposits = deposit ∷ [];
      forced_txs = [];
      pre_state_root = root sample_digest rich_tree;
      post_state_root = root sample_digest rich_tree;
    })
    ≡ ok rich_bundle
unfolding generate_proofs_for_block build_stf_proof get_account get_proof to_siblings verify
    compute_new_root climb root siblings sample_codec sample_digest lookup bytes_eq Account.new
    set_leaf hash_nodes Account.hash Apply.apply_deposit
rich_generated = refl
