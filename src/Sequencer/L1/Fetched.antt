-- ===== src/Sequencer/L1/Fetched.antt =====
-- `fetch_new_deposits` and `fetch_new_forced_txs` (crates/sequencer/src/main.rs) on the L1 contract:
-- what they bring of its arrays.
use tiny_sp1_rollup.Base.{
  ◌≡◌, refl, ap, ap₂, ℕ, ◌+◌, ◌-◌, ◌≤◌, List, [], ◌∷◌, map, String, Option, none, some, Outcome, ok,
  collect, arith, length, take, drop, All, ltb, leb, le→leb, lt→ltb, true, Bool-cases, inl, inr,
  zero, suc,
}
use tiny_sp1_rollup.Base.Bytes.{Bytes, u64_mod, IsU64}
use tiny_sp1_rollup.Stf.Types.{Deposit, ForcedTx}
use tiny_sp1_rollup.Stf.Commitment.{
  DepositL1, ForcedTransactionL1, deposit_l1, forced_transaction_l1,
}
use tiny_sp1_rollup.Core.Block.{address_to_hash, drop-address_to_hash}
use tiny_sp1_rollup.Contract.{Contract, get_deposits, get_forced_transactions}
use tiny_sp1_rollup.Contract.Invariant.{IsWellFormed}
use tiny_sp1_rollup.Sequencer.L1.{
  Bridge, to_u64, deposit_of, fetch_new_deposits, stamped, forced_of, fetch_new_forced_txs,
}

-- The contract as its views show it, no call failing.
abbrev pub bridge_of : Contract → Bridge
bridge_of c = record {
  processed_deposit_count = ok c.processed_deposit_count;
  deposit_count = ok c.deposit_count;
  get_deposits = get_deposits c;
  processed_forced_tx_count = ok c.processed_forced_tx_count;
  forced_tx_count = ok c.forced_tx_count;
  get_forced_transactions = get_forced_transactions c;
}

-- A deposit that the sequencer can represent.
abbrev pub FitsDeposit : DepositL1 → Type 0
FitsDeposit d = IsU64 d.amount × IsU64 d.timestamp × (length d.user ≡ 20)

abbrev pub FitsForced : ForcedTransactionL1 → Type 0
FitsForced f = IsU64 f.timestamp

-- A list that is collected, and reads back as the one it came from.
abbrev pub ReadsBack : {A B : Type 0} → (B → A) → List A → Outcome String (List B) → Type 0
ReadsBack {B = B} back xs r = (ys : List B) × (r ≡ ok ys) × (map back ys ≡ xs)

collect-ReadsBack :
    {A B : Type 0} (P : A → Type 0) (f : A → Outcome String B) (back : B → A)
    → ((x : A) → P x → (y : B) × (f x ≡ ok y) × (back y ≡ x))
    → (xs : List A) → All P xs
    → ReadsBack back xs (collect f xs)
unfolding collect
collect-ReadsBack P f back h [] p = ([], refl, refl)
collect-ReadsBack P f back h (x ∷ xs) p =
    let (y, e, same) = h x p.0 in
    let (ys, es, sames) = collect-ReadsBack P f back h xs p.1 in
    (y ∷ ys, rw (e, es), ap₂ ◌∷◌ same sames)

to_u64-ok : (n : ℕ) → IsU64 n → to_u64 n ≡ ok n
to_u64-ok n h = rw (lt→ltb n u64_mod h)

pub deposit_of-ok :
    (d : DepositL1) → FitsDeposit d → (y : Deposit) × (deposit_of d ≡ ok y) × (deposit_l1 y ≡ d)
unfolding deposit_of
deposit_of-ok d h = (
  record { to = address_to_hash d.user; amount = d.amount; timestamp = d.timestamp },
  rw (to_u64-ok d.amount h.0, to_u64-ok d.timestamp h.1),
  rw ((drop-address_to_hash d.user h.2).1),
)

forced_l1_stamped :
    (deserialize : Bytes → Option ForcedTx) (calldata : Bytes) (timestamp : ℕ) (o : Option ForcedTx)
    → forced_transaction_l1 (stamped calldata timestamp o)
      ≡ record { calldata = calldata; timestamp = timestamp }
forced_l1_stamped deserialize calldata timestamp none = refl
forced_l1_stamped deserialize calldata timestamp (some tx) = refl

take_all : {A : Type 0} (xs : List A) → take (length xs) xs ≡ xs
take_all [] = refl
take_all (x ∷ xs) = rw (take_all xs)

take-length-drop :
    {A : Type 0} (n : ℕ) (xs : List A)
    → n ≤ length xs
    → take (length xs - n) (drop n xs) ≡ drop n xs
take-length-drop zero xs h =
    let same : length xs - 0 ≡ length xs = omega arith in rw same (take_all xs)
take-length-drop (suc n) [] h = absurd (omega arith)
take-length-drop (suc n) (x ∷ xs) h =
    let fewer : suc (length xs) - suc n ≡ length xs - n = omega arith in
    rw fewer (take-length-drop n xs (omega arith))

drop-length : {A : Type 0} (n : ℕ) (xs : List A) → length xs ≤ n → drop n xs ≡ []
drop-length zero [] h = refl
drop-length (suc n) [] h = refl
drop-length zero (x ∷ xs) h = absurd (omega arith)
drop-length (suc n) (x ∷ xs) h = drop-length n xs (omega arith)

get_deposits-rest :
    (c : Contract)
    → IsWellFormed c
    → get_deposits c c.processed_deposit_count (c.deposit_count - c.processed_deposit_count)
      ≡ ok (drop c.processed_deposit_count c.pending_deposits)
unfolding get_deposits
get_deposits-rest c h =
    let le : leb (c.processed_deposit_count + (c.deposit_count - c.processed_deposit_count))
          c.deposit_count
        ≡ true =
      le→leb _ _ (omega (arith, h)) in
    rw (le, h.deposits)
      (ap ok (take-length-drop c.processed_deposit_count c.pending_deposits (omega (arith, h))))

get_forced_transactions-rest :
    (c : Contract)
    → IsWellFormed c
    → get_forced_transactions c c.processed_forced_tx_count
        (c.forced_tx_count - c.processed_forced_tx_count)
      ≡ ok (drop c.processed_forced_tx_count c.forced_transactions)
unfolding get_forced_transactions
get_forced_transactions-rest c h =
    let le : leb (c.processed_forced_tx_count + (c.forced_tx_count - c.processed_forced_tx_count))
          c.forced_tx_count
        ≡ true =
      le→leb _ _ (omega (arith, h)) in
    rw (le, h.forced_txs)
      (ap ok
        (take-length-drop c.processed_forced_tx_count c.forced_transactions (omega (arith, h))))

-- A fetch converts what is not processed yet, in its order.
pub fetch_new_deposits-rest :
    (c : Contract)
    → IsWellFormed c
    → IsU64 c.deposit_count
    → fetch_new_deposits (bridge_of c)
      ≡ collect deposit_of (drop c.processed_deposit_count c.pending_deposits)
unfolding fetch_new_deposits collect
fetch_new_deposits-rest c h few =
    elim (Bool-cases (ltb c.processed_deposit_count c.deposit_count)) [
      | inl new ↦ rw (
        to_u64-ok c.processed_deposit_count (omega (arith, h)),
        to_u64-ok c.deposit_count few,
        new,
        get_deposits-rest c h,
      )
      | inr old ↦ rw (
        to_u64-ok c.processed_deposit_count (omega (arith, h)),
        to_u64-ok c.deposit_count few,
        old,
        drop-length c.processed_deposit_count c.pending_deposits (ground (arith, h)),
      )
    ]

fetch_new_forced_txs-rest :
    (deserialize : Bytes → Option ForcedTx) (c : Contract)
    → IsWellFormed c
    → IsU64 c.forced_tx_count
    → fetch_new_forced_txs deserialize (bridge_of c)
      ≡ collect (forced_of deserialize) (drop c.processed_forced_tx_count c.forced_transactions)
unfolding fetch_new_forced_txs collect
fetch_new_forced_txs-rest deserialize c h few =
    elim (Bool-cases (ltb c.processed_forced_tx_count c.forced_tx_count)) [
      | inl new ↦ rw (
        to_u64-ok c.processed_forced_tx_count (omega (arith, h)),
        to_u64-ok c.forced_tx_count few,
        new,
        get_forced_transactions-rest c h,
      )
      | inr old ↦ rw (
        to_u64-ok c.processed_forced_tx_count (omega (arith, h)),
        to_u64-ok c.forced_tx_count few,
        old,
        drop-length c.processed_forced_tx_count c.forced_transactions (ground (arith, h)),
      )
    ]

forced_of-ok :
    (deserialize : Bytes → Option ForcedTx) (f : ForcedTransactionL1)
    → FitsForced f
    → (y : ForcedTx) × (forced_of deserialize f ≡ ok y) × (forced_transaction_l1 y ≡ f)
unfolding forced_of
forced_of-ok deserialize f h = (
  stamped f.calldata f.timestamp (deserialize f.calldata),
  rw (to_u64-ok f.timestamp h),
  forced_l1_stamped deserialize f.calldata f.timestamp (deserialize f.calldata),
)

-- The fetches bring the whole backlog of the contract, in its order and as the guest will hash it.
-- If the contract's counters are right and fit 64 bits, and every unprocessed deposit has an address
-- of 20 bytes and, as every unprocessed forced transaction, numbers of 64 bits, then both fetches
-- return; and the L1 structures that the guest hashes for what they return are the contract's
-- arrays behind the processed counts, calldata that does not decode included.
pub fetched-ReadsBack :
    (deserialize : Bytes → Option ForcedTx) (c : Contract)
    → IsWellFormed c
    → IsU64 c.deposit_count
    → IsU64 c.forced_tx_count
    → All FitsDeposit (drop c.processed_deposit_count c.pending_deposits)
    → All FitsForced (drop c.processed_forced_tx_count c.forced_transactions)
    → ReadsBack deposit_l1
        (drop c.processed_deposit_count c.pending_deposits)
        (fetch_new_deposits (bridge_of c))
      × ReadsBack forced_transaction_l1
          (drop c.processed_forced_tx_count c.forced_transactions)
          (fetch_new_forced_txs deserialize (bridge_of c))
fetched-ReadsBack deserialize c h few few' fit fit' = (
  rw (fetch_new_deposits-rest c h few)
      (collect-ReadsBack FitsDeposit deposit_of deposit_l1 deposit_of-ok _ fit),
  rw (fetch_new_forced_txs-rest deserialize c h few') (
      collect-ReadsBack FitsForced (forced_of deserialize) forced_transaction_l1
        (forced_of-ok deserialize) _ fit'),
)
