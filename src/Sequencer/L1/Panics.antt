-- ===== src/Sequencer/L1/Panics.antt =====
-- `fetch_new_deposits` (crates/sequencer/src/main.rs) on a deposit that a u64 does not hold.
use tiny_sp1_rollup.Base.{
  ◌≡◌, refl, ◌∙◌, ℕ, ◌≤◌, List, [], ◌∷◌, ◌++◌, String, Outcome, ok, panic, collect, arith, length,
  drop, ltb, Bool-cases, ◌⊎◌, inl, inr, zero, suc,
}
use tiny_sp1_rollup.Base.Bytes.{u64_mod, IsU64}
use tiny_sp1_rollup.Stf.Types.{Deposit}
use tiny_sp1_rollup.Stf.Commitment.{DepositL1}
use tiny_sp1_rollup.Core.Block.{address_to_hash}
use tiny_sp1_rollup.Contract.{Contract}
use tiny_sp1_rollup.Contract.Invariant.{IsWellFormed}
use tiny_sp1_rollup.Sequencer.L1.{deposit_of, fetch_new_deposits}
use tiny_sp1_rollup.Sequencer.L1.Fetched.{bridge_of, fetch_new_deposits-rest}

-- A conversion that only returns or panics panics on a list with an item on which it panics.
collect-panic :
    {A B : Type 0} (f : A → Outcome String B) (x : A)
    → ((y : A) → ((z : B) × (f y ≡ ok z)) ⊎ (f y ≡ panic))
    → f x ≡ panic
    → (before after : List A) → collect f (before ++ (x ∷ after)) ≡ panic
unfolding collect
collect-panic f x total bad [] after = rw bad
collect-panic f x total bad (y ∷ before) after = elim (total y) [
  | inl (z, e) ↦ rw (e, collect-panic f x total bad before after)
  | inr e ↦ rw e
]

deposit_of-total :
    (d : DepositL1) → ((y : Deposit) × (deposit_of d ≡ ok y)) ⊎ (deposit_of d ≡ panic)
unfolding deposit_of
deposit_of-total d = elim (Bool-cases (ltb d.amount u64_mod)) [
  | inl small ↦ elim (Bool-cases (ltb d.timestamp u64_mod)) [
    | inl early ↦ inl (
      record { to = address_to_hash d.user; amount = d.amount; timestamp = d.timestamp },
      rw (small, early),
    )
    | inr late ↦ inr (rw (small, late))
  ]
  | inr large ↦ inr (rw large)
]

drop-append_le :
    {A : Type 0} (n : ℕ) (xs ys : List A) → n ≤ length xs → drop n (xs ++ ys) ≡ drop n xs ++ ys
drop-append_le zero xs ys h = refl
drop-append_le (suc n) [] ys h = absurd (omega arith)
drop-append_le (suc n) (x ∷ xs) ys h = drop-append_le n xs ys (omega arith)

-- One large deposit stops the sequencer. While a deposit of 2^64 wei or more waits in a contract
-- whose counters are right and fit 64 bits, whatever waits before and after it, the fetch of the
-- deposits panics.
pub large_deposit_panics :
    (c : Contract) (before after : List DepositL1) (d : DepositL1)
    → IsWellFormed c
    → IsU64 c.deposit_count
    → c.pending_deposits ≡ before ++ (d ∷ after)
    → c.processed_deposit_count ≤ length before
    → u64_mod ≤ d.amount
    → fetch_new_deposits (bridge_of c) ≡ panic
unfolding deposit_of
large_deposit_panics c before after d h few held waits large =
    fetch_new_deposits-rest c h few
    ∙ rw (held, drop-append_le c.processed_deposit_count before (d ∷ after) waits)
        (collect-panic deposit_of d deposit_of-total (ground arith)
          (drop c.processed_deposit_count before) after)
