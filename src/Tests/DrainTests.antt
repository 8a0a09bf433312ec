-- ===== src/Tests/DrainTests.antt =====
-- The theorem on the rounds of the prover's worker at a queue of two blocks.
use tiny_sp1_rollup.Base.{
  ◌≡◌, refl, ap, sym, ◌∙◌, ℕ, true, false, List, [], ◌∷◌, ◌++◌, Option, none, some, ok, arith, inl,
  inr, Bool-cases, Option-cases,
}
use tiny_sp1_rollup.Base.Bytes.{Bytes, bytes_eq_refl, to_be_bytes}
use tiny_sp1_rollup.Stf.Digest.{sample_digest}
use tiny_sp1_rollup.Core.Block.{PendingBlock}
use tiny_sp1_rollup.Sequencer.Queue.{
  ColumnFamily, pending_blocks, meta, counter_key, Put, commit_optimistic_block,
}
use tiny_sp1_rollup.Sequencer.Queue.Counter.{same_cf, put_of}
use tiny_sp1_rollup.Sequencer.Queue.KeyOrder.{leb_bytes}
use tiny_sp1_rollup.Sequencer.Queue.Pending.{IsQueue, commit-IsQueue}
use tiny_sp1_rollup.Sequencer.Prove.{delivered}
use tiny_sp1_rollup.Sequencer.Prove.Round.Drained.{
  IsAvailable, prover_rounds, prover_rounds-settle_all,
}
use tiny_sp1_rollup.Tests.BlockBytes.{sample_blocks, sample_blocks-RoundTrips, encode_block}
use tiny_sp1_rollup.Tests.QueueTests.{sample_rocks, sample_stores, empty, least, smaller, without}
use tiny_sp1_rollup.Tests.RoundTests.{sample_keys}
use tiny_sp1_rollup.Tests.FifoTests.{start, sample_order}
use tiny_sp1_rollup.Tests.Guest.{guest_abi, decode, gateway, honest_attempt, reliable}
use tiny_sp1_rollup.Stf.Digest.{default}
use tiny_sp1_rollup.Stf.Commitment.{deposit_l1}
use tiny_sp1_rollup.Contract.Accepts.{Waits}
use tiny_sp1_rollup.Sequencer.Prove.{ProverState}
use tiny_sp1_rollup.Sequencer.Prove.Round.Drained.{AreIdle}
use tiny_sp1_rollup.Tests.Data.{deposit, dummy}
use tiny_sp1_rollup.Tests.IdleTests.{skipping, nothing, skipping-IsIdle, nothing-IsIdle}
use tiny_sp1_rollup.Tests.SequencerTests.{no_roots}
use tiny_sp1_rollup.Tests.WorkerTests.{waiting}
use tiny_sp1_rollup.Tests.Store.{sample_db, sample_codec}

-- The key of a put has a value, and so the least key.
put_first :
    (cf : ColumnFamily) (p : Put) (puts : List Put)
    → same_cf cf p.cf ≡ true
    → (v : Bytes) × (put_of cf p.key (p ∷ puts) ≡ some v)
unfolding put_of
put_first cf p puts same = elim (Option-cases (put_of cf p.key puts)) [
  | inl gone ↦ (p.value, rw (gone, same, bytes_eq_refl p.key) refl)
  | inr (v, there) ↦ (v, rw there refl)
]

put_later :
    (cf : ColumnFamily) (p : Put) (puts : List Put) (key v : Bytes)
    → put_of cf key puts ≡ some v
    → put_of cf key (p ∷ puts) ≡ some v
unfolding put_of
put_later cf p puts key v there = rw there refl

smaller-cases :
    (cf : ColumnFamily) (p : Put) (puts : List Put) (o : Option Bytes)
    → same_cf cf p.cf ≡ true
    → ((m : Bytes) → o ≡ some m → (v : Bytes) × (put_of cf m puts ≡ some v))
    → (v : Bytes) × (put_of cf (smaller p.key o) (p ∷ puts) ≡ some v)
smaller-cases cf p puts none same ih = put_first cf p puts same
smaller-cases cf p puts (some m) same ih = elim (Bool-cases (leb_bytes p.key m)) [
  | inl le ↦ rw le (put_first cf p puts same)
  | inr gt ↦ let (v, there) = ih m refl in rw gt (v, put_later cf p puts m v there)
]

least-put :
    (cf : ColumnFamily) (puts : List Put) (m : Bytes)
    → least cf puts ≡ some m
    → (v : Bytes) × (put_of cf m puts ≡ some v)
unfolding least
least-put cf [] m e = absurd (cc)
least-put cf (p ∷ puts) m e = elim (Bool-cases (same_cf cf p.cf)) [
  | inl same ↦
      let found : smaller p.key (least cf puts) ≡ m = cc (rw same at e) in
      let (v, there) = smaller-cases cf p puts (least cf puts) same (least-put cf puts) in
      (v, ap (λ k. put_of cf k (p ∷ puts)) (sym found) ∙ there)
  | inr differ ↦
      let (v, there) = least-put cf puts m (rw differ at e) in (v, put_later cf p puts m v there)
]

sample_available : IsAvailable sample_rocks
unfolding sample_rocks
sample_available = record {
  first-ok = λ db cf. elim (Option-cases (least cf db)) [
    | inl nothing ↦ inl (rw nothing refl)
    | inr (m, found) ↦
        let (v, there) = least-put cf db m found in inr (m, v, rw (found, there) refl)
  ];
  delete_cf-ok = λ db cf key. (without cf key db, refl, λ cf'. refl);
}

abbrev puts_of : PendingBlock → ℕ → List Put
puts_of b next =
    record { cf = pending_blocks; key = to_be_bytes 8 b.block_number; value = encode_block b }
    ∷ record { cf = meta; key = counter_key; value = to_be_bytes 8 next }
    ∷ []

one_pending : sample_rocks.Db
unfolding sample_rocks
one_pending = puts_of skipping 2

two_pending : sample_rocks.Db
unfolding sample_rocks one_pending
two_pending = one_pending ++ puts_of nothing 3

commit_first :
    commit_optimistic_block sample_rocks sample_blocks empty skipping 2 ≡ (one_pending, ok tt)
unfolding commit_optimistic_block sample_rocks empty one_pending sample_blocks
commit_first = refl

commit_second :
    commit_optimistic_block sample_rocks sample_blocks one_pending nothing 3 ≡ (two_pending, ok tt)
unfolding commit_optimistic_block sample_rocks two_pending sample_blocks
commit_second = refl

two_pending-IsQueue : IsQueue sample_rocks sample_blocks two_pending (skipping ∷ nothing ∷ [])
two_pending-IsQueue =
    commit-IsQueue sample_rocks sample_blocks sample_stores sample_keys sample_order
      sample_blocks-RoundTrips one_pending two_pending nothing 3 (skipping ∷ [])
      (commit-IsQueue sample_rocks sample_blocks sample_stores sample_keys sample_order
        sample_blocks-RoundTrips empty one_pending skipping 2 [] start (omega arith) tt
        commit_first)
      (omega arith) (omega arith, tt) commit_second

opened : sample_rocks.cf_handle two_pending pending_blocks ≡ true
unfolding sample_rocks
opened = refl

waiting_forced : Waits waiting [] (dummy ∷ [])
waiting_forced = record {
  before = [];
  after = deposit_l1 deposit ∷ [];
  before_forced = [];
  after_forced = [];
  held = refl;
  processed = refl;
  held_forced = refl;
  processed_forced = refl;
}

-- The prover at its start.
abbrev ready : ProverState sample_db.Tree
ready = record { tree = no_roots; poisoned = false; proven = default; contract = waiting }

abbrev done : ProverState sample_db.Tree
done = record ready { contract = record waiting { processed_forced_tx_count = 1 } }

are_idle : AreIdle default (skipping ∷ nothing ∷ [])
are_idle = (refl, skipping-IsIdle, omega arith, (refl, nothing-IsIdle, omega arith, tt))

prover_rounds-settle_all_example :
    (queue' : sample_rocks.Db) × (prover_rounds sample_rocks sample_blocks sample_digest
        sample_digest guest_abi gateway sample_db sample_codec decode true
        (λ b n. honest_attempt delivered)
        2
        two_pending
        ready
      ≡ (queue', done))
    × IsQueue sample_rocks sample_blocks queue' []
prover_rounds-settle_all_example =
    prover_rounds-settle_all sample_rocks sample_blocks sample_digest sample_digest guest_abi
      gateway sample_db sample_codec decode sample_stores sample_keys sample_order
      sample_blocks-RoundTrips sample_available (λ b n. honest_attempt delivered) (λ b. reliable)
      (skipping ∷ nothing ∷ []) two_pending ready two_pending-IsQueue opened refl are_idle
      waiting_forced
