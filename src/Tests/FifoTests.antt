-- ===== src/Tests/FifoTests.antt =====
-- The theorems on the queue at a database that iterates in the order of the keys: two blocks are
-- committed, and the first is shown and removed before the second.
use tiny_sp1_rollup.Base.{
  ◌≡◌, refl, ap, ℕ, true, arith, List, [], ◌∷◌, ◌++◌, Option, none, some, ok, ok-injective,
  Option-cases, Bool-cases, inl, inr,
}
use tiny_sp1_rollup.Base.Bytes.{Bytes, bytes_eq, bytes_eq_iff, to_be_bytes}
use tiny_sp1_rollup.Stf.Digest.{default}
use tiny_sp1_rollup.Core.Block.{PendingBlock}
use tiny_sp1_rollup.Sequencer.Queue.{
  ColumnFamily, pending_blocks, meta, counter_key, Put, peek_pending, remove_pending,
  commit_optimistic_block,
}
use tiny_sp1_rollup.Sequencer.Queue.Counter.{same_cf, put_of}
use tiny_sp1_rollup.Sequencer.Queue.KeyOrder.{
  leb_bytes, leb_bytes_refl, leb_bytes-total, leb_bytes_trans,
}
use tiny_sp1_rollup.Sequencer.Queue.Keys.{IteratesInOrder}
use tiny_sp1_rollup.Sequencer.Queue.Entries.{stored}
use tiny_sp1_rollup.Sequencer.Queue.Pending.{IsQueue}
use tiny_sp1_rollup.Sequencer.Queue.Fifo.{Run, Run-drained}
use tiny_sp1_rollup.Tests.BlockBytes.{
  encode_block, decode_block, sample_blocks, sample_blocks-RoundTrips,
}
use tiny_sp1_rollup.Tests.QueueTests.{
  without, least, entry_at, smaller, entry, empty, sample_rocks, sample_stores,
}
use tiny_sp1_rollup.Tests.RoundTests.{sample_keys}

smaller-le : (key m : Bytes) → leb_bytes (smaller key (some m)) m ≡ true
smaller-le key m = elim (Bool-cases (leb_bytes key m)) [
  | inl le ↦ rw le (le)
  | inr gt ↦ rw gt (leb_bytes_refl m)
]

smaller-le_key : (key : Bytes) (o : Option Bytes) → leb_bytes (smaller key o) key ≡ true
smaller-le_key key none = leb_bytes_refl key
smaller-le_key key (some m) = elim (Bool-cases (leb_bytes key m)) [
  | inl le ↦ rw le (leb_bytes_refl key)
  | inr gt ↦ rw gt (leb_bytes-total key m gt)
]

-- A key with a value is not below the least.
least-le :
    (cf : ColumnFamily) (puts : List Put) (key value : Bytes)
    → put_of cf key puts ≡ some value
    → (m : Bytes) × (least cf puts ≡ some m) × (leb_bytes m key ≡ true)
unfolding put_of least
least-le cf [] key value e = absurd (cc)
least-le cf (p ∷ puts) key value e = elim (Bool-cases (same_cf cf p.cf)) [
  | inl same ↦ elim (Option-cases (put_of cf key puts)) [
    | inl gone ↦
        let here : bytes_eq key p.key ≡ true = ground (arith, same, gone, e) in
        (
          smaller p.key (least cf puts),
          rw same refl,
          rw ((bytes_eq_iff key p.key).0 here) (smaller-le_key p.key (least cf puts)),
        )
    | inr (v, there) ↦
        let (m, found, le) = least-le cf puts key v there in
        (
          smaller p.key (some m),
          rw (same, found) refl,
          leb_bytes_trans (smaller p.key (some m)) m key (smaller-le p.key m) le,
        )
  ]
  | inr differ ↦
      let there : put_of cf key puts ≡ some value = ground (arith, differ, e) in
      let (m, found, le) = least-le cf puts key value there in (m, rw (differ, found) refl, le)
]

entry-some :
    (k : Bytes) (o : Option Bytes) (key value : Bytes)
    → entry k o ≡ some (ok (key, value))
    → (k ≡ key) × (o ≡ some value)
entry-some k none key value e = absurd (cc)
entry-some k (some v) key value e = (cc, cc)

entry-ne-none : (k : Bytes) (o : Option Bytes) → entry k o ≡ none → ⊥
entry-ne-none k none e = cc
entry-ne-none k (some v) e = cc

entry_at-some :
    (o : Option Bytes) (value_of : Bytes → Option Bytes) (key value : Bytes)
    → entry_at o value_of ≡ some (ok (key, value))
    → (o ≡ some key) × (value_of key ≡ some value)
entry_at-some none value_of key value e = absurd (cc)
entry_at-some (some k) value_of key value e =
    let (same, found) = entry-some k (value_of k) key value e in (ap some same, cc (same, found))

entry_at-none :
    (o : Option Bytes) (value_of : Bytes → Option Bytes) → entry_at o value_of ≡ none → o ≡ none
entry_at-none none value_of e = refl
entry_at-none (some k) value_of e = absurd (entry-ne-none k (value_of k) e)

pub sample_order : IteratesInOrder sample_rocks
unfolding sample_rocks
sample_order = record {
  first-none = λ db cf e key. elim (Option-cases (put_of cf key db)) [
    | inl gone ↦ ap ok gone
    | inr (v, there) ↦
        let (m, found, _) = least-le cf db key v there in
        let nothing = entry_at-none (least cf db) (λ k. put_of cf k db) e in
        absurd (cc (found, nothing))
  ];
  get_cf-first =
      λ db cf key value e. ap ok (entry_at-some (least cf db) (λ k. put_of cf k db) key value e).1;
  first-le = λ db cf key value e key' value' e'.
      let (m, found, le) = least-le cf db key' value' (ok-injective e') in
      let same : m ≡ key =
        cc (found, (entry_at-some (least cf db) (λ k. put_of cf k db) key value e).0) in
      rw same at le;
}

abbrev block_of : ℕ → PendingBlock
block_of n = record {
  block_number = n;
  txs = [];
  deposits = [];
  forced_txs = [];
  pre_state_root = default;
  post_state_root = [];
}

abbrev puts_of : PendingBlock → ℕ → List Put
puts_of b next =
    record { cf = pending_blocks; key = to_be_bytes 8 b.block_number; value = encode_block b }
    ∷ record { cf = meta; key = counter_key; value = to_be_bytes 8 next }
    ∷ []

two_pending : sample_rocks.Db
unfolding sample_rocks
two_pending = puts_of (block_of 1) 2 ++ puts_of (block_of 2) 3

one_pending : sample_rocks.Db
unfolding sample_rocks
one_pending = puts_of (block_of 1) 2

one_removed : sample_rocks.Db
unfolding sample_rocks two_pending without same_cf bytes_eq to_be_bytes
one_removed = without pending_blocks (to_be_bytes 8 1) two_pending

all_removed : sample_rocks.Db
unfolding sample_rocks one_removed
all_removed = without pending_blocks (to_be_bytes 8 2) one_removed

pub start : IsQueue sample_rocks sample_blocks empty []
unfolding sample_rocks empty stored put_of
start = record { ascending = tt; stores = tt; entries = λ key. refl }

commit_first :
    commit_optimistic_block sample_rocks sample_blocks empty (block_of 1) 2 ≡ (one_pending, ok tt)
unfolding commit_optimistic_block sample_rocks empty one_pending sample_blocks
commit_first = refl

commit_second :
    commit_optimistic_block sample_rocks sample_blocks one_pending (block_of 2) 3
    ≡ (two_pending, ok tt)
unfolding commit_optimistic_block sample_rocks one_pending two_pending sample_blocks
commit_second = refl

peek_first : peek_pending sample_rocks sample_blocks two_pending ≡ ok (some (block_of 1))
unfolding peek_pending sample_rocks least put_of two_pending same_cf bytes_eq to_be_bytes leb_bytes
    sample_blocks
peek_first = refl

remove_first : remove_pending sample_rocks two_pending 1 ≡ (one_removed, ok tt)
unfolding remove_pending sample_rocks one_removed
remove_first = refl

peek_second : peek_pending sample_rocks sample_blocks one_removed ≡ ok (some (block_of 2))
unfolding peek_pending sample_rocks least put_of one_removed without two_pending same_cf bytes_eq
    to_be_bytes leb_bytes sample_blocks decode_block encode_block
peek_second = refl

remove_second : remove_pending sample_rocks one_removed 2 ≡ (all_removed, ok tt)
unfolding remove_pending sample_rocks all_removed
remove_second = refl

peek_none : peek_pending sample_rocks sample_blocks all_removed ≡ ok none
unfolding peek_pending sample_rocks least put_of all_removed one_removed without two_pending same_cf
    bytes_eq to_be_bytes leb_bytes sample_blocks decode_block encode_block
peek_none = refl

abbrev both : List PendingBlock
both = block_of 1 ∷ block_of 2 ∷ []

two_pending-Run : Run sample_rocks sample_blocks empty two_pending both [] (some (block_of 1))
two_pending-Run =
    Run.peeks (some (block_of 1))
      (Run.commits (block_of 2) 3
        (Run.commits (block_of 1) 2 Run.starts (omega arith) tt commit_first) (omega arith)
        (omega arith, tt) commit_second)
      peek_first

all_removed-Run : Run sample_rocks sample_blocks empty all_removed both both none
all_removed-Run =
    Run.removes (block_of 2)
      (Run.peeks (some (block_of 2)) (Run.removes (block_of 1) two_pending-Run remove_first)
        peek_second)
      remove_second

Run-drained_example : both ≡ both
Run-drained_example =
    Run-drained sample_rocks sample_blocks sample_stores sample_keys sample_order
      sample_blocks-RoundTrips empty all_removed start all_removed-Run peek_none
