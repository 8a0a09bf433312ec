-- ===== src/Tests/QueueTests.antt =====
-- A database that is the list of its puts and iterates from the least key, and the theorem on the block counter at it.
use tiny_sp1_rollup.Base.{
  ◌≡◌, refl, ap, sym, ◌∙◌, true, ◌&&◌, arith, if◌then◌else◌, List, [], ◌∷◌, ◌++◌, String, Option,
  none, some, Outcome, ok, panic,
}
use tiny_sp1_rollup.Base.Bytes.{Bytes, bytes_eq, to_be_bytes}
use tiny_sp1_rollup.Stf.Digest.{default}
use tiny_sp1_rollup.Core.Block.{PendingBlock}
use tiny_sp1_rollup.Sequencer.Queue.{
  ColumnFamily, pending_blocks, meta, counter_key, Put, Rocks, get_block_counter,
  commit_optimistic_block,
}
use tiny_sp1_rollup.Sequencer.Queue.Counter.{
  same_cf, put_of, read_after, StoresBatches, commit_optimistic_block-counter,
}
use tiny_sp1_rollup.Sequencer.Queue.KeyOrder.{leb_bytes}
use tiny_sp1_rollup.Tests.BlockBytes.{encode_block, sample_blocks}
use tiny_sp1_rollup.Tests.Data.{payment, deposit}

abbrev pub read : List Put → ColumnFamily → Bytes → Outcome String (Option Bytes)
read puts cf key = ok (put_of cf key puts)

unfoldable pub without : ColumnFamily → Bytes → List Put → List Put
without cf key [] = []
without cf key (p ∷ puts) =
    let rest = without cf key puts in
    if same_cf cf p.cf && bytes_eq key p.key then rest else p ∷ rest

abbrev pub smaller : Bytes → Option Bytes → Bytes
smaller key none = key
smaller key (some other) = if leb_bytes key other then key else other

-- The family's least key.
unfoldable pub least : ColumnFamily → List Put → Option Bytes
least cf [] = none
least cf (p ∷ puts) =
    let rest = least cf puts in if same_cf cf p.cf then some (smaller p.key rest) else rest

abbrev pub entry : Bytes → Option Bytes → Option (Outcome String (Bytes × Bytes))
entry key none = some panic
entry key (some value) = some (ok (key, value))

abbrev pub entry_at :
    Option Bytes → (Bytes → Option Bytes) → Option (Outcome String (Bytes × Bytes))
entry_at none value_of = none
entry_at (some key) value_of = entry key (value_of key)

unfoldable pub sample_rocks : Rocks
unfolding without least put_of
sample_rocks = record {
  Db = List Put;
  cf_handle = λ db cf. true;
  get_cf = read;
  first = λ db cf. entry_at (least cf db) (λ key. put_of cf key db);
  put_cf = λ db cf key value. (db ++ (record { cf = cf; key = key; value = value } ∷ []), ok tt);
  delete_cf = λ db cf key. (without cf key db, ok tt);
  write = λ db puts. (db ++ puts, ok tt);
}

pub read-append :
    (db puts : List Put) (cf : ColumnFamily) (key : Bytes)
    → read (db ++ puts) cf key ≡ read_after (read db cf key) (put_of cf key puts)
unfolding put_of
read-append [] puts cf key = ground arith
read-append (p ∷ db) puts cf key = ground (arith, read-append db puts cf key)

pub sample_stores : StoresBatches sample_rocks
unfolding sample_rocks
sample_stores = record {
  get_cf-write = λ db db' puts e cf key.
      let moved : db ++ puts ≡ db' = λ i. (e i).0 in
      ap (λ (x : List Put). read x cf key) (sym moved) ∙ read-append db puts cf key;
  cf_handle-write = λ db db' puts e cf. refl;
}

abbrev block : PendingBlock
block = record {
  block_number = 6;
  txs = payment ∷ [];
  deposits = deposit ∷ [];
  forced_txs = [];
  pre_state_root = default;
  post_state_root = default;
}

unfoldable pub empty : sample_rocks.Db
unfolding sample_rocks
empty = []

one_block : sample_rocks.Db
unfolding sample_rocks
one_block =
    record { cf = pending_blocks; key = to_be_bytes 8 6; value = encode_block block }
    ∷ record { cf = meta; key = counter_key; value = to_be_bytes 8 7 }
    ∷ []

commit_runs : commit_optimistic_block sample_rocks sample_blocks empty block 7 ≡ (one_block, ok tt)
unfolding empty one_block sample_rocks sample_blocks commit_optimistic_block
commit_runs = refl

commit_optimistic_block-counter_example :
    (get_block_counter sample_rocks one_block ≡ ok 7)
    × ((value : Bytes) × (sample_blocks.serialize block ≡ some value)
        × (sample_rocks.get_cf one_block pending_blocks (to_be_bytes 8 block.block_number)
            ≡ ok (some value)))
commit_optimistic_block-counter_example =
    commit_optimistic_block-counter sample_rocks sample_blocks sample_stores empty one_block block 7
      (omega arith) commit_runs
