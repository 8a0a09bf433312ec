-- ===== src/Sequencer/Queue.antt =====
-- `BlockQueueStore` of crates/sequencer/src/persistence.rs. RocksDB and the bincode of blocks are
-- parameters; a method takes the database and returns it changed, and an error is its context.
pub mod Counter
pub mod KeyOrder
pub mod Keys
pub mod Entries
pub mod Pending
pub mod Fifo
use tiny_sp1_rollup.Base.{
  ℕ, Bool, List, [], ◌∷◌, String, append, Option, none, some, Outcome, ok, err, panic, ◌>>=◌, ◌>>◌,
  guard, map_err, ok_or, length, ◌==◌, if◌then◌else◌,
}
use tiny_sp1_rollup.Base.Bytes.{Bytes, to_be_bytes, from_be_bytes}
use tiny_sp1_rollup.Core.Block.{PendingBlock}

-- The column families that the store names.
pub data ColumnFamily : Type 0 where
  pending_blocks failed_blocks meta : ColumnFamily

-- A put of a batch.
pub record Put : Type 0 where
  pub cf : ColumnFamily
  pub key : Bytes
  pub value : Bytes

-- `DBWithThreadMode<MultiThreaded>`: its reads, its writes, and the first entry of an iterator
-- from `IteratorMode::Start`.
pub record Rocks : Type 1 where
  pub Db : Type 0
  pub cf_handle : Db → ColumnFamily → Bool
  pub get_cf : Db → ColumnFamily → Bytes → Outcome String (Option Bytes)
  pub first : Db → ColumnFamily → Option (Outcome String (Bytes × Bytes))
  pub put_cf : Db → ColumnFamily → Bytes → Bytes → Db × Outcome String (Unit {0})
  pub delete_cf : Db → ColumnFamily → Bytes → Db × Outcome String (Unit {0})
  pub write : Db → List Put → Db × Outcome String (Unit {0})

-- `bincode::serialize` and `bincode::deserialize::<PendingBlock>`.
pub record BlockCodec : Type 0 where
  pub serialize : PendingBlock → Option Bytes
  pub deserialize : Bytes → Option PendingBlock

-- `b"block_counter"`
abbrev pub counter_key : Bytes
counter_key = 98 ∷ 108 ∷ 111 ∷ 99 ∷ 107 ∷ 95 ∷ 99 ∷ 111 ∷ 117 ∷ 110 ∷ 116 ∷ 101 ∷ 114 ∷ []

-- `.context(text)`
abbrev pub context : {A : Type 0} → String → Outcome String A → Outcome String A
context text = map_err (λ e. text)

-- `u64::from_be_bytes(value.try_into().unwrap_or_default())`
abbrev pub counter_of : Option Bytes → ℕ
counter_of none = 0
counter_of (some value) = if length value == 8 then from_be_bytes value else 0

module _ (rocks : Rocks) where
  -- `?` before a write, and the context of the write.
  abbrev pub writing :
      {A : Type 0}
      → rocks.Db
      → String
      → Outcome String A
      → (A → rocks.Db × Outcome String (Unit {0}))
      → rocks.Db × Outcome String (Unit {0})
  writing db text (ok a) k = let (db', result) = k a in (db', context text result)
  writing db text (err e) k = (db, err e)
  writing db text panic k = (db, panic)

  -- `.cf_handle(name).context(text)?`
  abbrev pub handle : rocks.Db → ColumnFamily → String → Outcome String (Unit {0})
  handle db cf text = guard (rocks.cf_handle db cf) text

  unfoldable pub remove_pending : rocks.Db → ℕ → rocks.Db × Outcome String (Unit {0})
  remove_pending db block_number =
      writing db "remove_pending delete_cf err"
        (handle db pending_blocks "remove_pending pending_cf err")
        λ _. rocks.delete_cf db pending_blocks (to_be_bytes 8 block_number)

  unfoldable pub get_block_counter : rocks.Db → Outcome String ℕ
  get_block_counter db = do
    handle db meta "get_block_counter meta_cf err"
    value ← rocks.get_cf db meta counter_key
    ok (counter_of value)

  unfoldable pub set_block_counter : rocks.Db → ℕ → rocks.Db × Outcome String (Unit {0})
  set_block_counter db count =
      writing db "set_block_counter put_cf err" (handle db meta "set_block_counter meta_cf err")
        λ _. rocks.put_cf db meta counter_key (to_be_bytes 8 count)

module _ (rocks : Rocks) (codec : BlockCodec) where
  unfoldable pub push_pending : rocks.Db → PendingBlock → rocks.Db × Outcome String (Unit {0})
  push_pending db block =
      writing rocks db "push_pending put_cf err"
        (do
          handle rocks db pending_blocks "push_pending pending_cf err"
          ok_or (codec.serialize block) "push_pending serialize err")
        λ value. rocks.put_cf db pending_blocks (to_be_bytes 8 block.block_number) value

  unfoldable pub push_failed : rocks.Db → PendingBlock → rocks.Db × Outcome String (Unit {0})
  push_failed db block =
      writing rocks db "push_failed put_cf err"
        (do
          handle rocks db failed_blocks "push_failed failed_cf err"
          ok_or (codec.serialize block) "push_failed serialize err")
        λ value. rocks.put_cf db failed_blocks (to_be_bytes 8 block.block_number) value

  -- The first entry that the iterator gives.
  abbrev pub peeked : Option (Outcome String (Bytes × Bytes)) → Outcome String (Option PendingBlock)
  peeked none = ok none
  peeked (some (ok (key, value))) = do
    block ← ok_or (codec.deserialize value) "failed to deserialize block"
    ok (some block)
  peeked (some (err e)) = err (append "peek_pending iterator err: " e)
  peeked (some panic) = panic

  unfoldable pub peek_pending : rocks.Db → Outcome String (Option PendingBlock)
  peek_pending db = do
    handle rocks db pending_blocks "peek_pending pending_cf err"
    peeked (rocks.first db pending_blocks)

  unfoldable pub commit_optimistic_block :
      rocks.Db → PendingBlock → ℕ → rocks.Db × Outcome String (Unit {0})
  commit_optimistic_block db block next_block_number =
      writing rocks db "commit_optimistic_block write_batch err"
        (do
          handle rocks db pending_blocks "commit_optimistic_block pending_cf err"
          handle rocks db meta "commit_optimistic_block meta_cf err"
          ok_or (codec.serialize block) "commit_optimistic_block serialize err")
        λ block_value. rocks.write db (
          record {
            cf = pending_blocks;
            key = to_be_bytes 8 block.block_number;
            value = block_value;
          }
          ∷ record { cf = meta; key = counter_key; value = to_be_bytes 8 next_block_number }
          ∷ [])
