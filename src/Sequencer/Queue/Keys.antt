-- ===== src/Sequencer/Queue/Keys.antt =====
-- The keys of crates/sequencer/src/persistence.rs, and what RocksDB documents of single writes and of
-- an iterator.
use tiny_sp1_rollup.Base.{◌≡◌, true, ◌&&◌, none, some, ok, if◌then◌else◌}
use tiny_sp1_rollup.Base.Bytes.{Bytes, bytes_eq, to_be_bytes}
use tiny_sp1_rollup.Core.Block.{PendingBlock}
use tiny_sp1_rollup.Sequencer.Queue.{ColumnFamily, Rocks}
use tiny_sp1_rollup.Sequencer.Queue.Counter.{same_cf}
use tiny_sp1_rollup.Sequencer.Queue.KeyOrder.{leb_bytes}

-- What RocksDB documents of `put_cf` and `delete_cf`: the key has the value, or none, and every
-- other key has what it had.
pub record StoresKeys (rocks : Rocks) : Type 0 where
  pub get_cf-put_cf :
      (db db' : rocks.Db) (cf : ColumnFamily) (key value : Bytes)
      → rocks.put_cf db cf key value ≡ (db', ok tt)
      → (cf' : ColumnFamily) (key' : Bytes)
      → rocks.get_cf db' cf' key' ≡ (
          if same_cf cf' cf && bytes_eq key' key then ok (some value) else rocks.get_cf db cf' key')
  pub get_cf-delete_cf :
      (db db' : rocks.Db) (cf : ColumnFamily) (key : Bytes)
      → rocks.delete_cf db cf key ≡ (db', ok tt)
      → (cf' : ColumnFamily) (key' : Bytes)
      → rocks.get_cf db' cf' key'
        ≡ (if same_cf cf' cf && bytes_eq key' key then ok none else rocks.get_cf db cf' key')

-- The key of a block.
abbrev pub key_of : PendingBlock → Bytes
key_of block = to_be_bytes 8 block.block_number

-- What RocksDB documents of an iterator from the start: with no entry there is none, and its first
-- entry is one, of the least key.
pub record IteratesInOrder (rocks : Rocks) : Type 0 where
  pub first-none :
      (db : rocks.Db) (cf : ColumnFamily)
      → rocks.first db cf ≡ none
      → (key : Bytes) → rocks.get_cf db cf key ≡ ok none
  pub get_cf-first :
      (db : rocks.Db) (cf : ColumnFamily) (key value : Bytes)
      → rocks.first db cf ≡ some (ok (key, value))
      → rocks.get_cf db cf key ≡ ok (some value)
  pub first-le :
      (db : rocks.Db) (cf : ColumnFamily) (key value : Bytes)
      → rocks.first db cf ≡ some (ok (key, value))
      → (key' value' : Bytes) → rocks.get_cf db cf key' ≡ ok (some value')
      → leb_bytes key key' ≡ true
