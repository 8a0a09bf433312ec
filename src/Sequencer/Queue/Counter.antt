-- ===== src/Sequencer/Queue/Counter.antt =====
-- `commit_optimistic_block` and the block counter (crates/sequencer/src/persistence.rs): what a
-- restart finds after a block.
use tiny_sp1_rollup.Base.{
  ◌≡◌, ◌<◌, refl, ap, ◌∙◌, ℕ, Bool, true, false, ◌&&◌, List, [], ◌∷◌, String, Option, none, some,
  Outcome, ok, err, panic, bind_inv, guard_passed, ok_or_found, map_err-ok, second, arith,
  if◌then◌else◌,
}
use tiny_sp1_rollup.Base.Bytes.{
  Bytes, u64_mod, bytes_eq, bytes_eq_refl, to_be_bytes, length-to_be_bytes, from-to_be_bytes,
}
use tiny_sp1_rollup.Core.Block.{PendingBlock}
use tiny_sp1_rollup.Sequencer.Queue.{
  ColumnFamily, pending_blocks, failed_blocks, meta, Put, Rocks, BlockCodec, counter_key, writing,
  handle, get_block_counter, commit_optimistic_block,
}

unfoldable pub same_cf : ColumnFamily → ColumnFamily → Bool
same_cf pending_blocks pending_blocks = true
same_cf failed_blocks failed_blocks = true
same_cf meta meta = true
same_cf _ _ = false

-- The value that a batch gives a key: the last put counts.
unfoldable pub put_of : ColumnFamily → Bytes → List Put → Option Bytes
put_of cf key [] = none
put_of cf key (p ∷ puts) = elim (put_of cf key puts) [
  | some value ↦ some value
  | none ↦ if same_cf cf p.cf && bytes_eq key p.key then some p.value else none
]

-- A read after a batch, from what it was and what the batch gives the key.
abbrev pub read_after : Outcome String (Option Bytes) → Option Bytes → Outcome String (Option Bytes)
read_after before none = before
read_after before (some value) = ok (some value)

-- What RocksDB documents of a batch that is written: reads give its puts and else what they gave,
-- and the column families stay.
pub record StoresBatches (rocks : Rocks) : Type 0 where
  pub get_cf-write :
      (db db' : rocks.Db) (puts : List Put)
      → rocks.write db puts ≡ (db', ok tt)
      → (cf : ColumnFamily) (key : Bytes)
      → rocks.get_cf db' cf key ≡ read_after (rocks.get_cf db cf key) (put_of cf key puts)
  pub cf_handle-write :
      (db db' : rocks.Db) (puts : List Put)
      → rocks.write db puts ≡ (db', ok tt)
      → (cf : ColumnFamily) → rocks.cf_handle db' cf ≡ rocks.cf_handle db cf

block_put :
    (key value counter : Bytes)
    → put_of pending_blocks key (
        record { cf = pending_blocks; key = key; value = value }
        ∷ record { cf = meta; key = counter_key; value = counter }
        ∷ [])
      ≡ some value
unfolding put_of same_cf
block_put key value counter = rw (bytes_eq_refl key)

module _ (rocks : Rocks) where
  -- What a write that succeeds went through.
  pub writing_inv :
      {A : Type 0} (db db' : rocks.Db) (text : String) (m : Outcome String A)
      (k : A → rocks.Db × Outcome String (Unit {0}))
      → writing rocks db text m k ≡ (db', ok tt)
      → (a : A) × (m ≡ ok a) × (k a ≡ (db', ok tt))
  writing_inv db db' text (ok a) k e =
      (a, refl, λ i. ((e i).0, map_err-ok (λ (e : String). text) (k a).1 (λ j. (e j).1) i))
  writing_inv db db' text (err x) k e = cc (ap second e)
  writing_inv db db' text panic k e = cc (ap second e)

  counter_read :
      (db : rocks.Db) (n : ℕ)
      → n < u64_mod
      → rocks.cf_handle db meta ≡ true
      → rocks.get_cf db meta counter_key ≡ ok (some (to_be_bytes 8 n))
      → get_block_counter rocks db ≡ ok n
  unfolding get_block_counter
  counter_read db n h opened e =
      rw (opened, e, length-to_be_bytes 8 n, from-to_be_bytes 8 n (omega (arith, h)))

  module _ (codec : BlockCodec) (laws : StoresBatches rocks) where
    -- A block and the counter are stored together. If `commit_optimistic_block` succeeds with a next
    -- number of 64 bits, then in the database after it the counter reads as that number, and the
    -- block's key in the pending blocks has the serialized block.
    pub commit_optimistic_block-counter :
        (db db' : rocks.Db) (block : PendingBlock) (next : ℕ)
        → next < u64_mod
        → commit_optimistic_block rocks codec db block next ≡ (db', ok tt)
        → (get_block_counter rocks db' ≡ ok next)
          × ((value : Bytes) × (codec.serialize block ≡ some value)
              × (rocks.get_cf db' pending_blocks (to_be_bytes 8 block.block_number)
                  ≡ ok (some value)))
    unfolding commit_optimistic_block put_of same_cf bytes_eq
    commit_optimistic_block-counter db db' block next h e =
        let (value, prepared, done) = writing_inv db db' _ _ _ e in
        let (_, _, e₁) = bind_inv _ (handle rocks db pending_blocks _) prepared in
        let (u, opened, e₂) = bind_inv _ (handle rocks db meta _) e₁ in
        let kept = laws.cf_handle-write db db' _ done meta in
        (
          counter_read db' next h (kept ∙ guard_passed _ _ u opened)
              (laws.get_cf-write db db' _ done meta counter_key ∙ refl),
          (
            value,
            ok_or_found (codec.serialize block) _ value e₂,
            laws.get_cf-write db db' _ done pending_blocks (to_be_bytes 8 block.block_number)
                ∙ ap
                    (read_after (rocks.get_cf db pending_blocks (to_be_bytes 8 block.block_number)))
                    (block_put (to_be_bytes 8 block.block_number) value (to_be_bytes 8 next)),
          ),
        )
