-- ===== src/Tests/RoundTests.antt =====
-- The sample database stores its keys, and a round of the prover's worker on it.
use tiny_sp1_rollup.Base.{
  ◌≡◌, refl, ap, sym, ◌∙◌, ℕ, Bool, true, false, ◌&&◌, List, [], ◌∷◌, ◌++◌, Option, none, some,
  Outcome, ok, arith, if◌then◌else◌, ◌⊎◌, String,
}
use tiny_sp1_rollup.Base.Bytes.{Bytes, bytes_eq, bytes_eq_iff, to_be_bytes}
use tiny_sp1_rollup.Sequencer.Queue.{
  ColumnFamily, pending_blocks, failed_blocks, meta, Put, BlockCodec, peek_pending, remove_pending,
}
use tiny_sp1_rollup.Sequencer.Queue.Counter.{same_cf, put_of}
use tiny_sp1_rollup.Sequencer.Queue.KeyOrder.{leb_bytes}
use tiny_sp1_rollup.Sequencer.Queue.Keys.{StoresKeys}
use tiny_sp1_rollup.Sequencer.Prove.Round.Moved.{HasFailed, HasSettled, prover_round-HasMoved}
use tiny_sp1_rollup.Core.Block.{PendingBlock}
use tiny_sp1_rollup.Stf.Digest.{sample_digest}
use tiny_sp1_rollup.Sequencer.Prove.{Attempt, delivered, ProverState, process_and_prove_batch}
use tiny_sp1_rollup.Sequencer.Prove.Blocks.{prove_block}
use tiny_sp1_rollup.Sequencer.Prove.Retries.{Verdict, proven_and_sent, after_attempt, retry_loop}
use tiny_sp1_rollup.Sequencer.Prove.Round.{Ending, went_on, write_queue, round_of, prover_round}
use tiny_sp1_rollup.Sequencer.Prove.Settled.{IsHonest}
use tiny_sp1_rollup.Tests.Guest.{guest_abi, decode, gateway, honest_attempt, honest}
use tiny_sp1_rollup.Tests.ProverTests.{recorded_db, block}
use tiny_sp1_rollup.Tests.ProveTests.{ready, done, block_proven}
use tiny_sp1_rollup.Tests.Store.{sample_codec}
use tiny_sp1_rollup.Tests.QueueTests.{read, without, least, read-append, sample_rocks}

same_cf_refl : (cf : ColumnFamily) → same_cf cf cf ≡ true
unfolding same_cf
same_cf_refl pending_blocks = refl
same_cf_refl failed_blocks = refl
same_cf_refl meta = refl

same_cf-eq : (a b : ColumnFamily) → same_cf a b ≡ true → a ≡ b
unfolding same_cf
same_cf-eq pending_blocks pending_blocks e = refl
same_cf-eq failed_blocks failed_blocks e = refl
same_cf-eq meta meta e = refl
same_cf-eq pending_blocks failed_blocks e = cc
same_cf-eq pending_blocks meta e = cc
same_cf-eq failed_blocks pending_blocks e = cc
same_cf-eq failed_blocks meta e = cc
same_cf-eq meta pending_blocks e = cc
same_cf-eq meta failed_blocks e = cc

put_of-without :
    (cf cf' : ColumnFamily) (key key' : Bytes) (puts : List Put)
    → put_of cf' key' (without cf key puts)
      ≡ (if same_cf cf' cf && bytes_eq key' key then none else put_of cf' key' puts)
unfolding put_of without
put_of-without cf cf' key key' [] = ground arith
put_of-without cf cf' key key' (p ∷ puts) = ground (
  arith,
  put_of-without cf cf' key key' puts,
  bytes_eq_iff key p.key,
  bytes_eq_iff key' p.key,
  bytes_eq_iff key' key,
  same_cf-eq cf p.cf,
  same_cf-eq cf' p.cf,
  same_cf-eq cf' cf,
  same_cf_refl cf,
  same_cf_refl cf',
)

put_read :
    (db : List Put) (p : Put) (cf : ColumnFamily) (key : Bytes)
    → read (db ++ (p ∷ [])) cf key
      ≡ (if same_cf cf p.cf && bytes_eq key p.key then ok (some p.value) else read db cf key)
unfolding put_of
put_read db p cf key = read-append db (p ∷ []) cf key ∙ ground arith

ok_if :
    (test : Bool) (o : Option Bytes)
    → ◌≡◌ {A = Outcome String (Option Bytes)}
        (ok (if test then none else o))
        (if test then ok none else ok o)
ok_if true o = refl
ok_if false o = refl

pub sample_keys : StoresKeys sample_rocks
unfolding sample_rocks
sample_keys = record {
  get_cf-put_cf = λ db db' cf key value e cf' key'.
      ap (λ (x : List Put). read x cf' key') (sym (λ i. (e i).0))
      ∙ put_read db (record { cf = cf; key = key; value = value }) cf' key';
  get_cf-delete_cf = λ db db' cf key e cf' key'.
      ap (λ (x : List Put). read x cf' key') (sym (λ i. (e i).0))
      ∙ ap ok (put_of-without cf cf' key key' db)
      ∙ ok_if (same_cf cf' cf && bytes_eq key' key) (put_of cf' key' db);
}

-- A queue that shows the block.
abbrev one_block_codec : BlockCodec
one_block_codec = record {
  serialize = λ b. some (to_be_bytes 8 b.block_number);
  deserialize = λ b. some block;
}

one_pending : sample_rocks.Db
unfolding sample_rocks
one_pending =
    record { cf = pending_blocks; key = to_be_bytes 8 1; value = to_be_bytes 8 1 }
    ∷ record { cf = meta; key = []; value = [] }
    ∷ []

none_pending : sample_rocks.Db
unfolding sample_rocks
none_pending = record { cf = meta; key = []; value = [] } ∷ []

block_shown : peek_pending sample_rocks one_block_codec one_pending ≡ ok (some block)
unfolding peek_pending sample_rocks least put_of one_pending same_cf bytes_eq to_be_bytes leb_bytes
block_shown = refl

delivered_always : PendingBlock → ℕ → Attempt
delivered_always b n = honest_attempt delivered

block_sent :
    prove_block sample_digest sample_digest guest_abi gateway recorded_db sample_codec decode true
      (delivered_always block)
      block
      ready
    ≡ (done, proven_and_sent)
unfolding prove_block retry_loop after_attempt delivered_always
block_sent =
    ap
      (after_attempt 0 (
        retry_loop
          (λ n.
            process_and_prove_batch sample_digest sample_digest guest_abi gateway recorded_db
              sample_codec decode true (honest_attempt delivered) block)
          2 1))
      block_proven

queue_written :
    write_queue sample_rocks one_block_codec proven_and_sent block one_pending
    ≡ (none_pending, went_on)
unfolding write_queue remove_pending sample_rocks without one_pending none_pending same_cf bytes_eq
    to_be_bytes
queue_written = refl

round_runs :
    prover_round sample_rocks one_block_codec sample_digest sample_digest guest_abi gateway
      recorded_db sample_codec decode true delivered_always one_pending ready
    ≡ (none_pending, done, went_on)
unfolding prover_round
round_runs =
    ap
      (λ m.
        round_of sample_rocks one_block_codec sample_digest sample_digest guest_abi gateway
          recorded_db sample_codec decode true delivered_always m one_pending ready)
      block_shown
    ∙ ap
        (λ (r : ProverState recorded_db.Tree × Verdict).
          let w = write_queue sample_rocks one_block_codec r.1 block one_pending in (w.0, r.0, w.1))
        block_sent
    ∙ ap (λ (w : sample_rocks.Db × Ending). (w.0, done, w.1)) queue_written

always-IsHonest :
    (b : PendingBlock) (n : ℕ)
    → IsHonest sample_digest sample_digest guest_abi gateway decode (delivered_always b n)
unfolding delivered_always
always-IsHonest b n = honest delivered

prover_round-HasMoved_example :
    (sample_rocks.get_cf none_pending pending_blocks (to_be_bytes 8 1) ≡ ok none)
    × (HasSettled sample_rocks one_block_codec sample_keys sample_digest sample_digest guest_abi
          gateway recorded_db sample_codec decode block done
        ⊎ HasFailed sample_rocks one_block_codec sample_keys block none_pending)
prover_round-HasMoved_example =
    prover_round-HasMoved sample_rocks one_block_codec sample_keys sample_digest sample_digest
      guest_abi gateway recorded_db sample_codec decode delivered_always always-IsHonest block
      one_pending none_pending ready done block_shown round_runs
