-- ===== src/Sequencer/Queue/Pending.antt =====
-- What the calls of crates/sequencer/src/persistence.rs do to the pending blocks, seen as a list of
-- blocks in the order of their numbers.
use tiny_sp1_rollup.Base.{
  ◌≡◌, refl, ap, sym, ◌∙◌, ℕ, List, [], ◌∷◌, ◌++◌, Option, none, some, String, Outcome, ok, err,
  panic, ◌>>◌, ok_or, bind_inv, ok_or_found, ok-injective, inl, inr, All, All-append, Bool-cases,
}
use tiny_sp1_rollup.Base.Bytes.{Bytes, IsU64, bytes_eq, bytes_eq_iff, bytes_eq_refl}
use tiny_sp1_rollup.Core.Block.{PendingBlock}
use tiny_sp1_rollup.Sequencer.Queue.{
  pending_blocks, failed_blocks, meta, Rocks, BlockCodec, handle, peek_pending, peeked,
  remove_pending, push_failed, commit_optimistic_block,
}
use tiny_sp1_rollup.Sequencer.Queue.Counter.{same_cf, put_of, StoresBatches, writing_inv}
use tiny_sp1_rollup.Sequencer.Queue.Keys.{StoresKeys, IteratesInOrder, key_of}
use tiny_sp1_rollup.Sequencer.Queue.Entries.{
  IsBelow, IsAscending, IsAscending-snoc, stored, stored-fresh, stored-snoc, stored-above,
}

-- `bincode::deserialize` undoes `bincode::serialize`.
pub record RoundTrips (codec : BlockCodec) : Type 0 where
  pub deserialize-serialize :
      (b : PendingBlock) (value : Bytes)
      → codec.serialize b ≡ some value
      → codec.deserialize value ≡ some b

module _ (rocks : Rocks) (codec : BlockCodec) where
  -- The pending blocks of the database are these, each under its key, and no other.
  pub record IsQueue (queue : rocks.Db) (blocks : List PendingBlock) : Type 0 where
    pub ascending : IsAscending blocks
    pub stores :
        All (λ (b : PendingBlock). (value : Bytes) × (codec.serialize b ≡ some value)) blocks
    pub entries :
        (key : Bytes) → rocks.get_cf queue pending_blocks key ≡ ok (stored codec blocks key)

  -- The block that the prover has is the queue's first.
  abbrev pub IsFront : Option PendingBlock → List PendingBlock → Type 0
  IsFront none rest = Unit
  IsFront (some b) rest = (behind : List PendingBlock) × (rest ≡ b ∷ behind)

  module _ (batches : StoresBatches rocks) (keys : StoresKeys rocks) (order : IteratesInOrder rocks)
      (trips : RoundTrips codec) where
    -- The first entry of the database is the queue's first block.
    pub first-front :
        (queue : rocks.Db) (c : PendingBlock) (blocks : List PendingBlock) (key value : Bytes)
        → IsQueue queue (c ∷ blocks)
        → rocks.first queue pending_blocks ≡ some (ok (key, value))
        → codec.serialize c ≡ some value
    unfolding stored
    first-front queue c blocks key value q e =
        let (v, found) = q.stores.0 in
        let at_c : rocks.get_cf queue pending_blocks (key_of c) ≡ ok (some v) =
          q.entries (key_of c) ∙ rw (bytes_eq_refl (key_of c), found) refl in
        let least = order.first-le queue pending_blocks key value e (key_of c) v at_c in
        let entry : stored codec (c ∷ blocks) key ≡ some value =
          ok-injective
            (sym (q.entries key) ∙ order.get_cf-first queue pending_blocks key value e) in
        elim (Bool-cases (bytes_eq key (key_of c))) [
          | inl same ↦ rw same at entry
          | inr differ ↦
              absurd (stored-above codec c blocks key value q.ascending (rw differ at entry) least)
        ]

    peeked-IsFront :
        (queue : rocks.Db) (seen : Option PendingBlock) (blocks : List PendingBlock)
        (entry : Option (Outcome String (Bytes × Bytes)))
        → rocks.first queue pending_blocks ≡ entry
        → IsQueue queue blocks
        → peeked rocks codec entry ≡ ok seen
        → IsFront seen blocks
    unfolding stored
    peeked-IsFront queue none blocks entry first q e = tt
    peeked-IsFront queue (some b) blocks none first q e = absurd (cc)
    peeked-IsFront queue (some b) blocks (some (err x)) first q e = absurd (cc)
    peeked-IsFront queue (some b) blocks (some panic) first q e = absurd (cc)
    peeked-IsFront queue (some b) [] (some (ok (key, value))) first q e =
        let entry = sym (q.entries key) ∙ order.get_cf-first queue pending_blocks key value first in
        absurd (cc)
    peeked-IsFront queue (some b) (c ∷ blocks) (some (ok (key, value))) first q e =
        let found =
          trips.deserialize-serialize c value (first-front queue c blocks key value q first) in
        let loaded : ok_or {E = String} (codec.deserialize value) "failed to deserialize block"
            ≡ ok c =
          rw found refl in
        let (d, read, shown) =
          bind_inv _ (ok_or (codec.deserialize value) "failed to deserialize block") e in
        let same : c ≡ b = cc (loaded, read, shown) in
        (blocks, ap (λ (x : PendingBlock). x ∷ blocks) same)

    pub peek-IsFront :
        (queue : rocks.Db) (seen : Option PendingBlock) (blocks : List PendingBlock)
        → IsQueue queue blocks
        → peek_pending rocks codec queue ≡ ok seen
        → IsFront seen blocks
    unfolding peek_pending
    peek-IsFront queue seen blocks q e =
        let (_, _, e₁) = bind_inv _ (handle rocks queue pending_blocks _) e in
        peeked-IsFront queue seen blocks (rocks.first queue pending_blocks) refl q e₁

    pub commit-IsQueue :
        (queue queue' : rocks.Db) (b : PendingBlock) (next : ℕ) (blocks : List PendingBlock)
        → IsQueue queue blocks
        → IsU64 b.block_number
        → All (IsBelow b.block_number) blocks
        → commit_optimistic_block rocks codec queue b next ≡ (queue', ok tt)
        → IsQueue queue' (blocks ++ (b ∷ []))
    unfolding commit_optimistic_block put_of same_cf
    commit-IsQueue queue queue' b next blocks q h below e =
        let (value, prepared, done) = writing_inv rocks queue queue' _ _ _ e in
        let (_, _, e₁) = bind_inv _ (handle rocks queue pending_blocks _) prepared in
        let (_, _, e₂) = bind_inv _ (handle rocks queue meta _) e₁ in
        let found = ok_or_found (codec.serialize b) _ value e₂ in
        record {
          ascending = IsAscending-snoc blocks b q.ascending below h;
          stores = All-append _ blocks (b ∷ []) q.stores ((value, found), tt);
          entries = λ key.
              batches.get_cf-write queue queue' _ done pending_blocks key
              ∙ elim (Bool-cases (bytes_eq key (key_of b))) [
                | inl same ↦
                    rw (stored-snoc codec blocks b h q.ascending below key, same, found) refl
                | inr differ ↦
                    rw (stored-snoc codec blocks b h q.ascending below key, differ) (q.entries key)
              ];
        }

    pub remove-IsQueue :
        (queue queue' : rocks.Db) (b : PendingBlock) (blocks : List PendingBlock)
        → IsQueue queue (b ∷ blocks)
        → remove_pending rocks queue b.block_number ≡ (queue', ok tt)
        → IsQueue queue' blocks
    unfolding remove_pending stored same_cf
    remove-IsQueue queue queue' b blocks q e =
        let (_, _, done) =
          writing_inv rocks queue queue' "remove_pending delete_cf err"
            (handle rocks queue pending_blocks "remove_pending pending_cf err")
            (λ (u : Unit {0}). rocks.delete_cf queue pending_blocks (key_of b)) e in
        record {
          ascending = q.ascending.2;
          stores = q.stores.1;
          entries = λ key.
              keys.get_cf-delete_cf queue queue' pending_blocks (key_of b) done pending_blocks key
              ∙ elim (Bool-cases (bytes_eq key (key_of b))) [
                | inl same ↦
                    let fresh =
                      stored-fresh codec blocks b q.ascending.0 q.ascending.2 q.ascending.1 in
                    let at_b = (bytes_eq_iff key (key_of b)).0 same in
                    rw same (rw (at_b, fresh) refl)
                | inr differ ↦ rw differ (rw differ at (q.entries key))
              ];
        }

    pub fail-IsQueue :
        (queue queue' : rocks.Db) (b : PendingBlock) (blocks : List PendingBlock)
        → IsQueue queue blocks
        → push_failed rocks codec queue b ≡ (queue', ok tt)
        → IsQueue queue' blocks
    unfolding push_failed same_cf
    fail-IsQueue queue queue' b blocks q e =
        let (value, _, done) =
          writing_inv rocks queue queue' "push_failed put_cf err"
            (handle rocks queue failed_blocks "push_failed failed_cf err"
              >> ok_or (codec.serialize b) "push_failed serialize err")
            (λ (v : Bytes). rocks.put_cf queue failed_blocks (key_of b) v) e in
        record {
          ascending = q.ascending;
          stores = q.stores;
          entries = λ key.
              keys.get_cf-put_cf queue queue' failed_blocks (key_of b) value done pending_blocks key
              ∙ q.entries key;
        }

    peeked-none :
        (queue : rocks.Db) (blocks : List PendingBlock)
        (entry : Option (Outcome String (Bytes × Bytes)))
        → rocks.first queue pending_blocks ≡ entry
        → IsQueue queue blocks
        → peeked rocks codec entry ≡ ok none
        → blocks ≡ []
    unfolding stored
    peeked-none queue [] entry first q e = refl
    peeked-none queue (c ∷ blocks) none first q e =
        let (v, found) = q.stores.0 in
        let at_c : rocks.get_cf queue pending_blocks (key_of c) ≡ ok (some v) =
          q.entries (key_of c) ∙ rw (bytes_eq_refl (key_of c), found) refl in
        let nothing = order.first-none queue pending_blocks first (key_of c) in
        absurd (cc (at_c, nothing))
    peeked-none queue (c ∷ blocks) (some (ok (key, value))) first q e =
        let (d, _, shown) =
          bind_inv _ (ok_or (codec.deserialize value) "failed to deserialize block") e in
        absurd (cc shown)
    peeked-none queue (c ∷ blocks) (some (err x)) first q e = absurd (cc)
    peeked-none queue (c ∷ blocks) (some panic) first q e = absurd (cc)

    pub peek-none :
        (queue : rocks.Db) (blocks : List PendingBlock)
        → IsQueue queue blocks
        → peek_pending rocks codec queue ≡ ok none
        → blocks ≡ []
    unfolding peek_pending
    peek-none queue blocks q e =
        let (_, _, e₁) = bind_inv _ (handle rocks queue pending_blocks _) e in
        peeked-none queue blocks (rocks.first queue pending_blocks) refl q e₁
