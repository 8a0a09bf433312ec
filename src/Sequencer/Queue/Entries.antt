-- ===== src/Sequencer/Queue/Entries.antt =====
-- The pending blocks of crates/sequencer/src/persistence.rs as a list of blocks: the entries that
-- stand for it in the database.
use tiny_sp1_rollup.Base.{
  ◌≡◌, refl, sym, ◌∙◌, ℕ, ◌<◌, true, List, [], ◌∷◌, ◌++◌, Option, none, some, inl, inr, arith, All,
  All-append, if◌then◌else◌, Bool-cases,
}
use tiny_sp1_rollup.Base.Bytes.{Bytes, IsU64, bytes_eq, bytes_eq_iff, to_be_bytes_inj}
use tiny_sp1_rollup.Core.Block.{PendingBlock}
use tiny_sp1_rollup.Sequencer.Queue.{BlockCodec}
use tiny_sp1_rollup.Sequencer.Queue.KeyOrder.{leb_bytes, leb_bytes-to_be_bytes}
use tiny_sp1_rollup.Sequencer.Queue.Keys.{key_of}

-- The block has a number below this one.
abbrev pub IsBelow : ℕ → PendingBlock → Type 0
IsBelow n c = c.block_number < n

-- The numbers are 64 bits wide and ascend.
abbrev pub IsAscending : List PendingBlock → Type 0
IsAscending [] = Unit {0}
IsAscending (b ∷ blocks) =
    IsU64 b.block_number
    × All (λ (c : PendingBlock). b.block_number < c.block_number) blocks
    × IsAscending blocks

pub key_of_inj :
    (b c : PendingBlock)
    → IsU64 b.block_number
    → IsU64 c.block_number
    → bytes_eq (key_of b) (key_of c) ≡ true
    → b.block_number ≡ c.block_number
key_of_inj b c hb hc e =
    to_be_bytes_inj 8 b.block_number c.block_number (omega (arith, hb)) (omega (arith, hc))
      ((bytes_eq_iff (key_of b) (key_of c)).0 e)

pub IsAscending-snoc :
    (blocks : List PendingBlock) (b : PendingBlock)
    → IsAscending blocks
    → All (IsBelow b.block_number) blocks
    → IsU64 b.block_number
    → IsAscending (blocks ++ (b ∷ []))
IsAscending-snoc [] b up below h = (h, tt, tt)
IsAscending-snoc (c ∷ blocks) b (hc, above, up) (lt, below) h = (
  hc,
  All-append (λ (d : PendingBlock). c.block_number < d.block_number) blocks (b ∷ []) above (lt, tt),
  IsAscending-snoc blocks b up below h,
)

module _ (codec : BlockCodec) where
  -- What these blocks store under a key.
  unfoldable pub stored : List PendingBlock → Bytes → Option Bytes
  stored [] key = none
  stored (b ∷ blocks) key =
      let rest = stored blocks key in if bytes_eq key (key_of b) then codec.serialize b else rest

  -- A number below all of the list has no entry.
  pub stored-fresh :
      (blocks : List PendingBlock) (b : PendingBlock)
      → IsU64 b.block_number
      → IsAscending blocks
      → All (λ (c : PendingBlock). b.block_number < c.block_number) blocks
      → stored blocks (key_of b) ≡ none
  unfolding stored
  stored-fresh [] b h up other = refl
  stored-fresh (c ∷ blocks) b h (hc, above, up) (lt, other) =
      elim (Bool-cases (bytes_eq (key_of b) (key_of c))) [
        | inl same ↦ absurd (omega (arith, key_of_inj b c h hc same, lt))
        | inr differ ↦ rw differ (stored-fresh blocks b h up other)
      ]

  -- A block behind the others adds its entry.
  pub stored-snoc :
      (blocks : List PendingBlock) (b : PendingBlock)
      → IsU64 b.block_number
      → IsAscending blocks
      → All (IsBelow b.block_number) blocks
      → (key : Bytes)
      → stored (blocks ++ (b ∷ [])) key
        ≡ (if bytes_eq key (key_of b) then codec.serialize b else stored blocks key)
  unfolding stored
  stored-snoc [] b h up below key = refl
  stored-snoc (c ∷ blocks) b h (hc, above, up) (lt, below) key =
      let ih = stored-snoc blocks b h up below key in
      elim (Bool-cases (bytes_eq key (key_of c))) [
        | inr differ ↦ rw (differ, ih) refl
        | inl same ↦ elim (Bool-cases (bytes_eq key (key_of b))) [
          | inr other ↦ rw (same, other) refl
          | inl both ↦
              let at_c = (bytes_eq_iff key (key_of c)).0 same in
              let at_b = (bytes_eq_iff key (key_of b)).0 both in
              let equal =
                to_be_bytes_inj 8 b.block_number c.block_number (omega (arith, h))
                  (omega (arith, hc)) (sym at_b ∙ at_c) in
              absurd (omega (arith, equal, lt))
        ]
      ]

  -- No key of the blocks behind one is as small as its key.
  pub stored-above :
      (c : PendingBlock) (blocks : List PendingBlock) (key value : Bytes)
      → IsAscending (c ∷ blocks)
      → stored blocks key ≡ some value
      → leb_bytes key (key_of c) ≡ true
      → ⊥
  unfolding stored
  stored-above c [] key value up e le = cc
  stored-above c (d ∷ blocks) key value (hc, (lt, above), (hd, after, up)) e le =
      elim (Bool-cases (bytes_eq key (key_of d))) [
        | inl same ↦
            let at_d = (bytes_eq_iff key (key_of d)).0 same in
            let least =
              leb_bytes-to_be_bytes 8 d.block_number c.block_number (omega (arith, hd))
                (omega (arith, hc)) (rw (sym at_d) le) in
            omega (arith, least, lt)
        | inr differ ↦ stored-above c blocks key value (hc, above, up) (rw differ at e) le
      ]
