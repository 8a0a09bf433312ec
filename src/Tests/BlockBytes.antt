-- ===== src/Tests/BlockBytes.antt =====
-- A codec of blocks that decodes what it encodes: each list after its length.
use tiny_sp1_rollup.Base.{
  ◌≡◌, refl, ap, sym, ◌∙◌, ℕ, zero, suc, List, [], ◌∷◌, Option, some, length, take-append_left,
  drop-append_left,
}
use tiny_sp1_rollup.Base.Bytes.{Bytes}
use tiny_sp1_rollup.Stf.Types.{Transaction, Deposit, ForcedTx}
use tiny_sp1_rollup.Core.Block.{PendingBlock}
use tiny_sp1_rollup.Sequencer.Queue.{BlockCodec}
use tiny_sp1_rollup.Sequencer.Queue.Pending.{RoundTrips}
use tiny_sp1_rollup.Tests.Guest.{sized, field}

-- An encoding of items before a rest.
record Items (A : Type 0) : Type 0 where
  encode : A → Bytes → Bytes
  decode : Bytes → A × Bytes
  decode-encode : (a : A) (rest : Bytes) → decode (encode a rest) ≡ (a, rest)

module _ {A : Type 0} (items : Items A) where
  abbrev encode_all : List A → Bytes → Bytes
  encode_all [] rest = rest
  encode_all (a ∷ xs) rest = items.encode a (encode_all xs rest)

  abbrev decode_all : ℕ → Bytes → List A × Bytes
  decode_all zero b = ([], b)
  decode_all (suc k) b =
      let (a, rest) = items.decode b in let (xs, rest') = decode_all k rest in (a ∷ xs, rest')

  decode_all-encode_all :
      (xs : List A) (rest : Bytes) → decode_all (length xs) (encode_all xs rest) ≡ (xs, rest)
  decode_all-encode_all [] rest = refl
  decode_all-encode_all (a ∷ xs) rest =
      rw (items.decode-encode a (encode_all xs rest), decode_all-encode_all xs rest)

-- The next number.
abbrev number : Bytes → ℕ × Bytes
number [] = (0, [])
number (n ∷ b) = (n, b)

abbrev decode_transaction : Bytes → Transaction × Bytes
decode_transaction b =
    let (nonce, b₁) = number b in
    let (fee, b₂) = number b₁ in
    let (amount, b₃) = number b₂ in
    let (from, b₄) = field b₃ in
    let (to, b₅) = field b₄ in
    (record { from = from; to = to; nonce = nonce; fee = fee; amount = amount }, b₅)

abbrev decode_deposit : Bytes → Deposit × Bytes
decode_deposit b =
    let (amount, b₁) = number b in
    let (timestamp, b₂) = number b₁ in
    let (to, b₃) = field b₂ in (record { to = to; amount = amount; timestamp = timestamp }, b₃)

abbrev decode_forced : Bytes → ForcedTx × Bytes
decode_forced b =
    let (timestamp, b₁) = number b in
    let (l2_calldata, b₂) = field b₁ in
    let (t, b₃) = decode_transaction b₂ in
    (
      record {
        from = t.from;
        to = t.to;
        nonce = t.nonce;
        fee = t.fee;
        amount = t.amount;
        timestamp = timestamp;
        l2_calldata = l2_calldata;
      },
      b₃,
    )

abbrev encode_transaction : Transaction → Bytes → Bytes
encode_transaction t rest = t.nonce ∷ t.fee ∷ t.amount ∷ sized t.from (sized t.to rest)

abbrev transaction_items : Items Transaction
transaction_items = record {
  encode = encode_transaction;
  decode = decode_transaction;
  decode-encode = λ t rest. simp (take-append_left, drop-append_left);
}

abbrev deposit_items : Items Deposit
deposit_items = record {
  encode = λ d rest. d.amount ∷ d.timestamp ∷ sized d.to rest;
  decode = decode_deposit;
  decode-encode = λ d rest. simp (take-append_left, drop-append_left);
}

abbrev forced_items : Items ForcedTx
forced_items = record {
  encode = λ f rest.
      f.timestamp
      ∷ sized f.l2_calldata (
          encode_transaction
            (record { from = f.from; to = f.to; nonce = f.nonce; fee = f.fee; amount = f.amount })
            rest);
  decode = decode_forced;
  decode-encode = λ f rest. simp (take-append_left, drop-append_left);
}

unfoldable pub encode_block : PendingBlock → Bytes
unfolding transaction_items deposit_items forced_items
encode_block b =
    b.block_number
    ∷ length b.txs
    ∷ length b.deposits
    ∷ length b.forced_txs
    ∷ sized b.pre_state_root (
        sized b.post_state_root (
          encode_all transaction_items b.txs
            (encode_all deposit_items b.deposits (encode_all forced_items b.forced_txs []))))

unfoldable pub decode_block : Bytes → Option PendingBlock
unfolding transaction_items deposit_items forced_items
decode_block b =
    let (block_number, b₁) = number b in
    let (txs_len, b₂) = number b₁ in
    let (deposits_len, b₃) = number b₂ in
    let (forced_len, b₄) = number b₃ in
    let (pre_state_root, b₅) = field b₄ in
    let (post_state_root, b₆) = field b₅ in
    let (txs, b₇) = decode_all transaction_items txs_len b₆ in
    let (deposits, b₈) = decode_all deposit_items deposits_len b₇ in
    let (forced_txs, _) = decode_all forced_items forced_len b₈ in
    some (record {
      block_number = block_number;
      txs = txs;
      deposits = deposits;
      forced_txs = forced_txs;
      pre_state_root = pre_state_root;
      post_state_root = post_state_root;
    })

decode_block-encode_block : (b : PendingBlock) → decode_block (encode_block b) ≡ some b
unfolding encode_block decode_block
decode_block-encode_block b = simp (
  take-append_left,
  drop-append_left,
  decode_all-encode_all transaction_items b.txs,
  decode_all-encode_all deposit_items b.deposits,
  decode_all-encode_all forced_items b.forced_txs,
)

unfoldable pub sample_blocks : BlockCodec
unfolding encode_block decode_block
sample_blocks = record { serialize = λ b. some (encode_block b); deserialize = decode_block }

pub sample_blocks-RoundTrips : RoundTrips sample_blocks
unfolding sample_blocks
sample_blocks-RoundTrips = record {
  deserialize-serialize = λ b value e.
      let same : encode_block b ≡ value = cc e in
      ap decode_block (sym same) ∙ decode_block-encode_block b;
}
