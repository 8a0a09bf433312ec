-- ===== src/Stf/Commitment/Decode.antt =====
-- A commitment as the L1 contract takes it apart: `decodeCommitment` and `truncate` of
-- contracts/src/RollupBridge.sol, which mask 256-bit words.
use mathlib.Core.List.{foldl, foldl-append}
use native.Mathlib.Nat.{pow-suc, mul-le-mul_right}
use tiny_sp1_rollup.Base.{
  ℕ, zero, suc, ◌+◌, ◌-◌, ◌*◌, ◌%◌, ◌^◌, ◌≤◌, ◌<◌, ◌≡◌, sym, ap, ◌∙◌, [], ◌∷◌, ◌++◌, arith, length,
  take, drop, take-append-drop, All,
}
use tiny_sp1_rollup.Base.Bytes.{
  Bytes, u32_mod, to_be_bytes, from_be_bytes, from-to_be_bytes, length-to_be_bytes,
}
use tiny_sp1_rollup.Stf.Digest.{Hash, IsHash}
use tiny_sp1_rollup.Stf.Commitment.{build_commitment}

-- The word that a `bytes32` is.
abbrev pub word : Hash → ℕ
word = from_be_bytes

-- `and(fullHash, 0xFF…FF00000000)`
unfoldable pub truncate : ℕ → ℕ
truncate full_hash = full_hash - full_hash % u32_mod

-- `and(commitment, 0x00…00FFFFFFFF)`, and the other bits as `truncate` has them
unfoldable pub decode_commitment : ℕ → ℕ × ℕ
unfolding truncate
decode_commitment commitment = (commitment % u32_mod, truncate commitment)

fold_from :
    (acc : ℕ) (ys : Bytes)
    → foldl (λ a b. a * 256 + b) acc ys ≡ acc * 256 ^ length ys + from_be_bytes ys
unfolding from_be_bytes
fold_from acc [] = omega arith
fold_from acc (y ∷ ys) =
    rw (fold_from (acc * 256 + y) ys, fold_from (0 * 256 + y) ys, pow-suc) (omega arith)

from_be_bytes-append :
    (xs ys : Bytes)
    → from_be_bytes (xs ++ ys) ≡ from_be_bytes xs * 256 ^ length ys + from_be_bytes ys
from_be_bytes-append xs ys = unfold from_be_bytes in rw foldl-append (fold_from _ ys)

from_be_bytes-lt : (xs : Bytes) → All (λ b. b < 256) xs → from_be_bytes xs < 256 ^ length xs
from_be_bytes-lt [] h = unfold from_be_bytes in omega arith
from_be_bytes-lt (x ∷ xs) h =
    let tail = from_be_bytes-lt xs h.1 in
    let head : from_be_bytes (x ∷ []) ≡ x = unfold from_be_bytes in omega arith in
    rw (pow-suc, from_be_bytes-append (x ∷ []) xs, head)
      (omega (arith, mul-le-mul_right {m = x} {n = 255} (256 ^ length xs) (omega arith)))

length-drop : (n : ℕ) (xs : Bytes) → n ≤ length xs → length (drop n xs) + n ≡ length xs
length-drop zero xs h = omega arith
length-drop (suc n) [] h = absurd (omega arith)
length-drop (suc n) (x ∷ xs) h = omega (arith, length-drop n xs (omega arith))

All-drop : (P : ℕ → Type 0) (n : ℕ) (xs : Bytes) → All P xs → All P (drop n xs)
All-drop P zero xs h = h
All-drop P (suc n) [] h = h
All-drop P (suc n) (x ∷ xs) h = All-drop P n xs h.1

-- The 28 bytes and the count, as parts of the word of a commitment.
commitment_parts :
    (top : Bytes) (count : ℕ)
    → count < u32_mod
    → from_be_bytes (top ++ to_be_bytes 4 count) ≡ from_be_bytes top * u32_mod + count
commitment_parts top count fits = rw (
  from_be_bytes-append top (to_be_bytes 4 count),
  length-to_be_bytes 4 count,
  from-to_be_bytes 4 count fits,
)

-- The same 28 bytes and the rest, as parts of the word of the hash.
hash_parts :
    (hash : Hash)
    → IsHash hash
    → All (λ b. b < 256) hash
    → (rest : ℕ) × (rest < u32_mod)
      × (from_be_bytes hash ≡ from_be_bytes (take 28 hash) * u32_mod + rest)
hash_parts hash width bytes =
    let size : length (drop 28 hash) ≡ 4 = omega (arith, length-drop 28 hash (omega arith)) in
    (
      from_be_bytes (drop 28 hash),
      rw size at (from_be_bytes-lt (drop 28 hash) (All-drop (λ b. b < 256) 28 hash bytes)),
      ap from_be_bytes (sym (take-append-drop 28 hash))
          ∙ from_be_bytes-append (take 28 hash) (drop 28 hash)
          ∙ ap (λ n. from_be_bytes (take 28 hash) * 256 ^ n + from_be_bytes (drop 28 hash)) size,
    )

low_bits :
    (top : ℕ) {w count : ℕ} → w ≡ top * u32_mod + count → count < u32_mod → w % u32_mod ≡ count
low_bits top e fits = omega arith

high_bits :
    (top : ℕ) {w v count rest : ℕ}
    → w ≡ top * u32_mod + count
    → count < u32_mod
    → v ≡ top * u32_mod + rest
    → rest < u32_mod
    → w - w % u32_mod ≡ v - v % u32_mod
high_bits top e fits f small = omega arith

-- The count that goes into a commitment comes out of it, and the hash comes out as the contract
-- truncates it: for a hash of 32 bytes and a count that fits its 4 bytes, `decodeCommitment` of
-- `build_commitment hash count` is the count and `truncate` of the hash.
pub decode-build_commitment :
    (hash : Hash) (count : ℕ)
    → IsHash hash
    → All (λ b. b < 256) hash
    → count < u32_mod
    → decode_commitment (word (build_commitment hash count)) ≡ (count, truncate (word hash))
unfolding decode_commitment build_commitment
decode-build_commitment hash count width bytes fits =
    let split = commitment_parts (take 28 hash) count fits in
    let parts = hash_parts hash width bytes in
    λ i. (low_bits _ split fits i, high_bits _ split fits parts.2 parts.1 i)
