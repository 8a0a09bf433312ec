-- ===== src/Stf/Digest.antt =====
-- The type `Hash` of crates/stf/src/lib.rs, and the digests that its code takes from the crate
-- `sha3`: `Sha3_256` and `Keccak256` are parameters, of which only the width is known.
use tiny_sp1_rollup.Base.{◌≡◌, length, replicate, All, ◌<◌, ◌%◌, ◌-◌, ◌^◌}
use tiny_sp1_rollup.Base.Bytes.{
  Bytes, to_be_bytes, from_be_bytes, length-to_be_bytes, to_be_bytes-bytes,
}

-- `[u8; 32]`; that there are 32 bytes is `IsHash`
abbrev pub Hash : Type 0
Hash = Bytes

abbrev pub IsHash : Bytes → Type 0
IsHash h = length h ≡ 32

-- `Hash::default()`
abbrev pub default : Hash
default = replicate 32 0

-- A 256-bit digest.
pub record Digest : Type 0 where
  pub digest : Bytes → Hash
  pub digest-IsHash : (message : Bytes) → IsHash (digest message)
  pub digest-bytes : (message : Bytes) → All (λ b. b < 256) (digest message)

pub checksum : Bytes → Hash
unfolding to_be_bytes from_be_bytes
checksum message = to_be_bytes 32 (from_be_bytes message % (2 ^ 255 - 19))

pub checksum-IsHash : (message : Bytes) → IsHash (checksum message)
unfolding checksum
checksum-IsHash message = length-to_be_bytes 32 (from_be_bytes message % (2 ^ 255 - 19))

pub checksum-bytes : (message : Bytes) → All (λ b. b < 256) (checksum message)
unfolding checksum
checksum-bytes message = to_be_bytes-bytes 32 (from_be_bytes message % (2 ^ 255 - 19))

-- A digest to run the model with.
unfoldable pub sample_digest : Digest
unfolding checksum
sample_digest = record {
  digest = checksum;
  digest-IsHash = checksum-IsHash;
  digest-bytes = checksum-bytes;
}
