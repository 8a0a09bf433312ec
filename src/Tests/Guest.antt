-- ===== src/Tests/Guest.antt =====
-- An encoding of the public values that decodes, a gateway that takes every proof, and an attempt
-- that runs the guest.
use tiny_sp1_rollup.Base.{
  ◌≡◌, refl, ap, true, [], ◌∷◌, ◌++◌, String, Option, none, some, Outcome, ok, err, length, take,
  drop, take-append_left, drop-append_left,
}
use tiny_sp1_rollup.Base.Bytes.{Bytes}
use tiny_sp1_rollup.Stf.Digest.{sample_digest}
use tiny_sp1_rollup.Stf.Commitment.{Abi, PublicValues}
use tiny_sp1_rollup.Program.{main}
use tiny_sp1_rollup.Contract.{Gateway}
use tiny_sp1_rollup.Sequencer.Prove.{delivered, Delivery, Attempt}
use tiny_sp1_rollup.Sequencer.Prove.Progress.{IsReliable}
use tiny_sp1_rollup.Sequencer.Prove.Settled.{IsHonest}
use tiny_sp1_rollup.Tests.Data.{abi}

-- A field after its length.
abbrev pub sized : Bytes → Bytes → Bytes
sized field rest = length field ∷ (field ++ rest)

abbrev pub guest_abi : Abi
guest_abi = record abi {
  encode_public_values = λ v.
      sized v.pre_state_root
        (sized v.post_state_root (sized v.deposits_commitment (sized v.forced_txs_commitment [])));
}

abbrev pub field : Bytes → Bytes × Bytes
field [] = ([], [])
field (n ∷ b) = (take n b, drop n b)

unfoldable pub decode : Bytes → Option PublicValues
decode b =
    let (pre, b₁) = field b in
    let (post, b₂) = field b₁ in
    let (deposits, b₃) = field b₂ in
    let (forced_txs, b₄) = field b₃ in
    some (record {
      pre_state_root = pre;
      post_state_root = post;
      deposits_commitment = deposits;
      forced_txs_commitment = forced_txs;
    })

abbrev pub gateway : Gateway
gateway = record {
  decode = decode;
  verify_proof = λ values proof. true;
  verify_merkle_proof = λ proof root leaf. true;
}

pub decode-encode : (v : PublicValues) → decode (guest_abi.encode_public_values v) ≡ some v
unfolding decode
decode-encode v = simp (take-append_left, drop-append_left)

abbrev pub proof_of : Option Bytes → Outcome String (Bytes × Bytes)
proof_of none = err "the program panicked"
proof_of (some values) = ok (values, [])

abbrev pub honest_attempt : Delivery → Attempt
honest_attempt sent = record {
  prove = λ pre txs deposits forced proofs.
      proof_of (main sample_digest sample_digest guest_abi pre txs deposits forced proofs);
  delivery = sent;
}

proof_of_lem :
    (o : Option Bytes) (values proof : Bytes) → proof_of o ≡ ok (values, proof) → o ≡ some values
proof_of_lem none values proof e = cc e
proof_of_lem (some committed) values proof e = cc e

pub honest :
    (sent : Delivery)
    → IsHonest sample_digest sample_digest guest_abi gateway decode (honest_attempt sent)
honest sent = record {
  commits = λ pre txs deposits forced proofs values proof e. proof_of_lem _ values proof e;
  decodes = decode-encode;
  gateway_decodes = decode-encode;
}

pub reliable :
    IsReliable sample_digest sample_digest guest_abi gateway decode (honest_attempt delivered)
reliable = record {
  proves = λ pre txs deposits forced proofs values e. ([], ap proof_of e, refl);
  delivers = refl;
  decodes = decode-encode;
  gateway_decodes = decode-encode;
}
