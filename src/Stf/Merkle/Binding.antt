-- ===== src/Stf/Merkle/Binding.antt =====
-- What an accepted Merkle proof commits to: two accepted proofs of one root that disagree have
-- hashed different messages to one digest.
use mathlib.Core.List.{map}
use tiny_sp1_rollup.Base.{
  ◌≡◌, ◌≢◌, refl, sym, ◌∙◌, Bool, true, false, List, [], ◌∷◌, ◌++◌, if◌then◌else◌, ◌⊎◌, inl, inr,
  Bool-cases, append_inj, All,
}
use tiny_sp1_rollup.Base.Bytes.{
  Bytes, bytes_eq, bytes_eq_iff, to_be_bytes, to_be_bytes_inj, length-to_be_bytes,
}
use tiny_sp1_rollup.Stf.Digest.{Hash, IsHash, Digest}
use tiny_sp1_rollup.Stf.Account
use tiny_sp1_rollup.Stf.Account.{Account}
use tiny_sp1_rollup.Stf.Merkle.{Sibling, MerkleProof, hash_nodes, climb, verify}

-- Where each sibling of a proof stands: the position that the proof is for.
abbrev pub directions : List Sibling → List Bool
directions = map (λ s. s.0)

-- The values that the Rust type holds.
pub record IsValid (p : MerkleProof) : Type 0 where
  pub account : Account.IsValid p.account
  pub siblings : All (λ s. IsHash s.1) p.siblings

pub preimage_inj :
    (a b : Account)
    → Account.IsValid a
    → Account.IsValid b
    → Account.preimage a ≡ Account.preimage b
    → a ≡ b
unfolding Account.preimage
preimage_inj a b va vb e =
    let nonces =
      append_inj (to_be_bytes 8 a.nonce) (to_be_bytes 8 b.nonce)
        (length-to_be_bytes 8 _ ∙ sym (length-to_be_bytes 8 _)) e in
    let rest = append_inj a.id b.id (va.id_width ∙ sym vb.id_width) nonces.1 in
    λ i. record {
      id = rest.0 i;
      balance = to_be_bytes_inj 8 a.balance b.balance va.balance_range vb.balance_range rest.1 i;
      nonce = to_be_bytes_inj 8 a.nonce b.nonce va.nonce_range vb.nonce_range nonces.0 i;
    }

-- What a level of the climb hashes, the sibling `s` being on the right or on the left of `h`.
abbrev pub message : Bool → Hash → Hash → Bytes
message true h s = h ++ s
message false h s = s ++ h

module _ (sha3 : Digest) where
  -- One level of the climb.
  abbrev step : Bool → Hash → Hash → Hash
  step d h s = if d then hash_nodes sha3 h s else hash_nodes sha3 s h

  -- All that a climb hashes, from the leaf's level upwards.
  unfoldable pub messages : Hash → List Sibling → List Bytes
  messages h [] = []
  messages h ((d, s) ∷ siblings) = message d h s ∷ messages (step d h s) siblings

  -- All that the check of a proof hashes, the account first.
  abbrev pub hashed : MerkleProof → List Bytes
  hashed p = Account.preimage p.account ∷ messages (Account.hash sha3 p.account) p.siblings

  -- Two different messages with one digest.
  abbrev pub IsCollision : Bytes → Bytes → Type 0
  IsCollision x y = (x ≢ y) × (sha3.digest x ≡ sha3.digest y)

  -- The lists have a collision at one place.
  abbrev pub Collide : List Bytes → List Bytes → Type 0
  Collide [] ys = ⊥
  Collide (x ∷ xs) [] = ⊥
  Collide (x ∷ xs) (y ∷ ys) = IsCollision x y ⊎ Collide xs ys

  digest_binding : (x y : Bytes) → sha3.digest x ≡ sha3.digest y → (x ≡ y) ⊎ IsCollision x y
  digest_binding x y e = elim (Bool-cases (bytes_eq x y)) [
    | inl same ↦ inl ((bytes_eq_iff x y).0 same)
    | inr other ↦ inr ((λ p. cc ((bytes_eq_iff x y).1 p)), e)
  ]

  -- Accounts with one leaf hash are the same account, in every field, unless their bytes collide.
  hash_binding :
      (a b : Account)
      → Account.IsValid a
      → Account.IsValid b
      → Account.hash sha3 a ≡ Account.hash sha3 b
      → (a ≡ b) ⊎ IsCollision (Account.preimage a) (Account.preimage b)
  unfolding Account.hash
  hash_binding a b va vb e = elim (digest_binding (Account.preimage a) (Account.preimage b) e) [
    | inl same ↦ inl (preimage_inj a b va vb same)
    | inr c ↦ inr c
  ]

  step-IsHash : (d : Bool) (h s : Hash) → IsHash (step d h s)
  unfolding hash_nodes
  step-IsHash true h s = sha3.digest-IsHash _
  step-IsHash false h s = sha3.digest-IsHash _

  step_binding :
      (d : Bool) (g s h t : Hash)
      → IsHash g
      → IsHash h
      → IsHash s
      → IsHash t
      → step d g s ≡ step d h t
      → ((g ≡ h) × (s ≡ t)) ⊎ IsCollision (message d g s) (message d h t)
  unfolding hash_nodes
  step_binding true g s h t hg hh hs ht e = elim (digest_binding (g ++ s) (h ++ t) e) [
    | inl same ↦ inl (append_inj g h (hg ∙ sym hh) same)
    | inr c ↦ inr c
  ]
  step_binding false g s h t hg hh hs ht e = elim (digest_binding (s ++ g) (t ++ h) e) [
    | inl same ↦ let both = append_inj s t (hs ∙ sym ht) same in inl (both.1, both.0)
    | inr c ↦ inr c
  ]

  -- A level below levels that agree or collide.
  level :
      (d : Bool) (s t : Hash) (xs ys : List Sibling) (g h : Hash)
      → IsHash g
      → IsHash h
      → IsHash s
      → IsHash t
      → ((step d g s ≡ step d h t) × (xs ≡ ys))
        ⊎ Collide (messages (step d g s) xs) (messages (step d h t) ys)
      → ((g ≡ h) × ((d, s) ∷ xs ≡ (d, t) ∷ ys))
        ⊎ (IsCollision (message d g s) (message d h t)
            ⊎ Collide (messages (step d g s) xs) (messages (step d h t) ys))
  level d s t xs ys g h hg hh hs ht (inl above) =
      elim (step_binding d g s h t hg hh hs ht above.0) [
        | inl p ↦ inl (p.0, λ i. (d, p.1 i) ∷ above.1 i)
        | inr col ↦ inr (inl col)
      ]
  level d s t xs ys g h hg hh hs ht (inr col) = inr (inr col)

  -- Climbing equal positions to one hash means equal leaves and equal siblings, unless the climbs
  -- hash two different messages to one digest on one level.
  climb_binding :
      (xs ys : List Sibling) (g h : Hash)
      → IsHash g
      → IsHash h
      → All (λ s. IsHash s.1) xs
      → All (λ s. IsHash s.1) ys
      → directions xs ≡ directions ys
      → climb sha3 g xs ≡ climb sha3 h ys
      → ((g ≡ h) × (xs ≡ ys)) ⊎ Collide (messages g xs) (messages h ys)
  unfolding climb messages
  climb_binding [] [] g h hg hh vx vy same e = inl (e, refl)
  climb_binding [] (y ∷ ys) g h hg hh vx vy same e = absurd (cc)
  climb_binding (x ∷ xs) [] g h hg hh vx vy same e = absurd (cc)
  climb_binding ((true, s) ∷ xs) ((false, t) ∷ ys) g h hg hh vx vy same e = absurd (cc)
  climb_binding ((false, s) ∷ xs) ((true, t) ∷ ys) g h hg hh vx vy same e = absurd (cc)
  climb_binding ((true, s) ∷ xs) ((true, t) ∷ ys) g h hg hh vx vy same e =
      level true s t xs ys g h hg hh vx.0 vy.0 (
        climb_binding xs ys (step true g s) (step true h t) (step-IsHash true g s)
          (step-IsHash true h t) vx.1 vy.1 (cc) e)
  climb_binding ((false, s) ∷ xs) ((false, t) ∷ ys) g h hg hh vx vy same e =
      level false s t xs ys g h hg hh vx.0 vy.0 (
        climb_binding xs ys (step false g s) (step false h t) (step-IsHash false g s)
          (step-IsHash false h t) vx.1 vy.1 (cc) e)

  -- A root commits to the account at each position: two proofs with the same directions that both
  -- verify at one root are the same proof, account and siblings, or the two checks hash, at the same
  -- place of the way up, two different messages to one digest.
  pub verify_binding :
      (p q : MerkleProof) (root : Hash)
      → IsValid p
      → IsValid q
      → directions p.siblings ≡ directions q.siblings
      → verify sha3 p root ≡ true
      → verify sha3 q root ≡ true
      → (p ≡ q) ⊎ Collide (hashed p) (hashed q)
  unfolding verify Account.hash
  verify_binding p q root vp vq same ep eq =
      elim (climb_binding p.siblings q.siblings _ _ (sha3.digest-IsHash _) (sha3.digest-IsHash _)
        vp.siblings vq.siblings same
        ((bytes_eq_iff _ root).0 ep ∙ sym ((bytes_eq_iff _ root).0 eq))) [
          | inl both ↦ elim (hash_binding p.account q.account vp.account vq.account both.0) [
            | inl account ↦ inl (λ i. record { account = account i; siblings = both.1 i })
            | inr col ↦ inr (inl col)
          ]
          | inr col ↦ inr (inr col)
        ]
