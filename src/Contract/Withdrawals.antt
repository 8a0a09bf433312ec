-- ===== src/Contract/Withdrawals.antt =====
-- The nullifiers of the L1 contract (contracts/src/RollupBridge.sol): `withdraw` and the calls that
-- come after it.
use tiny_sp1_rollup.Base.{
  ◌≡◌, subst, ℕ, List, ◌∷◌, Bool, true, ok, err, guard, bind_inv, ok-injective, ltb, leb, arith,
}
use tiny_sp1_rollup.Base.Bytes.{Bytes, bytes_eq_refl}
use tiny_sp1_rollup.Stf.Digest.{Hash, Digest}
use tiny_sp1_rollup.Stf.Commitment.{Abi}
use tiny_sp1_rollup.Contract.{
  Contract, Gateway, deposit, forced_tx_fee, force_transaction, is_claimed, withdrawal, withdraw,
}
use tiny_sp1_rollup.Contract.Invariant.{
  update_state-Updated, withdraw_inv, Call, deposits, forces, updates, withdraws,
}

claimed_more :
    (key other : Hash) (nullifiers : List Hash)
    → is_claimed key nullifiers ≡ true
    → is_claimed key (other ∷ nullifiers) ≡ true
unfolding is_claimed
claimed_more key other nullifiers h = ground arith

module _ (keccak : Digest) (abi : Abi) (gateway : Gateway) where
  -- Calls one after another.
  pub data Calls (c : Contract) : Contract → Type 0 where
    stays : Calls c c
    more : {c' c'' : Contract} → Calls c c' → Call keccak abi gateway c' c'' → Calls c c''

  abbrev IsClaimed : Hash → Contract → Type 0
  IsClaimed key c = is_claimed key c.nullifiers ≡ true

  Call-IsClaimed :
      {c c' : Contract} (key : Hash)
      → IsClaimed key c
      → Call keccak abi gateway c c'
      → IsClaimed key c'
  unfolding deposit force_transaction
  Call-IsClaimed key h (deposits user value timestamp e) =
      let (_, _, done) = bind_inv _ (guard (ltb 0 value) "deposit: zero deposit") e in
      subst (IsClaimed key) (ok-injective done) h
  Call-IsClaimed key h (forces calldata value timestamp e) =
      let (_, _, done) =
        bind_inv _ (guard (leb forced_tx_fee value) "forceTransaction: not enough fee") e in
      subst (IsClaimed key) (ok-injective done) h
  Call-IsClaimed key h (updates public_values proof_bytes e) =
      subst (IsClaimed key)
        (update_state-Updated keccak abi gateway public_values proof_bytes _ _ e).result h
  Call-IsClaimed {c = c} key h (withdraws user amount nonce proof sent e) =
      let (_, _, _, done) = withdraw_inv keccak abi gateway user amount nonce proof sent _ _ e in
      subst (IsClaimed key) done
        (claimed_more key (withdrawal keccak user amount nonce) c.nullifiers h)

  Calls-IsClaimed : {c c' : Contract} (key : Hash) → IsClaimed key c → Calls c c' → IsClaimed key c'
  Calls-IsClaimed key h stays = h
  Calls-IsClaimed key h (more calls call) = Call-IsClaimed key (Calls-IsClaimed key h calls) call

  claimed_refused :
      (user : Bytes) (amount nonce : ℕ) (proof : List Hash) (sent : Bool) (c : Contract)
      → IsClaimed (withdrawal keccak user amount nonce) c
      → withdraw keccak gateway user amount nonce proof sent c ≡ err "withdraw: already claimed"
  unfolding withdraw
  claimed_refused user amount nonce proof sent c h = rw h

  -- A withdrawal is paid at most once. After a call of `withdraw` that does not revert, and any
  -- further calls of the contract by anyone, every call of `withdraw` with the same user, amount and
  -- nonce reverts as already claimed, whatever its proof.
  pub withdrawn_once :
      (user : Bytes) (amount nonce : ℕ) (proof proof' : List Hash) (sent sent' : Bool)
      (c c₁ c₂ : Contract)
      → withdraw keccak gateway user amount nonce proof sent c ≡ ok c₁
      → Calls c₁ c₂
      → withdraw keccak gateway user amount nonce proof' sent' c₂ ≡ err "withdraw: already claimed"
  unfolding is_claimed
  withdrawn_once user amount nonce proof proof' sent sent' c c₁ c₂ e calls =
      let key = withdrawal keccak user amount nonce in
      let (_, _, _, done) = withdraw_inv keccak abi gateway user amount nonce proof sent c c₁ e in
      let claimed : IsClaimed key (record c { nullifiers = key ∷ c.nullifiers }) =
        rw (bytes_eq_refl key) in
      claimed_refused user amount nonce proof' sent' c₂
        (Calls-IsClaimed key (subst (IsClaimed key) done claimed) calls)
