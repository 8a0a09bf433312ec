-- ===== src/Sequencer/Prove/Retries.antt =====
-- The retries of `prover_worker_loop` (crates/sequencer/src/main.rs): a block is proven, or given up
-- after three failures. The loop is on fuel, and three rounds of it are enough.
use tiny_sp1_rollup.Base.{
  ◌≡◌, refl, ℕ, zero, suc, ◌+◌, ◌<◌, Outcome, ok, err, panic, leb, ◌≢◌, arith, if◌then◌else◌,
  Bool-cases, inl, inr,
}
use tiny_sp1_rollup.Sequencer.Prove.{ProveError}

-- How the loop over the retries ends: by `break` after the block is proven, by `break` after it is
-- given up, or with the worker's task.
pub data Verdict : Type 0 where
  proven_and_sent given_up crashed out_of_fuel : Verdict

abbrev pub max_retries : ℕ
max_retries = 3

module _ {S : Type 0} where
  -- The `match` on an attempt; `again` goes on with the loop.
  unfoldable pub after_attempt :
      ℕ → (S → S × Verdict) → S × Outcome ProveError (Unit {0}) → S × Verdict
  after_attempt retries again (s, ok u) = (s, proven_and_sent)
  after_attempt retries again (s, err e) =
      if leb max_retries (retries + 1) then (s, given_up) else again s
  after_attempt retries again (s, panic) = (s, crashed)

module _ {S : Type 0} (attempt : ℕ → S → S × Outcome ProveError (Unit {0})) where
  -- The loop, where `attempt n` is the call that `n` failures precede.
  unfoldable pub retry_loop : ℕ → ℕ → S → S × Verdict
  unfolding after_attempt
  retry_loop zero retries s = (s, out_of_fuel)
  retry_loop (suc fuel) retries s =
      after_attempt retries (retry_loop fuel (retries + 1)) (attempt retries s)

  -- What the loop is to do, with no fuel: after `n` failures, to try again up to the third.
  pub data Retried : ℕ → S → S × Verdict → Type 0 where
    sends : {n : ℕ} {s s' : S} → attempt n s ≡ (s', ok tt) → Retried n s (s', proven_and_sent)
    gives_up :
        {n : ℕ} {s s' : S} (e : ProveError)
        → attempt n s ≡ (s', err e)
        → n ≡ 2
        → Retried n s (s', given_up)
    tries_again :
        {n : ℕ} {s s' : S} {r : S × Verdict} (e : ProveError)
        → attempt n s ≡ (s', err e)
        → n < 2
        → Retried (n + 1) s' r
        → Retried n s r
    crashes : {n : ℕ} {s s' : S} → attempt n s ≡ (s', panic) → Retried n s (s', crashed)

  after_attempt-Retried :
      (fuel n : ℕ) (s : S) (r : S × Outcome ProveError (Unit {0}))
      → n + suc fuel ≡ max_retries
      → attempt n s ≡ r
      → ((s' : S) → n < 2 → Retried (n + 1) s' (retry_loop fuel (n + 1) s'))
      → Retried n s (after_attempt n (retry_loop fuel (n + 1)) r)
  unfolding after_attempt
  after_attempt-Retried fuel n s (s', ok u) h e ih = sends e
  after_attempt-Retried fuel n s (s', err x) h e ih = elim (Bool-cases (leb max_retries (n + 1))) [
    | inl last ↦ rw last (gives_up x e (ground arith))
    | inr more ↦ rw more (tries_again x e (ground arith) (ih s' (ground arith)))
  ]
  after_attempt-Retried fuel n s (s', panic) h e ih = crashes e

  loop-Retried :
      (fuel n : ℕ) (s : S) → n + suc fuel ≡ max_retries → Retried n s (retry_loop (suc fuel) n s)
  unfolding retry_loop
  loop-Retried zero n s h =
      after_attempt-Retried zero n s (attempt n s) h refl (λ s' lt. absurd (omega arith))
  loop-Retried (suc fuel) n s h =
      after_attempt-Retried (suc fuel) n s (attempt n s) h refl
        (λ s' lt. loop-Retried fuel (n + 1) s' (omega arith))

  -- A block that is sent is sent by an attempt.
  pub sent_attempt :
      {n : ℕ} {s : S} {r : S × Verdict}
      → Retried n s r
      → r.1 ≡ proven_and_sent
      → (m : ℕ) × (before : S) × (attempt m before ≡ (r.0, ok tt))
  sent_attempt {n = n} {s = s} (sends e) sent = (n, s, e)
  sent_attempt (gives_up x e last) sent = cc
  sent_attempt (tries_again x e more run) sent = sent_attempt run sent
  sent_attempt (crashes e) sent = cc

  Retried-fuel : {n : ℕ} {s : S} {r : S × Verdict} → Retried n s r → r.1 ≢ out_of_fuel
  Retried-fuel (sends e) = cc
  Retried-fuel (gives_up x e last) = cc
  Retried-fuel (tries_again x e more run) = Retried-fuel run
  Retried-fuel (crashes e) = cc

  -- The loop over the retries ends within three attempts, whatever the attempts do. From no
  -- failure, fuel for `max_retries` rounds never runs out; the first attempt that succeeds ends the
  -- loop with the block sent, the third failure in a row with the block given up, and a panic with
  -- the worker; each attempt starts from the state that the one before left.
  pub retry_loop-Retried :
      (s : S)
      → Retried 0 s (retry_loop max_retries 0 s) × ((retry_loop max_retries 0 s).1 ≢ out_of_fuel)
  retry_loop-Retried s = let run = loop-Retried 2 0 s refl in (run, Retried-fuel run)
