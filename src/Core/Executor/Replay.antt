-- ===== src/Core/Executor/Replay.antt =====
-- Replays: a transaction between two accounts takes effect at most once, and one from an account
-- to itself takes effect each time.
use tiny_sp1_rollup.Base.{
  ◌+◌, ◌≤◌, ◌<◌, ◌≡◌, ◌≢◌, refl, ap, sym, subst, ◌∙◌, true, false, Outcome, ok, err, panic, arith,
  ◌-◌,
}
use tiny_sp1_rollup.Base.Bytes.{bytes_eq, bytes_eq_iff, bytes_eq_refl, bytes_eq_comm_false, u64_mod}
use tiny_sp1_rollup.Stf.Digest.{Hash}
use tiny_sp1_rollup.Stf.Account.{Account}
use tiny_sp1_rollup.Stf.Types.{
  StfError, invalid_nonce, TransactionResult, success, failure, Transaction,
}
use tiny_sp1_rollup.Stf.Apply
use tiny_sp1_rollup.Core.Error.{CoreError, account_not_found}
use tiny_sp1_rollup.Core.External.{StateTree, Codec}
use tiny_sp1_rollup.Core.Executor.{BlockExecutor, apply_transaction}
use tiny_sp1_rollup.Core.Executor.View.{Ledger, write, view}
use tiny_sp1_rollup.Core.Executor.Ledger.{pay, post, readable, shown, apply_transaction-pay}

-- The sender's account in a result.
abbrev sender : TransactionResult → Account
sender (success f t) = f
sender (failure f) = f

spent_nonce :
    (a b : Account) (tx : Transaction) (r : TransactionResult)
    → Apply.apply_transaction a b tx ≡ ok r
    → (sender r).nonce ≢ tx.nonce
unfolding Apply.apply_transaction
spent_nonce a b tx (success f t) e = ground arith
spent_nonce a b tx (failure f) e = ground arith

refused_again :
    (a b : Account) (tx : Transaction)
    → a.nonce ≢ tx.nonce
    → Apply.apply_transaction a b tx ≡ err (invalid_nonce a.nonce tx.nonce)
unfolding Apply.apply_transaction
refused_again a b tx h = ground arith

write_self : (k : Hash) (a : Account) (l : Ledger) → write k a l k ≡ ok a
write_self k a l = rw (bytes_eq_refl k)

write_other : (k j : Hash) (a : Account) (l : Ledger) → bytes_eq j k ≡ false → write k a l j ≡ l j
write_other k j a l h = rw h

-- With a sender of another nonce, a transaction leaves the ledger.
pay_stale :
    (tx : Transaction) (l : Ledger) (a b : Account)
    → l tx.from ≡ ok a
    → readable tx.to (l tx.to) ≡ ok b
    → a.nonce ≢ tx.nonce
    → pay tx l ≡ ok l
unfolding pay
pay_stale tx l a b ea eb h = rw (ea, eb, refused_again a b tx h)

module _ (tx : Transaction) (l : Ledger) (apart : bytes_eq tx.from tx.to ≡ false) where
  settled_once :
      (a b : Account) (r : Outcome StfError TransactionResult) (l' : Ledger)
      → pay tx l ≡ post tx.from tx.to r l
      → Apply.apply_transaction a b tx ≡ r
      → readable tx.to (l tx.to) ≡ ok b
      → post tx.from tx.to r l ≡ ok l'
      → pay tx l' ≡ ok l'
  settled_once a b (ok (success f t)) l' e0 e eb p =
      let w = write tx.to t (write tx.from f l) in
      let q : w ≡ l' = cc (rw apart at p) in
      let fresh : w tx.from ≡ ok f = rw (apart, bytes_eq_refl tx.from) in
      let paid : readable tx.to (w tx.to) ≡ ok t = rw (bytes_eq_refl tx.to) in
      subst (λ m. pay tx m ≡ ok m) q (pay_stale tx w f t fresh paid (spent_nonce a b tx _ e))
  settled_once a b (ok (failure f)) l' e0 e eb p =
      let w = write tx.from f l in
      let q : w ≡ l' = cc p in
      let fresh : w tx.from ≡ ok f = rw (bytes_eq_refl tx.from) in
      let unpaid : readable tx.to (w tx.to) ≡ ok b =
        rw (bytes_eq_comm_false tx.from tx.to apart) eb in
      subst (λ m. pay tx m ≡ ok m) q (pay_stale tx w f b fresh unpaid (spent_nonce a b tx _ e))
  settled_once a b (err x) l' e0 e eb p = let q : l ≡ l' = cc p in subst (λ m. pay tx m ≡ ok m) q e0
  settled_once a b panic l' e0 e eb p = cc

  to_recipient :
      (a : Account) (r : Outcome CoreError Account) (l' : Ledger)
      → l tx.from ≡ ok a
      → readable tx.to (l tx.to) ≡ r
      → pay tx l ≡ ok l'
      → pay tx l' ≡ ok l'
  unfolding pay
  to_recipient a (ok b) l' ea eb p =
      let e0 : pay tx l ≡ post tx.from tx.to (Apply.apply_transaction a b tx) l =
        rw (pay, ea, eb) in
      settled_once a b (Apply.apply_transaction a b tx) l' e0 refl eb (sym e0 ∙ p)
  to_recipient a (err x) l' ea eb p = let q : err x ≡ ok l' = rw (pay, ea, eb) at p in cc q
  to_recipient a panic l' ea eb p = let q : panic ≡ ok l' = rw (pay, ea, eb) at p in cc q

  from_sender :
      (r : Outcome CoreError Account) (l' : Ledger)
      → l tx.from ≡ r
      → pay tx l ≡ ok l'
      → pay tx l' ≡ ok l'
  unfolding pay
  from_sender (ok a) l' ea p = to_recipient a (readable tx.to (l tx.to)) l' ea refl p
  from_sender (err (account_not_found k)) l' ea p =
      let e0 : pay tx l ≡ ok l = rw (pay, ea) in
      let q : l ≡ l' = cc (sym e0 ∙ p) in subst (λ m. pay tx m ≡ ok m) q e0
  from_sender (err e) l' ea p = let q : err e ≡ ok l' = rw (pay, ea) at p in cc q
  from_sender panic l' ea p = let q : panic ≡ ok l' = rw (pay, ea) at p in cc q

covered_self_transfer :
    (a : Account) (tx : Transaction)
    → a.nonce ≡ tx.nonce
    → tx.amount + tx.fee ≤ a.balance
    → a.balance + tx.amount < u64_mod
    → (f : Account) × (Apply.apply_transaction a a tx
        ≡ ok (success f (record a { balance = a.balance + tx.amount })))
unfolding Apply.apply_transaction
covered_self_transfer a tx same cover fits = (
  record a { nonce = Apply.next_nonce a.nonce; balance = a.balance - (tx.amount + tx.fee) },
  ground arith,
)

module _ (db : StateTree) (codec : Codec) where
  -- No replay between two accounts: once the executor has taken a transaction whose sender and
  -- recipient differ, whether it was paid, failed or was skipped, taking it again succeeds and
  -- changes no account that the executor shows.
  pub apply_transaction_once :
      (tx : Transaction) (self self' : BlockExecutor db.Tree)
      → bytes_eq tx.from tx.to ≡ false
      → apply_transaction db codec tx self ≡ ok self'
      → shown db codec (apply_transaction db codec tx self') ≡ ok (view db codec self')
  apply_transaction_once tx self self' apart e =
      apply_transaction-pay db codec tx self'
      ∙ from_sender tx (view db codec self) apart (view db codec self tx.from) (view db codec self')
          refl (sym (apply_transaction-pay db codec tx self) ∙ ap (shown db codec) e)

  -- A covered transaction from an account to itself creates money: the account ends with its
  -- balance plus the amount, nothing debited and no fee taken, and with its old nonce, so that the
  -- same transaction is due again. No other account changes.
  pub self_transfer_mints :
      (tx : Transaction) (self : BlockExecutor db.Tree) (a : Account)
      → tx.to ≡ tx.from
      → view db codec self tx.from ≡ ok a
      → a.nonce ≡ tx.nonce
      → tx.amount + tx.fee ≤ a.balance
      → a.balance + tx.amount < u64_mod
      → shown db codec (apply_transaction db codec tx self)
        ≡ ok (write tx.from (record a { balance = a.balance + tx.amount }) (view db codec self))
  self_transfer_mints tx self a same found nonce cover fits =
      let result = covered_self_transfer a tx nonce cover fits in
      let found_to : view db codec self tx.to ≡ ok a = ap (view db codec self) same ∙ found in
      let one : bytes_eq tx.from tx.to ≡ true = (bytes_eq_iff tx.from tx.to).1 (sym same) in
      apply_transaction-pay db codec tx self ∙ (unfold pay in rw (found, found_to, result.1, one))
