-- ===== src/Core/Executor/Supply.antt =====
-- The money that a ledger holds: no transaction between two accounts creates any, and a deposit
-- creates its amount.
use tiny_sp1_rollup.Base.{
  ℕ, ◌+◌, ◌≤◌, ◌≡◌, refl, ap, sym, subst, ◌∙◌, false, List, [], ◌∷◌, Outcome, ok, err, panic, ◌>>=◌,
  arith, if◌then◌else◌, Bool-cases, inl, inr, ◌⊎◌,
}
use tiny_sp1_rollup.Base.Bytes.{bytes_eq, bytes_eq_iff, bytes_eq_comm_false, u64_mod}
use tiny_sp1_rollup.Stf.Digest.{Hash}
use tiny_sp1_rollup.Stf.Account
use tiny_sp1_rollup.Stf.Account.{Account}
use tiny_sp1_rollup.Stf.Types
use tiny_sp1_rollup.Stf.Types.{StfError, TransactionResult, success, failure, Transaction, Deposit}
use tiny_sp1_rollup.Stf.Apply
use tiny_sp1_rollup.Stf.Apply.Money.{
  Settles, IsSettled, IsRefused, apply_transaction-Settles, IsCredited, apply_deposit-IsCredited,
}
use tiny_sp1_rollup.Core.Error.{CoreError, account_not_found}
use tiny_sp1_rollup.Core.External.{StateTree, Codec}
use tiny_sp1_rollup.Core.Executor.{BlockExecutor, apply_transaction, apply_deposit}
use tiny_sp1_rollup.Core.Executor.View.{Ledger, write, view}
use tiny_sp1_rollup.Core.Executor.Ledger.{
  pay, post, readable, shown, credit, deposited, apply_transaction-pay, apply_deposit-credit,
}

-- An account that cannot be read holds nothing.
abbrev pub balance_of : Outcome CoreError Account → ℕ
balance_of (ok a) = a.balance
balance_of (err e) = 0
balance_of panic = 0

-- The balances at the addresses of a list.
unfoldable pub total : List Hash → Ledger → ℕ
total [] l = 0
total (k ∷ ks) l = balance_of (l k) + total ks l

unfoldable pub count : Hash → List Hash → ℕ
count k [] = 0
count k (j ∷ js) = (if bytes_eq j k then 1 else 0) + count k js

total-write_absent :
    (k : Hash) (a : Account) (l : Ledger) (ks : List Hash)
    → count k ks ≡ 0
    → total ks (write k a l) ≡ total ks l
unfolding total count
total-write_absent k a l [] h = refl
total-write_absent k a l (j ∷ js) h = ground (arith, total-write_absent k a l js)

total-write :
    (k : Hash) (a : Account) (l : Ledger) (ks : List Hash)
    → count k ks ≡ 1
    → total ks (write k a l) + balance_of (l k) ≡ total ks l + a.balance
unfolding total count
total-write k a l [] h = absurd (omega arith)
total-write k a l (j ∷ js) h = elim (Bool-cases (bytes_eq j k)) [
  | inl same ↦ ground (
    arith,
    total-write_absent k a l js,
    ap (λ (x : Hash). balance_of (l x)) ((bytes_eq_iff j k).0 same),
  )
  | inr other ↦ ground (arith, total-write k a l js)
]

-- What a transaction may do to the sum: nothing but burn at most its fee.
abbrev pub IsBurned : List Hash → Transaction → Ledger → Outcome CoreError Ledger → Type 0
IsBurned ks tx l (ok l') = (total ks l' ≤ total ks l) × (total ks l ≤ total ks l' + tx.fee)
IsBurned ks tx l (err e) = Unit {0}
IsBurned ks tx l panic = Unit {0}

module _ (ks : List Hash) (tx : Transaction) (l : Ledger) (apart : bytes_eq tx.from tx.to ≡ false)
    (payer : count tx.from ks ≡ 1) (payee : count tx.to ks ≡ 1) where
  settled :
      (a b : Account) (r : Outcome StfError TransactionResult)
      → l tx.from ≡ ok a
      → balance_of (l tx.to) ≡ b.balance
      → Settles (IsSettled a b tx) (IsRefused a b tx) r
      → IsBurned ks tx l (post tx.from tx.to r l)
  settled a b (ok (success f t)) ea eb s =
      let held : balance_of (l tx.from) ≡ a.balance = ap balance_of ea in
      let other : write tx.from f l tx.to ≡ l tx.to =
        rw (bytes_eq_comm_false tx.from tx.to apart) in
      let other_held = ap balance_of other in
      let debit = total-write tx.from f l ks payer in
      let deposit = total-write tx.to t (write tx.from f l) ks payee in
      rw apart (omega (arith, held, other_held, debit, deposit, eb))
  settled a b (ok (failure f)) ea eb s =
      let held : balance_of (l tx.from) ≡ a.balance = ap balance_of ea in
      omega (arith, held, total-write tx.from f l ks payer)
  settled a b (err x) ea eb s = omega arith
  settled a b panic ea eb s = absurd s

  to_recipient :
      (a : Account) (r : Outcome CoreError Account)
      → l tx.from ≡ ok a
      → l tx.to ≡ r
      → IsBurned ks tx l
          (readable tx.to r >>= λ b. post tx.from tx.to (Apply.apply_transaction a b tx) l)
  to_recipient a (ok b) ea eb =
      settled a b (Apply.apply_transaction a b tx) ea (ap balance_of eb)
        (apply_transaction-Settles a b tx)
  to_recipient a (err e) ea eb =
      settled a (Account.new tx.to) (Apply.apply_transaction a (Account.new tx.to) tx) ea
        (unfold Account.new in ap balance_of eb)
        (apply_transaction-Settles a (Account.new tx.to) tx)
  to_recipient a panic ea eb = tt

  from_sender : (r : Outcome CoreError Account) → l tx.from ≡ r → IsBurned ks tx l (pay tx l)
  unfolding pay
  from_sender (ok a) ea = rw (pay, ea) (to_recipient a (l tx.to) ea refl)
  from_sender (err (account_not_found k)) ea = rw (pay, ea) (omega arith)
  from_sender (err e) ea = rw (pay, ea) tt
  from_sender panic ea = rw (pay, ea) tt

-- What a deposit may do to the sum: add its amount, or nothing at all where it would overflow.
abbrev pub IsMinted : List Hash → Deposit → Ledger → Outcome CoreError Ledger → Type 0
IsMinted ks d l (ok l') =
    (total ks l' ≡ total ks l + d.amount) ⊎ ((l' ≡ l) × (u64_mod ≤ balance_of (l d.to) + d.amount))
IsMinted ks d l (err e) = Unit {0}
IsMinted ks d l panic = Unit {0}

module _ (ks : List Hash) (d : Deposit) (l : Ledger) (known : count d.to ks ≡ 1) where
  credited :
      (a : Account) (r : Outcome StfError Account)
      → balance_of (l d.to) ≡ a.balance
      → IsCredited a d r
      → IsMinted ks d l (deposited d.to r l)
  credited a (ok a') e h = inl (omega (arith, total-write d.to a' l ks known))
  credited a (err Types.balance_overflow) e h = inr (refl, omega arith)
  credited a (err x) e h = tt
  credited a panic e h = absurd h

  found : (r : Outcome CoreError Account) → l d.to ≡ r → IsMinted ks d l (credit d l)
  unfolding credit
  found (ok a) e =
      rw (credit, e)
        (credited a (Apply.apply_deposit a d) (ap balance_of e) (apply_deposit-IsCredited a d))
  found (err (account_not_found k)) e =
      let a = Account.new d.to in
      rw (credit, e)
        (credited a (Apply.apply_deposit a d) (unfold Account.new in ap balance_of e)
          (apply_deposit-IsCredited a d))
  found (err x) e = rw (credit, e) tt
  found panic e = rw (credit, e) tt

module _ (db : StateTree) (codec : Codec) where
  -- No transaction between two accounts creates money: over any list of addresses that holds each
  -- of the two once, the sum of the balances that the executor shows does not grow, and it falls
  -- by the fee at most.
  pub apply_transaction-IsBurned :
      (ks : List Hash) (tx : Transaction) (self self' : BlockExecutor db.Tree)
      → bytes_eq tx.from tx.to ≡ false
      → count tx.from ks ≡ 1
      → count tx.to ks ≡ 1
      → apply_transaction db codec tx self ≡ ok self'
      → (total ks (view db codec self') ≤ total ks (view db codec self))
        × (total ks (view db codec self) ≤ total ks (view db codec self') + tx.fee)
  apply_transaction-IsBurned ks tx self self' apart payer payee e =
      subst (IsBurned ks tx (view db codec self))
        (sym (apply_transaction-pay db codec tx self) ∙ ap (shown db codec) e)
        (from_sender ks tx (view db codec self) apart payer payee (view db codec self tx.from) refl)

  -- A deposit raises the sum by exactly its amount, over any list of addresses that holds its
  -- recipient once, or it changes no account, and then its amount would overflow the balance.
  pub apply_deposit-IsMinted :
      (ks : List Hash) (d : Deposit) (self self' : BlockExecutor db.Tree)
      → count d.to ks ≡ 1
      → apply_deposit db codec d self ≡ ok self'
      → (total ks (view db codec self') ≡ total ks (view db codec self) + d.amount)
        ⊎ ((view db codec self' ≡ view db codec self)
            × (u64_mod ≤ balance_of (view db codec self d.to) + d.amount))
  apply_deposit-IsMinted ks d self self' known e =
      subst (IsMinted ks d (view db codec self))
        (sym (apply_deposit-credit db codec d self) ∙ ap (shown db codec) e)
        (found ks d (view db codec self) known (view db codec self d.to) refl)
