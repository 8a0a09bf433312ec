-- ===== src/Sequencer/Batch/Repeated.antt =====
-- `apply_optimistic_batch` (crates/sequencer/src/main.rs) on a deposit that an earlier batch has
-- held, as the fetches bring it in every round until it is proven.
use tiny_sp1_rollup.Base.{
  ◌≡◌, refl, ap, sym, subst, ◌∙◌, List, [], ◌∷◌, String, Option, some, Outcome, ok, err, panic,
  ◌>>=◌, arith, bind_inv, lt→ltb, for_each, second, map_err-ok, Bool-cases, Option-cases, inl, inr,
  ◌+◌, ◌<◌, false,
}
use tiny_sp1_rollup.Base.Bytes.{u64_mod, IsU64, bytes_eq, bytes_eq_refl, checked_add}
use tiny_sp1_rollup.Stf.Digest.{Hash, Digest, default}
use tiny_sp1_rollup.Stf.Account
use tiny_sp1_rollup.Stf.Account.{Account}
use tiny_sp1_rollup.Stf.Types.{Transaction, Deposit, ForcedTx}
use tiny_sp1_rollup.Stf.Apply
use tiny_sp1_rollup.Core.Cache.{lookup, lookup-insert, MapOrder}
use tiny_sp1_rollup.Core.Error.{CoreError, account_not_found, account_data_corrupted}
use tiny_sp1_rollup.Core.External.{StateTree, Codec}
use tiny_sp1_rollup.Core.Reads.{get_account}
use tiny_sp1_rollup.Core.Executor.{
  BlockExecutor, Read, new, put, apply_deposit, settle_deposit, recipient, get_account_helper,
  commit_block,
}
use tiny_sp1_rollup.Core.Executor.Commit.{InsertsLeaves}
use tiny_sp1_rollup.Core.Executor.Invariant.{IsOn, Keeps, new-IsOn, put-IsOn}
use tiny_sp1_rollup.Core.Executor.Unreadable.{DecodesWhole, committed_account_blocks}
use tiny_sp1_rollup.Sequencer.Batch.{execute, committed, apply_optimistic_batch}
use tiny_sp1_rollup.Sequencer.Batch.Stored.{execute-Keeps}
use tiny_sp1_rollup.Sequencer.Error.{from_core}

-- The address is in the cache.
abbrev pub Caches : {Tree : Type 0} → Hash → BlockExecutor Tree → Type 0
Caches k self = (a : Account) × (lookup k self.account_cache ≡ some a)

put-Caches :
    {Tree : Type 0} (k j : Hash) (a : Account) (self : BlockExecutor Tree)
    → Caches k self
    → Caches k (put j a self)
unfolding put
put-Caches k j a self (b, cached) = elim (Bool-cases (bytes_eq k j)) [
  | inl same ↦ (a, lookup-insert j k a self.account_cache ∙ rw same)
  | inr other ↦ (b, lookup-insert j k a self.account_cache ∙ rw other cached)
]

put_found :
    {Tree : Type 0} (k : Hash) (a : Account) (self : BlockExecutor Tree) → Caches k (put k a self)
unfolding put
put_found k a self = (a, lookup-insert k k a self.account_cache ∙ rw (bytes_eq_refl k))

settle_deposit-Caches :
    {Tree : Type 0} (d : Deposit) (a : Account) (self : BlockExecutor Tree)
    → Caches d.to self
    → Keeps (Caches d.to) (settle_deposit d.to (Apply.apply_deposit a d) self)
unfolding settle_deposit Apply.apply_deposit
settle_deposit-Caches d a self cached = elim (Option-cases (checked_add a.balance d.amount)) [
  | inl overflows ↦ rw overflows cached
  | inr (balance, fits) ↦ rw fits (put_found d.to (record a { balance = balance }) self)
]

settle_deposit-puts :
    {Tree : Type 0} (d : Deposit) (a : Account) (self : BlockExecutor Tree)
    → a.balance + d.amount < u64_mod
    → Keeps (Caches d.to) (settle_deposit d.to (Apply.apply_deposit a d) self)
unfolding settle_deposit Apply.apply_deposit
settle_deposit-puts d a self fits =
    rw (lt→ltb (a.balance + d.amount) u64_mod fits) (put_found d.to _ self)

module _ (db : StateTree) (codec : Codec) where
  ReadCaches : Hash → Read db.Tree → Type 0
  ReadCaches k (ok (a, self)) = Caches k self
  ReadCaches k (err e) = Unit {0}
  ReadCaches k panic = Unit {0}

  filled-Caches :
      (k : Hash) (self : BlockExecutor db.Tree) (r : Outcome CoreError Account)
      → ReadCaches k (r >>= λ a. ok (a, put k a self))
  unfolding ReadCaches
  filled-Caches k self (ok a) = put_found k a self
  filled-Caches k self (err e) = tt
  filled-Caches k self panic = tt

  read-Caches :
      (k : Hash) (self : BlockExecutor db.Tree) → ReadCaches k (get_account_helper db codec k self)
  unfolding get_account_helper ReadCaches
  read-Caches k self = elim (Option-cases (lookup k self.account_cache)) [
    | inl absent ↦
        rw (get_account_helper, absent)
          (filled-Caches k self (get_account db codec self.tree self.root k))
    | inr (a, cached) ↦ rw (get_account_helper, cached) (a, cached)
  ]

  recipient-Caches :
      (d : Deposit) (self : BlockExecutor db.Tree) (r : Read db.Tree)
      → IsU64 d.amount
      → ReadCaches d.to r
      → Keeps (Caches d.to) (
          recipient d.to self r >>= λ found.
          settle_deposit d.to (Apply.apply_deposit found.0 d) found.1)
  unfolding ReadCaches settle_deposit Apply.apply_deposit Account.new
  recipient-Caches d self (ok (a, self')) fits h = settle_deposit-Caches d a self' h
  recipient-Caches d self (err (account_not_found x)) fits h =
      settle_deposit-puts d (Account.new d.to) self (omega (arith, fits))
  recipient-Caches d self (err e) fits h = tt
  recipient-Caches d self panic fits h = tt

  -- A deposit that fits leaves its recipient in the cache.
  deposit-Caches :
      (d : Deposit) (self : BlockExecutor db.Tree)
      → IsU64 d.amount
      → Keeps (Caches d.to) (apply_deposit db codec d self)
  unfolding apply_deposit
  deposit-Caches d self fits = recipient-Caches d self _ fits (read-Caches d.to self)

  -- A batch that succeeds has the recipient of its first deposit in the cache, and no address twice.
  executed-Caches :
      (tree : db.Tree) (root : Option Hash) (txs : List Transaction) (d : Deposit)
      (ds : List Deposit) (fs : List ForcedTx) (self : BlockExecutor db.Tree)
      → IsU64 d.amount
      → execute db codec txs (d ∷ ds) fs (new tree root) ≡ ok self
      → Caches d.to self × IsOn tree root self
  unfolding execute for_each
  executed-Caches tree root txs d ds fs self fits e =
      let (s₁, all, rest) =
        bind_inv _ (for_each (apply_deposit db codec) (d ∷ ds) (new tree root)) e in
      let (s₀, first, more) = bind_inv _ (apply_deposit db codec d (new tree root)) all in
      let same : execute db codec txs ds fs s₀ ≡ ok self = rw more rest in
      let cached =
        execute-Keeps db codec (Caches d.to) (put-Caches d.to) txs ds fs s₀
          (subst (Keeps (Caches d.to)) first (deposit-Caches d (new tree root) fits)) in
      let on =
        execute-Keeps db codec (IsOn tree root) (put-IsOn tree root) txs (d ∷ ds) fs (new tree root)
          (new-IsOn tree root) in
      (subst (Keeps (Caches d.to)) same cached, subst (Keeps (IsOn tree root)) e on)

  first_fails :
      (txs : List Transaction) (d : Deposit) (ds : List Deposit) (fs : List ForcedTx)
      (self : BlockExecutor db.Tree) (x : CoreError)
      → apply_deposit db codec d self ≡ err x
      → execute db codec txs (d ∷ ds) fs self ≡ err x
  unfolding execute for_each
  first_fails txs d ds fs self x e = rw e

module _ (sha3 : Digest) (db : StateTree) (codec : Codec) (iteration : MapOrder Account)
    (debug : Hash → String) (laws : InsertsLeaves db) (decodes : DecodesWhole codec) where
  committed_inv :
      (m : Outcome CoreError (BlockExecutor db.Tree)) (tree tree' : db.Tree) (new_root : Hash)
      → committed sha3 db codec iteration debug tree m ≡ (tree', ok new_root)
      → (self : BlockExecutor db.Tree) × (m ≡ ok self)
        × (commit_block sha3 db iteration self ≡ (tree', ok new_root))
  unfolding committed
  committed_inv (ok self) tree tree' new_root e =
      let result = commit_block sha3 db iteration self in
      (self, refl, λ i. ((e i).0, map_err-ok (from_core debug) result.1 (λ j. (e j).1) i))
  committed_inv (err x) tree tree' new_root e = cc (ap second e)
  committed_inv panic tree tree' new_root e = cc (ap second e)

  batch_runs :
      (tree : db.Tree) (root : Option Hash) (txs : List Transaction) (d : Deposit)
      (ds : List Deposit) (fs : List ForcedTx)
      → apply_optimistic_batch sha3 db codec iteration debug tree root txs (d ∷ ds) fs
        ≡ committed sha3 db codec iteration debug tree
            (execute db codec txs (d ∷ ds) fs (new tree root))
  unfolding apply_optimistic_batch
  batch_runs tree root [] d ds fs = refl
  batch_runs tree root (x ∷ txs) d ds fs = refl

  -- A deposit cannot be in two batches. If a batch with a first deposit of 64 bits
  -- succeeds with a root that is not the default one, then every batch on that root that has the
  -- deposit in its first place again fails, with the recipient's account as corrupted, and leaves
  -- the tree.
  pub repeated_deposit_fails :
      (tree tree' : db.Tree) (root new_root : Hash) (d : Deposit) (txs txs' : List Transaction)
      (ds ds' : List Deposit) (fs fs' : List ForcedTx)
      → IsU64 d.amount
      → bytes_eq new_root default ≡ false
      → apply_optimistic_batch sha3 db codec iteration debug tree (some root) txs (d ∷ ds) fs
        ≡ (tree', ok new_root)
      → apply_optimistic_batch sha3 db codec iteration debug tree'
          (some new_root)
          txs'
          (d ∷ ds')
          fs'
        ≡ (tree', err (from_core debug (account_data_corrupted d.to)))
  unfolding committed
  repeated_deposit_fails tree tree' root new_root d txs txs' ds ds' fs fs' fits live e =
      let (self, ran, done) =
        committed_inv _ tree tree' new_root (sym (batch_runs tree (some root) txs d ds fs) ∙ e) in
      let ((a, cached), on) = executed-Caches db codec tree (some root) txs d ds fs self fits ran in
      let from_recipient : Transaction = record {
        from = d.to;
        to = d.to;
        nonce = 0;
        fee = 0;
        amount = 0;
      } in
      let blocked =
        committed_account_blocks sha3 db codec iteration laws decodes self tree' new_root a a d
          from_recipient on.distinct done live cached cached in
      batch_runs tree' (some new_root) txs' d ds' fs'
      ∙ ap (committed sha3 db codec iteration debug tree') (
          first_fails db codec txs' d ds' fs' (new tree' (some new_root))
            (account_data_corrupted d.to) blocked.0)
