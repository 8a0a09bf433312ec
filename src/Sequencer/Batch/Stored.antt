-- ===== src/Sequencer/Batch/Stored.antt =====
-- `apply_optimistic_batch` (crates/sequencer/src/main.rs) against a ledger without a cache: what the
-- state tree holds after a batch.
use tiny_sp1_rollup.Base.{
  ◌≡◌, ◌≢◌, refl, ap, sym, subst, ◌∙◌, ◌⊎◌, inl, inr, List, [], ◌∷◌, String, Option, some, Outcome,
  ok, err, panic, ◌>>=◌, map_ok, map_err-ok, second, ok-injective, for_each, for_each-map_ok,
  map_ok->>=, Option-cases,
}
use tiny_sp1_rollup.Stf.Digest.{Hash, Digest}
use tiny_sp1_rollup.Stf.Account
use tiny_sp1_rollup.Stf.Account.{Account}
use tiny_sp1_rollup.Stf.Types.{Transaction, Deposit, ForcedTx}
use tiny_sp1_rollup.Core.Error.{CoreError}
use tiny_sp1_rollup.Core.External.{StateTree, Codec}
use tiny_sp1_rollup.Core.Reads.{get_account}
use tiny_sp1_rollup.Core.Cache.{lookup, MapOrder}
use tiny_sp1_rollup.Core.Executor.{
  BlockExecutor, new, put, apply_deposit, apply_forced_tx, apply_transaction, unwrap_or_default,
  commit_block,
}
use tiny_sp1_rollup.Core.Executor.View.{Ledger, view}
use tiny_sp1_rollup.Core.Executor.Invariant.{
  IsOn, Keeps, new-IsOn, put-IsOn, apply_deposit-Keeps, apply_forced_tx-Keeps,
  apply_transaction-Keeps,
}
use tiny_sp1_rollup.Core.Executor.Ledger.{
  pay, force, credit, apply_deposit-credit, apply_forced_tx-force, apply_transaction-pay,
}
use tiny_sp1_rollup.Core.Executor.Commit.{InsertsLeaves, overlaid, cached_leaf, commit_block-leaves}
use tiny_sp1_rollup.Sequencer.Error.{from_core}
use tiny_sp1_rollup.Sequencer.Batch.{execute, committed, apply_optimistic_batch}

-- A batch on a ledger: deposits, then forced transactions, then transactions.
unfoldable pub settle_batch :
    List Transaction → List Deposit → List ForcedTx → Ledger → Outcome CoreError Ledger
unfolding for_each
settle_batch txs deposits forced_txs l = do
  l₁ ← for_each credit deposits l
  l₂ ← for_each force forced_txs l₁
  for_each pay txs l₂

module _ (db : StateTree) (codec : Codec) where
  execute-settle_batch :
      (txs : List Transaction) (ds : List Deposit) (fs : List ForcedTx)
      (self : BlockExecutor db.Tree)
      → map_ok (view db codec) (execute db codec txs ds fs self)
        ≡ settle_batch txs ds fs (view db codec self)
  unfolding execute settle_batch
  execute-settle_batch txs ds fs self =
      map_ok->>= (view db codec) (for_each (apply_deposit db codec) ds self) _ _ (λ s.
        map_ok->>= (view db codec) (for_each (apply_forced_tx db codec) fs s) _ _ (
          for_each-map_ok (view db codec) (apply_transaction db codec) pay
            (apply_transaction-pay db codec) txs)
        ∙ ap (λ m. m >>= for_each pay txs)
            (for_each-map_ok (view db codec) (apply_forced_tx db codec) force
              (apply_forced_tx-force db codec) fs s))
      ∙ ap (λ m. m >>= λ l. for_each force fs l >>= for_each pay txs)
          (for_each-map_ok (view db codec) (apply_deposit db codec) credit
            (apply_deposit-credit db codec) ds self)

  module _ (P : BlockExecutor db.Tree → Type 0)
      (closed : (k : Hash) (a : Account) (s : BlockExecutor db.Tree) → P s → P (put k a s)) where
    pub Keeps->>= :
        (m : Outcome CoreError (BlockExecutor db.Tree))
        (f : BlockExecutor db.Tree → Outcome CoreError (BlockExecutor db.Tree))
        → Keeps P m
        → ((s : BlockExecutor db.Tree) → P s → Keeps P (f s))
        → Keeps P (m >>= f)
    Keeps->>= (ok s) f h k = k s h
    Keeps->>= (err e) f h k = tt
    Keeps->>= panic f h k = tt

    for_each-Keeps :
        {A : Type 0} (f : A → BlockExecutor db.Tree → Outcome CoreError (BlockExecutor db.Tree))
        → ((x : A) (s : BlockExecutor db.Tree) → P s → Keeps P (f x s))
        → (xs : List A) (s : BlockExecutor db.Tree) → P s
        → Keeps P (for_each f xs s)
    unfolding for_each
    for_each-Keeps f h [] s on = on
    for_each-Keeps f h (x ∷ xs) s on =
        Keeps->>= (f x s) (for_each f xs) (h x s on) (for_each-Keeps f h xs)

    -- What every insertion into the cache keeps, a batch keeps.
    pub execute-Keeps :
        (txs : List Transaction) (ds : List Deposit) (fs : List ForcedTx)
        (s : BlockExecutor db.Tree)
        → P s
        → Keeps P (execute db codec txs ds fs s)
    unfolding execute
    execute-Keeps txs ds fs s on =
        Keeps->>= _ _
          (for_each-Keeps (apply_deposit db codec) (apply_deposit-Keeps db codec P closed) ds s on)
          λ s₁ on₁.
            Keeps->>= _ _
              (for_each-Keeps (apply_forced_tx db codec) (apply_forced_tx-Keeps db codec P closed)
                fs s₁ on₁)
              (for_each-Keeps (apply_transaction db codec)
                (apply_transaction-Keeps db codec P closed) txs)

is_nil : {A : Type 0} (xs : List A) → (xs ≡ []) ⊎ (xs ≢ [])
is_nil [] = inl refl
is_nil (x ∷ xs) = inr (λ e. cc e)

module _ (sha3 : Digest) (db : StateTree) (codec : Codec) where
  -- How the tree after a batch stores an address: its leaf is what it was and the ledger shows what
  -- the tree before had, or its leaf is the digest of the account that the ledger shows.
  abbrev pub IsStored : db.Tree → Option Hash → db.Tree → Hash → Ledger → Hash → Type 0
  IsStored tree root tree' new_root l k =
      ((l k ≡ get_account db codec tree root k)
        × (db.get tree' (some new_root) k ≡ db.get tree root k))
      ⊎ ((a : Account) × (l k ≡ ok a)
          × (db.get tree' (some new_root) k ≡ ok (some (Account.hash sha3 a))))

  cached-IsStored :
      (self : BlockExecutor db.Tree) (tree' : db.Tree) (new_root k : Hash)
      → db.get tree' (some new_root) k
        ≡ overlaid (db.get self.tree self.root k) (cached_leaf sha3 (lookup k self.account_cache))
      → IsStored self.tree self.root tree' new_root (view db codec self) k
  unfolding view
  cached-IsStored self tree' new_root k e = elim (Option-cases (lookup k self.account_cache)) [
    | inl absent ↦ inl (rw absent, e ∙ rw absent)
    | inr (a, cached) ↦ inr (a, rw cached, e ∙ rw cached)
  ]

  module _ (iteration : MapOrder Account) (laws : InsertsLeaves db) (debug : Hash → String) where
    nothing_cached :
        (self : BlockExecutor db.Tree) (root : Hash) (tree' : db.Tree) (new_root : Hash)
        → self.account_cache ≡ []
        → self.root ≡ some root
        → commit_block sha3 db iteration self ≡ (tree', ok new_root)
        → (k : Hash)
        → db.get tree' (some new_root) k
          ≡ overlaid (db.get self.tree self.root k) (cached_leaf sha3 (lookup k self.account_cache))
    unfolding commit_block lookup
    nothing_cached self root tree' new_root empty rooted e k =
        let kept : commit_block sha3 db iteration self
            ≡ (self.tree, ok (unwrap_or_default self.root)) =
          rw empty in
        let same = sym kept ∙ e in
        let moved : self.tree ≡ tree' = λ i. (same i).0 in
        let found : unwrap_or_default self.root ≡ new_root = ok-injective (λ i. (same i).1) in
        let rooted_at : some new_root ≡ self.root =
          ap some (sym found ∙ ap unwrap_or_default rooted) ∙ sym rooted in
        (λ i. db.get (sym moved i) (rooted_at i) k) ∙ rw empty

    commit-IsStored :
        (self : BlockExecutor db.Tree) (tree : db.Tree) (root : Hash) (tree' : db.Tree)
        (new_root : Hash)
        → IsOn tree (some root) self
        → commit_block sha3 db iteration self ≡ (tree', ok new_root)
        → (k : Hash) → IsStored tree (some root) tree' new_root (view db codec self) k
    commit-IsStored self tree root tree' new_root on e k =
        let leaves : db.get tree' (some new_root) k
            ≡ overlaid (db.get self.tree self.root k)
                (cached_leaf sha3 (lookup k self.account_cache)) =
          elim (is_nil self.account_cache) [
            | inl empty ↦ nothing_cached self root tree' new_root empty on.same_root e k
            | inr some_cached ↦
                commit_block-leaves sha3 db iteration laws self tree' new_root some_cached
                  on.distinct e k
          ] in
        subst (λ r. IsStored tree r tree' new_root (view db codec self) k) on.same_root
          (subst (λ t. IsStored t self.root tree' new_root (view db codec self) k) on.same_tree
            (cached-IsStored self tree' new_root k leaves))

    committed-IsStored :
        (m : Outcome CoreError (BlockExecutor db.Tree)) (tree : db.Tree) (root : Hash)
        (tree' : db.Tree) (new_root : Hash)
        → Keeps (IsOn tree (some root)) m
        → committed sha3 db codec iteration debug tree m ≡ (tree', ok new_root)
        → (self : BlockExecutor db.Tree) × (m ≡ ok self)
          × ((k : Hash) → IsStored tree (some root) tree' new_root (view db codec self) k)
    unfolding committed
    committed-IsStored (ok self) tree root tree' new_root on e =
        let result = commit_block sha3 db iteration self in
        let done : result ≡ (tree', ok new_root) =
          λ i. ((e i).0, map_err-ok (from_core debug) result.1 (λ j. (e j).1) i) in
        (self, refl, commit-IsStored self tree root tree' new_root on done)
    committed-IsStored (err x) tree root tree' new_root on e = cc (ap second e)
    committed-IsStored panic tree root tree' new_root on e = cc (ap second e)

    abbrev Batch :
        db.Tree → Hash → List Transaction → List Deposit → List ForcedTx → db.Tree → Hash → Type 0
    Batch tree root txs ds fs tree' new_root =
        (l : Ledger) × (settle_batch txs ds fs (get_account db codec tree (some root)) ≡ ok l)
        × ((k : Hash) → IsStored tree (some root) tree' new_root l k)

    executed-Batch :
        (tree : db.Tree) (root : Hash) (txs : List Transaction) (ds : List Deposit)
        (fs : List ForcedTx) (tree' : db.Tree) (new_root : Hash)
        → committed sha3 db codec iteration debug tree
            (execute db codec txs ds fs (new tree (some root)))
          ≡ (tree', ok new_root)
        → Batch tree root txs ds fs tree' new_root
    unfolding view new lookup
    executed-Batch tree root txs ds fs tree' new_root e =
        let (self, ran, stored) =
          committed-IsStored (execute db codec txs ds fs (new tree (some root))) tree root tree'
            new_root
            (execute-Keeps db codec (IsOn tree (some root)) (put-IsOn tree (some root)) txs ds fs
              (new tree (some root)) (new-IsOn tree (some root)))
            e in
        (
          view db codec self,
          sym (execute-settle_batch db codec txs ds fs (new tree (some root)))
              ∙ ap (map_ok (view db codec)) ran,
          stored,
        )

    -- A batch stores what the ledger says. If the state tree stores the batches that are inserted,
    -- and `apply_optimistic_batch` from a root returns a new root, then the deposits, the forced
    -- transactions and the transactions, in this order, run without error on the ledger that the
    -- tree holds under the old root; and under the new root each address has the leaf of its
    -- account in the resulting ledger, or the leaf it had, where the ledger shows what it showed.
    pub apply_optimistic_batch-IsStored :
        (tree : db.Tree) (root : Hash) (txs : List Transaction) (ds : List Deposit)
        (fs : List ForcedTx) (tree' : db.Tree) (new_root : Hash)
        → apply_optimistic_batch sha3 db codec iteration debug tree (some root) txs ds fs
          ≡ (tree', ok new_root)
        → (l : Ledger) × (settle_batch txs ds fs (get_account db codec tree (some root)) ≡ ok l)
          × ((k : Hash) → IsStored tree (some root) tree' new_root l k)
    unfolding apply_optimistic_batch settle_batch
    apply_optimistic_batch-IsStored tree root [] [] [] tree' new_root e =
        let rooted : some root ≡ some new_root = ap some (ok-injective (λ i. (e i).1)) in
        (
          get_account db codec tree (some root),
          refl,
          λ k. inl (refl, λ i. db.get (sym (λ j. (e j).0) i) (sym rooted i) k),
        )
    apply_optimistic_batch-IsStored tree root (x ∷ txs) ds fs tree' new_root e =
        executed-Batch tree root (x ∷ txs) ds fs tree' new_root e
    apply_optimistic_batch-IsStored tree root [] (d ∷ ds) fs tree' new_root e =
        executed-Batch tree root [] (d ∷ ds) fs tree' new_root e
    apply_optimistic_batch-IsStored tree root [] [] (f ∷ fs) tree' new_root e =
        executed-Batch tree root [] [] (f ∷ fs) tree' new_root e
