-- ===== src/Core/Executor/View.antt =====
-- What the executor shows of each account: the cached one, or else what the tree holds. Filling
-- the cache changes none of it.
use mathlib.Core.Path.{fun_ext}
use tiny_sp1_rollup.Base.{
  ◌≡◌, refl, ap, sym, subst, ◌∙◌, Option, none, some, Outcome, ok, err, panic, ◌>>=◌, arith,
  if◌then◌else◌, Option-cases, Bool-cases, inl, inr,
}
use tiny_sp1_rollup.Base.Bytes.{bytes_eq, bytes_eq_iff}
use tiny_sp1_rollup.Stf.Digest.{Hash}
use tiny_sp1_rollup.Stf.Account.{Account}
use tiny_sp1_rollup.Core.Error.{CoreError}
use tiny_sp1_rollup.Core.External.{StateTree, Codec}
use tiny_sp1_rollup.Core.Reads.{get_account}
use tiny_sp1_rollup.Core.Cache.{lookup, lookup-insert}
use tiny_sp1_rollup.Core.Executor.{BlockExecutor, Read, put, get_account_helper}

-- Every account as a read would find it.
abbrev pub Ledger : Type 0
Ledger = Hash → Outcome CoreError Account

-- The ledger with another account at one address.
abbrev pub write : Hash → Account → Ledger → Ledger
write k a l j = if bytes_eq j k then ok a else l j

module _ (db : StateTree) (codec : Codec) where
  abbrev seen : Outcome CoreError Account → Option Account → Outcome CoreError Account
  seen below none = below
  seen below (some a) = ok a

  unfoldable pub view : BlockExecutor db.Tree → Ledger
  view self k = seen (get_account db codec self.tree self.root k) (lookup k self.account_cache)

  pub view-put :
      (k : Hash) (a : Account) (self : BlockExecutor db.Tree)
      → view (put k a self) ≡ write k a (view self)
  unfolding view put
  view-put k a self = fun_ext λ j. rw lookup-insert (ground arith)

  -- What a read of `k` says of the view, and of the executor after it.
  abbrev pub Reads : Hash → BlockExecutor db.Tree → Read db.Tree → Type 0
  Reads k self (ok (a, self')) = (view self k ≡ ok a) × (view self' ≡ view self)
  Reads k self (err e) = view self k ≡ err e
  Reads k self panic = view self k ≡ panic

  write_same : (k : Hash) (a : Account) (l : Ledger) → l k ≡ ok a → write k a l ≡ l
  write_same k a l e = fun_ext λ j. elim (Bool-cases (bytes_eq j k)) [
    | inl same ↦ rw same (sym e ∙ ap l (sym ((bytes_eq_iff j k).0 same)))
    | inr other ↦ rw other
  ]

  filled :
      (k : Hash) (self : BlockExecutor db.Tree) (r : Outcome CoreError Account)
      → view self k ≡ r
      → Reads k self (r >>= λ a. ok (a, put k a self))
  filled k self (ok a) e = (e, view-put k a self ∙ write_same k a (view self) e)
  filled k self (err x) e = e
  filled k self panic e = e

  pub get_account_helper-Reads :
      (k : Hash) (self : BlockExecutor db.Tree) → Reads k self (get_account_helper db codec k self)
  unfolding get_account_helper view
  get_account_helper-Reads k self = elim (Option-cases (lookup k self.account_cache)) [
    | inl absent ↦
        let r = get_account db codec self.tree self.root k in
        let e : get_account_helper db codec k self ≡ (r >>= λ a. ok (a, put k a self)) =
          rw (absent, get_account_helper) in
        let seen_below : view self k ≡ r = rw absent in
        subst (Reads k self) (sym e) (filled k self r seen_below)
    | inr (a, cached) ↦
        let e : get_account_helper db codec k self ≡ ok (a, self) =
          rw (cached, get_account_helper) in
        let seen_cached : view self k ≡ ok a = rw cached in
        subst (Reads k self) (sym e) (seen_cached, refl)
  ]
