-- ===== src/Core/Executor/Commit.antt =====
-- `commit_block` (crates/core/src/executor.rs): what the tree holds after it.
use tiny_sp1_rollup.Base.{
  ◌≡◌, refl, ◌∙◌, List, [], ◌∷◌, map, Option, none, some, Outcome, ok, err, panic, ◌>>=◌, arith,
  map_err, ok_or, String, append, if◌then◌else◌, ◌≢◌,
}
use tiny_sp1_rollup.Base.Bytes.{Bytes, bytes_eq}
use tiny_sp1_rollup.Stf.Digest.{Hash, Digest}
use tiny_sp1_rollup.Stf.Account
use tiny_sp1_rollup.Stf.Account.{Account}
use tiny_sp1_rollup.Core.Error.{CoreError, database_error}
use tiny_sp1_rollup.Core.External.{StateTree}
use tiny_sp1_rollup.Core.Cache.{lookup, IsDistinct, MapOrder}
use tiny_sp1_rollup.Core.Executor.{BlockExecutor, commit_block}

-- The leaf that a batch of keys and leaves gives a key.
unfoldable pub batch_leaf : Hash → List Hash → List Hash → Option Bytes
batch_leaf k (key ∷ keys) (leaf ∷ leaves) =
    if bytes_eq k key then some leaf else batch_leaf k keys leaves
batch_leaf k _ _ = none

abbrev pub AreDistinct : List Hash → Type 0
AreDistinct [] = Unit
AreDistinct (k ∷ ks) = (batch_leaf k ks ks ≡ none) × AreDistinct ks

-- A key's leaf after a batch, from what it was and what the batch gives it.
abbrev pub overlaid : Outcome String (Option Bytes) → Option Bytes → Outcome String (Option Bytes)
overlaid before none = before
overlaid before (some leaf) = ok (some leaf)

-- What `Monotree::inserts` documents: under the root that it returns, each key of the batch has
-- its leaf and every other key has what it had.
pub record InsertsLeaves (db : StateTree) : Type 0 where
  pub get-inserts :
      (tree : db.Tree) (root : Option Hash) (keys leaves : List Hash) (tree' : db.Tree)
      (new_root : Hash)
      → AreDistinct keys
      → db.inserts tree root keys leaves ≡ (tree', ok (some new_root))
      → (k : Hash)
      → db.get tree' (some new_root) k ≡ overlaid (db.get tree root k) (batch_leaf k keys leaves)

abbrev key_of : Hash × Account → Hash
key_of x = x.0

module _ (sha3 : Digest) where
  abbrev leaf_of : Hash × Account → Hash
  leaf_of x = Account.hash sha3 x.1

  -- The leaf of a cached account.
  abbrev pub cached_leaf : Option Account → Option Bytes
  cached_leaf none = none
  cached_leaf (some a) = some (Account.hash sha3 a)

  batch_leaf-map :
      (k : Hash) (m : List (Hash × Account))
      → batch_leaf k (map key_of m) (map leaf_of m) ≡ cached_leaf (lookup k m)
  unfolding batch_leaf lookup
  batch_leaf-map k [] = refl
  batch_leaf-map k ((j, a) ∷ m) = ground (arith, batch_leaf-map k m)

  keys_absent :
      (k : Hash) (m : List (Hash × Account))
      → lookup k m ≡ none
      → batch_leaf k (map key_of m) (map key_of m) ≡ none
  unfolding batch_leaf lookup
  keys_absent k [] h = refl
  keys_absent k ((j, a) ∷ m) h = ground (arith, keys_absent k m)

  keys_distinct : (m : List (Hash × Account)) → IsDistinct m → AreDistinct (map key_of m)
  keys_distinct [] h = tt
  keys_distinct ((k, a) ∷ m) h = (keys_absent k m h.0, keys_distinct m h.1)

inserted_root :
    (r : Outcome String (Option Hash)) (new_root : Hash) (f : String → CoreError) (e : CoreError)
    → (map_err f r >>= λ o. ok_or o e) ≡ ok new_root
    → r ≡ ok (some new_root)
inserted_root (ok none) new_root f e h = cc
inserted_root (ok (some r)) new_root f e h = cc
inserted_root (err x) new_root f e h = cc
inserted_root panic new_root f e h = cc

module _ (sha3 : Digest) (db : StateTree) (iteration : MapOrder Account)
    (laws : InsertsLeaves db) where
  commit_entries :
      (tree : db.Tree) (root : Option Hash) (c : List (Hash × Account)) (tree' : db.Tree)
      (new_root : Hash)
      → c ≢ []
      → IsDistinct c
      → commit_block sha3 db iteration (record { tree = tree; root = root; account_cache = c })
        ≡ (tree', ok new_root)
      → (k : Hash)
      → db.get tree' (some new_root) k
        ≡ overlaid (db.get tree root k) (cached_leaf sha3 (lookup k c))
  unfolding commit_block
  commit_entries tree root [] tree' new_root ne distinct e k = absurd (ne refl)
  commit_entries tree root (x ∷ rest) tree' new_root ne distinct e k =
      let m = iteration.order (x ∷ rest) in
      let keys = map key_of m in
      let leaves = map (leaf_of sha3) m in
      let result = db.inserts tree root keys leaves in
      let done : result ≡ (tree', ok (some new_root)) = λ i. (
        (e i).0,
        inserted_root result.1 new_root
            (λ t. database_error (append "commit_block inserts err: " t))
            (database_error "commit_block inserts returned none err") (λ j. (e j).1) i,
      ) in
      laws.get-inserts tree root keys leaves tree' new_root
        (keys_distinct sha3 m (iteration.order-IsDistinct (x ∷ rest) distinct)) done k
      ∙ rw (batch_leaf-map sha3 k m, iteration.lookup-order (x ∷ rest) distinct k)

  -- A commit writes the cache and nothing else: if the cache is not empty and the insertion
  -- succeeds, then under the new root every cached address has the leaf hash of its account, and
  -- every other address has what it had under the old root, in whatever order the cache is iterated.
  pub commit_block-leaves :
      (self : BlockExecutor db.Tree) (tree' : db.Tree) (new_root : Hash)
      → self.account_cache ≢ []
      → IsDistinct self.account_cache
      → commit_block sha3 db iteration self ≡ (tree', ok new_root)
      → (k : Hash)
      → db.get tree' (some new_root) k
        ≡ overlaid (db.get self.tree self.root k) (cached_leaf sha3 (lookup k self.account_cache))
  commit_block-leaves self tree' new_root ne distinct e k =
      commit_entries self.tree self.root self.account_cache tree' new_root ne distinct e k
