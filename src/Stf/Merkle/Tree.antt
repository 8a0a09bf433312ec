-- ===== src/Stf/Merkle/Tree.antt =====
-- Proofs against whole trees: the tree that the Rust code never holds, and what climbing a path
-- of it computes.
use tiny_sp1_rollup.Base.{◌≡◌, refl, ap, sym, ◌∙◌, Bool, true, false, List, [], ◌∷◌, ◌++◌}
use tiny_sp1_rollup.Base.Bytes.{bytes_eq_iff}
use tiny_sp1_rollup.Stf.Digest.{Hash, Digest}
use tiny_sp1_rollup.Stf.Account
use tiny_sp1_rollup.Stf.Account.{Account}
use tiny_sp1_rollup.Stf.Merkle.{Sibling, MerkleProof, hash_nodes, climb, compute_new_root, verify}

-- A binary tree over leaf hashes.
pub data Tree : Type 0 where
  leaf : Hash → Tree
  node : Tree → Tree → Tree

-- From the root: `true` goes to the left child, whose sibling stands on the right.
abbrev pub TreePath : Type 0
TreePath = List Bool

-- The subtree that a path leads to; a path that is too long stops at its leaf.
unfoldable pub subtree : Tree → TreePath → Tree
subtree t [] = t
subtree (leaf h) (d ∷ path) = leaf h
subtree (node l r) (true ∷ path) = subtree l path
subtree (node l r) (false ∷ path) = subtree r path

-- The tree with another leaf where the path leads.
unfoldable pub set_leaf : Tree → TreePath → Hash → Tree
set_leaf t [] h = leaf h
set_leaf (leaf g) (d ∷ path) h = leaf h
set_leaf (node l r) (true ∷ path) h = node (set_leaf l path h) r
set_leaf (node l r) (false ∷ path) h = node l (set_leaf r path h)

module _ (sha3 : Digest) where
  unfoldable pub root : Tree → Hash
  root (leaf h) = h
  root (node l r) = hash_nodes sha3 (root l) (root r)

  -- The siblings along a path, from its end upwards, as a Merkle proof lists them.
  unfoldable pub siblings : Tree → TreePath → List Sibling
  siblings t [] = []
  siblings (leaf h) (d ∷ path) = []
  siblings (node l r) (true ∷ path) = siblings l path ++ ((true, root r) ∷ [])
  siblings (node l r) (false ∷ path) = siblings r path ++ ((false, root l) ∷ [])

  pub climb-append :
      (xs ys : List Sibling) (h : Hash) → climb sha3 h (xs ++ ys) ≡ climb sha3 (climb sha3 h xs) ys
  unfolding climb
  climb-append [] ys h = refl
  climb-append ((d, s) ∷ xs) ys h = climb-append xs ys _

  climb-siblings_set :
      (t : Tree) (path : TreePath) (h : Hash)
      → climb sha3 h (siblings t path) ≡ root (set_leaf t path h)
  unfolding siblings root set_leaf climb
  climb-siblings_set t [] h = refl
  climb-siblings_set (leaf g) (d ∷ path) h = refl
  climb-siblings_set (node l r) (true ∷ path) h =
      climb-append (siblings l path) _ h
      ∙ ap (λ x. hash_nodes sha3 x (root r)) (climb-siblings_set l path h)
  climb-siblings_set (node l r) (false ∷ path) h =
      climb-append (siblings r path) _ h
      ∙ ap (λ x. hash_nodes sha3 (root l) x) (climb-siblings_set r path h)

  pub climb-siblings_self :
      (t : Tree) (path : TreePath) → climb sha3 (root (subtree t path)) (siblings t path) ≡ root t
  unfolding siblings root subtree climb
  climb-siblings_self t [] = refl
  climb-siblings_self (leaf g) (d ∷ path) = refl
  climb-siblings_self (node l r) (true ∷ path) =
      climb-append (siblings l path) _ _
      ∙ ap (λ x. hash_nodes sha3 x (root r)) (climb-siblings_self l path)
  climb-siblings_self (node l r) (false ∷ path) =
      climb-append (siblings r path) _ _
      ∙ ap (λ x. hash_nodes sha3 (root l) x) (climb-siblings_self r path)

  -- The proof that a holder of the tree gives for an account at a path.
  abbrev pub opening : Tree → TreePath → Account → MerkleProof
  opening t path a = record { account = a; siblings = siblings t path }

  -- `compute_new_root` refines a leaf update: with the siblings of a path of a tree it gives the
  -- root of that tree with the new leaf in place, so the whole tree is never needed.
  pub compute_new_root-set_leaf :
      (t : Tree) (path : TreePath) (a : Account) (h : Hash)
      → compute_new_root sha3 (opening t path a) h ≡ root (set_leaf t path h)
  unfolding compute_new_root
  compute_new_root-set_leaf t path a h = climb-siblings_set t path h

  -- An honest proof is accepted: if the path leads to the leaf of the account, `verify` holds at
  -- the root of the tree.
  pub verify_honest :
      (t : Tree) (path : TreePath) (a : Account)
      → subtree t path ≡ leaf (Account.hash sha3 a)
      → verify sha3 (opening t path a) (root t) ≡ true
  unfolding verify root
  verify_honest t path a e =
      (bytes_eq_iff _ _).1
        (ap (λ s. climb sha3 (root s) (siblings t path)) (sym e) ∙ climb-siblings_self t path)

  subtree-set_leaf :
      (t : Tree) (path : TreePath) (h : Hash) → subtree (set_leaf t path h) path ≡ leaf h
  unfolding subtree set_leaf
  subtree-set_leaf t [] h = refl
  subtree-set_leaf (leaf g) (d ∷ path) h = refl
  subtree-set_leaf (node l r) (true ∷ path) h = subtree-set_leaf l path h
  subtree-set_leaf (node l r) (false ∷ path) h = subtree-set_leaf r path h
