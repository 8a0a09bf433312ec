-- ===== src/Tests/Store.antt =====
-- A state tree, a codec and an order of iteration that compute, with the laws of the real ones.
use tiny_sp1_rollup.Base.{
  ℕ, ◌+◌, ◌≡◌, refl, ap, List, [], ◌∷◌, String, Option, none, some, Outcome, ok, arith,
  if◌then◌else◌, length, ltb, lt→ltb, take, drop,
}
use tiny_sp1_rollup.Base.Bytes.{Bytes, bytes_eq_refl, to_be_bytes, from_be_bytes}
use tiny_sp1_rollup.Stf.Digest.{Hash}
use tiny_sp1_rollup.Stf.Account.{Account}
use tiny_sp1_rollup.Core.External.{StateTree, Codec}
use tiny_sp1_rollup.Core.Cache.{lookup, MapOrder}
use tiny_sp1_rollup.Core.Executor.Commit.{InsertsLeaves, batch_leaf, overlaid}
use tiny_sp1_rollup.Core.Executor.Unreadable.{DecodesWhole}

abbrev pub Leaves : Type 0
Leaves = List (Hash × Bytes)

-- Every root with the leaves under it.
abbrev Roots : Type 0
Roots = List (Hash × Leaves)

abbrev under : Option Leaves → Leaves
under none = []
under (some m) = m

leaves_at : Roots → Option Hash → Leaves
unfolding lookup
leaves_at tree none = []
leaves_at tree (some root) = under (lookup root tree)

overlay : List Hash → List Hash → Leaves → Leaves
overlay (k ∷ ks) (l ∷ ls) m = (k, l) ∷ overlay ks ls m
overlay _ _ m = m

abbrev pub sample_root : ℕ → Hash
sample_root n = to_be_bytes 32 (n + 1)

get : Roots → Option Hash → Hash → Outcome String (Option Bytes)
unfolding leaves_at lookup
get tree root k = ok (lookup k (leaves_at tree root))

inserts : Roots → Option Hash → List Hash → List Hash → Roots × Outcome String (Option Hash)
unfolding overlay leaves_at
inserts tree root keys leaves = (
  (sample_root (length tree), overlay keys leaves (leaves_at tree root)) ∷ tree,
  ok (some (sample_root (length tree))),
)

unfoldable pub sample_db : StateTree
unfolding get inserts
sample_db = record {
  Tree = Roots;
  get = get;
  get_merkle_proof = λ tree root key. ok none;
  inserts = inserts;
}

abbrev answer : Option Bytes → Outcome String (Option Bytes)
answer = ok

lookup-overlay :
    (k : Hash) (keys leaves : List Hash) (m : Leaves)
    → answer (lookup k (overlay keys leaves m))
      ≡ overlaid (answer (lookup k m)) (batch_leaf k keys leaves)
unfolding overlay lookup batch_leaf
lookup-overlay k [] leaves m = refl
lookup-overlay k (x ∷ keys) [] m = refl
lookup-overlay k (x ∷ keys) (l ∷ leaves) m = ground (arith, lookup-overlay k keys leaves m)

get-inserts_new :
    (tree : Roots) (root : Option Hash) (keys leaves : List Hash) (k : Hash)
    → get (inserts tree root keys leaves).0 (some (sample_root (length tree))) k
      ≡ overlaid (get tree root k) (batch_leaf k keys leaves)
unfolding get inserts leaves_at
get-inserts_new tree root keys leaves k =
    rw (lookup, bytes_eq_refl (sample_root (length tree)))
      (lookup-overlay k keys leaves (leaves_at tree root))

get-inserts_at :
    (tree : Roots) (root : Option Hash) (keys leaves : List Hash) (tree' : Roots) (new_root : Hash)
    → inserts tree root keys leaves ≡ (tree', ok (some new_root))
    → (k : Hash)
    → get tree' (some new_root) k ≡ overlaid (get tree root k) (batch_leaf k keys leaves)
get-inserts_at tree root keys leaves tree' new_root e k =
    let same_tree : (inserts tree root keys leaves).0 ≡ tree' = λ i. (e i).0 in
    let same_root : sample_root (length tree) ≡ new_root =
      unfold inserts in cc (ap (λ (p : Roots × Outcome String (Option Hash)). p.1) e) in
    rw (← same_tree, ← same_root) (get-inserts_new tree root keys leaves k)

pub sample_laws : InsertsLeaves sample_db
unfolding sample_db
sample_laws = record {
  get-inserts = λ tree root keys leaves tree' new_root distinct e k.
      get-inserts_at tree root keys leaves tree' new_root e k;
}

decode : Bytes → Option Account
decode b =
    if ltb (length b) 48
    then none
    else some (record {
      id = take 32 b;
      balance = from_be_bytes (take 8 (drop 32 b));
      nonce = from_be_bytes (drop 40 b);
    })

unfoldable pub sample_codec : Codec
unfolding decode
sample_codec = record { deserialize = decode; debug = λ e. "error" }

pub sample_decodes : DecodesWhole sample_codec
unfolding sample_codec
sample_decodes = record { deserialize-short = λ b h. rw (lt→ltb (length b) 48 h) }

-- In the order of insertion.
unfoldable pub sample_order : MapOrder Account
sample_order = record { order = λ m. m; order-IsDistinct = λ m h. h; lookup-order = λ m h k. refl }
