-- ===== src/Core/Cache.antt =====
-- `HashMap<Hash, Account>` as an association list: what `get`, `insert` and an iteration over it
-- do. The order of an iteration is not fixed, and is a parameter.
use tiny_sp1_rollup.Base.{◌≡◌, refl, List, [], ◌∷◌, Option, none, some, arith, if◌then◌else◌}
use tiny_sp1_rollup.Base.Bytes.{bytes_eq, bytes_eq_iff}
use tiny_sp1_rollup.Stf.Digest.{Hash}

module _ {V : Type 0} where
  unfoldable pub lookup : Hash → List (Hash × V) → Option V
  lookup k [] = none
  lookup k ((j, v) ∷ m) = if bytes_eq k j then some v else lookup k m

  unfoldable pub insert : Hash → V → List (Hash × V) → List (Hash × V)
  insert k v [] = (k, v) ∷ []
  insert k v ((j, w) ∷ m) = if bytes_eq k j then (k, v) ∷ m else (j, w) ∷ insert k v m

  -- No key stands twice.
  abbrev pub IsDistinct : List (Hash × V) → Type 0
  IsDistinct [] = Unit
  IsDistinct ((k, v) ∷ m) = (lookup k m ≡ none) × IsDistinct m

  pub lookup-insert :
      (k j : Hash) (v : V) (m : List (Hash × V))
      → lookup j (insert k v m) ≡ (if bytes_eq j k then some v else lookup j m)
  unfolding lookup insert
  lookup-insert k j v [] = refl
  lookup-insert k j v ((i, w) ∷ m) = ground (
    arith,
    bytes_eq_iff k j,
    bytes_eq_iff j k,
    bytes_eq_iff k i,
    bytes_eq_iff j i,
    lookup-insert k j v m,
  )

  pub insert-IsDistinct :
      (k : Hash) (v : V) (m : List (Hash × V)) → IsDistinct m → IsDistinct (insert k v m)
  unfolding insert lookup
  insert-IsDistinct k v [] h = (refl, tt)
  insert-IsDistinct k v ((i, w) ∷ m) h = ground (
    arith,
    insert-IsDistinct k v m h.1,
    lookup-insert k i v m,
    bytes_eq_iff k i,
    bytes_eq_iff i k,
  )

-- The order in which `for (k, v) in map` meets the entries: each once.
pub record MapOrder (V : Type 0) : Type 0 where
  pub order : List (Hash × V) → List (Hash × V)
  pub order-IsDistinct : (m : List (Hash × V)) → IsDistinct m → IsDistinct (order m)
  pub lookup-order :
      (m : List (Hash × V)) → IsDistinct m → (k : Hash) → lookup k (order m) ≡ lookup k m
