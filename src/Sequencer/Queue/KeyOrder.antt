-- ===== src/Sequencer/Queue/KeyOrder.antt =====
-- The order of the keys in crates/sequencer/src/persistence.rs: RocksDB compares keys byte by byte,
-- and a block's key is its number in big-endian bytes.
use tiny_sp1_rollup.Base.{
  ◌≡◌, refl, ap, ℕ, zero, suc, ◌/◌, ◌%◌, ◌^◌, ◌≤◌, ◌<◌, Bool, true, false, [], ◌∷◌, ◌++◌, inl, inr,
  arith, length, ltb, Bool-cases, eq_refl, ==_iff, ◌==◌, if◌then◌else◌,
}
use native.Mathlib.Decide.{ℕ_discrete}
use native.Mathlib.Nat.{pow-suc}
use tiny_sp1_rollup.Base.Bytes.{Bytes, to_be_bytes, length-to_be_bytes}

-- The order of RocksDB's default comparator.
unfoldable pub leb_bytes : Bytes → Bytes → Bool
leb_bytes [] ys = true
leb_bytes (x ∷ xs) [] = false
leb_bytes (x ∷ xs) (y ∷ ys) = let rest = leb_bytes xs ys in if x == y then rest else ltb x y

-- With one byte more behind equally long strings, the strings decide, or else the byte.
leb_bytes-snoc :
    (xs ys : Bytes) (a b : ℕ)
    → length xs ≡ length ys
    → leb_bytes (xs ++ (a ∷ [])) (ys ++ (b ∷ [])) ≡ true
    → (leb_bytes xs ys ≡ true) × ((xs ≡ ys) → a ≤ b)
unfolding leb_bytes
leb_bytes-snoc [] [] a b h e = (refl, λ same. ground arith)
leb_bytes-snoc [] (y ∷ ys) a b h e = absurd (omega arith)
leb_bytes-snoc (x ∷ xs) [] a b h e = absurd (omega arith)
leb_bytes-snoc (x ∷ xs) (y ∷ ys) a b h e = elim (Bool-cases (x == y)) [
  | inl same ↦
      let (front, last) = leb_bytes-snoc xs ys a b (omega (arith, h)) (rw same at e) in
      (rw same front, λ (e' : (x ∷ xs) ≡ (y ∷ ys)). last (cc))
  | inr other ↦ (
    rw other (rw other at e),
    λ (e' : (x ∷ xs) ≡ (y ∷ ys)).
        let same : x ≡ y = cc in absurd (let equal = (==_iff x y).1 same in cc (other, equal)),
  )
]

pub leb_bytes-to_be_bytes :
    (w m n : ℕ)
    → m < 256 ^ w
    → n < 256 ^ w
    → leb_bytes (to_be_bytes w m) (to_be_bytes w n) ≡ true
    → m ≤ n
unfolding to_be_bytes
leb_bytes-to_be_bytes zero m n hm hn e = omega arith
leb_bytes-to_be_bytes (suc w) m n hm hn e =
    let p = pow-suc 256 w in
    let lengths : length (to_be_bytes w (m / 256)) ≡ length (to_be_bytes w (n / 256)) =
      omega (arith, length-to_be_bytes w (m / 256), length-to_be_bytes w (n / 256)) in
    let (front, last) = leb_bytes-snoc _ _ (m % 256) (n % 256) lengths e in
    let le =
      leb_bytes-to_be_bytes w (m / 256) (n / 256) (omega (arith, p)) (omega (arith, p)) front in
    elim (ℕ_discrete (m / 256) (n / 256)) [
      | yes same ↦ omega (arith, same, last (ap (to_be_bytes w) same))
      | no other ↦ omega (arith, le, other)
    ]

pub leb_bytes_refl : (xs : Bytes) → leb_bytes xs xs ≡ true
unfolding leb_bytes
leb_bytes_refl [] = refl
leb_bytes_refl (x ∷ xs) = rw (eq_refl x) (leb_bytes_refl xs)

pub leb_bytes-total : (xs ys : Bytes) → leb_bytes xs ys ≡ false → leb_bytes ys xs ≡ true
unfolding leb_bytes
leb_bytes-total [] ys e = cc
leb_bytes-total (x ∷ xs) [] e = refl
leb_bytes-total (x ∷ xs) (y ∷ ys) e = ground (arith, leb_bytes-total xs ys)

pub leb_bytes_trans :
    (xs ys zs : Bytes) → leb_bytes xs ys ≡ true → leb_bytes ys zs ≡ true → leb_bytes xs zs ≡ true
unfolding leb_bytes
leb_bytes_trans [] ys zs e e' = refl
leb_bytes_trans (x ∷ xs) [] zs e e' = cc
leb_bytes_trans (x ∷ xs) (y ∷ ys) [] e e' = cc
leb_bytes_trans (x ∷ xs) (y ∷ ys) (z ∷ zs) e e' = ground (arith, leb_bytes_trans xs ys zs)
