-- ===== src/Base/Bytes.antt =====
-- Byte strings, machine integers and their big-endian encodings.
use mathlib.Core.List.{foldl, foldl-append}
use native.Mathlib.Nat.{pow-suc}
use tiny_sp1_rollup.Base.Tests.{◌==◌, ltb, if◌then◌else◌}
use tiny_sp1_rollup.Base.Lists.{length, length-append, All, All-append}
use Prim.Native.Nat.{ℕ, zero, suc, ◌+◌, ◌*◌, ◌/◌, ◌%◌, ◌^◌, ◌<◌}
use mathlib.Core.Path.{◌≡◌, refl, sym, ap, ◌∙◌}
use mathlib.Core.Logic.{◌↔◌}
use mathlib.Core.Bool.{Bool, true, false, ◌&&◌}
use mathlib.Core.List.{List, [], ◌∷◌, ◌++◌}
use mathlib.Core.Option.{Option, none, some}
use native.Mathlib.Omega.{arith}

abbrev pub Bytes : Type 0
Bytes = List ℕ

abbrev pub u64_mod : ℕ
u64_mod = 2 ^ 64

abbrev pub u32_mod : ℕ
u32_mod = 2 ^ 32

abbrev pub IsU64 : ℕ → Type 0
IsU64 n = n < u64_mod

-- `a.checked_add(b)` on u64
abbrev pub checked_add : ℕ → ℕ → Option ℕ
checked_add a b = if ltb (a + b) u64_mod then some (a + b) else none

-- `n.to_be_bytes()`, for an integer of `w` bytes
unfoldable pub to_be_bytes : ℕ → ℕ → Bytes
to_be_bytes zero n = []
to_be_bytes (suc w) n = to_be_bytes w (n / 256) ++ (n % 256 ∷ [])

-- `from_be_bytes(bytes)`
unfoldable pub from_be_bytes : Bytes → ℕ
from_be_bytes = foldl (λ acc b. acc * 256 + b) 0

pub length-to_be_bytes : (w n : ℕ) → length (to_be_bytes w n) ≡ w
unfolding to_be_bytes
length-to_be_bytes zero n = refl
length-to_be_bytes (suc w) n =
    omega (
      arith,
      length-append (to_be_bytes w (n / 256)) (n % 256 ∷ []),
      length-to_be_bytes w (n / 256),
    )

pub to_be_bytes-bytes : (w n : ℕ) → All (λ b. b < 256) (to_be_bytes w n)
unfolding to_be_bytes
to_be_bytes-bytes zero n = tt
to_be_bytes-bytes (suc w) n =
    All-append (λ b. b < 256) (to_be_bytes w (n / 256)) _ (to_be_bytes-bytes w (n / 256))
      (omega arith, tt)

-- Decoding undoes encoding, as long as the number fits.
pub from-to_be_bytes : (w n : ℕ) → n < 256 ^ w → from_be_bytes (to_be_bytes w n) ≡ n
unfolding to_be_bytes from_be_bytes
from-to_be_bytes zero n h = omega arith
from-to_be_bytes (suc w) n h =
    rw foldl-append (omega (arith, from-to_be_bytes w (n / 256) (omega (arith, pow-suc 256 w))))

pub to_be_bytes_inj :
    (w m n : ℕ) → m < 256 ^ w → n < 256 ^ w → to_be_bytes w m ≡ to_be_bytes w n → m ≡ n
to_be_bytes_inj w m n hm hn e =
    sym (from-to_be_bytes w m hm) ∙ ap from_be_bytes e ∙ from-to_be_bytes w n hn

-- `==` on byte arrays
unfoldable pub bytes_eq : Bytes → Bytes → Bool
bytes_eq [] [] = true
bytes_eq [] (y ∷ ys) = false
bytes_eq (x ∷ xs) [] = false
bytes_eq (x ∷ xs) (y ∷ ys) = x == y && bytes_eq xs ys

pub bytes_eq_iff : (xs ys : Bytes) → (bytes_eq xs ys ≡ true) ↔ (xs ≡ ys)
unfolding bytes_eq
bytes_eq_iff [] [] = ground arith
bytes_eq_iff [] (y ∷ ys) = ground arith
bytes_eq_iff (x ∷ xs) [] = ground arith
bytes_eq_iff (x ∷ xs) (y ∷ ys) = ground (arith, bytes_eq_iff xs ys)

pub bytes_eq_refl : (xs : Bytes) → bytes_eq xs xs ≡ true
bytes_eq_refl xs = (bytes_eq_iff xs xs).1 refl

pub bytes_eq_comm_false : (x y : Bytes) → bytes_eq x y ≡ false → bytes_eq y x ≡ false
bytes_eq_comm_false x y h = ground (arith, bytes_eq_iff x y, bytes_eq_iff y x)
