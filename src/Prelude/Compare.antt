-- ===== src/Prelude/Compare.antt =====
-- Three-way comparison, as the `compare` functions of the library return it: the sign of an `int`.
use Prim.Native.Nat.{ℕ}
use mathlib.Core.Path.{◌≡◌, refl}
use mathlib.Core.Logic.{◌↔◌}
use mathlib.Core.List.{[], ◌∷◌}
use native.Mathlib.Omega.{arith}
use libbutl.Prelude.Tests.{ltb, ◌==◌, if◌then◌else◌}
use libbutl.Prelude.Lists.{Bytes}

pub data Sign : Type 0 where
  less equal greater : Sign

abbrev pub flip : Sign → Sign
flip less = greater
flip equal = equal
flip greater = less

-- `x != y ? (x < y ? -1 : 1) : …` in the member-wise comparisons.
abbrev pub sign_of : ℕ → ℕ → Sign → Sign
sign_of x y later = if x == y then later else if ltb x y then less else greater

-- `string::compare`.
unfoldable pub compare_bytes : Bytes → Bytes → Sign
compare_bytes [] [] = equal
compare_bytes [] (y ∷ ys) = less
compare_bytes (x ∷ xs) [] = greater
compare_bytes (x ∷ xs) (y ∷ ys) = sign_of x y (compare_bytes xs ys)

pub compare_bytes-flip : (x y : Bytes) → compare_bytes y x ≡ flip (compare_bytes x y)
unfolding compare_bytes
compare_bytes-flip [] [] = refl
compare_bytes-flip [] (y ∷ ys) = refl
compare_bytes-flip (x ∷ xs) [] = refl
compare_bytes-flip (x ∷ xs) (y ∷ ys) = ground (arith, compare_bytes-flip xs ys)

pub compare_bytes_equal : (x y : Bytes) → (compare_bytes x y ≡ equal) ↔ (x ≡ y)
unfolding compare_bytes
compare_bytes_equal [] [] = ground arith
compare_bytes_equal [] (y ∷ ys) = ground arith
compare_bytes_equal (x ∷ xs) [] = ground arith
compare_bytes_equal (x ∷ xs) (y ∷ ys) = ground (arith, compare_bytes_equal xs ys)

pub compare_bytes_trans :
    (x y z : Bytes) → compare_bytes x y ≡ less → compare_bytes y z ≡ less → compare_bytes x z ≡ less
unfolding compare_bytes
compare_bytes_trans [] [] z p q = cc
compare_bytes_trans [] (y ∷ ys) [] p q = cc
compare_bytes_trans [] (y ∷ ys) (z ∷ zs) p q = refl
compare_bytes_trans (x ∷ xs) [] z p q = cc
compare_bytes_trans (x ∷ xs) (y ∷ ys) [] p q = cc
compare_bytes_trans (x ∷ xs) (y ∷ ys) (z ∷ zs) p q = ground (arith, compare_bytes_trans xs ys zs)
