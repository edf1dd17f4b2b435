-- ===== src/Prelude/Tables.antt =====
-- Facts about bytes and bit operations, checked over every value of a small range.
use Prim.Native.Nat.{ℕ, zero, suc, ◌+◌, ◌*◌, ◌/◌, ◌^◌, ◌<◌, bit_or}
use mathlib.Core.Path.{◌≡◌, refl}
use mathlib.Core.Bool.{Bool, true, ◌&&◌}
use native.Mathlib.Omega.{arith}
use libbutl.Prelude.Tests.{◌==◌, ==_iff}

-- `x << k` before any truncation, and `x >> k`.
abbrev pub shl : ℕ → ℕ → ℕ
shl x k = x * 2 ^ k

abbrev pub shr : ℕ → ℕ → ℕ
shr x k = x / 2 ^ k

-- The test `p` passes on each number less than `bound`.
unfoldable pub passes : (ℕ → Bool) → ℕ → Bool
passes p zero = true
passes p (suc last) = passes p last && p last

pub passes_at : (p : ℕ → Bool) (bound i : ℕ) → i < bound → passes p bound ≡ true → p i ≡ true
unfolding passes
passes_at p zero i within table = absurd (omega arith)
passes_at p (suc last) i within table = ground (passes_at p last i, arith)

-- The same on pairs.
pub passes_at₂ :
    (p : ℕ → ℕ → Bool) (rows columns i j : ℕ)
    → i < rows
    → j < columns
    → passes (λ r. passes (p r) columns) rows ≡ true
    → p i j ≡ true
passes_at₂ p rows columns i j hi hj table =
    passes_at (p i) columns j hj (passes_at (λ r. passes (p r) columns) rows i hi table)

or_shl_2_table : passes (λ x. passes (λ y. bit_or (x * 4) y == x * 4 + y) 4) 64 ≡ true
unfolding passes
or_shl_2_table = refl

or_shl_4_table : passes (λ x. passes (λ y. bit_or (x * 16) y == x * 16 + y) 16) 64 ≡ true
unfolding passes
or_shl_4_table = refl

or_shl_6_table : passes (λ x. passes (λ y. bit_or (x * 64) y == x * 64 + y) 64) 64 ≡ true
unfolding passes
or_shl_6_table = refl

-- `(x << k) | y` is a sum where `y` has at most `k` bits.
pub bit_or_shl_2 : (x y : ℕ) → x < 64 → y < 4 → bit_or (x * 4) y ≡ x * 4 + y
bit_or_shl_2 x y hx hy =
    (==_iff _ _).0 (passes_at₂ (λ x y. bit_or (x * 4) y == x * 4 + y) 64 4 x y hx hy or_shl_2_table)

pub bit_or_shl_4 : (x y : ℕ) → x < 64 → y < 16 → bit_or (x * 16) y ≡ x * 16 + y
bit_or_shl_4 x y hx hy =
    (==_iff _ _).0
      (passes_at₂ (λ x y. bit_or (x * 16) y == x * 16 + y) 64 16 x y hx hy or_shl_4_table)

pub bit_or_shl_6 : (x y : ℕ) → x < 64 → y < 64 → bit_or (x * 64) y ≡ x * 64 + y
bit_or_shl_6 x y hx hy =
    (==_iff _ _).0
      (passes_at₂ (λ x y. bit_or (x * 64) y == x * 64 + y) 64 64 x y hx hy or_shl_6_table)
