-- ===== src/Prelude/Bits.antt =====
-- A number shifted to the left, with a smaller number in the bits that it leaves.
use Prim.Native.Nat.{ℕ, zero, suc, ◌+◌, ◌*◌, ◌/◌, ◌≤◌, ◌<◌, bit_or, bit_or-bitwise, digits, max}
use mathlib.Core.Path.{◌≡◌, ◌∙◌}
use native.Mathlib.Omega.{arith}

-- Joining `y` below `q` is adding it, whatever the count of digits to go.
abbrev Joins : ℕ → ℕ → Type 0
Joins p q = (n y : ℕ) → q ≤ n → y < p → digits (λ b. b) max n q y ≡ q + y

joins_nothing : (n q y : ℕ) → q ≤ n → y < 1 → digits (λ b. b) max n q y ≡ q + y
joins_nothing zero zero y le lt = omega arith
joins_nothing zero (suc q) y le lt = absurd (omega arith)
joins_nothing (suc n) zero y le lt = omega arith
joins_nothing (suc n) (suc q) y le lt =
    omega (arith, joins_nothing n (suc q / 2) (y / 2) (omega arith) (omega arith))

Joins-twice_at :
    (p q n e y : ℕ) → Joins p q → e ≡ q + q → e ≤ n → y < p + p → digits (λ b. b) max n e y ≡ e + y
Joins-twice_at p q zero zero y h d le lt = omega arith
Joins-twice_at p q zero (suc e) y h d le lt = absurd (omega arith)
Joins-twice_at p q (suc n) zero y h d le lt = omega arith
Joins-twice_at p q (suc n) (suc e) y h d le lt =
    let half : suc e / 2 ≡ q = omega arith in
    let ih : digits (λ b. b) max n (suc e / 2) (y / 2) ≡ suc e / 2 + y / 2 =
      rw half (h n (y / 2) (omega arith) (omega arith)) in
    omega (arith, ih)

Joins-twice : (p q e : ℕ) → Joins p q → e ≡ q + q → Joins (p + p) e
Joins-twice p q e h d n y le lt = Joins-twice_at p q n e y h d le lt

Joins-64 : (q : ℕ) → Joins 64 (q * 64)
Joins-64 q =
    let two = Joins-twice 1 q (q * 2) (λ n. joins_nothing n q) (omega arith) in
    let four = Joins-twice 2 (q * 2) (q * 4) two (omega arith) in
    let eight = Joins-twice 4 (q * 4) (q * 8) four (omega arith) in
    let sixteen = Joins-twice 8 (q * 8) (q * 16) eight (omega arith) in
    let thirty_two = Joins-twice 16 (q * 16) (q * 32) sixteen (omega arith) in
    Joins-twice 32 (q * 32) (q * 64) thirty_two (omega arith)

-- `(q << 6) | y` is a sum where `y` has at most 6 bits.
pub bit_or_shl_6_any : (q y : ℕ) → y < 64 → bit_or (q * 64) y ≡ q * 64 + y
bit_or_shl_6_any q y h = bit_or-bitwise (q * 64) y ∙ Joins-64 q (q * 64) y (omega arith) h
