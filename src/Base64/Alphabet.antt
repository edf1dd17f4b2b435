-- ===== src/Base64/Alphabet.antt =====
-- The alphabet and the indices of libbutl/base64.cxx, as arithmetic.
use libbutl.Prelude.{
  ℕ, ◌+◌, ◌*◌, ◌/◌, ◌%◌, ◌<◌, Bool, true, false, not, ◌&&◌, ◌≡◌, refl, arith, ◌==◌, ==_iff, Result,
  ok, err, passes, passes_at, bit_or_shl_2, bit_or_shl_4, bit_or_shl_6, bit_and, shr,
}
use libbutl.Base64.{
  code_at, newline, pad, index, first_index, second_index_base, second_index, third_index_base,
  third_index, fourth_index, first_byte, second_byte, third_byte,
}

abbrev is_ok_of : ℕ → Result ℕ → Bool
is_ok_of i (ok j) = j == i
is_ok_of i (err _) = false

is_ok_of_sound : (i : ℕ) (r : Result ℕ) → is_ok_of i r ≡ true → r ≡ ok i
is_ok_of_sound i (ok j) h = ground arith
is_ok_of_sound i (err _) h = cc

index_table : passes (λ i. is_ok_of i (index (code_at i))) 64 ≡ true
unfolding passes index code_at
index_table = refl

-- `index` inverts the alphabet.
pub index-code_at : (i : ℕ) → i < 64 → index (code_at i) ≡ ok i
index-code_at i h =
    is_ok_of_sound i _ (passes_at (λ i. is_ok_of i (index (code_at i))) 64 i h index_table)

plain_table : passes (λ i. not (code_at i == newline) && not (code_at i == pad)) 64 ≡ true
unfolding passes code_at
plain_table = refl

pub code_at-ne : (i : ℕ) → i < 64 → ((code_at i == newline) ≡ false) × ((code_at i == pad) ≡ false)
code_at-ne i h = ground (
  arith,
  passes_at (λ i. not (code_at i == newline) && not (code_at i == pad)) 64 i h plain_table,
)

module _ (p : ℕ → Bool) (t : passes p 256 ≡ true) (x : ℕ) (h : x < 256) where
  byte_table : p x ≡ true
  byte_table = passes_at p 256 x h t

first_index_table : passes (λ a. first_index a == a / 4) 256 ≡ true
unfolding passes first_index
first_index_table = refl

pub first_index_lem : (a : ℕ) → a < 256 → first_index a ≡ a / 4
first_index_lem a h =
    (==_iff _ _).0 (byte_table (λ a. first_index a == a / 4) first_index_table a h)

second_base_table : passes (λ a. second_index_base a == a % 4 * 16) 256 ≡ true
unfolding passes second_index_base
second_base_table = refl

pub second_index_base_lem : (a : ℕ) → a < 256 → second_index_base a ≡ a % 4 * 16
second_index_base_lem a h =
    (==_iff _ _).0 (byte_table (λ a. second_index_base a == a % 4 * 16) second_base_table a h)

high_nibble_table : passes (λ b. bit_and (shr b 4) 0xF == b / 16) 256 ≡ true
unfolding passes
high_nibble_table = refl

pub second_index_lem : (a b : ℕ) → a < 256 → b < 256 → second_index a b ≡ a % 4 * 16 + b / 16
unfolding second_index
second_index_lem a b ha hb = cc (
  second_index_base_lem a ha,
  (==_iff _ _).0 (byte_table (λ b. bit_and (shr b 4) 0xF == b / 16) high_nibble_table b hb),
  bit_or_shl_4 (a % 4) (b / 16) (omega arith) (omega arith),
)

third_base_table : passes (λ b. third_index_base b == b % 16 * 4) 256 ≡ true
unfolding passes third_index_base
third_base_table = refl

pub third_index_base_lem : (b : ℕ) → b < 256 → third_index_base b ≡ b % 16 * 4
third_index_base_lem b h =
    (==_iff _ _).0 (byte_table (λ b. third_index_base b == b % 16 * 4) third_base_table b h)

high_pair_table : passes (λ c. bit_and (shr c 6) 0x3 == c / 64) 256 ≡ true
unfolding passes
high_pair_table = refl

pub third_index_lem : (b c : ℕ) → b < 256 → c < 256 → third_index b c ≡ b % 16 * 4 + c / 64
unfolding third_index
third_index_lem b c hb hc = cc (
  third_index_base_lem b hb,
  (==_iff _ _).0 (byte_table (λ c. bit_and (shr c 6) 0x3 == c / 64) high_pair_table c hc),
  bit_or_shl_2 (b % 16) (c / 64) (omega arith) (omega arith),
)

fourth_table : passes (λ c. fourth_index c == c % 64) 256 ≡ true
unfolding passes fourth_index
fourth_table = refl

pub fourth_index_lem : (c : ℕ) → c < 256 → fourth_index c ≡ c % 64
fourth_index_lem c h = (==_iff _ _).0 (byte_table (λ c. fourth_index c == c % 64) fourth_table c h)

pub first_byte_lem : (i j : ℕ) → i < 64 → j < 64 → first_byte i j ≡ (i * 4 + j / 16) % 256
unfolding first_byte
first_byte_lem i j hi hj = cc (bit_or_shl_2 i (j / 16) hi (omega arith))

pub second_byte_lem : (i j : ℕ) → i < 64 → j < 64 → second_byte i j ≡ (i * 16 + j / 4) % 256
unfolding second_byte
second_byte_lem i j hi hj = cc (bit_or_shl_4 i (j / 4) hi (omega arith))

pub third_byte_lem : (i j : ℕ) → i < 64 → j < 64 → third_byte i j ≡ (i * 64 + j) % 256
unfolding third_byte
third_byte_lem i j hi hj = cc (bit_or_shl_6 i j hi hj)
