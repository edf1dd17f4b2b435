-- ===== src/Number.antt =====
-- Unsigned numbers as text: `parse_uint64` and its narrower forms of libbutl/standard-version.cxx,
-- over a model of the C library's `strtoull` (base 10), and `to_string` of the C++ library.
-- A position in a string is the part of the string from there on.
pub mod RoundTrip
mod Tests
use libbutl.Prelude.{
  ℕ, zero, suc, ◌+◌, ◌-◌, ◌*◌, ◌/◌, ◌%◌, ◌^◌, Bool, true, false, ◌&&◌, ◌||◌, Option, none, some,
  List, [], ◌∷◌, Bytes, ltb, leb, ◌==◌, if◌then◌else◌, get_or,
}

-- `uint64_t (~0)`.
abbrev pub u64_max : ℕ
u64_max = 2 ^ 64 - 1

abbrev pub is_digit : ℕ → Bool
is_digit c = leb b'0' c && leb c b'9'

-- `isspace` of the C locale.
abbrev pub is_space : ℕ → Bool
is_space c = c == b' ' || (leb 9 c && leb c 13)

-- `s[p]`: the null character at the end of the string.
abbrev pub char_at : Bytes → ℕ
char_at [] = 0
char_at (c ∷ s) = c

-- The string from `p + 1` on.
abbrev pub rest_of : Bytes → Bytes
rest_of [] = []
rest_of (c ∷ s) = s

-- The value of the digits at the front, behind the value `n`, and what follows them.
unfoldable pub scan : ℕ → Bytes → ℕ × Bytes
scan n [] = (n, [])
scan n (c ∷ s) = let more = scan (n * 10 + (c - b'0')) s in if is_digit c then more else (n, c ∷ s)

unfoldable pub skip_space : Bytes → Bytes
skip_space [] = []
skip_space (c ∷ s) = let more = skip_space s in if is_space c then more else c ∷ s

-- What a call of `strtoull` gives: the value, whether `errno` is ERANGE, and the end pointer, which
-- is the start of the string where no digit was found (`converted` is false).
pub record Strtoull : Type 0 where
  pub value : ℕ
  pub range_error : Bool
  pub converted : Bool
  pub end : Bytes

-- The digits behind the optional sign; a minus sign negates the value in 64 bits.
unfoldable pub strtoull_digits : Bool → Bytes → Bytes → Strtoull
strtoull_digits negative start s =
    if is_digit (char_at s)
    then (let (v, e) = scan 0 s in
        if ltb u64_max v
        then record { value = u64_max; range_error = true; converted = true; end = e }
        else record {
          value = if negative then (2 ^ 64 - v) % 2 ^ 64 else v;
          range_error = false;
          converted = true;
          end = e;
        })
    else record { value = 0; range_error = false; converted = false; end = start }

unfoldable pub strtoull_signed : Bytes → Bytes → Strtoull
strtoull_signed start s =
    if char_at s == b'-'
    then strtoull_digits true start (rest_of s)
    else if char_at s == b'+'
    then strtoull_digits false start (rest_of s)
    else strtoull_digits false start s

unfoldable pub strtoull : Bytes → Strtoull
strtoull s = strtoull_signed s (skip_space s)

-- The number at the front of the string, if it lies within the limits, and the new position.
unfoldable pub parse_uint64 : ℕ → ℕ → Bytes → Option (ℕ × Bytes)
parse_uint64 min max s =
    if char_at s == b'-' || char_at s == b'+'
    then none
    else (let r = strtoull s in
        if r.range_error
          || (if r.converted then false else true)
          || ltb r.value min
          || ltb max r.value
        then none
        else some (r.value, r.end))

-- `parse_uint<T>`: the cast to a type of `bits` bits.
unfoldable pub parse_uint : ℕ → ℕ → ℕ → Bytes → Option (ℕ × Bytes)
parse_uint bits min max s = elim (parse_uint64 min max s) [
  | none ↦ none
  | some (v, e) ↦ some (v % 2 ^ bits, e)
]

unfoldable pub parse_uint16 : ℕ → ℕ → Bytes → Option (ℕ × Bytes)
unfolding parse_uint
parse_uint16 min max s = parse_uint 16 min max s

-- With its default limits.
unfoldable pub parse_uint32 : Bytes → Option (ℕ × Bytes)
unfolding parse_uint
parse_uint32 s = parse_uint 32 0 99999 s

-- The digits of `n` in front of `out`; the fuel `n + 1` is enough, since each round divides by ten.
pub digits : ℕ → ℕ → Bytes → Bytes
digits zero n out = out
digits (suc f) n out =
    let more = digits f (n / 10) ((b'0' + n % 10) ∷ out) in
    if ltb n 10 then (b'0' + n) ∷ out else more

-- `std::to_string` of an unsigned number.
unfoldable pub to_string : ℕ → Bytes
unfolding digits
to_string n = digits (suc n) n []
