-- ===== src/Number/RoundTrip.antt =====
-- Reading back what `to_string` writes (libbutl/standard-version.cxx, `parse_uint64`).
use libbutl.Prelude.{
  ℕ, zero, suc, ◌+◌, ◌/◌, ◌%◌, ◌^◌, ◌≤◌, ◌<◌, true, false, ◌||◌, some, [], ◌∷◌, ◌++◌, ◌≡◌, refl,
  ◌∙◌, arith, Bytes, ltb, ◌==◌, Bool-cases, Option-cases, All, inl, inr,
}
use native.Mathlib.Nat.{mod-eq_of_lt}
use libbutl.Number.{
  u64_max, is_digit, is_space, char_at, scan, skip_space, strtoull, strtoull_signed,
  strtoull_digits, parse_uint64, parse_uint, parse_uint16, parse_uint32, digits, to_string,
}

-- No digit stands at the front.
abbrev pub NoDigit : Bytes → Type 0
NoDigit s = is_digit (char_at s) ≡ false

scan_stop : (n : ℕ) (s : Bytes) → NoDigit s → scan n s ≡ (n, s)
unfolding scan
scan_stop n [] h = refl
scan_stop n (c ∷ s) h = rw h

digits-append : (f n : ℕ) (out rest : Bytes) → digits f n out ++ rest ≡ digits f n (out ++ rest)
unfolding digits
digits-append zero n out rest = refl
digits-append (suc f) n out rest =
    ground (arith, digits-append f (n / 10) ((b'0' + n % 10) ∷ out) rest)

scan-digits : (f n : ℕ) (out : Bytes) → n < f → scan 0 (digits f n out) ≡ scan n out
unfolding scan digits
scan-digits zero n out h = absurd (omega arith)
scan-digits (suc f) n out h = elim (Bool-cases (ltb n 10)) [
  | inl small ↦ ground arith
  | inr large ↦
      rw large (scan-digits f (n / 10) ((b'0' + n % 10) ∷ out) (ground arith) ∙ ground arith)
]

digits_front : (f n : ℕ) (out : Bytes) → n < f → is_digit (char_at (digits f n out)) ≡ true
unfolding digits
digits_front zero n out h = absurd (omega arith)
digits_front (suc f) n out h = elim (Bool-cases (ltb n 10)) [
  | inl small ↦ ground arith
  | inr large ↦ rw large (digits_front f (n / 10) ((b'0' + n % 10) ∷ out) (ground arith))
]

pub to_string_front : (n : ℕ) (rest : Bytes) → is_digit (char_at (to_string n ++ rest)) ≡ true
unfolding to_string
to_string_front n rest =
    rw (digits-append (suc n) n [] rest) (digits_front (suc n) n rest (omega arith))

pub scan-to_string :
    (n : ℕ) (rest : Bytes) → NoDigit rest → scan 0 (to_string n ++ rest) ≡ (n, rest)
unfolding to_string
scan-to_string n rest h =
    rw (digits-append (suc n) n [] rest)
      (scan-digits (suc n) n rest (omega arith) ∙ scan_stop n rest h)

skip_space_front : (s : Bytes) → is_space (char_at s) ≡ false → skip_space s ≡ s
unfolding skip_space
skip_space_front [] h = refl
skip_space_front (c ∷ s) h = rw h

strtoull_number :
    (start s e : Bytes) (n : ℕ)
    → is_digit (char_at s) ≡ true
    → scan 0 s ≡ (n, e)
    → n ≤ u64_max
    → strtoull_signed start s ≡ record { value = n; range_error = false; converted = true; end = e }
unfolding strtoull_signed strtoull_digits
strtoull_number start s e n d h le = rw (d, h) (ground arith)

-- White space and a plus sign may stand before the number.
abbrev pub Leads : Bytes → Bytes → Type 0
Leads s t = (skip_space s ≡ t) × (is_digit (char_at t) ≡ true)

parse_uint64_number :
    (min max n : ℕ) (s t e : Bytes)
    → (char_at s == b'-' || char_at s == b'+') ≡ false
    → Leads s t
    → scan 0 t ≡ (n, e)
    → min ≤ n
    → n ≤ max
    → n ≤ u64_max
    → parse_uint64 min max s ≡ some (n, e)
unfolding parse_uint64 strtoull
parse_uint64_number min max n s t e sign (sp, d) h lo hi fits =
    rw (sign, sp, strtoull_number s t e n d h fits) (ground arith)

-- The front of a printed number is read back as that number, and the position moves behind it,
-- whenever the number lies within the limits and no digit follows.
pub parse_uint64-to_string :
    (min max n : ℕ) (rest : Bytes)
    → min ≤ n
    → n ≤ max
    → n ≤ u64_max
    → NoDigit rest
    → parse_uint64 min max (to_string n ++ rest) ≡ some (n, rest)
parse_uint64-to_string min max n rest lo hi fits stop =
    let d = to_string_front n rest in
    parse_uint64_number min max n _ _ rest (ground arith) (skip_space_front _ (ground arith), d)
      (scan-to_string n rest stop) lo hi fits

skip_space_blanks :
    (blanks s : Bytes)
    → All (λ c. is_space c ≡ true) blanks
    → skip_space (blanks ++ s) ≡ skip_space s
unfolding skip_space
skip_space_blanks [] s h = refl
skip_space_blanks (c ∷ b) s (h, t) = rw h (skip_space_blanks b s t)

parse_uint64_blanks :
    (min max n c : ℕ) (blanks rest : Bytes)
    → is_space c ≡ true
    → All (λ c. is_space c ≡ true) blanks
    → min ≤ n
    → n ≤ max
    → n ≤ u64_max
    → NoDigit rest
    → parse_uint64 min max ((c ∷ blanks) ++ (to_string n ++ rest)) ≡ some (n, rest)
parse_uint64_blanks min max n c blanks rest h hs lo hi fits stop =
    let d = to_string_front n rest in
    parse_uint64_number min max n _ _ rest (ground arith)
      (skip_space_blanks (c ∷ blanks) _ (h, hs) ∙ skip_space_front _ (ground arith), d)
      (scan-to_string n rest stop) lo hi fits

-- A printed number in the limits is read back, also with white space in front of it, which
-- `strtoull` skips: the sign test looks at the first character only.
pub parse_uint64_blanks-to_string :
    (min max n : ℕ) (blanks rest : Bytes)
    → All (λ c. is_space c ≡ true) blanks
    → min ≤ n
    → n ≤ max
    → n ≤ u64_max
    → NoDigit rest
    → parse_uint64 min max (blanks ++ (to_string n ++ rest)) ≡ some (n, rest)
parse_uint64_blanks-to_string min max n [] rest h = parse_uint64-to_string min max n rest
parse_uint64_blanks-to_string min max n (c ∷ blanks) rest h =
    parse_uint64_blanks min max n c blanks rest (h.0) (h.1)

-- The narrow form keeps the value, since the limit fits the type.
pub parse_uint-to_string :
    (bits min max n : ℕ) (rest : Bytes)
    → min ≤ n
    → n ≤ max
    → n ≤ u64_max
    → n % 2 ^ bits ≡ n
    → NoDigit rest
    → parse_uint bits min max (to_string n ++ rest) ≡ some (n, rest)
unfolding parse_uint
parse_uint-to_string bits min max n rest lo hi fits keeps stop =
    rw (parse_uint64-to_string min max n rest lo hi fits stop, keeps, parse_uint)

pub parse_uint16-to_string :
    (min max n : ℕ) (rest : Bytes)
    → min ≤ n
    → n ≤ max
    → max < 65536
    → NoDigit rest
    → parse_uint16 min max (to_string n ++ rest) ≡ some (n, rest)
unfolding parse_uint16
parse_uint16-to_string min max n rest lo hi fits stop =
    parse_uint-to_string 16 min max n rest lo hi (omega arith) (omega arith) stop

pub parse_uint32-to_string :
    (n : ℕ) (rest : Bytes)
    → n ≤ 99999
    → NoDigit rest
    → parse_uint32 (to_string n ++ rest) ≡ some (n, rest)
unfolding parse_uint32
parse_uint32-to_string n rest hi stop =
    parse_uint-to_string 32 0 99999 n rest (omega arith) hi (omega arith) (omega arith) stop

-- A number that is read lies within the limits.
pub parse_uint64_bounds :
    (min max : ℕ) (s e : Bytes) (n : ℕ)
    → parse_uint64 min max s ≡ some (n, e)
    → (min ≤ n) × (n ≤ max)
unfolding parse_uint64
parse_uint64_bounds min max s e n h = ground arith

parse_uint_bounds :
    (bits min max : ℕ) (s e : Bytes) (n : ℕ)
    → max < 2 ^ bits
    → parse_uint bits min max s ≡ some (n, e)
    → (min ≤ n) × (n ≤ max)
unfolding parse_uint
parse_uint_bounds bits min max s e n fits h = elim (Option-cases (parse_uint64 min max s)) [
  | inl z ↦ cc
  | inr ((v, e'), read) ↦
      let b = parse_uint64_bounds min max s e' v read in
      let small : v % 2 ^ bits ≡ v = mod-eq_of_lt (omega arith) in ground (arith, small)
]

pub parse_uint16_bounds :
    (min max : ℕ) (s e : Bytes) (n : ℕ)
    → max < 65536
    → parse_uint16 min max s ≡ some (n, e)
    → (min ≤ n) × (n ≤ max)
unfolding parse_uint16
parse_uint16_bounds min max s e n fits h = parse_uint_bounds 16 min max s e n (omega arith) h

pub parse_uint32_bounds : (s e : Bytes) (n : ℕ) → parse_uint32 s ≡ some (n, e) → n ≤ 99999
unfolding parse_uint32
parse_uint32_bounds s e n h = (parse_uint_bounds 32 0 99999 s e n (omega arith) h).1
