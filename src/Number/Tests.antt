-- ===== src/Number/Tests.antt =====
-- Runs of the number routines of libbutl/standard-version.cxx, and the theorems at concrete inputs.
use libbutl.Prelude.{◌≡◌, ◌++◌, refl, arith, codes, some, none}
use libbutl.Number.{
  u64_max, parse_uint64, to_string, strtoull, strtoull_signed, strtoull_digits, scan, skip_space,
}
use libbutl.Number.RoundTrip.{parse_uint64_blanks-to_string}

print_max : to_string u64_max ≡ codes "18446744073709551615"
unfolding to_string
print_max = refl

parse_overflow : parse_uint64 0 u64_max (codes "18446744073709551616.") ≡ none
unfolding parse_uint64 strtoull strtoull_signed strtoull_digits scan skip_space
parse_overflow = refl

-- A sign behind a space is taken, and a minus sign wraps around.
parse_space_minus : parse_uint64 0 u64_max (codes " -1.0") ≡ some (u64_max, codes ".0")
unfolding parse_uint64 strtoull strtoull_signed strtoull_digits scan skip_space
parse_space_minus = refl

parse_uint64_blanks-to_string_example :
    parse_uint64 1 999 (codes "  " ++ (to_string 42 ++ codes ".7")) ≡ some (42, codes ".7")
parse_uint64_blanks-to_string_example =
    parse_uint64_blanks-to_string 1 999 42 (codes "  ") (codes ".7") (refl, (refl, tt))
      (omega arith) (omega arith) (omega arith) refl
