-- ===== src/SemanticVersion/Tests.antt =====
-- Runs of libbutl/semantic-version.cxx, after tests/semantic-version, and the theorems at concrete
-- inputs.
use libbutl.Prelude.{◌≡◌, refl, arith, codes, some, none, [], true, false, ok, err}
use libbutl.Number.{parse_uint64, strtoull, strtoull_signed, strtoull_digits, scan, skip_space}
use libbutl.SemanticVersion.{
  SemanticVersion, Flags, print, numeric, of_numeric, parse, parse_minor, parse_patch, parse_build,
}
use libbutl.SemanticVersion.RoundTrip.{parse-print}

abbrev exact : Flags
exact = record { allow_omit_minor = false; allow_omit_patch = false; allow_build = false }

abbrev with_build : Flags
with_build = record { allow_omit_minor = true; allow_omit_patch = false; allow_build = true }

abbrev beta : SemanticVersion
beta = record { major = 1; minor = 2; patch = 3; build = codes "-beta" }

abbrev next_one : SemanticVersion
next_one = record { major = 1; minor = 2; patch = 10; build = [] }

abbrev last_one : SemanticVersion
last_one = record { major = 1; minor = 3; patch = 0; build = [] }

plain_text : parse exact none (codes "1.2.10") ≡ ok next_one
unfolding parse parse_minor parse_patch parse_build parse_uint64 strtoull strtoull_signed
    strtoull_digits scan skip_space
plain_text = refl

parse_junk : parse exact none (codes "1.2.3-beta") ≡ err "junk after version"
unfolding parse parse_minor parse_patch parse_build parse_uint64 strtoull strtoull_signed
    strtoull_digits scan skip_space
parse_junk = refl

parse_omitted :
    parse with_build (some []) (codes "1.alpha")
    ≡ ok (record { major = 1; minor = 0; patch = 0; build = codes ".alpha" })
unfolding parse parse_minor parse_patch parse_build parse_uint64 strtoull strtoull_signed
    strtoull_digits scan skip_space
parse_omitted = refl

number_of_beta : numeric beta ≡ ok 100002000030000
unfolding numeric
number_of_beta = refl

numeric_next : numeric next_one ≡ ok 100002000100000
unfolding numeric
numeric_next = refl

-- A version without a build component needs no flags.
read_plain : parse exact none (print false next_one) ≡ ok next_one
read_plain = parse-print exact none next_one (omega arith) refl tt

parse-print_example : parse with_build none (print false beta) ≡ ok beta
parse-print_example = parse-print with_build none beta (omega arith) refl (refl, refl, refl)

beta_of_number : of_numeric 100002000030000 (codes "-beta") ≡ ok beta
unfolding of_numeric
beta_of_number = refl
