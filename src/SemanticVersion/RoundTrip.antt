-- ===== src/SemanticVersion/RoundTrip.antt =====
-- Text and numeric forms of a semantic version are read back (libbutl/semantic-version.cxx).
use libbutl.Prelude.{
  ℕ, ◌≤◌, Bool, true, false, not, ◌||◌, Option, [], ◌∷◌, ◌++◌, ◌≡◌, ◌↔◌, refl, arith, Bytes,
  has_byte, is_empty, ◌==◌, ok,
}
use libbutl.Number.{u64_max, to_string, is_digit}
use libbutl.Number.RoundTrip.{NoDigit, parse_uint64-to_string}
use libbutl.SemanticVersion.{
  SemanticVersion, Flags, print, numeric, of_numeric, parse, parse_minor, parse_patch, parse_build,
  separators,
}

-- The components are 64-bit numbers.
pub record Fits (v : SemanticVersion) : Type 0 where
  pub major_fits : v.major ≤ u64_max
  pub minor_fits : v.minor ≤ u64_max
  pub patch_fits : v.patch ≤ u64_max

-- The build component is empty, or begins with a separator, which is neither a digit nor null; an
-- empty list of separators allows any other character.
abbrev pub HasSeparator : Bytes → Bytes → Type 0
HasSeparator bs [] = Unit
HasSeparator bs (c ∷ s) =
    (is_digit c ≡ false) × ((c == 0) ≡ false) × ((is_empty bs || has_byte c bs) ≡ true)

HasSeparator-NoDigit : (bs build : Bytes) → HasSeparator bs build → NoDigit build
HasSeparator-NoDigit bs [] h = refl
HasSeparator-NoDigit bs (c ∷ s) h = h.0

parse_build_lem :
    (allow : Bool) (bs build : Bytes)
    → (is_empty build || allow) ≡ true
    → HasSeparator bs build
    → parse_build allow bs build ≡ ok build
unfolding parse_build
parse_build_lem allow bs [] a h = refl
parse_build_lem allow bs (c ∷ s) a h = ground arith

parse_patch-to_string :
    (need : Bool) (n : ℕ) (e : Bytes)
    → n ≤ u64_max
    → NoDigit e
    → parse_patch need (b'.' ∷ (to_string n ++ e)) ≡ ok (n, e)
unfolding parse_patch
parse_patch-to_string need n e h stop =
    rw (parse_uint64-to_string 0 u64_max n e (omega arith) h h stop)

parse_minor-to_string :
    (need need' : Bool) (m n : ℕ) (e : Bytes)
    → m ≤ u64_max
    → n ≤ u64_max
    → NoDigit e
    → parse_minor need need' (b'.' ∷ (to_string m ++ (b'.' ∷ (to_string n ++ e)))) ≡ ok (m, n, e)
unfolding parse_minor
parse_minor-to_string need need' m n e hm hn stop = rw (
  parse_uint64-to_string 0 u64_max m (b'.' ∷ (to_string n ++ e)) (omega arith) hm hm refl,
  parse_patch-to_string need' n e hn stop,
)

-- A version whose build component is empty, or is allowed by the flags and begins with a
-- separator other than a digit and the null character, is read back from its text, whether or not the flags allow components to
-- be omitted.
pub parse-print :
    (fs : Flags) (bs : Option Bytes) (v : SemanticVersion)
    → Fits v
    → (is_empty v.build || fs.allow_build) ≡ true
    → HasSeparator (separators fs.allow_build bs) v.build
    → parse fs bs (print false v) ≡ ok v
unfolding parse print
parse-print fs bs v f allowed sep =
    rw
      (
        parse_uint64-to_string 0 u64_max v.major
            (b'.' ∷ (to_string v.minor ++ (b'.' ∷ (to_string v.patch ++ v.build)))) (omega arith)
            f.major_fits f.major_fits refl,
        parse,
      )
      (rw
        (parse_minor-to_string (not fs.allow_omit_minor)
          (not (fs.allow_omit_patch || fs.allow_omit_minor)) v.minor v.patch v.build f.minor_fits
          f.patch_fits (HasSeparator-NoDigit _ v.build sep))
        (rw (parse_build_lem fs.allow_build (separators fs.allow_build bs) v.build allowed sep)
          refl))

-- The numeric form of a version with components of at most five digits is accepted by the
-- constructor, which gives the version back with the build component that it is handed.
pub of_numeric-numeric :
    (v : SemanticVersion) (n : ℕ) → numeric v ≡ ok n → of_numeric n v.build ≡ ok v
unfolding numeric of_numeric
of_numeric-numeric v n h = ground arith

-- The other way round: `numeric` gives back every number that the constructor accepts.
pub numeric-of_numeric :
    (n : ℕ) (b : Bytes) (v : SemanticVersion) → of_numeric n b ≡ ok v → numeric v ≡ ok n
unfolding numeric of_numeric
numeric-of_numeric n b v h = ground arith

-- `numeric` gives a number for a version exactly if the constructor makes the version from that
-- number and the build component.
pub numeric_inverse :
    (v : SemanticVersion) (n : ℕ) → (numeric v ≡ ok n) ↔ (of_numeric n v.build ≡ ok v)
numeric_inverse v n = (of_numeric-numeric v n, numeric-of_numeric n v.build v)
