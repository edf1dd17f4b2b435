-- ===== src/SemanticVersion.antt =====
-- libbutl/semantic-version.hxx, .ixx and .cxx: the version record, its text and numeric forms, the
-- parser and the comparison.
pub mod RoundTrip
pub mod Order
mod Tests
use libbutl.Prelude.{
  ℕ, ◌+◌, ◌*◌, ◌/◌, ◌%◌, Bool, true, false, not, ◌&&◌, ◌||◌, Option, none, some, List, [], ◌∷◌,
  ◌++◌, Bytes, codes, has_byte, is_empty, ltb, ◌==◌, if◌then◌else◌, Result, ok, err, ◌>>=◌, ◌>>◌,
  throw_if, Sign, less, equal, greater, sign_of, compare_bytes,
}
use libbutl.Number.{u64_max, char_at, rest_of, parse_uint64, to_string}

pub record SemanticVersion : Type 0 where
  pub major : ℕ
  pub minor : ℕ
  pub patch : ℕ
  pub build : Bytes

-- The bits of `semantic_version::flags`.
pub record Flags : Type 0 where
  pub allow_omit_minor : Bool
  pub allow_omit_patch : Bool
  pub allow_build : Bool

-- `string (ignore_build)`.
unfoldable pub print : Bool → SemanticVersion → Bytes
print ib v =
    to_string v.major
    ++ (b'.'
        ∷ (to_string v.minor ++ (b'.' ∷ (to_string v.patch ++ (if not ib then v.build else [])))))

unfoldable pub numeric : SemanticVersion → Result ℕ
numeric v =
    if ltb 99999 v.major
    then err "major version greater than 99999"
    else if ltb 99999 v.minor
    then err "minor version greater than 99999"
    else if ltb 99999 v.patch
    then err "patch version greater than 99999"
    else ok (v.major * 100000000000000 + v.minor * 1000000000 + v.patch * 10000)

-- The constructor from the numeric form.
unfoldable pub of_numeric : ℕ → Bytes → Result SemanticVersion
of_numeric n b = do
  throw_if (ltb 9999999999999990000 n || not (n % 10000 == 0)) "invalid numeric representation"
  ok (record {
    major = n / 100000000000000 % 100000;
    minor = n / 1000000000 % 100000;
    patch = n / 10000 % 100000;
    build = b;
  })

-- Behind the minor version: the patch version, which is left for the build component where it is not
-- a number and may be omitted.
pub parse_patch : Bool → Bytes → Result (ℕ × Bytes)
parse_patch require_patch s =
    if char_at s == b'.'
    then elim (parse_uint64 0 u64_max (rest_of s)) [
      | some (patch, e) ↦ ok (patch, e)
      | none ↦ if require_patch then err "invalid patch version" else ok (0, s)
    ]
    else if require_patch
    then err "'.' expected after minor version"
    else ok (0, s)

-- Behind the major version: the minor and the patch versions.
pub parse_minor : Bool → Bool → Bytes → Result (ℕ × ℕ × Bytes)
parse_minor require_minor require_patch s =
    if char_at s == b'.'
    then elim (parse_uint64 0 u64_max (rest_of s)) [
      | some (minor, e) ↦ parse_patch require_patch e >>= λ r. ok (minor, r.0, r.1)
      | none ↦ if require_minor then err "invalid minor version" else ok (0, 0, s)
    ]
    else if require_minor
    then err "'.' expected after major version"
    else ok (0, 0, s)

-- What is left is the build component, if its first character is one of the separators. A null
-- character ends the version.
pub parse_build : Bool → Bytes → Bytes → Result Bytes
parse_build allow_build bs s = if char_at s == 0 then ok [] else (do
  throw_if (not allow_build || (not (is_empty bs) && not (has_byte (char_at s) bs)))
      "junk after version"
  ok s)

-- The separators that are looked up: `bs`, or "-+" where it is null.
abbrev pub separators : Bool → Option Bytes → Bytes
separators true none = codes "-+"
separators false none = []
separators _ (some bs) = bs

-- `parse_semantic_version_impl` from a position on, behind its assertion. The failure reason is the
-- message that the constructor throws.
unfoldable pub parse : Flags → Option Bytes → Bytes → Result SemanticVersion
parse fs bs s = elim (parse_uint64 0 u64_max s) [
  | none ↦ err "invalid major version"
  | some (major, e) ↦ do
    r ← parse_minor (not fs.allow_omit_minor) (not (fs.allow_omit_patch || fs.allow_omit_minor)) e
    build ← parse_build fs.allow_build (separators fs.allow_build bs) r.2
    ok (record { major = major; minor = r.0; patch = r.1; build = build })
]

-- `compare (v, ignore_build)`.
unfoldable pub compare : SemanticVersion → SemanticVersion → Bool → Sign
compare x y ignore_build = sign_of x.major y.major (
    sign_of x.minor y.minor
      (sign_of x.patch y.patch (if ignore_build then equal else compare_bytes x.build y.build)))
