-- ===== src/StandardVersion/Constraint.antt =====
-- Version constraints of libbutl/standard-version.cxx: the record, the constructor that checks it,
-- the maximum version of the shortcut operators, `satisfies`, and the printer. The parser is in a
-- child.
pub mod Parser
pub mod Satisfies
use Prim.Native.String
use libbutl.Prelude.{
  ℕ, ◌+◌, ◌-◌, ◌*◌, Bool, true, false, not, ◌&&◌, ◌||◌, Option, none, some, [], ◌∷◌, ◌++◌, Bytes,
  codes, is_empty, ltb, ◌==◌, if◌then◌else◌, Result, ok, err, ◌>>=◌, ◌>>◌, throw_if, Sign, less,
  equal, greater, String,
}
use libbutl.StandardVersion.{
  StandardVersion, Flags, default_version, empty, stub, earliest, major, minor, compare,
}
use libbutl.StandardVersion.Parser.{of_epoch_version}
use libbutl.StandardVersion.Printer.{print}

pub record Constraint : Type 0 where
  pub min_version : Option StandardVersion
  pub min_open : Bool
  pub max_version : Option StandardVersion
  pub max_open : Bool

-- The comparison operators, over `compare` with the revision.
abbrev pub is_less : Sign → Bool
is_less less = true
is_less _ = false

abbrev pub is_equal : Sign → Bool
is_equal equal = true
is_equal _ = false

abbrev pub is_greater : Sign → Bool
is_greater greater = true
is_greater _ = false

-- The shortcut operators.
pub data Shortcut : Type 0 where
  tilde caret : Shortcut

abbrev pub is_tilde : Shortcut → Bool
is_tilde tilde = true
is_tilde caret = false

-- The next version's number for the operator, or the message where it would overflow.
unfoldable pub next_number : Shortcut → StandardVersion → Result ℕ
next_number c v =
    if is_tilde c || major v == 0
    then (if minor v == 99999
        then err "invalid minor version"
        else ok (major v * 100000000000000 + (minor v + 1) * 1000000000))
    else if major v == 99999
    then err "invalid major version"
    else ok ((major v + 1) * 100000000000000)

-- `shortcut_max_version (c, version, ignore_overflow)`.
unfoldable pub shortcut_max_version : Shortcut → StandardVersion → Bool → Result StandardVersion
shortcut_max_version c v ignore_overflow = elim (next_number c v) [
  | err w ↦ if ignore_overflow then ok default_version else err w
  | ok n ↦
      of_epoch_version v.epoch (n - 10000 + 1) [] 0
        (record { allow_earliest = true; allow_stub = false })
]

-- The assertions of the constructor: an endpoint is there and is neither empty nor a stub, and one
-- that is absent is open.
unfoldable pub well_formed : Option StandardVersion → Bool → Bool
well_formed none is_open = is_open
well_formed (some v) is_open = not (empty v) && not (stub v)

-- The checks of two endpoints.
unfoldable pub check_endpoints : StandardVersion → Bool → StandardVersion → Bool → Result (Unit {0})
check_endpoints mn min_open mx max_open = do
  throw_if (is_greater (compare mn mx false)) "min version is greater than max version"
  throw_if (is_equal (compare mn mx false) && (min_open || max_open))
      "equal version endpoints not closed"
  throw_if (is_equal (compare mn mx false) && earliest mn) "equal version endpoints are earliest"

-- The constructor, behind its assertions.
unfoldable pub make :
    Option StandardVersion → Bool → Option StandardVersion → Bool → Result Constraint
make none min_open mxv max_open =
    ok (record { min_version = none; min_open = min_open; max_version = mxv; max_open = max_open })
make (some mn) min_open none max_open =
    ok (record {
      min_version = some mn;
      min_open = min_open;
      max_version = none;
      max_open = max_open;
    })
make (some mn) min_open (some mx) max_open = do
  check_endpoints mn min_open mx max_open
  ok (record {
    min_version = some mn;
    min_open = min_open;
    max_version = some mx;
    max_open = max_open;
  })

unfoldable pub above_min : Constraint → StandardVersion → Bool
above_min c v = elim c.min_version [
  | none ↦ true
  | some mn ↦
      let i = compare v mn false in if c.min_open then is_greater i else is_greater i || is_equal i
]

unfoldable pub below_max : Constraint → StandardVersion → Bool
below_max c v = elim c.max_version [
  | none ↦ true
  | some mx ↦
      let i = compare v mx false in if c.max_open then is_less i else is_less i || is_equal i
]

unfoldable pub satisfies : Constraint → StandardVersion → Bool
satisfies c v = above_min c v && below_max c v

-- Whether the operator's maximum for `mn` is `mx`; an overflow gives the empty version, which is
-- none of a constraint.
unfoldable pub is_shortcut : Shortcut → StandardVersion → StandardVersion → Bool
is_shortcut c mn mx = elim (shortcut_max_version c mn true) [
  | err w ↦ false
  | ok m ↦ is_equal (compare m mx false)
]

unfoldable pub print_range : StandardVersion → Bool → StandardVersion → Bool → Bytes
print_range mn min_open mx max_open =
    if is_equal (compare mn mx false)
    then codes "== " ++ print mn
    else if not min_open && max_open && is_shortcut caret mn mx
    then b'^' ∷ print mn
    else if not min_open && max_open && is_shortcut tilde mn mx
    then b'~' ∷ print mn
    else (if min_open then b'(' else b'[')
      ∷ (print mn ++ (b' ' ∷ (print mx ++ ((if max_open then b')' else b']') ∷ []))))

-- `string`, behind its assertion that the constraint is not empty.
unfoldable pub print_constraint : Constraint → Bytes
print_constraint c = elim c.min_version [
  | none ↦ elim c.max_version [
    | none ↦ []
    | some mx ↦ (if c.max_open then codes "< " else codes "<= ") ++ print mx
  ]
  | some mn ↦ elim c.max_version [
    | none ↦ (if c.min_open then codes "> " else codes ">= ") ++ print mn
    | some mx ↦ print_range mn c.min_open mx c.max_open
  ]
]
