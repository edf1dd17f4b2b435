-- ===== src/StandardVersion/Constraint/Parser.antt =====
-- `parse_constraint` of libbutl/standard-version.cxx, with an optional dependent version that `$`
-- stands for.
use Prim.Native.String
use libbutl.Prelude.{
  ℕ, ◌+◌, Bool, true, false, not, ◌&&◌, ◌||◌, Option, none, some, [], ◌∷◌, Bytes, codes, is_empty,
  bytes_eq, ◌==◌, if◌then◌else◌, Result, ok, err, ◌>>=◌, ◌>>◌, throw_if, String,
}
use libbutl.Number.{char_at, rest_of}
use libbutl.StandardVersion.{
  StandardVersion, Flags, no_flags, default_version, empty, stub, snapshot, earliest,
  latest_snapshot, release, final, pre_release, major, minor, patch,
}
use libbutl.StandardVersion.Parser.{parse_version, of_components, of_snapshot_components}
use libbutl.StandardVersion.Constraint.{
  Constraint, Shortcut, tilde, caret, is_tilde, shortcut_max_version, make,
}

abbrev pub is_blank : ℕ → Bool
is_blank c = c == b' ' || c == b'\t'

abbrev pub is_bracket : ℕ → Bool
is_bracket c = c == b']' || c == b')'

-- `find_first_not_of (" \t", p)`; `npos` is the end of the string.
unfoldable pub skip_blanks : Bytes → Bytes
skip_blanks [] = []
skip_blanks (c ∷ s) = let more = skip_blanks s in if is_blank c then more else c ∷ s

-- `find_first_of`: the string up to the first character of the set, and from there on.
unfoldable pub break_at : (ℕ → Bool) → Bytes → Bytes × Bytes
break_at stop [] = ([], [])
break_at stop (c ∷ s) = let (t, r) = break_at stop s in if stop c then ([], c ∷ s) else (c ∷ t, r)

-- `catch (const invalid_argument& e) {bail (prefix + e.what ())}`.
unfoldable pub rethrow {ℓ} : {A : Type ℓ} → String → Result A → Result A
rethrow prefix (ok a) = ok a
rethrow prefix (err w) = err (String.◌++◌ prefix w)

-- The dependent version that a constraint may refer to, without its revision.
unfoldable pub dependent_version : StandardVersion → Result StandardVersion
dependent_version v = do
  throw_if (latest_snapshot v) "dependent version is latest snapshot"
  throw_if (stub v) "dependent version is stub"
  ok (record v { revision = 0 })

-- A version, or `$` for the dependent version.
unfoldable pub endpoint : Option StandardVersion → Flags → Bytes → Result StandardVersion
endpoint none f t = parse_version f t
endpoint (some v) f t = if bytes_eq t (codes "$") then dependent_version v else parse_version f t

abbrev pub earliest_allowed : Flags
earliest_allowed = record { allow_earliest = true; allow_stub = false }

-- The maximum version and the closing bracket.
unfoldable pub parse_range_end :
    Option StandardVersion → StandardVersion → Bool → Bytes → Result Constraint
parse_range_end v mn min_open s = do
  throw_if (is_empty s) "no max version"
  mx ←
      rethrow "invalid max version: "
        (endpoint v earliest_allowed (break_at (λ c. is_blank c || is_bracket c) s).0)
  let closing = (break_at is_bracket (break_at (λ c. is_blank c || is_bracket c) s).1).1
  throw_if (is_empty closing) "no closing bracket"
  throw_if (not (is_empty (rest_of closing))) "junk after constraint"
  make (some mn) min_open (some mx) (char_at closing == b')')

-- `(<min> <max>)` and the other kinds of brackets, behind the opening one.
unfoldable pub parse_range : Option StandardVersion → Bool → Bytes → Result Constraint
parse_range v min_open s = do
  throw_if (is_empty (skip_blanks s)) "no min version"
  mn ←
      rethrow "invalid min version: "
        (endpoint v earliest_allowed (break_at is_blank (skip_blanks s)).0)
  parse_range_end v mn min_open (skip_blanks (break_at is_blank (skip_blanks s)).1)

-- The minor version from which the range for a dependent version starts.
unfoldable pub start_minor : Shortcut → StandardVersion → ℕ
start_minor c dv = if not (is_tilde c) && not (major dv == 0) then 0 else minor dv

-- The endpoints for `~$` and `^$`; the maximum is empty where the operator's is to be taken.
unfoldable pub dependent_range :
    Shortcut → StandardVersion → Result (StandardVersion × StandardVersion)
dependent_range c dv =
    if release dv
    then (do
      mn ← of_components dv.epoch (major dv) (start_minor c dv) 0 0 0
      ok (mn, default_version))
    else if final dv || (snapshot dv && not (patch dv == 0))
    then (do
      mn ←
          of_components dv.epoch (major dv) (start_minor c dv) 0
            (if not (patch dv == 0) || (not (is_tilde c) && not (minor dv == 0)) then 0 else 1) 0
      ok (mn, default_version))
    else elim (pre_release dv) [
      | none ↦ err "assertion"
      | some pr ↦ do
        mn ← of_snapshot_components dv.epoch (major dv) (minor dv) 0 pr 1 [] 0
        mx ← of_components dv.epoch (major dv) (minor dv) 0 (pr + 1) 0
        ok (mn, mx)
    ]

-- The versions that a shortcut starts from: a literal one, or those of the dependent version.
unfoldable pub shortcut_start :
    Option StandardVersion → Shortcut → Bytes → Result (StandardVersion × StandardVersion)
shortcut_start none c t = parse_version earliest_allowed t >>= λ mn. ok (mn, default_version)
shortcut_start (some v) c t =
    if bytes_eq t (codes "$")
    then (dependent_version v >>= λ dv. dependent_range c dv)
    else (parse_version earliest_allowed t >>= λ mn. ok (mn, default_version))

-- Both endpoints of a shortcut.
unfoldable pub shortcut_endpoints :
    Option StandardVersion → Shortcut → Bytes → Result (StandardVersion × StandardVersion)
shortcut_endpoints v c t = do
  r ← shortcut_start v c t
  if empty r.1 then (shortcut_max_version c r.0 false >>= λ mx. ok (r.0, mx)) else ok (r.0, r.1)

-- `~<version>` and `^<version>`, behind the operator. The constructor does not throw here, as an
-- assertion has it.
unfoldable pub parse_shortcut : Option StandardVersion → Shortcut → Bytes → Result Constraint
parse_shortcut v c s = do
  throw_if (is_empty (skip_blanks s)) "no version"
  r ← rethrow "invalid version: " (shortcut_endpoints v c (skip_blanks s))
  make (some r.0) false (some r.1) true

pub data Comparison : Type 0 where
  eq lt gt le ge : Comparison

-- The operator at the front, and what follows it.
unfoldable pub parse_operation : Bytes → Result (Comparison × Bytes)
parse_operation s =
    let c = char_at s in
    let d = char_at (rest_of s) in
    if c == b'=' && d == b'='
    then ok (eq, rest_of (rest_of s))
    else if c == b'>' && d == b'='
    then ok (ge, rest_of (rest_of s))
    else if c == b'<' && d == b'='
    then ok (le, rest_of (rest_of s))
    else if c == b'>'
    then ok (gt, rest_of s)
    else if c == b'<'
    then ok (lt, rest_of s)
    else err "invalid constraint"

-- The versions that an operator takes.
abbrev pub operation_flags : Comparison → Flags
operation_flags eq = no_flags
operation_flags _ = earliest_allowed

unfoldable pub make_operation : Comparison → StandardVersion → Result Constraint
make_operation eq v = make (some v) false (some v) false
make_operation lt v = make none true (some v) true
make_operation le v = make none true (some v) false
make_operation gt v = make (some v) true none true
make_operation ge v = make (some v) false none true

unfoldable pub parse_comparison : Option StandardVersion → Bytes → Result Constraint
parse_comparison v s = do
  r ← parse_operation s
  throw_if (is_empty (skip_blanks r.1)) "no version"
  cv ← rethrow "invalid version: " (endpoint v (operation_flags r.0) (skip_blanks r.1))
  make_operation r.0 cv

-- The dependent version is neither empty nor earliest.
unfoldable pub check_dependent : Option StandardVersion → Result (Unit {0})
check_dependent none = ok tt
check_dependent (some v) = do
  throw_if (empty v) "dependent version is empty"
  throw_if (earliest v) "dependent version is earliest"

unfoldable pub parse_constraint : Option StandardVersion → Bytes → Result Constraint
parse_constraint v s = do
  check_dependent v
  if char_at s == b'(' || char_at s == b'['
      then parse_range v (char_at s == b'(') (rest_of s)
      else if char_at s == b'~'
      then parse_shortcut v tilde (rest_of s)
      else if char_at s == b'^'
      then parse_shortcut v caret (rest_of s)
      else parse_comparison v s
