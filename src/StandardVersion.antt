-- ===== src/StandardVersion.antt =====
-- libbutl/standard-version.hxx, .ixx and .cxx: the version record with its accessors, the check of
-- the numeric form, and the comparison. The children hold the parser, the printer, the constructors
-- and the version constraints.
pub mod Parser
pub mod Printer
pub mod Fields
pub mod Check
pub mod Components
pub mod Order
pub mod Pieces
pub mod Text
pub mod RoundTrip
pub mod Accepted
pub mod Sound
pub mod Constraint
mod Tests
use libbutl.Prelude.{
  ℕ, ◌+◌, ◌-◌, ◌/◌, ◌%◌, Bool, true, false, not, ◌&&◌, ◌||◌, Option, none, some, [], Bytes, ltb,
  leb, ◌==◌, if◌then◌else◌, Result, ok, err, throw_if, Sign, equal, sign_of,
}
use libbutl.Number.{u64_max}

pub record StandardVersion : Type 0 where
  pub epoch : ℕ
  pub version : ℕ
  pub snapshot_sn : ℕ
  pub snapshot_id : Bytes
  pub revision : ℕ

-- The bits of `standard_version::flags`.
pub record Flags : Type 0 where
  pub allow_earliest : Bool
  pub allow_stub : Bool

abbrev pub no_flags : Flags
no_flags = record { allow_earliest = false; allow_stub = false }

abbrev pub latest_sn : ℕ
latest_sn = u64_max

-- The default constructor.
abbrev pub default_version : StandardVersion
default_version = record { epoch = 1; version = 0; snapshot_sn = 0; snapshot_id = []; revision = 0 }

unfoldable pub empty : StandardVersion → Bool
empty v = v.version == 0

unfoldable pub stub : StandardVersion → Bool
stub v = v.version == u64_max

unfoldable pub snapshot : StandardVersion → Bool
snapshot v = not (v.snapshot_sn == 0)

-- AAAAABBBBBCCCCCDDD with one added back to AAAAABBBBBCCCCC and no DDD, for a pre-release.
unfoldable pub release_digits : ℕ → ℕ
release_digits version =
    let e = version % 10 in
    let v = version / 10 in
    let ab = v % 1000 in if not (ab == 0) || e == 1 then v + (1000 - ab) else v

unfoldable pub major : StandardVersion → ℕ
major v = release_digits v.version / 10000000000000 % 100000

unfoldable pub minor : StandardVersion → ℕ
minor v = release_digits v.version / 100000000 % 100000

unfoldable pub patch : StandardVersion → ℕ
patch v = release_digits v.version / 1000 % 100000

unfoldable pub release : StandardVersion → Bool
release v = v.version % 10000 == 0

unfoldable pub pre_release : StandardVersion → Option ℕ
pre_release v = if release v || stub v then none else some (v.version / 10 % 1000)

unfoldable pub alpha : StandardVersion → Option ℕ
alpha v = elim (pre_release v) [ none ↦ none | some pr ↦ if ltb pr 500 then some pr else none ]

unfoldable pub beta : StandardVersion → Option ℕ
beta v = elim (pre_release v) [
  | none ↦ none
  | some pr ↦ if leb 500 pr then some (pr - 500) else none
]

unfoldable pub final : StandardVersion → Bool
final v = release v || not (snapshot v || stub v)

unfoldable pub earliest : StandardVersion → Bool
earliest v = v.version % 10000 == 1 && not (snapshot v) && not (stub v)

unfoldable pub latest_snapshot : StandardVersion → Bool
latest_snapshot v = snapshot v && v.snapshot_sn == latest_sn

-- `compare (v, ignore_revision)`.
unfoldable pub compare : StandardVersion → StandardVersion → Bool → Sign
compare x y ignore_revision = sign_of x.epoch y.epoch (
    sign_of x.version y.version (
      sign_of x.snapshot_sn y.snapshot_sn
        (if not ignore_revision then sign_of x.revision y.revision equal else equal)))

-- The condition that `check_version` computes: whether the number is the stub's, or small enough
-- and consistent with the snapshot flag.
unfoldable pub version_holds : ℕ → Bool → Flags → Bool
version_holds vr sn fl =
    if vr == u64_max && fl.allow_stub
    then not sn
    else (let e = vr % 10 in
        let ab = vr / 10 % 1000 in
        ltb vr 10000000000000000000
        && (if not fl.allow_earliest
            then e == (if sn then 1 else 0)
            else e == 1 || (e == 0 && not sn))
        && (if not (ab == 0) then not (ab == 500) || sn else true)
        && not (vr / 10000 == 0))

unfoldable pub check_version : ℕ → Bool → Flags → Result (Unit {0})
unfolding version_holds
check_version vr sn fl = throw_if (not (version_holds vr sn fl)) "invalid standard version"
