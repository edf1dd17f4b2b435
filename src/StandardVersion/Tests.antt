-- ===== src/StandardVersion/Tests.antt =====
-- Runs of libbutl/standard-version.cxx, after tests/standard-version, and the theorems at concrete
-- inputs.
use libbutl.Prelude.{
  ◌+◌, ◌-◌, ◌*◌, ◌≡◌, ◌≤◌, ◌%◌, ◌↔◌, ◌⊎◌, inl, inr, refl, arith, codes, some, [], true, false, ok,
  err,
}
use libbutl.Number.{
  u64_max, parse_uint64, parse_uint, parse_uint16, parse_uint32, to_string, strtoull,
  strtoull_signed, strtoull_digits, scan, skip_space,
}
use libbutl.StandardVersion.{
  StandardVersion, Flags, no_flags, major, minor, patch, release_digits, stub, snapshot, earliest,
  compare, check_version, empty, earliest, alpha, beta, pre_release, release,
}
use libbutl.StandardVersion.Parser.{
  parse_version, parse_epoch, parse_components, parse_minor_patch, parse_optional_pre_release,
  parse_pre_release, parse_pre_release_end, parse_snapshot, parse_snapshot_id, take_alnum,
  parse_end, parse_revision, adjust, of_members, of_version, of_epoch_version,
  of_snapshot_components,
}
use libbutl.StandardVersion.Printer.{
  print, string_project, string_version, string_snapshot, string_pre_release,
}
use libbutl.StandardVersion.Fields.{release_number}
use libbutl.StandardVersion.Pieces.{snapshot_pre, released, form_of, FormHolds}
use libbutl.StandardVersion.Text.{IsSpelled, IsStub}
use libbutl.StandardVersion.RoundTrip.{parse_version-print}
use libbutl.StandardVersion.Sound.{parse_version-IsSpelled, parse_version-print-parse_version}
use libbutl.StandardVersion.Check.{
  Invariants, made-Invariants, check_version-parse_version, of_members_stub,
}
use libbutl.StandardVersion.Components.{of_snapshot_components_zero}
use libbutl.StandardVersion.Constraint.{
  tilde, shortcut_max_version, next_number, satisfies, is_less,
}
use libbutl.StandardVersion.Constraint.Satisfies.{SameSeries, shortcut-satisfies}

abbrev all_forms : Flags
all_forms = record { allow_earliest = true; allow_stub = true }

-- 2.2.0-a.1.42.abc+3
abbrev snapshot_42 : StandardVersion
snapshot_42 = record {
  epoch = 1;
  version = 200001999990011;
  snapshot_sn = 42;
  snapshot_id = codes "abc";
  revision = 3;
}

-- 2.2.5
abbrev later : StandardVersion
later = record {
  epoch = 1;
  version = 200002000050000;
  snapshot_sn = 0;
  snapshot_id = [];
  revision = 0;
}

-- 2.2.7
abbrev latest : StandardVersion
latest = record {
  epoch = 1;
  version = 200002000070000;
  snapshot_sn = 0;
  snapshot_id = [];
  revision = 0;
}

-- 2.3.0-
abbrev end_of_series : StandardVersion
end_of_series = record {
  epoch = 1;
  version = 200002999990001;
  snapshot_sn = 0;
  snapshot_id = [];
  revision = 0;
}

parse_42 : parse_version all_forms (codes "2.2.0-a.1.42.abc+3") ≡ ok snapshot_42
unfolding parse_version parse_epoch parse_components parse_minor_patch parse_optional_pre_release
    parse_pre_release parse_pre_release_end parse_snapshot parse_snapshot_id take_alnum parse_end
    parse_revision adjust parse_uint64 parse_uint parse_uint16 parse_uint32 strtoull strtoull_signed
    strtoull_digits scan skip_space
parse_42 = refl

print_42 : print snapshot_42 ≡ codes "2.2.0-a.1.42.abc+3"
unfolding print string_project string_version string_snapshot string_pre_release empty stub snapshot
    earliest alpha beta pre_release release major minor patch release_digits to_string
print_42 = refl

bad_pre_release : parse_version all_forms (codes "1.2.3-b.0") ≡ err "invalid final pre-release"
unfolding parse_version parse_epoch parse_components parse_minor_patch parse_optional_pre_release
    parse_pre_release parse_pre_release_end parse_snapshot parse_snapshot_id take_alnum parse_end
    parse_revision adjust parse_uint64 parse_uint parse_uint16 parse_uint32 strtoull strtoull_signed
    strtoull_digits scan skip_space
bad_pre_release = refl

abbrev spelled_42 : IsSpelled all_forms snapshot_42
unfolding adjust form_of FormHolds
spelled_42 = record {
  ma = 2;
  mi = 2;
  pa = 0;
  form = snapshot_pre 1 42 (codes "abc");
  places = omega arith;
  form_holds = (
    omega arith,
    record {
      positive = omega arith;
      sn_le = omega arith;
      id_ok = record { all_alnum = (refl, (refl, (refl, tt))); short = omega arith };
      no_id = λ e. absurd (omega arith);
    },
  );
  version_is = refl;
  sn_is = refl;
  id_is = refl;
  epoch_ge = omega arith;
  epoch_le = omega arith;
  revision_le = omega arith;
}

abbrev spelled_later : IsSpelled all_forms later
unfolding adjust form_of FormHolds
spelled_later = record {
  ma = 2;
  mi = 2;
  pa = 5;
  form = released;
  places = omega arith;
  form_holds = tt;
  version_is = refl;
  sn_is = refl;
  id_is = refl;
  epoch_ge = omega arith;
  epoch_le = omega arith;
  revision_le = omega arith;
}

abbrev spelled_latest : IsSpelled all_forms latest
unfolding adjust form_of FormHolds
spelled_latest = record {
  ma = 2;
  mi = 2;
  pa = 7;
  form = released;
  places = omega arith;
  form_holds = tt;
  version_is = refl;
  sn_is = refl;
  id_is = refl;
  epoch_ge = omega arith;
  epoch_le = omega arith;
  revision_le = omega arith;
}

end_is : shortcut_max_version tilde later false ≡ ok end_of_series
unfolding shortcut_max_version next_number major minor release_digits of_epoch_version of_version
    check_version stub
end_is = refl

no_stub_42 : stub snapshot_42 ≡ false
unfolding stub
no_stub_42 = refl

parse_version-print_example : parse_version all_forms (print snapshot_42) ≡ ok snapshot_42
parse_version-print_example = parse_version-print all_forms snapshot_42 (inl spelled_42)

parse_version-IsSpelled_example : IsSpelled all_forms snapshot_42 ⊎ IsStub all_forms snapshot_42
parse_version-IsSpelled_example =
    parse_version-IsSpelled all_forms (codes "2.2.0-a.1.42.abc+3") snapshot_42 parse_42

parse_version-print-parse_version_example :
    parse_version all_forms (print snapshot_42) ≡ ok snapshot_42
parse_version-print-parse_version_example =
    parse_version-print-parse_version all_forms (codes "2.2.0-a.1.42.abc+3") snapshot_42 parse_42

check_version-parse_version_example :
    (check_version 200001999990011 (snapshot snapshot_42) all_forms ≡ ok tt)
    ↔ (10000 ≤ 200001999990011)
check_version-parse_version_example =
    check_version-parse_version all_forms (codes "2.2.0-a.1.42.abc+3") snapshot_42 parse_42
      no_stub_42

-- 2.2.0-a.1.42.abc, with no revision.
abbrev made_42 : StandardVersion
made_42 = record snapshot_42 { revision = 0 }

of_version_42 : of_version 200001999990011 (codes "42.abc") no_flags ≡ ok made_42
unfolding of_version check_version parse_snapshot parse_snapshot_id take_alnum parse_uint64 strtoull
    strtoull_signed strtoull_digits scan skip_space
of_version_42 = refl

no_stub_made : stub made_42 ≡ false
unfolding stub
no_stub_made = refl

of_members_stub_example : of_members 0 u64_max 0 [] 2 all_forms ≡ err "invalid standard version"
of_members_stub_example = of_members_stub 0 0 2 [] all_forms

of_snapshot_components_zero_example :
    (x : StandardVersion) × (of_snapshot_components 1 2 2 0 1 0 [] 0 ≡ ok x)
    × (snapshot x ≡ false)
    × (x.version ≡ release_number 2 2 0 + 1 * 10 + 1 - 10000)
    × (x.version % 10 ≡ 1)
    × (earliest x ≡ false)
of_snapshot_components_zero_example =
    of_snapshot_components_zero 1 2 2 0 1 0 (omega arith) (omega arith) (omega arith) (omega arith)
      (omega arith)

shortcut-satisfies_example :
    (satisfies
        (record {
          min_version = some later;
          min_open = false;
          max_version = some end_of_series;
          max_open = true;
        })
        latest
      ≡ true)
    ↔ ((latest.epoch ≡ later.epoch)
        × SameSeries tilde later latest
        × (is_less (compare latest later false) ≡ false))
shortcut-satisfies_example =
    shortcut-satisfies tilde all_forms all_forms later latest end_of_series spelled_later
      spelled_latest end_is

made-Invariants_example : Invariants no_flags made_42
made-Invariants_example =
    made-Invariants no_flags 200001999990011 (codes "42.abc") made_42 (inr of_version_42)
      no_stub_made
