-- ===== src/StandardVersion/Components.antt =====
-- The constructor of libbutl/standard-version.ixx from the components of a snapshot.
use libbutl.Prelude.{
  ℕ, ◌+◌, ◌-◌, ◌*◌, ◌%◌, ◌^◌, ◌≤◌, true, false, not, ◌&&◌, [], ◌≡◌, refl, arith, ◌==◌, ok,
}
use libbutl.Number.{u64_max}
use libbutl.StandardVersion.{
  StandardVersion, stub, snapshot, earliest, version_holds, check_version,
}
use libbutl.StandardVersion.Parser.{of_members, of_snapshot_components}
use libbutl.StandardVersion.Fields.{release_number}

wrap_lem :
    (mj mi pa pr : ℕ)
    → mj ≤ 99999
    → mi ≤ 99999
    → pa ≤ 99999
    → pr ≤ 999
    → 20000 ≤ release_number mj mi pa
    → (mj * 100000000000000 + mi * 1000000000 + pa * 10000 + pr * 10 + 1 + 2 ^ 64 - 10000) % 2 ^ 64
      ≡ release_number mj mi pa + pr * 10 + 1 - 10000
wrap_lem mj mi pa pr h1 h2 h3 h4 h5 = omega arith

earliest_lem :
    (mj mi pa pr : ℕ)
    → mj ≤ 99999
    → mi ≤ 99999
    → pa ≤ 99999
    → pr ≤ 999
    → 20000 ≤ release_number mj mi pa
    → (((release_number mj mi pa + pr * 10 + 1 - 10000) % 10000 == 1 && true)
        && not (release_number mj mi pa + pr * 10 + 1 - 10000 == u64_max))
      ≡ (pr == 0)
earliest_lem mj mi pa pr h1 h2 h3 h4 h5 = ground arith

-- The constructor from the components of a snapshot takes the snapshot number 0, which means no
-- snapshot, for components in their ranges and a release above 0.0.1. It makes a version that is no
-- snapshot, with the number of the pre-release and the digit E of a snapshot, so that the first
-- invariant fails; that version is `earliest` exactly if the pre-release number is 0.
pub of_snapshot_components_zero :
    (ep mj mi pa pr rv : ℕ)
    → mj ≤ 99999
    → mi ≤ 99999
    → pa ≤ 99999
    → pr ≤ 999
    → 20000 ≤ release_number mj mi pa
    → (x : StandardVersion) × (of_snapshot_components ep mj mi pa pr 0 [] rv ≡ ok x)
      × (snapshot x ≡ false)
      × (x.version ≡ release_number mj mi pa + pr * 10 + 1 - 10000)
      × (x.version % 10 ≡ 1)
      × (earliest x ≡ (pr == 0))
unfolding of_snapshot_components of_members check_version version_holds stub snapshot earliest
of_snapshot_components_zero ep mj mi pa pr rv h1 h2 h3 h4 h5 = (
  record {
    epoch = ep;
    version = release_number mj mi pa + pr * 10 + 1 - 10000;
    snapshot_sn = 0;
    snapshot_id = [];
    revision = rv;
  },
  rw (wrap_lem mj mi pa pr h1 h2 h3 h4 h5) (ground arith),
  refl,
  refl,
  omega arith,
  earliest_lem mj mi pa pr h1 h2 h3 h4 h5,
)
