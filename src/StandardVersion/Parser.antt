-- ===== src/StandardVersion/Parser.antt =====
-- The parser of libbutl/standard-version.cxx, `parse_snapshot` and `parse_version`, and the
-- constructors that check their arguments.
use libbutl.Prelude.{
  ℕ, ◌+◌, ◌-◌, ◌*◌, ◌%◌, ◌^◌, Bool, true, false, not, ◌&&◌, ◌||◌, none, some, [], ◌∷◌, Bytes,
  is_empty, length, ltb, leb, ◌==◌, if◌then◌else◌, Result, ok, err, ◌>>=◌, ◌>>◌, throw_if,
}
use libbutl.Number.{u64_max, is_digit, char_at, rest_of, parse_uint64, parse_uint16, parse_uint32}
use libbutl.StandardVersion.{StandardVersion, Flags, latest_sn, check_version, stub}

-- `alnum`, in the C locale.
abbrev pub alnum : ℕ → Bool
alnum c = is_digit c || (leb b'a' c && leb c b'z') || (leb b'A' c && leb c b'Z')

-- The loop that collects the snapshot id.
unfoldable pub take_alnum : Bytes → Bytes × Bytes
take_alnum [] = ([], [])
take_alnum (c ∷ s) = let (id, e) = take_alnum s in if alnum c then (c ∷ id, e) else ([], c ∷ s)

unfoldable pub parse_snapshot_id : Bytes → Result (Bytes × Bytes)
parse_snapshot_id s =
    if char_at s == b'.'
    then (let (id, e) = take_alnum (rest_of s) in
        if is_empty id || ltb 16 (length id) then err "invalid snapshot id" else ok (id, e))
    else ok ([], s)

-- The snapshot number and id, and the new position.
unfoldable pub parse_snapshot : Bytes → Result (ℕ × Bytes × Bytes)
parse_snapshot s =
    if char_at s == b'z'
    then ok (latest_sn, [], rest_of s)
    else elim (parse_uint64 1 (latest_sn - 1) s) [
      | none ↦ err "invalid snapshot number"
      | some (sn, e) ↦ parse_snapshot_id e >>= λ r. ok (sn, r.0, r.1)
    ]

-- The epoch, and whether there is one.
unfoldable pub parse_epoch : Bytes → Result (ℕ × Bool × Bytes)
parse_epoch s =
    if char_at s == b'+'
    then elim (parse_uint16 1 65535 (rest_of s)) [
      | none ↦ err "invalid epoch"
      | some (epoch, e) ↦
          if char_at e == b'-' then ok (epoch, true, rest_of e) else err "'-' expected after epoch"
    ]
    else ok (1, false, s)

-- `.<minor>.<patch>` behind the major version: the version number AAAAABBBBBCCCCC0000.
unfoldable pub parse_minor_patch : ℕ → Bytes → Result (ℕ × Bytes)
parse_minor_patch ma s =
    if not (char_at s == b'.')
    then err "'.' expected after major version"
    else elim (parse_uint32 (rest_of s)) [
      | none ↦ err "invalid minor version"
      | some (mi, e) ↦
          if not (char_at e == b'.')
          then err "'.' expected after minor version"
          else elim (parse_uint32 (rest_of e)) [
            | none ↦ err "invalid patch version"
            | some (bf, e') ↦
                let version = ma * 100000000000000 + mi * 1000000000 + bf * 10000 in
                if version == 0 then err "0.0.0 version" else ok (version, e')
          ]
    ]

-- What the pre-release component sets.
pub record PreRelease : Type 0 where
  pub ab : ℕ
  pub earliest : Bool
  pub snapshot_sn : ℕ
  pub snapshot_id : Bytes

abbrev pub no_pre_release : PreRelease
no_pre_release = record { ab = 0; earliest = false; snapshot_sn = 0; snapshot_id = [] }

-- The snapshot components behind the pre-release number, if present.
unfoldable pub parse_pre_release_end : ℕ → Bytes → Result (PreRelease × Bytes)
parse_pre_release_end ab s =
    if char_at s == b'.'
    then (do
      r ← parse_snapshot (rest_of s)
      ok (record { ab = ab; earliest = false; snapshot_sn = r.0; snapshot_id = r.1 }, r.2))
    else if ab == 0 || ab == 500
    then err "invalid final pre-release"
    else ok (record no_pre_release { ab = ab }, s)

-- Behind the dash.
unfoldable pub parse_pre_release : Flags → Bytes → Result (PreRelease × Bytes)
parse_pre_release f s =
    let k = char_at s in
    if k == 0 && f.allow_earliest
    then ok (record { ab = 0; earliest = true; snapshot_sn = 0; snapshot_id = [] }, s)
    else if not (k == b'a') && not (k == b'b')
    then err "'a' or 'b' expected in pre-release"
    else if not (char_at (rest_of s) == b'.')
    then err "'.' expected after pre-release letter"
    else elim (parse_uint16 0 499 (rest_of (rest_of s))) [
      | none ↦ err "invalid pre-release"
      | some (ab, e) ↦ parse_pre_release_end (if k == b'b' then ab + 500 else ab) e
    ]

unfoldable pub parse_optional_pre_release : Flags → Bytes → Result (PreRelease × Bytes)
parse_optional_pre_release f s =
    if char_at s == b'-' then parse_pre_release f (rest_of s) else ok (no_pre_release, s)

unfoldable pub parse_revision : Bytes → Result (ℕ × Bytes)
parse_revision s =
    if char_at s == b'+'
    then elim (parse_uint16 1 65535 (rest_of s)) [
      | none ↦ err "invalid revision"
      | some (revision, e) ↦ ok (revision, e)
    ]
    else ok (0, s)

-- The adjustments of the version number at the end: 1 is subtracted from AAAAABBBBBCCCCC for a
-- pre-release, and E is set for a snapshot and for the earliest version.
unfoldable pub adjust : ℕ → PreRelease → ℕ
adjust version p =
    let lower =
      if not (p.ab == 0) || not (p.snapshot_sn == 0) || p.earliest
      then version - (10000 - p.ab * 10)
      else version in
    if not (p.snapshot_sn == 0) || p.earliest then lower + 1 else lower

-- The revision and the end of the string, behind the other components.
unfoldable pub parse_end : ℕ → ℕ → PreRelease → Bytes → Result StandardVersion
parse_end epoch version p s = do
  r ← parse_revision s
  throw_if (not (is_empty r.1)) "junk after version"
  ok (record {
    epoch = epoch;
    version = adjust version p;
    snapshot_sn = p.snapshot_sn;
    snapshot_id = p.snapshot_id;
    revision = r.0;
  })

-- Behind the epoch.
unfoldable pub parse_components : Flags → ℕ → Bool → Bytes → Result StandardVersion
parse_components f epoch ep s = elim (parse_uint32 s) [
  | none ↦ err "invalid major version"
  | some (ma, e) ↦
      if f.allow_stub && not ep && ma == 0 && (is_empty e || char_at e == b'+')
      then parse_end 0 u64_max no_pre_release e
      else (do
        v ← parse_minor_patch ma e
        p ← parse_optional_pre_release f v.1
        parse_end epoch v.0 p.0 p.1)
]

-- `parse_version`: the version, or the failure reason, which is the message that the constructor
-- from a string throws.
unfoldable pub parse_version : Flags → Bytes → Result StandardVersion
parse_version f s = do r ← parse_epoch s; parse_components f r.0 r.1 r.2

-- The constructor from a version number and a snapshot text.
unfoldable pub of_version : ℕ → Bytes → Flags → Result StandardVersion
of_version v s f = do
  check_version v (not (is_empty s)) f
  if is_empty s
      then ok (record { epoch = 1; version = v; snapshot_sn = 0; snapshot_id = []; revision = 0 })
      else (do
        r ← parse_snapshot s
        throw_if (not (is_empty r.2)) "junk after snapshot"
        ok (record { epoch = 1; version = v; snapshot_sn = r.0; snapshot_id = r.1; revision = 0 }))

-- The same with an epoch and a revision.
unfoldable pub of_epoch_version : ℕ → ℕ → Bytes → ℕ → Flags → Result StandardVersion
of_epoch_version e v s r f = do
  x ← of_version v s f
  throw_if (stub x && not (e == 0)) "epoch for stub"
  ok (record x { epoch = e; revision = r })

-- The constructor from all the members.
unfoldable pub of_members : ℕ → ℕ → ℕ → Bytes → ℕ → Flags → Result StandardVersion
of_members ep vr sn si rv fl = do
  let x : StandardVersion = record {
    epoch = ep;
    version = vr;
    snapshot_sn = sn;
    snapshot_id = si;
    revision = rv;
  }
  check_version vr true fl
  throw_if (stub x && not (ep == 0)) "epoch for stub"
  throw_if (stub x && not (sn == 0)) "snapshot for stub"
  throw_if (not (is_empty si) && (ltb 16 (length si) || sn == 0 || sn == latest_sn))
      "invalid snapshot"
  ok x

-- The constructors from the components, in 64-bit arithmetic.
unfoldable pub of_components : ℕ → ℕ → ℕ → ℕ → ℕ → ℕ → Result StandardVersion
of_components ep mj mi pa pr rv =
    of_epoch_version ep
      ((mj * 100000000000000
          + mi * 1000000000
          + pa * 10000
          + pr * 10
          + 2 ^ 64
          - (if not (pr == 0) then 10000 else 0))
        % 2 ^ 64)
      [] rv (record { allow_earliest = false; allow_stub = false })

unfoldable pub of_snapshot_components : ℕ → ℕ → ℕ → ℕ → ℕ → ℕ → Bytes → ℕ → Result StandardVersion
of_snapshot_components ep mj mi pa pr sn si rv =
    of_members ep
      ((mj * 100000000000000 + mi * 1000000000 + pa * 10000 + pr * 10 + 1 + 2 ^ 64 - 10000)
        % 2 ^ 64)
      sn si rv (record { allow_earliest = false; allow_stub = false })

unfoldable pub of_earliest_components : ℕ → ℕ → ℕ → ℕ → Result StandardVersion
of_earliest_components ep mj mi pa =
    of_epoch_version ep
      ((mj * 100000000000000 + mi * 1000000000 + pa * 10000 + 1 + 2 ^ 64 - 10000) % 2 ^ 64) [] 0
      (record { allow_earliest = true; allow_stub = false })
