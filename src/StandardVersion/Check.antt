-- ===== src/StandardVersion/Check.antt =====
-- The invariants that libbutl/standard-version.hxx states for a version, against the parser, the
-- check of the numeric form and the constructors.
use libbutl.Prelude.{
  ℕ, ◌%◌, ◌≤◌, Bool, true, false, not, ◌&&◌, ◌||◌, [], ◌≡◌, ◌⊎◌, ◌≢◌, ◌↔◌, refl, sym, ◌∙◌, arith,
  Bytes, is_empty, leb, ◌==◌, if◌then◌else◌, Bool-cases, inl, inr, Result, ok, err, ◌>>=◌, throw_if,
}
use libbutl.Number.{u64_max}
use libbutl.StandardVersion.{
  StandardVersion, Flags, latest_sn, stub, snapshot, version_holds, check_version,
}
use libbutl.StandardVersion.Parser.{parse_snapshot, parse_version, of_version, of_members, adjust}
use libbutl.StandardVersion.Fields.{release_number, Places}
use libbutl.StandardVersion.Pieces.{
  IsSnapshot, Form, released, at_earliest, final_pre, snapshot_pre, form_of, FormHolds,
}
use libbutl.StandardVersion.Accepted.{parse_snapshot_sound}
use libbutl.StandardVersion.Sound.{parse_version-IsSpelled}

-- Invariants 1 to 3 of the header, for a version that is not a stub: E against the snapshot number,
-- a number other than zero, and an id only with a number other than that of `z`.
pub record Invariants (f : Flags) (v : StandardVersion) : Type 0 where
  pub final_digit :
      (if f.allow_earliest
        then (v.version % 10 == 1) || (v.snapshot_sn == 0)
        else (if v.snapshot_sn == 0 then v.version % 10 == 0 else not (v.version % 10 == 0)))
      ≡ true
  pub nonzero : v.version ≢ 0
  pub id_needs_number :
      ((not (v.snapshot_sn == latest_sn) && not (v.snapshot_sn == 0)) || is_empty v.snapshot_id)
      ≡ true

module _ (f : Flags) (v : StandardVersion) (ma mi pa : ℕ) (rest : Bytes) where
  Invariants-form :
      (x : Form)
      → Places ma mi pa (form_of x)
      → FormHolds f x rest
      → v.version ≡ adjust (release_number ma mi pa) (form_of x)
      → v.snapshot_sn ≡ (form_of x).snapshot_sn
      → v.snapshot_id ≡ (form_of x).snapshot_id
      → Invariants f v
  unfolding form_of FormHolds adjust
  Invariants-form released p h e sn id = ground arith
  Invariants-form at_earliest p h e sn id = ground arith
  Invariants-form (final_pre ab) p h e sn id = ground arith
  Invariants-form (snapshot_pre ab k i) p (h, s) e sn id = elim (Bool-cases (k == latest_sn)) [
    | inl z ↦
        let pos = s.positive in
        let is_nil : v.snapshot_id ≡ [] = id ∙ s.no_id (ground arith) in ground arith
    | inr z ↦ let pos = s.positive in ground arith
  ]

  -- The check of the numeric form, for the number of a parsed version.
  version_holds_form :
      (x : Form)
      → Places ma mi pa (form_of x)
      → FormHolds f x rest
      → v.version ≡ adjust (release_number ma mi pa) (form_of x)
      → v.snapshot_sn ≡ (form_of x).snapshot_sn
      → version_holds v.version (snapshot v) f ≡ leb 10000 v.version
  unfolding form_of FormHolds adjust version_holds snapshot
  version_holds_form released p h e sn = rw (e, sn) (ground arith)
  version_holds_form at_earliest p h e sn = rw (e, sn) (ground arith)
  version_holds_form (final_pre ab) p h e sn = rw (e, sn) (ground arith)
  version_holds_form (snapshot_pre ab k i) p (h, s) e sn =
      let pos = s.positive in rw (e, sn) (ground arith)

-- Every version that is parsed and is no stub satisfies the invariants.
pub parse_version-Invariants :
    (f : Flags) (s : Bytes) (v : StandardVersion)
    → parse_version f s ≡ ok v
    → stub v ≡ false
    → Invariants f v
unfolding stub
parse_version-Invariants f s v h n = elim (parse_version-IsSpelled f s v h) [
  | inl x ↦
      Invariants-form f v x.ma x.mi x.pa _ x.form x.places x.form_holds x.version_is x.sn_is x.id_is
  | inr x ↦ absurd (let e = x.version_is in ground arith)
]

-- The check of the numeric form takes the number of a parsed version, other than a stub, exactly
-- if the number is at least 10000. The pre-releases of 0.0.1 are below that: they are parsed from
-- text, and the constructors from the numeric form refuse them.
pub check_version-parse_version :
    (f : Flags) (s : Bytes) (v : StandardVersion)
    → parse_version f s ≡ ok v
    → stub v ≡ false
    → (check_version v.version (snapshot v) f ≡ ok tt) ↔ (10000 ≤ v.version)
unfolding stub check_version
check_version-parse_version f s v h n = elim (parse_version-IsSpelled f s v h) [
  | inl x ↦
      let e =
        version_holds_form f v x.ma x.mi x.pa _ x.form x.places x.form_holds x.version_is x.sn_is in
      ground arith
  | inr x ↦ absurd (let e = x.version_is in ground arith)
]

-- The constructor from all members never makes a stub: its call of `check_version` passes a true
-- snapshot flag, which the check refuses for a stub, so that the two tests for a stub behind it are
-- never reached with one.
pub of_members_stub :
    (ep sn rv : ℕ) (si : Bytes) (fl : Flags)
    → of_members ep u64_max sn si rv fl ≡ err "invalid standard version"
unfolding of_members check_version version_holds
of_members_stub ep sn rv si fl = ground arith

snapshot-Invariants :
    (f : Flags) (x : StandardVersion)
    → version_holds x.version true f ≡ true
    → stub x ≡ false
    → IsSnapshot x.snapshot_sn x.snapshot_id
    → Invariants f x
unfolding version_holds stub
snapshot-Invariants f x h n s = elim (Bool-cases (x.snapshot_sn == latest_sn)) [
  | inl z ↦
      let pos = s.positive in
      let is_nil : x.snapshot_id ≡ [] = s.no_id (ground arith) in ground arith
  | inr z ↦ let pos = s.positive in ground arith
]

final-Invariants :
    (f : Flags) (x : StandardVersion)
    → version_holds x.version false f ≡ true
    → stub x ≡ false
    → x.snapshot_sn ≡ 0
    → x.snapshot_id ≡ []
    → Invariants f x
unfolding version_holds stub
final-Invariants f x h n sn id = ground arith

-- The constructor from a number and a snapshot text makes versions that satisfy the invariants, or
-- stubs.
pub of_version-Invariants :
    (v : ℕ) (s : Bytes) (f : Flags) (x : StandardVersion)
    → of_version v s f ≡ ok x
    → stub x ≡ false
    → Invariants f x
unfolding of_version check_version
of_version-Invariants v s f x h n = go (is_empty s) (parse_snapshot s) refl h
  where
    go :
        (e : Bool) (m : Result (ℕ × Bytes × Bytes))
        → parse_snapshot s ≡ m
        → (throw_if (not (version_holds v (not e) f)) "invalid standard version" >>= λ _.
            if e
            then ok
                (record { epoch = 1; version = v; snapshot_sn = 0; snapshot_id = []; revision = 0 })
            else m >>= λ r. throw_if (not (is_empty r.2)) "junk after snapshot" >>= λ _.
                ok (record {
                  epoch = 1;
                  version = v;
                  snapshot_sn = r.0;
                  snapshot_id = r.1;
                  revision = 0;
                }))
          ≡ ok x
        → Invariants f x
    go true m q k =
        let facts : (version_holds v false f ≡ true)
            × (v ≡ x.version)
            × (0 ≡ x.snapshot_sn)
            × ([] ≡ x.snapshot_id) =
          ground arith in
        final-Invariants f x (rw (← facts.1) facts.0) n (sym facts.2) (sym facts.3)
    go false (err w) q k = absurd (ground arith)
    go false (ok (sn, id, e)) q k =
        let facts : (version_holds v true f ≡ true)
            × (v ≡ x.version)
            × (sn ≡ x.snapshot_sn)
            × (id ≡ x.snapshot_id) =
          ground arith in
        snapshot-Invariants f x (rw (← facts.1) facts.0) n
          (rw (← facts.2, ← facts.3) (parse_snapshot_sound s id e sn q))

-- A version that is parsed, or made from a number and a snapshot text, satisfies the invariants of
-- the header, or is a stub.
pub made-Invariants :
    (f : Flags) (n : ℕ) (s : Bytes) (v : StandardVersion)
    → (parse_version f s ≡ ok v) ⊎ (of_version n s f ≡ ok v)
    → stub v ≡ false
    → Invariants f v
made-Invariants f n s v (inl h) k = parse_version-Invariants f s v h k
made-Invariants f n s v (inr h) k = of_version-Invariants n s f v h k
