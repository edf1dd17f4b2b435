-- ===== src/StandardVersion/Accepted.antt =====
-- What the parser accepts as a pre-release component and as a snapshot
-- (libbutl/standard-version.cxx).
use libbutl.Prelude.{
  ℕ, ◌+◌, ◌-◌, ◌≤◌, true, false, ◌&&◌, ◌||◌, some, [], ◌∷◌, ◌≡◌, refl, sym, arith, Bytes, length,
  All, ◌==◌, if◌then◌else◌, Bool-cases, Option-cases, ◌⊎◌, inl, inr, Result, ok, err, ◌>>=◌,
}
use libbutl.Number.{char_at, rest_of, parse_uint64, parse_uint16}
use libbutl.Number.RoundTrip.{parse_uint64_bounds, parse_uint16_bounds}
use libbutl.StandardVersion.{Flags, latest_sn}
use libbutl.StandardVersion.Parser.{
  alnum, take_alnum, parse_snapshot_id, parse_snapshot, PreRelease, parse_pre_release_end,
  parse_pre_release, parse_optional_pre_release,
}
use libbutl.StandardVersion.Pieces.{
  IsId, IsSnapshot, Form, released, at_earliest, final_pre, snapshot_pre, form_of, FormHolds,
}

take_alnum_sound : (s : Bytes) → All (λ c. alnum c ≡ true) (take_alnum s).0
unfolding take_alnum
take_alnum_sound [] = tt
take_alnum_sound (c ∷ s) = elim (Bool-cases (alnum c)) [
  | inl a ↦ rw a (a, take_alnum_sound s)
  | inr n ↦ rw n tt
]

parse_snapshot_id_inv :
    (s id e : Bytes)
    → parse_snapshot_id s ≡ ok (id, e)
    → (id ≡ []) ⊎ ((id ≡ (take_alnum (rest_of s)).0) × (length id ≤ 16))
unfolding parse_snapshot_id
parse_snapshot_id_inv s id e h = ground arith

nil-IsId : IsId []
nil-IsId = record { all_alnum = tt; short = omega arith }

parse_snapshot_id_sound : (s id e : Bytes) → parse_snapshot_id s ≡ ok (id, e) → IsId id
parse_snapshot_id_sound s id e h = elim (parse_snapshot_id_inv s id e h) [
  | inl none_given ↦ rw none_given nil-IsId
  | inr (is, le) ↦ record { all_alnum = rw is (take_alnum_sound (rest_of s)); short = le }
]

with_number :
    (m : Result (Bytes × Bytes)) (k sn : ℕ) (id e : Bytes)
    → ◌>>=◌ {W = ℕ × Bytes × Bytes} m (λ t. ok (k, t.0, t.1)) ≡ ok (sn, id, e)
    → (k ≡ sn) × (m ≡ ok (id, e))
with_number (ok (id', e')) k sn id e h = ground arith
with_number (err w) k sn id e h = cc

IsSnapshot-number :
    (s r id e : Bytes) (k sn : ℕ)
    → parse_uint64 1 (latest_sn - 1) s ≡ some (k, r)
    → (k ≡ sn) × (parse_snapshot_id r ≡ ok (id, e))
    → IsSnapshot sn id
IsSnapshot-number s r id e k sn read (same, found) =
    let b = parse_uint64_bounds 1 (latest_sn - 1) s r k read in
    record {
      positive = omega arith;
      sn_le = omega arith;
      id_ok = parse_snapshot_id_sound r id e found;
      no_id = λ top. absurd (omega arith);
    }

pub parse_snapshot_sound :
    (s id e : Bytes) (sn : ℕ) → parse_snapshot s ≡ ok (sn, id, e) → IsSnapshot sn id
unfolding parse_snapshot
parse_snapshot_sound s id e sn h = elim (Bool-cases (char_at s == b'z')) [
  | inl z ↦
      let is : (latest_sn ≡ sn) × ([] ≡ id) = ground arith in
      record {
        positive = omega arith;
        sn_le = omega arith;
        id_ok = rw (← is.1) nil-IsId;
        no_id = λ _. sym is.1;
      }
  | inr other ↦ elim (Option-cases (parse_uint64 1 (latest_sn - 1) s)) [
    | inl failed ↦ absurd (ground arith)
    | inr ((k, r), read) ↦
        IsSnapshot-number s r id e k sn read
          (with_number (parse_snapshot_id r) k sn id e (ground arith))
  ]
]

-- What the pre-release component may be, `e` being what follows it.
pub record IsPreRelease (f : Flags) (p : PreRelease) (e : Bytes) : Type 0 where
  pub form : Form
  pub is : p ≡ form_of form
  pub holds : FormHolds f form []
  pub ends : form ≡ at_earliest → (char_at e == b'+') ≡ false
  pub ab_le : p.ab ≤ 999

with_snapshot :
    (m : Result (ℕ × Bytes × Bytes)) (ab : ℕ) (p : PreRelease) (e : Bytes)
    → ◌>>=◌ {W = PreRelease × Bytes} m
        (λ r. ok (record { ab = ab; earliest = false; snapshot_sn = r.0; snapshot_id = r.1 }, r.2))
      ≡ ok (p, e)
    → (m ≡ ok (p.snapshot_sn, p.snapshot_id, e))
      × (p ≡ form_of (snapshot_pre ab p.snapshot_sn p.snapshot_id))
unfolding form_of
with_snapshot (ok (sn, id, r)) ab p e h = ground arith
with_snapshot (err w) ab p e h = cc

snapshot_form :
    (f : Flags) (ab : ℕ) (s e : Bytes) (p : PreRelease)
    → ab ≤ 999
    → parse_snapshot s ≡ ok (p.snapshot_sn, p.snapshot_id, e)
    → p ≡ form_of (snapshot_pre ab p.snapshot_sn p.snapshot_id)
    → IsPreRelease f p e
unfolding FormHolds form_of
snapshot_form f ab s e p le read is = record {
  form = snapshot_pre ab p.snapshot_sn p.snapshot_id;
  is = is;
  holds = (le, parse_snapshot_sound s p.snapshot_id e p.snapshot_sn read);
  ends = λ q. cc;
  ab_le = rw is le;
}

final_form :
    (f : Flags) (ab : ℕ) (p : PreRelease) (e : Bytes)
    → ab ≤ 999
    → (ab == 0 || ab == 500) ≡ false
    → p ≡ form_of (final_pre ab)
    → IsPreRelease f p e
unfolding FormHolds form_of
final_form f ab p e le other is = record {
  form = final_pre ab;
  is = is;
  holds = ground arith;
  ends = λ q. cc;
  ab_le = rw is le;
}

parse_pre_release_end_sound :
    (f : Flags) (ab : ℕ) (s e : Bytes) (p : PreRelease)
    → ab ≤ 999
    → parse_pre_release_end ab s ≡ ok (p, e)
    → IsPreRelease f p e
unfolding parse_pre_release_end form_of
parse_pre_release_end_sound f ab s e p le h = elim (Bool-cases (char_at s == b'.')) [
  | inl dot ↦
      let (read, is) = with_snapshot (parse_snapshot (rest_of s)) ab p e (ground arith) in
      snapshot_form f ab (rest_of s) e p le read is
  | inr plain ↦ final_form f ab p e le (ground arith) (ground arith)
]

earliest_form :
    (f : Flags) (p : PreRelease) (e : Bytes)
    → (char_at e == 0) ≡ true
    → f.allow_earliest ≡ true
    → p ≡ form_of at_earliest
    → IsPreRelease f p e
unfolding FormHolds form_of
earliest_form f p e ends allowed is = record {
  form = at_earliest;
  is = is;
  holds = (allowed, refl);
  ends = λ _. ground arith;
  ab_le = rw is (omega arith);
}

parse_pre_release_sound :
    (f : Flags) (s e : Bytes) (p : PreRelease)
    → parse_pre_release f s ≡ ok (p, e)
    → IsPreRelease f p e
unfolding parse_pre_release form_of
parse_pre_release_sound f s e p h = elim (Bool-cases (char_at s == 0 && f.allow_earliest)) [
  | inl end ↦ earliest_form f p e (ground arith) (ground arith) (ground arith)
  | inr more ↦ elim (Option-cases (parse_uint16 0 499 (rest_of (rest_of s)))) [
    | inl failed ↦ absurd (ground arith)
    | inr ((ab, r), read) ↦
        let b = parse_uint16_bounds 0 499 _ r ab (omega arith) read in
        parse_pre_release_end_sound f (if char_at s == b'b' then ab + 500 else ab) r e p
          (ground arith) (ground arith)
  ]
]

released_form : (f : Flags) (p : PreRelease) (e : Bytes) → p ≡ form_of released → IsPreRelease f p e
unfolding FormHolds form_of
released_form f p e is = record {
  form = released;
  is = is;
  holds = tt;
  ends = λ q. cc;
  ab_le = rw is (omega arith);
}

pub parse_optional_pre_release_sound :
    (f : Flags) (s e : Bytes) (p : PreRelease)
    → parse_optional_pre_release f s ≡ ok (p, e)
    → IsPreRelease f p e
unfolding parse_optional_pre_release form_of
parse_optional_pre_release_sound f s e p h = elim (Bool-cases (char_at s == b'-')) [
  | inl dash ↦ parse_pre_release_sound f (rest_of s) e p (ground arith)
  | inr other ↦ released_form f p e (ground arith)
]
