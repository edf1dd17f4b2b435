-- ===== src/StandardVersion/Pieces.antt =====
-- The parser reads back each component of the text of a version (libbutl/standard-version.cxx).
use libbutl.Prelude.{
  ℕ, ◌+◌, ◌-◌, ◌≤◌, ◌<◌, true, false, not, [], ◌∷◌, ◌++◌, ◌≡◌, ◌≢◌, refl, ◌∙◌, ap, arith, Bytes,
  codes, is_empty, length, All, append_assoc, ltb, ◌==◌, if◌then◌else◌, Bool-cases, inl, inr, ok,
}
use libbutl.Number.{char_at, to_string}
use libbutl.Number.RoundTrip.{
  NoDigit, to_string_front, parse_uint64-to_string, parse_uint16-to_string,
}
use libbutl.StandardVersion.{Flags, latest_sn}
use libbutl.StandardVersion.Parser.{
  alnum, take_alnum, parse_snapshot_id, parse_snapshot, PreRelease, no_pre_release,
  parse_pre_release_end, parse_pre_release, parse_optional_pre_release, parse_revision,
}

-- `+<revision>`, or nothing for 0.
abbrev pub revision_text : ℕ → Bytes
revision_text r = if not (r == 0) then b'+' ∷ to_string r else []

-- Neither a letter or digit nor one of the separators stands at the front.
pub record Plain (s : Bytes) : Type 0 where
  pub no_alnum : alnum (char_at s) ≡ false
  pub no_dot : (char_at s == b'.') ≡ false
  pub no_dash : (char_at s == b'-') ≡ false

pub revision_text-Plain : (r : ℕ) → Plain (revision_text r)
revision_text-Plain r = elim (Bool-cases (r == 0)) [
  | inl z ↦ rw z (record { no_alnum = refl; no_dot = refl; no_dash = refl })
  | inr p ↦ rw p (record { no_alnum = refl; no_dot = refl; no_dash = refl })
]

pub Plain-NoDigit : (s : Bytes) → Plain s → NoDigit s
Plain-NoDigit s h = ground arith

pub parse_revision-revision_text :
    (r : ℕ) → r ≤ 65535 → parse_revision (revision_text r) ≡ ok (r, [])
unfolding parse_revision
parse_revision-revision_text r h = elim (Bool-cases (r == 0)) [
  | inl z ↦ rw z (ground arith)
  | inr p ↦ rw p (
      rw
        (
          append-nil-at (to_string r),
          parse_uint16-to_string 1 65535 r [] (ground arith) h (omega arith) refl,
        )
        refl)
]
  where
    append-nil-at : (s : Bytes) → s ≡ s ++ []
    append-nil-at [] = refl
    append-nil-at (c ∷ s) = ap (◌∷◌ c) (append-nil-at s)

take_alnum-append :
    (id rest : Bytes)
    → All (λ c. alnum c ≡ true) id
    → Plain rest
    → take_alnum (id ++ rest) ≡ (id, rest)
unfolding take_alnum
take_alnum-append [] [] h p = refl
take_alnum-append [] (c ∷ s) h p = rw p.no_alnum
take_alnum-append (c ∷ id) rest (h, t) p = rw (h, take_alnum-append id rest t p)

unfoldable pub id_text : Bytes → Bytes
id_text id = if not (is_empty id) then b'.' ∷ id else []

-- A snapshot id has at most sixteen letters and digits.
pub record IsId (id : Bytes) : Type 0 where
  pub all_alnum : All (λ c. alnum c ≡ true) id
  pub short : length id ≤ 16

parse_snapshot_id_text :
    (id rest : Bytes)
    → IsId id
    → Plain rest
    → parse_snapshot_id (id_text id ++ rest) ≡ ok (id, rest)
unfolding parse_snapshot_id id_text
parse_snapshot_id_text [] rest h p = rw p.no_dot
parse_snapshot_id_text (c ∷ id) rest h p =
    rw (take_alnum-append (c ∷ id) rest h.all_alnum p) (ground arith)

-- The snapshot number as it is written.
unfoldable pub sn_text : ℕ → Bytes
sn_text sn = if sn == latest_sn then codes "z" else to_string sn

-- A snapshot: `z` has no id, and any other number is below it.
pub record IsSnapshot (sn : ℕ) (id : Bytes) : Type 0 where
  pub positive : 0 < sn
  pub sn_le : sn ≤ latest_sn
  pub id_ok : IsId id
  pub no_id : sn ≡ latest_sn → id ≡ []

id_text-NoDigit : (id rest : Bytes) → Plain rest → NoDigit (id_text id ++ rest)
unfolding id_text
id_text-NoDigit [] rest p = Plain-NoDigit rest p
id_text-NoDigit (c ∷ id) rest p = refl

parse_snapshot_text :
    (sn : ℕ) (id rest : Bytes)
    → IsSnapshot sn id
    → Plain rest
    → parse_snapshot (sn_text sn ++ (id_text id ++ rest)) ≡ ok (sn, id, rest)
unfolding parse_snapshot sn_text
parse_snapshot_text sn id rest h p = elim (Bool-cases (sn == latest_sn)) [
  | inl z ↦
      let e : sn ≡ latest_sn = ground arith in rw (z, h.no_id e) (unfold id_text in ground arith)
  | inr n ↦
      let d = to_string_front sn (id_text id ++ rest) in
      let not_z : (char_at (to_string sn ++ (id_text id ++ rest)) == b'z') ≡ false = ground arith in
      rw
        (
          n,
          not_z,
          parse_uint64-to_string 1 (latest_sn - 1) sn (id_text id ++ rest)
              (omega (arith, h.positive)) (ground arith) h.sn_le (id_text-NoDigit id rest p),
          parse_snapshot,
        )
        (rw (parse_snapshot_id_text id rest h.id_ok p))
]

-- The four forms of a version: a release, the earliest version, a final pre-release and a snapshot.
pub data Form : Type 0 where
  released : Form
  at_earliest : Form
  final_pre : ℕ → Form
  snapshot_pre : ℕ → ℕ → Bytes → Form

unfoldable pub form_of : Form → PreRelease
form_of released = no_pre_release
form_of at_earliest = record { ab = 0; earliest = true; snapshot_sn = 0; snapshot_id = [] }
form_of (final_pre ab) = record no_pre_release { ab = ab }
form_of (snapshot_pre ab sn id) = record {
  ab = ab;
  earliest = false;
  snapshot_sn = sn;
  snapshot_id = id;
}

-- The letter and the number of a pre-release.
unfoldable pub ab_text : ℕ → Bytes
ab_text ab = if ltb ab 500 then b'a' ∷ b'.' ∷ to_string ab else b'b' ∷ b'.' ∷ to_string (ab - 500)

unfoldable pub form_text : Form → Bytes
form_text released = []
form_text at_earliest = b'-' ∷ []
form_text (final_pre ab) = b'-' ∷ ab_text ab
form_text (snapshot_pre ab sn id) = b'-' ∷ (ab_text ab ++ (b'.' ∷ (sn_text sn ++ id_text id)))

-- What each form needs; nothing may follow the earliest version.
unfoldable pub FormHolds : Flags → Form → Bytes → Type 0
FormHolds f released rest = Unit
FormHolds f at_earliest rest = (f.allow_earliest ≡ true) × (rest ≡ [])
FormHolds f (final_pre ab) rest = (ab ≤ 999) × (ab ≢ 0) × (ab ≢ 500)
FormHolds f (snapshot_pre ab sn id) rest = (ab ≤ 999) × IsSnapshot sn id

parse_alpha :
    (f : Flags) (n : ℕ) (rest : Bytes)
    → n ≤ 499
    → NoDigit rest
    → parse_pre_release f (b'a' ∷ b'.' ∷ (to_string n ++ rest)) ≡ parse_pre_release_end n rest
unfolding parse_pre_release
parse_alpha f n rest h stop =
    rw (parse_uint16-to_string 0 499 n rest (omega arith) h (omega arith) stop)

parse_beta :
    (f : Flags) (n : ℕ) (rest : Bytes)
    → n ≤ 499
    → NoDigit rest
    → parse_pre_release f (b'b' ∷ b'.' ∷ (to_string n ++ rest))
      ≡ parse_pre_release_end (n + 500) rest
unfolding parse_pre_release
parse_beta f n rest h stop =
    rw (parse_uint16-to_string 0 499 n rest (omega arith) h (omega arith) stop)

parse_ab_text :
    (f : Flags) (ab : ℕ) (rest : Bytes)
    → ab ≤ 999
    → NoDigit rest
    → parse_pre_release f (ab_text ab ++ rest) ≡ parse_pre_release_end ab rest
unfolding ab_text
parse_ab_text f ab rest h stop = elim (Bool-cases (ltb ab 500)) [
  | inl a ↦ rw a (parse_alpha f ab rest (ground arith) stop)
  | inr b ↦
      let back : ab - 500 + 500 ≡ ab = ground arith in
      rw b (
        parse_beta f (ab - 500) rest (ground arith) stop
        ∙ ap (λ t. parse_pre_release_end t rest) back)
]

-- The parser reads the text of each form back into what the form stands for.
pub parse-form_text :
    (f : Flags) (x : Form) (rest : Bytes)
    → FormHolds f x rest
    → Plain rest
    → parse_optional_pre_release f (form_text x ++ rest) ≡ ok (form_of x, rest)
unfolding parse_optional_pre_release form_text FormHolds form_of
parse-form_text f released rest h p = rw p.no_dash
parse-form_text f at_earliest rest h p = rw h.1 (unfold parse_pre_release in ground arith)
parse-form_text f (final_pre ab) rest h p =
    parse_ab_text f ab rest h.0 (Plain-NoDigit rest p)
    ∙ unfold parse_pre_release_end in ground arith
parse-form_text f (snapshot_pre ab sn id) rest (h, s) p =
    rw
      (
        append_assoc (ab_text ab) (b'.' ∷ (sn_text sn ++ id_text id)) rest,
        append_assoc (sn_text sn) (id_text id) rest,
      )
      (parse_ab_text f ab _ h refl
        ∙ unfold parse_pre_release_end in rw (parse_snapshot_text sn id rest s p))
