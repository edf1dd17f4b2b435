-- ===== src/StandardVersion/RoundTrip.antt =====
-- The parser reads back the text of a version (libbutl/standard-version.cxx).
use libbutl.Prelude.{
  ℕ, ◌+◌, ◌≤◌, ◌<◌, Bool, true, false, not, ◌&&◌, ◌||◌, [], ◌∷◌, ◌++◌, ◌≡◌, refl, arith, Bytes,
  is_empty, append_assoc, ◌==◌, Bool-cases, ◌⊎◌, inl, inr, ok,
}
use libbutl.Number.{u64_max, is_digit, char_at, to_string}
use libbutl.Number.RoundTrip.{
  NoDigit, to_string_front, parse_uint16-to_string, parse_uint32-to_string,
}
use libbutl.StandardVersion.{StandardVersion, Flags, stub, empty, snapshot}
use libbutl.StandardVersion.Parser.{
  parse_epoch, parse_minor_patch, PreRelease, no_pre_release, adjust, parse_end, parse_components,
  parse_version,
}
use libbutl.StandardVersion.Printer.{string_version, string_project, print}
use libbutl.StandardVersion.Fields.{release_number}
use libbutl.StandardVersion.Pieces.{
  revision_text, revision_text-Plain, Plain-NoDigit, parse_revision-revision_text, Form, released,
  at_earliest, final_pre, snapshot_pre, form_of, form_text, parse-form_text,
}
use libbutl.StandardVersion.Text.{IsSpelled, IsStub, epoch_text, print_lem}

parse_epoch_text :
    (ep : ℕ) (s : Bytes)
    → 1 ≤ ep
    → ep ≤ 65535
    → is_digit (char_at s) ≡ true
    → parse_epoch (epoch_text ep ++ s) ≡ ok (ep, not (ep == 1), s)
unfolding parse_epoch epoch_text
parse_epoch_text ep s lo hi d = elim (Bool-cases (ep == 1)) [
  | inl one ↦
      rw one (let no_plus : (char_at s == b'+') ≡ false = ground arith in rw no_plus (ground arith))
  | inr other ↦
      rw (other, append_assoc (to_string ep) (b'-' ∷ []) s)
        (rw (parse_uint16-to_string 1 65535 ep (b'-' ∷ s) lo hi (omega arith) refl))
]

parse_minor_patch_lem :
    (ma mi pa : ℕ) (rest : Bytes)
    → mi ≤ 99999
    → pa ≤ 99999
    → 0 < ma + mi + pa
    → NoDigit rest
    → parse_minor_patch ma (b'.' ∷ (to_string mi ++ (b'.' ∷ (to_string pa ++ rest))))
      ≡ ok (release_number ma mi pa, rest)
unfolding parse_minor_patch
parse_minor_patch_lem ma mi pa rest h h' pos stop =
    rw (parse_uint32-to_string mi (b'.' ∷ (to_string pa ++ rest)) h refl)
      (rw (parse_uint32-to_string pa rest h' stop) (ground arith))

form_text-NoDigit : (x : Form) (r : ℕ) → NoDigit (form_text x ++ revision_text r)
unfolding form_text
form_text-NoDigit released r = Plain-NoDigit _ (revision_text-Plain r)
form_text-NoDigit at_earliest r = refl
form_text-NoDigit (final_pre ab) r = refl
form_text-NoDigit (snapshot_pre ab sn id) r = refl

parse_end_lem :
    (ep n r : ℕ) (p : PreRelease)
    → r ≤ 65535
    → parse_end ep n p (revision_text r)
      ≡ ok (record {
        epoch = ep;
        version = adjust n p;
        snapshot_sn = p.snapshot_sn;
        snapshot_id = p.snapshot_id;
        revision = r;
      })
unfolding parse_end
parse_end_lem ep n r p h = rw (parse_revision-revision_text r h)

no_stub : (a b c : Bool) → (a && b && c && false) ≡ false
no_stub a b c = ground arith

parse_components_lem :
    (f : Flags) (ep : ℕ) (given : Bool) (v : StandardVersion) (s : IsSpelled f v)
    → parse_components f ep given (
        to_string s.ma
        ++ (b'.'
            ∷ (to_string s.mi
                ++ (b'.' ∷ (to_string s.pa ++ (form_text s.form ++ revision_text v.revision))))))
      ≡ parse_end ep (release_number s.ma s.mi s.pa) (form_of s.form) (revision_text v.revision)
unfolding parse_components
parse_components_lem f ep given v s =
    rw
      (
        parse_uint32-to_string s.ma
            (b'.'
              ∷ (to_string s.mi
                  ++ (b'.' ∷ (to_string s.pa ++ (form_text s.form ++ revision_text v.revision)))))
            s.places.ma_le refl,
        parse_components,
        no_stub f.allow_stub (not given) (s.ma == 0),
      )
      (rw (
        parse_minor_patch_lem s.ma s.mi s.pa (form_text s.form ++ revision_text v.revision)
            s.places.mi_le s.places.pa_le s.places.nonzero (form_text-NoDigit s.form v.revision),
        parse-form_text f s.form (revision_text v.revision) s.form_holds
            (revision_text-Plain v.revision),
      ))

parse-spelled :
    (f : Flags) (v : StandardVersion) (s : IsSpelled f v) → parse_version f (print v) ≡ ok v
unfolding parse_version
parse-spelled f v s =
    rw (print_lem f v s, parse_epoch_text v.epoch _ s.epoch_ge s.epoch_le (to_string_front s.ma _))
      (rw (
        parse_components_lem f v.epoch (not (v.epoch == 1)) v s,
        parse_end_lem v.epoch (release_number s.ma s.mi s.pa) v.revision (form_of s.form)
            s.revision_le,
        ← s.version_is,
        ← s.sn_is,
        ← s.id_is,
      ))

print_stub :
    (f : Flags) (v : StandardVersion) → IsStub f v → print v ≡ b'0' ∷ revision_text v.revision
unfolding print string_project string_version stub empty snapshot
print_stub f v s = rw (s.version_is, s.sn_is, s.epoch_is)

zero_text : to_string 0 ≡ b'0' ∷ []
unfolding to_string
zero_text = refl

revision_follows :
    (r : ℕ) → (is_empty (revision_text r) || char_at (revision_text r) == b'+') ≡ true
revision_follows r = elim (Bool-cases (r == 0)) [ inl z ↦ rw z | inr p ↦ rw p ]

stub_version :
    (f : Flags) (v : StandardVersion)
    → IsStub f v
    → parse_components f 1 false (b'0' ∷ revision_text v.revision) ≡ ok v
unfolding parse_components
stub_version f v s =
    rw
      (
        rw zero_text at (
            parse_uint32-to_string 0 (revision_text v.revision) (omega arith)
              (Plain-NoDigit _ (revision_text-Plain v.revision))),
        parse_components,
      )
      (rw
        (
          s.allowed,
          revision_follows v.revision,
          parse_end_lem 0 u64_max v.revision no_pre_release s.revision_le,
        )
        (unfold adjust in ground arith))

parse-stub : (f : Flags) (v : StandardVersion) → IsStub f v → parse_version f (print v) ≡ ok v
unfolding parse_version parse_epoch
parse-stub f v s = rw (print_stub f v s) (stub_version f v s)

-- A version that is put together from components in their ranges is read back from its text, as is
-- a stub where stubs are allowed.
pub parse_version-print :
    (f : Flags) (v : StandardVersion)
    → IsSpelled f v ⊎ IsStub f v
    → parse_version f (print v) ≡ ok v
parse_version-print f v (inl s) = parse-spelled f v s
parse_version-print f v (inr s) = parse-stub f v s
