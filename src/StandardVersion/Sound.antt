-- ===== src/StandardVersion/Sound.antt =====
-- What the parser accepts (libbutl/standard-version.cxx): every version that it returns is put
-- together from components in their ranges, or is a stub.
use libbutl.Prelude.{
  ℕ, ◌+◌, ◌≤◌, ◌<◌, Bool, true, false, not, ◌&&◌, ◌||◌, [], ◌≡◌, refl, sym, ◌∙◌, arith, Bytes,
  is_empty, ◌==◌, Bool-cases, Option-cases, ◌⊎◌, inl, inr, Result, ok, err, ◌>>=◌, throw_if,
}
use libbutl.Number.{u64_max, char_at, rest_of, parse_uint16, parse_uint32}
use libbutl.Number.RoundTrip.{parse_uint16_bounds, parse_uint32_bounds}
use libbutl.StandardVersion.{StandardVersion, Flags}
use libbutl.StandardVersion.Parser.{
  parse_epoch, parse_minor_patch, PreRelease, no_pre_release, parse_optional_pre_release,
  parse_revision, adjust, parse_end, parse_components, parse_version,
}
use libbutl.StandardVersion.Printer.{print}
use libbutl.StandardVersion.Fields.{release_number}
use libbutl.StandardVersion.Pieces.{
  revision_text, Form, released, at_earliest, final_pre, snapshot_pre, FormHolds,
}
use libbutl.StandardVersion.Text.{IsSpelled, IsStub}
use libbutl.StandardVersion.RoundTrip.{parse_version-print}
use libbutl.StandardVersion.Accepted.{IsPreRelease, parse_optional_pre_release_sound}

parse_epoch_sound :
    (s e : Bytes) (ep : ℕ) (given : Bool)
    → parse_epoch s ≡ ok (ep, given, e)
    → (1 ≤ ep) × (ep ≤ 65535) × (given ≡ false → ep ≡ 1)
unfolding parse_epoch
parse_epoch_sound s e ep given h = elim (Option-cases (parse_uint16 1 65535 (rest_of s))) [
  | inl failed ↦ ground arith
  | inr ((n, r), read) ↦
      let b = parse_uint16_bounds 1 65535 _ r n (omega arith) read in ground arith
]

-- The number of a release with at most five digits to a component.
record IsRelease (ma n : ℕ) : Type 0 where
  mi : ℕ
  pa : ℕ
  mi_le : mi ≤ 99999
  pa_le : pa ≤ 99999
  nonzero : 0 < ma + mi + pa
  is : n ≡ release_number ma mi pa

parse_minor_patch_sound :
    (ma n : ℕ) (s e : Bytes) → parse_minor_patch ma s ≡ ok (n, e) → IsRelease ma n
unfolding parse_minor_patch
parse_minor_patch_sound ma n s e h = elim (Option-cases (parse_uint32 (rest_of s))) [
  | inl failed ↦ absurd (ground arith)
  | inr ((mi, r), read) ↦ elim (Option-cases (parse_uint32 (rest_of r))) [
    | inl failed ↦ absurd (ground arith)
    | inr ((pa, r'), read') ↦
        let facts : (release_number ma mi pa ≡ n) × ((release_number ma mi pa == 0) ≡ false) =
          ground arith in
        record {
          mi = mi;
          pa = pa;
          mi_le = parse_uint32_bounds _ r mi read;
          pa_le = parse_uint32_bounds _ r' pa read';
          nonzero = ground arith;
          is = sym facts.0;
        }
  ]
]

parse_revision_sound :
    (s e : Bytes) (r : ℕ)
    → parse_revision s ≡ ok (r, e)
    → (r ≤ 65535) × ((char_at s == b'+') ≡ false → r ≡ 0)
unfolding parse_revision
parse_revision_sound s e r h = elim (Option-cases (parse_uint16 1 65535 (rest_of s))) [
  | inl failed ↦ ground arith
  | inr ((n, r'), read) ↦
      let b = parse_uint16_bounds 1 65535 _ r' n (omega arith) read in ground arith
]

-- What the end of the parser makes of the parts.
record Ends (ep n : ℕ) (p : PreRelease) (s : Bytes) (v : StandardVersion) : Type 0 where
  epoch_is : v.epoch ≡ ep
  version_is : v.version ≡ adjust n p
  sn_is : v.snapshot_sn ≡ p.snapshot_sn
  id_is : v.snapshot_id ≡ p.snapshot_id
  revision_le : v.revision ≤ 65535
  no_revision : (char_at s == b'+') ≡ false → v.revision ≡ 0

parse_end_sound :
    (ep n : ℕ) (p : PreRelease) (s : Bytes) (v : StandardVersion)
    → parse_end ep n p s ≡ ok v
    → Ends ep n p s v
unfolding parse_end
parse_end_sound ep n p s v h = go (parse_revision s) refl h
  where
    go :
        (m : Result (ℕ × Bytes))
        → parse_revision s ≡ m
        → ◌>>=◌ {W = StandardVersion} m (λ r.
          throw_if (not (is_empty r.1)) "junk after version" >>= λ _. ok (record {
            epoch = ep;
            version = adjust n p;
            snapshot_sn = p.snapshot_sn;
            snapshot_id = p.snapshot_id;
            revision = r.0;
          }))
          ≡ ok v
        → Ends ep n p s v
    go (ok (r, e)) read q = let b = parse_revision_sound s e r read in ground arith
    go (err w) read q = cc

FormHolds-no_revision :
    (f : Flags) (x : Form) (r : ℕ)
    → FormHolds f x []
    → (x ≡ at_earliest → r ≡ 0)
    → FormHolds f x (revision_text r)
unfolding FormHolds
FormHolds-no_revision f released r h z = tt
FormHolds-no_revision f at_earliest r h z = (h.0, rw (z refl))
FormHolds-no_revision f (final_pre ab) r h z = h
FormHolds-no_revision f (snapshot_pre ab sn id) r h z = h

spelled :
    (f : Flags) (v : StandardVersion) (ep ma n : ℕ) (p : PreRelease) (s : Bytes)
    → (1 ≤ ep) × (ep ≤ 65535)
    → ma ≤ 99999
    → IsRelease ma n
    → IsPreRelease f p s
    → Ends ep n p s v
    → IsSpelled f v
spelled f v ep ma n p s epoch_ok ma_le r x e = record {
  ma = ma;
  mi = r.mi;
  pa = r.pa;
  form = x.form;
  places =
      let le = x.ab_le in
      rw (← x.is) (record {
        ma_le = ma_le;
        mi_le = r.mi_le;
        pa_le = r.pa_le;
        ab_le = le;
        nonzero = r.nonzero;
      });
  form_holds = FormHolds-no_revision f x.form v.revision x.holds (λ q. e.no_revision (x.ends q));
  version_is = e.version_is ∙ rw (r.is, ← x.is);
  sn_is = e.sn_is ∙ rw (← x.is);
  id_is = e.id_is ∙ rw (← x.is);
  epoch_ge = omega arith;
  epoch_le = omega arith;
  revision_le = e.revision_le;
}

-- The steps behind the major version, for a version that is not a stub.
with_release :
    (f : Flags) (ep ma : ℕ) (v : StandardVersion) (m : Result (ℕ × Bytes)) (s : Bytes)
    → parse_minor_patch ma s ≡ m
    → (1 ≤ ep) × (ep ≤ 65535)
    → ma ≤ 99999
    → ◌>>=◌ {W = StandardVersion} m
        (λ n. parse_optional_pre_release f n.1 >>= λ p. parse_end ep n.0 p.0 p.1)
      ≡ ok v
    → IsSpelled f v
with_release f ep ma v (err w) s read epoch_ok ma_le h = cc
with_release f ep ma v (ok (n, e)) s read epoch_ok ma_le h =
    go (parse_optional_pre_release f e) refl h
  where
    go :
        (m : Result (PreRelease × Bytes))
        → parse_optional_pre_release f e ≡ m
        → ◌>>=◌ {W = StandardVersion} m (λ p. parse_end ep n p.0 p.1) ≡ ok v
        → IsSpelled f v
    go (err w) q h' = cc
    go (ok (p, r)) q h' =
        spelled f v ep ma n p r epoch_ok ma_le (parse_minor_patch_sound ma n s e read)
          (parse_optional_pre_release_sound f e r p q) (parse_end_sound ep n p r v h')

IsStub-Ends :
    (f : Flags) (v : StandardVersion) (s : Bytes)
    → f.allow_stub ≡ true
    → Ends 0 u64_max no_pre_release s v
    → IsStub f v
IsStub-Ends f v s allowed e = record {
  allowed = allowed;
  epoch_is = e.epoch_is;
  version_is = e.version_is ∙ unfold adjust in refl;
  sn_is = e.sn_is;
  id_is = e.id_is;
  revision_le = e.revision_le;
}

parse_components_sound :
    (f : Flags) (ep : ℕ) (given : Bool) (s : Bytes) (v : StandardVersion)
    → (1 ≤ ep) × (ep ≤ 65535)
    → parse_components f ep given s ≡ ok v
    → IsSpelled f v ⊎ IsStub f v
unfolding parse_components
parse_components_sound f ep given s v epoch_ok h = elim (Option-cases (parse_uint32 s)) [
  | inl failed ↦ absurd (ground arith)
  | inr ((ma, e), read) ↦
      let ma_le : ma ≤ 99999 = parse_uint32_bounds s e ma read in
      elim (Bool-cases
        (f.allow_stub && not given && ma == 0 && (is_empty e || char_at e == b'+'))) [
          | inl is_stub ↦ inr (
              IsStub-Ends f v e (ground arith)
                (parse_end_sound 0 u64_max no_pre_release e v (ground arith)))
          | inr other ↦
              inl (
                with_release f ep ma v (parse_minor_patch ma e) e refl epoch_ok ma_le
                  (ground arith))
        ]
]

-- Whatever the parser returns is put together from components in their ranges, or is a stub that
-- the flags allow.
pub parse_version-IsSpelled :
    (f : Flags) (s : Bytes) (v : StandardVersion)
    → parse_version f s ≡ ok v
    → IsSpelled f v ⊎ IsStub f v
unfolding parse_version
parse_version-IsSpelled f s v h = go (parse_epoch s) refl h
  where
    go :
        (m : Result (ℕ × Bool × Bytes))
        → parse_epoch s ≡ m
        → ◌>>=◌ {W = StandardVersion} m (λ r. parse_components f r.0 r.1 r.2) ≡ ok v
        → IsSpelled f v ⊎ IsStub f v
    go (err w) q h' = cc
    go (ok (ep, given, e)) q h' =
        let b = parse_epoch_sound s e ep given q in
        parse_components_sound f ep given e v (b.0, b.1) h'

-- The text of a version that was parsed is parsed to the same version, whatever spelling was read
-- (leading zeros, an explicit epoch 1): the printed text is canonical.
pub parse_version-print-parse_version :
    (f : Flags) (s : Bytes) (v : StandardVersion)
    → parse_version f s ≡ ok v
    → parse_version f (print v) ≡ ok v
parse_version-print-parse_version f s v h =
    parse_version-print f v (parse_version-IsSpelled f s v h)
