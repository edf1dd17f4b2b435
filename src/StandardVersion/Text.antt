-- ===== src/StandardVersion/Text.antt =====
-- The text that the printer gives a version put together from components (libbutl/standard-version.cxx).
use libbutl.Prelude.{
  ℕ, ◌/◌, ◌%◌, ◌≤◌, Bool, true, false, not, ◌&&◌, ◌||◌, Option, none, some, [], ◌∷◌, ◌++◌, ◌≡◌,
  refl, ◌∙◌, arith, Bytes, append_assoc, append-nil, ltb, ◌==◌, if◌then◌else◌,
}
use libbutl.Number.{u64_max, to_string}
use libbutl.StandardVersion.{
  StandardVersion, Flags, stub, empty, snapshot, release, pre_release, alpha, beta, earliest,
}
use libbutl.StandardVersion.Parser.{adjust}
use libbutl.StandardVersion.Printer.{
  is_some, string_pre_release, string_version, string_snapshot, string_project, print,
}
use libbutl.StandardVersion.Fields.{release_number, Places, fields-adjust}
use libbutl.StandardVersion.Pieces.{
  revision_text, Form, released, at_earliest, final_pre, snapshot_pre, form_of, form_text,
  FormHolds, sn_text, id_text, ab_text,
}

-- A version other than a stub, put together from components in their ranges.
pub record IsSpelled (f : Flags) (v : StandardVersion) : Type 0 where
  pub ma : ℕ
  pub mi : ℕ
  pub pa : ℕ
  pub form : Form
  pub places : Places ma mi pa (form_of form)
  pub form_holds : FormHolds f form (revision_text v.revision)
  pub version_is : v.version ≡ adjust (release_number ma mi pa) (form_of form)
  pub sn_is : v.snapshot_sn ≡ (form_of form).snapshot_sn
  pub id_is : v.snapshot_id ≡ (form_of form).snapshot_id
  pub epoch_ge : 1 ≤ v.epoch
  pub epoch_le : v.epoch ≤ 65535
  pub revision_le : v.revision ≤ 65535

-- A stub: no epoch and no snapshot, and the largest number.
pub record IsStub (f : Flags) (v : StandardVersion) : Type 0 where
  pub allowed : f.allow_stub ≡ true
  pub epoch_is : v.epoch ≡ 0
  pub version_is : v.version ≡ u64_max
  pub sn_is : v.snapshot_sn ≡ 0
  pub id_is : v.snapshot_id ≡ []
  pub revision_le : v.revision ≤ 65535

unfoldable pub epoch_text : ℕ → Bytes
epoch_text ep = if not (ep == 1) then b'+' ∷ (to_string ep ++ (b'-' ∷ [])) else []

-- What the accessors say of a version in each form.
abbrev pub pre_of : Form → Option ℕ
pre_of released = none
pre_of at_earliest = some 0
pre_of (final_pre ab) = some ab
pre_of (snapshot_pre ab sn id) = some ab

module _ (f : Flags) (v : StandardVersion) (s : IsSpelled f v) where
  not_special : (empty v ≡ false) × (stub v ≡ false)
  unfolding empty stub adjust
  not_special = rw s.version_is (ground arith)

module _ (f : Flags) (v : StandardVersion) (ma mi pa : ℕ) (rest : Bytes) where
  pre_release_lem :
      (x : Form)
      → Places ma mi pa (form_of x)
      → FormHolds f x rest
      → v.version ≡ adjust (release_number ma mi pa) (form_of x)
      → pre_release v ≡ pre_of x
  unfolding pre_release release stub form_of FormHolds adjust
  pre_release_lem released p h e = rw e (ground arith)
  pre_release_lem at_earliest p h e = rw e (ground arith)
  pre_release_lem (final_pre ab) p h e = rw e (ground arith)
  pre_release_lem (snapshot_pre ab sn id) p h e = rw e (ground arith)

  -- DDD and the test for the earliest version.
  number_lem :
      (x : Form)
      → Places ma mi pa (form_of x)
      → FormHolds f x rest
      → v.version ≡ adjust (release_number ma mi pa) (form_of x)
      → v.snapshot_sn ≡ (form_of x).snapshot_sn
      → (v.version / 10 % 1000 ≡ (form_of x).ab) × (earliest v ≡ (form_of x).earliest)
  unfolding form_of FormHolds adjust earliest snapshot stub
  number_lem released p h e sn = rw (e, sn) (ground arith)
  number_lem at_earliest p h e sn = rw (e, sn) (ground arith)
  number_lem (final_pre ab) p h e sn = rw (e, sn) (ground arith)
  number_lem (snapshot_pre ab k id) p (h, i) e sn =
      let pos = i.positive in rw (e, sn) (ground arith)

-- The part of `print` behind the patch version.
abbrev tail_text : StandardVersion → Bytes
tail_text v =
    (if is_some (alpha v) || is_some (beta v)
      then b'-' ∷ (string_pre_release v ++ (if snapshot v then b'.' ∷ [] else []))
      else [])
    ++ ((if snapshot v then string_snapshot v else [])
        ++ (if true && not (v.revision == 0) then b'+' ∷ to_string v.revision else []))

any_pre : (v : StandardVersion) → (is_some (alpha v) || is_some (beta v)) ≡ is_some (pre_release v)
unfolding alpha beta
any_pre v = ground arith

string_pre_release_lem :
    (v : StandardVersion) (ab : ℕ)
    → pre_release v ≡ some ab
    → v.version / 10 % 1000 ≡ ab
    → string_pre_release v ≡ (if ltb ab 500 && earliest v then [] else ab_text ab)
unfolding string_pre_release alpha beta ab_text
string_pre_release_lem v ab p n = ground arith

string_pre_release_later :
    (v : StandardVersion) (ab : ℕ)
    → pre_release v ≡ some ab
    → v.version / 10 % 1000 ≡ ab
    → earliest v ≡ false
    → string_pre_release v ≡ ab_text ab
string_pre_release_later v ab p n e = string_pre_release_lem v ab p n ∙ ground arith

string_snapshot_lem :
    (v : StandardVersion)
    → snapshot v ≡ true
    → string_snapshot v ≡ sn_text v.snapshot_sn ++ id_text v.snapshot_id
unfolding string_snapshot sn_text id_text
string_snapshot_lem v h = rw h

snapshot_of : (v : StandardVersion) (sn : ℕ) → v.snapshot_sn ≡ sn → snapshot v ≡ not (sn == 0)
unfolding snapshot
snapshot_of v sn e = rw e

tail_text_lem :
    (f : Flags) (v : StandardVersion) (x : Form)
    → FormHolds f x (revision_text v.revision)
    → pre_release v ≡ pre_of x
    → v.version / 10 % 1000 ≡ (form_of x).ab
    → earliest v ≡ (form_of x).earliest
    → v.snapshot_sn ≡ (form_of x).snapshot_sn
    → v.snapshot_id ≡ (form_of x).snapshot_id
    → tail_text v ≡ form_text x ++ revision_text v.revision
unfolding form_of form_text FormHolds
tail_text_lem f v released h p n e sn id = rw (any_pre v, p, snapshot_of v 0 sn)
tail_text_lem f v at_earliest h p n e sn id =
    rw (any_pre v, p, snapshot_of v 0 sn, string_pre_release_lem v 0 p n, e)
tail_text_lem f v (final_pre ab) h p n e sn id =
    rw (any_pre v, p, snapshot_of v 0 sn, string_pre_release_later v ab p n e) (simp append-nil)
tail_text_lem f v (snapshot_pre ab k i) (h, s) p n e sn id =
    let pos : (k == 0) ≡ false = let q = s.positive in ground arith in
    let shot : snapshot v ≡ true = snapshot_of v k sn ∙ rw pos in
    rw (any_pre v, p, shot, string_pre_release_later v ab p n e, string_snapshot_lem v shot, sn, id)
      (simp append_assoc)

and_true : (b : Bool) → (b && true) ≡ b
and_true true = refl
and_true false = refl

-- The text of a version that is not a stub.
pub print_lem :
    (f : Flags) (v : StandardVersion) (s : IsSpelled f v)
    → print v
      ≡ epoch_text v.epoch
        ++ (to_string s.ma
            ++ (b'.'
                ∷ (to_string s.mi
                    ++ (b'.'
                        ∷ (to_string s.pa ++ (form_text s.form ++ revision_text v.revision))))))
unfolding print string_project string_version epoch_text
print_lem f v s =
    let (no_empty, no_stub) = not_special f v s in
    let (e1, e2, e3) = fields-adjust s.ma s.mi s.pa (form_of s.form) v s.places s.version_is in
    let (n, e) =
      number_lem f v s.ma s.mi s.pa _ s.form s.places s.form_holds s.version_is s.sn_is in
    let p = pre_release_lem f v s.ma s.mi s.pa _ s.form s.places s.form_holds s.version_is in
    let t = tail_text_lem f v s.form s.form_holds p n e s.sn_is s.id_is in
    rw (no_empty, no_stub, e1, e2, e3) (simp (append_assoc, t, and_true))
