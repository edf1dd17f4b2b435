-- ===== src/StandardVersion/Order.antt =====
-- The comparison of versions (libbutl/standard-version.hxx) against their components.
use libbutl.Prelude.{
  ℕ, ◌+◌, ◌*◌, ◌≤◌, ◌<◌, Bool, not, List, ◌≡◌, arith, if◌then◌else◌, Sign, equal, sign_of,
}
use libbutl.StandardVersion.{StandardVersion, Flags, compare}
use libbutl.StandardVersion.Parser.{adjust}
use libbutl.StandardVersion.Fields.{release_number, Places}
use libbutl.StandardVersion.Pieces.{
  Form, released, at_earliest, final_pre, snapshot_pre, form_of, FormHolds,
}
use libbutl.StandardVersion.Text.{IsSpelled}

-- Where a form stands among those of one release: the earliest version, then the pre-releases by
-- number, each before its snapshots, then the release.
abbrev pub rank : Form → ℕ
rank released = 10000
rank at_earliest = 1
rank (final_pre ab) = ab * 10
rank (snapshot_pre ab sn id) = ab * 10 + 1

pub number_rank :
    (f : Flags) (ma mi pa : ℕ) (rest : List ℕ) (x : Form)
    → Places ma mi pa (form_of x)
    → FormHolds f x rest
    → (adjust (release_number ma mi pa) (form_of x) + 10000 ≡ release_number ma mi pa + rank x)
      × (0 < rank x)
      × (rank x ≤ 10000)
unfolding adjust form_of FormHolds
number_rank f ma mi pa rest released p h = ground arith
number_rank f ma mi pa rest at_earliest p h = ground arith
number_rank f ma mi pa rest (final_pre ab) p h = ground arith
number_rank f ma mi pa rest (snapshot_pre ab k i) p (h, s) = let pos = s.positive in ground arith

numbers_compare :
    (a b c r a' b' c' r' : ℕ)
    → b ≤ 99999
    → c ≤ 99999
    → b' ≤ 99999
    → c' ≤ 99999
    → (0 < r) × (r ≤ 10000)
    → (0 < r') × (r' ≤ 10000)
    → (later : Sign)
    → sign_of (release_number a b c + r) (release_number a' b' c' + r') later
      ≡ sign_of a a' (sign_of b b' (sign_of c c' (sign_of r r' later)))
numbers_compare a b c r a' b' c' r' h1 h2 h3 h4 h5 h6 later = ground arith

sign_of_add :
    (x y k m n : ℕ) (later : Sign) → x + k ≡ m → y + k ≡ n → sign_of x y later ≡ sign_of m n later
sign_of_add x y k m n later p q = ground arith

-- Two versions that are no stubs compare by epoch, major, minor and patch version, then by where
-- their forms stand among those of one release, then by snapshot number and, unless it is ignored,
-- by revision.
pub compare_components :
    (f : Flags) (v w : StandardVersion) (ir : Bool) (s : IsSpelled f v) (t : IsSpelled f w)
    → compare v w ir
      ≡ sign_of v.epoch w.epoch (
          sign_of s.ma t.ma (
            sign_of s.mi t.mi (
              sign_of s.pa t.pa (
                sign_of (rank s.form) (rank t.form) (
                  sign_of v.snapshot_sn w.snapshot_sn
                    (if not ir then sign_of v.revision w.revision equal else equal))))))
unfolding compare
compare_components f v w ir s t =
    let (e1, r1, r2) = number_rank f s.ma s.mi s.pa _ s.form s.places s.form_holds in
    let (e2, r3, r4) = number_rank f t.ma t.mi t.pa _ t.form t.places t.form_holds in
    let later =
      sign_of v.snapshot_sn w.snapshot_sn
        (if not ir then sign_of v.revision w.revision equal else equal) in
    rw (
      sign_of_add v.version w.version 10000 (release_number s.ma s.mi s.pa + rank s.form)
          (release_number t.ma t.mi t.pa + rank t.form) later (rw s.version_is e1)
          (rw t.version_is e2),
      numbers_compare s.ma s.mi s.pa (rank s.form) t.ma t.mi t.pa (rank t.form) s.places.mi_le
          s.places.pa_le t.places.mi_le t.places.pa_le (r1, r2) (r3, r4) later,
    )
