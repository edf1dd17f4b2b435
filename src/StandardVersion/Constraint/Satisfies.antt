-- ===== src/StandardVersion/Constraint/Satisfies.antt =====
-- Which versions satisfy a constraint (libbutl/standard-version.cxx).
use libbutl.Prelude.{
  ℕ, ◌+◌, ◌-◌, ◌*◌, ◌≤◌, ◌<◌, Bool, true, false, ◌||◌, some, [], ◌≡◌, ◌↔◌, refl, arith, ◌==◌,
  if◌then◌else◌, Result, ok, err,
}
use libbutl.StandardVersion.{
  StandardVersion, Flags, compare, major, minor, check_version, default_version,
}
use libbutl.StandardVersion.Parser.{of_version, of_epoch_version}
use libbutl.StandardVersion.Fields.{release_number, fields-adjust}
use libbutl.StandardVersion.Pieces.{form_of}
use libbutl.StandardVersion.Text.{IsSpelled}
use libbutl.StandardVersion.Order.{rank, number_rank}
use libbutl.StandardVersion.Constraint.{
  Shortcut, is_tilde, next_number, shortcut_max_version, satisfies, above_min, below_max, is_less,
}

-- What the maximum of a shortcut operator is, for the number that ends the series.
record IsMax (v mx : StandardVersion) (n : ℕ) : Type 0 where
  epoch_is : mx.epoch ≡ v.epoch
  version_is : mx.version ≡ n - 10000 + 1
  sn_is : mx.snapshot_sn ≡ 0
  revision_is : mx.revision ≡ 0

of_epoch_version_is :
    (ep n rv : ℕ) (f : Flags) (v mx : StandardVersion)
    → of_epoch_version ep n [] rv f ≡ ok mx
    → (mx.epoch ≡ ep) × (mx.version ≡ n) × (mx.snapshot_sn ≡ 0) × (mx.revision ≡ rv)
unfolding of_epoch_version of_version check_version
of_epoch_version_is ep n rv f v mx h = ground arith

-- The series of an operator: the versions with the major version of `v` and, for `~` and for the
-- major version 0, with its minor version too.
abbrev pub SameSeries : Shortcut → StandardVersion → StandardVersion → Type 0
SameSeries c v w = (major w ≡ major v) × ((is_tilde c || major v == 0) ≡ true → minor w ≡ minor v)

module _ (f g : Flags) (v w mx : StandardVersion) (s : IsSpelled f v) (t : IsSpelled g w) where
  satisfies_range :
      (n : ℕ)
      → IsMax v mx n
      → 10000 ≤ n
      → (satisfies
            (record {
              min_version = some v;
              min_open = false;
              max_version = some mx;
              max_open = true;
            })
            w
          ≡ true)
        ↔ ((w.epoch ≡ v.epoch) × (w.version + 10000 ≤ n) × (is_less (compare w v false) ≡ false))
  unfolding satisfies above_min below_max compare
  satisfies_range n m le = ground arith

-- The number that ends the series of `v`.
next_number_lem :
    (c : Shortcut) (v : StandardVersion) (n : ℕ)
    → next_number c v ≡ ok n
    → n ≡ (
        if is_tilde c || major v == 0
        then major v * 100000000000000 + (minor v + 1) * 1000000000
        else (major v + 1) * 100000000000000)
unfolding next_number
next_number_lem c v n h = ground arith

next_number_ge : (c : Shortcut) (v : StandardVersion) (n : ℕ) → next_number c v ≡ ok n → 10000 ≤ n
next_number_ge c v n h = let e = next_number_lem c v n h in ground arith

-- A version stands before the end of the series and not before `v` exactly if it is of the series.
series_numbers :
    (by_minor : Bool) (a b p r a' b' p' r' n : ℕ)
    → (a ≤ 99999) × (b ≤ 99999) × (p ≤ 99999)
    → (a' ≤ 99999) × (b' ≤ 99999) × (p' ≤ 99999)
    → (0 < r) × (r ≤ 10000)
    → (0 < r') × (r' ≤ 10000)
    → n
      ≡ (if by_minor then a * 100000000000000 + (b + 1) * 1000000000 else (a + 1) * 100000000000000)
    → release_number a b p + r ≤ release_number a' b' p' + r'
    → (release_number a' b' p' + r' ≤ n) ↔ ((a' ≡ a) × (by_minor ≡ true → b' ≡ b))
series_numbers by_minor a b p r a' b' p' r' n h1 h2 h3 h4 e le = ground arith

not_less_version :
    (v w : StandardVersion)
    → w.epoch ≡ v.epoch
    → is_less (compare w v false) ≡ false
    → v.version ≤ w.version
unfolding compare
not_less_version v w e h = ground arith

-- The number of the series and what the maximum is made of.
IsMax-of :
    (c : Shortcut) (v mx : StandardVersion)
    → shortcut_max_version c v false ≡ ok mx
    → (n : ℕ) × (next_number c v ≡ ok n) × IsMax v mx n
unfolding shortcut_max_version
IsMax-of c v mx h = go (next_number c v) refl h
  where
    go :
        (m : Result ℕ)
        → next_number c v ≡ m
        → elim m as (λ _. Result StandardVersion) [
          | err e ↦ if false then ok default_version else err e
          | ok n ↦
              of_epoch_version v.epoch
                (n - 10000 + 1)
                []
                0
                (record { allow_earliest = true; allow_stub = false })
        ]
          ≡ ok mx
        → (n : ℕ) × (next_number c v ≡ ok n) × IsMax v mx n
    go (err e) q h' = cc
    go (ok n) q h' =
        let (e1, e2, e3, e4) = of_epoch_version_is v.epoch (n - 10000 + 1) 0 _ v mx h' in
        (n, q, record { epoch_is = e1; version_is = e2; sn_is = e3; revision_is = e4 })

module _ (c : Shortcut) (f g : Flags) (v w mx : StandardVersion) (s : IsSpelled f v)
    (t : IsSpelled g w) where
  -- The end of the series, by components.
  series_end :
      (n : ℕ)
      → next_number c v ≡ ok n
      → v.version ≤ w.version
      → (w.version + 10000 ≤ n) ↔ SameSeries c v w
  series_end n q le =
      let (e1, r1, r2) = number_rank f s.ma s.mi s.pa _ s.form s.places s.form_holds in
      let (e2, r3, r4) = number_rank g t.ma t.mi t.pa _ t.form t.places t.form_holds in
      let (a1, a2, _) = fields-adjust s.ma s.mi s.pa (form_of s.form) v s.places s.version_is in
      let (b1, b2, _) = fields-adjust t.ma t.mi t.pa (form_of t.form) w t.places t.version_is in
      let u1 : v.version + 10000 ≡ release_number s.ma s.mi s.pa + rank s.form =
        rw s.version_is e1 in
      let u2 : w.version + 10000 ≡ release_number t.ma t.mi t.pa + rank t.form =
        rw t.version_is e2 in
      let n_is = next_number_lem c v n q in
      let core =
        series_numbers (is_tilde c || s.ma == 0) s.ma s.mi s.pa (rank s.form) t.ma t.mi t.pa
          (rank t.form) n (s.places.ma_le, s.places.mi_le, s.places.pa_le)
          (t.places.ma_le, t.places.mi_le, t.places.pa_le) (r1, r2) (r3, r4) (rw (← a1, ← a2) n_is)
          (omega arith) in
      rw (u2, b1, a1, b2, a2) core

  -- A version satisfies the range of `~v` or `^v` exactly if it has the epoch of `v`, is of the
  -- operator's series, and is not less than `v`.
  pub shortcut-satisfies :
      shortcut_max_version c v false ≡ ok mx
      → (satisfies
            (record {
              min_version = some v;
              min_open = false;
              max_version = some mx;
              max_open = true;
            })
            w
          ≡ true)
        ↔ ((w.epoch ≡ v.epoch) × SameSeries c v w × (is_less (compare w v false) ≡ false))
  shortcut-satisfies h =
      let (n, q, m) = IsMax-of c v mx h in
      let (into, back) = satisfies_range f g v w mx s t n m (next_number_ge c v n q) in
      (
        λ sat.
            let (same_epoch, before, not_less) = into sat in
            (
              same_epoch,
              (series_end n q (not_less_version v w same_epoch not_less)).0 before,
              not_less,
            ),
        λ k. back (k.0, (series_end n q (not_less_version v w k.0 k.2)).1 k.1, k.2),
      )
