-- ===== src/StandardVersion/Fields.antt =====
-- The number AAAAABBBBBCCCCCDDDE and the components that the accessors read from it.
use libbutl.Prelude.{ℕ, ◌+◌, ◌-◌, ◌*◌, ◌≤◌, ◌<◌, true, not, ◌||◌, ◌≡◌, arith, ◌==◌, ◌⊎◌}
use libbutl.StandardVersion.{StandardVersion, release_digits, major, minor, patch}
use libbutl.StandardVersion.Parser.{PreRelease, adjust}

-- The components of a version fit their places, and are not all zero.
pub record Places (ma mi pa : ℕ) (p : PreRelease) : Type 0 where
  pub ma_le : ma ≤ 99999
  pub mi_le : mi ≤ 99999
  pub pa_le : pa ≤ 99999
  pub ab_le : p.ab ≤ 999
  pub nonzero : 0 < ma + mi + pa

-- The number of a release.
abbrev pub release_number : ℕ → ℕ → ℕ → ℕ
release_number ma mi pa = ma * 100000000000000 + mi * 1000000000 + pa * 10000

release_digits-adjust :
    (ma mi pa : ℕ) (p : PreRelease)
    → Places ma mi pa p
    → release_digits (adjust (release_number ma mi pa) p)
      ≡ ma * 10000000000000 + mi * 100000000 + pa * 1000
unfolding release_digits adjust
release_digits-adjust ma mi pa p h = ground arith

-- The accessors read back the components from which the parser puts the number together, for a
-- release, a pre-release of any number, a snapshot and the earliest version alike.
pub fields-adjust :
    (ma mi pa : ℕ) (p : PreRelease) (v : StandardVersion)
    → Places ma mi pa p
    → v.version ≡ adjust (release_number ma mi pa) p
    → (major v ≡ ma) × (minor v ≡ mi) × (patch v ≡ pa)
unfolding major minor patch
fields-adjust ma mi pa p v h e =
    let d = release_digits-adjust ma mi pa p h in rw (e, d) (omega arith, omega arith, omega arith)

-- The components of two version numbers compare one after the other.
abbrev pub Below : ℕ → ℕ → ℕ → ℕ → ℕ → ℕ → Type 0
Below ma mi pa ma' mi' pa' = (ma < ma') ⊎ ((ma ≡ ma') × ((mi < mi') ⊎ ((mi ≡ mi') × (pa < pa'))))

release_number-Below :
    (ma mi pa ma' mi' pa' : ℕ)
    → mi ≤ 99999
    → pa ≤ 99999
    → Below ma mi pa ma' mi' pa'
    → release_number ma mi pa + 10000 ≤ release_number ma' mi' pa'
release_number-Below ma mi pa ma' mi' pa' h h' b = omega arith

adjust_bounds :
    (n : ℕ) (p : PreRelease) → 10000 ≤ n → p.ab ≤ 999 → (n - 10000 ≤ adjust n p) × (adjust n p ≤ n)
unfolding adjust
adjust_bounds n p h h' = ground arith

adjust_pre :
    (n : ℕ) (p : PreRelease)
    → 10000 ≤ n
    → p.ab ≤ 999
    → (not (p.ab == 0) || not (p.snapshot_sn == 0) || p.earliest) ≡ true
    → adjust n p < n
unfolding adjust
adjust_pre n p h h' pre = ground arith
