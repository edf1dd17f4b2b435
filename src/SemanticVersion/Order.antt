-- ===== src/SemanticVersion/Order.antt =====
-- The comparison of semantic versions is a total order (libbutl/semantic-version.hxx).
use libbutl.Prelude.{
  ℕ, Bool, true, false, ◌≡◌, ◌↔◌, arith, ok, less, equal, flip, sign_of, compare_bytes-flip,
  compare_bytes_equal, compare_bytes_trans,
}
use libbutl.SemanticVersion.{SemanticVersion, numeric, compare}

-- Exchanging the versions exchanges "less" and "greater".
pub compare-flip : (x y : SemanticVersion) (ib : Bool) → compare y x ib ≡ flip (compare x y ib)
unfolding compare
compare-flip x y ib = ground (arith, compare_bytes-flip x.build y.build)

-- Two versions compare equal, build components included, exactly when they are the same.
pub compare_equal : (x y : SemanticVersion) → (compare x y false ≡ equal) ↔ (x ≡ y)
unfolding compare
compare_equal x y = ground (arith, compare_bytes_equal x.build y.build)

-- "Less" is transitive.
pub compare_trans :
    (x y z : SemanticVersion) (ib : Bool)
    → compare x y ib ≡ less
    → compare y z ib ≡ less
    → compare x z ib ≡ less
unfolding compare
compare_trans x y z ib p q = ground (
  arith,
  compare_bytes_trans x.build y.build z.build,
  compare_bytes_equal x.build y.build,
  compare_bytes_equal y.build z.build,
)

-- Where two versions have a numeric form, the order of the numbers is that of the versions with the
-- build components ignored.
pub numeric-compare :
    (x y : SemanticVersion) (m n : ℕ)
    → numeric x ≡ ok m
    → numeric y ≡ ok n
    → compare x y true ≡ sign_of m n equal
unfolding numeric compare
numeric-compare x y m n p q = ground arith
