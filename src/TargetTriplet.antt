-- ===== src/TargetTriplet.antt =====
-- libbutl/target-triplet.{hxx,cxx}: target triplets, CPU-VENDOR-SYSTEM.
mod Triplet
mod Version
mod Tests
unfoldable pub use Triplet.*
pub use Version.*
