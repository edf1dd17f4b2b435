-- ===== src/Path.antt =====
-- libbutl/path.{hxx,ixx,txx}: paths on a POSIX system.
mod Traits
mod Data
mod Operations
mod Normalize
mod Collapse
mod Split
mod Resolve
mod Shape
mod Normal
mod Refused
mod Joined
mod Idempotent
mod Abnormal
mod Parts
mod Names
mod Iterator
mod Text
mod Append
mod Prefix
mod Leaf
mod Upper
mod Relative
mod Fuel
mod Fixed
mod Canonical
mod Tests
unfoldable pub use Traits.*
unfoldable pub use Data.*
unfoldable pub use Operations.*
unfoldable pub use Normalize.*
