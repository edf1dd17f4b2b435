-- ===== src/ProjectName.antt =====
-- libbutl/project-name.{hxx,cxx}: project names, with path_traits::find_extension of
-- libbutl/path.hxx (where `/` is the only directory separator), and the character classes and the
-- case-insensitive comparison of libbutl/utility.ixx in the C locale.
mod Names
mod Extension
mod Validity
mod Tests
unfoldable pub use Names.*
pub use Extension.*
pub use Validity.*
