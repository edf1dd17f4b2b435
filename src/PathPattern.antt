-- ===== src/PathPattern.antt =====
-- libbutl/path-pattern.{hxx,ixx,cxx}: wildcard patterns of file names, on a system where names
-- are case sensitive, `/` is the only directory separator and `char` is signed.
--
-- A pair of iterators is the text between them. A pattern that recurs is shorter each time, so
-- the recursions are on fuel, of which a caller gives one more than the length of the pattern.
mod Terms
mod Matcher
mod Reference
mod NoBrackets
mod Correct
mod Directory
mod Tests
unfoldable pub use Terms.*
unfoldable pub use Matcher.*
unfoldable pub use Reference.*
pub use NoBrackets.*
pub use Correct.*
pub use Directory.*
