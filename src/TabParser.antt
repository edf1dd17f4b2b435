-- ===== src/TabParser.antt =====
-- libbutl/tab-parser.{hxx,cxx}: lines of whitespace-separated fields.
--
-- The stream is the text that is still to be read, with `eof` or a failing `peek` where it is
-- empty, and the parser's name goes into its errors. The loop over the lines is a recursion on
-- fuel, which `next` sets to one more than the length of the text.
mod Reader
mod Reported
mod Lines
mod Ends
mod Tests
unfoldable pub use Reader.*
unfoldable pub use Lines.*
pub use Ends.*
