-- ===== src/StringParser.antt =====
-- libbutl/string-parser.{hxx,cxx}: a text cut into whitespace-separated, possibly quoted strings.
--
-- An iterator `i` is the position `i - b` together with the text from there on. The loop over the
-- text is a recursion on fuel; `parse_quoted_position` gives it one more than the text's length.
mod Pieces
mod Unquote
mod Ends
mod Positions
mod Quote
mod Tests
unfoldable pub use Pieces.*
pub use Unquote.*
pub use Ends.*
pub use Positions.*
pub use Quote.*
