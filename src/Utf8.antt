-- ===== src/Utf8.antt =====
-- libbutl/utf8.{hxx,ixx}: the UTF-8 validator, and utf8_length and utf8 of libbutl/utility.ixx.
mod Validator
mod Ascii
mod Encoding
mod Tail
mod Sequence
mod Scalar
mod Decode
mod Tests
unfoldable pub use Validator.*
unfoldable pub use Encoding.*
pub use Decode.*
pub use Ascii.*
