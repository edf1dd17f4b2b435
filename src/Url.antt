-- ===== src/Url.antt =====
-- libbutl/url.hxx and libbutl/url.txx: the characters of URLs, their encoding, and hosts.
mod Codec
mod Host
mod Normalize
mod RoundTrip
mod Names
mod Tests
unfoldable pub use Codec.*
unfoldable pub use Host.*
unfoldable pub use Normalize.*
