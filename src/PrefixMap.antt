-- ===== src/PrefixMap.antt =====
-- prefix_map_common of libbutl/prefix-map.hxx and .txx, with keys that are strings.
mod Keys
mod Search
mod Rejected
mod Tests
unfoldable pub use Keys.*
unfoldable pub use Search.*
