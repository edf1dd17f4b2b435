-- ===== src/Manifest.antt =====
-- libbutl/manifest-parser.{hxx,cxx} and manifest-serializer.{hxx,cxx}: manifests, lists of pairs of
-- a name and a value.
pub mod Comment
pub mod Spaces
pub mod Pairs
pub mod Parser
pub mod Serializer
pub mod Value
pub mod Names
pub mod Body
pub mod PairText
pub mod RoundTrip
pub mod Exact
mod Tests
