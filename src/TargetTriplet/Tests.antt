-- ===== src/TargetTriplet/Tests.antt =====
-- Runs of the constructor and of `string`.
use libbutl.Prelude.{less, true, compare_bytes, ◌≡◌, refl, Bytes, codes, ok, err, []}
use libbutl.TargetTriplet.Triplet.{
  equals, compare_triplets, TargetTriplet, target_triplet, parse_system, find_dash, split_vendor,
  canonical_system, split_version, split_listed, strip, at_dash, class_of, string, representation,
  add_version, append_part,
}
use libbutl.TargetTriplet.Version.{string-split_version}

abbrev triplet : Bytes → Bytes → Bytes → Bytes → Bytes → TargetTriplet
triplet c v s n k = record { cpu = c; vendor = v; system = s; version = n; class = k }

darwin :
    target_triplet (codes "arm64-apple-darwin20.1.0")
    ≡ ok (
        triplet (codes "aarch64") (codes "apple") (codes "darwin") (codes "20.1.0") (codes "macos"))
unfolding target_triplet parse_system find_dash split_vendor canonical_system split_version
    split_listed strip at_dash class_of
darwin = refl

simulator :
    target_triplet (codes "arm64-apple-ios14.4-simulator")
    ≡ ok (
        triplet
          (codes "aarch64")
          (codes "apple")
          (codes "ios-simulator")
          (codes "14.4")
          (codes "ios"))
unfolding target_triplet parse_system find_dash split_vendor canonical_system split_version
    split_listed strip at_dash class_of
simulator = refl

simulator_text :
    string (
      triplet
        (codes "aarch64")
        (codes "apple")
        (codes "ios-simulator")
        (codes "14.4")
        (codes "ios"))
    ≡ codes "aarch64-apple-ios14.4-simulator"
unfolding string add_version strip
simulator_text = refl

two_components :
    target_triplet (codes "x86_64-linux-gnux32")
    ≡ ok (triplet (codes "x86_64") [] (codes "linux-gnux32") [] (codes "linux"))
unfolding target_triplet parse_system find_dash split_vendor canonical_system split_version
    split_listed strip class_of
two_components = refl

no_vendor :
    target_triplet (codes "x86_64--netbsd")
    ≡ ok (triplet (codes "x86_64") [] (codes "netbsd") [] (codes "bsd"))
unfolding target_triplet parse_system find_dash split_vendor canonical_system split_version
    split_listed strip class_of
no_vendor = refl

mingw :
    target_triplet (codes "x86_64-w64-windows-gnu")
    ≡ ok (triplet (codes "x86_64") (codes "w64") (codes "mingw32") [] (codes "windows"))
unfolding target_triplet parse_system find_dash split_vendor canonical_system split_version
    split_listed strip class_of
mingw = refl

none_text :
    representation (triplet (codes "arm") [] (codes "none-eabi") [] (codes "other"))
    ≡ codes "arm-unknown-none-eabi"
unfolding representation add_version
none_text = refl

five_components : target_triplet (codes "a-b-c-d-e") ≡ err "too many components"
unfolding target_triplet parse_system find_dash split_vendor
five_components = refl

empty_abi : target_triplet (codes "arm-pc-linux-") ≡ err "invalid os/kernel/abi"
unfolding target_triplet parse_system find_dash split_vendor
empty_abi = refl

empty_system : target_triplet (codes "arm-") ≡ err "missing os/kernel/abi"
unfolding target_triplet parse_system find_dash split_vendor
empty_system = refl

empty_cpu : target_triplet (codes "-mingw32") ≡ err "missing cpu"
unfolding target_triplet find_dash
empty_cpu = refl

string-split_version_example :
    string (
      triplet
        (codes "aarch64")
        (codes "apple")
        (codes "ios-simulator")
        (codes "14.4")
        (codes "ios"))
    ≡ append_part (append_part (codes "aarch64") (codes "apple")) (codes "ios14.4-simulator")
unfolding split_version split_listed strip at_dash
string-split_version_example =
    string-split_version (codes "aarch64") (codes "apple") (codes "ios14.4-simulator") (codes "ios")

-- The class is not compared.
other_class :
    equals
      (triplet (codes "a") [] (codes "b") [] (codes "other"))
      (triplet (codes "a") [] (codes "b") [] [])
    ≡ true
unfolding equals compare_triplets compare_bytes
other_class = refl

by_system :
    compare_triplets
      (triplet (codes "a") [] (codes "b") (codes "2") [])
      (triplet (codes "a") [] (codes "c") (codes "1") [])
    ≡ less
unfolding compare_triplets compare_bytes
by_system = refl
