-- ===== src/TargetTriplet/Triplet.antt =====
-- The operations of target_triplet. A position in the string is the text that follows it.
use libbutl.Prelude.{
  Sign, less, equal, greater, compare_bytes, ◌+◌, ◌-◌, Bool, true, false, ◌&&◌, ◌||◌, Option, none,
  some, List, [], ◌∷◌, ◌++◌, ◌==◌, if◌then◌else◌, Bytes, length, take, drop, is_empty, has_byte,
  bytes_eq, codes, Result, ok, err, ◌>>=◌,
}

-- `target_triplet`.
pub record TargetTriplet : Type 0 where
  pub cpu : Bytes
  pub vendor : Bytes
  pub system : Bytes
  pub version : Bytes
  pub class : Bytes

-- The text before the first dash and the text after it.
unfoldable pub find_dash : Bytes → Option (Bytes × Bytes)
find_dash [] = none
find_dash (c ∷ s) =
    let rest = find_dash s in
    if c == b'-' then some ([], s) else elim rest [ none ↦ none | some (x, y) ↦ some (c ∷ x, y) ]

-- `s.compare (0, v, prefix) == 0`: what follows the prefix.
unfoldable pub strip : Bytes → Bytes → Option Bytes
strip [] s = some s
strip (p ∷ ps) [] = none
strip (p ∷ ps) (c ∷ s) = if c == p then strip ps s else none

abbrev pub is_any_of : List Bytes → Bytes → Bool
is_any_of [] s = false
is_any_of (w ∷ ws) s = bytes_eq s w || is_any_of ws s

-- VENDOR, where some names become the empty one.
abbrev pub vendor_of : Bytes → Bytes
vendor_of m = if is_any_of (codes "pc" ∷ codes "none" ∷ codes "unknown" ∷ []) m then [] else m

-- The first components of systems that are taken for no vendor.
abbrev pub is_system : Bytes → Bool
is_system m = is_any_of (codes "linux" ∷ codes "windows" ∷ codes "kfreebsd" ∷ codes "nto" ∷ []) m

abbrev pub two_dashes : Bytes → Bool
two_dashes s = elim (find_dash s) [ none ↦ false | some (x, y) ↦ has_byte b'-' y ]

-- VENDOR and SYSTEM, from what follows the first dash.
unfoldable pub split_vendor : Bytes → Result (Bytes × Bytes)
split_vendor s = elim (find_dash s) [
  | none ↦ ok ([], s)
  | some (m, t) ↦
      if has_byte b'-' t
      then (if two_dashes t then err "too many components" else ok (vendor_of m, t))
      else if is_empty m
      then ok ([], t)
      else if is_system m
      then ok ([], s)
      else ok (vendor_of m, t)
]

abbrev pub starts_with_dash : Bytes → Bool
starts_with_dash [] = false
starts_with_dash (c ∷ s) = c == b'-'

abbrev pub ends_with_dash : Bytes → Bool
ends_with_dash [] = false
ends_with_dash (c ∷ []) = c == b'-'
ends_with_dash (c ∷ d ∷ s) = ends_with_dash (d ∷ s)

unfoldable pub canonical_system : Bytes → Bytes → Bytes
canonical_system vendor system =
    if bytes_eq system (codes "linux")
    then codes "linux-gnu"
    else if bytes_eq system (codes "windows-gnu") && bytes_eq vendor (codes "w64")
    then codes "mingw32"
    else system

-- The systems that a version follows.
abbrev pub versioned : List Bytes
versioned =
    codes "darwin"
    ∷ codes "freebsd"
    ∷ codes "openbsd"
    ∷ codes "netbsd"
    ∷ codes "solaris"
    ∷ codes "aix"
    ∷ codes "hpux"
    ∷ codes "win32-msvc"
    ∷ codes "windows-msvc"
    ∷ codes "nto-qnx"
    ∷ []

unfoldable pub split_listed : List Bytes → Bytes → Option (Bytes × Bytes)
split_listed [] s = none
split_listed (p ∷ ps) s =
    let rest = split_listed ps s in elim (strip p s) [ none ↦ rest | some v ↦ some (p, v) ]

-- The text up to the first dash, and from it on.
unfoldable pub at_dash : Bytes → Bytes × Bytes
at_dash [] = ([], [])
at_dash (c ∷ s) = let r = at_dash s in if c == b'-' then ([], c ∷ s) else (c ∷ r.0, r.1)

abbrev pub is_ios : Bytes → Bytes → Bool
is_ios vendor system =
    bytes_eq vendor (codes "apple")
    && elim (strip (codes "ios") system) [ none ↦ false | some t ↦ true ]

-- SYSTEM without its version, and the version.
unfoldable pub split_version : Bytes → Bytes → Bytes × Bytes
split_version vendor system = elim (split_listed versioned system) [
  | some p ↦ p
  | none ↦
      let p = at_dash (drop 3 system) in
      if is_ios vendor system then (codes "ios" ++ p.1, p.0) else (system, [])
]

abbrev pub starts : Bytes → Bytes → Bool
starts p s = elim (strip p s) [ none ↦ false | some t ↦ true ]

unfoldable pub class_of : Bytes → Bytes → Bytes
class_of vendor system =
    if starts (codes "linux") system
    then codes "linux"
    else if bytes_eq vendor (codes "apple") && bytes_eq system (codes "darwin")
    then codes "macos"
    else if is_ios vendor system
    then codes "ios"
    else if is_any_of (codes "freebsd" ∷ codes "openbsd" ∷ codes "netbsd" ∷ []) system
    then codes "bsd"
    else if starts (codes "win32") system
        || starts (codes "windows") system
        || bytes_eq system (codes "mingw32")
    then codes "windows"
    else codes "other"

-- The constructor from the CPU and what follows its dash.
unfoldable pub parse_system : Bytes → Bytes → Result TargetTriplet
parse_system cpu s = split_vendor s >>= (λ p.
    let c = canonical_system p.0 p.1 in
    let v = split_version p.0 c in
    if is_empty p.1
    then err "missing os/kernel/abi"
    else if starts_with_dash p.1 || ends_with_dash p.1
    then err "invalid os/kernel/abi"
    else ok
        (record { cpu = cpu; vendor = p.0; system = v.0; version = v.1; class = class_of p.0 v.0 }))

-- `target_triplet (const std::string&)`.
unfoldable pub target_triplet : Bytes → Result TargetTriplet
target_triplet s = elim (find_dash s) [
  | none ↦ err "missing cpu"
  | some (c, t) ↦
      if is_empty c
      then err "missing cpu"
      else parse_system (if bytes_eq c (codes "arm64") then codes "aarch64" else c) t
]

-- `if (!r.empty ()) r += '-'`.
abbrev pub dashed : Bytes → Bytes
dashed [] = []
dashed (c ∷ r) = (c ∷ r) ++ b'-' ∷ []

abbrev pub append_part : Bytes → Bytes → Bytes
append_part r [] = r
append_part r (c ∷ s) = dashed r ++ c ∷ s

-- The version, added to the text `r` that ends with SYSTEM.
unfoldable pub add_version : Bytes → Bytes → Bytes → Bytes → Bytes
add_version r vendor system version =
    let n = length r - length system + 3 in
    if is_empty version
    then r
    else if is_ios vendor system
    then take n r ++ version ++ drop n r
    else r ++ version

-- `string`.
unfoldable pub string : TargetTriplet → Bytes
string t =
    add_version (append_part (append_part t.cpu t.vendor) t.system) t.vendor t.system t.version

-- `representation`.
unfoldable pub representation : TargetTriplet → Bytes
representation t =
    let vendor = if is_empty t.vendor then codes "unknown" else t.vendor in
    add_version (append_part (dashed t.cpu ++ vendor) t.system) t.vendor t.system t.version

abbrev pub or_else : Sign → Sign → Sign
or_else equal later = later
or_else less later = less
or_else greater later = greater

-- `compare`.
unfoldable pub compare_triplets : TargetTriplet → TargetTriplet → Sign
compare_triplets x y = or_else (compare_bytes x.cpu y.cpu) (
    or_else (compare_bytes x.vendor y.vendor)
      (or_else (compare_bytes x.system y.system) (compare_bytes x.version y.version)))

-- `operator==`.
unfoldable pub equals : TargetTriplet → TargetTriplet → Bool
equals x y = elim (compare_triplets x y) [ less ↦ false | equal ↦ true | greater ↦ false ]
