-- ===== src/Path/Traits.antt =====
-- path_traits of libbutl/path.hxx and path.ixx. A position in a string is the two texts around it.
use libbutl.Prelude.{
  ℕ, ◌-◌, Bool, true, false, not, ◌&&◌, ◌||◌, Option, none, some, [], ◌∷◌, ◌++◌, ◌==◌, ltb, leb,
  if◌then◌else◌, Bytes, length, take, drop, is_empty, bytes_eq, codes, Sign, less, equal, greater,
}

abbrev pub is_separator : ℕ → Bool
is_separator c = c == b'/'

abbrev pub absolute : Bytes → Bool
absolute [] = false
absolute (c ∷ s) = is_separator c

abbrev pub current : Bytes → Bool
current s = bytes_eq s (codes ".")

abbrev pub parent : Bytes → Bool
parent s = bytes_eq s (codes "..")

abbrev pub root : Bytes → Bool
root s = bytes_eq s (codes "/")

-- The texts before and after the first and the last separator.
unfoldable pub find_separator : Bytes → Option (Bytes × Bytes)
find_separator [] = none
find_separator (c ∷ s) =
    let rest = find_separator s in
    if is_separator c
    then some ([], s)
    else elim rest [ none ↦ none | some (x, y) ↦ some (c ∷ x, y) ]

unfoldable pub rfind_separator : Bytes → Option (Bytes × Bytes)
rfind_separator [] = none
rfind_separator (c ∷ s) = elim (rfind_separator s) [
  | some (x, y) ↦ some (c ∷ x, y)
  | none ↦ if is_separator c then some ([], s) else none
]

-- The loop of `normalized`, with the component that is being read.
unfoldable pub normalized_loop : Bytes → Bytes → Bool
normalized_loop p [] = not (parent p || current p)
normalized_loop p (c ∷ s) =
    let next = normalized_loop [] s in
    let more = normalized_loop (p ++ c ∷ []) s in
    if is_separator c
    then (if absolute s then false else if parent p || current p then false else next)
    else more

unfoldable pub normalized : Bytes → Bool
normalized s = normalized_loop [] s

-- `path_abnormality`, a set of flags.
pub record Abnormality : Type 0 where
  pub separators : Bool
  pub currents : Bool
  pub parents : Bool

abbrev pub no_abnormality : Abnormality
no_abnormality = record { separators = false; currents = false; parents = false }

abbrev pub none_of : Abnormality → Bool
none_of r = not (r.separators || r.currents || r.parents)

abbrev pub add_component : Abnormality → Bytes → Abnormality
add_component r p =
    if parent p
    then record r { parents = true }
    else if current p
    then record r { currents = true }
    else r

unfoldable pub abnormalities_loop : Abnormality → Bytes → Bytes → Abnormality
abnormalities_loop r p [] = add_component r p
abnormalities_loop r p (c ∷ s) =
    let q = if absolute s then record r { separators = true } else r in
    let next = abnormalities_loop (add_component q p) [] s in
    let more = abnormalities_loop r (p ++ c ∷ []) s in if is_separator c then next else more

unfoldable pub abnormalities : Bytes → Abnormality
abnormalities s = abnormalities_loop no_abnormality [] s

-- `lc < rc` for characters, which are signed.
abbrev pub less_char : ℕ → ℕ → Bool
less_char l r = if ltb l 128 then ltb r 128 && ltb l r else ltb r 128 || ltb l r

-- `compare`.
unfoldable pub compare : Bytes → Bytes → Sign
compare [] [] = equal
compare [] (d ∷ r) = less
compare (c ∷ l) [] = greater
compare (c ∷ l) (d ∷ r) =
    let rest = compare l r in
    if is_separator c && is_separator d
    then rest
    else if less_char c d
    then less
    else if less_char d c
    then greater
    else rest

abbrev pub is_equal : Sign → Bool
is_equal equal = true
is_equal less = false
is_equal greater = false

abbrev pub ends_with_separator : Bytes → Bool
ends_with_separator [] = false
ends_with_separator (c ∷ []) = is_separator c
ends_with_separator (c ∷ d ∷ s) = ends_with_separator (d ∷ s)

-- `sub`: `p` is a prefix of `s`.
unfoldable pub sub : Bytes → Bytes → Bool
sub s p =
    is_empty p
    || (leb (length p) (length s)
        && is_equal (compare (take (length p) s) p)
        && (ends_with_separator p || length s == length p || absolute (drop (length p) s)))

-- `sup`: `p` is a suffix of `s`.
unfoldable pub sup : Bytes → Bytes → Bool
sup s p =
    let n = length s - length p in
    is_empty p
    || (leb (length p) (length s)
        && is_equal (compare (drop n s) p)
        && (length s == length p || ends_with_separator (take n s)))
