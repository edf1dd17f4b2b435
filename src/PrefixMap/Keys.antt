-- ===== src/PrefixMap/Keys.antt =====
-- compare_prefix of libbutl/prefix-map.hxx for strings, with the delimiter `d`.
use libbutl.Prelude.{
  ℕ, ◌+◌, Bool, true, false, ◌&&◌, ◌||◌, Option, none, some, [], ◌∷◌, ◌==◌, ltb, leb, if◌then◌else◌,
  Bytes, length, take, is_empty, Sign, less, equal, greater,
}

abbrev pub compare_chars : ℕ → ℕ → Sign → Sign
compare_chars x y r = if x == y then r else if ltb x y then less else greater

-- `compare`, at the first characters that differ or at the end of the shorter text.
unfoldable pub compare : ℕ → Bytes → Bytes → Sign
compare d [] [] = equal
compare d [] (y ∷ ys) = compare_chars d y (if is_empty ys then equal else less)
compare d (x ∷ xs) [] = compare_chars x d (if is_empty xs then equal else greater)
compare d (x ∷ xs) (y ∷ ys) = let rest = compare d xs ys in compare_chars x y rest

abbrev pub equivalent : Sign → Bool
equivalent equal = true
equivalent less = false
equivalent greater = false

-- `prefix (p, k)`.
unfoldable pub prefix : ℕ → Bytes → Bytes → Bool
prefix d p k =
    let n = if length p == length k then length p else length p + 1 in
    is_empty p || (leb (length p) (length k) && equivalent (compare d p (take n k)))

-- The text before the last `d`.
unfoldable pub before_last : ℕ → Bytes → Option Bytes
before_last d [] = none
before_last d (c ∷ s) = elim (before_last d s) [
  | some t ↦ some (c ∷ t)
  | none ↦ if c == d then some [] else none
]

-- `prefix (k)`: the prefix of a key that is not empty.
unfoldable pub shorten : ℕ → Bytes → Option Bytes
shorten d [] = none
shorten d (c ∷ s) = elim (before_last d (c ∷ s)) [ none ↦ some [] | some t ↦ some t ]
