-- ===== src/ProjectName/Names.antt =====
-- The operations of project_name.
use libbutl.Prelude.{
  ℕ, ◌+◌, Bool, true, false, not, ◌&&◌, ◌||◌, Option, none, some, List, [], ◌∷◌, reverse, ◌==◌, ltb,
  leb, if◌then◌else◌, Bytes, length, is_empty, has_byte, bytes_eq, codes, Result, ok, err, ◌>>◌,
  throw_if,
}

-- `alpha`, `digit` and `alnum`.
abbrev pub alpha : ℕ → Bool
alpha c = (leb 65 c && leb c 90) || (leb 97 c && leb c 122)

abbrev pub digit : ℕ → Bool
digit c = leb 48 c && leb c 57

abbrev pub alnum : ℕ → Bool
alnum c = alpha c || digit c

-- `lcase` of a character.
abbrev pub lcase : ℕ → ℕ
lcase c = if leb 65 c && leb c 90 then c + 32 else c

abbrev pub illegal_prj_names : List Bytes
illegal_prj_names =
    codes "build"
    ∷ codes "con"
    ∷ codes "prn"
    ∷ codes "aux"
    ∷ codes "nul"
    ∷ codes "com1"
    ∷ codes "com2"
    ∷ codes "com3"
    ∷ codes "com4"
    ∷ codes "com5"
    ∷ codes "com6"
    ∷ codes "com7"
    ∷ codes "com8"
    ∷ codes "com9"
    ∷ codes "lpt1"
    ∷ codes "lpt2"
    ∷ codes "lpt3"
    ∷ codes "lpt4"
    ∷ codes "lpt5"
    ∷ codes "lpt6"
    ∷ codes "lpt7"
    ∷ codes "lpt8"
    ∷ codes "lpt9"
    ∷ []

abbrev pub legal_prj_chars : Bytes
legal_prj_chars = codes "_+-."

-- `find (names, nm) != names.end ()`.
unfoldable pub is_one_of : Bytes → List Bytes → Bool
is_one_of nm [] = false
is_one_of nm (x ∷ xs) = bytes_eq nm x || is_one_of nm xs

abbrev pub legal_char : ℕ → Bool
legal_char c = alnum c || has_byte c legal_prj_chars

-- The loop over the characters between the first and the last, and the check of the last.
unfoldable pub check_rest : Bytes → Result (Unit {0})
check_rest [] = ok tt
check_rest (c ∷ []) =
    throw_if (not (alnum c) && not (c == 43))
      "illegal last character (must be alphabetic, digit, or plus)"
check_rest (c ∷ d ∷ s) =
    let rest = check_rest (d ∷ s) in if not (legal_char c) then err "illegal character" else rest

unfoldable pub check_first : Bytes → Result (Unit {0})
check_first [] = ok tt
check_first (c ∷ s) =
    throw_if (not (alpha c)) "illegal first character (must be alphabetic)" >> check_rest s

-- The constructor from a string; a name is its string.
unfoldable pub project_name : Bytes → Result Bytes
project_name nm = do
  throw_if (ltb (length nm) 2) "length is less than two characters"
  throw_if (is_one_of nm illegal_prj_names) "illegal name"
  check_first nm
  ok nm

-- The part in front of an extension, read backwards, is not empty and does not end with `/`.
abbrev pub before_dot : Bytes → Bool
before_dot [] = false
before_dot (c ∷ s) = not (c == 47)

-- The scan of `find_extension` from the end: what stands before and after the last dot of the last
-- component, if it is a dot in the middle. The text after the dot is collected.
unfoldable pub scan_extension : Bytes → Bytes → Option (Bytes × Bytes)
scan_extension [] e = none
scan_extension (c ∷ s) e =
    let rest = scan_extension s (c ∷ e) in
    if c == 46
    then (if before_dot s && not (is_empty e) then some (reverse s, e) else none)
    else if c == 47
    then none
    else rest

-- `find_extension`, with the two sides of its position.
unfoldable pub find_extension : Bytes → Option (Bytes × Bytes)
find_extension s = scan_extension (reverse s) []

-- `icasecmp (l, r) == 0`.
unfoldable pub same_ignoring_case : Bytes → Bytes → Bool
same_ignoring_case [] [] = true
same_ignoring_case [] (r ∷ rs) = false
same_ignoring_case (l ∷ ls) [] = false
same_ignoring_case (l ∷ ls) (r ∷ rs) = lcase l == lcase r && same_ignoring_case ls rs

-- `base`, where `none` stands for the null pointer, at the extension that is found.
unfoldable pub base_of : Option Bytes → Bytes → Option (Bytes × Bytes) → Bytes
base_of ext value none = value
base_of none value (some p) = p.0
base_of (some e) value (some p) = if same_ignoring_case p.1 e then p.0 else value

unfoldable pub base : Option Bytes → Bytes → Bytes
base ext value = base_of ext value (find_extension value)

-- `extension`.
unfoldable pub extension : Bytes → Bytes
extension value = elim (find_extension value) [ none ↦ [] | some p ↦ p.1 ]
